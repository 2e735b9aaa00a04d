-- ===== src/Input/Windows/Sink/Stuck.antt =====
-- A left modifier key that stays down in Windows while the sink believes that it is not held.
use omnipresent.Prelude.{
  not, is_some, if◌then◌else◌, ◌≡◌, ◌≢◌, ◌<◌, ℕ, Bool, true, false, none, some, List, [], ◌∷◌, ◌++◌,
  ◌==◌, ◌&&◌, ◌||◌, arith, refl, Bool-cases, Option-cases, inl, inr, nat_eq, nat_beq_iff, ◌∙◌,
}
use omnipresent.Prelude.Bounded.{holds_below, tested}
use omnipresent.Prelude.Lists.{All}
use omnipresent.Protocol.Input.{
  modifier, Action, press, release, key, contains, with_modifiers, without, Modifiers, KeyCode,
  all_modifiers,
}
use omnipresent.Input.Keymap.Windows.{VirtualKey, key_from_hid}
use omnipresent.Input.Windows.Sink.{
  Os, Injecting, ModifierFix, releases, presses, reconcile, change_held, apply_fixes,
  apply_modifiers, inject, inject_key, inject_mapped, and_then, modifier_key, key_input, Result,
}
use omnipresent.Input.Windows.Sink.Repair.{change_held_lem, modifier_key-lt, down}
use omnipresent.Input.Windows.Sink.InStep.{key_from_hid-ordinary}
use omnipresent.Input.Windows.Sink.Chords.{send-cases}
use omnipresent.Input.Windows.Sink.Pairs.{right_key-left_down, is_right, down_other}

-- The repair has nothing to do with the modifier.
abbrev Avoids : Modifiers → List ModifierFix → Type 0
Avoids i fixes = All (λ fix. (fix.modifier == i) ≡ false) fixes

All-append :
    (i : Modifiers) (xs ys : List ModifierFix) → Avoids i xs → Avoids i ys → Avoids i (xs ++ ys)
All-append i [] ys p q = q
All-append i (x ∷ xs) ys p q = (p.0, All-append i xs ys p.1 q)

-- What is held is another modifier than one that is not.
held_other :
    (held i m : Modifiers) → contains held i ≡ false → contains held m ≡ true → (m == i) ≡ false
held_other held i m n h = elim (Bool-cases (m == i)) [
  | inl y ↦ let e : m ≡ i = (nat_beq_iff m i).0 y in absurd (cc (rw e at h, n))
  | inr o ↦ o
]

releases-Avoids :
    (held wanted i : Modifiers) (ms : List Modifiers)
    → contains held i ≡ false
    → Avoids i (releases held wanted ms)
releases-Avoids held wanted i [] n = tt
releases-Avoids held wanted i (m ∷ ms) n =
    elim (Bool-cases (contains held m && not (contains wanted m))) [
      | inl y ↦
          rw (y, releases)
            (held_other held i m n (ground (arith, y)), releases-Avoids held wanted i ms n)
      | inr o ↦ rw (o, releases) (releases-Avoids held wanted i ms n)
    ]

presses-Avoids :
    (held wanted i : Modifiers) (ms : List Modifiers)
    → contains wanted i ≡ false
    → Avoids i (presses held wanted ms)
presses-Avoids held wanted i [] n = tt
presses-Avoids held wanted i (m ∷ ms) n =
    elim (Bool-cases (contains wanted m && not (contains held m))) [
      | inl y ↦
          rw (y, presses)
            (held_other wanted i m n (ground (arith, y)), presses-Avoids held wanted i ms n)
      | inr o ↦ rw (o, presses) (presses-Avoids held wanted i ms n)
    ]

reconcile-Avoids :
    (held wanted i : Modifiers)
    → contains held i ≡ false
    → contains wanted i ≡ false
    → Avoids i (reconcile held wanted)
unfolding reconcile
reconcile-Avoids held wanted i n w =
    All-append i (releases held wanted all_modifiers) (presses held wanted all_modifiers)
      (releases-Avoids held wanted i all_modifiers n) (presses-Avoids held wanted i all_modifiers w)

abbrev bit_kept : ℕ → ℕ → ℕ → Bool
bit_kept i m h =
    if is_some (modifier_key i)
      && (is_some (modifier_key m) && (not (m == i) && not (contains h i)))
    then not (contains (with_modifiers h m) i) && not (contains (without h m) i)
    else true

every_bit : holds_below (λ i. holds_below (λ m. holds_below (bit_kept i m) 16) 16) 16 ≡ true
unfolding holds_below modifier_key contains with_modifiers without
every_bit = refl

abbrev keys_differ : ℕ → ℕ → Bool
keys_differ i m = elim (modifier_key i) [
  | none ↦ true
  | some v ↦ elim (modifier_key m) [ none ↦ true | some w ↦ m == i || not (w == v) ]
]

every_key : holds_below (λ i. holds_below (keys_differ i) 16) 16 ≡ true
unfolding holds_below modifier_key
every_key = refl

other_key :
    (i m vk v : ℕ) → modifier_key i ≡ some vk → modifier_key m ≡ some v → (m == i) ≡ false → v ≢ vk
other_key i m vk v e f n =
    let t =
      tested (keys_differ i) 16 m (modifier_key-lt m v f)
        (tested (λ j. holds_below (keys_differ j) 16) 16 i (modifier_key-lt i vk e) every_key) in
    let u = rw (e, f, n, keys_differ) at t in λ p. absurd (ground (arith, u, p))

ordinary_key :
    (code : KeyCode) (k : VirtualKey) (i vk : ℕ)
    → modifier code ≡ none
    → key_from_hid code ≡ some k
    → modifier_key i ≡ some vk
    → k.vk ≢ vk
unfolding modifier_key
ordinary_key code k i vk n q e =
    let (a, b, c, d) = key_from_hid-ordinary code k n q in λ p. ground (arith, a, b, c, d, e, p)

change_other :
    (a : Action) (i m vk v h : ℕ)
    → modifier_key i ≡ some vk
    → modifier_key m ≡ some v
    → (m == i) ≡ false
    → contains h i ≡ false
    → h < 16
    → contains (change_held m a h) i ≡ false
change_other a i m vk v h e f n c l =
    let rows =
      tested (λ j. holds_below (λ k. holds_below (bit_kept j k) 16) 16) 16 i
        (modifier_key-lt i vk e) every_bit in
    let t =
      tested (bit_kept i m) 16 h l
        (tested (λ k. holds_below (bit_kept i k) 16) 16 m (modifier_key-lt m v f) rows) in
    let u = rw (e, f, n, c, bit_kept) at t in
    elim a [ press ↦ ground (arith, u) | release ↦ ground (arith, u) ]

-- The sink believes that the modifier is not held, and Windows has its left key down.
abbrev IsStuck : Modifiers → ℕ → Injecting → Type 0
IsStuck i vk r = (r.sink.held < 16) × (contains r.sink.held i ≡ false) × (down r.taken vk ≡ true)

abbrev Typed : Type 0
Typed = KeyCode × Action × Modifiers

-- Each key is an ordinary one, pressed or released without the modifier.
abbrev pub Spares : Modifiers → List Typed → Type 0
Spares i = All (λ t. (modifier t.0 ≡ none) × (contains t.2 i ≡ false))

module _ (os : Os) where
  -- `inject`, called for one key after another, whatever becomes of each
  unfoldable pub type_all : List Typed → Injecting → Injecting
  type_all [] r = r
  type_all (t ∷ ts) r = type_all ts (inject os (key t.0 t.1 t.2) r).0

  apply_fixes-IsStuck :
      (i vk : ℕ) (fixes : List ModifierFix) (r : Injecting)
      → modifier_key i ≡ some vk
      → Avoids i fixes
      → IsStuck i vk r
      → IsStuck i vk (apply_fixes os fixes r).0
  unfolding apply_fixes
  apply_fixes-IsStuck i vk [] r e p h = h
  apply_fixes-IsStuck i vk (fix ∷ fixes) r e p h = elim (Option-cases (modifier_key fix.modifier)) [
    | inl n ↦ rw (n, apply_fixes) (apply_fixes-IsStuck i vk fixes r e p.1 h)
    | inr (v, f) ↦ elim (send-cases os (key_input v false fix.action) r) [
      | inl y ↦
          rw (f, apply_fixes, y)
            (apply_fixes-IsStuck i vk fixes _ e p.1 (
              (change_held_lem fix.action fix.modifier v r.sink.held f h.0).1,
              change_other fix.action i fix.modifier vk v r.sink.held e f p.0 h.1 h.0,
              down_other v vk false fix.action r.taken (other_key i fix.modifier vk v e f p.0)
                  ∙ h.2,
            ))
      | inr z ↦ rw (f, apply_fixes, z) h
    ]
  ]

  inject_mapped-IsStuck :
      (code : KeyCode) (a : Action) (i vk : ℕ) (r : Injecting)
      → modifier code ≡ none
      → modifier_key i ≡ some vk
      → IsStuck i vk r
      → IsStuck i vk (inject_mapped os code a r).0
  inject_mapped-IsStuck code a i vk r n e h = elim (Option-cases (key_from_hid code)) [
    | inl z ↦ rw (z, inject_mapped) h
    | inr (k, q) ↦ elim (send-cases os (key_input k.vk k.extended a) r) [
      | inl y ↦
          rw (q, inject_mapped, y)
            (
              h.0,
              h.1,
              down_other k.vk vk k.extended a r.taken (ordinary_key code k i vk n q e) ∙ h.2,
            )
      | inr z ↦ rw (q, inject_mapped, z) h
    ]
  ]

  then-IsStuck :
      (code : KeyCode) (a : Action) (i vk : ℕ) (t : Result)
      → modifier code ≡ none
      → modifier_key i ≡ some vk
      → IsStuck i vk t.0
      → IsStuck i vk (and_then t (inject_mapped os code a)).0
  then-IsStuck code a i vk (r, true) n e h = inject_mapped-IsStuck code a i vk r n e h
  then-IsStuck code a i vk (r, false) n e h = h

  inject-IsStuck :
      (code : KeyCode) (a : Action) (w : Modifiers) (i vk : ℕ) (r : Injecting)
      → modifier code ≡ none
      → contains w i ≡ false
      → modifier_key i ≡ some vk
      → IsStuck i vk r
      → IsStuck i vk (inject os (key code a w) r).0
  unfolding inject inject_key apply_modifiers
  inject-IsStuck code a w i vk r n c e h =
      rw (n, inject, inject_key, apply_modifiers)
        (then-IsStuck code a i vk (apply_fixes os (reconcile r.sink.held w) r) n e (
          apply_fixes-IsStuck i vk (reconcile r.sink.held w) r e
            (reconcile-Avoids r.sink.held w i h.1 c) h))

  type_all-IsStuck :
      (i vk : ℕ) (ts : List Typed) (r : Injecting)
      → modifier_key i ≡ some vk
      → Spares i ts
      → IsStuck i vk r
      → IsStuck i vk (type_all ts r)
  unfolding type_all
  type_all-IsStuck i vk [] r e p h = h
  type_all-IsStuck i vk ((code, a, w) ∷ ts) r e p h =
      type_all-IsStuck i vk ts (inject os (key code a w) r).0 e p.1
        (inject-IsStuck code a w i vk r p.0.0 p.0.1 e h)

  -- When the right key of a modifier is released while by the calls that Windows took the left one is
  -- down, the sink believes from then on that the modifier is not held although its left key is down, however many
  -- ordinary keys are pressed and released without the modifier, and whichever of their calls Windows
  -- takes: no repair lets the key go. The sink's bits are the four, and Windows takes the release.
  pub right_key-type_all :
      (code : KeyCode) (m i : Modifiers) (vk : ℕ) (typed : List Typed) (r : Injecting)
      → is_right code ≡ true
      → modifier code ≡ some i
      → modifier_key i ≡ some vk
      → r.sink.held < 16
      → down r.taken vk ≡ true
      → (inject os (key code release m) r).1 ≡ true
      → Spares i typed
      → let s = type_all typed (inject os (key code release m) r).0 in
        (contains s.sink.held i ≡ false) × (down s.taken vk ≡ true)
  right_key-type_all code m i vk typed r h e v l d o p =
      let s = (inject os (key code release m) r).0 in
      let (x, b, c) =
        type_all-IsStuck i vk typed s v p (right_key-left_down os code m i vk r h e v l d o) in
      (b, c)
