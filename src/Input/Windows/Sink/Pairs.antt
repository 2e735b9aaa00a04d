-- ===== src/Input/Windows/Sink/Pairs.antt =====
-- The two keys of a modifier share the one bit that the sink keeps for it.
use omnipresent.Prelude.{
  not, is_some, if◌then◌else◌, ◌≡◌, Bool, true, false, some, List, ◌∷◌, ◌==◌, arith, refl,
  Bool-cases, inl, inr, ◌<◌, ◌≢◌, ℕ, nat_eq, nat_beq_iff, ◌&&◌, leb, ◌∙◌,
}
use omnipresent.Prelude.Bounded.{holds_below, tested}
use omnipresent.Protocol.Input.{
  modifier, Action, release, key, contains, without, Modifiers, KeyCode, control, shift, alt, meta,
}
use omnipresent.Input.Keymap.Windows.{windows_hid, key_from_hid, VirtualKey}
use omnipresent.Input.Windows.Sink.{
  Call, inject, inject_key, inject_mapped, Os, Injecting, modifier_key, key_input, set_held,
}
use omnipresent.Input.Windows.Sink.Repair.{change_held_lem, modifier_key-lt, down}
use omnipresent.Input.Windows.Sink.Chords.{send-cases}

-- The right key of a modifier.
abbrev pub is_right : KeyCode → Bool
is_right code = leb 0xE4 code && leb code 0xE7

-- A right key stands for the modifier of the left one, but is another virtual key.
right_code :
    (code : KeyCode)
    → is_right code ≡ true
    → (i : Modifiers) × (k : VirtualKey) × (modifier code ≡ some i)
      × (key_from_hid code ≡ some k)
      × (modifier_key i ≢ some k.vk)
unfolding modifier modifier_key key_from_hid windows_hid
right_code code h = elim (Bool-cases (code == 0xE4)) [
  | inl y ↦
      rw ((nat_beq_iff code 0xE4).0 y)
        (control, record { vk = 0xA3; extended = true }, refl, refl, ground arith)
  | inr n0 ↦ elim (Bool-cases (code == 0xE5)) [
    | inl y ↦
        rw ((nat_beq_iff code 0xE5).0 y)
          (shift, record { vk = 0xA1; extended = false }, refl, refl, ground arith)
    | inr n1 ↦ elim (Bool-cases (code == 0xE6)) [
      | inl y ↦
          rw ((nat_beq_iff code 0xE6).0 y)
            (alt, record { vk = 0xA5; extended = true }, refl, refl, ground arith)
      | inr n2 ↦
          let e : code ≡ 0xE7 = ground arith in
          rw e (meta, record { vk = 0x5C; extended = true }, refl, refl, ground arith)
    ]
  ]
]

abbrev cleared : ℕ → ℕ → Bool
cleared i h = if is_some (modifier_key i) then not (contains (without h i) i) else true

every_cleared : holds_below (λ i. holds_below (cleared i) 16) 16 ≡ true
unfolding holds_below modifier_key contains without
every_cleared = refl

without-contains :
    (i vk h : ℕ) → modifier_key i ≡ some vk → h < 16 → contains (without h i) i ≡ false
without-contains i vk h e l =
    let t =
      tested (cleared i) 16 h l
        (tested (λ j. holds_below (cleared j) 16) 16 i (modifier_key-lt i vk e) every_cleared) in
    let u = rw e at t in ground arith

pub down_other :
    (a b : ℕ) (x : Bool) (c : Action) (calls : List Call)
    → a ≢ b
    → down (key_input a x c ∷ calls) b ≡ down calls b
down_other a b x c calls h = ground arith

module _ (os : Os) where
  -- The released right key of a modifier leaves the left one down where it was, but the sink then
  -- believes that the modifier is not held. The sink's bits are the four, and stay so, and Windows takes
  -- the release.
  pub right_key-left_down :
      (code : KeyCode) (m i : Modifiers) (vk : ℕ) (r : Injecting)
      → is_right code ≡ true
      → modifier code ≡ some i
      → modifier_key i ≡ some vk
      → r.sink.held < 16
      → down r.taken vk ≡ true
      → (inject os (key code release m) r).1 ≡ true
      → let s = (inject os (key code release m) r).0 in
        (s.sink.held < 16) × (contains s.sink.held i ≡ false) × (down s.taken vk ≡ true)
  unfolding inject inject_key
  right_key-left_down code m i vk r h e v l d o =
      let (j, k, p, q, n) = right_code code h in
      let s = set_held (without r.sink.held i) r in
      let same : i ≡ j = ground (arith, e, p) in
      let w : k.vk ≢ vk = λ t. n (rw (← same, t) v) in
      elim (send-cases os (key_input k.vk k.extended release) s) [
        | inl y ↦
            rw (e, inject, inject_key, q, inject_mapped, y)
              (
                (change_held_lem release i vk r.sink.held v l).1,
                without-contains i vk r.sink.held v l,
                down_other k.vk vk k.extended release r.taken w ∙ d,
              )
        | inr z ↦ absurd (ground (arith, rw (e, inject, inject_key, q, inject_mapped, z) at o))
      ]
