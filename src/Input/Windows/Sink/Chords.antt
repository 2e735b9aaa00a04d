-- ===== src/Input/Windows/Sink/Chords.antt =====
-- A key that is injected finds exactly the modifiers down that its event says are held.
use omnipresent.Prelude.{
  ap, ◌<◌, nat_beq_iff, some, ◌&&◌, leb, list_eq, ◌⊎◌, ℕ, ◌≡◌, ◌≢◌, Bool, true, false, none, List,
  ◌∷◌, ◌==◌, nat_eq, arith, refl, Bool-cases, Option-cases, inl, inr, ◌∙◌, sym,
}
use omnipresent.Prelude.Int.{int_eq}
use omnipresent.Protocol.Input.{control, shift, alt, meta, modifier, Action, Modifiers, KeyCode}
use omnipresent.Input.Keymap.Windows.{VirtualKey, windows_hid, key_from_hid}
use omnipresent.Input.Windows.Sink.{
  key, inject, change_held, set_held, modifier_key, key_input, send, inject_mapped, inject_key,
  apply_modifiers, apply_fixes, reconcile, Os, Injecting, Call, Result, and_then,
}
use omnipresent.Input.Windows.Sink.Repair.{bits, keys_down}
use omnipresent.Input.Windows.Sink.InStep.{
  fixed-reconcile, apply_fixes-held, fixed_lem, InStep, apply_fixes-InStep, key_from_hid-ordinary,
}

-- Another virtual key changes none of the four.
keys_down_other :
    (vk : ℕ) (x : Bool) (a : Action) (calls : List Call)
    → (vk ≢ 0xA0) × (vk ≢ 0xA2) × (vk ≢ 0xA4) × (vk ≢ 0x5B)
    → keys_down (key_input vk x a ∷ calls) ≡ keys_down calls
keys_down_other vk x a calls h = ground arith

-- The left key of a modifier: Left Control, Left Shift, Left Alt, Left Meta.
abbrev pub is_left : KeyCode → Bool
is_left code = leb 0xE0 code && leb code 0xE3

left_code :
    (code : KeyCode)
    → is_left code ≡ true
    → (i : Modifiers) × (k : VirtualKey) × (modifier code ≡ some i)
      × (modifier_key i ≡ some k.vk)
      × (key_from_hid code ≡ some k)
unfolding modifier modifier_key key_from_hid windows_hid
left_code code h = elim (Bool-cases (code == 0xE0)) [
  | inl y ↦
      rw ((nat_beq_iff code 0xE0).0 y)
        (control, record { vk = 0xA2; extended = false }, refl, refl, refl)
  | inr n0 ↦ elim (Bool-cases (code == 0xE1)) [
    | inl y ↦
        rw ((nat_beq_iff code 0xE1).0 y)
          (shift, record { vk = 0xA0; extended = false }, refl, refl, refl)
    | inr n1 ↦ elim (Bool-cases (code == 0xE2)) [
      | inl y ↦
          rw ((nat_beq_iff code 0xE2).0 y)
            (alt, record { vk = 0xA4; extended = false }, refl, refl, refl)
      | inr n2 ↦
          let e : code ≡ 0xE3 = ground arith in
          rw e (meta, record { vk = 0x5B; extended = true }, refl, refl, refl)
    ]
  ]
]

-- A second step that returned `Ok` was taken after a first that did.
and_then_ok :
    (p : Result) (next : Injecting → Result)
    → (and_then p next).1 ≡ true
    → (p.1 ≡ true) × (and_then p next ≡ next p.0)
and_then_ok (r, true) next h = (refl, refl)
and_then_ok (r, false) next h = absurd (ground arith)

module _ (os : Os) where
  -- What a call may change, by whether it is taken.
  pub send-cases :
      (c : Call) (r : Injecting)
      → (send os c r ≡ (record r { taken = c ∷ r.taken }, true)) ⊎ (send os c r ≡ (r, false))
  unfolding send
  send-cases c r = elim (Bool-cases (os.takes r.taken c)) [
    | inl y ↦ inl (rw y refl)
    | inr n ↦ inr (rw n refl)
  ]

  pub send-InStep :
      (c : Call) (r : Injecting)
      → keys_down (c ∷ r.taken) ≡ keys_down r.taken
      → InStep r
      → InStep (send os c r).0
  send-InStep c r q h = elim (send-cases c r) [ inl y ↦ rw y (h.0, h.1 ∙ sym q) | inr n ↦ rw n h ]

  inject_mapped-InStep :
      (code : KeyCode) (a : Action) (r : Injecting)
      → modifier code ≡ none
      → InStep r
      → InStep (inject_mapped os code a r).0
  inject_mapped-InStep code a r m h = elim (Option-cases (key_from_hid code)) [
    | inl n ↦ rw (n, inject_mapped) h
    | inr (k, e) ↦
        rw (e, inject_mapped)
          (send-InStep (key_input k.vk k.extended a) r
            (keys_down_other k.vk k.extended a r.taken (key_from_hid-ordinary code k m e)) h)
  ]

  pub and_then-InStep :
      (p : Result) (next : Injecting → Result)
      → InStep p.0
      → ((s : Injecting) → InStep s → InStep (next s).0)
      → InStep (and_then p next).0
  and_then-InStep (r, true) next h k = k r h
  and_then-InStep (r, false) next h k = h

  -- An ordinary key leaves the sink in step, whatever Windows takes or refuses.
  pub inject_key-InStep :
      (code : KeyCode) (a : Action) (m : Modifiers) (r : Injecting)
      → modifier code ≡ none
      → InStep r
      → InStep (inject_key os code a m r).0
  unfolding inject_key apply_modifiers
  inject_key-InStep code a m r n h =
      rw (n, inject_key)
        (and_then-InStep (apply_fixes os (reconcile r.sink.held m) r) (inject_mapped os code a)
          (apply_fixes-InStep os (reconcile r.sink.held m) r h)
          (λ s g. inject_mapped-InStep code a s n g))

  -- A modifier's left key that Windows takes leaves the sink in step.
  pub left_key-InStep :
      (code : KeyCode) (a : Action) (m : Modifiers) (r : Injecting)
      → is_left code ≡ true
      → (inject_key os code a m r).1 ≡ true
      → InStep r
      → InStep (inject_key os code a m r).0
  unfolding inject_key
  left_key-InStep code a m r l o h =
      let (i, k, p, q, e) = left_code code l in
      let s = set_held (change_held i a r.sink.held) r in
      let c = key_input k.vk k.extended a in
      elim (send-cases c s) [
        | inl y ↦ rw (p, inject_key, inject_mapped, e, y) (fixed_lem os a k.extended i k.vk r q h)
        | inr n ↦ absurd (ground (arith, rw (p, inject_key, inject_mapped, e, n) at o))
      ]

  mapped_chord :
      (code : KeyCode) (a : Action) (k : VirtualKey) (s : Injecting)
      → key_from_hid code ≡ some k
      → (inject_mapped os code a s).1 ≡ true
      → (inject_mapped os code a s).0 ≡ record s { taken = key_input k.vk k.extended a ∷ s.taken }
  mapped_chord code a k s e o = elim (send-cases (key_input k.vk k.extended a) s) [
    | inl y ↦ rw (e, inject_mapped, y) refl
    | inr n ↦ absurd (ground (arith, rw (e, inject_mapped, n) at o))
  ]

  -- In a sink in step, an ordinary key that has a virtual key in the keymap, that is injected with
  -- `Ok`, and whose event carries modifiers among the four, is the last call that Windows took; before
  -- it, the left modifier keys that were down are exactly those of the event, and the sink believes
  -- just these to be held.
  pub inject_key-chord :
      (code : KeyCode) (a : Action) (m : Modifiers) (k : VirtualKey) (r : Injecting)
      → modifier code ≡ none
      → m < 16
      → key_from_hid code ≡ some k
      → InStep r
      → (inject os (key code a m) r).1 ≡ true
      → let s = (inject os (key code a m) r).0 in
        (before : List Call) × (s.taken ≡ key_input k.vk k.extended a ∷ before)
        × (keys_down before ≡ bits m)
        × (s.sink.held ≡ m)
  unfolding inject inject_key apply_modifiers
  inject_key-chord code a m k r n l e h o =
      let p = apply_fixes os (reconcile r.sink.held m) r in
      let q : and_then p (inject_mapped os code a) ≡ inject os (key code a m) r =
        rw (n, inject, inject_key, apply_modifiers) refl in
      let o' : (and_then p (inject_mapped os code a)).1 ≡ true = rw q o in
      let (y, z) = and_then_ok p (inject_mapped os code a) o' in
      let g =
        apply_fixes-held os (reconcile r.sink.held m) r y ∙ fixed-reconcile m r.sink.held l h.0 in
      let i = apply_fixes-InStep os (reconcile r.sink.held m) r h in
      let c = mapped_chord code a k p.0 e (rw z at o') in
      let f = sym q ∙ z in
      (
        p.0.taken,
        ap (λ t. t.0.taken) f ∙ ap (λ t. t.taken) c,
        sym i.1 ∙ ap bits g,
        (ap (λ t. t.0.sink.held) f ∙ ap (λ t. t.sink.held) c) ∙ g,
      )
