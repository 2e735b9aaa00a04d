-- ===== src/Input/Windows/Sink/InStep.antt =====
-- The modifiers that the sink believes are down are those that Windows has down, before and after
-- every event.
use omnipresent.Input.Keymap.Windows.{hid_from_key-left, hid_from_key-key_from_hid}
use omnipresent.Input.Windows.Sink.{
  key_from_hid, VirtualKey, KeyCode, key_input, change_held, send, set_held, ModifierFix,
  apply_fixes, modifier_key, reconcile, Os, Injecting,
}
use omnipresent.Prelude.{
  ◌≢◌, ℕ, ◌<◌, ◌≡◌, Bool, true, false, none, some, List, [], ◌∷◌, ◌==◌, nat_eq, arith, refl,
  nat_beq_iff, Bool-cases, Option-cases, inl, inr, ◌∙◌, sym, ap,
}
use omnipresent.Prelude.Bounded.{holds_below, tested}
use omnipresent.Protocol.Input.{modifier, Action, Modifiers, contains, with_modifiers, without}
use omnipresent.Input.Windows.Sink.Repair.{
  is_press, set_bit, change_held_lem, sent_lem, keys_down, bits,
}

abbrev pub InStep : Injecting → Type 0
InStep r = (r.sink.held < 16) × (bits r.sink.held ≡ keys_down r.taken)

-- What the fixes make of the modifiers held.
abbrev fixed : List ModifierFix → Modifiers → Modifiers
fixed [] h = h
fixed (fix ∷ fixes) h = elim (modifier_key fix.modifier) [
  | none ↦ fixed fixes h
  | some vk ↦ fixed fixes (change_held fix.modifier fix.action h)
]

module _ (os : Os) where
  -- What a call that presses a modifier's key or releases it changes, when it is taken.
  pub fixed_lem :
      (a : Action) (x : Bool) (m vk : ℕ) (r : Injecting)
      → modifier_key m ≡ some vk
      → InStep r
      → InStep
          (set_held (change_held m a r.sink.held) (record r { taken = key_input vk x a ∷ r.taken }))
  fixed_lem a x m vk r e h =
      let (b, l) = change_held_lem a m vk r.sink.held e h.0 in
      (l, b ∙ (ap (set_bit m (is_press a)) h.1 ∙ sym (sent_lem a x m vk r.taken e)))

  pub apply_fixes-InStep :
      (fixes : List ModifierFix) (r : Injecting) → InStep r → InStep (apply_fixes os fixes r).0
  unfolding apply_fixes send
  apply_fixes-InStep [] r h = h
  apply_fixes-InStep (fix ∷ fixes) r h = elim (Option-cases (modifier_key fix.modifier)) [
    | inl n ↦ rw (n, apply_fixes) (apply_fixes-InStep fixes r h)
    | inr (vk, e) ↦ elim (Bool-cases (os.takes r.taken (key_input vk false fix.action))) [
      | inl y ↦
          rw (e, apply_fixes, send, y)
            (apply_fixes-InStep fixes _ (fixed_lem fix.action false fix.modifier vk r e h))
      | inr n ↦ rw (e, apply_fixes, send, n) h
    ]
  ]

  pub apply_fixes-held :
      (fixes : List ModifierFix) (r : Injecting)
      → (apply_fixes os fixes r).1 ≡ true
      → (apply_fixes os fixes r).0.sink.held ≡ fixed fixes r.sink.held
  unfolding apply_fixes send
  apply_fixes-held [] r h = refl
  apply_fixes-held (fix ∷ fixes) r h = elim (Option-cases (modifier_key fix.modifier)) [
    | inl n ↦ rw (n, apply_fixes, fixed) (apply_fixes-held fixes r (rw (n, apply_fixes) at h))
    | inr (vk, e) ↦ elim (Bool-cases (os.takes r.taken (key_input vk false fix.action))) [
      | inl y ↦
          rw (e, apply_fixes, send, y, fixed)
            (apply_fixes-held fixes _ (rw (e, apply_fixes, send, y) at h))
      | inr n ↦ absurd (ground (arith, rw (e, apply_fixes, send, n) at h))
    ]
  ]

abbrev repaired : ℕ → ℕ → Bool
repaired wanted held = fixed (reconcile held wanted) held == wanted

every_repair : holds_below (λ w. holds_below (repaired w) 16) 16 ≡ true
unfolding holds_below reconcile modifier_key contains with_modifiers without
every_repair = refl

pub fixed-reconcile :
    (wanted held : Modifiers)
    → wanted < 16
    → held < 16
    → fixed (reconcile held wanted) held ≡ wanted
fixed-reconcile w h k l =
    (nat_beq_iff _ w).0
      (tested (repaired w) 16 h l (tested (λ i. holds_below (repaired i) 16) 16 w k every_repair))

-- No ordinary key is synthesized with a virtual key that stands for a modifier.
pub key_from_hid-ordinary :
    (code : KeyCode) (k : VirtualKey)
    → modifier code ≡ none
    → key_from_hid code ≡ some k
    → (k.vk ≢ 0xA0) × (k.vk ≢ 0xA2) × (k.vk ≢ 0xA4) × (k.vk ≢ 0x5B)
unfolding modifier
key_from_hid-ordinary code k h e =
    let u = hid_from_key-key_from_hid code k e in
    let t = hid_from_key-left k.extended in
    (
      λ p. ground (arith, rw p at u, t, h),
      λ p. ground (arith, rw p at u, t, h),
      λ p. ground (arith, rw p at u, t, h),
      λ p. ground (arith, rw p at u, t, h),
    )
