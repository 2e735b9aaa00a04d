-- ===== src/Input/Macos/Latch.antt =====
-- Flags and modifiers, and the two latches of Caps Lock.
use omnipresent.Prelude.Lists.{All}
use omnipresent.Input.Keymap.Macos.{hid_from_vk-vk_from_hid, hid_from_vk, vk_hid, vk_from_hid}
use omnipresent.Prelude.{
  arith, inr, inl, Bool-cases, ◌∙◌, some, ap, Option-cases, ◌≢◌, ◌≡◌, ℕ, Bool, true, false, not,
  List, [], ◌∷◌, ◌<◌, refl, nat_beq_iff, ◌==◌, nat_eq, if◌then◌else◌,
}
use omnipresent.Prelude.Bounded.{holds_below, tested}
use omnipresent.Protocol.Input.{
  InputEvent, key, press, release, motion, pointer, button, scroll, Modifiers, caps_lock, contains,
  with_modifiers,
}
use omnipresent.Input.Macos.{
  toggle_modifier, is_modifier_vk, changed_flags, as_list, Action, other_type, scroll_wheel,
  mouse_up, mouse_down, caps_lock_on, mouse_moved, flags_changed, cg_key_up, cg_key_down,
  caps_lock_vk, convert_one, modifiers_from_flags, flags_from_modifiers, caps_lock_tap,
  convert_event, CgEvent, CgEventType, Tap,
}

abbrev back_again : ℕ → Bool
back_again m = modifiers_from_flags (flags_from_modifiers m) == m

every_back : holds_below back_again 16 ≡ true
unfolding holds_below modifiers_from_flags flags_from_modifiers contains with_modifiers
every_back = refl

-- The four modifiers come back from the flags that stand for them.
pub modifiers_from_flags-flags_from_modifiers :
    (m : Modifiers) → m < 16 → modifiers_from_flags (flags_from_modifiers m) ≡ m
modifiers_from_flags-flags_from_modifiers m h =
    (nat_beq_iff _ m).0 (tested back_again 16 m h every_back)

-- The Caps Lock of another machine after an event: each press of the key flips it.
abbrev pub latched : InputEvent → Bool → Bool
latched (key k press m) b = if k == caps_lock then not b else b
latched (key k release m) b = b
latched (motion d) b = b
latched (pointer x y) b = b
latched (button c a) b = b
latched (scroll d) b = b

abbrev pub latched_all : List InputEvent → Bool → Bool
latched_all [] b = b
latched_all (e ∷ es) b = latched_all es (latched e b)

caps_lock_tap_lem :
    (previous now : Bool) (m : Modifiers)
    → latched_all (caps_lock_tap previous now m) previous ≡ now
unfolding caps_lock_tap
caps_lock_tap_lem true true m = refl
caps_lock_tap_lem true false m = refl
caps_lock_tap_lem false true m = refl
caps_lock_tap_lem false false m = refl

-- The Caps Lock of the machine that receives every event, after all of them.
abbrev pub far_latch : List (CgEventType × CgEvent) → Tap → Bool → Bool
far_latch [] t b = b
far_latch ((k, e) ∷ es) t b = let r = convert_event k e t in far_latch es r.0 (latched_all r.1 b)

abbrev pub tap_after : List (CgEventType × CgEvent) → Tap → Tap
tap_after [] t = t
tap_after ((k, e) ∷ es) t = tap_after es (convert_event k e t).0

caps_lock_key : vk_from_hid caps_lock ≡ some caps_lock_vk
unfolding vk_from_hid vk_hid
caps_lock_key = refl

-- No key but Caps Lock is reported as Caps Lock.
other_key : (vk k : ℕ) → vk ≢ caps_lock_vk → hid_from_vk vk ≡ some k → (k == caps_lock) ≡ false
other_key vk k n h = elim (Bool-cases (k == caps_lock)) [
  | inl y ↦
      let e : k ≡ caps_lock = (nat_beq_iff k caps_lock).0 y in
      let v : vk_from_hid k ≡ some vk = (hid_from_vk-vk_from_hid vk k).0 h in
      absurd (ground (arith, rw e at v, caps_lock_key, n))
  | inr z ↦ z
]

-- macOS reports Caps Lock by its flags, never as a key that goes down.
abbrev pub IsReported : CgEventType × CgEvent → Type 0
IsReported (cg_key_down, e) = e.vk ≢ caps_lock_vk
IsReported (cg_key_up, e) = Unit
IsReported (flags_changed, e) = Unit
IsReported (mouse_moved, e) = Unit
IsReported (mouse_down, e) = Unit
IsReported (mouse_up, e) = Unit
IsReported (scroll_wheel, e) = Unit
IsReported (other_type, e) = Unit

latched-key :
    (k : ℕ) (a : Action) (m : Modifiers) (b : Bool)
    → (k == caps_lock) ≡ false
    → latched (key k a m) b ≡ b
latched-key k press m b h = rw h refl
latched-key k release m b h = refl

changed_flags-latched :
    (e : CgEvent) (t : Tap)
    → e.vk ≢ caps_lock_vk
    → latched_all (as_list (changed_flags e t).1) t.caps ≡ (changed_flags e t).0.caps
changed_flags-latched e t h = elim (Bool-cases (is_modifier_vk e.vk)) [
  | inr n ↦ rw (n, changed_flags) refl
  | inl y ↦ elim (Option-cases (hid_from_vk e.vk)) [
    | inl n ↦ rw (y, changed_flags, n) refl
    | inr (k, q) ↦
        let a = (toggle_modifier t.held e.vk).1 in
        rw (y, changed_flags, q)
          (latched-key k a (modifiers_from_flags e.flags) t.caps (other_key e.vk k h q))
  ]
]

flags_latched :
    (e : CgEvent) (t : Tap)
    → (e.vk == caps_lock_vk) ≡ false
    → latched_all (convert_event flags_changed e t).1 t.caps
      ≡ (convert_event flags_changed e t).0.caps
unfolding convert_event convert_one
flags_latched e t n =
    let h : e.vk ≢ caps_lock_vk = ground (arith, nat_beq_iff e.vk caps_lock_vk) in
    rw (n, convert_event, convert_one) (changed_flags-latched e t h)

-- One event keeps the two latches the same.
convert_event-latched :
    (k : CgEventType) (e : CgEvent) (t : Tap)
    → IsReported (k, e)
    → latched_all (convert_event k e t).1 t.caps ≡ (convert_event k e t).0.caps
unfolding convert_event convert_one
convert_event-latched cg_key_down e t h = elim (Option-cases (hid_from_vk e.vk)) [
  | inl n ↦ rw (n, convert_event, convert_one) refl
  | inr (c, q) ↦ rw (q, convert_event, convert_one, other_key e.vk c h q) refl
]
convert_event-latched cg_key_up e t h = elim (Option-cases (hid_from_vk e.vk)) [
  | inl n ↦ rw (n, convert_event, convert_one) refl
  | inr (c, q) ↦ rw (q, convert_event, convert_one) refl
]
convert_event-latched flags_changed e t h = elim (Bool-cases (e.vk == caps_lock_vk)) [
  | inl y ↦
      rw (y, convert_event)
        (caps_lock_tap_lem t.caps (caps_lock_on e.flags) (modifiers_from_flags e.flags))
  | inr n ↦ flags_latched e t n
]
convert_event-latched mouse_moved e t h = refl
convert_event-latched mouse_down e t h = refl
convert_event-latched mouse_up e t h = refl
convert_event-latched scroll_wheel e t h = ground arith
convert_event-latched other_type e t h = refl

-- Caps Lock of a machine that receives every event is on exactly when it is on here, however many
-- events there were, if it was so at first. Caps Lock is never reported as a key that goes down.
pub far_latch-tap_after :
    (es : List (CgEventType × CgEvent)) (t : Tap)
    → All IsReported es
    → far_latch es t t.caps ≡ (tap_after es t).caps
far_latch-tap_after [] t h = refl
far_latch-tap_after ((k, e) ∷ es) t h =
    ap (far_latch es (convert_event k e t).0) (convert_event-latched k e t h.0)
    ∙ far_latch-tap_after es (convert_event k e t).0 h.1
