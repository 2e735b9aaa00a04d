-- ===== src/Input/Linux/Injection.antt =====
-- What Linux captures, injected on another Linux machine, is what was captured.
use omnipresent.Input.Scroll.{amount, take_lines, take_scaled, nothing_pending, ScrollAccumulator}
use mathlib.Core.Path.{ap}
use omnipresent.Prelude.Int.{ℤ, ◌-ℤ◌, quot, ◌+ℤ◌, mul_ℕ, int_eq, pos, negsuc}
use omnipresent.Prelude.{
  some, ◌≡◌, ℕ, list_eq, nat_eq, nat_beq_iff, refl, arith, inl, inr, Option-cases, ◌==◌, ◌++◌, [],
  ◌∷◌, if◌then◌else◌,
}
use omnipresent.Protocol.Input.{key, button, scroll, millilines_per_line}
use omnipresent.Input.Linux.{
  as_i32_exact, clicks, fresh, rel_hwheel, rel_wheel, raw_axis, IsI32, update_modifiers,
  held_modifiers, hid_from_evdev, hid_from_evdev-evdev_from_hid, KeyCode, raw_key, key_event,
  evdev_from_hid, unless_zero, InputEvent, Modifiers, action_of, RawEvent, Reader, Action, value_of,
  evdev_from_button, convert_event, MouseButton, button_from_evdev, inject,
}

button-code :
    (c : ℕ) (b : MouseButton) → button_from_evdev c ≡ some b → evdev_from_button b ≡ some c
unfolding button_from_evdev evdev_from_button
button-code c b h = ground (
  arith,
  nat_beq_iff c 0x110,
  nat_beq_iff c 0x111,
  nat_beq_iff c 0x112,
  nat_beq_iff c 0x113,
  nat_beq_iff c 0x114,
)

value-action : (v : ℤ) → value_of (action_of v) ≡ (if v == pos 0 then pos 0 else pos 1)
value-action v = ground arith

inject-key :
    (k c : ℕ) (a : Action) (m : Modifiers) (acc : ScrollAccumulator)
    → evdev_from_hid k ≡ some c
    → inject (key k a m) acc ≡ (acc, raw_key c (value_of a) ∷ [])
unfolding inject
inject-key k c a m acc h = rw (h, inject) refl

inject-button :
    (b : MouseButton) (c : ℕ) (a : Action) (acc : ScrollAccumulator)
    → evdev_from_button b ≡ some c
    → inject (button b a) acc ≡ (acc, raw_key c (value_of a) ∷ [])
unfolding inject
inject-button b c a acc h = rw (h, inject) refl

-- What a key that is no mouse button is reported as.
key_event_lem :
    (c : ℕ) (v : ℤ) (r : Reader) (e : InputEvent)
    → (key_event c v r).1 ≡ some e
    → (k : KeyCode) × (m : Modifiers) × (hid_from_evdev c ≡ some k) × (e ≡ key k (action_of v) m)
key_event_lem c v r e h = elim (Option-cases (hid_from_evdev c)) [
  | inl n ↦ ground (arith, n, h)
  | inr (k, p) ↦
      let m = held_modifiers (update_modifiers c (action_of v) r.held) in
      (k, m, p, ground (arith, p, h))
]

-- Whatever key or mouse button is captured and reported, injecting the report on another Linux
-- machine writes the same key, pressed or released as it was; a repeated press is written as a press.
pub inject-convert_event :
    (c : ℕ) (v : ℤ) (r : Reader) (e : InputEvent) (acc : ScrollAccumulator)
    → (convert_event (raw_key c v) r).1 ≡ some e
    → inject e acc ≡ (acc, raw_key c (if v == pos 0 then pos 0 else pos 1) ∷ [])
unfolding convert_event
inject-convert_event c v r e acc h = elim (Option-cases (button_from_evdev c)) [
  | inr (b, q) ↦
      let g : button b (action_of v) ≡ e = ground (arith, h, q) in
      rw (← g, inject-button b c (action_of v) acc (button-code c b q), value-action v) refl
  | inl q ↦
      let (k, m, p, g) = key_event_lem c v r e (rw (q, convert_event) at h) in
      rw
        (
          g,
          inject-key k c (action_of v) m acc ((hid_from_evdev-evdev_from_hid c k).0 p),
          value-action v,
        )
        refl
]

-- A whole number of lines goes through the accumulator as it is.
whole_lines :
    (v : ℤ)
    → IsI32 (mul_ℕ v millilines_per_line)
    → (amount (mul_ℕ v millilines_per_line) (pos 1) nothing_pending ≡ mul_ℕ v millilines_per_line)
      × (quot (mul_ℕ v millilines_per_line) millilines_per_line ≡ v)
      × (mul_ℕ v millilines_per_line -ℤ mul_ℕ v millilines_per_line ≡ pos 0)
unfolding amount ◌+ℤ◌ ◌-ℤ◌
whole_lines (pos n) h = (ground arith, ground arith, ground arith)
whole_lines (negsuc n) h = (ground arith, ground arith, ground arith)

unless_zero-nil : (v : ℤ) (e : RawEvent) → unless_zero v e ++ [] ≡ unless_zero v e
unless_zero-nil v e = ground arith

-- A turn of either wheel whose milli-lines fit an `i32` is reported as a scroll that, injected on
-- another Linux machine with nothing pending, writes the same turn of the same wheel (nothing for a
-- turn by 0) and leaves nothing pending.
pub inject-wheel :
    (v : ℤ) (r : Reader) (up along : InputEvent)
    → IsI32 (mul_ℕ v millilines_per_line)
    → (convert_event (raw_axis rel_wheel v) r).1 ≡ some up
    → (convert_event (raw_axis rel_hwheel v) r).1 ≡ some along
    → (inject up fresh ≡ (fresh, unless_zero v (raw_axis rel_wheel v)))
      × (inject along fresh ≡ (fresh, unless_zero v (raw_axis rel_hwheel v)))
unfolding convert_event inject take_lines take_scaled
inject-wheel v r up along i h k =
    let e : clicks v ≡ mul_ℕ v millilines_per_line = as_i32_exact (mul_ℕ v millilines_per_line) i in
    let (a, b, c) = whole_lines v i in
    let (a0, b0, c0) = whole_lines (pos 0) (omega arith, omega arith) in
    let p : scroll (record { dx = pos 0; dy = mul_ℕ v millilines_per_line }) ≡ up =
      ground (arith, e, h) in
    let q : scroll (record { dx = mul_ℕ v millilines_per_line; dy = pos 0 }) ≡ along =
      ground (arith, e, k) in
    (
      rw (← p, a, a0, b, c, c0) (ap (λ l. (fresh, l)) (unless_zero-nil v (raw_axis rel_wheel v))),
      rw (← q, a, a0, b, c, c0) refl,
    )
