-- ===== src/Input/Linux.antt =====
-- crates/omni-input/src/linux/mod.rs: how captured evdev events become protocol events, and how
-- protocol events are injected. An evdev event is what `destructure` of the evdev crate tells them
-- apart by. Sums and products of `i32`s wrap, as in a release build. A write to the virtual device is
-- the events that it is given.
pub mod Injection
use mathlib.Core.Path.{ap}
use omnipresent.Prelude.Int.{◌-ℤ◌, quot}
use omnipresent.Input.Scroll.{nothing_pending, amount, take_scaled, take_lines, ScrollAccumulator}
use Prim.Native.Nat.{bit_and, bit_or}
use omnipresent.Prelude.{
  ◌++◌, Option-cases, is_some, ◌∷◌, ◌&&◌, nat_beq_iff, [], ◌-◌, ◌==◌, none, some, if◌then◌else◌,
  ◌≡◌, List, Option, ℕ, list_eq, nat_eq, refl, arith, inl, inr,
}
use omnipresent.Prelude.Int.{◌-ℤ◌, int_eq, ℤ, pos, negsuc, ◌+ℤ◌, mul_ℕ}
use omnipresent.Prelude.Words.{as_i32_exact, IsI32, as_i32}
use omnipresent.Protocol.Input.{
  KeyCode, Modifiers, InputEvent, millilines_per_line, Action, MouseButton, MouseDelta, key, motion,
  pointer, button, scroll, press, release, left, right, middle, back, forward, other, shift,
  control, alt, meta,
}
use omnipresent.Input.Keymap.Linux.{
  hid_from_evdev-evdev_from_hid, hid_from_evdev, evdev_from_hid, modifier_mask,
}
use mathlib.Core.Option

pub data Axis : Type 0 where
  rel_x rel_y rel_wheel rel_hwheel other_axis : Axis

-- `EventSummary`: a key with its code and value, a movement along an axis, the end of a report.
pub data RawEvent : Type 0 where
  raw_key : ℕ → ℤ → RawEvent
  raw_axis : Axis → ℤ → RawEvent
  raw_sync raw_other : RawEvent

-- What a reader of one device keeps: the motion of the report so far, and the byte of modifiers
-- held, which all readers share.
pub record Reader : Type 0 where
  pub pending : MouseDelta
  pub held : ℕ

unfoldable pub button_from_evdev : ℕ → Option MouseButton
button_from_evdev code =
    if code == 0x110
    then some left
    else if code == 0x111
    then some right
    else if code == 0x112
    then some middle
    else if code == 0x113
    then some back
    else if code == 0x114
    then some forward
    else none

unfoldable pub evdev_from_button : MouseButton → Option ℕ
evdev_from_button left = some 0x110
evdev_from_button right = some 0x111
evdev_from_button middle = some 0x112
evdev_from_button back = some 0x113
evdev_from_button forward = some 0x114
evdev_from_button (other n) = none

-- The complement `!mask` of a byte is 255 - mask.
unfoldable pub update_modifiers : ℕ → Action → ℕ → ℕ
update_modifiers code action held = elim (modifier_mask code) [
  | none ↦ held
  | some mask ↦ elim action [ press ↦ bit_or held mask | release ↦ bit_and held (255 - mask) ]
]

abbrev with_bit : ℕ → Modifiers → Modifiers → Modifiers
with_bit bits m result = if bit_and bits m == 0 then result else bit_or result m

unfoldable pub held_modifiers : ℕ → Modifiers
held_modifiers bits =
    with_bit bits meta (with_bit bits alt (with_bit bits control (with_bit bits shift 0)))

abbrev pub action_of : ℤ → Action
action_of value = if value == pos 0 then release else press

-- A key that is no mouse button.
abbrev key_event : ℕ → ℤ → Reader → Reader × Option InputEvent
key_event code value r =
    let held = update_modifiers code (action_of value) r.held in
    let r' = record r { held = held } in
    if value == pos 2 && is_some (modifier_mask code)
    then (r, none)
    else (r', Option.map (λ k. key k (action_of value) (held_modifiers held)) (hid_from_evdev code))

-- What is captured of one movement of the wheel, in `axis`.
abbrev clicks : ℤ → ℤ
clicks value = as_i32 (mul_ℕ value millilines_per_line)

abbrev moved : MouseDelta → Reader → Reader × Option InputEvent
moved d r =
    if d.dx == pos 0 && d.dy == pos 0
    then (r, none)
    else (record r { pending = record { dx = pos 0; dy = pos 0 } }, some (motion d))

unfoldable pub convert_event : RawEvent → Reader → Reader × Option InputEvent
convert_event (raw_key code value) r = elim (button_from_evdev code) [
  | some b ↦ (r, some (button b (action_of value)))
  | none ↦ key_event code value r
]
convert_event (raw_axis rel_x value) r =
    (record r { pending = record { dx = as_i32 (r.pending.dx +ℤ value); dy = r.pending.dy } }, none)
convert_event (raw_axis rel_y value) r =
    (record r { pending = record { dx = r.pending.dx; dy = as_i32 (r.pending.dy +ℤ value) } }, none)
convert_event (raw_axis rel_wheel value) r =
    (r, some (scroll (record { dx = pos 0; dy = clicks value })))
convert_event (raw_axis rel_hwheel value) r =
    (r, some (scroll (record { dx = clicks value; dy = pos 0 })))
convert_event (raw_axis other_axis value) r = (r, none)
convert_event raw_sync r = moved r.pending r
convert_event raw_other r = (r, none)

abbrev pub value_of : Action → ℤ
value_of press = pos 1
value_of release = pos 0

abbrev unless_zero : ℤ → RawEvent → List RawEvent
unless_zero n e = if n == pos 0 then [] else e ∷ []

abbrev corner : ℤ
corner = negsuc 65534

-- `LinuxSink::inject`: what is written to the virtual device.
unfoldable pub inject : InputEvent → ScrollAccumulator → ScrollAccumulator × List RawEvent
inject (key code action modifiers) acc =
    (acc, elim (evdev_from_hid code) [ none ↦ [] | some c ↦ raw_key c (value_of action) ∷ [] ])
inject (motion d) acc = (acc, raw_axis rel_x d.dx ∷ raw_axis rel_y d.dy ∷ [])
inject (pointer x y) acc =
    (acc, raw_axis rel_x corner ∷ raw_axis rel_y corner ∷ raw_axis rel_x x ∷ raw_axis rel_y y ∷ [])
inject (button b action) acc =
    (acc, elim (evdev_from_button b) [ none ↦ [] | some c ↦ raw_key c (value_of action) ∷ [] ])
inject (scroll d) acc =
    let r = take_lines d acc in
    (
      r.0,
      unless_zero r.1.1 (raw_axis rel_wheel r.1.1) ++ unless_zero r.1.0 (raw_axis rel_hwheel r.1.0),
    )

-- `ScrollAccumulator::default`
abbrev pub fresh : ScrollAccumulator
fresh = record { x = nothing_pending; y = nothing_pending }
