-- ===== src/Input/Windows/Source/Hooks.antt =====
-- crates/omni-input/src/windows/source.rs: the two hooks, and what they make of a key or a movement.
use Prim.Native.Nat.{bit_and, bit_or}
use omnipresent.Prelude.{
  ℕ, Bool, true, false, Option, none, some, ◌&&◌, ◌||◌, not, ◌==◌, nat_eq, if◌then◌else◌, ◌-◌, ◌/◌,
  ◌%◌, ◌^◌, ltb,
}
use omnipresent.Prelude.Int.{ℤ, pos, negsuc, int_eq, ◌-ℤ◌}
use omnipresent.Prelude.Words.{as_i32}
use omnipresent.Protocol.Input.{
  Action, press, release, Modifiers, with_modifiers, shift, control, alt, meta, no_modifiers,
  MouseButton, left, right, middle, back, forward, InputEvent, key, motion, button, scroll,
}
use omnipresent.Input.Scroll.{Scaled, take}
use omnipresent.Input.Keymap.Windows.{hid_from_key}
use omnipresent.Input.Windows.{Metrics}
use omnipresent.Input.Windows.Sink.{millilines_per_notch}
use omnipresent.Input.Windows.Source.{Capture, emit, park}

abbrev with_bit : ℕ → Modifiers → Modifiers → Modifiers
with_bit bits m result = if bit_and bits m == 0 then result else with_modifiers result m

-- `held_modifiers`; the bits `MOD_SHIFT` to `MOD_META` are those of the protocol.
unfoldable pub held_modifiers : ℕ → Modifiers
held_modifiers bits =
    with_bit bits meta
      (with_bit bits alt (with_bit bits control (with_bit bits shift no_modifiers)))

unfoldable pub modifier_bit : ℕ → Option ℕ
modifier_bit vk =
    if vk == 0xA0 || vk == 0xA1 || vk == 0x10
    then some 1
    else if vk == 0xA2 || vk == 0xA3 || vk == 0x11
    then some 2
    else if vk == 0xA4 || vk == 0xA5 || vk == 0x12
    then some 4
    else if vk == 0x5B || vk == 0x5C
    then some 8
    else none

pub data KeyMessage : Type 0 where
  key_down sys_key_down key_up sys_key_up other_key_message : KeyMessage

pub record KeyInfo : Type 0 where
  pub vk : ℕ
  pub injected : Bool
  pub extended : Bool

-- A known message.
unfoldable pub action_of : KeyMessage → Option Action
action_of key_down = some press
action_of sys_key_down = some press
action_of key_up = some release
action_of sys_key_up = some release
action_of other_key_message = none

-- The bit of a modifier key, in the byte of those held; the complement `!bit` is 255 - bit.
abbrev pub track : ℕ → Action → Capture → Capture
track vk action s = elim (modifier_bit vk) [
  | none ↦ s
  | some bit ↦ record s {
    modifiers = elim action [
      | press ↦ bit_or s.modifiers bit
      | release ↦ bit_and s.modifiers (255 - bit)
    ];
  }
]

abbrev pub key_event : ℕ → Bool → Action → Capture → Capture
key_event vk extended action s = elim (hid_from_key (vk % 2 ^ 16) extended) [
  | none ↦ s
  | some hid ↦ emit (key hid action (held_modifiers s.modifiers)) s
]

-- `keyboard_proc`: the state, and whether the event is swallowed. `acts` says that the hook's code is
-- `HC_ACTION`.
unfoldable pub keyboard_proc : Bool → KeyMessage → KeyInfo → Capture → Capture × Bool
keyboard_proc acts message info s = elim (action_of message) [
  | none ↦ (s, false)
  | some action ↦
      if not acts || info.injected
      then (s, false)
      else (key_event info.vk info.extended action (track info.vk action s), s.suppressed)
]

pub data MouseMessage : Type 0 where
  mouse_move lbutton_down lbutton_up rbutton_down rbutton_up mbutton_down mbutton_up : MouseMessage
  xbutton_down xbutton_up mouse_wheel mouse_hwheel other_mouse_message : MouseMessage

-- The position is two `i32`s, the data a `u32`.
pub record MouseInfo : Type 0 where
  pub x : ℤ
  pub y : ℤ
  pub mouse_data : ℕ
  pub injected : Bool

-- `(mouse_data >> 16) as i16 as i32`
abbrev pub high_word : ℕ → ℤ
high_word d =
    let w = d / 2 ^ 16 % 2 ^ 16 in if ltb w (2 ^ 15) then pos w else negsuc (2 ^ 16 - 1 - w)

-- `xbutton`, by the number of the first X button.
unfoldable pub xbutton : ℕ → ℕ → MouseButton
xbutton xbutton1 d = if d / 2 ^ 16 % 2 ^ 16 == xbutton1 then back else forward

abbrev pub emit_button : MouseButton → Action → Capture → Capture
emit_button b action s = emit (button b action) s

-- The lock of the carry is never poisoned.
unfoldable pub wheel_millilines : ℤ → Scaled → ℕ → ℕ → Scaled × ℤ
wheel_millilines wheel_delta carry d amount_per_notch =
    take (high_word d) (millilines_per_notch amount_per_notch) wheel_delta carry

abbrev pub emit_unless : Bool → InputEvent → Capture → Capture
emit_unless zero e s = if zero then s else emit e s

-- A move after the first.
abbrev pub moved : Metrics → ℤ → ℤ → Capture → Capture
moved m x y s =
    let dx = as_i32 (x -ℤ s.last_x) in
    let dy = as_i32 (y -ℤ s.last_y) in
    let t = emit_unless (dx == pos 0 && dy == pos 0) (motion (record { dx = dx; dy = dy })) s in
    if t.suppressed then park m t else record t { last_x = x; last_y = y }

-- What Windows' headers and settings say.
pub record Headers : Type 0 where
  pub wheel_delta : ℤ
  pub xbutton1 : ℕ
  pub metrics : Metrics

unfoldable pub convert_mouse : Headers → MouseMessage → MouseInfo → Capture → Capture
convert_mouse h mouse_move info s =
    if s.have_last
    then moved h.metrics info.x info.y s
    else record s { have_last = true; last_x = info.x; last_y = info.y }
convert_mouse h lbutton_down info s = emit_button left press s
convert_mouse h lbutton_up info s = emit_button left release s
convert_mouse h rbutton_down info s = emit_button right press s
convert_mouse h rbutton_up info s = emit_button right release s
convert_mouse h mbutton_down info s = emit_button middle press s
convert_mouse h mbutton_up info s = emit_button middle release s
convert_mouse h xbutton_down info s = emit_button (xbutton h.xbutton1 info.mouse_data) press s
convert_mouse h xbutton_up info s = emit_button (xbutton h.xbutton1 info.mouse_data) release s
convert_mouse h mouse_wheel info s =
    let w = wheel_millilines h.wheel_delta s.wheel_y info.mouse_data s.lines_per_notch in
    emit_unless (w.1 == pos 0) (scroll (record { dx = pos 0; dy = w.1 }))
      (record s { wheel_y = w.0 })
convert_mouse h mouse_hwheel info s =
    let w = wheel_millilines h.wheel_delta s.wheel_x info.mouse_data s.chars_per_notch in
    emit_unless (w.1 == pos 0) (scroll (record { dx = w.1; dy = pos 0 }))
      (record s { wheel_x = w.0 })
convert_mouse h other_mouse_message info s = s

-- `mouse_proc`, as `keyboard_proc`.
unfoldable pub mouse_proc : Headers → Bool → MouseMessage → MouseInfo → Capture → Capture × Bool
mouse_proc h acts message info s =
    let t = convert_mouse h message info s in
    if not acts || info.injected then (s, false) else (t, t.suppressed)
