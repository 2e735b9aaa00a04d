-- ===== src/Input/Macos.antt =====
-- crates/omni-input/src/macos/convert.rs, and the conversion of captured events in macos/source.rs. A
-- set of CGEvent flags is which of the flags looked for it contains. What a field of an event holds
-- is an argument, and so is the conversion of scrolled lines, which are floating-point numbers.
pub mod Sink
pub mod Latch
use Prim.Native.Nat.{bit_and, bit_or}
use mathlib.Core.Option
use omnipresent.Prelude.{
  ◌+◌, ℕ, ◌-◌, ◌%◌, ◌^◌, Bool, true, false, Option, none, some, List, [], ◌∷◌, ◌&&◌, ◌||◌, not,
  ◌==◌, nat_eq, leb, ltb, if◌then◌else◌,
}
use omnipresent.Prelude.Int.{ℤ, pos, negsuc, int_eq}
use omnipresent.Protocol.Input.{
  Action, press, release, KeyCode, Modifiers, no_modifiers, with_modifiers, contains, shift,
  control, alt, meta, caps_lock, MouseButton, left, right, middle, back, forward, other, MouseDelta,
  ScrollDelta, InputEvent, key, motion, button, scroll,
}
use omnipresent.Input.Keymap.Macos.{hid_from_vk}

pub record Flags : Type 0 where
  pub has_shift : Bool
  pub has_control : Bool
  pub has_alternate : Bool
  pub has_command : Bool
  pub has_alpha_shift : Bool

abbrev with_if : Bool → Modifiers → Modifiers → Modifiers
with_if b m result = if b then with_modifiers result m else result

unfoldable pub modifiers_from_flags : Flags → Modifiers
modifiers_from_flags f = with_if f.has_command meta (
    with_if f.has_alternate alt
      (with_if f.has_control control (with_if f.has_shift shift no_modifiers)))

unfoldable pub flags_from_modifiers : Modifiers → Flags
flags_from_modifiers m = record {
  has_shift = contains m shift;
  has_control = contains m control;
  has_alternate = contains m alt;
  has_command = contains m meta;
  has_alpha_shift = false;
}

abbrev pub caps_lock_vk : ℕ
caps_lock_vk = 57

abbrev pub is_modifier_vk : ℕ → Bool
is_modifier_vk vk = leb 54 vk && leb vk 62

abbrev pub caps_lock_on : Flags → Bool
caps_lock_on f = f.has_alpha_shift

abbrev same : Bool → Bool → Bool
same true b = b
same false b = not b

unfoldable pub caps_lock_tap : Bool → Bool → Modifiers → List InputEvent
caps_lock_tap previous now m =
    if same previous now then [] else key caps_lock press m ∷ key caps_lock release m ∷ []

-- The complement `!bit` of a `u64` is 2^64 - 1 - bit.
unfoldable pub toggle_modifier : ℕ → ℕ → ℕ × Action
toggle_modifier held vk =
    let bit = 2 ^ (vk % 64) in
    if not (bit_and held bit == 0)
    then (bit_and held (2 ^ 64 - 1 - bit), release)
    else (bit_or held bit, press)

unfoldable pub cg_button_number : MouseButton → ℤ
cg_button_number left = pos 0
cg_button_number right = pos 1
cg_button_number middle = pos 2
cg_button_number back = pos 3
cg_button_number forward = pos 4
cg_button_number (other n) = pos n

-- `n.clamp(0, 255) as u8`
abbrev to_u8 : ℤ → ℕ
to_u8 (pos n) = if ltb 255 n then 255 else n
to_u8 (negsuc n) = 0

unfoldable pub button_from_cg_number : ℤ → MouseButton
button_from_cg_number number =
    if number == pos 0
    then left
    else if number == pos 1
    then right
    else if number == pos 2
    then middle
    else if number == pos 3
    then back
    else if number == pos 4
    then forward
    else other (to_u8 number)

-- The count of the click before, if it is the same button, soon enough and near enough.
unfoldable pub next_click_count : Bool → ℕ → Bool → ℕ → ℕ → ℕ
next_click_count same_button elapsed near previous_count interval =
    if same_button && leb elapsed interval && near then previous_count + 1 else 1

-- The event types of the tap, those that mean the same together.
pub data CgEventType : Type 0 where
  cg_key_down cg_key_up flags_changed mouse_moved mouse_down mouse_up scroll_wheel other_type :
      CgEventType

-- What the fields of an event hold: the key code, as an `i64` cast to a `u16`; the movement, cast to
-- `i32`s; the button number; the scrolled lines, in milli-lines.
pub record CgEvent : Type 0 where
  pub vk : ℕ
  pub flags : Flags
  pub delta : MouseDelta
  pub number : ℤ
  pub scrolled : ScrollDelta

-- What the tap keeps: the modifier keys held, and whether Caps Lock is on.
pub record Tap : Type 0 where
  pub held : ℕ
  pub caps : Bool

abbrev key_of : ℕ → Action → Flags → Option InputEvent
key_of vk action flags =
    Option.map (λ k. key k action (modifiers_from_flags flags)) (hid_from_vk vk)

abbrev pub changed_flags : CgEvent → Tap → Tap × Option InputEvent
changed_flags e t =
    let r = toggle_modifier t.held e.vk in
    if not (is_modifier_vk e.vk) then (t, none) else elim (hid_from_vk e.vk) [
      | none ↦ (t, none)
      | some k ↦ (record t { held = r.0 }, some (key k r.1 (modifiers_from_flags e.flags)))
    ]

unfoldable pub convert_one : CgEventType → CgEvent → Tap → Tap × Option InputEvent
convert_one cg_key_down e t = (t, key_of e.vk press e.flags)
convert_one cg_key_up e t = (t, key_of e.vk release e.flags)
convert_one flags_changed e t = changed_flags e t
convert_one mouse_moved e t = (t, some (motion e.delta))
convert_one mouse_down e t = (t, some (button (button_from_cg_number e.number) press))
convert_one mouse_up e t = (t, some (button (button_from_cg_number e.number) release))
convert_one scroll_wheel e t =
    (t, if e.scrolled.dx == pos 0 && e.scrolled.dy == pos 0 then none else some (scroll e.scrolled))
convert_one other_type e t = (t, none)

abbrev is_flags_changed : CgEventType → Bool
is_flags_changed flags_changed = true
is_flags_changed cg_key_down = false
is_flags_changed cg_key_up = false
is_flags_changed mouse_moved = false
is_flags_changed mouse_down = false
is_flags_changed mouse_up = false
is_flags_changed scroll_wheel = false
is_flags_changed other_type = false

abbrev pub as_list : Option InputEvent → List InputEvent
as_list none = []
as_list (some e) = e ∷ []

unfoldable pub convert_event : CgEventType → CgEvent → Tap → Tap × List InputEvent
convert_event type e t =
    let now = caps_lock_on e.flags in
    let r = convert_one type e t in
    if is_flags_changed type && e.vk == caps_lock_vk
    then (record t { caps = now }, caps_lock_tap t.caps now (modifiers_from_flags e.flags))
    else (r.0, as_list r.1)
