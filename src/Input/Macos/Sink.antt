-- ===== src/Input/Macos/Sink.antt =====
-- crates/omni-input/src/macos/sink.rs: injection through CGEvent. A position on the displays is a
-- type `P`, with a test for two that are near enough for a double click; the time is in milliseconds.
-- Whether macOS makes an event, what the time is, and where the cursor is, are arguments.
pub mod Clicks
use Prim.Native.Nat.{bit_and, bit_or}
use omnipresent.Prelude.{
  ℕ, ◌-◌, ◌+◌, ◌^◌, Bool, true, false, Option, none, some, List, [], ◌∷◌, ◌&&◌, not, ◌==◌, nat_eq,
  ltb, leb, if◌then◌else◌,
}
use omnipresent.Prelude.Int.{ℤ, pos, negsuc, int_eq, pos_part, leb_ℤ}
use omnipresent.Protocol.Input.{
  Action, press, release, KeyCode, Modifiers, MouseButton, ScrollDelta,
}
use omnipresent.Input.Scroll.{ScrollAccumulator, take_lines}
use omnipresent.Input.Keymap.Macos.{vk_from_hid}
use omnipresent.Input.Macos.{Flags, flags_from_modifiers, cg_button_number, next_click_count}

abbrev pub double_click_interval : ℕ
double_click_interval = 500

pub data MouseKind : Type 0 where
  left_dragged right_dragged other_dragged moved : MouseKind
  left_down left_up right_down right_up other_down other_up : MouseKind

pub record LastClick (P : Type 0) : Type 0 where
  pub button : ℤ
  pub at_time : ℕ
  pub position : P
  pub count : ℕ

pub record MacosSink (P : Type 0) : Type 0 where
  pub held_buttons : ℕ
  pub modifiers : Modifiers
  pub last_click : Option (LastClick P)
  pub scroll : ScrollAccumulator

-- An event that is posted. A move also draws the cursor at its position.
pub data Posted (P : Type 0) : Type 0 where
  key_posted : ℕ → Bool → Flags → Posted P
  move_posted : MouseKind → P → Flags → Posted P
  button_posted : MouseKind → P → ℤ → ℕ → Flags → Posted P
  scroll_posted : ℤ → ℤ → Posted P

-- What is posted, if anything, and whether `Ok` is returned.
abbrev pub Done : Type 0 → Type 0
Done P = MacosSink P × (Option (Posted P) × Bool)

module _ {P : Type 0} (near : P → P → Bool) where
  abbrev pub is_press : Action → Bool
  is_press press = true
  is_press release = false

  -- `MacosSink::inject_key`
  unfoldable pub inject_key : Bool → KeyCode → Action → Modifiers → MacosSink P → Done P
  inject_key made code action m s = elim (vk_from_hid code) [
    | none ↦ (s, (none, true))
    | some vk ↦
        let t = record s { modifiers = m } in
        if made
        then (t, (some (key_posted vk (is_press action) (flags_from_modifiers m)), true))
        else (t, (none, false))
  ]

  -- A move or a drag, by the buttons that are held.
  abbrev pub move_kind : ℕ → MouseKind
  move_kind held =
      if not (bit_and held 1 == 0)
      then left_dragged
      else if not (bit_and held 2 == 0)
      then right_dragged
      else if not (held == 0)
      then other_dragged
      else moved

  -- `MacosSink::move_to`
  unfoldable pub move_to : Bool → P → MacosSink P → Done P
  move_to made position s =
      if made
      then (
        s,
        (
          some (move_posted (move_kind s.held_buttons) position (flags_from_modifiers s.modifiers)),
          true,
        ),
      )
      else (s, (none, false))

  abbrev same_button : Option (LastClick P) → ℤ → ℕ
  same_button none b = 1
  same_button (some last) b = if last.button == b then last.count else 1

  abbrev streak : Option (LastClick P) → ℤ → ℕ → P → ℕ
  streak none b now position = 1
  streak (some last) b now position =
      next_click_count (last.button == b) (now - last.at_time) (near position last.position)
        last.count double_click_interval

  -- `MacosSink::click_state`; the time does not run backwards below the last click.
  unfoldable pub click_state : ℤ → Action → ℕ → P → MacosSink P → MacosSink P × ℕ
  click_state b press now position s =
      let count = streak s.last_click b now position in
      let last : LastClick P = record {
        button = b;
        at_time = now;
        position = position;
        count = count;
      } in
      (record s { last_click = some last }, count)
  click_state b release now position s = (s, same_button s.last_click b)

  abbrev button_kind : ℤ → Action → MouseKind
  button_kind b press =
      if b == pos 0 then left_down else if b == pos 1 then right_down else other_down
  button_kind b release = if b == pos 0 then left_up else if b == pos 1 then right_up else other_up

  -- `1u32 << number.clamp(0, 31)`
  abbrev button_bit : ℤ → ℕ
  button_bit b = 2 ^ (if ltb 31 (pos_part b) then 31 else pos_part b)

  abbrev hold : Action → ℕ → ℕ → ℕ
  hold press bit held = bit_or held bit
  hold release bit held = bit_and held (2 ^ 32 - 1 - bit)

  -- `MacosSink::inject_button`, with the cursor at the position on the displays.
  unfoldable pub inject_button : Bool → MouseButton → Action → ℕ → P → MacosSink P → Done P
  inject_button made button action now position s =
      let b = cg_button_number button in
      let r = click_state b action now position s in
      let e =
        button_posted (button_kind b action) position b r.1 (flags_from_modifiers s.modifiers) in
      if made
      then (
        record r.0 { held_buttons = hold action (button_bit b) r.0.held_buttons },
        (some e, true),
      )
      else (r.0, (none, false))

  -- `MacosSink::inject_scroll`
  unfoldable pub inject_scroll : Bool → ScrollDelta → MacosSink P → Done P
  inject_scroll made delta s =
      let r = take_lines delta s.scroll in
      let t = record s { scroll = r.0 } in
      if r.1.0 == pos 0 && r.1.1 == pos 0
      then (t, (none, true))
      else if made
      then (t, (some (scroll_posted r.1.1 r.1.0), true))
      else (t, (none, false))
