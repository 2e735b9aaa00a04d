-- ===== src/Input/Windows.antt =====
-- crates/omni-input/src/windows/mod.rs: what the capture and the injection ask Windows for. What
-- `GetSystemMetrics` and `SystemParametersInfoW` answer are parameters.
pub mod Sink
pub mod Source
use omnipresent.Prelude.{
  ℕ, Bool, Option, none, some, ◌&&◌, ◌||◌, ◌==◌, nat_eq, if◌then◌else◌, ltb, ◌≤◌, ◌<◌, arith,
}
use omnipresent.Prelude.Int.{ℤ, pos, negsuc, ltb_ℤ, quot}
use omnipresent.Prelude.Words.{as_i32, as_u32}
use omnipresent.Input.Bounds.{DesktopBounds, to_desktop, to_screen}

abbrev pub default_lines_per_notch : ℕ
default_lines_per_notch = 3

abbrev pub max_lines_per_notch : ℕ
max_lines_per_notch = 100

-- `system_scroll_amount`, of the `u32` that Windows filled in, if the setting could be read.
unfoldable pub system_scroll_amount : Option ℕ → ℕ
system_scroll_amount none = default_lines_per_notch
system_scroll_amount (some amount) =
    if amount == 0 || ltb max_lines_per_notch amount then default_lines_per_notch else amount

-- `wheel_scroll_amounts`
abbrev pub wheel_scroll_amounts : Option ℕ → Option ℕ → ℕ × ℕ
wheel_scroll_amounts chars lines = (system_scroll_amount chars, system_scroll_amount lines)

-- The scroll amount is a positive number of lines, at most 100, whatever Windows answers.
pub system_scroll_amount_bounds :
    (o : Option ℕ) → (0 < system_scroll_amount o) × (system_scroll_amount o ≤ 100)
unfolding system_scroll_amount
system_scroll_amount_bounds none = ground arith
system_scroll_amount_bounds (some a) = ground arith

-- The answers of `GetSystemMetrics` that `desktop_bounds` asks for, each an `i32`.
pub record Metrics : Type 0 where
  pub virtual_width : ℤ
  pub virtual_height : ℤ
  pub virtual_x : ℤ
  pub virtual_y : ℤ
  pub primary_width : ℤ
  pub primary_height : ℤ

unfoldable pub desktop_bounds : Metrics → Option DesktopBounds
desktop_bounds m =
    if ltb_ℤ (pos 0) m.virtual_width && ltb_ℤ (pos 0) m.virtual_height
    then some (record {
      origin_x = m.virtual_x;
      origin_y = m.virtual_y;
      width = as_u32 m.virtual_width;
      height = as_u32 m.virtual_height;
    })
    else if ltb_ℤ (pos 0) m.primary_width && ltb_ℤ (pos 0) m.primary_height
    then some (record {
      origin_x = pos 0;
      origin_y = pos 0;
      width = as_u32 m.primary_width;
      height = as_u32 m.primary_height;
    })
    else none

-- `primary_screen_size`
abbrev primary_screen_size : Metrics → Option (ℕ × ℕ)
primary_screen_size m = elim (desktop_bounds m) [ none ↦ none | some b ↦ some (b.width, b.height) ]

-- `cursor_position`, of the point that `GetCursorPos` filled in, if it did.
abbrev cursor_position : Option (ℤ × ℤ) → Metrics → Option (ℤ × ℤ)
cursor_position none m = none
cursor_position (some p) m = elim (desktop_bounds m) [
  | none ↦ none
  | some b ↦ some (to_desktop b p.0 p.1)
]

unfoldable pub screen_center : Metrics → ℤ × ℤ
screen_center m = elim (desktop_bounds m) [
  | none ↦ (pos 0, pos 0)
  | some b ↦ to_screen b (quot (as_i32 (pos b.width)) 2) (quot (as_i32 (pos b.height)) 2)
]
