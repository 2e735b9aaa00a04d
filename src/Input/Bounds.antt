-- ===== src/Input/Bounds.antt =====
-- crates/omni-input/src/port.rs: where the desktop lies in the coordinates of the operating system.
-- Sums and differences of `i32`s wrap, as in a release build.
use omnipresent.Prelude.{refl, ◌≡◌, ℕ, arith}
use omnipresent.Prelude.Int.{ℤ, pos, negsuc, ◌+ℤ◌, ◌-ℤ◌}
use omnipresent.Prelude.Words.{as_i32, as_u32, IsI32}

pub record DesktopBounds : Type 0 where
  pub origin_x : ℤ
  pub origin_y : ℤ
  pub width : ℕ
  pub height : ℕ

-- `DesktopBounds::to_desktop`
unfoldable pub to_desktop : DesktopBounds → ℤ → ℤ → ℤ × ℤ
to_desktop self x y = (as_i32 (x -ℤ self.origin_x), as_i32 (y -ℤ self.origin_y))

-- `DesktopBounds::to_screen`
unfoldable pub to_screen : DesktopBounds → ℤ → ℤ → ℤ × ℤ
to_screen self x y = (as_i32 (x +ℤ self.origin_x), as_i32 (y +ℤ self.origin_y))

-- `DesktopBounds::size`
abbrev pub size : DesktopBounds → ℕ × ℕ
size self = (self.width, self.height)

-- Subtracting and adding an origin gives a coordinate back, when the two wrap as well.
add-sub : (x o : ℤ) → IsI32 x → IsI32 o → as_i32 (as_i32 (x -ℤ o) +ℤ o) ≡ x
unfolding as_i32 as_u32 ◌+ℤ◌ ◌-ℤ◌
add-sub (pos x) (pos o) h k = ground arith
add-sub (pos x) (negsuc o) h k = ground arith
add-sub (negsuc x) (pos o) h k = ground arith
add-sub (negsuc x) (negsuc o) h k = ground arith

-- A coordinate of the operating system that is taken to the desktop's space and back is the one it
-- was, whatever the origin and also when the difference wraps.
pub to_screen-to_desktop :
    (b : DesktopBounds) (x y : ℤ)
    → IsI32 b.origin_x
    → IsI32 b.origin_y
    → IsI32 x
    → IsI32 y
    → let p = to_desktop b x y in to_screen b p.0 p.1 ≡ (x, y)
unfolding to_desktop to_screen
to_screen-to_desktop b x y p q h k = rw (add-sub x b.origin_x h p, add-sub y b.origin_y k q) refl
