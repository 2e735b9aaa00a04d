-- ===== src/Topology/Layout/Projection.antt =====
-- Where a coordinate along the shared edge lands on the neighbor's screen.
use native.Mathlib.Nat.{
  zero-mul, zero-div, mul-div_cancel, div-le_of_le-mul, mul-div_cancel_left, le-div_iff_mul-le,
  div-mul-le_self,
}
use omnipresent.Prelude.{ℕ, ◌-◌, ◌*◌, ◌/◌, ◌^◌, ◌≤◌, ◌<◌, ◌≡◌, arith}
use omnipresent.Prelude.Int.{ℤ, pos, negsuc, pos_part, clamp_ℤ, ◌≤ℤ◌}
use omnipresent.Topology.Layout.{project}

-- The exact value of `project`, before the cast to `u32`.
clamped_part : ℤ → ℕ → ℕ
clamped_part coord src = pos_part (clamp_ℤ (pos 0) (pos (src - 1)) coord)

clamped_part-le : (coord : ℤ) (src : ℕ) → clamped_part coord src ≤ src - 1
unfolding clamped_part
clamped_part-le (pos n) src = ground arith
clamped_part-le (negsuc n) src = ground arith

clamped_part_mono : (a b : ℤ) (src : ℕ) → a ≤ℤ b → clamped_part a src ≤ clamped_part b src
unfolding clamped_part
clamped_part_mono (pos a) (pos b) src h = ground arith
clamped_part_mono (pos a) (negsuc b) src h = ground arith
clamped_part_mono (negsuc a) (pos b) src h = ground arith
clamped_part_mono (negsuc a) (negsuc b) src h = ground arith

clamped_part_inside : (n src : ℕ) → n < src → clamped_part (pos n) src ≡ n
unfolding clamped_part
clamped_part_inside n src h = ground arith

share : ℕ → ℕ → ℕ → ℕ
share a s d = a * d / s

share-le : (a s d : ℕ) → a ≤ s → share a s d ≤ d
unfolding share
share-le a s d h = div-le_of_le-mul s (grind arith)

share_mono : (a b s d : ℕ) → 0 < s → a ≤ b → share a s d ≤ share b s d
unfolding share
share_mono a b s d p h =
    let m = div-mul-le_self (a * d) s in
    let e : a * d ≤ b * d = grind arith in
    (le-div_iff_mul-le {x = a * d / s} {y = b * d} p).1 (omega arith)

project-share :
    (coord : ℤ) (src dst : ℕ)
    → 1 < src
    → 0 < dst
    → dst ≤ 2 ^ 32
    → project coord src dst ≡ share (clamped_part coord src) (src - 1) (dst - 1)
unfolding project clamped_part share
project-share coord src dst h k b =
    let le = share-le (clamped_part coord src) (src - 1) (dst - 1) (clamped_part-le coord src) in
    unfold share clamped_part in ground (arith, le)

-- The projection onto a side that is not empty lies on it, whatever the coordinate.
pub project-lt : (coord : ℤ) (src dst : ℕ) → 0 < dst → project coord src dst < dst
unfolding project share clamped_part
project-lt coord src dst k =
    let le = share-le (clamped_part coord src) (src - 1) (dst - 1) (clamped_part-le coord src) in
    ground (arith, le)

-- From a side of at least two pixels to one of at least one, `project` takes the first pixel to the
-- first and the last to the last, and keeps the order.
pub project_shape :
    (src dst : ℕ) (a b : ℤ)
    → 1 < src
    → 0 < dst
    → dst ≤ 2 ^ 32
    → a ≤ℤ b
    → (project (pos 0) src dst ≡ 0)
      × (project (pos (src - 1)) src dst ≡ dst - 1)
      × (project a src dst ≤ project b src dst)
unfolding share
project_shape src dst p q h k b o =
    let at = λ (c : ℤ). project-share c src dst h k b in
    let first = clamped_part_inside 0 src (omega arith) in
    let last = clamped_part_inside (src - 1) src (omega arith) in
    (
      rw (at (pos 0), first, zero-mul) (zero-div (src - 1)),
      rw (at (pos (src - 1)), last) (mul-div_cancel_left (dst - 1) (omega arith)),
      rw (at p, at q)
          (share_mono (clamped_part p src) (clamped_part q src) (src - 1) (dst - 1) (omega arith)
            (clamped_part_mono p q src o)),
    )

-- Between sides of one length, of at least two pixels, `project` changes no pixel.
pub project_same :
    (side n : ℕ) → 1 < side → side ≤ 2 ^ 32 → n < side → project (pos n) side side ≡ n
unfolding share
project_same side n h b i =
    rw (project-share (pos n) side side h (omega arith) b, clamped_part_inside n side i)
      (mul-div_cancel n (omega arith))
