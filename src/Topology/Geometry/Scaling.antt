-- ===== src/Topology/Geometry/Scaling.antt =====
-- Rescaling a movement keeps its direction, never loses it, and crosses a whole screen in one go.
use Prim.Native.Nat.{max}
use native.Mathlib.Nat.{mul-div_cancel_left}
use omnipresent.Prelude.{
  ◌≢◌, ℕ, zero, suc, ◌*◌, ◌/◌, ◌-◌, ◌^◌, ◌≤◌, ◌<◌, ◌≡◌, ◌||◌, arith, nat_beq, if◌then◌else◌,
}
use omnipresent.Prelude.Int.{pos, negsuc, neg_ℕ}
use omnipresent.Prelude.Words.{as_i32, as_u32}
use omnipresent.Topology.Geometry.{scale_axis}

-- How far a movement by `n` goes on the other screen, in either direction.
abbrev pub scaled_size : ℕ → ℕ → ℕ → ℕ
scaled_size n from to =
    if nat_beq from 0 || nat_beq to 0 || nat_beq from to then n else max 1 (n * to / from)

scale_axis-pos :
    (n from to : ℕ)
    → 0 < n
    → n * to / from < 2 ^ 31
    → scale_axis (pos n) from to ≡ pos (scaled_size n from to)
unfolding scale_axis
scale_axis-pos n from to h k = ground arith

scale_axis-neg :
    (n from to : ℕ)
    → 0 < n
    → n * to / from < 2 ^ 31
    → scale_axis (neg_ℕ n) from to ≡ neg_ℕ (scaled_size n from to)
unfolding scale_axis
scale_axis-neg zero from to h k = elim h [ ]
scale_axis-neg (suc n) from to h k = ground arith

-- As long as the scaled movement fits an `i32`, a movement by `n`, at least one, in one direction
-- becomes a movement by `scaled_size n` in the same direction, so it is never lost.
pub scale_axis_size :
    (n from to : ℕ)
    → 0 < n
    → n * to / from < 2 ^ 31
    → (scale_axis (pos n) from to ≡ pos (scaled_size n from to))
      × (scale_axis (neg_ℕ n) from to ≡ neg_ℕ (scaled_size n from to))
      × (0 < scaled_size n from to)
scale_axis_size n from to h k =
    (scale_axis-pos n from to h k, scale_axis-neg n from to h k, ground arith)

-- A movement across the whole of one screen is a movement across the whole of the other, in either
-- direction, where both have a size and the size fits an `i32`.
pub scale_axis_whole :
    (from to : ℕ)
    → 0 < from
    → 0 < to
    → to < 2 ^ 31
    → (scale_axis (pos from) from to ≡ pos to) × (scale_axis (neg_ℕ from) from to ≡ neg_ℕ to)
unfolding scale_axis
scale_axis_whole from to h k b =
    let e : from * to / from ≡ to = mul-div_cancel_left to h in
    let p = scale_axis-pos from from to h (omega arith) in
    let q = scale_axis-neg from from to h (omega arith) in (ground arith, ground arith)

-- A movement to the right or down whose scaled size needs the 32nd bit comes out as a movement to
-- the left or up: the cast to `i32` wraps.
pub scale_axis_wraps :
    (n from to : ℕ)
    → 0 < from
    → 0 < to
    → from ≢ to
    → 2 ^ 31 ≤ n * to / from
    → n * to / from < 2 ^ 32
    → scale_axis (pos n) from to ≡ negsuc (2 ^ 32 - 1 - n * to / from)
unfolding scale_axis as_i32 as_u32
scale_axis_wraps n from to h k d a b = ground arith
