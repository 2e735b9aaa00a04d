-- ===== src/Topology/Geometry.antt =====
-- crates/omni-topology/src/geometry.rs: screens, points, edges, and the rescaling of a movement.
pub mod Scaling
use omnipresent.Prelude.{
  ℕ, ◌≡◌, ◌↔◌, Bool, true, false, ◌||◌, arith, Eq, ◌==◌, nat_eq, if◌then◌else◌, nat_beq,
}
use omnipresent.Prelude.Int.{ℤ, pos, mul_ℕ, quot, signum, int_eq}
use omnipresent.Prelude.Words.{as_i32}
use omnipresent.Protocol.Input.{MouseDelta}

-- The sides are `u32` values.
pub record Screen : Type 0 where
  pub width : ℕ
  pub height : ℕ

pub record Point : Type 0 where
  pub x : ℕ
  pub y : ℕ

pub data Edge : Type 0 where
  left right top bottom : Edge

-- `Edge::opposite`
unfoldable pub opposite : Edge → Edge
opposite left = right
opposite right = left
opposite top = bottom
opposite bottom = top

-- `Edge::is_horizontal`
unfoldable pub is_horizontal : Edge → Bool
is_horizontal left = true
is_horizontal right = true
is_horizontal top = false
is_horizontal bottom = false

abbrev edge_index : Edge → ℕ
edge_index left = 0
edge_index right = 1
edge_index top = 2
edge_index bottom = 3

unfoldable pub edge_beq : Edge → Edge → Bool
edge_beq a b = nat_beq (edge_index a) (edge_index b)

pub edge_beq_iff : (a b : Edge) → (edge_beq a b ≡ true) ↔ (a ≡ b)
unfolding edge_beq
edge_beq_iff left b = ground arith
edge_beq_iff right b = ground arith
edge_beq_iff top b = ground arith
edge_beq_iff bottom b = ground arith

instance abbrev pub edge_eq : Eq Edge
edge_eq = record { test = edge_beq; test_iff = edge_beq_iff }

-- The product and the quotient are those of `i64`, exact for an `i32` and two `u32`s.
unfoldable pub scale_axis : ℤ → ℕ → ℕ → ℤ
unfolding as_i32
scale_axis delta from to =
    let scaled = quot (mul_ℕ delta to) from in
    if delta == pos 0 || from == 0 || to == 0 || from == to
    then delta
    else if scaled == pos 0
    then signum delta
    else as_i32 scaled

unfoldable pub scale_delta : MouseDelta → Screen → Screen → MouseDelta
unfolding scale_axis
scale_delta d from to = record {
  dx = scale_axis d.dx from.width to.width;
  dy = scale_axis d.dy from.height to.height;
}
