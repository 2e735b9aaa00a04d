-- ===== src/Topology/Layout.antt =====
-- crates/omni-topology/src/layout.rs: which machines exist, how they are arranged, and where the
-- cursor goes when it is moved. Coordinates that the source computes in `i64` are exact integers:
-- a `u32` plus an `i32` fits.
pub mod Links
pub mod Projection
pub mod Moves
use mathlib.Core.Option
use omnipresent.Prelude.{
  ℕ, ◌+◌, ◌-◌, ◌*◌, ◌/◌, Bool, true, false, ◌||◌, Option, none, some, List, [], ◌∷◌, leb, ltb, ◌==◌,
  nat_eq, pair_eq, if◌then◌else◌, is_some,
}
use omnipresent.Prelude.Int.{ℤ, pos, pos_part, ◌+ℤ◌, ◌-ℤ◌, ltb_ℤ, clamp_ℤ}
use omnipresent.Prelude.Lists.{filter_map}
use omnipresent.Prelude.Maps.{Map, get, insert, contains_key}
use omnipresent.Prelude.Outcome.{Outcome, ok, err, panic}
use omnipresent.Prelude.Words.{as_u32}
use omnipresent.Protocol.Ids.{MachineId}
use omnipresent.Protocol.Input.{MouseDelta}
use omnipresent.Topology.Geometry.{Screen, Point, Edge, left, right, top, bottom, opposite, edge_eq}

pub record Machine : Type 0 where
  pub id : MachineId
  pub screen : Screen

pub data LayoutError : Type 0 where
  unknown_machine duplicate_machine : MachineId → LayoutError

pub record CursorState : Type 0 where
  pub machine : MachineId
  pub position : Point

pub record Crossing : Type 0 where
  pub peer : MachineId
  pub entry : Point

pub record Advance : Type 0 where
  pub cursor : CursorState
  pub crossing : Option Crossing

pub record VirtualLayout : Type 0 where
  pub screens : Map MachineId Screen
  pub links : Map (MachineId × Edge) MachineId

abbrev pub empty_layout : VirtualLayout
empty_layout = record { screens = []; links = [] }

unfoldable pub add_machine : Machine → VirtualLayout → Outcome LayoutError VirtualLayout
add_machine m l =
    if contains_key m.id l.screens
    then err (duplicate_machine m.id)
    else ok (record l { screens = insert m.id m.screen l.screens })

abbrev pub screen_of : VirtualLayout → MachineId → Option Screen
screen_of l machine = get machine l.screens

unfoldable pub link :
    MachineId → Edge → MachineId → VirtualLayout → Outcome LayoutError VirtualLayout
link a edge b l =
    if contains_key a l.screens
    then if contains_key b l.screens
      then ok (record l { links = insert (b, opposite edge) a (insert (a, edge) b l.links) })
      else err (unknown_machine b)
    else err (unknown_machine a)

abbrev pub neighbor : VirtualLayout → MachineId → Edge → Option MachineId
neighbor l machine edge = get (machine, edge) l.links

-- The edge that a coordinate ran past, and by how much.
unfoldable pub edge_overshoot : ℤ → ℕ → Edge → Edge → Option (Edge × ℤ)
unfolding ◌-ℤ◌
edge_overshoot coord length low high =
    if ltb_ℤ coord (pos 0)
    then some (low, pos 0 -ℤ coord)
    else if ltb_ℤ coord (pos length)
    then none
    else some (high, coord -ℤ (pos length -ℤ pos 1))

-- The product of two numbers below 2 ^ 32 fits the `u64` of the source.
unfoldable pub project : ℤ → ℕ → ℕ → ℕ
unfolding as_u32
project coord src dst =
    if leb src 1 || dst == 0
    then 0
    else as_u32 (pos (pos_part (clamp_ℤ (pos 0) (pos (src - 1)) coord) * (dst - 1) / (src - 1)))

-- The arms that the source marks unreachable do not arise.
unfoldable pub entry_point : Edge → Screen → Screen → ℤ → ℤ → Point
entry_point right peer from cand_x cand_y = record {
  x = 0;
  y = project cand_y from.height peer.height;
}
entry_point left peer from cand_x cand_y = record {
  x = peer.width - 1;
  y = project cand_y from.height peer.height;
}
entry_point bottom peer from cand_x cand_y = record {
  x = project cand_x from.width peer.width;
  y = 0;
}
entry_point top peer from cand_x cand_y = record {
  x = project cand_x from.width peer.width;
  y = peer.height - 1;
}

abbrev flatten_options {ℓ} : {A : Type ℓ} → List (Option A) → List A
flatten_options = filter_map (λ o. o)

-- `Iterator::max_by_key`: of several greatest elements, the last.
abbrev pub max_from {ℓ} : {A : Type ℓ} → (A → ℤ) → A → List A → A
max_from key best [] = best
max_from key best (y ∷ ys) = max_from key (if ltb_ℤ (key y) (key best) then best else y) ys

abbrev pub max_by_key {ℓ} : {A : Type ℓ} → (A → ℤ) → List A → Option A
max_by_key key [] = none
max_by_key key (x ∷ xs) = some (max_from key x xs)

-- The crossing that `advance` chooses: an edge, the overshoot, and the neighbor past it.
unfoldable pub chosen :
    VirtualLayout
    → CursorState
    → Option (Edge × ℤ)
    → Option (Edge × ℤ)
    → Option (Edge × ℤ × MachineId)
chosen l c horizontal vertical =
    max_by_key (λ r. r.1)
      (filter_map (λ o. Option.map (λ p. (o.0, o.1, p)) (neighbor l c.machine o.0))
        (flatten_options (horizontal ∷ vertical ∷ [])))

abbrev clamp_axis : ℤ → ℕ → ℕ
clamp_axis cand length = as_u32 (clamp_ℤ (pos 0) (pos (length - 1)) cand)

-- `i64::clamp` panics where its bounds are the wrong way round, as for a side of length 0.
unfoldable pub stay : Screen → CursorState → ℤ → ℤ → Outcome LayoutError Advance
unfolding as_u32
stay screen c cand_x cand_y =
    if screen.width == 0 || screen.height == 0
    then panic
    else ok (record {
      cursor = record {
        machine = c.machine;
        position = record {
          x = clamp_axis cand_x screen.width;
          y = clamp_axis cand_y screen.height;
        };
      };
      crossing = none;
    })

unfoldable pub cross :
    VirtualLayout → Screen → Edge → MachineId → ℤ → ℤ → Outcome LayoutError Advance
cross l screen edge peer cand_x cand_y = elim (screen_of l peer) [
  | none ↦ err (unknown_machine peer)
  | some peer_screen ↦
      let entry = entry_point edge peer_screen screen cand_x cand_y in
      ok (record {
        cursor = record { machine = peer; position = entry };
        crossing = some (record { peer = peer; entry = entry });
      })
]

-- The part of `advance` after the screen is found, on the candidate position.
unfoldable pub advance_on :
    VirtualLayout → Screen → CursorState → ℤ → ℤ → Outcome LayoutError Advance
advance_on l screen c cand_x cand_y =
    elim (chosen l c (edge_overshoot cand_x screen.width left right)
      (edge_overshoot cand_y screen.height top bottom)) [
        | some r ↦ cross l screen r.0 r.2 cand_x cand_y
        | none ↦ stay screen c cand_x cand_y
      ]

-- `VirtualLayout::advance`
unfoldable pub advance : VirtualLayout → CursorState → MouseDelta → Outcome LayoutError Advance
unfolding ◌+ℤ◌
advance l c delta = elim (screen_of l c.machine) [
  | none ↦ err (unknown_machine c.machine)
  | some screen ↦
      advance_on l screen c (pos c.position.x +ℤ delta.dx) (pos c.position.y +ℤ delta.dy)
]
