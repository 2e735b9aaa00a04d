-- ===== src/Topology/Layout/Moves.antt =====
-- What `advance` does: it keeps the cursor on a screen, it crosses past the edge that was overshot
-- most, and where it panics.
use omnipresent.Prelude.{
  ℕ, ◌-◌, ◌<◌, ◌≡◌, ◌≢◌, ◌↔◌, refl, sym, ◌⊎◌, inl, inr, true, ◌||◌, Option, none, some, arith, ◌==◌,
  nat_eq, Option-cases, if◌then◌else◌,
}
use omnipresent.Prelude.Int.{ℤ, pos, negsuc, clamp_ℤ, ltb_ℤ, ◌+ℤ◌}
use omnipresent.Prelude.Maps.{contains_key}
use omnipresent.Prelude.Outcome.{Outcome, ok, panic}
use omnipresent.Prelude.Words.{as_u32}
use omnipresent.Protocol.Ids.{MachineId}
use omnipresent.Protocol.Input.{MouseDelta}
use omnipresent.Topology.Geometry.{Screen, Point, Edge, left, right, top, bottom}
use omnipresent.Topology.Layout.Links.{IsValid}
use omnipresent.Topology.Layout.Projection.{project-lt}
use omnipresent.Topology.Layout.{
  VirtualLayout, CursorState, Advance, LayoutError, screen_of, neighbor, edge_overshoot,
  entry_point, chosen, stay, cross, advance_on, advance,
}

-- The point is a pixel of the screen.
abbrev pub IsOn : Screen → Point → Type 0
IsOn s p = (p.x < s.width) × (p.y < s.height)

-- The cursor is on a machine of the layout, at a pixel of its screen.
abbrev pub IsInside : VirtualLayout → CursorState → Type 0
IsInside l c = (s : Screen) × (screen_of l c.machine ≡ some s) × IsOn s c.position

entry_point-IsOn :
    (e : Edge) (peer from : Screen) (x y : ℤ)
    → 0 < peer.width
    → 0 < peer.height
    → IsOn peer (entry_point e peer from x y)
unfolding entry_point
entry_point-IsOn left peer from x y w h = (omega arith, project-lt y from.height peer.height h)
entry_point-IsOn right peer from x y w h = (omega arith, project-lt y from.height peer.height h)
entry_point-IsOn top peer from x y w h = (project-lt x from.width peer.width w, omega arith)
entry_point-IsOn bottom peer from x y w h = (project-lt x from.width peer.width w, omega arith)

clamped-lt : (c : ℤ) (n : ℕ) → 0 < n → as_u32 (clamp_ℤ (pos 0) (pos (n - 1)) c) < n
unfolding as_u32
clamped-lt (pos a) n h = ground arith
clamped-lt (negsuc a) n h = ground arith

-- The edge that is chosen has the neighbor that is chosen.
chosen-neighbor :
    (l : VirtualLayout) (c : CursorState) (h v : Option (Edge × ℤ)) (r : Edge × ℤ × MachineId)
    → chosen l c h v ≡ some r
    → neighbor l c.machine r.0 ≡ some r.2
unfolding chosen
chosen-neighbor l c none none r e = cc
chosen-neighbor l c none (some v) r e = ground arith
chosen-neighbor l c (some h) none r e = ground arith
chosen-neighbor l c (some h) (some v) r e = ground arith

-- What a move reports: no crossing and the same machine, or a crossing onto the machine and the
-- point where the cursor now is, which lies past an edge of the old machine.
abbrev pub Reports : VirtualLayout → CursorState → Advance → Type 0
Reports l c a =
    ((a.crossing ≡ none) × (a.cursor.machine ≡ c.machine))
    ⊎ ((a.crossing ≡ some (record { peer = a.cursor.machine; entry = a.cursor.position }))
        × (e : Edge) × (neighbor l c.machine e ≡ some a.cursor.machine))

abbrev Lands : VirtualLayout → CursorState → Outcome LayoutError Advance → Type 0
Lands l c o = (a : Advance) × (o ≡ ok a) × IsInside l a.cursor × Reports l c a

stay-Lands :
    (l : VirtualLayout) (s : Screen) (c : CursorState) (x y : ℤ)
    → screen_of l c.machine ≡ some s
    → 0 < s.width
    → 0 < s.height
    → Lands l c (stay s c x y)
unfolding stay
stay-Lands l s c x y q w h = (
  record {
    cursor = record {
      machine = c.machine;
      position = record {
        x = as_u32 (clamp_ℤ (pos 0) (pos (s.width - 1)) x);
        y = as_u32 (clamp_ℤ (pos 0) (pos (s.height - 1)) y);
      };
    };
    crossing = none;
  },
  ground arith,
  (s, q, (clamped-lt x s.width w, clamped-lt y s.height h)),
  inl (refl, refl),
)

cross-Lands :
    (l : VirtualLayout) (s p : Screen) (c : CursorState) (e : Edge) (m : MachineId) (x y : ℤ)
    → IsValid l
    → screen_of l m ≡ some p
    → neighbor l c.machine e ≡ some m
    → Lands l c (cross l s e m x y)
unfolding cross
cross-Lands l s p c e m x y v q n =
    let size = v.sized m p q in
    (
      record {
        cursor = record { machine = m; position = entry_point e p s x y };
        crossing = some (record { peer = m; entry = entry_point e p s x y });
      },
      rw (q, cross),
      (p, q, entry_point-IsOn e p s x y size.0 size.1),
      inr (refl, e, n),
    )

abbrev pub horizontal : Screen → ℤ → Option (Edge × ℤ)
horizontal s x = edge_overshoot x s.width left right

abbrev pub vertical : Screen → ℤ → Option (Edge × ℤ)
vertical s y = edge_overshoot y s.height top bottom

screen_of_known :
    (l : VirtualLayout) (m : MachineId)
    → contains_key m l.screens ≡ true
    → (s : Screen) × (screen_of l m ≡ some s)
screen_of_known l m h = elim (Option-cases (screen_of l m)) [
  | inl e ↦ absurd (cc (sym h, e))
  | inr r ↦ r
]

advance_on-Lands :
    (l : VirtualLayout) (s : Screen) (c : CursorState) (x y : ℤ)
    → IsValid l
    → screen_of l c.machine ≡ some s
    → Lands l c (advance_on l s c x y)
unfolding advance_on
advance_on-Lands l s c x y v q = elim (Option-cases (chosen l c (horizontal s x) (vertical s y))) [
  | inl e ↦
      rw (e, advance_on)
        (stay-Lands l s c x y q (v.sized c.machine s q).0 (v.sized c.machine s q).1)
  | inr (r, e) ↦
      let n = chosen-neighbor l c (horizontal s x) (vertical s y) r e in
      let (p, there) = screen_of_known l r.2 (v.known c.machine r.0 r.2 n).1 in
      rw (e, advance_on) (cross-Lands l s p c r.0 r.2 x y v there n)
]

-- On a well-formed layout, a move of a cursor that is on a known machine returns (no error, no
-- panic) with the cursor at a pixel of the screen of the machine it reports, and it reports a
-- crossing exactly when it put the cursor there by crossing to a neighbor of the old machine.
pub advance-IsInside :
    (l : VirtualLayout) (c : CursorState) (d : MouseDelta)
    → IsValid l
    → contains_key c.machine l.screens ≡ true
    → (a : Advance) × (advance l c d ≡ ok a) × IsInside l a.cursor × Reports l c a
unfolding advance
advance-IsInside l c d v k =
    let (s, q) = screen_of_known l c.machine k in
    rw (q, advance)
      (advance_on-Lands l s c (pos c.position.x +ℤ d.dx) (pos c.position.y +ℤ d.dy) v q)

-- Of the overshot edges that have a neighbor, the one overshot by more is taken, the vertical one
-- if both are overshot alike; with none of them the cursor stays.
pub chosen_lem :
    (l : VirtualLayout) (c : CursorState) (e f : Edge) (over_e over_f : ℤ) (p q : MachineId)
    → (neighbor l c.machine e ≡ some p
        → neighbor l c.machine f ≡ some q
        → chosen l c (some (e, over_e)) (some (f, over_f))
          ≡ (if ltb_ℤ over_f over_e then some (e, over_e, p) else some (f, over_f, q)))
      × (neighbor l c.machine e ≡ some p
          → neighbor l c.machine f ≡ none
          → chosen l c (some (e, over_e)) (some (f, over_f)) ≡ some (e, over_e, p))
      × (neighbor l c.machine e ≡ none
          → neighbor l c.machine f ≡ some q
          → chosen l c (some (e, over_e)) (some (f, over_f)) ≡ some (f, over_f, q))
      × (neighbor l c.machine e ≡ none
          → neighbor l c.machine f ≡ none
          → chosen l c (some (e, over_e)) (some (f, over_f)) ≡ none)
unfolding chosen
chosen_lem l c e f over_e over_f p q =
    (λ a b. ground arith, λ a b. ground arith, λ a b. ground arith, λ a b. ground arith)

cross-ne-panic :
    (l : VirtualLayout) (s : Screen) (e : Edge) (m : MachineId) (x y : ℤ)
    → cross l s e m x y ≢ panic
unfolding cross
cross-ne-panic l s e m x y h = ground arith

stay-panics :
    (s : Screen) (c : CursorState) (x y : ℤ)
    → (stay s c x y ≡ panic) ↔ ((s.width == 0 || s.height == 0) ≡ true)
unfolding stay
stay-panics s c x y = (λ h. ground arith, λ h. ground arith)

advance_on-panics :
    (l : VirtualLayout) (s : Screen) (c : CursorState) (x y : ℤ)
    → (advance_on l s c x y ≡ panic) ↔ (
        (chosen l c (horizontal s x) (vertical s y) ≡ none)
        × ((s.width == 0 || s.height == 0) ≡ true))
unfolding advance_on
advance_on-panics l s c x y = elim (Option-cases (chosen l c (horizontal s x) (vertical s y))) [
  | inl e ↦
      rw (e, advance_on) (λ h. (refl, (stay-panics s c x y).0 h), λ h. (stay-panics s c x y).1 h.1)
  | inr (r, e) ↦ rw (e, advance_on) (λ h. absurd (cross-ne-panic l s r.0 r.2 x y h), λ h. cc (h.0))
]

-- A move of a cursor on a known machine panics exactly when no edge that it overshot has a neighbor
-- and the screen has a side of length 0.
pub advance_panics :
    (l : VirtualLayout) (c : CursorState) (d : MouseDelta) (s : Screen)
    → screen_of l c.machine ≡ some s
    → (advance l c d ≡ panic) ↔ (
        (chosen l c
            (horizontal s (pos c.position.x +ℤ d.dx))
            (vertical s (pos c.position.y +ℤ d.dy))
          ≡ none)
        × ((s.width == 0 || s.height == 0) ≡ true))
unfolding advance
advance_panics l c d s q =
    rw (q, advance) (advance_on-panics l s c (pos c.position.x +ℤ d.dx) (pos c.position.y +ℤ d.dy))
