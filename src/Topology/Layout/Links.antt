-- ===== src/Topology/Layout/Links.antt =====
-- Adding machines and linking them keeps a layout well formed, and what a link leaves behind.
use mathlib.Core.Path.{ap}
use omnipresent.Prelude.{sym, ◌∙◌}
use omnipresent.Prelude.{
  subst, ◌&&◌, if◌then◌else◌, ◌<◌, ◌≡◌, refl, true, false, some, arith, ◌==◌, nat_eq, pair_eq,
}
use omnipresent.Prelude.Maps.{get, contains_key, get-insert, insert}
use omnipresent.Prelude.Outcome.{ok}
use omnipresent.Protocol.Ids.{MachineId}
use omnipresent.Topology.Geometry.{
  Screen, Edge, opposite, edge_eq, edge_beq, edge_beq_iff, left, right, top, bottom,
}
use omnipresent.Topology.Layout.{
  Machine, VirtualLayout, empty_layout, add_machine, screen_of, link, neighbor,
}

-- Every screen has a size, and every link joins two machines that are there.
pub record IsValid (l : VirtualLayout) : Type 0 where
  pub sized : (m : MachineId) (s : Screen) → screen_of l m ≡ some s → (0 < s.width) × (0 < s.height)
  pub known :
      (m : MachineId) (e : Edge) (p : MachineId)
      → neighbor l m e ≡ some p
      → (contains_key m l.screens ≡ true) × (contains_key p l.screens ≡ true)

pub empty_layout-IsValid : IsValid empty_layout
unfolding get
empty_layout-IsValid = record { sized = λ m s h. cc; known = λ m e p h. cc }

added : Machine → VirtualLayout → VirtualLayout
added m l = record l { screens = insert m.id m.screen l.screens }

added-IsValid :
    (m : Machine) (l : VirtualLayout)
    → IsValid l
    → 0 < m.screen.width
    → 0 < m.screen.height
    → IsValid (added m l)
unfolding added
added-IsValid m l v w h = record {
  sized = λ n s q. ground (arith, get-insert m.id n m.screen l.screens, v.sized n s);
  known = λ n e p q. ground (
    arith,
    get-insert m.id n m.screen l.screens,
    get-insert m.id p m.screen l.screens,
    v.known n e p q,
  );
}

-- Adding a machine with a screen that has a size to a well-formed layout gives a well-formed one.
pub add_machine-IsValid :
    (m : Machine) (l l' : VirtualLayout)
    → IsValid l
    → 0 < m.screen.width
    → 0 < m.screen.height
    → add_machine m l ≡ ok l'
    → IsValid l'
unfolding add_machine added
add_machine-IsValid m l l' v w h e = subst IsValid (ground arith) (added-IsValid m l v w h)

linked : MachineId → Edge → MachineId → VirtualLayout → VirtualLayout
linked a edge b l = record l { links = insert (b, opposite edge) a (insert (a, edge) b l.links) }

neighbor-linked :
    (a : MachineId) (edge : Edge) (b : MachineId) (l : VirtualLayout) (m : MachineId) (e : Edge)
    → neighbor (linked a edge b l) m e ≡ (
        if b == m && opposite edge == e
        then some a
        else if a == m && edge == e
        then some b
        else neighbor l m e)
unfolding linked
neighbor-linked a edge b l m e = rw (
  get-insert (b, opposite edge) (m, e) a (insert (a, edge) b l.links),
  get-insert (a, edge) (m, e) b l.links,
)

linked-IsValid :
    (a : MachineId) (edge : Edge) (b : MachineId) (l : VirtualLayout)
    → IsValid l
    → contains_key a l.screens ≡ true
    → contains_key b l.screens ≡ true
    → IsValid (linked a edge b l)
unfolding linked
linked-IsValid a edge b l v ha hb = record {
  sized = v.sized;
  known = λ m e p q. ground (
    arith,
    neighbor-linked a edge b l m e,
    edge_beq_iff edge e,
    edge_beq_iff (opposite edge) e,
    v.known m e p,
  );
}

-- Linking two machines of a well-formed layout gives a well-formed one.
pub link-IsValid :
    (a : MachineId) (edge : Edge) (b : MachineId) (l l' : VirtualLayout)
    → IsValid l
    → link a edge b l ≡ ok l'
    → IsValid l'
unfolding link linked
link-IsValid a edge b l l' v e =
    subst IsValid (ground arith) (linked-IsValid a edge b l v (ground arith) (ground arith))

opposite_ne : (e : Edge) → edge_beq (opposite e) e ≡ false
unfolding opposite edge_beq
opposite_ne left = refl
opposite_ne right = refl
opposite_ne top = refl
opposite_ne bottom = refl

-- A link that was made leads both ways, from `a` past the edge to `b` and from `b` past the opposite
-- edge to `a`, and changes the neighbor past no other edge of any machine.
pub neighbor-link :
    (a : MachineId) (edge : Edge) (b : MachineId) (l l' : VirtualLayout) (m : MachineId) (e : Edge)
    → link a edge b l ≡ ok l'
    → neighbor l' m e ≡ (
        if b == m && opposite edge == e
        then some a
        else if a == m && edge == e
        then some b
        else neighbor l m e)
unfolding link linked
neighbor-link a edge b l l' m e h =
    let q : linked a edge b l ≡ l' = ground arith in
    ap (λ k. neighbor k m e) (sym q) ∙ neighbor-linked a edge b l m e

-- When another machine is linked past an edge that led to `b`, the edge leads to the other one, but
-- `b` still has the way back: links are then no longer symmetric.
pub link-link :
    (a : MachineId) (edge : Edge) (b c : MachineId) (l l' l'' : VirtualLayout)
    → link a edge b l ≡ ok l'
    → link a edge c l' ≡ ok l''
    → (c == b) ≡ false
    → (neighbor l'' a edge ≡ some c) × (neighbor l'' b (opposite edge) ≡ some a)
link-link a edge b c l l' l'' h k n =
    let o = opposite_ne edge in
    let p = edge_beq_iff edge (opposite edge) in
    (
      neighbor-link a edge c l' l'' a edge k ∙ ground (arith, edge_beq_iff edge edge),
      neighbor-link a edge c l' l'' b (opposite edge) k
          ∙ ground (
            arith,
            neighbor-link a edge b l l' b (opposite edge) h,
            edge_beq_iff (opposite edge) (opposite edge),
          ),
    )
