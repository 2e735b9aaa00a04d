-- ===== src/Runtime/Daemon/Preserved.antt =====
-- A captured event never panics and keeps the invariant; so do crossings and hand-overs.
pub mod Peers
pub mod Changes
pub mod Admission
pub mod Placing
use omnipresent.Topology.Layout.{advance, Advance, Crossing}
use Option.{none}
use mathlib.Core.Bool.{false}
use omnipresent.Prelude.Words.{as_i32}
use omnipresent.Protocol.Input.{MouseDelta, pointer}
use omnipresent.Prelude.Int.{pos, ℤ}
use omnipresent.Session.{set_active, handle_crossing}
use omnipresent.Prelude.Maps.{get, contains_key}
use omnipresent.Runtime.Daemon.Routing.{
  scaled, is_motion, finish, forward_position, route_captured, route, forward_to, sync_cursor_to_os,
  advance_cursor, arrive, place_cursor_after_crossing,
}
use omnipresent.Prelude.{
  nat_beq_iff, ◌∙◌, ◌==◌, false, some, refl, list_eq, nat_eq, Option-cases, true, inr, Option, Bool,
  ◌≡◌, inl, Bool-cases,
}
use mathlib.Core.Option
use omnipresent.Session
use omnipresent.Session.Invariant
use omnipresent.Topology.Layout.Moves.{IsInside, Reports, advance-IsInside}
use omnipresent.Runtime.Daemon.Layouts.{
  HasSize, AllSized, layout_of-screen, layout_of-IsValid, link_screen,
}
use omnipresent.Runtime.Daemon.Invariant.{
  IsCore, IsValid, IsConsistent, machine_at, link_session, redirect, retarget, rebuilt, layout-own,
  home-IsInside, clamp_to_screen-IsOn,
}
use omnipresent.Runtime.Daemon.{
  remote, local, ok, notify_change, ActiveTarget, InputEvent, sync_suppression, MachineId, Outcome,
  Daemon, with_sink, SinkCall,
}
use omnipresent.Runtime.Daemon.Routing

sink-IsCore : (call : SinkCall) (d : Daemon) → IsCore d → IsCore (with_sink call d)
sink-IsCore call d v = elim (Bool-cases d.has_sink) [ inl y ↦ rw y v | inr n ↦ rw n v ]

place_cursor-IsCore :
    (c : Crossing) (d : Daemon) → IsCore d → IsCore (place_cursor_after_crossing c d)
unfolding place_cursor_after_crossing
place_cursor-IsCore c d v = elim (Bool-cases (c.peer == d.own)) [
  | inl y ↦
      rw y (sink-IsCore (SinkCall.warps (as_i32 (pos c.entry.x)) (as_i32 (pos c.entry.y))) d v)
  | inr n ↦ elim (Bool-cases (contains_key c.peer d.links)) [
    | inl y ↦ rw (n, y) v
    | inr k ↦ rw (n, k) v
  ]
]

-- The cursor arrives where `advance` put it, and the input goes there.
arrive-IsCore :
    (a : Advance) (d : Daemon)
    → IsCore d
    → IsInside d.layout a.cursor
    → Reports d.layout d.cursor a
    → IsCore (arrive a d).0
unfolding arrive handle_crossing
arrive-IsCore a d v i (inl (e, m)) =
    rw (e, arrive)
      (record {
        tables = v.tables;
        same = v.same;
        linked = v.linked;
        own_sized = v.own_sized;
        sized = v.sized;
        built = v.built;
        inside = i;
        placed = m ∙ v.placed;
      })
arrive-IsCore a d v i (inr (e, g, n)) =
    let c : Crossing = record { peer = a.cursor.machine; entry = a.cursor.position } in
    elim (Bool-cases (c.peer == d.sessions.own)) [
      | inl y ↦
          rw (e, arrive, y)
            (place_cursor-IsCore c
              (record d { sessions = set_active local d.sessions; cursor = a.cursor })
              (redirect d local a.cursor v tt i ((nat_beq_iff c.peer d.sessions.own).0 y ∙ v.same)))
      | inr k ↦ elim (Bool-cases (contains_key c.peer d.sessions.by_peer)) [
        | inl y ↦
            rw (e, arrive, k, y)
              (place_cursor-IsCore c
                (record d { sessions = set_active (remote c.peer) d.sessions; cursor = a.cursor })
                (redirect d (remote c.peer) a.cursor v y i refl))
        | inr z ↦ rw (e, arrive, k, z) v
      ]
    ]

-- The daemon always knows the machine that the cursor is on.
cursor_known : (d : Daemon) → IsCore d → contains_key d.cursor.machine d.layout.screens ≡ true
cursor_known d v = let (s, e, o) = v.inside in rw e

abbrev Keeps : Outcome ⊥ (Daemon × Bool) → Type 0
Keeps o = (d : Daemon) × (crossed : Bool) × (o ≡ ok (d, crossed)) × IsCore d

-- The layout takes the cursor to a pixel of a known screen.
pub advances :
    (delta : MouseDelta) (d : Daemon)
    → IsCore d
    → (a : Advance) × (advance d.layout d.cursor (scaled d delta) ≡ ok a)
      × IsInside d.layout a.cursor
      × Reports d.layout d.cursor a
advances delta d v =
    let w = rw (← v.built) at (layout_of-IsValid d.own d.own_screen d.links v.own_sized v.sized) in
    advance-IsInside d.layout d.cursor (scaled d delta) w (cursor_known d v)

advance_cursor-Keeps : (delta : MouseDelta) (d : Daemon) → IsCore d → Keeps (advance_cursor delta d)
unfolding advance_cursor
advance_cursor-Keeps delta d v =
    let (a, e, i, r) = advances delta d v in
    ((arrive a d).0, (arrive a d).1, rw (e, advance_cursor), arrive-IsCore a d v i r)

pub sync_cursor-IsCore :
    (os : Option (ℤ × ℤ)) (d : Daemon)
    → IsCore d
    → d.sessions.active ≡ local
    → IsCore (sync_cursor_to_os os d)
unfolding sync_cursor_to_os
sync_cursor-IsCore none d v l = v
sync_cursor-IsCore (some p) d v l = record {
  tables = v.tables;
  same = v.same;
  linked = v.linked;
  own_sized = v.own_sized;
  sized = v.sized;
  built = v.built;
  inside = (d.own_screen, layout-own d v, clamp_to_screen-IsOn d.own_screen p.0 p.1 v.own_sized);
  placed = rw l;
}

forward-IsCore :
    (p : MachineId) (e : InputEvent) (d : Daemon) → IsCore d → IsCore (forward_to p e d)
unfolding forward_to
forward-IsCore p e d v = elim (Option-cases (get p d.links)) [
  | inl n ↦ rw (n, forward_to) v
  | inr (l, s) ↦ rw (s, forward_to) v
]

forward_position-IsCore :
    (p : MachineId) (d : Daemon) (crossed : Bool)
    → IsCore d
    → IsCore (forward_position p (d, crossed)).0
forward_position-IsCore p d true v = v
forward_position-IsCore p d false v =
    forward-IsCore p (pointer (as_i32 (pos d.cursor.position.x)) (as_i32 (pos d.cursor.position.y)))
      d v

route-Keeps :
    (t : ActiveTarget) (os : Option (ℤ × ℤ)) (e : InputEvent) (d : Daemon)
    → d.sessions.active ≡ t
    → IsCore d
    → Keeps (route t os e d)
unfolding route
route-Keeps local os e d l v = elim (Option-cases (is_motion e)) [
  | inl n ↦ rw (n, route) (d, false, refl, v)
  | inr (delta, m) ↦
      rw (m, route)
        (advance_cursor-Keeps delta (sync_cursor_to_os os d) (sync_cursor-IsCore os d v l))
]
route-Keeps (remote p) os e d l v = elim (Option-cases (is_motion e)) [
  | inl n ↦ rw (n, route) (forward_to p e d, false, refl, forward-IsCore p e d v)
  | inr (delta, m) ↦
      let (d', b, q, w) = advance_cursor-Keeps delta d v in
      rw (m, route, q)
        (
          (forward_position p (d', b)).0,
          (forward_position p (d', b)).1,
          refl,
          forward_position-IsCore p d' b w,
        )
]

finish-IsValid : (d : Daemon) (crossed : Bool) → IsCore d → IsValid (finish (d, crossed))
unfolding sync_suppression notify_change
finish-IsValid d true v = record { core = v; muted = refl }
finish-IsValid d false v = record { core = v; muted = refl }

-- In a state that keeps the invariant, a captured event, whatever it is and wherever the operating
-- system says its cursor is, is routed without a panic, and leaves a state that keeps it: the cursor
-- is on a pixel of a known screen, the input goes to the machine of that screen, and local input is
-- withheld exactly while it goes to a peer.
pub route_captured-IsValid :
    (os : Option (ℤ × ℤ)) (e : InputEvent) (d : Daemon)
    → IsValid d
    → (d' : Daemon) × (route_captured os e d ≡ ok d') × IsValid d'
unfolding route_captured
route_captured-IsValid os e d v =
    let (d', b, q, w) = route-Keeps d.sessions.active os e d refl v.core in
    (finish (d', b), rw q, finish-IsValid d' b w)
