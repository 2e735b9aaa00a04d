-- ===== src/Runtime/Daemon/Told.antt =====
-- crates/omni-runtime/src/daemon.rs, capture → route → send: what the peers are told when a captured
-- event changes who gets the input.
use omnipresent.Protocol.Remap.{apply}
use omnipresent.Topology.Layout.Moves.{Reports}
use mathlib.Core.Option.{none}
use omnipresent.Runtime.Daemon.Preserved.{sync_cursor-IsCore, advances}
use omnipresent.Protocol.Input.{InputEvent, MouseDelta}
use omnipresent.Prelude.{
  some, Option, Bool, Option-cases, list_eq, ◌≡◌, ◌⊎◌, ℕ, true, false, [], ◌∷◌, ◌++◌, map, refl,
  arith, ap, ◌∙◌, sym, inl, inr, Bool-cases, ◌==◌, nat_eq,
}
use omnipresent.Prelude.Int.{ℤ, pos}
use omnipresent.Prelude.Maps.{get, contains_key}
use omnipresent.Prelude.Words.{as_i32}
use omnipresent.Session.{
  target_eq, ActiveTarget, local, remote, handle_crossing, set_active, emit, target_beq_iff,
  SessionManager,
}
use omnipresent.Topology.Layout.{Advance, Crossing}
use omnipresent.Runtime.Daemon.{
  input, notify_change, sync_suppression, ok, MachineId, Outcome, Daemon, warp, cursor_returned,
  send, send_all, warp_cursor,
}
use omnipresent.Runtime.Daemon.Routing.{
  finish, is_motion, route_captured, route, forward_position, forward_to, sync_cursor_to_os,
  advance_cursor, arrive, settle, place_cursor_after_crossing,
}
use omnipresent.Runtime.Daemon.Invariant.{IsValid, IsCore}

-- The machine and its links are as they were.
abbrev pub IsKept : Daemon → Daemon → Type 0
IsKept d t = (t.own ≡ d.own) × (t.links ≡ d.links)

-- At most one event was sent.
abbrev pub Forwards : Daemon → Daemon → Type 0
Forwards d t =
    (t.outbox ≡ d.outbox)
    ⊎ ((p : ℕ) × (e : InputEvent) × (t.outbox ≡ d.outbox ++ ((p, input e) ∷ [])))

-- A peer has been sent the cursor's place, or all linked peers have been told that it is back, and
-- where.
abbrev pub Handed : Daemon → Daemon → Type 0
Handed d t =
    let x = as_i32 (pos t.cursor.position.x) in
    let y = as_i32 (pos t.cursor.position.y) in
    ((p : ℕ) × (t.sessions.active ≡ remote p) × (t.outbox ≡ d.outbox ++ ((p, warp x y) ∷ [])))
    ⊎ ((t.sessions.active ≡ local)
        × (t.outbox ≡ d.outbox ++ map (λ e. (e.0, cursor_returned x y)) d.links))

abbrev pub IsTold : Daemon → Daemon → Type 0
IsTold d t = IsKept d t × (((t.sessions.active ≡ d.sessions.active) × Forwards d t) ⊎ Handed d t)

-- The move did not cross, and the input goes where it went; or it did, and it is told.
abbrev IsAnnounced : Daemon → Daemon × Bool → Type 0
IsAnnounced d r =
    IsKept d r.0
    × (((r.1 ≡ false) × (r.0.sessions.active ≡ d.sessions.active) × (r.0.outbox ≡ d.outbox))
        ⊎ ((r.1 ≡ true) × Handed d r.0))

set_active-active : (t : ActiveTarget) (m : SessionManager) → (set_active t m).active ≡ t
unfolding set_active emit
set_active-active t m = elim (Bool-cases (m.active == t)) [
  | inl y ↦ rw (y, set_active) ((target_beq_iff m.active t).0 y)
  | inr n ↦ rw (n, set_active) refl
]

warp_cursor-kept :
    (x y : ℤ) (d : Daemon)
    → let t = warp_cursor x y d in
      (t.sessions ≡ d.sessions)
      × (t.outbox ≡ d.outbox)
      × (t.links ≡ d.links)
      × (t.cursor ≡ d.cursor)
      × (t.own ≡ d.own)
unfolding warp_cursor
warp_cursor-kept x y d = (ground arith, ground arith, ground arith, ground arith, ground arith)

placed_back :
    (c : Crossing) (t : Daemon)
    → (c.peer == t.own) ≡ true
    → let u = place_cursor_after_crossing c t in
      (u.sessions.active ≡ t.sessions.active)
      × (u.outbox
          ≡ t.outbox
            ++ map
                (λ e. (e.0, cursor_returned (as_i32 (pos c.entry.x)) (as_i32 (pos c.entry.y))))
                t.links)
      × (u.cursor ≡ t.cursor)
      × IsKept t u
unfolding place_cursor_after_crossing send_all
placed_back c t h =
    let (a, b, l, k, o) = warp_cursor-kept (as_i32 (pos c.entry.x)) (as_i32 (pos c.entry.y)) t in
    (
      rw (h, place_cursor_after_crossing) (ap (λ m. m.active) a),
      rw (h, place_cursor_after_crossing, send_all, b, l) refl,
      rw (h, place_cursor_after_crossing, send_all) k,
      (
        rw (h, place_cursor_after_crossing, send_all) o,
        rw (h, place_cursor_after_crossing, send_all) l,
      ),
    )

placed_there :
    (c : Crossing) (t : Daemon)
    → (c.peer == t.own) ≡ false
    → contains_key c.peer t.links ≡ true
    → place_cursor_after_crossing c t
      ≡ send c.peer (warp (as_i32 (pos c.entry.x)) (as_i32 (pos c.entry.y))) t
unfolding place_cursor_after_crossing
placed_there c t h k = rw (h, place_cursor_after_crossing, k) refl

-- The crossing that `advance` reports with a cursor.
abbrev crossing_to : Advance → Crossing
crossing_to a = record { peer = a.cursor.machine; entry = a.cursor.position }

settle-IsAnnounced :
    (a : Advance) (d : Daemon)
    → IsCore d
    → IsAnnounced d (settle a (crossing_to a) (handle_crossing (crossing_to a) d.sessions) d)
unfolding handle_crossing send
settle-IsAnnounced a d v =
    let c = crossing_to a in
    elim (Bool-cases (c.peer == d.sessions.own)) [
      | inl y ↦
          let t = record d { sessions = set_active local d.sessions; cursor = a.cursor } in
          let w : (c.peer == d.own) ≡ true = ap (λ o. c.peer == o) (sym v.same) ∙ y in
          let (p, q, k, same) = placed_back c t w in
          rw (y, handle_crossing)
            (same, inr (refl, inr (p ∙ set_active-active local d.sessions, rw (k) q)))
      | inr n ↦ elim (Bool-cases (contains_key c.peer d.sessions.by_peer)) [
        | inl k ↦
            let t = record d {
              sessions = set_active (remote c.peer) d.sessions;
              cursor = a.cursor;
            } in
            let w : (c.peer == d.own) ≡ false = ap (λ o. c.peer == o) (sym v.same) ∙ n in
            let l : contains_key c.peer d.links ≡ true = ground (arith, v.linked c.peer, k) in
            let e = placed_there c t w l in
            rw (n, handle_crossing, k, e)
              (
                (refl, refl),
                inr (refl, inl (c.peer, set_active-active (remote c.peer) d.sessions, refl)),
              )
        | inr k ↦ rw (n, handle_crossing, k) ((refl, refl), inl (refl, refl, refl))
      ]
    ]

arrive-IsAnnounced :
    (a : Advance) (d : Daemon) → IsCore d → Reports d.layout d.cursor a → IsAnnounced d (arrive a d)
unfolding arrive
arrive-IsAnnounced a d v (inl (e, m)) = rw (e, arrive) ((refl, refl), inl (refl, refl, refl))
arrive-IsAnnounced a d v (inr (e, g, n)) = rw (e, arrive) (settle-IsAnnounced a d v)

-- The operation has a result, and nobody is left in the dark by it.
abbrev Tells : Daemon → Outcome ⊥ (Daemon × Bool) → Type 0
Tells d o = (r : Daemon × Bool) × (o ≡ ok r) × IsAnnounced d r

advance_cursor-Tells :
    (delta : MouseDelta) (d : Daemon) → IsCore d → Tells d (advance_cursor delta d)
unfolding advance_cursor
advance_cursor-Tells delta d v =
    let (a, e, i, r) = advances delta d v in
    (arrive a d, rw (e, advance_cursor) refl, arrive-IsAnnounced a d v r)

synced :
    (os : Option (ℤ × ℤ)) (d : Daemon) (o : Outcome ⊥ (Daemon × Bool))
    → Tells (sync_cursor_to_os os d) o
    → Tells d o
unfolding sync_cursor_to_os
synced none d o h = h
synced (some p) d o h = h

forward_to-IsTold :
    (p : MachineId) (e : InputEvent) (d t : Daemon)
    → IsKept d t
    → t.sessions.active ≡ d.sessions.active
    → t.outbox ≡ d.outbox
    → IsTold d (forward_to p e t)
unfolding forward_to send
forward_to-IsTold p e d t k a o = elim (Option-cases (get p t.links)) [
  | inl n ↦ rw (n, forward_to) (k, inl (a, inl o))
  | inr (l, s) ↦
      rw (s, forward_to)
        (
          k,
          inl (
            a,
            inr (
              p,
              apply l.modifier_swap e,
              ap (λ m. m ++ ((p, input (apply l.modifier_swap e)) ∷ [])) o,
            ),
          ),
        )
]

forward_position-IsTold :
    (p : MachineId) (d : Daemon) (r : Daemon × Bool)
    → IsAnnounced d r
    → IsTold d (forward_position p r).0
forward_position-IsTold p d (t, true) (k, inl (f, s, o)) = absurd (cc f)
forward_position-IsTold p d (t, true) (k, inr (f, h)) = (k, inr h)
forward_position-IsTold p d (t, false) (k, inl (f, s, o)) = forward_to-IsTold p _ d t k s o
forward_position-IsTold p d (t, false) (k, inr (f, h)) = absurd (cc f)

announced-IsTold : (d : Daemon) (r : Daemon × Bool) → IsAnnounced d r → IsTold d r.0
announced-IsTold d r (k, inl (f, s, o)) = (k, inl (s, inl o))
announced-IsTold d r (k, inr (f, h)) = (k, inr h)

route-IsTold :
    (t : ActiveTarget) (os : Option (ℤ × ℤ)) (e : InputEvent) (d : Daemon)
    → d.sessions.active ≡ t
    → IsCore d
    → (r : Daemon × Bool) × (route t os e d ≡ ok r) × IsTold d r.0
unfolding route
route-IsTold local os e d l v = elim (Option-cases (is_motion e)) [
  | inl n ↦ rw (n, route) ((d, false), refl, ((refl, refl), inl (refl, inl refl)))
  | inr (delta, m) ↦
      let (r, q, w) =
        synced os d _
          (advance_cursor-Tells delta (sync_cursor_to_os os d) (sync_cursor-IsCore os d v l)) in
      rw (m, route) (r, q, announced-IsTold d r w)
]
route-IsTold (remote p) os e d l v = elim (Option-cases (is_motion e)) [
  | inl n ↦
      rw (n, route)
        ((forward_to p e d, false), refl, forward_to-IsTold p e d d (refl, refl) refl refl)
  | inr (delta, m) ↦
      let (r, q, w) = advance_cursor-Tells delta d v in
      rw (m, route, q) (forward_position p r, refl, forward_position-IsTold p d r w)
]

finish-IsTold : (d : Daemon) (r : Daemon × Bool) → IsTold d r.0 → IsTold d (finish r)
unfolding sync_suppression notify_change
finish-IsTold d (t, true) h = h
finish-IsTold d (t, false) h = h

-- In a state that keeps the invariant, a captured event is routed without a panic and leaves the
-- links as they are, and then input goes where it went, and the outbox has at most one event more;
-- or it goes to a peer, and the one message that was added to the outbox sends that peer the
-- cursor's place; or it goes to this machine, and the messages that were added tell each linked
-- peer, and nobody else, that the cursor is back, and where.
pub route_captured-IsTold :
    (os : Option (ℤ × ℤ)) (e : InputEvent) (d : Daemon)
    → IsValid d
    → (t : Daemon) × (route_captured os e d ≡ ok t) × IsTold d t
unfolding route_captured
route_captured-IsTold os e d v =
    let (r, q, w) = route-IsTold d.sessions.active os e d refl v.core in
    (finish r, rw q refl, finish-IsTold d r w)
