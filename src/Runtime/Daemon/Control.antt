-- ===== src/Runtime/Daemon/Control.antt =====
-- Where input goes after a hand-over, and after a session has ended.
use omnipresent.Runtime.Daemon.Preserved.Changes.{cleanup_peer-IsValid}
use mathlib.Core.Path.{ap, sym}
use omnipresent.Prelude.{some, ◌∙◌}
use omnipresent.Runtime.Daemon.{clamp_to_screen, PeerLink, rebuild_layout, is_remote, screen_of}
use omnipresent.Runtime.Daemon.Invariant.{machine_at}
use omnipresent.Prelude.Maps.{contains_key, Map, get-remove}
use omnipresent.Runtime.Daemon.Preserved.Peers.{on_signal-IsValid}
use omnipresent.Prelude.Maps.{get}
use omnipresent.Prelude.Int.{ℤ}
use omnipresent.Protocol.Ids.{SessionId, MachineId}
use omnipresent.Runtime.Daemon.Handover.{
  follow_peer_cursor, cleanup_peer, on_signal, yield_control_to_peer,
}
use omnipresent.Runtime.Daemon.{
  remote, local, notify_change, sync_suppression, ActiveTarget, warp_cursor, Daemon,
}
use omnipresent.Protocol.Control
use omnipresent.Protocol.Control.{cursor_warp}
use omnipresent.Session.Invariant
use omnipresent.Session.Invariant.{set_active_tables}
use omnipresent.Session.{emit, set_active, yield_control, follow_peer, target_eq, target_beq_iff}
use omnipresent.Prelude.{
  ◌∙◌, true, ◌≢◌, false, ◌==◌, none, ◌≡◌, list_eq, nat_eq, nat_beq_iff, refl, arith, inl, inr,
  Bool-cases, Option-cases,
}
use omnipresent.Runtime.Daemon.Invariant.{IsValid}
use omnipresent.Runtime.Daemon.Layouts.{layout_of-screen}

abbrev active_of : Daemon → ActiveTarget
active_of d = d.sessions.active

warp-active : (x y : ℤ) (d : Daemon) → active_of (warp_cursor x y d) ≡ active_of d
unfolding warp_cursor
warp-active x y d = ground arith

warp-own : (x y : ℤ) (d : Daemon) → (warp_cursor x y d).own ≡ d.own
unfolding warp_cursor
warp-own x y d = ground arith

yield-active : (d : Daemon) → active_of (yield_control_to_peer d) ≡ local
unfolding yield_control_to_peer yield_control sync_suppression notify_change set_active emit
yield-active d = elim (Bool-cases (d.sessions.active == local)) [
  | inl y ↦ rw y ((target_beq_iff d.sessions.active local).0 y)
  | inr n ↦ rw n refl
]

yield-own : (d : Daemon) → (yield_control_to_peer d).own ≡ d.own
unfolding yield_control_to_peer yield_control sync_suppression notify_change set_active emit
yield-own d = elim (Bool-cases (d.sessions.active == local)) [
  | inl y ↦ rw y refl
  | inr n ↦ rw n refl
]

-- In a state that keeps the invariant, when a peer's cursor crosses onto this machine, this machine's
-- input goes to its own screen and is not withheld, its cursor is tracked on its own screen, and the
-- session goes on.
pub on_signal-cursor_warp :
    (session : SessionId) (p : MachineId) (x y : ℤ) (d : Daemon)
    → IsValid d
    → let r = on_signal session p (cursor_warp session x y) d in
      (r.0.sessions.active ≡ local)
      × (r.0.suppress ≡ false)
      × (r.0.cursor.machine ≡ d.own)
      × (r.1 ≡ true)
unfolding on_signal
on_signal-cursor_warp session p x y d v =
    let s : (session == session) ≡ true = ground arith in
    let w = rw s at (on_signal-IsValid session p (cursor_warp session x y) d v) in
    let a = warp-active x y (yield_control_to_peer d) ∙ yield-active d in
    let o = warp-own x y (yield_control_to_peer d) ∙ yield-own d in
    rw s (a, w.muted ∙ ap is_remote a, w.core.placed ∙ ap (machine_at _) a ∙ o, refl)

cleanup-link : (p : MachineId) (d : Daemon) → get p (cleanup_peer p d).links ≡ none
unfolding cleanup_peer sync_suppression notify_change rebuild_layout
cleanup-link p d = elim (Option-cases (get p d.links)) [
  | inl e ↦ rw (e, cleanup_peer) e
  | inr (l, e) ↦ rw (e, cleanup_peer) (get-remove p p d.links ∙ ground arith)
]

routed-ne :
    (p : MachineId) (t : ActiveTarget) (by_peer : Map MachineId SessionId)
    → Invariant.HasSession by_peer t
    → get p by_peer ≡ none
    → t ≢ remote p
routed-ne p local by_peer h n e = cc
routed-ne p (remote q) by_peer h n e =
    ground (arith, target_beq_iff (remote q) (remote p), nat_beq_iff q p)

-- In a state that keeps the invariant, once a session has ended the peer has no link and no session,
-- and input does not go to it.
pub cleanup_peer-gone :
    (p : MachineId) (d : Daemon)
    → IsValid d
    → let d' = cleanup_peer p d in
      (get p d'.links ≡ none) × (get p d'.sessions.by_peer ≡ none) × (d'.sessions.active ≢ remote p)
cleanup_peer-gone p d v =
    let w = cleanup_peer-IsValid p d v in
    let g = cleanup-link p d in
    let n : get p (cleanup_peer p d).sessions.by_peer ≡ none = sym (w.core.linked p) ∙ rw g refl in
    (
      g,
      n,
      routed-ne p (cleanup_peer p d).sessions.active (cleanup_peer p d).sessions.by_peer
          w.core.tables.routed n,
    )

follow-active :
    (p : MachineId) (x y : ℤ) (d : Daemon) (l : PeerLink)
    → IsValid d
    → get p d.links ≡ some l
    → (d.own == p) ≡ false
    → (active_of (follow_peer_cursor p x y d) ≡ remote p)
      × ((follow_peer_cursor p x y d).cursor
          ≡ record { machine = p; position = clamp_to_screen l.screen x y })
unfolding follow_peer_cursor follow_peer sync_suppression notify_change
follow-active p x y d l v g n =
    let e : screen_of d.layout p ≡ some l.screen =
      rw v.core.built (layout_of-screen d.own d.own_screen d.links p ∙ rw (n, g) refl) in
    let k : contains_key p d.sessions.by_peer ≡ true = ground (arith, v.core.linked p, g) in
    rw (e, follow_peer_cursor, k)
      (elim (Bool-cases (d.sessions.active == remote p)) [
        | inl q ↦ rw q ((target_beq_iff d.sessions.active (remote p)).0 q, refl)
        | inr q ↦ rw q (refl, refl)
      ])

-- In a state that keeps the invariant, when the cursor goes back from this machine to the screen of a
-- peer that has a link, and not this machine's id, this machine's input follows it to the peer and is
-- withheld here, the cursor is tracked where the peer says it is, cut off to the peer's screen, and
-- the session goes on.
pub on_signal-cursor_returned :
    (session : SessionId) (p : MachineId) (x y : ℤ) (d : Daemon) (l : PeerLink)
    → IsValid d
    → get p d.links ≡ some l
    → (d.own == p) ≡ false
    → let r = on_signal session p (Control.cursor_returned session x y) d in
      (r.0.sessions.active ≡ remote p)
      × (r.0.suppress ≡ true)
      × (r.0.cursor ≡ record { machine = p; position = clamp_to_screen l.screen x y })
      × (r.1 ≡ true)
unfolding on_signal
on_signal-cursor_returned session p x y d l v g n =
    let s : (session == session) ≡ true = ground arith in
    let w = rw s at (on_signal-IsValid session p (Control.cursor_returned session x y) d v) in
    let (a, c) = follow-active p x y d l v g n in rw s (a, w.muted ∙ ap is_remote a, c, refl)
