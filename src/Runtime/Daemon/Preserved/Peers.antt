-- ===== src/Runtime/Daemon/Preserved/Peers.antt =====
-- The messages of a peer keep the invariant, and so does the end of a session.
use omnipresent.Prelude.Maps.{contains_key}
use mathlib.Core.Bool.{false}
use omnipresent.Runtime.Daemon.Layouts.{HasSize}
use omnipresent.Protocol.Control
use omnipresent.Protocol.Control.{
  heartbeat, reject, accept, connect_request, cursor_warp, ControlMessage,
}
use omnipresent.Prelude.{
  refl, if◌then◌else◌, list_eq, nat_eq, inr, Bool, true, inl, Option-cases, Bool-cases, ◌==◌,
}
use omnipresent.Prelude.Int.{ℤ}
use omnipresent.Runtime.Daemon.Handover.{on_signal, follow_peer_cursor, yield_control_to_peer}
use omnipresent.Session.{target_eq, set_active, follow_peer, yield_control}
use omnipresent.Runtime.Daemon.{
  home, clamp_to_screen, remote, screen_of, CursorState, MachineId, local, Daemon, SessionId,
  notify_change, sync_suppression, warp_cursor,
}
use omnipresent.Runtime.Daemon.Invariant.{
  sized_of, IsValid, IsConsistent, redirect, home-IsInside, clamp_to_screen-IsOn,
}

sink-IsValid : (x y : ℤ) (d : Daemon) → IsValid d → IsValid (warp_cursor x y d)
unfolding warp_cursor
sink-IsValid x y d v = elim (Bool-cases d.has_sink) [
  | inl b ↦ rw b (record { core = v.core; muted = v.muted })
  | inr n ↦ rw n (record { core = v.core; muted = v.muted })
]

-- Giving way to a peer keeps the invariant.
pub yield_control_to_peer-IsValid : (d : Daemon) → IsValid d → IsValid (yield_control_to_peer d)
unfolding yield_control_to_peer yield_control sync_suppression notify_change set_active
yield_control_to_peer-IsValid d v = elim (Bool-cases (d.sessions.active == local)) [
  | inl y ↦ rw y (record { core = v.core; muted = v.muted })
  | inr n ↦
      let c = rw n at (redirect d local (home d.own) v.core tt (home-IsInside d v.core) refl) in
      rw n (record { core = c; muted = refl })
]

followed-IsValid :
    (p : MachineId) (c : CursorState) (b : Bool) (d : Daemon)
    → IsConsistent d.own d.own_screen (set_active (remote p) d.sessions) d.layout c d.links
    → IsValid (
        let d' =
          sync_suppression (record d { sessions = set_active (remote p) d.sessions; cursor = c }) in
        if b then d' else notify_change d')
unfolding sync_suppression notify_change
followed-IsValid p c true d v = record { core = v; muted = refl }
followed-IsValid p c false d v = record { core = v; muted = refl }

-- Following the cursor to a peer keeps the invariant.
pub follow_peer_cursor-IsValid :
    (p : MachineId) (x y : ℤ) (d : Daemon) → IsValid d → IsValid (follow_peer_cursor p x y d)
unfolding follow_peer_cursor follow_peer
follow_peer_cursor-IsValid p x y d v = elim (Option-cases (screen_of d.layout p)) [
  | inl e ↦ rw (e, follow_peer_cursor) v
  | inr (s, e) ↦
      let c : CursorState = record { machine = p; position = clamp_to_screen s x y } in
      let size : HasSize s = sized_of d v.core p s e in
      elim (Bool-cases (contains_key p d.sessions.by_peer)) [
        | inl k ↦
            rw (e, follow_peer_cursor, k)
              (followed-IsValid p c (d.sessions.active == remote p) d
                (redirect d (remote p) c v.core k (s, e, clamp_to_screen-IsOn s x y size) refl))
        | inr n ↦ rw (e, follow_peer_cursor, n) (record { core = v.core; muted = v.muted })
      ]
]

-- A message on the control stream keeps the invariant.
pub on_signal-IsValid :
    (session : SessionId) (machine : MachineId) (c : ControlMessage) (d : Daemon)
    → IsValid d
    → IsValid (on_signal session machine c d).0
unfolding on_signal
on_signal-IsValid session machine (Control.disconnect s) d v = v
on_signal-IsValid session machine (cursor_warp claimed x y) d v =
    elim (Bool-cases (claimed == session)) [
      | inl e ↦
          rw e (sink-IsValid x y (yield_control_to_peer d) (yield_control_to_peer-IsValid d v))
      | inr n ↦ rw n v
    ]
on_signal-IsValid session machine (Control.cursor_returned claimed x y) d v =
    elim (Bool-cases (claimed == session)) [
      | inl e ↦ rw e (follow_peer_cursor-IsValid machine x y d v)
      | inr n ↦ rw n v
    ]
on_signal-IsValid session machine (connect_request m f s) d v = v
on_signal-IsValid session machine (accept s m z) d v = v
on_signal-IsValid session machine (reject r) d v = v
on_signal-IsValid session machine (heartbeat s) d v = v
