-- ===== src/Runtime/Daemon/Handover.antt =====
-- crates/omni-runtime/src/daemon.rs: what a peer's messages do to this machine, and what the end
-- of a session does.
use omnipresent.Prelude.Maps.{remove, get}
use omnipresent.Prelude.Int.{ℤ}
use omnipresent.Prelude.{
  Option, true, list_eq, nat_eq, some, ◌==◌, none, if◌then◌else◌, false, Bool,
}
use omnipresent.Session.{
  target_eq, ActiveTarget, local, remote, Result, SessionManager, yield_control, follow_peer, close,
}
use omnipresent.Session
use omnipresent.Protocol.Control.{
  ControlMessage, connect_request, accept, reject, cursor_warp, heartbeat,
}
use omnipresent.Protocol.Control
use omnipresent.Topology.Layout.{screen_of}
use omnipresent.Runtime.Daemon.{
  PeerLink, CursorState, SessionId, MachineId, Daemon, disconnect, home, send_all, warp_cursor,
  clamp_to_screen, sync_suppression, notify_change, rebuild_layout,
}

abbrev gave_way : SessionManager × Bool → Daemon → Daemon
gave_way (m, true) d =
    notify_change (sync_suppression (record d { sessions = m; cursor = home d.own }))
gave_way (m, false) d = record d { sessions = m }

unfoldable pub yield_control_to_peer : Daemon → Daemon
unfolding sync_suppression notify_change
yield_control_to_peer d = gave_way (yield_control d.sessions) d

abbrev followed :
    MachineId → CursorState → ActiveTarget → SessionManager × Result (Unit {0}) → Daemon → Daemon
followed p c before (m, Session.err e) d = record d { sessions = m }
followed p c before (m, Session.ok u) d =
    let d' = sync_suppression (record d { sessions = m; cursor = c }) in
    if before == remote p then d' else notify_change d'

unfoldable pub follow_peer_cursor : MachineId → ℤ → ℤ → Daemon → Daemon
unfolding sync_suppression notify_change clamp_to_screen
follow_peer_cursor p x y d = elim (screen_of d.layout p) [
  | none ↦ d
  | some s ↦
      followed p (record { machine = p; position = clamp_to_screen s x y }) d.sessions.active
        (follow_peer p d.sessions) d
]

abbrev drop_link : MachineId → Option PeerLink → Daemon → Daemon
drop_link p none d = d
drop_link p (some l) d = record d {
  links = remove p d.links;
  sessions = (close l.session d.sessions).0;
}

unfoldable pub cleanup_peer : MachineId → Daemon → Daemon
unfolding sync_suppression notify_change rebuild_layout
cleanup_peer p d = notify_change (sync_suppression (rebuild_layout (drop_link p (get p d.links) d)))

unfoldable pub disconnect_all : Daemon → Daemon
unfolding send_all
disconnect_all d = send_all disconnect d

-- What the task of a session with `machine` does with one message on its control stream: the new
-- state, and whether the session goes on.
unfoldable pub on_signal : SessionId → MachineId → ControlMessage → Daemon → Daemon × Bool
unfolding yield_control_to_peer follow_peer_cursor warp_cursor
on_signal session machine (Control.disconnect s) d = (d, false)
on_signal session machine (cursor_warp claimed x y) d =
    (if claimed == session then warp_cursor x y (yield_control_to_peer d) else d, true)
on_signal session machine (Control.cursor_returned claimed x y) d =
    (if claimed == session then follow_peer_cursor machine x y d else d, true)
on_signal session machine (connect_request m f s) d = (d, true)
on_signal session machine (accept s m z) d = (d, true)
on_signal session machine (reject r) d = (d, true)
on_signal session machine (heartbeat s) d = (d, true)
