-- ===== src/Runtime/Daemon/Routing.antt =====
-- crates/omni-runtime/src/daemon.rs, capture → route → send: one captured event moves the cursor,
-- may cross to another machine, and goes to the peer that is being driven. The position that the
-- operating system reports for its cursor is an argument.
use omnipresent.Prelude.Maps.{contains_key, get}
use omnipresent.Prelude.Int.{pos, ℤ}
use omnipresent.Prelude.Words.{as_i32}
use omnipresent.Prelude.{
  ◌==◌, list_eq, nat_eq, if◌then◌else◌, false, true, some, Bool, none, Option,
}
use omnipresent.Prelude.Outcome.{Outcome, ok, err, panic, ◌>>=◌}
use omnipresent.Protocol.Input.{InputEvent, motion, pointer, key, button, scroll, MouseDelta}
use omnipresent.Protocol.Remap.{apply}
use omnipresent.Session.{ActiveTarget, local, remote, Result, SessionManager, handle_crossing}
use omnipresent.Session
use omnipresent.Topology.Geometry.{scale_delta}
use omnipresent.Topology.Layout.{Advance, Crossing, advance, screen_of}
use omnipresent.Runtime.Daemon.{
  MachineId, Daemon, input, warp, cursor_returned, home, send, send_all, warp_cursor,
  clamp_to_screen, sync_suppression, notify_change,
}

-- `sync_cursor_to_os`
unfoldable pub sync_cursor_to_os : Option (ℤ × ℤ) → Daemon → Daemon
unfolding clamp_to_screen
sync_cursor_to_os none d = d
sync_cursor_to_os (some p) d = record d {
  cursor = record { machine = d.own; position = clamp_to_screen d.own_screen p.0 p.1 };
}

unfoldable pub place_cursor_after_crossing : Crossing → Daemon → Daemon
unfolding send send_all warp_cursor
place_cursor_after_crossing c d =
    let x = as_i32 (pos c.entry.x) in
    let y = as_i32 (pos c.entry.y) in
    if c.peer == d.own
    then send_all (cursor_returned x y) (warp_cursor x y d)
    else if contains_key c.peer d.links
    then send c.peer (warp x y) d
    else d

-- The movement, rescaled while the cursor is on a peer.
unfoldable pub scaled : Daemon → MouseDelta → MouseDelta
scaled d delta = elim (screen_of d.layout d.cursor.machine) [
  | none ↦ delta
  | some s ↦ if d.cursor.machine == d.own then delta else scale_delta delta d.own_screen s
]

-- What `advance_cursor` does with a crossing that the sessions accepted or refused.
abbrev pub settle : Advance → Crossing → SessionManager × Result (Unit {0}) → Daemon → Daemon × Bool
settle a c (m, Session.ok u) d =
    (place_cursor_after_crossing c (record d { sessions = m; cursor = a.cursor }), true)
settle a c (m, Session.err e) d = (record d { sessions = m }, false)

unfoldable pub arrive : Advance → Daemon → Daemon × Bool
unfolding place_cursor_after_crossing
arrive a d = elim a.crossing [
  | none ↦ (record d { cursor = a.cursor }, false)
  | some c ↦ settle a c (handle_crossing c d.sessions) d
]

-- With whether the move crossed an edge.
unfoldable pub advance_cursor : MouseDelta → Daemon → Outcome ⊥ (Daemon × Bool)
unfolding scaled arrive
advance_cursor delta d = elim (advance d.layout d.cursor (scaled d delta)) [
  | ok a ↦ ok (arrive a d)
  | err e ↦ ok (record d { cursor = home d.own }, false)
  | panic ↦ panic
]

unfoldable pub forward_to : MachineId → InputEvent → Daemon → Daemon
unfolding send
forward_to p e d = elim (get p d.links) [
  | none ↦ d
  | some l ↦ send p (input (apply l.modifier_swap e)) d
]

abbrev pub is_motion : InputEvent → Option MouseDelta
is_motion (motion delta) = some delta
is_motion (key code action modifiers) = none
is_motion (pointer x y) = none
is_motion (button b a) = none
is_motion (scroll s) = none

abbrev pub forward_position : MachineId → Daemon × Bool → Daemon × Bool
forward_position p (d, true) = (d, true)
forward_position p (d, false) = (
  forward_to p (pointer (as_i32 (pos d.cursor.position.x)) (as_i32 (pos d.cursor.position.y))) d,
  false,
)

-- The `match` of `route_captured`, on the active target and the event.
unfoldable pub route :
    ActiveTarget → Option (ℤ × ℤ) → InputEvent → Daemon → Outcome ⊥ (Daemon × Bool)
unfolding sync_cursor_to_os advance_cursor forward_to
route local os e d = elim (is_motion e) [
  | some delta ↦ advance_cursor delta (sync_cursor_to_os os d)
  | none ↦ ok (d, false)
]
route (remote p) os e d = elim (is_motion e) [
  | some delta ↦ advance_cursor delta d >>= λ r. ok (forward_position p r)
  | none ↦ ok (forward_to p e d, false)
]

abbrev pub finish : Daemon × Bool → Daemon
finish (d, true) = notify_change (sync_suppression d)
finish (d, false) = sync_suppression d

unfoldable pub route_captured : Option (ℤ × ℤ) → InputEvent → Daemon → Outcome ⊥ Daemon
unfolding route sync_suppression notify_change
route_captured os e d = route d.sessions.active os e d >>= λ r. ok (finish r)
