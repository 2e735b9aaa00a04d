-- ===== src/Runtime/Daemon.antt =====
-- crates/omni-runtime/src/daemon.rs: what the daemon keeps (`State`, and the parts of `Shared` that
-- change), and the helpers that every handler uses. A channel to a peer's task is the list of what
-- was put into it: `outbox` holds those of all peers, oldest first. The operating system's sink is
-- the list of the calls made to it.
pub mod Routing
pub mod Handover
pub mod Links
pub mod Batches
pub mod Layouts
pub mod Invariant
pub mod Preserved
pub mod History
pub mod Control
pub mod Copying
pub mod Told
pub mod Listing
pub mod Incoming
pub mod Dialing
pub mod Commands
pub mod Sending
pub mod Peer
use Prim.Native.Nat.{min}
use omnipresent.Prelude.{
  ℕ, ◌+◌, ◌-◌, ◌%◌, ◌^◌, Bool, true, false, Option, none, some, List, [], ◌∷◌, ◌++◌, map,
}
use omnipresent.Prelude.Int.{ℤ, pos_part}
use omnipresent.Prelude.Maps.{Map}
use omnipresent.Prelude.Outcome.{Outcome, ok, err, panic}
use omnipresent.Prelude.Text.{Text}
use omnipresent.Protocol.Clipboard.{ClipboardData}
use omnipresent.Protocol.Ids.{MachineId, SessionId, Fingerprint}
use omnipresent.Protocol.Input.{InputEvent}
use omnipresent.Protocol.Remap.{ModifierSwap}
use omnipresent.Session.{Role, SessionManager, ActiveTarget, local, remote}
use omnipresent.Topology.Geometry.{Screen, Point, Edge}
use omnipresent.Topology.Layout.{
  Machine, VirtualLayout, LayoutError, CursorState, empty_layout, add_machine, link, screen_of,
}

pub data PeerCommand : Type 0 where
  input : InputEvent → PeerCommand
  warp cursor_returned : ℤ → ℤ → PeerCommand
  clipboard : ClipboardData → PeerCommand
  disconnect : PeerCommand

pub record PeerLink : Type 0 where
  pub host : Text
  pub fingerprint : Fingerprint
  pub session : SessionId
  pub role : Role
  pub screen : Screen
  pub edge : Edge
  pub modifier_swap : ModifierSwap

pub data SinkCall : Type 0 where
  warps : ℤ → ℤ → SinkCall
  injects : InputEvent → SinkCall

pub record Daemon : Type 0 where
  pub own : MachineId
  pub own_screen : Screen
  pub sessions : SessionManager
  pub layout : VirtualLayout
  pub cursor : CursorState
  pub links : Map MachineId PeerLink
  pub placements : Map Text Edge
  pub modifier_swaps : Map Text ModifierSwap
  pub suppress : Bool
  pub changes : ℕ
  pub has_sink : Bool
  pub sink : List SinkCall
  pub outbox : List (MachineId × PeerCommand)

abbrev pub is_remote : ActiveTarget → Bool
is_remote local = false
is_remote (remote p) = true

-- `Shared::sync_suppression`
unfoldable pub sync_suppression : Daemon → Daemon
sync_suppression d = record d { suppress = is_remote d.sessions.active }

-- `notify_change`
unfoldable pub notify_change : Daemon → Daemon
notify_change d = record d { changes = (d.changes + 1) % 2 ^ 64 }

-- `let _ = …`: a failed change is ignored.
abbrev pub or_same : Outcome LayoutError VirtualLayout → VirtualLayout → VirtualLayout
or_same (ok l') l = l'
or_same (err e) l = l
or_same panic l = l

-- One round of the loop of `rebuild_layout`.
unfoldable pub place_link : MachineId → MachineId × PeerLink → VirtualLayout → VirtualLayout
place_link own e l =
    let l' = or_same (add_machine (record { id = e.0; screen = e.1.screen }) l) l in
    or_same (link own e.1.edge e.0 l') l'

unfoldable pub place_links : MachineId → Map MachineId PeerLink → VirtualLayout → VirtualLayout
place_links own [] l = l
place_links own (e ∷ es) l = place_links own es (place_link own e l)

-- The layout that `rebuild_layout` builds.
unfoldable pub layout_of : MachineId → Screen → Map MachineId PeerLink → VirtualLayout
layout_of own screen links =
    place_links own links
      (or_same (add_machine (record { id = own; screen = screen }) empty_layout) empty_layout)

abbrev pub home : MachineId → CursorState
home own = record { machine = own; position = record { x = 0; y = 0 } }

-- The cursor, brought home if its machine is not in the layout.
abbrev pub keep_cursor : MachineId → Option Screen → CursorState → CursorState
keep_cursor own none c = home own
keep_cursor own (some s) c = c

unfoldable pub rebuild_layout : Daemon → Daemon
rebuild_layout d =
    let l = layout_of d.own d.own_screen d.links in
    record d { layout = l; cursor = keep_cursor d.own (screen_of l d.cursor.machine) d.cursor }

-- `x.max(0) as u32` is the positive part of an `i32`.
unfoldable pub clamp_to_screen : Screen → ℤ → ℤ → Point
clamp_to_screen s x y = record {
  x = min (pos_part x) (s.width - 1);
  y = min (pos_part y) (s.height - 1);
}

-- `link.commands.send(…)`
unfoldable pub send : MachineId → PeerCommand → Daemon → Daemon
send m c d = record d { outbox = d.outbox ++ ((m, c) ∷ []) }

-- A command for every link.
unfoldable pub send_all : PeerCommand → Daemon → Daemon
send_all c d = record d { outbox = d.outbox ++ map (λ e. (e.0, c)) d.links }

-- A call to the sink, if there is one; that it may fail is only logged.
abbrev pub with_sink : SinkCall → Daemon → Daemon
with_sink call d = elim d.has_sink [ true ↦ record d { sink = d.sink ++ (call ∷ []) } | false ↦ d ]

-- `inject`
unfoldable pub inject : InputEvent → Daemon → Daemon
inject e d = with_sink (injects e) d

-- `warp`
unfoldable pub warp_cursor : ℤ → ℤ → Daemon → Daemon
warp_cursor x y d = with_sink (warps x y) d
