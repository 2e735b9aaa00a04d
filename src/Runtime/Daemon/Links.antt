-- ===== src/Runtime/Daemon/Links.antt =====
-- crates/omni-runtime/src/daemon.rs: a session that begins, and the commands that change how a peer
-- is placed and relabelled. Reading and writing the config file is an argument: whether it went
-- well.
use omnipresent.Prelude.{
  [], ◌||◌, ◌==◌, list_eq, nat_eq, some, if◌then◌else◌, ◌∷◌, Option, true, unwrap_or, none, false,
  Bool,
}
use omnipresent.Prelude.Maps.{get, insert, Map}
use omnipresent.Prelude.Text.{codes, to_ascii_lowercase, trim}
use omnipresent.Session.{Role, controller, target, establish, Result, SessionManager}
use omnipresent.Session
use omnipresent.Protocol.Remap.{ModifierSwap, unchanged}
use omnipresent.Protocol.Remap
use omnipresent.Topology.Geometry.{Screen, Edge, left, right, top, bottom}
use omnipresent.Runtime.Trust.{machine_id_of}
use omnipresent.Runtime.Daemon.{
  Fingerprint, Text, MachineId, SessionId, Daemon, PeerLink, sync_suppression, notify_change,
  rebuild_layout,
}

-- The edge for a peer that no placement names: one that reached us sits past the left edge, one that
-- we dialed past the right.
abbrev pub default_edge : Role → Edge
default_edge target = left
default_edge controller = right

abbrev pub new_link : Role → SessionId → Fingerprint → Text → Screen → Daemon → PeerLink
new_link role session f host screen d = record {
  host = host;
  fingerprint = f;
  session = session;
  role = role;
  screen = screen;
  edge = unwrap_or (get host d.placements) (default_edge role);
  modifier_swap = unwrap_or (get host d.modifier_swaps) unchanged;
}

abbrev linked : MachineId → PeerLink → SessionManager × Result (Unit {0}) → Daemon → Daemon × Bool
linked p l (m, Session.err e) d = (record d { sessions = m }, false)
linked p l (m, Session.ok u) d =
    (notify_change (rebuild_layout (record d { sessions = m; links = insert p l d.links })), true)

-- The part of `handle_incoming` (as target) and `do_connect` (as controller) that establishes the
-- session: the new state, and whether there is a session now.
unfoldable pub admit : Role → SessionId → Fingerprint → Text → Screen → Daemon → Daemon × Bool
unfolding rebuild_layout notify_change machine_id_of
admit role session f host screen d =
    let p = machine_id_of f in
    linked p (new_link role session f host screen d) (establish session p role d.sessions) d

-- `parse_edge`
unfoldable pub parse_edge : Text → Option Edge
unfolding trim to_ascii_lowercase
parse_edge name =
    let w = to_ascii_lowercase (trim name) in
    if w == codes "left"
    then some left
    else if w == codes "right"
    then some right
    else if w == codes "top" || w == codes "up"
    then some top
    else if w == codes "bottom" || w == codes "down"
    then some bottom
    else none

unfoldable pub edge_name : Edge → Text
edge_name left = codes "left"
edge_name right = codes "right"
edge_name top = codes "top"
edge_name bottom = codes "bottom"

pub data Response : Type 0 where
  done refused : Response
  not_saved : Response

-- Every link with the host, changed.
unfoldable pub change_links :
    Text → (PeerLink → PeerLink) → Map MachineId PeerLink → Map MachineId PeerLink
change_links host f [] = []
change_links host f ((m, l) ∷ ls) = (m, if l.host == host then f l else l) ∷ change_links host f ls

abbrev pub some_links : Map MachineId PeerLink → Bool
some_links [] = false
some_links (e ∷ es) = true

-- The state that `set_layout` leaves.
unfoldable pub place_host : Text → Edge → Daemon → Daemon
unfolding change_links rebuild_layout sync_suppression notify_change
place_host host edge d =
    let d' = record d {
      placements = insert host edge d.placements;
      links = change_links host (λ l. record l { edge = edge }) d.links;
    } in
    notify_change (if some_links d'.links then sync_suppression (rebuild_layout d') else d')

unfoldable pub set_layout : Bool → Text → Text → Daemon → Daemon × Response
unfolding parse_edge place_host
set_layout saved host edge d = elim (parse_edge edge) [
  | none ↦ (d, refused)
  | some e ↦ (place_host host e d, if saved then done else not_saved)
]

-- The state that `set_modifier_swap` leaves.
unfoldable pub relabel_host : Text → ModifierSwap → Daemon → Daemon
unfolding change_links notify_change
relabel_host host swap d = notify_change (record d {
  modifier_swaps = insert host swap d.modifier_swaps;
  links = change_links host (λ l. record l { modifier_swap = swap }) d.links;
})

unfoldable pub set_modifier_swap : Bool → Text → Text → Daemon → Daemon × Response
unfolding relabel_host
set_modifier_swap saved host swap d = elim (Remap.parse swap) [
  | none ↦ (d, refused)
  | some s ↦ (relabel_host host s d, if saved then done else not_saved)
]
