-- ===== src/Runtime/Daemon/Listing.antt =====
-- crates/omni-runtime/src/daemon.rs: what the daemon reports of its peers, their places and their
-- modifier keys (`list_layout`, `list_modifier_swaps`, `list_peers`, `status`), and the types of
-- crates/omni-runtime/src/ipc.rs that carry it. A map is walked in the order of its list.
pub mod Entries
pub mod Order
use omnipresent.Prelude.{
  ℕ, Bool, true, false, ◌||◌, List, [], ◌∷◌, ◌++◌, map, ◌==◌, list_eq, nat_eq, ltb, if◌then◌else◌,
  Option,
}
use omnipresent.Prelude.Maps.{Map}
use omnipresent.Prelude.Text.{Text, codes}
use omnipresent.Protocol.Ids.{Fingerprint, MachineId, to_hex}
use omnipresent.Protocol.Remap.{swap_name}
use omnipresent.Session.{Role, controller, target, target_beq, remote}
use omnipresent.Runtime.Trust.{TrustFile, PeerRecord, machine_id_of}
use omnipresent.Runtime.Daemon.{Daemon, PeerLink}
use omnipresent.Runtime.Daemon.Links.{edge_name}

-- What is reported of a host: `LayoutInfo` with the name of an edge, `ModifierInfo` with that of a
-- swap.
pub record HostInfo : Type 0 where
  pub host : Text
  pub named : Text
  pub connected : Bool

pub record PeerInfo : Type 0 where
  pub host : Option Text
  pub fingerprint : Text
  pub connected : Bool

pub record SessionInfo : Type 0 where
  pub host : Text
  pub fingerprint : Text
  pub role : Text
  pub active : Bool

pub record PendingInfo : Type 0 where
  pub host : Text
  pub fingerprint : Text

-- `PendingRequest`: a request that waits for a decision. Its channel for the decision is the number
-- of the connection that waits.
pub record Pending : Type 0 where
  pub host : Text
  pub fingerprint : Fingerprint
  pub decision : ℕ

-- The order of strings: that of their bytes.
abbrev pub text_less : Text → Text → Bool
text_less [] [] = false
text_less [] (b ∷ rest_b) = true
text_less (a ∷ rest_a) [] = false
text_less (a ∷ rest_a) (b ∷ rest_b) =
    let rest = text_less rest_a rest_b in if a == b then rest else ltb a b

abbrev pub sort_insert : HostInfo → List HostInfo → List HostInfo
sort_insert i [] = i ∷ []
sort_insert i (j ∷ js) =
    let rest = sort_insert i js in if text_less j.host i.host then j ∷ rest else i ∷ j ∷ js

-- `sort_by(|a, b| a.host.cmp(&b.host))`, which keeps the order of entries with one host.
unfoldable pub sort_by_host : List HostInfo → List HostInfo
sort_by_host [] = []
sort_by_host (i ∷ is) = sort_insert i (sort_by_host is)

-- `HashSet::contains`
abbrev pub seen_host : Text → List Text → Bool
seen_host h [] = false
seen_host h (k ∷ ks) = k == h || seen_host h ks

-- The loop over the links: the entries, and the hosts seen.
abbrev pub live_entries :
    (PeerLink → Text) → Map MachineId PeerLink → List Text → List HostInfo × List Text
live_entries name [] seen = ([], seen)
live_entries name ((m, l) ∷ ls) seen =
    let rest = live_entries name ls (l.host ∷ seen) in
    ((record { host = l.host; named = name l; connected = true }) ∷ rest.0, rest.1)

-- The loop over what is saved.
abbrev pub saved_entries {ℓ} : {V : Type ℓ} → (V → Text) → Map Text V → List Text → List HostInfo
saved_entries name [] seen = []
saved_entries name ((h, v) ∷ es) seen =
    let rest = saved_entries name es seen in
    if seen_host h seen
    then rest
    else (record { host = h; named = name v; connected = false }) ∷ rest

-- What both lists have in common; `seen` is what the set holds at first.
unfoldable pub list_hosts {ℓ} :
    {V : Type ℓ}
    → (PeerLink → Text)
    → (V → Text)
    → Map MachineId PeerLink
    → Map Text V
    → List Text
    → List HostInfo
list_hosts live saved links es seen =
    let r = live_entries live links seen in sort_by_host (r.0 ++ saved_entries saved es r.1)

abbrev pub link_edge : PeerLink → Text
link_edge l = edge_name l.edge

abbrev pub link_swap : PeerLink → Text
link_swap l = swap_name l.modifier_swap

unfoldable pub list_layout : Daemon → List HostInfo
list_layout d = list_hosts link_edge edge_name d.links d.placements []

unfoldable pub list_modifier_swaps : Daemon → List HostInfo
list_modifier_swaps d = list_hosts link_swap swap_name d.links d.modifier_swaps []

abbrev pub hex_of : Fingerprint → Text
hex_of f = to_hex f

abbrev connected_hexes : Map MachineId PeerLink → List Text
connected_hexes links = map (λ e. hex_of e.1.fingerprint) links

abbrev peer_info : List Text → PeerRecord → PeerInfo
peer_info hexes p = record {
  host = p.host;
  fingerprint = p.fingerprint;
  connected = seen_host p.fingerprint hexes;
}

unfoldable pub list_peers : TrustFile → Daemon → List PeerInfo
list_peers t d = map (peer_info (connected_hexes d.links)) t.peers

abbrev role_name : Role → Text
role_name controller = codes "controller"
role_name target = codes "target"

abbrev session_info : Daemon → MachineId × PeerLink → SessionInfo
session_info d (m, l) = record {
  host = l.host;
  fingerprint = hex_of l.fingerprint;
  role = role_name l.role;
  active = target_beq d.sessions.active (remote (machine_id_of l.fingerprint));
}

abbrev pending_info : Pending → PendingInfo
pending_info p = record { host = p.host; fingerprint = hex_of p.fingerprint }

pub record StatusInfo : Type 0 where
  pub fingerprint : Text
  pub port : ℕ
  pub capturing : Bool
  pub clipboard_sharing : Bool
  pub sessions : List SessionInfo
  pub pending : List PendingInfo
  pub peers : List PeerInfo
  pub placements : List HostInfo
  pub modifier_swaps : List HostInfo

-- What of `Shared` is reported beside the state.
pub record Report : Type 0 where
  pub local_fingerprint : Fingerprint
  pub port : ℕ
  pub capturing : Bool
  pub clipboard_sharing : Bool

-- `status`; one set of hosts serves both lists, and is cleared in between.
unfoldable pub status : Report → List Pending → TrustFile → Daemon → StatusInfo
status r pending t d =
    let cleared : List Text = [] in
    record {
      fingerprint = hex_of r.local_fingerprint;
      port = r.port;
      capturing = r.capturing;
      clipboard_sharing = r.clipboard_sharing;
      sessions = map (session_info d) d.links;
      pending = map pending_info pending;
      peers = map (peer_info (connected_hexes d.links)) t.peers;
      placements = list_hosts link_edge edge_name d.links d.placements [];
      modifier_swaps = list_hosts link_swap swap_name d.links d.modifier_swaps cleared;
    }
