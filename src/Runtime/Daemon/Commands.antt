-- ===== src/Runtime/Daemon/Commands.antt =====
-- crates/omni-runtime/src/daemon.rs, `dispatch`, `set_clipboard` and `handle_client`, and the requests
-- and responses of crates/omni-runtime/src/ipc.rs: what a client asks of the daemon. What the network
-- and the disk do is an argument. The text of an error is left out.
pub mod Answers
use omnipresent.Prelude.{
  ℕ, Bool, true, false, Option, none, some, List, [], ◌∷◌, ◌||◌, ◌==◌, list_eq, nat_eq,
  if◌then◌else◌,
}
use omnipresent.Prelude.Lists.{starts_with}
use omnipresent.Prelude.Maps.{Map}
use omnipresent.Prelude.Text.{Text}
use omnipresent.Prelude.Outcome.{Outcome, ok, err}
use omnipresent.Protocol.Ids.{MachineId}
use omnipresent.Runtime.Trust.{TrustFile}
use omnipresent.Runtime.Trust
use omnipresent.Runtime.Daemon.{Daemon, PeerLink, send, disconnect, notify_change}
use omnipresent.Runtime.Daemon.Links.{set_layout, set_modifier_swap, done, refused, not_saved}
use omnipresent.Runtime.Daemon.Links
use omnipresent.Runtime.Daemon.Listing.{
  HostInfo, PeerInfo, StatusInfo, Report, hex_of, list_layout, list_modifier_swaps, list_peers,
  status,
}
use omnipresent.Runtime.Daemon.Incoming.{Service, changed, decide_pending}
use omnipresent.Runtime.Daemon.Dialing.{Dialed, do_connect, split_host}

pub data Request : Type 0 where
  hello subscribe get_status stop peers : Request
  connect end_session accept_peer reject_peer remove_peer : Text → Request
  layout modifiers : Option Text → Option Text → Request
  clipboard_sharing : Bool → Request

abbrev pub protocol_version : ℕ
protocol_version = 1

pub data Answer : Type 0 where
  ok_answer error_answer : Answer
  hello_answer : ℕ → Answer
  status_answer : StatusInfo → Answer
  peers_answer : List PeerInfo → Answer
  layout_answer modifiers_answer : List HostInfo → Answer

-- What the world does during one request: the dial, and whether the config file is read and saved.
pub record World : Type 0 where
  pub dialed : Dialed
  pub saved : Bool

abbrev pub answer_of : Bool → Answer
answer_of true = ok_answer
answer_of false = error_answer

abbrev pub of_response : Links.Response → Answer
of_response done = ok_answer
of_response refused = error_answer
of_response not_saved = error_answer

abbrev pub of_outcome : {E A : Type 0} → Outcome E A → Answer
of_outcome (ok a) = ok_answer
of_outcome (err e) = error_answer
of_outcome Outcome.panic = error_answer

-- `l.host == selector || l.fingerprint.to_string().starts_with(selector)`
abbrev pub names_link : Text → PeerLink → Bool
names_link selector l = l.host == selector || starts_with (hex_of l.fingerprint) selector

abbrev pub find_link : Text → Map MachineId PeerLink → Option MachineId
find_link selector [] = none
find_link selector ((m, l) ∷ ls) =
    let rest = find_link selector ls in if names_link selector l then some m else rest

-- `Disconnect` for the first link that the selector names, if there is one.
unfoldable pub disconnect_link : Text → Service → Service × Bool
disconnect_link selector s = elim (find_link selector s.daemon.links) [
  | none ↦ (s, false)
  | some m ↦ (record s { daemon = send m disconnect s.daemon }, true)
]

unfoldable pub set_clipboard : Bool → Bool → Service → Service × Answer
set_clipboard saved enabled s =
    (changed (record s { sharing = enabled; polling = enabled }), answer_of saved)

abbrev pub report : Service → Report
report s = record {
  local_fingerprint = s.local_fingerprint;
  port = s.port;
  capturing = s.capturing;
  clipboard_sharing = s.sharing;
}

abbrev on_daemon : Daemon × Links.Response → Service → Service × Answer
on_daemon r s = (record s { daemon = r.0 }, of_response r.1)

abbrev pub known : Outcome (Unit {0}) Bool → Answer
known (ok b) = answer_of b
known (err e) = error_answer
known Outcome.panic = error_answer

-- What one connection of a client comes to: the answers, whether the daemon was told to shut down,
-- and whether the connection became a subscription.
pub record Served : Type 0 where
  pub service : Service
  pub answers : List Answer
  pub shut_down : Bool
  pub subscribed : Bool

abbrev pub is_stop : Option Request → Bool
is_stop (some stop) = true
is_stop _ = false

abbrev pub is_subscribe : Option Request → Bool
is_subscribe (some subscribe) = true
is_subscribe _ = false

-- `dispatch`. The answer to `hello` leaves out the version of the build.
module _ (save : TrustFile → Outcome (Unit {0}) (Unit {0})) where
  unfoldable pub dispatch : World → Request → Service → Service × Answer
  dispatch w hello s = (s, hello_answer protocol_version)
  dispatch w subscribe s = (s, error_answer)
  dispatch w get_status s = (s, status_answer (status (report s) s.pending s.trust s.daemon))
  dispatch w stop s = (s, ok_answer)
  dispatch w peers s = (s, peers_answer (list_peers s.trust s.daemon))
  dispatch w (connect host) s =
      let r = do_connect save (split_host host s.port).0 w.dialed s in (r.0, of_outcome r.1)
  dispatch w (end_session host) s = let r = disconnect_link host s in (r.0, answer_of r.1)
  dispatch w (accept_peer selector) s =
      let r = decide_pending selector true s in (r.0, answer_of r.1)
  dispatch w (reject_peer selector) s =
      let r = decide_pending selector false s in (r.0, answer_of r.1)
  dispatch w (remove_peer selector) s =
      let t = (disconnect_link selector s).0 in
      let r = Trust.remove save selector t.trust in (record t { trust = r.0 }, known r.1)
  dispatch w (layout (some host) (some edge)) s =
      on_daemon (set_layout w.saved host edge s.daemon) s
  dispatch w (layout none none) s = (s, layout_answer (list_layout s.daemon))
  dispatch w (layout (some host) none) s = (s, error_answer)
  dispatch w (layout none (some edge)) s = (s, error_answer)
  dispatch w (clipboard_sharing enabled) s = set_clipboard w.saved enabled s
  dispatch w (modifiers (some host) (some swap)) s =
      on_daemon (set_modifier_swap w.saved host swap s.daemon) s
  dispatch w (modifiers none none) s = (s, modifiers_answer (list_modifier_swaps s.daemon))
  dispatch w (modifiers (some host) none) s = (s, error_answer)
  dispatch w (modifiers none (some swap)) s = (s, error_answer)

  abbrev pub answer_line : World → Option Request → Service → Service × Answer
  answer_line w none s = (s, error_answer)
  answer_line w (some r) s = dispatch w r s

  -- `handle_client`, of the lines of a client that reads every answer; a line that is no request is
  -- `none`.
  unfoldable pub handle_client : List (World × Option Request) → Service → Served
  handle_client [] s = record { service = s; answers = []; shut_down = false; subscribed = false }
  handle_client ((w, line) ∷ lines) s =
      let r = answer_line w line s in
      let rest = handle_client lines r.0 in
      if is_subscribe line
      then record { service = s; answers = []; shut_down = false; subscribed = true }
      else record {
        service = rest.service;
        answers = r.1 ∷ rest.answers;
        shut_down = is_stop line || rest.shut_down;
        subscribed = rest.subscribed;
      }
