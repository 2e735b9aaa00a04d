-- ===== src/Runtime/Daemon/Incoming.antt =====
-- crates/omni-runtime/src/daemon.rs, `handle_incoming` and `decide_pending`: a peer that asks for a
-- session, and the user's decision. The handler holds no lock while it waits, so it is three steps:
-- what is done at the request, once the waiting is over, and to set the session up. The connection is
-- named by a number, the random identifier of the session is an argument, and so is what saving the
-- trust file reports.
pub mod Approval
use omnipresent.Prelude.{
  ℕ, Bool, true, false, Option, none, some, List, [], ◌∷◌, ◌++◌, ◌||◌, not, ◌==◌, list_eq, nat_eq,
  if◌then◌else◌,
}
use omnipresent.Prelude.Lists.{retain, starts_with}
use omnipresent.Prelude.Text.{Text}
use omnipresent.Prelude.Outcome.{Outcome}
use omnipresent.Protocol.Ids.{Fingerprint, SessionId}
use omnipresent.Protocol.Control.{ControlMessage, ScreenSize, reject, accept, declined, busy}
use omnipresent.Session.{target}
use omnipresent.Topology.Geometry.{Screen}
use omnipresent.Runtime.Trust.{TrustFile, is_trusted_in, machine_id_of}
use omnipresent.Runtime.Trust
use omnipresent.Runtime.Daemon.{Daemon, notify_change}
use omnipresent.Runtime.Daemon.Handover.{cleanup_peer}
use omnipresent.Runtime.Daemon.Links.{admit}
use omnipresent.Runtime.Daemon.Listing.{Pending, hex_of}

-- The state, the trusted peers, the requests that wait and the decisions sent to them, and what else
-- of `Shared` is reported or changed: `sharing` is the clipboard manager's flag, `polling` the value
-- of `clipboard_on`.
pub record Service : Type 0 where
  pub daemon : Daemon
  pub trust : TrustFile
  pub pending : List Pending
  pub decided : List (ℕ × Bool)
  pub local_fingerprint : Fingerprint
  pub port : ℕ
  pub capturing : Bool
  pub sharing : Bool
  pub polling : Bool

abbrev pub changed : Service → Service
changed s = record s { daemon = notify_change s.daemon }

-- Up to the waiting: whether the peer is trusted, and so need not wait.
unfoldable pub arrive : Fingerprint → Text → ℕ → Service → Service × Bool
arrive f host connection s =
    let p : Pending = record { host = host; fingerprint = f; decision = connection } in
    if is_trusted_in f s.trust
    then (s, true)
    else (changed (record s { pending = s.pending ++ (p ∷ []) }), false)

-- What the waiting brought: a decision, or none in time (or the channel was closed).
abbrev pub approves : Option Bool → Bool
approves none = false
approves (some b) = b

module _ {E : Type 0} (save : TrustFile → Outcome E (Unit {0})) where
  -- After the waiting: the reply that ends the connection, if it does not go on. An error of saving
  -- is only logged.
  unfoldable pub answered :
      Fingerprint → Text → Option Bool → Service → Service × Option ControlMessage
  answered f host answer s =
      let t = changed (record s { pending = retain (λ p. not (p.fingerprint == f)) s.pending }) in
      if approves answer
      then (record t { trust = (Trust.accept save f (some host) t.trust).0 }, none)
      else (t, some (reject declined))

-- The session with a trusted peer: the reply, and whether the connection goes on. `sent` says whether
-- the reply could be sent.
unfoldable pub establish_target :
    SessionId → Fingerprint → Text → ScreenSize → Bool → Service → Service × (ControlMessage × Bool)
establish_target session f host size sent s =
    let r =
      admit target session f host (record { width = size.width; height = size.height }) s.daemon in
    let d = r.0 in
    let reply =
      accept session d.own (record { width = d.own_screen.width; height = d.own_screen.height }) in
    if not r.1
    then (record s { daemon = d }, (reject busy, false))
    else if sent
    then (record s { daemon = d }, (reply, true))
    else (record s { daemon = cleanup_peer (machine_id_of f) d }, (reply, false))

-- `p.host == selector || p.fingerprint.to_string().starts_with(selector)`
abbrev pub selected : Text → Pending → Bool
selected selector p = p.host == selector || starts_with (hex_of p.fingerprint) selector

-- The first request that is selected, and the others.
abbrev pub take_selected : Text → List Pending → Option (Pending × List Pending)
take_selected selector [] = none
take_selected selector (p ∷ ps) =
    let rest = take_selected selector ps in
    if selected selector p
    then some (p, ps)
    else elim rest [ none ↦ none | some r ↦ some (r.0, p ∷ r.1) ]

-- `decide_pending`: whether the answer is `Ok`.
unfoldable pub decide_pending : Text → Bool → Service → Service × Bool
decide_pending selector approve s = elim (take_selected selector s.pending) [
  | none ↦ (s, false)
  | some r ↦ (
    changed (record s { pending = r.1; decided = s.decided ++ ((r.0.decision, approve) ∷ []) }),
    true,
  )
]
