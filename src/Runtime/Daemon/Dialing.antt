-- ===== src/Runtime/Daemon/Dialing.antt =====
-- crates/omni-runtime/src/daemon.rs, `do_connect` and `resolve_host`: dialing a peer. What the network
-- does (the look-up, the connection, the streams, the reply) is an argument.
pub mod Hosts
pub mod Failures
use omnipresent.Prelude.{
  ℕ, suc, ◌+◌, ◌-◌, ◌*◌, ◌^◌, Bool, true, false, Option, none, some, List, [], ◌∷◌, ◌&&◌, ◌||◌, not,
  ◌==◌, nat_eq, leb, ltb, if◌then◌else◌,
}
use omnipresent.Prelude.Text.{Text}
use omnipresent.Prelude.Outcome.{Outcome, ok, err}
use omnipresent.Protocol.Ids.{Fingerprint, SessionId}
use omnipresent.Protocol.Control.{ScreenSize, RejectReason}
use omnipresent.Session.{controller}
use omnipresent.Topology.Geometry.{Screen}
use omnipresent.Runtime.Trust.{TrustFile}
use omnipresent.Runtime.Trust
use omnipresent.Runtime.Daemon.{Daemon}
use omnipresent.Runtime.Daemon.Links.{admit}
use omnipresent.Runtime.Daemon.Incoming.{Service}

abbrev pub colon : ℕ
colon = 58

abbrev pub has_colon : Text → Bool
has_colon [] = false
has_colon (c ∷ t) = c == colon || has_colon t

-- `rsplit_once(':')`
unfoldable pub rsplit_once : Text → Option (Text × Text)
rsplit_once [] = none
rsplit_once (c ∷ t) = elim (rsplit_once t) [
  | none ↦ if c == colon then some ([], t) else none
  | some r ↦ some (c ∷ r.0, r.1)
]

-- The digits of a number below 2^16, after those that gave `n`.
abbrev pub more_digits : ℕ → Text → Option ℕ
more_digits n [] = some n
more_digits n (c ∷ t) =
    let m = n * 10 + (c - 48) in
    let rest = more_digits m t in if leb 48 c && leb c 57 && ltb m (2 ^ 16) then rest else none

abbrev pub digits : Text → Option ℕ
digits [] = none
digits (c ∷ t) = more_digits 0 (c ∷ t)

-- `parse::<u16>()`: digits, after a `+` or none.
unfoldable pub parse_u16 : Text → Option ℕ
parse_u16 [] = none
parse_u16 (c ∷ t) = if c == 43 then digits t else digits (c ∷ t)

-- `resolve_host`, up to the look-up: the host and the port.
unfoldable pub split_host : Text → ℕ → Text × ℕ
split_host arg default_port = elim (rsplit_once arg) [
  | none ↦ (arg, default_port)
  | some r ↦ elim (parse_u16 r.1) [
    | none ↦ (arg, default_port)
    | some port ↦ if has_colon r.0 then (arg, default_port) else (r.0, port)
  ]
]

-- What came back: an acceptance, a refusal, anything else or the end of the stream, nothing in time
-- or an error while waiting.
pub data Reply : Type 0 where
  accepted : SessionId → ScreenSize → Reply
  rejected : RejectReason → Reply
  unanswered waited : Reply

-- What dialing comes to: no connection or no request sent, or a peer with its certificate and reply.
pub data Dialed : Type 0 where
  unreachable : Dialed
  answered_by : Fingerprint → Reply → Dialed

pub data ConnectError : Type 0 where
  no_connection timed_out no_answer trust_not_saved no_session : ConnectError
  refused_by_peer : RejectReason → ConnectError

abbrev sessions_end : Daemon × Bool → Outcome ConnectError (Unit {0})
sessions_end (d, true) = ok tt
sessions_end (d, false) = err no_session

module _ {E : Type 0} (save : TrustFile → Outcome E (Unit {0})) where
  -- `do_connect` after an acceptance.
  abbrev pub connected :
      Text
      → Fingerprint
      → SessionId
      → ScreenSize
      → Service
      → Service × Outcome ConnectError (Unit {0})
  connected host f session size s =
      let t = Trust.accept save f (some host) s.trust in
      let screen : Screen = record { width = size.width; height = size.height } in
      let r = admit controller session f host screen s.daemon in
      elim t.1 [
        | ok u ↦ (record s { trust = t.0; daemon = r.0 }, sessions_end r)
        | err e ↦ (record s { trust = t.0 }, err trust_not_saved)
        | Outcome.panic ↦ (record s { trust = t.0 }, Outcome.panic)
      ]

  -- `do_connect`, of the host without its port.
  unfoldable pub do_connect : Text → Dialed → Service → Service × Outcome ConnectError (Unit {0})
  do_connect host unreachable s = (s, err no_connection)
  do_connect host (answered_by f (accepted session size)) s = connected host f session size s
  do_connect host (answered_by f (rejected reason)) s = (s, err (refused_by_peer reason))
  do_connect host (answered_by f unanswered) s = (s, err no_answer)
  do_connect host (answered_by f waited) s = (s, err timed_out)
