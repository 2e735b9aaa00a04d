-- ===== src/Session.antt =====
-- crates/omni-session: the sessions of one machine, its role in each, and where its input goes. The
-- events sink is the recording one (events.rs), oldest event first.
pub mod Invariant
pub mod Replay
use omnipresent.Prelude.{
  ℕ, ◌≡◌, ◌↔◌, Bool, true, false, Option, none, some, List, [], ◌∷◌, ◌++◌, arith, Eq, ◌==◌, nat_eq,
  nat_beq, nat_beq_iff, if◌then◌else◌, not,
}
use omnipresent.Prelude.Maps.{Map, get, insert, remove, contains_key}
use omnipresent.Protocol.Ids.{MachineId, SessionId}
use omnipresent.Topology.Layout.{Crossing}

pub data Role : Type 0 where
  controller target : Role

-- `Role::reversed`
unfoldable pub reversed : Role → Role
reversed controller = target
reversed target = controller

pub record Session : Type 0 where
  pub id : SessionId
  pub peer : MachineId
  pub role : Role

pub data ActiveTarget : Type 0 where
  local : ActiveTarget
  remote : MachineId → ActiveTarget

abbrev pub target_beq : ActiveTarget → ActiveTarget → Bool
target_beq local local = true
target_beq local (remote q) = false
target_beq (remote p) local = false
target_beq (remote p) (remote q) = nat_beq p q

pub target_beq_iff : (a b : ActiveTarget) → (target_beq a b ≡ true) ↔ (a ≡ b)
target_beq_iff local local = ground arith
target_beq_iff local (remote q) = ground arith
target_beq_iff (remote p) local = ground arith
target_beq_iff (remote p) (remote q) = ground arith

instance abbrev pub target_eq : Eq ActiveTarget
target_eq = record { test = target_beq; test_iff = target_beq_iff }

pub data SessionError : Type 0 where
  duplicate_session : SessionId → SessionError
  peer_already_connected : MachineId → SessionError
  unknown_session : SessionId → SessionError
  no_session_for_peer : MachineId → SessionError

pub data SessionEvent : Type 0 where
  established : SessionId → MachineId → Role → SessionEvent
  closed : SessionId → SessionEvent
  role_changed : SessionId → Role → SessionEvent
  active_target_changed : ActiveTarget → SessionEvent

pub record SessionManager : Type 0 where
  pub own : MachineId
  pub sessions : Map SessionId Session
  pub by_peer : Map MachineId SessionId
  pub active : ActiveTarget
  pub events : List SessionEvent

-- What an operation returns beside the manager: a value or an error.
pub data Result (A : Type 0) : Type 0 where
  ok : A → Result A
  err : SessionError → Result A

-- `SessionManager::new`
abbrev pub new : MachineId → SessionManager
new own = record { own = own; sessions = []; by_peer = []; active = local; events = [] }

-- `SessionManager::session`
abbrev pub session : SessionManager → SessionId → Option Session
session m id = get id m.sessions

-- `SessionManager::session_for_peer`
unfoldable pub session_for_peer : SessionManager → MachineId → Option Session
session_for_peer m peer = elim (get peer m.by_peer) [ none ↦ none | some id ↦ session m id ]

-- `events.emit`
unfoldable pub emit : SessionEvent → SessionManager → SessionManager
emit e m = record m { events = m.events ++ (e ∷ []) }

unfoldable pub set_active : ActiveTarget → SessionManager → SessionManager
unfolding emit
set_active t m =
    if m.active == t then m else emit (active_target_changed t) (record m { active = t })

unfoldable pub establish :
    SessionId → MachineId → Role → SessionManager → SessionManager × Result (Unit {0})
unfolding emit
establish id peer role m =
    if contains_key id m.sessions
    then (m, err (duplicate_session id))
    else if contains_key peer m.by_peer
    then (m, err (peer_already_connected peer))
    else (
      emit (established id peer role) (record m {
        sessions = insert id (record { id = id; peer = peer; role = role }) m.sessions;
        by_peer = insert peer id m.by_peer;
      }),
      ok tt,
    )

-- The part of `close` after the session is taken out of the table.
unfoldable pub close_session : SessionId → Session → SessionManager → SessionManager
unfolding set_active emit
close_session id s m =
    let m' = record m { sessions = remove id m.sessions; by_peer = remove s.peer m.by_peer } in
    emit (closed id) (if m'.active == remote s.peer then set_active local m' else m')

unfoldable pub close : SessionId → SessionManager → SessionManager × Result (Unit {0})
unfolding close_session
close id m = elim (get id m.sessions) [
  | none ↦ (m, err (unknown_session id))
  | some s ↦ (close_session id s m, ok tt)
]

unfoldable pub reverse_role : SessionId → SessionManager → SessionManager × Result Role
unfolding emit reversed
reverse_role id m = elim (get id m.sessions) [
  | none ↦ (m, err (unknown_session id))
  | some s ↦ (
    emit (role_changed id (reversed s.role))
        (record m { sessions = insert id (record s { role = reversed s.role }) m.sessions }),
    ok (reversed s.role),
  )
]

unfoldable pub yield_control : SessionManager → SessionManager × Bool
unfolding set_active
yield_control m = (set_active local m, not (m.active == local))

unfoldable pub follow_peer : MachineId → SessionManager → SessionManager × Result (Unit {0})
unfolding set_active
follow_peer peer m =
    if contains_key peer m.by_peer
    then (set_active (remote peer) m, ok tt)
    else (m, err (no_session_for_peer peer))

unfoldable pub handle_crossing : Crossing → SessionManager → SessionManager × Result (Unit {0})
unfolding set_active
handle_crossing c m =
    if c.peer == m.own
    then (set_active local m, ok tt)
    else if contains_key c.peer m.by_peer
    then (set_active (remote c.peer) m, ok tt)
    else (m, err (no_session_for_peer c.peer))
