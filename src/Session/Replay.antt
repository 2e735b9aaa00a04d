-- ===== src/Session/Replay.antt =====
-- The event log is a complete account: replayed from the beginning, it gives back the sessions, the
-- roles and the active target. So a listener that only hears the events knows the state.
pub mod History
use mathlib.Core.List.{append_assoc}
use omnipresent.Prelude.{
  ℕ, ◌≡◌, refl, ap, ◌∙◌, ◌⊎◌, inl, inr, Bool, true, false, Option, none, some, List, [], ◌∷◌, ◌++◌,
  arith, ◌==◌, nat_eq, Option-cases, Bool-cases, if◌then◌else◌,
}
use omnipresent.Prelude.Maps.{Map, get, insert, remove, contains_key}
use omnipresent.Protocol.Ids.{MachineId, SessionId}
use omnipresent.Topology.Layout.{Crossing}
use omnipresent.Session.{
  Role, Session, ActiveTarget, local, remote, target_eq, target_beq_iff, SessionManager,
  SessionEvent, established, closed, role_changed, active_target_changed, new, emit, set_active,
  establish, close_session, close, reverse_role, reversed, yield_control, follow_peer,
  handle_crossing,
}

-- What a listener knows.
pub record View : Type 0 where
  pub sessions : Map SessionId Session
  pub active : ActiveTarget

abbrev pub view : SessionManager → View
view m = record { sessions = m.sessions; active = m.active }

-- What a listener makes of one event.
unfoldable pub hear : View → SessionEvent → View
hear v (established id peer role) = record v {
  sessions = insert id (record { id = id; peer = peer; role = role }) v.sessions;
}
hear v (closed id) = record v { sessions = remove id v.sessions }
hear v (role_changed id role) = elim (get id v.sessions) [
  | none ↦ v
  | some s ↦ record v { sessions = insert id (record s { role = role }) v.sessions }
]
hear v (active_target_changed t) = record v { active = t }

unfoldable pub hear_all : View → List SessionEvent → View
hear_all v [] = v
hear_all v (e ∷ es) = hear_all (hear v e) es

abbrev pub replay : List SessionEvent → View
replay = hear_all (record { sessions = []; active = local })

hear_all-append :
    (v : View) (es fs : List SessionEvent) → hear_all v (es ++ fs) ≡ hear_all (hear_all v es) fs
unfolding hear_all
hear_all-append v [] fs = refl
hear_all-append v (e ∷ es) fs = hear_all-append (hear v e) es fs

-- The log tells what the state is.
abbrev pub IsTold : SessionManager → Type 0
IsTold m = replay m.events ≡ view m

-- Events that say what changed keep the log complete.
told :
    (es : List SessionEvent) (m : SessionManager) {events : List SessionEvent} {v : View}
    → IsTold m
    → events ≡ m.events ++ es
    → hear_all (view m) es ≡ v
    → replay events ≡ v
told es m t q h =
    ap replay q
    ∙ hear_all-append (record { sessions = []; active = local }) m.events es
    ∙ ap (λ w. hear_all w es) t
    ∙ h

set_active-IsTold : (t : ActiveTarget) (m : SessionManager) → IsTold m → IsTold (set_active t m)
unfolding set_active hear_all hear
set_active-IsTold t m h = elim (Bool-cases (m.active == t)) [
  | inl y ↦ rw y h
  | inr n ↦ rw n (told (active_target_changed t ∷ []) m h refl refl)
]

pub establish-IsTold :
    (id : SessionId) (peer : MachineId) (role : Role) (m : SessionManager)
    → IsTold m
    → IsTold (establish id peer role m).0
unfolding establish hear_all hear
establish-IsTold id peer role m h = elim (Bool-cases (contains_key id m.sessions)) [
  | inl y ↦ rw y h
  | inr n ↦ elim (Bool-cases (contains_key peer m.by_peer)) [
    | inl y ↦ rw (n, y) h
    | inr k ↦ rw (n, k) (told (established id peer role ∷ []) m h refl refl)
  ]
]

close_session-IsTold :
    (id : SessionId) (s : Session) (m : SessionManager) → IsTold m → IsTold (close_session id s m)
unfolding close_session hear_all hear
close_session-IsTold id s m h = elim (Bool-cases (m.active == remote s.peer)) [
  | inl y ↦
      let f : (m.active == local) ≡ false =
        ground (arith, target_beq_iff m.active (remote s.peer)) in
      rw (y, f)
        (told (active_target_changed local ∷ closed id ∷ []) m h
          (append_assoc m.events (active_target_changed local ∷ []) (closed id ∷ [])) refl)
  | inr n ↦ rw n (told (closed id ∷ []) m h refl refl)
]

pub close-IsTold : (id : SessionId) (m : SessionManager) → IsTold m → IsTold (close id m).0
unfolding close
close-IsTold id m h = elim (Option-cases (get id m.sessions)) [
  | inl e ↦ rw (e, close) h
  | inr (s, e) ↦ rw (e, close) (close_session-IsTold id s m h)
]

pub reverse_role-IsTold :
    (id : SessionId) (m : SessionManager) → IsTold m → IsTold (reverse_role id m).0
unfolding reverse_role hear_all hear
reverse_role-IsTold id m h = elim (Option-cases (get id m.sessions)) [
  | inl e ↦ rw (e, reverse_role) h
  | inr (s, e) ↦
      rw (e, reverse_role) (told (role_changed id (reversed s.role) ∷ []) m h refl (rw (e, hear)))
]

pub yield_control-IsTold : (m : SessionManager) → IsTold m → IsTold (yield_control m).0
unfolding yield_control
yield_control-IsTold m h = set_active-IsTold local m h

pub follow_peer-IsTold :
    (p : MachineId) (m : SessionManager) → IsTold m → IsTold (follow_peer p m).0
unfolding follow_peer
follow_peer-IsTold p m h = elim (Bool-cases (contains_key p m.by_peer)) [
  | inl y ↦ rw y (set_active-IsTold (remote p) m h)
  | inr n ↦ rw n h
]

pub handle_crossing-IsTold :
    (c : Crossing) (m : SessionManager) → IsTold m → IsTold (handle_crossing c m).0
unfolding handle_crossing
handle_crossing-IsTold c m h = elim (Bool-cases (c.peer == m.own)) [
  | inl y ↦ rw y (set_active-IsTold local m h)
  | inr n ↦ elim (Bool-cases (contains_key c.peer m.by_peer)) [
    | inl y ↦ rw (n, y) (set_active-IsTold (remote c.peer) m h)
    | inr k ↦ rw (n, k) h
  ]
]
