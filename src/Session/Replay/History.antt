-- ===== src/Session/Replay/History.antt =====
-- Any sequence of calls to the manager of one machine.
use omnipresent.Prelude.{◌≡◌, refl, List, [], ◌∷◌}
use omnipresent.Protocol.Ids.{MachineId, SessionId}
use omnipresent.Topology.Layout.{Crossing}
use omnipresent.Session.{
  Role, SessionManager, new, establish, close, reverse_role, yield_control, follow_peer,
  handle_crossing,
}
use omnipresent.Session.Invariant.{
  IsValid, new-IsValid, establish-IsValid, close-IsValid, reverse_role-IsValid,
  yield_control-IsValid, follow_peer-IsValid, handle_crossing-IsValid,
}
use omnipresent.Session.Replay.{
  IsTold, view, replay, hear_all, establish-IsTold, close-IsTold, reverse_role-IsTold,
  yield_control-IsTold, follow_peer-IsTold, handle_crossing-IsTold,
}

pub data Call : Type 0 where
  establishes : SessionId → MachineId → Role → Call
  closes reverses : SessionId → Call
  yields : Call
  follows : MachineId → Call
  crosses : Crossing → Call

unfoldable pub step : SessionManager → Call → SessionManager
step m (establishes id peer role) = (establish id peer role m).0
step m (closes id) = (close id m).0
step m (reverses id) = (reverse_role id m).0
step m yields = (yield_control m).0
step m (follows p) = (follow_peer p m).0
step m (crosses c) = (handle_crossing c m).0

unfoldable pub run : SessionManager → List Call → SessionManager
unfolding step
run m [] = m
run m (c ∷ cs) = run (step m c) cs

step-IsValid : (m : SessionManager) (c : Call) → IsValid m → IsValid (step m c)
unfolding step
step-IsValid m (establishes id peer role) v = establish-IsValid id peer role m v
step-IsValid m (closes id) v = close-IsValid id m v
step-IsValid m (reverses id) v = reverse_role-IsValid id m v
step-IsValid m yields v = yield_control-IsValid m v
step-IsValid m (follows p) v = follow_peer-IsValid p m v
step-IsValid m (crosses c) v = handle_crossing-IsValid c m v

step-IsTold : (m : SessionManager) (c : Call) → IsTold m → IsTold (step m c)
unfolding step
step-IsTold m (establishes id peer role) h = establish-IsTold id peer role m h
step-IsTold m (closes id) h = close-IsTold id m h
step-IsTold m (reverses id) h = reverse_role-IsTold id m h
step-IsTold m yields h = yield_control-IsTold m h
step-IsTold m (follows p) h = follow_peer-IsTold p m h
step-IsTold m (crosses c) h = handle_crossing-IsTold c m h

run-IsValid : (m : SessionManager) (cs : List Call) → IsValid m → IsValid (run m cs)
unfolding run
run-IsValid m [] v = v
run-IsValid m (c ∷ cs) v = run-IsValid (step m c) cs (step-IsValid m c v)

run-IsTold : (m : SessionManager) (cs : List Call) → IsTold m → IsTold (run m cs)
unfolding run
run-IsTold m [] h = h
run-IsTold m (c ∷ cs) h = run-IsTold (step m c) cs (step-IsTold m c h)

new-IsTold : (own : MachineId) → IsTold (new own)
unfolding hear_all
new-IsTold own = refl

-- After any sequence of calls on a new manager, its two tables agree, and input goes to the local
-- screen or to a peer that has a session.
pub run-new-IsValid : (own : MachineId) (cs : List Call) → IsValid (run (new own) cs)
run-new-IsValid own cs = run-IsValid (new own) cs (new-IsValid own)

-- After any sequence of calls on a new manager, the events that it emitted, replayed from the
-- beginning, give its sessions with their roles, and its active target.
pub replay-run :
    (own : MachineId) (cs : List Call) → replay (run (new own) cs).events ≡ view (run (new own) cs)
replay-run own cs = run-IsTold (new own) cs (new-IsTold own)
