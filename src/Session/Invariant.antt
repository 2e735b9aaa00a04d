-- ===== src/Session/Invariant.antt =====
-- The two tables of the manager agree, and input goes only where there is a session. Every
-- operation keeps both.
use mathlib.Core.Option
use omnipresent.Prelude.{
  ◌≡◌, ◌≢◌, inl, inr, true, Option, none, some, arith, ◌==◌, nat_eq, nat_beq_iff, Option-cases,
  Bool-cases,
}
use omnipresent.Prelude.Maps.{Map, get, insert, remove, contains_key, get-insert, get-remove}
use omnipresent.Protocol.Ids.{MachineId, SessionId}
use omnipresent.Topology.Layout.{Crossing}
use omnipresent.Session.{
  Role, Session, ActiveTarget, local, remote, target_eq, target_beq_iff, SessionManager, new, emit,
  set_active, establish, close_session, close, reverse_role, reversed, yield_control, follow_peer,
  handle_crossing,
}

abbrev pub peer_of : Option Session → Option MachineId
peer_of = Option.map (λ s. s.peer)

-- A session is filed under its own id, its peer is filed under that id, and the id that a peer is
-- filed under has a session with that peer.
pub record Agree (sessions : Map SessionId Session) (by_peer : Map MachineId SessionId)
    : Type 0 where
  pub filed :
      (id : SessionId) (s : Session)
      → get id sessions ≡ some s
      → (s.id ≡ id) × (get s.peer by_peer ≡ some id)
  pub peered :
      (p : MachineId) (id : SessionId)
      → get p by_peer ≡ some id
      → peer_of (get id sessions) ≡ some p

-- Input goes to the local screen or to a peer that has a session.
abbrev pub HasSession : Map MachineId SessionId → ActiveTarget → Type 0
HasSession by_peer local = Unit {0}
HasSession by_peer (remote p) = contains_key p by_peer ≡ true

pub record IsValid (m : SessionManager) : Type 0 where
  pub agree : Agree m.sessions m.by_peer
  pub routed : HasSession m.by_peer m.active

pub new-IsValid : (own : MachineId) → IsValid (new own)
unfolding get
new-IsValid own = record {
  agree = record { filed = λ id s h. cc; peered = λ p id h. cc };
  routed = tt;
}

pub set_active_tables :
    (t : ActiveTarget) (m : SessionManager)
    → ((set_active t m).sessions ≡ m.sessions)
      × ((set_active t m).by_peer ≡ m.by_peer)
      × ((set_active t m).active ≡ t)
unfolding set_active emit
set_active_tables t m = ground (arith, target_beq_iff m.active t)

pub set_active-own : (t : ActiveTarget) (m : SessionManager) → (set_active t m).own ≡ m.own
unfolding set_active emit
set_active-own t m = ground arith

pub set_active-IsValid :
    (t : ActiveTarget) (m : SessionManager)
    → HasSession m.by_peer t
    → Agree m.sessions m.by_peer
    → IsValid (set_active t m)
set_active-IsValid t m h a =
    let (s, b, e) = set_active_tables t m in record { agree = rw (s, b) a; routed = rw (b, e) h }

establish-Agree :
    (id : SessionId) (peer : MachineId) (role : Role) (m : SessionManager)
    → Agree m.sessions m.by_peer
    → get id m.sessions ≡ none
    → get peer m.by_peer ≡ none
    → Agree
        (insert id (record { id = id; peer = peer; role = role }) m.sessions)
        (insert peer id m.by_peer)
establish-Agree id peer role m a fi fp = record {
  filed = λ j s q. ground (
    arith,
    get-insert id j (record { id = id; peer = peer; role = role }) m.sessions,
    get-insert peer s.peer id m.by_peer,
    nat_beq_iff id j,
    nat_beq_iff peer s.peer,
    a.filed j s,
  );
  peered = λ p j q. ground (
    arith,
    get-insert id j (record { id = id; peer = peer; role = role }) m.sessions,
    get-insert peer p id m.by_peer,
    a.peered p j,
  );
}

HasSession-insert :
    (t : ActiveTarget) (p : MachineId) (id : SessionId) (m : SessionManager)
    → HasSession m.by_peer t
    → HasSession (insert p id m.by_peer) t
HasSession-insert local p id m h = tt
HasSession-insert (remote q) p id m h = ground (arith, get-insert p q id m.by_peer)

-- Establishing a session keeps a manager valid, whether it succeeds or not.
pub establish-IsValid :
    (id : SessionId) (peer : MachineId) (role : Role) (m : SessionManager)
    → IsValid m
    → IsValid (establish id peer role m).0
unfolding establish
establish-IsValid id peer role m v = elim (Option-cases (get id m.sessions)) [
  | inr (s, e) ↦ rw e v
  | inl e ↦ elim (Option-cases (get peer m.by_peer)) [
    | inr (j, f) ↦ rw (e, f) v
    | inl f ↦
        rw (e, f)
          (record {
            agree = establish-Agree id peer role m v.agree e f;
            routed = HasSession-insert m.active peer id m v.routed;
          })
  ]
]

close-Agree :
    (id : SessionId) (s : Session) (m : SessionManager)
    → Agree m.sessions m.by_peer
    → get id m.sessions ≡ some s
    → Agree (remove id m.sessions) (remove s.peer m.by_peer)
close-Agree id s m a e = record {
  filed = λ j t q. ground (
    arith,
    get-remove id j m.sessions,
    get-remove s.peer t.peer m.by_peer,
    nat_beq_iff s.peer t.peer,
    a.filed j t,
    a.filed id s e,
  );
  peered = λ p j q. ground (
    arith,
    get-remove id j m.sessions,
    get-remove s.peer p m.by_peer,
    a.peered p j,
    a.filed id s e,
  );
}

HasSession-remove :
    (t : ActiveTarget) (p : MachineId) (m : SessionManager)
    → HasSession m.by_peer t
    → t ≢ remote p
    → HasSession (remove p m.by_peer) t
HasSession-remove local p m h n = tt
HasSession-remove (remote q) p m h n = ground (arith, get-remove p q m.by_peer, nat_beq_iff p q)

close_session-IsValid :
    (id : SessionId) (s : Session) (m : SessionManager)
    → IsValid m
    → get id m.sessions ≡ some s
    → IsValid (close_session id s m)
unfolding close_session
close_session-IsValid id s m v e =
    let a = close-Agree id s m v.agree e in
    elim (Bool-cases (m.active == remote s.peer)) [
      | inl y ↦ rw y (
          let w =
            set_active-IsValid local
              (record m { sessions = remove id m.sessions; by_peer = remove s.peer m.by_peer }) tt
              a in
          record { agree = w.agree; routed = w.routed })
      | inr n ↦ rw n (record {
        agree = a;
        routed =
            HasSession-remove m.active s.peer m v.routed
              (λ q. ground (arith, target_beq_iff m.active (remote s.peer)));
      })
    ]

-- Closing a session keeps a manager valid, whether the session is known or not; in particular input
-- never stays routed to the peer of a closed session.
pub close-IsValid : (id : SessionId) (m : SessionManager) → IsValid m → IsValid (close id m).0
unfolding close
close-IsValid id m v = elim (Option-cases (get id m.sessions)) [
  | inl e ↦ rw (e, close) v
  | inr (s, e) ↦ rw (e, close) (close_session-IsValid id s m v e)
]

reverse-Agree :
    (id : SessionId) (s : Session) (m : SessionManager)
    → Agree m.sessions m.by_peer
    → get id m.sessions ≡ some s
    → Agree (insert id (record s { role = reversed s.role }) m.sessions) m.by_peer
reverse-Agree id s m a e = record {
  filed = λ j t q. ground (
    arith,
    get-insert id j (record s { role = reversed s.role }) m.sessions,
    nat_beq_iff id j,
    a.filed j t,
    a.filed id s e,
  );
  peered = λ p j q. ground (
    arith,
    get-insert id j (record s { role = reversed s.role }) m.sessions,
    nat_beq_iff id j,
    a.peered p j q,
  );
}

pub reverse_role-IsValid :
    (id : SessionId) (m : SessionManager) → IsValid m → IsValid (reverse_role id m).0
unfolding reverse_role
reverse_role-IsValid id m v = elim (Option-cases (get id m.sessions)) [
  | inl e ↦ rw (e, reverse_role) v
  | inr (s, e) ↦
      rw (e, reverse_role) (record { agree = reverse-Agree id s m v.agree e; routed = v.routed })
]

pub yield_control-IsValid : (m : SessionManager) → IsValid m → IsValid (yield_control m).0
unfolding yield_control
yield_control-IsValid m v = set_active-IsValid local m tt v.agree

pub follow_peer-IsValid :
    (p : MachineId) (m : SessionManager) → IsValid m → IsValid (follow_peer p m).0
unfolding follow_peer
follow_peer-IsValid p m v = elim (Bool-cases (contains_key p m.by_peer)) [
  | inl y ↦ rw y (set_active-IsValid (remote p) m y v.agree)
  | inr n ↦ rw n v
]

pub handle_crossing-IsValid :
    (c : Crossing) (m : SessionManager) → IsValid m → IsValid (handle_crossing c m).0
unfolding handle_crossing
handle_crossing-IsValid c m v = elim (Bool-cases (c.peer == m.own)) [
  | inl y ↦ rw y (set_active-IsValid local m tt v.agree)
  | inr n ↦ elim (Bool-cases (contains_key c.peer m.by_peer)) [
    | inl y ↦ rw (n, y) (set_active-IsValid (remote c.peer) m y v.agree)
    | inr k ↦ rw (n, k) v
  ]
]
