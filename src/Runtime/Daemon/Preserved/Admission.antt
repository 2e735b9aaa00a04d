-- ===== src/Runtime/Daemon/Preserved/Admission.antt =====
-- A session that begins keeps the invariant.
use omnipresent.Runtime.Daemon.Preserved.Changes.{AllSized-insert}
use omnipresent.Session.Invariant.{establish-IsValid}
use omnipresent.Runtime.Trust.{machine_id_of}
use omnipresent.Topology.Layout.Moves.{IsInside}
use omnipresent.Runtime.Daemon.Layouts.{HasSize}
use omnipresent.Runtime.Daemon.Invariant.{rebuilt, IsConsistent, IsValid, IsCore}
use omnipresent.Prelude.Maps.{get-insert, insert, contains_key, get, Map}
use omnipresent.Runtime.Daemon.{
  keep_cursor, layout_of, Text, Daemon, CursorState, Role, notify_change, Screen, rebuild_layout,
  PeerLink,
}
use omnipresent.Runtime.Daemon.Links.{new_link, admit}
use omnipresent.Session.{established, emit, establish}
use omnipresent.Protocol.Ids.{Fingerprint, SessionId, MachineId}
use omnipresent.Runtime.Daemon.Layouts.{layout_of-screen}
use omnipresent.Runtime.Daemon.{screen_of}
use omnipresent.Prelude.{
  refl, arith, false, none, ◌≡◌, list_eq, nat_eq, nat_beq_iff, inl, inr, Bool-cases,
}

-- The old screens stay, since a machine without a session is not in the layout yet.
inserted_stays :
    (own p : MachineId) (l : PeerLink) (scr : Screen) (links : Map MachineId PeerLink)
    (c : CursorState)
    → get p links ≡ none
    → IsInside (layout_of own scr links) c
    → IsInside (layout_of own scr (insert p l links)) c
inserted_stays own p l scr links c n (s, e, o) = (
  s,
  ground (
    arith,
    layout_of-screen own scr links c.machine,
    layout_of-screen own scr (insert p l links) c.machine,
    get-insert p c.machine l links,
    nat_beq_iff p c.machine,
  ),
  o,
)

-- A session and a link that are both new keep a consistent state consistent.
establish-IsConsistent :
    (id : SessionId) (role : Role) (p : MachineId) (l : PeerLink) (d : Daemon)
    → IsCore d
    → HasSize l.screen
    → l.session ≡ id
    → contains_key id d.sessions.sessions ≡ false
    → contains_key p d.sessions.by_peer ≡ false
    → IsConsistent d.own d.own_screen
        (establish id p role d.sessions).0
        (layout_of d.own d.own_screen (insert p l d.links))
        (keep_cursor d.own
          (screen_of (layout_of d.own d.own_screen (insert p l d.links)) d.cursor.machine)
          d.cursor)
        (insert p l d.links)
unfolding establish emit
establish-IsConsistent id role p l d v h q n k =
    let w = rw (n, k) at (establish-IsValid id p role d.sessions v.tables) in
    let a : get p d.links ≡ none = ground (arith, v.linked p) in
    let (s, e, o) =
      inserted_stays d.own p l d.own_screen d.links d.cursor a (rw v.built at v.inside) in
    rw (n, k)
      (rebuilt d.own d.own_screen
        (emit (established id p role) (record d.sessions {
          sessions = insert id (record { id = id; peer = p; role = role }) d.sessions.sessions;
          by_peer = insert p id d.sessions.by_peer;
        }))
        d.cursor (insert p l d.links) (record { agree = w.agree; routed = w.routed }) v.same
        (λ r.
          ground
            (arith, q, get-insert p r l d.links, get-insert p r id d.sessions.by_peer, v.linked r))
        v.own_sized (AllSized-insert p l d.links h v.sized) (λ t g. ground (arith, e, o, v.placed))
        (λ g. ground (arith, e)))

-- A session with a peer whose screen has a size keeps the invariant, whether it is taken or
-- refused.
pub admit-IsValid :
    (role : Role) (session : SessionId) (f : Fingerprint) (host : Text) (screen : Screen)
    (d : Daemon)
    → HasSize screen
    → IsValid d
    → IsValid (admit role session f host screen d).0
unfolding admit establish rebuild_layout notify_change
admit-IsValid role session f host screen d h v =
    let p = machine_id_of f in
    let l = new_link role session f host screen d in
    elim (Bool-cases (contains_key session d.sessions.sessions)) [
      | inl y ↦ rw y (record { core = v.core; muted = v.muted })
      | inr n ↦ elim (Bool-cases (contains_key p d.sessions.by_peer)) [
        | inl y ↦ rw (n, y) (record { core = v.core; muted = v.muted })
        | inr k ↦
            let c = rw (n, k) at (establish-IsConsistent session role p l d v.core h refl n k) in
            rw (n, k) (record { core = c; muted = v.muted })
      ]
    ]
