-- ===== src/Runtime/Daemon/Preserved/Changes.antt =====
-- The start and the end of a session keep the invariant, and so do the commands that place and
-- relabel a peer.
use omnipresent.Runtime.Daemon.Handover.{cleanup_peer}
use omnipresent.Runtime.Daemon.Invariant.{
  IsValid, link_session, rebuilt, IsConsistent, IsCore, machine_at,
}
use omnipresent.Topology.Layout.Moves.{IsOn, IsInside}
use omnipresent.Runtime.Daemon.Layouts.{link_screen, layout_of-screen, HasSize, AllSized}
use omnipresent.Prelude.{
  Option-cases, sym, ◌∙◌, refl, none, some, list_eq, nat_eq, arith, ◌==◌, if◌then◌else◌, ◌≡◌,
}
use omnipresent.Topology.Geometry.{Screen}
use omnipresent.Runtime.Daemon.{
  rebuild_layout, notify_change, sync_suppression, keep_cursor, Daemon, screen_of, layout_of, local,
  remote, ActiveTarget, CursorState, PeerLink,
}
use omnipresent.Prelude.Maps.{get, get-remove, Map, remove, insert}
use omnipresent.Protocol.Ids.{MachineId, SessionId}
use omnipresent.Prelude.{[], ◌∷◌}
use omnipresent.Prelude.{nat_beq_iff, inl, inr, Bool-cases, list_eq, nat_eq}
use omnipresent.Session.Invariant
use omnipresent.Session.{SessionManager, Session, close_session, close, set_active, emit, target_eq}

close_session_tables :
    (id : SessionId) (s : Session) (m : SessionManager)
    → ((close_session id s m).own ≡ m.own)
      × ((close_session id s m).by_peer ≡ remove s.peer m.by_peer)
      × ((close_session id s m).active ≡ (if m.active == remote s.peer then local else m.active))
unfolding close_session set_active emit
close_session_tables id s m = ground arith

AllSized-remove :
    (p : MachineId) (links : Map MachineId PeerLink) → AllSized links → AllSized (remove p links)
unfolding remove
AllSized-remove p [] a = tt
AllSized-remove p ((q, l) ∷ ls) a = elim (Bool-cases (q == p)) [
  | inl y ↦ rw y (AllSized-remove p ls a.1)
  | inr n ↦ rw n (a.0, AllSized-remove p ls a.1)
]

pub AllSized-insert :
    (p : MachineId) (l : PeerLink) (links : Map MachineId PeerLink)
    → HasSize l.screen
    → AllSized links
    → AllSized (insert p l links)
unfolding insert
AllSized-insert p l [] h a = (h, tt)
AllSized-insert p l ((q, k) ∷ ls) h a = elim (Bool-cases (q == p)) [
  | inl y ↦ rw y (h, a.1)
  | inr n ↦ rw n (a.0, AllSized-insert p l ls h a.1)
]

-- The screens that the layout of the links without `p` has are the old ones, and a cursor that
-- keeps its screen is where the input goes.
removed_stays :
    (own p : MachineId) (scr : Screen) (links : Map MachineId PeerLink) (c : CursorState)
    (t : ActiveTarget) (s : Screen)
    → IsInside (layout_of own scr links) c
    → c.machine ≡ machine_at own t
    → screen_of (layout_of own scr (remove p links)) c.machine ≡ some s
    → IsOn s c.position × (c.machine ≡ machine_at own (if t == remote p then local else t))
removed_stays own p scr links c local s (s', e, o) q h = ground (
  arith,
  layout_of-screen own scr links c.machine,
  layout_of-screen own scr (remove p links) c.machine,
  get-remove p c.machine links,
)
removed_stays own p scr links c (remote r) s (s', e, o) q h = ground (
  arith,
  layout_of-screen own scr links c.machine,
  layout_of-screen own scr (remove p links) c.machine,
  get-remove p c.machine links,
  nat_beq_iff r p,
  nat_beq_iff p c.machine,
  nat_beq_iff own c.machine,
)

removed_leaves :
    (own p : MachineId) (scr : Screen) (links : Map MachineId PeerLink) (c : CursorState)
    (t : ActiveTarget)
    → IsInside (layout_of own scr links) c
    → c.machine ≡ machine_at own t
    → screen_of (layout_of own scr (remove p links)) c.machine ≡ none
    → own ≡ machine_at own (if t == remote p then local else t)
removed_leaves own p scr links c local (s', e, o) q h = refl
removed_leaves own p scr links c (remote r) (s', e, o) q h = ground (
  arith,
  layout_of-screen own scr links c.machine,
  layout_of-screen own scr (remove p links) c.machine,
  get-remove p c.machine links,
  nat_beq_iff r p,
  nat_beq_iff p c.machine,
)

close_session-IsConsistent :
    (p : MachineId) (l : PeerLink) (s : Session) (d : Daemon)
    → IsCore d
    → get l.session d.sessions.sessions ≡ some s
    → s.peer ≡ p
    → IsConsistent d.own d.own_screen
        (close l.session d.sessions).0
        (layout_of d.own d.own_screen (remove p d.links))
        (keep_cursor d.own
          (screen_of (layout_of d.own d.own_screen (remove p d.links)) d.cursor.machine)
          d.cursor)
        (remove p d.links)
unfolding close
close_session-IsConsistent p l s d v e q =
    let m = close_session l.session s d.sessions in
    let (o, b, a) = close_session_tables l.session s d.sessions in
    let w = rw (e, close) at (Invariant.close-IsValid l.session d.sessions v.tables) in
    let i = rw v.built at v.inside in
    rw (e, close)
      (rebuilt d.own d.own_screen m d.cursor (remove p d.links) w (o ∙ v.same)
        (λ r.
          rw (b, q)
            (ground (arith, get-remove p r d.links, get-remove p r d.sessions.by_peer, v.linked r)))
        v.own_sized (AllSized-remove p d.links v.sized)
        (λ t h.
          rw (a, q)
            (removed_stays d.own p d.own_screen d.links d.cursor d.sessions.active t i v.placed h))
        (λ h.
          rw (a, q)
            (removed_leaves d.own p d.own_screen d.links d.cursor d.sessions.active i v.placed h)))

-- A layout with the screens of the old one, from links with the sessions of the old ones.
pub rebuilt_same :
    (d : Daemon) (links : Map MachineId PeerLink)
    → IsCore d
    → ((p : MachineId) → link_session (get p links) ≡ link_session (get p d.links))
    → ((p : MachineId) → link_screen (get p links) ≡ link_screen (get p d.links))
    → AllSized links
    → IsConsistent d.own d.own_screen d.sessions
        (layout_of d.own d.own_screen links)
        (keep_cursor d.own
          (screen_of (layout_of d.own d.own_screen links) d.cursor.machine)
          d.cursor)
        links
rebuilt_same d links v same screens a =
    let (t, e, o) = rw v.built at v.inside in
    let k : screen_of (layout_of d.own d.own_screen links) d.cursor.machine ≡ some t =
      layout_of-screen d.own d.own_screen links d.cursor.machine
      ∙ rw (screens d.cursor.machine)
          (sym (layout_of-screen d.own d.own_screen d.links d.cursor.machine))
      ∙ e in
    rebuilt d.own d.own_screen d.sessions d.cursor links v.tables v.same (λ p. same p ∙ v.linked p)
      v.own_sized a (λ s h. ground (arith, k, o, v.placed)) (λ h. ground (arith, k))

-- The end of a session keeps the invariant: the peer's link and screen are gone, and the cursor and
-- the input are home if they were there.
pub cleanup_peer-IsValid : (p : MachineId) (d : Daemon) → IsValid d → IsValid (cleanup_peer p d)
unfolding cleanup_peer sync_suppression notify_change rebuild_layout
cleanup_peer-IsValid p d v = elim (Option-cases (get p d.links)) [
  | inl e ↦
      rw (e, cleanup_peer)
        (record {
          core = rebuilt_same d d.links v.core (λ q. refl) (λ q. refl) v.core.sized;
          muted = refl;
        })
  | inr (l, e) ↦
      let f : get p d.sessions.by_peer ≡ some l.session = ground (arith, v.core.linked p) in
      elim (Option-cases (get l.session d.sessions.sessions)) [
        | inl n ↦ ground (arith, v.core.tables.agree.peered p l.session f)
        | inr (s, h) ↦
            let q : s.peer ≡ p = ground (arith, v.core.tables.agree.peered p l.session f) in
            rw (e, cleanup_peer)
              (record { core = close_session-IsConsistent p l s d v.core h q; muted = refl })
      ]
]
