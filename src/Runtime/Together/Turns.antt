-- ===== src/Runtime/Together/Turns.antt =====
-- Two machines whose users take turns.
use omnipresent.Prelude.{
  map, ◌≡◌, ◌==◌, Bool, List, [], ◌∷◌, inl, inr, nat_eq, refl, true, false, ◌∙◌, some, arith, ap,
}
use omnipresent.Prelude.Maps.{get}
use omnipresent.Prelude.Outcome.{ok}
use omnipresent.Protocol.Ids.{MachineId, SessionId}
use omnipresent.Protocol.Input.{InputEvent}
use omnipresent.Session.{ActiveTarget, local}
use omnipresent.Runtime.Daemon.{PeerCommand, Daemon, PeerLink}
use omnipresent.Runtime.Daemon.Invariant.{IsValid}
use omnipresent.Runtime.Daemon.Batches.{latest}
use omnipresent.Runtime.Daemon.Sending.{send_batch}
use omnipresent.Runtime.Daemon.Sending.Orders.{goes_on, send_batch_lem, all_taken, wire}
use omnipresent.Runtime.Together.{Capture, capture_all, hear_all, turn, turns, for_peer}
use omnipresent.Runtime.Together.Kept.{hear_all-heard}
use omnipresent.Runtime.Together.Spoken.{
  AtPeace, IsSpoken, capture-IsSpoken, up_to_disconnect_all, latest-heard,
}

pub capture_all-IsSpoken :
    (a b : MachineId) (t : ActiveTarget) (es : List Capture) (d : Daemon) (l : PeerLink)
    → IsValid d
    → d.own ≡ a
    → d.links ≡ (b, l) ∷ []
    → IsSpoken a b t d
    → (u : Daemon) × (capture_all es d ≡ ok u)
      × IsValid u
      × (u.own ≡ a)
      × (u.links ≡ (b, l) ∷ [])
      × IsSpoken a b t u
unfolding capture_all
capture_all-IsSpoken a b t [] d l v o k h = (d, refl, v, o, k, h)
capture_all-IsSpoken a b t ((os, e) ∷ es) d l v o k h =
    let (d', q, v', o', k', h') = capture-IsSpoken a b t os e d l v o k h in
    let (u, r, w, x, y, z) = capture_all-IsSpoken a b t es d' l v' o' k' h' in
    (u, rw q r, w, x, y, z)

-- Two machines with nothing under way, each linked to the other and to nobody else, of which not
-- both send their input away.
abbrev pub AreJoined : PeerLink → PeerLink → Daemon × Daemon → Type 0
AreJoined l k (a, b) =
    IsValid a
    × IsValid b
    × (a.links ≡ (b.own, l) ∷ [])
    × (b.links ≡ (a.own, k) ∷ [])
    × ((a.own == b.own) ≡ false)
    × (a.outbox ≡ [])
    × (b.outbox ≡ [])
    × AtPeace a.own b.own a.sessions.active b.sessions.active

-- What is in a channel when nobody sends his `Disconnect`.
pub sent_all :
    (session : SessionId) (cs : List PeerCommand)
    → goes_on cs ≡ true
    → (send_batch all_taken session cs []).0 ≡ map (wire session) (latest cs)
sent_all session cs g =
    ap (λ r. r.0) (send_batch_lem session cs [])
    ∙ ap (map (wire session)) (up_to_disconnect_all (latest cs) ((latest-heard 0 local cs).1 ∙ g))

pub AtPeace-swap : (a b : MachineId) (s t : ActiveTarget) → AtPeace a b s t → AtPeace b a t s
AtPeace-swap a b s t (inl (x, y)) = inr (inl (y, x))
AtPeace-swap a b s t (inr (inl (x, y))) = inl (y, x)
AtPeace-swap a b s t (inr (inr (x, y))) = inr (inr (y, x))

AreJoined-swap : (l k : PeerLink) (a b : Daemon) → AreJoined l k (a, b) → AreJoined k l (b, a)
AreJoined-swap l k a b (v, w, m, n, d, o, o', peace) = (
  w,
  v,
  n,
  m,
  ground arith,
  o',
  o,
  AtPeace-swap a.own b.own a.sessions.active b.sessions.active peace,
)

module _ (session : SessionId) (arrives : InputEvent → Bool) where
  turn-AreJoined :
      (es : List Capture) (a b : Daemon) (l k : PeerLink)
      → AreJoined l k (a, b)
      → (p : Daemon × Daemon) × (turn session arrives es (a, b) ≡ ok p) × AreJoined l k p
  unfolding turn get
  turn-AreJoined es a b l k (v, w, m, n, d, o, o', peace) =
      let spoken : IsSpoken a.own b.own b.sessions.active a = rw o (refl, peace) in
      let (u, q, v', own, m', (g, h)) =
        capture_all-IsSpoken a.own b.own b.sessions.active es a l v refl m spoken in
      let cs = for_peer b.own u.outbox in
      let e : (a.own == a.own) ≡ true = ground arith in
      let listens : get a.own b.links ≡ some k = rw (n, e) refl in
      let other : (b.own == a.own) ≡ false = ground arith in
      let t = hear_all session arrives a.own (map (wire session) (latest cs)) b in
      let ((w', i, j), ((own', n'), o''), f) =
        hear_all-heard session arrives a.own (latest cs) b k (w, listens, other) in
      let f' = f ∙ (latest-heard a.own b.sessions.active cs).0 in
      (
        (record u { outbox = [] }, t),
        rw (q, sent_all session cs g) refl,
        (
          record { core = v'.core; muted = v'.muted },
          w',
          rw own' m',
          rw own (n' ∙ n),
          rw (own, own') d,
          refl,
          o'' ∙ o',
          rw (own, own', f') h,
        ),
      )

  -- Two machines are joined by one session, each linked to the other only and with its own id,
  -- nothing is under way, and not both send their input to the other. However often their users take
  -- turns, each capturing any events before the other hears what they led to, nothing panics, and
  -- after every turn the machines are so again: either the input of one goes to the other, which has
  -- its input to itself, or each has its own.
  pub turns-AreJoined :
      (rounds : List (Bool × List Capture)) (p : Daemon × Daemon) (l k : PeerLink)
      → AreJoined l k p
      → (q : Daemon × Daemon) × (turns session arrives rounds p ≡ ok q) × AreJoined l k q
  unfolding turns
  turns-AreJoined [] p l k h = (p, refl, h)
  turns-AreJoined ((true, es) ∷ rounds) (a, b) l k h =
      let (p, e, h') = turn-AreJoined es a b l k h in
      let (q, r, j) = turns-AreJoined rounds p l k h' in (q, rw e r, j)
  turns-AreJoined ((false, es) ∷ rounds) (a, b) l k h =
      let (p, e, h') = turn-AreJoined es b a k l (AreJoined-swap l k a b h) in
      let (q, r, j) = turns-AreJoined rounds (p.1, p.0) l k (AreJoined-swap k l p.0 p.1 h') in
      (q, rw e r, j)
