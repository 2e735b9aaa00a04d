-- ===== src/Runtime/Together/Crossed.antt =====
-- Two machines whose users move at the same time.
use omnipresent.Runtime.Daemon.Batches.{latest}
use omnipresent.Runtime.Daemon.Sending.Orders.{all_taken, goes_on}
use omnipresent.Prelude.Maps.{get}
use omnipresent.Session.{remote, local, ActiveTarget}
use omnipresent.Prelude.{
  list_eq, nat_eq, refl, some, arith, false, ◌∙◌, ◌==◌, sym, true, [], ◌∷◌, Bool, ◌≡◌, List,
}
use omnipresent.Prelude.{ap}
use omnipresent.Runtime.Daemon.Invariant.{IsValid}
use omnipresent.Runtime.Daemon.{
  Daemon, PeerLink, PeerCommand, input, warp, cursor_returned, clipboard, disconnect, is_remote,
}
use omnipresent.Runtime.Together.Turns.{AreJoined, AtPeace-swap, capture_all-IsSpoken, sent_all}
use omnipresent.Runtime.Together.Spoken.{IsSpoken, latest-heard, ok_eq}
use omnipresent.Runtime.Together.Kept.{heard, hear_all-heard}
use omnipresent.Runtime.Together.{
  send_batch, ok, InputEvent, SessionId, MachineId, Capture, capture_all, hear_all, for_peer, meet,
}

-- The last hand-over in the channel is that the cursor came back.
abbrev pub EndsReturned : MachineId → List PeerCommand → Type 0
EndsReturned p cs = heard p local cs ≡ remote p

ends_returned :
    (p : MachineId) (t : ActiveTarget) (cs : List PeerCommand)
    → EndsReturned p cs
    → heard p t cs ≡ remote p
ends_returned p t [] h = absurd (cc h)
ends_returned p t (input e ∷ cs) h = ends_returned p t cs h
ends_returned p t (warp x y ∷ cs) h = h
ends_returned p t (cursor_returned x y ∷ cs) h = h
ends_returned p t (clipboard payload ∷ cs) h = ends_returned p t cs h
ends_returned p t (disconnect ∷ cs) h = ends_returned p t cs h

-- What one machine has captured, when the other is `b`.
captured_by :
    (a b : MachineId) (t : ActiveTarget) (es : List Capture) (d u : Daemon) (l : PeerLink)
    → IsValid d
    → d.own ≡ a
    → d.links ≡ (b, l) ∷ []
    → IsSpoken a b t d
    → capture_all es d ≡ ok u
    → IsValid u × (u.own ≡ a) × (u.links ≡ (b, l) ∷ []) × IsSpoken a b t u
captured_by a b t es d u l v o k h e =
    let (u', q, v', o', k', h') = capture_all-IsSpoken a b t es d l v o k h in
    let same : u' ≡ u = ok_eq (sym q ∙ e) in rw (← same) (v', o', k', h')

module _ (session : SessionId) (arrives : InputEvent → Bool) where
  -- A machine that hears that the cursor went back sends its input away.
  sends_away :
      (p : MachineId) (cs : List PeerCommand) (u : Daemon) (l : PeerLink)
      → IsValid u
      → u.links ≡ (p, l) ∷ []
      → (u.own == p) ≡ false
      → goes_on cs ≡ true
      → EndsReturned p cs
      → let t =
          hear_all session arrives p
            (send_batch all_taken session cs []).0
            (record u { outbox = [] }) in
        (t.sessions.active ≡ remote p) × (t.suppress ≡ true)
  unfolding get
  sends_away p cs u l v k n g h =
      let e : (p == p) ≡ true = ground arith in
      let listens : get p u.links ≡ some l = rw (k, e) refl in
      let quiet : IsValid (record u { outbox = [] }) = record { core = v.core; muted = v.muted } in
      let ((w, i, j), d, f) =
        hear_all-heard session arrives p (latest cs) (record u { outbox = [] }) l
          (quiet, listens, n) in
      let f' =
        f ∙ (latest-heard p u.sessions.active cs).0 ∙ ends_returned p u.sessions.active cs h in
      rw (sent_all session cs g) (f', w.muted ∙ ap is_remote f')

  -- Two joined machines capture events at the same time, before either hears of the other's, and
  -- each sends the other, as its last hand-over, that the cursor came back to it. Then each ends up
  -- sending its input to the other and withholding it from itself.
  pub meet-crossed :
      (es fs : List Capture) (a b u w : Daemon) (l k : PeerLink)
      → AreJoined l k (a, b)
      → capture_all es a ≡ ok u
      → capture_all fs b ≡ ok w
      → EndsReturned a.own (for_peer b.own u.outbox)
      → EndsReturned b.own (for_peer a.own w.outbox)
      → (p : Daemon × Daemon) × (meet session arrives es fs (a, b) ≡ ok p)
        × (p.0.sessions.active ≡ remote b.own)
        × (p.0.suppress ≡ true)
        × (p.1.sessions.active ≡ remote a.own)
        × (p.1.suppress ≡ true)
  unfolding meet
  meet-crossed es fs a b u w l k (v, x, m, n, d, o, o', peace) q r h i =
      let spoken : IsSpoken a.own b.own b.sessions.active a = rw o (refl, peace) in
      let peace' = AtPeace-swap a.own b.own a.sessions.active b.sessions.active peace in
      let spoken' : IsSpoken b.own a.own a.sessions.active b = rw o' (refl, peace') in
      let (v1, o1, m1, (g1, h1)) =
        captured_by a.own b.own b.sessions.active es a u l v refl m spoken q in
      let (v2, o2, m2, (g2, h2)) =
        captured_by b.own a.own a.sessions.active fs b w k x refl n spoken' r in
      let d1 : (u.own == b.own) ≡ false = rw o1 d in
      let d2 : (w.own == a.own) ≡ false = rw o2 (ground arith) in
      let (s, t) = sends_away b.own (for_peer a.own w.outbox) u l v1 m1 d1 g2 i in
      let (s', t') = sends_away a.own (for_peer b.own u.outbox) w k v2 m2 d2 g1 h in
      (
        (
          hear_all session arrives b.own
              (send_batch all_taken session (for_peer a.own w.outbox) []).0
              (record u { outbox = [] }),
          hear_all session arrives a.own
              (send_batch all_taken session (for_peer b.own u.outbox) []).0
              (record w { outbox = [] }),
        ),
        rw (q, r) refl,
        s,
        t,
        s',
        t',
      )
