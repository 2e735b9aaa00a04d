-- ===== src/Runtime/Daemon/Dialing/Failures.antt =====
-- What a dial that failed leaves behind, and what one that succeeded brings.
use omnipresent.Prelude.{
  nat_beq_iff, ◌==◌, if◌then◌else◌, ℕ, list_eq, nat_eq, ◌∙◌, ◌⊎◌, ◌≡◌, ◌≢◌, true, false, some, refl,
  arith, Option, Bool-cases, inl, inr,
}
use omnipresent.Prelude.Maps.{contains_key, get, get-insert}
use omnipresent.Prelude.Text.{Text}
use omnipresent.Prelude.Outcome.{Outcome, ok, err}
use omnipresent.Session
use omnipresent.Runtime.Trust
use omnipresent.Session.{
  peer_already_connected, duplicate_session, SessionError, controller, establish,
}
use omnipresent.Runtime.Trust.{TrustFile, machine_id_of}
use omnipresent.Runtime.Daemon.{
  PeerLink, Screen, SessionManager, Fingerprint, MachineId, Role, SessionId, Daemon, rebuild_layout,
  notify_change,
}
use omnipresent.Runtime.Daemon.Links.{admit, new_link}
use omnipresent.Runtime.Daemon.Incoming.{Service}
use omnipresent.Runtime.Daemon.Dialing.{
  connected, ScreenSize, do_connect, Dialed, unreachable, answered_by, accepted, rejected,
  unanswered, waited, ConnectError, trust_not_saved, no_session,
}

-- What `admit` leaves of the links when there is no session, and adds to them when there is one.
establish-cases :
    (id : SessionId) (p : MachineId) (role : Role) (m : SessionManager)
    → ((e : SessionError) × (establish id p role m ≡ (m, Session.err e)))
      ⊎ ((m' : SessionManager) × (establish id p role m ≡ (m', Session.ok tt)))
unfolding establish
establish-cases id p role m = elim (Bool-cases (contains_key id m.sessions)) [
  | inl y ↦ inl (duplicate_session id, rw (y, establish) refl)
  | inr n ↦ elim (Bool-cases (contains_key p m.by_peer)) [
    | inl y ↦ inl (peer_already_connected p, rw (n, establish, y) refl)
    | inr z ↦ inr ((establish id p role m).0, rw (n, establish, z) refl)
  ]
]

same_key : (k : ℕ) (a b : Option PeerLink) → (if k == k then a else b) ≡ a
same_key k a b = ground (arith, nat_beq_iff k k)

admit-cases :
    (role : Role) (id : SessionId) (f : Fingerprint) (host : Text) (screen : Screen) (d : Daemon)
    → (admit role id f host screen d ≡ (d, false))
      ⊎ (((admit role id f host screen d).1 ≡ true)
          × (get (machine_id_of f) (admit role id f host screen d).0.links
              ≡ some (new_link role id f host screen d)))
unfolding admit rebuild_layout notify_change
admit-cases role id f host screen d = elim (establish-cases id (machine_id_of f) role d.sessions) [
  | inl (e, h) ↦ inl (rw (h, admit) refl)
  | inr (m, h) ↦ inr (
    rw (h, admit) refl,
    rw (h, admit)
        (get-insert (machine_id_of f) (machine_id_of f) (new_link role id f host screen d) d.links
          ∙ same_key (machine_id_of f) _ _),
  )
]

Outcome-cases :
    {E : Type 0} (o : Outcome E (Unit {0}))
    → (o ≡ ok tt) ⊎ (((e : E) × (o ≡ err e)) ⊎ (o ≡ Outcome.panic))
Outcome-cases (ok tt) = inl refl
Outcome-cases (err e) = inr (inl (e, refl))
Outcome-cases Outcome.panic = inr (inr refl)

module _ {E : Type 0} (save : TrustFile → Outcome E (Unit {0})) where
  -- A service with nothing changed, or with the fingerprint of a peer that accepted remembered for
  -- the host.
  abbrev pub IsUnchanged : Text → Dialed → ConnectError → Service → Service → Type 0
  IsUnchanged host r e s t =
      ((t ≡ s) × (e ≢ trust_not_saved) × (e ≢ no_session))
      ⊎ ((f : Fingerprint) × (id : SessionId) × (size : ScreenSize) × (r
            ≡ answered_by f (accepted id size))
          × (t ≡ record s { trust = Trust.accepted f (some host) s.trust })
          × ((e ≡ trust_not_saved) ⊎ (e ≡ no_session)))

  connected-err :
      (host : Text) (f : Fingerprint) (id : SessionId) (size : ScreenSize) (s : Service)
      (e : ConnectError)
      → (connected save host f id size s).1 ≡ err e
      → ((connected save host f id size s).0
          ≡ record s { trust = Trust.accepted f (some host) s.trust })
        × ((e ≡ trust_not_saved) ⊎ (e ≡ no_session))
  unfolding Trust.accept
  connected-err host f id size s e h =
      let screen : Screen = record { width = size.width; height = size.height } in
      elim (Outcome-cases (Trust.accept save f (some host) s.trust).1) [
        | inl o ↦ elim (admit-cases controller id f host screen s.daemon) [
          | inl a ↦ (rw (o, connected, a) refl, inr (ground (arith, rw (o, connected, a) at h)))
          | inr (a, b) ↦ absurd (ground (arith, rw (o, connected, a) at h))
        ]
        | inr (inl (g, o)) ↦ (rw (o, connected) refl, inl (ground (arith, rw (o, connected) at h)))
        | inr (inr o) ↦ absurd (ground (arith, rw (o, connected) at h))
      ]

  -- A dial that ends in an error leaves the daemon and all else of the service as it was, with one
  -- exception: when the peer had accepted, and then the trust file could not be saved or the session
  -- could not be set up, the trusted fingerprints have changed as by an acceptance of the peer for the
  -- host.
  pub do_connect-err :
      (host : Text) (r : Dialed) (s : Service) (e : ConnectError)
      → (do_connect save host r s).1 ≡ err e
      → IsUnchanged host r e s (do_connect save host r s).0
  unfolding do_connect
  do_connect-err host unreachable s e h = inl (refl, λ p. cc (h, p), λ p. cc (h, p))
  do_connect-err host (answered_by f (accepted id size)) s e h =
      let (t, c) = connected-err host f id size s e h in inr (f, id, size, refl, t, c)
  do_connect-err host (answered_by f (rejected reason)) s e h =
      inl (refl, λ p. cc (h, p), λ p. cc (h, p))
  do_connect-err host (answered_by f unanswered) s e h = inl (refl, λ p. cc (h, p), λ p. cc (h, p))
  do_connect-err host (answered_by f waited) s e h = inl (refl, λ p. cc (h, p), λ p. cc (h, p))

  -- A dial that succeeds was accepted by the peer; there is now a link to it, as the controller, with
  -- the session and the screen that it named, and its fingerprint is remembered for the host.
  pub do_connect-ok :
      (host : Text) (r : Dialed) (s : Service)
      → (do_connect save host r s).1 ≡ ok tt
      → let t = (do_connect save host r s).0 in
        (f : Fingerprint) × (id : SessionId) × (size : ScreenSize) × (r
          ≡ answered_by f (accepted id size))
        × (get (machine_id_of f) t.daemon.links
            ≡ some (
                new_link controller id f host
                  (record { width = size.width; height = size.height })
                  s.daemon))
        × (t.trust ≡ Trust.accepted f (some host) s.trust)
  unfolding do_connect Trust.accept
  do_connect-ok host unreachable s h = absurd (ground arith)
  do_connect-ok host (answered_by f (accepted id size)) s h =
      let screen : Screen = record { width = size.width; height = size.height } in
      elim (Outcome-cases (Trust.accept save f (some host) s.trust).1) [
        | inl o ↦ elim (admit-cases controller id f host screen s.daemon) [
          | inl a ↦ absurd (ground (arith, rw (o, connected, a) at h))
          | inr (a, b) ↦ (f, id, size, refl, rw (o, connected) b, rw (o, connected) refl)
        ]
        | inr (inl (g, o)) ↦ absurd (ground (arith, rw (o, connected) at h))
        | inr (inr o) ↦ absurd (ground (arith, rw (o, connected) at h))
      ]
  do_connect-ok host (answered_by f (rejected reason)) s h = absurd (ground arith)
  do_connect-ok host (answered_by f unanswered) s h = absurd (ground arith)
  do_connect-ok host (answered_by f waited) s h = absurd (ground arith)
