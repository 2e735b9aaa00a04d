-- ===== src/Security/Authority.antt =====
-- `TrustAuthority` of crates/omni-security/src/trust.rs, over any store that keeps the promises of
-- the `TrustStore` port (crates/omni-security/src/store.rs).
use omnipresent.Prelude.{
  ap, sym, ◌∙◌, ◌≡◌, refl, Bool, true, false, Option, none, some, arith, ◌==◌, nat_eq, list_eq,
  nat_beq_iff, if◌then◌else◌,
}
use omnipresent.Prelude.Outcome.{Outcome, ok, err, panic, ◌>>=◌}
use omnipresent.Protocol.Ids.{PeerId, Fingerprint}
use omnipresent.Security.Policy.{
  AllowList, contains, PeerIdentity, TrustDecision, trusted, not_allowed, fingerprint_mismatch,
  against_pin, evaluate,
}

-- A write may fail; what it leaves in the store is then unknown.
pub record TrustStore (S E : Type 0) : Type 0 where
  pub allowlist : S → Outcome E AllowList
  pub pinned : S → PeerId → Outcome E (Option Fingerprint)
  pub allow : PeerId → S → S × Outcome E (Unit {0})
  pub remove_allowed : PeerId → S → S × Outcome E (Unit {0})
  pub pin : PeerId → Fingerprint → S → S × Outcome E (Unit {0})
  pub unpin : PeerId → S → S × Outcome E (Unit {0})

-- What the documentation of the port promises: what a store holds can be read, and a write that
-- succeeds changes the entry that it names and no other.
pub record IsLawful {S E : Type 0} (t : TrustStore S E) : Type 0 where
  pub allows : S → PeerId → Bool
  pub pins : S → PeerId → Option Fingerprint
  pub reads_allowed :
      (s : S)
      → (l : AllowList) × (t.allowlist s ≡ ok l) × ((p : PeerId) → contains l p ≡ allows s p)
  pub reads_pinned : (s : S) (p : PeerId) → t.pinned s p ≡ ok (pins s p)
  pub allow_lem :
      (p : PeerId) (s : S)
      → (t.allow p s).1 ≡ ok tt
      → ((q : PeerId) → allows (t.allow p s).0 q ≡ (if p == q then true else allows s q))
        × ((q : PeerId) → pins (t.allow p s).0 q ≡ pins s q)
  pub remove_lem :
      (p : PeerId) (s : S)
      → (t.remove_allowed p s).1 ≡ ok tt
      → ((q : PeerId) → allows (t.remove_allowed p s).0 q ≡ (if p == q then false else allows s q))
        × ((q : PeerId) → pins (t.remove_allowed p s).0 q ≡ pins s q)
  pub pin_lem :
      (p : PeerId) (f : Fingerprint) (s : S)
      → (t.pin p f s).1 ≡ ok tt
      → ((q : PeerId) → allows (t.pin p f s).0 q ≡ allows s q)
        × ((q : PeerId) → pins (t.pin p f s).0 q ≡ (if p == q then some f else pins s q))
  pub unpin_lem :
      (p : PeerId) (s : S)
      → (t.unpin p s).1 ≡ ok tt
      → ((q : PeerId) → allows (t.unpin p s).0 q ≡ allows s q)
        × ((q : PeerId) → pins (t.unpin p s).0 q ≡ (if p == q then none else pins s q))

module _ {S E : Type 0} (t : TrustStore S E) where
  -- `TrustAuthority::authorize`
  unfoldable pub authorize : S → PeerIdentity → Outcome E TrustDecision
  authorize s i = do l ← t.allowlist s; p ← t.pinned s i.peer; ok (evaluate l p i)

  -- `?` after a write: the next write happens only if this one succeeded.
  abbrev pub and_then :
      S × Outcome E (Unit {0}) → (S → S × Outcome E (Unit {0})) → S × Outcome E (Unit {0})
  and_then (s, ok u) next = next s
  and_then (s, err e) next = (s, err e)
  and_then (s, panic) next = (s, panic)

  -- `TrustAuthority::accept`
  unfoldable pub accept : PeerIdentity → S → S × Outcome E (Unit {0})
  accept i s = and_then (t.allow i.peer s) (t.pin i.peer i.fingerprint)

  -- `TrustAuthority::forget`
  unfoldable pub forget : PeerId → S → S × Outcome E (Unit {0})
  forget p s = and_then (t.remove_allowed p s) (t.unpin p)

-- The decision, from what the store holds.
abbrev pub decision : Bool → Option Fingerprint → Fingerprint → TrustDecision
decision false pin f = not_allowed
decision true pin f = against_pin pin f

module _ {S E : Type 0} (t : TrustStore S E) (law : IsLawful t) where
  authorize-decision :
      (s : S) (i : PeerIdentity)
      → authorize t s i ≡ ok (decision (law.allows s i.peer) (law.pins s i.peer) i.fingerprint)
  unfolding authorize evaluate
  authorize-decision s i =
      let (l, e, c) = law.reads_allowed s in
      rw (e, law.reads_pinned s i.peer, c i.peer) (ground arith)

  -- The two writes of a call, each of which succeeded.
  both_ok :
      (w : S × Outcome E (Unit {0})) (next : S → S × Outcome E (Unit {0}))
      → (and_then t w next).1 ≡ ok tt
      → (w.1 ≡ ok tt) × (and_then t w next ≡ next w.0)
  both_ok (s, ok u) next h = (refl, refl)
  both_ok (s, err e) next h = cc
  both_ok (s, panic) next h = cc

  -- With a lawful store, after a successful `accept` the peer is trusted with that fingerprint and
  -- refused with any other, and the decision on every other peer is what it was.
  pub authorize-accept :
      (i j : PeerIdentity) (s : S)
      → (accept t i s).1 ≡ ok tt
      → authorize t (accept t i s).0 j ≡ (
          if i.peer == j.peer
          then ok (if i.fingerprint == j.fingerprint then trusted else fingerprint_mismatch)
          else authorize t s j)
  unfolding accept
  authorize-accept i j s h =
      let write = t.pin i.peer i.fingerprint in
      let (a, e) = both_ok (t.allow i.peer s) write h in
      let s' = (t.allow i.peer s).0 in
      let b : (write s').1 ≡ ok tt = ap (λ w. w.1) (sym e) ∙ h in
      let first = law.allow_lem i.peer s a in
      let second = law.pin_lem i.peer i.fingerprint s' b in
      rw e (
        authorize-decision (write s').0 j
        ∙ rw
            (
              second.0 j.peer,
              second.1 j.peer,
              first.0 j.peer,
              first.1 j.peer,
              authorize-decision s j,
            )
            (ground (arith, nat_beq_iff i.peer j.peer)))

  -- With a lawful store, after a successful `forget` the peer is not allowed, whatever it presents,
  -- and the decision on every other peer is what it was.
  pub authorize-forget :
      (p : PeerId) (j : PeerIdentity) (s : S)
      → (forget t p s).1 ≡ ok tt
      → authorize t (forget t p s).0 j ≡ (if p == j.peer then ok not_allowed else authorize t s j)
  unfolding forget
  authorize-forget p j s h =
      let (a, e) = both_ok (t.remove_allowed p s) (t.unpin p) h in
      let s' = (t.remove_allowed p s).0 in
      let b : (t.unpin p s').1 ≡ ok tt = ap (λ w. w.1) (sym e) ∙ h in
      let first = law.remove_lem p s a in
      let second = law.unpin_lem p s' b in
      rw e (
        authorize-decision (t.unpin p s').0 j
        ∙ rw
            (
              second.0 j.peer,
              second.1 j.peer,
              first.0 j.peer,
              first.1 j.peer,
              authorize-decision s j,
            )
            (ground (arith, nat_beq_iff p j.peer)))
