-- ===== src/Security/History.antt =====
-- `TrustAuthority` over the in-memory store (crates/omni-security/src/trust.rs and store.rs), after any
-- calls.
use omnipresent.Prelude.{◌≡◌, ◌==◌, ◌∙◌, List, [], ◌∷◌, refl, arith, nat_eq, list_eq, if◌then◌else◌}
use omnipresent.Prelude.Maps.{get}
use omnipresent.Prelude.Outcome.{ok}
use omnipresent.Protocol.Ids.{PeerId}
use omnipresent.Security.Policy.{
  PeerIdentity, TrustDecision, trusted, not_allowed, fingerprint_mismatch, empty_allowlist,
  evaluate, contains,
}
use omnipresent.Security.Authority.{authorize, accept, forget, authorize-accept, authorize-forget}
use omnipresent.Security.Memory.{InMemoryTrustStore, memory_store, memory_store-IsLawful}

-- What the user decides.
pub data Verdict : Type 0 where
  accepts : PeerIdentity → Verdict
  forgets : PeerId → Verdict

-- `InMemoryTrustStore::default`
abbrev pub empty_store : InMemoryTrustStore
empty_store = record { allowlist = empty_allowlist; pins = [] }

unfoldable pub decide : Verdict → InMemoryTrustStore → InMemoryTrustStore
unfolding accept forget
decide (accepts i) s = (accept memory_store i s).0
decide (forgets p) s = (forget memory_store p s).0

-- The newest verdict is the first of the list.
unfoldable pub decide_all : List Verdict → InMemoryTrustStore
unfolding decide
decide_all [] = empty_store
decide_all (v ∷ earlier) = decide v (decide_all earlier)

-- What the newest verdict on the peer says of the fingerprint.
abbrev pub verdict_on : PeerIdentity → List Verdict → TrustDecision
verdict_on j [] = not_allowed
verdict_on j (accepts i ∷ earlier) =
    let rest = verdict_on j earlier in
    if i.peer == j.peer
    then if i.fingerprint == j.fingerprint then trusted else fingerprint_mismatch
    else rest
verdict_on j (forgets p ∷ earlier) =
    let rest = verdict_on j earlier in if p == j.peer then not_allowed else rest

-- After any acceptances and removals of peers, the authority over the in-memory store decides on a
-- peer by the newest of them that was about it: a peer last accepted is trusted with the fingerprint
-- it was accepted with and refused with any other, and a peer last removed, or never accepted, is not
-- allowed.
pub authorize-decide_all :
    (verdicts : List Verdict) (j : PeerIdentity)
    → authorize memory_store (decide_all verdicts) j ≡ ok (verdict_on j verdicts)
unfolding decide_all decide authorize evaluate contains get
authorize-decide_all [] j = refl
authorize-decide_all (accepts i ∷ earlier) j =
    authorize-accept memory_store memory_store-IsLawful i j (decide_all earlier) refl
    ∙ rw (authorize-decide_all earlier j) (ground arith)
authorize-decide_all (forgets p ∷ earlier) j =
    authorize-forget memory_store memory_store-IsLawful p j (decide_all earlier) refl
    ∙ rw (authorize-decide_all earlier j) (ground arith)
