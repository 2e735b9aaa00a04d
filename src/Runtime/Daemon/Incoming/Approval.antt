-- ===== src/Runtime/Daemon/Incoming/Approval.antt =====
-- Which request a decision is for, and what an approval brings.
use omnipresent.Prelude.{
  ℕ, subst, unwrap_or, ◌≡◌, Bool, true, false, List, [], ◌∷◌, ◌++◌, none, some, refl, arith,
  Bool-cases, Option-cases, inl, inr, ap,
}
use omnipresent.Prelude.Lists.{All}
use omnipresent.Prelude.Text.{Text}
use omnipresent.Prelude.Outcome.{Outcome}
use omnipresent.Protocol.Ids.{Fingerprint, IsDigest}
use omnipresent.Security.Policy.{is_trusted}
use omnipresent.Runtime.Trust.{accepted, TrustFile, digests, is_trusted_in, accept}
use omnipresent.Runtime.Trust.Inbound.{IsAlone}
use omnipresent.Runtime.Trust.Accepting.{accepted-trusted}
use omnipresent.Runtime.Daemon.Listing.{Pending}
use omnipresent.Runtime.Daemon.Incoming.{
  declined, reject, Service, arrive, answered, decide_pending, take_selected, selected,
}

-- The request `r.0` is the first one selected among them, and `r.1` are the others in their order.
abbrev pub IsFirst : Text → List Pending → Pending × List Pending → Type 0
IsFirst selector ps r =
    (before : List Pending) × (after : List Pending) × (ps ≡ before ++ (r.0 ∷ after))
    × (r.1 ≡ before ++ after)
    × (selected selector r.0 ≡ true)
    × All (λ q. selected selector q ≡ false) before

some-injective {ℓ} : {A : Type ℓ} (a b : A) → some a ≡ some b → a ≡ b
some-injective a b h = ap (λ o. unwrap_or o a) h

take_selected-IsFirst :
    (selector : Text) (ps : List Pending) (r : Pending × List Pending)
    → take_selected selector ps ≡ some r
    → IsFirst selector ps r
take_selected-IsFirst selector [] r h = absurd (ground arith)
take_selected-IsFirst selector (q ∷ qs) r h = elim (Bool-cases (selected selector q)) [
  | inl y ↦
      let e : some (q, qs) ≡ some r = rw (y, take_selected) at h in
      subst (λ t. IsFirst selector (q ∷ qs) t) (some-injective (q, qs) r e)
        ([], qs, refl, refl, y, tt)
  | inr n ↦ elim (Option-cases (take_selected selector qs)) [
    | inl z ↦ absurd (ground (arith, rw (n, take_selected, z) at h))
    | inr (t, z) ↦
        let (before, after, e, f, g, k) = take_selected-IsFirst selector qs t z in
        let u : some (t.0, q ∷ t.1) ≡ some r = rw (n, z, take_selected) at h in
        subst (λ v. IsFirst selector (q ∷ qs) v) (some-injective (t.0, q ∷ t.1) r u)
          (q ∷ before, after, ap (λ l. q ∷ l) e, ap (λ l. q ∷ l) f, g, (n, k))
  ]
]

-- A decision that is answered with `Ok` goes to the first request that its selector names, by its
-- host or by the beginning of its fingerprint; this request waits no longer, and all others wait on
-- in their order.
pub decide_pending_lem :
    (selector : Text) (approve : Bool) (s : Service)
    → (decide_pending selector approve s).1 ≡ true
    → let t = (decide_pending selector approve s).0 in
      (r : Pending × List Pending) × IsFirst selector s.pending r
      × (t.pending ≡ r.1)
      × (t.decided ≡ s.decided ++ ((r.0.decision, approve) ∷ []))
      × (t.trust ≡ s.trust)
unfolding decide_pending
decide_pending_lem selector approve s h = elim (Option-cases (take_selected selector s.pending)) [
  | inl n ↦ absurd (ground (arith, rw (n, decide_pending) at h))
  | inr (r, e) ↦ (
    r,
    take_selected-IsFirst selector s.pending r e,
    rw (e, decide_pending) refl,
    rw (e, decide_pending) refl,
    rw (e, decide_pending) refl,
  )
]

trusted_after :
    (f : Fingerprint) (host : Text) (file : TrustFile)
    → IsDigest f
    → IsAlone f (digests file.peers)
    → is_trusted_in f (accepted f (some host) file) ≡ true
unfolding is_trusted_in is_trusted
trusted_after f host file g h = ap is_trusted (accepted-trusted f (some host) file g h)

module _ {E : Type 0} (save : TrustFile → Outcome E (Unit {0})) where
  -- A peer that is not trusted waits for the user. Approved, it goes on, and from then on it need not
  -- wait; declined, or with no decision in time, it is refused, and will have to wait again. The
  -- fingerprint is a digest, and no other one that is remembered begins with the same eight bytes.
  pub arrive-answered :
      (f : Fingerprint) (host later : Text) (c d : ℕ) (s : Service)
      → IsDigest f
      → IsAlone f (digests s.trust.peers)
      → is_trusted_in f s.trust ≡ false
      → let a = arrive f host c s in
        let yes = answered save f host (some true) a.0 in
        let no = answered save f host (some false) a.0 in
        let late = answered save f host none a.0 in
        (a.1 ≡ false)
        × (yes.1 ≡ none)
        × ((arrive f later d yes.0).1 ≡ true)
        × (no.1 ≡ some (reject declined))
        × ((arrive f later d no.0).1 ≡ false)
        × (late ≡ no)
  unfolding arrive answered accept
  arrive-answered f host later c d s g h n =
      let t = trusted_after f host s.trust g h in
      (rw (n, arrive) refl, refl, ground (arith, n, t), refl, ground (arith, n), refl)
