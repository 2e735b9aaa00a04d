-- ===== src/Runtime/Trust/Accepting.antt =====
-- What accepting and removing a peer does to later decisions.
pub mod Duplicates
use omnipresent.Prelude.Lists.{length, retain, find}
use omnipresent.Security.Policy.{fingerprint_mismatch, trusted}
use omnipresent.Protocol.Ids.{IsDigest}
use omnipresent.Prelude.{
  refl, list_eq, nat_eq, ◌++◌, inr, nat_beq_iff, inl, Bool-cases, not, list_beq_iff, false, ◌∙◌, [],
  ◌||◌, arith, none, ◌≢◌, ◌==◌, ◌∷◌, true, some, ◌≡◌, Bool, Option, List,
}
use omnipresent.Runtime.Trust.Hex.{parse_fingerprint-hex}
use omnipresent.Runtime.Trust.Inbound.{
  first_with, decide_inbound_lem, remembered, IsAlone, alone-first, digests-set_host,
  digests-append, IsAlone-append, remembered-append, IsAlone-retain,
}
use omnipresent.Runtime.Trust.{
  selects, host_is, Outcome, decide_inbound, peer_id_of, drop_stale, knows_hex, parse_fingerprint,
  TrustFile, digests, remove, set_host, Text, pinned_for_host, PeerRecord, accepted, Fingerprint,
  fingerprint_hex,
}

known-remembered :
    (f : Fingerprint) (rs : List PeerRecord)
    → IsDigest f
    → knows_hex (fingerprint_hex f) rs ≡ true
    → remembered f (digests rs) ≡ true
known-remembered f [] d h = cc
known-remembered f (r ∷ rs) d h = ground (
  arith,
  list_beq_iff r.fingerprint (fingerprint_hex f),
  list_beq_iff f f,
  parse_fingerprint-hex f d,
  known-remembered f rs d,
)

drop_stale-IsAlone :
    (f : Fingerprint) (hex : Text) (host : Option Text) (rs : List PeerRecord)
    → IsAlone f (digests rs)
    → IsAlone f (digests (drop_stale hex host rs))
drop_stale-IsAlone f hex none rs a = a
drop_stale-IsAlone f hex (some h) rs a =
    IsAlone-retain f (λ r. r.fingerprint == hex || not (host_is h r)) rs a

first_with-accepted :
    (f : Fingerprint) (host : Option Text) (file : TrustFile)
    → IsDigest f
    → IsAlone f (digests file.peers)
    → first_with (peer_id_of f) (digests (accepted f host file).peers) ≡ some f
unfolding accepted
first_with-accepted f host file d a =
    let hex = fingerprint_hex f in
    let rs = drop_stale hex host file.peers in
    let b = drop_stale-IsAlone f hex host file.peers a in
    let one : digests (record { host = host; fingerprint = hex } ∷ []) ≡ f ∷ [] =
      ground (arith, parse_fingerprint-hex f d) in
    elim (Bool-cases (knows_hex hex rs)) [
      | inl y ↦
          rw (y, digests-set_host hex host rs)
            (alone-first f (digests rs) b (known-remembered f rs d y))
      | inr n ↦
          rw (n, digests-append rs (record { host = host; fingerprint = hex } ∷ []), one)
            (alone-first f (digests rs ++ (f ∷ [])) (IsAlone-append f (digests rs) b)
              (remembered-append f (digests rs)))
    ]

-- A digest that was accepted, with or without a host, is trusted from then on, provided that no
-- other remembered digest begins with the same eight bytes.
pub accepted-trusted :
    (f : Fingerprint) (host : Option Text) (file : TrustFile)
    → IsDigest f
    → IsAlone f (digests file.peers)
    → decide_inbound f (accepted f host file) ≡ trusted
accepted-trusted f host file d a =
    decide_inbound_lem f (accepted f host file)
    ∙ rw (first_with-accepted f host file d a) (ground (arith, list_beq_iff f f))

-- A record that is for another host, or for none, stays where it is.
drop_stale-kept :
    (hex h : Text) (r : PeerRecord) (rs : List PeerRecord)
    → host_is h r ≡ false
    → drop_stale hex (some h) (r ∷ rs) ≡ r ∷ drop_stale hex (some h) rs
drop_stale-kept hex h r rs e = rw e (ground arith)

-- With another digest of the same eight bytes remembered first, and not for the same host, the one
-- just accepted for a host, as the daemon does after every approval and every dial, is still refused:
-- the decision looks at the first record with the peer id only.
pub accepted_shadowed :
    (f g : Fingerprint) (h : Text) (r : PeerRecord) (rs : List PeerRecord)
    → parse_fingerprint r.fingerprint ≡ some g
    → peer_id_of g ≡ peer_id_of f
    → g ≢ f
    → (r.fingerprint == fingerprint_hex f) ≡ false
    → host_is h r ≡ false
    → decide_inbound f (accepted f (some h) (record { peers = r ∷ rs })) ≡ fingerprint_mismatch
unfolding accepted set_host
accepted_shadowed f g h r rs p i n e k =
    let t = drop_stale-kept (fingerprint_hex f) h r rs k in
    decide_inbound_lem f (accepted f (some h) (record { peers = r ∷ rs }))
    ∙ rw t (ground (arith, list_beq_iff g f, nat_beq_iff (peer_id_of g) (peer_id_of f)))

find-retain-not :
    (p q : PeerRecord → Bool) (rs : List PeerRecord)
    → ((r : PeerRecord) → q r ≡ true → p r ≡ true)
    → find q (retain (λ r. not (p r)) rs) ≡ none
find-retain-not p q [] h = refl
find-retain-not p q (r ∷ rs) h = ground (arith, h r, find-retain-not p q rs h)

-- After a removal by host no fingerprint is pinned for that host, whether the file could be written
-- or not.
pub pinned-remove :
    {E : Type 0} (save : TrustFile → Outcome E (Unit {0})) (host : Text) (file : TrustFile)
    → pinned_for_host host (remove save host file).0 ≡ none
unfolding pinned_for_host remove
pinned-remove save host file =
    let rs = retain (λ r. not (selects host r)) file.peers in
    let e = find-retain-not (selects host) (host_is host) file.peers (λ r q. ground arith) in
    elim (Bool-cases (length rs == length file.peers)) [
      | inl y ↦ rw (y, e, pinned_for_host)
      | inr n ↦ rw (n, e, pinned_for_host)
    ]
