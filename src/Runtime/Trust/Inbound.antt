-- ===== src/Runtime/Trust/Inbound.antt =====
-- Who is let in: an inbound peer is trusted only with a fingerprint that the file remembers.
use omnipresent.Prelude.{
  inr, inl, nat_beq_iff, Option-cases, list_beq_iff, ◌++◌, true, Bool, ◌≡◌, refl, false, ◌||◌,
  Option, none, some, List, [], ◌∷◌, arith, ◌==◌, nat_eq, list_eq, if◌then◌else◌, is_some,
}
use omnipresent.Prelude.Lists.{retain, find}
use omnipresent.Protocol.Ids.{PeerId, Fingerprint}
use omnipresent.Security.Policy.{
  AllowList, contains, contains-allow, allow, evaluate, trusted, not_allowed, fingerprint_mismatch,
  empty_allowlist,
}
use omnipresent.Runtime.Trust.{
  parse_fingerprint, Text, PeerRecord, set_host, TrustFile, peer_id_of, digests, allow_all,
  decide_inbound,
}

-- The first remembered digest with the peer id.
abbrev pub first_with : PeerId → List Fingerprint → Option Fingerprint
first_with p fs = find (λ f. peer_id_of f == p) fs

contains-allow_all :
    (p : PeerId) (fs : List Fingerprint) (l : AllowList)
    → contains (allow_all fs l) p ≡ (contains l p || is_some (first_with p fs))
contains-allow_all p [] l = ground arith
contains-allow_all p (f ∷ fs) l =
    ground
      (arith, contains-allow_all p fs (allow (peer_id_of f) l).0, contains-allow (peer_id_of f) p l)

contains-empty : (p : PeerId) → contains empty_allowlist p ≡ false
unfolding contains
contains-empty p = refl

-- The decision on an inbound peer turns on the first remembered digest that begins with the same
-- eight bytes: not allowed if there is none, trusted if it is the one presented, and refused as a
-- mismatch otherwise. First use never arises.
pub decide_inbound_lem :
    (f : Fingerprint) (file : TrustFile)
    → decide_inbound f file ≡ elim (first_with (peer_id_of f) (digests file.peers)) [
      | none ↦ not_allowed
      | some g ↦ if g == f then trusted else fingerprint_mismatch
    ]
unfolding decide_inbound evaluate
decide_inbound_lem f file = ground (
  arith,
  contains-allow_all (peer_id_of f) (digests file.peers) empty_allowlist,
  contains-empty (peer_id_of f),
)

abbrev pub remembered : Fingerprint → List Fingerprint → Bool
remembered f [] = false
remembered f (g ∷ gs) = g == f || remembered f gs

first_with-remembered :
    (f : Fingerprint) (p : PeerId) (gs : List Fingerprint)
    → first_with p gs ≡ some f
    → remembered f gs ≡ true
first_with-remembered f p [] h = cc
first_with-remembered f p (g ∷ gs) h =
    ground (arith, list_beq_iff g f, first_with-remembered f p gs)

-- Nobody is trusted with a fingerprint that the file does not hold, bit for bit.
pub trusted-remembered :
    (f : Fingerprint) (file : TrustFile)
    → decide_inbound f file ≡ trusted
    → remembered f (digests file.peers) ≡ true
trusted-remembered f file h = elim (Option-cases (first_with (peer_id_of f) (digests file.peers))) [
  | inl e ↦ cc (rw (decide_inbound_lem f file, e) at h)
  | inr (g, e) ↦
      first_with-remembered f (peer_id_of f) (digests file.peers)
        (ground (arith, decide_inbound_lem f file, e, h, list_beq_iff g f))
]

-- No remembered digest but `f` begins with the same eight bytes.
abbrev pub IsAlone : Fingerprint → List Fingerprint → Type 0
IsAlone f [] = Unit {0}
IsAlone f (g ∷ gs) = (peer_id_of g ≡ peer_id_of f → g ≡ f) × IsAlone f gs

pub alone-first :
    (f : Fingerprint) (gs : List Fingerprint)
    → IsAlone f gs
    → remembered f gs ≡ true
    → first_with (peer_id_of f) gs ≡ some f
alone-first f [] a m = cc
alone-first f (g ∷ gs) a m =
    ground
      (arith, list_beq_iff g f, nat_beq_iff (peer_id_of g) (peer_id_of f), alone-first f gs a.1)

pub digests-set_host :
    (hex : Text) (host : Option Text) (rs : List PeerRecord)
    → digests (set_host hex host rs) ≡ digests rs
unfolding set_host
digests-set_host hex host [] = refl
digests-set_host hex none (r ∷ rs) = ground (arith, digests-set_host hex none rs)
digests-set_host hex (some h) (r ∷ rs) = ground (arith, digests-set_host hex (some h) rs)

pub digests-append : (rs ss : List PeerRecord) → digests (rs ++ ss) ≡ digests rs ++ digests ss
digests-append [] ss = refl
digests-append (r ∷ rs) ss = ground (arith, digests-append rs ss)

pub IsAlone-append :
    (f : Fingerprint) (gs : List Fingerprint) → IsAlone f gs → IsAlone f (gs ++ (f ∷ []))
IsAlone-append f [] a = (λ e. refl, tt)
IsAlone-append f (g ∷ gs) a = (a.0, IsAlone-append f gs a.1)

pub remembered-append :
    (f : Fingerprint) (gs : List Fingerprint) → remembered f (gs ++ (f ∷ [])) ≡ true
remembered-append f [] = ground (arith, list_beq_iff f f)
remembered-append f (g ∷ gs) = ground (arith, remembered-append f gs)

pub IsAlone-retain :
    (f : Fingerprint) (p : PeerRecord → Bool) (rs : List PeerRecord)
    → IsAlone f (digests rs)
    → IsAlone f (digests (retain p rs))
IsAlone-retain f p [] a = a
IsAlone-retain f p (r ∷ rs) a = elim (Option-cases (parse_fingerprint r.fingerprint)) [
  | inl e ↦ ground (arith, e, a, IsAlone-retain f p rs)
  | inr (g, e) ↦ ground (arith, e, a, IsAlone-retain f p rs)
]
