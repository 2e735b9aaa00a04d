-- ===== src/Security/Policy.antt =====
-- crates/omni-security/src/trust.rs: the allowlist, and the decision over it and a pinned fingerprint.
use omnipresent.Prelude.{
  ◌≡◌, Bool, true, false, ◌||◌, not, Option, none, some, List, [], ◌∷◌, arith, ◌==◌, nat_eq,
  list_eq, nat_beq_iff, if◌then◌else◌,
}
use omnipresent.Prelude.Lists.{retain}
use omnipresent.Protocol.Ids.{PeerId, Fingerprint}

-- A set of peers, as the list of its members.
pub record AllowList : Type 0 where
  pub peers : List PeerId

abbrev pub mem : PeerId → List PeerId → Bool
mem p [] = false
mem p (q ∷ qs) = q == p || mem p qs

abbrev pub empty_allowlist : AllowList
empty_allowlist = record { peers = [] }

-- `AllowList::contains`
unfoldable pub contains : AllowList → PeerId → Bool
contains l p = mem p l.peers

-- `AllowList::allow`: with whether the peer is new.
unfoldable pub allow : PeerId → AllowList → AllowList × Bool
allow p l = if mem p l.peers then (l, false) else (record { peers = p ∷ l.peers }, true)

-- `AllowList::remove`: with whether the peer was there.
unfoldable pub remove : PeerId → AllowList → AllowList × Bool
remove p l = (record { peers = retain (λ q. not (q == p)) l.peers }, mem p l.peers)

pub contains-allow :
    (p q : PeerId) (l : AllowList)
    → contains (allow p l).0 q ≡ (if p == q then true else contains l q)
unfolding contains allow
contains-allow p q l = ground (arith, nat_beq_iff p q)

mem-retain :
    (p q : PeerId) (l : List PeerId)
    → mem q (retain (λ r. not (r == p)) l) ≡ (if p == q then false else mem q l)
mem-retain p q [] = ground arith
mem-retain p q (r ∷ l) = ground (arith, mem-retain p q l)

pub contains-remove :
    (p q : PeerId) (l : AllowList)
    → contains (remove p l).0 q ≡ (if p == q then false else contains l q)
unfolding contains remove
contains-remove p q l = mem-retain p q l.peers

pub record PeerIdentity : Type 0 where
  pub peer : PeerId
  pub fingerprint : Fingerprint

pub data TrustDecision : Type 0 where
  trusted trust_on_first_use not_allowed fingerprint_mismatch : TrustDecision

-- `TrustDecision::is_trusted`
unfoldable pub is_trusted : TrustDecision → Bool
is_trusted trusted = true
is_trusted trust_on_first_use = false
is_trusted not_allowed = false
is_trusted fingerprint_mismatch = false

abbrev pub against_pin : Option Fingerprint → Fingerprint → TrustDecision
against_pin none f = trust_on_first_use
against_pin (some pin) f = if pin == f then trusted else fingerprint_mismatch

unfoldable pub evaluate : AllowList → Option Fingerprint → PeerIdentity → TrustDecision
evaluate l pinned i =
    if not (contains l i.peer) then not_allowed else against_pin pinned i.fingerprint
