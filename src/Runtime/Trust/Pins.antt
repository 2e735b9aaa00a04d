-- ===== src/Runtime/Trust/Pins.antt =====
-- A host pins one certificate: the one accepted last.
use omnipresent.Prelude.{
  ◌≡◌, refl, ◌∙◌, ◌⊎◌, inl, inr, true, Option, none, some, List, [], ◌∷◌, ◌++◌, arith, ◌==◌, nat_eq,
  list_eq, list_beq_iff, Bool-cases,
}
use omnipresent.Prelude.Lists.{find}
use omnipresent.Prelude.Text.{Text}
use omnipresent.Protocol.Ids.{Fingerprint, IsDigest}
use omnipresent.Runtime.Trust.Hex.{parse_fingerprint-hex}
use omnipresent.Runtime.Trust.{
  PeerRecord, TrustFile, host_is, set_host, knows_hex, drop_stale, accepted, pinned_for_host,
  parse_fingerprint, fingerprint_hex, authorize_server,
}

abbrev holder : Text → List PeerRecord → Option Text
holder h rs = elim (find (host_is h) rs) [ none ↦ none | some r ↦ some r.fingerprint ]

-- After the stale records are dropped, whoever claims the host has the fingerprint.
drop_stale-holder :
    (hex h : Text) (rs : List PeerRecord)
    → (holder h (drop_stale hex (some h) rs) ≡ none)
      ⊎ (holder h (drop_stale hex (some h) rs) ≡ some hex)
drop_stale-holder hex h [] = inl refl
drop_stale-holder hex h (r ∷ rs) =
    ground (arith, list_beq_iff r.fingerprint hex, drop_stale-holder hex h rs)

-- Writing the host into the record with the fingerprint makes that record its holder.
holder-set_host :
    (hex h : Text) (rs : List PeerRecord)
    → knows_hex hex rs ≡ true
    → (holder h rs ≡ none) ⊎ (holder h rs ≡ some hex)
    → holder h (set_host hex (some h) rs) ≡ some hex
unfolding set_host
holder-set_host hex h [] k o = cc
holder-set_host hex h (r ∷ rs) k o =
    ground (arith, list_beq_iff r.fingerprint hex, list_beq_iff h h, holder-set_host hex h rs)

holder-append :
    (hex h : Text) (rs : List PeerRecord)
    → (holder h rs ≡ none) ⊎ (holder h rs ≡ some hex)
    → holder h (rs ++ (record { host = some h; fingerprint = hex } ∷ [])) ≡ some hex
holder-append hex h [] o = ground (arith, list_beq_iff h h)
holder-append hex h (r ∷ rs) o = ground (arith, holder-append hex h rs)

holder-accepted :
    (f : Fingerprint) (h : Text) (file : TrustFile)
    → holder h (accepted f (some h) file).peers ≡ some (fingerprint_hex f)
unfolding accepted
holder-accepted f h file =
    let hex = fingerprint_hex f in
    let rs = drop_stale hex (some h) file.peers in
    let o = drop_stale-holder hex h file.peers in
    elim (Bool-cases (knows_hex hex rs)) [
      | inl y ↦ rw y (holder-set_host hex h rs y o)
      | inr n ↦ rw n (holder-append hex h rs o)
    ]

pinned-holder :
    (h : Text) (hex : Text) (file : TrustFile)
    → holder h file.peers ≡ some hex
    → pinned_for_host h file ≡ parse_fingerprint hex
unfolding pinned_for_host
pinned-holder h hex file e = ground arith

-- Whatever the file held, after a digest is accepted for a host it is the one pinned for that host,
-- so that a rotated certificate replaces the old pin: a dial to the host goes through with this
-- digest and is refused with any other.
pub pinned-accepted :
    (f : Fingerprint) (h : Text) (file : TrustFile)
    → IsDigest f
    → (pinned_for_host h (accepted f (some h) file) ≡ some f)
      × ((g : Fingerprint) → authorize_server h g (accepted f (some h) file) ≡ (f == g))
unfolding authorize_server
pinned-accepted f h file d =
    let e =
      pinned-holder h (fingerprint_hex f) (accepted f (some h) file) (holder-accepted f h file)
      ∙ parse_fingerprint-hex f d in
    (e, λ g. rw (e, authorize_server))
