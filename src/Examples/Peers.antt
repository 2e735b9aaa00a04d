-- ===== src/Examples/Peers.antt =====
-- Two peers, known by the digests of their certificates.
use omnipresent.Security.Memory.{memory_store}
use omnipresent.Security.History.{
  authorize-decide_all, verdict_on, accepts, decide_all, forgets, Verdict,
}
use omnipresent.Security.Authority.{authorize}
use omnipresent.Prelude.Outcome.{Outcome, ok}
use omnipresent.Runtime.Trust.Accepting.{accepted_shadowed}
use Prim.Native.Nat.{zero}
use omnipresent.Runtime.Trust.Hex.{parse_fingerprint-hex}
use omnipresent.Prelude.Lists.{All}
use omnipresent.Security.Policy.{PeerIdentity, not_allowed, fingerprint_mismatch, trusted}
use omnipresent.Prelude.Text.{codes}
use omnipresent.Runtime.Trust.Inbound.{first_with, decide_inbound_lem}
use omnipresent.Protocol.Ids.{Fingerprint, IsDigest, to_hex}
use omnipresent.Prelude.{
  List, if◌then◌else◌, list_beq_iff, ◌<◌, false, ◌≢◌, ◌==◌, suc, ◌≡◌, ◌++◌, [], ◌∷◌, none, some, ℕ,
  list_eq, nat_eq, refl, arith,
}
use omnipresent.Runtime.Trust.{
  peer_id_of, accepted, digests, fingerprint_hex, decide_inbound, parse_fingerprint, PeerRecord,
  TrustFile,
}

abbrev pub zeros : ℕ → Fingerprint
zeros zero = []
zeros (suc n) = 0 ∷ zeros n

-- A digest that ends in the number.
abbrev digest : ℕ → Fingerprint
digest n = 1 ∷ zeros 30 ++ (n ∷ [])

pub All-zeros : (n : ℕ) → All (λ b. b < 256) (zeros n)
All-zeros zero = tt
All-zeros (suc n) = (omega arith, All-zeros n)

All-append :
    (xs ys : Fingerprint)
    → All (λ b. b < 256) xs
    → All (λ b. b < 256) ys
    → All (λ b. b < 256) (xs ++ ys)
All-append [] ys p q = q
All-append (x ∷ xs) ys p q = (p.0, All-append xs ys p.1 q)

digest-IsDigest : IsDigest (digest 5)
digest-IsDigest =
    (refl, (omega arith, All-append (zeros 30) (5 ∷ []) (All-zeros 30) (omega arith, tt)))

abbrev alice : PeerRecord
alice = record { host = some (codes "alice"); fingerprint = fingerprint_hex (digest 5) }

abbrev bob : PeerRecord
bob = record { host = none; fingerprint = fingerprint_hex (2 ∷ zeros 31) }

abbrev file : TrustFile
file = record { peers = bob ∷ alice ∷ [] }

alice-parses : parse_fingerprint alice.fingerprint ≡ some (digest 5)
alice-parses = parse_fingerprint-hex (digest 5) digest-IsDigest

same_id : peer_id_of (digest 5) ≡ peer_id_of (digest 6)
unfolding peer_id_of
same_id = refl

parse_fingerprint-hex_example : parse_fingerprint (fingerprint_hex (digest 5)) ≡ some (digest 5)
parse_fingerprint-hex_example = parse_fingerprint-hex (digest 5) digest-IsDigest

decide_inbound_lem_example :
    decide_inbound (digest 5) file
    ≡ elim (first_with (peer_id_of (digest 5)) (digests file.peers)) [
      | none ↦ not_allowed
      | some g ↦ if g == digest 5 then trusted else fingerprint_mismatch
    ]
decide_inbound_lem_example = decide_inbound_lem (digest 5) file

five_six : digest 5 ≢ digest 6
five_six e = ground (arith, list_beq_iff (digest 5) (digest 6))

other_hex : (alice.fingerprint == fingerprint_hex (digest 6)) ≡ false
unfolding fingerprint_hex to_hex
other_hex = refl

accepted_shadowed_example :
    decide_inbound
      (digest 6)
      (accepted (digest 6) (some (codes "carol")) (record { peers = alice ∷ [] }))
    ≡ fingerprint_mismatch
accepted_shadowed_example =
    accepted_shadowed (digest 6) (digest 5) (codes "carol") alice [] alice-parses same_id five_six
      other_hex refl

abbrev saves : TrustFile → Outcome (Unit {0}) (Unit {0})
saves f = ok tt

abbrev bob_as : ℕ → PeerIdentity
bob_as n = record { peer = 7; fingerprint = digest n }

-- Somebody else is removed after Bob has been accepted with one certificate and then with another.
abbrev verdicts : List Verdict
verdicts = forgets 8 ∷ accepts (bob_as 6) ∷ accepts (bob_as 5) ∷ []

authorize-decide_all_example :
    authorize memory_store (decide_all verdicts) (bob_as 6) ≡ ok (verdict_on (bob_as 6) verdicts)
authorize-decide_all_example = authorize-decide_all verdicts (bob_as 6)
