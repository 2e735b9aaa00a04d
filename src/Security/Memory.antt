-- ===== src/Security/Memory.antt =====
-- `InMemoryTrustStore` of crates/omni-security/src/store.rs keeps the promises of the port.
use omnipresent.Prelude.{refl, nat_eq}
use omnipresent.Prelude.Maps.{Map, get, insert, get-insert, get-remove}
use omnipresent.Prelude.Maps
use omnipresent.Prelude.Outcome.{Outcome, ok}
use omnipresent.Protocol.Ids.{PeerId, Fingerprint}
use omnipresent.Security.Policy.{AllowList, contains, contains-allow, contains-remove}
use omnipresent.Security.Policy
use omnipresent.Security.Authority.{TrustStore, IsLawful}

pub record InMemoryTrustStore : Type 0 where
  pub allowlist : AllowList
  pub pins : Map PeerId Fingerprint

abbrev allow : PeerId → InMemoryTrustStore → InMemoryTrustStore × Outcome ⊥ (Unit {0})
allow p s = (record s { allowlist = (Policy.allow p s.allowlist).0 }, ok tt)

abbrev remove_allowed : PeerId → InMemoryTrustStore → InMemoryTrustStore × Outcome ⊥ (Unit {0})
remove_allowed p s = (record s { allowlist = (Policy.remove p s.allowlist).0 }, ok tt)

abbrev pin : PeerId → Fingerprint → InMemoryTrustStore → InMemoryTrustStore × Outcome ⊥ (Unit {0})
pin p f s = (record s { pins = insert p f s.pins }, ok tt)

abbrev unpin : PeerId → InMemoryTrustStore → InMemoryTrustStore × Outcome ⊥ (Unit {0})
unpin p s = (record s { pins = Maps.remove p s.pins }, ok tt)

abbrev pub memory_store : TrustStore InMemoryTrustStore ⊥
memory_store = record {
  allowlist = λ s. ok s.allowlist;
  pinned = λ s p. ok (get p s.pins);
  allow = allow;
  remove_allowed = remove_allowed;
  pin = pin;
  unpin = unpin;
}

-- The in-memory store keeps every promise of the port: reads show what it holds, and each write
-- changes the entry that it names and no other.
pub memory_store-IsLawful : IsLawful memory_store
memory_store-IsLawful = record {
  allows = λ s p. contains s.allowlist p;
  pins = λ s p. get p s.pins;
  reads_allowed = λ s. (s.allowlist, refl, λ p. refl);
  reads_pinned = λ s p. refl;
  allow_lem = λ p s h. (λ q. contains-allow p q s.allowlist, λ q. refl);
  remove_lem = λ p s h. (λ q. contains-remove p q s.allowlist, λ q. refl);
  pin_lem = λ p f s h. (λ q. refl, λ q. get-insert p q f s.pins);
  unpin_lem = λ p s h. (λ q. refl, λ q. get-remove p q s.pins);
}
