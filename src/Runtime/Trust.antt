-- ===== src/Runtime/Trust.antt =====
-- crates/omni-runtime/src/trust.rs: the peers that the daemon remembers, and the decisions over
-- them. Texts are bytes. Writing the file to disk is a parameter: what `save` reports.
pub mod Hex
pub mod Pins
pub mod Inbound
pub mod Accepting
use omnipresent.Prelude.{
  ℕ, zero, suc, ◌+◌, ◌-◌, ◌*◌, Bool, true, false, ◌&&◌, ◌||◌, not, Option, none, some, List, [],
  ◌∷◌, ◌++◌, leb, ◌==◌, nat_eq, list_eq, if◌then◌else◌, is_some,
}
use mathlib.Core.List.{reverse}
use omnipresent.Prelude.Lists.{length, find, retain, filter_map, starts_with}
use omnipresent.Prelude.Outcome.{Outcome, ok, err}
use omnipresent.Prelude.Text.{Text}
use omnipresent.Protocol.Ids.{PeerId, MachineId, Fingerprint, to_hex}
use omnipresent.Security.Policy.{
  AllowList, PeerIdentity, TrustDecision, evaluate, is_trusted, empty_allowlist, allow,
}

pub record PeerRecord : Type 0 where
  pub host : Option Text
  pub fingerprint : Text

pub record TrustFile : Type 0 where
  pub peers : List PeerRecord

abbrev be_bytes : ℕ → ℕ → Fingerprint → ℕ
be_bytes zero acc f = acc
be_bytes (suc n) acc [] = acc
be_bytes (suc n) acc (b ∷ f) = be_bytes n (acc * 256 + b) f

-- `peer_id_of`: the first eight bytes, as a big-endian number.
unfoldable pub peer_id_of : Fingerprint → PeerId
peer_id_of f = be_bytes 8 0 f

-- `machine_id_of` of crates/omni-runtime/src/daemon.rs
unfoldable pub machine_id_of : Fingerprint → MachineId
unfolding peer_id_of
machine_id_of f = peer_id_of f

-- `fingerprint_hex`
unfoldable pub fingerprint_hex : Fingerprint → Text
fingerprint_hex f = to_hex f

-- A digit of a number to the base 16.
unfoldable pub hex_value : ℕ → Option ℕ
hex_value c =
    if leb b'0' c && leb c b'9'
    then some (c - 48)
    else if leb b'a' c && leb c b'f'
    then some (c - 87)
    else if leb b'A' c && leb c b'F'
    then some (c - 55)
    else none

abbrev both_digits : Option ℕ → Option ℕ → Option ℕ
both_digits none q = none
both_digits (some h) none = none
both_digits (some h) (some l) = some (16 * h + l)

-- `u8::from_str_radix(s, 16)` on two characters; a leading `+` is a sign.
unfoldable pub from_str_radix : ℕ → ℕ → Option ℕ
unfolding hex_value
from_str_radix a b = if a == b'+' then hex_value b else both_digits (hex_value a) (hex_value b)

abbrev cons_byte : Option ℕ → Option Fingerprint → Option Fingerprint
cons_byte none f = none
cons_byte (some b) none = none
cons_byte (some b) (some f) = some (b ∷ f)

-- The loop over `chunks(2)`. A text of 64 bytes has no odd one left over.
unfoldable pub parse_chunks : Text → Option Fingerprint
unfolding from_str_radix
parse_chunks [] = some []
parse_chunks (a ∷ []) = none
parse_chunks (a ∷ b ∷ s) = cons_byte (from_str_radix a b) (parse_chunks s)

unfoldable pub parse_fingerprint : Text → Option Fingerprint
parse_fingerprint s = if length s == 64 then parse_chunks s else none

-- `record.host.as_deref() == Some(host)`
abbrev pub host_is : Text → PeerRecord → Bool
host_is host r = elim r.host [ none ↦ false | some h ↦ h == host ]

abbrev pub mem_host : Text → List Text → Bool
mem_host h [] = false
mem_host h (k ∷ ks) = k == h || mem_host h ks

-- The filter of `dedup_host_pins`, newest first: `seen` holds the hosts met so far.
unfoldable pub newest_pins : List Text → List PeerRecord → List PeerRecord
newest_pins seen [] = []
newest_pins seen (r ∷ rs) = elim r.host [
  | none ↦ r ∷ newest_pins seen rs
  | some h ↦
      let older = newest_pins seen rs in
      let kept = r ∷ newest_pins (h ∷ seen) rs in if mem_host h seen then older else kept
]

-- `dedup_host_pins`: the list that is kept, and whether anything was dropped.
unfoldable pub dedup_host_pins : List PeerRecord → List PeerRecord × Bool
dedup_host_pins peers =
    let kept = reverse (newest_pins [] (reverse peers)) in (kept, not (length kept == length peers))

-- The first record with the fingerprint gets the host, if one is given.
unfoldable pub set_host : Text → Option Text → List PeerRecord → List PeerRecord
set_host hex host [] = []
set_host hex host (r ∷ rs) =
    let rest = set_host hex host rs in
    if r.fingerprint == hex
    then elim host [ none ↦ r | some h ↦ record r { host = some h } ] ∷ rs
    else r ∷ rest

abbrev pub knows_hex : Text → List PeerRecord → Bool
knows_hex hex rs = is_some (find (λ r. r.fingerprint == hex) rs)

-- The `retain` of `accept`, where a host is given.
abbrev pub drop_stale : Text → Option Text → List PeerRecord → List PeerRecord
drop_stale hex none rs = rs
drop_stale hex (some h) rs = retain (λ r. r.fingerprint == hex || not (host_is h r)) rs

-- The change that `accept` makes to the file.
unfoldable pub accepted : Fingerprint → Option Text → TrustFile → TrustFile
unfolding set_host
accepted f host file =
    let hex = fingerprint_hex f in
    let rs = drop_stale hex host file.peers in
    if knows_hex hex rs
    then record { peers = set_host hex host rs }
    else record { peers = rs ++ (record { host = host; fingerprint = hex } ∷ []) }

-- `TrustState::pinned_for_host`
unfoldable pub pinned_for_host : Text → TrustFile → Option Fingerprint
pinned_for_host host file = elim (find (host_is host) file.peers) [
  | none ↦ none
  | some r ↦ parse_fingerprint r.fingerprint
]

-- `MemStore::allowlist` and `MemStore::pinned`: a record that does not parse is passed over.
abbrev pub digests : List PeerRecord → List Fingerprint
digests = filter_map (λ r. parse_fingerprint r.fingerprint)

abbrev pub allow_all : List Fingerprint → AllowList → AllowList
allow_all [] l = l
allow_all (f ∷ fs) l = allow_all fs (allow (peer_id_of f) l).0

unfoldable pub mem_allowlist : TrustFile → AllowList
mem_allowlist file = allow_all (digests file.peers) empty_allowlist

unfoldable pub mem_pinned : PeerId → TrustFile → Option Fingerprint
mem_pinned p file = find (λ f. peer_id_of f == p) (digests file.peers)

-- `TrustState::decide_inbound`
unfoldable pub decide_inbound : Fingerprint → TrustFile → TrustDecision
unfolding mem_allowlist mem_pinned
decide_inbound f file =
    let p = peer_id_of f in
    evaluate (mem_allowlist file) (mem_pinned p file) (record { peer = p; fingerprint = f })

unfoldable pub is_trusted_in : Fingerprint → TrustFile → Bool
unfolding decide_inbound
is_trusted_in f file = is_trusted (decide_inbound f file)

-- The selector names the record by its host or by the beginning of its fingerprint.
abbrev pub selects : Text → PeerRecord → Bool
selects selector r = host_is selector r || starts_with r.fingerprint selector

-- `HandshakePolicy::authorize_server`: whether the dialed host may present the fingerprint.
unfoldable pub authorize_server : Text → Fingerprint → TrustFile → Bool
unfolding pinned_for_host
authorize_server host f file = elim (pinned_for_host host file) [
  | none ↦ true
  | some pinned ↦ pinned == f
]

module _ {E : Type 0} (save : TrustFile → Outcome E (Unit {0})) where
  -- `TrustState::accept`
  unfoldable pub accept : Fingerprint → Option Text → TrustFile → TrustFile × Outcome E (Unit {0})
  unfolding accepted
  accept f host file = let file' = accepted f host file in (file', save file')

  -- `TrustState::remove`
  unfoldable pub remove : Text → TrustFile → TrustFile × Outcome E Bool
  remove selector file =
      let rs = retain (λ r. not (selects selector r)) file.peers in
      let file' : TrustFile = record { peers = rs } in
      if length rs == length file.peers then (file', ok false) else (
        file',
        elim (save file') [ ok u ↦ ok true | err e ↦ err e | Outcome.panic ↦ Outcome.panic ],
      )
