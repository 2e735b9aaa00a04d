-- ===== src/Protocol/Ids.antt =====
-- crates/omni-protocol/src/ids.rs. An identifier is the number that it wraps, a fingerprint the
-- list of its bytes.
use omnipresent.Prelude.{ℕ, ◌<◌, ◌+◌, ◌/◌, ◌%◌, ◌≡◌, List, [], ◌∷◌, if◌then◌else◌, ltb}
use omnipresent.Prelude.Lists.{length, All}
use omnipresent.Prelude.Text.{Text}

abbrev pub MachineId : Type 0
MachineId = ℕ

abbrev pub PeerId : Type 0
PeerId = ℕ

abbrev pub SessionId : Type 0
SessionId = ℕ

abbrev pub Fingerprint : Type 0
Fingerprint = List ℕ

-- The type `[u8; 32]`: 32 numbers below 256.
abbrev pub IsDigest : Fingerprint → Type 0
IsDigest f = (length f ≡ 32) × All (λ b. b < 256) f

-- A digit of `{:x}`: `0` to `9`, then `a` to `f`.
unfoldable pub hex_digit : ℕ → ℕ
hex_digit d = if ltb d 10 then b'0' + d else 87 + d

-- `Display for Fingerprint`: two lowercase digits for each byte, `{byte:02x}`.
unfoldable pub to_hex : Fingerprint → Text
unfolding hex_digit
to_hex [] = []
to_hex (b ∷ f) = hex_digit (b / 16) ∷ hex_digit (b % 16) ∷ to_hex f
