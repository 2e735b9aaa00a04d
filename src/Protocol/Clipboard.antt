-- ===== src/Protocol/Clipboard.antt =====
-- crates/omni-protocol/src/clipboard.rs: clipboard payloads and their validation, for a `usize` of
-- 64 bits. The text of an error message is left out.
use omnipresent.Prelude.{
  nat_eq, ℕ, ◌*◌, ◌^◌, Bool, false, Option, none, some, List, if◌then◌else◌, ltb, not, ◌==◌,
}
use omnipresent.Prelude.Lists.{length}
use omnipresent.Prelude.Text.{Text}

abbrev pub max_clipboard_bytes : ℕ
max_clipboard_bytes = 64 * 1024 * 1024

pub record ClipboardImage : Type 0 where
  pub width : ℕ
  pub height : ℕ
  pub bytes : List ℕ

pub data ClipboardData : Type 0 where
  text : Text → ClipboardData
  image : ClipboardImage → ClipboardData

pub data Validation : Type 0 where
  valid : Validation
  size_mismatch too_large : Validation

-- `usize::checked_mul`
abbrev pub checked_mul : ℕ → ℕ → Option ℕ
checked_mul a b = if ltb (a * b) (2 ^ 64) then some (a * b) else none

abbrev pub and_then_mul : Option ℕ → ℕ → Option ℕ
and_then_mul none b = none
and_then_mul (some a) b = checked_mul a b

abbrev pub is_size : ℕ → Option ℕ → Bool
is_size n none = false
is_size n (some m) = n == m

-- `ClipboardImage::validate`
unfoldable pub validate_image : ClipboardImage → Validation
validate_image i =
    if not (is_size (length i.bytes) (and_then_mul (checked_mul i.width i.height) 4))
    then size_mismatch
    else if ltb max_clipboard_bytes (length i.bytes)
    then too_large
    else valid

-- `ClipboardData::validate`
unfoldable pub validate : ClipboardData → Validation
unfolding validate_image
validate (text t) = if ltb max_clipboard_bytes (length t) then too_large else valid
validate (image i) = validate_image i
