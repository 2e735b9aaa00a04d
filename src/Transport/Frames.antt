-- ===== src/Transport/Frames.antt =====
-- crates/omni-transport/src/quic.rs: the frames of the control stream and of a bulk stream, each a
-- length of four bytes and a payload. A stream is the list of the bytes that come through it before
-- it ends, and whether the peer finished it.
pub mod Whole
use omnipresent.Prelude.{
  ℕ, zero, suc, ◌+◌, ◌*◌, ◌/◌, ◌%◌, ◌^◌, Bool, true, false, Option, none, some, List, [], ◌∷◌, ◌++◌,
  ltb, if◌then◌else◌,
}
use omnipresent.Prelude.Lists.{length}
use omnipresent.Prelude.Outcome.{Outcome, ok, err, panic, ◌>>=◌}
use omnipresent.Protocol.Clipboard.{max_clipboard_bytes}
use omnipresent.Protocol.Wire.{Message, Bytes, Codec}

abbrev pub max_control_frame : ℕ
max_control_frame = 64 * 1024

abbrev pub max_bulk_frame : ℕ
max_bulk_frame = max_clipboard_bytes + 1024

-- The part of `QuicError` that framing brings about.
pub data QuicError : Type 0 where
  read codec : QuicError
  control_frame_too_large bulk_frame_too_large : ℕ → QuicError

-- `u32::to_be_bytes`
abbrev pub to_be_bytes : ℕ → Bytes
to_be_bytes n = (n / 16777216 % 256) ∷ (n / 65536 % 256) ∷ (n / 256 % 256) ∷ (n % 256) ∷ []

-- `read_exact`: so many bytes and what follows them, if there are so many.
abbrev pub read_exact : ℕ → Bytes → Option (Bytes × Bytes)
read_exact zero s = some ([], s)
read_exact (suc n) [] = none
read_exact (suc n) (b ∷ s) = elim (read_exact n s) [ none ↦ none | some r ↦ some (b ∷ r.0, r.1) ]

-- `u32::from_be_bytes`
abbrev pub from_be_bytes : Bytes → ℕ
from_be_bytes (a ∷ b ∷ c ∷ d ∷ []) = ((a * 256 + b) * 256 + c) * 256 + d
from_be_bytes _ = 0

-- `frame_len`
unfoldable pub frame_len : Bytes → ℕ → Outcome ℕ ℕ
frame_len header limit = let len = from_be_bytes header in if ltb limit len then err len else ok len

-- `u32::try_from`
abbrev pub fits_u32 : ℕ → Bool
fits_u32 n = ltb n (2 ^ 32)

abbrev framed : (ℕ → QuicError) → Bytes → Outcome QuicError Bytes
framed too_large payload =
    if fits_u32 (length payload)
    then ok (to_be_bytes (length payload) ++ payload)
    else err (too_large (length payload))

abbrev limited : Bytes → Outcome QuicError Bytes
limited payload =
    if ltb max_bulk_frame (length payload)
    then err (bulk_frame_too_large (length payload))
    else framed bulk_frame_too_large payload

abbrev encoded : Option Bytes → Outcome QuicError Bytes
encoded none = err codec
encoded (some payload) = ok payload

abbrev too_long : (ℕ → QuicError) → Outcome ℕ ℕ → Outcome QuicError ℕ
too_long e (ok n) = ok n
too_long e (err n) = err (e n)
too_long e panic = panic

abbrev wanted : Option (Bytes × Bytes) → Outcome QuicError (Bytes × Bytes)
wanted none = err read
wanted (some r) = ok r

abbrev understood : Option Message → Outcome QuicError Message
understood none = err codec
understood (some m) = ok m

module _ (c : Codec) where
  -- `ControlSender::send`: the bytes that it writes.
  unfoldable pub send_control : Message → Outcome QuicError Bytes
  send_control m = encoded (c.encode m) >>= framed control_frame_too_large

  -- `BulkSender::send`: the bytes of its stream.
  unfoldable pub send_bulk : Message → Outcome QuicError Bytes
  send_bulk m = encoded (c.encode m) >>= limited

  -- The frame from its header on: the message and what follows it.
  abbrev pub read_frame : (ℕ → QuicError) → ℕ → Bytes × Bytes → Outcome QuicError (Message × Bytes)
  read_frame too_large limit (header, s) =
      too_long too_large (frame_len header limit)
      >>= (λ len. wanted (read_exact len s))
      >>= (λ r. understood (c.decode r.0) >>= λ m. ok (m, r.1))

  -- `ControlReceiver::recv`: a message and what follows it, or nothing at the end of a stream that
  -- the peer finished.
  unfoldable pub recv_control : Bytes → Bool → Outcome QuicError (Option (Message × Bytes))
  unfolding frame_len
  recv_control [] true = ok none
  recv_control [] false = err read
  recv_control (b ∷ s) finished =
      wanted (read_exact 4 (b ∷ s))
      >>= read_frame control_frame_too_large max_control_frame
      >>= λ r. ok (some r)

  -- `read_bulk_frame`
  unfoldable pub read_bulk_frame : Bytes → Outcome QuicError Message
  unfolding frame_len
  read_bulk_frame s =
      wanted (read_exact 4 s) >>= read_frame bulk_frame_too_large max_bulk_frame >>= λ r. ok r.0
