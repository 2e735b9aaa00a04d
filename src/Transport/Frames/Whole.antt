-- ===== src/Transport/Frames/Whole.antt =====
-- What is sent in frames comes out of them.
use omnipresent.Prelude.{
  subst, ℕ, zero, suc, ◌^◌, ◌≤◌, ◌<◌, ◌≡◌, Bool, true, false, none, some, List, [], ◌∷◌, ◌++◌, ltb,
  refl, arith, inl, inr,
}
use omnipresent.Prelude.Lists.{length}
use native.Mathlib.Decide.{dec_lt}
use mathlib.Core.List.{append-nil}
use omnipresent.Prelude.Lists.{All}
use omnipresent.Prelude.{◌⊎◌}
use omnipresent.Transport.Frames.{read_frame}
use omnipresent.Prelude.Outcome.{Outcome, ok, err, ◌>>=◌}
use omnipresent.Protocol.Wire.{Message, Bytes, Codec, IsFaithful}
use omnipresent.Transport.Frames.{
  QuicError, control_frame_too_large, bulk_frame_too_large, max_control_frame, max_bulk_frame,
  to_be_bytes, from_be_bytes, read_exact, frame_len, send_control, send_bulk, recv_control,
  read_bulk_frame, wanted,
}

from_be_bytes-to_be_bytes : (n : ℕ) → n < 2 ^ 32 → from_be_bytes (to_be_bytes n) ≡ n
from_be_bytes-to_be_bytes n h = omega arith

read_exact-append : (p s : Bytes) → read_exact (length p) (p ++ s) ≡ some (p, s)
read_exact-append [] s = refl
read_exact-append (b ∷ p) s = rw (read_exact-append p s) refl

-- The header of a frame that is not too long.
header_of : (n limit : ℕ) → n < 2 ^ 32 → n ≤ limit → frame_len (to_be_bytes n) limit ≡ ok n
unfolding frame_len
header_of n limit h k = rw (from_be_bytes-to_be_bytes n h) (ground arith)

-- And of one that is.
header_over : (n limit : ℕ) → n < 2 ^ 32 → limit < n → frame_len (to_be_bytes n) limit ≡ err n
unfolding frame_len
header_over n limit h k = rw (from_be_bytes-to_be_bytes n h) (ground arith)

module _ (c : Codec) where
  read_frame_whole :
      (too_large : ℕ → QuicError) (limit : ℕ) (m : Message) (payload rest : Bytes)
      → c.decode payload ≡ some m
      → length payload < 2 ^ 32
      → length payload ≤ limit
      → read_frame c too_large limit (to_be_bytes (length payload), payload ++ rest) ≡ ok (m, rest)
  read_frame_whole too_large limit m payload rest d h k =
      rw (header_of (length payload) limit h k, read_exact-append payload rest, d) refl

  -- A control message that is encoded in at most 64 KiB is sent, and whatever follows it on the
  -- stream, it is what is received next.
  recv-send :
      (m : Message) (payload rest : Bytes) (finished : Bool)
      → IsFaithful c
      → c.encode m ≡ some payload
      → length payload ≤ max_control_frame
      → (send_control c m ≡ ok (to_be_bytes (length payload) ++ payload))
        × (recv_control c ((to_be_bytes (length payload) ++ payload) ++ rest) finished
            ≡ ok (some (m, rest)))
  unfolding send_control recv_control
  recv-send m payload rest finished f e h =
      let fits : ltb (length payload) (2 ^ 32) ≡ true = ground arith in
      (
        rw (e, fits) refl,
        rw
            (read_frame_whole control_frame_too_large max_control_frame m payload rest
              (f m payload e) (omega arith) h)
            refl,
      )

  -- Some messages one after the other, and the stream read until the peer has finished it, with one
  -- message for each unit of fuel.
  unfoldable pub send_all : List Message → Outcome QuicError Bytes
  unfolding send_control
  send_all [] = ok []
  send_all (m ∷ ms) = send_control c m >>= λ b. send_all ms >>= λ bs. ok (b ++ bs)

  unfoldable pub recv_all : ℕ → Bytes → Outcome QuicError (List Message)
  unfolding recv_control
  recv_all zero s = ok []
  recv_all (suc n) s = recv_control c s true >>= λ o. elim o [
    | none ↦ ok []
    | some r ↦ recv_all n r.1 >>= λ ms. ok (r.0 ∷ ms)
  ]

  -- A message that is encoded in at most 64 KiB.
  abbrev pub IsShort : Message → Type 0
  IsShort m = (payload : Bytes) × (c.encode m ≡ some payload) × (length payload ≤ max_control_frame)

  -- Control messages, each encoded in at most 64 KiB, by an encoding that can be undone: all can be
  -- sent on the control stream, and the other end receives exactly them, in their order, and then
  -- the end of the stream.
  pub recv_all-send_all :
      (ms : List Message)
      → IsFaithful c
      → All IsShort ms
      → (bytes : Bytes) × (send_all ms ≡ ok bytes) × (recv_all (suc (length ms)) bytes ≡ ok ms)
  unfolding send_all recv_all
  recv_all-send_all [] f h = ([], refl, refl)
  recv_all-send_all (m ∷ ms) f ((payload, e, k), h) =
      let (bytes, p, q) = recv_all-send_all ms f h in
      let (s, r) = recv-send m payload bytes true f e k in
      ((to_be_bytes (length payload) ++ payload) ++ bytes, rw (s, p) refl, rw (r, q) refl)

  -- Where the two directions disagree: a control message that is encoded in more than 64 KiB, and
  -- less than 4 GiB, is sent without an error, and refused by the machine that receives it.
  pub recv-send_oversized :
      (m : Message) (payload rest : Bytes) (finished : Bool)
      → c.encode m ≡ some payload
      → max_control_frame < length payload
      → length payload < 2 ^ 32
      → (bytes : Bytes) × (send_control c m ≡ ok bytes)
        × (recv_control c (bytes ++ rest) finished ≡ err (control_frame_too_large (length payload)))
  unfolding send_control recv_control
  recv-send_oversized m payload rest finished e h k =
      let fits : ltb (length payload) (2 ^ 32) ≡ true = ground arith in
      (
        to_be_bytes (length payload) ++ payload,
        rw (e, fits) refl,
        rw (header_over (length payload) max_control_frame k h) refl,
      )

  -- A payload on a stream of its own, encoded by an encoding that can be undone: when it takes no
  -- more than a full clipboard and 1 KiB it is sent and received whole, and when it takes more it is
  -- refused before anything is sent.
  pub read_bulk_frame-send_bulk :
      (m : Message) (payload : Bytes)
      → IsFaithful c
      → c.encode m ≡ some payload
      → ((length payload ≤ max_bulk_frame)
          × ((bytes : Bytes) × (send_bulk c m ≡ ok bytes) × (read_bulk_frame c bytes ≡ ok m)))
        ⊎ ((max_bulk_frame < length payload)
            × (send_bulk c m ≡ err (bulk_frame_too_large (length payload))))
  unfolding send_bulk read_bulk_frame
  read_bulk_frame-send_bulk m payload f e = elim (dec_lt max_bulk_frame (length payload)) [
    | yes h ↦
        let over : ltb max_bulk_frame (length payload) ≡ true = ground arith in
        inr (h, rw (e, over) refl)
    | no h ↦
        let short : ltb max_bulk_frame (length payload) ≡ false = ground arith in
        let fits : ltb (length payload) (2 ^ 32) ≡ true = ground arith in
        let whole =
          read_frame_whole bulk_frame_too_large max_bulk_frame m payload [] (f m payload e)
            (omega arith) (omega arith) in
        inl (
          omega arith,
          (
            to_be_bytes (length payload) ++ payload,
            rw (e, short, fits) refl,
            subst
                (λ p.
                  (wanted (read_exact 4 (to_be_bytes (length payload) ++ p))
                    >>= read_frame c bulk_frame_too_large max_bulk_frame
                    >>= λ r. ok r.0)
                  ≡ ok m)
                (append-nil payload) (rw whole refl),
          ),
        )
  ]
