-- ===== src/Examples/Frames.antt =====
-- Messages on streams and channels, under two small encodings, and the identity of a machine.
use omnipresent.Prelude.{
  sym, ◌^◌, ap, ◌≡◌, ◌≤◌, ◌<◌, ◌⊎◌, ◌==◌, ℕ, zero, suc, Option, none, some, [], ◌∷◌, ◌++◌, refl,
  subst, arith, true, list_eq, nat_eq,
}
use omnipresent.Prelude.Lists.{length}
use omnipresent.Prelude.Text.{codes}
use omnipresent.Prelude.Outcome.{ok, err}
use omnipresent.Protocol.Control.{
  connect_request, accept, reject, disconnect, cursor_warp, heartbeat, cursor_returned,
}
use omnipresent.Protocol.Wire.{Message, input, control, clipboard, Bytes, Codec, IsFaithful}
use omnipresent.Transport.Frames.{
  send_control, recv_control, send_bulk, read_bulk_frame, control_frame_too_large,
  bulk_frame_too_large, max_bulk_frame, max_control_frame,
}
use omnipresent.Transport.Frames.Whole.{
  send_all, recv_all, recv_all-send_all, recv-send_oversized, read_bulk_frame-send_bulk,
}
use omnipresent.Transport.Tls.{
  trust_policy, verify_server_cert, verify_client_cert, verdict, general, dns_name, ip_address,
  unsupported, verify_server_cert-accepted,
}
use omnipresent.Runtime.Trust.{accepted}
use omnipresent.Runtime.Identity.{
  Files, Making, missing, written, identity_of, generate_identity, load_or_generate,
  load_or_generate-load_or_generate,
}
use omnipresent.Examples.Peers.{zeros}
use omnipresent.Examples.Requests.{stranger, stranger-IsDigest, nobody}

abbrev beat : ℕ → Message
beat id = control (heartbeat id)

-- An encoding of heartbeats only.
abbrev encode_beat : Message → Option Bytes
encode_beat (control (heartbeat id)) = some (id ∷ [])
encode_beat _ = none

abbrev decode_beat : Bytes → Option Message
decode_beat (id ∷ []) = some (beat id)
decode_beat _ = none

abbrev beats : Codec
beats = record { encode = encode_beat; decode = decode_beat }

beats-IsFaithful : IsFaithful beats
beats-IsFaithful (input s e) bytes h = absurd (cc h)
beats-IsFaithful (clipboard d) bytes h = absurd (cc h)
beats-IsFaithful (control (connect_request m f z)) bytes h = absurd (cc h)
beats-IsFaithful (control (accept s m z)) bytes h = absurd (cc h)
beats-IsFaithful (control (reject r)) bytes h = absurd (cc h)
beats-IsFaithful (control (disconnect s)) bytes h = absurd (cc h)
beats-IsFaithful (control (cursor_warp s x y)) bytes h = absurd (cc h)
beats-IsFaithful (control (cursor_returned s x y)) bytes h = absurd (cc h)
beats-IsFaithful (control (heartbeat id)) bytes h =
    let e : id ∷ [] ≡ bytes = cc h in subst (λ b. decode_beat b ≡ some (beat id)) e refl

-- An encoding in many bytes.
abbrev padded : Codec
padded = record { encode = λ m. some (zeros 70000); decode = λ b. none }

length-zeros : (n : ℕ) → length (zeros n) ≡ n
length-zeros zero = refl
length-zeros (suc n) = ap suc (length-zeros n)

recv_all-send_all_example :
    (bytes : Bytes) × (send_all beats (beat 3 ∷ beat 200 ∷ []) ≡ ok bytes)
    × (recv_all beats 3 bytes ≡ ok (beat 3 ∷ beat 200 ∷ []))
recv_all-send_all_example =
    recv_all-send_all beats (beat 3 ∷ beat 200 ∷ []) beats-IsFaithful
      ((3 ∷ [], refl, omega arith), ((200 ∷ [], refl, omega arith), tt))

too_long : max_control_frame < length (zeros 70000)
too_long = rw (length-zeros 70000) (omega arith)

short_enough : length (zeros 70000) < 2 ^ 32
short_enough =
    let h : 70000 < 2 ^ 32 = omega arith in subst (λ n. n < 2 ^ 32) (sym (length-zeros 70000)) h

recv-send_oversized_example :
    (bytes : Bytes) × (send_control padded (beat 3) ≡ ok bytes)
    × (recv_control padded (bytes ++ []) true
        ≡ err (control_frame_too_large (length (zeros 70000))))
recv-send_oversized_example =
    recv-send_oversized padded (beat 3) (zeros 70000) [] true refl too_long short_enough

abbrev seven : Bytes
seven = 7 ∷ []

read_bulk_frame-send_bulk_example :
    ((length seven ≤ max_bulk_frame)
      × ((bytes : Bytes) × (send_bulk beats (beat 7) ≡ ok bytes)
          × (read_bulk_frame beats bytes ≡ ok (beat 7))))
    ⊎ ((max_bulk_frame < length seven)
        × (send_bulk beats (beat 7) ≡ err (bulk_frame_too_large (length seven))))
read_bulk_frame-send_bulk_example =
    read_bulk_frame-send_bulk beats (beat 7) seven beats-IsFaithful refl

-- The fingerprint of a certificate that is its own fingerprint.
abbrev itself : Bytes → Bytes
itself cert = cert

verify_server_cert-accepted_example :
    let policy = trust_policy (accepted stranger (some (codes "cafe")) nobody) in
    (verify_server_cert itself policy (1 ∷ []) (dns_name (codes "cafe"))
      ≡ verdict (stranger == (1 ∷ [])))
    × (verify_server_cert itself policy (1 ∷ []) (ip_address (codes "cafe"))
        ≡ verdict (stranger == (1 ∷ [])))
    × (verify_server_cert itself policy (1 ∷ []) unsupported ≡ err general)
    × (verify_client_cert itself policy (1 ∷ []) ≡ ok tt)
verify_server_cert-accepted_example =
    verify_server_cert-accepted itself stranger (codes "cafe") nobody (1 ∷ []) stranger-IsDigest

abbrev empty_dir : Files
empty_dir = record { certificate = missing; key = missing }

abbrev making : ℕ → Making
making n = record {
  made = some (n ∷ 1 ∷ [], n ∷ 2 ∷ []);
  certificate_write = written;
  key_write = written;
}

first_run :
    (load_or_generate itself (making 5) empty_dir).1
    ≡ ok (identity_of itself (5 ∷ 1 ∷ []) (5 ∷ 2 ∷ []))
unfolding load_or_generate generate_identity
first_run = refl

load_or_generate-load_or_generate_example :
    let files = (load_or_generate itself (making 5) empty_dir).0 in
    load_or_generate itself (making 6) files
    ≡ (files, ok (identity_of itself (5 ∷ 1 ∷ []) (5 ∷ 2 ∷ [])))
load_or_generate-load_or_generate_example =
    load_or_generate-load_or_generate itself (making 5) (making 6) empty_dir
      (identity_of itself (5 ∷ 1 ∷ []) (5 ∷ 2 ∷ [])) first_run
