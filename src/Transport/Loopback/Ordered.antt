-- ===== src/Transport/Loopback/Ordered.antt =====
-- Messages on the channel in memory arrive in the order in which they were sent.
use omnipresent.Prelude.{ap, ◌≡◌, ℕ, zero, suc, Option, none, some, List, [], ◌∷◌, ◌++◌, refl}
use omnipresent.Prelude.Outcome.{Outcome, ok, ◌>>=◌}
use omnipresent.Protocol.Wire.{Message, Bytes, Codec, IsFaithful}
use omnipresent.Prelude.Lists.{length}
use mathlib.Core.List.{append-nil}
use omnipresent.Transport.Loopback.{
  TransportError, send, recv, Infallible, Queues, Side, side_a, side_b, loopback, pair,
}

abbrev pub other : Side → Side
other side_a = side_b
other side_b = side_a

-- The queues, with what is on its way from a side and what is on its way to it.
abbrev pub laid : Side → List Bytes → List Bytes → Queues
laid side_a away back = record { a_inbox = back; b_inbox = away }
laid side_b away back = record { a_inbox = away; b_inbox = back }

snoc-append : (p : Bytes) (away ps : List Bytes) → (away ++ p ∷ []) ++ ps ≡ away ++ p ∷ ps
snoc-append p [] ps = refl
snoc-append p (q ∷ away) ps = ap (λ l. q ∷ l) (snoc-append p away ps)

module _ (c : Codec) where
  -- Messages, and the datagrams in which they are encoded.
  pub data Encodes : List Message → List Bytes → Type 0 where
    no_more : Encodes [] []
    then :
        {m : Message} {payload : Bytes} {ms : List Message} {ps : List Bytes}
        → c.encode m ≡ some payload
        → Encodes ms ps
        → Encodes (m ∷ ms) (payload ∷ ps)

  unfoldable pub send_each :
      Side → List Message → Queues → Outcome (TransportError Infallible) Queues
  unfolding send loopback
  send_each side [] q = ok q
  send_each side (m ∷ ms) q = send c (loopback side) m q >>= send_each side ms

  -- So many polls.
  unfoldable pub polls :
      ℕ → Side → Queues → Outcome (TransportError Infallible) (List (Option Message) × Queues)
  unfolding recv loopback
  polls zero side q = ok ([], q)
  polls (suc n) side q =
      recv c (loopback side) q >>= λ r. polls n side r.1 >>= λ rest. ok (r.0 ∷ rest.0, rest.1)

  abbrev pub ending : List Message → List (Option Message)
  ending [] = none ∷ []
  ending (m ∷ ms) = some m ∷ ending ms

  sends :
      (side : Side) (ms : List Message) (ps away back : List Bytes)
      → Encodes ms ps
      → send_each side ms (laid side away back) ≡ ok (laid side (away ++ ps) back)
  unfolding send_each send loopback
  sends side_a [] _ away back no_more = rw (append-nil away) refl
  sends side_b [] _ away back no_more = rw (append-nil away) refl
  sends side_a (m ∷ ms) _ away back (then {payload = p} {ps = ps} e es) =
      rw (e, sends side_a ms ps (away ++ p ∷ []) back es, snoc-append p away ps) refl
  sends side_b (m ∷ ms) _ away back (then {payload = p} {ps = ps} e es) =
      rw (e, sends side_b ms ps (away ++ p ∷ []) back es, snoc-append p away ps) refl

  receives :
      (side : Side) (ms : List Message) (ps back : List Bytes)
      → IsFaithful c
      → Encodes ms ps
      → polls (suc (length ms)) (other side) (laid side ps back) ≡ ok (ending ms, laid side [] back)
  unfolding polls recv loopback
  receives side_a [] _ back f no_more = refl
  receives side_b [] _ back f no_more = refl
  receives side_a (m ∷ ms) _ back f (then {payload = p} {ps = ps} e es) =
      rw (f m p e, receives side_a ms ps back f es) refl
  receives side_b (m ∷ ms) _ back f (then {payload = p} {ps = ps} e es) =
      rw (f m p e, receives side_b ms ps back f es) refl

  -- Messages that are all encoded, by an encoding that can be undone, sent one after the other from
  -- one end of a fresh channel: every sending succeeds, the other end polls exactly them, in their
  -- order, and then nothing, and an end never receives what it sent itself.
  pub polls-send_each :
      (side : Side) (ms : List Message) (ps : List Bytes)
      → IsFaithful c
      → Encodes ms ps
      → (q : Queues) × (send_each side ms pair ≡ ok q)
        × (polls 1 side q ≡ ok (none ∷ [], q))
        × (polls (suc (length ms)) (other side) q ≡ ok (ending ms, pair))
  unfolding polls recv loopback
  polls-send_each side_a ms ps f es =
      (laid side_a ps [], sends side_a ms ps [] [] es, refl, receives side_a ms ps [] f es)
  polls-send_each side_b ms ps f es =
      (laid side_b ps [], sends side_b ms ps [] [] es, refl, receives side_b ms ps [] f es)
