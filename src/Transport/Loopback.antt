-- ===== src/Transport/Loopback.antt =====
-- crates/omni-transport/src/transport.rs and channel.rs: messages as datagrams on a channel, and the
-- channel of two queues in memory. The encoding of a message is an external library's.
pub mod Ordered
use omnipresent.Prelude.{◌≡◌, Option, none, some, List, [], ◌∷◌, ◌++◌}
use omnipresent.Prelude.Outcome.{Outcome, ok, err, panic, ◌>>=◌}
use omnipresent.Protocol.Wire.{Message, Bytes, Codec}

-- The `SecureChannel` port, over the state `S` of a channel. Its peer is left out.
pub record SecureChannel (S E : Type 0) : Type 0 where
  pub send_datagram : Bytes → S → Outcome E S
  pub recv_datagram : S → Outcome E (Option Bytes × S)

pub data TransportError (E : Type 0) : Type 0 where
  channel : E → TransportError E
  codec : TransportError E

abbrev pub by_channel : {A E : Type 0} → Outcome E A → Outcome (TransportError E) A
by_channel (ok x) = ok x
by_channel (err e) = err (channel e)
by_channel panic = panic

abbrev pub by_codec : {A E : Type 0} → Option A → Outcome (TransportError E) A
by_codec none = err codec
by_codec (some x) = ok x

-- A `Transport` is the state of its channel.
module _ {S E : Type 0} (c : Codec) (port : SecureChannel S E) where
  -- `Transport::send`
  unfoldable pub send : Message → S → Outcome (TransportError E) S
  send m s = by_codec (c.encode m) >>= λ payload. by_channel (port.send_datagram payload s)

  abbrev decoded : Option Bytes × S → Outcome (TransportError E) (Option Message × S)
  decoded (none, s) = ok (none, s)
  decoded (some payload, s) = by_codec (c.decode payload) >>= λ m. ok (some m, s)

  -- `Transport::recv`
  unfoldable pub recv : S → Outcome (TransportError E) (Option Message × S)
  recv s = by_channel (port.recv_datagram s) >>= decoded

-- `Infallible`
pub data Infallible : Type 0 where

-- The two queues that the two ends share, under the end that reads them.
pub record Queues : Type 0 where
  pub a_inbox : List Bytes
  pub b_inbox : List Bytes

pub data Side : Type 0 where
  side_a side_b : Side

abbrev pop_front : List Bytes → Option Bytes × List Bytes
pop_front [] = (none, [])
pop_front (p ∷ q) = (some p, q)

abbrev push : Side → Bytes → Queues → Queues
push side_a p q = record q { b_inbox = q.b_inbox ++ p ∷ [] }
push side_b p q = record q { a_inbox = q.a_inbox ++ p ∷ [] }

abbrev pop : Side → Queues → Option Bytes × Queues
pop side_a q = let r = pop_front q.a_inbox in (r.0, record q { a_inbox = r.1 })
pop side_b q = let r = pop_front q.b_inbox in (r.0, record q { b_inbox = r.1 })

-- `LoopbackChannel`, at each of its ends.
unfoldable pub loopback : Side → SecureChannel Queues Infallible
loopback side = record {
  send_datagram = λ payload q. ok (push side payload q);
  recv_datagram = λ q. ok (pop side q);
}

-- The queues of `LoopbackChannel::pair`
abbrev pub pair : Queues
pair = record { a_inbox = []; b_inbox = [] }
