-- ===== src/Protocol/Wire.antt =====
-- crates/omni-protocol/src/wire.rs: the messages, and what their encoding promises. The encoding
-- itself is an external library's.
use omnipresent.Prelude.{ℕ, ◌≡◌, List, Option, some}
use omnipresent.Protocol.Ids.{SessionId}
use omnipresent.Protocol.Input.{InputEvent}
use omnipresent.Protocol.Control.{ControlMessage}
use omnipresent.Protocol.Clipboard.{ClipboardData}

pub data Message : Type 0 where
  input : SessionId → InputEvent → Message
  control : ControlMessage → Message
  clipboard : ClipboardData → Message

abbrev pub Bytes : Type 0
Bytes = List ℕ

-- `encode` and `decode`, which give nothing for `Malformed`.
pub record Codec : Type 0 where
  pub encode : Message → Option Bytes
  pub decode : Bytes → Option Message

-- What is encoded is decoded to the same message.
abbrev pub IsFaithful : Codec → Type 0
IsFaithful c = (m : Message) (bytes : Bytes) → c.encode m ≡ some bytes → c.decode bytes ≡ some m
