-- ===== src/Protocol/Control.antt =====
-- crates/omni-protocol/src/control.rs: the signalling between two machines.
use omnipresent.Prelude.{ℕ}
use omnipresent.Prelude.Int.{ℤ}
use omnipresent.Protocol.Ids.{MachineId, SessionId, Fingerprint}

pub record ScreenSize : Type 0 where
  pub width : ℕ
  pub height : ℕ

pub data RejectReason : Type 0 where
  not_allowed fingerprint_changed declined busy : RejectReason

pub data ControlMessage : Type 0 where
  connect_request : MachineId → Fingerprint → ScreenSize → ControlMessage
  accept : SessionId → MachineId → ScreenSize → ControlMessage
  reject : RejectReason → ControlMessage
  disconnect : SessionId → ControlMessage
  cursor_warp : SessionId → ℤ → ℤ → ControlMessage
  heartbeat : SessionId → ControlMessage
  cursor_returned : SessionId → ℤ → ℤ → ControlMessage
