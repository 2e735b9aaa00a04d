-- ===== src/Runtime/Daemon/Peer.antt =====
-- crates/omni-runtime/src/daemon.rs, `run_peer`: the task of one peer's session, as a loop over the
-- arms of its `select!` in the order in which they are taken, with what other tasks do in between.
-- Times are in milliseconds. The batch that is drained from the channel, what the rate limiter
-- allows, the messages that are taken by a stream and the clipboard of the operating system are
-- arguments.
pub mod Ended
pub mod Silent
use omnipresent.Prelude.{
  ℕ, ◌+◌, ◌==◌, Bool, true, false, Option, none, some, List, [], ◌∷◌, leb, not, nat_eq,
}
use omnipresent.Prelude.Outcome.{Outcome, ok, err, panic, ◌>>=◌}
use omnipresent.Protocol.Ids.{MachineId, SessionId}
use omnipresent.Protocol.Input.{InputEvent}
use omnipresent.Protocol.Control
use omnipresent.Protocol.Control.{ControlMessage, heartbeat}
use omnipresent.Protocol.Clipboard.{ClipboardData}
use omnipresent.Clipboard.{Port, ClipboardManager, handle_remote_update}
use omnipresent.Runtime.Daemon.{Daemon, PeerCommand}
use omnipresent.Runtime.Daemon.Handover.{on_signal, cleanup_peer}
use omnipresent.Runtime.Daemon.Sending.{
  Sent, signal, Takes, attempt, try_sent, send_batch, on_input,
}
use omnipresent.Runtime.Daemon.History.{Happening, step}

-- `HEARTBEAT_TIMEOUT`
abbrev pub heartbeat_timeout : ℕ
heartbeat_timeout = 8000

-- What `recv_async` gives: input of the session that it claims, with whether the rate limiter
-- allows it, another message, the end of the connection, or one of two errors.
pub data Incoming : Type 0 where
  input_came : SessionId → Bool → InputEvent → Incoming
  other_came undecodable channel_closed channel_failed : Incoming

-- What the control stream gives.
pub data Signalling : Type 0 where
  control_came : ControlMessage → Signalling
  no_control finished broken : Signalling

-- What the bulk streams give.
pub data Payload : Type 0 where
  clipboard_came : ClipboardData → Payload
  no_clipboard closed : Payload

-- The arms, the two last being a look at the timer of `liveness`, which does nothing before the
-- deadline, and something that another task does.
pub data Arm : Type 0 where
  commanded : List PeerCommand → Arm
  abandoned : Arm
  incoming : Incoming → Arm
  signalling : Signalling → Arm
  payload : Payload → Arm
  ticked looked : Arm
  meanwhile : Happening → Arm

-- The task and what it shares: `sent` is what it has sent, and `deadline` its variable.
pub record Peer (C : Type 0) : Type 0 where
  pub daemon : Daemon
  pub manager : ClipboardManager C
  pub sent : List Sent
  pub deadline : ℕ

-- The task when the loop is entered.
abbrev pub entered : {C : Type 0} → ℕ → ClipboardManager C → Daemon → Peer C
entered now m d = record { daemon = d; manager = m; sent = []; deadline = now + heartbeat_timeout }

-- A sign of life puts the deadline off.
abbrev pub put_off : {C : Type 0} → ℕ → Peer C → Peer C
put_off now p = record p { deadline = now + heartbeat_timeout }

abbrev with_daemon : {C : Type 0} → Peer C → Outcome ⊥ Daemon → Outcome ⊥ (Peer C × Bool)
with_daemon p (ok d) = ok (record p { daemon = d }, true)
with_daemon p (err e) = err e
with_daemon p panic = panic

abbrev with_sent : {C : Type 0} → Peer C → List Sent × Bool → Peer C × Bool
with_sent p r = (record p { sent = r.0 }, r.1)

module _ {C : Type 0} (port : Port C) (takes : Takes) (session : SessionId)
    (machine : MachineId) where
  abbrev pub on_incoming : Incoming → Peer C → Peer C × Bool
  on_incoming (input_came claimed allowed e) p =
      (record p { daemon = on_input session claimed allowed e p.daemon }, true)
  on_incoming other_came p = (p, true)
  on_incoming undecodable p = (p, true)
  on_incoming channel_closed p = (p, false)
  on_incoming channel_failed p = (p, false)

  abbrev pub on_signalling : Signalling → Peer C → Peer C × Bool
  on_signalling (control_came c) p =
      let r = on_signal session machine c p.daemon in (record p { daemon = r.0 }, r.1)
  on_signalling no_control p = (p, true)
  on_signalling finished p = (p, false)
  on_signalling broken p = (p, false)

  -- An error of the clipboard is only logged.
  abbrev pub on_payload : ℕ → Payload → Peer C → Peer C × Bool
  on_payload now (clipboard_came d) p =
      (put_off now (record p { manager = (handle_remote_update port d p.manager).0 }), true)
  on_payload now no_clipboard p = (p, true)
  on_payload now closed p = (p, false)

  -- One arm: what it does, and whether the loop goes on.
  unfoldable pub arm : ℕ → Arm → Peer C → Outcome ⊥ (Peer C × Bool)
  unfolding send_batch on_input on_signal handle_remote_update step
  arm now (commanded batch) p = ok (with_sent p (send_batch takes session batch p.sent))
  arm now abandoned p =
      ok (record p { sent = try_sent takes (signal (Control.disconnect session)) p.sent }, false)
  arm now (incoming i) p = ok (on_incoming i (put_off now p))
  arm now (signalling s) p = ok (on_signalling s (put_off now p))
  arm now (payload d) p = ok (on_payload now d p)
  arm now ticked p = ok (with_sent p (attempt takes (signal (heartbeat session)) p.sent))
  arm now looked p = ok (p, not (leb p.deadline now))
  arm now (meanwhile h) p = with_daemon p (step h p.daemon)

  -- What follows an arm: the rest of the loop, or the end of the session.
  abbrev pub unless_left :
      (Peer C → Outcome ⊥ (Peer C × Bool)) → Peer C × Bool → Outcome ⊥ (Peer C × Bool)
  unless_left rest (p, true) = rest p
  unless_left rest (p, false) = ok (record p { daemon = cleanup_peer machine p.daemon }, true)

  -- The loop over the arms that are taken, each with its time, and whether it was left.
  unfoldable pub run_peer : List (ℕ × Arm) → Peer C → Outcome ⊥ (Peer C × Bool)
  unfolding arm cleanup_peer
  run_peer [] p = ok (p, false)
  run_peer ((now, a) ∷ rest) p = arm now a p >>= unless_left (run_peer rest)
