-- ===== src/Runtime/Daemon/Sending.antt =====
-- crates/omni-runtime/src/daemon.rs: the task that sends clipboard payloads to one peer
-- (`run_clipboard_sender`), and what the task of a peer (`run_peer`) does with the commands that it
-- is given. Whether a message goes out is a parameter, which may depend on those before it.
pub mod Orders
use omnipresent.Prelude.{Bool, true, false, List, [], ◌∷◌, ◌++◌, if◌then◌else◌, ◌==◌, nat_eq, not}
use omnipresent.Protocol.Clipboard.{ClipboardData}
use omnipresent.Protocol.Ids.{SessionId}
use omnipresent.Protocol.Input.{InputEvent}
use omnipresent.Protocol.Control
use omnipresent.Protocol.Control.{ControlMessage, cursor_warp}
use omnipresent.Runtime.Daemon.{
  PeerCommand, input, warp, cursor_returned, clipboard, disconnect, Daemon, inject,
}
use omnipresent.Runtime.Daemon.Batches.{coalesce_motion}

-- `run_clipboard_sender`, until the channel is closed: the payloads that were tried, those before
-- being given. It ends because the channel was closed or a payload did not go out.
unfoldable pub run_clipboard_sender :
    (List ClipboardData → ClipboardData → Bool)
    → List ClipboardData
    → List ClipboardData
    → List ClipboardData
run_clipboard_sender send before [] = before
run_clipboard_sender send before (payload ∷ payloads) =
    let tried = before ++ (payload ∷ []) in
    let rest = run_clipboard_sender send tried payloads in
    if send before payload then rest else tried

-- What a task of a peer has sent: input in datagrams, control messages, and the payloads that it
-- handed to the clipboard sender, in one sequence.
pub data Sent : Type 0 where
  datagram : SessionId → InputEvent → Sent
  signal : ControlMessage → Sent
  bulk : ClipboardData → Sent

-- Whether the control stream, or the clipboard sender, takes a message. A datagram that is not sent
-- is only logged.
abbrev pub Takes : Type 0
Takes = List Sent → Sent → Bool

-- Something is sent whose failure ends the task: what was sent, and whether the task goes on.
abbrev pub attempt : Takes → Sent → List Sent → List Sent × Bool
attempt takes m sent = if takes sent m then (sent ++ (m ∷ []), true) else (sent, false)

abbrev pub try_sent : Takes → Sent → List Sent → List Sent
try_sent takes m sent = (attempt takes m sent).0

-- One round of the loop over a batch.
unfoldable pub send_command : Takes → SessionId → PeerCommand → List Sent → List Sent × Bool
send_command takes session (input e) sent = (try_sent takes (datagram session e) sent, true)
send_command takes session (warp x y) sent = attempt takes (signal (cursor_warp session x y)) sent
send_command takes session (cursor_returned x y) sent =
    attempt takes (signal (Control.cursor_returned session x y)) sent
send_command takes session (clipboard payload) sent = attempt takes (bulk payload) sent
send_command takes session disconnect sent =
    (try_sent takes (signal (Control.disconnect session)) sent, false)

unfoldable pub send_commands : Takes → SessionId → List PeerCommand → List Sent → List Sent × Bool
send_commands takes session [] sent = (sent, true)
send_commands takes session (c ∷ cs) sent =
    let r = send_command takes session c sent in
    let rest = send_commands takes session cs r.0 in if r.1 then rest else r

-- The arm of `run_peer` for commands: the batch that was drained, collapsed and sent.
unfoldable pub send_batch : Takes → SessionId → List PeerCommand → List Sent → List Sent × Bool
send_batch takes session batch sent = send_commands takes session (coalesce_motion batch) sent

-- The arm of `run_peer` for an input datagram; whether the rate limiter allows it is an argument.
unfoldable pub on_input : SessionId → SessionId → Bool → InputEvent → Daemon → Daemon
on_input session claimed allowed event d =
    if not (claimed == session) then d else if not allowed then d else inject event d
