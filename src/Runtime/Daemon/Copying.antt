-- ===== src/Runtime/Daemon/Copying.antt =====
-- crates/omni-runtime/src/daemon.rs, `broadcast_local_clipboard`: what this machine's clipboard
-- sends to the peers. Reading the clipboard is the parameter `Port`; the thread that reads it always
-- comes back, and the state of the daemon is locked only after that.
use omnipresent.Clipboard
use omnipresent.Clipboard.{Port, Reply, ClipboardManager, poll_local_change, handle_remote_update}
use omnipresent.Clipboard.Echo.{Gives, poll-handle-poll}
use omnipresent.Protocol.Clipboard.{ClipboardData}
use omnipresent.Runtime.Daemon.{Daemon, clipboard, send_all}
use omnipresent.Prelude.{Option, some, none, ◌≡◌, ◌++◌, map, refl, true}

-- What was read goes to all peers if it is news, and a failed read is ignored.
abbrev spread : Reply (Option ClipboardData) → Daemon → Daemon
spread (Clipboard.err e) d = d
spread (Clipboard.ok none) d = d
spread (Clipboard.ok (some payload)) d = send_all (clipboard payload) d

unfoldable pub broadcast_local_clipboard :
    {C : Type 0} → Port C → ClipboardManager C × Daemon → ClipboardManager C × Daemon
unfolding send_all
broadcast_local_clipboard port (m, d) = let r = poll_local_change port m in (r.0, spread r.1 d)

module _ {A B : Type 0} (port : Port A) (port' : Port B) where
  -- When a poll finds a new payload, the broadcast sends it to each linked peer once and sends
  -- nothing else. When a machine with sharing on takes it over, its write succeeds, and the clipboards
  -- of both machines, read again, give this very payload back, the next broadcast of either machine
  -- sends nothing.
  pub broadcast-handle-broadcast :
      (payload : ClipboardData) (m m' : ClipboardManager A) (n : ClipboardManager B) (c : B)
      (s t : Daemon)
      → Gives port payload m'.clipboard
      → Gives port' payload c
      → poll_local_change port m ≡ (m', Clipboard.ok (some payload))
      → n.enabled ≡ true
      → port'.write payload n.clipboard ≡ (c, Clipboard.ok tt)
      → let sent = broadcast_local_clipboard port (m, s) in
        let taken = handle_remote_update port' payload n in
        (sent.1.outbox ≡ s.outbox ++ map (λ e. (e.0, clipboard payload)) s.links)
        × (broadcast_local_clipboard port' (taken.0, t) ≡ (taken.0, t))
        × (broadcast_local_clipboard port sent ≡ sent)
  unfolding broadcast_local_clipboard send_all
  broadcast-handle-broadcast payload m m' n c s t again back h e w =
      let (o, p, q) = poll-handle-poll port port' payload m m' n c again back h e w in
      (
        rw (h, broadcast_local_clipboard) refl,
        rw (p, broadcast_local_clipboard) refl,
        rw (h, broadcast_local_clipboard, q) refl,
      )
