-- ===== src/Runtime/Daemon/Sending/Orders.antt =====
-- What is sent, and in which order.
use omnipresent.Prelude.{
  ◌≡◌, ◌⊎◌, Bool, true, false, List, [], ◌∷◌, ◌++◌, map, refl, Bool-cases, inl, inr, ap, ◌∙◌, sym,
}
use omnipresent.Protocol.Clipboard.{ClipboardData}
use omnipresent.Protocol.Ids.{SessionId}
use omnipresent.Protocol.Control
use omnipresent.Protocol.Control.{cursor_warp}
use omnipresent.Runtime.Daemon.{PeerCommand, input, warp, cursor_returned, clipboard, disconnect}
use omnipresent.Runtime.Daemon.Batches.{coalesce_motion, coalesce_motion_lem, latest}
use omnipresent.Runtime.Daemon.Sending.{
  run_clipboard_sender, Sent, datagram, signal, bulk, Takes, send_command, send_commands,
  send_batch,
}

append_assoc {ℓ} : {A : Type ℓ} (xs ys zs : List A) → (xs ++ ys) ++ zs ≡ xs ++ (ys ++ zs)
append_assoc [] ys zs = refl
append_assoc (x ∷ xs) ys zs = ap (λ l. x ∷ l) (append_assoc xs ys zs)

append_nil {ℓ} : {A : Type ℓ} (xs : List A) → xs ++ [] ≡ xs
append_nil [] = refl
append_nil (x ∷ xs) = ap (λ l. x ∷ l) (append_nil xs)

-- Why the sender ended: all was tried, or the last payload that was tried did not go out.
abbrev pub Ended :
    (List ClipboardData → ClipboardData → Bool) → List ClipboardData → List ClipboardData → Type 0
Ended send tried rest =
    (rest ≡ [])
    ⊎ ((before : List ClipboardData) × (payload : ClipboardData) × (tried
          ≡ before ++ (payload ∷ []))
        × (send before payload ≡ false))

sender_from :
    (send : List ClipboardData → ClipboardData → Bool) (before payloads : List ClipboardData)
    → (rest : List ClipboardData) × (run_clipboard_sender send before payloads ++ rest
        ≡ before ++ payloads)
      × Ended send (run_clipboard_sender send before payloads) rest
unfolding run_clipboard_sender
sender_from send before [] = ([], refl, inl refl)
sender_from send before (p ∷ ps) = elim (Bool-cases (send before p)) [
  | inl y ↦
      let (rest, e, h) = sender_from send (before ++ (p ∷ [])) ps in
      (
        rest,
        rw (y, run_clipboard_sender) (e ∙ append_assoc before (p ∷ []) ps),
        rw (y, run_clipboard_sender) h,
      )
  | inr n ↦ (
    ps,
    rw (n, run_clipboard_sender) (append_assoc before (p ∷ []) ps),
    rw (n, run_clipboard_sender) (inr (before, p, refl, n)),
  )
]

-- The payloads for a peer are tried one after the other in the order in which they were copied, none
-- is left out in between, and the sender ends only when all were tried or when the last one that was
-- tried did not go out.
pub run_clipboard_sender_lem :
    (send : List ClipboardData → ClipboardData → Bool) (payloads : List ClipboardData)
    → (rest : List ClipboardData) × (run_clipboard_sender send [] payloads ++ rest ≡ payloads)
      × Ended send (run_clipboard_sender send [] payloads) rest
run_clipboard_sender_lem send payloads = sender_from send [] payloads

-- What a command is on the wire.
abbrev pub wire : SessionId → PeerCommand → Sent
wire s (input e) = datagram s e
wire s (warp x y) = signal (cursor_warp s x y)
wire s (cursor_returned x y) = signal (Control.cursor_returned s x y)
wire s (clipboard payload) = bulk payload
wire s disconnect = signal (Control.disconnect s)

-- The commands up to the first `Disconnect`, which is among them.
abbrev pub up_to_disconnect : List PeerCommand → List PeerCommand
up_to_disconnect [] = []
up_to_disconnect (disconnect ∷ cs) = disconnect ∷ []
up_to_disconnect (input e ∷ cs) = input e ∷ up_to_disconnect cs
up_to_disconnect (warp x y ∷ cs) = warp x y ∷ up_to_disconnect cs
up_to_disconnect (cursor_returned x y ∷ cs) = cursor_returned x y ∷ up_to_disconnect cs
up_to_disconnect (clipboard p ∷ cs) = clipboard p ∷ up_to_disconnect cs

abbrev pub goes_on : List PeerCommand → Bool
goes_on [] = true
goes_on (disconnect ∷ cs) = false
goes_on (input e ∷ cs) = goes_on cs
goes_on (warp x y ∷ cs) = goes_on cs
goes_on (cursor_returned x y ∷ cs) = goes_on cs
goes_on (clipboard p ∷ cs) = goes_on cs

abbrev pub all_taken : Takes
all_taken before m = true

more :
    (s : SessionId) (c : PeerCommand) (cs : List PeerCommand) (sent : List Sent) (b : Bool)
    → ◌≡◌ {A = List Sent × Bool}
        ((sent ++ (wire s c ∷ [])) ++ map (wire s) cs, b)
        (sent ++ (wire s c ∷ map (wire s) cs), b)
more s c cs sent b = ap (λ l. (l, b)) (append_assoc sent (wire s c ∷ []) (map (wire s) cs))

send_commands_lem :
    (s : SessionId) (cs : List PeerCommand) (sent : List Sent)
    → send_commands all_taken s cs sent ≡ (sent ++ map (wire s) (up_to_disconnect cs), goes_on cs)
unfolding send_commands send_command
send_commands_lem s [] sent = ap (λ l. (l, true)) (sym (append_nil sent))
send_commands_lem s (disconnect ∷ cs) sent = refl
send_commands_lem s (input e ∷ cs) sent =
    send_commands_lem s cs (sent ++ (wire s (input e) ∷ []))
    ∙ more s (input e) (up_to_disconnect cs) sent (goes_on cs)
send_commands_lem s (warp x y ∷ cs) sent =
    send_commands_lem s cs (sent ++ (wire s (warp x y) ∷ []))
    ∙ more s (warp x y) (up_to_disconnect cs) sent (goes_on cs)
send_commands_lem s (cursor_returned x y ∷ cs) sent =
    send_commands_lem s cs (sent ++ (wire s (cursor_returned x y) ∷ []))
    ∙ more s (cursor_returned x y) (up_to_disconnect cs) sent (goes_on cs)
send_commands_lem s (clipboard p ∷ cs) sent =
    send_commands_lem s cs (sent ++ (wire s (clipboard p) ∷ []))
    ∙ more s (clipboard p) (up_to_disconnect cs) sent (goes_on cs)

-- A batch of commands whose messages are all taken goes out in its order, each run of cursor
-- positions as the last one of it, up to the first `Disconnect`, with which the peer is told and the
-- task ends; without one the task goes on.
pub send_batch_lem :
    (s : SessionId) (batch : List PeerCommand) (sent : List Sent)
    → send_batch all_taken s batch sent
      ≡ (sent ++ map (wire s) (up_to_disconnect (latest batch)), goes_on (latest batch))
unfolding send_batch
send_batch_lem s batch sent =
    send_commands_lem s (coalesce_motion batch) sent
    ∙ ap (λ cs. (sent ++ map (wire s) (up_to_disconnect cs), goes_on cs))
        (coalesce_motion_lem batch)
