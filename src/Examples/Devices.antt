-- ===== src/Examples/Devices.antt =====
-- Keys, wheels, backlogs and clipboards.
use omnipresent.Input.Linux.Injection.{inject-convert_event}
use omnipresent.Input.Linux.{inject}
use omnipresent.Input.Linux.{
  held_modifiers, raw_key, update_modifiers, fresh, button_from_evdev, convert_event, Reader,
}
use omnipresent.Prelude.Int.{◌+ℤ◌}
use omnipresent.Protocol.Clipboard.{text, ClipboardData, validate}
use omnipresent.Input.Scroll.{take_all_kept, IsPart, sum, nothing_pending, take_all}
use omnipresent.Runtime.Daemon.{disconnect, input, PeerCommand}
use omnipresent.Runtime.Daemon.Copying.{broadcast-handle-broadcast, broadcast_local_clipboard}
use omnipresent.Examples.Desktop.{paired, alone}
use omnipresent.Runtime.Daemon.{clipboard}
use omnipresent.Input.Keymap.Linux.{evdev_hid, modifier_mask, hid_from_evdev}
use omnipresent.Prelude.Lists.{retain}
use omnipresent.Runtime.Daemon.Batches.{
  coalesce_motion_kept, IsSparse, last_or, not_pointer, coalesce_motion,
}
use omnipresent.Protocol.Input.{pointer, press, key, InputEvent}
use omnipresent.Clipboard
use omnipresent.Clipboard.{
  same_data, is_valid, handle_remote_update, poll_local_change, Port, ClipboardManager,
}
use omnipresent.Prelude.Int.{ℤ, mul_ℕ, pos, negsuc}
use omnipresent.Prelude.{
  map, ◌++◌, [], none, ◌∷◌, some, ◌≡◌, true, Option, List, refl, arith, list_eq, nat_eq,
}

abbrev typed : InputEvent
typed = key 0xE3 press 8

abbrev backlog : List PeerCommand
backlog =
    input (pointer (pos 1) (pos 1))
    ∷ input (pointer (pos 2) (pos 2))
    ∷ input typed
    ∷ input (pointer (pos 3) (pos 3))
    ∷ disconnect
    ∷ []

coalesce_motion_kept_example :
    (retain not_pointer (coalesce_motion backlog) ≡ retain not_pointer backlog)
    × ((c : PeerCommand) → last_or c (coalesce_motion backlog) ≡ last_or c backlog)
    × IsSparse (coalesce_motion backlog)
    × (coalesce_motion (coalesce_motion backlog) ≡ coalesce_motion backlog)
coalesce_motion_kept_example = coalesce_motion_kept backlog

abbrev wheel : List ℤ
wheel = pos 400 ∷ pos 700 ∷ negsuc 2999 ∷ []

take_all_kept_example :
    (mul_ℕ (take_all (pos 1) (pos 1000) nothing_pending wheel).1 1000
        +ℤ (take_all (pos 1) (pos 1000) nothing_pending wheel).0.pending
      ≡ pos 0 +ℤ sum (pos 1) wheel)
    × IsPart 1000 (take_all (pos 1) (pos 1000) nothing_pending wheel).0
take_all_kept_example =
    take_all_kept (pos 1) 1000 wheel nothing_pending (omega arith) (omega arith, omega arith)
      ((omega arith, omega arith), ((omega arith, omega arith), ((omega arith, omega arith), tt)))

abbrev resting : Reader
resting = record { pending = record { dx = pos 0; dy = pos 0 }; held = 0 }

typed_a : (convert_event (raw_key 30 (pos 2)) resting).1 ≡ some (key 4 press 0)
unfolding convert_event button_from_evdev update_modifiers modifier_mask held_modifiers
    hid_from_evdev evdev_hid
typed_a = refl

inject-convert_event_example : inject (key 4 press 0) fresh ≡ (fresh, raw_key 30 (pos 1) ∷ [])
inject-convert_event_example = inject-convert_event 30 (pos 2) resting (key 4 press 0) fresh typed_a

-- A clipboard that only the two machines write.
abbrev pub board : Port (Option ClipboardData)
board = record { read = λ c. (c, Clipboard.ok c); write = λ d c. (some d, Clipboard.ok tt) }

abbrev note : ClipboardData
note = text (72 ∷ 105 ∷ [])

abbrev sender : ClipboardManager (Option ClipboardData)
sender = Clipboard.new (some note) true

abbrev receiver : ClipboardManager (Option ClipboardData)
receiver = Clipboard.new none true

abbrev sent : ClipboardManager (Option ClipboardData)
sent = record { clipboard = some note; enabled = true; last_synced = some note }

sends : poll_local_change board sender ≡ (sent, Clipboard.ok (some note))
unfolding poll_local_change validate
sends = refl

broadcast-handle-broadcast_example :
    let first = broadcast_local_clipboard board (sender, paired) in
    let taken = handle_remote_update board note receiver in
    (first.1.outbox ≡ paired.outbox ++ map (λ e. (e.0, clipboard note)) paired.links)
    × (broadcast_local_clipboard board (taken.0, alone) ≡ (taken.0, alone))
    × (broadcast_local_clipboard board first ≡ first)
broadcast-handle-broadcast_example =
    broadcast-handle-broadcast board board note sender sent receiver (some note) paired alone refl
      refl sends refl refl
