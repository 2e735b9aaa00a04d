-- ===== src/Clipboard/Echo.antt =====
-- A payload goes around once: neither the machine that sent it nor the one that received it sends it
-- again.
use omnipresent.Protocol.Clipboard.{text, image}
use omnipresent.Prelude.{ℕ, List, list_eq, nat_eq, ◌==◌}
use omnipresent.Protocol.Clipboard.{image, text}
use omnipresent.Clipboard
use omnipresent.Clipboard.{
  same_data, is_valid, handle_remote_update, data_beq, poll_local_change, ClipboardData, Port,
  ClipboardManager,
}
use omnipresent.Prelude.{false, none, list_eq, true, some, ◌≡◌, arith, refl}

-- Reading the clipboard brings the payload, and leaves the clipboard as it is.
abbrev pub Gives : {C : Type 0} → Port C → ClipboardData → C → Type 0
Gives {C} port d c = port.read c ≡ (c, Clipboard.ok (some d))

list_beq_same : (xs : List ℕ) → (xs == xs) ≡ true
list_beq_same xs = (list_eq.test_iff xs xs).1 refl

nat_beq_same : (n : ℕ) → (n == n) ≡ true
nat_beq_same n = ground arith

data_beq_same : (d : ClipboardData) → data_beq d d ≡ true
data_beq_same (text s) = list_beq_same s
data_beq_same (image i) = rw (nat_beq_same i.width, nat_beq_same i.height) (list_beq_same i.bytes)

module _ {C : Type 0} (port : Port C) where
  -- A payload that a poll reports was read from the clipboard, is valid, and is not the one last
  -- seen; and it is last seen from then on.
  poll_local_change_sends :
      (d : ClipboardData) (m m' : ClipboardManager C)
      → poll_local_change port m ≡ (m', Clipboard.ok (some d))
      → (m.enabled ≡ true)
        × (port.read m.clipboard ≡ (m'.clipboard, Clipboard.ok (some d)))
        × (is_valid d ≡ true)
        × (same_data d m.last_synced ≡ false)
        × (m'.last_synced ≡ some d)
        × (m'.enabled ≡ true)
  unfolding poll_local_change
  poll_local_change_sends d m m' h = ground arith

  -- A peer's payload that was taken over, and that the clipboard then gives back, is not reported by
  -- the next poll.
  pub handle-poll :
      (d : ClipboardData) (m : ClipboardManager C) (c : C)
      → Gives port d c
      → m.enabled ≡ true
      → is_valid d ≡ true
      → port.write d m.clipboard ≡ (c, Clipboard.ok tt)
      → let r = handle_remote_update port d m in
        (r.1 ≡ Clipboard.ok tt) × (poll_local_change port r.0 ≡ (r.0, Clipboard.ok none))
  unfolding poll_local_change handle_remote_update
  handle-poll d m c b e v w = rw (e, v, w, b, data_beq_same d) (refl, refl)

  poll_same :
      (d : ClipboardData) (m : ClipboardManager C)
      → Gives port d m.clipboard
      → m.enabled ≡ true
      → m.last_synced ≡ some d
      → poll_local_change port m ≡ (m, Clipboard.ok none)
  unfolding poll_local_change
  poll_same d m r e l = rw (e, r, l, data_beq_same d) refl

module _ {A B : Type 0} (port : Port A) (port' : Port B) where
  -- A payload that a poll of one machine reports, and that another machine with sharing on takes
  -- over, comes to rest: while the clipboards of both give it back unchanged, neither machine reports
  -- it again.
  pub poll-handle-poll :
      (d : ClipboardData) (m m' : ClipboardManager A) (n : ClipboardManager B) (c : B)
      → Gives port d m'.clipboard
      → Gives port' d c
      → poll_local_change port m ≡ (m', Clipboard.ok (some d))
      → n.enabled ≡ true
      → port'.write d n.clipboard ≡ (c, Clipboard.ok tt)
      → let r = handle_remote_update port' d n in
        (r.1 ≡ Clipboard.ok tt)
        × (poll_local_change port' r.0 ≡ (r.0, Clipboard.ok none))
        × (poll_local_change port m' ≡ (m', Clipboard.ok none))
  poll-handle-poll d m m' n c again back h e w =
      let (b, r, v, s, l, t) = poll_local_change_sends port d m m' h in
      let (o, p) = handle-poll port' d n c back e v w in (o, p, poll_same port d m' again t l)
