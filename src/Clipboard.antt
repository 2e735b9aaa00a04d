-- ===== src/Clipboard.antt =====
-- crates/omni-clipboard/src/service.rs: the manager that shares the clipboard. The operating
-- system's clipboard is the parameter `C`, with what reading it and writing it return; a lock that
-- is never poisoned (no code panics while it holds it).
pub mod Echo
use omnipresent.Protocol.Clipboard.{text, image}
use omnipresent.Prelude.{◌&&◌, ◌==◌, list_eq, nat_eq}
use omnipresent.Protocol.Clipboard.{
  too_large, size_mismatch, ClipboardData, Validation, valid, validate,
}
use omnipresent.Prelude.{not, true, false, none, if◌then◌else◌, some, Bool, Option, arith}

-- `ClipboardError`; the text of an error is left out.
pub data ClipboardError : Type 0 where
  disabled : ClipboardError
  invalid : Validation → ClipboardError
  platform : ClipboardError

pub data Reply (A : Type 0) : Type 0 where
  ok : A → Reply A
  err : ClipboardError → Reply A

-- `ClipboardPort`: both operations may change the clipboard `C`.
pub record Port (C : Type 0) : Type 0 where
  pub read : C → C × Reply (Option ClipboardData)
  pub write : ClipboardData → C → C × Reply (Unit {0})

pub record ClipboardManager (C : Type 0) : Type 0 where
  pub clipboard : C
  pub enabled : Bool
  pub last_synced : Option ClipboardData

-- `ClipboardManager::new`
abbrev pub new : {C : Type 0} → C → Bool → ClipboardManager C
new c enabled = record { clipboard = c; enabled = enabled; last_synced = none }

-- `==` of clipboard payloads
abbrev pub data_beq : ClipboardData → ClipboardData → Bool
data_beq (text s) (text t) = s == t
data_beq (text s) (image j) = false
data_beq (image i) (text t) = false
data_beq (image i) (image j) = i.width == j.width && i.height == j.height && i.bytes == j.bytes

abbrev pub same_data : ClipboardData → Option ClipboardData → Bool
same_data d none = false
same_data d (some e) = data_beq d e

abbrev pub is_valid : ClipboardData → Bool
is_valid d = elim (validate d) [ valid ↦ true | size_mismatch ↦ false | too_large ↦ false ]

module _ {C : Type 0} where
  -- `ClipboardManager::set_enabled`
  unfoldable pub set_enabled : Bool → ClipboardManager C → ClipboardManager C
  set_enabled true m = record m { enabled = true }
  set_enabled false m = record m { enabled = false; last_synced = none }

  -- The `match` of `poll_local_change`, on what was read.
  abbrev pub examined :
      Option ClipboardData → ClipboardManager C → ClipboardManager C × Reply (Option ClipboardData)
  examined none m = (m, ok none)
  examined (some d) m =
      if same_data d m.last_synced
      then (m, ok none)
      else (record m { last_synced = some d }, ok (if is_valid d then some d else none))

  abbrev after_read :
      C × Reply (Option ClipboardData)
      → ClipboardManager C
      → ClipboardManager C × Reply (Option ClipboardData)
  after_read (c, err e) m = (record m { clipboard = c }, err e)
  after_read (c, ok current) m = examined current (record m { clipboard = c })

  unfoldable pub poll_local_change :
      Port C → ClipboardManager C → ClipboardManager C × Reply (Option ClipboardData)
  poll_local_change port m =
      if m.enabled then after_read (port.read m.clipboard) m else (m, err disabled)

  abbrev after_write :
      ClipboardData
      → C × Reply (Unit {0})
      → ClipboardManager C
      → ClipboardManager C × Reply (Unit {0})
  after_write d (c, err e) m = (record m { clipboard = c }, err e)
  after_write d (c, ok u) m = (record m { clipboard = c; last_synced = some d }, ok tt)

  unfoldable pub handle_remote_update :
      Port C → ClipboardData → ClipboardManager C → ClipboardManager C × Reply (Unit {0})
  handle_remote_update port d m =
      if not m.enabled
      then (m, err disabled)
      else if not (is_valid d)
      then (m, err (invalid (validate d)))
      else after_write d (port.write d m.clipboard) m
