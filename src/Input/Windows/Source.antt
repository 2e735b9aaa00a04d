-- ===== src/Input/Windows/Source.antt =====
-- crates/omni-input/src/windows/source.rs: capture with low-level hooks. What the hooks and the
-- source share is one state. A message is told apart by constructors; the numbers of Windows'
-- headers, and what Windows answers, are parameters. Differences of `i32`s wrap.
pub mod Hooks
pub mod Motions
pub mod Travel
pub mod Swallowing
pub mod Polling
pub mod Relay
use Prim.Native.Nat.{bit_and, bit_or}
use omnipresent.Prelude.{
  ℕ, Bool, true, false, Option, none, some, List, [], ◌∷◌, ◌++◌, ◌&&◌, ◌||◌, not, ◌==◌, nat_eq,
  if◌then◌else◌, ◌-◌, ◌/◌, ◌%◌, ◌^◌, ltb,
}
use omnipresent.Prelude.Int.{ℤ, pos, negsuc, int_eq, ◌-ℤ◌, clamp_ℤ}
use omnipresent.Prelude.Words.{as_i32}
use omnipresent.Protocol.Input.{
  Action, press, release, KeyCode, Modifiers, with_modifiers, shift, control, alt, meta,
  no_modifiers, MouseButton, left, right, middle, back, forward, MouseDelta, ScrollDelta,
  InputEvent, key, motion, button, scroll,
}
use omnipresent.Input.Scroll.{Scaled, take, nothing_pending}
use omnipresent.Input.Keymap.Windows.{hid_from_key}
use omnipresent.Input.Windows.{Metrics, screen_center, wheel_scroll_amounts}
use omnipresent.Input.Windows.Sink.{millilines_per_notch}

-- The statics of the module, the events sent and not yet received, and the calls of `SetCursorPos`,
-- the newest first. `sender` says whether `EVENT_TX` holds one.
pub record Capture : Type 0 where
  pub installed : Bool
  pub sender : Bool
  pub suppressed : Bool
  pub modifiers : ℕ
  pub last_x : ℤ
  pub last_y : ℤ
  pub have_last : Bool
  pub chars_per_notch : ℕ
  pub lines_per_notch : ℕ
  pub wheel_x : Scaled
  pub wheel_y : Scaled
  pub queue : List InputEvent
  pub parked : List (ℤ × ℤ)

-- What the two wheel settings are, if they can be read.
abbrev pub Settings : Type 0
Settings = Option ℕ × Option ℕ

-- `refresh_wheel_settings`
abbrev pub refresh_wheel_settings : Settings → Capture → Capture
refresh_wheel_settings w s =
    let a = wheel_scroll_amounts w.0 w.1 in
    record s { chars_per_notch = a.0; lines_per_notch = a.1 }

pub data WindowsInputError : Type 0 where
  hook_install already_running capture_stopped : WindowsInputError

-- `WindowsSource::release`
abbrev pub release_source : Capture → Capture
release_source s = record s { sender = false; installed = false }

-- What becomes of the hook thread: it reports the hooks installed or not, or it is not started.
pub data Thread : Type 0 where
  hooks_installed hooks_refused not_started : Thread

-- `WindowsSource::new`. The channel is a new one; a thread that is not started returns before
-- `release`.
unfoldable pub new : Settings → Thread → Capture → Capture × Option WindowsInputError
new w thread s =
    let fresh = record s {
      installed = true;
      sender = true;
      suppressed = false;
      modifiers = 0;
      have_last = false;
      wheel_x = nothing_pending;
      wheel_y = nothing_pending;
      queue = [];
    } in
    let t = refresh_wheel_settings w fresh in
    if s.installed then (s, some already_running) else elim thread [
      | hooks_installed ↦ (t, none)
      | hooks_refused ↦ (release_source t, some hook_install)
      | not_started ↦ (t, some hook_install)
    ]

pub data Polled : Type 0 where
  polled_event : InputEvent → Polled
  polled_nothing polled_stopped : Polled

-- `WindowsSource::poll`
unfoldable pub poll : Capture → Capture × Polled
poll s = elim s.queue [
  | [] ↦ (s, (if s.sender then polled_nothing else polled_stopped))
  | e ∷ es ↦ (record s { queue = es }, polled_event e)
]

-- `SetCursorPos` at the centre, and the anchor of relative motion there.
abbrev pub park : Metrics → Capture → Capture
park m s = let c = screen_center m in record s { parked = c ∷ s.parked; last_x = c.0; last_y = c.1 }

-- `WindowsSource::set_suppressed`
unfoldable pub set_suppressed : Metrics → Bool → Capture → Capture
set_suppressed m true s = record (park m (record s { suppressed = true })) { have_last = true }
set_suppressed m false s = record s { suppressed = false; have_last = false }

-- The tick of the timer in `run_hooks`; whether the hooks were installed again is a parameter.
unfoldable pub tick : Settings → Bool → Capture → Capture
tick w rearmed s =
    let t = refresh_wheel_settings w s in if rearmed then t else record t { sender = false }

unfoldable pub emit : InputEvent → Capture → Capture
emit e s = if s.sender then record s { queue = s.queue ++ (e ∷ []) } else s
