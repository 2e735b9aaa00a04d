-- ===== src/Examples/Windows.antt =====
-- One Windows machine that captures, and one that injects.
use omnipresent.Prelude.{
  ◌≡◌, Bool, true, false, List, [], ◌∷◌, ◌++◌, none, some, inl, inr, refl, arith,
}
use omnipresent.Prelude.Int.{pos, ◌-ℤ◌, ◌+ℤ◌}
use omnipresent.Protocol.Input.{
  Modifiers, Action, KeyCode, key, press, release, contains, modifier, is_modifier, control,
}
use omnipresent.Input.Scroll.{nothing_pending}
use omnipresent.Input.Windows.{desktop_bounds, screen_center}
use omnipresent.Input.Keymap.Windows.{key_from_hid, hid_from_key, windows_hid}
use omnipresent.Input.Windows.Sink.{
  Os, Injecting, Call, key_input, inject, inject_key, apply_modifiers, apply_fixes, reconcile, send,
  modifier_key,
}
use omnipresent.Input.Windows.Sink.Repair.{bits, keys_down, down}
use omnipresent.Input.Windows.Sink.InStep.{InStep}
use omnipresent.Input.Windows.Sink.Events.{inject-InStep}
use omnipresent.Input.Windows.Sink.Chords.{inject_key-chord}
use omnipresent.Input.Windows.Sink.Stuck.{right_key-type_all, type_all}
use omnipresent.Input.Windows.Source.{Capture, set_suppressed}
use omnipresent.Input.Windows.Source.Hooks.{
  Headers, key_down, action_of, modifier_bit, keyboard_proc,
}
use omnipresent.Input.Windows.Source.Motions.{moves, along, IsNear}
use omnipresent.Input.Windows.Source.Travel.{moves-set_suppressed-false}
use omnipresent.Input.Windows.Source.Relay.{keyboard_proc-inject}

-- Windows takes every call.
abbrev obliging : Os
obliging = record {
  wheel_delta = pos 120;
  xbutton1 = pos 1;
  xbutton2 = pos 2;
  per_notch = (3, 3);
  bounds = none;
  takes = λ before c. true;
}

-- Left Control is down.
abbrev with_control : Injecting
with_control = record {
  sink = record { scroll = record { x = nothing_pending; y = nothing_pending }; held = 2 };
  taken = key_input 0xA2 false press ∷ [];
}

with_control-InStep : InStep with_control
unfolding contains
with_control-InStep = (omega arith, refl)

-- A with Shift, whose key-up of Control was lost.
inject-InStep_example : InStep (inject obliging (key 0x04 press 1) with_control).0
unfolding is_modifier modifier
inject-InStep_example =
    inject-InStep obliging (key 0x04 press 1) with_control (omega arith, inl refl) (inr refl)
      with_control-InStep

taken_a : (inject obliging (key 0x04 press 1) with_control).1 ≡ true
unfolding inject inject_key modifier apply_modifiers apply_fixes reconcile contains send
    modifier_key key_from_hid windows_hid
taken_a = refl

a_ordinary : modifier 0x04 ≡ none
unfolding modifier
a_ordinary = refl

a_key : key_from_hid 0x04 ≡ some (record { vk = 0x41; extended = false })
unfolding key_from_hid windows_hid
a_key = refl

inject_key-chord_example :
    let s = (inject obliging (key 0x04 press 1) with_control).0 in
    (before : List Call) × (s.taken ≡ key_input 0x41 false press ∷ before)
    × (keys_down before ≡ bits 1)
    × (s.sink.held ≡ 1)
inject_key-chord_example =
    inject_key-chord obliging 0x04 press 1 (record { vk = 0x41; extended = false }) with_control
      a_ordinary (omega arith) a_key with_control-InStep taken_a

right_control : modifier 0xE4 ≡ some control
unfolding modifier
right_control = refl

control_key : modifier_key control ≡ some 0xA2
unfolding modifier_key
control_key = refl

taken_right : (inject obliging (key 0xE4 release 0) with_control).1 ≡ true
unfolding inject inject_key modifier send key_from_hid windows_hid
taken_right = refl

-- A is typed with nothing held.
abbrev typed_a : List (KeyCode × Action × Modifiers)
typed_a = (0x04, press, 0) ∷ (0x04, release, 0) ∷ []

none_held : contains 0 control ≡ false
unfolding contains
none_held = refl

right_key-type_all_example :
    let s = type_all obliging typed_a (inject obliging (key 0xE4 release 0) with_control).0 in
    (contains s.sink.held control ≡ false) × (down s.taken 0xA2 ≡ true)
right_key-type_all_example =
    right_key-type_all obliging 0xE4 0 control 0xA2 typed_a with_control refl right_control
      control_key (omega arith) refl taken_right
      ((a_ordinary, none_held), ((a_ordinary, none_held), tt))

-- A capture with Shift held, on one screen of 1920 by 1080.
abbrev capturing : Capture
capturing = record {
  installed = true;
  sender = true;
  suppressed = true;
  modifiers = 1;
  last_x = pos 960;
  last_y = pos 540;
  have_last = true;
  chars_per_notch = 3;
  lines_per_notch = 3;
  wheel_x = nothing_pending;
  wheel_y = nothing_pending;
  queue = key 0x05 press 1 ∷ [];
  parked = [];
}

abbrev headers : Headers
headers = record {
  wheel_delta = pos 120;
  xbutton1 = 1;
  metrics = record {
    virtual_width = pos 0;
    virtual_height = pos 0;
    virtual_x = pos 0;
    virtual_y = pos 0;
    primary_width = pos 0;
    primary_height = pos 0;
  };
}

known_a : hid_from_key 0x41 false ≡ some 0x04
unfolding hid_from_key windows_hid
known_a = refl

pressed : action_of key_down ≡ some press
unfolding action_of
pressed = refl

no_bit : modifier_bit 0x41 ≡ none
unfolding modifier_bit
no_bit = refl

keyboard_proc-inject_example :
    let t = (inject obliging (key 0x04 press 1) with_control).0 in
    ((keyboard_proc true key_down
        (record { vk = 0x41; injected = false; extended = false })
        capturing).0.queue
      ≡ capturing.queue ++ (key 0x04 press 1 ∷ []))
    × ((y : Bool) × (before : List Call) × (t.taken ≡ key_input 0x41 y press ∷ before)
        × (keys_down before ≡ bits 1))
keyboard_proc-inject_example =
    keyboard_proc-inject key_down press 0x41 false 0x04 capturing obliging with_control pressed
      (omega arith) no_bit known_a a_ordinary (omega arith) refl with_control-InStep taken_a

centre-IsNear : IsNear (screen_center headers.metrics)
unfolding screen_center desktop_bounds
centre-IsNear = (omega arith, omega arith, omega arith, omega arith)

moves-set_suppressed-false_example :
    let t =
      moves headers
        ((pos 5, pos 5) ∷ (pos 9, pos 2) ∷ [])
        (set_suppressed headers.metrics false capturing) in
    (along (λ d. d.dx) t.queue ≡ along (λ d. d.dx) capturing.queue +ℤ (pos 9 -ℤ pos 5))
    × (along (λ d. d.dy) t.queue ≡ along (λ d. d.dy) capturing.queue +ℤ (pos 2 -ℤ pos 5))
moves-set_suppressed-false_example =
    moves-set_suppressed-false headers (pos 5, pos 5) ((pos 9, pos 2) ∷ []) capturing refl
      centre-IsNear (omega arith, omega arith, omega arith, omega arith)
      ((omega arith, omega arith, omega arith, omega arith), tt)
