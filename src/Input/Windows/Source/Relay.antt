-- ===== src/Input/Windows/Source/Relay.antt =====
-- A key captured on one Windows machine and injected on another.
use mathlib.Core.Option
use omnipresent.Prelude.{
  ap, ◌∙◌, Option, ◌≡◌, Bool, true, false, ℕ, some, none, List, [], ◌∷◌, ◌++◌, ◌<◌, ◌^◌, ◌%◌, arith,
  refl, nat_beq_iff, ◌==◌, nat_eq,
}
use omnipresent.Prelude.Bounded.{holds_below, tested}
use omnipresent.Protocol.Input.{key, Action, KeyCode, modifier, with_modifiers}
use omnipresent.Input.Keymap.Windows.{
  hid_from_key, key_from_hid, key_from_hid-hid_from_key, VirtualKey,
}
use omnipresent.Input.Windows.Sink.{inject, Os, Injecting, Call, key_input}
use omnipresent.Input.Windows.Sink.Repair.{bits, keys_down}
use omnipresent.Input.Windows.Sink.InStep.{InStep}
use omnipresent.Input.Windows.Sink.Chords.{inject_key-chord}
use omnipresent.Input.Windows.Source.{InputEvent, Capture, emit}
use omnipresent.Input.Windows.Source.Hooks.{
  key_event, track, keyboard_proc, KeyMessage, action_of, modifier_bit, held_modifiers,
}

abbrev kept : ℕ → Bool
kept m = held_modifiers m == m

every_kept : holds_below kept 16 ≡ true
unfolding holds_below held_modifiers with_modifiers
every_kept = refl

held_modifiers_lem : (m : ℕ) → m < 16 → held_modifiers m ≡ m
held_modifiers_lem m h = (nat_beq_iff _ m).0 (tested kept 16 m h every_kept)

-- What the hook queues for a key of this machine that is no modifier's.
emit-queue :
    (e : InputEvent) (s : Capture) → s.sender ≡ true → (emit e s).queue ≡ s.queue ++ (e ∷ [])
unfolding emit
emit-queue e s h = rw (h, emit) refl

keyboard_proc-queue :
    (message : KeyMessage) (a : Action) (vk : ℕ) (x : Bool) (code : KeyCode) (s : Capture)
    → action_of message ≡ some a
    → vk < 2 ^ 16
    → modifier_bit vk ≡ none
    → hid_from_key vk x ≡ some code
    → s.modifiers < 16
    → s.sender ≡ true
    → (keyboard_proc true message (record { vk = vk; injected = false; extended = x }) s).0.queue
      ≡ s.queue ++ (key code a s.modifiers ∷ [])
unfolding keyboard_proc
keyboard_proc-queue message a vk x code s h l n c m o =
    let w : vk % 2 ^ 16 ≡ vk = omega arith in
    let t : track vk a s ≡ s = rw (n, track) refl in
    let k : key_event vk x a s ≡ emit (key code a s.modifiers) s =
      rw (w, key_event, c, held_modifiers_lem s.modifiers m) refl in
    let q : (emit (key code a s.modifiers) s).queue ≡ s.queue ++ (key code a s.modifiers ∷ []) =
      emit-queue (key code a s.modifiers) s o in
    rw (h, keyboard_proc, t, k) q

mapped :
    (o : Option VirtualKey) (c : ℕ)
    → Option.map (λ v. v.vk) o ≡ some c
    → (v : VirtualKey) × (o ≡ some v) × (v.vk ≡ c)
mapped none c h = absurd (ground arith)
mapped (some v) c h = (v, refl, ground arith)

-- A chord survives the way from one Windows machine to another: a key of the first that is no
-- modifier's is queued with the modifiers held there, and its event, injected with `Ok` in a sink in
-- step, presses or releases the same virtual key as the last call; the left modifier keys down
-- before that call are those held on the first machine. The key is known, its modifiers are among the four,
-- and the event channel is open.
pub keyboard_proc-inject :
    (message : KeyMessage) (a : Action) (vk : ℕ) (x : Bool) (code : KeyCode) (s : Capture) (os : Os)
    (r : Injecting)
    → action_of message ≡ some a
    → vk < 2 ^ 16
    → modifier_bit vk ≡ none
    → hid_from_key vk x ≡ some code
    → modifier code ≡ none
    → s.modifiers < 16
    → s.sender ≡ true
    → InStep r
    → (inject os (key code a s.modifiers) r).1 ≡ true
    → let t = (inject os (key code a s.modifiers) r).0 in
      ((keyboard_proc true message (record { vk = vk; injected = false; extended = x }) s).0.queue
        ≡ s.queue ++ (key code a s.modifiers ∷ []))
      × ((y : Bool) × (before : List Call) × (t.taken ≡ key_input vk y a ∷ before)
          × (keys_down before ≡ bits s.modifiers))
keyboard_proc-inject message a vk x code s os r h l n c i m o g k =
    let (v, e, w) = mapped (key_from_hid code) vk (key_from_hid-hid_from_key vk x code c) in
    let (before, p, q, u) = inject_key-chord os code a s.modifiers v r i m e g k in
    (
      keyboard_proc-queue message a vk x code s h l n c m o,
      (v.extended, before, p ∙ ap (λ z. key_input z v.extended a ∷ before) w, q),
    )
