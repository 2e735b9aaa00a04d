-- ===== src/Input/Windows/Sink.antt =====
-- crates/omni-input/src/windows/sink.rs: injection with `SendInput`. A call is the `INPUT` that it is
-- given (its flags told apart by constructors, its data the `i32` before the cast) or the position given to `SetCursorPos`. Whether
-- Windows takes a call is a parameter, which may depend on what it took before.
pub mod Repair
pub mod InStep
pub mod Chords
pub mod Events
pub mod Pairs
pub mod Stuck
use omnipresent.Prelude.{
  ◌*◌, ℕ, Bool, true, false, Option, none, some, List, [], ◌∷◌, ◌++◌, ◌&&◌, not, ◌==◌, nat_eq,
  if◌then◌else◌, list_eq,
}
use omnipresent.Prelude.Int.{clamp_ℤ, ℤ, pos, int_eq}
use omnipresent.Protocol.Input.{
  millilines_per_line, Action, press, release, KeyCode, Modifiers, contains, with_modifiers,
  without, modifier, all_modifiers, MouseButton, left, right, middle, back, forward, other,
  ScrollDelta, InputEvent, key, motion, pointer, button, scroll, shift, control, alt, meta,
}
use omnipresent.Input.Scroll.{max_i32, min_i32, ScrollAccumulator, take_scaled}
use omnipresent.Input.Bounds.{DesktopBounds, to_screen}
use omnipresent.Input.Keymap.Windows.{key_from_hid, VirtualKey}

pub data MouseFlag : Type 0 where
  move left_down left_up right_down right_up middle_down middle_up x_down x_up wheel hwheel :
      MouseFlag

pub data Call : Type 0 where
  key_input : ℕ → Bool → Action → Call
  mouse_input : MouseFlag → ℤ → ℤ → ℤ → Call
  set_cursor : ℤ → ℤ → Call

-- `MODIFIER_KEYS`, searched for a modifier.
unfoldable pub modifier_key : Modifiers → Option ℕ
modifier_key m =
    if m == shift
    then some 0xA0
    else if m == control
    then some 0xA2
    else if m == alt
    then some 0xA4
    else if m == meta
    then some 0x5B
    else none

pub record ModifierFix : Type 0 where
  pub modifier : Modifiers
  pub action : Action

-- The first loop of `reconcile`.
abbrev pub releases : Modifiers → Modifiers → List Modifiers → List ModifierFix
releases held wanted [] = []
releases held wanted (m ∷ ms) =
    let rest = releases held wanted ms in
    if contains held m && not (contains wanted m)
    then (record { modifier = m; action = release }) ∷ rest
    else rest

-- The second loop of `reconcile`.
abbrev pub presses : Modifiers → Modifiers → List Modifiers → List ModifierFix
presses held wanted [] = []
presses held wanted (m ∷ ms) =
    let rest = presses held wanted ms in
    if contains wanted m && not (contains held m)
    then (record { modifier = m; action = press }) ∷ rest
    else rest

unfoldable pub reconcile : Modifiers → Modifiers → List ModifierFix
reconcile held wanted = releases held wanted all_modifiers ++ presses held wanted all_modifiers

pub record WindowsSink : Type 0 where
  pub scroll : ScrollAccumulator
  pub held : Modifiers

-- The sink, and the calls that Windows took, the newest first.
pub record Injecting : Type 0 where
  pub sink : WindowsSink
  pub taken : List Call

-- What Windows is asked for and answers: the numbers of its headers, `wheel_scroll_amounts`,
-- `desktop_bounds`, and whether it takes a call after those that it took.
pub record Os : Type 0 where
  pub wheel_delta : ℤ
  pub xbutton1 : ℤ
  pub xbutton2 : ℤ
  pub per_notch : ℕ × ℕ
  pub bounds : Option DesktopBounds
  pub takes : List Call → Call → Bool

-- What became of the sink, and whether `Ok` was returned.
abbrev pub Result : Type 0
Result = Injecting × Bool

abbrev pub set_held : Modifiers → Injecting → Injecting
set_held m r = record r { sink = record { scroll = r.sink.scroll; held = m } }

-- The `?` operator: what follows is done after `Ok` only.
abbrev pub and_then : Result → (Injecting → Result) → Result
and_then (r, true) next = next r
and_then (r, false) next = (r, false)

abbrev pub change_held : Modifiers → Action → Modifiers → Modifiers
change_held m press held = with_modifiers held m
change_held m release held = without held m

-- `MILLILINES_PER_LINE.saturating_mul(amount)`
abbrev pub millilines_per_notch : ℕ → ℤ
millilines_per_notch amount = clamp_ℤ min_i32 max_i32 (pos (millilines_per_line * amount))

module _ (os : Os) where
  -- `send`, and the check of `SetCursorPos`
  unfoldable pub send : Call → Injecting → Result
  send c r = if os.takes r.taken c then (record r { taken = c ∷ r.taken }, true) else (r, false)

  abbrev pub send_key : ℕ → Bool → Action → Injecting → Result
  send_key vk extended action r = send (key_input vk extended action) r

  -- The loop of `apply_modifiers`.
  unfoldable pub apply_fixes : List ModifierFix → Injecting → Result
  apply_fixes [] r = (r, true)
  apply_fixes (fix ∷ fixes) r = elim (modifier_key fix.modifier) [
    | none ↦ apply_fixes fixes r
    | some vk ↦
        and_then (send_key vk false fix.action r)
          (λ s. apply_fixes fixes (set_held (change_held fix.modifier fix.action s.sink.held) s))
  ]

  unfoldable pub apply_modifiers : Modifiers → Injecting → Result
  apply_modifiers wanted r = apply_fixes (reconcile r.sink.held wanted) r

  abbrev pub inject_mapped : KeyCode → Action → Injecting → Result
  inject_mapped code action r = elim (key_from_hid code) [
    | none ↦ (r, true)
    | some k ↦ send_key k.vk k.extended action r
  ]

  unfoldable pub inject_key : KeyCode → Action → Modifiers → Injecting → Result
  inject_key code action modifiers r = elim (modifier code) [
    | some m ↦ inject_mapped code action (set_held (change_held m action r.sink.held) r)
    | none ↦ and_then (apply_modifiers modifiers r) (inject_mapped code action)
  ]

  abbrev pub button_call : MouseButton → Action → Option (MouseFlag × ℤ)
  button_call left press = some (left_down, pos 0)
  button_call left release = some (left_up, pos 0)
  button_call right press = some (right_down, pos 0)
  button_call right release = some (right_up, pos 0)
  button_call middle press = some (middle_down, pos 0)
  button_call middle release = some (middle_up, pos 0)
  button_call back press = some (x_down, os.xbutton1)
  button_call back release = some (x_up, os.xbutton1)
  button_call forward press = some (x_down, os.xbutton2)
  button_call forward release = some (x_up, os.xbutton2)
  button_call (other n) action = none

  unfoldable pub inject_button : MouseButton → Action → Injecting → Result
  inject_button b action r = elim (button_call b action) [
    | none ↦ (r, true)
    | some c ↦ send (mouse_input c.0 c.1 (pos 0) (pos 0)) r
  ]

  abbrev pub unless_zero : MouseFlag → ℤ → Injecting → Result
  unless_zero flag n r =
      if n == pos 0 then (r, true) else send (mouse_input flag n (pos 0) (pos 0)) r

  unfoldable pub inject_scroll : ScrollDelta → Injecting → Result
  inject_scroll delta r =
      let t =
        take_scaled delta os.wheel_delta (millilines_per_notch os.per_notch.0)
          (millilines_per_notch os.per_notch.1) r.sink.scroll in
      and_then
        (unless_zero wheel t.1.1 (record r { sink = record { scroll = t.0; held = r.sink.held } }))
        (unless_zero hwheel t.1.0)

  unfoldable pub warp : ℤ → ℤ → Injecting → Result
  warp x y r = elim os.bounds [
    | none ↦ send (set_cursor x y) r
    | some b ↦ let p = to_screen b x y in send (set_cursor p.0 p.1) r
  ]

  -- `WindowsSink::inject`
  unfoldable pub inject : InputEvent → Injecting → Result
  inject (key code action modifiers) r = inject_key code action modifiers r
  inject (motion d) r = send (mouse_input move (pos 0) d.dx d.dy) r
  inject (pointer x y) r = warp x y r
  inject (button b action) r = inject_button b action r
  inject (scroll d) r = inject_scroll d r
