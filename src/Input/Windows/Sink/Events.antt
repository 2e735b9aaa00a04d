-- ===== src/Input/Windows/Sink/Events.antt =====
-- Every event keeps the sink in step with Windows.
use omnipresent.Prelude.{
  ◌≡◌, Bool, true, false, none, ◌==◌, arith, refl, Bool-cases, Option-cases, inl, inr, ◌<◌, ◌⊎◌,
}
use omnipresent.Prelude.Int.{int_eq, ℤ, pos}
use omnipresent.Protocol.Input.{
  is_modifier, modifier, Action, MouseButton, ScrollDelta, InputEvent, key, motion, pointer, button,
  scroll,
}
use omnipresent.Input.Windows.Sink.{
  inject_key, Modifiers, KeyCode, millilines_per_notch, unless_zero, take_scaled, to_screen,
  button_call, MouseFlag, mouse_input, set_cursor, inject_button, inject_scroll, warp, inject, Os,
  Injecting, wheel, hwheel, move,
}
use omnipresent.Input.Windows.Sink.InStep.{InStep}
use omnipresent.Input.Windows.Sink.Chords.{
  send-InStep, and_then-InStep, inject_key-InStep, left_key-InStep, is_left,
}

-- A key whose modifiers are among the four, and which is no right-hand modifier key.
abbrev pub IsTracked : InputEvent → Type 0
IsTracked (key code a m) = (m < 16) × ((modifier code ≡ none) ⊎ (is_left code ≡ true))
IsTracked (motion d) = Unit
IsTracked (pointer x y) = Unit
IsTracked (button b a) = Unit
IsTracked (scroll d) = Unit

-- The event of a modifier key.
abbrev pub is_change : InputEvent → Bool
is_change (key code a m) = is_modifier code
is_change (motion d) = false
is_change (pointer x y) = false
is_change (button b a) = false
is_change (scroll d) = false

module _ (os : Os) where
  unless_zero-InStep :
      (f : MouseFlag) (n : ℤ) (r : Injecting) → InStep r → InStep (unless_zero os f n r).0
  unless_zero-InStep f n r h = elim (Bool-cases (n == pos 0)) [
    | inl y ↦ rw (y, unless_zero) h
    | inr z ↦ rw (z, unless_zero) (send-InStep os (mouse_input f n (pos 0) (pos 0)) r refl h)
  ]

  inject_button-InStep :
      (b : MouseButton) (a : Action) (r : Injecting) → InStep r → InStep (inject_button os b a r).0
  unfolding inject_button
  inject_button-InStep b a r h = elim (Option-cases (button_call os b a)) [
    | inl n ↦ rw (n, inject_button) h
    | inr (c, e) ↦
        rw (e, inject_button) (send-InStep os (mouse_input c.0 c.1 (pos 0) (pos 0)) r refl h)
  ]

  warp-InStep : (x y : ℤ) (r : Injecting) → InStep r → InStep (warp os x y r).0
  unfolding warp
  warp-InStep x y r h = elim (Option-cases os.bounds) [
    | inl n ↦ rw (n, warp) (send-InStep os (set_cursor x y) r refl h)
    | inr (b, e) ↦
        rw (e, warp) (send-InStep os (set_cursor (to_screen b x y).0 (to_screen b x y).1) r refl h)
  ]

  inject_scroll-InStep :
      (d : ScrollDelta) (r : Injecting) → InStep r → InStep (inject_scroll os d r).0
  unfolding inject_scroll
  inject_scroll-InStep d r h =
      let t =
        take_scaled d os.wheel_delta (millilines_per_notch os.per_notch.0)
          (millilines_per_notch os.per_notch.1) r.sink.scroll in
      let s = record r { sink = record { scroll = t.0; held = r.sink.held } } in
      and_then-InStep os (unless_zero os wheel t.1.1 s) (unless_zero os hwheel t.1.0)
        (unless_zero-InStep wheel t.1.1 s h) (λ u g. unless_zero-InStep hwheel t.1.0 u g)

  key-InStep :
      (code : KeyCode) (a : Action) (m : Modifiers) (r : Injecting)
      → IsTracked (key code a m)
      → ((inject_key os code a m r).1 ≡ true) ⊎ (is_modifier code ≡ false)
      → InStep r
      → InStep (inject_key os code a m r).0
  unfolding is_modifier
  key-InStep code a m r t o h = elim (Option-cases (modifier code)) [
    | inl n ↦ inject_key-InStep os code a m r n h
    | inr (i, e) ↦ left_key-InStep os code a m r (ground (arith, e, t)) (ground (arith, e, o)) h
  ]

  -- An event leaves a sink in step that was so: the modifiers that it believes to be held are those
  -- whose left keys Windows has down. The event is any but one of a right-hand modifier key, a key
  -- event carries modifiers among the four, and an event of a modifier key is injected with `Ok`;
  -- whatever else Windows refuses.
  pub inject-InStep :
      (e : InputEvent) (r : Injecting)
      → IsTracked e
      → ((inject os e r).1 ≡ true) ⊎ (is_change e ≡ false)
      → InStep r
      → InStep (inject os e r).0
  unfolding inject
  inject-InStep (key code a m) r t o h = key-InStep code a m r t o h
  inject-InStep (motion d) r t o h = send-InStep os (mouse_input move (pos 0) d.dx d.dy) r refl h
  inject-InStep (pointer x y) r t o h = warp-InStep x y r h
  inject-InStep (button b a) r t o h = inject_button-InStep b a r h
  inject-InStep (scroll d) r t o h = inject_scroll-InStep d r h
