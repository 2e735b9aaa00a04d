-- ===== src/Input/Windows/Source/Swallowing.antt =====
-- What the hooks take from this machine, and what they leave it.
use omnipresent.Prelude.Int.{int_eq, ◌-ℤ◌, pos}
use omnipresent.Prelude.{◌==◌, ◌≡◌, Bool, true, false, ◌&&◌, not, refl, arith, is_some}
use omnipresent.Input.Windows.Source.{scroll, MouseDelta, motion, as_i32, InputEvent, emit, Capture}
use omnipresent.Input.Windows.Source.Hooks.{
  wheel_millilines, mouse_hwheel, mouse_wheel, xbutton_up, xbutton_down, mbutton_up, mbutton_down,
  rbutton_up, rbutton_down, lbutton_up, lbutton_down, mouse_move, keyboard_proc, mouse_proc,
  KeyMessage, KeyInfo, MouseMessage, MouseInfo, Headers, other_mouse_message, action_of,
  convert_mouse, emit_unless,
}

emit_unless-suppressed :
    (b : Bool) (e : InputEvent) (s : Capture) → (emit_unless b e s).suppressed ≡ s.suppressed
unfolding emit
emit_unless-suppressed b e s = ground arith

convert_mouse-suppressed :
    (h : Headers) (message : MouseMessage) (i : MouseInfo) (s : Capture)
    → (convert_mouse h message i s).suppressed ≡ s.suppressed
unfolding convert_mouse emit
convert_mouse-suppressed h mouse_move i s =
    let zero = as_i32 (i.x -ℤ s.last_x) == pos 0 && as_i32 (i.y -ℤ s.last_y) == pos 0 in
    let d : MouseDelta = record { dx = as_i32 (i.x -ℤ s.last_x); dy = as_i32 (i.y -ℤ s.last_y) } in
    let t = emit_unless-suppressed zero (motion d) s in ground (arith, t)
convert_mouse-suppressed h lbutton_down i s = ground arith
convert_mouse-suppressed h lbutton_up i s = ground arith
convert_mouse-suppressed h rbutton_down i s = ground arith
convert_mouse-suppressed h rbutton_up i s = ground arith
convert_mouse-suppressed h mbutton_down i s = ground arith
convert_mouse-suppressed h mbutton_up i s = ground arith
convert_mouse-suppressed h xbutton_down i s = ground arith
convert_mouse-suppressed h xbutton_up i s = ground arith
convert_mouse-suppressed h mouse_wheel i s =
    let w = wheel_millilines h.wheel_delta s.wheel_y i.mouse_data s.lines_per_notch in
    emit_unless-suppressed (w.1 == pos 0) (scroll (record { dx = pos 0; dy = w.1 }))
      (record s { wheel_y = w.0 })
convert_mouse-suppressed h mouse_hwheel i s =
    let w = wheel_millilines h.wheel_delta s.wheel_x i.mouse_data s.chars_per_notch in
    emit_unless-suppressed (w.1 == pos 0) (scroll (record { dx = w.1; dy = pos 0 }))
      (record s { wheel_x = w.0 })
convert_mouse-suppressed h other_mouse_message i s = refl

-- A key event is swallowed exactly if the hook is to act, the event comes from this machine's
-- keyboard, its message is known and input is routed away; one that is synthesized changes nothing
-- and is not swallowed.
pub keyboard_proc_lem :
    (acts : Bool) (message : KeyMessage) (i : KeyInfo) (s : Capture)
    → ((keyboard_proc acts message i s).1
        ≡ (acts && not i.injected && is_some (action_of message) && s.suppressed))
      × (keyboard_proc acts message (record i { injected = true }) s ≡ (s, false))
unfolding keyboard_proc
keyboard_proc_lem acts message i s = (ground arith, ground arith)

-- A mouse event is swallowed exactly if the hook is to act, the event comes from this machine's
-- mouse and input is routed away; one that is synthesized changes nothing and is not swallowed.
mouse_proc_lem :
    (h : Headers) (acts : Bool) (message : MouseMessage) (i : MouseInfo) (s : Capture)
    → ((mouse_proc h acts message i s).1 ≡ (acts && not i.injected && s.suppressed))
      × (mouse_proc h acts message (record i { injected = true }) s ≡ (s, false))
unfolding mouse_proc
mouse_proc_lem h acts message i s =
    let e = convert_mouse-suppressed h message i s in (ground (arith, e), ground arith)
