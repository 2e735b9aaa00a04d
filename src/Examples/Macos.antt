-- ===== src/Examples/Macos.antt =====
-- A Mac whose Caps Lock is pressed, and one that is double-clicked.
use omnipresent.Prelude.{◌≡◌, true, false, List, [], ◌∷◌, arith}
use omnipresent.Prelude.Int.{pos}
use omnipresent.Input.Macos.{CgEvent, CgEventType, flags_changed, cg_key_down, Tap}
use omnipresent.Input.Macos.Latch.{far_latch, tap_after, far_latch-tap_after}

abbrev caps_pressed : CgEvent
caps_pressed = record {
  vk = 57;
  flags = record {
    has_shift = false;
    has_control = false;
    has_alternate = false;
    has_command = false;
    has_alpha_shift = true;
  };
  delta = record { dx = pos 0; dy = pos 0 };
  number = pos 0;
  scrolled = record { dx = pos 0; dy = pos 0 };
}

abbrev typed : List (CgEventType × CgEvent)
typed = (flags_changed, caps_pressed) ∷ (cg_key_down, record caps_pressed { vk = 0 }) ∷ []

abbrev quiet : Tap
quiet = record { held = 0; caps = false }

far_latch-tap_after_example : far_latch typed quiet false ≡ (tap_after typed quiet).caps
far_latch-tap_after_example = far_latch-tap_after typed quiet (tt, ((λ e. ground (arith, e)), tt))
