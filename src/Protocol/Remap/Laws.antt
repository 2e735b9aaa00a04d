-- ===== src/Protocol/Remap/Laws.antt =====
-- The relabelling undoes itself, moves a key and its modifier together, and its names parse back.
use omnipresent.Prelude.{nat_eq, ℕ, ◌<◌, ◌≡◌, refl, Bool, true, some, arith, ◌==◌, nat_beq_iff}
use mathlib.Core.Option
use omnipresent.Prelude.Bounded.{holds_below, tested}
use omnipresent.Protocol.Input.{InputEvent, key, motion, pointer, button, scroll, KeyCode, modifier}
use omnipresent.Protocol.Remap.{
  ModifierSwap, unchanged, meta_and_control, parse, swap_name, swap_key, swap_modifiers, apply,
}

abbrev comes_back : ℕ → Bool
comes_back m = swap_modifiers (swap_modifiers m) == m

every_byte : holds_below comes_back 256 ≡ true
unfolding holds_below swap_modifiers
every_byte = refl

swap_modifiers_twice : (m : ℕ) → m < 256 → swap_modifiers (swap_modifiers m) ≡ m
swap_modifiers_twice m h = (nat_beq_iff _ m).0 (tested comes_back 256 m h every_byte)

swap_key_twice : (c : KeyCode) → swap_key (swap_key c) ≡ c
unfolding swap_key
swap_key_twice c = ground arith

-- The modifiers of a key event fit their byte.
abbrev pub IsWire : InputEvent → Type 0
IsWire (key code action modifiers) = modifiers < 256
IsWire (motion d) = Unit
IsWire (pointer x y) = Unit
IsWire (button b a) = Unit
IsWire (scroll d) = Unit

-- Applying a swap twice to an event whose modifiers fit a byte gives the event back.
pub apply-apply : (s : ModifierSwap) (e : InputEvent) → IsWire e → apply s (apply s e) ≡ e
unfolding apply
apply-apply unchanged e h = refl
apply-apply meta_and_control (key code action modifiers) h =
    cc (swap_key_twice code, swap_modifiers_twice modifiers h)
apply-apply meta_and_control (motion d) h = refl
apply-apply meta_and_control (pointer x y) h = refl
apply-apply meta_and_control (button b a) h = refl
apply-apply meta_and_control (scroll d) h = refl

-- The modifier that a relabelled key controls is the relabelled modifier of the key, and relabelling
-- a key twice gives the key back.
pub modifier-swap_key :
    (c : KeyCode)
    → (modifier (swap_key c) ≡ Option.map swap_modifiers (modifier c)) × (swap_key (swap_key c) ≡ c)
unfolding swap_key modifier swap_modifiers
modifier-swap_key c = (ground arith, swap_key_twice c)

-- The name of each swap parses back to it.
pub parse-swap_name : (s : ModifierSwap) → parse (swap_name s) ≡ some s
unfolding parse swap_name
parse-swap_name unchanged = refl
parse-swap_name meta_and_control = refl
