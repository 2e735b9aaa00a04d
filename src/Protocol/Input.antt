-- ===== src/Protocol/Input.antt =====
-- crates/omni-protocol/src/input.rs: input events, key codes, modifier sets, deltas. A key code is
-- its number, a modifier set the byte that holds its bits.
use Prim.Native.Nat.{bit_and, bit_or}
use omnipresent.Prelude.{
  nat_eq, ℕ, ◌-◌, Bool, Option, none, some, List, [], ◌∷◌, ◌||◌, if◌then◌else◌, ◌==◌, is_some,
}
use omnipresent.Prelude.Int.{ℤ}

pub data Action : Type 0 where
  press release : Action

abbrev pub KeyCode : Type 0
KeyCode = ℕ

abbrev pub return_key : KeyCode
return_key = 0x28

abbrev pub caps_lock : KeyCode
caps_lock = 0x39

abbrev pub keypad_enter : KeyCode
keypad_enter = 0x58

abbrev pub Modifiers : Type 0
Modifiers = ℕ

abbrev pub no_modifiers : Modifiers
no_modifiers = 0

abbrev pub shift : Modifiers
shift = 1

abbrev pub control : Modifiers
control = 2

abbrev pub alt : Modifiers
alt = 4

abbrev pub meta : Modifiers
meta = 8

-- `Modifiers::contains`
unfoldable pub contains : Modifiers → Modifiers → Bool
contains self other = bit_and self other == other

-- `Modifiers::with`
unfoldable pub with_modifiers : Modifiers → Modifiers → Modifiers
with_modifiers self other = bit_or self other

-- `Modifiers::without`; the complement `!other` of a byte is 255 - other.
unfoldable pub without : Modifiers → Modifiers → Modifiers
without self other = bit_and self (255 - other)

-- `Modifiers::difference`
unfoldable pub difference : Modifiers → Modifiers → Modifiers
difference self other = bit_and self (255 - other)

abbrev pub all_modifiers : List Modifiers
all_modifiers = shift ∷ control ∷ alt ∷ meta ∷ []

-- `KeyCode::modifier`
unfoldable pub modifier : KeyCode → Option Modifiers
modifier c =
    if c == 0xE0 || c == 0xE4
    then some control
    else if c == 0xE1 || c == 0xE5
    then some shift
    else if c == 0xE2 || c == 0xE6
    then some alt
    else if c == 0xE3 || c == 0xE7
    then some meta
    else none

-- `KeyCode::is_modifier`
unfoldable pub is_modifier : KeyCode → Bool
unfolding modifier
is_modifier c = is_some (modifier c)

pub data MouseButton : Type 0 where
  left right middle back forward : MouseButton
  other : ℕ → MouseButton

-- The fields are `i32` values.
pub record MouseDelta : Type 0 where
  pub dx : ℤ
  pub dy : ℤ

pub record ScrollDelta : Type 0 where
  pub dx : ℤ
  pub dy : ℤ

abbrev pub millilines_per_line : ℕ
millilines_per_line = 1000

pub data InputEvent : Type 0 where
  key : KeyCode → Action → Modifiers → InputEvent
  motion : MouseDelta → InputEvent
  pointer : ℤ → ℤ → InputEvent
  button : MouseButton → Action → InputEvent
  scroll : ScrollDelta → InputEvent
