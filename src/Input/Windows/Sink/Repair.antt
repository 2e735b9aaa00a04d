-- ===== src/Input/Windows/Sink/Repair.antt =====
-- The modifier keys that Windows has down are those that the events say are held.
use omnipresent.Input.Windows.Sink.{
  set_cursor, mouse_input, change_held, key_input, modifier_key, Call,
}
use omnipresent.Prelude.{
  some, ◌<◌, arith, ltb, ℕ, ◌≡◌, Bool, true, false, List, [], ◌∷◌, ◌&&◌, not, ◌==◌, nat_eq,
  if◌then◌else◌, refl, pair_eq, is_some,
}
use omnipresent.Prelude.Bounded.{tested, holds_below}
use omnipresent.Protocol.Input.{
  Action, press, release, Modifiers, contains, with_modifiers, without, shift, control, alt, meta,
}

-- Whether the virtual key is down after the calls, the newest of which is first.
abbrev pub down : List Call → ℕ → Bool
down [] vk = false
down (key_input v extended action ∷ calls) vk =
    let rest = down calls vk in
    if v == vk then elim action [ press ↦ true | release ↦ false ] else rest
down (mouse_input f d x y ∷ calls) vk = down calls vk
down (set_cursor x y ∷ calls) vk = down calls vk

-- For each of Shift, Control, Alt and Meta.
abbrev pub Four : Type 0
Four = Bool × Bool × Bool × Bool

abbrev pub four : (Modifiers → Bool) → Four
four f = (f shift, f control, f alt, f meta)

abbrev pub bits : Modifiers → Four
bits m = four (contains m)

-- The left key of each, which stands for the modifier.
abbrev pub keys_down : List Call → Four
keys_down calls = (down calls 0xA0, down calls 0xA2, down calls 0xA4, down calls 0x5B)

abbrev pub set_bit : Modifiers → Bool → Four → Four
set_bit m b f = (
  (if m == shift then b else f.0),
  (if m == control then b else f.1),
  (if m == alt then b else f.2),
  (if m == meta then b else f.3),
)

abbrev pub is_press : Action → Bool
is_press press = true
is_press release = false

abbrev same : Bool → Bool → Bool
same true b = b
same false b = not b

abbrev four_beq : Four → Four → Bool
four_beq f g = same f.0 g.0 && (same f.1 g.1 && (same f.2 g.2 && same f.3 g.3))

same_eq : (a b : Bool) → same a b ≡ true → a ≡ b
same_eq true b h = ground arith
same_eq false b h = ground arith

four_eq : (f g : Four) → four_beq f g ≡ true → f ≡ g
four_eq f g h = ground (arith, same_eq f.0 g.0, same_eq f.1 g.1, same_eq f.2 g.2, same_eq f.3 g.3)

abbrev change_test : Action → ℕ → ℕ → Bool
change_test a m h =
    if is_some (modifier_key m)
    then four_beq (bits (change_held m a h)) (set_bit m (is_press a) (bits h))
      && ltb (change_held m a h) 16
    else true

every_press : holds_below (λ m. holds_below (change_test press m) 16) 16 ≡ true
unfolding holds_below modifier_key contains with_modifiers
every_press = refl

every_release : holds_below (λ m. holds_below (change_test release m) 16) 16 ≡ true
unfolding holds_below modifier_key contains without
every_release = refl

and_left : (a b : Bool) → (a && b) ≡ true → a ≡ true
and_left a b h = ground arith

and_right : (a b : Bool) → (a && b) ≡ true → b ≡ true
and_right a b h = ground arith

lt_of_ltb : (a b : ℕ) → ltb a b ≡ true → a < b
lt_of_ltb a b h = ground arith

pub modifier_key-lt : (m vk : ℕ) → modifier_key m ≡ some vk → m < 16
unfolding modifier_key
modifier_key-lt m vk h = ground arith

every_change : (a : Action) → holds_below (λ m. holds_below (change_test a m) 16) 16 ≡ true
every_change press = every_press
every_change release = every_release

pub change_held_lem :
    (a : Action) (m vk h : ℕ)
    → modifier_key m ≡ some vk
    → h < 16
    → (bits (change_held m a h) ≡ set_bit m (is_press a) (bits h)) × (change_held m a h < 16)
change_held_lem a m vk h e l =
    let rows =
      tested (λ i. holds_below (change_test a i) 16) 16 m (modifier_key-lt m vk e)
        (every_change a) in
    let t : change_test a m h ≡ true = tested (change_test a m) 16 h l rows in
    let u = rw e at t in
    let b = bits (change_held m a h) in
    let c = set_bit m (is_press a) (bits h) in
    (
      four_eq b c (and_left (four_beq b c) (ltb (change_held m a h) 16) u),
      lt_of_ltb (change_held m a h) 16 (and_right (four_beq b c) _ u),
    )

pub sent_lem :
    (a : Action) (x : Bool) (m vk : ℕ) (calls : List Call)
    → modifier_key m ≡ some vk
    → keys_down (key_input vk x a ∷ calls) ≡ set_bit m (is_press a) (keys_down calls)
unfolding modifier_key
sent_lem a x m vk calls h = ground arith
