-- ===== src/Protocol/Remap.antt =====
-- crates/omni-protocol/src/remap.rs: the relabelling of modifier keys on the way to a peer.
pub mod Laws
use omnipresent.Prelude.{
  nat_eq, list_eq, ℕ, Bool, true, false, Option, none, some, ◌||◌, if◌then◌else◌, ◌==◌,
}
use omnipresent.Prelude.Text.{Text, codes, trim, to_ascii_lowercase}
use omnipresent.Protocol.Input.{
  InputEvent, key, KeyCode, Modifiers, meta, control, contains, with_modifiers, without,
}

pub data ModifierSwap : Type 0 where
  unchanged meta_and_control : ModifierSwap

-- The `match` of `ModifierSwap::parse`, on the trimmed and lowered name.
abbrev pub swap_of_word : Text → Option ModifierSwap
swap_of_word w =
    if w == codes "none" || w == codes "off"
    then some unchanged
    else if w == codes "meta-control"
        || w == codes "meta_control"
        || w == codes "cmd-ctrl"
        || w == codes "swap"
        || w == codes "on"
    then some meta_and_control
    else none

unfoldable pub parse : Text → Option ModifierSwap
unfolding trim to_ascii_lowercase
parse name = swap_of_word (to_ascii_lowercase (trim name))

unfoldable pub swap_name : ModifierSwap → Text
swap_name unchanged = codes "none"
swap_name meta_and_control = codes "meta-control"

unfoldable pub swap_key : KeyCode → KeyCode
swap_key c =
    if c == 0xE0
    then 0xE3
    else if c == 0xE3
    then 0xE0
    else if c == 0xE4
    then 0xE7
    else if c == 0xE7
    then 0xE4
    else c

unfoldable pub swap_modifiers : Modifiers → Modifiers
unfolding contains with_modifiers without
swap_modifiers m =
    let swapped = without (without m meta) control in
    let swapped' = if contains m meta then with_modifiers swapped control else swapped in
    if contains m control then with_modifiers swapped' meta else swapped'

-- `ModifierSwap::apply`
unfoldable pub apply : ModifierSwap → InputEvent → InputEvent
apply unchanged event = event
apply meta_and_control (key code action modifiers) =
    key (swap_key code) action (swap_modifiers modifiers)
apply meta_and_control event = event
