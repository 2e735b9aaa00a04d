-- ===== src/Input/Keymap/Windows.antt =====
-- crates/omni-input/src/windows/keymap.rs.
use mathlib.Core.Option
use omnipresent.Prelude.{Option-cases, nat_beq_iff, Bool-cases, none, ◌≡◌, refl, arith, inl, inr}
use omnipresent.Input.Keymap.{distinct, usage-code, code-usage, codes_of, usages_of}
use omnipresent.Protocol.Input.{return_key, keypad_enter, KeyCode}
use omnipresent.Prelude.{
  list_eq, nat_eq, true, some, ◌==◌, if◌then◌else◌, Option, Bool, [], List, ◌∷◌, ℕ, refl,
}
use omnipresent.Input.Keymap.{
  has, Table, usage_of, code_of, usage-code, code-usage, codes_of, usages_of,
}

abbrev vk_return : ℕ
vk_return = 0x0D

-- `VK_HID`
unfoldable pub windows_hid : Table
windows_hid =
    (0x41, 0x04)
    ∷ (0x42, 0x05)
    ∷ (0x43, 0x06)
    ∷ (0x44, 0x07)
    ∷ (0x45, 0x08)
    ∷ (0x46, 0x09)
    ∷ (0x47, 0x0A)
    ∷ (0x48, 0x0B)
    ∷ (0x49, 0x0C)
    ∷ (0x4A, 0x0D)
    ∷ (0x4B, 0x0E)
    ∷ (0x4C, 0x0F)
    ∷ (0x4D, 0x10)
    ∷ (0x4E, 0x11)
    ∷ (0x4F, 0x12)
    ∷ (0x50, 0x13)
    ∷ (0x51, 0x14)
    ∷ (0x52, 0x15)
    ∷ (0x53, 0x16)
    ∷ (0x54, 0x17)
    ∷ (0x55, 0x18)
    ∷ (0x56, 0x19)
    ∷ (0x57, 0x1A)
    ∷ (0x58, 0x1B)
    ∷ (0x59, 0x1C)
    ∷ (0x5A, 0x1D)
    ∷ (0x31, 0x1E)
    ∷ (0x32, 0x1F)
    ∷ (0x33, 0x20)
    ∷ (0x34, 0x21)
    ∷ (0x35, 0x22)
    ∷ (0x36, 0x23)
    ∷ (0x37, 0x24)
    ∷ (0x38, 0x25)
    ∷ (0x39, 0x26)
    ∷ (0x30, 0x27)
    ∷ (0x0D, 0x28)
    ∷ (0x1B, 0x29)
    ∷ (0x08, 0x2A)
    ∷ (0x09, 0x2B)
    ∷ (0x20, 0x2C)
    ∷ (0xBD, 0x2D)
    ∷ (0xBB, 0x2E)
    ∷ (0xDB, 0x2F)
    ∷ (0xDD, 0x30)
    ∷ (0xDC, 0x31)
    ∷ (0xBA, 0x33)
    ∷ (0xDE, 0x34)
    ∷ (0xC0, 0x35)
    ∷ (0xBC, 0x36)
    ∷ (0xBE, 0x37)
    ∷ (0xBF, 0x38)
    ∷ (0x14, 0x39)
    ∷ (0xE2, 0x64)
    ∷ (0x5D, 0x65)
    ∷ (0x70, 0x3A)
    ∷ (0x71, 0x3B)
    ∷ (0x72, 0x3C)
    ∷ (0x73, 0x3D)
    ∷ (0x74, 0x3E)
    ∷ (0x75, 0x3F)
    ∷ (0x76, 0x40)
    ∷ (0x77, 0x41)
    ∷ (0x78, 0x42)
    ∷ (0x79, 0x43)
    ∷ (0x7A, 0x44)
    ∷ (0x7B, 0x45)
    ∷ (0x7C, 0x68)
    ∷ (0x7D, 0x69)
    ∷ (0x7E, 0x6A)
    ∷ (0x7F, 0x6B)
    ∷ (0x80, 0x6C)
    ∷ (0x81, 0x6D)
    ∷ (0x82, 0x6E)
    ∷ (0x83, 0x6F)
    ∷ (0x84, 0x70)
    ∷ (0x85, 0x71)
    ∷ (0x86, 0x72)
    ∷ (0x87, 0x73)
    ∷ (0x2C, 0x46)
    ∷ (0x91, 0x47)
    ∷ (0x13, 0x48)
    ∷ (0x2D, 0x49)
    ∷ (0x24, 0x4A)
    ∷ (0x21, 0x4B)
    ∷ (0x2E, 0x4C)
    ∷ (0x23, 0x4D)
    ∷ (0x22, 0x4E)
    ∷ (0x27, 0x4F)
    ∷ (0x25, 0x50)
    ∷ (0x28, 0x51)
    ∷ (0x26, 0x52)
    ∷ (0x90, 0x53)
    ∷ (0x6F, 0x54)
    ∷ (0x6A, 0x55)
    ∷ (0x6D, 0x56)
    ∷ (0x6B, 0x57)
    ∷ (0x61, 0x59)
    ∷ (0x62, 0x5A)
    ∷ (0x63, 0x5B)
    ∷ (0x64, 0x5C)
    ∷ (0x65, 0x5D)
    ∷ (0x66, 0x5E)
    ∷ (0x67, 0x5F)
    ∷ (0x68, 0x60)
    ∷ (0x69, 0x61)
    ∷ (0x60, 0x62)
    ∷ (0x6E, 0x63)
    ∷ (0xA2, 0xE0)
    ∷ (0xA0, 0xE1)
    ∷ (0xA4, 0xE2)
    ∷ (0x5B, 0xE3)
    ∷ (0xA3, 0xE4)
    ∷ (0xA1, 0xE5)
    ∷ (0xA5, 0xE6)
    ∷ (0x5C, 0xE7)
    ∷ []

pub record VirtualKey : Type 0 where
  pub vk : ℕ
  pub extended : Bool

abbrev extended_vks : List ℕ
extended_vks =
    0x21 ∷ 0x22 ∷ 0x23 ∷ 0x24 ∷ 0x25 ∷ 0x26 ∷ 0x27 ∷ 0x28 ∷ 0x2D ∷ 0x2E ∷ 0xA3 ∷ 0xA5 ∷ 0x5B ∷ 0x5C
    ∷ 0x5D ∷ 0x6F ∷ 0x90 ∷ 0x2C ∷ []

-- `needs_extended_flag`
abbrev needs_extended_flag : ℕ → Bool
needs_extended_flag vk = has vk extended_vks

-- `hid_from_vk`
unfoldable pub hid_from_key : ℕ → Bool → Option KeyCode
hid_from_key vk extended =
    if vk == vk_return
    then some (if extended then keypad_enter else return_key)
    else usage_of windows_hid vk

-- `vk_from_hid`
unfoldable pub key_from_hid : KeyCode → Option VirtualKey
key_from_hid code =
    if code == keypad_enter
    then some (record { vk = vk_return; extended = true })
    else Option.map (λ vk. record { vk = vk; extended = needs_extended_flag vk })
        (code_of windows_hid code)

windows_codes-distinct : distinct (codes_of windows_hid) ≡ true
unfolding windows_hid
windows_codes-distinct = refl

windows_usages-distinct : distinct (usages_of windows_hid) ≡ true
unfolding windows_hid
windows_usages-distinct = refl

return_usage : usage_of windows_hid vk_return ≡ some return_key
unfolding windows_hid
return_usage = refl

return_code : code_of windows_hid return_key ≡ some vk_return
unfolding windows_hid
return_code = refl

enter_code : code_of windows_hid keypad_enter ≡ none
unfolding windows_hid
enter_code = refl

-- The left key of each modifier.
pub hid_from_key-left :
    (b : Bool)
    → (hid_from_key 0xA0 b ≡ some 0xE1)
      × (hid_from_key 0xA2 b ≡ some 0xE0)
      × (hid_from_key 0xA4 b ≡ some 0xE2)
      × (hid_from_key 0x5B b ≡ some 0xE3)
unfolding hid_from_key windows_hid
hid_from_key-left b = (refl, refl, refl, refl)

-- A key that is synthesized for a HID usage, and captured with the extended flag that it was given,
-- is captured as that usage.
pub hid_from_key-key_from_hid :
    (k : KeyCode) (v : VirtualKey) → key_from_hid k ≡ some v → hid_from_key v.vk v.extended ≡ some k
unfolding hid_from_key key_from_hid
hid_from_key-key_from_hid k v h = elim (Bool-cases (k == keypad_enter)) [
  | inl y ↦ ground (arith, nat_beq_iff k keypad_enter)
  | inr n ↦ elim (Option-cases (code_of windows_hid k)) [
    | inl e ↦ ground (arith, e, n)
    | inr (c, e) ↦
        let u = code-usage windows_hid c k windows_codes-distinct windows_usages-distinct e in
        ground (arith, u, return_usage, nat_beq_iff c vk_return, n, e, h)
  ]
]

-- A key that is captured as a HID usage, extended or not, is the virtual key that is synthesized for
-- that usage.
pub key_from_hid-hid_from_key :
    (c : ℕ) (b : Bool) (k : KeyCode)
    → hid_from_key c b ≡ some k
    → Option.map (λ v. v.vk) (key_from_hid k) ≡ some c
unfolding hid_from_key key_from_hid
key_from_hid-hid_from_key c b k h = elim (Bool-cases (c == vk_return)) [
  | inl y ↦ ground (arith, return_code)
  | inr n ↦
      let u =
        usage-code windows_hid c k windows_codes-distinct windows_usages-distinct (rw n at h) in
      ground (arith, u, enter_code, h, n)
]
