-- ===== src/Input/Keymap/Linux.antt =====
-- crates/omni-input/src/linux/keymap.rs, and the modifier keys of linux/mod.rs.
use omnipresent.Prelude.{
  list_eq, nat_eq, ◌&&◌, false, ◌||◌, nat_beq_iff, Bool, ◌==◌, Option-cases, none, if◌then◌else◌,
  refl, arith, inl, inr,
}
use omnipresent.Protocol.Input.{modifier, Modifiers, KeyCode}
use omnipresent.Prelude.{◌↔◌, some, true, ◌≡◌, Option, [], ℕ, ◌∷◌, refl}
use omnipresent.Input.Keymap.{
  distinct, Table, usage_of, code_of, usage-code, code-usage, codes_of, usages_of,
}

-- `EVDEV_HID`
unfoldable pub evdev_hid : Table
evdev_hid =
    (1, 0x29)
    ∷ (2, 0x1E)
    ∷ (3, 0x1F)
    ∷ (4, 0x20)
    ∷ (5, 0x21)
    ∷ (6, 0x22)
    ∷ (7, 0x23)
    ∷ (8, 0x24)
    ∷ (9, 0x25)
    ∷ (10, 0x26)
    ∷ (11, 0x27)
    ∷ (12, 0x2D)
    ∷ (13, 0x2E)
    ∷ (14, 0x2A)
    ∷ (15, 0x2B)
    ∷ (16, 0x14)
    ∷ (17, 0x1A)
    ∷ (18, 0x08)
    ∷ (19, 0x15)
    ∷ (20, 0x17)
    ∷ (21, 0x1C)
    ∷ (22, 0x18)
    ∷ (23, 0x0C)
    ∷ (24, 0x12)
    ∷ (25, 0x13)
    ∷ (26, 0x2F)
    ∷ (27, 0x30)
    ∷ (28, 0x28)
    ∷ (29, 0xE0)
    ∷ (30, 0x04)
    ∷ (31, 0x16)
    ∷ (32, 0x07)
    ∷ (33, 0x09)
    ∷ (34, 0x0A)
    ∷ (35, 0x0B)
    ∷ (36, 0x0D)
    ∷ (37, 0x0E)
    ∷ (38, 0x0F)
    ∷ (39, 0x33)
    ∷ (40, 0x34)
    ∷ (41, 0x35)
    ∷ (42, 0xE1)
    ∷ (43, 0x31)
    ∷ (44, 0x1D)
    ∷ (45, 0x1B)
    ∷ (46, 0x06)
    ∷ (47, 0x19)
    ∷ (48, 0x05)
    ∷ (49, 0x11)
    ∷ (50, 0x10)
    ∷ (51, 0x36)
    ∷ (52, 0x37)
    ∷ (53, 0x38)
    ∷ (54, 0xE5)
    ∷ (55, 0x55)
    ∷ (56, 0xE2)
    ∷ (57, 0x2C)
    ∷ (58, 0x39)
    ∷ (59, 0x3A)
    ∷ (60, 0x3B)
    ∷ (61, 0x3C)
    ∷ (62, 0x3D)
    ∷ (63, 0x3E)
    ∷ (64, 0x3F)
    ∷ (65, 0x40)
    ∷ (66, 0x41)
    ∷ (67, 0x42)
    ∷ (68, 0x43)
    ∷ (69, 0x53)
    ∷ (70, 0x47)
    ∷ (71, 0x5F)
    ∷ (72, 0x60)
    ∷ (73, 0x61)
    ∷ (74, 0x56)
    ∷ (75, 0x5C)
    ∷ (76, 0x5D)
    ∷ (77, 0x5E)
    ∷ (78, 0x57)
    ∷ (79, 0x59)
    ∷ (80, 0x5A)
    ∷ (81, 0x5B)
    ∷ (82, 0x62)
    ∷ (83, 0x63)
    ∷ (86, 0x64)
    ∷ (87, 0x44)
    ∷ (88, 0x45)
    ∷ (96, 0x58)
    ∷ (97, 0xE4)
    ∷ (98, 0x54)
    ∷ (99, 0x46)
    ∷ (100, 0xE6)
    ∷ (102, 0x4A)
    ∷ (103, 0x52)
    ∷ (104, 0x4B)
    ∷ (105, 0x50)
    ∷ (106, 0x4F)
    ∷ (107, 0x4D)
    ∷ (108, 0x51)
    ∷ (109, 0x4E)
    ∷ (110, 0x49)
    ∷ (111, 0x4C)
    ∷ (117, 0x67)
    ∷ (119, 0x48)
    ∷ (125, 0xE3)
    ∷ (126, 0xE7)
    ∷ (127, 0x65)
    ∷ (183, 0x68)
    ∷ (184, 0x69)
    ∷ (185, 0x6A)
    ∷ (186, 0x6B)
    ∷ (187, 0x6C)
    ∷ (188, 0x6D)
    ∷ (189, 0x6E)
    ∷ (190, 0x6F)
    ∷ []

unfoldable pub hid_from_evdev : ℕ → Option KeyCode
hid_from_evdev code = usage_of evdev_hid code

unfoldable pub evdev_from_hid : KeyCode → Option ℕ
evdev_from_hid code = code_of evdev_hid code

evdev_codes-distinct : distinct (codes_of evdev_hid) ≡ true
unfolding evdev_hid
evdev_codes-distinct = refl

evdev_usages-distinct : distinct (usages_of evdev_hid) ≡ true
unfolding evdev_hid
evdev_usages-distinct = refl

-- The two look-ups are inverse to each other: an evdev code has a HID usage exactly when that usage
-- has this evdev code.
pub hid_from_evdev-evdev_from_hid :
    (c : ℕ) (k : KeyCode) → (hid_from_evdev c ≡ some k) ↔ (evdev_from_hid k ≡ some c)
unfolding hid_from_evdev evdev_from_hid
hid_from_evdev-evdev_from_hid c k = (
  usage-code evdev_hid c k evdev_codes-distinct evdev_usages-distinct,
  code-usage evdev_hid c k evdev_codes-distinct evdev_usages-distinct,
)

-- `modifier_mask` of linux/mod.rs
unfoldable pub modifier_mask : ℕ → Option ℕ
modifier_mask code =
    if code == 42 || code == 54
    then some 1
    else if code == 29 || code == 97
    then some 2
    else if code == 56 || code == 100
    then some 4
    else if code == 125 || code == 126
    then some 8
    else none

abbrev pub modifier_of : Option KeyCode → Option Modifiers
modifier_of none = none
modifier_of (some k) = modifier k

abbrev same_mask : Option Modifiers → Option Modifiers → Bool
same_mask none none = true
same_mask none (some b) = false
same_mask (some a) none = false
same_mask (some a) (some b) = a == b

same_mask_lem : (p q : Option Modifiers) → same_mask p q ≡ true → p ≡ q
same_mask_lem none none h = refl
same_mask_lem none (some b) h = cc
same_mask_lem (some a) none h = cc
same_mask_lem (some a) (some b) h = ground (arith, nat_beq_iff a b)

unfoldable masks_agree : Table → Bool
masks_agree [] = true
masks_agree ((c, k) ∷ t) = same_mask (modifier_mask c) (modifier k) && masks_agree t

usage_mask :
    (table : Table) (c u : ℕ)
    → masks_agree table ≡ true
    → usage_of table c ≡ some u
    → modifier_mask c ≡ modifier u
unfolding masks_agree
usage_mask [] c u p h = cc
usage_mask ((d, v) ∷ t) c u p h =
    ground (arith, same_mask_lem (modifier_mask d) (modifier v), usage_mask t c u)

evdev_masks : masks_agree evdev_hid ≡ true
unfolding evdev_hid masks_agree modifier_mask modifier
evdev_masks = refl

no_usage : (c : ℕ) → hid_from_evdev c ≡ none → modifier_mask c ≡ none
unfolding hid_from_evdev evdev_hid modifier_mask
no_usage c h = ground arith

-- The keys that Linux counts as modifiers, with their bits, are those whose HID usage the protocol
-- takes for a modifier.
pub modifier_mask_lem : (c : ℕ) → modifier_mask c ≡ modifier_of (hid_from_evdev c)
unfolding hid_from_evdev
modifier_mask_lem c = elim (Option-cases (usage_of evdev_hid c)) [
  | inl e ↦ rw e (no_usage c e)
  | inr (u, e) ↦ rw e (usage_mask evdev_hid c u evdev_masks e)
]
