-- ===== src/Input/Keymap/Macos.antt =====
-- crates/omni-input/src/macos/keymap.rs.
use omnipresent.Protocol.Input.{KeyCode}
use omnipresent.Prelude.{◌↔◌, some, true, ◌≡◌, Option, [], ℕ, ◌∷◌, refl}
use omnipresent.Input.Keymap.{
  distinct, Table, usage_of, code_of, usage-code, code-usage, codes_of, usages_of,
}

-- `VK_HID`
unfoldable pub vk_hid : Table
vk_hid =
    (0, 0x04)
    ∷ (11, 0x05)
    ∷ (8, 0x06)
    ∷ (2, 0x07)
    ∷ (14, 0x08)
    ∷ (3, 0x09)
    ∷ (5, 0x0A)
    ∷ (4, 0x0B)
    ∷ (34, 0x0C)
    ∷ (38, 0x0D)
    ∷ (40, 0x0E)
    ∷ (37, 0x0F)
    ∷ (46, 0x10)
    ∷ (45, 0x11)
    ∷ (31, 0x12)
    ∷ (35, 0x13)
    ∷ (12, 0x14)
    ∷ (15, 0x15)
    ∷ (1, 0x16)
    ∷ (17, 0x17)
    ∷ (32, 0x18)
    ∷ (9, 0x19)
    ∷ (13, 0x1A)
    ∷ (7, 0x1B)
    ∷ (16, 0x1C)
    ∷ (6, 0x1D)
    ∷ (18, 0x1E)
    ∷ (19, 0x1F)
    ∷ (20, 0x20)
    ∷ (21, 0x21)
    ∷ (23, 0x22)
    ∷ (22, 0x23)
    ∷ (26, 0x24)
    ∷ (28, 0x25)
    ∷ (25, 0x26)
    ∷ (29, 0x27)
    ∷ (36, 0x28)
    ∷ (53, 0x29)
    ∷ (51, 0x2A)
    ∷ (48, 0x2B)
    ∷ (49, 0x2C)
    ∷ (27, 0x2D)
    ∷ (24, 0x2E)
    ∷ (33, 0x2F)
    ∷ (30, 0x30)
    ∷ (42, 0x31)
    ∷ (41, 0x33)
    ∷ (39, 0x34)
    ∷ (50, 0x35)
    ∷ (43, 0x36)
    ∷ (47, 0x37)
    ∷ (44, 0x38)
    ∷ (57, 0x39)
    ∷ (10, 0x64)
    ∷ (110, 0x65)
    ∷ (122, 0x3A)
    ∷ (120, 0x3B)
    ∷ (99, 0x3C)
    ∷ (118, 0x3D)
    ∷ (96, 0x3E)
    ∷ (97, 0x3F)
    ∷ (98, 0x40)
    ∷ (100, 0x41)
    ∷ (101, 0x42)
    ∷ (109, 0x43)
    ∷ (103, 0x44)
    ∷ (111, 0x45)
    ∷ (105, 0x68)
    ∷ (107, 0x69)
    ∷ (113, 0x6A)
    ∷ (106, 0x6B)
    ∷ (64, 0x6C)
    ∷ (79, 0x6D)
    ∷ (80, 0x6E)
    ∷ (90, 0x6F)
    ∷ (114, 0x49)
    ∷ (115, 0x4A)
    ∷ (116, 0x4B)
    ∷ (117, 0x4C)
    ∷ (119, 0x4D)
    ∷ (121, 0x4E)
    ∷ (124, 0x4F)
    ∷ (123, 0x50)
    ∷ (125, 0x51)
    ∷ (126, 0x52)
    ∷ (71, 0x53)
    ∷ (75, 0x54)
    ∷ (67, 0x55)
    ∷ (78, 0x56)
    ∷ (69, 0x57)
    ∷ (76, 0x58)
    ∷ (83, 0x59)
    ∷ (84, 0x5A)
    ∷ (85, 0x5B)
    ∷ (86, 0x5C)
    ∷ (87, 0x5D)
    ∷ (88, 0x5E)
    ∷ (89, 0x5F)
    ∷ (91, 0x60)
    ∷ (92, 0x61)
    ∷ (82, 0x62)
    ∷ (65, 0x63)
    ∷ (81, 0x67)
    ∷ (59, 0xE0)
    ∷ (56, 0xE1)
    ∷ (58, 0xE2)
    ∷ (55, 0xE3)
    ∷ (62, 0xE4)
    ∷ (60, 0xE5)
    ∷ (61, 0xE6)
    ∷ (54, 0xE7)
    ∷ []

unfoldable pub hid_from_vk : ℕ → Option KeyCode
hid_from_vk vk = usage_of vk_hid vk

unfoldable pub vk_from_hid : KeyCode → Option ℕ
vk_from_hid code = code_of vk_hid code

vk_codes-distinct : distinct (codes_of vk_hid) ≡ true
unfolding vk_hid
vk_codes-distinct = refl

vk_usages-distinct : distinct (usages_of vk_hid) ≡ true
unfolding vk_hid
vk_usages-distinct = refl

-- The two look-ups are inverse to each other: a macOS virtual key has a HID usage exactly when that
-- usage has this virtual key.
pub hid_from_vk-vk_from_hid :
    (c : ℕ) (k : KeyCode) → (hid_from_vk c ≡ some k) ↔ (vk_from_hid k ≡ some c)
unfolding hid_from_vk vk_from_hid
hid_from_vk-vk_from_hid c k = (
  usage-code vk_hid c k vk_codes-distinct vk_usages-distinct,
  code-usage vk_hid c k vk_codes-distinct vk_usages-distinct,
)
