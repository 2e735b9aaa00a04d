-- ===== src/Input/Keymap.antt =====
-- The two look-ups in a table of (platform key code, HID usage) pairs, which the keymaps of the
-- three platforms share (crates/omni-input/src/{linux,macos,windows}/keymap.rs).
pub mod Linux
pub mod Macos
pub mod Windows
use omnipresent.Prelude.{
  ◌&&◌, [], not, ◌||◌, ◌∷◌, list_eq, nat_eq, some, true, false, ◌==◌, ◌≡◌, map, Bool, Option, ℕ,
  List, arith, refl,
}
use omnipresent.Prelude.Lists.{find}
use mathlib.Core.Option

abbrev pub Table : Type 0
Table = List (ℕ × ℕ)

-- `.find(|&&(c, _)| c == code).map(|&(_, hid)| …)`
abbrev pub usage_of : Table → ℕ → Option ℕ
usage_of table code = Option.map (λ e. e.1) (find (λ e. e.0 == code) table)

-- `.find(|&&(_, hid)| hid == …).map(|&(c, _)| c)`
abbrev pub code_of : Table → ℕ → Option ℕ
code_of table usage = Option.map (λ e. e.0) (find (λ e. e.1 == usage) table)

abbrev has : ℕ → List ℕ → Bool
has x [] = false
has x (y ∷ ys) = x == y || has x ys

-- No number occurs twice.
abbrev pub distinct : List ℕ → Bool
distinct [] = true
distinct (x ∷ xs) = not (has x xs) && distinct xs

abbrev pub codes_of : Table → List ℕ
codes_of table = map (λ e. e.0) table

abbrev pub usages_of : Table → List ℕ
usages_of table = map (λ e. e.1) table

usage_in : (table : Table) (c u : ℕ) → usage_of table c ≡ some u → has u (usages_of table) ≡ true
usage_in [] c u h = cc
usage_in ((d, v) ∷ t) c u h = ground (arith, usage_in t c u)

code_in : (table : Table) (u c : ℕ) → code_of table u ≡ some c → has c (codes_of table) ≡ true
code_in [] u c h = cc
code_in ((d, v) ∷ t) u c h = ground (arith, code_in t u c)

pub usage-code :
    (table : Table) (c u : ℕ)
    → distinct (codes_of table) ≡ true
    → distinct (usages_of table) ≡ true
    → usage_of table c ≡ some u
    → code_of table u ≡ some c
usage-code [] c u p q h = cc
usage-code ((d, v) ∷ t) c u p q h = ground (arith, usage_in t c u, usage-code t c u)

pub code-usage :
    (table : Table) (c u : ℕ)
    → distinct (codes_of table) ≡ true
    → distinct (usages_of table) ≡ true
    → code_of table u ≡ some c
    → usage_of table c ≡ some u
code-usage [] c u p q h = cc
code-usage ((d, v) ∷ t) c u p q h = ground (arith, code_in t u c, code-usage t c u)
