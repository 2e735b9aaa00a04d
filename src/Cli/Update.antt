-- ===== src/Cli/Update.antt =====
-- crates/omni-cli/src/update.rs: `omni update`. What GitHub answers, and whether the download, the
-- unpacking and the replacement of the binary succeed, are arguments; what is printed is left out.
use omnipresent.Prelude.{
  ◌≡◌, ◌==◌, ◌&&◌, ◌||◌, ◌++◌, Bool, true, false, Option, none, some, List, [], ◌∷◌, list_eq,
  nat_eq, if◌then◌else◌, refl, Bool-cases, inl, inr, Option-cases, arith,
}
use omnipresent.Prelude.Text.{Text, codes}
use omnipresent.Runtime.Daemon.Commands.{Request, get_status}
use omnipresent.Runtime.Daemon.Commands
use omnipresent.Cli.{Talk, request, is_ok}

-- `asset_platform`, of the operating system and the processor.
unfoldable pub asset_platform : Text → Text → Option Text
asset_platform os arch =
    if os == codes "macos" && arch == codes "aarch64"
    then some (codes "macos-arm64")
    else if os == codes "linux" && arch == codes "x86_64"
    then some (codes "linux-x64")
    else if os == codes "windows" && arch == codes "x86_64"
    then some (codes "windows-x64")
    else none

-- `trim_start_matches('v')`
abbrev pub trim_v : Text → Text
trim_v [] = []
trim_v (c ∷ cs) = let rest = trim_v cs in if c == b'v' then rest else c ∷ cs

-- Whether each step of `download_and_replace` succeeds.
pub record Steps : Type 0 where
  pub prepared : Bool
  pub downloaded : Bool
  pub unpacked : Bool
  pub contained : Bool
  pub replaced : Bool

-- `download_and_replace`: whether the running binary was replaced.
unfoldable pub download_and_replace : Steps → Bool
download_and_replace s = s.prepared && s.downloaded && s.unpacked && s.contained && s.replaced

-- What an update does to the machine.
pub data Deed : Type 0 where
  asks : Request → Deed
  replaces restarts : Deed

abbrev when : Bool → Deed → List Deed
when true d = d ∷ []
when false d = []

abbrev replaced_or : Bool → Bool → List Deed → List Deed × Bool
replaced_or ran true deeds = (deeds ++ (replaces ∷ when ran restarts), true)
replaced_or ran false deeds = (deeds, false)

-- From a version that is not this one.
abbrev to_version : Bool → Steps → List Deed × Bool
to_version ran steps =
    replaced_or ran (download_and_replace steps) (asks get_status ∷ when ran (asks Commands.stop))

abbrev from_tag : Text → Bool → Steps → Option Text → List Deed × Bool
from_tag current ran steps none = ([], false)
from_tag current ran steps (some tag) = elim (trim_v tag == current) [
  | true ↦ ([], true)
  | false ↦ to_version ran steps
]

abbrev on_platform : Text → Bool → Steps → Option Text → Option Text → List Deed × Bool
on_platform current ran steps tag none = ([], false)
on_platform current ran steps tag (some platform) = from_tag current ran steps tag

-- `update`: what it does, in order, and whether it exits with success. `tag` is the name of the
-- latest release, if GitHub names one.
unfoldable pub update : Talk → Text → Text → Text → Option Text → Steps → List Deed × Bool
unfolding request asset_platform download_and_replace
update talk os arch current tag steps =
    on_platform current (is_ok (request talk get_status)) steps tag (asset_platform os arch)

abbrev is_restart : Deed → Bool
is_restart restarts = true
is_restart replaces = false
is_restart (asks r) = false

abbrev is_stop : Deed → Bool
is_stop (asks Commands.stop) = true
is_stop _ = false

abbrev pub some_deed : (Deed → Bool) → List Deed → Bool
some_deed test [] = false
some_deed test (d ∷ ds) = test d || some_deed test ds

-- The daemon is started again exactly if it was stopped and the binary was replaced.
update_to :
    (ran : Bool) (steps : Steps)
    → let u = to_version ran steps in
      (some_deed is_stop u.0 ≡ ran)
      × (u.1 ≡ download_and_replace steps)
      × (some_deed is_restart u.0 ≡ (some_deed is_stop u.0 && u.1))
update_to ran steps = ground arith

-- Whatever GitHub answers and whatever fails: the daemon is started again exactly if it was stopped
-- and the update succeeded.
update_lem :
    (talk : Talk) (os arch current : Text) (tag : Option Text) (steps : Steps)
    → let u = update talk os arch current tag steps in
      some_deed is_restart u.0 ≡ (some_deed is_stop u.0 && u.1)
unfolding update
update_lem talk os arch current tag steps = elim (Option-cases (asset_platform os arch)) [
  | inl n ↦ rw (n, update) refl
  | inr (p, e) ↦ elim (Option-cases tag) [
    | inl n ↦ rw (e, n, update) refl
    | inr (t, k) ↦ elim (Bool-cases (trim_v t == current)) [
      | inl y ↦ rw (e, k, update, y, from_tag) refl
      | inr o ↦ rw (e, k, update, o, from_tag) (update_to (is_ok (request talk get_status)) steps).2
    ]
  ]
]
