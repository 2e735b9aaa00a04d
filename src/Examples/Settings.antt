-- ===== src/Examples/Settings.antt =====
-- Settings that are changed and kept, with files that hold nothing but the choice of sharing.
use omnipresent.Prelude.{
  ◌≡◌, ℕ, Bool, true, false, Option, none, some, List, [], ◌∷◌, zero, suc, refl, subst, list_eq,
  nat_eq,
}
use omnipresent.Prelude.Maps.{Map}
use omnipresent.Prelude.Text.{Text, codes}
use omnipresent.Protocol.Remap.{ModifierSwap}
use omnipresent.Protocol.Wire.{Bytes}
use omnipresent.Topology.Geometry.{Edge}
use omnipresent.Runtime.Identity.{Write, missing, written}
use omnipresent.Runtime.Daemon.Links.{parse_edge}
use omnipresent.Runtime.Config.{
  Config, Json, Setting, places, shares, default, load, save, merge, settle, place_saved,
  share_saved,
}
use omnipresent.Runtime.Config.Merged.{Like, IsFaithful, Agrees, IsRemembered}
use omnipresent.Runtime.Config.Remembered.{settle_all, settle_all-IsRemembered}
use omnipresent.Examples.Requests.{service}

abbrev print_parts :
    Option ℕ → Option (ℕ × ℕ) → Map Text Edge → Map Text ModifierSwap → Bool → Option Bytes
print_parts none none [] [] true = some (1 ∷ [])
print_parts none none [] [] false = some (0 ∷ [])
print_parts _ _ _ _ _ = none

abbrev sharing_only : Bool → Config
sharing_only b = record default { clipboard_sharing_enabled = b }

abbrev read_parts : Bytes → Option Config
read_parts (suc zero ∷ []) = some (sharing_only true)
read_parts (zero ∷ []) = some (sharing_only false)
read_parts _ = none

abbrev terse : Json
terse = record {
  print =
      λ c. print_parts c.port c.screen c.placements c.modifier_swaps c.clipboard_sharing_enabled;
  read = read_parts;
}

same : (c : Config) → Like c c
same c = record {
  same_port = refl;
  same_screen = refl;
  same_places = λ h. refl;
  same_sharing = refl;
  same_swaps = λ h. refl;
}

read-print_parts :
    (p : Option ℕ) (z : Option (ℕ × ℕ)) (m : Map Text Edge) (w : Map Text ModifierSwap) (b : Bool)
    (bytes : Bytes)
    → print_parts p z m w b ≡ some bytes
    → let c : Config = record {
      port = p;
      screen = z;
      placements = m;
      clipboard_sharing_enabled = b;
      modifier_swaps = w;
    } in
      (c' : Config) × (read_parts bytes ≡ some c') × Like c c'
read-print_parts none none [] [] true bytes h =
    let e : 1 ∷ [] ≡ bytes = cc h in
    (
      sharing_only true,
      subst (λ b. read_parts b ≡ some (sharing_only true)) e refl,
      same (sharing_only true),
    )
read-print_parts none none [] [] false bytes h =
    let e : 0 ∷ [] ≡ bytes = cc h in
    (
      sharing_only false,
      subst (λ b. read_parts b ≡ some (sharing_only false)) e refl,
      same (sharing_only false),
    )
read-print_parts (some p) z m w b bytes h = absurd (cc h)
read-print_parts none (some z) m w b bytes h = absurd (cc h)
read-print_parts none none (x ∷ m) w b bytes h = absurd (cc h)
read-print_parts none none [] (x ∷ w) b bytes h = absurd (cc h)

terse-IsFaithful : IsFaithful terse
terse-IsFaithful c bytes h =
    read-print_parts c.port c.screen c.placements c.modifier_swaps c.clipboard_sharing_enabled bytes
      h

default-Agrees : Agrees default service
default-Agrees = record { placed = λ h. refl; shared = refl; relabelled = λ h. refl }

abbrev settings : List (Write × Setting)
settings = (written, places (codes "cafe") (codes "middle")) ∷ (written, shares true) ∷ []

first-IsRemembered : IsRemembered terse (missing, service)
unfolding load
first-IsRemembered = (default, refl, default-Agrees)

none_failed : (settle_all terse settings (missing, service)).1 ≡ true
unfolding settle_all settle place_saved share_saved merge load save parse_edge
none_failed = refl

settle_all-IsRemembered_example :
    IsRemembered terse (settle_all terse settings (missing, service)).0
settle_all-IsRemembered_example =
    settle_all-IsRemembered terse settings missing service terse-IsFaithful first-IsRemembered
      none_failed
