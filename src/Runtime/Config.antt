-- ===== src/Runtime/Config.antt =====
-- crates/omni-runtime/src/config.rs: the user's configuration and its file, and how the commands of
-- crates/omni-runtime/src/daemon.rs that change a setting keep it there. JSON is an external
-- library's, and so is what becomes of a write. Where the files are kept is left out.
pub mod Merged
pub mod Remembered
use omnipresent.Prelude.{
  if◌then◌else◌, ℕ, ◌≡◌, Bool, true, false, Option, none, some, [], ◌∷◌, nat_eq, list_eq,
}
use omnipresent.Prelude.Text.{Text}
use omnipresent.Prelude.Maps.{Map, get, insert}
use omnipresent.Prelude.Outcome.{Outcome, ok, err, ◌>>=◌}
use omnipresent.Protocol.Remap.{ModifierSwap, unchanged}
use omnipresent.Protocol.Remap
use omnipresent.Protocol.Wire.{Bytes}
use omnipresent.Topology.Geometry.{Edge}
use omnipresent.Runtime.Identity.{File, holds, missing, unreadable, Write, written, failed}
use omnipresent.Runtime.Daemon.Incoming.{Service}
use omnipresent.Runtime.Daemon.Links.{
  set_layout, set_modifier_swap, parse_edge, Response, done, refused, not_saved,
}
use omnipresent.Runtime.Daemon.Commands.{set_clipboard}

abbrev pub default_port : ℕ
default_port = 4733

pub record Config : Type 0 where
  pub port : Option ℕ
  pub screen : Option (ℕ × ℕ)
  pub placements : Map Text Edge
  pub clipboard_sharing_enabled : Bool
  pub modifier_swaps : Map Text ModifierSwap

-- `Config::default`
abbrev pub default : Config
default = record {
  port = none;
  screen = none;
  placements = [];
  clipboard_sharing_enabled = false;
  modifier_swaps = [];
}

abbrev pub or_else {ℓ} : {A : Type ℓ} → A → Option A → A
or_else a none = a
or_else a (some b) = b

-- `Config::port`
unfoldable pub port : Config → ℕ
port c = or_else default_port c.port

-- `Config::edge_for`
unfoldable pub edge_for : Text → Config → Option Edge
unfolding get
edge_for host c = get host c.placements

-- `Config::modifier_swap_for`
unfoldable pub modifier_swap_for : Text → Config → ModifierSwap
unfolding get
modifier_swap_for host c = or_else unchanged (get host c.modifier_swaps)

pub data ConfigError : Type 0 where
  io parse : ConfigError

-- Writing a configuration as JSON and reading it.
pub record Json : Type 0 where
  pub print : Config → Option Bytes
  pub read : Bytes → Option Config

abbrev by_parse : Option Config → Outcome ConfigError Config
by_parse none = err parse
by_parse (some c) = ok c

abbrev write_file : Write → Option Bytes → File → File × Bool
write_file w none f = (f, false)
write_file written (some bytes) f = (holds bytes, true)
write_file (failed g) (some bytes) f = (g, false)

-- The commands that change a setting.
pub data Setting : Type 0 where
  places relabels : Text → Text → Setting
  shares : Bool → Setting

module _ (json : Json) where
  -- `Config::load`
  unfoldable pub load : File → Outcome ConfigError Config
  load (holds bytes) = by_parse (json.read bytes)
  load missing = ok default
  load unreadable = err io

  -- `Config::save`, and whether it succeeds.
  unfoldable pub save : Write → Config → File → File × Bool
  save w c f = write_file w (json.print c) f

  abbrev save_changed : (Config → Config) → Write → File → Outcome ConfigError Config → File × Bool
  save_changed change w f (ok c) = save w (change c) f
  save_changed change w f (err e) = (f, false)
  save_changed change w f Outcome.panic = (f, false)

  -- The configuration is loaded, changed and saved.
  unfoldable pub merge : (Config → Config) → Write → File → File × Bool
  unfolding load save
  merge change w f = save_changed change w f (load f)

  -- `set_layout` with what it does to the file.
  unfoldable pub place_saved : Write → Text → Text → File × Service → (File × Service) × Response
  unfolding merge set_layout
  place_saved w host edge (f, s) = elim (parse_edge edge) [
    | none ↦ ((f, s), refused)
    | some e ↦
        let r = merge (λ c. record c { placements = insert host e c.placements }) w f in
        let t = set_layout r.1 host edge s.daemon in ((r.0, record s { daemon = t.0 }), t.1)
  ]

  -- `set_modifier_swap` with what it does to the file.
  unfoldable pub relabel_saved : Write → Text → Text → File × Service → (File × Service) × Response
  unfolding merge set_modifier_swap
  relabel_saved w host swap (f, s) = elim (Remap.parse swap) [
    | none ↦ ((f, s), refused)
    | some x ↦
        let r = merge (λ c. record c { modifier_swaps = insert host x c.modifier_swaps }) w f in
        let t = set_modifier_swap r.1 host swap s.daemon in ((r.0, record s { daemon = t.0 }), t.1)
  ]

  -- `set_clipboard` with what it does to the file.
  unfoldable pub share_saved : Write → Bool → File × Service → (File × Service) × Response
  unfolding merge set_clipboard
  share_saved w enabled (f, s) =
      let r = merge (λ c. record c { clipboard_sharing_enabled = enabled }) w f in
      ((r.0, (set_clipboard r.1 enabled s).0), if r.1 then done else not_saved)

  unfoldable pub settle : Write → Setting → File × Service → (File × Service) × Response
  unfolding place_saved relabel_saved share_saved
  settle w (places host edge) p = place_saved w host edge p
  settle w (relabels host swap) p = relabel_saved w host swap p
  settle w (shares enabled) p = share_saved w enabled p
