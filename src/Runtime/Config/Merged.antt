-- ===== src/Runtime/Config/Merged.antt =====
-- The file of the configuration after a change that is merged into it.
use omnipresent.Prelude.{
  arith, ◌≡◌, Bool, true, false, Option, none, some, refl, ◌∙◌, nat_eq, list_eq, if◌then◌else◌,
}
use omnipresent.Prelude.Text.{Text}
use omnipresent.Prelude.Maps.{get}
use omnipresent.Prelude.Outcome.{ok}
use omnipresent.Protocol.Wire.{Bytes}
use omnipresent.Runtime.Identity.{File, Write, written, failed}
use omnipresent.Runtime.Daemon.Incoming.{Service}
use omnipresent.Runtime.Daemon.Links.{Response, done, refused, not_saved}
use omnipresent.Runtime.Config.{Config, Json, load, save, merge, write_file}

-- The same configuration, whatever the order of its maps.
pub record Like (c c' : Config) : Type 0 where
  pub same_port : c.port ≡ c'.port
  pub same_screen : c.screen ≡ c'.screen
  pub same_places : (h : Text) → get h c'.placements ≡ get h c.placements
  pub same_sharing : c'.clipboard_sharing_enabled ≡ c.clipboard_sharing_enabled
  pub same_swaps : (h : Text) → get h c'.modifier_swaps ≡ get h c.modifier_swaps

-- What is written as JSON is read as the same configuration.
abbrev pub IsFaithful : Json → Type 0
IsFaithful j =
    (c : Config) (bytes : Bytes)
    → j.print c ≡ some bytes
    → (c' : Config) × (j.read bytes ≡ some c') × Like c c'

-- The settings of the daemon are those of the configuration.
pub record Agrees (c : Config) (s : Service) : Type 0 where
  pub placed : (h : Text) → get h c.placements ≡ get h s.daemon.placements
  pub shared : c.clipboard_sharing_enabled ≡ s.sharing
  pub relabelled : (h : Text) → get h c.modifier_swaps ≡ get h s.daemon.modifier_swaps

abbrev pub is_kept : Response → Bool
is_kept done = true
is_kept refused = true
is_kept not_saved = false

module _ (j : Json) where
  -- Loading the file gives the settings of the daemon.
  abbrev pub IsRemembered : File × Service → Type 0
  IsRemembered (f, s) = (c : Config) × (load j f ≡ ok c) × Agrees c s

  wrote :
      (w : Write) (c : Config) (f : File) (printed : Option Bytes)
      → IsFaithful j
      → j.print c ≡ printed
      → (write_file w printed f).1 ≡ true
      → (c' : Config) × (load j (write_file w printed f).0 ≡ ok c') × Like c c'
  unfolding load
  wrote w c f none i e h = absurd (cc h)
  wrote (failed g) c f (some bytes) i e h = absurd (cc h)
  wrote written c f (some bytes) i e h = let (c', r, k) = i c bytes e in (c', rw r refl, k)

  -- A change that is merged into the file is what is loaded next.
  merged :
      (change : Config → Config) (w : Write) (f : File) (c : Config)
      → IsFaithful j
      → load j f ≡ ok c
      → (merge j change w f).1 ≡ true
      → (c' : Config) × (load j (merge j change w f).0 ≡ ok c') × Like (change c) c'
  unfolding merge save
  merged change w f c i e h =
      let g : merge j change w f ≡ save j w (change c) f = rw e refl in
      rw g (wrote w (change c) f (j.print (change c)) i refl (rw g at h))

  Agrees-Like : (c c' : Config) (s : Service) → Like c c' → Agrees c s → Agrees c' s
  Agrees-Like c c' s k a = record {
    placed = λ h. k.same_places h ∙ a.placed h;
    shared = k.same_sharing ∙ a.shared;
    relabelled = λ h. k.same_swaps h ∙ a.relabelled h;
  }

  -- A change that is merged into the file and made to the settings of the daemon.
  pub settled :
      (change : Config → Config) (w : Write) (f : File) (c : Config) (s : Service)
      → IsFaithful j
      → load j f ≡ ok c
      → Agrees (change c) s
      → is_kept (if (merge j change w f).1 then done else not_saved) ≡ true
      → IsRemembered ((merge j change w f).0, s)
  settled change w f c s i l a h =
      let saved : (merge j change w f).1 ≡ true = ground arith in
      let (c', r, k) = merged change w f c i l saved in (c', r, Agrees-Like (change c) c' s k a)
