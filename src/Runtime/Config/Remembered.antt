-- ===== src/Runtime/Config/Remembered.antt =====
-- What was set is there after a restart.
use omnipresent.Prelude.{
  subst, arith, ◌≡◌, Bool, true, some, List, [], ◌∷◌, ◌&&◌, refl, inl, inr, ap, sym, ◌∙◌, nat_eq,
  list_eq, Bool-cases, Option-cases, if◌then◌else◌,
}
use omnipresent.Prelude.Text.{Text}
use omnipresent.Prelude.Maps.{Map, get, insert, get-insert}
use omnipresent.Protocol.Remap
use omnipresent.Protocol.Remap.{ModifierSwap}
use omnipresent.Protocol.Ids.{MachineId}
use omnipresent.Topology.Geometry.{Edge}
use omnipresent.Runtime.Identity.{File, Write}
use omnipresent.Runtime.Daemon.{Daemon, PeerLink, rebuild_layout, sync_suppression, notify_change}
use omnipresent.Runtime.Daemon.Incoming.{Service}
use omnipresent.Runtime.Daemon.Commands.{set_clipboard}
use omnipresent.Runtime.Daemon.Links.{
  done, not_saved, parse_edge, place_host, set_layout, set_modifier_swap, relabel_host, some_links,
  change_links,
}
use omnipresent.Runtime.Config.{
  Config, Json, Setting, places, relabels, shares, merge, place_saved, relabel_saved, share_saved,
  settle,
}
use omnipresent.Runtime.Config.Merged.{IsFaithful, Agrees, is_kept, settled, IsRemembered}

place_host-placements :
    (host : Text) (e : Edge) (d : Daemon)
    → ((place_host host e d).placements ≡ insert host e d.placements)
      × ((place_host host e d).modifier_swaps ≡ d.modifier_swaps)
unfolding place_host rebuild_layout sync_suppression notify_change
place_host-placements host e d =
    let l : Map MachineId PeerLink = change_links host (λ l. record l { edge = e }) d.links in
    elim (Bool-cases (some_links l)) [ inl y ↦ rw y (refl, refl) | inr n ↦ rw n (refl, refl) ]

module _ (j : Json) where
  -- Both maps after the same insertion.
  inserted :
      {V : Type 0} (host : Text) (x : V) (m n : Map Text V)
      → ((h : Text) → get h m ≡ get h n)
      → (h : Text) → get h (insert host x m) ≡ get h (insert host x n)
  inserted host x m n e h = rw (get-insert host h x m, get-insert host h x n, e h) refl

  set_layout-some :
      (b : Bool) (host edge : Text) (x : Edge) (d : Daemon)
      → parse_edge edge ≡ some x
      → set_layout b host edge d ≡ (place_host host x d, if b then done else not_saved)
  unfolding set_layout
  set_layout-some b host edge x d e = rw (e, set_layout) refl

  place_saved-some :
      (w : Write) (host edge : Text) (x : Edge) (f : File) (s : Service)
      → parse_edge edge ≡ some x
      → let r = merge j (λ c. record c { placements = insert host x c.placements }) w f in
        place_saved j w host edge (f, s)
        ≡ ((r.0, record s { daemon = place_host host x s.daemon }), if r.1 then done else not_saved)
  unfolding place_saved
  place_saved-some w host edge x f s e =
      let r = merge j (λ c. record c { placements = insert host x c.placements }) w f in
      rw (e, place_saved)
        (ap (λ t. ((r.0, record s { daemon = t.0 }), t.1))
          (set_layout-some r.1 host edge x s.daemon e))

  set_modifier_swap-some :
      (b : Bool) (host swap : Text) (x : ModifierSwap) (d : Daemon)
      → Remap.parse swap ≡ some x
      → set_modifier_swap b host swap d ≡ (relabel_host host x d, if b then done else not_saved)
  unfolding set_modifier_swap
  set_modifier_swap-some b host swap x d e = rw (e, set_modifier_swap) refl

  relabel_saved-some :
      (w : Write) (host swap : Text) (x : ModifierSwap) (f : File) (s : Service)
      → Remap.parse swap ≡ some x
      → let r = merge j (λ c. record c { modifier_swaps = insert host x c.modifier_swaps }) w f in
        relabel_saved j w host swap (f, s) ≡ (
          (r.0, record s { daemon = relabel_host host x s.daemon }),
          if r.1 then done else not_saved,
        )
  unfolding relabel_saved
  relabel_saved-some w host swap x f s e =
      let r = merge j (λ c. record c { modifier_swaps = insert host x c.modifier_swaps }) w f in
      rw (e, relabel_saved)
        (ap (λ t. ((r.0, record s { daemon = t.0 }), t.1))
          (set_modifier_swap-some r.1 host swap x s.daemon e))

  place_saved-IsRemembered :
      (w : Write) (host edge : Text) (f : File) (s : Service)
      → IsFaithful j
      → IsRemembered j (f, s)
      → is_kept (place_saved j w host edge (f, s)).1 ≡ true
      → IsRemembered j (place_saved j w host edge (f, s)).0
  unfolding place_saved set_layout
  place_saved-IsRemembered w host edge f s i (c, l, a) h = elim (Option-cases (parse_edge edge)) [
    | inl e ↦ rw (e, place_saved) (c, l, a)
    | inr (x, e) ↦
        let s' : Service = record s { daemon = place_host host x s.daemon } in
        let change : Config → Config = λ c. record c { placements = insert host x c.placements } in
        let q = place_host-placements host x s.daemon in
        let b : Agrees (change c) s' = record {
          placed = λ k.
              inserted host x c.placements s.daemon.placements a.placed k ∙ sym (ap (get k) q.0);
          shared = a.shared;
          relabelled = λ k. a.relabelled k ∙ sym (ap (get k) q.1);
        } in
        let g = place_saved-some w host edge x f s e in
        subst (λ r. IsRemembered j r.0) (sym g)
          (settled j change w f c s' i l b (subst (λ r. is_kept r.1 ≡ true) g h))
  ]

  relabel_saved-IsRemembered :
      (w : Write) (host swap : Text) (f : File) (s : Service)
      → IsFaithful j
      → IsRemembered j (f, s)
      → is_kept (relabel_saved j w host swap (f, s)).1 ≡ true
      → IsRemembered j (relabel_saved j w host swap (f, s)).0
  unfolding relabel_saved set_modifier_swap relabel_host notify_change
  relabel_saved-IsRemembered w host swap f s i (c, l, a) h =
      elim (Option-cases (Remap.parse swap)) [
        | inl e ↦ rw (e, relabel_saved) (c, l, a)
        | inr (x, e) ↦
            let s' : Service = record s { daemon = relabel_host host x s.daemon } in
            let change : Config → Config =
              λ c. record c { modifier_swaps = insert host x c.modifier_swaps } in
            let b : Agrees (change c) s' = record {
              placed = a.placed;
              shared = a.shared;
              relabelled = inserted host x c.modifier_swaps s.daemon.modifier_swaps a.relabelled;
            } in
            let g = relabel_saved-some w host swap x f s e in
            subst (λ r. IsRemembered j r.0) (sym g)
              (settled j change w f c s' i l b (subst (λ r. is_kept r.1 ≡ true) g h))
      ]

  share_saved-IsRemembered :
      (w : Write) (enabled : Bool) (f : File) (s : Service)
      → IsFaithful j
      → IsRemembered j (f, s)
      → is_kept (share_saved j w enabled (f, s)).1 ≡ true
      → IsRemembered j (share_saved j w enabled (f, s)).0
  unfolding share_saved set_clipboard notify_change
  share_saved-IsRemembered w enabled f s i (c, l, a) h =
      let change : Config → Config = λ c. record c { clipboard_sharing_enabled = enabled } in
      let s' : Service = (share_saved j w enabled (f, s)).0.1 in
      let b : Agrees (change c) s' = record {
        placed = a.placed;
        shared = refl;
        relabelled = a.relabelled;
      } in
      settled j change w f c s' i l b h

  settle-IsRemembered :
      (w : Write) (x : Setting) (f : File) (s : Service)
      → IsFaithful j
      → IsRemembered j (f, s)
      → is_kept (settle j w x (f, s)).1 ≡ true
      → IsRemembered j (settle j w x (f, s)).0
  unfolding settle
  settle-IsRemembered w (places host edge) f s i r h =
      place_saved-IsRemembered w host edge f s i r h
  settle-IsRemembered w (relabels host swap) f s i r h =
      relabel_saved-IsRemembered w host swap f s i r h
  settle-IsRemembered w (shares enabled) f s i r h = share_saved-IsRemembered w enabled f s i r h

  -- Some commands in a row, and whether none was answered with a failure to save.
  unfoldable pub settle_all : List (Write × Setting) → File × Service → (File × Service) × Bool
  unfolding settle
  settle_all [] p = (p, true)
  settle_all ((w, x) ∷ rest) p =
      let r = settle j w x p in let t = settle_all rest r.0 in (t.0, is_kept r.1 && t.1)

  -- With JSON that is read as it was written: when the file gives the settings of the daemon, it does
  -- so after any commands that place and relabel peers and turn clipboard sharing on or off, as long
  -- as none is answered with a failure to save. A daemon that loads the file then has the same edge
  -- and the same swap for each host and the same choice of sharing.
  pub settle_all-IsRemembered :
      (settings : List (Write × Setting)) (f : File) (s : Service)
      → IsFaithful j
      → IsRemembered j (f, s)
      → (settle_all settings (f, s)).1 ≡ true
      → IsRemembered j (settle_all settings (f, s)).0
  unfolding settle_all
  settle_all-IsRemembered [] f s i r h = r
  settle_all-IsRemembered ((w, x) ∷ rest) f s i r h =
      let p = (settle j w x (f, s)).0 in
      let k : is_kept (settle j w x (f, s)).1 ≡ true = ground arith in
      let t : (settle_all rest p).1 ≡ true = ground arith in
      settle_all-IsRemembered rest p.0 p.1 i (settle-IsRemembered w x f s i r k) t
