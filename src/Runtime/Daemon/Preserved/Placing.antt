-- ===== src/Runtime/Daemon/Preserved/Placing.antt =====
-- The commands that place a peer and relabel its keys keep the invariant.
use omnipresent.Runtime.Daemon.Preserved.Changes.{rebuilt_same}
use omnipresent.Runtime.Daemon.Layouts.{AllSized}
use omnipresent.Protocol.Remap.{ModifierSwap}
use omnipresent.Runtime.Daemon.Invariant.{IsValid, IsConsistent, IsCore}
use omnipresent.Prelude.Maps.{Map, get}
use omnipresent.Runtime.Daemon.{
  screen_of, keep_cursor, VirtualLayout, layout_of, MachineId, sync_suppression, Daemon,
  notify_change, place_link, rebuild_layout, Edge, PeerLink, place_links,
}
use omnipresent.Prelude.Text.{Text}
use omnipresent.Runtime.Daemon.Links.{some_links, relabel_host, place_host, change_links}
use mathlib.Core.Option
use omnipresent.Prelude.{
  sym, ◌∙◌, arith, refl, ◌==◌, false, if◌then◌else◌, ◌≡◌, [], ◌∷◌, list_eq, nat_eq, inl, inr,
  Bool-cases,
}

change_links-get :
    (host : Text) (f : PeerLink → PeerLink) (links : Map MachineId PeerLink) (p : MachineId)
    → get p (change_links host f links)
      ≡ Option.map (λ l. if l.host == host then f l else l) (get p links)
unfolding change_links get
change_links-get host f [] p = refl
change_links-get host f ((q, l) ∷ ls) p = ground (arith, change_links-get host f ls p)

change_links-AllSized :
    (host : Text) (f : PeerLink → PeerLink) (links : Map MachineId PeerLink)
    → ((l : PeerLink) → (f l).screen ≡ l.screen)
    → AllSized links
    → AllSized (change_links host f links)
unfolding change_links
change_links-AllSized host f [] k a = tt
change_links-AllSized host f ((q, l) ∷ ls) k a = elim (Bool-cases (l.host == host)) [
  | inl y ↦ rw (y, k l) (a.0, change_links-AllSized host f ls k a.1)
  | inr n ↦ rw n (a.0, change_links-AllSized host f ls k a.1)
]

change_links-none :
    (host : Text) (f : PeerLink → PeerLink) (links : Map MachineId PeerLink)
    → some_links (change_links host f links) ≡ false
    → change_links host f links ≡ links
unfolding change_links
change_links-none host f [] h = refl
change_links-none host f (e ∷ es) h = cc

-- The placement of a peer does not show in its session or its screen.
placed_links :
    (host : Text) (edge : Edge) (d : Daemon)
    → IsCore d
    → let links = change_links host (λ l. record l { edge = edge }) d.links in
      IsConsistent d.own d.own_screen d.sessions
        (layout_of d.own d.own_screen links)
        (keep_cursor d.own
          (screen_of (layout_of d.own d.own_screen links) d.cursor.machine)
          d.cursor)
        links
placed_links host edge d v =
    let f = λ (l : PeerLink). record l { edge = edge } in
    rebuilt_same d (change_links host f d.links) v
      (λ p. ground (arith, change_links-get host f d.links p))
      (λ p. ground (arith, change_links-get host f d.links p))
      (change_links-AllSized host f d.links (λ l. refl) v.sized)

-- Placing a peer keeps the invariant.
pub place_host-IsValid :
    (host : Text) (edge : Edge) (d : Daemon) → IsValid d → IsValid (place_host host edge d)
unfolding place_host rebuild_layout sync_suppression notify_change
place_host-IsValid host edge d v =
    let f = λ (l : PeerLink). record l { edge = edge } in
    elim (Bool-cases (some_links (change_links host f d.links))) [
      | inl y ↦ rw y (record { core = placed_links host edge d v.core; muted = refl })
      | inr n ↦
          let c = rw (← change_links-none host f d.links n) at v.core in
          rw n (record { core = c; muted = v.muted })
    ]

-- A layout does not show how keys are relabelled.
relabelled_layout :
    (own : MachineId) (host : Text) (swap : ModifierSwap) (links : Map MachineId PeerLink)
    (l : VirtualLayout)
    → place_links own (change_links host (λ k. record k { modifier_swap = swap }) links) l
      ≡ place_links own links l
unfolding place_links change_links place_link
relabelled_layout own host swap [] l = refl
relabelled_layout own host swap ((p, k) ∷ ks) l = elim (Bool-cases (k.host == host)) [
  | inl y ↦ rw y (relabelled_layout own host swap ks (place_link own (p, k) l))
  | inr n ↦ rw n (relabelled_layout own host swap ks (place_link own (p, k) l))
]

-- Relabelling a peer's keys keeps the invariant.
pub relabel_host-IsValid :
    (host : Text) (swap : ModifierSwap) (d : Daemon)
    → IsValid d
    → IsValid (relabel_host host swap d)
unfolding relabel_host notify_change layout_of
relabel_host-IsValid host swap d v =
    let f = λ (l : PeerLink). record l { modifier_swap = swap } in
    record {
      core = record {
        tables = v.core.tables;
        same = v.core.same;
        linked = λ p. ground (arith, change_links-get host f d.links p, v.core.linked p);
        own_sized = v.core.own_sized;
        sized = change_links-AllSized host f d.links (λ l. refl) v.core.sized;
        built = v.core.built ∙ sym (relabelled_layout d.own host swap d.links _);
        inside = v.core.inside;
        placed = v.core.placed;
      };
      muted = v.muted;
    }
