-- ===== src/Runtime/Daemon/Layouts.antt =====
-- The layout that `rebuild_layout` builds shows this machine's screen and those of the links, and
-- is well formed if they all have a size.
use omnipresent.Prelude.Outcome.{panic}
use omnipresent.Prelude.Lists.{All}
use omnipresent.Prelude.{
  nat_beq_iff, list_eq, nat_eq, none, refl, ◌∙◌, ◌==◌, arith, if◌then◌else◌, [], some, ◌∷◌, ◌≡◌,
  ◌<◌, Option,
}
use omnipresent.Prelude.Maps.{get-insert, get, Map}
use mathlib.Core.Option
use omnipresent.Topology.Layout.Links.{
  IsValid, empty_layout-IsValid, add_machine-IsValid, link-IsValid,
}
use omnipresent.Topology.Layout.{
  Machine, VirtualLayout, LayoutError, empty_layout, add_machine, link, screen_of,
}
use omnipresent.Runtime.Daemon.{
  err, ok, Edge, MachineId, Outcome, Screen, PeerLink, or_same, place_link, place_links, layout_of,
}

abbrev pub HasSize : Screen → Type 0
HasSize s = (0 < s.width) × (0 < s.height)

abbrev pub AllSized : Map MachineId PeerLink → Type 0
AllSized = All (λ e. HasSize e.1.screen)

or_same-IsValid :
    (o : Outcome LayoutError VirtualLayout) (l : VirtualLayout)
    → IsValid l
    → ((l' : VirtualLayout) → o ≡ ok l' → IsValid l')
    → IsValid (or_same o l)
or_same-IsValid (ok l') l v f = f l' refl
or_same-IsValid (err e) l v f = v
or_same-IsValid panic l v f = v

place_link-IsValid :
    (own : MachineId) (e : MachineId × PeerLink) (l : VirtualLayout)
    → HasSize e.1.screen
    → IsValid l
    → IsValid (place_link own e l)
unfolding place_link
place_link-IsValid own e l s v =
    let m : Machine = record { id = e.0; screen = e.1.screen } in
    let v' =
      or_same-IsValid (add_machine m l) l v (λ l' q. add_machine-IsValid m l l' v s.0 s.1 q) in
    let l' = or_same (add_machine m l) l in
    or_same-IsValid (link own e.1.edge e.0 l') l' v'
      (λ l'' q. link-IsValid own e.1.edge e.0 l' l'' v' q)

place_links-IsValid :
    (own : MachineId) (es : Map MachineId PeerLink) (l : VirtualLayout)
    → AllSized es
    → IsValid l
    → IsValid (place_links own es l)
unfolding place_links
place_links-IsValid own [] l s v = v
place_links-IsValid own (e ∷ es) l s v =
    place_links-IsValid own es (place_link own e l) s.1 (place_link-IsValid own e l s.0 v)

-- The layout built from screens that all have a size is well formed.
pub layout_of-IsValid :
    (own : MachineId) (screen : Screen) (links : Map MachineId PeerLink)
    → HasSize screen
    → AllSized links
    → IsValid (layout_of own screen links)
unfolding layout_of
layout_of-IsValid own screen links s a =
    let m : Machine = record { id = own; screen = screen } in
    place_links-IsValid own links (or_same (add_machine m empty_layout) empty_layout) a (
      or_same-IsValid (add_machine m empty_layout) empty_layout empty_layout-IsValid
        (λ l' q. add_machine-IsValid m empty_layout l' empty_layout-IsValid s.0 s.1 q))

abbrev or_else {ℓ} : {A : Type ℓ} → Option A → Option A → Option A
or_else none q = q
or_else (some a) q = some a

or_same-add :
    (m : Machine) (l : VirtualLayout) (i : MachineId)
    → screen_of (or_same (add_machine m l) l) i
      ≡ or_else (screen_of l i) (if m.id == i then some m.screen else none)
unfolding add_machine
or_same-add m l i = ground (arith, get-insert m.id i m.screen l.screens, nat_beq_iff m.id i)

or_same-link :
    (a : MachineId) (e : Edge) (b : MachineId) (l : VirtualLayout) (i : MachineId)
    → screen_of (or_same (link a e b l) l) i ≡ screen_of l i
unfolding link
or_same-link a e b l i = ground arith

place_link-screen :
    (own : MachineId) (e : MachineId × PeerLink) (l : VirtualLayout) (i : MachineId)
    → screen_of (place_link own e l) i
      ≡ or_else (screen_of l i) (if e.0 == i then some e.1.screen else none)
unfolding place_link
place_link-screen own e l i =
    let m : Machine = record { id = e.0; screen = e.1.screen } in
    or_same-link own e.1.edge e.0 (or_same (add_machine m l) l) i ∙ or_same-add m l i

abbrev pub link_screen : Option PeerLink → Option Screen
link_screen = Option.map (λ l. l.screen)

empty_layout-screen : (i : MachineId) → screen_of empty_layout i ≡ none
unfolding get
empty_layout-screen i = refl

place_links-screen :
    (own : MachineId) (es : Map MachineId PeerLink) (l : VirtualLayout) (i : MachineId)
    → screen_of (place_links own es l) i ≡ or_else (screen_of l i) (link_screen (get i es))
unfolding place_links get
place_links-screen own [] l i = ground arith
place_links-screen own ((m, k) ∷ es) l i =
    place_links-screen own es (place_link own (m, k) l) i
    ∙ rw (place_link-screen own (m, k) l i) (ground arith)

-- The layout shows this machine's own screen, and the screen of each link.
pub layout_of-screen :
    (own : MachineId) (screen : Screen) (links : Map MachineId PeerLink) (i : MachineId)
    → screen_of (layout_of own screen links) i
      ≡ (if own == i then some screen else link_screen (get i links))
unfolding layout_of
layout_of-screen own screen links i =
    let m : Machine = record { id = own; screen = screen } in
    place_links-screen own links (or_same (add_machine m empty_layout) empty_layout) i
    ∙ rw (or_same-add m empty_layout i) (ground (arith, empty_layout-screen i))
