-- ===== src/App/Tray.antt =====
-- omni/src-tauri/src/tray.rs: the menu of the tray, and what a click on an entry does. The window,
-- the icon and the tooltip are left out.
use omnipresent.Prelude.{
  ◌≡◌, ◌++◌, List, Option, [], ◌∷◌, none, some, true, false, refl, ap, list_eq, nat_eq, ◌==◌,
}
use omnipresent.Prelude.Text.{Text, codes}
use omnipresent.Runtime.Daemon.Listing.{PendingInfo}
use omnipresent.Runtime.Daemon.Commands.{Request, accept_peer, reject_peer}
use omnipresent.App.Supervisor.{Supervisor, Stopping, stop, is_embedded}

abbrev pub accept_prefix : Text
accept_prefix = codes "accept:"

abbrev pub reject_prefix : Text
reject_prefix = codes "reject:"

-- An entry with its id and its label, or a separator.
pub data Item : Type 0 where
  entry : Text → Text → Item
  separator : Item

abbrev pub request_items : PendingInfo → List Item → List Item
request_items r rest =
    entry (accept_prefix ++ r.fingerprint) (codes "Accept " ++ r.host)
    ∷ (entry (reject_prefix ++ r.fingerprint) (codes "Reject " ++ r.host) ∷ (separator ∷ rest))

-- `menu`
unfoldable pub menu : List PendingInfo → List Item
menu [] =
    entry (codes "open") (codes "Open Omnipresent")
    ∷ (separator ∷ (entry (codes "quit") (codes "Quit Omnipresent") ∷ []))
menu (r ∷ rs) = request_items r (menu rs)

-- `str::strip_prefix`
abbrev pub strip_prefix : Text → Text → Option Text
strip_prefix [] s = some s
strip_prefix (p ∷ ps) [] = none
strip_prefix (p ∷ ps) (c ∷ cs) = elim (c == p) [ true ↦ strip_prefix ps cs | false ↦ none ]

pub data Reaction : Type 0 where
  asks : Request → Reaction
  shows quits ignores : Reaction

abbrev fixed_entry : Text → Reaction
fixed_entry id = elim (id == codes "open") [
  | true ↦ shows
  | false ↦ elim (id == codes "quit") [ true ↦ quits | false ↦ ignores ]
]

-- `handle_menu_event`
unfoldable pub handle_menu_event : Text → Reaction
handle_menu_event id = elim (strip_prefix accept_prefix id) [
  | some fingerprint ↦ asks (accept_peer fingerprint)
  | none ↦ elim (strip_prefix reject_prefix id) [
    | some fingerprint ↦ asks (reject_peer fingerprint)
    | none ↦ fixed_entry id
  ]
]

-- `quit`: a daemon of this process is stopped first.
unfoldable pub quit : Stopping → Supervisor → Supervisor
unfolding stop
quit w s = elim (is_embedded s) [ true ↦ (stop w s).0 | false ↦ s ]

-- What the entries of a menu do, in their order.
abbrev pub reactions : List Item → List Reaction
reactions [] = []
reactions (entry id label ∷ items) = handle_menu_event id ∷ reactions items
reactions (separator ∷ items) = reactions items

abbrev pub wanted : List PendingInfo → List Reaction
wanted [] = shows ∷ (quits ∷ [])
wanted (r ∷ rs) = asks (accept_peer r.fingerprint) ∷ (asks (reject_peer r.fingerprint) ∷ wanted rs)

-- Whatever requests wait, with whatever hosts and fingerprints: the menu has for each, in order, an
-- entry that accepts exactly its fingerprint and one that rejects it, then one that shows the window
-- and one that quits, and nothing else that can be clicked.
pub reactions-menu : (pending : List PendingInfo) → reactions (menu pending) ≡ wanted pending
unfolding menu handle_menu_event
reactions-menu [] = refl
reactions-menu (r ∷ rs) =
    ap (λ l. asks (accept_peer r.fingerprint) ∷ (asks (reject_peer r.fingerprint) ∷ l))
      (reactions-menu rs)
