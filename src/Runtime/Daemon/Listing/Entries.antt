-- ===== src/Runtime/Daemon/Listing/Entries.antt =====
-- What is listed of each host.
use omnipresent.Prelude.{
  ◌≡◌, Bool, true, false, List, [], ◌∷◌, ◌++◌, ◌==◌, ◌||◌, list_eq, nat_eq, arith, refl, map,
  Bool-cases, inl, inr, if◌then◌else◌, list_beq_iff, ap, ◌∙◌,
}
use omnipresent.Prelude.Lists.{retain}
use omnipresent.Prelude.Maps.{Map}
use omnipresent.Prelude.Text.{Text}
use omnipresent.Protocol.Ids.{MachineId}
use omnipresent.Protocol.Remap.{swap_name}
use omnipresent.Runtime.Daemon.{Daemon, PeerLink}
use omnipresent.Runtime.Daemon.Links.{edge_name}
use omnipresent.Runtime.Daemon.Listing.{
  TrustFile, list_peers, HostInfo, list_hosts, live_entries, saved_entries, seen_host, list_layout,
  list_modifier_swaps, link_edge, link_swap, status, Report, Pending,
}
use omnipresent.Runtime.Daemon.Listing.Order.{
  is_of, IsSorted, retain-sort_by_host, sort_by_host-IsSorted,
}

-- Whether some link is to the host.
abbrev pub is_linked : Text → Map MachineId PeerLink → Bool
is_linked h [] = false
is_linked h ((m, l) ∷ ls) = l.host == h || is_linked h ls

abbrev pub live_info : (PeerLink → Text) → MachineId × PeerLink → HostInfo
live_info name e = record { host = e.1.host; named = name e.1; connected = true }

abbrev pub saved_info {ℓ} : {V : Type ℓ} → (V → Text) → Text × V → HostInfo
saved_info name e = record { host = e.0; named = name e.1; connected = false }

live_entries_lem :
    (name : PeerLink → Text) (links : Map MachineId PeerLink) (seen : List Text) (h : Text)
    → ((live_entries name links seen).0 ≡ map (live_info name) links)
      × (seen_host h (live_entries name links seen).1 ≡ (is_linked h links || seen_host h seen))
live_entries_lem name [] seen h = (refl, refl)
live_entries_lem name ((m, l) ∷ ls) seen h =
    let (a, b) = live_entries_lem name ls (l.host ∷ seen) h in
    (ap (λ t. live_info name (m, l) ∷ t) a, ground (arith, b))

saved_entries_lem {ℓ} :
    {V : Type ℓ} (name : V → Text) (es : Map Text V) (seen : List Text) (h : Text)
    → retain (is_of h) (saved_entries name es seen)
      ≡ (if seen_host h seen then [] else retain (is_of h) (map (saved_info name) es))
saved_entries_lem name [] seen h = ground arith
saved_entries_lem name ((k, v) ∷ es) seen h = elim (Bool-cases (k == h)) [
  | inl y ↦
      let e : k ≡ h = (list_beq_iff k h).0 y in
      let f : seen_host k seen ≡ seen_host h seen = ap (λ t. seen_host t seen) e in
      elim (Bool-cases (seen_host h seen)) [
        | inl z ↦ ground (arith, f, z, y, saved_entries_lem name es seen h)
        | inr z ↦ ground (arith, f, z, y, saved_entries_lem name es seen h)
      ]
  | inr n ↦ elim (Bool-cases (seen_host k seen)) [
    | inl z ↦ ground (arith, z, n, saved_entries_lem name es seen h)
    | inr z ↦ ground (arith, z, n, saved_entries_lem name es seen h)
  ]
]

retain-append :
    (h : Text) (xs ys : List HostInfo)
    → retain (is_of h) (xs ++ ys) ≡ retain (is_of h) xs ++ retain (is_of h) ys
retain-append h [] ys = refl
retain-append h (x ∷ xs) ys = ground (arith, retain-append h xs ys)

-- What a list holds of one host: an entry for each link to it, in the order of the links, or, if
-- there is no link to it, what is saved for it.
abbrev pub entries_of {ℓ} :
    {V : Type ℓ}
    → (PeerLink → Text)
    → (V → Text)
    → Map MachineId PeerLink
    → Map Text V
    → Text
    → List HostInfo
entries_of live saved links es h =
    retain (is_of h) (map (live_info live) links)
    ++ (if is_linked h links then [] else retain (is_of h) (map (saved_info saved) es))

list_hosts_lem {ℓ} :
    {V : Type ℓ} (live : PeerLink → Text) (saved : V → Text) (links : Map MachineId PeerLink)
    (es : Map Text V) (h : Text)
    → (retain (is_of h) (list_hosts live saved links es []) ≡ entries_of live saved links es h)
      × IsSorted (list_hosts live saved links es [])
unfolding list_hosts
list_hosts_lem live saved links es h =
    let r = live_entries live links [] in
    let all = r.0 ++ saved_entries saved es r.1 in
    let (a, b) = live_entries_lem live links [] h in
    let c : seen_host h r.1 ≡ is_linked h links = ground (arith, b) in
    let d = saved_entries_lem saved es r.1 h in
    let e : retain (is_of h) (saved_entries saved es r.1)
        ≡ (if is_linked h links then [] else retain (is_of h) (map (saved_info saved) es)) =
      rw c at d in
    (
      retain-sort_by_host h all ∙ (retain-append h r.0 (saved_entries saved es r.1) ∙ cc (a, e)),
      sort_by_host-IsSorted all,
    )

-- The lists of places and of modifier swaps are sorted by host, and hold of each host one entry for
-- each link to it, or, if there is no link to it, the entry that is saved for it.
pub list_layout-list_modifier_swaps :
    (d : Daemon) (h : Text)
    → (retain (is_of h) (list_layout d) ≡ entries_of link_edge edge_name d.links d.placements h)
      × IsSorted (list_layout d)
      × (retain (is_of h) (list_modifier_swaps d)
          ≡ entries_of link_swap swap_name d.links d.modifier_swaps h)
      × IsSorted (list_modifier_swaps d)
unfolding list_layout list_modifier_swaps
list_layout-list_modifier_swaps d h =
    let (a, b) = list_hosts_lem link_edge edge_name d.links d.placements h in
    let (c, e) = list_hosts_lem link_swap swap_name d.links d.modifier_swaps h in (a, b, c, e)

-- A status snapshot carries the lists that the separate requests answer with.
pub status_lists :
    (r : Report) (pending : List Pending) (t : TrustFile) (d : Daemon)
    → let s = status r pending t d in
      (s.placements ≡ list_layout d)
      × (s.modifier_swaps ≡ list_modifier_swaps d)
      × (s.peers ≡ list_peers t d)
unfolding status list_layout list_modifier_swaps list_peers
status_lists r pending t d = (refl, refl, refl)
