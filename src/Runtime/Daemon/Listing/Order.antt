-- ===== src/Runtime/Daemon/Listing/Order.antt =====
-- The lists are sorted by host, and sorting keeps the entries of each host as they were.
use omnipresent.Prelude.{
  ◌≡◌, Bool, true, false, List, [], ◌∷◌, ◌==◌, list_eq, nat_eq, arith, refl, Bool-cases, inl, inr,
  list_beq_iff,
}
use omnipresent.Prelude.Lists.{retain}
use omnipresent.Prelude.Text.{Text}
use omnipresent.Runtime.Daemon.Listing.{HostInfo, text_less, sort_insert, sort_by_host}

pub text_less_irrefl : (a : Text) → text_less a a ≡ false
text_less_irrefl [] = refl
text_less_irrefl (x ∷ xs) = ground (arith, text_less_irrefl xs)

text_less_asymm : (a b : Text) → text_less a b ≡ true → text_less b a ≡ false
text_less_asymm [] [] h = ground arith
text_less_asymm [] (y ∷ ys) h = refl
text_less_asymm (x ∷ xs) [] h = ground arith
text_less_asymm (x ∷ xs) (y ∷ ys) h = ground (arith, text_less_asymm xs ys)

abbrev pub is_of : Text → HostInfo → Bool
is_of h i = i.host == h

-- No entry comes before one whose host is smaller.
abbrev pub IsSorted : List HostInfo → Type 0
IsSorted [] = Unit
IsSorted (i ∷ []) = Unit
IsSorted (i ∷ j ∷ js) = (text_less j.host i.host ≡ false) × IsSorted (j ∷ js)

sort_insert-IsSorted :
    (i : HostInfo) (js : List HostInfo) → IsSorted js → IsSorted (sort_insert i js)
sort_insert-IsSorted i [] h = tt
sort_insert-IsSorted i (j ∷ []) h = elim (Bool-cases (text_less j.host i.host)) [
  | inl y ↦ rw y (text_less_asymm j.host i.host y, tt)
  | inr n ↦ rw n (n, tt)
]
sort_insert-IsSorted i (j ∷ k ∷ ks) h = elim (Bool-cases (text_less j.host i.host)) [
  | inl y ↦
      let rest = sort_insert-IsSorted i (k ∷ ks) h.1 in
      elim (Bool-cases (text_less k.host i.host)) [
        | inl z ↦ rw (y, z) (h.0, rw (z, sort_insert) at rest)
        | inr n ↦ rw (y, n) (text_less_asymm j.host i.host y, rw (n, sort_insert) at rest)
      ]
  | inr n ↦ rw n (n, h)
]

pub sort_by_host-IsSorted : (is : List HostInfo) → IsSorted (sort_by_host is)
unfolding sort_by_host
sort_by_host-IsSorted [] = tt
sort_by_host-IsSorted (i ∷ is) = sort_insert-IsSorted i (sort_by_host is) (sort_by_host-IsSorted is)

same_host :
    (h : Text) (i j : HostInfo)
    → is_of h i ≡ true
    → text_less j.host i.host ≡ true
    → is_of h j ≡ false
same_host h i j p q = elim (Bool-cases (is_of h j)) [
  | inl y ↦
      let a : i.host ≡ h = (list_beq_iff i.host h).0 p in
      let b : j.host ≡ h = (list_beq_iff j.host h).0 y in
      let c = rw (a, b) at q in ground (arith, text_less_irrefl h)
  | inr n ↦ n
]

retain-sort_insert :
    (h : Text) (i : HostInfo) (js : List HostInfo)
    → retain (is_of h) (sort_insert i js) ≡ retain (is_of h) (i ∷ js)
retain-sort_insert h i [] = refl
retain-sort_insert h i (j ∷ js) = ground (arith, retain-sort_insert h i js, same_host h i j)

pub retain-sort_by_host :
    (h : Text) (is : List HostInfo) → retain (is_of h) (sort_by_host is) ≡ retain (is_of h) is
unfolding sort_by_host
retain-sort_by_host h [] = refl
retain-sort_by_host h (i ∷ is) =
    ground (arith, retain-sort_insert h i (sort_by_host is), retain-sort_by_host h is)
