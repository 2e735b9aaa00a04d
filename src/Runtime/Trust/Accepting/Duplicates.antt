-- ===== src/Runtime/Trust/Accepting/Duplicates.antt =====
-- `dedup_host_pins` keeps, for each host, the record that was accepted last.
use omnipresent.Prelude.Lists.{retain}
use omnipresent.Prelude.{
  ◌∙◌, sym, list_eq, nat_eq, Bool-cases, ◌++◌, refl, list_beq_iff, ap, inr, false, inl, some,
  Option-cases, true, arith, none, if◌then◌else◌, ◌≡◌, [], ◌∷◌, Bool, List,
}
use mathlib.Core.List.{reverse, reverse-append, reverse-reverse, append-nil}
use omnipresent.Runtime.Trust.{Text, PeerRecord, host_is, mem_host, newest_pins, dedup_host_pins}

abbrev pub first_only {ℓ} : {A : Type ℓ} → List A → List A
first_only [] = []
first_only (x ∷ xs) = x ∷ []

abbrev pub last_only {ℓ} : {A : Type ℓ} → List A → List A
last_only [] = []
last_only (x ∷ []) = x ∷ []
last_only (x ∷ y ∷ ys) = last_only (y ∷ ys)

abbrev pub hostless : PeerRecord → Bool
hostless r = elim r.host [ none ↦ true | some h ↦ false ]

mem_host-same : (h k : Text) (seen : List Text) → h ≡ k → mem_host h seen ≡ mem_host k seen
mem_host-same h k seen e = ap (λ t. mem_host t seen) e

newest_pins-host :
    (h : Text) (seen : List Text) (rs : List PeerRecord)
    → retain (host_is h) (newest_pins seen rs)
      ≡ (if mem_host h seen then [] else first_only (retain (host_is h) rs))
unfolding newest_pins
newest_pins-host h seen [] = ground arith
newest_pins-host h seen (r ∷ rs) = elim (Option-cases r.host) [
  | inl e ↦ ground (arith, e, newest_pins-host h seen rs)
  | inr (k, e) ↦ ground (
    arith,
    e,
    list_beq_iff k h,
    newest_pins-host h seen rs,
    newest_pins-host h (k ∷ seen) rs,
    mem_host-same h k seen,
  )
]

newest_pins-hostless :
    (seen : List Text) (rs : List PeerRecord)
    → retain hostless (newest_pins seen rs) ≡ retain hostless rs
unfolding newest_pins
newest_pins-hostless seen [] = refl
newest_pins-hostless seen (r ∷ rs) = elim (Option-cases r.host) [
  | inl e ↦ ground (arith, e, newest_pins-hostless seen rs)
  | inr (k, e) ↦ ground (arith, e, newest_pins-hostless seen rs, newest_pins-hostless (k ∷ seen) rs)
]

retain-append {ℓ} :
    {A : Type ℓ} (p : A → Bool) (xs ys : List A) → retain p (xs ++ ys) ≡ retain p xs ++ retain p ys
retain-append p [] ys = refl
retain-append p (x ∷ xs) ys = ground (arith, retain-append p xs ys)

retain-reverse {ℓ} :
    {A : Type ℓ} (p : A → Bool) (xs : List A) → retain p (reverse xs) ≡ reverse (retain p xs)
retain-reverse p [] = refl
retain-reverse p (x ∷ xs) =
    rw (reverse-append (x ∷ []) xs, retain-append p (reverse xs) (x ∷ []), retain-reverse p xs)
      (elim (Bool-cases (p x)) [
        | inl y ↦ rw y (sym (reverse-append (x ∷ []) (retain p xs)))
        | inr n ↦ rw n (append-nil (reverse (retain p xs)))
      ])

last_only-snoc {ℓ} : {A : Type ℓ} (x : A) (xs : List A) → last_only (xs ++ x ∷ []) ≡ x ∷ []
last_only-snoc x [] = refl
last_only-snoc x (y ∷ []) = refl
last_only-snoc x (y ∷ z ∷ xs) = last_only-snoc x (z ∷ xs)

last_of_reverse {ℓ} : {A : Type ℓ} (ys : List A) → reverse (first_only ys) ≡ last_only (reverse ys)
last_of_reverse [] = refl
last_of_reverse (y ∷ ys) = rw (reverse-append (y ∷ []) ys) (sym (last_only-snoc y (reverse ys)))

first_only-reverse {ℓ} :
    {A : Type ℓ} (xs : List A) → reverse (first_only (reverse xs)) ≡ last_only xs
first_only-reverse xs = last_of_reverse (reverse xs) ∙ ap last_only (reverse-reverse xs)

-- For every host, what is kept is the last record with that host, if there is one; all records
-- without a host are kept, in their order.
pub retain-dedup_host_pins :
    (peers : List PeerRecord)
    → ((h : Text)
        → retain (host_is h) (dedup_host_pins peers).0 ≡ last_only (retain (host_is h) peers))
      × (retain hostless (dedup_host_pins peers).0 ≡ retain hostless peers)
unfolding dedup_host_pins
retain-dedup_host_pins peers = (
  λ h.
      rw
        (
          retain-reverse (host_is h) (newest_pins [] (reverse peers)),
          newest_pins-host h [] (reverse peers),
          retain-reverse (host_is h) peers,
        )
        (first_only-reverse (retain (host_is h) peers)),
  rw (
    retain-reverse hostless (newest_pins [] (reverse peers)),
    newest_pins-hostless [] (reverse peers),
    retain-reverse hostless peers,
    reverse-reverse (retain hostless peers),
  ),
)
