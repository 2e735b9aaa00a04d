-- ===== src/Runtime/Daemon/Batches.antt =====
-- crates/omni-runtime/src/daemon.rs: `coalesce_motion`, which thins out a backlog of commands for
-- one peer before it is sent.
use omnipresent.Prelude.Lists.{retain}
use omnipresent.Prelude.{
  not, ◌≡◌, Bool, List, arith, refl, inl, inr, Bool-cases, ◌∙◌, [], ◌∷◌, ◌++◌, ◌&&◌, true, false,
  if◌then◌else◌,
}
use mathlib.Core.Path.{ap}
use omnipresent.Runtime.Daemon.{PeerCommand, input, warp, cursor_returned, clipboard, disconnect}
use omnipresent.Protocol.Input.{pointer, motion, key, button, scroll}

-- `matches!(command, PeerCommand::Input(InputEvent::Pointer { .. }))`
unfoldable pub is_pointer : PeerCommand → Bool
is_pointer (input (pointer x y)) = true
is_pointer (input (motion delta)) = false
is_pointer (input (key code action modifiers)) = false
is_pointer (input (button b a)) = false
is_pointer (input (scroll s)) = false
is_pointer (warp x y) = false
is_pointer (cursor_returned x y) = false
is_pointer (clipboard d) = false
is_pointer disconnect = false

-- `out.last()` is a pointer position.
abbrev ends_in_pointer : List PeerCommand → Bool
ends_in_pointer [] = false
ends_in_pointer (c ∷ []) = is_pointer c
ends_in_pointer (c ∷ d ∷ cs) = ends_in_pointer (d ∷ cs)

-- `*out.last_mut() = command`
abbrev replace_last : PeerCommand → List PeerCommand → List PeerCommand
replace_last c [] = []
replace_last c (d ∷ []) = c ∷ []
replace_last c (d ∷ e ∷ es) = d ∷ replace_last c (e ∷ es)

abbrev push_command : List PeerCommand → PeerCommand → List PeerCommand
push_command out c =
    if is_pointer c && ends_in_pointer out then replace_last c out else out ++ (c ∷ [])

-- The loop of `coalesce_motion`.
abbrev coalesce_into : List PeerCommand → List PeerCommand → List PeerCommand
coalesce_into out [] = out
coalesce_into out (c ∷ cs) = coalesce_into (push_command out c) cs

unfoldable pub coalesce_motion : List PeerCommand → List PeerCommand
coalesce_motion batch = coalesce_into [] batch

abbrev starts_with_pointer : List PeerCommand → Bool
starts_with_pointer [] = false
starts_with_pointer (c ∷ cs) = is_pointer c

-- A backlog without the pointer positions that a newer one follows at once.
unfoldable pub latest : List PeerCommand → List PeerCommand
latest [] = []
latest (c ∷ cs) =
    let rest = latest cs in if is_pointer c && starts_with_pointer cs then rest else c ∷ rest

ends_in_pointer-snoc :
    (out : List PeerCommand) (c : PeerCommand) → ends_in_pointer (out ++ (c ∷ [])) ≡ is_pointer c
ends_in_pointer-snoc [] c = refl
ends_in_pointer-snoc (d ∷ []) c = refl
ends_in_pointer-snoc (d ∷ e ∷ es) c = ends_in_pointer-snoc (e ∷ es) c

replace_last-snoc :
    (out : List PeerCommand) (c d : PeerCommand)
    → replace_last d (out ++ (c ∷ [])) ≡ out ++ (d ∷ [])
replace_last-snoc [] c d = refl
replace_last-snoc (e ∷ []) c d = refl
replace_last-snoc (e ∷ f ∷ fs) c d = ap (λ r. e ∷ r) (replace_last-snoc (f ∷ fs) c d)

snoc-append :
    (out : List PeerCommand) (c : PeerCommand) (cs : List PeerCommand)
    → (out ++ (c ∷ [])) ++ cs ≡ out ++ (c ∷ cs)
snoc-append [] c cs = refl
snoc-append (d ∷ out) c cs = ap (λ r. d ∷ r) (snoc-append out c cs)

coalesce_into_lem :
    (out : List PeerCommand) (c : PeerCommand) (cs : List PeerCommand)
    → coalesce_into (out ++ (c ∷ [])) cs ≡ out ++ latest (c ∷ cs)
unfolding latest
coalesce_into_lem out c [] = ground arith
coalesce_into_lem out c (d ∷ cs) = elim (Bool-cases (is_pointer d)) [
  | inr n ↦ rw n (
      coalesce_into_lem (out ++ (c ∷ [])) d cs
      ∙ ground (arith, snoc-append out c (latest (d ∷ cs))))
  | inl y ↦ elim (Bool-cases (is_pointer c)) [
    | inl z ↦
        let h = rw y at (coalesce_into_lem out d cs) in
        rw (y, ends_in_pointer-snoc out c, z, replace_last-snoc out c d) h
    | inr n ↦
        let h =
          rw y at
            (coalesce_into_lem (out ++ (c ∷ [])) d cs ∙ snoc-append out c (latest (d ∷ cs))) in
        rw (y, ends_in_pointer-snoc out c, n) h
  ]
]

-- The last command, or the given one if there is none.
abbrev pub last_or : PeerCommand → List PeerCommand → PeerCommand
last_or c [] = c
last_or c (d ∷ ds) = last_or d ds

-- The loop drops exactly the pointer positions that a newer one follows at once.
pub coalesce_motion_lem : (batch : List PeerCommand) → coalesce_motion batch ≡ latest batch
unfolding coalesce_motion latest
coalesce_motion_lem [] = refl
coalesce_motion_lem (c ∷ cs) = ground (arith, coalesce_into_lem [] c cs)

abbrev pub not_pointer : PeerCommand → Bool
not_pointer c = not (is_pointer c)

-- No pointer position is directly followed by another.
abbrev pub IsSparse : List PeerCommand → Type 0
IsSparse [] = Unit
IsSparse (c ∷ cs) = (is_pointer c && starts_with_pointer cs ≡ false) × IsSparse cs

latest_kept : (cs : List PeerCommand) → retain not_pointer (latest cs) ≡ retain not_pointer cs
unfolding latest
latest_kept [] = refl
latest_kept (c ∷ cs) = ground (arith, latest_kept cs)

latest_start : (cs : List PeerCommand) → starts_with_pointer (latest cs) ≡ starts_with_pointer cs
unfolding latest
latest_start [] = refl
latest_start (c ∷ []) = ground arith
latest_start (c ∷ d ∷ ds) = ground (arith, latest_start (d ∷ ds))

latest-IsSparse : (cs : List PeerCommand) → IsSparse (latest cs)
unfolding latest
latest-IsSparse [] = tt
latest-IsSparse (c ∷ cs) = elim (Bool-cases (is_pointer c && starts_with_pointer cs)) [
  | inl y ↦ rw y (latest-IsSparse cs)
  | inr n ↦ let h = rw (← latest_start cs) at n in rw n (h, latest-IsSparse cs)
]

latest_ending : (c : PeerCommand) (cs : List PeerCommand) → last_or c (latest cs) ≡ last_or c cs
unfolding latest
latest_ending c [] = refl
latest_ending c (d ∷ []) = ground arith
latest_ending c (d ∷ e ∷ es) = ground (arith, latest_ending c (e ∷ es), latest_ending d (e ∷ es))

sparse_latest : (cs : List PeerCommand) → IsSparse cs → latest cs ≡ cs
unfolding latest
sparse_latest [] h = refl
sparse_latest (c ∷ cs) h = rw (h.0, sparse_latest cs h.1) refl

-- What is left of a backlog has every command that is no pointer position, in order and as often;
-- it ends with the same command; no pointer position in it is directly followed by another; and it
-- is left as it is when it is thinned out again.
pub coalesce_motion_kept :
    (batch : List PeerCommand)
    → (retain not_pointer (coalesce_motion batch) ≡ retain not_pointer batch)
      × ((c : PeerCommand) → last_or c (coalesce_motion batch) ≡ last_or c batch)
      × IsSparse (coalesce_motion batch)
      × (coalesce_motion (coalesce_motion batch) ≡ coalesce_motion batch)
coalesce_motion_kept batch =
    rw (coalesce_motion_lem batch, coalesce_motion_lem (latest batch))
      (
        latest_kept batch,
        λ c. latest_ending c batch,
        latest-IsSparse batch,
        sparse_latest (latest batch) (latest-IsSparse batch),
      )
