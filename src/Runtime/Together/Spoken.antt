-- ===== src/Runtime/Together/Spoken.antt =====
-- What is put into the channel of a peer while events are captured, and what it comes to there.
use omnipresent.Runtime.Daemon.Preserved.{route_captured-IsValid}
use omnipresent.Runtime.Daemon.Told.{route_captured-IsTold, Handed, Forwards}
use omnipresent.Prelude.Int.{ℤ}
use omnipresent.Prelude.Maps.{contains_key, get}
use omnipresent.Prelude.{
  Option, ◌≡◌, ◌⊎◌, ◌==◌, Bool, Bool-cases, List, [], ◌∷◌, ◌++◌, ap, arith, inl, inr, nat_eq, refl,
  true, ◌∙◌, sym, false, nat_beq_iff, if◌then◌else◌,
}
use omnipresent.Runtime.Daemon.Invariant.{IsValid}
use omnipresent.Protocol.Ids.{MachineId}
use omnipresent.Session.{ActiveTarget, local, remote}
use omnipresent.Runtime.Daemon.{
  Daemon, PeerCommand, PeerLink, input, warp, cursor_returned, clipboard, disconnect,
}
use omnipresent.Runtime.Daemon.Batches.{latest, is_pointer}
use omnipresent.Runtime.Daemon.Sending.Orders.{goes_on, up_to_disconnect}
use omnipresent.Runtime.Together.{route_captured, ok, Outcome, InputEvent, for_peer}
use omnipresent.Runtime.Together.Kept.{heard}

heard-append :
    (p : MachineId) (t : ActiveTarget) (xs ys : List PeerCommand)
    → heard p t (xs ++ ys) ≡ heard p (heard p t xs) ys
heard-append p t [] ys = refl
heard-append p t (input e ∷ xs) ys = heard-append p t xs ys
heard-append p t (warp x y ∷ xs) ys = heard-append p local xs ys
heard-append p t (cursor_returned x y ∷ xs) ys = heard-append p (remote p) xs ys
heard-append p t (clipboard payload ∷ xs) ys = heard-append p t xs ys
heard-append p t (disconnect ∷ xs) ys = heard-append p t xs ys

for_peer-append :
    (p : MachineId) (xs ys : List (MachineId × PeerCommand))
    → for_peer p (xs ++ ys) ≡ for_peer p xs ++ for_peer p ys
for_peer-append p [] ys = refl
for_peer-append p ((q, c) ∷ xs) ys = elim (Bool-cases (q == p)) [
  | inl y ↦ rw y (ap (λ l. c ∷ l) (for_peer-append p xs ys))
  | inr n ↦ rw n (for_peer-append p xs ys)
]

goes_on-append :
    (xs ys : List PeerCommand) → goes_on xs ≡ true → goes_on ys ≡ true → goes_on (xs ++ ys) ≡ true
goes_on-append [] ys h k = k
goes_on-append (input e ∷ xs) ys h k = goes_on-append xs ys h k
goes_on-append (warp x y ∷ xs) ys h k = goes_on-append xs ys h k
goes_on-append (cursor_returned x y ∷ xs) ys h k = goes_on-append xs ys h k
goes_on-append (clipboard payload ∷ xs) ys h k = goes_on-append xs ys h k
goes_on-append (disconnect ∷ xs) ys h k = absurd (cc h)

-- Without a `Disconnect` all goes out.
pub up_to_disconnect_all : (xs : List PeerCommand) → goes_on xs ≡ true → up_to_disconnect xs ≡ xs
up_to_disconnect_all [] h = refl
up_to_disconnect_all (input e ∷ xs) h = ap (λ l. input e ∷ l) (up_to_disconnect_all xs h)
up_to_disconnect_all (warp x y ∷ xs) h = ap (λ l. warp x y ∷ l) (up_to_disconnect_all xs h)
up_to_disconnect_all (cursor_returned x y ∷ xs) h =
    ap (λ l. cursor_returned x y ∷ l) (up_to_disconnect_all xs h)
up_to_disconnect_all (clipboard payload ∷ xs) h =
    ap (λ l. clipboard payload ∷ l) (up_to_disconnect_all xs h)
up_to_disconnect_all (disconnect ∷ xs) h = absurd (cc h)

left_out :
    (p : MachineId) (t : ActiveTarget) (e : InputEvent) (out : Bool) (xs : List PeerCommand)
    → let ys = if out then xs else input e ∷ xs in
      (heard p t ys ≡ heard p t xs) × (goes_on ys ≡ goes_on xs)
left_out p t e true xs = (refl, refl)
left_out p t e false xs = (refl, refl)

-- A pointer position that is left out changes neither.
pub latest-heard :
    (p : MachineId) (t : ActiveTarget) (xs : List PeerCommand)
    → (heard p t (latest xs) ≡ heard p t xs) × (goes_on (latest xs) ≡ goes_on xs)
unfolding latest is_pointer
latest-heard p t [] = (refl, refl)
latest-heard p t (input e ∷ xs) =
    let (h, g) = latest-heard p t xs in let (k, o) = left_out p t e _ (latest xs) in (k ∙ h, o ∙ g)
latest-heard p t (warp x y ∷ xs) = latest-heard p local xs
latest-heard p t (cursor_returned x y ∷ xs) = latest-heard p (remote p) xs
latest-heard p t (clipboard payload ∷ xs) = latest-heard p t xs
latest-heard p t (disconnect ∷ xs) = ((latest-heard p t xs).0, refl)

-- The cursor is on one of the two screens and both machines know it, or each has its own.
abbrev pub AtPeace : MachineId → MachineId → ActiveTarget → ActiveTarget → Type 0
AtPeace a b s t =
    ((s ≡ remote b) × (t ≡ local)) ⊎ (((s ≡ local) × (t ≡ remote a)) ⊎ ((s ≡ local) × (t ≡ local)))

-- Once the second machine has heard what is in its channel, the two are at peace.
abbrev pub IsSpoken : MachineId → MachineId → ActiveTarget → Daemon → Type 0
IsSpoken a b t d =
    let cs = for_peer b d.outbox in
    (goes_on cs ≡ true) × AtPeace a b d.sessions.active (heard a t cs)

-- More is put into the channel.
IsSpoken-more :
    (a b : MachineId) (t : ActiveTarget) (d u : Daemon) (new : List (MachineId × PeerCommand))
    → goes_on (for_peer b d.outbox) ≡ true
    → u.outbox ≡ d.outbox ++ new
    → goes_on (for_peer b new) ≡ true
    → AtPeace a b u.sessions.active (heard a (heard a t (for_peer b d.outbox)) (for_peer b new))
    → IsSpoken a b t u
IsSpoken-more a b t d u new g o k h =
    rw (o, for_peer-append b d.outbox new, heard-append a t (for_peer b d.outbox) (for_peer b new))
      (goes_on-append (for_peer b d.outbox) (for_peer b new) g k, h)

-- A peer that is given input has a link.
only_peer :
    (b p : MachineId) (d : Daemon) (l : PeerLink)
    → IsValid d
    → d.links ≡ (b, l) ∷ []
    → d.sessions.active ≡ remote p
    → p ≡ b
unfolding get
only_peer b p d l v e h =
    let r : contains_key p d.sessions.by_peer ≡ true = rw h at v.core.tables.routed in
    let k = rw e at (v.core.linked p) in ground (arith, k, r, nat_beq_iff b p)

pub ok_eq : {A E : Type 0} {x y : A} → ◌≡◌ {A = Outcome E A} (ok x) (ok y) → x ≡ y
ok_eq h = cc

-- Where the input goes where it went.
Forwards-IsSpoken :
    (a b : MachineId) (t : ActiveTarget) (d u : Daemon)
    → IsSpoken a b t d
    → u.sessions.active ≡ d.sessions.active
    → Forwards d u
    → IsSpoken a b t u
Forwards-IsSpoken a b t d u (g, h) s (inl o) = rw (o, s) (g, h)
Forwards-IsSpoken a b t d u (g, h) s (inr (p, e, o)) = elim (Bool-cases (p == b)) [
  | inl y ↦ IsSpoken-more a b t d u ((p, input e) ∷ []) g o (rw y) (rw (y, s) h)
  | inr n ↦ IsSpoken-more a b t d u ((p, input e) ∷ []) g o (rw n) (rw (n, s) h)
]

-- Where it is handed over.
Handed-IsSpoken :
    (a b : MachineId) (t : ActiveTarget) (d u : Daemon) (l : PeerLink)
    → IsSpoken a b t d
    → IsValid u
    → d.links ≡ (b, l) ∷ []
    → u.links ≡ (b, l) ∷ []
    → Handed d u
    → IsSpoken a b t u
Handed-IsSpoken a b t d u l (g, h) v k k' (inl (p, s, o)) =
    let e = only_peer b p u l v k' s in
    let y : (p == b) ≡ true = (nat_beq_iff p b).1 e in
    IsSpoken-more a b t d u _ g o (rw y) (rw y (inl (s ∙ ap remote e, refl)))
Handed-IsSpoken a b t d u l (g, h) v k k' (inr (s, o)) =
    let y : (b == b) ≡ true = (nat_beq_iff b b).1 refl in
    IsSpoken-more a b t d u _ g (rw k at o) (rw y) (rw y (inr (inl (s, refl))))

-- A captured event keeps this.
pub capture-IsSpoken :
    (a b : MachineId) (t : ActiveTarget) (os : Option (ℤ × ℤ)) (e : InputEvent) (d : Daemon)
    (l : PeerLink)
    → IsValid d
    → d.own ≡ a
    → d.links ≡ (b, l) ∷ []
    → IsSpoken a b t d
    → (u : Daemon) × (route_captured os e d ≡ ok u)
      × IsValid u
      × (u.own ≡ a)
      × (u.links ≡ (b, l) ∷ [])
      × IsSpoken a b t u
capture-IsSpoken a b t os e d l v o k (g, h) =
    let (u, q, (kept, c)) = route_captured-IsTold os e d v in
    let (u', q', w') = route_captured-IsValid os e d v in
    let same : u' ≡ u = ok_eq (sym q' ∙ q) in
    let w = rw same at w' in
    let links = kept.1 ∙ k in
    (
      u,
      q,
      w,
      kept.0 ∙ o,
      links,
      elim c [
        | inl (s, f) ↦ Forwards-IsSpoken a b t d u (g, h) s f
        | inr f ↦ Handed-IsSpoken a b t d u l (g, h) w k links f
      ],
    )
