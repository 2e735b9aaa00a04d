-- ===== src/App/Notices.antt =====
-- omni/src-tauri/src/ipc.rs, the subscription: which waiting requests the user is told about.
-- `HashSet` is a list of what it holds, possibly more than once.
use omnipresent.Prelude.{
  list_beq_iff, ◌≡◌, ◌==◌, ◌&&◌, ◌||◌, ◌++◌, Bool, true, false, Option, none, some, List, [], ◌∷◌,
  ap, arith, list_eq, map, nat_eq, not, refl, ◌∙◌,
}
use omnipresent.Prelude.Lists.{All, retain}
use omnipresent.Prelude.Text.{Text}
use omnipresent.Runtime.Daemon.Listing.{PendingInfo, StatusInfo}

abbrev pub holds : Text → List Text → Bool
holds f [] = false
holds f (g ∷ gs) = f == g || holds f gs

-- Whether a request with the fingerprint waits.
abbrev pub waits : Text → List PendingInfo → Bool
waits f pending = holds f (map (λ r. r.fingerprint) pending)

-- `new_requests`: the requests not yet announced, and what is announced from then on.
unfoldable pub new_requests : StatusInfo → List Text → List PendingInfo × List Text
new_requests status announced =
    let waiting = map (λ r. r.fingerprint) status.pending in
    let announced' = retain (λ f. holds f waiting) announced in
    let fresh = retain (λ r. not (holds r.fingerprint announced')) status.pending in
    (fresh, announced' ++ map (λ r. r.fingerprint) fresh)

-- What a pushed snapshot leads to: the tray is made anew, the user is told of requests, and the
-- window is given the snapshot.
pub data Effect : Type 0 where
  synced : List PendingInfo → Effect
  notified : Text → Effect
  emitted : StatusInfo → Effect

-- A line of the subscription: a status, or one that is skipped, being blank or no known event.
abbrev pub Line : Type 0
Line = Option StatusInfo

-- The loop of `subscribe_once` over the lines that arrive, with the set that outlives it.
unfoldable pub subscribe_once : List Line → List Text → List Effect × List Text
unfolding new_requests
subscribe_once [] announced = ([], announced)
subscribe_once (none ∷ lines) announced = subscribe_once lines announced
subscribe_once (some status ∷ lines) announced =
    let r = new_requests status announced in
    let rest = subscribe_once lines r.1 in
    (synced status.pending ∷ (map (λ i. notified i.host) r.0 ++ (emitted status ∷ rest.0)), rest.1)

holds-append : (f : Text) (xs ys : List Text) → holds f (xs ++ ys) ≡ (holds f xs || holds f ys)
holds-append f [] ys = refl
holds-append f (x ∷ xs) ys = ground (arith, holds-append f xs ys)

and_false : (b : Bool) → false ≡ (b && false)
and_false true = refl
and_false false = refl

-- Of some texts, those that pass a test.
holds-retain :
    (f : Text) (p : Text → Bool) (xs : List Text) → holds f (retain p xs) ≡ (p f && holds f xs)
holds-retain f p [] = and_false (p f)
holds-retain f p (x ∷ xs) = ground (arith, list_beq_iff f x, holds-retain f p xs)

-- The same of the fingerprints of requests.
waits-retain :
    (f : Text) (p : Text → Bool) (rs : List PendingInfo)
    → waits f (retain (λ r. p r.fingerprint) rs) ≡ (p f && waits f rs)
waits-retain f p [] = and_false (p f)
waits-retain f p (r ∷ rs) = ground (arith, list_beq_iff f r.fingerprint, waits-retain f p rs)

same_text : (f : Text) → (f == f) ≡ true
same_text f = (list_beq_iff f f).1 refl

-- After a snapshot, what is announced is exactly what waits.
new_requests-announced :
    (status : StatusInfo) (announced : List Text) (f : Text)
    → holds f (new_requests status announced).1 ≡ waits f status.pending
unfolding new_requests
new_requests-announced status announced f =
    let W = map (λ r. r.fingerprint) status.pending in
    let kept = retain (λ g. holds g W) announced in
    let k = holds-retain f (λ g. holds g W) announced in
    let n = waits-retain f (λ g. not (holds g kept)) status.pending in
    let h = holds-append f kept (map (λ r. r.fingerprint) (new_requests status announced).0) in
    h ∙ ground (arith, k, n)

All-weaken :
    (r : PendingInfo) (all rs : List PendingInfo)
    → All (λ i. waits i.fingerprint all ≡ true) rs
    → All (λ i. waits i.fingerprint (r ∷ all) ≡ true) rs
All-weaken r all [] h = tt
All-weaken r all (i ∷ rs) h = (ground (arith, h.0), All-weaken r all rs h.1)

waits-All : (rs : List PendingInfo) → All (λ i. waits i.fingerprint rs ≡ true) rs
waits-All [] = tt
waits-All (r ∷ rs) = (rw (same_text r.fingerprint) refl, All-weaken r rs rs (waits-All rs))

retain_same :
    (p q : Text → Bool) (rs : List PendingInfo)
    → All (λ i. p i.fingerprint ≡ q i.fingerprint) rs
    → retain (λ i. p i.fingerprint) rs ≡ retain (λ i. q i.fingerprint) rs
retain_same p q [] h = refl
retain_same p q (r ∷ rs) h = ground (arith, h.0, retain_same p q rs h.1)

-- Of those that wait, one was announced if it waited before.
All-announced :
    (p q : List PendingInfo) (kept : List Text) (rs : List PendingInfo)
    → ((f : Text) → holds f kept ≡ (waits f q && waits f p))
    → All (λ i. waits i.fingerprint q ≡ true) rs
    → All (λ i. not (holds i.fingerprint kept) ≡ not (waits i.fingerprint p)) rs
All-announced p q kept [] k h = tt
All-announced p q kept (r ∷ rs) k h =
    (rw (k r.fingerprint, h.0) refl, All-announced p q kept rs k h.1)

-- The user is told of exactly the requests of a snapshot that the snapshot before did not have, and
-- in their order: not of one that still waits, and again of one that was answered and is back,
-- whatever was announced before those two.
pub new_requests-new_requests :
    (before now : StatusInfo) (announced : List Text)
    → (new_requests now (new_requests before announced).1).0
      ≡ retain (λ r. not (waits r.fingerprint before.pending)) now.pending
unfolding new_requests
new_requests-new_requests before now announced =
    let known = (new_requests before announced).1 in
    let kept = retain (λ g. waits g now.pending) known in
    let k : (f : Text) → holds f kept ≡ (waits f now.pending && waits f before.pending) = λ f.
      holds-retain f (λ g. waits g now.pending) known
      ∙ ap (λ b. waits f now.pending && b) (new_requests-announced before announced f) in
    retain_same (λ f. not (holds f kept)) (λ f. not (waits f before.pending)) now.pending
      (All-announced before.pending now.pending kept now.pending k (waits-All now.pending))
