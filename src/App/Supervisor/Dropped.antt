-- ===== src/App/Supervisor/Dropped.antt =====
-- Stopping the daemon and starting it again, when the daemon is reached and when it is not.
use omnipresent.Prelude.{
  ◌+◌, subst, ℕ, ◌≡◌, ◌==◌, Bool, true, false, some, none, [], ◌∷◌, refl, arith, nat_eq, sym,
}
use omnipresent.Prelude.Maps.{get, insert}
use omnipresent.App.Supervisor.{
  Thread, Supervisor, Stopping, Ending, late, returned, broken, done, refused, start, stop, leaves,
  is_embedded, await,
}
use omnipresent.App.Supervisor.Single.{
  IsSingle, one, idle, busy, leaves_self, finishes_self, panics_self, nothing, same_thread,
}

-- The daemon is reached.
abbrev pub reached : Ending → Stopping
reached ending = record { asked = true; ending = ending }

ended :
    (t : Thread) (inside : Bool) (n : ℕ)
    → stop (reached returned) (one (some t) t inside n) ≡ (nothing false n, done)
unfolding stop get
ended t inside n = rw (same_thread t, await, leaves_self t inside n, finishes_self t n) refl

ended_broken :
    (t : Thread) (inside : Bool) (n : ℕ)
    → stop (reached broken) (one (some t) t inside n) ≡ (nothing inside n, done)
unfolding stop get
ended_broken t inside n = rw (same_thread t, await, panics_self t inside n) refl

too_late :
    (t : Thread) (inside : Bool) (n : ℕ)
    → (stop (reached late) (one (some t) t inside n)).1 ≡ refused
unfolding stop get
too_late t inside n = rw (same_thread t, await) refl

-- What a start makes of a supervisor.
abbrev IsRestarted : ℕ → Supervisor → Type 0
IsRestarted n s =
    let r = start true s in
    (r.1 ≡ done) × (r.0.slot ≡ some n) × (r.0.threads ≡ (n, true) ∷ []) × (is_embedded r.0 ≡ true)

-- A daemon that was stopped can be started: when a supervisor that has no thread, or one thread whose
-- handle it holds, has reached its daemon and stopped it with success, whether the thread then
-- returned or panicked, the next start succeeds if the operating system has a thread to spawn, and
-- the one thread is the new one.
pub stop-start :
    (calm : Bool) (ending : Ending) (s : Supervisor)
    → IsSingle calm s
    → (stop (reached ending) s).1 ≡ done
    → let r = start true (stop (reached ending) s).0 in
      (r.1 ≡ done)
      × (r.0.slot ≡ some s.spawned)
      × (r.0.threads ≡ (s.spawned, true) ∷ [])
      × (is_embedded r.0 ≡ true)
unfolding stop start insert
stop-start calm ending _ (idle slot r true n c) h = absurd (cc h)
stop-start calm ending _ (idle none r false n c) h = (refl, refl, refl, refl)
stop-start calm ending _ (idle (some t) r false n c) h = (refl, refl, refl, refl)
stop-start calm returned _ (busy t inside n) h =
    subst (λ u. IsRestarted n u.0) (sym (ended t inside n)) (refl, refl, refl, refl)
stop-start calm broken _ (busy t inside n) h =
    subst (λ u. IsRestarted n u.0) (sym (ended_broken t inside n)) (refl, refl, refl, refl)
stop-start calm late _ (busy t inside n) h = absurd (cc (h, too_late t inside n))

-- Two daemons, of which the supervisor holds the second.
abbrev two : Thread → Bool → Thread → Supervisor
two t inside n = record {
  slot = some n;
  running = inside;
  poisoned = false;
  threads = (t, inside) ∷ (n, true) ∷ [];
  spawned = n + 1;
}

started :
    (ending : Ending) (t n : Thread)
    → (t == n) ≡ false
    → start true (stop (record { asked = false; ending = ending }) (one (some t) t true n)).0
      ≡ (two t true n, done)
unfolding start stop insert
started ending t n d = rw d refl

leaves-two : (t n : Thread) → leaves t (two t true n) ≡ two t false n
unfolding leaves insert
leaves-two t n = let e : (t == t) ≡ true = ground arith in rw (e, leaves) (rw e refl)

get-two :
    (t : Thread) (inside : Bool) (n : Thread)
    → (t == n) ≡ false
    → (get t (two t inside n).threads ≡ some inside) × (get n (two t inside n).threads ≡ some true)
unfolding get
get-two t inside n d =
    let e : (t == t) ≡ true = ground arith in
    let e' : (n == n) ≡ true = ground arith in (rw e refl, rw (d, e') refl)

-- When the daemon does not answer the request to stop, the handle of its thread is lost: the stop
-- is refused, the next start runs a second daemon beside the first, and once the first returns from
-- `run` the window is told that no daemon runs, while the second does.
pub stop-start_twice :
    (ending : Ending) (t : Thread) (n : ℕ)
    → (t == n) ≡ false
    → let u = stop (record { asked = false; ending = ending }) (one (some t) t true n) in
      let r = start true u.0 in
      (u.1 ≡ refused)
      × (r.1 ≡ done)
      × (get t r.0.threads ≡ some true)
      × (get n r.0.threads ≡ some true)
      × (is_embedded (leaves t r.0) ≡ false)
      × (get n (leaves t r.0).threads ≡ some true)
unfolding stop
stop-start_twice ending t n d =
    let g = get-two t true n d in
    let h = get-two t false n d in
    rw (started ending t n d, leaves-two t n) (refl, refl, g.0, g.1, refl, h.1)
