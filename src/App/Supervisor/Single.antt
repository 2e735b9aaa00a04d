-- ===== src/App/Supervisor/Single.antt =====
-- There is one daemon at a time, and the window knows whether it runs.
use omnipresent.Prelude.{
  refl, sym, subst, ◌+◌, ℕ, Option, ◌≡◌, ◌==◌, Bool, true, false, not, ◌&&◌, none, some, List, [],
  ◌∷◌, inl, inr, arith, nat_eq, Bool-cases,
}
use omnipresent.Prelude.Lists.{All}
use omnipresent.Prelude.Maps.{get, insert}
use omnipresent.App.Supervisor.{
  fill_slot, reap, await, spawn, Thread, Supervisor, Stopping, Ending, late, returned, broken, Act,
  starts, stops, left, finished, panicking, panics, act, acts, start, stop, leaves, finishes, fresh,
}
use omnipresent.Prelude.{ℕ, ◌+◌, subst, sym}
use omnipresent.Prelude.Maps.{remove}

-- Either no thread is left, and `running` is reset unless a spawn has panicked or, if that is not
-- ruled out by `calm`, a thread; or one thread is left, the slot holds it, and `running` tells
-- whether it is inside `run`.
pub data IsSingle (calm : Bool) : Supervisor → Type 0 where
  idle :
      (slot : Option Thread) (running poisoned : Bool) (spawned : ℕ)
      → (calm ≡ true → running ≡ poisoned)
      → IsSingle calm (record {
        slot = slot;
        running = running;
        poisoned = poisoned;
        threads = [];
        spawned = spawned;
      })
  busy :
      (t : Thread) (inside : Bool) (spawned : ℕ)
      → IsSingle calm (record {
        slot = some t;
        running = inside;
        poisoned = false;
        threads = (t, inside) ∷ [];
        spawned = spawned;
      })

-- The daemon, asked to stop, is reached.
abbrev pub IsAsked : Act → Type 0
IsAsked (starts spawns) = Unit
IsAsked (stops w) = w.asked ≡ true
IsAsked (left t) = Unit
IsAsked (finished t) = Unit
IsAsked (panicking t) = Unit

abbrev pub is_broken : Ending → Bool
is_broken late = false
is_broken returned = false
is_broken broken = true

-- No thread panics.
abbrev pub is_calm : Act → Bool
is_calm (starts spawns) = true
is_calm (stops w) = not (is_broken w.ending)
is_calm (left t) = true
is_calm (finished t) = true
is_calm (panicking t) = false

abbrev pub all_calm : List Act → Bool
all_calm [] = true
all_calm (a ∷ moves) = is_calm a && all_calm moves

pub same_thread : (t : Thread) → (t == t) ≡ true
same_thread t = ground arith

spawn-IsSingle :
    (calm spawns running : Bool) (n : ℕ)
    → IsSingle calm
        (spawn spawns (record {
          slot = none;
          running = running;
          poisoned = false;
          threads = [];
          spawned = n;
        })).0
unfolding insert
spawn-IsSingle calm true running n = busy n true (n + 1)
spawn-IsSingle calm false running n = idle none true true n (λ c. refl)

-- One thread, and what the slot holds.
abbrev pub one : Option Thread → Thread → Bool → ℕ → Supervisor
one slot t inside n = record {
  slot = slot;
  running = inside;
  poisoned = false;
  threads = (t, inside) ∷ [];
  spawned = n;
}

-- A thread that runs is not joined.
kept :
    (t : Thread) (inside : Bool) (n : ℕ)
    → reap (some t) (one (some t) t inside n) ≡ one (some t) t inside n
unfolding get
kept t inside n = rw (same_thread t, reap)

replaced : (u t : Thread) (b c : Bool) → (u == t) ≡ true → insert t b ((u, c) ∷ []) ≡ (u, b) ∷ []
unfolding insert
replaced u t b c y = rw y

removed : (u t : Thread) (c : Bool) → (u == t) ≡ true → remove t ((u, c) ∷ []) ≡ []
unfolding remove
removed u t c y = rw y

start-IsSingle :
    (calm spawns : Bool) {s : Supervisor} → IsSingle calm s → IsSingle calm (start spawns s).0
unfolding start
start-IsSingle calm spawns (idle slot r true n h) = idle slot r true n h
start-IsSingle calm spawns (idle none r false n h) = spawn-IsSingle calm spawns r n
start-IsSingle calm spawns (idle (some t) r false n h) = spawn-IsSingle calm spawns r n
start-IsSingle calm spawns (busy t inside n) =
    subst (λ r. IsSingle calm (fill_slot r.slot spawns r).0) (sym (kept t inside n))
      (busy t inside n)

leaves-IsSingle :
    (calm : Bool) (t : Thread) {s : Supervisor} → IsSingle calm s → IsSingle calm (leaves t s)
unfolding leaves
leaves-IsSingle calm t (idle slot r poisoned n h) = idle slot r poisoned n h
leaves-IsSingle calm t (busy u true n) = elim (Bool-cases (u == t)) [
  | inl y ↦ rw (y, leaves, replaced u t false true y) (busy u false n)
  | inr o ↦ rw (o, leaves) (busy u true n)
]
leaves-IsSingle calm t (busy u false n) = elim (Bool-cases (u == t)) [
  | inl y ↦ rw (y, leaves) (busy u false n)
  | inr o ↦ rw (o, leaves) (busy u false n)
]

finishes-IsSingle :
    (calm : Bool) (t : Thread) {s : Supervisor} → IsSingle calm s → IsSingle calm (finishes t s)
unfolding finishes
finishes-IsSingle calm t (idle slot r poisoned n h) = idle slot r poisoned n h
finishes-IsSingle calm t (busy u true n) = elim (Bool-cases (u == t)) [
  | inl y ↦ rw (y, finishes) (busy u true n)
  | inr o ↦ rw (o, finishes) (busy u true n)
]
finishes-IsSingle calm t (busy u false n) = elim (Bool-cases (u == t)) [
  | inl y ↦ rw (y, finishes, removed u t false y) (idle (some u) false false n (λ c. refl))
  | inr o ↦ rw (o, finishes) (busy u false n)
]

panics-IsSingle :
    (calm : Bool) (t : Thread) {s : Supervisor}
    → calm ≡ false
    → IsSingle calm s
    → IsSingle calm (panics t s)
unfolding panics
panics-IsSingle calm t c (idle slot r poisoned n h) = idle slot r poisoned n h
panics-IsSingle calm t c (busy u true n) = elim (Bool-cases (u == t)) [
  | inl y ↦
      rw (y, panics, removed u t true y) (idle (some u) true false n (λ d. absurd (cc (c, d))))
  | inr o ↦ rw (o, panics) (busy u true n)
]
panics-IsSingle calm t c (busy u false n) = elim (Bool-cases (u == t)) [
  | inl y ↦ rw (y, panics) (busy u false n)
  | inr o ↦ rw (o, panics) (busy u false n)
]

pub leaves_self :
    (t : Thread) (inside : Bool) (n : ℕ) → leaves t (one none t inside n) ≡ one none t false n
unfolding leaves
leaves_self t true n = rw (same_thread t, leaves, replaced t t false true (same_thread t)) refl
leaves_self t false n = rw (same_thread t, leaves) refl

-- A supervisor without threads and without a handle.
abbrev pub nothing : Bool → ℕ → Supervisor
nothing running n = record {
  slot = none;
  running = running;
  poisoned = false;
  threads = [];
  spawned = n;
}

pub finishes_self : (t : Thread) (n : ℕ) → finishes t (one none t false n) ≡ nothing false n
unfolding finishes
finishes_self t n = rw (same_thread t, finishes, removed t t false (same_thread t)) refl

pub panics_self :
    (t : Thread) (inside : Bool) (n : ℕ)
    → finishes t (panics t (one none t inside n)) ≡ nothing inside n
unfolding panics finishes get
panics_self t true n = rw (same_thread t, panics, removed t t true (same_thread t)) refl
panics_self t false n =
    let e : panics t (one none t false n) ≡ one none t false n = rw (same_thread t, panics) refl in
    rw e (finishes_self t n)

await-IsSingle :
    (calm : Bool) (t : Thread) (inside : Bool) (ending : Ending) (n : ℕ)
    → (calm ≡ true → is_broken ending ≡ false)
    → IsSingle calm (await t ending (one none t inside n)).0
unfolding get
await-IsSingle calm t inside returned n c =
    rw (same_thread t, await, leaves_self t inside n, finishes_self t n)
      (idle none false false n (λ d. refl))
await-IsSingle calm t inside broken n c =
    rw (same_thread t, await, panics_self t inside n)
      (idle none inside false n (λ d. absurd (cc (c d))))
await-IsSingle calm t inside late n c = rw (same_thread t, await) (busy t inside n)

stop-IsSingle :
    (calm : Bool) (w : Stopping) {s : Supervisor}
    → (calm ≡ true → is_broken w.ending ≡ false)
    → w.asked ≡ true
    → IsSingle calm s
    → IsSingle calm (stop w s).0
unfolding stop
stop-IsSingle calm w c a (idle slot r true n h) = idle slot r true n h
stop-IsSingle calm w c a (idle none r false n h) = idle none r false n h
stop-IsSingle calm w c a (idle (some t) r false n h) = rw (a, stop) (idle none r false n h)
stop-IsSingle calm w c a (busy t inside n) =
    rw (a, stop) (await-IsSingle calm t inside w.ending n c)

act-IsSingle :
    (calm : Bool) (a : Act) {s : Supervisor}
    → (calm ≡ true → is_calm a ≡ true)
    → IsAsked a
    → IsSingle calm s
    → IsSingle calm (act a s)
unfolding act
act-IsSingle calm (starts spawns) c h v = start-IsSingle calm spawns v
act-IsSingle calm (stops w) c h v = stop-IsSingle calm w (λ d. ground (arith, c d)) h v
act-IsSingle calm (left t) c h v = leaves-IsSingle calm t v
act-IsSingle calm (finished t) c h v = finishes-IsSingle calm t v
act-IsSingle calm (panicking t) c h v = elim (Bool-cases calm) [
  | inl y ↦ absurd (cc (c y))
  | inr o ↦ panics-IsSingle calm t o v
]

acts-IsSingle :
    (calm : Bool) (moves : List Act) {s : Supervisor}
    → (calm ≡ true → all_calm moves ≡ true)
    → All IsAsked moves
    → IsSingle calm s
    → IsSingle calm (acts moves s)
unfolding acts
acts-IsSingle calm [] c h v = v
acts-IsSingle calm (a ∷ moves) c h v =
    acts-IsSingle calm moves (λ d. ground (arith, c d)) h.1
      (act-IsSingle calm a (λ d. ground (arith, c d)) h.0 v)

-- However the window starts and stops the daemon, and whenever threads end, by returning from `run`
-- or by a panic, as long as each stop reaches the daemon: there is at most one thread; when there is
-- one, the supervisor holds its handle, and what the window is told is whether it is inside `run`;
-- when there is none and no thread has panicked, the window is told that the daemon runs only if a
-- spawn has panicked.
pub acts-fresh-IsSingle :
    (moves : List Act) → All IsAsked moves → IsSingle (all_calm moves) (acts moves fresh)
acts-fresh-IsSingle moves h =
    acts-IsSingle (all_calm moves) moves (λ c. c) h (idle none false false 0 (λ c. refl))
