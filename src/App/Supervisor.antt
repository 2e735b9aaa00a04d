-- ===== src/App/Supervisor.antt =====
-- omni/src-tauri/src/daemon.rs: the thread that runs the embedded daemon, and how the window starts
-- it and stops it. Asking the daemon to stop, the operating system's spawning of a thread, and
-- whether the thread ends before the deadline are arguments. The text of an error is left out.
pub mod Single
pub mod Dropped
use omnipresent.Prelude.{ℕ, ◌+◌, Bool, true, false, Option, none, some, List, [], ◌∷◌, nat_eq, not}
use omnipresent.Prelude.Maps.{Map, get, insert, remove, contains_key}

abbrev pub Thread : Type 0
Thread = ℕ

-- `Supervisor`, with the threads that have not finished: whether they are inside `run`. A thread is
-- numbered when it is spawned.
pub record Supervisor : Type 0 where
  -- `thread`
  pub slot : Option Thread
  pub running : Bool
  -- A panic under the lock poisons it.
  pub poisoned : Bool
  pub threads : Map Thread Bool
  pub spawned : ℕ

-- `Supervisor::default`
abbrev pub fresh : Supervisor
fresh = record { slot = none; running = false; poisoned = false; threads = []; spawned = 0 }

pub data Answer : Type 0 where
  done refused panicked : Answer

abbrev pub is_finished : Thread → Supervisor → Bool
is_finished t s = not (contains_key t s.threads)

-- A thread that has finished is joined.
abbrev pub reap : Option Thread → Supervisor → Supervisor
reap none s = s
reap (some t) s = elim (is_finished t s) [ true ↦ record s { slot = none } | false ↦ s ]

-- `std::thread::spawn` panics if the operating system has no thread.
abbrev pub spawn : Bool → Supervisor → Supervisor × Answer
spawn true s = (
  record s {
    slot = some s.spawned;
    running = true;
    threads = insert s.spawned true s.threads;
    spawned = s.spawned + 1;
  },
  done,
)
spawn false s = (record s { running = true; poisoned = true }, panicked)

abbrev pub fill_slot : Option Thread → Bool → Supervisor → Supervisor × Answer
fill_slot (some t) spawns s = (s, done)
fill_slot none spawns s = spawn spawns s

-- `Supervisor::start`
unfoldable pub start : Bool → Supervisor → Supervisor × Answer
unfolding get insert
start spawns s = elim s.poisoned [
  | true ↦ (s, refused)
  | false ↦ let r = reap s.slot s in fill_slot r.slot spawns r
]

-- `run` returns in a thread, which resets `running`.
unfoldable pub leaves : Thread → Supervisor → Supervisor
unfolding get insert
leaves t s = elim (get t s.threads) [
  | none ↦ s
  | some inside ↦ elim inside [
    | true ↦ record s { threads = insert t false s.threads; running = false }
    | false ↦ s
  ]
]

-- A thread that has left `run` finishes.
unfoldable pub finishes : Thread → Supervisor → Supervisor
unfolding get remove
finishes t s = elim (get t s.threads) [
  | none ↦ s
  | some inside ↦ elim inside [ true ↦ s | false ↦ record s { threads = remove t s.threads } ]
]

-- A panic inside `run` ends its thread, which then does not reset `running`.
unfoldable pub panics : Thread → Supervisor → Supervisor
unfolding get remove
panics t s = elim (get t s.threads) [
  | none ↦ s
  | some inside ↦ elim inside [ true ↦ record s { threads = remove t s.threads } | false ↦ s ]
]

-- How a thread ends while `stop` waits for it: not before the deadline, or because `run` returns, or
-- because it panics if it is still inside.
pub data Ending : Type 0 where
  late returned broken : Ending

-- What the world does while `stop` waits: whether `request_stop` succeeds, and how the thread ends.
pub record Stopping : Type 0 where
  pub asked : Bool
  pub ending : Ending

abbrev pub answer_of : Bool → Answer
answer_of true = done
answer_of false = refused

-- The loop that waits for the thread, and what follows it.
abbrev pub await : Thread → Ending → Supervisor → Supervisor × Answer
await t ending s = elim (is_finished t s) [
  | true ↦ (s, done)
  | false ↦ elim ending [
    | late ↦ (record s { slot = some t }, refused)
    | returned ↦ (finishes t (leaves t s), done)
    | broken ↦ (finishes t (panics t s), done)
  ]
]

-- What is done with the handle that was taken from the slot.
abbrev pub stop_thread : Stopping → Thread → Supervisor → Supervisor × Answer
stop_thread w t s = elim w.asked [ true ↦ await t w.ending s | false ↦ (s, refused) ]

abbrev pub take_slot : Stopping → Option Thread → Supervisor → Supervisor × Answer
take_slot w none s = (s, answer_of w.asked)
take_slot w (some t) s = stop_thread w t (record s { slot = none })

-- `Supervisor::stop`
unfoldable pub stop : Stopping → Supervisor → Supervisor × Answer
unfolding leaves finishes panics
stop w s = elim s.poisoned [ true ↦ (s, refused) | false ↦ take_slot w s.slot s ]

-- `Supervisor::is_embedded`
abbrev pub is_embedded : Supervisor → Bool
is_embedded s = s.running

-- What can happen: the window starts or stops the daemon, and a thread leaves `run`, finishes or
-- panics.
pub data Act : Type 0 where
  starts : Bool → Act
  stops : Stopping → Act
  left finished panicking : Thread → Act

unfoldable pub act : Act → Supervisor → Supervisor
unfolding start stop leaves finishes panics
act (starts spawns) s = (start spawns s).0
act (stops w) s = (stop w s).0
act (left t) s = leaves t s
act (finished t) s = finishes t s
act (panicking t) s = panics t s

unfoldable pub acts : List Act → Supervisor → Supervisor
unfolding act
acts [] s = s
acts (a ∷ rest) s = acts rest (act a s)
