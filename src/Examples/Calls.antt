-- ===== src/Examples/Calls.antt =====
-- A session that begins, is driven, changes direction and ends.
use omnipresent.Session.Replay.History.{
  closes, yields, replay-run, reverses, follows, run, establishes, Call,
}
use omnipresent.Session.Replay.{view, replay}
use omnipresent.Prelude.{[], ◌≡◌, ◌∷◌, List}
use omnipresent.Session
use omnipresent.Session.{controller}

abbrev calls : List Call
calls = establishes 7 2 controller ∷ follows 2 ∷ reverses 7 ∷ yields ∷ closes 7 ∷ []

replay-run_example : replay (run (Session.new 1) calls).events ≡ view (run (Session.new 1) calls)
replay-run_example = replay-run 1 calls
