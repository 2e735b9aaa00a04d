-- ===== src/Input/Windows/Source/Polling.antt =====
-- What `poll` delivers, and how capture ends.
use omnipresent.Prelude.{ap, ◌++◌, map, ℕ, ◌≡◌, false, some, List, [], ◌∷◌, refl, suc, zero}
use omnipresent.Prelude.Lists.{length}
use omnipresent.Protocol.Input.{InputEvent}
use omnipresent.Input.Windows.Source.{
  Capture, poll, tick, new, Polled, polled_event, polled_stopped, Settings, already_running,
  hook_install, not_started, Thread,
}

-- The answers of n polls.
abbrev pub polls : ℕ → Capture → List Polled
polls zero s = []
polls (suc n) s = let r = poll s in r.1 ∷ polls n r.0

poll_next :
    (e : InputEvent) (q : List InputEvent) (s : Capture)
    → s.queue ≡ e ∷ q
    → poll s ≡ (record s { queue = q }, polled_event e)
unfolding poll
poll_next e q s h = rw h refl

polls-queue :
    (q : List InputEvent) (s : Capture)
    → s.queue ≡ q
    → s.sender ≡ false
    → polls (suc (length q)) s ≡ map polled_event q ++ (polled_stopped ∷ [])
unfolding poll
polls-queue [] s h k = rw (h, poll, k) refl
polls-queue (e ∷ q) s h k =
    rw (poll_next e q s h)
      (ap (λ l. polled_event e ∷ l) (polls-queue q (record s { queue = q }) refl k))

-- Once the hooks could not be installed again, the polls deliver every event that was captured, in
-- order, and the next one reports that capture has stopped.
pub polls-tick :
    (w : Settings) (s : Capture)
    → polls (suc (length s.queue)) (tick w false s)
      ≡ map polled_event s.queue ++ (polled_stopped ∷ [])
unfolding tick
polls-tick w s = polls-queue s.queue (tick w false s) refl refl

-- A source whose thread could not be started leaves its mark: it failed as if the hooks had been
-- refused, but any later attempt fails with `AlreadyRunning`. No source was installed at first.
pub new-not_started :
    (w v : Settings) (t : Thread) (s : Capture)
    → s.installed ≡ false
    → let r = new w not_started s in
      (r.1 ≡ some hook_install) × ((new v t r.0).1 ≡ some already_running)
unfolding new
new-not_started w v t s h = rw (h, new) (refl, refl)
