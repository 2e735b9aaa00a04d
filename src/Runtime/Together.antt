-- ===== src/Runtime/Together.antt =====
-- Two machines joined by one session: crates/omni-runtime/src/daemon.rs on both sides. Each daemon
-- puts commands into the channel of the peer's task, which sends them as messages (`run_peer`), and
-- the daemon at the other end acts on them in the order in which they were sent. A datagram may be
-- lost on the way; a message on the control stream is not.
pub mod Kept
pub mod Spoken
pub mod Turns
pub mod Crossed
use omnipresent.Prelude.{Bool, Option, List, [], ◌∷◌, ◌==◌, nat_eq, if◌then◌else◌}
use omnipresent.Prelude.Int.{ℤ}
use omnipresent.Prelude.Outcome.{Outcome, ok, ◌>>=◌}
use omnipresent.Protocol.Ids.{MachineId, SessionId}
use omnipresent.Protocol.Input.{InputEvent}
use omnipresent.Runtime.Daemon.{Daemon, PeerCommand}
use omnipresent.Runtime.Daemon.Routing.{route_captured}
use omnipresent.Runtime.Daemon.Handover.{on_signal}
use omnipresent.Runtime.Daemon.Sending.{Sent, datagram, signal, bulk, on_input, send_batch}
use omnipresent.Runtime.Daemon.Sending.Orders.{all_taken}

-- What was put into the channel of one peer.
abbrev pub for_peer : MachineId → List (MachineId × PeerCommand) → List PeerCommand
for_peer p [] = []
for_peer p ((q, c) ∷ cs) = let rest = for_peer p cs in if q == p then c ∷ rest else rest

-- A captured event, with where the operating system says its cursor is.
abbrev pub Capture : Type 0
Capture = Option (ℤ × ℤ) × InputEvent

unfoldable pub capture_all : List Capture → Daemon → Outcome ⊥ Daemon
capture_all [] d = ok d
capture_all ((os, e) ∷ es) d = route_captured os e d >>= λ d'. capture_all es d'

module _ (session : SessionId) (arrives : InputEvent → Bool) where
  -- What the task of the session with `p` does with one thing that `p` has sent. `arrives` tells the
  -- input that comes through and that the rate limiter allows. What a payload does to the clipboard
  -- is not part of the state.
  unfoldable pub hear : MachineId → Sent → Daemon → Daemon
  unfolding on_signal on_input
  hear p (signal c) d = (on_signal session p c d).0
  hear p (datagram claimed e) d = on_input session claimed (arrives e) e d
  hear p (bulk payload) d = d

  unfoldable pub hear_all : MachineId → List Sent → Daemon → Daemon
  hear_all p [] d = d
  hear_all p (m ∷ ms) d = hear_all p ms (hear p m d)

  -- The first machine captures some events, its task sends what there is for the second, and the
  -- second hears it.
  unfoldable pub turn : List Capture → Daemon × Daemon → Outcome ⊥ (Daemon × Daemon)
  unfolding capture_all hear_all send_batch
  turn es (a, b) = capture_all es a >>= λ a'. ok (
    record a' { outbox = [] },
    hear_all a.own (send_batch all_taken session (for_peer b.own a'.outbox) []).0 b,
  )

  abbrev pub exchanged : Outcome ⊥ (Daemon × Daemon) → Outcome ⊥ (Daemon × Daemon)
  exchanged o = o >>= λ p. ok (p.1, p.0)

  -- The machines take turns in any order; `true` is a turn of the first one.
  unfoldable pub turns : List (Bool × List Capture) → Daemon × Daemon → Outcome ⊥ (Daemon × Daemon)
  unfolding turn
  turns [] p = ok p
  turns ((first, es) ∷ rounds) p =
      (if first then turn es p else exchanged (turn es (p.1, p.0))) >>= λ q. turns rounds q

  -- Both machines capture some events before either hears of the other's.
  unfoldable pub meet : List Capture → List Capture → Daemon × Daemon → Outcome ⊥ (Daemon × Daemon)
  unfolding capture_all hear_all send_batch
  meet es fs (a, b) = capture_all es a >>= λ u. capture_all fs b >>= λ w. ok (
    hear_all b.own (send_batch all_taken session (for_peer a.own w.outbox) []).0
        (record u { outbox = [] }),
    hear_all a.own (send_batch all_taken session (for_peer b.own u.outbox) []).0
        (record w { outbox = [] }),
  )
