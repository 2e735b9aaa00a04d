-- ===== src/Cli.antt =====
-- crates/omni-cli/src/main.rs: the commands of `omni`. What is printed is left out; a command comes
-- to an exit code, `true` for success. The world is a function from the request to what comes of it.
pub mod Answered
pub mod Update
use omnipresent.Prelude.{Bool, true, false, Option, none, some, List, [], ◌∷◌, ◌&&◌}
use omnipresent.Prelude.Text.{Text, codes}
use omnipresent.Prelude.Outcome.{Outcome, ok, err, panic}
use omnipresent.Runtime.Daemon.Commands.{
  Request, get_status, connect, end_session, accept_peer, reject_peer, remove_peer, layout,
  modifiers, clipboard_sharing, Answer, ok_answer, status_answer, peers_answer, layout_answer,
  modifiers_answer,
}
use omnipresent.Runtime.Daemon.Commands
use omnipresent.Client.{Exchange, exchange}

-- `Command`, with the sub-commands of `peers` and `clipboard`.
pub data Command : Type 0 where
  start stop status peers doctor update uninstall daemon : Command
  connect_to disconnect accept reject remove : Text → Command
  layout_of modifiers_of : Option Text → Option Text → Command
  clipboard : Bool → Command

abbrev pub Talk : Type 0
Talk = Request → Exchange

-- `request`
unfoldable pub request : Talk → Request → Outcome Text Answer
unfolding exchange
request talk r = exchange (codes "the daemon is not running (start it with `omni start`)") (talk r)

abbrev is_done : Outcome Text Answer → Bool
is_done (ok ok_answer) = true
is_done _ = false

-- `simple`
unfoldable pub simple : Talk → Request → Bool
unfolding request
simple talk r = is_done (request talk r)

-- A daemon that does not run is no failure of `status`.
abbrev shown_status : Outcome Text Answer → Bool
shown_status (ok (status_answer s)) = true
shown_status (ok _) = false
shown_status (err e) = true
shown_status panic = false

abbrev shown_peers : Outcome Text Answer → Bool
shown_peers (ok (peers_answer ps)) = true
shown_peers _ = false

abbrev shown_layout : Outcome Text Answer → Bool
shown_layout (ok (layout_answer hs)) = true
shown_layout _ = false

abbrev shown_modifiers : Outcome Text Answer → Bool
shown_modifiers (ok (modifiers_answer hs)) = true
shown_modifiers _ = false

-- `layout`
unfoldable pub layout_command : Talk → Option Text → Option Text → Bool
unfolding request simple
layout_command talk (some host) (some edge) = simple talk (layout (some host) (some edge))
layout_command talk (some host) none = false
layout_command talk none edge = shown_layout (request talk (layout none none))

-- `modifiers`
unfoldable pub modifiers_command : Talk → Option Text → Option Text → Bool
unfolding request simple
modifiers_command talk (some host) (some swap) = simple talk (modifiers (some host) (some swap))
modifiers_command talk (some host) none = false
modifiers_command talk none swap = shown_modifiers (request talk (modifiers none none))

abbrev is_ok : Outcome Text Answer → Bool
is_ok (ok a) = true
is_ok _ = false

abbrev is_up : Outcome Text Answer → Bool
is_up (ok (status_answer s)) = true
is_up _ = false

-- The loop that waits for the socket: what each look at it brings before the deadline.
abbrev wait_up : List Talk → Bool
wait_up [] = false
wait_up (talk ∷ looks) =
    let rest = wait_up looks in
    elim (is_up (request talk get_status)) [ true ↦ true | false ↦ rest ]

-- `start`: whether the binary is found, whether it can be spawned, and the looks that follow.
unfoldable pub start_command : Talk → Bool → Bool → List Talk → Bool
unfolding request
start_command talk found spawned looks = elim (is_ok (request talk get_status)) [
  | true ↦ true
  | false ↦ found && spawned && wait_up looks
]

abbrev healthy : Outcome Text Answer → Bool
healthy (ok (status_answer s)) = s.capturing
healthy _ = true

abbrev all_ok : List Bool → Bool
all_ok [] = true
all_ok (check ∷ checks) = check && all_ok checks

-- `doctor`: whether the state directory is found, and what the checks of the environment say.
unfoldable pub doctor_command : Talk → Bool → List Bool → Bool
unfolding request
doctor_command talk resolved checks = resolved && all_ok checks && healthy (request talk get_status)

pub data Removal : Type 0 where
  removed not_found not_removed : Removal

abbrev pub goes_on : Removal → Bool
goes_on removed = true
goes_on not_found = true
goes_on not_removed = false

-- `uninstall`: the exit code, and whether the binary is deleted, which is tried once it is located.
-- The daemon is asked to stop first, whatever comes of it.
unfoldable pub uninstall_command : Bool → Removal → Bool → Bool × Bool
uninstall_command resolved removal located =
    (resolved && goes_on removal, resolved && goes_on removal && located)

-- What a command asks the daemon, if it is one request.
abbrev pub request_of : Command → Option Request
request_of stop = some Commands.stop
request_of status = some get_status
request_of peers = some Commands.peers
request_of (connect_to host) = some (connect host)
request_of (disconnect host) = some (end_session host)
request_of (accept peer) = some (accept_peer peer)
request_of (reject peer) = some (reject_peer peer)
request_of (remove host) = some (remove_peer host)
request_of (layout_of (some host) (some edge)) = some (layout (some host) (some edge))
request_of (layout_of none edge) = some (layout none none)
request_of (layout_of (some host) none) = none
request_of (modifiers_of (some host) (some swap)) = some (modifiers (some host) (some swap))
request_of (modifiers_of none swap) = some (modifiers none none)
request_of (modifiers_of (some host) none) = none
request_of (clipboard enabled) = some (clipboard_sharing enabled)
request_of start = none
request_of doctor = none
request_of update = none
request_of uninstall = none
request_of daemon = none

-- The match of `main` for the commands that are requests; for another one, `other`.
unfoldable pub main : Talk → Bool → Command → Bool
unfolding simple layout_command modifiers_command
main talk other stop = simple talk Commands.stop
main talk other status = shown_status (request talk get_status)
main talk other peers = shown_peers (request talk Commands.peers)
main talk other (connect_to host) = simple talk (connect host)
main talk other (disconnect host) = simple talk (end_session host)
main talk other (accept peer) = simple talk (accept_peer peer)
main talk other (reject peer) = simple talk (reject_peer peer)
main talk other (remove host) = simple talk (remove_peer host)
main talk other (layout_of host edge) = layout_command talk host edge
main talk other (modifiers_of host swap) = modifiers_command talk host swap
main talk other (clipboard enabled) = simple talk (clipboard_sharing enabled)
main talk other start = other
main talk other doctor = other
main talk other update = other
main talk other uninstall = other
main talk other daemon = other
