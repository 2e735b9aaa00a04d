-- ===== src/Examples/Peering.antt =====
-- The task of a session, from its beginning to its end.
use omnipresent.Prelude.{
  ◌≡◌, ◌+◌, ◌++◌, ℕ, true, false, Option, none, List, [], ◌∷◌, leb, refl, nat_eq,
}
use omnipresent.Prelude.Int.{pos}
use omnipresent.Prelude.Outcome.{ok}
use omnipresent.Protocol.Control.{cursor_warp, heartbeat}
use omnipresent.Protocol.Clipboard.{ClipboardData}
use omnipresent.Clipboard
use omnipresent.Clipboard.{Port, ClipboardManager}
use omnipresent.Runtime.Daemon.History.{captured}
use omnipresent.Runtime.Daemon.Sending.{signal}
use omnipresent.Runtime.Daemon.Sending.Orders.{all_taken}
use omnipresent.Runtime.Daemon.Peer.{
  Arm, Peer, incoming, signalling, ticked, looked, meanwhile, undecodable, control_came, finished,
  entered, arm, run_peer, heartbeat_timeout,
}
use omnipresent.Runtime.Daemon.Peer.Ended.{Ends, run_peer-Ends}
use omnipresent.Runtime.Daemon.Peer.Silent.{last_life, run_peer-looked}
use omnipresent.Examples.Desktop.{paired, paired-IsValid, push_right}
use omnipresent.Examples.Devices.{board}

abbrev sharing : ClipboardManager (Option ClipboardData)
sharing = Clipboard.new none true

-- The user crosses to the peer, whose user takes over, and who closes the stream.
abbrev visit : List (ℕ × Arm)
visit =
    (100, ticked)
    ∷ (150, meanwhile (captured none push_right))
    ∷ (300, signalling (control_came (cursor_warp 7 (pos 3) (pos 4))))
    ∷ (900, signalling finished)
    ∷ []

run_peer-Ends_example :
    Ends board all_taken 7 2 (run_peer board all_taken 7 2 visit (entered 0 sharing paired))
run_peer-Ends_example =
    run_peer-Ends board all_taken 7 2 visit (entered 0 sharing paired) (tt, (tt, (tt, (tt, tt))))
      paired-IsValid

abbrev quiet : List (ℕ × Arm)
quiet = (100, ticked) ∷ (500, incoming undecodable) ∷ (2100, ticked) ∷ []

abbrev still : Peer (Option ClipboardData)
still = record {
  daemon = paired;
  manager = sharing;
  sent = signal (heartbeat 7) ∷ signal (heartbeat 7) ∷ [];
  deadline = 8500;
}

quiet_run : run_peer board all_taken 7 2 quiet (entered 0 sharing paired) ≡ ok (still, false)
unfolding run_peer arm
quiet_run = refl

run_peer-looked_example :
    (t : Peer (Option ClipboardData)) × (run_peer board all_taken 7 2
        (quiet ++ (8600, looked) ∷ [])
        (entered 0 sharing paired)
      ≡ ok (t, leb (last_life 0 quiet + heartbeat_timeout) 8600))
run_peer-looked_example =
    run_peer-looked board all_taken 7 2 0 8600 sharing paired quiet still quiet_run
