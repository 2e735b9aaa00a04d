-- ===== src/Examples/Requests.antt =====
-- A stranger asks for a session, and clients ask the daemon.
use omnipresent.Prelude.{
  list_eq, nat_eq, ◌≡◌, Bool, true, false, List, [], ◌∷◌, ◌++◌, none, some, refl, arith, ℕ, map,
}
use omnipresent.Prelude.Maps.{get}
use omnipresent.Prelude.Text.{codes}
use omnipresent.Prelude.Outcome.{Outcome, ok, err}
use omnipresent.Protocol.Ids.{Fingerprint, IsDigest}
use omnipresent.Protocol.Clipboard.{ClipboardData, text}
use omnipresent.Protocol.Control.{reject, declined, ScreenSize, busy}
use omnipresent.Protocol.Input.{pointer, key, press}
use omnipresent.Prelude.Int.{pos}
use omnipresent.Session.{establish, controller}
use omnipresent.Runtime.Trust
use omnipresent.Security.Policy.{is_trusted, evaluate, contains}
use omnipresent.Runtime.Trust.{peer_id_of, TrustFile, is_trusted_in, decide_inbound, machine_id_of}
use omnipresent.Runtime.Daemon.{input, disconnect, PeerCommand}
use omnipresent.Runtime.Daemon.Batches.{latest}
use omnipresent.Runtime.Daemon.Links.{admit, new_link}
use omnipresent.Runtime.Daemon.Listing.{Pending}
use omnipresent.Runtime.Daemon.Incoming.{Service, arrive, answered}
use omnipresent.Runtime.Daemon.Incoming.Approval.{arrive-answered}
use omnipresent.Runtime.Daemon.Dialing.{
  Dialed, answered_by, accepted, rejected, do_connect, refused_by_peer,
}
use omnipresent.Runtime.Daemon.Dialing.Failures.{IsUnchanged, do_connect-err, do_connect-ok}
use omnipresent.Runtime.Daemon.Commands.{hello, stop, subscribe}
use omnipresent.Runtime.Daemon.Commands.Answers.{Line}
use omnipresent.Runtime.Daemon.Sending.{run_clipboard_sender, send_batch}
use omnipresent.Runtime.Daemon.Sending.Orders.{
  run_clipboard_sender_lem, Ended, send_batch_lem, wire, up_to_disconnect, goes_on, all_taken,
}
use omnipresent.Examples.Peers.{zeros, All-zeros}
use omnipresent.Examples.Desktop.{alone, peer_print}

abbrev pub stranger : Fingerprint
stranger = 3 ∷ zeros 31

pub stranger-IsDigest : IsDigest stranger
stranger-IsDigest = (refl, (omega arith, All-zeros 31))

abbrev pub nobody : TrustFile
nobody = record { peers = [] }

abbrev waiting : Pending
waiting = record { host = codes "cafe"; fingerprint = stranger; decision = 4 }

abbrev pub service : Service
service = record {
  daemon = alone;
  trust = nobody;
  pending = waiting ∷ [];
  decided = [];
  local_fingerprint = stranger;
  port = 4733;
  capturing = true;
  sharing = false;
  polling = false;
}

abbrev pub saves : TrustFile → Outcome (Unit {0}) (Unit {0})
saves t = ok tt

not_trusted : is_trusted_in stranger nobody ≡ false
unfolding is_trusted_in decide_inbound is_trusted evaluate contains
not_trusted = refl

arrive-answered_example :
    let a = arrive stranger (codes "cafe") 4 service in
    let yes = answered saves stranger (codes "cafe") (some true) a.0 in
    let no = answered saves stranger (codes "cafe") (some false) a.0 in
    let late = answered saves stranger (codes "cafe") none a.0 in
    (a.1 ≡ false)
    × (yes.1 ≡ none)
    × ((arrive stranger (codes "home") 5 yes.0).1 ≡ true)
    × (no.1 ≡ some (reject declined))
    × ((arrive stranger (codes "home") 5 no.0).1 ≡ false)
    × (late ≡ no)
arrive-answered_example =
    arrive-answered saves stranger (codes "cafe") (codes "home") 4 5 service stranger-IsDigest tt
      not_trusted

abbrev pub refusing : Dialed
refusing = answered_by stranger (rejected busy)

refused_dial : (do_connect saves [] refusing service).1 ≡ err (refused_by_peer busy)
unfolding do_connect
refused_dial = refl

do_connect-err_example :
    IsUnchanged saves [] refusing
      (refused_by_peer busy)
      service
      (do_connect saves [] refusing service).0
do_connect-err_example =
    do_connect-err saves [] refusing service (refused_by_peer busy) refused_dial

abbrev agreeing : Dialed
agreeing = answered_by peer_print (accepted 7 (record { width = 2560; height = 1440 }))

agreed : (do_connect saves [] agreeing service).1 ≡ ok tt
unfolding do_connect Trust.accept admit establish machine_id_of peer_id_of get
agreed = refl

do_connect-ok_example :
    let t = (do_connect saves [] agreeing service).0 in
    (f : Fingerprint) × (id : ℕ) × (size : ScreenSize) × (agreeing
      ≡ answered_by f (accepted id size))
    × (get (machine_id_of f) t.daemon.links
        ≡ some (
            new_link controller id f []
              (record { width = size.width; height = size.height })
              alone))
    × (t.trust ≡ Trust.accepted f (some []) nobody)
do_connect-ok_example = do_connect-ok saves [] agreeing service agreed

abbrev asked : List Line
asked =
    ((record { dialed = refusing; saved = true }), some hello)
    ∷ ((record { dialed = refusing; saved = true }), none)
    ∷ ((record { dialed = refusing; saved = true }), some stop)
    ∷ ((record { dialed = refusing; saved = true }), some subscribe)
    ∷ []

abbrev fails_second : List ClipboardData → ClipboardData → Bool
fails_second [] p = true
fails_second (q ∷ qs) p = false

abbrev copied : List ClipboardData
copied = text (codes "a") ∷ text (codes "b") ∷ text (codes "c") ∷ []

run_clipboard_sender_lem_example :
    (rest : List ClipboardData) × (run_clipboard_sender fails_second [] copied ++ rest ≡ copied)
    × Ended fails_second (run_clipboard_sender fails_second [] copied) rest
run_clipboard_sender_lem_example = run_clipboard_sender_lem fails_second copied

abbrev batch : List PeerCommand
batch =
    input (pointer (pos 1) (pos 1))
    ∷ input (pointer (pos 2) (pos 2))
    ∷ disconnect
    ∷ input (key 4 press 0)
    ∷ []

send_batch_lem_example :
    send_batch all_taken 7 batch []
    ≡ ([] ++ map (wire 7) (up_to_disconnect (latest batch)), goes_on (latest batch))
send_batch_lem_example = send_batch_lem 7 batch []
