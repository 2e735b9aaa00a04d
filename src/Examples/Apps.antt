-- ===== src/Examples/Apps.antt =====
-- The window and the command line at work.
use omnipresent.Prelude.Lists.{retain}
use omnipresent.Cli.Answered.{main-dispatch, is_error, daemon_at}
use omnipresent.Examples.Requests.{service, saves, refusing}
use omnipresent.Prelude.Text.{codes}
use omnipresent.Cli.{accept, main}
use omnipresent.Runtime.Daemon.Commands.{accept_peer, dispatch, World}
use omnipresent.App.Notices.{new_requests-new_requests, waits, new_requests}
use omnipresent.Runtime.Daemon.Listing.{StatusInfo, PendingInfo}
use omnipresent.Prelude.{not, ◌≡◌, true, false, some, List, [], ◌∷◌, refl, list_eq, nat_eq}
use omnipresent.Prelude.Maps.{get, insert}
use omnipresent.App.Supervisor.{
  Act, Supervisor, starts, stops, left, finished, late, returned, acts, fresh, start, stop, leaves,
  done, refused, is_embedded,
}
use omnipresent.App.Supervisor.Single.{IsSingle, all_calm, one, busy, acts-fresh-IsSingle}
use omnipresent.App.Supervisor.Dropped.{reached, stop-start, stop-start_twice}

-- A daemon that is started, ends by itself, is started again and stopped.
abbrev day : List Act
day =
    starts true
    ∷ left 0
    ∷ finished 0
    ∷ starts true
    ∷ stops (reached late)
    ∷ starts true
    ∷ stops (reached returned)
    ∷ []

acts-fresh-IsSingle_example : IsSingle (all_calm day) (acts day fresh)
acts-fresh-IsSingle_example =
    acts-fresh-IsSingle day (tt, (tt, (tt, (tt, (refl, (tt, (refl, tt)))))))

abbrev running : Supervisor
running = one (some 0) 0 true 1

stopped : (stop (reached returned) running).1 ≡ done
unfolding stop leaves get insert
stopped = refl

stop-start_example :
    let r = start true (stop (reached returned) running).0 in
    (r.1 ≡ done) × (r.0.slot ≡ some 1) × (r.0.threads ≡ (1, true) ∷ []) × (is_embedded r.0 ≡ true)
stop-start_example = stop-start true returned running (busy 0 true 1) stopped

stop-start_twice_example :
    let u = stop (record { asked = false; ending = late }) running in
    let r = start true u.0 in
    (u.1 ≡ refused)
    × (r.1 ≡ done)
    × (get 0 r.0.threads ≡ some true)
    × (get 1 r.0.threads ≡ some true)
    × (is_embedded (leaves 0 r.0) ≡ false)
    × (get 1 (leaves 0 r.0).threads ≡ some true)
stop-start_twice_example = stop-start_twice late 0 1 refl

abbrev cafe : PendingInfo
cafe = record { host = codes "cafe"; fingerprint = codes "c0ffee" }

abbrev home : PendingInfo
home = record { host = codes "home"; fingerprint = codes "beef" }

abbrev showing : List PendingInfo → StatusInfo
showing waiting = record {
  fingerprint = codes "ab";
  port = 4733;
  capturing = true;
  clipboard_sharing = false;
  sessions = [];
  pending = waiting;
  peers = [];
  placements = [];
  modifier_swaps = [];
}

new_requests-new_requests_example :
    (new_requests
      (showing (home ∷ cafe ∷ []))
      (new_requests (showing (cafe ∷ [])) (codes "dead" ∷ [])).1).0
    ≡ retain (λ r. not (waits r.fingerprint (cafe ∷ []))) (home ∷ cafe ∷ [])
new_requests-new_requests_example =
    new_requests-new_requests (showing (cafe ∷ [])) (showing (home ∷ cafe ∷ [])) (codes "dead" ∷ [])

abbrev during : World
during = record { dialed = refusing; saved = true }

main-dispatch_example :
    main (daemon_at saves during service (codes "no")) true (accept (codes "cafe"))
    ≡ not (is_error (dispatch saves during (accept_peer (codes "cafe")) service).1)
main-dispatch_example =
    main-dispatch saves during service (codes "no") (accept (codes "cafe"))
      (accept_peer (codes "cafe")) true refl
