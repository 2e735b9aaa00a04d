-- ===== src/Examples/Desktop.antt =====
-- Two machines side by side: a 1920 × 1080 screen and a 2560 × 1440 one.
use omnipresent.Runtime.Trust.{peer_id_of, machine_id_of}
use omnipresent.Runtime.Daemon.Control.{on_signal-cursor_returned, on_signal-cursor_warp}
use omnipresent.Session.{establish, local, remote}
use omnipresent.Prelude.{false, ◌==◌}
use omnipresent.Prelude.Outcome.{ok}
use omnipresent.Topology.Layout.Links
use omnipresent.Topology.Layout.Moves.{advance-IsInside, Reports, IsInside}
use omnipresent.Topology.Layout.Links.{link-link, neighbor-link}
use omnipresent.Runtime.Daemon.Told.{route_captured-IsTold, IsTold}
use omnipresent.Runtime.Daemon.Preserved.{route_captured-IsValid}
use omnipresent.Prelude.Maps.{contains_key, get, insert}
use omnipresent.Prelude.Int.{pos}
use omnipresent.Runtime.Daemon.Routing.{route_captured}
use omnipresent.Session.{controller}
use omnipresent.Runtime.Daemon.Links.{new_link, admit}
use omnipresent.Topology.Layout.{advance, Advance, CursorState, link, VirtualLayout}
use omnipresent.Runtime.Daemon.Handover.{on_signal}
use omnipresent.Runtime.Daemon.Preserved.Admission.{admit-IsValid}
use omnipresent.Runtime.Daemon.{notify_change, rebuild_layout, clamp_to_screen, Daemon}
use omnipresent.Protocol.Input.{press, key, motion, InputEvent}
use omnipresent.Protocol.Ids.{Fingerprint}
use omnipresent.Protocol.Control
use omnipresent.Runtime.Daemon.Invariant
use omnipresent.Runtime.Daemon.History.{
  stopped, ended, relabelled, placed, signalled, captured, began, start, run, Happening,
  start-IsValid, run-start-IsValid,
}
use omnipresent.Prelude.{some, none, true, ◌≡◌, [], ◌∷◌, List, refl, arith, list_eq, nat_eq}
use omnipresent.Topology.Geometry.{edge_beq, opposite, Screen, left, right}

abbrev pub own_screen : Screen
own_screen = record { width = 1920; height = 1080 }

abbrev pub peer_screen : Screen
peer_screen = record { width = 2560; height = 1440 }

abbrev pub peer_print : Fingerprint
peer_print = 0 ∷ 0 ∷ 0 ∷ 0 ∷ 0 ∷ 0 ∷ 0 ∷ 2 ∷ []

abbrev pub push_right : InputEvent
push_right = motion (record { dx = pos 4000; dy = pos 0 })

-- A session begins, the cursor is pushed past the right edge, a key is typed, the peer takes the
-- cursor back, is placed elsewhere, and leaves.
abbrev evening : List Happening
evening =
    began controller 7 peer_print [] peer_screen
    ∷ captured (some (pos 10, pos 20)) push_right
    ∷ captured none (key 4 press 0)
    ∷ signalled 7 2 (Control.cursor_warp 7 (pos 3) (pos 4))
    ∷ placed true [] []
    ∷ relabelled true [] []
    ∷ ended 2
    ∷ stopped
    ∷ []

run-start-IsValid_example :
    (d : Daemon) × (run evening (start 1 own_screen [] [] true) ≡ ok d) × Invariant.IsValid d
run-start-IsValid_example =
    run-start-IsValid 1 own_screen [] [] true evening (omega arith, omega arith)
      ((omega arith, omega arith), (tt, (tt, (tt, (tt, (tt, (tt, (tt, tt))))))))

abbrev pub alone : Daemon
alone = start 1 own_screen [] [] true

alone-IsValid : Invariant.IsValid alone
alone-IsValid = start-IsValid 1 own_screen [] [] true (omega arith, omega arith)

abbrev pub paired : Daemon
paired = (admit controller 7 peer_print [] peer_screen alone).0

pub paired-IsValid : Invariant.IsValid paired
paired-IsValid =
    admit-IsValid controller 7 peer_print [] peer_screen alone (omega arith, omega arith)
      alone-IsValid

route_captured-IsValid_example :
    (d : Daemon) × (route_captured none push_right paired ≡ ok d) × Invariant.IsValid d
route_captured-IsValid_example = route_captured-IsValid none push_right paired paired-IsValid

route_captured-IsTold_example :
    (t : Daemon) × (route_captured none push_right paired ≡ ok t) × IsTold paired t
route_captured-IsTold_example = route_captured-IsTold none push_right paired paired-IsValid

on_signal-cursor_warp_example :
    let r = on_signal 7 2 (Control.cursor_warp 7 (pos 3) (pos 4)) paired in
    (r.0.sessions.active ≡ local)
    × (r.0.suppress ≡ false)
    × (r.0.cursor.machine ≡ paired.own)
    × (r.1 ≡ true)
on_signal-cursor_warp_example = on_signal-cursor_warp 7 2 (pos 3) (pos 4) paired paired-IsValid

peer_link : get 2 paired.links ≡ some (new_link controller 7 peer_print [] peer_screen alone)
unfolding admit establish rebuild_layout notify_change machine_id_of peer_id_of get insert
peer_link = refl

paired_own : (paired.own == 2) ≡ false
unfolding admit establish rebuild_layout notify_change machine_id_of peer_id_of get insert
paired_own = refl

on_signal-cursor_returned_example :
    let r = on_signal 7 2 (Control.cursor_returned 7 (pos 3) (pos 4)) paired in
    (r.0.sessions.active ≡ remote 2)
    × (r.0.suppress ≡ true)
    × (r.0.cursor ≡ record { machine = 2; position = clamp_to_screen peer_screen (pos 3) (pos 4) })
    × (r.1 ≡ true)
on_signal-cursor_returned_example =
    on_signal-cursor_returned 7 2 (pos 3) (pos 4) paired
      (new_link controller 7 peer_print [] peer_screen alone) paired-IsValid peer_link paired_own

abbrev apart : VirtualLayout
apart = record { screens = (1, own_screen) ∷ (2, peer_screen) ∷ (3, own_screen) ∷ []; links = [] }

abbrev joined : VirtualLayout
joined = record apart { links = ((1, right), 2) ∷ ((2, left), 1) ∷ [] }

apart_linked : link 1 right 2 apart ≡ ok joined
unfolding link opposite insert get edge_beq
apart_linked = refl

abbrev at_left : CursorState
at_left = record { machine = 1; position = record { x = 5; y = 6 } }

apart-IsValid : Links.IsValid apart
unfolding get
apart-IsValid = record { sized = λ p s h. ground arith; known = λ p e q h. cc }

joined-IsValid : Links.IsValid joined
joined-IsValid = Links.link-IsValid 1 right 2 apart joined apart-IsValid apart_linked

at_left-known : contains_key at_left.machine joined.screens ≡ true
unfolding get
at_left-known = refl

advance-IsInside_example :
    (a : Advance) × (advance joined at_left (record { dx = pos 4000; dy = pos 0 }) ≡ ok a)
    × IsInside joined a.cursor
    × Reports joined at_left a
advance-IsInside_example =
    advance-IsInside joined at_left (record { dx = pos 4000; dy = pos 0 }) joined-IsValid
      at_left-known
