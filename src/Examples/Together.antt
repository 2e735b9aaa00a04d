-- ===== src/Examples/Together.antt =====
-- Two machines side by side, joined by one session, and both users at work.
use omnipresent.Runtime.Together.Crossed.{meet-crossed, EndsReturned}
use omnipresent.Prelude.Outcome.{Outcome, ok, err, panic}
use omnipresent.Prelude.{[], ◌∷◌, List, true, false, none, refl, arith, ◌≡◌, nat_eq, inr, list_eq}
use omnipresent.Prelude.Int.{pos, negsuc}
use omnipresent.Prelude.Maps.{get, insert}
use omnipresent.Protocol.Ids.{Fingerprint}
use omnipresent.Protocol.Input.{InputEvent, motion}
use omnipresent.Session.{remote, target, establish, controller}
use omnipresent.Runtime.Trust.{machine_id_of, peer_id_of}
use omnipresent.Runtime.Daemon.{Daemon, PeerLink, rebuild_layout, notify_change}
use omnipresent.Runtime.Daemon.Invariant
use omnipresent.Runtime.Daemon.History.{start, start-IsValid}
use omnipresent.Runtime.Daemon.Links.{admit, new_link}
use omnipresent.Runtime.Daemon.Preserved.Admission.{admit-IsValid}
use omnipresent.Runtime.Daemon.Routing.{route_captured}
use omnipresent.Runtime.Together.{for_peer, meet, Capture, capture_all, turns}
use omnipresent.Runtime.Together.Turns.{AreJoined, turns-AreJoined}
use omnipresent.Examples.Desktop.{
  own_screen, peer_screen, peer_print, push_right, paired, paired-IsValid, alone,
}

abbrev first_print : Fingerprint
first_print = 0 ∷ 0 ∷ 0 ∷ 0 ∷ 0 ∷ 0 ∷ 0 ∷ 1 ∷ []

abbrev other_alone : Daemon
other_alone = start 2 peer_screen [] [] true

abbrev other : Daemon
other = (admit target 7 first_print [] own_screen other_alone).0

other-IsValid : Invariant.IsValid other
other-IsValid =
    admit-IsValid target 7 first_print [] own_screen other_alone (omega arith, omega arith)
      (start-IsValid 2 peer_screen [] [] true (omega arith, omega arith))

abbrev here_link : PeerLink
here_link = new_link controller 7 peer_print [] peer_screen alone

abbrev there_link : PeerLink
there_link = new_link target 7 first_print [] own_screen other_alone

paired-AreJoined : AreJoined here_link there_link (paired, other)
unfolding admit establish rebuild_layout notify_change machine_id_of peer_id_of get insert
paired-AreJoined =
    (paired-IsValid, other-IsValid, refl, refl, refl, refl, refl, inr (inr (refl, refl)))

abbrev push_left : InputEvent
push_left = motion (record { dx = negsuc 4999; dy = pos 0 })

abbrev to_and_fro : List Capture
to_and_fro = (none, push_right) ∷ (none, push_left) ∷ []

abbrev fro_and_to : List Capture
fro_and_to = (none, push_left) ∷ (none, push_right) ∷ []

turns-AreJoined_example :
    (q : Daemon × Daemon) × (turns 7
        (λ e. true)
        ((true, to_and_fro) ∷ (false, fro_and_to) ∷ [])
        (paired, other)
      ≡ ok q)
    × AreJoined here_link there_link q
turns-AreJoined_example =
    turns-AreJoined 7 (λ e. true) ((true, to_and_fro) ∷ (false, fro_and_to) ∷ []) (paired, other)
      here_link there_link paired-AreJoined

abbrev after : Outcome ⊥ Daemon → Daemon
after (ok d) = d
after (err e) = alone
after panic = alone

abbrev first_after : Daemon
first_after = after (capture_all to_and_fro paired)

abbrev second_after : Daemon
second_after = after (capture_all fro_and_to other)

-- Both have gone to the other's screen and come back.
both_back :
    (capture_all to_and_fro paired ≡ ok first_after)
    × (capture_all fro_and_to other ≡ ok second_after)
    × EndsReturned paired.own (for_peer other.own first_after.outbox)
    × EndsReturned other.own (for_peer paired.own second_after.outbox)
unfolding capture_all route_captured admit establish rebuild_layout notify_change machine_id_of
    peer_id_of get insert omnipresent.Topology.Layout.advance omnipresent.Runtime.Daemon.layout_of
    omnipresent.Runtime.Daemon.place_links omnipresent.Runtime.Daemon.place_link
    omnipresent.Topology.Layout.link omnipresent.Topology.Layout.add_machine
    omnipresent.Topology.Layout.advance_on omnipresent.Topology.Layout.chosen
    omnipresent.Topology.Layout.edge_overshoot omnipresent.Topology.Geometry.edge_beq
    omnipresent.Topology.Layout.cross omnipresent.Session.handle_crossing
    omnipresent.Topology.Geometry.scale_delta omnipresent.Topology.Layout.entry_point
    omnipresent.Topology.Geometry.opposite omnipresent.Topology.Layout.project
both_back = (refl, refl, refl, refl)

meet-crossed_example :
    (p : Daemon × Daemon) × (meet 7 (λ e. true) to_and_fro fro_and_to (paired, other) ≡ ok p)
    × (p.0.sessions.active ≡ remote other.own)
    × (p.0.suppress ≡ true)
    × (p.1.sessions.active ≡ remote paired.own)
    × (p.1.suppress ≡ true)
meet-crossed_example =
    meet-crossed 7 (λ e. true) to_and_fro fro_and_to paired other first_after second_after here_link
      there_link paired-AreJoined both_back.0 both_back.1 both_back.2 both_back.3
