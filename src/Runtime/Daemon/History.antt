-- ===== src/Runtime/Daemon/History.antt =====
-- Any sequence of what can happen to the daemon, from its start.
use omnipresent.Runtime.Daemon.Preserved.Admission.{admit-IsValid}
use omnipresent.Runtime.Daemon.Preserved.Changes.{cleanup_peer-IsValid}
use omnipresent.Runtime.Daemon.Preserved.Peers.{on_signal-IsValid}
use omnipresent.Runtime.Daemon.Preserved.{route_captured-IsValid}
use omnipresent.Runtime.Daemon.Preserved.Placing.{place_host-IsValid, relabel_host-IsValid}
use omnipresent.Protocol.Control.{ControlMessage}
use omnipresent.Prelude.Lists.{All}
use omnipresent.Prelude.Int.{ℤ}
use omnipresent.Runtime.Daemon.Handover.{cleanup_peer, on_signal, disconnect_all}
use omnipresent.Runtime.Daemon.Links.{parse_edge, admit, set_modifier_swap, set_layout}
use omnipresent.Prelude.Maps.{Map, get}
use omnipresent.Runtime.Daemon.Layouts.{layout_of-screen, HasSize}
use omnipresent.Runtime.Daemon.Routing.{route_captured}
use omnipresent.Prelude.{arith, ◌∙◌, refl, false, [], ◌≡◌, ◌∷◌, Bool, List, Option}
use omnipresent.Runtime.Daemon.{
  home, Fingerprint, Role, layout_of, ModifierSwap, SessionId, Edge, Text, ok, InputEvent, send_all,
  Outcome, Screen, MachineId, Daemon,
}
use omnipresent.Session
use omnipresent.Session.Invariant
use omnipresent.Protocol.Remap
use omnipresent.Prelude.Outcome.{◌>>=◌}
use omnipresent.Prelude.{[], ◌∷◌, list_eq, nat_eq, inl, inr, Option-cases}
use omnipresent.Runtime.Daemon.Invariant.{IsValid}

-- The state that `run_with_paths` starts with.
abbrev pub start : MachineId → Screen → Map Text Edge → Map Text ModifierSwap → Bool → Daemon
start own screen placements swaps has_sink = record {
  own = own;
  own_screen = screen;
  sessions = Session.new own;
  layout = layout_of own screen [];
  cursor = home own;
  links = [];
  placements = placements;
  modifier_swaps = swaps;
  suppress = false;
  changes = 0;
  has_sink = has_sink;
  sink = [];
  outbox = [];
}

-- A captured event, a message of a peer on the control stream of a session, the end of a peer's
-- session, a session that begins, and the two commands that place and relabel a peer.
pub data Happening : Type 0 where
  captured : Option (ℤ × ℤ) → InputEvent → Happening
  signalled : SessionId → MachineId → ControlMessage → Happening
  ended : MachineId → Happening
  began : Role → SessionId → Fingerprint → Text → Screen → Happening
  placed relabelled : Bool → Text → Text → Happening
  stopped : Happening

unfoldable pub step : Happening → Daemon → Outcome ⊥ Daemon
unfolding route_captured on_signal cleanup_peer admit set_layout set_modifier_swap disconnect_all
step (captured os e) d = route_captured os e d
step (signalled session p c) d = ok (on_signal session p c d).0
step (ended p) d = ok (cleanup_peer p d)
step (began role session f host screen) d = ok (admit role session f host screen d).0
step (placed saved host edge) d = ok (set_layout saved host edge d).0
step (relabelled saved host swap) d = ok (set_modifier_swap saved host swap d).0
step stopped d = ok (disconnect_all d)

unfoldable pub run : List Happening → Daemon → Outcome ⊥ Daemon
unfolding step
run [] d = ok d
run (h ∷ hs) d = step h d >>= λ d'. run hs d'

-- The screen of a peer has a size.
abbrev pub IsSized : Happening → Type 0
IsSized (began role session f host screen) = HasSize screen
IsSized (captured os e) = Unit {0}
IsSized (signalled session p c) = Unit {0}
IsSized (ended p) = Unit {0}
IsSized (placed saved host edge) = Unit {0}
IsSized (relabelled saved host swap) = Unit {0}
IsSized stopped = Unit {0}

pub start-IsValid :
    (own : MachineId) (screen : Screen) (placements : Map Text Edge) (swaps : Map Text ModifierSwap)
    (has_sink : Bool)
    → HasSize screen
    → IsValid (start own screen placements swaps has_sink)
unfolding get
start-IsValid own screen placements swaps has_sink h = record {
  core = record {
    tables = Invariant.new-IsValid own;
    same = refl;
    linked = λ p. refl;
    own_sized = h;
    sized = tt;
    built = refl;
    inside = (screen, layout_of-screen own screen [] own ∙ ground arith, h);
    placed = refl;
  };
  muted = refl;
}

set_layout-IsValid :
    (saved : Bool) (host edge : Text) (d : Daemon)
    → IsValid d
    → IsValid (set_layout saved host edge d).0
unfolding set_layout
set_layout-IsValid saved host edge d v = elim (Option-cases (parse_edge edge)) [
  | inl e ↦ rw (e, set_layout) v
  | inr (x, e) ↦ rw (e, set_layout) (place_host-IsValid host x d v)
]

set_modifier_swap-IsValid :
    (saved : Bool) (host swap : Text) (d : Daemon)
    → IsValid d
    → IsValid (set_modifier_swap saved host swap d).0
unfolding set_modifier_swap
set_modifier_swap-IsValid saved host swap d v = elim (Option-cases (Remap.parse swap)) [
  | inl e ↦ rw (e, set_modifier_swap) v
  | inr (x, e) ↦ rw (e, set_modifier_swap) (relabel_host-IsValid host x d v)
]

disconnect_all-IsValid : (d : Daemon) → IsValid d → IsValid (disconnect_all d)
unfolding disconnect_all send_all
disconnect_all-IsValid d v = record { core = v.core; muted = v.muted }

-- A step is made without a panic, and keeps the invariant.
pub step-IsValid :
    (h : Happening) (d : Daemon)
    → IsSized h
    → IsValid d
    → (d' : Daemon) × (step h d ≡ ok d') × IsValid d'
unfolding step
step-IsValid (captured os e) d i v = route_captured-IsValid os e d v
step-IsValid (signalled session p c) d i v =
    ((on_signal session p c d).0, refl, on_signal-IsValid session p c d v)
step-IsValid (ended p) d i v = (cleanup_peer p d, refl, cleanup_peer-IsValid p d v)
step-IsValid (began role session f host screen) d i v =
    ((admit role session f host screen d).0, refl, admit-IsValid role session f host screen d i v)
step-IsValid (placed saved host edge) d i v =
    ((set_layout saved host edge d).0, refl, set_layout-IsValid saved host edge d v)
step-IsValid (relabelled saved host swap) d i v =
    ((set_modifier_swap saved host swap d).0, refl, set_modifier_swap-IsValid saved host swap d v)
step-IsValid stopped d i v = (disconnect_all d, refl, disconnect_all-IsValid d v)

run-IsValid :
    (hs : List Happening) (d : Daemon)
    → All IsSized hs
    → IsValid d
    → (d' : Daemon) × (run hs d ≡ ok d') × IsValid d'
unfolding run
run-IsValid [] d i v = (d, refl, v)
run-IsValid (h ∷ hs) d i v =
    let (d', q, w) = step-IsValid h d i.0 v in
    let (d'', r, x) = run-IsValid hs d' i.1 w in (d'', rw q r, x)

-- Whatever happens to a daemon whose own screen has a size, in whatever order, as long as every
-- peer's screen has a size: nothing panics, and in the end the two session tables agree, links and
-- sessions match, the layout is the one that the links describe, the cursor is on a pixel of a known
-- screen, input goes to the machine of that screen, and local input is withheld exactly while it
-- goes to a peer.
pub run-start-IsValid :
    (own : MachineId) (screen : Screen) (placements : Map Text Edge) (swaps : Map Text ModifierSwap)
    (has_sink : Bool) (hs : List Happening)
    → HasSize screen
    → All IsSized hs
    → (d : Daemon) × (run hs (start own screen placements swaps has_sink) ≡ ok d) × IsValid d
run-start-IsValid own screen placements swaps has_sink hs h i =
    run-IsValid hs (start own screen placements swaps has_sink) i
      (start-IsValid own screen placements swaps has_sink h)
