-- ===== src/Runtime/Daemon/Invariant.antt =====
-- What always holds of the daemon's state between two steps, and the helpers' part in keeping it.
use omnipresent.Prelude.Maps.{get, Map}
use omnipresent.Prelude.Int.{ℤ}
use omnipresent.Prelude.{
  refl, inl, inr, Option-cases, none, list_eq, nat_eq, ◌∙◌, some, arith, ◌≡◌, Option,
}
use mathlib.Core.Option
use omnipresent.Session.{SessionManager, ActiveTarget, local, remote, set_active}
use omnipresent.Session.Invariant
use omnipresent.Session.Invariant.{
  HasSession, set_active_tables, set_active-own, set_active-IsValid,
}
use omnipresent.Topology.Layout.{VirtualLayout, CursorState, screen_of}
use omnipresent.Topology.Layout.Moves.{IsInside, IsOn}
use omnipresent.Topology.Geometry.{Screen}
use omnipresent.Runtime.Daemon.{
  SessionId, MachineId, Daemon, PeerLink, is_remote, home, layout_of, clamp_to_screen, keep_cursor,
}
use omnipresent.Runtime.Daemon.Layouts.{layout_of-IsValid, HasSize, AllSized, layout_of-screen}

abbrev pub link_session : Option PeerLink → Option SessionId
link_session = Option.map (λ l. l.session)

-- The machine whose screen holds the cursor when input goes to the target.
abbrev pub machine_at : MachineId → ActiveTarget → MachineId
machine_at own local = own
machine_at own (remote p) = p

pub record IsConsistent (own : MachineId) (own_screen : Screen) (sessions : SessionManager)
    (layout : VirtualLayout) (cursor : CursorState) (links : Map MachineId PeerLink) : Type 0 where
  -- The sessions are well formed, and those of this machine.
  pub tables : Invariant.IsValid sessions
  pub same : sessions.own ≡ own
  -- A peer has a link exactly when it has a session, and they are the same session.
  pub linked : (p : MachineId) → link_session (get p links) ≡ get p sessions.by_peer
  pub own_sized : HasSize own_screen
  pub sized : AllSized links
  -- The layout is the one that the links describe.
  pub built : layout ≡ layout_of own own_screen links
  -- The cursor is on a pixel of a known screen, the screen of the machine that gets the input.
  pub inside : IsInside layout cursor
  pub placed : cursor.machine ≡ machine_at own sessions.active

abbrev pub IsCore : Daemon → Type 0
IsCore d = IsConsistent d.own d.own_screen d.sessions d.layout d.cursor d.links

-- And local input is withheld exactly while it goes to a peer.
pub record IsValid (d : Daemon) : Type 0 where
  pub core : IsCore d
  pub muted : d.suppress ≡ is_remote d.sessions.active

pub clamp_to_screen-IsOn : (s : Screen) (x y : ℤ) → HasSize s → IsOn s (clamp_to_screen s x y)
unfolding clamp_to_screen
clamp_to_screen-IsOn s x y h = omega arith

pub layout-own : (d : Daemon) → IsCore d → screen_of d.layout d.own ≡ some d.own_screen
layout-own d v = rw v.built (layout_of-screen d.own d.own_screen d.links d.own ∙ ground arith)

pub home-IsInside : (d : Daemon) → IsCore d → IsInside d.layout (home d.own)
home-IsInside d v = (d.own_screen, layout-own d v, v.own_sized)

-- Every screen of the layout has a size.
pub sized_of :
    (d : Daemon)
    → IsCore d
    → (p : MachineId) (s : Screen) → screen_of d.layout p ≡ some s
    → HasSize s
sized_of d v p s e =
    (rw (← v.built) at (layout_of-IsValid d.own d.own_screen d.links v.own_sized v.sized)).sized p s
      e

-- Input goes to another target, with the cursor moved to its screen.
pub redirect :
    (d : Daemon) (t : ActiveTarget) (c : CursorState)
    → IsCore d
    → HasSession d.sessions.by_peer t
    → IsInside d.layout c
    → c.machine ≡ machine_at d.own t
    → IsConsistent d.own d.own_screen (set_active t d.sessions) d.layout c d.links
redirect d t c v h i p =
    let (s, b, a) = set_active_tables t d.sessions in
    record {
      tables = set_active-IsValid t d.sessions h v.tables.agree;
      same = set_active-own t d.sessions ∙ v.same;
      linked = rw b v.linked;
      own_sized = v.own_sized;
      sized = v.sized;
      built = v.built;
      inside = i;
      placed = rw a p;
    }

-- The same, with the cursor left where it is.
pub retarget :
    (d : Daemon) (t : ActiveTarget)
    → IsCore d
    → HasSession d.sessions.by_peer t
    → d.cursor.machine ≡ machine_at d.own t
    → IsConsistent d.own d.own_screen (set_active t d.sessions) d.layout d.cursor d.links
retarget d t v h p = redirect d t d.cursor v h v.inside p

-- A new layout, from links and sessions that agree: a cursor that stays is on its screen and where
-- the input goes, and one that is brought home finds the input there.
pub rebuilt :
    (own : MachineId) (own_screen : Screen) (m : SessionManager) (c : CursorState)
    (links : Map MachineId PeerLink)
    → Invariant.IsValid m
    → m.own ≡ own
    → ((p : MachineId) → link_session (get p links) ≡ get p m.by_peer)
    → HasSize own_screen
    → AllSized links
    → ((s : Screen)
        → screen_of (layout_of own own_screen links) c.machine ≡ some s
        → IsOn s c.position × (c.machine ≡ machine_at own m.active))
    → (screen_of (layout_of own own_screen links) c.machine ≡ none → own ≡ machine_at own m.active)
    → IsConsistent own own_screen m
        (layout_of own own_screen links)
        (keep_cursor own (screen_of (layout_of own own_screen links) c.machine) c)
        links
rebuilt own scr m c links t o l h a stays leaves =
    elim (Option-cases (screen_of (layout_of own scr links) c.machine)) [
      | inr (s, e) ↦ rw e (record {
        tables = t;
        same = o;
        linked = l;
        own_sized = h;
        sized = a;
        built = refl;
        inside = (s, e, (stays s e).0);
        placed = (stays s e).1;
      })
      | inl e ↦ rw e (record {
        tables = t;
        same = o;
        linked = l;
        own_sized = h;
        sized = a;
        built = refl;
        inside = (scr, layout_of-screen own scr links own ∙ ground arith, h);
        placed = leaves e;
      })
    ]
