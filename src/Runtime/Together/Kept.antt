-- ===== src/Runtime/Together/Kept.antt =====
-- What hearing the other machine leaves as it was, and where input goes after it.
use omnipresent.Prelude.{
  sym, ◌≡◌, ◌==◌, Bool, Bool-cases, List, [], ◌∷◌, ap, arith, false, inl, inr, nat_eq, refl, some,
  true, ◌∙◌, map,
}
use omnipresent.Prelude.Int.{ℤ}
use omnipresent.Prelude.Maps.{get, contains_key}
use omnipresent.Topology.Layout.{screen_of}
use omnipresent.Protocol.Ids.{MachineId, SessionId}
use omnipresent.Protocol.Input.{InputEvent}
use omnipresent.Protocol.Control
use omnipresent.Session.{ActiveTarget, local, remote, yield_control, follow_peer, target_eq}
use omnipresent.Runtime.Daemon.{
  Daemon, PeerCommand, PeerLink, input, warp, cursor_returned, clipboard, disconnect, inject,
  warp_cursor, sync_suppression, notify_change,
}
use omnipresent.Runtime.Daemon.Handover.{yield_control_to_peer, follow_peer_cursor}
use omnipresent.Runtime.Daemon.Preserved.Peers.{on_signal-IsValid}
use omnipresent.Runtime.Daemon.Control.{on_signal-cursor_warp, on_signal-cursor_returned}
use omnipresent.Runtime.Daemon.Invariant.{IsValid}
use omnipresent.Runtime.Daemon.Layouts.{layout_of-screen}
use omnipresent.Runtime.Daemon.Told.{IsKept}
use omnipresent.Runtime.Daemon.Sending.{on_input}
use omnipresent.Runtime.Daemon.Sending.Orders.{wire}
use omnipresent.Runtime.Together.{hear, hear_all}

-- The ids, the links and the channels are as they were.
abbrev pub IsDeaf : Daemon → Daemon → Type 0
IsDeaf d t = IsKept d t × (t.outbox ≡ d.outbox)

warp-IsDeaf : (x y : ℤ) (d : Daemon) → IsDeaf d (warp_cursor x y d)
unfolding warp_cursor
warp-IsDeaf x y d = ((ground arith, ground arith), ground arith)

yield-IsDeaf : (d : Daemon) → IsDeaf d (yield_control_to_peer d)
unfolding yield_control_to_peer yield_control sync_suppression notify_change
yield-IsDeaf d = elim (Bool-cases (d.sessions.active == local)) [
  | inl y ↦ rw y ((refl, refl), refl)
  | inr n ↦ rw n ((refl, refl), refl)
]

follow-IsDeaf :
    (p : MachineId) (x y : ℤ) (d : Daemon) (l : PeerLink)
    → IsValid d
    → get p d.links ≡ some l
    → (d.own == p) ≡ false
    → IsDeaf d (follow_peer_cursor p x y d)
unfolding follow_peer_cursor follow_peer sync_suppression notify_change
follow-IsDeaf p x y d l v g n =
    let e : screen_of d.layout p ≡ some l.screen =
      rw v.core.built (layout_of-screen d.own d.own_screen d.links p ∙ rw (n, g) refl) in
    let k : contains_key p d.sessions.by_peer ≡ true = ground (arith, v.core.linked p, g) in
    rw (e, follow_peer_cursor, k)
      (elim (Bool-cases (d.sessions.active == remote p)) [
        | inl q ↦ rw q ((refl, refl), refl)
        | inr q ↦ rw q ((refl, refl), refl)
      ])

-- Where input of a machine goes when it has heard `p` act on these commands.
abbrev pub heard : MachineId → ActiveTarget → List PeerCommand → ActiveTarget
heard p t [] = t
heard p t (input e ∷ cs) = heard p t cs
heard p t (warp x y ∷ cs) = heard p local cs
heard p t (cursor_returned x y ∷ cs) = heard p (remote p) cs
heard p t (clipboard payload ∷ cs) = heard p t cs
heard p t (disconnect ∷ cs) = heard p t cs

module _ (session : SessionId) (arrives : InputEvent → Bool) (p : MachineId) where
  -- A machine that keeps its invariant, with its link to `p`.
  abbrev pub IsListening : PeerLink → Daemon → Type 0
  IsListening l d = IsValid d × (get p d.links ≡ some l) × ((d.own == p) ≡ false)

  -- What one command does at the other end.
  abbrev Does : PeerCommand → Daemon → Type 0
  Does c d =
      let t = hear session arrives p (wire session c) d in
      IsValid t × IsDeaf d t × (t.sessions.active ≡ heard p d.sessions.active (c ∷ []))

  injected :
      (e : InputEvent) (d : Daemon)
      → IsValid d
      → IsValid (inject e d)
        × IsDeaf d (inject e d)
        × ((inject e d).sessions.active ≡ d.sessions.active)
  unfolding inject
  injected e d v = elim (Bool-cases d.has_sink) [
    | inl y ↦ rw y (record { core = v.core; muted = v.muted }, ((refl, refl), refl), refl)
    | inr n ↦ rw n (record { core = v.core; muted = v.muted }, ((refl, refl), refl), refl)
  ]

  on_input-kept :
      (arrived : Bool) (e : InputEvent) (d : Daemon)
      → IsValid d
      → let t = on_input session session arrived e d in
        IsValid t × IsDeaf d t × (t.sessions.active ≡ d.sessions.active)
  unfolding on_input
  on_input-kept arrived e d v =
      let s : (session == session) ≡ true = ground arith in
      elim (Bool-cases arrived) [
        | inl y ↦ rw (s, y) (injected e d v)
        | inr n ↦ rw (s, n) (v, ((refl, refl), refl), refl)
      ]

  hear-Does : (c : PeerCommand) (d : Daemon) (l : PeerLink) → IsListening l d → Does c d
  unfolding hear
  hear-Does (input e) d l (v, g, n) = on_input-kept (arrives e) e d v
  hear-Does (warp x y) d l (v, g, n) =
      let s : (session == session) ≡ true = ground arith in
      let w = on_signal-IsValid session p (Control.cursor_warp session x y) d v in
      let (a, m, o, e) = on_signal-cursor_warp session p x y d v in
      let (k, b) = yield-IsDeaf d in
      let (k', b') = warp-IsDeaf x y (yield_control_to_peer d) in
      (w, rw s ((k'.0 ∙ k.0, k'.1 ∙ k.1), b' ∙ b), a)
  hear-Does (cursor_returned x y) d l (v, g, n) =
      let s : (session == session) ≡ true = ground arith in
      let w = on_signal-IsValid session p (Control.cursor_returned session x y) d v in
      let (a, m, o, e) = on_signal-cursor_returned session p x y d l v g n in
      (w, rw s (follow-IsDeaf p x y d l v g n), a)
  hear-Does (clipboard payload) d l (v, g, n) = (v, ((refl, refl), refl), refl)
  hear-Does disconnect d l (v, g, n) = (v, ((refl, refl), refl), refl)

  heard_first :
      (t : ActiveTarget) (c : PeerCommand) (cs : List PeerCommand)
      → heard p t (c ∷ cs) ≡ heard p (heard p t (c ∷ [])) cs
  heard_first t (input e) cs = refl
  heard_first t (warp x y) cs = refl
  heard_first t (cursor_returned x y) cs = refl
  heard_first t (clipboard payload) cs = refl
  heard_first t disconnect cs = refl

  -- A machine that has heard the commands of `p` still listens, is otherwise as it was, and sends its
  -- input where they say.
  pub hear_all-heard :
      (cs : List PeerCommand) (d : Daemon) (l : PeerLink)
      → IsListening l d
      → let t = hear_all session arrives p (map (wire session) cs) d in
        IsListening l t × IsDeaf d t × (t.sessions.active ≡ heard p d.sessions.active cs)
  unfolding hear_all
  hear_all-heard [] d l h = (h, ((refl, refl), refl), refl)
  hear_all-heard (c ∷ cs) d l h =
      let (v, k, a) = hear-Does c d l h in
      let u = hear session arrives p (wire session c) d in
      let g : get p u.links ≡ some l = rw (k.0.1) h.1 in
      let n : (u.own == p) ≡ false = rw (k.0.0) h.2 in
      let (h', k', a') = hear_all-heard cs u l (v, g, n) in
      (
        h',
        ((k'.0.0 ∙ k.0.0, k'.0.1 ∙ k.0.1), k'.1 ∙ k.1),
        a' ∙ ap (λ t. heard p t cs) a ∙ sym (heard_first d.sessions.active c cs),
      )
