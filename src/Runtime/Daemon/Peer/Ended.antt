-- ===== src/Runtime/Daemon/Peer/Ended.antt =====
-- What holds during a session and after it.
use omnipresent.Prelude.{
  ◌==◌, list_eq, nat_eq, ◌≡◌, ◌≢◌, ℕ, Bool, true, false, none, List, [], ◌∷◌, refl, Bool-cases, inl,
  inr, ap,
}
use omnipresent.Prelude.Lists.{All}
use omnipresent.Prelude.Maps.{get}
use omnipresent.Prelude.Outcome.{Outcome, ok}
use omnipresent.Protocol.Ids.{MachineId, SessionId}
use omnipresent.Protocol.Input.{InputEvent}
use omnipresent.Clipboard.{Port}
use omnipresent.Runtime.Daemon.{Daemon, remote, inject}
use omnipresent.Runtime.Daemon.Handover.{cleanup_peer}
use omnipresent.Runtime.Daemon.Invariant.{IsValid}
use omnipresent.Runtime.Daemon.Preserved.Peers.{on_signal-IsValid}
use omnipresent.Runtime.Daemon.Preserved.Changes.{cleanup_peer-IsValid}
use omnipresent.Runtime.Daemon.Control.{cleanup_peer-gone}
use omnipresent.Runtime.Daemon.History.{IsSized, step-IsValid}
use omnipresent.Runtime.Daemon.Sending.{Takes, on_input}
use omnipresent.Runtime.Daemon.Peer.{
  Arm, Peer, Incoming, Signalling, Payload, commanded, abandoned, incoming, signalling, payload,
  ticked, looked, meanwhile, input_came, other_came, undecodable, channel_closed, channel_failed,
  control_came, no_control, finished, broken, clipboard_came, no_clipboard, closed, arm, run_peer,
  on_incoming, on_signalling, on_payload, put_off, with_daemon,
}

-- What another task does in between is a step with screens that have a size.
abbrev pub IsFit : ℕ × Arm → Type 0
IsFit (now, meanwhile h) = IsSized h
IsFit (now, commanded batch) = Unit
IsFit (now, abandoned) = Unit
IsFit (now, incoming i) = Unit
IsFit (now, signalling s) = Unit
IsFit (now, payload d) = Unit
IsFit (now, ticked) = Unit
IsFit (now, looked) = Unit

inject-IsValid : (e : InputEvent) (d : Daemon) → IsValid d → IsValid (inject e d)
unfolding inject
inject-IsValid e d v = elim (Bool-cases d.has_sink) [
  | inl y ↦ rw (y, inject) (record { core = v.core; muted = v.muted })
  | inr n ↦ rw (n, inject) (record { core = v.core; muted = v.muted })
]

on_input-IsValid :
    (session claimed : SessionId) (allowed : Bool) (e : InputEvent) (d : Daemon)
    → IsValid d
    → IsValid (on_input session claimed allowed e d)
unfolding on_input
on_input-IsValid session claimed true e d v = elim (Bool-cases (claimed == session)) [
  | inl y ↦ rw (y, on_input) (inject-IsValid e d v)
  | inr n ↦ rw (n, on_input) v
]
on_input-IsValid session claimed false e d v = elim (Bool-cases (claimed == session)) [
  | inl y ↦ rw (y, on_input) v
  | inr n ↦ rw (n, on_input) v
]

module _ {C : Type 0} (port : Port C) (takes : Takes) (session : SessionId)
    (machine : MachineId) where
  on_incoming-IsValid :
      (i : Incoming) (p : Peer C)
      → IsValid p.daemon
      → IsValid (on_incoming port takes session machine i p).0.daemon
  on_incoming-IsValid (input_came claimed allowed e) p v =
      on_input-IsValid session claimed allowed e p.daemon v
  on_incoming-IsValid other_came p v = v
  on_incoming-IsValid undecodable p v = v
  on_incoming-IsValid channel_closed p v = v
  on_incoming-IsValid channel_failed p v = v

  on_signalling-IsValid :
      (s : Signalling) (p : Peer C)
      → IsValid p.daemon
      → IsValid (on_signalling port takes session machine s p).0.daemon
  on_signalling-IsValid (control_came c) p v = on_signal-IsValid session machine c p.daemon v
  on_signalling-IsValid no_control p v = v
  on_signalling-IsValid finished p v = v
  on_signalling-IsValid broken p v = v

  on_payload-IsValid :
      (now : ℕ) (d : Payload) (p : Peer C)
      → IsValid p.daemon
      → IsValid (on_payload port takes session machine now d p).0.daemon
  on_payload-IsValid now (clipboard_came d) p v = v
  on_payload-IsValid now no_clipboard p v = v
  on_payload-IsValid now closed p v = v

  arm-IsValid :
      (now : ℕ) (a : Arm) (p : Peer C)
      → IsFit (now, a)
      → IsValid p.daemon
      → (r : Peer C × Bool) × (arm port takes session machine now a p ≡ ok r) × IsValid r.0.daemon
  unfolding arm
  arm-IsValid now (commanded batch) p i v = (_, refl, v)
  arm-IsValid now abandoned p i v = (_, refl, v)
  arm-IsValid now (incoming x) p i v = (_, refl, on_incoming-IsValid x (put_off now p) v)
  arm-IsValid now (signalling s) p i v = (_, refl, on_signalling-IsValid s (put_off now p) v)
  arm-IsValid now (payload d) p i v = (_, refl, on_payload-IsValid now d p v)
  arm-IsValid now ticked p i v = (_, refl, v)
  arm-IsValid now looked p i v = (_, refl, v)
  arm-IsValid now (meanwhile h) p i v =
      let (d, e, w) = step-IsValid h p.daemon i v in
      ((record p { daemon = d }, true), ap (with_daemon p) e, w)

  -- The peer is gone: it has no link and no session, and input does not go to it.
  abbrev pub IsGone : MachineId → Daemon → Type 0
  IsGone q d =
      (get q d.links ≡ none) × (get q d.sessions.by_peer ≡ none) × (d.sessions.active ≢ remote q)

  -- The outcome of the loop: a state that keeps the invariant, without the peer if the loop was left.
  abbrev pub Ends : Outcome ⊥ (Peer C × Bool) → Type 0
  Ends o =
      (q : Peer C) × (left : Bool) × (o ≡ ok (q, left))
      × IsValid q.daemon
      × (left ≡ true → IsGone machine q.daemon)

  decided-Ends :
      (arms : List (ℕ × Arm)) (q : Peer C) (goes_on : Bool)
      → IsValid q.daemon
      → Ends (run_peer port takes session machine arms q)
      → Ends (elim goes_on [
        | true ↦ run_peer port takes session machine arms q
        | false ↦ ok (record q { daemon = cleanup_peer machine q.daemon }, true)
      ])
  decided-Ends arms q true w r = r
  decided-Ends arms q false w r = (
    record q { daemon = cleanup_peer machine q.daemon },
    true,
    refl,
    cleanup_peer-IsValid machine q.daemon w,
    λ h. cleanup_peer-gone machine q.daemon w,
  )

  -- Whatever arms are taken, and whatever other tasks do in between as long as every peer with which
  -- they begin a session has a screen with a size, from a state that keeps the invariant: nothing
  -- panics, the invariant is kept, and once the loop is left, for whatever reason, the peer has no
  -- link and no session, and input does not go to it.
  pub run_peer-Ends :
      (arms : List (ℕ × Arm)) (p : Peer C)
      → All IsFit arms
      → IsValid p.daemon
      → Ends (run_peer port takes session machine arms p)
  unfolding run_peer
  run_peer-Ends [] p i v = (p, false, refl, v, λ h. absurd (cc h))
  run_peer-Ends ((now, a) ∷ arms) p i v =
      let (r, e, w) = arm-IsValid now a p i.0 v in
      rw e (decided-Ends arms r.0 r.1 w (run_peer-Ends arms r.0 i.1 w))
