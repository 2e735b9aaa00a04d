-- ===== src/Runtime/Daemon/Peer/Silent.antt =====
-- When a peer is given up for dead.
use omnipresent.Prelude.{
  ◌∙◌, ◌≡◌, ◌+◌, ◌++◌, ℕ, Bool, true, false, List, [], ◌∷◌, leb, not, refl, ap,
}
use omnipresent.Prelude.Outcome.{Outcome, ok, err, panic, ◌>>=◌}
use omnipresent.Protocol.Ids.{MachineId, SessionId}
use omnipresent.Clipboard.{Port, ClipboardManager}
use omnipresent.Runtime.Daemon.{Daemon}
use omnipresent.Runtime.Daemon.Handover.{cleanup_peer}
use omnipresent.Runtime.Daemon.History.{step}
use omnipresent.Runtime.Daemon.Sending.{Takes}
use omnipresent.Runtime.Daemon.Peer.{
  unless_left, Arm, Peer, commanded, abandoned, incoming, signalling, payload, ticked, looked,
  meanwhile, input_came, other_came, undecodable, channel_closed, channel_failed, control_came,
  no_control, finished, broken, clipboard_came, no_clipboard, closed, arm, run_peer, with_daemon,
  entered, heartbeat_timeout,
}

-- What counts as a sign of life: a datagram, whatever it holds, a control message, or a payload of
-- the clipboard, but no other message on a bulk stream.
abbrev pub is_life : Arm → Bool
is_life (commanded batch) = false
is_life abandoned = false
is_life (incoming i) = true
is_life (signalling s) = true
is_life (payload (clipboard_came d)) = true
is_life (payload no_clipboard) = false
is_life (payload closed) = false
is_life ticked = false
is_life looked = false
is_life (meanwhile h) = false

-- When something has last come, given when something came before the arms.
abbrev pub last_life : ℕ → List (ℕ × Arm) → ℕ
last_life before [] = before
last_life before ((now, a) ∷ arms) =
    last_life (elim (is_life a) [ true ↦ now | false ↦ before ]) arms

module _ {C : Type 0} (port : Port C) (takes : Takes) (session : SessionId)
    (machine : MachineId) where
  abbrev deadline_after : Outcome ⊥ (Peer C × Bool) → ℕ → ℕ
  deadline_after (ok r) n = r.0.deadline
  deadline_after (err e) n = n
  deadline_after panic n = n

  after_step :
      (p : Peer C) (o : Outcome ⊥ Daemon) → deadline_after (with_daemon p o) p.deadline ≡ p.deadline
  after_step p (ok d) = refl
  after_step p (err e) = refl
  after_step p panic = refl

  -- An arm puts the deadline off exactly if it is a sign of life.
  arm-deadline :
      (now before : ℕ) (a : Arm) (p : Peer C)
      → p.deadline ≡ before + heartbeat_timeout
      → deadline_after (arm port takes session machine now a p) p.deadline
        ≡ (elim (is_life a) [ true ↦ now | false ↦ before ]) + heartbeat_timeout
  unfolding arm
  arm-deadline now before (commanded batch) p h = h
  arm-deadline now before abandoned p h = h
  arm-deadline now before (incoming (input_came claimed allowed e)) p h = refl
  arm-deadline now before (incoming other_came) p h = refl
  arm-deadline now before (incoming undecodable) p h = refl
  arm-deadline now before (incoming channel_closed) p h = refl
  arm-deadline now before (incoming channel_failed) p h = refl
  arm-deadline now before (signalling (control_came c)) p h = refl
  arm-deadline now before (signalling no_control) p h = refl
  arm-deadline now before (signalling finished) p h = refl
  arm-deadline now before (signalling broken) p h = refl
  arm-deadline now before (payload (clipboard_came d)) p h = refl
  arm-deadline now before (payload no_clipboard) p h = h
  arm-deadline now before (payload closed) p h = h
  arm-deadline now before ticked p h = h
  arm-deadline now before looked p h = h
  arm-deadline now before (meanwhile x) p h = after_step p (step x p.daemon) ∙ h

  abbrev Looks : ℕ → ℕ → List (ℕ × Arm) → Outcome ⊥ (Peer C × Bool) → Type 0
  Looks now before arms o =
      (t : Peer C) × (o ≡ ok (t, leb (last_life before arms + heartbeat_timeout) now))

  -- The loop after an arm, when it is known what the loop does from there.
  looked_on :
      (now before : ℕ) (arms : List (ℕ × Arm)) (o : Outcome ⊥ (Peer C × Bool)) (q p : Peer C)
      → deadline_after o p.deadline ≡ before + heartbeat_timeout
      → let left : Outcome ⊥ (Peer C × Bool) =
          o >>= unless_left port takes session machine (run_peer port takes session machine arms) in
        left ≡ ok (q, false)
        → ((p : Peer C)
            → p.deadline ≡ before + heartbeat_timeout
            → run_peer port takes session machine arms p ≡ ok (q, false)
            → Looks now before arms
                (run_peer port takes session machine (arms ++ (now, looked) ∷ []) p))
        → Looks now before arms (
            o
            >>= unless_left port takes session machine
                (run_peer port takes session machine (arms ++ (now, looked) ∷ [])))
  looked_on now before arms (ok (r, true)) q p d h f = f r d h
  looked_on now before arms (ok (r, false)) q p d h f = absurd (cc h)
  looked_on now before arms (err e) q p d h f = absurd (cc h)
  looked_on now before arms panic q p d h f = absurd (cc h)

  looked_at :
      (now before : ℕ) (p : Peer C) (late : Bool)
      → late ≡ leb (before + heartbeat_timeout) now
      → Looks now before []
          (unless_left port takes session machine (λ q. ok (q, false)) (p, not late))
  looked_at now before p true e =
      (record p { daemon = cleanup_peer machine p.daemon }, rw (← e) refl)
  looked_at now before p false e = (p, rw (← e) refl)

  Looks-run_peer :
      (now before : ℕ) (arms : List (ℕ × Arm)) (p q : Peer C)
      → p.deadline ≡ before + heartbeat_timeout
      → run_peer port takes session machine arms p ≡ ok (q, false)
      → Looks now before arms (run_peer port takes session machine (arms ++ (now, looked) ∷ []) p)
  unfolding run_peer arm
  Looks-run_peer now before [] p q d h =
      looked_at now before p (leb p.deadline now) (ap (λ n. leb n now) d)
  Looks-run_peer now before ((n, a) ∷ arms) p q d h =
      let b : ℕ = elim (is_life a) [ true ↦ n | false ↦ before ] in
      looked_on now b arms (arm port takes session machine n a p) q p (arm-deadline n before a p d)
        h (λ p'. λ d'. λ h'. Looks-run_peer now b arms p' q d' h')

  -- However the task has run since its loop was entered, as long as the loop was not left: a look at
  -- the timer ends the session exactly if for the whole timeout no datagram, no control message and
  -- no payload of the clipboard has come from the peer, counted from the last that came or else from
  -- the entry into the loop. A message of another kind on a bulk stream does not count.
  pub run_peer-looked :
      (began now : ℕ) (m : ClipboardManager C) (d : Daemon) (arms : List (ℕ × Arm)) (q : Peer C)
      → run_peer port takes session machine arms (entered began m d) ≡ ok (q, false)
      → (t : Peer C) × (run_peer port takes session machine
            (arms ++ (now, looked) ∷ [])
            (entered began m d)
          ≡ ok (t, leb (last_life began arms + heartbeat_timeout) now))
  run_peer-looked began now m d arms q h =
      Looks-run_peer now began arms (entered began m d) q refl h
