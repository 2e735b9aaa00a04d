-- ===== src/Input/Windows/Source/Travel.antt =====
-- What the motions add up to, from the moment that input comes back or is routed away.
use omnipresent.Prelude.{◌≡◌, true, false, List, [], ◌∷◌, arith, refl, ap, ◌∙◌}
use omnipresent.Prelude.Lists.{All}
use omnipresent.Prelude.Int.{◌-ℤ◌, ◌+ℤ◌, pos, ℤ, +ℤ_parts, -ℤ_parts, eq_of_parts}
use omnipresent.Protocol.Input.{MouseDelta}
use omnipresent.Input.Windows.{screen_center}
use omnipresent.Input.Windows.Source.{Capture, set_suppressed}
use omnipresent.Input.Windows.Source.Hooks.{convert_mouse, Headers}
use omnipresent.Input.Windows.Source.Motions.{
  total, moves-total, moves, along, IsNear, Position, last_of, ready, no_motion,
}

-- From p to q and on to r.
by_way_of : (p q r : ℤ) → (q -ℤ p) +ℤ (r -ℤ q) ≡ r -ℤ p
by_way_of p q r =
    eq_of_parts ((q -ℤ p) +ℤ (r -ℤ q)) (r -ℤ p)
      (omega (arith, +ℤ_parts (q -ℤ p) (r -ℤ q), -ℤ_parts q p, -ℤ_parts r q, -ℤ_parts r p))

nowhere : (p : ℤ) → pos 0 ≡ p -ℤ p
nowhere p = eq_of_parts (pos 0) (p -ℤ p) (omega (arith, -ℤ_parts p p))

total_here :
    (h : Headers) (p : Position) (ps : List Position)
    → (total (λ d. d.dx) h false p ps ≡ (last_of p ps).0 -ℤ p.0)
      × (total (λ d. d.dy) h false p ps ≡ (last_of p ps).1 -ℤ p.1)
total_here h p [] = (nowhere p.0, nowhere p.1)
total_here h p (q ∷ qs) =
    let (x, y) = total_here h q qs in
    (
      ap (λ t. (q.0 -ℤ p.0) +ℤ t) x ∙ by_way_of p.0 q.0 (last_of q qs).0,
      ap (λ t. (q.1 -ℤ p.1) +ℤ t) y ∙ by_way_of p.1 q.1 (last_of q qs).1,
    )

-- Once input is no longer routed away, the motions that are reported add up to the way that the
-- cursor went from the first position at which it was then seen to the last one. The event channel is
-- open, and every position is less than 2^30 from the origin.
pub moves-set_suppressed-false :
    (h : Headers) (p : Position) (ps : List Position) (s : Capture)
    → s.sender ≡ true
    → IsNear (screen_center h.metrics)
    → IsNear p
    → All IsNear ps
    → let t = moves h (p ∷ ps) (set_suppressed h.metrics false s) in
      (along (λ d. d.dx) t.queue ≡ along (λ d. d.dx) s.queue +ℤ ((last_of p ps).0 -ℤ p.0))
      × (along (λ d. d.dy) t.queue ≡ along (λ d. d.dy) s.queue +ℤ ((last_of p ps).1 -ℤ p.1))
unfolding set_suppressed convert_mouse
moves-set_suppressed-false h p ps s o c i j =
    let (x, y) = total_here h p ps in
    let e : moves h (p ∷ ps) (set_suppressed h.metrics false s) ≡ moves h ps (ready false p s) =
      ap (λ b. moves h ps (record (ready false p s) { sender = b })) o in
    (
      rw e (
          moves-total (λ d. d.dx) h false p ps s refl c i j
          ∙ ap (λ t. along (λ d. d.dx) s.queue +ℤ t) x),
      rw e (
          moves-total (λ d. d.dy) h false p ps s refl c i j
          ∙ ap (λ t. along (λ d. d.dy) s.queue +ℤ t) y),
    )

-- While input is routed away, each position at which the cursor is seen is reported by its distance
-- from the centre of the screen, where the cursor is put back to, so that the motions add up to these
-- distances. The event channel is open, and every position is less than 2^30 from the origin.
pub moves-set_suppressed-true :
    (f : MouseDelta → ℤ) (h : Headers) (ps : List Position) (s : Capture)
    → s.sender ≡ true
    → f no_motion ≡ pos 0
    → IsNear (screen_center h.metrics)
    → All IsNear ps
    → along f (moves h ps (set_suppressed h.metrics true s)).queue
      ≡ along f s.queue +ℤ total f h true (screen_center h.metrics) ps
unfolding set_suppressed
moves-set_suppressed-true f h ps s o z c j =
    let t = record s { parked = screen_center h.metrics ∷ s.parked } in
    let e : set_suppressed h.metrics true s ≡ ready true (screen_center h.metrics) t =
      ap (λ b. record (ready true (screen_center h.metrics) t) { sender = b }) o in
    rw e (moves-total f h true (screen_center h.metrics) ps t z c c j)
