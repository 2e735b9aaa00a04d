-- ===== src/Input/Macos/Sink/Clicks.antt =====
-- Clicks that follow one another quickly are counted.
use omnipresent.Prelude.{
  ◌≡◌, ℕ, ◌+◌, ◌-◌, ◌≤◌, Bool, true, List, [], ◌∷◌, none, some, Option, refl, arith, ap, leb, ◌==◌,
}
use omnipresent.Prelude.Int.{ℤ, int_eq, int_beq_iff}
use omnipresent.Protocol.Input.{press, release}
use omnipresent.Input.Macos.{next_click_count}
use omnipresent.Input.Macos.Sink.{streak, MacosSink, LastClick, click_state}

module _ {P : Type 0} (near : P → P → Bool) where
  -- The counts of the presses of one button, each of them released, at these times and positions.
  abbrev pub counts : ℤ → List (ℕ × P) → MacosSink P → List (ℕ × ℕ)
  counts b [] s = []
  counts b ((now, p) ∷ ps) s =
      let down = click_state near b press now p s in
      let up = click_state near b release now p down.0 in (down.1, up.1) ∷ counts b ps up.0

  -- Each press comes within half a second of the one before, and near to it.
  abbrev pub AreQuick : ℕ × P → List (ℕ × P) → Type 0
  AreQuick p [] = Unit
  AreQuick p (q ∷ qs) = (q.0 ≤ p.0 + 500) × (near q.1 p.1 ≡ true) × AreQuick q qs

  abbrev pub count_up : ℕ → List (ℕ × P) → List (ℕ × ℕ)
  count_up n [] = []
  count_up n (p ∷ ps) = (n, n) ∷ count_up (n + 1) ps

  same_int : (b : ℤ) → (b == b) ≡ true
  same_int b = ground (arith, int_beq_iff b b)

  streak-some :
      (b : ℤ) (p : ℕ × P) (n now : ℕ) (r : P) (o : Option (LastClick P))
      → o ≡ some (record { button = b; at_time = p.0; position = p.1; count = n })
      → now ≤ p.0 + 500
      → near r p.1 ≡ true
      → streak near o b now r ≡ n + 1
  unfolding next_click_count
  streak-some b p n now r o h t c =
      let k = same_int b in
      let l : leb (now - p.0) 500 ≡ true = ground arith in rw (h, k, l, c) refl

  counts-after :
      (b : ℤ) (p : ℕ × P) (n : ℕ) (ps : List (ℕ × P)) (s : MacosSink P)
      → s.last_click ≡ some (record { button = b; at_time = p.0; position = p.1; count = n })
      → AreQuick p ps
      → counts b ps s ≡ count_up (n + 1) ps
  unfolding click_state
  counts-after b p n [] s h q = refl
  counts-after b p n ((now, r) ∷ ps) s h (t, c, q) =
      let last : LastClick P = record { button = b; at_time = now; position = r; count = n + 1 } in
      let e = counts-after b (now, r) (n + 1) ps (record s { last_click = some last }) refl q in
      let u = streak-some b p n now r s.last_click h t c in
      let k = same_int b in rw (u, k) (ap (λ l. (n + 1, n + 1) ∷ l) e)

  -- However many times a button is pressed and released quickly in one place, the clicks are counted
  -- from 1 on, and each release carries the count of its press. No click came before.
  pub counts-count_up :
      (b : ℤ) (p : ℕ × P) (ps : List (ℕ × P)) (s : MacosSink P)
      → s.last_click ≡ none
      → AreQuick p ps
      → counts b (p ∷ ps) s ≡ count_up 1 (p ∷ ps)
  unfolding click_state
  counts-count_up b p ps s h q =
      let last : LastClick P = record { button = b; at_time = p.0; position = p.1; count = 1 } in
      let e = counts-after b p 1 ps (record s { last_click = some last }) refl q in
      let u : streak near s.last_click b p.0 p.1 ≡ 1 = rw h refl in
      let k = same_int b in rw (u, k) (ap (λ l. (1, 1) ∷ l) e)
