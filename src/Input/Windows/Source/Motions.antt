-- ===== src/Input/Windows/Source/Motions.antt =====
-- The motions that the mouse hook reports add up to the way that the cursor went.
use omnipresent.Prelude.{
  ◌∙◌, ap, sym, if◌then◌else◌, ◌≡◌, Bool, true, false, ◌&&◌, List, [], ◌∷◌, ◌++◌, ◌==◌, arith, refl,
  Bool-cases, inl, inr, ◌^◌, ◌<◌,
}
use omnipresent.Prelude.Lists.{All}
use omnipresent.Prelude.Words.{as_i32, as_i32_exact}
use omnipresent.Prelude.Int.{
  int_beq_iff, negsuc, int_eq, ◌-ℤ◌, ◌+ℤ◌, pos, ℤ, pos_part, neg_part, +ℤ_parts, -ℤ_parts,
  eq_of_parts,
}
use omnipresent.Protocol.Input.{InputEvent, motion, key, pointer, button, scroll, MouseDelta}
use omnipresent.Input.Windows.{screen_center}
use omnipresent.Input.Windows.Source.{Capture, emit}
use omnipresent.Input.Windows.Source.Hooks.{convert_mouse, Headers, MouseInfo, mouse_move}

-- How far the events move the pointer, along the axis that `f` takes.
abbrev pub along : (MouseDelta → ℤ) → List InputEvent → ℤ
along f [] = pos 0
along f (motion d ∷ es) = f d +ℤ along f es
along f (key c a m ∷ es) = along f es
along f (pointer x y ∷ es) = along f es
along f (button b a ∷ es) = along f es
along f (scroll d ∷ es) = along f es

abbrev pub Position : Type 0
Position = ℤ × ℤ

-- A coordinate of less than 2^30 in either direction, so that no difference of two wraps.
abbrev pub IsNear : Position → Type 0
IsNear p =
    (pos_part p.0 < 2 ^ 30)
    × (neg_part p.0 < 2 ^ 30)
    × (pos_part p.1 < 2 ^ 30)
    × (neg_part p.1 < 2 ^ 30)

abbrev pub at_position : Position → MouseInfo
at_position p = record { x = p.0; y = p.1; mouse_data = 0; injected = false }

-- The state after the cursor was seen at the positions, one after the other.
abbrev pub moves : Headers → List Position → Capture → Capture
moves h [] s = s
moves h (p ∷ ps) s = moves h ps (convert_mouse h mouse_move (at_position p) s)

abbrev pub last_of : Position → List Position → Position
last_of p [] = p
last_of p (q ∷ qs) = last_of q qs

add_assoc : (a b c : ℤ) → a +ℤ (b +ℤ c) ≡ (a +ℤ b) +ℤ c
add_assoc a b c =
    eq_of_parts (a +ℤ (b +ℤ c)) ((a +ℤ b) +ℤ c)
      (omega (arith, +ℤ_parts a (b +ℤ c), +ℤ_parts b c, +ℤ_parts (a +ℤ b) c, +ℤ_parts a b))

along-append :
    (f : MouseDelta → ℤ) (es : List InputEvent) (d : MouseDelta)
    → along f (es ++ (motion d ∷ [])) ≡ along f es +ℤ f d
unfolding ◌+ℤ◌
along-append f [] d = ground arith
along-append f (motion e ∷ es) d = rw (along-append f es d) (add_assoc (f e) (along f es) (f d))
along-append f (key c a m ∷ es) d = along-append f es d
along-append f (pointer x y ∷ es) d = along-append f es d
along-append f (button b a ∷ es) d = along-append f es d
along-append f (scroll e ∷ es) d = along-append f es d

difference-exact :
    (a b : ℤ)
    → pos_part a < 2 ^ 30
    → neg_part a < 2 ^ 30
    → pos_part b < 2 ^ 30
    → neg_part b < 2 ^ 30
    → as_i32 (a -ℤ b) ≡ a -ℤ b
difference-exact a b h k l m = as_i32_exact (a -ℤ b) (ground (arith, -ℤ_parts a b))

-- A state that reports motion from the anchor `a`, while input is routed away or not.
abbrev pub ready : Bool → Position → Capture → Capture
ready away a s = record s {
  have_last = true;
  sender = true;
  suppressed = away;
  last_x = a.0;
  last_y = a.1;
}

-- Where the next motion is reported from.
abbrev pub anchor : Headers → Bool → Position → Position
anchor h away p = if away then screen_center h.metrics else p

-- The queue after a motion that is sent unless it is none.
abbrev queued : MouseDelta → List InputEvent → List InputEvent
queued d q = if d.dx == pos 0 && d.dy == pos 0 then q else q ++ (motion d ∷ [])

IsNear-anchor :
    (h : Headers) (away : Bool) (p : Position)
    → IsNear (screen_center h.metrics)
    → IsNear p
    → IsNear (anchor h away p)
IsNear-anchor h true p c j = c
IsNear-anchor h false p c j = j

add_zero : (a b : ℤ) → b ≡ pos 0 → a +ℤ b ≡ a
unfolding ◌+ℤ◌
add_zero (pos a) b h = rw h (ground arith)
add_zero (negsuc a) b h = rw h (ground arith)

abbrev pub no_motion : MouseDelta
no_motion = record { dx = pos 0; dy = pos 0 }

no_motion_lem : (d : MouseDelta) → (d.dx == pos 0 && d.dy == pos 0) ≡ true → d ≡ no_motion
no_motion_lem d h =
    let x : d.dx ≡ pos 0 = ground (arith, int_beq_iff d.dx (pos 0)) in
    let y : d.dy ≡ pos 0 = ground (arith, int_beq_iff d.dy (pos 0)) in cc (x, y)

along-queued :
    (f : MouseDelta → ℤ) (d : MouseDelta) (q : List InputEvent)
    → f no_motion ≡ pos 0
    → along f (queued d q) ≡ along f q +ℤ f d
along-queued f d q z = elim (Bool-cases (d.dx == pos 0 && d.dy == pos 0)) [
  | inl y ↦ rw y (sym (add_zero (along f q) (f d) (ap f (no_motion_lem d y) ∙ z)))
  | inr n ↦ rw n (along-append f q d)
]

-- The way from one position to another.
abbrev pub way : Position → Position → MouseDelta
way a p = record { dx = p.0 -ℤ a.0; dy = p.1 -ℤ a.1 }

convert_mouse-move :
    (h : Headers) (away : Bool) (a p : Position) (s : Capture)
    → IsNear a
    → IsNear p
    → convert_mouse h mouse_move (at_position p) (ready away a s)
      ≡ ready away (anchor h away p) (record s {
        queue = queued (way a p) s.queue;
        parked = if away then screen_center h.metrics ∷ s.parked else s.parked;
      })
unfolding convert_mouse emit
convert_mouse-move h true a p s i j =
    let ex = difference-exact p.0 a.0 j.0 j.1 i.0 i.1 in
    let ey = difference-exact p.1 a.1 j.2 j.3 i.2 i.3 in
    elim (Bool-cases ((way a p).dx == pos 0 && (way a p).dy == pos 0)) [
      | inl y ↦ rw (ex, ey, y) refl
      | inr n ↦ rw (ex, ey, n) refl
    ]
convert_mouse-move h false a p s i j =
    let ex = difference-exact p.0 a.0 j.0 j.1 i.0 i.1 in
    let ey = difference-exact p.1 a.1 j.2 j.3 i.2 i.3 in
    elim (Bool-cases ((way a p).dx == pos 0 && (way a p).dy == pos 0)) [
      | inl y ↦ rw (ex, ey, y) refl
      | inr n ↦ rw (ex, ey, n) refl
    ]

-- The whole way from an anchor, past the positions.
abbrev pub total : (MouseDelta → ℤ) → Headers → Bool → Position → List Position → ℤ
total f h away a [] = pos 0
total f h away a (p ∷ ps) = f (way a p) +ℤ total f h away (anchor h away p) ps

pub moves-total :
    (f : MouseDelta → ℤ) (h : Headers) (away : Bool) (a : Position) (ps : List Position)
    (s : Capture)
    → f no_motion ≡ pos 0
    → IsNear (screen_center h.metrics)
    → IsNear a
    → All IsNear ps
    → along f (moves h ps (ready away a s)).queue ≡ along f s.queue +ℤ total f h away a ps
moves-total f h away a [] s z c i j = sym (add_zero (along f s.queue) (pos 0) refl)
moves-total f h away a (p ∷ ps) s z c i j =
    let t = record s {
      queue = queued (way a p) s.queue;
      parked = if away then screen_center h.metrics ∷ s.parked else s.parked;
    } in
    let n = IsNear-anchor h away p c j.0 in
    let e = moves-total f h away (anchor h away p) ps t z c n j.1 in
    ap (λ u. along f (moves h ps u).queue) (convert_mouse-move h away a p s i j.0)
    ∙ (e
        ∙ (ap (λ u. u +ℤ total f h away (anchor h away p) ps) (along-queued f (way a p) s.queue z)
            ∙ sym
                (add_assoc (along f s.queue) (f (way a p)) (total f h away (anchor h away p) ps))))
