-- ===== src/Input/Scroll.antt =====
-- crates/omni-input/src/scroll.rs: scaling a stream of numbers by a fraction, with the remainder
-- carried over.
use omnipresent.Prelude.Lists.{All}
use native.Mathlib.Nat.{div-mul-le_self, lt-div-mul-add}
use mathlib.Core.Path.{ap}
use omnipresent.Prelude.Words.{IsI32}
use Prim.Native.Nat.{zero}
use omnipresent.Prelude.Int.{
  eq_of_parts, +ℤ_parts, ℤ, pos, negsuc, pos_part, neg_part, ◌+ℤ◌, ◌-ℤ◌, mul_ℕ, quot, leb_ℤ,
  clamp_ℤ, neg_ℕ,
}
use omnipresent.Prelude.{
  [], ◌∷◌, ◌+◌, List, ◌/◌, ◌≤◌, ◌≡◌, ◌<◌, ◌-◌, suc, ℕ, if◌then◌else◌, ◌^◌, ◌*◌, arith, refl,
}
use omnipresent.Protocol.Input.{ScrollDelta, millilines_per_line}

pub record Scaled : Type 0 where
  pub pending : ℤ

abbrev pub nothing_pending : Scaled
nothing_pending = record { pending = pos 0 }

-- The product; exact in an `i64` for two `i32` values.
abbrev pub mul_ℤ : ℤ → ℤ → ℤ
mul_ℤ a (pos k) = mul_ℕ a k
mul_ℤ (pos a) (negsuc k) = neg_ℕ (a * suc k)
mul_ℤ (negsuc a) (negsuc k) = pos (suc a * suc k)

abbrev pub min_i32 : ℤ
min_i32 = negsuc (2 ^ 31 - 1)

abbrev pub max_i32 : ℤ
max_i32 = pos (2 ^ 31 - 1)

-- `i64::saturating_add`
abbrev pub saturating_add : ℤ → ℤ → ℤ
saturating_add a b = clamp_ℤ (negsuc (2 ^ 63 - 1)) (pos (2 ^ 63 - 1)) (a +ℤ b)

-- What `take` has to divide.
unfoldable pub amount : ℤ → ℤ → Scaled → ℤ
amount value numerator s =
    clamp_ℤ min_i32 max_i32 (saturating_add s.pending (mul_ℤ value numerator))

-- `Scaled::take`
unfoldable pub take : ℤ → ℤ → ℤ → Scaled → Scaled × ℤ
unfolding amount ◌-ℤ◌
take value numerator denominator s =
    let p = amount value numerator s in
    let whole = quot p (pos_part denominator) in
    if leb_ℤ denominator (pos 0)
    then (s, pos 0)
    else (record { pending = p -ℤ mul_ℕ whole (pos_part denominator) }, whole)

pub record ScrollAccumulator : Type 0 where
  pub x : Scaled
  pub y : Scaled

-- `ScrollAccumulator::take_scaled`
unfoldable pub take_scaled :
    ScrollDelta → ℤ → ℤ → ℤ → ScrollAccumulator → ScrollAccumulator × (ℤ × ℤ)
unfolding take
take_scaled delta numerator denominator_x denominator_y a =
    let (x, i) = take delta.dx numerator denominator_x a.x in
    let (y, j) = take delta.dy numerator denominator_y a.y in (record { x = x; y = y }, (i, j))

-- `ScrollAccumulator::take_lines`
unfoldable pub take_lines : ScrollDelta → ScrollAccumulator → ScrollAccumulator × (ℤ × ℤ)
unfolding take_scaled
take_lines delta a = take_scaled delta (pos 1) (pos millilines_per_line) (pos millilines_per_line) a

-- What is pending is less than one whole, in either direction.
abbrev pub IsPart : ℕ → Scaled → Type 0
IsPart d s = (pos_part s.pending < d) × (neg_part s.pending < d)

IsPart-pos :
    (a m d : ℕ)
    → m ≤ a
    → a < m + d
    → (pos m +ℤ (pos a -ℤ pos m) ≡ pos a) × IsPart d (record { pending = pos a -ℤ pos m })
unfolding ◌+ℤ◌ ◌-ℤ◌
IsPart-pos a m d h k = ground arith

IsPart-neg :
    (a m d : ℕ)
    → m ≤ suc a
    → suc a < m + d
    → (neg_ℕ m +ℤ (negsuc a -ℤ neg_ℕ m) ≡ negsuc a)
      × IsPart d (record { pending = negsuc a -ℤ neg_ℕ m })
unfolding ◌+ℤ◌ ◌-ℤ◌
IsPart-neg a m d h k = ground arith

neg_suc : (q : ℕ) → neg_ℕ (suc q) ≡ negsuc q
neg_suc q = ground arith

neg_mul : (q d : ℕ) → mul_ℕ (neg_ℕ q) d ≡ neg_ℕ (q * d)
neg_mul zero d = ground arith
neg_mul (suc q) d = rw (neg_suc q) refl

quot-IsPart :
    (p : ℤ) (d : ℕ)
    → 0 < d
    → (mul_ℕ (quot p d) d +ℤ (p -ℤ mul_ℕ (quot p d) d) ≡ p)
      × IsPart d (record { pending = p -ℤ mul_ℕ (quot p d) d })
quot-IsPart (pos a) d h = IsPart-pos a (a / d * d) d (div-mul-le_self a d) (lt-div-mul-add h)
quot-IsPart (negsuc a) d h =
    rw (neg_mul (suc a / d) d)
      (IsPart-neg a (suc a / d * d) d (div-mul-le_self (suc a) d) (lt-div-mul-add h))

-- Nothing is lost by one call: what it returns, in units of the denominator, and what it leaves
-- pending together are the old pending amount with the new one, and less than one unit is pending.
-- The sum is to fit an `i32`, and the denominator to be positive.
pub take_kept :
    (v n : ℤ) (d : ℕ) (s : Scaled)
    → 0 < d
    → IsI32 (s.pending +ℤ mul_ℤ v n)
    → let r = take v n (pos d) s in
      (mul_ℕ r.1 d +ℤ r.0.pending ≡ s.pending +ℤ mul_ℤ v n) × IsPart d r.0
unfolding take amount
take_kept v n d s h k =
    let t = s.pending +ℤ mul_ℤ v n in
    let e : clamp_ℤ min_i32 max_i32 (saturating_add s.pending (mul_ℤ v n)) ≡ t = ground arith in
    rw e (ground (arith, quot-IsPart t d h))

abbrev pub take_all : ℤ → ℤ → Scaled → List ℤ → Scaled × ℤ
take_all n d s [] = (s, pos 0)
take_all n d s (v ∷ vs) = let r = take v n d s in let q = take_all n d r.0 vs in (q.0, r.1 +ℤ q.1)

abbrev pub sum : ℤ → List ℤ → ℤ
sum n [] = pos 0
sum n (v ∷ vs) = mul_ℤ v n +ℤ sum n vs

mul_parts :
    (a : ℤ) (d : ℕ)
    → (pos_part (mul_ℕ a d) ≡ pos_part a * d) × (neg_part (mul_ℕ a d) ≡ neg_part a * d)
mul_parts (pos a) d = (refl, omega arith)
mul_parts (negsuc a) d = (ground arith, ground arith)

mul-add : (a b : ℤ) (d : ℕ) → mul_ℕ (a +ℤ b) d ≡ mul_ℕ a d +ℤ mul_ℕ b d
mul-add a b d =
    let h = ap (λ t. t * d) (+ℤ_parts a b) in
    eq_of_parts (mul_ℕ (a +ℤ b) d) (mul_ℕ a d +ℤ mul_ℕ b d) (
      omega (
        arith,
        h,
        +ℤ_parts (mul_ℕ a d) (mul_ℕ b d),
        mul_parts (a +ℤ b) d,
        mul_parts a d,
        mul_parts b d,
      ))

-- A value whose product leaves room for what is pending.
abbrev pub Fits : ℤ → ℕ → ℤ → Type 0
Fits n d v = (pos_part (mul_ℤ v n) + d ≤ 2 ^ 31) × (neg_part (mul_ℤ v n) + d ≤ 2 ^ 31)

Fits-sum : (n v : ℤ) (d : ℕ) (s : Scaled) → IsPart d s → Fits n d v → IsI32 (s.pending +ℤ mul_ℤ v n)
Fits-sum n v d s h k = ground (arith, +ℤ_parts s.pending (mul_ℤ v n))

zero_add : (d : ℕ) (p : ℤ) → mul_ℕ (pos 0) d +ℤ p ≡ p +ℤ pos 0
unfolding ◌+ℤ◌
zero_add d p = ground arith

regroup : (a b c r t s m : ℤ) → a +ℤ r ≡ s +ℤ m → b +ℤ c ≡ r +ℤ t → (a +ℤ b) +ℤ c ≡ s +ℤ (m +ℤ t)
regroup a b c r t s m h k = eq_of_parts ((a +ℤ b) +ℤ c) (s +ℤ (m +ℤ t)) (
    omega (
      arith,
      ap pos_part h,
      ap neg_part h,
      ap pos_part k,
      ap neg_part k,
      +ℤ_parts a r,
      +ℤ_parts s m,
      +ℤ_parts b c,
      +ℤ_parts r t,
      +ℤ_parts (a +ℤ b) c,
      +ℤ_parts a b,
      +ℤ_parts s (m +ℤ t),
      +ℤ_parts m t,
    ))

-- Nothing is lost over any number of calls: what they return in all, in units of the denominator,
-- and what is left pending are what was pending at first and all that was fed in; and less than one
-- unit is pending in the end. Each value is to leave room for what is pending in an `i32`.
pub take_all_kept :
    (n : ℤ) (d : ℕ) (vs : List ℤ) (s : Scaled)
    → 0 < d
    → IsPart d s
    → All (Fits n d) vs
    → let r = take_all n (pos d) s vs in
      (mul_ℕ r.1 d +ℤ r.0.pending ≡ s.pending +ℤ sum n vs) × IsPart d r.0
take_all_kept n d [] s h p f = (zero_add d s.pending, p)
take_all_kept n d (v ∷ vs) s h p f =
    let (e, w) = take_kept v n d s h (Fits-sum n v d s p f.0) in
    let r = take v n (pos d) s in
    let (g, u) = take_all_kept n d vs r.0 h w f.1 in
    let q = take_all n (pos d) r.0 vs in
    (
      rw (mul-add r.1 q.1 d) (
          regroup (mul_ℕ r.1 d) (mul_ℕ q.1 d) q.0.pending r.0.pending (sum n vs) s.pending
            (mul_ℤ v n) e g),
      u,
    )
