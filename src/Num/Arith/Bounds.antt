-- ===== src/Num/Arith/Bounds.antt =====
-- How far rounding goes: not past a whole number, and never to NaN.
use orbital_viewer.Num.Arith.{negate, round_ratio, sum_signed, same_sign, add, sub, mul, div}
use native.Mathlib.Nat.{
  pow-suc, pow-succ', one-le-mul, mul-le-mul_right, div-add-mod', div-le_of_le-mul, le_antisymm,
}
use mathlib.Core.Bool.{false≢true}
use orbital_viewer.Num.{
  Num, eq, is_finite, fin, inf, nan, is_nan, whole, lt, le, assemble, round_even, exponent,
}
use orbital_viewer.Base.{
  ℕ, zero, suc, ◌+◌, ◌-◌, ◌*◌, ◌/◌, ◌%◌, ◌^◌, ◌≤◌, ◌<◌, ◌≡◌, refl, sym, subst, inl, inr, Bool, true,
  false, not, arith, ltb, leb, ◌==◌, if◌then◌else◌, Bool-cases,
}

pub div-lt : (n d m : ℕ) → n < m * d → n / d < m
div-lt n d m h = grind (arith, div-add-mod' n d)

round_even-le : (n d m : ℕ) → 1 ≤ d → n ≤ m * d → round_even n d ≤ m
round_even-le n d m one h = elim (Bool-cases (ltb (n / d) m)) [
  | inl p ↦ ground (arith, p)
  | inr p ↦
      let top : n / d ≡ m =
        le_antisymm (div-le_of_le-mul d (omega (arith, h))) (ground (arith, p)) in
      let none_left : n % d ≡ 0 = grind (arith, div-add-mod' n d, h, top) in
      ground (arith, top, none_left, one)
]

exponent-le :
    (j fuel n d u : ℕ) → 1 ≤ d → n < 2 ^ 53 * (d * 2 ^ j) → j ≤ fuel → exponent fuel n d u ≤ u + j
unfolding exponent
exponent-le zero zero n d u one small enough = omega arith
exponent-le zero (suc fuel) n d u one small enough =
    ground (arith, div-lt n d (2 ^ 53) (omega (arith, small)))
exponent-le (suc j) (suc fuel) n d u one small enough =
    let rest =
      exponent-le j fuel n (2 * d) (u + 1) (omega (arith, one)) (doubled j n d small)
        (omega (arith, enough)) in
    ground (arith, rest)
  where
    doubled : (j n d : ℕ) → n < 2 ^ 53 * (d * 2 ^ suc j) → n < 2 ^ 53 * (2 * d * 2 ^ j)
    doubled j n d h = grind (arith, h, pow-suc 2 j)
exponent-le (suc j) zero n d u one small enough = omega arith

pub pow_pos : (e : ℕ) → 1 ≤ 2 ^ e
pow_pos zero = omega arith
pow_pos (suc e) = omega (arith, pow_pos e, pow-suc 2 e)

pow_add : (a b : ℕ) → 2 ^ (a + b) ≡ 2 ^ a * 2 ^ b
pow_add zero b = grind (arith)
pow_add (suc a) b = grind (arith, pow_add a b, pow-succ' 2 a, pow-succ' 2 (a + b))

scaled-le : (n d top low unit : ℕ) → n ≤ top * d → n * (low * unit) ≤ top * low * (d * unit)
scaled-le n d top low unit h = grind (arith, mul-le-mul_right (low * unit) h)

-- Rounding in units of 2 ^ u does not pass a whole number of larger units 2 ^ (low + u).
rounded-le :
    (n d top low u : ℕ)
    → 1 ≤ d
    → n ≤ top * d
    → round_even (n * 2 ^ (low + u)) (d * 2 ^ u) * 2 ^ u ≤ top * 2 ^ (low + u)
rounded-le n d top low u one h =
    let bound : n * 2 ^ (low + u) ≤ top * 2 ^ low * (d * 2 ^ u) =
      subst (λ p. n * p ≤ top * 2 ^ low * (d * 2 ^ u)) (sym (pow_add low u))
        (scaled-le n d top (2 ^ low) (2 ^ u) h) in
    let inside =
      round_even-le (n * 2 ^ (low + u)) (d * 2 ^ u) (top * 2 ^ low) (one-le-mul one (pow_pos u))
        bound in
    subst (λ p. round_even (n * 2 ^ (low + u)) (d * 2 ^ u) * 2 ^ u ≤ top * p) (sym (pow_add low u))
      (grind (arith, mul-le-mul_right (2 ^ u) inside))

-- lo ≤ x ≤ hi
unfoldable pub IsInRange : (lo hi x : Num) → Type 0
IsInRange lo hi x = (le lo x ≡ true) × (le x hi ≡ true)

-- 0 ≤ x ≤ top
unfoldable pub Between : Num → (top : ℕ) → Type 0
Between x top = (le (whole 0) x ≡ true) × (le x (whole top) ≡ true)

pub fin-Between : (n k top : ℕ) → n ≤ top * 2 ^ k → Between (fin false n k) top
unfolding Between le lt
fin-Between n k top h = (ground arith, ground (arith, h))

beyond : (cap a : ℕ) → a < cap → leb cap a ≡ false
beyond cap a h = ground (arith, h)

below_cap : (a top : ℕ) → top < 2 ^ 52 → a ≤ top * 2 ^ 1074 → a < 2 ^ 2098
below_cap a top small h = omega (arith, small, h)

assemble-Between :
    (u q top : ℕ) → top < 2 ^ 52 → q * 2 ^ u ≤ top * 2 ^ 1074 → Between (assemble false u q) top
unfolding assemble
assemble-Between u q top small h =
    let inside : leb (2 ^ 2098) (q * 2 ^ u) ≡ false =
      beyond (2 ^ 2098) (q * 2 ^ u) (below_cap (q * 2 ^ u) top small h) in
    subst (λ b. Between (if b then inf false else fin false (q * 2 ^ u) 1074) top) (sym inside)
      (fin-Between (q * 2 ^ u) 1074 top h)

bounded : (n d top p : ℕ) → 1 ≤ p → 1 ≤ d → n ≤ top * d → top < 2 ^ 52 → n * p < 2 ^ 53 * (d * p)
bounded n d top p pos one h small =
    let moderate : top * d ≤ 2 ^ 52 * d = mul-le-mul_right d (omega (arith, small)) in
    grind (arith, mul-le-mul_right p h, mul-le-mul_right p moderate, one-le-mul one pos)

-- The exponent is at most that of the unit, so rounding there does not pass a whole number.
scaled_rounded-le :
    (e fuel n d top : ℕ)
    → 1 ≤ d
    → n ≤ top * d
    → top < 2 ^ 52
    → e ≤ fuel
    → let u = exponent fuel (n * 2 ^ e) d 0 in
      round_even (n * 2 ^ e) (d * 2 ^ u) * 2 ^ u ≤ top * 2 ^ e
scaled_rounded-le e fuel n d top one h small enough =
    let u = exponent fuel (n * 2 ^ e) d 0 in
    let fits : n * 2 ^ e < 2 ^ 53 * (d * 2 ^ e) = bounded n d top (2 ^ e) (pow_pos e) one h small in
    let low : u ≤ e = omega (arith, exponent-le e fuel (n * 2 ^ e) d 0 one fits enough) in
    subst (λ k. round_even (n * 2 ^ k) (d * 2 ^ u) * 2 ^ u ≤ top * 2 ^ k) (omega (arith, low))
      (rounded-le n d top (e - u) u one h)

-- The quotient of natural numbers, rounded, is between 0 and each whole number of moderate size that
-- the quotient does not exceed.
pub round_ratio-Between :
    (n d top : ℕ) → 1 ≤ d → n ≤ top * d → top < 2 ^ 52 → Between (round_ratio false n d) top
unfolding round_ratio
round_ratio-Between n d top one h small =
    assemble-Between (exponent 2046 (n * 2 ^ 1074) d 0)
      (round_even (n * 2 ^ 1074) (d * 2 ^ exponent 2046 (n * 2 ^ 1074) d 0)) top small
      (scaled_rounded-le 1074 2046 n d top one h small (omega arith))

if-negate :
    (b : Bool) (n k : ℕ)
    → (if b then inf true else fin true n k) ≡ negate (if b then inf false else fin false n k)
if-negate true n k = refl
if-negate false n k = refl

assemble-negate : (u q : ℕ) → assemble true u q ≡ negate (assemble false u q)
unfolding assemble
assemble-negate u q = if-negate (leb (2 ^ 2098) (q * 2 ^ u)) (q * 2 ^ u) 1074

-- The two signs of a rounded quotient differ in the sign only.
pub round_ratio-negate : (n d : ℕ) → round_ratio true n d ≡ negate (round_ratio false n d)
unfolding round_ratio
round_ratio-negate n d =
    assemble-negate (exponent 2046 (n * 2 ^ 1074) d 0)
      (round_even (n * 2 ^ 1074) (d * 2 ^ exponent 2046 (n * 2 ^ 1074) d 0))

assemble-is_nan : (s : Bool) (u q : ℕ) → is_nan (assemble s u q) ≡ false
unfolding assemble
assemble-is_nan s u q = elim (Bool-cases (leb (2 ^ 2098) (q * 2 ^ u))) [
  | inl p ↦ rw p refl
  | inr p ↦ rw p refl
]

pub round_ratio-is_nan : (s : Bool) (n d : ℕ) → is_nan (round_ratio s n d) ≡ false
unfolding round_ratio
round_ratio-is_nan s n d =
    let u = exponent 2046 (n * 2 ^ 1074) d 0 in
    assemble-is_nan s u (round_even (n * 2 ^ 1074) (d * 2 ^ u))

if-is_nan :
    (b : Bool) (x y : Num)
    → is_nan x ≡ false
    → is_nan y ≡ false
    → is_nan (if b then x else y) ≡ false
if-is_nan true x y p q = p
if-is_nan false x y p q = q

pub sum_signed-is_nan :
    (s : Bool) (a : ℕ) (t : Bool) (b d : ℕ) → is_nan (sum_signed s a t b d) ≡ false
unfolding sum_signed
sum_signed-is_nan s a t b d = if-is_nan (same_sign s t) _ _ (round_ratio-is_nan s (a + b) d) (
    if-is_nan (ltb b a) _ _ (round_ratio-is_nan s (a - b) d)
      (if-is_nan (ltb a b) _ _ (round_ratio-is_nan t (b - a) d) refl))

-- A finite number less a number is a number.
pub sub-is_nan : (x y : Num) → is_finite x ≡ true → is_nan y ≡ false → is_nan (sub x y) ≡ false
unfolding sub add
sub-is_nan (inf s) y e h = absurd (false≢true e)
sub-is_nan nan y e h = absurd (false≢true e)
sub-is_nan (fin s n k) nan e h = h
sub-is_nan (fin s n k) (inf t) e h = refl
sub-is_nan (fin s n k) (fin t m l) e h =
    sum_signed-is_nan s (n * 2 ^ l) (not t) (m * 2 ^ k) (2 ^ (k + l))

not_zero : (s : Bool) (n k : ℕ) → eq (fin s n k) (whole 0) ≡ false → (n == 0) ≡ false
unfolding eq
not_zero s n k h = ground (arith, h)

-- A finite number other than 0 times a number is a number.
pub mul-is_nan :
    (x y : Num)
    → is_finite x ≡ true
    → eq x (whole 0) ≡ false
    → is_nan y ≡ false
    → is_nan (mul x y) ≡ false
unfolding mul
mul-is_nan (inf s) y e other h = absurd (false≢true e)
mul-is_nan nan y e other h = absurd (false≢true e)
mul-is_nan (fin s n k) nan e other h = h
mul-is_nan (fin s n k) (inf t) e other h = rw (not_zero s n k other) refl
mul-is_nan (fin s n k) (fin t m l) e other h =
    round_ratio-is_nan (not (same_sign s t)) (n * m) (2 ^ (k + l))

else-is_nan :
    (b : Bool) (x y : Num) → b ≡ false → is_nan y ≡ false → is_nan (if b then x else y) ≡ false
else-is_nan true x y h number = absurd (false≢true (sym h))
else-is_nan false x y h number = number

-- A number divided by a finite number other than 0 is a number.
pub div-is_nan :
    (x y : Num)
    → is_nan x ≡ false
    → is_finite y ≡ true
    → eq y (whole 0) ≡ false
    → is_nan (div x y) ≡ false
unfolding div
div-is_nan nan y h e other = h
div-is_nan (inf s) (inf t) h e other = absurd (false≢true e)
div-is_nan (inf s) nan h e other = absurd (false≢true e)
div-is_nan (inf s) (fin t m l) h e other = refl
div-is_nan (fin s n k) (inf t) h e other = absurd (false≢true e)
div-is_nan (fin s n k) nan h e other = absurd (false≢true e)
div-is_nan (fin s n k) (fin t m l) h e other =
    else-is_nan (m == 0) _ _ (not_zero t m l other)
      (round_ratio-is_nan (not (same_sign s t)) (n * 2 ^ l) (m * 2 ^ k))
