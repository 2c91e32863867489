-- ===== src/Num/Arith.antt =====
-- Arithmetic of JavaScript numbers: each operation is exact and then rounded to the nearest double,
-- ties to even, as IEEE 754 has it.
pub mod Bounds
use orbital_viewer.Base.{
  ℕ, zero, suc, ◌+◌, ◌-◌, ◌*◌, ◌/◌, ◌%◌, ◌^◌, ◌≤◌, ◌<◌, min, max, ◌≡◌, refl, sym, ap, ◌∙◌, subst,
  fun_ext, ◌≡⟨◌⟩◌, ◌∎, ◌≢◌, ◌↔◌, ◌⊎◌, inl, inr, Bool, true, false, not, ◌&&◌, ◌||◌, Option, none,
  some, List, [], ◌∷◌, ◌++◌, map, append_assoc, append-nil, arith, ltb, leb, ◌==◌, if◌then◌else◌,
  ltb→lt, lt→ltb, leb→le, ==_iff, tests, Bool-cases, Option-cases, and-true, length, take,
  get_elem?, every, keep, length-append, length-take, length-map, All, All-append, Text, codes,
  ◌===◌, ===_iff, ===_self, lookup, has,
}
use orbital_viewer.Num.{Num, fin, inf, nan, round_even, exponent, assemble}

abbrev pub negate : Num → Num
negate (fin s n k) = fin (not s) n k
negate (inf s) = inf (not s)
negate nan = nan

-- ± n / d, rounded.
unfoldable pub round_ratio : (neg : Bool) (n d : ℕ) → Num
unfolding exponent assemble
round_ratio neg n d =
    let m = n * 2 ^ 1074 in let u = exponent 2046 m d 0 in assemble neg u (round_even m (d * 2 ^ u))

unfoldable pub same_sign : Bool → Bool → Bool
same_sign s t = if s then t else not t

-- ± a ± b over the denominator d; a sum that is zero by cancelling is +0.
unfoldable pub sum_signed : (s : Bool) (a : ℕ) (t : Bool) (b d : ℕ) → Num
unfolding same_sign round_ratio
sum_signed s a t b d =
    if same_sign s t
    then round_ratio s (a + b) d
    else if ltb b a
    then round_ratio s (a - b) d
    else if ltb a b
    then round_ratio t (b - a) d
    else fin false 0 0

-- `x + y`
unfoldable pub add : Num → Num → Num
unfolding sum_signed
add nan y = nan
add x nan = nan
add (inf s) (inf t) = if same_sign s t then inf s else nan
add (inf s) (fin t m l) = inf s
add (fin s n k) (inf t) = inf t
add (fin s n k) (fin t m l) = sum_signed s (n * 2 ^ l) t (m * 2 ^ k) (2 ^ (k + l))

-- `x - y`
unfoldable pub sub : Num → Num → Num
unfolding add
sub x y = add x (negate y)

-- `x * y`
unfoldable pub mul : Num → Num → Num
unfolding same_sign round_ratio
mul nan y = nan
mul x nan = nan
mul (inf s) (inf t) = inf (not (same_sign s t))
mul (inf s) (fin t m l) = if m == 0 then nan else inf (not (same_sign s t))
mul (fin s n k) (inf t) = if n == 0 then nan else inf (not (same_sign s t))
mul (fin s n k) (fin t m l) = round_ratio (not (same_sign s t)) (n * m) (2 ^ (k + l))

-- `x / y`
unfoldable pub div : Num → Num → Num
unfolding same_sign round_ratio
div nan y = nan
div x nan = nan
div (inf s) (inf t) = nan
div (inf s) (fin t m l) = inf (not (same_sign s t))
div (fin s n k) (inf t) = fin (not (same_sign s t)) 0 0
div (fin s n k) (fin t m l) =
    if m == 0
    then (if n == 0 then nan else inf (not (same_sign s t)))
    else round_ratio (not (same_sign s t)) (n * 2 ^ l) (m * 2 ^ k)

-- `x % y`, which is exact, for a whole positive y; it has the sign of x.
unfoldable pub fmod : Num → (y : ℕ) → Num
fmod (fin s n k) y = fin s (n % (y * 2 ^ k)) k
fmod _ y = nan
