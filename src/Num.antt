-- ===== src/Num.antt =====
-- JavaScript numbers (IEEE 754 binary64). Every finite double is a signed dyadic fraction, so a
-- value is written `fin neg n k`, for ± n / 2 ^ k; one value has several such forms, and `eq` and
-- `lt` compare values. Decimal literals are rounded to the nearest double, ties to even.
pub mod Order
pub mod Arith
pub mod Arrays
use orbital_viewer.Base.{
  ℕ, zero, suc, ◌+◌, ◌*◌, ◌/◌, ◌%◌, ◌^◌, Bool, true, false, not, ◌&&◌, ◌||◌, ltb, leb, ◌==◌,
  if◌then◌else◌,
}

pub data Num : Type 0 where
  fin : (neg : Bool) (n k : ℕ) → Num
  inf : (neg : Bool) → Num
  nan : Num

-- `Number.isFinite`
abbrev pub is_finite : Num → Bool
is_finite (fin _ _ _) = true
is_finite _ = false

-- `Number.isInteger`
unfoldable pub is_integer : Num → Bool
is_integer (fin neg n k) = n % 2 ^ k == 0
is_integer _ = false

-- `Number.isSafeInteger`
unfoldable pub is_safe_integer : Num → Bool
is_safe_integer (fin neg n k) = n % 2 ^ k == 0 && ltb n (2 ^ 53 * 2 ^ k)
is_safe_integer _ = false

-- Equality and order of ± a / c and ± b / d, over the common denominator.
abbrev pub eq_signed : Bool → ℕ → Bool → ℕ → Bool
eq_signed s a t b = a == b && (a == 0 || (if s then t else not t))

abbrev pub lt_signed : Bool → ℕ → Bool → ℕ → Bool
lt_signed false a false b = ltb a b
lt_signed true a true b = ltb b a
lt_signed true a false b = not (a == 0 && b == 0)
lt_signed false a true b = false

-- `x === y`; NaN is not equal to itself
unfoldable pub eq : Num → Num → Bool
eq (fin s n k) (fin t m l) = eq_signed s (n * 2 ^ l) t (m * 2 ^ k)
eq (inf s) (inf t) = if s then t else not t
eq _ _ = false

-- `x < y`
unfoldable pub lt : Num → Num → Bool
lt (fin s n k) (fin t m l) = lt_signed s (n * 2 ^ l) t (m * 2 ^ k)
lt (fin s n k) (inf t) = not t
lt (inf s) (fin t m l) = s
lt (inf s) (inf t) = s && not t
lt _ _ = false

abbrev pub is_nan : Num → Bool
is_nan nan = true
is_nan _ = false

-- `x <= y`
unfoldable pub le : Num → Num → Bool
unfolding lt
le x y = not (is_nan x) && not (is_nan y) && not (lt y x)

-- A whole number.
abbrev pub whole : ℕ → Num
whole n = fin false n 0

-- `round (n / d)` to whole numbers, ties to even
abbrev round_even : ℕ → ℕ → ℕ
round_even n d =
    let q = n / d in
    let r = n % d in if ltb (2 * r) d then q else if ltb d (2 * r) then q + 1 else q + q % 2

-- The least exponent `u`, counted from that of the smallest double, at which `n / (d * 2 ^ u)` has
-- at most 53 binary digits.
exponent : (fuel n d u : ℕ) → ℕ
exponent zero n d u = u
exponent (suc fuel) n d u =
    let rest = exponent fuel n (2 * d) (u + 1) in if ltb (n / d) (2 ^ 53) then u else rest

-- The rounded significand at exponent `u`, as a double; out of range it is infinite.
assemble : Bool → (u significand : ℕ) → Num
assemble neg u q = if leb (2 ^ 2098) (q * 2 ^ u) then inf neg else fin neg (q * 2 ^ u) 1074

-- `Number(token)` of a decimal: the double nearest to ± n / 10 ^ f. A whole number below 2 ^ 53 is a
-- double itself. Exponent 0 counts units of 2 ^ -1074, so 2 ^ 1024, the least magnitude that is out
-- of range, is 2 ^ 2098 units.
unfoldable pub to_double : (neg : Bool) (n f : ℕ) → Num
unfolding exponent assemble
to_double neg n f =
    let m = n * 2 ^ 1074 in
    let d = 10 ^ f in
    let u = exponent 2046 m d 0 in
    let rounded = assemble neg u (round_even m (d * 2 ^ u)) in
    if f == 0 && ltb n (2 ^ 53) then fin neg n 0 else rounded
