-- ===== src/Num/Order.antt =====
-- The order of numbers.
use mathlib.Core.Bool.{false≢true}
use orbital_viewer.Base.{ℕ, zero, suc, ◌*◌, ◌^◌, ◌≤◌, ◌<◌, ◌≡◌, refl, sym, true, false, arith}
use native.Mathlib.Nat.{mul-le-mul_right, le_of_mul-le-mul_right, pow-suc, one-le-mul}
use orbital_viewer.Num.{Num, fin, inf, nan, is_nan, lt, le}

pub not_nan : (x : Num) → is_nan x ≡ false → le x x ≡ true
unfolding le lt
not_nan (fin s n k) h = ground arith
not_nan (inf s) h = ground arith
not_nan nan h = absurd (false≢true (sym h))

pub le-not_lt : (x y : Num) → is_nan x ≡ false → is_nan y ≡ false → lt y x ≡ false → le x y ≡ true
unfolding le
le-not_lt x y p q h = rw (p, q, h) refl

pub lt_asym : (x y : Num) → lt x y ≡ true → lt y x ≡ false
unfolding lt
lt_asym (fin false n k) (fin false m l) h = ground arith
lt_asym (fin true n k) (fin false m l) h = ground arith
lt_asym (fin false n k) (fin true m l) h = ground arith
lt_asym (fin true n k) (fin true m l) h = ground arith
lt_asym (fin s n k) (inf t) h = ground arith
lt_asym (inf s) (fin t m l) h = ground arith
lt_asym (inf s) (inf t) h = ground arith
lt_asym nan y h = absurd (false≢true h)
lt_asym (fin s n k) nan h = absurd (false≢true h)
lt_asym (inf s) nan h = absurd (false≢true h)

pub le-is_nan : (x y : Num) → le x y ≡ true → (is_nan x ≡ false) × (is_nan y ≡ false)
unfolding le
le-is_nan x y h = ground arith

pow_positive : (e : ℕ) → 0 < 2 ^ e
pow_positive zero = omega arith
pow_positive (suc e) = omega (arith, pow_positive e, pow-suc 2 e)

-- Fractions with denominators 2 ^ k, 2 ^ l and 2 ^ j: what is not below is transitive.
chain : (n k m l p j : ℕ) → n * 2 ^ l ≤ m * 2 ^ k → m * 2 ^ j ≤ p * 2 ^ l → n * 2 ^ j ≤ p * 2 ^ k
chain n k m l p j h g =
    let scaled : n * 2 ^ j * 2 ^ l ≤ p * 2 ^ k * 2 ^ l =
      grind (arith, mul-le-mul_right (2 ^ j) h, mul-le-mul_right (2 ^ k) g) in
    le_of_mul-le-mul_right scaled (pow_positive l)

none_left : (n k : ℕ) → n * 2 ^ k ≤ 0 → n ≡ 0
none_left zero k h = refl
none_left (suc n) k h =
    absurd (omega (arith, h, one-le-mul {a = suc n} (omega arith) (pow_positive k)))

zero_not_less : (n k p j : ℕ) → n ≡ 0 → p ≡ 0 → lt (fin true p j) (fin false n k) ≡ false
unfolding lt
zero_not_less n k p j h g = ground (arith, h, g)

both_zero : (p a n b : ℕ) → lt (fin true p a) (fin false n b) ≡ false → (p ≡ 0) × (n ≡ 0)
unfolding lt
both_zero p a n b h = (none_left p b (ground (arith, h)), none_left n a (ground (arith, h)))

-- Not being less is transitive, but for a NaN between the two.
pub not_lt_trans :
    (x y z : Num) → is_nan y ≡ false → lt y x ≡ false → lt z y ≡ false → lt z x ≡ false
unfolding lt
not_lt_trans (fin false n k) (fin false m l) (fin false p j) number h g =
    let c = chain n k m l p j (ground (arith, h)) (ground (arith, g)) in ground (arith, c)
not_lt_trans (fin true n k) (fin true m l) (fin true p j) number h g =
    let c = chain p j m l n k (ground (arith, g)) (ground (arith, h)) in ground (arith, c)
not_lt_trans (fin true n k) (fin t m l) (fin false p j) number h g = refl
not_lt_trans (fin false n k) (fin true m l) (fin false p j) number h g =
    let (low, nil) = both_zero m l n k h in ground (arith, nil)
not_lt_trans (fin false n k) (fin true m l) (fin true p j) number h g =
    let (low, nil) = both_zero m l n k h in
    zero_not_less n k p j nil (none_left p l (ground (arith, low, g)))
not_lt_trans (fin false n k) (fin false m l) (fin true p j) number h g =
    let (nil, low) = both_zero p j m l g in
    zero_not_less n k p j (none_left n l (ground (arith, low, h))) nil
not_lt_trans (fin true n k) (fin false m l) (fin true p j) number h g =
    let (nil, low) = both_zero p j m l g in ground (arith, nil)
not_lt_trans (fin s n k) (fin t m l) (inf u) number h g = ground (arith, h, g)
not_lt_trans (fin s n k) (inf t) (fin u p j) number h g = ground (arith, h, g)
not_lt_trans (fin s n k) (inf t) (inf u) number h g = ground (arith, h, g)
not_lt_trans (inf s) (fin t m l) (fin u p j) number h g = ground (arith, h, g)
not_lt_trans (inf s) (fin t m l) (inf u) number h g = ground (arith, h, g)
not_lt_trans (inf s) (inf t) (fin u p j) number h g = ground (arith, h, g)
not_lt_trans (inf s) (inf t) (inf u) number h g = ground (arith, h, g)
not_lt_trans x nan z number h g = absurd (false≢true (sym number))
not_lt_trans nan (fin t m l) (fin u p j) number h g = refl
not_lt_trans nan (fin t m l) (inf u) number h g = refl
not_lt_trans nan (inf t) (fin u p j) number h g = refl
not_lt_trans nan (inf t) (inf u) number h g = refl
not_lt_trans x y nan number h g = refl
