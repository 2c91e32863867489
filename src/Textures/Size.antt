-- ===== src/Textures/Size.antt =====
-- frontend/js/textures.js: largestPotLE, positiveInt and potSizeFor.
use mathlib.Core.Bool.{false≢true}
use native.Mathlib.Nat.{pow-suc}
use orbital_viewer.Renderer.Pick.{abs}
use orbital_viewer.Renderer.Scene.{Floats}
use orbital_viewer.Num.{nan, inf, to_double, whole, lt, fin, Num}
use orbital_viewer.Base.{
  ℕ, zero, suc, ◌+◌, ◌*◌, ◌/◌, ◌^◌, ◌≤◌, ◌<◌, min, max, ◌≡◌, refl, sym, subst, ◌⊎◌, inl, inr, Bool,
  true, false, arith, leb, if◌then◌else◌, Bool-cases,
}

-- The loop `while (p * 2 <= floor) p *= 2`, with fuel.
unfoldable pub double_up : (fuel p floor : ℕ) → ℕ
double_up zero p floor = p
double_up (suc fuel) p floor =
    let rest = double_up fuel (p * 2) floor in if leb (p * 2) floor then rest else p

unfoldable pub largest_pot_le : ℕ → ℕ
unfolding double_up
largest_pot_le n = double_up n 1 n

-- `Math.floor(x)` if that is a number and at least 1, and `fallback` otherwise.
unfoldable pub positive_int : Num → ℕ → ℕ
positive_int (fin false n k) fallback =
    let floor = n / 2 ^ k in if leb 1 floor then floor else fallback
positive_int _ fallback = fallback

pub record Size : Type 0 where
  pub width : ℕ
  pub height : ℕ

-- `Math.abs(w / h - 2) < EQUIRECT_TOL`
unfoldable pub is_equirect : Floats → Num → Num → Bool
is_equirect fl w h = lt (abs (fl.sub (fl.div w h) (whole 2))) (to_double false 1 6)

unfoldable pub pot_size_for : Floats → (w h max_size : Num) → Size
unfolding largest_pot_le positive_int is_equirect
pot_size_for fl w h max_size =
    let cap = positive_int max_size 1 in
    let cw = min (positive_int w 1) cap in
    let pot_w = largest_pot_le cw in
    let ch = min (positive_int h 1) cap in
    if is_equirect fl w h
    then record { width = pot_w; height = max 1 (pot_w / 2) }
    else record { width = pot_w; height = largest_pot_le ch }

pub record IsBest (n p : ℕ) : Type 0 where
  pub exponent : ℕ
  pub power : p ≡ 2 ^ exponent
  pub fits : p ≤ n
  pub best : n < 2 * p

pow_pos : (e : ℕ) → 1 ≤ 2 ^ e
pow_pos zero = omega arith
pow_pos (suc e) = omega (arith, pow_pos e, pow-suc 2 e)

double_up_lem :
    (fuel e n : ℕ) → 2 ^ e ≤ n → n < 2 ^ e + fuel + 1 → IsBest n (double_up fuel (2 ^ e) n)
unfolding double_up
double_up_lem zero e n fits enough = record {
  exponent = e;
  power = refl;
  fits = fits;
  best = omega (arith, fits, enough, pow_pos e);
}
double_up_lem (suc fuel) e n fits enough = elim (Bool-cases (leb (2 ^ e * 2) n)) [
  | inl p ↦ rw p (
      subst (λ m. IsBest n (double_up fuel m n)) (pow-suc 2 e)
        (double_up_lem fuel (suc e) n (ground (arith, p, pow-suc 2 e))
          (omega (arith, enough, pow-suc 2 e, pow_pos e))))
  | inr p ↦ rw p (record { exponent = e; power = refl; fits = fits; best = ground (arith, p) })
]

largest_pot_le_lem : (n : ℕ) → 1 ≤ n → IsBest n (largest_pot_le n)
unfolding largest_pot_le
largest_pot_le_lem n one = double_up_lem n 0 n (omega (arith, one)) (omega arith)

positive_int_pos : (x : Num) (fallback : ℕ) → 1 ≤ fallback → 1 ≤ positive_int x fallback
unfolding positive_int
positive_int_pos (fin false n k) fallback h = ground (arith, h)
positive_int_pos (fin true n k) fallback h = h
positive_int_pos (inf s) fallback h = h
positive_int_pos nan fallback h = h

half_of : (n p : ℕ) → IsBest n p → (p ≡ 2 * max 1 (p / 2)) ⊎ ((p ≡ 1) × (max 1 (p / 2) ≡ 1))
half_of n p h = go h.exponent h.power
  where
    go : (e : ℕ) → p ≡ 2 ^ e → (p ≡ 2 * max 1 (p / 2)) ⊎ ((p ≡ 1) × (max 1 (p / 2) ≡ 1))
    go zero q = inr (q, rw q refl)
    go (suc e) q = inl (omega (arith, q, pow-suc 2 e, pow_pos e))

least_pos : (a b : Num) → 1 ≤ min (positive_int a 1) (positive_int b 1)
least_pos a b =
    omega (arith, positive_int_pos a 1 (omega arith), positive_int_pos b 1 (omega arith))

-- Whatever numbers are given for the source and the bound: the width is the largest power of two
-- that is at most the source's width and the bound; the height is that power for the source's
-- height or, if the source is twice as wide as high, exactly half the width, and 1 at width 1.
pub pot_size_for_lem :
    (fl : Floats) (w h max_size : Num)
    → let size = pot_size_for fl w h max_size in
      let cap = positive_int max_size 1 in
      IsBest (min (positive_int w 1) cap) size.width
      × (is_equirect fl w h ≡ true
          → (size.width ≡ 2 * size.height) ⊎ ((size.width ≡ 1) × (size.height ≡ 1)))
      × (is_equirect fl w h ≡ false → IsBest (min (positive_int h 1) cap) size.height)
unfolding pot_size_for
pot_size_for_lem fl w h max_size =
    let width = largest_pot_le_lem _ (least_pos w max_size) in
    let height = largest_pot_le_lem _ (least_pos h max_size) in
    elim (Bool-cases (is_equirect fl w h)) [
      | inl p ↦ rw p (width, λ _. half_of _ _ width, λ e. absurd (false≢true (sym e)))
      | inr p ↦ rw p (width, λ e. absurd (false≢true e), λ _. height)
    ]
