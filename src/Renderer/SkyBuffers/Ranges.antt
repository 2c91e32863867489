-- ===== src/Renderer/SkyBuffers/Ranges.antt =====
-- frontend/js/renderer.js: sizes and brightness by magnitude.
use orbital_viewer.Renderer.SkyBuffers.{
  clamp_to, star_size_for_mag, star_brightness, planet_size_for_mag, planet_tint_scale,
}
use orbital_viewer.Num.{Num, whole, lt, le, is_nan, is_finite, eq, to_double}
use orbital_viewer.Num.Arith.{sub, mul}
use orbital_viewer.Num.Order.{le-not_lt, not_nan, le-is_nan}
use orbital_viewer.Num.Arith.Bounds.{IsInRange, mul-is_nan, sub-is_nan}
use orbital_viewer.Sky.{lit}
use orbital_viewer.Base.{◌≡◌, refl, inl, inr, true, false, Bool-cases}

clamp_to-IsInRange :
    (v lo hi : Num) → is_nan v ≡ false → le lo hi ≡ true → IsInRange lo hi (clamp_to v lo hi)
unfolding clamp_to IsInRange
clamp_to-IsInRange v lo hi number ordered =
    let (low, high) = le-is_nan lo hi ordered in
    elim (Bool-cases (lt v lo)) [
      | inl p ↦ rw p (not_nan lo low, ordered)
      | inr p ↦ elim (Bool-cases (lt hi v)) [
        | inl q ↦ rw (p, q) (ordered, not_nan hi high)
        | inr q ↦ rw (p, q) (le-not_lt lo v low number p, le-not_lt v hi number high q)
      ]
    ]

-- For every magnitude that is a number: a star is drawn 2.2 to 7 pixels wide and half to fully
-- bright, a planet 4.5 to 11 pixels wide and with half to all of its tint.
pub magnitude-IsInRange :
    (mag : Num)
    → is_nan mag ≡ false
    → IsInRange (lit 22 1) (lit 70 1) (star_size_for_mag mag)
      × IsInRange (lit 5 1) (lit 10 1) (star_brightness mag)
      × IsInRange (lit 45 1) (whole 11) (planet_size_for_mag mag)
      × IsInRange (lit 5 1) (lit 10 1) (planet_tint_scale mag)
unfolding star_size_for_mag star_brightness planet_size_for_mag planet_tint_scale to_double le eq
magnitude-IsInRange mag number =
    let line : (a b lo hi : Num)
        → is_finite a ≡ true
        → is_finite b ≡ true
        → eq b (whole 0) ≡ false
        → le lo hi ≡ true
        → IsInRange lo hi (clamp_to (sub a (mul b mag)) lo hi) =
      λ a b lo hi p q r ordered.
        clamp_to-IsInRange (sub a (mul b mag)) lo hi
          (sub-is_nan a (mul b mag) p (mul-is_nan b mag q r number)) ordered in
    (
      line (lit 56 1) (lit 85 2) (lit 22 1) (lit 70 1) refl refl refl refl,
      line (lit 13 1) (lit 16 2) (lit 5 1) (lit 10 1) refl refl refl refl,
      line (lit 75 1) (lit 7 1) (lit 45 1) (whole 11) refl refl refl refl,
      line (lit 7 1) (lit 5 2) (lit 5 1) (lit 10 1) refl refl refl refl,
    )
