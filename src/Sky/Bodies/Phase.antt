-- ===== src/Sky/Bodies/Phase.antt =====
-- The range of the Moon's lit fraction.
use orbital_viewer.Num.Order.{le-not_lt}
use orbital_viewer.Sky.{MathFns}
use orbital_viewer.Sky.Bodies.{
  moon_direction_ecef, sun_direction_ecef, lit_fraction, moon_illuminated_fraction,
}
use orbital_viewer.Base.{◌≡◌, refl, inl, inr, true, false, if◌then◌else◌, Bool-cases}
use orbital_viewer.Num.{Num, whole, le, lt, is_nan}

Inside : Num → Type 0
Inside x = (le (whole 0) x ≡ true) × (le x (whole 1) ≡ true)

zero-Inside : Inside (whole 0)
unfolding Inside le lt
zero-Inside = (refl, refl)

one-Inside : Inside (whole 1)
unfolding Inside le lt
one-Inside = (refl, refl)

clamp-Between :
    (f : Num)
    → is_nan f ≡ false
    → Inside (if lt f (whole 0) then whole 0 else if lt (whole 1) f then whole 1 else f)
unfolding Inside
clamp-Between f h = elim (Bool-cases (lt f (whole 0))) [
  | inl p ↦ rw p zero-Inside
  | inr p ↦ rw p (elim (Bool-cases (lt (whole 1) f)) [
    | inl q ↦ rw q one-Inside
    | inr q ↦ rw q (le-not_lt (whole 0) f refl h p, le-not_lt f (whole 1) h refl q)
  ])
]

-- At a date at which the fraction computed from the directions of the Sun and the Moon is a number,
-- the Moon's lit fraction is between 0 and 1.
pub moon_illuminated_fraction_lem :
    (fns : MathFns) (ms : Num)
    → is_nan (lit_fraction (sun_direction_ecef fns ms) (moon_direction_ecef fns ms)) ≡ false
    → (le (whole 0) (moon_illuminated_fraction fns ms) ≡ true)
      × (le (moon_illuminated_fraction fns ms) (whole 1) ≡ true)
unfolding moon_illuminated_fraction Inside
moon_illuminated_fraction_lem fns ms h =
    clamp-Between (lit_fraction (sun_direction_ecef fns ms) (moon_direction_ecef fns ms)) h
