-- ===== src/Sky/Bodies.antt =====
-- The directions of the Sun and the Moon (frontend/js/sun.js and moonDirectionEcef,
-- moonIlluminatedFraction of frontend/js/sky.js).
pub mod Phase
use orbital_viewer.Net.Message.{Vec3}
use orbital_viewer.Sky.{gmst_rad, cos_deg, lit, wrap_deg, days_since_j2000, deg, MathFns, sin_deg}
use orbital_viewer.Base.{
  ℕ, zero, suc, ◌+◌, ◌-◌, ◌*◌, ◌/◌, ◌%◌, ◌^◌, ◌≤◌, ◌<◌, min, max, ◌≡◌, refl, sym, ap, ◌∙◌, subst,
  fun_ext, ◌≡⟨◌⟩◌, ◌∎, ◌≢◌, ◌↔◌, ◌⊎◌, inl, inr, Bool, true, false, not, ◌&&◌, ◌||◌, Option, none,
  some, List, [], ◌∷◌, ◌++◌, map, append_assoc, append-nil, arith, ltb, leb, ◌==◌, if◌then◌else◌,
  ltb→lt, lt→ltb, leb→le, ==_iff, tests, Bool-cases, Option-cases, and-true, length, take,
  get_elem?, every, keep, length-append, length-take, length-map, All, All-append, Text, codes,
  ◌===◌, ===_iff, ===_self, lookup, has,
}
use orbital_viewer.Num.{Num, whole, lt, eq, is_nan}
use orbital_viewer.Num.Arith.{add, sub, mul, div, negate}

-- `len || 1`
abbrev pub or_one : Num → Num
or_one len = if is_nan len || eq len (whole 0) then whole 1 else len

-- A vector divided by its length.
unfoldable pub normalised : MathFns → Vec3 → Vec3
unfolding eq div
normalised fns v =
    let len = or_one (fns.hypot (v.x ∷ v.y ∷ v.z ∷ [])) in
    record { x = div v.x len; y = div v.y len; z = div v.z len }

-- The obliquity of the ecliptic.
unfoldable pub obliquity : MathFns → (n : Num) → Num
unfolding sub mul deg
obliquity fns n = mul (sub (lit 23439 3) (mul (lit 4 7) n)) (deg fns)

unfoldable pub sun_direction_ecef : MathFns → (ms : Num) → Vec3
unfolding days_since_j2000 wrap_deg deg obliquity add sub mul normalised
sun_direction_ecef fns ms =
    let n = days_since_j2000 ms in
    let l = mul (wrap_deg (add (lit 280460 3) (mul (lit 9856474 7) n))) (deg fns) in
    let g = mul (wrap_deg (add (lit 357528 3) (mul (lit 9856003 7) n))) (deg fns) in
    let lambda = add l (
      mul (add (mul (lit 1915 3) (fns.sin g)) (mul (lit 20 3) (fns.sin (mul (whole 2) g))))
        (deg fns)) in
    let eps = obliquity fns n in
    let ra = fns.atan2 (mul (fns.cos eps) (fns.sin lambda)) (fns.cos lambda) in
    let dec = fns.asin (mul (fns.sin eps) (fns.sin lambda)) in
    let gmst = mul (wrap_deg (add (lit 28046061837 8) (mul (lit 36098564736629 11) n))) (deg fns) in
    let h = sub ra gmst in
    let cd = fns.cos dec in
    normalised fns (record { x = mul cd (fns.cos h); y = mul cd (fns.sin h); z = fns.sin dec })

-- One periodic term: amplitude times the sine of an angle in degrees.
unfoldable pub wave : MathFns → (amplitude angle : Num) → Num
unfolding mul sin_deg
wave fns amplitude angle = mul amplitude (sin_deg fns angle)

-- The Moon's ecliptic longitude.
unfoldable pub moon_lambda : MathFns → (t : Num) → Num
unfolding add sub mul wave
moon_lambda fns t =
    let a0 = add (lit 21832 2) (mul (lit 481267881 3) t) in
    let a1 = add a0 (wave fns (lit 629 2) (add (lit 1350 1) (mul (lit 47719887 2) t))) in
    let a2 = sub a1 (wave fns (lit 127 2) (sub (lit 2593 1) (mul (lit 41333536 2) t))) in
    let a3 = add a2 (wave fns (lit 66 2) (add (lit 2357 1) (mul (lit 89053422 2) t))) in
    let a4 = add a3 (wave fns (lit 21 2) (add (lit 2699 1) (mul (lit 95439774 2) t))) in
    let a5 = sub a4 (wave fns (lit 19 2) (add (lit 3575 1) (mul (lit 3599905 2) t))) in
    sub a5 (wave fns (lit 11 2) (add (lit 1865 1) (mul (lit 96640403 2) t)))

-- The Moon's ecliptic latitude.
unfoldable pub moon_beta : MathFns → (t : Num) → Num
unfolding add sub mul wave
moon_beta fns t =
    let a0 = wave fns (lit 513 2) (add (lit 933 1) (mul (lit 48320202 2) t)) in
    let a1 = add a0 (wave fns (lit 28 2) (add (lit 2282 1) (mul (lit 96040089 2) t))) in
    let a2 = sub a1 (wave fns (lit 28 2) (add (lit 3183 1) (mul (lit 600315 2) t))) in
    sub a2 (wave fns (lit 17 2) (sub (lit 2176 1) (mul (lit 40733220 2) t)))

unfoldable pub moon_direction_ecef : MathFns → (ms : Num) → Vec3
unfolding days_since_j2000 div moon_lambda moon_beta obliquity sin_deg cos_deg add mul sub gmst_rad
    normalised
moon_direction_ecef fns ms =
    let n = days_since_j2000 ms in
    let t = div n (whole 36525) in
    let lambda = moon_lambda fns t in
    let beta = moon_beta fns t in
    let eps = obliquity fns n in
    let sin_b = sin_deg fns beta in
    let cos_b = cos_deg fns beta in
    let sin_l = sin_deg fns lambda in
    let cos_l = cos_deg fns lambda in
    let sin_dec = add (mul sin_b (fns.cos eps)) (mul (mul cos_b (fns.sin eps)) sin_l) in
    let dec = fns.asin sin_dec in
    let ra =
      fns.atan2 (sub (mul (mul cos_b sin_l) (fns.cos eps)) (mul sin_b (fns.sin eps)))
        (mul cos_b cos_l) in
    let h = sub ra (gmst_rad fns ms) in
    let cd = fns.cos dec in
    normalised fns (record { x = mul cd (fns.cos h); y = mul cd (fns.sin h); z = sin_dec })

-- The lit fraction of the Moon's disc before it is clamped.
unfoldable pub lit_fraction : (s m : Vec3) → Num
unfolding add sub mul div
lit_fraction s m =
    let cos_psi = add (add (mul s.x m.x) (mul s.y m.y)) (mul s.z m.z) in
    div (sub (whole 1) cos_psi) (whole 2)

unfoldable pub moon_illuminated_fraction : MathFns → (ms : Num) → Num
unfolding sun_direction_ecef moon_direction_ecef lit_fraction lt
moon_illuminated_fraction fns ms =
    let f = lit_fraction (sun_direction_ecef fns ms) (moon_direction_ecef fns ms) in
    if lt f (whole 0) then whole 0 else if lt (whole 1) f then whole 1 else f
