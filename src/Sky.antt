-- ===== src/Sky.antt =====
-- The sky: sidereal time, the Moon, the planets and the stars as directions from the Earth's centre
-- in the frame that turns with the Earth (frontend/js/sky.js and frontend/js/sun.js).
-- A date is its time in milliseconds. Sums, products, quotients and remainders are those of
-- JavaScript numbers, rounded; the functions of the object Math are a parameter.
pub mod Angle
pub mod Bodies
pub mod Catalog
pub mod Planets
pub mod Stars
use orbital_viewer.Net.Message.{Vec3}
use orbital_viewer.Base.{
  ℕ, zero, suc, ◌+◌, ◌-◌, ◌*◌, ◌/◌, ◌%◌, ◌^◌, ◌≤◌, ◌<◌, min, max, ◌≡◌, refl, sym, ap, ◌∙◌, subst,
  fun_ext, ◌≡⟨◌⟩◌, ◌∎, ◌≢◌, ◌↔◌, ◌⊎◌, inl, inr, Bool, true, false, not, ◌&&◌, ◌||◌, Option, none,
  some, List, [], ◌∷◌, ◌++◌, map, append_assoc, append-nil, arith, ltb, leb, ◌==◌, if◌then◌else◌,
  ltb→lt, lt→ltb, leb→le, ==_iff, tests, Bool-cases, Option-cases, and-true, length, take,
  get_elem?, every, keep, length-append, length-take, length-map, All, All-append, Text, codes,
  ◌===◌, ===_iff, ===_self, lookup, has,
}
use orbital_viewer.Num.{Num, nan, whole, lt, to_double}
use orbital_viewer.Num.Arith.{add, sub, mul, div, fmod, negate}

-- The functions of Math that the program uses, and the double Math.PI.
pub record MathFns : Type 0 where
  pub pi : Num
  pub sin : Num → Num
  pub cos : Num → Num
  pub tan : Num → Num
  pub acos : Num → Num
  pub asin : Num → Num
  pub atan2 : Num → Num → Num
  pub hypot : List Num → Num
  pub sqrt : Num → Num
  pub log10 : Num → Num

-- A literal with f digits behind the point.
abbrev pub lit : (n f : ℕ) → Num
lit n f = to_double false n f

-- Math.PI / 180
unfoldable pub deg : MathFns → Num
unfolding div
deg fns = div fns.pi (whole 180)

unfoldable pub wrap_deg : Num → Num
unfolding fmod lt add
wrap_deg d = let r = fmod d 360 in if lt r (whole 0) then add r (whole 360) else r

unfoldable pub wrap_deg180 : Num → Num
unfolding wrap_deg lt sub
wrap_deg180 d = let r = wrap_deg d in if lt (whole 180) r then sub r (whole 360) else r

unfoldable pub sin_deg : MathFns → Num → Num
unfolding deg mul
sin_deg fns d = fns.sin (mul d (deg fns))

unfoldable pub cos_deg : MathFns → Num → Num
unfolding deg mul
cos_deg fns d = fns.cos (mul d (deg fns))

-- Days since the epoch J2000.0, from milliseconds.
unfoldable pub days_since_j2000 : Num → Num
unfolding div add sub
days_since_j2000 ms = sub (add (div ms (whole 86400000)) (lit 24405875 1)) (lit 24515450 1)

unfoldable pub gmst_rad : MathFns → Num → Num
unfolding days_since_j2000 mul add wrap_deg deg
gmst_rad fns ms =
    let n = days_since_j2000 ms in
    mul (wrap_deg (add (lit 28046061837 8) (mul (lit 36098564736629 11) n))) (deg fns)

unfoldable pub ra_dec_to_eci : MathFns → (ra dec : Num) → Vec3
unfolding mul
ra_dec_to_eci fns ra dec =
    let cd = fns.cos dec in
    record { x = mul cd (fns.cos ra); y = mul cd (fns.sin ra); z = fns.sin dec }

unfoldable pub eci_to_ecef : MathFns → Vec3 → (gmst : Num) → Vec3
unfolding mul add
eci_to_ecef fns v gmst =
    let cg = fns.cos gmst in
    let sg = fns.sin gmst in
    record {
      x = add (mul v.x cg) (mul v.y sg);
      y = add (mul (negate v.x) sg) (mul v.y cg);
      z = v.z;
    }
