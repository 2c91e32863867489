-- ===== src/Sky/Stars.antt =====
-- The stars turned with the Earth (STAR_ECI and starsEcefInto of frontend/js/sky.js).
-- The rounding of a number to the array's elements is a parameter.
pub mod Turned
use orbital_viewer.Net.Message.{Vec3}
use orbital_viewer.Num.Arrays.{read, set_at}
use orbital_viewer.Sky.Catalog.{decimal_value, Star}
use orbital_viewer.Sky.{ra_dec_to_eci, MathFns, gmst_rad, deg}
use orbital_viewer.Base.{
  ℕ, zero, suc, ◌+◌, ◌-◌, ◌*◌, ◌/◌, ◌%◌, ◌^◌, ◌≤◌, ◌<◌, min, max, ◌≡◌, refl, sym, ap, ◌∙◌, subst,
  fun_ext, ◌≡⟨◌⟩◌, ◌∎, ◌≢◌, ◌↔◌, ◌⊎◌, inl, inr, Bool, true, false, not, ◌&&◌, ◌||◌, Option, none,
  some, List, [], ◌∷◌, ◌++◌, map, append_assoc, append-nil, arith, ltb, leb, ◌==◌, if◌then◌else◌,
  ltb→lt, lt→ltb, leb→le, ==_iff, tests, Bool-cases, Option-cases, and-true, length, take,
  get_elem?, every, keep, length-append, length-take, length-map, All, All-append, Text, codes,
  ◌===◌, ===_iff, ===_self, lookup, has,
}
use orbital_viewer.Num.{Num, nan}
use orbital_viewer.Num.Arith.{add, mul, negate}

-- A vector as its three elements of an array.
unfoldable pub elements : (store : Num → Num) → Vec3 → List Num
elements store v = store v.x ∷ store v.y ∷ store v.z ∷ []

-- A star's direction in the precision of the array that keeps it.
unfoldable pub star_vector : MathFns → (fround : Num → Num) → Star → Vec3
unfolding deg mul ra_dec_to_eci
star_vector fns fround s =
    let v =
      ra_dec_to_eci fns (mul (decimal_value s.ra) (deg fns))
        (mul (decimal_value s.dec) (deg fns)) in
    record { x = fround v.x; y = fround v.y; z = fround v.z }

-- The directions of the catalogue's stars, one number after the other.
unfoldable pub star_eci : MathFns → (fround : Num → Num) → List Star → List Num
unfolding star_vector
star_eci fns fround [] = []
star_eci fns fround (s ∷ rest) =
    let v = star_vector fns fround s in v.x ∷ v.y ∷ v.z ∷ star_eci fns fround rest

-- One turn of the loop: star i.
unfoldable pub star_step :
    (store : Num → Num) (cg sg : Num) (eci : List Num) (i : ℕ) → List Num → List Num
unfolding set_at read add mul
star_step store cg sg eci i out =
    let b = i * 3 in
    let x = read eci b in
    let y = read eci (b + 1) in
    let z = read eci (b + 2) in
    set_at (b + 2) (store z) (
      set_at (b + 1) (store (add (mul (negate x) sg) (mul y cg)))
        (set_at b (store (add (mul x cg) (mul y sg))) out))

-- The loop from star i on, for the given number of stars.
unfoldable pub star_loop :
    (store : Num → Num) (cg sg : Num) (eci : List Num) (left i : ℕ) → List Num → List Num
unfolding star_step
star_loop store cg sg eci zero i out = out
star_loop store cg sg eci (suc left) i out =
    star_loop store cg sg eci left (i + 1) (star_step store cg sg eci i out)

-- The array after the call, and the number of vectors written.
unfoldable pub stars_ecef_into :
    MathFns
    → (fround store : Num → Num) → (catalog : List Star) → (ms : Num) → (out : List Num)
    → List Num × ℕ
unfolding gmst_rad star_eci star_loop
stars_ecef_into fns fround store catalog ms out =
    let g = gmst_rad fns ms in
    let written =
      star_loop store (fns.cos g) (fns.sin g) (star_eci fns fround catalog) (length catalog) 0
        out in
    (written, length catalog)
