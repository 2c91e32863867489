-- ===== src/Renderer/SkyBuffers.antt =====
-- The celestial background (frontend/js/renderer.js): sizes and colours by magnitude, the arrays of
-- the stars, and rebuildSky. `fround` rounds a number to the elements of a Float32Array.
pub mod Loops
pub mod Rebuilt
pub mod Ranges
use orbital_viewer.Num.{Num, whole, lt, is_nan, nan}
use orbital_viewer.Num.Arith.{add, sub, mul, div}
use orbital_viewer.Num.Arrays.{read, set_at, write_from}
use orbital_viewer.Sky.{MathFns, lit}
use orbital_viewer.Sky.Catalog.{Star, decimal_value}
use orbital_viewer.Sky.Planets.{
  Body, mercury, venus, embary, mars, jupiter, saturn, Planet, planets_ecef, planet_names,
}
use orbital_viewer.Sky.Bodies.{moon_direction_ecef, moon_illuminated_fraction}
use orbital_viewer.Sky.Stars.{stars_ecef_into}
use orbital_viewer.Math3.{zeros}
use orbital_viewer.Camera.{math_min}
use orbital_viewer.Net.Message.{Vec3}
use orbital_viewer.Base.{
  ℕ, zero, suc, ◌+◌, ◌-◌, ◌*◌, ◌/◌, ◌%◌, ◌^◌, ◌≤◌, ◌<◌, min, max, ◌≡◌, refl, sym, ap, ◌∙◌, subst,
  fun_ext, ◌≡⟨◌⟩◌, ◌∎, ◌≢◌, ◌↔◌, ◌⊎◌, inl, inr, Bool, true, false, not, ◌&&◌, ◌||◌, Option, none,
  some, List, [], ◌∷◌, ◌++◌, map, append_assoc, append-nil, arith, ltb, leb, ◌==◌, if◌then◌else◌,
  ltb→lt, lt→ltb, leb→le, ==_iff, tests, Bool-cases, Option-cases, and-true, length, take,
  get_elem?, every, keep, length-append, length-take, length-map, All, All-append, Text, codes,
  ◌===◌, ===_iff, ===_self, lookup, has,
}

-- `clamp`: a NaN stays.
unfoldable pub clamp_to : (v lo hi : Num) → Num
unfolding lt
clamp_to v lo hi = if lt v lo then lo else if lt hi v then hi else v

unfoldable pub star_size_for_mag : Num → Num
unfolding clamp_to sub mul
star_size_for_mag mag = clamp_to (sub (lit 56 1) (mul (lit 85 2) mag)) (lit 22 1) (lit 70 1)

unfoldable pub star_brightness : Num → Num
unfolding clamp_to sub mul
star_brightness mag = clamp_to (sub (lit 13 1) (mul (lit 16 2) mag)) (lit 5 1) (lit 10 1)

unfoldable pub planet_size_for_mag : Num → Num
unfolding clamp_to sub mul
planet_size_for_mag mag = clamp_to (sub (lit 75 1) (mul (lit 7 1) mag)) (lit 45 1) (whole 11)

unfoldable pub planet_tint_scale : Num → Num
unfolding clamp_to sub mul
planet_tint_scale mag = clamp_to (sub (lit 7 1) (mul (lit 5 2) mag)) (lit 5 1) (lit 10 1)

abbrev of_255 : (r g b : ℕ) → Vec3
of_255 r g b = record {
  x = div (whole r) (whole 255);
  y = div (whole g) (whole 255);
  z = div (whole b) (whole 255);
}

-- `PLANET_TINT[name] || [1, 1, 1]`; planetsEcef never gives the Earth.
unfoldable pub planet_tint : Body → Vec3
unfolding div
planet_tint mercury = of_255 201 184 160
planet_tint venus = of_255 245 243 224
planet_tint mars = of_255 224 102 60
planet_tint jupiter = of_255 227 210 168
planet_tint saturn = of_255 230 207 143
planet_tint embary = record { x = whole 1; y = whole 1; z = whole 1 }

abbrev pub sky_dist : Num
sky_dist = whole 300

-- An element of STAR_MAGS, which is a Float32Array.
unfoldable pub star_mag : (fround : Num → Num) → Star → Num
star_mag fround s = fround (decimal_value s.mag)

-- starColArr, starSizeArr and starIconArr, filled from front to back.
unfoldable pub star_colors : (fround : Num → Num) → List Star → List Num
unfolding star_brightness star_mag mul
star_colors fround [] = []
star_colors fround (s ∷ ss) =
    let b = star_brightness (star_mag fround s) in
    fround b ∷ fround b ∷ fround (math_min (whole 1) (mul b (lit 105 2))) ∷ star_colors fround ss

unfoldable pub star_sizes : (fround : Num → Num) → List Star → List Num
unfolding star_size_for_mag star_mag
star_sizes fround [] = []
star_sizes fround (s ∷ ss) = fround (star_size_for_mag (star_mag fround s)) ∷ star_sizes fround ss

unfoldable pub star_icons : List Star → List Num
star_icons [] = []
star_icons (s ∷ ss) = whole 6 ∷ star_icons ss

-- An element of planetRender.
pub record PlanetMark : Type 0 where
  pub name : Body
  pub at : Vec3

-- moonRender
pub record MoonMark : Type 0 where
  pub at : Vec3
  pub fraction : Num

-- The arrays and variables that rebuildSky writes.
pub record SkyBuffers : Type 0 where
  pub star_unit : List Num
  pub star_pos : List Num
  pub planet_pos : List Num
  pub planet_col : List Num
  pub planet_size : List Num
  pub planet_count : ℕ
  pub planet_render : List PlanetMark
  pub moon : Option MoonMark

abbrev pub planet_cap : ℕ
planet_cap = 5

-- The buffers that createRenderer makes for a catalogue.
unfoldable pub empty_sky : List Star → SkyBuffers
unfolding zeros
empty_sky stars = record {
  star_unit = zeros (length stars * 3);
  star_pos = zeros (length stars * 3);
  planet_pos = zeros (planet_cap * 3);
  planet_col = zeros (planet_cap * 3);
  planet_size = zeros planet_cap;
  planet_count = 0;
  planet_render = [];
  moon = none;
}

unfoldable pub on_shell : Vec3 → Vec3
unfolding mul
on_shell dir = record { x = mul dir.x sky_dist; y = mul dir.y sky_dist; z = mul dir.z sky_dist }

-- The loop that scales the star positions, from i on.
unfoldable pub scale_stars :
    (fround : Num → Num) (unit : List Num) (left i : ℕ) → List Num → List Num
unfolding read set_at mul
scale_stars fround unit zero i out = out
scale_stars fround unit (suc left) i out =
    scale_stars fround unit left (i + 1) (set_at i (fround (mul (read unit i) sky_dist)) out)

abbrev stored : (fround : Num → Num) → Vec3 → List Num
stored fround v = fround v.x ∷ fround v.y ∷ fround v.z ∷ []

unfoldable pub planet_position : (fround : Num → Num) → Planet → List Num
unfolding on_shell
planet_position fround p = stored fround (on_shell p.dir)

unfoldable pub planet_color : (fround : Num → Num) → Planet → List Num
unfolding planet_tint planet_tint_scale mul
planet_color fround p =
    let tint = planet_tint p.name in
    let s = planet_tint_scale p.mag in
    fround (mul tint.x s) ∷ fround (mul tint.y s) ∷ fround (mul tint.z s) ∷ []

-- One turn of the loop over the planets: planet pc.
unfoldable pub put_planet : (fround : Num → Num) → Planet → SkyBuffers → SkyBuffers
unfolding write_from set_at planet_position planet_color planet_size_for_mag on_shell
put_planet fround p sky =
    let pc = sky.planet_count in
    record sky {
      planet_pos = write_from (planet_position fround p) (pc * 3) sky.planet_pos;
      planet_col = write_from (planet_color fround p) (pc * 3) sky.planet_col;
      planet_size = set_at pc (fround (planet_size_for_mag p.mag)) sky.planet_size;
      planet_render = sky.planet_render ++ (record { name = p.name; at = on_shell p.dir } ∷ []);
      planet_count = pc + 1;
    }

-- The loop over the planets, which ends with the list or with the room of the arrays.
unfoldable pub put_planets : (fround : Num → Num) → List Planet → SkyBuffers → SkyBuffers
unfolding put_planet
put_planets fround [] sky = sky
put_planets fround (p ∷ ps) sky =
    let rest = put_planets fround ps (put_planet fround p sky) in
    if ltb sky.planet_count planet_cap then rest else sky

unfoldable pub put_stars :
    MathFns → (fround : Num → Num) (stars : List Star) (epoch : Num) → SkyBuffers → SkyBuffers
unfolding stars_ecef_into scale_stars
put_stars fns fround stars epoch sky =
    let unit = (stars_ecef_into fns fround fround stars epoch sky.star_unit).0 in
    record sky {
      star_unit = unit;
      star_pos = scale_stars fround unit (length stars * 3) 0 sky.star_pos;
    }

unfoldable pub moon_mark : MathFns → (epoch : Num) → MoonMark
unfolding moon_direction_ecef moon_illuminated_fraction on_shell
moon_mark fns epoch = record {
  at = on_shell (moon_direction_ecef fns epoch);
  fraction = moon_illuminated_fraction fns epoch;
}

unfoldable pub rebuild_sky :
    MathFns → (fround : Num → Num) (stars : List Star) (epoch : Num) → SkyBuffers → SkyBuffers
unfolding put_stars put_planets planets_ecef moon_mark
rebuild_sky fns fround stars epoch sky =
    let cleared = record (put_stars fns fround stars epoch sky) {
      planet_render = [];
      planet_count = 0;
    } in
    record (put_planets fround (planets_ecef fns epoch) cleared) {
      moon = some (moon_mark fns epoch);
    }
