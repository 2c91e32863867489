-- ===== src/Sky/Planets.antt =====
-- The planets (heliocentricEcliptic and planetsEcef of frontend/js/sky.js).
use orbital_viewer.Net.Message.{Vec3}
use orbital_viewer.Sky.{gmst_rad, wrap_deg180, eci_to_ecef, days_since_j2000, lit, deg, MathFns}
use orbital_viewer.Base.{ℕ, zero, suc, List, [], ◌∷◌, map}
use orbital_viewer.Num.{Num, nan, whole}
use orbital_viewer.Num.Arith.{add, sub, mul, div, negate}
use orbital_viewer.Sky.Bodies.{obliquity, or_one}

pub data Body : Type 0 where
  mercury : Body
  venus : Body
  embary : Body
  mars : Body
  jupiter : Body
  saturn : Body

abbrev pub planet_names : List Body
planet_names = mercury ∷ venus ∷ mars ∷ jupiter ∷ saturn ∷ []

-- Each element with its rate for a century.
pub record Elements : Type 0 where
  a : Num × Num
  e : Num × Num
  inclination : Num × Num
  mean_longitude : Num × Num
  perihelion : Num × Num
  node : Num × Num

unfoldable pub elements_of : Body → Elements
elements_of mercury = record {
  a = ((lit 38709927 8), (lit 37 8));
  e = ((lit 20563593 8), (lit 1906 8));
  inclination = ((lit 700497902 8), (negate (lit 594749 8)));
  mean_longitude = ((lit 25225032350 8), (lit 14947267411175 8));
  perihelion = ((lit 7745779628 8), (lit 16047689 8));
  node = ((lit 4833076593 8), (negate (lit 12534081 8)));
}
elements_of venus = record {
  a = ((lit 72333566 8), (lit 390 8));
  e = ((lit 677672 8), (negate (lit 4107 8)));
  inclination = ((lit 339467605 8), (negate (lit 78890 8)));
  mean_longitude = ((lit 18197909950 8), (lit 5851781538729 8));
  perihelion = ((lit 13160246718 8), (lit 268329 8));
  node = ((lit 7667984255 8), (negate (lit 27769418 8)));
}
elements_of embary = record {
  a = ((lit 100000261 8), (lit 562 8));
  e = ((lit 1671123 8), (negate (lit 4392 8)));
  inclination = ((negate (lit 1531 8)), (negate (lit 1294668 8)));
  mean_longitude = ((lit 10046457166 8), (lit 3599937244981 8));
  perihelion = ((lit 10293768193 8), (lit 32327364 8));
  node = ((lit 0 1), (lit 0 1));
}
elements_of mars = record {
  a = ((lit 152371034 8), (lit 1847 8));
  e = ((lit 9339410 8), (lit 7882 8));
  inclination = ((lit 184969142 8), (negate (lit 813131 8)));
  mean_longitude = ((negate (lit 455343205 8)), (lit 1914030268499 8));
  perihelion = ((negate (lit 2394362959 8)), (lit 44441088 8));
  node = ((lit 4955953891 8), (negate (lit 29257343 8)));
}
elements_of jupiter = record {
  a = ((lit 520288700 8), (negate (lit 11607 8)));
  e = ((lit 4838624 8), (negate (lit 13253 8)));
  inclination = ((lit 130439695 8), (negate (lit 183714 8)));
  mean_longitude = ((lit 3439644051 8), (lit 303474612775 8));
  perihelion = ((lit 1472847983 8), (lit 21252668 8));
  node = ((lit 10047390909 8), (lit 20469106 8));
}
elements_of saturn = record {
  a = ((lit 953667594 8), (negate (lit 125060 8)));
  e = ((lit 5386179 8), (negate (lit 50991 8)));
  inclination = ((lit 248599187 8), (lit 193609 8));
  mean_longitude = ((lit 4995424423 8), (lit 122249362201 8));
  perihelion = ((lit 9259887831 8), (negate (lit 41897216 8)));
  node = ((lit 11366242448 8), (negate (lit 28867794 8)));
}

-- The base magnitude; the Earth has none.
unfoldable pub base_magnitude : Body → Num
base_magnitude mercury = negate (lit 42 2)
base_magnitude venus = negate (lit 440 2)
base_magnitude mars = negate (lit 152 2)
base_magnitude jupiter = negate (lit 940 2)
base_magnitude saturn = negate (lit 888 2)
base_magnitude embary = nan

-- An element at T centuries.
abbrev at_time : Num × Num → (t : Num) → Num
at_time p t = add p.0 (mul p.1 t)

-- Newton's steps for Kepler's equation.
unfoldable kepler : MathFns → (e m : Num) → (steps : ℕ) → (anomaly : Num) → Num
unfolding sub mul div
kepler fns e m zero x = x
kepler fns e m (suc steps) x =
    kepler fns e m steps
      (sub x (div (sub (sub x (mul e (fns.sin x))) m) (sub (whole 1) (mul e (fns.cos x)))))

unfoldable pub heliocentric_ecliptic : MathFns → Elements → (t : Num) → Vec3
unfolding add sub mul deg wrap_deg180 kepler
heliocentric_ecliptic fns el t =
    let a = at_time el.a t in
    let e = at_time el.e t in
    let tilt = mul (at_time el.inclination t) (deg fns) in
    let l = at_time el.mean_longitude t in
    let wbar = at_time el.perihelion t in
    let node = at_time el.node t in
    let omega = mul (sub wbar node) (deg fns) in
    let ascending = mul node (deg fns) in
    let m = mul (wrap_deg180 (sub l wbar)) (deg fns) in
    let x = kepler fns e m 6 (add m (mul e (fns.sin m))) in
    let xp = mul a (sub (fns.cos x) e) in
    let yp = mul (mul a (fns.sqrt (sub (whole 1) (mul e e)))) (fns.sin x) in
    let cw = fns.cos omega in
    let sw = fns.sin omega in
    let co = fns.cos ascending in
    let so = fns.sin ascending in
    let ci = fns.cos tilt in
    let si = fns.sin tilt in
    record {
      x =
          add (mul (sub (mul cw co) (mul (mul sw so) ci)) xp)
            (mul (sub (mul (negate sw) co) (mul (mul cw so) ci)) yp);
      y =
          add (mul (add (mul cw so) (mul (mul sw co) ci)) xp)
            (mul (add (mul (negate sw) so) (mul (mul cw co) ci)) yp);
      z = add (mul (mul sw si) xp) (mul (mul cw si) yp);
    }

pub record Planet : Type 0 where
  pub name : Body
  pub dir : Vec3
  pub mag : Num

-- One planet, from the Earth's place, the obliquity and the sidereal time.
unfoldable pub planet_ecef : MathFns → (t eps gmst : Num) → (earth : Vec3) → Body → Planet
unfolding heliocentric_ecliptic elements_of add sub mul div eci_to_ecef base_magnitude
planet_ecef fns t eps gmst earth name =
    let helio = heliocentric_ecliptic fns (elements_of name) t in
    let gx = sub helio.x earth.x in
    let gy = sub helio.y earth.y in
    let gz = sub helio.z earth.z in
    let yeq = sub (mul gy (fns.cos eps)) (mul gz (fns.sin eps)) in
    let zeq = add (mul gy (fns.sin eps)) (mul gz (fns.cos eps)) in
    let len = or_one (fns.hypot (gx ∷ yeq ∷ zeq ∷ [])) in
    let r = fns.hypot (helio.x ∷ helio.y ∷ helio.z ∷ []) in
    let delta = fns.hypot (gx ∷ gy ∷ gz ∷ []) in
    record {
      name = name;
      dir = eci_to_ecef fns (record { x = div gx len; y = div yeq len; z = div zeq len }) gmst;
      mag = add (base_magnitude name) (mul (whole 5) (fns.log10 (mul r delta)));
    }

unfoldable pub planets_ecef : MathFns → (ms : Num) → List Planet
unfolding days_since_j2000 div obliquity gmst_rad heliocentric_ecliptic elements_of planet_ecef
planets_ecef fns ms =
    let n = days_since_j2000 ms in
    let t = div n (whole 36525) in
    let earth = heliocentric_ecliptic fns (elements_of embary) t in
    map (planet_ecef fns t (obliquity fns n) (gmst_rad fns ms) earth) planet_names
