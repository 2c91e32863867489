-- ===== src/SatCamera.antt =====
-- The view from the satellite (frontend/js/sat_camera.js): its view matrix, which looks at the
-- Earth's centre, and the equidistant fisheye projection. `fround` rounds a number to the elements of
-- a Float32Array.
pub mod Depth
use orbital_viewer.Num.{Num, whole, lt, le, is_finite}
use orbital_viewer.Num.Arith.{add, sub, mul, div, negate}
use orbital_viewer.Num.Arrays.{read}
use orbital_viewer.Sky.{MathFns, lit, deg}
use orbital_viewer.Camera.{clamp_between}
use orbital_viewer.Math3.{dot, normalize, vec_sub, scale, vec_length, look_at, transform}
use orbital_viewer.Net.Message.{Vec3}
use orbital_viewer.Base.{
  ℕ, zero, suc, ◌+◌, ◌-◌, ◌*◌, ◌/◌, ◌%◌, ◌^◌, ◌≤◌, ◌<◌, min, max, ◌≡◌, refl, sym, ap, ◌∙◌, subst,
  fun_ext, ◌≡⟨◌⟩◌, ◌∎, ◌≢◌, ◌↔◌, ◌⊎◌, inl, inr, Bool, true, false, not, ◌&&◌, ◌||◌, Option, none,
  some, List, [], ◌∷◌, ◌++◌, map, append_assoc, append-nil, arith, ltb, leb, ◌==◌, if◌then◌else◌,
  ltb→lt, lt→ltb, leb→le, ==_iff, tests, Bool-cases, Option-cases, and-true, length, take,
  get_elem?, every, keep, length-append, length-take, length-map, All, All-append, Text, codes,
  ◌===◌, ===_iff, ===_self, lookup, has,
}

-- SAT_FOV_DEG, SAT_NEAR and SAT_FAR
abbrev pub sat_fov_deg : Num
sat_fov_deg = whole 170

abbrev pub sat_near : Num
sat_near = lit 5 2

abbrev pub sat_far : Num
sat_far = whole 1000

abbrev pub vec3 : (x y z : Num) → Vec3
vec3 x y z = record { x = x; y = y; z = z }

-- The part of v that is perpendicular to f.
unfoldable pub perp : (v f : Vec3) → Vec3
unfolding vec_sub scale dot
perp v f = vec_sub v (scale f (dot v f))

-- `velUnits` where all three numbers are finite.
unfoldable pub usable : Option Vec3 → Option Vec3
usable none = none
usable (some v) = if is_finite v.x && is_finite v.y && is_finite v.z then some v else none

unfoldable pub velocity_up : Option Vec3 → (f : Vec3) → Vec3
unfolding perp
velocity_up none f = vec3 (whole 0) (whole 0) (whole 0)
velocity_up (some v) f = perp v f

-- A vector for the screen's upward direction, unless it is too short, when another one is tried.
unfoldable pub long_enough : MathFns → (v otherwise : Vec3) → Vec3
unfolding vec_length lt
long_enough fns v otherwise = if lt (vec_length fns v) (lit 1 6) then otherwise else v

-- The velocity first, then north, then the x axis.
unfoldable pub up_vector : MathFns → Option Vec3 → (f : Vec3) → Vec3
unfolding usable velocity_up long_enough perp normalize
up_vector fns vel f =
    let north = perp (vec3 (whole 0) (whole 0) (whole 1)) f in
    let east = perp (vec3 (whole 1) (whole 0) (whole 0)) f in
    normalize fns (long_enough fns (long_enough fns (velocity_up (usable vel) f) north) east)

unfoldable pub sat_view_matrix :
    MathFns → (fround : Num → Num) → (pos vel : Option Vec3) → Option (List Num)
unfolding vec_length le normalize scale up_vector look_at
sat_view_matrix fns fround none vel = none
sat_view_matrix fns fround (some eye) vel =
    let f = normalize fns (scale eye (negate (whole 1))) in
    let view = look_at fns fround eye (vec3 (whole 0) (whole 0) (whole 0)) (up_vector fns vel f) in
    if le (lit 1 9) (vec_length fns eye) then some view else none

-- The result of fisheyeProjectNdc.
pub record FisheyePoint : Type 0 where
  pub x : Num
  pub y : Num
  pub depth : Num
  pub theta : Num

-- The point as the satellite sees it.
unfoldable pub seen_from : (view : List Num) → Vec3 → Vec3
unfolding transform read
seen_from view p =
    let vp = transform view p.x p.y p.z (whole 1) in vec3 (read vp 0) (read vp 1) (read vp 2)

unfoldable pub fisheye_depth : (rho : Num) → Num
unfolding add sub mul div clamp_between
fisheye_depth rho =
    sub
      (mul (clamp_between (whole 0) (whole 1) (div (sub rho sat_near) (sub sat_far sat_near)))
        (whole 2))
      (whole 1)

-- The angle off the direction to the Earth's centre.
unfoldable pub off_axis : MathFns → (dir : Vec3) → Num
unfolding clamp_between
off_axis fns dir = fns.acos (clamp_between (negate (whole 1)) (whole 1) (negate dir.z))

-- The rest of the projection, from the point's direction and distance.
unfoldable pub place_on_disc : MathFns → (aspect fov rho : Num) (dir : Vec3) → Option FisheyePoint
unfolding fisheye_depth off_axis lt div mul deg
place_on_disc fns aspect fov rho dir =
    let theta_max = mul (div fov (whole 2)) (deg fns) in
    let theta = off_axis fns dir in
    let depth = fisheye_depth rho in
    let p_len = fns.hypot (dir.x ∷ dir.y ∷ []) in
    let r = div theta theta_max in
    let ahead : FisheyePoint = record { x = whole 0; y = whole 0; depth = depth; theta = theta } in
    let aside : FisheyePoint = record {
      x = div (mul r (div dir.x p_len)) aspect;
      y = mul r (div dir.y p_len);
      depth = depth;
      theta = theta;
    } in
    if lt p_len (lit 1 6)
    then (if lt (div fns.pi (whole 2)) theta then none else some ahead)
    else some aside

unfoldable pub fisheye_project_ndc :
    MathFns → (view : List Num) → Vec3 → (aspect fov : Num) → Option FisheyePoint
unfolding seen_from vec_length lt scale div place_on_disc
fisheye_project_ndc fns view p aspect fov =
    let v = seen_from view p in
    let rho = vec_length fns v in
    if lt rho (lit 1 9)
    then none
    else place_on_disc fns aspect fov rho (scale v (div (whole 1) rho))
