-- ===== src/Renderer/Projection.antt =====
-- The canvas, the active view and the screen (frontend/js/renderer.js: resize, computeActiveView,
-- projectToScreen, behindEarth and pick with them). `fround` rounds a number to the elements of a
-- Float32Array; a canvas keeps the whole size that it is given.
pub mod Picked
use orbital_viewer.Num.{Num, whole, fin, inf, nan, lt, le, eq, is_nan}
use orbital_viewer.Num.Arith.{add, sub, mul, div, negate}
use orbital_viewer.Num.Arrays.{read}
use orbital_viewer.Sky.{MathFns, lit, deg}
use orbital_viewer.Camera.{Camera, math_max}
use orbital_viewer.Camera.Eye.{get_eye, get_view_matrix}
use orbital_viewer.Math3.{perspective, multiply, transform, occluded_by_sphere}
use orbital_viewer.SatCamera.{FisheyePoint, sat_view_matrix, fisheye_project_ndc, sat_fov_deg}
use orbital_viewer.Renderer.Scene.{Floats, world_from_meters, Sprite}
use orbital_viewer.Renderer.State.{Scene, SatSprite, satellite_of}
use orbital_viewer.Renderer.Pick.{Optics, Target, pick}
use orbital_viewer.Net.Message.{Vec3, Satellite}
use orbital_viewer.Base.{
  ℕ, zero, suc, ◌+◌, ◌-◌, ◌*◌, ◌/◌, ◌%◌, ◌^◌, ◌≤◌, ◌<◌, min, max, ◌≡◌, refl, sym, ap, ◌∙◌, subst,
  fun_ext, ◌≡⟨◌⟩◌, ◌∎, ◌≢◌, ◌↔◌, ◌⊎◌, inl, inr, Bool, true, false, not, ◌&&◌, ◌||◌, Option, none,
  some, List, [], ◌∷◌, ◌++◌, map, append_assoc, append-nil, arith, ltb, leb, ◌==◌, if◌then◌else◌,
  ltb→lt, lt→ltb, leb→le, ==_iff, tests, Bool-cases, Option-cases, and-true, length, take,
  get_elem?, every, keep, length-append, length-take, length-map, All, All-append, Text, codes,
  ◌===◌, ===_iff, ===_self, lookup, has,
}

-- The renderer's arithmetic on JavaScript numbers.
unfoldable pub floats_of : MathFns → (parse_date : Text → Num) → Floats
unfolding add sub mul div
floats_of fns parse_date = record {
  add = add;
  sub = sub;
  mul = mul;
  div = div;
  hypot = λ v. fns.hypot (v.x ∷ v.y ∷ v.z ∷ []);
  parse_date = parse_date;
}

-- `Math.round`, which rounds a half up.
unfoldable pub math_round : Num → Num
math_round (fin false n k) = whole ((2 * n + 2 ^ k) / (2 * 2 ^ k))
math_round (fin true n k) = fin true ((2 * n + 2 ^ k - 1) / (2 * 2 ^ k)) 0
math_round (inf s) = inf s
math_round nan = nan

-- `x || y`
unfoldable pub or_else : (x y : Num) → Num
unfolding eq
or_else x y = if is_nan x || eq x (whole 0) then y else x

-- dpr, cssW, cssH, the size of the WebGL canvas, and proj.
pub record Surface : Type 0 where
  pub dpr : Num
  pub css_w : Num
  pub css_h : Num
  pub gl_w : Num
  pub gl_h : Num
  pub proj : List Num

-- What the window and the canvas say of their sizes.
pub record Sizes : Type 0 where
  pub pixel_ratio : Option Num
  pub client_width : Num
  pub client_height : Num
  pub width : Num
  pub height : Num

abbrev pub ratio_or_one : Option Num → Num
ratio_or_one none = whole 1
ratio_or_one (some x) = or_else x (whole 1)

unfoldable pub fov : MathFns → Num
unfolding mul deg
fov fns = mul (whole 45) (deg fns)

-- `Math.max(1, Math.round(w * dpr))`
unfoldable pub device_pixels : (w dpr : Num) → Num
unfolding math_round mul
device_pixels w dpr = math_max (whole 1) (math_round (mul w dpr))

unfoldable pub resize : MathFns → (fround : Num → Num) → Sizes → Surface
unfolding or_else device_pixels perspective fov div
resize fns fround s =
    let dpr = ratio_or_one s.pixel_ratio in
    let w = or_else s.client_width (or_else s.width (whole 1)) in
    let h = or_else s.client_height (or_else s.height (whole 1)) in
    let gw = device_pixels w dpr in
    let gh = device_pixels h dpr in
    record {
      dpr = dpr;
      css_w = w;
      css_h = h;
      gl_w = gw;
      gl_h = gh;
      proj = perspective fns fround (fov fns) (div gw gh) (lit 5 1) (whole 1000);
    }

-- activeView; of a fisheye view `mvp` is null, written [], and nothing reads it.
pub record ActiveView : Type 0 where
  pub fisheye : Bool
  pub view : List Num
  pub mvp : List Num
  pub eye : Vec3
  pub aspect_gl : Num
  pub aspect_css : Num

module _ (fns : MathFns) (fround : Num → Num) (parse_date : Text → Num) where
  abbrev origin : Vec3
  origin = record { x = whole 0; y = whole 0; z = whole 0 }

  unfoldable pub orbit_view : Surface → Camera → ActiveView
  unfolding get_view_matrix get_eye multiply div
  orbit_view surface camera =
      let view = get_view_matrix fns fround origin camera in
      record {
        fisheye = false;
        view = view;
        mvp = multiply fround surface.proj view;
        eye = get_eye fns origin camera;
        aspect_gl = div surface.gl_w surface.gl_h;
        aspect_css = div surface.css_w surface.css_h;
      }

  -- The view from the satellite, where it has a matrix.
  unfoldable pub fisheye_view : Surface → (eye : Vec3) → Option (List Num) → Option ActiveView
  unfolding div
  fisheye_view surface eye none = none
  fisheye_view surface eye (some view) = some (record {
    fisheye = true;
    view = view;
    mvp = [];
    eye = eye;
    aspect_gl = div surface.gl_w surface.gl_h;
    aspect_css = div surface.css_w surface.css_h;
  })

  unfoldable pub satellite_view : (is_sat : Bool) → Surface → Option Satellite → Option ActiveView
  unfolding fisheye_view floats_of world_from_meters sat_view_matrix
  satellite_view is_sat surface none = none
  satellite_view false surface (some s) = none
  satellite_view true surface (some s) =
      let eye = world_from_meters (floats_of fns parse_date) s.pos in
      fisheye_view surface eye (sat_view_matrix fns fround (some eye) (some s.vel))

  abbrev pub view_or : Option ActiveView → ActiveView → ActiveView
  view_or none orbit = orbit
  view_or (some v) orbit = v

  unfoldable pub compute_active_view : {S : Type 0} → Scene S → Surface → Camera → ActiveView
  unfolding satellite_view orbit_view
  compute_active_view st surface camera =
      view_or (satellite_view st.view.is_sat surface (satellite_of st.snapshot))
        (orbit_view surface camera)

-- From normalised device coordinates to pixels of the page.
unfoldable pub to_css : Surface → (x y : Num) → Num × Num
unfolding add sub mul
to_css surface x y = (
  mul (add (mul x (lit 5 1)) (lit 5 1)) surface.css_w,
  mul (sub (whole 1) (add (mul y (lit 5 1)) (lit 5 1))) surface.css_h,
)

unfoldable pub point_to_css : Surface → Option FisheyePoint → Option (Num × Num)
unfolding to_css
point_to_css surface none = none
point_to_css surface (some p) = some (to_css surface p.x p.y)

unfoldable pub project_orbit : Surface → ActiveView → Vec3 → Option (Num × Num)
unfolding transform read le div to_css
project_orbit surface active p =
    let c = transform active.mvp p.x p.y p.z (whole 1) in
    let w = read c 3 in
    if le w (lit 1 6) then none else some (to_css surface (div (read c 0) w) (div (read c 1) w))

abbrev pub occlude_r : Num
occlude_r = mul (lit 6371 3) (lit 999 3)

abbrev pub sat_target : Option SatSprite → Option Target
sat_target none = none
sat_target (some s) = some (record { id = s.id; at = s.at })

module _ (fns : MathFns) where
  unfoldable pub project_to_screen : Surface → ActiveView → Vec3 → Option (Num × Num)
  unfolding fisheye_project_ndc point_to_css project_orbit
  project_to_screen surface active p =
      if active.fisheye
      then point_to_css surface
          (fisheye_project_ndc fns active.view p active.aspect_css sat_fov_deg)
      else project_orbit surface active p

  unfoldable pub behind_earth : (eye p : Vec3) → Bool
  unfolding occluded_by_sphere mul
  behind_earth eye p = occluded_by_sphere fns eye p occlude_r

  unfoldable pub optics_of : Surface → ActiveView → Optics
  unfolding behind_earth project_to_screen
  optics_of surface active = record {
    occluded = behind_earth active.eye;
    project = project_to_screen surface active;
    eye = active.eye;
  }

module _ (fns : MathFns) (fround : Num → Num) (parse_date : Text → Num) where
  unfoldable pub pick_at : {S : Type 0} → Scene S → Surface → Camera → (x y : Num) → Option Num
  unfolding compute_active_view optics_of floats_of pick
  pick_at st surface camera x y =
      let active = compute_active_view fns fround parse_date st surface camera in
      pick (floats_of fns parse_date) (optics_of fns surface active) x y active.fisheye
        (sat_target st.sat) st.sprites
