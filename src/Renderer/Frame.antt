-- ===== src/Renderer/Frame.antt =====
-- What a frame draws (frame, drawEarth, drawLines, drawPointset and drawMarker in
-- frontend/js/renderer.js): the draw calls in their order, with the numbers of vertices that they ask
-- for, and the overlay. The state of WebGL between the calls is not modelled.
pub mod Fits
pub mod Order
use orbital_viewer.Num.{Num, whole, lt}
use orbital_viewer.Num.Arith.{add, sub, mul, div}
use orbital_viewer.Sky.{MathFns, lit}
use orbital_viewer.Sky.Bodies.{sun_direction_ecef}
use orbital_viewer.Camera.{Camera, math_min}
use orbital_viewer.Math3.{normalize, scale}
use orbital_viewer.Renderer.Mesh.{build_graticule, build_sphere}
use orbital_viewer.Sky.Catalog.{Star}
use orbital_viewer.Renderer.Scene.{Sprite, Floats}
use orbital_viewer.Renderer.State.{Scene, SatSprite, on_frame, scene_now_ms}
use orbital_viewer.Renderer.Mesh.{Mesh}
use orbital_viewer.Renderer.SkyBuffers.{SkyBuffers, MoonMark}
use orbital_viewer.Renderer.Projection.{ActiveView, Surface, compute_active_view, floats_of}
use orbital_viewer.Renderer.Overlay.{Mark, draw_overlay}
use orbital_viewer.Net.Message.{Vec3}
use orbital_viewer.Base.{
  ℕ, zero, suc, ◌+◌, ◌-◌, ◌*◌, ◌/◌, ◌%◌, ◌^◌, ◌≤◌, ◌<◌, min, max, ◌≡◌, refl, sym, ap, ◌∙◌, subst,
  fun_ext, ◌≡⟨◌⟩◌, ◌∎, ◌≢◌, ◌↔◌, ◌⊎◌, inl, inr, Bool, true, false, not, ◌&&◌, ◌||◌, Option, none,
  some, List, [], ◌∷◌, ◌++◌, map, append_assoc, append-nil, arith, ltb, leb, ◌==◌, if◌then◌else◌,
  ltb→lt, lt→ltb, leb→le, ==_iff, tests, Bool-cases, Option-cases, and-true, length, take,
  get_elem?, every, keep, length-append, length-take, length-map, All, All-append, Text, codes,
  ◌===◌, ===_iff, ===_self, lookup, has,
}

-- The buffers of lines, of points, and the single points.
pub data LineBuffer : Type 0 where
  graticule trail velocity : LineBuffer

pub data PointBuffer : Type 0 where
  star_points planet_points object_points : PointBuffer

pub data Marker : Type 0 where
  moon_marker sun_marker sat_marker : Marker

pub data Draw : Type 0 where
  globe : (indices : ℕ) (sun_dir eye : Vec3) (has_day has_night : Bool) → Draw
  lines : LineBuffer → (vertices : ℕ) → Draw
  points : PointBuffer → (count : ℕ) → Draw
  marker : Marker → (at : Vec3) (size : Num) (color : Vec3) (use_atlas : Bool) → Draw

-- `if (vertCount <= 0) return`
unfoldable pub draw_lines : LineBuffer → ℕ → List Draw
draw_lines b zero = []
draw_lines b (suc n) = lines b (suc n) ∷ []

unfoldable pub draw_pointset : PointBuffer → ℕ → List Draw
draw_pointset b zero = []
draw_pointset b (suc n) = points b (suc n) ∷ []

-- What the graphics card and the loader of the textures say, and what was built once.
pub record Device : Type 0 where
  pub max_point_size : Num
  pub has_day : Bool
  pub has_night : Bool
  pub earth_indices : ℕ
  pub graticule_floats : ℕ
  pub star_count : ℕ

abbrev pub earth_r : Num
earth_r = lit 6371 3

-- What createRenderer has made of the sphere, the graticule and the catalogue.
unfoldable pub create_device :
    MathFns
    → (fround : Num → Num) (stars : List Star) (max_point_size : Num) (has_day has_night : Bool)
    → Device
unfolding build_graticule build_sphere
create_device fns fround stars max_point_size has_day has_night = record {
  max_point_size = max_point_size;
  has_day = has_day;
  has_night = has_night;
  earth_indices = length (build_sphere fns fround earth_r 64 96).indices;
  graticule_floats = length (build_graticule fns fround earth_r);
  star_count = length stars;
}

-- The point size is clamped to what the card can draw.
unfoldable pub draw_marker :
    Surface → Device → Marker → (at : Vec3) (size : ℕ) (color : Vec3) (use_atlas : Bool) → List Draw
unfolding mul
draw_marker surface device m at size color use_atlas =
    marker m at (math_min (mul (whole size) surface.dpr) device.max_point_size) color use_atlas ∷ []

abbrev rgb : (x y z : Num) → Vec3
rgb x y z = record { x = x; y = y; z = z }

unfoldable pub draw_moon : Surface → Device → Option MoonMark → List Draw
unfolding draw_marker div
draw_moon surface device none = []
draw_moon surface device (some m) =
    draw_marker surface device moon_marker m.at 26
      (rgb (div (whole 216) (whole 255)) (div (whole 216) (whole 255))
        (div (whole 208) (whole 255)))
      false

unfoldable pub draw_sky : Surface → Device → SkyBuffers → List Draw
unfolding draw_pointset draw_moon
draw_sky surface device sky =
    (draw_pointset star_points device.star_count ++ draw_moon surface device sky.moon)
    ++ draw_pointset planet_points sky.planet_count

abbrev pub draw_sat : Surface → Device → Option SatSprite → List Draw
draw_sat surface device none = []
draw_sat surface device (some s) =
    draw_marker surface device sat_marker s.at 30 (rgb (whole 1) (lit 8353 4) (lit 2902 4)) true

abbrev pub draw_velocity : Option (Vec3 × Vec3) → List Draw
draw_velocity none = []
draw_velocity (some ends) = draw_lines velocity 2

unfoldable pub draw_satellite : (fisheye : Bool) → Surface → Device → Scene SkyBuffers → List Draw
unfolding draw_lines draw_marker
draw_satellite true surface device st = []
draw_satellite false surface device st = draw_velocity st.velocity ++ draw_sat surface device st.sat

abbrev pub sun_dist : Num
sun_dist = whole 150

-- The draw calls of a frame, for a view and the direction of the Sun.
unfoldable pub draws :
    Surface → Device → ActiveView → (sun_dir : Vec3) → Scene SkyBuffers → List Draw
unfolding draw_lines draw_sky draw_marker scale draw_pointset draw_satellite
draws surface device active sun_dir st =
    let sky = draw_sky surface device st.sky in
    let trails = draw_lines trail st.buffer.vertices in
    let sun = rgb (whole 1) (lit 93 2) (lit 7 1) in
    (globe device.earth_indices sun_dir active.eye device.has_day device.has_night ∷ [])
    ++ (draw_lines graticule (device.graticule_floats / 7)
        ++ ((if st.view.show_sky then sky else [])
            ++ (draw_marker surface device sun_marker (scale sun_dir sun_dist) 42 sun false
                ++ ((if st.view.show_trails then trails else [])
                    ++ (draw_pointset object_points (length st.sprites)
                        ++ draw_satellite active.fisheye surface device st)))))

-- What a frame leaves: the state, the draw calls and the overlay's marks. `now` is the argument of
-- `frame`, or the clock where that is no number.
pub record Picture : Type 0 where
  pub state : Scene SkyBuffers
  pub calls : List Draw
  pub marks : List Mark

unfoldable pub draw_frame :
    MathFns
    → (fround : Num → Num) (parse_date : Text → Num) (show : Num → Text) → Surface
    → Device
    → Camera
    → (now : Num) → Scene SkyBuffers
    → Picture
unfolding compute_active_view scene_now_ms on_frame normalize sun_direction_ecef draws draw_overlay
    scale
draw_frame fns fround parse_date show surface device camera now st =
    let active = compute_active_view fns fround parse_date st surface camera in
    let ms = scene_now_ms (floats_of fns parse_date) now st in
    let sun_dir = normalize fns (sun_direction_ecef fns ms) in
    let next = on_frame now st in
    record {
      state = next;
      calls = draws surface device active sun_dir next;
      marks = draw_overlay fns show surface active next (scale sun_dir sun_dist);
    }
