-- ===== src/Camera.antt =====
-- frontend/js/camera.js: the orbit camera's state and its handlers. Arithmetic is that of Floats, with
-- Math.exp as one more parameter; Eye has the matrix and the eye position.
pub mod Aim
pub mod Clamp
pub mod Eye
use orbital_viewer.Num.Arith.{negate}
use mathlib.Core.Bool.{false≢true}
use orbital_viewer.Num.{is_nan, le, lt, whole, nan, inf, fin, Num}
use orbital_viewer.Renderer.Scene.{Floats}
use orbital_viewer.Base.{
  ℕ, zero, suc, ◌+◌, ◌-◌, ◌*◌, ◌/◌, ◌%◌, ◌^◌, ◌≤◌, ◌<◌, min, max, ◌≡◌, refl, sym, ap, ◌∙◌, subst,
  fun_ext, ◌≡⟨◌⟩◌, ◌∎, ◌≢◌, ◌↔◌, ◌⊎◌, inl, inr, Bool, true, false, not, ◌&&◌, ◌||◌, Option, none,
  some, List, [], ◌∷◌, ◌++◌, map, append_assoc, append-nil, arith, ltb, leb, ◌==◌, if◌then◌else◌,
  ltb→lt, lt→ltb, leb→le, ==_iff, tests, Bool-cases, Option-cases, and-true, length, take,
  get_elem?, every, keep, length-append, length-take, length-map, All, All-append, Text, codes,
  ◌===◌, ===_iff, ===_self, lookup, has,
}

abbrev pub math_min : Num → Num → Num
math_min x y = if is_nan x || is_nan y then nan else if lt y x then y else x

abbrev pub math_max : Num → Num → Num
math_max x y = if is_nan x || is_nan y then nan else if lt x y then y else x

-- `Math.max(lo, Math.min(hi, x))`
unfoldable pub clamp_between : (lo hi x : Num) → Num
clamp_between lo hi x = math_max lo (math_min hi x)

-- The options, and PITCH_LIMIT.
pub record Limits : Type 0 where
  pub min_distance : Num
  pub max_distance : Num
  pub rotate_speed : Num
  pub zoom_speed : Num
  pub pitch_limit : Num

pub record Camera : Type 0 where
  pub yaw : Num
  pub pitch : Num
  pub distance : Num
  pub dragging : Bool
  pub last_x : Num
  pub last_y : Num
  pub active_pointer : Option ℕ
  pub attached : Bool

-- What the listeners and the methods are called with.
pub data CameraEvent : Type 0 where
  pointer_down : (id : ℕ) (x y : Num) → CameraEvent
  pointer_move : (x y : Num) → CameraEvent
  pointer_up : CameraEvent
  wheel : (delta_y : Num) → CameraEvent
  set_distance : Num → CameraEvent
  dispose : CameraEvent

module _ (fl : Floats) (exp : Num → Num) (limits : Limits) where
  unfoldable pub clamp_dist : Num → Num
  unfolding clamp_between
  clamp_dist d = clamp_between limits.min_distance limits.max_distance d

  unfoldable pub clamp_pitch : Num → Num
  unfolding clamp_between
  clamp_pitch p = clamp_between (negate limits.pitch_limit) limits.pitch_limit p

  unfoldable pub create_camera : (yaw pitch distance : Num) → Camera
  unfolding clamp_dist
  create_camera yaw pitch distance = record {
    yaw = yaw;
    pitch = pitch;
    distance = clamp_dist distance;
    dragging = false;
    last_x = whole 0;
    last_y = whole 0;
    active_pointer = none;
    attached = true;
  }

  unfoldable pub on_move : Num → Num → Camera → Camera
  unfolding clamp_pitch
  on_move x y c =
      let dx = fl.sub x c.last_x in
      let dy = fl.sub y c.last_y in
      if not c.dragging then c else record c {
        last_x = x;
        last_y = y;
        yaw = fl.sub c.yaw (fl.mul dx limits.rotate_speed);
        pitch = clamp_pitch (fl.add c.pitch (fl.mul dy limits.rotate_speed));
      }

  on_listener : CameraEvent → Camera → Camera
  unfolding on_move clamp_dist
  on_listener (pointer_down id x y) c = record c {
    dragging = true;
    last_x = x;
    last_y = y;
    active_pointer = some id;
  }
  on_listener (pointer_move x y) c = on_move x y c
  on_listener pointer_up c = record c { dragging = false; active_pointer = none }
  on_listener (wheel delta_y) c = record c {
    distance = clamp_dist (fl.mul c.distance (exp (fl.mul delta_y limits.zoom_speed)));
  }
  on_listener _ c = c

  -- A disposed camera hears no listener; `setDistance` still works.
  unfoldable pub camera_event : Camera → CameraEvent → Camera
  unfolding on_listener clamp_dist
  camera_event c (set_distance d) = record c { distance = clamp_dist d }
  camera_event c dispose = record c { attached = false }
  camera_event c e = if c.attached then on_listener e c else c

  unfoldable pub run_camera : Camera → List CameraEvent → Camera
  unfolding camera_event
  run_camera c [] = c
  run_camera c (e ∷ es) = run_camera (camera_event c e) es
