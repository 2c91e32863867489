-- ===== src/Camera/Aim.antt =====
-- frontend/js/camera.js: the camera's distance and pitch stay in range.
use orbital_viewer.Num.Order.{le-is_nan}
use orbital_viewer.Num.Arith.Bounds.{IsInRange}
use orbital_viewer.Camera.Clamp.{clamp_between-IsInRange}
use orbital_viewer.Renderer.Scene.{Floats}
use orbital_viewer.Num.Arith.{negate}
use orbital_viewer.Camera.{
  pointer_up, dispose, wheel, pointer_move, pointer_down, set_distance, clamp_dist, CameraEvent,
  clamp_pitch, camera_event, run_camera, on_move, create_camera, Camera, clamp_between, Limits,
}
use orbital_viewer.Base.{
  ◌≡◌, refl, ◌⊎◌, inl, inr, Bool, true, false, none, some, List, [], ◌∷◌, if◌then◌else◌, Bool-cases,
}
use orbital_viewer.Num.{Num, nan, is_nan, le}

-- The number is between the two, or it is NaN.
abbrev pub IsWithin : (lo hi x : Num) → Type 0
IsWithin lo hi x = ((le lo x ≡ true) × (le x hi ≡ true)) ⊎ (x ≡ nan)

clamp_between-IsWithin : (lo hi x : Num) → le lo hi ≡ true → IsWithin lo hi (clamp_between lo hi x)
unfolding clamp_between IsInRange
clamp_between-IsWithin lo hi x h =
    let (nl, nh) = le-is_nan lo hi h in
    elim (Bool-cases (is_nan x)) [
      | inl n ↦ inr (rw (n, nl, nh) refl)
      | inr n ↦ inl (clamp_between-IsInRange lo hi x n h)
    ]

-- The distance and the pitch are in range.
abbrev pub IsAimed : Limits → Camera → Type 0
IsAimed limits c =
    IsWithin limits.min_distance limits.max_distance c.distance
    × IsWithin (negate limits.pitch_limit) limits.pitch_limit c.pitch

if_heard :
    (limits : Limits) (b : Bool) (d c : Camera)
    → IsAimed limits d
    → IsAimed limits c
    → IsAimed limits (if b then d else c)
if_heard limits true d c h k = h
if_heard limits false d c h k = k

module _ (fl : Floats) (exp : Num → Num) (limits : Limits) where
  module _ (distances : le limits.min_distance limits.max_distance ≡ true)
      (pitches : le (negate limits.pitch_limit) limits.pitch_limit ≡ true) where
    on_move-IsAimed :
        (x y : Num) (c : Camera) → IsAimed limits c → IsAimed limits (on_move fl exp limits x y c)
    unfolding on_move clamp_pitch
    on_move-IsAimed x y c h = elim (Bool-cases c.dragging) [
      | inl p ↦ rw p (h.0, clamp_between-IsWithin _ _ _ pitches)
      | inr p ↦ rw p h
    ]

    camera_event-IsAimed :
        (c : Camera) (e : CameraEvent)
        → IsAimed limits c
        → IsAimed limits (camera_event fl exp limits c e)
    unfolding camera_event clamp_dist
    camera_event-IsAimed c (set_distance d) h = (clamp_between-IsWithin _ _ _ distances, h.1)
    camera_event-IsAimed c dispose h = h
    camera_event-IsAimed c (pointer_down id x y) h =
        if_heard limits c.attached
          (record c { dragging = true; last_x = x; last_y = y; active_pointer = some id }) c h h
    camera_event-IsAimed c (pointer_move x y) h =
        if_heard limits c.attached (on_move fl exp limits x y c) c (on_move-IsAimed x y c h) h
    camera_event-IsAimed c pointer_up h =
        if_heard limits c.attached (record c { dragging = false; active_pointer = none }) c h h
    camera_event-IsAimed c (wheel delta_y) h =
        if_heard limits c.attached
          (record c {
            distance =
                clamp_dist fl exp limits
                  (fl.mul c.distance (exp (fl.mul delta_y limits.zoom_speed)));
          })
          c (clamp_between-IsWithin _ _ _ distances, h.1) h

    run_camera-IsAimed :
        (c : Camera) (es : List CameraEvent)
        → IsAimed limits c
        → IsAimed limits (run_camera fl exp limits c es)
    unfolding run_camera
    run_camera-IsAimed c [] h = h
    run_camera-IsAimed c (e ∷ es) h =
        run_camera-IsAimed (camera_event fl exp limits c e) es (camera_event-IsAimed c e h)

    -- With limits in order and a first pitch within them: after any presses, movements, releases,
    -- turns of the wheel and calls, the camera's distance is between the least and the greatest
    -- distance and its pitch between the negative and the positive limit, or the number is NaN.
    pub run_camera-create_camera-IsAimed :
        (yaw pitch distance : Num) (es : List CameraEvent)
        → IsWithin (negate limits.pitch_limit) limits.pitch_limit pitch
        → IsAimed limits
            (run_camera fl exp limits (create_camera fl exp limits yaw pitch distance) es)
    unfolding create_camera clamp_dist
    run_camera-create_camera-IsAimed yaw pitch distance es h =
        run_camera-IsAimed (create_camera fl exp limits yaw pitch distance) es
          (clamp_between-IsWithin _ _ _ distances, h)
