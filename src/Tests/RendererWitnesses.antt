-- ===== src/Tests/RendererWitnesses.antt =====
-- Witnesses of the theorems on the renderer and the camera.
use orbital_viewer.Renderer.State.Current.{run_scene-create_scene-IsCurrent, IsCurrent}
use orbital_viewer.Value.{null}
use orbital_viewer.Renderer.State.{
  create_scene, run_scene, Event, Scene, set_snapshot, set_settings, set_selected, frame,
}
use orbital_viewer.Renderer.TrailBuffer.Passes.{rebuild_trail_buffer_lem}
use orbital_viewer.Tests.Samples.{a_view, a_row, a_snapshot, floats, origin}
use orbital_viewer.Renderer.TrailBuffer.{rebuild_trail_buffer, Buffer}
use orbital_viewer.Renderer.Trails.Bounded.{append_trails-run_trails, run_trails, IsBounded}
use orbital_viewer.Num.Arith.{negate}
use orbital_viewer.Camera.{wheel, pointer_move, pointer_down, create_camera, run_camera, Limits}
use orbital_viewer.Camera.Aim.{IsWithin, run_camera-create_camera-IsAimed, IsAimed}
use orbital_viewer.Renderer.Scene.{
  world_from_meters, rebuild_object_buffer_lem, max_objects, sprite, Sprite, rebuild_object_buffer,
}
use orbital_viewer.Num.{le, lt, whole, Num}
use orbital_viewer.Renderer.Trails.{append_trails, is_fresh, Trails}
use orbital_viewer.Renderer.Pick.{
  improves, weigh, consider, consider_all, targets, distance, Optics, pick,
}
use orbital_viewer.Base.{
  ◌*◌, ◌≤◌, ◌≡◌, refl, ◌⊎◌, inl, true, false, none, some, List, [], ◌∷◌, map, arith, length, take,
  keep, All,
}

append_trails-run_trails_example :
    All
      (λ kt. IsBounded kt.1 × (is_fresh floats (whole 9) kt.1 ≡ true))
      (append_trails floats (whole 9) a_snapshot (run_trails floats ((a_snapshot, whole 8) ∷ [])))
append_trails-run_trails_example =
    append_trails-run_trails floats ((a_snapshot, whole 8) ∷ []) a_snapshot (whole 9)

abbrev first_buffer : Buffer
first_buffer = record { capacity = 4096; written = []; vertices = 0 }

abbrev some_trails : Trails
some_trails = run_trails floats ((a_snapshot, whole 9) ∷ (a_snapshot, whole 8) ∷ [])

rebuild_trail_buffer_lem_example :
    (b : Buffer) × (rebuild_trail_buffer floats a_view (whole 9) some_trails first_buffer ≡ some b)
    × (4096 ≤ b.capacity)
    × (b.vertices ≡ 0 ⊎ ((length b.written ≡ b.vertices * 7) × (length b.written ≤ b.capacity)))
rebuild_trail_buffer_lem_example =
    rebuild_trail_buffer_lem floats a_view (whole 9) some_trails first_buffer (omega arith)

rebuild_object_buffer_lem_example :
    (rebuild_object_buffer floats a_view (some a_snapshot)
      ≡ map (sprite floats) (take max_objects (keep (λ o. a_view.shown o.cat) a_snapshot.objects)))
    × (length (rebuild_object_buffer floats a_view (some a_snapshot)) ≤ max_objects)
rebuild_object_buffer_lem_example = rebuild_object_buffer_lem floats a_view a_snapshot

abbrev optics : Optics
optics = record { occluded = λ p. false; project = λ p. some (p.x, p.y); eye = origin }

abbrev sprites : List Sprite
sprites = sprite floats a_row ∷ []

picks : pick floats optics (whole 1) (whole 2) true none sprites ≡ some (whole 7)
unfolding pick targets consider_all consider distance weigh improves sprite world_from_meters lt
picks = refl

abbrev blocked : Optics
blocked = record optics { occluded = λ p. true }

picks_none : pick floats blocked (whole 1) (whole 2) true none sprites ≡ none
unfolding pick targets consider_all consider distance weigh
picks_none = refl

abbrev limits : Limits
limits = record {
  min_distance = whole 8;
  max_distance = whole 200;
  rotate_speed = whole 1;
  zoom_speed = whole 1;
  pitch_limit = whole 1;
}

in_order : le (whole 8) (whole 200) ≡ true
unfolding le
in_order = refl

around_zero : le (negate (whole 1)) (whole 1) ≡ true
unfolding le
around_zero = refl

level : IsWithin (negate (whole 1)) (whole 1) (whole 0)
unfolding le
level = inl (refl, refl)

run_camera-create_camera-IsAimed_example : IsAimed limits (
    run_camera floats
      (λ x. x)
      limits
      (create_camera floats (λ x. x) limits (whole 0) (whole 0) (whole 25))
      (pointer_down 1 (whole 0) (whole 0)
        ∷ pointer_move (whole 5) (whole 5)
        ∷ wheel (whole 3)
        ∷ []))
run_camera-create_camera-IsAimed_example =
    run_camera-create_camera-IsAimed floats (λ x. x) limits in_order around_zero (whole 0) (whole 0)
      (whole 25)
      (pointer_down 1 (whole 0) (whole 0) ∷ pointer_move (whole 5) (whole 5) ∷ wheel (whole 3) ∷ [])
      level

abbrev some_calls : List Event
some_calls =
    set_snapshot (some a_snapshot) (whole 9)
    ∷ set_settings null
    ∷ frame (whole 10)
    ∷ set_selected (some (whole 7))
    ∷ []

run_scene-create_scene-IsCurrent_example :
    (last : Scene Num) × (run_scene floats
        (floats.add (whole 1))
        (some (create_scene floats (floats.add (whole 1)) (whole 5)))
        some_calls
      ≡ some last)
    × IsCurrent floats (floats.add (whole 1)) last
run_scene-create_scene-IsCurrent_example =
    run_scene-create_scene-IsCurrent floats (floats.add (whole 1)) (whole 5) some_calls
