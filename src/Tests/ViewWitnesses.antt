-- ===== src/Tests/ViewWitnesses.antt =====
-- Witnesses of the theorems on what the renderer draws, and on the panel's texts.
use orbital_viewer.Renderer.Frame.Order.{draws-IsLayered, IsLayered, top_layer}
use orbital_viewer.Renderer.Frame.{Device, Draw, draws, globe}
use orbital_viewer.Main.Client.{
  Client, ClientEvent, state_arrived, clicked, in_panel, animation, run_client, boot_client,
}
use orbital_viewer.Main.Client.Agreement.{Agree, run_client-boot_client-Agree}
use orbital_viewer.Tests.Samples.{conversions, no_json, working, a_state}
use orbital_viewer.Settings.Store.{Store, create_settings}
use orbital_viewer.Value.{null, end}
use orbital_viewer.Model.{Model}
use orbital_viewer.Ui.{row, changed, port_changed}
use orbital_viewer.Tests.Samples.{fns, a_snapshot, floats, origin, a_row}
use orbital_viewer.Sky.{lit}
use orbital_viewer.Sky.Catalog.{Star, star_catalog}
use orbital_viewer.SatCamera.{FisheyePoint, fisheye_project_ndc, sat_fov_deg}
use orbital_viewer.SatCamera.Depth.{fisheye_project_ndc-IsInRange}
use orbital_viewer.Math3.{dot, vec_sub, occluded_by_sphere, vec_length, identity}
use orbital_viewer.Num.{eq, to_double, lt, Num, whole, nan, le}
use orbital_viewer.Num.Arith.{div, mul, sub, add, negate}
use orbital_viewer.Num.Arith.Bounds.{IsInRange}
use orbital_viewer.Camera.{Camera}
use orbital_viewer.Renderer.Mesh.{build_sphere, quad, loop_rows}
use orbital_viewer.Renderer.Mesh.Whole.{build_sphere_lem}
use orbital_viewer.Renderer.Overlay.{eye_distance, label_list, label_cap}
use orbital_viewer.Renderer.Overlay.Labelled.{label_list_lem, in_front, NotNearer}
use orbital_viewer.Renderer.Scene.{world_from_meters, Sprite, sprite}
use orbital_viewer.Renderer.SkyBuffers.{SkyBuffers, rebuild_sky, empty_sky}
use orbital_viewer.Renderer.SkyBuffers.Rebuilt.{rebuild_sky-rebuild_all, rebuild_all, sky_at}
use orbital_viewer.Renderer.State.{Scene, set_snapshot, frame, create_scene, run_scene}
use orbital_viewer.Renderer.Projection.{
  behind_earth, Surface, Sizes, resize, compute_active_view, floats_of, project_to_screen, pick_at,
  sat_target,
}
use orbital_viewer.Renderer.Projection.Picked.{pick_at_lem, IsPicked, IsFar}
use orbital_viewer.Renderer.Pick.{targets}
use orbital_viewer.Renderer.Frame.{draw_frame, create_device}
use orbital_viewer.Renderer.Frame.Fits.{draw_frame-Fits, Fits}
use orbital_viewer.Ui.Panel.{Panel, PanelEvent, Writing, connection, data_arrived}
use orbital_viewer.Net.Connection.{connecting}
use orbital_viewer.Tests.ClientWitnesses.{a_model}
use mathlib.Core.List.{Perm}
use orbital_viewer.Base.{
  ℕ, ◌*◌, ◌<◌, min, ◌≡◌, refl, ◌⊎◌, true, false, none, some, List, [], ◌∷◌, ◌++◌, arith, length,
  take, All, Text, codes,
}

abbrev kept : Num → Num
kept x = x

abbrev no_date : Text → Num
no_date t = nan

abbrev no_text : Num → Text
no_text x = []

abbrev first_star : List Star
first_star = take 1 star_catalog

build_sphere_lem_example :
    let mesh = build_sphere fns kept (lit 6371 3) 64 96 in
    (length mesh.positions ≡ 3 * (65 * 97))
    × (length mesh.normals ≡ 3 * (65 * 97))
    × (length mesh.uvs ≡ 2 * (65 * 97))
    × (length mesh.indices ≡ 6 * (64 * 96))
    × (mesh.indices ≡ loop_rows (λ i j. quad 97 i j) 96 64 0)
    × All (λ k. k < 65 * 97) mesh.indices
build_sphere_lem_example = build_sphere_lem fns kept (lit 6371 3) 64 96 (omega arith)

fisheye_project_ndc-IsInRange_example :
    (p : FisheyePoint) × (fisheye_project_ndc fns identity origin (whole 2) sat_fov_deg ≡ some p)
    × IsInRange (negate (whole 1)) (whole 1) p.depth
unfolding vec_length lt to_double
fisheye_project_ndc-IsInRange_example =
    fisheye_project_ndc-IsInRange fns identity origin (whole 2) sat_fov_deg refl refl refl

rebuild_sky-rebuild_all_example :
    rebuild_sky fns kept first_star
      (whole 9)
      (rebuild_all fns kept first_star (whole 4 ∷ []) (empty_sky first_star))
    ≡ sky_at fns kept first_star (whole 9)
rebuild_sky-rebuild_all_example =
    rebuild_sky-rebuild_all fns kept first_star (whole 4 ∷ []) (whole 9)

abbrev sprites : List Sprite
sprites = sprite floats a_row ∷ []

label_list_lem_example :
    let labelled = label_list fns origin sprites in
    (length labelled ≡ min label_cap (length (in_front fns origin sprites)))
    × (rest : List Sprite) × Perm (labelled ++ rest) (in_front fns origin sprites)
    × All (λ o. All (NotNearer origin o) rest) labelled
unfolding in_front behind_earth occluded_by_sphere vec_sub dot add sub mul div le lt eq eye_distance
    sprite world_from_meters
label_list_lem_example = label_list_lem fns origin sprites (refl, tt)

abbrev sizes : Sizes
sizes = record {
  pixel_ratio = some (whole 2);
  client_width = whole 800;
  client_height = whole 600;
  width = whole 300;
  height = whole 150;
}

abbrev surface : Surface
surface = resize fns kept sizes

abbrev camera : Camera
camera = record {
  yaw = whole 0;
  pitch = whole 0;
  distance = whole 25;
  dragging = false;
  last_x = whole 0;
  last_y = whole 0;
  active_pointer = none;
  attached = true;
}

-- A scene with an object in it.
abbrev scene : Scene ℕ
scene = record (create_scene (floats_of fns no_date) (λ epoch. 0) (whole 0)) { sprites = sprites }

pick_at_lem_example :
    let active = compute_active_view fns kept no_date scene surface camera in
    let hidden = behind_earth fns active.eye in
    let project = project_to_screen fns surface active in
    let ts = targets active.fisheye (sat_target scene.sat) scene.sprites in
    ((id : Num) × (pick_at fns kept no_date scene surface camera (whole 4) (whole 5) ≡ some id)
      × IsPicked hidden project (whole 4) (whole 5) fns.hypot ts id)
    ⊎ ((pick_at fns kept no_date scene surface camera (whole 4) (whole 5) ≡ none)
        × All (IsFar hidden project (whole 4) (whole 5) fns.hypot) ts)
pick_at_lem_example = pick_at_lem fns kept no_date scene surface camera (whole 4) (whole 5)

draw_frame-Fits_example :
    (last : Scene SkyBuffers) × (run_scene
        (floats_of fns no_date)
        (sky_at fns kept first_star)
        (some (create_scene (floats_of fns no_date) (sky_at fns kept first_star) (whole 0)))
        (set_snapshot (some a_snapshot) (whole 8) ∷ frame (whole 9) ∷ [])
      ≡ some last)
    × All
        (Fits fns kept first_star
          (draw_frame fns kept no_date no_text surface
            (create_device fns kept first_star (whole 64) true false)
            camera
            (whole 10)
            last).state)
        (draw_frame fns kept no_date no_text surface
          (create_device fns kept first_star (whole 64) true false)
          camera
          (whole 10)
          last).calls
draw_frame-Fits_example =
    draw_frame-Fits fns kept first_star no_date no_text surface (whole 64) true false camera
      (whole 0) (whole 10) (set_snapshot (some a_snapshot) (whole 8) ∷ frame (whole 9) ∷ [])

abbrev writing : Writing
writing = record { show = no_text; to_fixed = λ x digits. codes "1"; parse_date = λ t. whole 5 }

abbrev a_panel : Panel
a_panel = record {
  status = [];
  dot = [];
  url = [];
  stats = none;
  sat = none;
  counts = [];
  time = [];
  relative = [];
  stale_hidden = true;
  time_iso = none;
  last_model = none;
}

abbrev a_timed_model : Model
a_timed_model = record a_model {
  last_data_time = some (codes "2026-01-01T00:00:00Z");
  last_applied_at = some (whole 4);
  stats = some end;
}

abbrev panel_events : List PanelEvent
panel_events = connection connecting (codes "ws://h:1/") ∷ data_arrived a_timed_model (whole 7) ∷ []

abbrev client_events : List ClientEvent
client_events =
    state_arrived a_state (whole 3)
    ∷ clicked surface camera (whole 4) (whole 5)
    ∷ in_panel (row (whole 7))
    ∷ in_panel (changed (port_changed (whole 9000)))
    ∷ animation (whole 6)
    ∷ []

abbrev a_store : Store
a_store = create_settings conversions no_json working null

run_client-boot_client-Agree_example :
    (last : Client ℕ) × (run_client fns kept no_date
        (λ epoch. 0)
        conversions
        no_json
        (boot_client fns kept no_date (λ epoch. 0) conversions no_json (whole 0) a_store)
        client_events
      ≡ some last)
    × Agree last
run_client-boot_client-Agree_example =
    run_client-boot_client-Agree fns kept no_date (λ epoch. 0) conversions no_json (whole 0) a_store
      client_events

abbrev a_sky : SkyBuffers
a_sky = record (empty_sky first_star) { planet_count = 5 }

abbrev a_scene : Scene SkyBuffers
a_scene = create_scene (floats_of fns no_date) (λ epoch. a_sky) (whole 0)

abbrev a_device : Device
a_device = create_device fns kept first_star (whole 64) true false

draws-IsLayered_example :
    let active = compute_active_view fns kept no_date a_scene surface camera in
    (ds : List Draw) × (draws surface a_device active origin a_scene
      ≡ globe a_device.earth_indices origin active.eye true false ∷ ds)
    × IsLayered 1 (top_layer active.fisheye) ds
unfolding create_device
draws-IsLayered_example =
    draws-IsLayered surface a_device (compute_active_view fns kept no_date a_scene surface camera)
      origin a_scene
