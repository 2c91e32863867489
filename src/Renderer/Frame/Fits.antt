-- ===== src/Renderer/Frame/Fits.antt =====
-- frontend/js/renderer.js: the draw calls stay inside the buffers.
use orbital_viewer.Renderer.Frame.{
  compute_active_view, Device, Draw, LineBuffer, PointBuffer, create_device, draw_frame, draw_lines,
  draw_moon, draw_sat, draw_velocity, draw_marker, draw_pointset, draw_satellite, draw_sky, draws,
  earth_r, globe, lines, points, marker, graticule, trail, velocity, star_points, planet_points,
  object_points,
}
use orbital_viewer.Renderer.Mesh.{Mesh, build_graticule, build_sphere}
use orbital_viewer.Renderer.Mesh.Whole.{build_graticule_lem, build_sphere_lem}
use orbital_viewer.Renderer.Projection.{ActiveView, Surface, floats_of}
use orbital_viewer.Renderer.Scene.{
  Floats, View, max_objects, rebuild_object_buffer, rebuild_object_buffer_lem,
}
use orbital_viewer.Renderer.SkyBuffers.{SkyBuffers, MoonMark, planet_cap}
use orbital_viewer.Renderer.SkyBuffers.Rebuilt.{sky_at, sky_at-IsRoomy, five_planets, IsRoomy}
use orbital_viewer.Renderer.State.{Scene, SatSprite, Event, create_scene, run_scene, on_frame}
use orbital_viewer.Renderer.State.Current.{IsCurrent, run_scene-create_scene-IsCurrent}
use orbital_viewer.Sky.{MathFns}
use orbital_viewer.Sky.Catalog.{Star}
use orbital_viewer.Camera.{Camera}
use orbital_viewer.Net.Message.{Vec3}
use orbital_viewer.Model.{Snapshot}
use orbital_viewer.Num.{Num}
use orbital_viewer.Base.{
  ℕ, zero, suc, ◌+◌, ◌*◌, ◌/◌, ◌≤◌, ◌<◌, ◌≡◌, refl, sym, ap, ◌∙◌, subst, inl, inr, Bool, true,
  false, Option, none, some, List, [], ◌∷◌, ◌++◌, arith, if◌then◌else◌, length, All, All-append,
  Text,
}

-- At most 5000 objects are drawn.
object_limit :
    (fl : Floats) (view : View) (snap : Option Snapshot)
    → length (rebuild_object_buffer fl view snap) ≤ max_objects
unfolding rebuild_object_buffer
object_limit fl view none = omega arith
object_limit fl view (some snap) = (rebuild_object_buffer_lem fl view snap).1

module _ (fns : MathFns) (fround : Num → Num) (stars : List Star) where
  -- What a call draws is in the buffer that it draws from: the globe's indices, each of a point of
  -- the mesh, seven numbers for each vertex of a line, three for each star and planet, and one
  -- object for each point. A marker's point is sent with the call.
  unfoldable pub Fits : Scene SkyBuffers → Draw → Type 0
  Fits st (globe n sun_dir eye has_day has_night) =
      let mesh = build_sphere fns fround earth_r 64 96 in
      (n ≤ length mesh.indices) × All (λ k. 3 * k + 3 ≤ length mesh.positions) mesh.indices
  Fits st (lines graticule n) = n * 7 ≤ length (build_graticule fns fround earth_r)
  Fits st (lines trail n) = n * 7 ≤ length st.buffer.written
  Fits st (lines velocity n) = n ≤ 2
  Fits st (points star_points n) = n * 3 ≤ length st.sky.star_pos
  Fits st (points planet_points n) = (n ≤ planet_cap) × (n * 3 ≤ length st.sky.planet_pos)
  Fits st (points object_points n) = (n ≤ length st.sprites) × (n ≤ max_objects)
  Fits st (marker m at size color use_atlas) = Unit

  globe-Fits :
      (st : Scene SkyBuffers) (n : ℕ) (sun_dir eye : Vec3) (has_day has_night : Bool)
      → n ≡ length (build_sphere fns fround earth_r 64 96).indices
      → Fits st (globe n sun_dir eye has_day has_night)
  unfolding Fits
  globe-Fits st n sun_dir eye has_day has_night counted =
      let mesh = build_sphere fns fround earth_r 64 96 in
      let (positions, normals, uvs, count, uncut, below) =
        build_sphere_lem fns fround earth_r 64 96 (omega arith) in
      (omega (arith, counted), inside mesh (65 * 97) positions mesh.indices below)
    where
      inside :
          (mesh : Mesh) (bound : ℕ)
          → length mesh.positions ≡ 3 * bound
          → (is : List ℕ) → All (λ k. k < bound) is
          → All (λ k. 3 * k + 3 ≤ length mesh.positions) is
      inside mesh bound e [] h = tt
      inside mesh bound e (k ∷ is) (now, h) = (omega (arith, e, now), inside mesh bound e is h)

  if-All :
      (st : Scene SkyBuffers) (b : Bool) (ds : List Draw)
      → All (Fits st) ds
      → All (Fits st) (if b then ds else [])
  if-All st true ds h = h
  if-All st false ds h = tt

  lines-Fits :
      (st : Scene SkyBuffers) (b : LineBuffer) (n : ℕ)
      → (1 ≤ n → Fits st (lines b n))
      → All (Fits st) (draw_lines b n)
  unfolding draw_lines
  lines-Fits st b zero h = tt
  lines-Fits st b (suc n) h = (h (omega arith), tt)

  points-Fits :
      (st : Scene SkyBuffers) (b : PointBuffer) (n : ℕ)
      → Fits st (points b n)
      → All (Fits st) (draw_pointset b n)
  unfolding draw_pointset
  points-Fits st b zero h = tt
  points-Fits st b (suc n) h = (h, tt)

  moon-Fits :
      (st : Scene SkyBuffers) (surface : Surface) (device : Device) (moon : Option MoonMark)
      → All (Fits st) (draw_moon surface device moon)
  unfolding draw_moon draw_marker Fits
  moon-Fits st surface device none = tt
  moon-Fits st surface device (some m) = (tt, tt)

  velocity-Fits :
      (st : Scene SkyBuffers) (ends : Option (Vec3 × Vec3)) → All (Fits st) (draw_velocity ends)
  unfolding draw_lines Fits
  velocity-Fits st none = tt
  velocity-Fits st (some ends) = (omega arith, tt)

  sat-Fits :
      (st : Scene SkyBuffers) (surface : Surface) (device : Device) (s : Option SatSprite)
      → All (Fits st) (draw_sat surface device s)
  unfolding draw_marker Fits
  sat-Fits st surface device none = tt
  sat-Fits st surface device (some s) = (tt, tt)

  satellite-Fits :
      (st : Scene SkyBuffers) (surface : Surface) (device : Device) (fisheye : Bool)
      → All (Fits st) (draw_satellite fisheye surface device st)
  unfolding draw_satellite
  satellite-Fits st surface device true = tt
  satellite-Fits st surface device false =
      All-append (Fits st) (draw_velocity st.velocity) (draw_sat surface device st.sat)
        (velocity-Fits st st.velocity) (sat-Fits st surface device st.sat)

  ticked :
      (fl : Floats) (now : Num) (st : Scene SkyBuffers)
      → IsCurrent fl (sky_at fns fround stars) st
      → IsCurrent fl (sky_at fns fround stars) (on_frame now st)
  unfolding on_frame
  ticked fl now st h = record {
    sprites = h.sprites;
    sat = h.sat;
    velocity = h.velocity;
    sky = h.sky;
    room = h.room;
    drawn = h.drawn;
  }

  module _ (fl : Floats) (st : Scene SkyBuffers)
      (current : IsCurrent fl (sky_at fns fround stars) st) where
    trail-Fits : 1 ≤ st.buffer.vertices → Fits st (lines trail st.buffer.vertices)
    unfolding Fits
    trail-Fits drawn = elim current.drawn [
      | inl nothing ↦ absurd (omega (arith, nothing, drawn))
      | inr (same, room) ↦ omega (arith, same)
    ]

    objects-Fits : Fits st (points object_points (length st.sprites))
    unfolding Fits
    objects-Fits =
        (omega arith, omega (arith, ap length current.sprites, object_limit fl st.view st.snapshot))

    sky-Fits :
        (surface : Surface) (device : Device)
        → device.star_count ≡ length stars
        → All (Fits st) (draw_sky surface device st.sky)
    unfolding draw_sky Fits sky_at
    sky-Fits surface device counted =
        let room =
          subst (IsRoomy fns fround stars) (sym current.sky)
            (sky_at-IsRoomy fns fround stars st.epoch) in
        let five =
          ap (λ (s : SkyBuffers). s.planet_count) current.sky
          ∙ five_planets fns fround stars st.epoch in
        All-append (Fits st)
          (draw_pointset star_points device.star_count ++ draw_moon surface device st.sky.moon)
          (draw_pointset planet_points st.sky.planet_count)
          (All-append (Fits st) (draw_pointset star_points device.star_count)
            (draw_moon surface device st.sky.moon)
            (points-Fits st star_points device.star_count (omega (arith, counted, room.star)))
            (moon-Fits st surface device st.sky.moon))
          (points-Fits st planet_points st.sky.planet_count
            (omega (arith, five), omega (arith, five, room.pos)))

    draws-Fits :
        (surface : Surface) (device : Device) (active : ActiveView) (sun_dir : Vec3)
        → device.star_count ≡ length stars
        → device.earth_indices ≡ length (build_sphere fns fround earth_r 64 96).indices
        → device.graticule_floats ≡ length (build_graticule fns fround earth_r)
        → All (Fits st) (draws surface device active sun_dir st)
    unfolding draws draw_marker Fits
    draws-Fits surface device active sun_dir counted whole_globe measured =
        let size = build_graticule_lem fns fround earth_r in
        (
          globe-Fits st device.earth_indices sun_dir active.eye device.has_day device.has_night
              whole_globe,
          All-append (Fits st) (draw_lines graticule (device.graticule_floats / 7)) _
              (lines-Fits st graticule (device.graticule_floats / 7)
                (λ _. omega (arith, measured, size)))
              (All-append (Fits st)
                (if st.view.show_sky then draw_sky surface device st.sky else []) _
                (if-All st st.view.show_sky (draw_sky surface device st.sky)
                  (sky-Fits surface device counted))
                (
                  tt,
                  All-append (Fits st)
                      (if st.view.show_trails then draw_lines trail st.buffer.vertices else []) _
                      (if-All st st.view.show_trails (draw_lines trail st.buffer.vertices)
                        (lines-Fits st trail st.buffer.vertices trail-Fits))
                      (All-append (Fits st) (draw_pointset object_points (length st.sprites)) _
                        (points-Fits st object_points (length st.sprites) objects-Fits)
                        (satellite-Fits st surface device active.fisheye)),
                )),
        )

  -- After any calls of the renderer's methods, in any order, a frame draws no vertex that its buffer
  -- does not have, whatever the view, the canvas and the graphics card: all indices of the globe are
  -- there and are those of points of its mesh, and there are seven numbers for each vertex of the
  -- graticule and of the trails that were written, three for each star and planet, and one of at most
  -- 5000 objects for each of their points.
  pub draw_frame-Fits :
      (parse_date : Text → Num) (show : Num → Text) (surface : Surface) (max_point_size : Num)
      (has_day has_night : Bool) (camera : Camera) (date_now now : Num) (events : List Event)
      → (last : Scene SkyBuffers) × (run_scene
            (floats_of fns parse_date)
            (sky_at fns fround stars)
            (some (create_scene (floats_of fns parse_date) (sky_at fns fround stars) date_now))
            events
          ≡ some last)
        × All
            (Fits
              (draw_frame fns fround parse_date show surface
                (create_device fns fround stars max_point_size has_day has_night)
                camera
                now
                last).state)
            (draw_frame fns fround parse_date show surface
              (create_device fns fround stars max_point_size has_day has_night)
              camera
              now
              last).calls
  unfolding draw_frame create_device
  draw_frame-Fits parse_date show surface max_point_size has_day has_night camera date_now now
        events =
      let fl = floats_of fns parse_date in
      let (last, ran, current) =
        run_scene-create_scene-IsCurrent fl (sky_at fns fround stars) date_now events in
      (
        last,
        ran,
        draws-Fits fl (on_frame now last) (ticked fl now last current) surface
            (create_device fns fround stars max_point_size has_day has_night)
            (compute_active_view fns fround parse_date last surface camera) _ refl refl refl,
      )
