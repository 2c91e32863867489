-- ===== src/Renderer/Frame/Order.antt =====
-- frontend/js/renderer.js: the order of the draw calls.
use orbital_viewer.Renderer.Frame.{
  Device, Draw, LineBuffer, PointBuffer, draw_lines, draw_moon, draw_marker, draw_pointset,
  draw_sat, draw_velocity, draw_satellite, draw_sky, draws, globe, lines, points, marker, graticule,
  trail, velocity, star_points, planet_points, object_points, moon_marker, sun_marker, sat_marker,
}
use orbital_viewer.Renderer.Projection.{ActiveView, Surface}
use orbital_viewer.Renderer.SkyBuffers.{SkyBuffers, MoonMark}
use orbital_viewer.Renderer.State.{Scene, SatSprite}
use orbital_viewer.Net.Message.{Vec3}
use orbital_viewer.Base.{
  ℕ, zero, suc, ◌/◌, ◌≤◌, ◌<◌, ◌≡◌, refl, sym, ◌∙◌, subst, Bool, true, false, Option, none, some,
  List, [], ◌∷◌, ◌++◌, append_assoc, append-nil, arith, if◌then◌else◌, length,
}

-- The place of a call in the picture, from the back of the painting to its front.
abbrev pub layer : Draw → ℕ
layer (globe n sun_dir eye has_day has_night) = 0
layer (lines graticule n) = 1
layer (points star_points n) = 2
layer (marker moon_marker at size color use_atlas) = 3
layer (points planet_points n) = 4
layer (marker sun_marker at size color use_atlas) = 5
layer (lines trail n) = 6
layer (points object_points n) = 7
layer (lines velocity n) = 8
layer (marker sat_marker at size color use_atlas) = 9

-- Each call is on a layer of its own, above those before it; the first is at `low` or above, and
-- all are below `top`.
abbrev pub IsLayered : (low top : ℕ) → List Draw → Type 0
IsLayered low top [] = Unit
IsLayered low top (d ∷ ds) = (low ≤ layer d) × (layer d < top) × IsLayered (suc (layer d)) top ds

-- At most one call, on the given layer.
abbrev IsOn : ℕ → List Draw → Type 0
IsOn k [] = Unit
IsOn k (d ∷ []) = layer d ≡ k
IsOn k (d ∷ e ∷ ds) = ⊥

lowered :
    (low low' top : ℕ) (ds : List Draw) → low' ≤ low → IsLayered low top ds → IsLayered low' top ds
lowered low low' top [] h layered = tt
lowered low low' top (d ∷ ds) h (above, below, rest) = (omega (arith, h, above), below, rest)

on_top :
    (k top : ℕ) (xs ds : List Draw)
    → k < top
    → IsOn k xs
    → IsLayered (suc k) top ds
    → IsLayered k top (xs ++ ds)
on_top k top [] ds h on layered = lowered (suc k) k top ds (omega arith) layered
on_top k top (x ∷ []) ds h on layered = (
  omega (arith, on),
  omega (arith, on, h),
  lowered (suc k) (suc (layer x)) top ds (omega (arith, on)) layered,
)
on_top k top (x ∷ y ∷ xs) ds h on layered = absurd on

lines-IsOn :
    (b : LineBuffer) (n k : ℕ) → ((m : ℕ) → layer (lines b m) ≡ k) → IsOn k (draw_lines b n)
unfolding draw_lines
lines-IsOn b zero k h = tt
lines-IsOn b (suc n) k h = h (suc n)

points-IsOn :
    (b : PointBuffer) (n k : ℕ) → ((m : ℕ) → layer (points b m) ≡ k) → IsOn k (draw_pointset b n)
unfolding draw_pointset
points-IsOn b zero k h = tt
points-IsOn b (suc n) k h = h (suc n)

if-IsOn : (b : Bool) (k : ℕ) (xs : List Draw) → IsOn k xs → IsOn k (if b then xs else [])
if-IsOn true k xs h = h
if-IsOn false k xs h = tt

moon-IsOn :
    (surface : Surface) (device : Device) (m : Option MoonMark)
    → IsOn 3 (draw_moon surface device m)
unfolding draw_moon draw_marker
moon-IsOn surface device none = tt
moon-IsOn surface device (some m) = refl

velocity-IsOn : (ends : Option (Vec3 × Vec3)) → IsOn 8 (draw_velocity ends)
unfolding draw_lines
velocity-IsOn none = tt
velocity-IsOn (some ends) = refl

sat-IsOn :
    (surface : Surface) (device : Device) (s : Option SatSprite)
    → IsOn 9 (draw_sat surface device s)
unfolding draw_marker
sat-IsOn surface device none = tt
sat-IsOn surface device (some s) = refl

-- The satellite's own view ends below the layers of the satellite.
abbrev pub top_layer : (fisheye : Bool) → ℕ
top_layer true = 8
top_layer false = 10

seven : (fisheye : Bool) → 7 < top_layer fisheye
seven true = omega arith
seven false = omega arith

satellite-IsLayered :
    (fisheye : Bool) (surface : Surface) (device : Device) (st : Scene SkyBuffers)
    → IsLayered 8 (top_layer fisheye) (draw_satellite fisheye surface device st)
unfolding draw_satellite
satellite-IsLayered true surface device st = tt
satellite-IsLayered false surface device st =
    on_top 8 10 (draw_velocity st.velocity) (draw_sat surface device st.sat) (omega arith)
      (velocity-IsOn st.velocity)
      (subst (IsLayered 9 10) (append-nil (draw_sat surface device st.sat)) (
        on_top 9 10 (draw_sat surface device st.sat) [] (omega arith)
          (sat-IsOn surface device st.sat) tt))

sky-IsLayered :
    (show : Bool) (surface : Surface) (device : Device) (sky : SkyBuffers) (top : ℕ)
    (ds : List Draw)
    → 7 < top
    → IsLayered 5 top ds
    → IsLayered 2 top ((if show then draw_sky surface device sky else []) ++ ds)
unfolding draw_sky
sky-IsLayered false surface device sky top ds h layered = lowered 5 2 top ds (omega arith) layered
sky-IsLayered true surface device sky top ds h layered =
    let stars = draw_pointset star_points device.star_count in
    let moon = draw_moon surface device sky.moon in
    let planets = draw_pointset planet_points sky.planet_count in
    subst (IsLayered 2 top)
      (sym (append_assoc stars moon (planets ++ ds))
        ∙ sym (append_assoc (stars ++ moon) planets ds))
      (on_top 2 top stars (moon ++ (planets ++ ds)) (omega (arith, h))
        (points-IsOn star_points device.star_count 2 (λ m. refl))
        (on_top 3 top moon (planets ++ ds) (omega (arith, h)) (moon-IsOn surface device sky.moon) (
          on_top 4 top planets ds (omega (arith, h))
            (points-IsOn planet_points sky.planet_count 4 (λ m. refl)) layered)))

-- In every state and view a frame draws the globe first and then, each at most once and in this
-- order: the graticule, the stars, the Moon, the planets, the Sun, the trails, the objects, the
-- velocity line and the satellite; the view from the satellite ends with the objects.
pub draws-IsLayered :
    (surface : Surface) (device : Device) (active : ActiveView) (sun_dir : Vec3)
    (st : Scene SkyBuffers)
    → (ds : List Draw) × (draws surface device active sun_dir st
        ≡ globe device.earth_indices sun_dir active.eye device.has_day device.has_night ∷ ds)
      × IsLayered 1 (top_layer active.fisheye) ds
unfolding draws draw_marker
draws-IsLayered surface device active sun_dir st =
    let top = top_layer active.fisheye in
    let high = seven active.fisheye in
    (
      _,
      refl,
      on_top 1 top (draw_lines graticule (device.graticule_floats / 7)) _ (omega (arith, high))
          (lines-IsOn graticule (device.graticule_floats / 7) 1 (λ m. refl))
          (sky-IsLayered st.view.show_sky surface device st.sky top _ high (
            omega arith,
            omega (arith, high),
            (on_top 6 top (if st.view.show_trails then draw_lines trail st.buffer.vertices else [])
                _ (omega (arith, high))
                (if-IsOn st.view.show_trails 6 (draw_lines trail st.buffer.vertices)
                  (lines-IsOn trail st.buffer.vertices 6 (λ m. refl)))
                (on_top 7 top (draw_pointset object_points (length st.sprites)) _ high
                  (points-IsOn object_points (length st.sprites) 7 (λ m. refl))
                  (satellite-IsLayered active.fisheye surface device st))),
          )),
    )
