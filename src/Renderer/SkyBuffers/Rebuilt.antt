-- ===== src/Renderer/SkyBuffers/Rebuilt.antt =====
-- frontend/js/renderer.js: what rebuildSky leaves in the buffers.
use orbital_viewer.Renderer.SkyBuffers.Loops.{
  positions, colors, sizes, marks, placed, put_planets-placed, scale_stars-behind, scaled,
}
use orbital_viewer.Math3.{zeros}
use orbital_viewer.Renderer.SkyBuffers.{
  rebuild_sky, empty_sky, SkyBuffers, PlanetMark, put_planets, planet_cap, planet_position,
  planet_color, scale_stars, moon_mark, put_stars,
}
use orbital_viewer.Num.Arrays.{write_from-whole}
use orbital_viewer.Sky.Stars.{stars_ecef_into, elements}
use orbital_viewer.Sky.Stars.Turned.{turned, stars_ecef_into-turned}
use orbital_viewer.Sky.Planets.{Planet, planets_ecef}
use orbital_viewer.Sky.{MathFns, gmst_rad}
use orbital_viewer.Sky.Catalog.{Star}
use orbital_viewer.Num.{Num}
use orbital_viewer.Base.{
  ℕ, zero, suc, ◌*◌, ◌≡◌, refl, sym, ap, ◌∙◌, subst, some, List, [], ◌∷◌, map, append-nil, arith,
  length, length-map,
}

length-turned :
    (fns : MathFns) (fround store : Num → Num) (g : Num) (stars : List Star)
    → length (turned fns fround store g stars) ≡ length stars * 3
unfolding turned elements
length-turned fns fround store g [] = refl
length-turned fns fround store g (s ∷ stars) = omega (arith, length-turned fns fround store g stars)

module _ (fns : MathFns) (fround : Num → Num) (stars : List Star) where
  -- The sky at a time, each body put on the shell on its own: what there is to see.
  unfoldable pub sky_at : (epoch : Num) → SkyBuffers
  unfolding turned positions colors sizes marks
  sky_at epoch =
      let unit = turned fns fround fround (gmst_rad fns epoch) stars in
      let planets = planets_ecef fns epoch in
      record {
        star_unit = unit;
        star_pos = map (scaled fround) unit;
        planet_pos = positions fround planets;
        planet_col = colors fround planets;
        planet_size = sizes fround planets;
        planet_count = length planets;
        planet_render = marks fround planets;
        moon = some (moon_mark fns epoch);
      }

  -- The arrays have the lengths that createRenderer gave them.
  pub record IsRoomy (sky : SkyBuffers) : Type 0 where
    pub unit : length sky.star_unit ≡ length stars * 3
    pub star : length sky.star_pos ≡ length stars * 3
    pub pos : length sky.planet_pos ≡ planet_cap * 3
    pub col : length sky.planet_col ≡ planet_cap * 3
    pub size : length sky.planet_size ≡ planet_cap

  put_stars-turned :
      (epoch : Num) (sky : SkyBuffers)
      → IsRoomy sky
      → let unit = turned fns fround fround (gmst_rad fns epoch) stars in
        put_stars fns fround stars epoch sky
        ≡ record sky { star_unit = unit; star_pos = map (scaled fround) unit }
  unfolding put_stars
  put_stars-turned epoch sky room =
      let unit = turned fns fround fround (gmst_rad fns epoch) stars in
      let written : (stars_ecef_into fns fround fround stars epoch sky.star_unit).0 ≡ unit =
        ap (λ o. (stars_ecef_into fns fround fround stars epoch o).0)
          (sym (append-nil sky.star_unit))
        ∙ ap (λ (p : List Num × ℕ). p.0)
            (stars_ecef_into-turned fns fround fround stars epoch sky.star_unit [] room.unit)
        ∙ append-nil unit in
      let size = length-turned fns fround fround (gmst_rad fns epoch) stars in
      let scaled_all : scale_stars fround unit (length stars * 3) 0 sky.star_pos
          ≡ map (scaled fround) unit =
        ap (λ k. scale_stars fround unit k 0 sky.star_pos) (sym size)
        ∙ scale_stars-behind fround unit [] [] sky.star_pos 0 refl refl
            (omega (arith, room.star, size)) in
      ap
        (λ u. record sky {
          star_unit = u;
          star_pos = scale_stars fround u (length stars * 3) 0 sky.star_pos;
        })
        written
      ∙ ap (λ p. record sky { star_unit = unit; star_pos = p }) scaled_all

  pub five_planets : (epoch : Num) → length (planets_ecef fns epoch) ≡ planet_cap
  unfolding planets_ecef
  five_planets epoch = refl

  length-positions : (ps : List Planet) → length (positions fround ps) ≡ length ps * 3
  unfolding positions planet_position
  length-positions [] = refl
  length-positions (p ∷ ps) = omega (arith, length-positions ps)

  length-colors : (ps : List Planet) → length (colors fround ps) ≡ length ps * 3
  unfolding colors planet_color
  length-colors [] = refl
  length-colors (p ∷ ps) = omega (arith, length-colors ps)

  length-sizes : (ps : List Planet) → length (sizes fround ps) ≡ length ps
  unfolding sizes
  length-sizes [] = refl
  length-sizes (p ∷ ps) = omega (arith, length-sizes ps)

  pub sky_at-IsRoomy : (epoch : Num) → IsRoomy (sky_at epoch)
  unfolding sky_at
  sky_at-IsRoomy epoch =
      let unit = turned fns fround fround (gmst_rad fns epoch) stars in
      let size = length-turned fns fround fround (gmst_rad fns epoch) stars in
      let five = five_planets epoch in
      record {
        unit = size;
        star = length-map unit (scaled fround) ∙ size;
        pos = omega (arith, length-positions (planets_ecef fns epoch), five);
        col = omega (arith, length-colors (planets_ecef fns epoch), five);
        size = length-sizes (planets_ecef fns epoch) ∙ five;
      }

  rebuild_sky-sky_at :
      (epoch : Num) (sky : SkyBuffers)
      → IsRoomy sky
      → rebuild_sky fns fround stars epoch sky ≡ sky_at epoch
  unfolding rebuild_sky sky_at
  rebuild_sky-sky_at epoch sky room =
      let planets = planets_ecef fns epoch in
      let five = five_planets epoch in
      let unit = turned fns fround fround (gmst_rad fns epoch) stars in
      let cleared : SkyBuffers = record sky {
        star_unit = unit;
        star_pos = map (scaled fround) unit;
        planet_render = [];
        planet_count = 0;
      } in
      ap
        (λ (s : SkyBuffers).
          record (put_planets fround planets (record s { planet_render = []; planet_count = 0 })) {
            moon = some (moon_mark fns epoch);
          })
        (put_stars-turned epoch sky room)
      ∙ ap (λ (s : SkyBuffers). record s { moon = some (moon_mark fns epoch) })
          (put_planets-placed fround planets cleared (omega (arith, five)))
      ∙ three_arrays (record cleared { moon = some (moon_mark fns epoch) }) (length planets)
          (marks fround planets)
          (write_from-whole (positions fround planets) sky.planet_pos
            (omega (arith, room.pos, length-positions planets, five)))
          (write_from-whole (colors fround planets) sky.planet_col
            (omega (arith, room.col, length-colors planets, five)))
          (write_from-whole (sizes fround planets) sky.planet_size
            (omega (arith, room.size, length-sizes planets, five)))
    where
      three_arrays :
          (base : SkyBuffers) (n : ℕ) (render : List PlanetMark)
          {pos pos' col col' size size' : List Num}
          → pos ≡ pos'
          → col ≡ col'
          → size ≡ size'
          → placed fround base pos col size n render ≡ placed fround base pos' col' size' n render
      three_arrays base n render e f g = cc

  length-zeros : (n : ℕ) → length (zeros n) ≡ n
  unfolding zeros
  length-zeros zero = refl
  length-zeros (suc n) = ap suc (length-zeros n)

  empty_sky-IsRoomy : IsRoomy (empty_sky stars)
  unfolding empty_sky
  empty_sky-IsRoomy = record {
    unit = length-zeros (length stars * 3);
    star = length-zeros (length stars * 3);
    pos = length-zeros (planet_cap * 3);
    col = length-zeros (planet_cap * 3);
    size = length-zeros planet_cap;
  }

  -- The calls of rebuildSky, one after the other.
  unfoldable pub rebuild_all : List Num → SkyBuffers → SkyBuffers
  unfolding rebuild_sky
  rebuild_all [] sky = sky
  rebuild_all (epoch ∷ rest) sky = rebuild_all rest (rebuild_sky fns fround stars epoch sky)

  rebuild_all-IsRoomy :
      (epochs : List Num) (sky : SkyBuffers) → IsRoomy sky → IsRoomy (rebuild_all epochs sky)
  unfolding rebuild_all
  rebuild_all-IsRoomy [] sky room = room
  rebuild_all-IsRoomy (epoch ∷ rest) sky room =
      rebuild_all-IsRoomy rest (rebuild_sky fns fround stars epoch sky)
        (subst IsRoomy (sym (rebuild_sky-sky_at epoch sky room)) (sky_at-IsRoomy epoch))

  -- However often the sky was rebuilt in the arrays that createRenderer made, after one more call
  -- the arrays, the labels and the Moon are those of its epoch alone, each body put on the shell on
  -- its own: nothing of an earlier epoch stays and nothing is cut off.
  pub rebuild_sky-rebuild_all :
      (epochs : List Num) (epoch : Num)
      → rebuild_sky fns fround stars epoch (rebuild_all epochs (empty_sky stars)) ≡ sky_at epoch
  rebuild_sky-rebuild_all epochs epoch =
      rebuild_sky-sky_at epoch (rebuild_all epochs (empty_sky stars))
        (rebuild_all-IsRoomy epochs (empty_sky stars) empty_sky-IsRoomy)
