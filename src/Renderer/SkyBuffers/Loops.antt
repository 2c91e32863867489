-- ===== src/Renderer/SkyBuffers/Loops.antt =====
-- frontend/js/renderer.js: the loops of rebuildSky, each in one piece.
use orbital_viewer.Renderer.SkyBuffers.{
  SkyBuffers, PlanetMark, put_planet, put_planets, planet_cap, planet_position, planet_color,
  planet_size_for_mag, on_shell, scale_stars, sky_dist,
}
use orbital_viewer.Num.Arrays.{read, read-append, set_at, set_at-append, write_from}
use orbital_viewer.Num.Arith.{mul}
use orbital_viewer.Sky.Planets.{Planet}
use orbital_viewer.Num.{Num}
use mathlib.Core.Bool.{false≢true}
use orbital_viewer.Base.{
  ℕ, ◌+◌, ◌*◌, ◌≤◌, ◌≡◌, refl, sym, ap, ◌∙◌, Bool, true, false, List, [], ◌∷◌, ◌++◌, map,
  append_assoc, append-nil, arith, ltb, if◌then◌else◌, length, length-append,
}

module _ (fround : Num → Num) where
  unfoldable pub positions : List Planet → List Num
  unfolding planet_position
  positions [] = []
  positions (p ∷ ps) = planet_position fround p ++ positions ps

  unfoldable pub colors : List Planet → List Num
  unfolding planet_color
  colors [] = []
  colors (p ∷ ps) = planet_color fround p ++ colors ps

  unfoldable pub sizes : List Planet → List Num
  sizes [] = []
  sizes (p ∷ ps) = fround (planet_size_for_mag p.mag) ∷ sizes ps

  unfoldable pub marks : List Planet → List PlanetMark
  marks [] = []
  marks (p ∷ ps) = record { name = p.name; at = on_shell p.dir } ∷ marks ps

  -- The buffers with other planets.
  abbrev pub placed :
      SkyBuffers → (pos col size : List Num) (count : ℕ) (render : List PlanetMark) → SkyBuffers
  placed sky pos col size count render = record sky {
    planet_pos = pos;
    planet_col = col;
    planet_size = size;
    planet_count = count;
    planet_render = render;
  }

  placed_cong :
      (sky : SkyBuffers) (size : List Num) {pos pos' col col' : List Num} {n n' : ℕ}
      {render render' : List PlanetMark}
      → pos ≡ pos'
      → col ≡ col'
      → n ≡ n'
      → render ≡ render'
      → placed sky pos col size n render ≡ placed sky pos' col' size n' render'
  placed_cong sky size e f h k = cc

  -- A turn is taken while there is room.
  taken : (b : Bool) (x y : SkyBuffers) → b ≡ true → (if b then x else y) ≡ x
  taken true x y h = refl
  taken false x y h = absurd (false≢true h)

  -- The loop over the planets, in one piece.
  pub put_planets-placed :
      (ps : List Planet) (sky : SkyBuffers)
      → sky.planet_count + length ps ≤ planet_cap
      → put_planets fround ps sky
        ≡ placed sky
            (write_from (positions ps) (sky.planet_count * 3) sky.planet_pos)
            (write_from (colors ps) (sky.planet_count * 3) sky.planet_col)
            (write_from (sizes ps) sky.planet_count sky.planet_size)
            (sky.planet_count + length ps)
            (sky.planet_render ++ marks ps)
  unfolding put_planets put_planet positions colors sizes marks write_from planet_position
      planet_color
  put_planets-placed [] sky room =
      placed_cong sky sky.planet_size refl refl (omega arith) (sym (append-nil sky.planet_render))
  put_planets-placed (p ∷ ps) sky room =
      let n = sky.planet_count in
      let next = put_planet fround p sky in
      let place : (n + 1) * 3 ≡ n * 3 + 1 + 1 + 1 = omega arith in
      let free : ltb n planet_cap ≡ true = ground (arith, room) in
      taken (ltb n planet_cap) (put_planets fround ps next) sky free
      ∙ put_planets-placed ps next (omega (arith, room))
      ∙ placed_cong sky (write_from (sizes ps) (n + 1) next.planet_size)
          (ap (λ k. write_from (positions ps) k next.planet_pos) place)
          (ap (λ k. write_from (colors ps) k next.planet_col) place) (omega arith)
          (append_assoc sky.planet_render (record { name = p.name; at = on_shell p.dir } ∷ [])
            (marks ps))

  -- A number of a star's direction on the shell.
  abbrev pub scaled : Num → Num
  scaled x = fround (mul x sky_dist)

  pub scale_stars-behind :
      (unit before done out : List Num) (i : ℕ)
      → i ≡ length before
      → i ≡ length done
      → length out ≡ length unit
      → scale_stars fround (before ++ unit) (length unit) i (done ++ out) ≡ done ++ map scaled unit
  unfolding scale_stars set_at
  scale_stars-behind [] before done [] i h k r = refl
  scale_stars-behind [] before done (y ∷ out) i h k r = absurd (omega (arith, r))
  scale_stars-behind (x ∷ unit) before done [] i h k r = absurd (omega (arith, r))
  scale_stars-behind (x ∷ unit) before done (y ∷ out) i h k r =
      let step : set_at i (scaled (read (before ++ (x ∷ unit)) i)) (done ++ (y ∷ out))
          ≡ (done ++ (scaled x ∷ [])) ++ out =
        ap (λ v. set_at i (scaled v) (done ++ (y ∷ out)))
          (read-append before (x ∷ unit) 0 i (omega (arith, h)))
        ∙ set_at-append (scaled x) done (y ∷ out) 0 i (omega (arith, k))
        ∙ sym (append_assoc done (scaled x ∷ []) out) in
      let loop = λ (e : List Num) (o : List Num). scale_stars fround e (length unit) (i + 1) o in
      ap (loop (before ++ (x ∷ unit))) step
      ∙ ap (λ e. loop e ((done ++ (scaled x ∷ [])) ++ out))
          (sym (append_assoc before (x ∷ []) unit))
      ∙ scale_stars-behind unit (before ++ (x ∷ [])) (done ++ (scaled x ∷ [])) out (i + 1)
          (omega (arith, h, length-append before (x ∷ [])))
          (omega (arith, k, length-append done (scaled x ∷ []))) (omega (arith, r))
      ∙ append_assoc done (scaled x ∷ []) (map scaled unit)
