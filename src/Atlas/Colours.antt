-- ===== src/Atlas/Colours.antt =====
-- Which cells the renderer can tint (frontend/js/atlas.js).
use orbital_viewer.Atlas.Icons.{
  draw_unknown, draw_sky_dot, draw_ground_hot, draw_satellite_glyph, draw_comet, draw_star,
  draw_debris,
}
use orbital_viewer.Atlas.{white_alpha, through, stroke_style, fill_style, Command}
use orbital_viewer.Atlas.Paint.{painters}
use orbital_viewer.Base.{
  ◌≡◌, refl, Bool, true, false, ◌&&◌, ◌||◌, [], ◌∷◌, ◌==◌, every, All, Text, codes,
}
use orbital_viewer.Num.{Num}
use orbital_viewer.Sky.{MathFns}

starts_with : (word : Text) → Text → Bool
starts_with [] s = true
starts_with (c ∷ word) [] = false
starts_with (c ∷ word) (d ∷ s) = c == d && starts_with word s

-- A style that is set is white of some alpha.
unfoldable pub is_white : Command → Bool
unfolding starts_with
is_white (fill_style s) = starts_with (codes "rgba(255,255,255,") s
is_white (stroke_style s) = starts_with (codes "rgba(255,255,255,") s
is_white c = true

-- Every cell but the satellite marker's sets no other colour than white of some alpha, whatever the
-- size of the cells.
pub painters-is_white :
    (fns : MathFns) (px : Num)
    → All (λ p. (p.0 == 5 || every is_white (p.1 fns px)) ≡ true) painters
unfolding painters is_white starts_with draw_debris draw_star draw_comet draw_satellite_glyph
    draw_ground_hot draw_sky_dot draw_unknown through white_alpha
painters-is_white fns px = (refl, (refl, (refl, (refl, (refl, (refl, (refl, (refl, tt))))))))
