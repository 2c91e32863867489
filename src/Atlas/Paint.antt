-- ===== src/Atlas/Paint.antt =====
-- All cells of the atlas (PAINTERS, paintAtlas and iconUV of frontend/js/atlas.js).
use orbital_viewer.Atlas.Marker.{draw_sat_marker}
use orbital_viewer.Atlas.{restore, translate, save, Command}
use orbital_viewer.Atlas.Icons.{
  draw_unknown, draw_sky_dot, draw_ground_hot, draw_satellite_glyph, draw_comet, draw_star,
  draw_debris,
}
use orbital_viewer.Base.{
  ℕ, ◌+◌, ◌/◌, ◌%◌, ◌^◌, Bool, false, not, ◌||◌, Option, none, some, List, [], ◌∷◌, ◌++◌, ◌==◌,
  if◌then◌else◌,
}
use orbital_viewer.Num.{fin, lt, Num, whole}
use orbital_viewer.Num.Arith.{add, sub, mul, div}
use orbital_viewer.Sky.{MathFns, lit}

-- The painters by the index of their cell, ascending.
unfoldable pub painters : List (ℕ × (MathFns → Num → List Command))
unfolding draw_debris draw_star draw_comet draw_satellite_glyph draw_ground_hot draw_sat_marker
    draw_sky_dot draw_unknown
painters =
    (0, draw_debris)
    ∷ (1, draw_star)
    ∷ (2, draw_comet)
    ∷ (3, draw_satellite_glyph)
    ∷ (4, draw_ground_hot)
    ∷ (5, draw_sat_marker)
    ∷ (6, draw_sky_dot)
    ∷ (7, draw_unknown)
    ∷ []

unfoldable pub paint_all :
    MathFns → (px : Num) → List (ℕ × (MathFns → Num → List Command)) → List Command
unfolding mul
paint_all fns px [] = []
paint_all fns px ((index, paint) ∷ rest) =
    let col = index % 4 in
    let row = index / 4 in
    save
    ∷ translate (mul (whole col) px) (mul (whole row) px)
    ∷ (paint fns px ++ (restore ∷ paint_all fns px rest))

-- `paintAtlas(ctx, cellPx)`
unfoldable pub paint_atlas : MathFns → (px : Num) → List Command
unfolding painters paint_all
paint_atlas fns px = paint_all fns px painters

pub record UvRect : Type 0 where
  pub u0 : Num
  pub v0 : Num
  pub u1 : Num
  pub v1 : Num

-- The edges of the part of a cell that is shown, along one axis.
unfoldable pub low_edge : ℕ → Num
unfolding add mul div
low_edge k = let cell = div (whole 1) (whole 4) in add (mul (whole k) cell) (mul cell (lit 4 2))

unfoldable pub high_edge : ℕ → Num
unfolding sub mul div
high_edge k =
    let cell = div (whole 1) (whole 4) in sub (mul (whole (k + 1)) cell) (mul cell (lit 4 2))

-- `Number.isInteger(index)`
unfoldable pub is_integer : Num → Bool
is_integer (fin s n k) = n % 2 ^ k == 0
is_integer _ = false

-- A whole number without its sign.
unfoldable pub magnitude : Num → ℕ
magnitude (fin s n k) = n / 2 ^ k
magnitude _ = 0

-- The guard of `iconUV`.
unfoldable pub is_refused : (index : Num) → Bool
unfolding is_integer lt
is_refused index = not (is_integer index) || lt index (whole 0) || lt (whole 15) index

-- `iconUV(index)`; `none` is the RangeError. The guard lets whole numbers from 0 to 15 through, whose
-- remainder and rounded quotient by 4 are those of natural numbers.
unfoldable pub icon_uv : (index : Num) → Option UvRect
unfolding is_refused magnitude low_edge high_edge
icon_uv index =
    let col = magnitude index % 4 in
    let row = magnitude index / 4 in
    if is_refused index
    then none
    else some
        (record { u0 = low_edge col; v0 = low_edge row; u1 = high_edge col; v1 = high_edge row })
