-- ===== src/Atlas/Origin.antt =====
-- Where the atlas's shapes land (paintAtlas of frontend/js/atlas.js).
use orbital_viewer.Atlas.Marker.{draw_wing, draw_sat_marker}
use orbital_viewer.Atlas.Icons.{
  draw_unknown, draw_sky_dot, draw_ground_hot, draw_satellite_glyph, draw_comet, draw_star,
  draw_debris,
}
use orbital_viewer.Atlas.Paint.{painters, paint_all, paint_atlas}
use mathlib.Core.Bool.{false≢true}
use orbital_viewer.Atlas.{
  through, stroke, fill, close_path, begin_path, bezier_curve_to, rect, arc, line_to, move_to,
  line_width, stroke_style, fill_style, restore, save, translate, Command,
}
use orbital_viewer.Base.{
  ℕ, ◌/◌, ◌%◌, ◌≡◌, refl, sym, ap, ◌∙◌, Bool, true, false, List, [], ◌∷◌, ◌++◌, map, append_assoc,
  and-true, every, All,
}
use orbital_viewer.Num.{Num, whole}
use orbital_viewer.Num.Arith.{add, mul}
use orbital_viewer.Sky.{MathFns}

abbrev pub Point : Type 0
Point = Num × Num

abbrev head_or : Point → List Point → Point
head_or o [] = o
head_or o (p ∷ saved) = p

abbrev tail : List Point → List Point
tail [] = []
tail (p ∷ saved) = saved

-- A canvas draws each call at the current origin: translate moves it, save and restore keep it on a
-- stack, and restore does nothing on an empty stack.
unfoldable pub drawn :
    (origin : Point) → (saved : List Point) → List Command → List (Point × Command)
unfolding add
drawn o saved [] = []
drawn o saved (save ∷ cs) = drawn o (o ∷ saved) cs
drawn o saved (restore ∷ cs) = drawn (head_or o saved) (tail saved) cs
drawn o saved (translate x y ∷ cs) = drawn (add o.0 x, add o.1 y) saved cs
drawn o saved (c ∷ cs) = (o, c) ∷ drawn o saved cs

-- A call that leaves the origin alone.
unfoldable is_shape : Command → Bool
is_shape save = false
is_shape restore = false
is_shape (translate x y) = false
is_shape c = true

drawn-shape :
    (o : Point) (saved : List Point) (c : Command) (cs : List Command)
    → is_shape c ≡ true
    → drawn o saved (c ∷ cs) ≡ (o, c) ∷ drawn o saved cs
unfolding drawn is_shape
drawn-shape o saved save cs h = absurd (false≢true h)
drawn-shape o saved restore cs h = absurd (false≢true h)
drawn-shape o saved (translate x y) cs h = absurd (false≢true h)
drawn-shape o saved (fill_style s) cs h = refl
drawn-shape o saved (stroke_style s) cs h = refl
drawn-shape o saved (line_width w) cs h = refl
drawn-shape o saved begin_path cs h = refl
drawn-shape o saved (move_to x y) cs h = refl
drawn-shape o saved (line_to x y) cs h = refl
drawn-shape o saved (arc x y r a b) cs h = refl
drawn-shape o saved (rect x y w l) cs h = refl
drawn-shape o saved (bezier_curve_to a b c d x y) cs h = refl
drawn-shape o saved close_path cs h = refl
drawn-shape o saved fill cs h = refl
drawn-shape o saved stroke cs h = refl

drawn-shapes :
    (o : Point) (saved : List Point) (cs rest : List Command)
    → every is_shape cs ≡ true
    → drawn o saved (cs ++ rest) ≡ map (λ c. (o, c)) cs ++ drawn o saved rest
drawn-shapes o saved [] rest h = refl
drawn-shapes o saved (c ∷ cs) rest h =
    let (now, later) = and-true (is_shape c) (every is_shape cs) h in
    drawn-shape o saved c (cs ++ rest) now ∙ ap ((o, c) ∷◌) (drawn-shapes o saved cs rest later)

-- The corner of a cell, seen from the origin.
unfoldable pub corner : (origin : Point) → (px : Num) → (index : ℕ) → Point
unfolding add mul
corner o px index = (add o.0 (mul (whole (index % 4)) px), add o.1 (mul (whole (index / 4)) px))

-- The calls of each painter at the corner of its cell.
unfoldable pub in_cells :
    MathFns
    → (origin : Point) → (px : Num) → List (ℕ × (MathFns → Num → List Command))
    → List (Point × Command)
unfolding corner
in_cells fns o px [] = []
in_cells fns o px ((index, paint) ∷ rest) =
    map (λ c. (corner o px index, c)) (paint fns px) ++ in_cells fns o px rest

drawn-paint_all :
    (fns : MathFns) (o : Point) (saved : List Point) (px : Num)
    (ps : List (ℕ × (MathFns → Num → List Command))) (rest : List Command)
    → All (λ p. every is_shape (p.1 fns px) ≡ true) ps
    → drawn o saved (paint_all fns px ps ++ rest) ≡ in_cells fns o px ps ++ drawn o saved rest
unfolding drawn paint_all in_cells corner
drawn-paint_all fns o saved px [] rest all = refl
drawn-paint_all fns o saved px ((index, paint) ∷ ps) rest (now, all) =
    let here = corner o px index in
    let calls = paint fns px in
    ap (drawn here (o ∷ saved)) (append_assoc calls (restore ∷ paint_all fns px ps) rest)
    ∙ drawn-shapes here (o ∷ saved) calls (restore ∷ (paint_all fns px ps ++ rest)) now
    ∙ ap (map (λ c. (here, c)) calls ++◌) (drawn-paint_all fns o saved px ps rest all)
    ∙ sym (append_assoc (map (λ c. (here, c)) calls) (in_cells fns o px ps) (drawn o saved rest))

painters-shapes :
    (fns : MathFns) (px : Num) → All (λ p. every is_shape (p.1 fns px) ≡ true) painters
unfolding painters is_shape draw_debris draw_star draw_comet draw_satellite_glyph draw_ground_hot
    draw_sat_marker draw_wing draw_sky_dot draw_unknown through
painters-shapes fns px = (refl, (refl, (refl, (refl, (refl, (refl, (refl, (refl, tt))))))))

-- For every cell size, origin and stack: the atlas draws the calls of each painter, and no other,
-- at the corner of its own cell, in the order of the cells, and leaves the origin and the stack as
-- they were for what is drawn afterwards.
pub drawn-paint_atlas :
    (fns : MathFns) (o : Point) (saved : List Point) (px : Num) (rest : List Command)
    → drawn o saved (paint_atlas fns px ++ rest) ≡ in_cells fns o px painters ++ drawn o saved rest
unfolding paint_atlas
drawn-paint_atlas fns o saved px rest =
    drawn-paint_all fns o saved px painters rest (painters-shapes fns px)
