-- ===== src/Atlas.antt =====
-- The sprite atlas (frontend/js/atlas.js): the calls of a canvas context as data, the painters of
-- the cells, and the place of a cell in the texture.
pub mod Icons
pub mod Marker
pub mod Paint
pub mod Origin
pub mod Colours
pub mod Texture
use orbital_viewer.Sky.{lit}
use orbital_viewer.Base.{
  ℕ, zero, suc, ◌+◌, ◌-◌, ◌*◌, ◌/◌, ◌%◌, ◌^◌, ◌≤◌, ◌<◌, min, max, ◌≡◌, refl, sym, ap, ◌∙◌, subst,
  fun_ext, ◌≡⟨◌⟩◌, ◌∎, ◌≢◌, ◌↔◌, ◌⊎◌, inl, inr, Bool, true, false, not, ◌&&◌, ◌||◌, Option, none,
  some, List, [], ◌∷◌, ◌++◌, map, append_assoc, append-nil, arith, ltb, leb, ◌==◌, if◌then◌else◌,
  ltb→lt, lt→ltb, leb→le, ==_iff, tests, Bool-cases, Option-cases, and-true, length, take,
  get_elem?, every, keep, length-append, length-take, length-map, All, All-append, Text, codes,
  ◌===◌, ===_iff, ===_self, lookup, has,
}
use orbital_viewer.Num.{Num, nan, is_nan, lt}

-- A call of the context, or a property of it that is set.
pub data Command : Type 0 where
  save : Command
  restore : Command
  translate : (x y : Num) → Command
  fill_style : (style : Text) → Command
  stroke_style : (style : Text) → Command
  line_width : (width : Num) → Command
  begin_path : Command
  move_to : (x y : Num) → Command
  line_to : (x y : Num) → Command
  arc : (x y radius start end : Num) → Command
  rect : (x y width height : Num) → Command
  bezier_curve_to : (ax ay bx by x y : Num) → Command
  close_path : Command
  fill : Command
  stroke : Command

-- `Math.max(a, b)`
unfoldable pub larger : Num → Num → Num
unfolding lt
larger a b = if is_nan a || is_nan b then nan else if lt a b then b else a

-- The fraction of a cell that is kept empty at each side.
abbrev pub pad : Num
pad = lit 13 2

abbrev pub white : Text
white = codes "rgba(255,255,255,1)"

-- The template `rgba(255,255,255,${alpha})`, with the number as it is printed.
unfoldable pub white_alpha : (alpha : Text) → Text
white_alpha alpha = codes "rgba(255,255,255," ++ alpha ++ codes ")"

-- A path through points: the first by moveTo, the others by lineTo.
unfoldable pub through : List (Num × Num) → List Command
through [] = []
through (p ∷ ps) = move_to p.0 p.1 ∷ map (λ q. line_to q.0 q.1) ps
