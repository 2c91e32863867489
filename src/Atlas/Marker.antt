-- ===== src/Atlas/Marker.antt =====
-- The full-colour satellite marker (drawSatMarker of frontend/js/atlas.js).
use orbital_viewer.Atlas.{
  stroke, fill, rect, begin_path, line_width, line_to, stroke_style, move_to, fill_style, Command,
  larger,
}
use orbital_viewer.Base.{ℕ, zero, suc, ◌+◌, List, [], ◌∷◌, ◌++◌, Text, codes}
use orbital_viewer.Num.{Num, whole}
use orbital_viewer.Num.Arith.{add, sub, mul, div}
use orbital_viewer.Sky.{MathFns, lit}

abbrev outline : Text
outline = codes "rgba(255,255,255,0.85)"

-- The grid lines of a panel across its width: columns i on.
unfoldable columns : (x y width height : Num) → (left i : ℕ) → List Command
unfolding add mul div
columns x y width height zero i = []
columns x y width height (suc left) i =
    let gx = add x (div (mul width (whole i)) (whole 4)) in
    move_to gx y ∷ line_to gx (add y height) ∷ columns x y width height left (i + 1)

-- One solar panel at x, y.
unfoldable pub draw_wing : (px x y : Num) → List Command
unfolding add mul div larger columns
draw_wing px x y =
    let wing_w = mul px (lit 30 2) in
    let wing_h = mul px (lit 20 2) in
    let gy = add y (div (mul wing_h (whole 1)) (whole 2)) in
    fill_style (codes "#13294b")
      ∷ stroke_style outline
      ∷ line_width (larger (whole 1) (mul px (lit 25 3)))
      ∷ begin_path
      ∷ rect x y wing_w wing_h
      ∷ fill
      ∷ stroke
      ∷ stroke_style (codes "rgba(180,200,230,0.9)")
      ∷ line_width (larger (lit 5 1) (mul px (lit 1 2)))
      ∷ begin_path
      ∷ columns x y wing_w wing_h 3 1
    ++ (move_to x gy ∷ line_to (add x wing_w) gy ∷ stroke ∷ [])

unfoldable pub draw_sat_marker : MathFns → (px : Num) → List Command
unfolding add sub mul div larger draw_wing
draw_sat_marker fns px =
    let c = div px (whole 2) in
    let body_w = mul px (lit 20 2) in
    let body_h = mul px (lit 40 2) in
    let wing_w = mul px (lit 30 2) in
    let wing_h = mul px (lit 20 2) in
    let gap = mul px (lit 3 2) in
    let outline_w = larger (whole 1) (mul px (lit 25 3)) in
    let left = sub c (div body_w (whole 2)) in
    let right = add c (div body_w (whole 2)) in
    let top = sub c (div body_h (whole 2)) in
    let wing_y = sub c (div wing_h (whole 2)) in
    draw_wing px (sub (sub left gap) wing_w) wing_y
    ++ draw_wing px (add right gap) wing_y
    ++ (fill_style (codes "#c9ced6")
        ∷ stroke_style outline
        ∷ line_width outline_w
        ∷ begin_path
        ∷ rect left top body_w body_h
        ∷ fill
        ∷ stroke
        ∷ fill_style (codes "#d4af37")
        ∷ begin_path
        ∷ rect left top body_w (mul body_h (lit 22 2))
        ∷ fill
        ∷ stroke
        ∷ stroke_style outline
        ∷ line_width outline_w
        ∷ begin_path
        ∷ move_to (sub left gap) c
        ∷ line_to left c
        ∷ move_to right c
        ∷ line_to (add right gap) c
        ∷ stroke
        ∷ [])
