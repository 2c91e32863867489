-- ===== src/Atlas/Icons.antt =====
-- The painters of the cells that the renderer tints (drawDebris to drawGroundHot, drawSkyDot and
-- drawUnknown of frontend/js/atlas.js), in a cell of side px.
use orbital_viewer.Atlas.{
  stroke, bezier_curve_to, line_to, fill, close_path, rect, arc, move_to, line_width, white,
  begin_path, fill_style, stroke_style, white_alpha, larger, Command, pad, through,
}
use orbital_viewer.Base.{
  ℕ, zero, suc, ◌+◌, ◌%◌, ◌||◌, List, [], ◌∷◌, ◌++◌, ◌==◌, if◌then◌else◌, Text, codes,
}
use orbital_viewer.Num.{Num, whole, eq, is_nan}
use orbital_viewer.Num.Arith.{add, sub, mul, div, negate}
use orbital_viewer.Sky.{MathFns, lit}

-- `cellPx * (0.5 - PAD)`
abbrev pub reach : (px : Num) → Num
reach px = mul px (sub (lit 5 1) pad)

unfoldable pub draw_debris : MathFns → (px : Num) → List Command
unfolding add sub mul div through
draw_debris fns px =
    let c = div px (whole 2) in
    let r = reach px in
    let point : Num → Num → Num × Num = λ deg frac. (
      add c (mul (mul (fns.cos (div (mul deg fns.pi) (whole 180))) r) frac),
      add c (mul (mul (fns.sin (div (mul deg fns.pi) (whole 180))) r) frac),
    ) in
    fill_style white
      ∷ begin_path
      ∷ through (
          point (negate (whole 60)) (lit 100 2)
          ∷ point (negate (whole 10)) (lit 55 2)
          ∷ point (whole 35) (lit 95 2)
          ∷ point (whole 80) (lit 40 2)
          ∷ point (whole 140) (lit 85 2)
          ∷ point (whole 190) (lit 35 2)
          ∷ point (whole 230) (lit 70 2)
          ∷ point (whole 280) (lit 30 2)
          ∷ [])
    ++ (close_path ∷ fill ∷ [])

-- The points of a star's spikes from spike i on.
unfoldable pub spikes : MathFns → (px : Num) → (left i : ℕ) → List (Num × Num)
unfolding add sub mul div
spikes fns px zero i = []
spikes fns px (suc left) i =
    let c = div px (whole 2) in
    let outer_long = reach px in
    let outer_short = mul outer_long (lit 32 2) in
    let inner = mul outer_long (lit 14 2) in
    let angle = sub (mul (div fns.pi (whole 4)) (whole i)) (div fns.pi (whole 2)) in
    let outer = if i % 2 == 0 then outer_long else outer_short in
    let mid_angle = add angle (div fns.pi (whole 8)) in
    (add c (mul (fns.cos angle) outer), add c (mul (fns.sin angle) outer))
    ∷ (add c (mul (fns.cos mid_angle) inner), add c (mul (fns.sin mid_angle) inner))
    ∷ spikes fns px left (i + 1)

unfoldable pub draw_star : MathFns → (px : Num) → List Command
unfolding spikes through
draw_star fns px =
    fill_style white ∷ begin_path ∷ through (spikes fns px 8 0) ++ (close_path ∷ fill ∷ [])

unfoldable pub draw_comet : MathFns → (px : Num) → List Command
unfolding add sub mul div eq white_alpha
draw_comet fns px =
    let nucleus = mul px (lit 11 2) in
    let head_x = mul px (sub (sub (whole 1) pad) (lit 8 2)) in
    let head_y = add (mul px pad) nucleus in
    let half_width = mul px (lit 16 2) in
    let dx = sub (mul px pad) head_x in
    let dy = sub (mul px (sub (whole 1) pad)) head_y in
    let hyp = fns.hypot (dx ∷ dy ∷ []) in
    let len = if is_nan hyp || eq hyp (whole 0) then whole 1 else hyp in
    let side_x = div (negate dy) len in
    let side_y = div dx len in
    let layer : Num → Text → List Command = λ t alpha.
      let mid_x = add head_x (mul dx t) in
      let mid_y = add head_y (mul dy t) in
      let w = mul half_width t in
      fill_style (white_alpha alpha)
      ∷ begin_path
      ∷ move_to head_x head_y
      ∷ line_to (add mid_x (mul side_x w)) (add mid_y (mul side_y w))
      ∷ line_to (sub mid_x (mul side_x w)) (sub mid_y (mul side_y w))
      ∷ close_path
      ∷ fill
      ∷ [] in
    layer (lit 10 1) (codes "0.18")
    ++ layer (lit 66 2) (codes "0.35")
    ++ layer (lit 33 2) (codes "0.6")
    ++ (fill_style white
        ∷ begin_path
        ∷ arc head_x head_y nucleus (whole 0) (mul fns.pi (whole 2))
        ∷ fill
        ∷ [])

unfoldable pub draw_satellite_glyph : MathFns → (px : Num) → List Command
unfolding add sub mul div larger
draw_satellite_glyph fns px =
    let c = div px (whole 2) in
    let bus_w = mul px (lit 22 2) in
    let bus_h = mul px (lit 30 2) in
    let wing_w = mul px (lit 26 2) in
    let wing_h = mul px (lit 16 2) in
    let gap = mul px (lit 3 2) in
    let left = sub c (div bus_w (whole 2)) in
    let right = add c (div bus_w (whole 2)) in
    let top = sub c (div wing_h (whole 2)) in
    fill_style white
    ∷ begin_path
    ∷ rect left (sub c (div bus_h (whole 2))) bus_w bus_h
    ∷ fill
    ∷ begin_path
    ∷ rect (sub (sub left gap) wing_w) top wing_w wing_h
    ∷ fill
    ∷ begin_path
    ∷ rect (add right gap) top wing_w wing_h
    ∷ fill
    ∷ stroke_style white
    ∷ line_width (larger (whole 1) (mul px (lit 2 2)))
    ∷ begin_path
    ∷ move_to (sub left gap) c
    ∷ line_to left c
    ∷ move_to right c
    ∷ line_to (add right gap) c
    ∷ stroke
    ∷ []

unfoldable pub draw_ground_hot : MathFns → (px : Num) → List Command
unfolding add sub mul div
draw_ground_hot fns px =
    let c = div px (whole 2) in
    let top = mul px pad in
    let bottom = mul px (sub (whole 1) pad) in
    let w = mul (reach px) (lit 9 1) in
    let high = add top (mul (sub bottom top) (lit 35 2)) in
    let low = add (mul bottom (lit 7 1)) (mul top (lit 3 1)) in
    let inner_top = add top (mul (sub bottom top) (lit 30 2)) in
    let inner_w = mul w (lit 5 1) in
    let inner_high = add inner_top (mul (sub bottom inner_top) (lit 4 1)) in
    let inner_low = mul bottom (lit 85 2) in
    fill_style white
    ∷ begin_path
    ∷ move_to c top
    ∷ bezier_curve_to (add c w) high (add c (mul w (lit 55 2))) low c bottom
    ∷ bezier_curve_to (sub c (mul w (lit 55 2))) low (sub c w) high c top
    ∷ close_path
    ∷ fill
    ∷ fill_style (codes "rgba(255,255,255,0.55)")
    ∷ begin_path
    ∷ move_to c inner_top
    ∷ bezier_curve_to (add c inner_w) inner_high (add c (mul inner_w (lit 5 1))) inner_low c
        (mul bottom (lit 96 2))
    ∷ bezier_curve_to (sub c (mul inner_w (lit 5 1))) inner_low (sub c inner_w) inner_high c
        inner_top
    ∷ close_path
    ∷ fill
    ∷ []

unfoldable pub draw_sky_dot : MathFns → (px : Num) → List Command
unfolding mul div white_alpha
draw_sky_dot fns px =
    let c = div px (whole 2) in
    let layer : Num → Text → List Command = λ r alpha.
      fill_style (white_alpha alpha)
      ∷ begin_path
      ∷ arc c c (mul r px) (whole 0) (mul fns.pi (whole 2))
      ∷ fill
      ∷ [] in
    layer (lit 48 2) (codes "0.18")
    ++ layer (lit 42 2) (codes "0.45")
    ++ layer (lit 36 2) (codes "0.72")
    ++ layer (lit 30 2) (codes "1")

unfoldable pub draw_unknown : MathFns → (px : Num) → List Command
unfolding add sub mul div
draw_unknown fns px =
    let c = div px (whole 2) in
    let hook_r = mul px (lit 15 2) in
    let hook_y = sub c (mul px (lit 12 2)) in
    stroke_style white
    ∷ line_width (mul px (lit 1 1))
    ∷ begin_path
    ∷ arc c hook_y hook_r fns.pi (mul fns.pi (lit 25 1))
    ∷ line_to c (add (add hook_y hook_r) (mul px (lit 1 1)))
    ∷ stroke
    ∷ fill_style white
    ∷ begin_path
    ∷ arc c (add c (mul px (lit 28 2))) (mul px (lit 6 2)) (whole 0) (mul fns.pi (whole 2))
    ∷ fill
    ∷ []
