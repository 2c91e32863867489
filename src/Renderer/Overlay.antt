-- ===== src/Renderer/Overlay.antt =====
-- The overlay canvas (drawOverlay in frontend/js/renderer.js) as the list of the marks it draws, in
-- their order. `show` is String() of a number.
pub mod Labelled
use orbital_viewer.Num.{Num, whole, inf, lt, le, eq}
use orbital_viewer.Num.Arith.{add, sub, mul, div, negate}
use orbital_viewer.Num.Arrays.{read}
use orbital_viewer.Sky.{MathFns, lit}
use orbital_viewer.Sky.Planets.{Body, mercury, venus, embary, mars, jupiter, saturn}
use orbital_viewer.Camera.{math_min}
use orbital_viewer.Math3.{transform}
use orbital_viewer.Renderer.Scene.{Sprite}
use orbital_viewer.Renderer.State.{Scene, SatSprite, find_render_by_id}
use orbital_viewer.Renderer.Pick.{abs}
use orbital_viewer.Renderer.SkyBuffers.{SkyBuffers, PlanetMark, MoonMark}
use orbital_viewer.Renderer.Projection.{
  ActiveView, Surface, behind_earth, project_to_screen, math_round,
}
use orbital_viewer.Net.Message.{Vec3}
use orbital_viewer.Base.{
  ℕ, zero, suc, ◌+◌, ◌-◌, ◌*◌, ◌/◌, ◌%◌, ◌^◌, ◌≤◌, ◌<◌, min, max, ◌≡◌, refl, sym, ap, ◌∙◌, subst,
  fun_ext, ◌≡⟨◌⟩◌, ◌∎, ◌≢◌, ◌↔◌, ◌⊎◌, inl, inr, Bool, true, false, not, ◌&&◌, ◌||◌, Option, none,
  some, List, [], ◌∷◌, ◌++◌, map, append_assoc, append-nil, arith, ltb, leb, ◌==◌, if◌then◌else◌,
  ltb→lt, lt→ltb, leb→le, ==_iff, tests, Bool-cases, Option-cases, and-true, length, take,
  get_elem?, every, keep, length-append, length-take, length-map, All, All-append, Text, codes,
  ◌===◌, ===_iff, ===_self, lookup, has,
}

-- The selection's circle, a text, and a body's arrow at the edge with its text.
pub data Mark : Type 0 where
  ring : (x y : Num) → Mark
  label : (text : Text) (x y : Num) → Mark
  locator : (text : Text) (x y angle : Num) (text_x text_y : Num) → Mark

-- The square of the distance from the eye.
unfoldable pub eye_distance : (eye : Vec3) → Sprite → Num
unfolding add sub mul
eye_distance eye o =
    let square : Num → Num → Num = λ a b. mul (sub a b) (sub a b) in
    add (add (square o.at.x eye.x) (square o.at.y eye.y)) (square o.at.z eye.z)

-- The stable sort by p.d - q.d, which is negative where p.d is less.
unfoldable pub insert_near : (eye : Vec3) → Sprite → List Sprite → List Sprite
unfolding eye_distance lt
insert_near eye o [] = o ∷ []
insert_near eye o (p ∷ ps) =
    let rest = insert_near eye o ps in
    if lt (eye_distance eye p) (eye_distance eye o) then p ∷ rest else o ∷ p ∷ ps

unfoldable pub sort_near : (eye : Vec3) → List Sprite → List Sprite
unfolding insert_near
sort_near eye [] = []
sort_near eye (o ∷ os) = insert_near eye o (sort_near eye os)

abbrev pub label_cap : ℕ
label_cap = 200

-- The objects in front of the Earth, the nearest of them where they are too many.
unfoldable pub label_list : MathFns → (eye : Vec3) → List Sprite → List Sprite
unfolding behind_earth sort_near
label_list fns eye sprites =
    let list = keep (λ o. not (behind_earth fns eye o.at)) sprites in
    if ltb label_cap (length list) then take label_cap (sort_near eye list) else list

abbrev capitalised : Body → Text
capitalised mercury = codes "Mercury"
capitalised venus = codes "Venus"
capitalised embary = codes "Embary"
capitalised mars = codes "Mars"
capitalised jupiter = codes "Jupiter"
capitalised saturn = codes "Saturn"

abbrev label_at : Text → (dx : ℕ) → Option (Num × Num) → List Mark
label_at text dx none = []
label_at text dx (some p) = label text (add p.0 (whole dx)) p.1 ∷ []

abbrev ring_at : Option (Num × Num) → List Mark
ring_at none = []
ring_at (some p) = ring p.0 p.1 ∷ []

-- The Moon's text, with its lit part in percent.
abbrev moon_text : (show : Num → Text) → MoonMark → Text
moon_text show m = (codes "Moon " ++ show (math_round (mul m.fraction (whole 100)))) ++ codes "%"

-- What findRenderById gives is the satellite.
unfoldable pub is_satellite : Option SatSprite → (id : Num) → Bool
unfolding eq
is_satellite none id = false
is_satellite (some s) id = eq s.id id

-- The place of the selection, which the satellite's own view hides when it is the satellite.
unfoldable pub selection : (fisheye : Bool) → Scene SkyBuffers → (id : Option Num) → Option Vec3
unfolding is_satellite find_render_by_id
selection fisheye st none = none
selection fisheye st (some id) =
    if fisheye && is_satellite st.sat id then none else find_render_by_id id st

-- `dx !== 0 ? room / Math.abs(dx) : Infinity`
unfoldable pub steps_to_edge : (room dx : Num) → Num
unfolding eq div
steps_to_edge room dx = if eq dx (whole 0) then inf false else div room (abs dx)

module _ (fns : MathFns) (show : Num → Text) (surface : Surface) (active : ActiveView) where
  -- `onScreen`: less than 20 pixels off the screen.
  unfoldable pub on_screen : Option (Num × Num) → Bool
  unfolding lt add
  on_screen none = false
  on_screen (some p) =
      lt (negate (whole 20)) p.0
      && lt p.0 (add surface.css_w (whole 20))
      && lt (negate (whole 20)) p.1
      && lt p.1 (add surface.css_h (whole 20))

  unfoldable pub is_inside : Option (Num × Num) → Bool
  unfolding le
  is_inside none = false
  is_inside (some p) =
      le (whole 0) p.0 && le p.0 surface.css_w && le (whole 0) p.1 && le p.1 surface.css_h

  -- The arrow at the edge, in the direction of the body.
  unfoldable pub locator_toward : (world : Vec3) (text : Text) (dx dy : Num) → Mark
  unfolding add sub mul div steps_to_edge
  locator_toward world text dx dy =
      let cx = div surface.css_w (whole 2) in
      let cy = div surface.css_h (whole 2) in
      let s =
        math_min (steps_to_edge (sub cx (whole 30)) dx) (steps_to_edge (sub cy (whole 30)) dy) in
      let back = sub s (whole 20) in
      locator text (add cx (mul dx s)) (add cy (mul dy s)) (fns.atan2 dy dx) (add cx (mul dx back))
        (add cy (mul dy back))

  unfoldable pub body_locator : (world : Vec3) (text : Text) → List Mark
  unfolding project_to_screen is_inside transform read lt div locator_toward
  body_locator world text =
      let v = transform active.view world.x world.y world.z (whole 1) in
      let dx = read v 0 in
      let dy = negate (read v 1) in
      let dl = fns.hypot (dx ∷ dy ∷ []) in
      if is_inside (project_to_screen fns surface active world)
      then []
      else if lt dl (lit 1 6)
      then locator_toward world text (whole 0) (whole 1) ∷ []
      else locator_toward world text (div dx dl) (div dy dl) ∷ []

  -- A body's text beside its disc, or its arrow where the disc is off the screen.
  unfoldable pub body_mark : (world : Vec3) (text located : Text) → List Mark
  unfolding project_to_screen on_screen body_locator
  body_mark world text located =
      let p = project_to_screen fns surface active world in
      if on_screen p then label_at text 8 p else body_locator world located

  unfoldable pub object_labels : List Sprite → List Mark
  unfolding project_to_screen
  object_labels [] = []
  object_labels (o ∷ os) =
      label_at (show o.id) 6 (project_to_screen fns surface active o.at) ++ object_labels os

  unfoldable pub satellite_label : Option SatSprite → List Mark
  unfolding project_to_screen behind_earth
  satellite_label none = []
  satellite_label (some s) =
      if active.fisheye || behind_earth fns active.eye s.at
      then []
      else label_at (show s.id) 6 (project_to_screen fns surface active s.at)

  unfoldable pub selected_ring : Option Vec3 → List Mark
  unfolding project_to_screen
  selected_ring none = []
  selected_ring (some p) = ring_at (project_to_screen fns surface active p)

  unfoldable pub selected_label : Option Num → Option Vec3 → List Mark
  unfolding project_to_screen
  selected_label (some id) (some p) = label_at (show id) 6 (project_to_screen fns surface active p)
  selected_label _ _ = []

  unfoldable pub planet_labels : List PlanetMark → List Mark
  unfolding project_to_screen on_screen
  planet_labels [] = []
  planet_labels (m ∷ ms) =
      let p = project_to_screen fns surface active m.at in
      (if on_screen p then label_at (capitalised m.name) 8 p else []) ++ planet_labels ms

  unfoldable pub moon_label : Option MoonMark → List Mark
  unfolding body_mark
  moon_label none = []
  moon_label (some m) = body_mark m.at (moon_text show m) (moon_text show m)

  unfoldable pub draw_overlay : Scene SkyBuffers → (sun_pos : Vec3) → List Mark
  unfolding selection selected_ring label_list object_labels satellite_label selected_label
      body_mark moon_label planet_labels
  draw_overlay st sun_pos =
      let chosen = selection active.fisheye st st.selected in
      let labels =
        (object_labels (label_list fns active.eye st.sprites) ++ satellite_label st.sat)
        ++ selected_label st.selected chosen in
      let sky = moon_label st.sky.moon ++ planet_labels st.sky.planet_render in
      ((selected_ring chosen ++ (if st.view.show_labels then labels else []))
        ++ body_mark sun_pos (codes "Sun " ++ (9679 ∷ [])) (codes "Sun"))
      ++ (if st.view.show_sky then sky else [])
