-- ===== src/Renderer/Projection/Picked.antt =====
-- frontend/js/renderer.js: what a click picks, with the view and the screen as they are.
use orbital_viewer.Renderer.Projection.{
  Surface, compute_active_view, behind_earth, project_to_screen, floats_of, optics_of, pick_at,
  sat_target,
}
use orbital_viewer.Renderer.Pick.{Optics, Target, targets, distance}
use orbital_viewer.Renderer.Pick.Nearest.{IsNear, some_injective, pick_lem, pick-none}
use orbital_viewer.Renderer.State.{Scene}
use orbital_viewer.Num.{lt, Num, whole, inf, le, to_double}
use orbital_viewer.Num.Arith.{sub}
use orbital_viewer.Sky.{MathFns}
use orbital_viewer.Camera.{Camera}
use orbital_viewer.Net.Message.{Vec3}
use orbital_viewer.Base.{
  ℕ, ◌≡◌, refl, sym, ◌∙◌, subst, ◌⊎◌, inl, inr, Bool, true, false, Option, none, some, List, [],
  ◌∷◌, Bool-cases, Option-cases, get_elem?, All, Text,
}

module _ (occluded : Vec3 → Bool) (project : Vec3 → Option (Num × Num)) (x y : Num) where
  -- How far from the pointer a point of the screen is.
  abbrev pub off_by : (hypot : List Num → Num) → Num × Num → Num
  off_by hypot p = hypot (sub p.0 x ∷ sub p.1 y ∷ whole 0 ∷ [])

  -- The target is not hidden, and is on the screen at not more than 12 pixels from the pointer.
  abbrev pub IsReached : (hypot : List Num → Num) → Target → Type 0
  IsReached hypot o =
      (occluded o.at ≡ false)
      × (p : Num × Num) × (project o.at ≡ some p)
      × (lt (whole 12) (off_by hypot p) ≡ false)

  -- A target was picked: it is one of those given, and the pointer reaches it.
  abbrev pub IsPicked : (hypot : List Num → Num) → List Target → (id : Num) → Type 0
  IsPicked hypot ts id =
      (i : ℕ) × (o : Target) × (get_elem? ts i ≡ some o) × (o.id ≡ id) × IsReached hypot o

  -- The target is hidden, or not on the screen, or not at most 12 pixels away.
  abbrev pub IsFar : (hypot : List Num → Num) → Target → Type 0
  IsFar hypot o =
      (occluded o.at ≡ true)
      ⊎ (project o.at ≡ none)
      ⊎ ((p : Num × Num) × (project o.at ≡ some p) × (le (off_by hypot p) (whole 12) ≡ false))

module _ (fns : MathFns) (parse_date : Text → Num) (optics : Optics) (x y : Num) where
  abbrev At : Target → Option Num → Type 0
  At o dist =
      ((dist ≡ none) × ((optics.occluded o.at ≡ true) ⊎ (optics.project o.at ≡ none)))
      ⊎ ((optics.occluded o.at ≡ false)
          × (p : Num × Num) × (optics.project o.at ≡ some p)
          × (dist ≡ some (off_by optics.occluded optics.project x y fns.hypot p)))

  -- When `distance` is a number, and which.
  distance_lem : (o : Target) → At o (distance (floats_of fns parse_date) optics x y o)
  unfolding distance floats_of
  distance_lem o = elim (Bool-cases (optics.occluded o.at)) [
    | inl h ↦ inl (rw h refl, inl h)
    | inr h ↦ elim (Option-cases (optics.project o.at)) [
      | inl e ↦ inl (rw (h, e) refl, inr e)
      | inr (p, e) ↦ inr (h, p, e, rw (h, e) refl)
    ]
  ]

  near-IsReached :
      (o : Target)
      → IsNear (floats_of fns parse_date) optics x y o
      → IsReached optics.occluded optics.project x y fns.hypot o
  near-IsReached o (d, e, near) = elim (distance_lem o) [
    | inl (nowhere, why) ↦ absurd (none_neq d (sym nowhere ∙ e))
    | inr (front, p, at, same) ↦
        (front, p, at, subst (λ k. lt (whole 12) k ≡ false) (some_injective (sym e ∙ same)) near)
  ]
    where
      none_neq : (d : Num) → none ≡ some d → ⊥
      none_neq d e = cc

  All-IsFar :
      (ts : List Target)
      → All
          (λ o.
            (d : Num)
            → distance (floats_of fns parse_date) optics x y o ≡ some d
            → le d (whole 12) ≡ false)
          ts
      → All (IsFar optics.occluded optics.project x y fns.hypot) ts
  All-IsFar [] h = tt
  All-IsFar (o ∷ ts) (g, h) = (
    elim (distance_lem o) [
      | inl (nowhere, inl hidden) ↦ inl hidden
      | inl (nowhere, inr off) ↦ inr (inl off)
      | inr (front, p, at, same) ↦ inr (inr (p, at, g _ same))
    ],
    All-IsFar ts h,
  )

infinity_less :
    (fns : MathFns) (parse_date : Text → Num)
    → (floats_of fns parse_date).sub (inf false) (to_double false 1 9) ≡ inf false
unfolding floats_of sub to_double
infinity_less fns parse_date = refl

module _ (fns : MathFns) (fround : Num → Num) (parse_date : Text → Num) where
  -- A click, in every state, view and size of the canvas: either it picks the id of a target that
  -- the Earth does not hide from the eye and that is on the screen at not more than 12 pixels from
  -- the pointer, or it picks nothing and each target is behind the Earth, or not on the screen, or
  -- not at most 12 pixels away. The targets are the objects drawn and, unless the view is the one
  -- from the satellite, the satellite.
  pub pick_at_lem :
      {S : Type 0} (st : Scene S) (surface : Surface) (camera : Camera) (x y : Num)
      → let active = compute_active_view fns fround parse_date st surface camera in
        let hidden = behind_earth fns active.eye in
        let project = project_to_screen fns surface active in
        let ts = targets active.fisheye (sat_target st.sat) st.sprites in
        ((id : Num) × (pick_at fns fround parse_date st surface camera x y ≡ some id)
          × IsPicked hidden project x y fns.hypot ts id)
        ⊎ ((pick_at fns fround parse_date st surface camera x y ≡ none)
            × All (IsFar hidden project x y fns.hypot) ts)
  unfolding pick_at optics_of
  pick_at_lem st surface camera x y =
      let active = compute_active_view fns fround parse_date st surface camera in
      let fl = floats_of fns parse_date in
      let optics = optics_of fns surface active in
      let s = sat_target st.sat in
      elim (Option-cases (pick_at fns fround parse_date st surface camera x y)) [
        | inl e ↦ inr (
          e,
          All-IsFar fns parse_date optics x y (targets active.fisheye s st.sprites) (
              pick-none fl optics x y (infinity_less fns parse_date) active.fisheye s st.sprites e),
        )
        | inr (id, e) ↦
            let (i, o, at, same, near, drawn) =
              pick_lem fl optics x y active.fisheye s st.sprites id e in
            inl (id, e, (i, o, at, same, near-IsReached fns parse_date optics x y o near))
      ]
