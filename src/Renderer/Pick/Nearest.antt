-- ===== src/Renderer/Pick/Nearest.antt =====
-- frontend/js/renderer.js: which target `pick` gives.
use mathlib.Core.Bool.{false≢true}
use orbital_viewer.Num.{nan, fin, le, to_double, inf, whole, lt, Num}
use orbital_viewer.Renderer.Pick.{
  no_target, sprite_target, cam, improves, targets, Best, distance, consider, pick, consider_all,
  weigh, Target, Optics,
}
use orbital_viewer.Renderer.Scene.{Sprite, Floats}
use orbital_viewer.Base.{
  ℕ, suc, ◌≡◌, refl, sym, ◌∙◌, subst, ◌≢◌, ◌⊎◌, inl, inr, Bool, true, false, Option, none, some,
  List, [], ◌∷◌, map, arith, Bool-cases, Option-cases, get_elem?, All,
}

pub some_injective : {a b : Num} → some a ≡ some b → a ≡ b
some_injective e = cc

lt-le : (d : Num) → le d (whole 12) ≡ true → lt (whole 12) d ≡ false
unfolding le
lt-le (fin s n k) h = ground arith
lt-le (inf s) h = ground arith
lt-le nan h = ground arith

module _ (fl : Floats) (optics : Optics) (px py : Num) where
  -- The target can be picked: nothing hides it and it is not more than 12 pixels away.
  abbrev pub IsNear : Target → Type 0
  IsNear o = (d : Num) × (distance fl optics px py o ≡ some d) × (lt (whole 12) d ≡ false)

  weigh-id :
      (best : Best) (o : Target) (dist : Option Num)
      → ((weigh fl optics px py best o dist).id ≡ best.id)
        ⊎ (((weigh fl optics px py best o dist).id ≡ some o.id)
            × ((d : Num) × (dist ≡ some d) × (lt (whole 12) d ≡ false)))
  unfolding weigh
  weigh-id best o none = inl refl
  weigh-id best o (some d) = elim (Bool-cases (lt (whole 12) d)) [
    | inl p ↦ inl (rw p refl)
    | inr p ↦ elim (Bool-cases (improves fl optics px py best d (cam fl optics px py o))) [
      | inl q ↦ inr (rw (p, q) refl, (d, refl, p))
      | inr q ↦ inl (rw (p, q) refl)
    ]
  ]

  consider_all-id :
      (best : Best) (os : List Target) (id : Num)
      → (consider_all fl optics px py best os).id ≡ some id
      → (best.id ≡ some id)
        ⊎ ((i : ℕ) × (o : Target) × (get_elem? os i ≡ some o) × (o.id ≡ id) × IsNear o)
  unfolding consider_all consider
  consider_all-id best [] id h = inl h
  consider_all-id best (o ∷ os) id h =
      elim (consider_all-id (consider fl optics px py best o) os id h) [
        | inr (i, t, at, same, near) ↦ inr (suc i, t, at, same, near)
        | inl p ↦ elim (weigh-id best o (distance fl optics px py o)) [
          | inl kept ↦ inl (sym kept ∙ p)
          | inr (taken, near) ↦ inr (0, o, refl, some_injective (sym taken ∙ p), near)
        ]
      ]

  -- What `pick` gives is the id of a target that it was given, which is not behind the Earth and
  -- projects to not more than 12 pixels from the pointer; in the fisheye view, which looks from the
  -- satellite, it is the id of a drawn object.
  pub pick_lem :
      (fisheye : Bool) (s : Option Target) (sprites : List Sprite) (id : Num)
      → pick fl optics px py fisheye s sprites ≡ some id
      → (i : ℕ) × (o : Target) × (get_elem? (targets fisheye s sprites) i ≡ some o)
        × (o.id ≡ id)
        × IsNear o
        × (fisheye ≡ true → get_elem? (map sprite_target sprites) i ≡ some o)
  unfolding pick targets
  pick_lem fisheye s sprites id h =
      elim (consider_all-id (no_target fl optics px py) (targets fisheye s sprites) id h) [
        | inl p ↦ absurd (none_neq_some id p)
        | inr (i, o, at, same, near) ↦ (i, o, at, same, near, in_sat_view fisheye i o at)
      ]
    where
      none_neq_some : (id : Num) → none ≡ some id → ⊥
      none_neq_some id p = cc

      in_sat_view :
          (fisheye : Bool) (i : ℕ) (o : Target)
          → get_elem? (targets fisheye s sprites) i ≡ some o
          → fisheye ≡ true
          → get_elem? (map sprite_target sprites) i ≡ some o
      in_sat_view true i o at e = at
      in_sat_view false i o at e = absurd (false≢true e)

  stays_some :
      (best : Best) (os : List Target) (id : Num)
      → best.id ≡ some id
      → (consider_all fl optics px py best os).id ≢ none
  unfolding consider_all consider
  stays_some best [] id h = λ e. cc
  stays_some best (o ∷ os) id h = elim (weigh-id best o (distance fl optics px py o)) [
    | inl kept ↦ stays_some (consider fl optics px py best o) os id (kept ∙ h)
    | inr (taken, near) ↦ stays_some (consider fl optics px py best o) os o.id taken
  ]

  module _ (sub-inf : fl.sub (inf false) (to_double false 1 9) ≡ inf false) where
    first_improves :
        (d c : Num)
        → le d (whole 12) ≡ true
        → improves fl optics px py (no_target fl optics px py) d c ≡ true
    unfolding improves le lt
    first_improves (fin s n k) c h = rw sub-inf refl
    first_improves (inf true) c h = rw sub-inf refl
    first_improves (inf false) c h = absurd (false≢true h)
    first_improves nan c h = absurd (false≢true h)

    weigh-none :
        (o : Target) (dist : Option Num)
        → (weigh fl optics px py (no_target fl optics px py) o dist).id ≡ none
        → (weigh fl optics px py (no_target fl optics px py) o dist ≡ no_target fl optics px py)
          × ((d : Num) → dist ≡ some d → le d (whole 12) ≡ false)
    unfolding weigh
    weigh-none o none h = (refl, λ d e. absurd (none_neq d e))
      where
        none_neq : (d : Num) → none ≡ some d → ⊥
        none_neq d e = cc
    weigh-none o (some d) h = (
      elim (Bool-cases (lt (whole 12) d)) [
        | inl p ↦ rw p refl
        | inr p ↦
            elim (Bool-cases
              (improves fl optics px py (no_target fl optics px py) d (cam fl optics px py o))) [
                | inl q ↦ absurd (some_neq o.id (rw (p, q) at h))
                | inr q ↦ rw (p, q) refl
              ]
      ],
      λ d' e.
          subst (λ (x : Num). le x (whole 12) ≡ false) (some_injective e)
            (elim (Bool-cases (le d (whole 12))) [
              | inr q ↦ q
              | inl q ↦
                  absurd (
                    some_neq o.id (rw (lt-le d q, first_improves d (cam fl optics px py o) q) at h))
            ]),
    )
      where
        some_neq : (id : Num) → some id ≡ none → ⊥
        some_neq id e = cc

    consider_all-none :
        (os : List Target)
        → (consider_all fl optics px py (no_target fl optics px py) os).id ≡ none
        → All (λ o. (d : Num) → distance fl optics px py o ≡ some d → le d (whole 12) ≡ false) os
    unfolding consider_all consider
    consider_all-none [] h = tt
    consider_all-none (o ∷ os) h =
        let dist = distance fl optics px py o in
        elim (Option-cases (weigh fl optics px py (no_target fl optics px py) o dist).id) [
          | inl e ↦
              let (same, far) = weigh-none o dist e in
              (
                far,
                consider_all-none os
                    (subst (λ (b : Best). (consider_all fl optics px py b os).id ≡ none) same h),
              )
          | inr (id, e) ↦
              absurd (stays_some (consider fl optics px py (no_target fl optics px py) o) os id e h)
        ]

    -- Where Infinity less 1e-9 is Infinity, as it is for the machine's numbers: when `pick` gives
    -- null, every target that it was given is behind the Earth, or does not project, or projects to
    -- a distance from the pointer that is not at most 12 pixels.
    pub pick-none :
        (fisheye : Bool) (s : Option Target) (sprites : List Sprite)
        → pick fl optics px py fisheye s sprites ≡ none
        → All
            (λ o. (d : Num) → distance fl optics px py o ≡ some d → le d (whole 12) ≡ false)
            (targets fisheye s sprites)
    unfolding pick
    pick-none fisheye s sprites h = consider_all-none (targets fisheye s sprites) h
