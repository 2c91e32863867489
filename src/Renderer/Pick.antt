-- ===== src/Renderer/Pick.antt =====
-- frontend/js/renderer.js: pick. Whether the Earth hides a point, and where a point is on the screen,
-- are parameters: `occluded` is behindEarth with the eye, `project` is projectToScreen.
pub mod Nearest
use orbital_viewer.Num.{whole, lt, to_double, nan, inf, fin, Num}
use orbital_viewer.Renderer.Scene.{Sprite, Floats}
use orbital_viewer.Net.Message.{Vec3}
use orbital_viewer.Base.{
  ℕ, zero, suc, ◌+◌, ◌-◌, ◌*◌, ◌/◌, ◌%◌, ◌^◌, ◌≤◌, ◌<◌, min, max, ◌≡◌, refl, sym, ap, ◌∙◌, subst,
  fun_ext, ◌≡⟨◌⟩◌, ◌∎, ◌≢◌, ◌↔◌, ◌⊎◌, inl, inr, Bool, true, false, not, ◌&&◌, ◌||◌, Option, none,
  some, List, [], ◌∷◌, ◌++◌, map, append_assoc, append-nil, arith, ltb, leb, ◌==◌, if◌then◌else◌,
  ltb→lt, lt→ltb, leb→le, ==_iff, tests, Bool-cases, Option-cases, and-true, length, take,
  get_elem?, every, keep, length-append, length-take, length-map, All, All-append, Text, codes,
  ◌===◌, ===_iff, ===_self, lookup, has,
}

-- What can be picked.
pub record Target : Type 0 where
  pub id : Num
  pub at : Vec3

pub record Optics : Type 0 where
  pub occluded : Vec3 → Bool
  pub project : Vec3 → Option (Num × Num)
  pub eye : Vec3

-- `bestId`, `bestD` and `bestCam`.
pub record Best : Type 0 where
  pub id : Option Num
  pub d : Num
  pub cam : Num

-- `Math.abs`
abbrev pub abs : Num → Num
abs (fin neg n k) = fin false n k
abs (inf neg) = inf false
abs nan = nan

abbrev pub sprite_target : Sprite → Target
sprite_target o = record { id = o.id; at = o.at }

abbrev satellite_target : (fisheye : Bool) → Option Target → List Target
satellite_target true _ = []
satellite_target false none = []
satellite_target false (some s) = s ∷ []

unfoldable pub targets : (fisheye : Bool) → Option Target → List Sprite → List Target
targets fisheye s sprites = satellite_target fisheye s ++ map sprite_target sprites

module _ (fl : Floats) (optics : Optics) (px py : Num) where
  -- The distance on the screen, for a target that is in front of the Earth and projects.
  unfoldable pub distance : Target → Option Num
  distance o = if optics.occluded o.at then none else elim (optics.project o.at) [
    | none ↦ none
    | some p ↦ some (fl.hypot (record { x = fl.sub p.0 px; y = fl.sub p.1 py; z = whole 0 }))
  ]

  abbrev cam : Target → Num
  cam o =
      let square : Num → Num → Num = λ a b. fl.mul (fl.sub a b) (fl.sub a b) in
      fl.add (fl.add (square o.at.x optics.eye.x) (square o.at.y optics.eye.y))
        (square o.at.z optics.eye.z)

  unfoldable pub improves : Best → Num → Num → Bool
  improves best d c =
      let eps = to_double false 1 9 in
      lt d (fl.sub best.d eps) || (lt (abs (fl.sub d best.d)) eps && lt c best.cam)

  -- The rest of `consider`, for a target at a distance.
  unfoldable pub weigh : Best → Target → Option Num → Best
  unfolding improves
  weigh best o none = best
  weigh best o (some d) =
      if lt (whole 12) d
      then best
      else if improves best d (cam o)
      then record { id = some o.id; d = d; cam = cam o }
      else best

  -- The closure `consider`.
  unfoldable pub consider : Best → Target → Best
  unfolding distance weigh
  consider best o = weigh best o (distance o)

  unfoldable pub consider_all : Best → List Target → Best
  unfolding consider
  consider_all best [] = best
  consider_all best (o ∷ os) = consider_all (consider best o) os

  abbrev pub no_target : Best
  no_target = record { id = none; d = inf false; cam = inf false }

  unfoldable pub pick : (fisheye : Bool) → Option Target → List Sprite → Option Num
  unfolding consider_all targets
  pick fisheye s sprites = (consider_all no_target (targets fisheye s sprites)).id
