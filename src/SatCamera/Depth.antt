-- ===== src/SatCamera/Depth.antt =====
-- frontend/js/sat_camera.js: which points the fisheye projection shows, and at what depth.
use orbital_viewer.SatCamera.{
  FisheyePoint, fisheye_depth, fisheye_project_ndc, off_axis, place_on_disc, sat_far, sat_near,
  seen_from,
}
use orbital_viewer.Math3.{vec_length, scale}
use orbital_viewer.Camera.{clamp_between}
use orbital_viewer.Camera.Clamp.{clamp_between-IsInRange}
use orbital_viewer.Num.{Num, fin, inf, nan, whole, lt, le, is_nan, eq, to_double}
use orbital_viewer.Num.Arith.{add, sub, mul, div, negate, sum_signed, same_sign, round_ratio}
use orbital_viewer.Num.Arith.Bounds.{
  Between, IsInRange, fin-Between, round_ratio-Between, round_ratio-negate, pow_pos, sub-is_nan,
  div-is_nan,
}
use orbital_viewer.Sky.{MathFns, lit}
use orbital_viewer.Net.Message.{Vec3}
use mathlib.Core.Bool.{false≢true}
use orbital_viewer.Base.{
  ℕ, ◌+◌, ◌-◌, ◌*◌, ◌^◌, ◌≤◌, ◌≡◌, refl, sym, subst, Bool, true, false, ◌&&◌, Option, none, some,
  List, [], ◌∷◌, arith, ltb, if◌then◌else◌,
}

not_more : (n k c : ℕ) → le (fin false n k) (whole c) ≡ true → n ≤ c * 2 ^ k
unfolding le lt
not_more n k c h = ground (arith, h)

no_less : (n k : ℕ) → le (whole 0) (fin true n k) ≡ true → n ≡ 0
unfolding le lt
no_less n k h = ground (arith, h)

flipped : (x : Num) → Between x 1 → IsInRange (negate (whole 1)) (whole 1) (negate x)
unfolding Between IsInRange le lt
flipped (fin s n k) (low, high) = (ground (arith, low, high), ground (arith, low, high))
flipped (inf s) (low, high) = (ground (arith, low, high), ground (arith, low, high))
flipped nan (low, high) = absurd (false≢true low)

widened : (x : Num) → Between x 1 → IsInRange (negate (whole 1)) (whole 1) x
unfolding Between IsInRange le lt
widened (fin s n k) (low, high) = (ground (arith, low, high), high)
widened (inf s) (low, high) = (ground (arith, low, high), high)
widened nan (low, high) = absurd (false≢true low)

if-InRange :
    (b : Bool) (lo hi x y : Num)
    → (b ≡ true → IsInRange lo hi x)
    → (b ≡ false → IsInRange lo hi y)
    → IsInRange lo hi (if b then x else y)
if-InRange true lo hi x y f g = f refl
if-InRange false lo hi x y f g = g refl

at_no_scale : (a k c : ℕ) → a ≤ c * 2 ^ k → a ≤ c * 2 ^ (k + 0)
at_no_scale a k c h = subst (λ e. a ≤ c * 2 ^ e) (omega arith) h

as_range : (x : Num) (top : ℕ) → Between x top → IsInRange (whole 0) (whole top) x
unfolding Between IsInRange
as_range x top h = h

as_Between : (x : Num) (top : ℕ) → IsInRange (whole 0) (whole top) x → Between x top
unfolding Between IsInRange
as_Between x top h = h

negated_zero : (x : Num) → Between x 0 → Between (negate x) 2
unfolding Between le lt
negated_zero (fin s n k) (low, high) = (ground (arith, low, high), ground (arith, low, high))
negated_zero (inf s) (low, high) = absurd (false≢true (ground (arith, low, high)))
negated_zero nan (low, high) = absurd (false≢true low)

-- Twice a number from 0 to 1.
double-Between : (x : Num) → Between x 1 → Between (mul x (whole 2)) 2
unfolding mul Between le lt
double-Between (fin false n k) (low, high) =
    round_ratio-Between (n * 2) (2 ^ (k + 0)) 2 (pow_pos (k + 0))
      (at_no_scale (n * 2) k 2 (omega (arith, not_more n k 1 high))) (omega arith)
double-Between (fin true n k) (low, high) =
    subst (λ (y : Num). Between y 2) (sym (round_ratio-negate (n * 2) (2 ^ (k + 0))))
      (negated_zero (round_ratio false (n * 2) (2 ^ (k + 0))) (
        round_ratio-Between (n * 2) (2 ^ (k + 0)) 0 (pow_pos (k + 0))
          (omega (arith, no_less n k low)) (omega arith)))
double-Between (inf true) (low, high) = absurd (false≢true low)
double-Between (inf false) (low, high) = absurd (false≢true high)
double-Between nan (low, high) = absurd (false≢true low)

below_zero :
    (n k : ℕ)
    → n ≤ 2 ^ k
    → IsInRange (negate (whole 1)) (whole 1) (round_ratio true n (2 ^ (k + 0)))
below_zero n k h =
    subst (IsInRange (negate (whole 1)) (whole 1)) (sym (round_ratio-negate n (2 ^ (k + 0)))) (
      flipped (round_ratio false n (2 ^ (k + 0))) (
        round_ratio-Between n (2 ^ (k + 0)) 1 (pow_pos (k + 0))
          (at_no_scale n k 1 (omega (arith, h))) (omega arith)))

-- A number from 0 to 2, less 1.
less_one-IsInRange :
    (x : Num) → Between x 2 → IsInRange (negate (whole 1)) (whole 1) (sub x (whole 1))
unfolding sub add Between sum_signed same_sign le lt
less_one-IsInRange (fin false n k) (low, high) =
    let d = 2 ^ (k + 0) in
    if-InRange (ltb (1 * 2 ^ k) (n * 1)) _ _ _ _
      (λ _. widened (round_ratio false (n * 1 - 1 * 2 ^ k) d) (
        round_ratio-Between (n * 1 - 1 * 2 ^ k) d 1 (pow_pos (k + 0))
          (at_no_scale (n * 1 - 1 * 2 ^ k) k 1 (omega (arith, not_more n k 2 high))) (omega arith)))
      (λ _.
        if-InRange (ltb (n * 1) (1 * 2 ^ k)) _ _ _ _
          (λ _. below_zero (1 * 2 ^ k - n * 1) k (omega arith))
          (λ _. widened (fin false 0 0) (fin-Between 0 0 1 (omega arith))))
less_one-IsInRange (fin true n k) (low, high) =
    below_zero (n * 1 + 1 * 2 ^ k) k (omega (arith, no_less n k low))
less_one-IsInRange (inf true) (low, high) = absurd (false≢true low)
less_one-IsInRange (inf false) (low, high) = absurd (false≢true high)
less_one-IsInRange nan (low, high) = absurd (false≢true low)

number_less : (rho : Num) → is_nan rho ≡ false → is_nan (sub rho sat_near) ≡ false
unfolding sub to_double
number_less nan h = h
number_less (inf s) h = refl
number_less (fin s n k) h = sub-is_nan (fin s n k) sat_near refl refl

fisheye_depth-IsInRange :
    (rho : Num) → is_nan rho ≡ false → IsInRange (negate (whole 1)) (whole 1) (fisheye_depth rho)
unfolding fisheye_depth le to_double sub eq
fisheye_depth-IsInRange rho h =
    let share = div (sub rho sat_near) (sub sat_far sat_near) in
    let number =
      div-is_nan (sub rho sat_near) (sub sat_far sat_near) (number_less rho h) refl refl in
    less_one-IsInRange (mul (clamp_between (whole 0) (whole 1) share) (whole 2)) (
      double-Between (clamp_between (whole 0) (whole 1) share) (
        as_Between (clamp_between (whole 0) (whole 1) share) 1
          (clamp_between-IsInRange (whole 0) (whole 1) share number refl)))

placed :
    (near behind : Bool) (ahead aside : FisheyePoint) (near_behind : near && behind ≡ false)
    → ahead.depth ≡ aside.depth
    → (p : FisheyePoint) × ((if near then (if behind then none else some ahead) else some aside)
        ≡ some p)
      × (p.depth ≡ aside.depth)
placed true true ahead aside h same = absurd (false≢true (sym h))
placed true false ahead aside h same = (ahead, refl, same)
placed false behind ahead aside h same = (aside, refl, refl)

else_some :
    (b : Bool) (o : Option FisheyePoint) (p : FisheyePoint)
    → b ≡ false
    → o ≡ some p
    → (if b then none else o) ≡ some p
else_some true o p h found = absurd (false≢true (sym h))
else_some false o p h found = found

-- The point's distance from the satellite.
abbrev pub rho_of : MathFns → (view : List Num) → Vec3 → Num
rho_of fns view at = vec_length fns (seen_from view at)

-- Its direction as the satellite sees it.
abbrev pub direction_of : MathFns → (view : List Num) → Vec3 → Vec3
direction_of fns view at = scale (seen_from view at) (div (whole 1) (rho_of fns view at))

-- Within 1e-6 of the axis, and more than a quarter turn from the direction to the Earth's centre.
abbrev pub is_behind : MathFns → (dir : Vec3) → Bool
is_behind fns dir =
    lt (fns.hypot (dir.x ∷ dir.y ∷ [])) (lit 1 6) && lt (div fns.pi (whole 2)) (off_axis fns dir)

-- In each view, a point whose distance is a number and not below 1e-9, and which does not stand
-- exactly behind the satellite, has a projection, and its depth is from -1 to 1.
pub fisheye_project_ndc-IsInRange :
    (fns : MathFns) (view : List Num) (at : Vec3) (aspect fov : Num)
    → is_nan (rho_of fns view at) ≡ false
    → lt (rho_of fns view at) (lit 1 9) ≡ false
    → is_behind fns (direction_of fns view at) ≡ false
    → (p : FisheyePoint) × (fisheye_project_ndc fns view at aspect fov ≡ some p)
      × IsInRange (negate (whole 1)) (whole 1) p.depth
unfolding fisheye_project_ndc place_on_disc
fisheye_project_ndc-IsInRange fns view at aspect fov number far beside =
    let dir = direction_of fns view at in
    let (p, found, same) =
      placed (lt (fns.hypot (dir.x ∷ dir.y ∷ [])) (lit 1 6))
        (lt (div fns.pi (whole 2)) (off_axis fns dir)) _ _ beside refl in
    (
      p,
      else_some (lt (rho_of fns view at) (lit 1 9)) _ p far found,
      subst (IsInRange (negate (whole 1)) (whole 1)) (sym same)
          (fisheye_depth-IsInRange (rho_of fns view at) number),
    )
