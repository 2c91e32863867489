-- ===== src/Sky/Angle.antt =====
-- Angles wrapped to one turn (wrapDeg and wrapDeg180 of frontend/js/sky.js, wrapDeg of sun.js).
use orbital_viewer.Sky.{wrap_deg180, wrap_deg}
use orbital_viewer.Base.{
  ℕ, ◌+◌, ◌-◌, ◌*◌, ◌%◌, ◌^◌, ◌≤◌, ◌<◌, ◌≡◌, refl, sym, ◌∙◌, subst, Bool, true, false, arith, ltb,
  if◌then◌else◌,
}
use orbital_viewer.Num.{inf, nan, Num, fin, whole, lt, le}
use native.Mathlib.Nat.{mod-lt}
use mathlib.Core.Bool.{false≢true}
use orbital_viewer.Num.Arith.{sub, round_ratio, negate, same_sign, sum_signed, add, fmod}
use orbital_viewer.Num.Arith.Bounds.{
  round_ratio-negate, pow_pos, Between, fin-Between, round_ratio-Between,
}

remainder-lt : (n k : ℕ) → n % (360 * 2 ^ k) < 360 * 2 ^ k
remainder-lt n k = mod-lt n (grind (arith, pow_pos k))

if-Between :
    (b : Bool) (x y : Num)
    → (b ≡ true → Between x 360)
    → (b ≡ false → Between y 360)
    → Between (if b then x else y) 360
if-Between true x y f g = f refl
if-Between false x y f g = g refl

difference : (a k : ℕ) → 360 * 2 ^ k - a ≤ 360 * 2 ^ (k + 0)
difference a k =
    let same : k ≡ k + 0 = omega arith in
    subst (λ e. 360 * 2 ^ k - a ≤ 360 * 2 ^ e) same (omega arith)

not_more : (p a : ℕ) → a < p → ltb p (a * 1) ≡ false
not_more p a h = ground (arith, h)

turn_back : (a k : ℕ) → a < 360 * 2 ^ k → Between (add (fin true a k) (whole 360)) 360
unfolding add sum_signed same_sign
turn_back a k h =
    if-Between (ltb (360 * 2 ^ k) (a * 1)) _ _
      (λ more. absurd (false≢true (sym (not_more (360 * 2 ^ k) a h) ∙ more)))
      (λ _.
        if-Between (ltb (a * 1) (360 * 2 ^ k)) _ _
          (λ _.
            round_ratio-Between (360 * 2 ^ k - a * 1) (2 ^ (k + 0)) 360 (pow_pos (k + 0))
              (difference (a * 1) k) (omega arith))
          (λ _. fin-Between 0 0 360 (omega arith)))

not_negative : (a k : ℕ) → lt (fin false a k) (whole 0) ≡ false
unfolding lt
not_negative a k = ground arith

negative_zero : (a k : ℕ) → lt (fin true a k) (whole 0) ≡ false → Between (fin true a k) 360
unfolding lt le Between
negative_zero a k h = (ground (arith, h), ground (arith, h))

-- Wrapping to a whole turn.
wrap_deg-Between : (s : Bool) (n k : ℕ) → Between (wrap_deg (fin s n k)) 360
unfolding wrap_deg fmod
wrap_deg-Between false n k =
    let a = n % (360 * 2 ^ k) in
    if-Between (lt (fin false a k) (whole 0)) _ _
      (λ below. absurd (false≢true (sym (not_negative a k) ∙ below)))
      (λ _. fin-Between a k 360 (omega (arith, remainder-lt n k)))
wrap_deg-Between true n k =
    let a = n % (360 * 2 ^ k) in
    if-Between (lt (fin true a k) (whole 0)) _ _ (λ _. turn_back a k (remainder-lt n k))
      (negative_zero a k)

-- -180 ≤ x ≤ 180
unfoldable pub HalfTurn : Num → Type 0
HalfTurn x = (le (fin true 180 0) x ≡ true) × (le x (whole 180) ≡ true)

negate-HalfTurn : (x : Num) → Between x 180 → HalfTurn (negate x)
unfolding Between HalfTurn le lt
negate-HalfTurn (fin false a l) (low, high) = (ground (arith, high), ground arith)
negate-HalfTurn (fin true a l) (low, high) = (ground arith, ground (arith, low))
negate-HalfTurn (inf false) (low, high) = absurd (false≢true high)
negate-HalfTurn (inf true) (low, high) = absurd (false≢true low)
negate-HalfTurn nan (low, high) = absurd (false≢true low)

small-HalfTurn : (r : Num) → Between r 360 → lt (whole 180) r ≡ false → HalfTurn r
unfolding Between HalfTurn le lt
small-HalfTurn (fin false a l) (low, high) h = (ground arith, ground (arith, h))
small-HalfTurn (fin true a l) (low, high) h = (ground (arith, low), ground arith)
small-HalfTurn (inf false) (low, high) h = absurd (false≢true high)
small-HalfTurn (inf true) (low, high) h = absurd (false≢true low)
small-HalfTurn nan (low, high) h = absurd (false≢true low)

if-HalfTurn :
    (b : Bool) (x y : Num)
    → (b ≡ true → HalfTurn x)
    → (b ≡ false → HalfTurn y)
    → HalfTurn (if b then x else y)
if-HalfTurn true x y f g = f refl
if-HalfTurn false x y f g = g refl

not_less : (p a : ℕ) → a ≤ p → ltb p (a * 1) ≡ false
not_less p a h = ground (arith, h)

rest_of_turn : (a l : ℕ) → 180 * 2 ^ l < a → 360 * 2 ^ l - a * 1 ≤ 180 * 2 ^ (l + 0)
rest_of_turn a l h =
    let same : l ≡ l + 0 = omega arith in
    subst (λ e. 360 * 2 ^ l - a * 1 ≤ 180 * 2 ^ e) same (omega (arith, h))

zero-HalfTurn : HalfTurn (fin false 0 0)
unfolding HalfTurn le lt
zero-HalfTurn = (refl, refl)

-- The difference of an angle above half a turn and a whole turn.
back_turn-HalfTurn :
    (a l : ℕ) → 180 * 2 ^ l < a → a ≤ 360 * 2 ^ l → HalfTurn (sub (fin false a l) (whole 360))
unfolding sub add sum_signed same_sign
back_turn-HalfTurn a l above below =
    let n = 360 * 2 ^ l - a * 1 in
    let d = 2 ^ (l + 0) in
    if-HalfTurn (ltb (360 * 2 ^ l) (a * 1)) _ _
      (λ more. absurd (false≢true (sym (not_less (360 * 2 ^ l) a below) ∙ more)))
      (λ _.
        if-HalfTurn (ltb (a * 1) (360 * 2 ^ l)) (round_ratio true n d) (fin false 0 0)
          (λ _. subst HalfTurn (sym (round_ratio-negate n d)) (
            negate-HalfTurn (round_ratio false n d) (
              round_ratio-Between n d 180 (pow_pos (l + 0)) (rest_of_turn a l above)
                (omega arith))))
          (λ _. zero-HalfTurn))

large-HalfTurn : (r : Num) → Between r 360 → lt (whole 180) r ≡ true → HalfTurn (sub r (whole 360))
unfolding Between le lt
large-HalfTurn (fin false a l) (low, high) h =
    back_turn-HalfTurn a l (ground (arith, h)) (ground (arith, high))
large-HalfTurn (fin true a l) (low, high) h = absurd (false≢true h)
large-HalfTurn (inf false) (low, high) h = absurd (false≢true high)
large-HalfTurn (inf true) (low, high) h = absurd (false≢true low)
large-HalfTurn nan (low, high) h = absurd (false≢true low)

-- Wrapping to half a turn.
wrap_deg180-HalfTurn : (s : Bool) (n k : ℕ) → HalfTurn (wrap_deg180 (fin s n k))
unfolding wrap_deg180
wrap_deg180-HalfTurn s n k =
    let r = wrap_deg (fin s n k) in
    let turn = wrap_deg-Between s n k in
    if-HalfTurn (lt (whole 180) r) (sub r (whole 360)) r (large-HalfTurn r turn)
      (small-HalfTurn r turn)

-- Wrapping a finite angle to a whole turn gives an angle between 0 and 360 degrees, and to half a turn
-- one between -180 and 180 degrees, the ends included in both.
pub wrap_deg180_lem :
    (s : Bool) (n k : ℕ) → Between (wrap_deg (fin s n k)) 360 × HalfTurn (wrap_deg180 (fin s n k))
wrap_deg180_lem s n k = (wrap_deg-Between s n k, wrap_deg180-HalfTurn s n k)
