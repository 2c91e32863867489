-- ===== src/Camera/Clamp.antt =====
-- Math.max(lo, Math.min(hi, x)) of a number.
use orbital_viewer.Num.Order.{lt_asym, le-not_lt, not_nan, le-is_nan}
use orbital_viewer.Num.Arith.Bounds.{IsInRange}
use orbital_viewer.Camera.{clamp_between}
use orbital_viewer.Num.{Num, is_nan, lt, le}
use orbital_viewer.Base.{◌≡◌, inl, inr, true, false, Bool-cases}

pub clamp_between-IsInRange :
    (lo hi x : Num) → is_nan x ≡ false → le lo hi ≡ true → IsInRange lo hi (clamp_between lo hi x)
unfolding clamp_between IsInRange
clamp_between-IsInRange lo hi x n h =
    let (nl, nh) = le-is_nan lo hi h in
    let ll = not_nan lo nl in
    let hh = not_nan hi nh in
    elim (Bool-cases (lt x hi)) [
      | inl b ↦ elim (Bool-cases (lt lo x)) [
        | inl a ↦
            rw (n, nl, nh, b, n, a)
              (le-not_lt lo x nl n (lt_asym lo x a), le-not_lt x hi n nh (lt_asym x hi b))
        | inr a ↦ rw (n, nl, nh, b, n, a) (ll, h)
      ]
      | inr b ↦ elim (Bool-cases (lt lo hi)) [
        | inl a ↦ rw (n, nl, nh, b, nh, a) (h, hh)
        | inr a ↦ rw (n, nl, nh, b, nh, a) (ll, h)
      ]
    ]
