-- ===== src/Math3.antt =====
-- Matrices and vectors (frontend/js/math3.js). A matrix is the array of its sixteen numbers, column by
-- column; `fround` rounds a number to the elements of a Float32Array.
pub mod Product
use orbital_viewer.Num.{Num, whole, lt, le, eq, nan, is_nan}
use orbital_viewer.Num.Arith.{add, sub, mul, div, negate}
use orbital_viewer.Num.Arrays.{read, set_at}
use orbital_viewer.Sky.{MathFns}
use orbital_viewer.Net.Message.{Vec3}
use orbital_viewer.Base.{
  ℕ, zero, suc, ◌+◌, ◌-◌, ◌*◌, ◌/◌, ◌%◌, ◌^◌, ◌≤◌, ◌<◌, min, max, ◌≡◌, refl, sym, ap, ◌∙◌, subst,
  fun_ext, ◌≡⟨◌⟩◌, ◌∎, ◌≢◌, ◌↔◌, ◌⊎◌, inl, inr, Bool, true, false, not, ◌&&◌, ◌||◌, Option, none,
  some, List, [], ◌∷◌, ◌++◌, map, append_assoc, append-nil, arith, ltb, leb, ◌==◌, if◌then◌else◌,
  ltb→lt, lt→ltb, leb→le, ==_iff, tests, Bool-cases, Option-cases, and-true, length, take,
  get_elem?, every, keep, length-append, length-take, length-map, All, All-append, Text, codes,
  ◌===◌, ===_iff, ===_self, lookup, has,
}

unfoldable pub zeros : (n : ℕ) → List Num
zeros zero = []
zeros (suc n) = whole 0 ∷ zeros n

unfoldable pub identity : List Num
unfolding zeros set_at
identity =
    set_at 0 (whole 1) (set_at 5 (whole 1) (set_at 10 (whole 1) (set_at 15 (whole 1) (zeros 16))))

-- The entry of a product at a row and a column.
unfoldable pub entry : (a b : List Num) (c r : ℕ) → Num
unfolding add mul read
entry a b c r =
    add
      (add (add (mul (read a r) (read b (c * 4))) (mul (read a (4 + r)) (read b (c * 4 + 1))))
        (mul (read a (8 + r)) (read b (c * 4 + 2))))
      (mul (read a (12 + r)) (read b (c * 4 + 3)))

-- The loop over the rows, from r on.
unfoldable pub fill_rows :
    (fround : Num → Num) (a b : List Num) (c left r : ℕ) → List Num → List Num
unfolding entry set_at
fill_rows fround a b c zero r o = o
fill_rows fround a b c (suc left) r o =
    fill_rows fround a b c left (r + 1) (set_at (c * 4 + r) (fround (entry a b c r)) o)

-- The loop over the columns, from c on.
unfoldable pub fill_columns :
    (fround : Num → Num) (a b : List Num) (left c : ℕ) → List Num → List Num
unfolding fill_rows
fill_columns fround a b zero c o = o
fill_columns fround a b (suc left) c o =
    fill_columns fround a b left (c + 1) (fill_rows fround a b c 4 0 o)

unfoldable pub multiply : (fround : Num → Num) (a b : List Num) → List Num
unfolding fill_columns zeros
multiply fround a b = fill_columns fround a b 4 0 (zeros 16)

unfoldable pub perspective : MathFns → (fround : Num → Num) (fovy aspect near far : Num) → List Num
unfolding add sub mul div zeros set_at
perspective fns fround fovy aspect near far =
    let f = div (whole 1) (fns.tan (div fovy (whole 2))) in
    let nf = div (whole 1) (sub near far) in
    set_at 14 (fround (mul (mul (mul (whole 2) far) near) nf)) (
      set_at 11 (fround (negate (whole 1))) (
        set_at 10 (fround (mul (add far near) nf))
          (set_at 5 (fround f) (set_at 0 (fround (div f aspect)) (zeros 16)))))

unfoldable pub dot : Vec3 → Vec3 → Num
unfolding add mul
dot a b = add (add (mul a.x b.x) (mul a.y b.y)) (mul a.z b.z)

unfoldable pub cross : Vec3 → Vec3 → Vec3
unfolding sub mul
cross a b = record {
  x = sub (mul a.y b.z) (mul a.z b.y);
  y = sub (mul a.z b.x) (mul a.x b.z);
  z = sub (mul a.x b.y) (mul a.y b.x);
}

-- `len || 1`
unfoldable pub or_one : Num → Num
unfolding eq
or_one len = if is_nan len || eq len (whole 0) then whole 1 else len

unfoldable pub vec_length : MathFns → Vec3 → Num
vec_length fns v = fns.hypot (v.x ∷ v.y ∷ v.z ∷ [])

unfoldable pub scaled_down : Vec3 → Num → Vec3
unfolding div
scaled_down v l = record { x = div v.x l; y = div v.y l; z = div v.z l }

unfoldable pub normalize : MathFns → Vec3 → Vec3
unfolding vec_length scaled_down eq
normalize fns v =
    let l = vec_length fns v in
    if eq l (whole 0) then record { x = whole 0; y = whole 0; z = whole 0 } else scaled_down v l

unfoldable pub vec_add : Vec3 → Vec3 → Vec3
unfolding add
vec_add a b = record { x = add a.x b.x; y = add a.y b.y; z = add a.z b.z }

unfoldable pub vec_sub : Vec3 → Vec3 → Vec3
unfolding sub
vec_sub a b = record { x = sub a.x b.x; y = sub a.y b.y; z = sub a.z b.z }

unfoldable pub scale : Vec3 → Num → Vec3
unfolding mul
scale v s = record { x = mul v.x s; y = mul v.y s; z = mul v.z s }

unfoldable pub look_at : MathFns → (fround : Num → Num) (eye center up : Vec3) → List Num
unfolding vec_length scaled_down or_one vec_sub cross dot
look_at fns fround eye center up =
    let back = vec_sub eye center in
    let z = scaled_down back (or_one (vec_length fns back)) in
    let side = cross up z in
    let x = scaled_down side (or_one (vec_length fns side)) in
    let y = cross z x in
    map fround (
      x.x
      ∷ y.x
      ∷ z.x
      ∷ whole 0
      ∷ x.y
      ∷ y.y
      ∷ z.y
      ∷ whole 0
      ∷ x.z
      ∷ y.z
      ∷ z.z
      ∷ whole 0
      ∷ negate (dot x eye)
      ∷ negate (dot y eye)
      ∷ negate (dot z eye)
      ∷ whole 1
      ∷ [])

-- One coordinate of a transformed vector.
unfoldable pub row_times : (m : List Num) (r : ℕ) (x y z w : Num) → Num
unfolding add mul read
row_times m r x y z w =
    add (add (add (mul (read m r) x) (mul (read m (4 + r)) y)) (mul (read m (8 + r)) z))
      (mul (read m (12 + r)) w)

unfoldable pub transform : (m : List Num) (x y z w : Num) → List Num
unfolding row_times
transform m x y z w =
    row_times m 0 x y z w
    ∷ row_times m 1 x y z w
    ∷ row_times m 2 x y z w
    ∷ row_times m 3 x y z w
    ∷ []

unfoldable pub occluded_by_sphere : MathFns → (eye p : Vec3) (r : Num) → Bool
unfolding vec_sub dot mul sub div lt le eq
occluded_by_sphere fns eye p r =
    let d = vec_sub p eye in
    let a = dot d d in
    let b = dot eye d in
    let c = sub (dot eye eye) (mul r r) in
    let disc = sub (mul b b) (mul a c) in
    let t = div (sub (negate b) (fns.sqrt disc)) a in
    not (eq a (whole 0)) && not (le disc (whole 0)) && lt (whole 0) t && lt t (whole 1)
