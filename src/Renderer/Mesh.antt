-- ===== src/Renderer/Mesh.antt =====
-- The globe and the graticule (buildSphere and buildGraticule in frontend/js/renderer.js). An array
-- that a loop pushes to is the concatenation of what its turns push; `left` counts the turns to come.
pub mod Whole
use orbital_viewer.Num.{Num, whole}
use orbital_viewer.Num.Arith.{add, sub, mul, div}
use orbital_viewer.Sky.{MathFns, lit, deg}
use orbital_viewer.Net.Message.{Vec3}
use orbital_viewer.Base.{
  ℕ, zero, suc, ◌+◌, ◌-◌, ◌*◌, ◌/◌, ◌%◌, ◌^◌, ◌≤◌, ◌<◌, min, max, ◌≡◌, refl, sym, ap, ◌∙◌, subst,
  fun_ext, ◌≡⟨◌⟩◌, ◌∎, ◌≢◌, ◌↔◌, ◌⊎◌, inl, inr, Bool, true, false, not, ◌&&◌, ◌||◌, Option, none,
  some, List, [], ◌∷◌, ◌++◌, map, append_assoc, append-nil, arith, ltb, leb, ◌==◌, if◌then◌else◌,
  ltb→lt, lt→ltb, leb→le, ==_iff, tests, Bool-cases, Option-cases, and-true, length, take,
  get_elem?, every, keep, length-append, length-take, length-map, All, All-append, Text, codes,
  ◌===◌, ===_iff, ===_self, lookup, has,
}

unfoldable pub triple : Vec3 → List Num
triple v = v.x ∷ v.y ∷ v.z ∷ []

unfoldable pub times : Vec3 → Num → Vec3
unfolding mul
times v s = record { x = mul v.x s; y = mul v.y s; z = mul v.z s }

-- The latitude of a ring.
unfoldable pub ring_phi : MathFns → (stacks i : ℕ) → Num
unfolding sub mul div
ring_phi fns stacks i = sub (mul (div (whole i) (whole stacks)) fns.pi) (div fns.pi (whole 2))

-- The longitude of a point on a ring.
unfoldable pub ring_theta : MathFns → (slices j : ℕ) → Num
unfolding mul div
ring_theta fns slices j = mul (mul (div (whole j) (whole slices)) (whole 2)) fns.pi

unfoldable pub sphere_normal : MathFns → (stacks slices i j : ℕ) → Vec3
unfolding ring_phi ring_theta mul
sphere_normal fns stacks slices i j =
    let phi = ring_phi fns stacks i in
    let theta = ring_theta fns slices j in
    record {
      x = mul (fns.cos phi) (fns.cos theta);
      y = mul (fns.cos phi) (fns.sin theta);
      z = fns.sin phi;
    }

unfoldable pub sphere_uv : MathFns → (stacks slices i j : ℕ) → List Num
unfolding ring_phi ring_theta add sub mul div
sphere_uv fns stacks slices i j =
    add (lit 5 1) (div (ring_theta fns slices j) (mul (whole 2) fns.pi))
    ∷ sub (lit 5 1) (div (ring_phi fns stacks i) fns.pi)
    ∷ []

-- A loop over j, inside a loop over i, each turn of which pushes what `f` gives.
unfoldable pub loop_columns : {A : Type 0} → (f : (i j : ℕ) → List A) (left i j : ℕ) → List A
loop_columns f zero i j = []
loop_columns f (suc left) i j = f i j ++ loop_columns f left i (j + 1)

unfoldable pub loop_rows : {A : Type 0} → (f : (i j : ℕ) → List A) (width left i : ℕ) → List A
unfolding loop_columns
loop_rows f width zero i = []
loop_rows f width (suc left) i = loop_columns f width i 0 ++ loop_rows f width left (i + 1)

-- The two triangles between two rings and two meridians.
unfoldable pub quad : (stride i j : ℕ) → List ℕ
quad stride i j =
    let a = i * stride + j in
    let b = a + 1 in let c = a + stride in let d = c + 1 in a ∷ c ∷ b ∷ b ∷ c ∷ d ∷ []

-- An element of a Uint16Array.
abbrev pub uint16 : ℕ → ℕ
uint16 n = n % 2 ^ 16

pub record Mesh : Type 0 where
  pub positions : List Num
  pub normals : List Num
  pub uvs : List Num
  pub indices : List ℕ

unfoldable pub build_sphere :
    MathFns → (fround : Num → Num) (radius : Num) (stacks slices : ℕ) → Mesh
unfolding loop_rows quad sphere_normal sphere_uv triple times
build_sphere fns fround radius stacks slices = record {
  positions = map fround (
      loop_rows (λ i j. triple (times (sphere_normal fns stacks slices i j) radius)) (slices + 1)
        (stacks + 1) 0);
  normals =
      map fround (
        loop_rows (λ i j. triple (sphere_normal fns stacks slices i j)) (slices + 1) (stacks + 1)
          0);
  uvs = map fround (loop_rows (λ i j. sphere_uv fns stacks slices i j) (slices + 1) (stacks + 1) 0);
  indices = map uint16 (loop_rows (λ i j. quad (slices + 1) i j) slices stacks 0);
}

-- `push(x, y, z)` of buildGraticule.
unfoldable pub line_vertex : Vec3 → List Num
line_vertex p = p.x ∷ p.y ∷ p.z ∷ lit 55 2 ∷ lit 72 2 ∷ whole 1 ∷ lit 14 2 ∷ []

unfoldable pub segment : (prev : Option Vec3) (p : Vec3) → List Num
unfolding line_vertex
segment none p = []
segment (some q) p = line_vertex q ++ line_vertex p

-- A loop that joins each point to the one before it, in steps of 6 degrees.
unfoldable pub polyline : (at : ℕ → Vec3) (left degrees : ℕ) (prev : Option Vec3) → List Num
unfolding segment
polyline at zero degrees prev = []
polyline at (suc left) degrees prev =
    segment prev (at degrees) ++ polyline at left (degrees + 6) (some (at degrees))

-- A point of a latitude circle, `south` degrees north of 75 degrees south.
unfoldable pub circle_point : MathFns → (r : Num) (south lon : ℕ) → Vec3
unfolding sub mul deg
circle_point fns r south lon =
    let phi = mul (sub (whole south) (whole 75)) (deg fns) in
    let th = mul (whole lon) (deg fns) in
    record {
      x = mul (mul r (fns.cos phi)) (fns.cos th);
      y = mul (mul r (fns.cos phi)) (fns.sin th);
      z = mul r (fns.sin phi);
    }

-- A point of a meridian, `south` degrees north of the South Pole.
unfoldable pub meridian_point : MathFns → (r : Num) (lon south : ℕ) → Vec3
unfolding sub mul deg
meridian_point fns r lon south =
    let phi = mul (sub (whole south) (whole 90)) (deg fns) in
    let th = mul (whole lon) (deg fns) in
    record {
      x = mul (mul r (fns.cos phi)) (fns.cos th);
      y = mul (mul r (fns.cos phi)) (fns.sin th);
      z = mul r (fns.sin phi);
    }

-- A loop over lines, in steps of 15 degrees.
unfoldable pub polylines : (at : ℕ → ℕ → Vec3) (points left degrees : ℕ) → List Num
unfolding polyline
polylines at points zero degrees = []
polylines at points (suc left) degrees =
    polyline (at degrees) points 0 none ++ polylines at points left (degrees + 15)

-- Eleven circles of 61 points, and 24 meridians of 31.
unfoldable pub build_graticule : MathFns → (fround : Num → Num) (radius : Num) → List Num
unfolding mul polylines circle_point meridian_point
build_graticule fns fround radius =
    let r = mul radius (lit 1003 3) in
    map fround (polylines (circle_point fns r) 61 11 0 ++ polylines (meridian_point fns r) 31 24 0)
