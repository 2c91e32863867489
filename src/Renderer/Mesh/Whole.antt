-- ===== src/Renderer/Mesh/Whole.antt =====
-- frontend/js/renderer.js: the arrays of buildSphere and buildGraticule fit together.
use orbital_viewer.Renderer.Mesh.{
  loop_columns, loop_rows, quad, uint16, build_sphere, build_graticule, polyline, polylines,
  segment, line_vertex, triple, times, sphere_normal, sphere_uv, circle_point, meridian_point,
}
use orbital_viewer.Num.{Num}
use orbital_viewer.Num.Arith.{mul}
use orbital_viewer.Sky.{lit}
use native.Mathlib.Nat.{mul-le-mul_right}
use orbital_viewer.Sky.{MathFns}
use orbital_viewer.Net.Message.{Vec3}
use orbital_viewer.Base.{
  ℕ, zero, suc, ◌+◌, ◌*◌, ◌^◌, ◌≤◌, ◌<◌, ◌≡◌, refl, sym, ap, ◌∙◌, subst, some, List, [], ◌∷◌, ◌++◌,
  map, arith, length, length-append, length-map, All, All-append,
}

module _ {A : Type 0} (f : (i j : ℕ) → List A) where
  module _ (n : ℕ) (size : (i j : ℕ) → length (f i j) ≡ n) where
    length-loop_columns : (left i j : ℕ) → length (loop_columns f left i j) ≡ n * left
    unfolding loop_columns
    length-loop_columns zero i j = omega arith
    length-loop_columns (suc left) i j =
        length-append (f i j) (loop_columns f left i (j + 1))
        ∙ grind (arith, size i j, length-loop_columns left i (j + 1))

    length-loop_rows : (width left i : ℕ) → length (loop_rows f width left i) ≡ n * (left * width)
    unfolding loop_rows
    length-loop_rows width zero i = omega arith
    length-loop_rows width (suc left) i =
        length-append (loop_columns f width i 0) (loop_rows f width left (i + 1))
        ∙ grind (arith, length-loop_columns width i 0, length-loop_rows width left (i + 1))

  module _ (P : A → Type 0) where
    All-loop_columns :
        (left i j : ℕ)
        → ((k : ℕ) → j ≤ k → k < j + left → All P (f i k))
        → All P (loop_columns f left i j)
    unfolding loop_columns
    All-loop_columns zero i j h = tt
    All-loop_columns (suc left) i j h =
        All-append P (f i j) (loop_columns f left i (j + 1)) (h j (omega arith) (omega arith))
          (All-loop_columns left i (j + 1) (λ k lo hi. h k (omega (arith, lo)) (omega (arith, hi))))

    All-loop_rows :
        (width left i : ℕ)
        → ((m k : ℕ) → i ≤ m → m < i + left → k < width → All P (f m k))
        → All P (loop_rows f width left i)
    unfolding loop_rows
    All-loop_rows width zero i h = tt
    All-loop_rows width (suc left) i h =
        All-append P (loop_columns f width i 0) (loop_rows f width left (i + 1))
          (All-loop_columns width i 0
            (λ k lo hi. h i k (omega arith) (omega arith) (omega (arith, hi))))
          (All-loop_rows width left (i + 1)
            (λ m k lo hi inside. h m k (omega (arith, lo)) (omega (arith, hi)) inside))

-- The last corner of a quad is inside.
corner : (i j s t : ℕ) → i < s → j < t → i * (t + 1) + j + (t + 1) + 1 < (s + 1) * (t + 1)
corner i j s t low inside =
    let enough : suc i ≤ s = omega (arith, low) in
    grind (arith, inside, mul-le-mul_right (t + 1) enough)

-- The six corners are not past the last.
flat :
    (a t n : ℕ)
    → a + (t + 1) + 1 < n
    → All
        (λ k. k < n)
        (a ∷ (a + (t + 1)) ∷ (a + 1) ∷ (a + 1) ∷ (a + (t + 1)) ∷ (a + (t + 1) + 1) ∷ [])
flat a t n c = (
  omega (arith, c),
  (
    omega (arith, c),
    (omega (arith, c), (omega (arith, c), (omega (arith, c), (omega (arith, c), tt)))),
  ),
)

quad_below : (s t i j : ℕ) → i < s → j < t → All (λ k. k < (s + 1) * (t + 1)) (quad (t + 1) i j)
unfolding quad
quad_below s t i j low inside =
    let c = corner i j s t low inside in flat (i * (t + 1) + j) t ((s + 1) * (t + 1)) c

map_id : (xs : List ℕ) (n : ℕ) → n ≤ 2 ^ 16 → All (λ k. k < n) xs → map uint16 xs ≡ xs
map_id [] n small h = refl
map_id (x ∷ xs) n small (p, h) =
    let same : uint16 x ≡ x = omega (arith, p, small) in
    ap (λ k. k ∷ map uint16 xs) same ∙ ap (x ∷◌) (map_id xs n small h)

sized :
    {A : Type 0} (f : (i j : ℕ) → List A) (g : A → Num) (n width rows : ℕ)
    → ((i j : ℕ) → length (f i j) ≡ n)
    → length (map g (loop_rows f width rows 0)) ≡ n * (rows * width)
sized f g n width rows size =
    length-map (loop_rows f width rows 0) g ∙ length-loop_rows f n size width rows 0

three : (v : Vec3) → length (triple v) ≡ 3
unfolding triple
three v = refl

two : (fns : MathFns) (s t i j : ℕ) → length (sphere_uv fns s t i j) ≡ 2
unfolding sphere_uv
two fns s t i j = refl

six : (t i j : ℕ) → length (quad (t + 1) i j) ≡ 6
unfolding quad
six t i j = refl

-- Where the points fit a Uint16Array's numbers, as the 65 times 97 of the globe do: the sphere has
-- (stacks + 1) (slices + 1) points, each with three coordinates, a normal and two texture
-- coordinates, and six indices for each quad; no index was cut to 16 bits, and each is the number
-- of a point.
pub build_sphere_lem :
    (fns : MathFns) (fround : Num → Num) (radius : Num) (stacks slices : ℕ)
    → (stacks + 1) * (slices + 1) ≤ 2 ^ 16
    → let mesh = build_sphere fns fround radius stacks slices in
      let points = (stacks + 1) * (slices + 1) in
      (length mesh.positions ≡ 3 * points)
      × (length mesh.normals ≡ 3 * points)
      × (length mesh.uvs ≡ 2 * points)
      × (length mesh.indices ≡ 6 * (stacks * slices))
      × (mesh.indices ≡ loop_rows (λ i j. quad (slices + 1) i j) slices stacks 0)
      × All (λ k. k < points) mesh.indices
unfolding build_sphere
build_sphere_lem fns fround radius s t small =
    let quads : (i j : ℕ) → List ℕ = λ i j. quad (t + 1) i j in
    let below =
      All-loop_rows quads (λ k. k < (s + 1) * (t + 1)) t s 0
        (λ m k lo hi inside. quad_below s t m k (omega (arith, hi)) inside) in
    let same = map_id (loop_rows quads t s 0) ((s + 1) * (t + 1)) small below in
    (
      sized (λ i j. triple (times (sphere_normal fns s t i j) radius)) fround 3 (t + 1) (s + 1)
          (λ i j. three (times (sphere_normal fns s t i j) radius)),
      sized (λ i j. triple (sphere_normal fns s t i j)) fround 3 (t + 1) (s + 1)
          (λ i j. three (sphere_normal fns s t i j)),
      sized (λ i j. sphere_uv fns s t i j) fround 2 (t + 1) (s + 1) (two fns s t),
      ap length same ∙ length-loop_rows quads 6 (six t) t s 0,
      same,
      subst (All (λ k. k < (s + 1) * (t + 1))) (sym same) below,
    )

length-segment : (q p : Vec3) → length (segment (some q) p) ≡ 14
unfolding segment line_vertex
length-segment q p = refl

length-polyline :
    (at : ℕ → Vec3) (left d : ℕ) (q : Vec3) → length (polyline at left d (some q)) ≡ 14 * left
unfolding polyline
length-polyline at zero d q = refl
length-polyline at (suc left) d q =
    length-append (segment (some q) (at d)) (polyline at left (d + 6) (some (at d)))
    ∙ omega (arith, length-segment q (at d), length-polyline at left (d + 6) (at d))

length-polylines :
    (at : ℕ → ℕ → Vec3) (points left d : ℕ)
    → length (polylines at (suc points) left d) ≡ 14 * (left * points)
unfolding polylines polyline segment
length-polylines at points zero d = omega arith
length-polylines at points (suc left) d =
    length-append (polyline (at d) points 6 (some (at d 0)))
      (polylines at (suc points) left (d + 15))
    ∙ grind
        (arith, length-polyline (at d) points 6 (at d 0), length-polylines at points left (d + 15))

-- The graticule is 1380 whole segments: 11 circles of 60 and 24 meridians of 30, seven numbers for
-- each of the two ends of each.
pub build_graticule_lem :
    (fns : MathFns) (fround : Num → Num) (radius : Num)
    → length (build_graticule fns fround radius) ≡ 14 * (11 * 60 + 24 * 30)
unfolding build_graticule
build_graticule_lem fns fround radius =
    let r = mul radius (lit 1003 3) in
    length-map (polylines (circle_point fns r) 61 11 0 ++ polylines (meridian_point fns r) 31 24 0)
      fround
    ∙ length-append (polylines (circle_point fns r) 61 11 0)
        (polylines (meridian_point fns r) 31 24 0)
    ∙ omega (
      arith,
      length-polylines (circle_point fns r) 60 11 0,
      length-polylines (meridian_point fns r) 30 24 0,
    )
