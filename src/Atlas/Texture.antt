-- ===== src/Atlas/Texture.antt =====
-- Where a cell stands in the texture (iconUV of frontend/js/atlas.js).
use native.Mathlib.Nat.{mod-lt}
use orbital_viewer.Num.Arith.Bounds.{pow_pos, div-lt}
use orbital_viewer.Num.Arith.{sum_signed, same_sign, round_ratio, mul, sub, add, div}
use orbital_viewer.Atlas.Paint.{
  is_integer, magnitude, is_refused, high_edge, low_edge, icon_uv, UvRect,
}
use orbital_viewer.Base.{
  ℕ, zero, suc, ◌+◌, ◌*◌, ◌/◌, ◌%◌, ◌^◌, ◌≤◌, ◌<◌, ◌≡◌, refl, sym, ap, ◌∙◌, inl, inr, Bool, true,
  false, not, ◌&&◌, ◌||◌, Option, none, some, arith, ltb, ◌==◌, if◌then◌else◌, Bool-cases,
}
use orbital_viewer.Num.{nan, inf, fin, to_double, Num, whole, lt}

-- Along one axis, the edges lie strictly inside the cell at k and in their order.
unfoldable pub in_span : (k : ℕ) (low high : Num) → Bool
unfolding lt div
in_span k low high =
    lt (div (whole k) (whole 4)) low && lt low high && lt high (div (whole (k + 1)) (whole 4))

-- The rectangle lies so in the cell at the column and row; there is none for an error.
unfoldable pub in_cell : (col row : ℕ) → Option UvRect → Bool
unfolding in_span
in_cell col row none = false
in_cell col row (some r) = in_span col r.u0 r.u1 && in_span row r.v0 r.v1

edges : ℕ → Bool
unfolding in_span low_edge high_edge
edges k = in_span k (low_edge k) (high_edge k)

edges_0 : edges 0 ≡ true
unfolding edges in_span low_edge high_edge lt div add sub mul to_double round_ratio same_sign
    sum_signed
edges_0 = refl

edges_1 : edges 1 ≡ true
unfolding edges in_span low_edge high_edge lt div add sub mul to_double round_ratio same_sign
    sum_signed
edges_1 = refl

edges_2 : edges 2 ≡ true
unfolding edges in_span low_edge high_edge lt div add sub mul to_double round_ratio same_sign
    sum_signed
edges_2 = refl

edges_3 : edges 3 ≡ true
unfolding edges in_span low_edge high_edge lt div add sub mul to_double round_ratio same_sign
    sum_signed
edges_3 = refl

edges-below : (k : ℕ) → k < 4 → edges k ≡ true
edges-below zero h = edges_0
edges-below (suc zero) h = edges_1
edges-below (suc (suc zero)) h = edges_2
edges-below (suc (suc (suc zero))) h = edges_3
edges-below (suc (suc (suc (suc k)))) h = absurd (omega (arith, h))

both : (a b : Bool) → a ≡ true → b ≡ true → (a && b) ≡ true
both a b h k = rw (h, k) refl

cell_rect : (col row : ℕ) → UvRect
cell_rect col row = record {
  u0 = low_edge col;
  v0 = low_edge row;
  u1 = high_edge col;
  v1 = high_edge row;
}

cell_rect-in_cell :
    (col row : ℕ) → col < 4 → row < 4 → in_cell col row (some (cell_rect col row)) ≡ true
unfolding in_cell cell_rect edges
cell_rect-in_cell col row h k = both (edges col) (edges row) (edges-below col h) (edges-below row k)

col-lt : (i : ℕ) → i % 4 < 4
col-lt i = mod-lt i (omega arith)

last_test : (a b c : Bool) → (a || b || c) ≡ false → (b ≡ false) × (c ≡ false)
last_test a b c h = ground (arith, h)

accepted :
    (index : Num)
    → is_refused index ≡ false
    → (lt index (whole 0) ≡ false) × (lt (whole 15) index ≡ false)
unfolding is_refused
accepted index h = last_test (not (is_integer index)) (lt index (whole 0)) (lt (whole 15) index) h

at_most : (n p : ℕ) → 1 ≤ p → ltb (15 * p) (n * 1) ≡ false → n < 16 * p
at_most n p one h = ground (arith, one, h)

only_zero : (n p : ℕ) → 1 ≤ p → not (n * 1 == 0 && 0 * p == 0) ≡ false → n < 16 * p
only_zero n p one h = ground (arith, one, h)

-- An index that the guard lets through is below 16.
magnitude-lt : (index : Num) → is_refused index ≡ false → magnitude index < 16
unfolding is_refused magnitude is_integer lt
magnitude-lt (fin false n k) h =
    div-lt n (2 ^ k) 16 (at_most n (2 ^ k) (pow_pos k) (accepted (fin false n k) h).1)
magnitude-lt (fin true n k) h =
    div-lt n (2 ^ k) 16 (only_zero n (2 ^ k) (pow_pos k) (accepted (fin true n k) h).0)
magnitude-lt (inf s) h = omega arith
magnitude-lt nan h = omega arith

-- An index that is a whole number from 0 to 15 has a rectangle that is not empty and lies strictly
-- inside the index's own cell of the texture; any other number is an error.
pub icon_uv-in_cell :
    (index : Num)
    → in_cell (magnitude index % 4) (magnitude index / 4) (icon_uv index)
      ≡ (is_integer index && not (lt index (whole 0)) && not (lt (whole 15) index))
unfolding in_cell icon_uv cell_rect is_refused
icon_uv-in_cell index =
    let col = magnitude index % 4 in
    let row = magnitude index / 4 in
    let shown = λ (b : Bool). in_cell col row (if b then none else some (cell_rect col row)) in
    elim (Bool-cases (is_refused index)) [
      | inl p ↦ ap shown p ∙ sym (allowed index true p)
      | inr p ↦
          ap shown p
          ∙ cell_rect-in_cell col row (col-lt (magnitude index))
              (div-lt (magnitude index) 4 4 (magnitude-lt index p))
          ∙ sym (allowed index false p)
    ]
  where
    negated : (a b c r : Bool) → (not a || b || c) ≡ r → (a && not b && not c) ≡ not r
    negated a b c r h = ground (arith, h)

    allowed :
        (index : Num) (r : Bool)
        → is_refused index ≡ r
        → (is_integer index && not (lt index (whole 0)) && not (lt (whole 15) index)) ≡ not r
    allowed index r h = negated (is_integer index) (lt index (whole 0)) (lt (whole 15) index) r h
