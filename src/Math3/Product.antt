-- ===== src/Math3/Product.antt =====
-- The product of matrices against the transformation of vectors (frontend/js/math3.js).
use orbital_viewer.Num.Arrays.{set_at, read}
use orbital_viewer.Math3.{row_times, zeros, entry, fill_rows, fill_columns, multiply, transform}
use orbital_viewer.Base.{ℕ, ◌+◌, ◌*◌, ◌≡◌, refl, List, ◌++◌, map}
use orbital_viewer.Num.{Num}

-- A column of a matrix, transformed.
unfoldable pub column_image : (a b : List Num) (c : ℕ) → List Num
unfolding transform read
column_image a b c =
    transform a (read b (c * 4)) (read b (c * 4 + 1)) (read b (c * 4 + 2)) (read b (c * 4 + 3))

-- The product of two matrices is, column by column and rounded to the array's precision, what the
-- first makes of the columns of the second: each of the sixteen entries is written, once and in its
-- place.
pub multiply-transform :
    (fround : Num → Num) (a b : List Num)
    → multiply fround a b
      ≡ map fround
          (column_image a b 0 ++ (column_image a b 1 ++ (column_image a b 2 ++ column_image a b 3)))
unfolding multiply fill_columns fill_rows entry zeros set_at column_image transform row_times
multiply-transform fround a b = refl
