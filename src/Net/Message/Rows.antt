-- ===== src/Net/Message/Rows.antt =====
-- frontend/js/net.js: which row an error of a frame is about.
use orbital_viewer.Base.{
  ℕ, zero, suc, ◌+◌, ◌≡◌, refl, sym, ap, ◌∙◌, inl, inr, Bool, true, false, Option, none, some, List,
  [], ◌∷◌, arith,
}
use native.Mathlib.Nat.{add-zero}
use orbital_viewer.Base.Outcome.{>>=-eq-err, err-injective, Outcome, ok, err, ◌>>=◌}
use orbital_viewer.Net.Message.{
  all3, is_integer_value, is_finite_number, guard, guard, Problem, bad_row, bad_id, bad_cat,
  bad_pos, mixed_vel, bad_vel, bad_conf, bad_intensity, bad_flags, bad_trail_row, ObjectRow,
  parse_object_row, parse_trail_point_row, map_rows, cells, parse_cells, parse_vel, trail_cells,
}
use orbital_viewer.Value.{is_finite_number, Value, arr, null, items}

-- The row that a problem names.
abbrev pub row_index : Problem → Option ℕ
row_index (bad_row i) = some i
row_index (bad_id i) = some i
row_index (bad_cat i) = some i
row_index (bad_pos i) = some i
row_index (mixed_vel i) = some i
row_index (bad_vel i) = some i
row_index (bad_conf i) = some i
row_index (bad_intensity i) = some i
row_index (bad_flags i) = some i
row_index (bad_trail_row i) = some i
row_index _ = none

-- The problem of an outcome, if there is one, names row `i`.
record Names {ℓ} {A : Type ℓ} (i : ℕ) (o : Outcome Problem A) : Type ℓ where
  names : (p : Problem) → o ≡ err p → row_index p ≡ some i

module _ {ℓ} {A : Type ℓ} (i : ℕ) where
  ok-Names : {o : Outcome Problem A} (a : A) → o ≡ ok a → Names i o
  ok-Names a h = record { names = λ p e. absurd (cc (sym h ∙ e)) }

  err-Names : {o : Outcome Problem A} (p : Problem) → o ≡ err p → row_index p ≡ some i → Names i o
  err-Names p h r = record { names = λ q e. rw (err-injective (sym e ∙ h)) r }

module _ {ℓ κ} {A : Type ℓ} {B : Type κ} (i : ℕ) where
  >>=-Names :
      (m : Outcome Problem A) (k : A → Outcome Problem B)
      → Names i m
      → ((a : A) → Names i (k a))
      → Names i (m >>= k)
  >>=-Names (ok a) k h n = n a
  >>=-Names (err p) k h n = record { names = λ q e. h.names q (rw (err-injective e)) }

guard-Names : (i : ℕ) (b : Bool) (p : Problem) → row_index p ≡ some i → Names i (guard b p)
guard-Names i true p h = ok-Names i tt refl
guard-Names i false p h = err-Names i p refl h

parse_vel-Names : (i : ℕ) (x y z : Value) → Names i (parse_vel i x y z)
unfolding parse_vel
parse_vel-Names i null y z = record { names = λ p e. ground arith }
parse_vel-Names i x y z = record { names = λ p e. ground arith }

parse_cells-Names :
    (i : ℕ) (id cat px py pz vx vy vz conf intensity flags : Value)
    → Names i (parse_cells i id cat px py pz vx vy vz conf intensity flags)
unfolding parse_cells
parse_cells-Names i id cat px py pz vx vy vz conf intensity flags =
    then_guard (is_finite_number id) (bad_id i) _ refl λ _.
      then_guard (is_integer_value cat) (bad_cat i) _ refl λ _.
        then_guard (all3 px py pz) (bad_pos i) _ refl λ _.
          >>=-Names i (parse_vel i vx vy vz) _ (parse_vel-Names i vx vy vz) λ v.
            then_guard (is_finite_number conf) (bad_conf i) _ refl λ _.
              then_guard (is_finite_number intensity) (bad_intensity i) _ refl λ _.
                then_guard (is_finite_number flags) (bad_flags i) (λ _. ok _) refl
                  λ _. ok-Names i _ refl
  where
    then_guard :
        (b : Bool) (p : Problem) (k : Unit {0} → Outcome Problem ObjectRow)
        → row_index p ≡ some i
        → ((u : Unit {0}) → Names i (k u))
        → Names i (guard b p >>= k)
    then_guard b p k h n = >>=-Names i (guard b p) k (guard-Names i b p h) n

parse_object_row-Names : (i : ℕ) (v : Value) → Names i (parse_object_row i v)
unfolding parse_object_row
parse_object_row-Names i (arr vs) = cells-Names (items vs)
  where
    cells-Names : (vs : List Value) → Names i (cells i vs)
    cells-Names (a ∷ b ∷ c ∷ d ∷ e ∷ f ∷ g ∷ h ∷ j ∷ k ∷ l ∷ []) =
        parse_cells-Names i a b c d e f g h j k l
    cells-Names _ = err-Names i (bad_row i) refl refl
parse_object_row-Names i _ = err-Names i (bad_row i) refl refl

parse_trail_point_row-Names : (i : ℕ) (v : Value) → Names i (parse_trail_point_row i v)
unfolding parse_trail_point_row
parse_trail_point_row-Names i (arr vs) = cells-Names (items vs)
  where
    cells-Names : (vs : List Value) → Names i (trail_cells i vs)
    cells-Names (a ∷ b ∷ c ∷ d ∷ e ∷ []) = record { names = λ p h. ground arith }
    cells-Names _ = err-Names i (bad_trail_row i) refl refl
parse_trail_point_row-Names i _ = err-Names i (bad_trail_row i) refl refl

abbrev pub IsOk {ℓ} : {A : Type ℓ} → Outcome Problem A → Type 0
IsOk (ok a) = Unit
IsOk (err p) = ⊥

-- The rows in front of row `n` all parse, and row `n` gives the problem.
abbrev pub FirstBad :
    {A : Type 0} → (ℕ → Value → Outcome Problem A) → ℕ → ℕ → List Value → Problem → Type 0
FirstBad parse i n [] p = ⊥
FirstBad parse i zero (v ∷ vs) p = parse i v ≡ err p
FirstBad parse i (suc n) (v ∷ vs) p = IsOk (parse i v) × FirstBad parse (i + 1) n vs p

map_rows-FirstBad :
    {A : Type 0} (parse : ℕ → Value → Outcome Problem A)
    → ((i : ℕ) (v : Value) → Names i (parse i v))
    → (i : ℕ) (vs : List Value) (p : Problem) → map_rows parse i vs ≡ err p
    → (n : ℕ) × FirstBad parse i n vs p × (row_index p ≡ some (i + n))
unfolding map_rows
map_rows-FirstBad parse named i [] p e = absurd (cc e)
map_rows-FirstBad {A} parse named i (v ∷ vs) p e = elim (>>=-eq-err (parse i v) _ e) [
  | inl bad ↦ (0, bad, rw add-zero ((named i v).names p bad))
  | inr (a, good, later) ↦
      let (n, first, index) =
        map_rows-FirstBad parse named (i + 1) vs p
          (later_rows a (map_rows parse (i + 1) vs) later) in
      (suc n, (rw good tt, first), index ∙ ap some (omega arith))
]
  where
    later_rows :
        (a : A) (rest : Outcome Problem (List A))
        → (rest >>= λ as_. ok (a ∷ as_)) ≡ err p
        → rest ≡ err p
    later_rows a (ok as_) h = absurd (cc h)
    later_rows a (err q) h = ap err (err-injective h)

-- When an object row is refused, the error names the first row that does not parse: all rows in front
-- of it do.
pub map_rows-parse_object_row-FirstBad :
    (rows : List Value) (p : Problem)
    → map_rows parse_object_row 0 rows ≡ err p
    → (n : ℕ) × FirstBad parse_object_row 0 n rows p × (row_index p ≡ some n)
map_rows-parse_object_row-FirstBad rows p e =
    let (n, first, index) = map_rows-FirstBad parse_object_row parse_object_row-Names 0 rows p e in
    (n, first, index ∙ ap some (omega arith))

-- When a row of trail points is refused, the error names the first row that does not parse: all rows
-- in front of it do.
pub map_rows-parse_trail_point_row-FirstBad :
    (rows : List Value) (p : Problem)
    → map_rows parse_trail_point_row 0 rows ≡ err p
    → (n : ℕ) × FirstBad parse_trail_point_row 0 n rows p × (row_index p ≡ some n)
map_rows-parse_trail_point_row-FirstBad rows p e =
    let (n, first, index) =
      map_rows-FirstBad parse_trail_point_row parse_trail_point_row-Names 0 rows p e in
    (n, first, index ∙ ap some (omega arith))
