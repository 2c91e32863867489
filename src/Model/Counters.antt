-- ===== src/Model/Counters.antt =====
-- frontend/js/model.js: the counters against the list.
use orbital_viewer.Base.{
  ℕ, suc, ◌+◌, ◌≡◌, refl, ap, ◌∙◌, none, some, List, [], ◌∷◌, arith, if◌then◌else◌, length, keep,
}
use orbital_viewer.Model.{
  Model, Counts, same_category, count_row, count_rows, get_counts, empty_counts, get_list_rows,
  filtered, sort_rows, insert_row,
}
use orbital_viewer.Net.Message.{
  Category, unknown, debris, star, comet, satellite, ground_hot, ObjectRow,
}

abbrev pub counter : Category → Counts → ℕ
counter debris n = n.debris
counter star n = n.star
counter comet n = n.comet
counter satellite n = n.satellite
counter ground_hot n = n.ground_hot
counter unknown n = n.unknown

length-insert_row :
    (r : ObjectRow) (os : List ObjectRow) → length (insert_row r os) ≡ suc (length os)
unfolding insert_row
length-insert_row r [] = refl
length-insert_row r (o ∷ os) = ground (arith, length-insert_row r os)

pub length-sort_rows : (os : List ObjectRow) → length (sort_rows os) ≡ length os
unfolding sort_rows
length-sort_rows [] = refl
length-sort_rows (o ∷ os) = length-insert_row o (sort_rows os) ∙ ap suc (length-sort_rows os)

count_row-counter :
    (c d : Category) (n : Counts)
    → counter c (count_row d n) ≡ counter c n + (if same_category d c then 1 else 0)
unfolding count_row same_category
count_row-counter c d n = ground arith

count_row-total : (d : Category) (n : Counts) → (count_row d n).total ≡ n.total + 1
unfolding count_row
count_row-total d n = ground arith

count_rows-counter :
    (c : Category) (os : List ObjectRow) (n : Counts)
    → counter c (count_rows os n) ≡ counter c n + length (keep (λ o. same_category o.cat c) os)
unfolding count_rows
count_rows-counter c [] n = omega arith
count_rows-counter c (o ∷ os) n =
    ground (arith, count_rows-counter c os (count_row o.cat n), count_row-counter c o.cat n)

counter-empty : (c : Category) → counter c empty_counts ≡ 0
unfolding empty_counts
counter-empty c = ground arith

count_rows-total :
    (os : List ObjectRow) (n : Counts) → (count_rows os n).total ≡ n.total + length os
unfolding count_rows
count_rows-total [] n = omega arith
count_rows-total (o ∷ os) n =
    omega (arith, count_rows-total os (count_row o.cat n), count_row-total o.cat n)

abbrev pub sum : Counts → ℕ
sum n = n.debris + n.star + n.comet + n.satellite + n.ground_hot + n.unknown

count_rows-sum :
    (os : List ObjectRow) (n : Counts)
    → sum n ≡ n.total
    → sum (count_rows os n) ≡ (count_rows os n).total
unfolding count_rows count_row
count_rows-sum [] n h = h
count_rows-sum (o ∷ os) n h = count_rows-sum os (count_row o.cat n) (ground arith)

-- In every state of the model, each counter is the total that the list shows under that filter, the
-- grand total is the one without a filter, and the six counters add up to it.
pub get_counts_lem :
    (m : Model) (limit : ℕ)
    → ((c : Category) → counter c (get_counts m) ≡ (get_list_rows m (some c) limit).total)
      × ((get_counts m).total ≡ (get_list_rows m none limit).total)
      × (sum (get_counts m) ≡ (get_counts m).total)
unfolding get_counts get_list_rows empty_counts
get_counts_lem m limit = (
  λ c. by_filter c,
  omega (arith, count_rows-total m.objects empty_counts, length-sort_rows m.objects),
  count_rows-sum m.objects empty_counts refl,
)
  where
    by_filter : (c : Category) → counter c (get_counts m) ≡ (get_list_rows m (some c) limit).total
    by_filter c = omega (
      arith,
      count_rows-counter c m.objects empty_counts,
      counter-empty c,
      length-sort_rows (filtered (some c) m.objects),
    )
