-- ===== src/Model/Listing.antt =====
-- frontend/js/model.js: the order and the content of the list.
use orbital_viewer.Model.Counters.{length-sort_rows}
use orbital_viewer.Num.Order.{lt_asym}
use orbital_viewer.Model.{filtered, lt, Model, sort_rows, get_list_rows, insert_row}
use orbital_viewer.Net.Message.{Category, ObjectRow}
use mathlib.Core.List.{Perm}
use mathlib.Core.List.Perm
use orbital_viewer.Base.{
  ℕ, ◌≡◌, refl, inl, inr, false, Option, List, [], ◌∷◌, Bool-cases, length, take,
}

-- Each id is at least the one in front of it: no neighbours are out of order.
abbrev pub IsAscending : List ObjectRow → Type 0
IsAscending [] = Unit
IsAscending (o ∷ []) = Unit
IsAscending (o ∷ p ∷ os) = (lt p.id o.id ≡ false) × IsAscending (p ∷ os)

insert_row-perm : (r : ObjectRow) (os : List ObjectRow) → Perm (insert_row r os) (r ∷ os)
unfolding insert_row
insert_row-perm r [] = Perm.refl (r ∷ [])
insert_row-perm r (o ∷ os) = elim (Bool-cases (lt o.id r.id)) [
  | inl p ↦ rw p (Perm.trans (Perm.cons o (insert_row-perm r os)) (Perm.swap r o os))
  | inr p ↦ rw p (Perm.refl (r ∷ o ∷ os))
]

sort_rows-perm : (os : List ObjectRow) → Perm (sort_rows os) os
unfolding sort_rows
sort_rows-perm [] = Perm.refl []
sort_rows-perm (o ∷ os) =
    Perm.trans (insert_row-perm o (sort_rows os)) (Perm.cons o (sort_rows-perm os))

insert_row-IsAscending :
    (r : ObjectRow) (os : List ObjectRow) → IsAscending os → IsAscending (insert_row r os)
unfolding insert_row
insert_row-IsAscending r [] h = tt
insert_row-IsAscending r (o ∷ []) h = elim (Bool-cases (lt o.id r.id)) [
  | inl p ↦ rw p (lt_asym o.id r.id p, tt)
  | inr p ↦ rw p (p, tt)
]
insert_row-IsAscending r (o ∷ p ∷ os) h = elim (Bool-cases (lt o.id r.id)) [
  | inr n ↦ rw n (n, h)
  | inl y ↦ elim (Bool-cases (lt p.id r.id)) [
    | inl q ↦ let rest = rw q at (insert_row-IsAscending r (p ∷ os) h.1) in rw (y, q) (h.0, rest)
    | inr q ↦
        let rest = rw q at (insert_row-IsAscending r (p ∷ os) h.1) in
        rw (y, q) (lt_asym o.id r.id y, rest)
  ]
]

sort_rows-IsAscending : (os : List ObjectRow) → IsAscending (sort_rows os)
unfolding sort_rows
sort_rows-IsAscending [] = tt
sort_rows-IsAscending (o ∷ os) = insert_row-IsAscending o (sort_rows os) (sort_rows-IsAscending os)

-- The list shows the first rows, as many as the cap allows, of an arrangement of exactly the objects
-- that pass the filter, in which no neighbours are out of order by their ids; its total is the
-- number of objects that pass.
pub get_list_rows_lem :
    (m : Model) (filter : Option Category) (limit : ℕ)
    → (sorted : List ObjectRow) × Perm sorted (filtered filter m.objects)
      × IsAscending sorted
      × ((get_list_rows m filter limit).rows ≡ take limit sorted)
      × ((get_list_rows m filter limit).total ≡ length (filtered filter m.objects))
unfolding get_list_rows
get_list_rows_lem m filter limit =
    let shown = filtered filter m.objects in
    (
      sort_rows shown,
      sort_rows-perm shown,
      sort_rows-IsAscending shown,
      refl,
      length-sort_rows shown,
    )
