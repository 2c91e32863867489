-- ===== src/Model.antt =====
-- frontend/js/model.js: the client's view of the last state message. Times are milliseconds of a
-- clock that the caller reads; their difference in seconds is a parameter of `seconds_since_last_state`.
pub mod Counters
pub mod Listing
use orbital_viewer.Base.{
  ℕ, zero, suc, ◌+◌, ◌-◌, ◌*◌, ◌/◌, ◌%◌, ◌^◌, ◌≤◌, ◌<◌, min, max, ◌≡◌, refl, sym, ap, ◌∙◌, subst,
  fun_ext, ◌≡⟨◌⟩◌, ◌∎, ◌≢◌, ◌↔◌, ◌⊎◌, inl, inr, Bool, true, false, not, ◌&&◌, ◌||◌, Option, none,
  some, List, [], ◌∷◌, ◌++◌, map, append_assoc, append-nil, arith, ltb, leb, ◌==◌, if◌then◌else◌,
  ltb→lt, lt→ltb, leb→le, ==_iff, tests, Bool-cases, Option-cases, and-true, length, take,
  get_elem?, every, keep, length-append, length-take, length-map, All, All-append, Text, codes,
  ◌===◌, ===_iff, ===_self, lookup, has,
}
use orbital_viewer.Net.Message.{
  Category, unknown, debris, star, comet, satellite, ground_hot, Satellite, ObjectRow, TrailPoint,
  Message, hello, state,
}
use orbital_viewer.Num.{Num, lt}
use orbital_viewer.Value.{Fields}

pub record Model : Type 0 where
  pub satellite : Option Satellite
  pub objects : List ObjectRow
  pub last_data_time : Option Text
  pub server_time : Option Text
  pub stats : Option Fields
  pub trail_points : List TrailPoint
  pub last_applied_at : Option Num

abbrev pub create_model : Model
create_model = record {
  satellite = none;
  objects = [];
  last_data_time = none;
  server_time = none;
  stats = none;
  trail_points = [];
  last_applied_at = none;
}

-- applyState; `none` is a falsy message.
unfoldable pub apply_state : Model → Option Message → Num → Model
apply_state m (some (state s)) now = record {
  satellite = s.satellite;
  objects = s.objects;
  last_data_time = s.last_data_time;
  server_time = some s.server_time;
  stats = some s.stats;
  trail_points = s.trail_points;
  last_applied_at = some now;
}
apply_state m _ now = m

pub record Snapshot : Type 0 where
  pub satellite : Option Satellite
  pub objects : List ObjectRow
  pub last_data_time : Option Text
  pub server_time : Option Text
  pub trail_points : List TrailPoint

unfoldable pub get_snapshot : Model → Snapshot
get_snapshot m = record {
  satellite = m.satellite;
  objects = m.objects;
  last_data_time = m.last_data_time;
  server_time = m.server_time;
  trail_points = m.trail_points;
}

-- `o.cat === filter`
unfoldable pub same_category : Category → Category → Bool
same_category unknown unknown = true
same_category debris debris = true
same_category star star = true
same_category comet comet = true
same_category satellite satellite = true
same_category ground_hot ground_hot = true
same_category _ _ = false

-- The stable sort by ascending id.
unfoldable pub insert_row : ObjectRow → List ObjectRow → List ObjectRow
insert_row r [] = r ∷ []
insert_row r (o ∷ os) = if lt o.id r.id then o ∷ insert_row r os else r ∷ o ∷ os

unfoldable pub sort_rows : List ObjectRow → List ObjectRow
sort_rows [] = []
sort_rows (r ∷ rs) = insert_row r (sort_rows rs)

abbrev pub filtered : Option Category → List ObjectRow → List ObjectRow
filtered none os = os
filtered (some c) os = keep (λ o. same_category o.cat c) os

pub record ListRows : Type 0 where
  pub rows : List ObjectRow
  pub total : ℕ

unfoldable pub get_list_rows : Model → Option Category → (cap : ℕ) → ListRows
get_list_rows m filter cap =
    let sorted = sort_rows (filtered filter m.objects) in
    record { rows = take cap sorted; total = length sorted }

pub record Counts : Type 0 where
  pub debris : ℕ
  pub star : ℕ
  pub comet : ℕ
  pub satellite : ℕ
  pub ground_hot : ℕ
  pub unknown : ℕ
  pub total : ℕ

unfoldable pub empty_counts : Counts
empty_counts = record {
  debris = 0;
  star = 0;
  comet = 0;
  satellite = 0;
  ground_hot = 0;
  unknown = 0;
  total = 0;
}

-- One round of the loop of getCounts; every category has a counter.
unfoldable pub count_row : Category → Counts → Counts
count_row debris n = record n { debris = n.debris + 1; total = n.total + 1 }
count_row star n = record n { star = n.star + 1; total = n.total + 1 }
count_row comet n = record n { comet = n.comet + 1; total = n.total + 1 }
count_row satellite n = record n { satellite = n.satellite + 1; total = n.total + 1 }
count_row ground_hot n = record n { ground_hot = n.ground_hot + 1; total = n.total + 1 }
count_row unknown n = record n { unknown = n.unknown + 1; total = n.total + 1 }

unfoldable pub count_rows : List ObjectRow → Counts → Counts
count_rows [] n = n
count_rows (o ∷ os) n = count_rows os (count_row o.cat n)

unfoldable pub get_counts : Model → Counts
unfolding count_rows empty_counts
get_counts m = count_rows m.objects empty_counts

-- `none` is Infinity.
unfoldable pub seconds_since_last_state : (Num → Num → Num) → Model → Num → Option Num
seconds_since_last_state elapsed m now = elim m.last_applied_at [
  | none ↦ none
  | some at ↦ some (elapsed now at)
]
