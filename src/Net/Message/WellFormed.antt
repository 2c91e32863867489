-- ===== src/Net/Message/WellFormed.antt =====
-- frontend/js/net.js: every message that parses holds finite numbers only.
use orbital_viewer.Base.{
  ℕ, ◌+◌, ◌≡◌, refl, subst, inl, inr, Bool, true, false, ◌&&◌, Option, none, some, List, [], ◌∷◌,
  arith, Bool-cases, keep, All, Text, codes, ◌===◌,
}
use orbital_viewer.Base.Outcome.{◌>>◌, ok-injective, Outcome, ok, >>=-eq-ok}
use orbital_viewer.Net.Message.{
  not_object, no_type, require_text, require_object, require_array, parse_data_time, bad_state_time,
  bad_objects, bad_stats, bad_hello_time, bad_limits, parse_type, guard, parse_cells, cells,
  parse_vel, trail_cells, num_of, vec, Vec3, Satellite, ObjectRow, TrailPoint, Hello, State,
  Message, hello, state, parse_satellite, parse_object_row, parse_trail_point_row, map_rows,
  Problem, parse_trail_points, parse_state, parse_hello, parse_message,
}
use orbital_viewer.Num.{Num, is_finite}
use orbital_viewer.Value.{undefined, get, items, null, arr, Value, Fields, is_finite_number}

abbrev pub IsFinite : Num → Type 0
IsFinite x = is_finite x ≡ true

pub record IsFiniteVec (v : Vec3) : Type 0 where
  pub x : IsFinite v.x
  pub y : IsFinite v.y
  pub z : IsFinite v.z

abbrev pub IsFiniteVel : Option Vec3 → Type 0
IsFiniteVel none = Unit
IsFiniteVel (some v) = IsFiniteVec v

pub record IsFiniteRow (r : ObjectRow) : Type 0 where
  pub id : IsFinite r.id
  pub pos : IsFiniteVec r.pos
  pub vel : IsFiniteVel r.vel
  pub conf : IsFinite r.conf
  pub intensity : IsFinite r.intensity
  pub flags : IsFinite r.flags

pub record IsFiniteTrail (p : TrailPoint) : Type 0 where
  pub id : IsFinite p.id
  pub t : IsFinite p.t
  pub pos : IsFiniteVec p.pos

abbrev pub IsFiniteSatellite : Option Satellite → Type 0
IsFiniteSatellite none = Unit
IsFiniteSatellite (some s) = IsFinite s.id × IsFinite s.seq × IsFiniteVec s.pos × IsFiniteVec s.vel

abbrev pub IsWellFormed : Message → Type 0
IsWellFormed (hello h) = IsFinite h.broadcast_hz
IsWellFormed (state s) =
    IsFiniteSatellite s.satellite × All IsFiniteRow s.objects × All IsFiniteTrail s.trail_points

guard-eq-ok {ℓ} :
    {A : Type ℓ} (b : Bool) (p : Problem) {k : Outcome Problem A} {a : A}
    → (guard b p >> k) ≡ ok a
    → (b ≡ true) × (k ≡ ok a)
guard-eq-ok true p e = (refl, e)
guard-eq-ok false p e = cc

num_of-IsFinite : (v : Value) → is_finite_number v ≡ true → IsFinite (num_of v)
unfolding is_finite_number
num_of-IsFinite v h = ground arith

vec-IsFiniteVec :
    (x y z : Value)
    → (is_finite_number x && is_finite_number y && is_finite_number z) ≡ true
    → IsFiniteVec (vec x y z)
vec-IsFiniteVec x y z h = ground (arith, num_of-IsFinite x, num_of-IsFinite y, num_of-IsFinite z)

parse_vel-IsFiniteVel :
    (i : ℕ) (x y z : Value) {v : Option Vec3} → parse_vel i x y z ≡ ok v → IsFiniteVel v
unfolding parse_vel
parse_vel-IsFiniteVel i null y z e = ground arith
parse_vel-IsFiniteVel i x y z e = ground (arith, vec-IsFiniteVec x y z)

parse_cells-IsFiniteRow :
    (i : ℕ) (id cat px py pz vx vy vz conf intensity flags : Value) {r : ObjectRow}
    → parse_cells i id cat px py pz vx vy vz conf intensity flags ≡ ok r
    → IsFiniteRow r
unfolding parse_cells
parse_cells-IsFiniteRow i id cat px py pz vx vy vz conf intensity flags e =
    let (p₁, e₁) = guard-eq-ok _ _ e in
    let (p₂, e₂) = guard-eq-ok _ _ e₁ in
    let (p₃, e₃) = guard-eq-ok _ _ e₂ in
    let (v, p₄, e₄) = >>=-eq-ok (parse_vel i vx vy vz) _ e₃ in
    let (p₅, e₅) = guard-eq-ok _ _ e₄ in
    let (p₆, e₆) = guard-eq-ok _ _ e₅ in
    let (p₇, e₇) = guard-eq-ok _ _ e₆ in
    subst IsFiniteRow (ok-injective e₇) (record {
      id = num_of-IsFinite id p₁;
      pos = vec-IsFiniteVec px py pz p₃;
      vel = parse_vel-IsFiniteVel i vx vy vz p₄;
      conf = num_of-IsFinite conf p₅;
      intensity = num_of-IsFinite intensity p₆;
      flags = num_of-IsFinite flags p₇;
    })

cells-IsFiniteRow : (i : ℕ) (vs : List Value) {r : ObjectRow} → cells i vs ≡ ok r → IsFiniteRow r
unfolding cells
cells-IsFiniteRow i (a ∷ b ∷ c ∷ d ∷ e ∷ f ∷ g ∷ h ∷ j ∷ k ∷ l ∷ []) p =
    parse_cells-IsFiniteRow i a b c d e f g h j k l p
cells-IsFiniteRow i _ p = cc

pub parse_object_row-IsFiniteRow :
    (i : ℕ) (v : Value) {r : ObjectRow} → parse_object_row i v ≡ ok r → IsFiniteRow r
unfolding parse_object_row
parse_object_row-IsFiniteRow i (arr vs) e = cells-IsFiniteRow i (items vs) e
parse_object_row-IsFiniteRow i _ e = cc

trail_cells-IsFiniteTrail :
    (i : ℕ) (vs : List Value) {p : TrailPoint} → trail_cells i vs ≡ ok p → IsFiniteTrail p
unfolding trail_cells
trail_cells-IsFiniteTrail i (a ∷ b ∷ x ∷ y ∷ z ∷ []) e =
    ground (arith, num_of-IsFinite a, num_of-IsFinite b, vec-IsFiniteVec x y z)
trail_cells-IsFiniteTrail i _ e = cc

parse_trail_point_row-IsFiniteTrail :
    (i : ℕ) (v : Value) {p : TrailPoint} → parse_trail_point_row i v ≡ ok p → IsFiniteTrail p
unfolding parse_trail_point_row
parse_trail_point_row-IsFiniteTrail i (arr vs) e = trail_cells-IsFiniteTrail i (items vs) e
parse_trail_point_row-IsFiniteTrail i _ e = cc

pub map_rows-All {ℓ κ} :
    {A : Type ℓ} (P : A → Type κ) (parse : ℕ → Value → Outcome Problem A)
    → ((i : ℕ) (v : Value) (a : A) → parse i v ≡ ok a → P a)
    → (i : ℕ) (vs : List Value) {as_ : List A} → map_rows parse i vs ≡ ok as_
    → All P as_
unfolding map_rows
map_rows-All P parse keep i [] e = subst (All P) (ok-injective e) tt
map_rows-All P parse keep i (v ∷ vs) e =
    let (a, e₁, e₂) = >>=-eq-ok (parse i v) _ e in
    let (bs, e₃, e₄) = >>=-eq-ok (map_rows parse (i + 1) vs) _ e₂ in
    subst (All P) (ok-injective e₄) (keep i v a e₁, map_rows-All P parse keep (i + 1) vs e₃)

parse_satellite-IsFiniteSatellite :
    (v : Value) {s : Option Satellite} → parse_satellite v ≡ ok s → IsFiniteSatellite s
unfolding parse_satellite is_finite_number
parse_satellite-IsFiniteSatellite v e = ground arith

parse_trail_points-All :
    (v : Value) {ps : List TrailPoint} → parse_trail_points v ≡ ok ps → All IsFiniteTrail ps
unfolding parse_trail_points
parse_trail_points-All undefined e = subst (All IsFiniteTrail) (ok-injective e) tt
parse_trail_points-All (arr vs) e =
    map_rows-All IsFiniteTrail parse_trail_point_row
      (λ i v p. parse_trail_point_row-IsFiniteTrail i v) 0 (items vs) e
parse_trail_points-All _ e = cc

parse_state-IsWellFormed :
    (msg : Fields) {s : State} → parse_state msg ≡ ok s → IsWellFormed (state s)
unfolding parse_state
parse_state-IsWellFormed msg e =
    let (t, p₁, e₁) = >>=-eq-ok (require_text (get (codes "serverTime") msg) bad_state_time) _ e in
    let (d, p₂, e₂) = >>=-eq-ok (parse_data_time (get (codes "lastDataTime") msg)) _ e₁ in
    let (sat, p₃, e₃) = >>=-eq-ok (parse_satellite (get (codes "satellite") msg)) _ e₂ in
    let (rows, p₄, e₄) = >>=-eq-ok (require_array (get (codes "objects") msg) bad_objects) _ e₃ in
    let (os, p₅, e₅) = >>=-eq-ok (map_rows parse_object_row 0 rows) _ e₄ in
    let (st, p₆, e₆) = >>=-eq-ok (require_object (get (codes "stats") msg) bad_stats) _ e₅ in
    let (ps, p₇, e₇) = >>=-eq-ok (parse_trail_points (get (codes "trailPoints") msg)) _ e₆ in
    subst (λ s. IsWellFormed (state s)) (ok-injective e₇)
      (
        parse_satellite-IsFiniteSatellite _ p₃,
        map_rows-All IsFiniteRow parse_object_row (λ i v r. parse_object_row-IsFiniteRow i v) 0 rows
            p₅,
        parse_trail_points-All _ p₇,
      )

parse_hello-IsWellFormed :
    (msg : Fields) {h : Hello} → parse_hello msg ≡ ok h → IsWellFormed (hello h)
unfolding parse_hello
parse_hello-IsWellFormed msg e =
    let (p₁, e₁) = guard-eq-ok _ _ e in
    let (t, p₂, e₂) = >>=-eq-ok (require_text (get (codes "serverTime") msg) bad_hello_time) _ e₁ in
    let (p₃, e₃) = guard-eq-ok _ _ e₂ in
    let (l, p₄, e₄) = >>=-eq-ok (require_object (get (codes "limits") msg) bad_limits) _ e₃ in
    subst (λ h. IsWellFormed (hello h)) (ok-injective e₄) (num_of-IsFinite _ p₃)

parse_type-IsWellFormed :
    (type : Text) (msg : Fields) {m : Message} → parse_type type msg ≡ ok m → IsWellFormed m
unfolding parse_type
parse_type-IsWellFormed type msg e = elim (Bool-cases (type === codes "hello")) [
  | inl is_hello ↦
      let (h, p, q) = >>=-eq-ok (parse_hello msg) _ (rw is_hello at e) in
      subst IsWellFormed (ok-injective q) (parse_hello-IsWellFormed msg p)
  | inr other ↦ elim (Bool-cases (type === codes "state")) [
    | inl is_state ↦
        let (s, p, q) = >>=-eq-ok (parse_state msg) _ (rw (other, is_state) at e) in
        subst IsWellFormed (ok-injective q) (parse_state-IsWellFormed msg p)
    | inr unknown_type ↦ absurd (cc (rw (other, unknown_type) at e))
  ]
]

-- Whatever frame parses, its message holds finite numbers only: in the satellite, in every object
-- row, velocity included where there is one, and in every trail point.
pub parse_message-IsWellFormed :
    (frame : Option Value) {m : Message} → parse_message frame ≡ ok m → IsWellFormed m
unfolding parse_message
parse_message-IsWellFormed none e = cc
parse_message-IsWellFormed (some v) e =
    let (msg, p₁, e₁) = >>=-eq-ok (require_object v not_object) _ e in
    let (type, p₂, e₂) = >>=-eq-ok (require_text (get (codes "type") msg) no_type) _ e₁ in
    parse_type-IsWellFormed type msg e₂
