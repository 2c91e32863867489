-- ===== src/Net/Message.antt =====
-- frontend/js/net.js: parseStateMessage and its helpers, on the value that JSON.parse gave.
pub mod Encode
pub mod WellFormed
pub mod RoundTrip
pub mod Rows
use orbital_viewer.Base.{
  ℕ, ◌+◌, ◌/◌, ◌^◌, Bool, true, false, ◌&&◌, Option, none, some, List, [], ◌∷◌, ◌==◌, if◌then◌else◌,
  Text, codes, ◌===◌,
}
use orbital_viewer.Base.Outcome.{Outcome, ok, err, ◌>>=◌, ◌>>◌}
use orbital_viewer.Num.{Num, fin, nan, is_integer, eq, whole}
use orbital_viewer.Value.{
  Value, undefined, null, num, str, arr, obj, Items, Fields, items, get, is_finite_number,
}

pub data Category : Type 0 where
  unknown debris star comet satellite ground_hot : Category

pub record Vec3 : Type 0 where
  pub x : Num
  pub y : Num
  pub z : Num

pub record Satellite : Type 0 where
  pub id : Num
  pub seq : Num
  pub pos : Vec3
  pub vel : Vec3

pub record ObjectRow : Type 0 where
  pub id : Num
  pub cat : Category
  pub pos : Vec3
  pub vel : Option Vec3
  pub conf : Num
  pub intensity : Num
  pub flags : Num

pub record TrailPoint : Type 0 where
  pub id : Num
  pub t : Num
  pub pos : Vec3

pub record Hello : Type 0 where
  pub server_time : Text
  pub broadcast_hz : Num
  pub limits : Fields

pub record State : Type 0 where
  pub server_time : Text
  pub last_data_time : Option Text
  pub satellite : Option Satellite
  pub objects : List ObjectRow
  pub stats : Fields
  pub trail_points : List TrailPoint

-- protocolVersion is 1 in every `hello` that parses.
pub data Message : Type 0 where
  hello : Hello → Message
  state : State → Message

-- The messages of the errors; an index is that of the row.
pub data Problem : Type 0 where
  bad_json not_object no_type : Problem
  unknown_type : Text → Problem
  bad_version bad_hello_time bad_broadcast bad_limits : Problem
  bad_state_time bad_data_time bad_objects bad_stats : Problem
  bad_satellite bad_satellite_ids bad_satellite_pos bad_satellite_vel : Problem
  bad_row bad_id bad_cat bad_pos mixed_vel bad_vel bad_conf bad_intensity bad_flags : ℕ → Problem
  bad_trail : Problem
  bad_trail_row : ℕ → Problem

abbrev Parsed {ℓ} : Type ℓ → Type ℓ
Parsed A = Outcome Problem A

abbrev pub guard : Bool → Problem → Outcome Problem (Unit {0})
guard true p = ok tt
guard false p = err p

-- The number behind a test that passed.
abbrev pub num_of : Value → Num
num_of (num x) = x
num_of _ = nan

-- `CATEGORY_NAMES[cat] || 'unknown'`, at an integer
category_index : ℕ → Category
category_index n =
    if n == 1
    then debris
    else if n == 2
    then star
    else if n == 3
    then comet
    else if n == 4
    then satellite
    else if n == 5
    then ground_hot
    else unknown

unfoldable pub category : Num → Category
unfolding category_index
category (fin false n k) = category_index (n / 2 ^ k)
category _ = unknown

abbrev is_integer_value : Value → Bool
is_integer_value (num x) = is_integer x
is_integer_value _ = false

abbrev pub vec : Value → Value → Value → Vec3
vec x y z = record { x = num_of x; y = num_of y; z = num_of z }

abbrev all3 : Value → Value → Value → Bool
all3 x y z = is_finite_number x && is_finite_number y && is_finite_number z

-- `isNumberArray3`, with the vector
number_array3 : Value → Option Vec3
number_array3 (arr (Items.cons x (Items.cons y (Items.cons z Items.nil)))) =
    if all3 x y z then some (vec x y z) else none
number_array3 _ = none

require {ℓ} : {A : Type ℓ} → Option A → Problem → Outcome Problem A
require (some a) p = ok a
require none p = err p

require_text : Value → Problem → Outcome Problem Text
require_text (str s) p = ok s
require_text _ p = err p

require_object : Value → Problem → Outcome Problem Fields
require_object (obj fs) p = ok fs
require_object _ p = err p

require_array : Value → Problem → Outcome Problem (List Value)
require_array (arr vs) p = ok (items vs)
require_array _ p = err p

unfoldable pub parse_satellite : Value → Outcome Problem (Option Satellite)
unfolding number_array3 require
parse_satellite null = ok none
parse_satellite undefined = ok none
parse_satellite (obj sat) = do
  guard (is_finite_number (get (codes "id") sat) && is_finite_number (get (codes "seq") sat))
      bad_satellite_ids
  p ← require (number_array3 (get (codes "pos") sat)) bad_satellite_pos
  v ← require (number_array3 (get (codes "vel") sat)) bad_satellite_vel
  ok (
      some (record {
        id = num_of (get (codes "id") sat);
        seq = num_of (get (codes "seq") sat);
        pos = p;
        vel = v;
      }))
parse_satellite _ = err bad_satellite

abbrev is_null : Value → Bool
is_null null = true
is_null _ = false

parse_vel : (index : ℕ) → (vx vy vz : Value) → Outcome Problem (Option Vec3)
parse_vel i null vy vz = guard (is_null vy && is_null vz) (mixed_vel i) >> ok none
parse_vel i vx vy vz = guard (all3 vx vy vz) (bad_vel i) >> ok (some (vec vx vy vz))

parse_cells :
    (index : ℕ)
    → (id cat px py pz vx vy vz conf intensity flags : Value) → Outcome Problem ObjectRow
parse_cells i id cat px py pz vx vy vz conf intensity flags = do
  guard (is_finite_number id) (bad_id i)
  guard (is_integer_value cat) (bad_cat i)
  guard (all3 px py pz) (bad_pos i)
  v ← parse_vel i vx vy vz
  guard (is_finite_number conf) (bad_conf i)
  guard (is_finite_number intensity) (bad_intensity i)
  guard (is_finite_number flags) (bad_flags i)
  ok (record {
    id = num_of id;
    cat = category (num_of cat);
    pos = vec px py pz;
    vel = v;
    conf = num_of conf;
    intensity = num_of intensity;
    flags = num_of flags;
  })

-- `row.length !== 11`, with the destructuring behind it
cells : (index : ℕ) → List Value → Outcome Problem ObjectRow
cells i (a ∷ b ∷ c ∷ d ∷ e ∷ f ∷ g ∷ h ∷ j ∷ k ∷ l ∷ []) = parse_cells i a b c d e f g h j k l
cells i _ = err (bad_row i)

unfoldable pub parse_object_row : (index : ℕ) → Value → Outcome Problem ObjectRow
unfolding cells parse_cells parse_vel
parse_object_row i (arr vs) = cells i (items vs)
parse_object_row i _ = err (bad_row i)

trail_cells : (index : ℕ) → List Value → Outcome Problem TrailPoint
trail_cells i (id ∷ t ∷ px ∷ py ∷ pz ∷ []) =
    if is_finite_number id && is_finite_number t && all3 px py pz
    then ok (record { id = num_of id; t = num_of t; pos = vec px py pz })
    else err (bad_trail_row i)
trail_cells i _ = err (bad_trail_row i)

unfoldable pub parse_trail_point_row : (index : ℕ) → Value → Outcome Problem TrailPoint
unfolding trail_cells
parse_trail_point_row i (arr vs) = trail_cells i (items vs)
parse_trail_point_row i _ = err (bad_trail_row i)

-- `rows.map(parse)`, where a row that throws ends the loop
unfoldable pub map_rows {ℓ} :
    {A : Type ℓ} → (ℕ → Value → Outcome Problem A) → ℕ → List Value → Outcome Problem (List A)
map_rows parse i [] = ok []
map_rows parse i (v ∷ vs) = do a ← parse i v; as_ ← map_rows parse (i + 1) vs; ok (a ∷ as_)

unfoldable pub parse_trail_points : Value → Outcome Problem (List TrailPoint)
unfolding require_array
parse_trail_points undefined = ok []
parse_trail_points v = require_array v bad_trail >>= map_rows parse_trail_point_row 0

parse_data_time : Value → Outcome Problem (Option Text)
parse_data_time null = ok none
parse_data_time (str s) = ok (some s)
parse_data_time _ = err bad_data_time

unfoldable pub parse_state : Fields → Outcome Problem State
unfolding require_text require_object require_array parse_data_time
parse_state msg = do
  server_time ← require_text (get (codes "serverTime") msg) bad_state_time
  last_data_time ← parse_data_time (get (codes "lastDataTime") msg)
  sat ← parse_satellite (get (codes "satellite") msg)
  rows ← require_array (get (codes "objects") msg) bad_objects
  objects ← map_rows parse_object_row 0 rows
  stats ← require_object (get (codes "stats") msg) bad_stats
  trail_points ← parse_trail_points (get (codes "trailPoints") msg)
  ok (record {
    server_time = server_time;
    last_data_time = last_data_time;
    satellite = sat;
    objects = objects;
    stats = stats;
    trail_points = trail_points;
  })

abbrev is_one : Value → Bool
is_one (num x) = eq x (whole 1)
is_one _ = false

unfoldable pub parse_hello : Fields → Outcome Problem Hello
unfolding require_text require_object
parse_hello msg = do
  guard (is_one (get (codes "protocolVersion") msg)) bad_version
  server_time ← require_text (get (codes "serverTime") msg) bad_hello_time
  guard (is_finite_number (get (codes "broadcastHz") msg)) bad_broadcast
  limits ← require_object (get (codes "limits") msg) bad_limits
  ok (record {
    server_time = server_time;
    broadcast_hz = num_of (get (codes "broadcastHz") msg);
    limits = limits;
  })

parse_type : Text → Fields → Outcome Problem Message
parse_type type msg =
    if type === codes "hello"
    then parse_hello msg >>= (λ h. ok (hello h))
    else if type === codes "state"
    then parse_state msg >>= (λ s. ok (state s))
    else err (unknown_type type)

-- parseStateMessage on what JSON.parse returned; `none` is its exception.
unfoldable pub parse_message : Option Value → Outcome Problem Message
unfolding require_object require_text parse_type
parse_message none = err bad_json
parse_message (some v) = do
  msg ← require_object v not_object
  type ← require_text (get (codes "type") msg) no_type
  parse_type type msg
