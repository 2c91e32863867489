-- ===== src/Net/Message/RoundTrip.antt =====
-- frontend/js/net.js against docs/PROTOCOL_WS.md: reading back the protocol's frames.
use orbital_viewer.Base.{
  ℕ, ◌+◌, ◌≡◌, refl, sym, ◌∙◌, Option, none, some, List, [], ◌∷◌, map, arith, All, Text, ◌===◌,
  lookup,
}
use orbital_viewer.Base.Outcome.{Outcome, ok}
use orbital_viewer.Net.Message.Encode.{
  encode, encode_time, encode_row, encode_trail_point, encode_satellite,
}
use orbital_viewer.Net.Message.WellFormed.{
  IsWellFormed, parse_message-IsWellFormed, IsFiniteRow, IsFiniteTrail, IsFiniteSatellite,
}
use orbital_viewer.Net.Message.{
  eq, parse_hello, hello, state, Problem, State, parse_state, parse_trail_points, Value, Message,
  map_rows, parse_message, parse_data_time, Satellite, ObjectRow, TrailPoint, parse_satellite,
  parse_object_row, parse_trail_point_row, category,
}
use orbital_viewer.Num.{eq, is_integer}
use orbital_viewer.Value.{items-of_items, items, of_items, arr, is_finite_number, get}

parse_object_row-encode_row :
    (i : ℕ) (r : ObjectRow) → IsFiniteRow r → parse_object_row i (encode_row r) ≡ ok r
unfolding parse_object_row is_finite_number encode_row category is_integer
parse_object_row-encode_row i r h = ground arith

parse_trail_point_row-encode_trail_point :
    (i : ℕ) (p : TrailPoint)
    → IsFiniteTrail p
    → parse_trail_point_row i (encode_trail_point p) ≡ ok p
unfolding parse_trail_point_row is_finite_number encode_trail_point
parse_trail_point_row-encode_trail_point i p h = ground arith

parse_satellite-encode_satellite :
    (s : Option Satellite) → IsFiniteSatellite s → parse_satellite (encode_satellite s) ≡ ok s
unfolding parse_satellite is_finite_number encode_satellite get lookup ◌===◌
parse_satellite-encode_satellite none h = refl
parse_satellite-encode_satellite (some s) h = ground arith

parse_data_time-encode_time : (t : Option Text) → parse_data_time (encode_time t) ≡ ok t
unfolding parse_data_time encode_time
parse_data_time-encode_time none = refl
parse_data_time-encode_time (some t) = refl

map_rows-map {ℓ κ} :
    {A : Type ℓ} (P : A → Type κ) (parse : ℕ → Value → Outcome Problem A) (print : A → Value)
    → ((i : ℕ) (a : A) → P a → parse i (print a) ≡ ok a)
    → (i : ℕ) (as_ : List A) → All P as_
    → map_rows parse i (map print as_) ≡ ok as_
unfolding map_rows
map_rows-map P parse print back i [] h = refl
map_rows-map P parse print back i (a ∷ as_) (p, h) =
    rw (back i a p, map_rows-map P parse print back (i + 1) as_ h)

map_rows-encode_row :
    (rows : List ObjectRow)
    → All IsFiniteRow rows
    → map_rows parse_object_row 0 (items (of_items (map encode_row rows))) ≡ ok rows
map_rows-encode_row rows h =
    rw items-of_items
      (map_rows-map IsFiniteRow parse_object_row encode_row parse_object_row-encode_row 0 rows h)

parse_trail_points-encode_trail_point :
    (ps : List TrailPoint)
    → All IsFiniteTrail ps
    → parse_trail_points (arr (of_items (map encode_trail_point ps))) ≡ ok ps
unfolding parse_trail_points
parse_trail_points-encode_trail_point ps h = rw items-of_items (
    map_rows-map IsFiniteTrail parse_trail_point_row encode_trail_point
      parse_trail_point_row-encode_trail_point 0 ps h)

parse_message-encode_state :
    (s : State) → IsWellFormed (state s) → parse_message (some (encode (state s))) ≡ ok (state s)
unfolding parse_message parse_state encode get lookup ◌===◌
parse_message-encode_state s (sat, rows, trail) = rw (
  parse_data_time-encode_time s.last_data_time,
  parse_satellite-encode_satellite s.satellite sat,
  map_rows-encode_row s.objects rows,
  parse_trail_points-encode_trail_point s.trail_points trail,
)

-- Every message with finite numbers that the protocol's frames can carry is read back from its frame.
pub parse_message-encode : (m : Message) → IsWellFormed m → parse_message (some (encode m)) ≡ ok m
parse_message-encode (hello h) w =
    unfold parse_message parse_hello encode get lookup ◌===◌ is_finite_number eq in ground arith
parse_message-encode (state s) w = parse_message-encode_state s w

-- Any frame that parses, re-encoded as the protocol has it, parses to the same message.
pub parse_message-encode-parse_message :
    (frame : Option Value) {m : Message}
    → parse_message frame ≡ ok m
    → parse_message (some (encode m)) ≡ parse_message frame
parse_message-encode-parse_message frame {m} e =
    parse_message-encode m (parse_message-IsWellFormed frame e) ∙ sym e
