-- ===== src/Tests/NetWitnesses.antt =====
-- Witnesses of the theorems on the connection and its messages.
use orbital_viewer.Net.Connection.Recovery.{recovery-IsUp, recovery, IsUp}
use orbital_viewer.Num.{eq, is_integer}
use orbital_viewer.Net.Message.RoundTrip.{parse_message-encode, parse_message-encode-parse_message}
use orbital_viewer.Base.Outcome.{ok, err}
use orbital_viewer.Net.Message.Encode.{encode, encode_row}
use orbital_viewer.Tests.Samples.{all_callbacks, a_state, a_row, idle}
use orbital_viewer.Net.Message.WellFormed.{parse_message-IsWellFormed, IsWellFormed}
use orbital_viewer.Net.Connection.Isolation.{signals-close, signals}
use orbital_viewer.Net.Message.Rows.{
  map_rows-parse_object_row-FirstBad, map_rows-parse_trail_point_row-FirstBad, row_index, FirstBad,
}
use orbital_viewer.Value.{is_finite_number, null, Value}
use orbital_viewer.Net.Message.{
  bad_trail_row, bad_row, state, parse_object_row, parse_trail_point_row, parse_message, map_rows,
}
use orbital_viewer.Net.Connection.Invariant.{here, called, Reach-create_connection-IsSound, IsSound}
use orbital_viewer.Net.Connection.Backoff.{timers-retries, retries}
use orbital_viewer.Net.Connection.{call_connect, timer, connect, ws_close, call, close, Conn}
use orbital_viewer.Base.{
  ℕ, ◌-◌, ◌*◌, ◌^◌, min, ◌≡◌, refl, ◌≢◌, true, false, some, List, [], ◌∷◌, arith, ltb, codes,
}

Reach-create_connection-IsSound_example : IsSound (call idle (call_connect true))
Reach-create_connection-IsSound_example =
    Reach-create_connection-IsSound (codes "h") 8765 all_callbacks
      (called (call_connect true) refl here)

timers-retries_example :
    let d = retries 2 (connect false idle) in
    d.timers ≡ (d.next_id - 1, min (1000 * 2 ^ 2) 10_000) ∷ []
timers-retries_example = timers-retries 2 idle refl

abbrev dialling : Conn
dialling = record idle { socket = some 4; stopped = false; backoff_index = 3 }

some_neq : {a b : ℕ} → ltb a b ≡ true → some b ≢ some a
some_neq h e = grind (arith, e, h)

dialling-IsSound : IsSound dialling
dialling-IsSound = record { timers_agree = refl; alive = tt }

signals-close_example : signals (close dialling) (ws_close 4 ∷ timer 1 true ∷ []) ≡ close dialling
signals-close_example = signals-close dialling (ws_close 4 ∷ timer 1 true ∷ []) dialling-IsSound

a_state-IsWellFormed : IsWellFormed (state a_state)
a_state-IsWellFormed = ground arith

parse_message-encode_example : parse_message (some (encode (state a_state))) ≡ ok (state a_state)
parse_message-encode_example = parse_message-encode (state a_state) a_state-IsWellFormed

parses : parse_message (some (encode (state a_state))) ≡ ok (state a_state)
parses = parse_message-encode (state a_state) a_state-IsWellFormed

parse_message-encode-parse_message_example :
    parse_message (some (encode (state a_state))) ≡ parse_message (some (encode (state a_state)))
parse_message-encode-parse_message_example =
    parse_message-encode-parse_message (some (encode (state a_state))) parses

parse_message-IsWellFormed_example : IsWellFormed (state a_state)
parse_message-IsWellFormed_example =
    parse_message-IsWellFormed (some (encode (state a_state))) parses

abbrev bad_rows : List Value
bad_rows = encode_row a_row ∷ null ∷ []

rows_refused : map_rows parse_object_row 0 bad_rows ≡ err (bad_row 1)
unfolding map_rows parse_object_row encode_row is_finite_number is_integer eq
rows_refused = refl

map_rows-parse_object_row-FirstBad_example :
    (n : ℕ) × FirstBad parse_object_row 0 n bad_rows (bad_row 1) × (row_index (bad_row 1) ≡ some n)
map_rows-parse_object_row-FirstBad_example =
    map_rows-parse_object_row-FirstBad bad_rows (bad_row 1) rows_refused

points_refused : map_rows parse_trail_point_row 0 (null ∷ []) ≡ err (bad_trail_row 0)
unfolding map_rows parse_trail_point_row
points_refused = refl

map_rows-parse_trail_point_row-FirstBad_example :
    (n : ℕ) × FirstBad parse_trail_point_row 0 n (null ∷ []) (bad_trail_row 0)
    × (row_index (bad_trail_row 0) ≡ some n)
map_rows-parse_trail_point_row-FirstBad_example =
    map_rows-parse_trail_point_row-FirstBad (null ∷ []) (bad_trail_row 0) points_refused

recovery-IsUp_example : IsUp (signals dialling (recovery dialling))
recovery-IsUp_example = recovery-IsUp dialling dialling-IsSound refl
