-- ===== src/Tests/Samples.antt =====
-- Concrete inputs for the witnesses.
use orbital_viewer.Sky.{MathFns}
use orbital_viewer.Num.{nan, whole}
use orbital_viewer.Value.{end, num, field, Fields}
use orbital_viewer.Model.{Snapshot}
use orbital_viewer.Settings.Patch.{Conversions}
use orbital_viewer.Net.Message.{debris, ObjectRow, TrailPoint, Vec3, State}
use orbital_viewer.Settings.Store.{Storage, Json}
use orbital_viewer.Renderer.Scene.{Floats, View}
use orbital_viewer.Net.Connection.{create_connection, Callbacks, Conn}
use orbital_viewer.Base.{true, false, none, some, [], ◌∷◌, codes}

abbrev pub floats : Floats
floats = record {
  add = λ x y. x;
  sub = λ x y. x;
  mul = λ x y. x;
  div = λ x y. x;
  hypot = λ v. v.x;
  parse_date = λ t. whole 5000;
}

abbrev pub all_callbacks : Callbacks
all_callbacks = record { has_status = true; has_hello = true; has_state = true }

abbrev pub idle : Conn
idle = create_connection (codes "h") 8765 all_callbacks

abbrev pub origin : Vec3
origin = record { x = whole 1; y = whole 2; z = whole 3 }

abbrev pub a_row : ObjectRow
a_row = record {
  id = whole 7;
  cat = debris;
  pos = origin;
  vel = none;
  conf = whole 1;
  intensity = whole 0;
  flags = whole 0;
}

abbrev pub a_point : TrailPoint
a_point = record { id = whole 7; t = whole 4; pos = origin }

abbrev pub a_state : State
a_state = record {
  server_time = codes "t";
  last_data_time = none;
  satellite = some (record { id = whole 1; seq = whole 2; pos = origin; vel = origin });
  objects = a_row ∷ [];
  stats = end;
  trail_points = a_point ∷ [];
}

abbrev pub a_snapshot : Snapshot
a_snapshot = record {
  satellite = a_state.satellite;
  objects = a_state.objects;
  last_data_time = none;
  server_time = some (codes "t");
  trail_points = a_state.trail_points;
}

abbrev pub conversions : Conversions
conversions = record { of_text = λ t. nan; of_items = λ v. nan; of_fields = λ f. nan }

abbrev pub no_json : Json
no_json = record { parse = λ t. none; stringify = λ s. [] }

abbrev pub working : Storage
working = record { readable = true; writable = true; item = none }

abbrev pub a_patch : Fields
a_patch = field (codes "port") (num (whole 9000)) end

abbrev pub a_view : View
a_view = record {
  show_trails = true;
  trail_seconds = whole 30;
  show_labels = false;
  show_sky = true;
  is_sat = false;
  shown = λ cat. true;
}

-- Functions of Math that keep their argument, and a length of 1.
abbrev pub fns : MathFns
fns = record {
  pi = whole 3;
  sin = λ x. x;
  cos = λ x. whole 1;
  tan = λ x. x;
  acos = λ x. x;
  asin = λ x. x;
  atan2 = λ y x. y;
  hypot = λ xs. whole 1;
  sqrt = λ x. x;
  log10 = λ x. x;
}
