-- ===== src/Ui/Panel.antt =====
-- The texts of the panel (frontend/js/ui.js: fmtFixed, fmtInt, updateConnection, updateData,
-- updateDataTimeText and tick), of a page that has all the nodes. `show` is String() of a number,
-- `to_fixed` its method toFixed, `parse_date` Date.parse.
pub mod Shown
use Prim.Native.String.{String}
use orbital_viewer.Num.{Num, nan, inf, whole, lt, is_finite}
use orbital_viewer.Num.Arith.{add, sub, mul, div}
use orbital_viewer.Sky.{MathFns}
use orbital_viewer.Camera.{math_max}
use orbital_viewer.Model.{Model, Counts, get_counts, seconds_since_last_state}
use orbital_viewer.Net.Connection.{Status, connecting, opened, closed}
use orbital_viewer.Net.Message.{Satellite, Vec3}
use orbital_viewer.Value.{Value, Fields, num, get}
use orbital_viewer.Base.{
  ℕ, zero, suc, ◌+◌, ◌-◌, ◌*◌, ◌/◌, ◌%◌, ◌^◌, ◌≤◌, ◌<◌, min, max, ◌≡◌, refl, sym, ap, ◌∙◌, subst,
  fun_ext, ◌≡⟨◌⟩◌, ◌∎, ◌≢◌, ◌↔◌, ◌⊎◌, inl, inr, Bool, true, false, not, ◌&&◌, ◌||◌, Option, none,
  some, List, [], ◌∷◌, ◌++◌, map, append_assoc, append-nil, arith, ltb, leb, ◌==◌, if◌then◌else◌,
  ltb→lt, lt→ltb, leb→le, ==_iff, tests, Bool-cases, Option-cases, and-true, length, take,
  get_elem?, every, keep, length-append, length-take, length-map, All, All-append, Text, codes,
  ◌===◌, ===_iff, ===_self, lookup, has,
}

-- The long dash.
abbrev pub em_dash : Text
em_dash = 8212 ∷ []

-- What the runtime makes of numbers and dates.
pub record Writing : Type 0 where
  pub show : Num → Text
  pub to_fixed : Num → (digits : ℕ) → Text
  pub parse_date : Text → Num

unfoldable pub fmt_fixed : Writing → Num → (digits : ℕ) → Text
fmt_fixed w v digits = if is_finite v then w.to_fixed v digits else em_dash

unfoldable pub fmt_int : Writing → Num → Text
fmt_int w v = if is_finite v then w.show v else em_dash

-- A value of the statistics, which JSON gave; what is not a number is not finite.
abbrev number_of : Value → Num
number_of (num x) = x
number_of _ = nan

pub record StatTexts : Type 0 where
  pub received : Text
  pub accepted : Text
  pub dropped : Text
  pub rate : Text
  pub clients : Text
  pub objects : Text
  pub seq : Text

unfoldable pub stat_texts : Writing → Fields → StatTexts
unfolding fmt_int fmt_fixed get
stat_texts w stats =
    let int : String → Text = λ key. fmt_int w (number_of (get (codes key) stats)) in
    record {
      received = int "udpReceived";
      accepted = int "udpAccepted";
      dropped = int "udpDropped";
      rate = fmt_fixed w (number_of (get (codes "udpRateHz") stats)) 2;
      clients = int "wsClients";
      objects = int "objectCount";
      seq = int "broadcastSeq";
    }

pub record SatTexts : Type 0 where
  pub id : Text
  pub seq : Text
  pub x : Text
  pub y : Text
  pub z : Text
  pub speed : Text
  pub altitude : Text

-- A length in kilometres of a vector in metres.
unfoldable pub kilometres : MathFns → Vec3 → Num
unfolding add mul div
kilometres fns v = div (fns.sqrt (add (add (mul v.x v.x) (mul v.y v.y)) (mul v.z v.z))) (whole 1000)

unfoldable pub sat_texts : MathFns → Writing → Option Satellite → SatTexts
unfolding fmt_int fmt_fixed kilometres sub div
sat_texts fns w none = record {
  id = em_dash;
  seq = em_dash;
  x = em_dash;
  y = em_dash;
  z = em_dash;
  speed = em_dash;
  altitude = em_dash;
}
sat_texts fns w (some s) = record {
  id = fmt_int w s.id;
  seq = fmt_int w s.seq;
  x = fmt_fixed w (div s.pos.x (whole 1000)) 1;
  y = fmt_fixed w (div s.pos.y (whole 1000)) 1;
  z = fmt_fixed w (div s.pos.z (whole 1000)) 1;
  speed = fmt_fixed w (kilometres fns s.vel) 2;
  altitude = fmt_fixed w (sub (kilometres fns s.pos) (whole 6371)) 1;
}

-- The texts of the counters: all, and by category in the order of CATEGORY_LIST.
unfoldable pub count_texts : Writing → Counts → List Text
count_texts w n =
    w.show (whole n.total)
    ∷ w.show (whole n.debris)
    ∷ w.show (whole n.star)
    ∷ w.show (whole n.comet)
    ∷ w.show (whole n.satellite)
    ∷ w.show (whole n.ground_hot)
    ∷ w.show (whole n.unknown)
    ∷ []

abbrev pub status_text : Status → Text
status_text connecting = codes "connecting"
status_text opened = codes "open"
status_text closed = codes "closed"

-- `url || EM_DASH`, and the like for a time.
abbrev pub or_dash : Text → Text
or_dash [] = em_dash
or_dash (c ∷ s) = c ∷ s

-- The nodes' texts, and the variables lastDataTimeIso and lastModel; `dot` is the class of the
-- status dot.
pub record Panel : Type 0 where
  pub status : Text
  pub dot : Text
  pub url : Text
  pub stats : Option StatTexts
  pub sat : Option SatTexts
  pub counts : List Text
  pub time : Text
  pub relative : Text
  pub stale_hidden : Bool
  pub time_iso : Option Text
  pub last_model : Option Model

-- The calls, with what Date.now() gives where they read it.
pub data PanelEvent : Type 0 where
  connection : Status → (url : Text) → PanelEvent
  data_arrived : Model → (date_now : Num) → PanelEvent
  ticked : (now date_now : Num) → PanelEvent

unfoldable pub update_connection : Status → (url : Text) → Panel → Panel
update_connection status url p = record p {
  status = status_text status;
  dot = codes "status-" ++ status_text status;
  url = or_dash url;
}

-- `(2.0 s ago)`
unfoldable pub age_text : Writing → (data_ms date_now : Num) → Text
unfolding sub div
age_text w data_ms date_now =
    codes "("
    ++ (w.to_fixed (math_max (whole 0) (div (sub date_now data_ms) (whole 1000))) 1
        ++ codes " s ago)")

unfoldable pub write_time : Writing → (date_now : Num) → Panel → (iso : Option Text) → Panel
unfolding age_text
write_time w date_now p none = record p { time = em_dash; relative = [] }
write_time w date_now p (some []) = record p { time = em_dash; relative = [] }
write_time w date_now p (some (c ∷ s)) =
    let ms = w.parse_date (c ∷ s) in
    record p {
      time = c ∷ s;
      relative = if is_finite ms then age_text w ms date_now else p.relative;
    }

unfoldable pub update_data_time_text : Writing → (date_now : Num) → Panel → Panel
unfolding write_time
update_data_time_text w date_now p = write_time w date_now p p.time_iso

abbrev stats_or : Writing → Option Fields → Option StatTexts → Option StatTexts
stats_or w none kept = kept
stats_or w (some stats) kept = some (stat_texts w stats)

unfoldable pub update_texts : MathFns → Writing → Model → (date_now : Num) → Panel → Panel
unfolding update_data_time_text stat_texts sat_texts count_texts get_counts
update_texts fns w m date_now p =
    record (update_data_time_text w date_now (record p { time_iso = m.last_data_time })) {
      last_model = some m;
      stats = stats_or w m.stats p.stats;
      sat = some (sat_texts fns w m.satellite);
      counts = count_texts w (get_counts m);
    }

-- `(nowMs - lastAppliedAtMs) / 1000`
unfoldable pub elapsed : (now at : Num) → Num
unfolding sub div
elapsed now at = div (sub now at) (whole 1000)

-- More than three seconds since the last state; a model without one has Infinity.
abbrev pub late : Option Num → Bool
late none = true
late (some seconds) = lt (whole 3) seconds

unfoldable pub is_stale : Option Model → (now : Num) → Bool
unfolding elapsed seconds_since_last_state lt
is_stale none now = false
is_stale (some m) now = late (seconds_since_last_state elapsed m now)

unfoldable pub tick : Writing → (now date_now : Num) → Panel → Panel
unfolding update_data_time_text is_stale
tick w now date_now p = record (update_data_time_text w date_now p) {
  stale_hidden = not (is_stale p.last_model now);
}

unfoldable pub panel_event : MathFns → Writing → PanelEvent → Panel → Panel
unfolding update_connection update_texts tick
panel_event fns w (connection status url) p = update_connection status url p
panel_event fns w (data_arrived m date_now) p = update_texts fns w m date_now p
panel_event fns w (ticked now date_now) p = tick w now date_now p

unfoldable pub run_panel : MathFns → Writing → Panel → List PanelEvent → Panel
unfolding panel_event
run_panel fns w p [] = p
run_panel fns w p (e ∷ es) = run_panel fns w (panel_event fns w e p) es
