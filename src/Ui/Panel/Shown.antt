-- ===== src/Ui/Panel/Shown.antt =====
-- frontend/js/ui.js: the panel's texts are those of the last data.
use orbital_viewer.Num.Arith.{sub, div}
use orbital_viewer.Value.{Fields}
use orbital_viewer.Camera.{math_max}
use orbital_viewer.Ui.Panel.{
  stat_texts, StatTexts, Panel, PanelEvent, Writing, connection, data_arrived, ticked, sat_texts,
  count_texts, em_dash, or_dash,
}
use orbital_viewer.Model.{Model, get_counts}
use orbital_viewer.Sky.{MathFns}
use orbital_viewer.Num.{lt, whole, Num, is_finite}
use orbital_viewer.Base.{
  ◌≡◌, ◌⊎◌, Bool, true, false, not, Option, none, some, List, [], ◌∷◌, ◌++◌, Text, codes,
}

abbrev pub time_text : Option Text → Text
time_text none = em_dash
time_text (some iso) = or_dash iso

-- The model of the last data, and the statistics of the last data that had any.
abbrev pub last_arrived : List PanelEvent → (before : Option Model) → Option Model
last_arrived [] before = before
last_arrived (connection status url ∷ es) before = last_arrived es before
last_arrived (data_arrived m date_now ∷ es) before = last_arrived es (some m)
last_arrived (ticked now date_now ∷ es) before = last_arrived es before

abbrev newer : Option Fields → (before : Option Fields) → Option Fields
newer none before = before
newer (some stats) before = some stats

abbrev pub newest_stats : List PanelEvent → (before : Option Fields) → Option Fields
newest_stats [] before = before
newest_stats (connection status url ∷ es) before = newest_stats es before
newest_stats (data_arrived m date_now ∷ es) before = newest_stats es (newer m.stats before)
newest_stats (ticked now date_now ∷ es) before = newest_stats es before

-- The time of the last data.
abbrev pub time_of : Option Model → Option Text
time_of none = none
time_of (some m) = m.last_data_time

-- A time that parses has its age in seconds beside it, never below 0, and no time has none.
abbrev pub IsDated : Writing → Option Text → (date_now : Num) → (relative : Text) → Type 0
IsDated w none date_now relative = relative ≡ []
IsDated w (some []) date_now relative = relative ≡ []
IsDated w (some (c ∷ s)) date_now relative =
    (is_finite (w.parse_date (c ∷ s)) ≡ false)
    ⊎ (relative
        ≡ codes "("
          ++ (w.to_fixed
                (math_max (whole 0) (div (sub date_now (w.parse_date (c ∷ s))) (whole 1000))) 1
              ++ codes " s ago)"))

-- The satellite's texts and the counters are those of the model, or the page's own without one.
abbrev pub ShowsModel : MathFns → Writing → (start p : Panel) → Option Model → Type 0
ShowsModel fns w start p none = (p.sat ≡ start.sat) × (p.counts ≡ start.counts)
ShowsModel fns w start p (some m) =
    (p.sat ≡ some (sat_texts fns w m.satellite)) × (p.counts ≡ count_texts w (get_counts m))

abbrev pub stats_shown : Writing → (start : Panel) → Option Fields → Option StatTexts
stats_shown w start none = start.stats
stats_shown w start (some stats) = some (stat_texts w stats)

-- The warning is hidden without data, and else unless the last state was applied more than three
-- seconds ago; data that were never applied are too old.
abbrev pub IsAged : (applied : Option Num) → (now : Num) → (hidden : Bool) → Type 0
IsAged none now hidden = hidden ≡ false
IsAged (some at) now hidden = hidden ≡ not (lt (whole 3) (div (sub now at) (whole 1000)))

abbrev pub IsWarned : Option Model → (now : Num) → (hidden : Bool) → Type 0
IsWarned none now hidden = hidden ≡ true
IsWarned (some m) now hidden = IsAged m.last_applied_at now hidden

module _ (fns : MathFns) (w : Writing) (start : Panel) where
  -- The panel after data whose last model is `m` and whose last statistics are `s`.
  record Holds (m : Option Model) (s : Option Fields) (p : Panel) : Type 0 where
    last : p.last_model ≡ m
    iso : p.time_iso ≡ time_of m
    shown : ShowsModel fns w start p m
    stats : p.stats ≡ stats_shown w start s
