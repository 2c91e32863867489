-- ===== src/Ui.antt =====
-- frontend/js/ui.js: the closure's variables and what the panel shows. Panel has
-- the texts; nodes that the page lacks are not modelled.
pub mod Choices
pub mod Consistent
pub mod Memory
pub mod Panel
use orbital_viewer.Num.{Num}
use orbital_viewer.Settings.Patch.{Settings, sat, orbit, Conversions, ViewMode}
use orbital_viewer.Settings.Store.{update, reset_defaults, Json, Store}
use orbital_viewer.Value.{obj, end, str, bool, num, field, Fields}
use orbital_viewer.Model.{ListRows, get_list_rows, Model}
use orbital_viewer.Net.Message.{
  Satellite, Category, debris, star, comet, satellite, ground_hot, unknown,
}
use orbital_viewer.Base.{
  ℕ, zero, suc, ◌+◌, ◌-◌, ◌*◌, ◌/◌, ◌%◌, ◌^◌, ◌≤◌, ◌<◌, min, max, ◌≡◌, refl, sym, ap, ◌∙◌, subst,
  fun_ext, ◌≡⟨◌⟩◌, ◌∎, ◌≢◌, ◌↔◌, ◌⊎◌, inl, inr, Bool, true, false, not, ◌&&◌, ◌||◌, Option, none,
  some, List, [], ◌∷◌, ◌++◌, map, append_assoc, append-nil, arith, ltb, leb, ◌==◌, if◌then◌else◌,
  ltb→lt, lt→ltb, leb→le, ==_iff, tests, Bool-cases, Option-cases, and-true, length, take,
  get_elem?, every, keep, length-append, length-take, length-map, All, All-append, Text, codes,
  ◌===◌, ===_iff, ===_self, lookup, has,
}

pub data Badge : Type 0 where
  hidden awaiting_satellite nadir : Badge

-- `form` is what the settings form shows, but for what the user has typed over the host and the port
-- since; `pressed` the view button that is pressed, `shown` the rows of the table with the total in
-- its footer, `selected` the id whose row is marked.
pub record Ui : Type 0 where
  pub store : Store
  pub filter : Option Category
  pub selected : Option Num
  pub last_model : Option Model
  pub collapsed : Bool
  pub settings_open : Bool
  pub about_open : Bool
  pub form : Settings
  pub typed_host : Option Text
  pub typed_port : Option Text
  pub pressed : ViewMode
  pub badge : Badge
  pub shown : Option ListRows

abbrev badge_of : Option Satellite → Badge
badge_of none = awaiting_satellite
badge_of (some _) = nadir

abbrev satellite_of : Option Model → Option Satellite
satellite_of none = none
satellite_of (some m) = m.satellite

abbrev pub badge_for : ViewMode → Option Model → Badge
badge_for orbit m = hidden
badge_for sat m = badge_of (satellite_of m)

unfoldable pub update_view_badge : Ui → Ui
update_view_badge u = record u { badge = badge_for u.store.current.view_mode u.last_model }

unfoldable pub update_view_toggle : Ui → Ui
unfolding update_view_badge
update_view_toggle u = update_view_badge (record u { pressed = u.store.current.view_mode })

unfoldable pub sync_settings_form : Ui → Ui
sync_settings_form u = record u { form = u.store.current; typed_host = none; typed_port = none }

-- The listener that the panel registers with the settings.
unfoldable pub on_settings_change : Ui → Ui
unfolding update_view_toggle sync_settings_form
on_settings_change u = update_view_toggle (if u.settings_open then sync_settings_form u else u)

-- `renderList(model)`
unfoldable pub render_list : Model → Ui → Ui
render_list m u = record u { shown = some (get_list_rows m u.filter 1000) }

-- `if (lastModel) renderList(lastModel)`
unfoldable pub list_again : Ui → Ui
unfolding render_list
list_again u = elim u.last_model [ none ↦ u | some m ↦ render_list m u ]

unfoldable pub chip_clicked : Option Category → Ui → Ui
unfolding list_again
chip_clicked f u = list_again (record u { filter = f })

unfoldable pub update_data : Model → Ui → Ui
unfolding update_view_badge render_list
update_data m u = render_list m (update_view_badge (record u { last_model = some m }))

unfoldable pub set_selected : Option Num → Ui → Ui
set_selected id u = record u { selected = id }

-- A click on a row; main.js hears of it by onSelect.
unfoldable pub row_clicked : Num → Ui → Ui
unfolding set_selected
row_clicked id u = set_selected (some id) u

unfoldable pub open_settings_modal : Ui → Ui
unfolding sync_settings_form
open_settings_modal u = record (sync_settings_form u) { settings_open = true }

abbrev pub other_mode : ViewMode → Text
other_mode sat = codes "orbit"
other_mode orbit = codes "sat"

pub data Key : Type 0 where
  escape v other : Key

-- A field of the settings form that has changed, with its checked state, its text, or Number() of
-- its text.
pub data FieldChange : Type 0 where
  trails_changed labels_changed sky_changed : (checked : Bool) → FieldChange
  category_changed : Category → (checked : Bool) → FieldChange
  host_changed : Text → FieldChange
  trail_seconds_changed port_changed : Num → FieldChange

abbrev pub category_key : Category → Text
category_key debris = codes "debris"
category_key star = codes "star"
category_key comet = codes "comet"
category_key satellite = codes "satellite"
category_key ground_hot = codes "groundHot"
category_key unknown = codes "unknown"

-- The patch that the field's handler gives to the settings.
unfoldable pub field_patch : FieldChange → Fields
field_patch (trails_changed b) = field (codes "showTrails") (bool b) end
field_patch (trail_seconds_changed x) = field (codes "trailSeconds") (num x) end
field_patch (labels_changed b) = field (codes "showLabels") (bool b) end
field_patch (sky_changed b) = field (codes "showSky") (bool b) end
field_patch (category_changed c b) =
    field (codes "categories") (obj (field (category_key c) (bool b) end)) end
field_patch (host_changed s) = field (codes "host") (str s) end
field_patch (port_changed x) = field (codes "port") (num x) end

-- What the user does, and the calls of main.js. `in_field` tells whether the key went to a field of
-- a form; host_typed and port_typed are the text in the field after a key, before its change event.
pub data UiEvent : Type 0 where
  panel_toggle : UiEvent
  chip : Option Category → UiEvent
  row : Num → UiEvent
  open_settings open_about close_settings close_about : UiEvent
  view_button : ViewMode → UiEvent
  key_down : Key → (in_field : Bool) → UiEvent
  host_typed port_typed : Text → UiEvent
  changed : FieldChange → UiEvent
  reset_button reconnect_button : UiEvent
  data_arrived : Model → UiEvent
  select : Option Num → UiEvent

abbrev pub view_patch : Text → Fields
view_patch mode = field (codes "viewMode") (str mode) end

abbrev pub mode_text : ViewMode → Text
mode_text orbit = codes "orbit"
mode_text sat = codes "sat"

module _ (c : Conversions) (json : Json) where
  -- `settingsStore.update(patch)`, with what the panel's listener does.
  unfoldable pub update_store : Fields → Ui → Ui
  unfolding on_settings_change
  update_store patch u = on_settings_change (record u { store = update c json u.store (obj patch) })

  unfoldable pub close_all_modals : Ui → Ui
  close_all_modals u = record u { settings_open = false; about_open = false }

  unfoldable pub key_pressed : Key → (in_field : Bool) → Ui → Ui
  unfolding close_all_modals update_store
  key_pressed escape in_field u = close_all_modals u
  key_pressed other in_field u = u
  key_pressed v in_field u =
      if in_field || (u.settings_open || u.about_open)
      then u
      else update_store (view_patch (other_mode u.store.current.view_mode)) u

  -- `settingsStore.resetDefaults(); syncSettingsForm()`
  unfoldable pub reset_clicked : Ui → Ui
  unfolding sync_settings_form on_settings_change
  reset_clicked u =
      sync_settings_form (on_settings_change (record u { store = reset_defaults c json u.store }))

  unfoldable pub view_clicked : ViewMode → Ui → Ui
  unfolding update_store
  view_clicked m u = update_store (view_patch (mode_text m)) u

  unfoldable pub field_changed : FieldChange → Ui → Ui
  unfolding update_store field_patch
  field_changed f u = update_store (field_patch f) u

  unfoldable pub ui_event : Ui → UiEvent → Ui
  unfolding key_pressed update_data chip_clicked row_clicked open_settings_modal set_selected
      reset_clicked view_clicked field_changed
  ui_event u panel_toggle = record u { collapsed = not u.collapsed }
  ui_event u (chip f) = chip_clicked f u
  ui_event u (row id) = row_clicked id u
  ui_event u open_settings = open_settings_modal u
  ui_event u open_about = record u { about_open = true }
  ui_event u close_settings = record u { settings_open = false }
  ui_event u close_about = record u { about_open = false }
  ui_event u (view_button m) = view_clicked m u
  ui_event u (key_down k in_field) = key_pressed k in_field u
  ui_event u (host_typed s) = record u { typed_host = some s }
  ui_event u (port_typed s) = record u { typed_port = some s }
  ui_event u (changed f) = field_changed f u
  ui_event u reset_button = reset_clicked u
  ui_event u reconnect_button = u
  ui_event u (data_arrived m) = update_data m u
  ui_event u (select id) = set_selected id u

  unfoldable pub create_ui : Store → Ui
  unfolding update_view_toggle sync_settings_form
  create_ui store = update_view_toggle (record {
    store = store;
    filter = none;
    selected = none;
    last_model = none;
    collapsed = false;
    settings_open = false;
    about_open = false;
    form = store.current;
    typed_host = none;
    typed_port = none;
    pressed = orbit;
    badge = hidden;
    shown = none;
  })

  unfoldable pub run_ui : Ui → List UiEvent → Ui
  unfolding ui_event
  run_ui u [] = u
  run_ui u (e ∷ es) = run_ui (ui_event u e) es
