-- ===== src/Ui/Consistent.antt =====
-- frontend/js/ui.js: what the panel shows agrees with the settings and the data.
use orbital_viewer.Settings.Store.{Store, reset_defaults, Json}
use orbital_viewer.Settings.Patch.{Conversions, ViewMode, orbit, sat}
use mathlib.Core.Bool.{false≢true}
use orbital_viewer.Net.Message.{Category, Satellite}
use orbital_viewer.Model.{get_list_rows, ListRows, Model}
use orbital_viewer.Ui.{
  v, other, escape, reset_button, reconnect_button, host_typed, port_typed, chip_clicked,
  row_clicked, open_settings_modal, set_selected, reset_clicked, view_clicked, field_changed, Badge,
  hidden, awaiting_satellite, nadir, close_about, close_settings, open_about, open_settings,
  panel_toggle, select, data_arrived, changed, key_down, view_button, row, chip, close_all_modals,
  update_store, key_pressed, UiEvent, ui_event, run_ui, create_ui, badge_for, on_settings_change,
  Ui,
}
use orbital_viewer.Ui.Memory.{Memory, at_first, recall_all, seen, seen-run_ui}
use orbital_viewer.Base.{
  ◌≡◌, refl, ◌∙◌, subst, inl, inr, true, ◌||◌, Option, none, some, List, [], ◌∷◌, Bool-cases,
  Option-cases,
}

abbrev pub expected_rows : Option Model → Option Category → Option ListRows
expected_rows none f = none
expected_rows (some m) f = some (get_list_rows m f 1000)

-- No badge in the orbit view; in the other, whether there is a satellite.
abbrev pub expected_badge : ViewMode → Option Satellite → Badge
expected_badge orbit s = hidden
expected_badge sat none = awaiting_satellite
expected_badge sat (some s) = nadir

abbrev pub satellite_in : Option Model → Option Satellite
satellite_in none = none
satellite_in (some m) = m.satellite

-- The panel shows what is remembered.
pub record IsConsistent (x : Memory) (u : Ui) : Type 0 where
  pub settings_window : u.settings_open ≡ x.settings_open
  pub about_window : u.about_open ≡ x.about_open
  pub marked : u.selected ≡ x.selected
  pub settings : u.store.current ≡ x.settings
  pub rows : u.shown ≡ expected_rows x.last x.filter
  pub pressed : u.pressed ≡ x.settings.view_mode
  pub badge : u.badge ≡ expected_badge x.settings.view_mode (satellite_in x.last)
  pub form : x.settings_open ≡ true → u.form ≡ x.settings
  pub host : u.typed_host ≡ x.host
  pub port : u.typed_port ≡ x.port

-- The panel agrees with its own variables.
record IsCurrent (u : Ui) : Type 0 where
  rows : u.shown ≡ expected_rows u.last_model u.filter
  pressed : u.pressed ≡ u.store.current.view_mode
  badge : u.badge ≡ badge_for u.store.current.view_mode u.last_model
  form : u.settings_open ≡ true → u.form ≡ u.store.current

on_settings_change-IsCurrent :
    (u : Ui) → u.shown ≡ expected_rows u.last_model u.filter → IsCurrent (on_settings_change u)
unfolding on_settings_change
on_settings_change-IsCurrent u h = elim (Bool-cases u.settings_open) [
  | inl p ↦ record { rows = rw p h; pressed = rw p refl; badge = rw p refl; form = λ _. rw p refl }
  | inr p ↦ record {
    rows = rw p h;
    pressed = rw p refl;
    badge = rw p refl;
    form = λ e. absurd (false≢true (rw p at e));
  }
]

chip-IsCurrent : (u : Ui) (f : Option Category) → IsCurrent u → IsCurrent (chip_clicked f u)
unfolding chip_clicked
chip-IsCurrent u f h = elim (Option-cases u.last_model) [
  | inl p ↦
      rw p
        (record { rows = h.rows ∙ rw p refl; pressed = h.pressed; badge = h.badge; form = h.form })
  | inr (m, p) ↦
      rw p (record { rows = rw p refl; pressed = h.pressed; badge = h.badge; form = h.form })
]

badge_for-expected_badge :
    (mode : ViewMode) (m : Option Model) → badge_for mode m ≡ expected_badge mode (satellite_in m)
badge_for-expected_badge orbit m = refl
badge_for-expected_badge sat none = refl
badge_for-expected_badge sat (some m) = elim (Option-cases m.satellite) [
  | inl p ↦ rw p refl
  | inr (s, p) ↦ rw p refl
]

module _ (c : Conversions) (json : Json) where
  ui_event-IsCurrent : (u : Ui) (e : UiEvent) → IsCurrent u → IsCurrent (ui_event c json u e)
  unfolding ui_event key_pressed update_store close_all_modals row_clicked open_settings_modal
      set_selected reset_clicked view_clicked field_changed
  ui_event-IsCurrent u panel_toggle h = record {
    rows = h.rows;
    pressed = h.pressed;
    badge = h.badge;
    form = h.form;
  }
  ui_event-IsCurrent u (chip f) h = chip-IsCurrent u f h
  ui_event-IsCurrent u (row id) h = record {
    rows = h.rows;
    pressed = h.pressed;
    badge = h.badge;
    form = h.form;
  }
  ui_event-IsCurrent u open_settings h = record {
    rows = h.rows;
    pressed = h.pressed;
    badge = h.badge;
    form = λ _. refl;
  }
  ui_event-IsCurrent u open_about h = record {
    rows = h.rows;
    pressed = h.pressed;
    badge = h.badge;
    form = h.form;
  }
  ui_event-IsCurrent u close_settings h = record {
    rows = h.rows;
    pressed = h.pressed;
    badge = h.badge;
    form = λ e. absurd (false≢true e);
  }
  ui_event-IsCurrent u close_about h = record {
    rows = h.rows;
    pressed = h.pressed;
    badge = h.badge;
    form = h.form;
  }
  ui_event-IsCurrent u (view_button m) h = on_settings_change-IsCurrent _ h.rows
  ui_event-IsCurrent u (key_down escape b) h = record {
    rows = h.rows;
    pressed = h.pressed;
    badge = h.badge;
    form = λ e. absurd (false≢true e);
  }
  ui_event-IsCurrent u (key_down other b) h = h
  ui_event-IsCurrent u (key_down v b) h =
      elim (Bool-cases (b || (u.settings_open || u.about_open))) [
        | inl p ↦ rw p h
        | inr p ↦ rw p (on_settings_change-IsCurrent _ h.rows)
      ]
  ui_event-IsCurrent u (host_typed s) h = record {
    rows = h.rows;
    pressed = h.pressed;
    badge = h.badge;
    form = h.form;
  }
  ui_event-IsCurrent u (port_typed s) h = record {
    rows = h.rows;
    pressed = h.pressed;
    badge = h.badge;
    form = h.form;
  }
  ui_event-IsCurrent u reconnect_button h = h
  ui_event-IsCurrent u (changed f) h = on_settings_change-IsCurrent _ h.rows
  ui_event-IsCurrent u reset_button h =
      let g =
        on_settings_change-IsCurrent (record u { store = reset_defaults c json u.store }) h.rows in
      record { rows = g.rows; pressed = g.pressed; badge = g.badge; form = λ _. refl }
  ui_event-IsCurrent u (data_arrived m) h = record {
    rows = refl;
    pressed = h.pressed;
    badge = refl;
    form = h.form;
  }
  ui_event-IsCurrent u (select id) h = record {
    rows = h.rows;
    pressed = h.pressed;
    badge = h.badge;
    form = h.form;
  }

  run_ui-IsCurrent : (u : Ui) (es : List UiEvent) → IsCurrent u → IsCurrent (run_ui c json u es)
  unfolding run_ui
  run_ui-IsCurrent u [] h = h
  run_ui-IsCurrent u (e ∷ es) h =
      run_ui-IsCurrent (ui_event c json u e) es (ui_event-IsCurrent u e h)

  current-IsConsistent : (u : Ui) → IsCurrent u → IsConsistent (seen u) u
  current-IsConsistent u h = record {
    settings_window = refl;
    about_window = refl;
    marked = refl;
    settings = refl;
    rows = h.rows;
    pressed = h.pressed;
    badge = h.badge ∙ badge_for-expected_badge u.store.current.view_mode u.last_model;
    form = h.form;
    host = refl;
    port = refl;
  }

  -- Whatever the user does and whatever data arrive: the table shows the rows of the data that
  -- arrived last under the filter chosen last, and none before any data; the row selected last is
  -- marked; the settings are those at the start, with the view chosen last by button or key and each
  -- field as it was changed last, a number brought into its range, and the defaults after a reset
  -- until they change again; the pressed button is that of the view; the badge is hidden in the orbit
  -- view, and else tells whether the last data have a satellite; the windows are open that were
  -- opened and not closed since; and the settings form, while it is open, shows the settings, with
  -- what was typed over the host and the port since it was opened or reset or any settings changed.
  pub run_ui-create_ui-IsConsistent :
      (store : Store) (es : List UiEvent)
      → IsConsistent
          (recall_all c (at_first store.current store.defaults) es)
          (run_ui c json (create_ui c json store) es)
  unfolding create_ui
  run_ui-create_ui-IsConsistent store es =
      let start = create_ui c json store in
      subst (λ x. IsConsistent x (run_ui c json start es)) (seen-run_ui c json start es)
        (current-IsConsistent _ (
          run_ui-IsCurrent start es
            (record { rows = refl; pressed = refl; badge = refl; form = λ _. refl })))
