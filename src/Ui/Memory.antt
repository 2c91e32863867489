-- ===== src/Ui/Memory.antt =====
-- What the panel remembers of the events (frontend/js/ui.js).
use orbital_viewer.Settings.Store.{reset_defaults, Json, Store}
use orbital_viewer.Num.{Num}
use orbital_viewer.Settings.Patch.{Conversions, Settings, apply_patch}
use orbital_viewer.Ui.Choices.{
  turned, set_field, updated, reset, apply_patch-field_patch, apply_patch-mode_text,
  apply_patch-other_mode,
}
use orbital_viewer.Net.Message.{Category}
use orbital_viewer.Model.{Model}
use orbital_viewer.Value.{Fields, obj}
use orbital_viewer.Settings.Store.{update}
use orbital_viewer.Ui.{
  view_patch, mode_text, other_mode, field_patch, v, other, escape, reset_button, reconnect_button,
  host_typed, port_typed, list_again, chip_clicked, row_clicked, open_settings_modal, set_selected,
  reset_clicked, view_clicked, field_changed, close_about, close_settings, open_about,
  open_settings, panel_toggle, select, data_arrived, changed, key_down, view_button, row, chip,
  close_all_modals, update_store, key_pressed, UiEvent, ui_event, run_ui, on_settings_change, Ui,
}
use orbital_viewer.Base.{
  ◌≡◌, refl, ap, ◌∙◌, inl, inr, Bool, true, false, ◌||◌, Option, none, some, List, [], ◌∷◌,
  if◌then◌else◌, Bool-cases, Option-cases, Text,
}

-- What the panel must remember of the events, and nothing else: the last data, the filter, the
-- selection, which windows are open, the settings with their defaults, and the text typed over the
-- host and the port that no settings have replaced.
pub record Memory : Type 0 where
  pub last : Option Model
  pub filter : Option Category
  pub selected : Option Num
  pub settings_open : Bool
  pub about_open : Bool
  pub settings : Settings
  pub defaults : Settings
  pub host : Option Text
  pub port : Option Text

abbrev pub at_first : (settings defaults : Settings) → Memory
at_first settings defaults = record {
  last = none;
  filter = none;
  selected = none;
  settings_open = false;
  about_open = false;
  settings = settings;
  defaults = defaults;
  host = none;
  port = none;
}

abbrev untyped : Memory → Memory
untyped x = record x { host = none; port = none }

-- Settings that change replace what was typed into an open form.
abbrev heard : Memory → Memory
heard x = if x.settings_open then untyped x else x

abbrev settings_changed : Settings → Memory → Memory
settings_changed s x = heard (record x { settings = s })

module _ (c : Conversions) where
  abbrev pub recall : Memory → UiEvent → Memory
  recall x (chip f) = record x { filter = f }
  recall x open_settings = record (untyped x) { settings_open = true }
  recall x open_about = record x { about_open = true }
  recall x close_settings = record x { settings_open = false }
  recall x close_about = record x { about_open = false }
  recall x (view_button m) = settings_changed (record x.settings { view_mode = m }) x
  recall x (changed f) = settings_changed (set_field c f x.settings) x
  recall x (key_down escape in_field) = record x { settings_open = false; about_open = false }
  recall x (key_down v in_field) =
      if in_field || (x.settings_open || x.about_open)
      then x
      else settings_changed (record x.settings { view_mode = turned x.settings.view_mode }) x
  recall x (key_down other in_field) = x
  recall x (host_typed s) = record x { host = some s }
  recall x (port_typed s) = record x { port = some s }
  recall x reset_button = record (untyped x) { settings = x.defaults }
  recall x (data_arrived m) = record x { last = some m }
  recall x panel_toggle = x
  recall x (row id) = record x { selected = some id }
  recall x reconnect_button = x
  recall x (select id) = record x { selected = id }

  abbrev pub recall_all : Memory → List UiEvent → Memory
  recall_all x [] = x
  recall_all x (e ∷ es) = recall_all (recall x e) es

-- What the panel's variables remember.
abbrev pub seen : Ui → Memory
seen u = record {
  last = u.last_model;
  filter = u.filter;
  selected = u.selected;
  settings_open = u.settings_open;
  about_open = u.about_open;
  settings = u.store.current;
  defaults = u.store.defaults;
  host = u.typed_host;
  port = u.typed_port;
}

seen-on_settings_change : (u : Ui) → seen (on_settings_change u) ≡ heard (seen u)
unfolding on_settings_change
seen-on_settings_change u = elim (Bool-cases u.settings_open) [
  | inl p ↦ rw p refl
  | inr p ↦ rw p refl
]

if-seen :
    (b : Bool) (u w : Ui) (y : Memory)
    → seen w ≡ y
    → seen (if b then u else w) ≡ (if b then seen u else y)
if-seen true u w y h = refl
if-seen false u w y h = h

seen-list_again : (u : Ui) → seen (list_again u) ≡ seen u
unfolding list_again
seen-list_again u = elim (Option-cases u.last_model) [ inl p ↦ rw p refl | inr (m, p) ↦ rw p refl ]

module _ (c : Conversions) (json : Json) where
  -- The listener's settings are those of the store, whose defaults stay.
  seen-changed :
      (u : Ui) (store : Store) (s : Settings)
      → store.current ≡ s
      → store.defaults ≡ u.store.defaults
      → seen (on_settings_change (record u { store = store })) ≡ settings_changed s (seen u)
  seen-changed u store s e d =
      seen-on_settings_change (record u { store = store })
      ∙ ap (λ (t : Settings). heard (record (seen u) { settings = t; defaults = store.defaults })) e
      ∙ ap (λ (t : Settings). heard (record (seen u) { settings = s; defaults = t })) d

  seen-update_store :
      (patch : Fields) (u : Ui) (s : Settings)
      → apply_patch c u.store.current patch ≡ s
      → seen (update_store c json patch u) ≡ settings_changed s (seen u)
  unfolding update_store
  seen-update_store patch u s e =
      let (current, defaults) = updated c json u.store patch in
      seen-changed u (update c json u.store (obj patch)) s (current ∙ e) defaults

  -- Each event leaves the memory that it should.
  seen-ui_event : (u : Ui) (e : UiEvent) → seen (ui_event c json u e) ≡ recall c (seen u) e
  unfolding ui_event key_pressed close_all_modals row_clicked open_settings_modal set_selected
      reset_clicked view_clicked field_changed chip_clicked
  seen-ui_event u panel_toggle = refl
  seen-ui_event u (chip f) = seen-list_again (record u { filter = f })
  seen-ui_event u (row id) = refl
  seen-ui_event u open_settings = refl
  seen-ui_event u open_about = refl
  seen-ui_event u close_settings = refl
  seen-ui_event u close_about = refl
  seen-ui_event u (view_button m) =
      seen-update_store (view_patch (mode_text m)) u _ (apply_patch-mode_text c u.store.current m)
  seen-ui_event u (key_down escape b) = refl
  seen-ui_event u (key_down other b) = refl
  seen-ui_event u (key_down v b) = if-seen (b || (u.settings_open || u.about_open)) u _ _ (
      seen-update_store (view_patch (other_mode u.store.current.view_mode)) u _
        (apply_patch-other_mode c u.store.current u.store.current.view_mode))
  seen-ui_event u (host_typed s) = refl
  seen-ui_event u (port_typed s) = refl
  seen-ui_event u (changed f) =
      seen-update_store (field_patch f) u _ (apply_patch-field_patch c u.store.current f)
  seen-ui_event u reset_button =
      let (current, defaults) = reset c json u.store in
      ap (λ x. untyped x)
        (seen-changed u (reset_defaults c json u.store) u.store.defaults current defaults)
      ∙ untyped-settings_changed u.store.defaults (seen u)
    where
      untyped-settings_changed :
          (s : Settings) (x : Memory)
          → untyped (settings_changed s x) ≡ record (untyped x) { settings = s }
      untyped-settings_changed s x = elim (Bool-cases x.settings_open) [
        | inl p ↦ rw p refl
        | inr p ↦ rw p refl
      ]
  seen-ui_event u reconnect_button = refl
  seen-ui_event u (data_arrived m) = refl
  seen-ui_event u (select id) = refl

  pub seen-run_ui :
      (u : Ui) (es : List UiEvent) → seen (run_ui c json u es) ≡ recall_all c (seen u) es
  unfolding run_ui
  seen-run_ui u [] = refl
  seen-run_ui u (e ∷ es) =
      seen-run_ui (ui_event c json u e) es ∙ ap (λ x. recall_all c x es) (seen-ui_event u e)
