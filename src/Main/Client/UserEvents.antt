-- ===== src/Main/Client/UserEvents.antt =====
-- What the user's events leave of the panel (frontend/js/ui.js, as main.js drives it).
use orbital_viewer.Main.Client.{updates, from_user}
use orbital_viewer.Num.{Num}
use orbital_viewer.Model.{Model}
use orbital_viewer.Settings.Patch.{Conversions}
use orbital_viewer.Settings.Store.{Json}
use orbital_viewer.Ui.{
  Ui, UiEvent, ui_event, on_settings_change, render_list, key_pressed, update_store, panel_toggle,
  chip, row, open_settings, open_about, close_settings, close_about, view_button, key_down, changed,
  reset_button, reconnect_button, host_typed, port_typed, list_again, chip_clicked, row_clicked,
  open_settings_modal, set_selected, reset_clicked, view_clicked, field_changed, data_arrived,
  select, escape, v, other,
}
use mathlib.Core.Bool.{false≢true}
use orbital_viewer.Base.{
  ◌≡◌, refl, ◌⊎◌, inl, inr, Bool, true, false, not, ◌||◌, Option, some, if◌then◌else◌, Bool-cases,
  Option-cases,
}

-- The panel keeps its model, its selection and its settings.
abbrev pub Keeps : (u next : Ui) → Type 0
Keeps u next =
    (next.last_model ≡ u.last_model) × (next.selected ≡ u.selected) × (next.store ≡ u.store)

on_settings_change-Keeps : (u : Ui) → Keeps u (on_settings_change u)
unfolding on_settings_change
on_settings_change-Keeps u = elim (Bool-cases u.settings_open) [
  | inl p ↦ rw p (refl, refl, refl)
  | inr p ↦ rw p (refl, refl, refl)
]

pub render_list-Keeps : (m : Model) (u : Ui) → Keeps u (render_list m u)
unfolding render_list
render_list-Keeps m u = (refl, refl, refl)

list_again-Keeps : (u : Ui) → Keeps u (list_again u)
unfolding list_again
list_again-Keeps u = elim (Option-cases u.last_model) [
  | inl p ↦ rw p (refl, refl, refl)
  | inr (m, p) ↦ rw p (refl, refl, refl)
]

-- A key that is not heard changes nothing.
if-kept :
    (b : Bool) (u w : Ui)
    → w.last_model ≡ u.last_model
    → w.selected ≡ u.selected
    → let next = if b then u else w in
      (next.last_model ≡ u.last_model)
      × (next.selected ≡ u.selected)
      × ((not b ≡ true) ⊎ ((not b ≡ false) × (next.store ≡ u.store)))
if-kept true u w h g = (refl, refl, inr (refl, refl))
if-kept false u w h g = (h, g, inl refl)

-- What an event of the user selects.
abbrev pub chosen : UiEvent → (before : Option Num) → Option Num
chosen (row id) before = some id
chosen _ before = before

module _ (conv : Conversions) (json : Json) where
  -- An event of the user keeps the model, selects at most a row, and keeps the settings unless the
  -- listeners are called.
  pub user_event :
      (u : Ui) (e : UiEvent)
      → from_user e ≡ true
      → let next = ui_event conv json u e in
        (next.last_model ≡ u.last_model)
        × (next.selected ≡ chosen e u.selected)
        × ((updates u e ≡ true) ⊎ ((updates u e ≡ false) × (next.store ≡ u.store)))
  unfolding ui_event update_store key_pressed chip_clicked row_clicked open_settings_modal
      set_selected reset_clicked view_clicked field_changed
  user_event u panel_toggle h = (refl, refl, inr (refl, refl))
  user_event u (chip f) h =
      let (model, selected, store) = list_again-Keeps (record u { filter = f }) in
      (model, selected, inr (refl, store))
  user_event u (row id) h = (refl, refl, inr (refl, refl))
  user_event u open_settings h = (refl, refl, inr (refl, refl))
  user_event u open_about h = (refl, refl, inr (refl, refl))
  user_event u close_settings h = (refl, refl, inr (refl, refl))
  user_event u close_about h = (refl, refl, inr (refl, refl))
  user_event u (view_button m) h =
      let (model, selected, store) = on_settings_change-Keeps _ in (model, selected, inl refl)
  user_event u (host_typed s) h = (refl, refl, inr (refl, refl))
  user_event u (port_typed s) h = (refl, refl, inr (refl, refl))
  user_event u reconnect_button h = (refl, refl, inr (refl, refl))
  user_event u (changed f) h =
      let (model, selected, store) = on_settings_change-Keeps _ in (model, selected, inl refl)
  user_event u reset_button h =
      let (model, selected, store) = on_settings_change-Keeps _ in (model, selected, inl refl)
  user_event u (key_down escape in_field) h = (refl, refl, inr (refl, refl))
  user_event u (key_down other in_field) h = (refl, refl, inr (refl, refl))
  user_event u (key_down v in_field) h =
      let (model, selected, store) = on_settings_change-Keeps _ in
      if-kept (in_field || (u.settings_open || u.about_open)) u _ model selected
  user_event u (data_arrived m) h = absurd (false≢true h)
  user_event u (select id) h = absurd (false≢true h)
