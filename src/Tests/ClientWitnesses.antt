-- ===== src/Tests/ClientWitnesses.antt =====
-- Witnesses of the theorems on the model, the wiring, the panel and the textures.
use orbital_viewer.Net.Connection.{timer}
use orbital_viewer.Value.{obj, undefined}
use orbital_viewer.Settings.Store.{create_settings, Store}
use orbital_viewer.Main.App.{reset, net, updated, boot, run_app}
use orbital_viewer.Num.{whole}
use orbital_viewer.Model.Counters.{get_counts_lem, sum, counter}
use orbital_viewer.Settings.Patch.{built_in}
use orbital_viewer.Main.View.{
  normalize_settings-renderer_settings, wants, is_sat_view, renderer_settings,
}
use orbital_viewer.Tests.Samples.{a_patch, working, a_row, no_json, conversions, floats}
use orbital_viewer.Ui.{
  changed, port_changed, row, UiEvent, host_typed, open_settings, v, key_down, chip, data_arrived,
  create_ui, run_ui,
}
use orbital_viewer.Ui.Consistent.{run_ui-create_ui-IsConsistent, IsConsistent}
use orbital_viewer.Ui.Memory.{recall_all, at_first}
use orbital_viewer.Settings.Bounds.{IsValid}
use orbital_viewer.Net.Message.{debris, Category}
use orbital_viewer.Renderer.Scene.{normalize_settings}
use orbital_viewer.Main.App.Endpoint.{run_app-boot-IsSynced, IsSynced}
use orbital_viewer.Model.{get_list_rows, get_counts, create_model, Model}
use orbital_viewer.Textures.Size.{pot_size_for_lem, is_equirect, IsBest, positive_int, pot_size_for}
use orbital_viewer.Base.{◌*◌, min, ◌≡◌, ◌⊎◌, true, false, none, some, List, [], ◌∷◌, arith, codes}

abbrev pub a_model : Model
a_model = record create_model { objects = a_row ∷ [] }

get_counts_lem_example :
    ((c : Category) → counter c (get_counts a_model) ≡ (get_list_rows a_model (some c) 1000).total)
    × ((get_counts a_model).total ≡ (get_list_rows a_model none 1000).total)
    × (sum (get_counts a_model) ≡ (get_counts a_model).total)
get_counts_lem_example = get_counts_lem a_model 1000

run_app-boot-IsSynced_example : IsSynced conversions no_json (codes "page") (
    run_app conversions no_json
      (codes "page")
      (boot conversions no_json (codes "page") working undefined true)
      (updated (obj a_patch) false ∷ net (timer 3 true) ∷ reset true ∷ []))
run_app-boot-IsSynced_example =
    run_app-boot-IsSynced conversions no_json (codes "page") working undefined true
      (updated (obj a_patch) false ∷ net (timer 3 true) ∷ reset true ∷ [])

abbrev ui_events : List UiEvent
ui_events =
    data_arrived a_model
    ∷ chip (some debris)
    ∷ key_down v false
    ∷ open_settings
    ∷ changed (port_changed (whole 9000))
    ∷ row (whole 7)
    ∷ host_typed (codes "h")
    ∷ []

abbrev ui_store : Store
ui_store = create_settings conversions no_json working undefined

run_ui-create_ui-IsConsistent_example :
    IsConsistent
      (recall_all conversions (at_first ui_store.current ui_store.defaults) ui_events)
      (run_ui conversions no_json (create_ui conversions no_json ui_store) ui_events)
run_ui-create_ui-IsConsistent_example =
    run_ui-create_ui-IsConsistent conversions no_json ui_store ui_events

built_in_in_range : IsValid built_in
built_in_in_range = omega arith

normalize_settings-renderer_settings_example :
    let v = normalize_settings (renderer_settings built_in) in
    (v.show_trails ≡ built_in.show_trails)
    × (v.trail_seconds ≡ whole built_in.trail_seconds)
    × (v.show_labels ≡ built_in.show_labels)
    × (v.show_sky ≡ built_in.show_sky)
    × (v.is_sat ≡ is_sat_view built_in.view_mode)
    × ((cat : Category) → v.shown cat ≡ wants built_in.categories cat)
normalize_settings-renderer_settings_example =
    normalize_settings-renderer_settings built_in built_in_in_range

pot_size_for_lem_example :
    let size = pot_size_for floats (whole 5400) (whole 2700) (whole 1024) in
    let cap = positive_int (whole 1024) 1 in
    IsBest (min (positive_int (whole 5400) 1) cap) size.width
    × (is_equirect floats (whole 5400) (whole 2700) ≡ true
        → (size.width ≡ 2 * size.height) ⊎ ((size.width ≡ 1) × (size.height ≡ 1)))
    × (is_equirect floats (whole 5400) (whole 2700) ≡ false
        → IsBest (min (positive_int (whole 2700) 1) cap) size.height)
pot_size_for_lem_example = pot_size_for_lem floats (whole 5400) (whole 2700) (whole 1024)
