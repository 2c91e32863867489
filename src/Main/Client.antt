-- ===== src/Main/Client.antt =====
-- frontend/js/main.js: the model, the renderer and the panel, wired together by boot(). Each event
-- leaves none only where a loop of the renderer does not end. `rebuild_sky` is what rebuildSky makes
-- of the epoch.
pub mod UserEvents
pub mod Agreement
use orbital_viewer.Model.{Model, apply_state, create_model, get_snapshot}
use orbital_viewer.Net.Message.{State, state}
use orbital_viewer.Num.{Num}
use orbital_viewer.Main.View.{renderer_settings}
use orbital_viewer.Camera.{Camera}
use orbital_viewer.Renderer.Projection.{Surface, floats_of, pick_at}
use orbital_viewer.Renderer.State.{Scene, create_scene, on_frame, on_settings, on_snapshot}
use orbital_viewer.Settings.Patch.{Conversions}
use orbital_viewer.Settings.Store.{Json, Store}
use orbital_viewer.Sky.{MathFns}
use orbital_viewer.Ui.{
  Ui, UiEvent, create_ui, ui_event, update_data, changed, view_button, reset_button, key_down, v,
  data_arrived, select, row,
}
use orbital_viewer.Base.{
  ℕ, zero, suc, ◌+◌, ◌-◌, ◌*◌, ◌/◌, ◌%◌, ◌^◌, ◌≤◌, ◌<◌, min, max, ◌≡◌, refl, sym, ap, ◌∙◌, subst,
  fun_ext, ◌≡⟨◌⟩◌, ◌∎, ◌≢◌, ◌↔◌, ◌⊎◌, inl, inr, Bool, true, false, not, ◌&&◌, ◌||◌, Option, none,
  some, List, [], ◌∷◌, ◌++◌, map, append_assoc, append-nil, arith, ltb, leb, ◌==◌, if◌then◌else◌,
  ltb→lt, lt→ltb, leb→le, ==_iff, tests, Bool-cases, Option-cases, and-true, length, take,
  get_elem?, every, keep, length-append, length-take, length-map, All, All-append, Text, codes,
  ◌===◌, ===_iff, ===_self, lookup, has,
}

pub record Client (S : Type 0) : Type 0 where
  pub model : Model
  pub scene : Scene S
  pub ui : Ui

-- A state from the connection, a click on the canvas that is not a drag, what the user does in the
-- panel, and an animation frame.
pub data ClientEvent : Type 0 where
  state_arrived : (s : State) (now : Num) → ClientEvent
  clicked : Surface → Camera → (x y : Num) → ClientEvent
  in_panel : UiEvent → ClientEvent
  animation : (now : Num) → ClientEvent

-- Does the event change the settings, so that the listeners are called?
abbrev pub updates : Ui → UiEvent → Bool
updates u (changed f) = true
updates u (view_button m) = true
updates u reset_button = true
updates u (key_down v in_field) = not (in_field || (u.settings_open || u.about_open))
updates u _ = false

-- The callback onSelect, for a row that was clicked.
abbrev pub on_select : {S : Type 0} → UiEvent → Scene S → Scene S
on_select (row id) st = record st { selected = some id }
on_select _ st = st

-- The two events that are calls of main.js do not come from the user.
abbrev pub from_user : UiEvent → Bool
from_user (data_arrived m) = false
from_user (select id) = false
from_user _ = true

abbrev pub with_scene : {S : Type 0} → Model → Ui → Option (Scene S) → Option (Client S)
with_scene m u none = none
with_scene m u (some st) = some (record { model = m; scene = st; ui = u })

module _ {S : Type 0} (fns : MathFns) (fround : Num → Num) (parse_date : Text → Num)
    (rebuild_sky : (epoch : Num) → S) (conv : Conversions) (json : Json) where
  -- `applyRendererSettings(renderer, settings)`
  unfoldable pub apply_renderer_settings : Store → Scene S → Option (Scene S)
  unfolding floats_of renderer_settings on_settings
  apply_renderer_settings store st =
      on_settings (floats_of fns parse_date) rebuild_sky (renderer_settings store.current) st

  -- boot() up to the first event; a model and a renderer without data.
  unfoldable pub boot_client : (date_now : Num) → Store → Option (Client S)
  unfolding apply_renderer_settings create_scene floats_of create_ui
  boot_client date_now store =
      with_scene create_model (create_ui conv json store) (
        apply_renderer_settings store
          (create_scene (floats_of fns parse_date) rebuild_sky date_now))

  -- The callback onState.
  unfoldable pub on_state : State → (now : Num) → Client S → Option (Client S)
  unfolding apply_state get_snapshot on_snapshot floats_of update_data
  on_state s now c =
      let m = apply_state c.model (some (state s)) now in
      with_scene m (update_data m c.ui)
        (on_snapshot (floats_of fns parse_date) rebuild_sky (some (get_snapshot m)) now c.scene)

  -- The end of a click: pick, and tell the renderer and the panel.
  unfoldable pub on_click : Surface → Camera → (x y : Num) → Client S → Client S
  unfolding pick_at ui_event
  on_click surface camera x y c =
      let id = pick_at fns fround parse_date c.scene surface camera x y in
      record c {
        scene = record c.scene { selected = id };
        ui = ui_event conv json c.ui (select id);
      }

  -- What the user does in the panel; the listener of main.js hears of changed settings.
  unfoldable pub on_panel : UiEvent → Client S → Option (Client S)
  unfolding ui_event apply_renderer_settings
  on_panel e c =
      let u = ui_event conv json c.ui e in
      let st = on_select e c.scene in
      with_scene c.model u (if updates c.ui e then apply_renderer_settings u.store st else some st)

  unfoldable pub client_step : ClientEvent → Client S → Option (Client S)
  unfolding on_state on_click on_panel on_frame
  client_step (state_arrived s now) c = on_state s now c
  client_step (clicked surface camera x y) c = some (on_click surface camera x y c)
  client_step (in_panel e) c = if from_user e then on_panel e c else some c
  client_step (animation now) c = some (record c { scene = on_frame now c.scene })

  unfoldable pub run_client : Option (Client S) → List ClientEvent → Option (Client S)
  unfolding client_step
  run_client none es = none
  run_client (some c) [] = some c
  run_client (some c) (e ∷ es) = run_client (client_step e c) es
