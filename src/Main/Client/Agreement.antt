-- ===== src/Main/Client/Agreement.antt =====
-- frontend/js/main.js: the renderer and the panel agree.
use orbital_viewer.Main.Client.UserEvents.{render_list-Keeps, chosen, user_event}
use orbital_viewer.Renderer.State.Kept.{settled, snapped}
use orbital_viewer.Main.Client.{
  Client, ClientEvent, state_arrived, clicked, in_panel, animation, apply_renderer_settings,
  boot_client, client_step, on_click, on_panel, on_state, run_client, updates, on_select,
  with_scene, from_user,
}
use orbital_viewer.Main.View.{renderer_settings}
use orbital_viewer.Model.{Model, apply_state, create_model, get_snapshot, Snapshot}
use orbital_viewer.Net.Message.{State, state}
use orbital_viewer.Num.{Num}
use orbital_viewer.Renderer.Projection.{floats_of}
use orbital_viewer.Renderer.Scene.{normalize_settings}
use orbital_viewer.Renderer.State.{Scene, create_scene, on_frame, on_settings}
use orbital_viewer.Renderer.TrailBuffer.{Buffer}
use orbital_viewer.Settings.Patch.{Conversions}
use orbital_viewer.Settings.Store.{Json, Store}
use orbital_viewer.Sky.{MathFns}
use orbital_viewer.Ui.{
  update_view_toggle, update_view_badge, UiEvent, create_ui, ui_event, update_data, row,
}
use mathlib.Core.Bool.{false≢true}
use orbital_viewer.Base.{
  ◌≤◌, ◌≡◌, refl, sym, ap, ◌∙◌, subst, inl, inr, Bool, true, false, Option, none, some, List, [],
  ◌∷◌, arith, if◌then◌else◌, Bool-cases, Text,
}

-- The renderer has the snapshot of the model that the panel has.
abbrev pub SameData : Model → (shown : Option Model) → (drawn : Option Snapshot) → Type 0
SameData m none drawn = (m ≡ create_model) × (drawn ≡ none)
SameData m (some shown) drawn = (shown ≡ m) × (drawn ≡ some (get_snapshot m))

-- The renderer and the panel have the same data, selection and settings.
pub record Agree {S : Type 0} (c : Client S) : Type 0 where
  pub room : 1 ≤ c.scene.buffer.capacity
  pub data_of : SameData c.model c.ui.last_model c.scene.snapshot
  pub selection : c.scene.selected ≡ c.ui.selected
  pub view : c.scene.view ≡ normalize_settings (renderer_settings c.ui.store.current)

-- What clicking a row does to the renderer.
selects :
    {S : Type 0} (e : UiEvent) (st : Scene S)
    → ((on_select e st).buffer ≡ st.buffer)
      × ((on_select e st).snapshot ≡ st.snapshot)
      × ((on_select e st).view ≡ st.view)
      × ((on_select e st).selected ≡ chosen e st.selected)
selects (row id) st = (refl, refl, refl, refl)
selects e st = (refl, refl, refl, refl)

if-left : {A : Type 0} (b : Bool) (x y : A) → b ≡ true → (if b then x else y) ≡ x
if-left true x y h = refl
if-left false x y h = absurd (false≢true h)

if-right : {A : Type 0} (b : Bool) (x y : A) → b ≡ false → (if b then x else y) ≡ y
if-right true x y h = absurd (false≢true (sym h))
if-right false x y h = refl

module _ {S : Type 0} (fns : MathFns) (fround : Num → Num) (parse_date : Text → Num)
    (rebuild_sky : (epoch : Num) → S) (conv : Conversions) (json : Json) where
  -- A step ends, with the renderer and the panel in agreement.
  abbrev Steps : Option (Client S) → Type 0
  Steps o = (next : Client S) × (o ≡ some next) × Agree next

  on_state-Agree :
      (s : State) (now : Num) (c : Client S)
      → Agree c
      → Steps (on_state fns fround parse_date rebuild_sky conv json s now c)
  unfolding on_state update_data get_snapshot
  on_state-Agree s now c h =
      let fl = floats_of fns parse_date in
      let m = apply_state c.model (some (state s)) now in
      let (st, done, wide, snap, selected, view) =
        snapped fl rebuild_sky (get_snapshot m) now c.scene h.room in
      let (model, kept, store) =
        render_list-Keeps m (update_view_badge (record c.ui { last_model = some m })) in
      (
        record { model = m; scene = st; ui = update_data m c.ui },
        ap (with_scene m (update_data m c.ui)) done,
        record {
          room = wide;
          data_of = subst (λ shown. SameData m shown st.snapshot) (sym model) (refl, snap);
          selection = selected ∙ h.selection ∙ sym kept;
          view =
              view
              ∙ h.view
              ∙ ap (λ (t : Store). normalize_settings (renderer_settings t.current)) (sym store);
        },
      )

  on_panel-Agree :
      (e : UiEvent) (c : Client S)
      → from_user e ≡ true
      → Agree c
      → Steps (on_panel fns fround parse_date rebuild_sky conv json e c)
  unfolding on_panel apply_renderer_settings
  on_panel-Agree e c user h =
      let fl = floats_of fns parse_date in
      let u = ui_event conv json c.ui e in
      let st = on_select e c.scene in
      let (model, selected, changes) = user_event conv json c.ui e user in
      let (buffer, snap, view, chosen_too) = selects e c.scene in
      let applied = on_settings fl rebuild_sky (renderer_settings u.store.current) st in
      let same_choice : st.selected ≡ u.selected =
        chosen_too ∙ ap (chosen e) h.selection ∙ sym selected in
      let same_data : SameData c.model u.last_model st.snapshot =
        subst (λ shown. SameData c.model shown st.snapshot) (sym model)
          (subst (SameData c.model c.ui.last_model) (sym snap) h.data_of) in
      let room : 1 ≤ st.buffer.capacity =
        subst (λ (b : Buffer). 1 ≤ b.capacity) (sym buffer) h.room in
      elim changes [
        | inl heard ↦
            let (next, done, wide, same_snap, same_selected, new_view) =
              settled fl rebuild_sky u.store st room in
            (
              record { model = c.model; scene = next; ui = u },
              ap (with_scene c.model u) (if-left (updates c.ui e) applied (some st) heard ∙ done),
              record {
                room = wide;
                data_of = subst (SameData c.model u.last_model) (sym same_snap) same_data;
                selection = same_selected ∙ same_choice;
                view = new_view;
              },
            )
        | inr (unheard, store) ↦ (
          record { model = c.model; scene = st; ui = u },
          ap (with_scene c.model u) (if-right (updates c.ui e) applied (some st) unheard),
          record {
            room = room;
            data_of = same_data;
            selection = same_choice;
            view =
                view
                ∙ h.view
                ∙ ap (λ (t : Store). normalize_settings (renderer_settings t.current)) (sym store);
          },
        )
      ]

  client_step-Agree :
      (e : ClientEvent) (c : Client S)
      → Agree c
      → Steps (client_step fns fround parse_date rebuild_sky conv json e c)
  unfolding client_step on_click on_frame ui_event
  client_step-Agree (state_arrived s now) c h = on_state-Agree s now c h
  client_step-Agree (clicked surface camera x y) c h =
      (_, refl, record { room = h.room; data_of = h.data_of; selection = refl; view = h.view })
  client_step-Agree (in_panel e) c h = elim (Bool-cases (from_user e)) [
    | inl user ↦
        let (next, done, agree) = on_panel-Agree e c user h in
        (next, if-left (from_user e) _ (some c) user ∙ done, agree)
    | inr call ↦ (c, if-right (from_user e) _ (some c) call, h)
  ]
  client_step-Agree (animation now) c h = (
    _,
    refl,
    record { room = h.room; data_of = h.data_of; selection = h.selection; view = h.view },
  )

  run_client-Agree :
      (es : List ClientEvent) (c : Client S)
      → Agree c
      → Steps (run_client fns fround parse_date rebuild_sky conv json (some c) es)
  unfolding run_client
  run_client-Agree [] c h = (c, refl, h)
  run_client-Agree (e ∷ es) c h =
      let (next, stepped, kept) = client_step-Agree e c h in
      let (last, ran, agree) = run_client-Agree es next kept in
      (
        last,
        ap (λ o. run_client fns fround parse_date rebuild_sky conv json o es) stepped ∙ ran,
        agree,
      )

  -- From the start on, after any states from the connection, clicks, actions in the panel and
  -- animation frames, in any order: every call has ended, the renderer draws the snapshot of the
  -- model whose rows and numbers the panel shows (neither has data before the first state), the two
  -- have the same selection, and the renderer's settings are those of the store.
  pub run_client-boot_client-Agree :
      (date_now : Num) (store : Store) (es : List ClientEvent)
      → (last : Client S) × (run_client fns fround parse_date rebuild_sky conv json
            (boot_client fns fround parse_date rebuild_sky conv json date_now store)
            es
          ≡ some last)
        × Agree last
  unfolding boot_client apply_renderer_settings create_scene create_ui update_view_toggle
  run_client-boot_client-Agree date_now store es =
      let fl = floats_of fns parse_date in
      let (st, done, wide, snap, selected, view) =
        settled fl rebuild_sky store (create_scene fl rebuild_sky date_now) (omega arith) in
      let first : Client S = record {
        model = create_model;
        scene = st;
        ui = create_ui conv json store;
      } in
      let (last, ran, agree) =
        run_client-Agree es first
          (record { room = wide; data_of = (refl, snap); selection = selected; view = view }) in
      (
        last,
        ap
              (λ o.
                run_client fns fround parse_date rebuild_sky conv json
                  (with_scene create_model (create_ui conv json store) o) es)
              done
            ∙ ran,
        agree,
      )
