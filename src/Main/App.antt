-- ===== src/Main/App.antt =====
-- frontend/js/main.js: resolveHost, boot() and its callbacks, on the settings store and the connection.
pub mod Endpoint
use orbital_viewer.Value.{obj, Value}
use orbital_viewer.Net.Connection.{
  create_connection, connect, signal, Callbacks, Signal, set_endpoint, Conn,
}
use orbital_viewer.Settings.Store.{reset_defaults, create_settings, Storage, update, Json, Store}
use orbital_viewer.Settings.Patch.{Conversions, Settings}
use orbital_viewer.Base.{
  ℕ, Bool, true, ◌&&◌, List, [], ◌∷◌, ◌==◌, if◌then◌else◌, Text, codes, ◌===◌,
}

-- `currentHost`, `currentPort`, the settings store and the connection.
pub record App : Type 0 where
  pub store : Store
  pub current_host : Text
  pub current_port : ℕ
  pub conn : Conn

-- `settings.host || window.location.hostname || '127.0.0.1'`
unfoldable pub resolve_host : (hostname : Text) → Settings → Text
resolve_host hostname s = if_empty s.host (if_empty hostname (codes "127.0.0.1"))
  where
    if_empty : Text → Text → Text
    if_empty [] t = t
    if_empty (c ∷ s) t = c ∷ s

module _ (c : Conversions) (json : Json) (hostname : Text) where
  -- The calls of boot(), up to connection.connect(), which finds out whether the constructor works.
  unfoldable pub boot : Storage → (site : Value) → (works : Bool) → App
  unfolding resolve_host
  boot storage site works =
      let store = create_settings c json storage site in
      let host = resolve_host hostname store.current in
      let callbacks : Callbacks = record {
        has_status = true;
        has_hello = true;
        has_state = true;
      } in
      record {
        store = store;
        current_host = host;
        current_port = store.current.port;
        conn = connect works (create_connection host store.current.port callbacks);
      }

  -- The callback onReconnect.
  unfoldable pub on_reconnect : Bool → App → App
  unfolding resolve_host
  on_reconnect works a =
      let host = resolve_host hostname a.store.current in
      let port = a.store.current.port in
      record a {
        current_host = host;
        current_port = port;
        conn = set_endpoint host port works a.conn;
      }

  -- The callback of settingsStore.onChange, as far as the connection goes.
  unfoldable pub on_settings : Bool → App → App
  unfolding on_reconnect resolve_host
  on_settings works a =
      if resolve_host hostname a.store.current === a.current_host
        && a.store.current.port == a.current_port
      then a
      else on_reconnect works a

  -- What the user and the environment do: change settings, reset them, press the button, and what
  -- the sockets and timers do.
  pub data Event : Type 0 where
    updated : (patch : Value) (works : Bool) → Event
    reset : (works : Bool) → Event
    reconnect : (works : Bool) → Event
    net : Signal → Event

  -- A patch that is no object changes nothing and calls nobody.
  unfoldable pub step : App → Event → App
  unfolding on_settings on_reconnect
  step a (updated patch works) =
      let b = record a { store = update c json a.store patch } in
      elim patch [ obj _ ↦ on_settings works b | _ ↦ b ]
  step a (reset works) = on_settings works (record a { store = reset_defaults c json a.store })
  step a (reconnect works) = on_reconnect works a
  step a (net s) = record a { conn = signal a.conn s }

  unfoldable pub run_app : App → List Event → App
  unfolding step
  run_app a [] = a
  run_app a (e ∷ es) = run_app (step a e) es
