-- ===== src/Main/App/Endpoint.antt =====
-- frontend/js/main.js: the connection follows the settings.
use orbital_viewer.Value.{null, undefined, arr, str, num, bool, Value}
use orbital_viewer.Net.Connection.Invariant.{signal-IsSound, call-IsSound, IsSound}
use orbital_viewer.Main.App.{
  net, reconnect, reset, obj, updated, Event, boot, run_app, on_settings, step, resolve_host, App,
  on_reconnect,
}
use orbital_viewer.Net.Connection.{
  call_connect, create_connection, Callbacks, connect, call_set_endpoint, timer, ws_close,
  ws_message, ws_open, Signal, Conn, signal, set_endpoint, call,
}
use orbital_viewer.Settings.Store.{update, Storage, Json}
use orbital_viewer.Settings.Patch.{Conversions}
use orbital_viewer.Base.{
  ℕ, ◌≡◌, refl, sym, ◌∙◌, inl, inr, Bool, ◌&&◌, List, [], ◌∷◌, arith, ◌==◌, ==_iff, Bool-cases,
  and-true, Text, ◌===◌, ===_iff,
}

module _ (c : Conversions) (json : Json) (hostname : Text) where
  -- The connection dials the host and the port of the settings.
  pub record IsSynced (a : App) : Type 0 where
    pub current_host : a.current_host ≡ resolve_host hostname a.store.current
    pub current_port : a.current_port ≡ a.store.current.port
    pub host : a.conn.host ≡ a.current_host
    pub port : a.conn.port ≡ a.current_port
    pub sound : IsSound a.conn

  signal-host : (k : Conn) (s : Signal) → (signal k s).host ≡ k.host
  unfolding signal
  signal-host k (ws_open id) = ground arith
  signal-host k (ws_message id frame) = ground arith
  signal-host k (ws_close id) = ground arith
  signal-host k (timer id works) = ground arith

  signal-port : (k : Conn) (s : Signal) → (signal k s).port ≡ k.port
  unfolding signal
  signal-port k (ws_open id) = ground arith
  signal-port k (ws_message id frame) = ground arith
  signal-port k (ws_close id) = ground arith
  signal-port k (timer id works) = ground arith

  set_endpoint-host :
      (host : Text) (port : ℕ) (works : Bool) (k : Conn)
      → ((set_endpoint host port works k).host ≡ host)
        × ((set_endpoint host port works k).port ≡ port)
  unfolding set_endpoint
  set_endpoint-host host port works k = ground arith

  set_endpoint-IsSound :
      (host : Text) (port : ℕ) (works : Bool) (k : Conn)
      → IsSound k
      → IsSound (set_endpoint host port works k)
  unfolding call
  set_endpoint-IsSound host port works k h = call-IsSound k (call_set_endpoint host port works) tt h

  on_reconnect-IsSynced :
      (works : Bool) (a : App) → IsSound a.conn → IsSynced (on_reconnect c json hostname works a)
  unfolding on_reconnect
  on_reconnect-IsSynced works a h =
      let at =
        set_endpoint-host (resolve_host hostname a.store.current) a.store.current.port works
          a.conn in
      record {
        current_host = refl;
        current_port = refl;
        host = at.0;
        port = at.1;
        sound = set_endpoint-IsSound _ _ works a.conn h;
      }

  on_settings-IsSynced :
      (works : Bool) (a : App)
      → a.conn.host ≡ a.current_host
      → a.conn.port ≡ a.current_port
      → IsSound a.conn
      → IsSynced (on_settings c json hostname works a)
  unfolding on_settings
  on_settings-IsSynced works a host port h =
      elim (Bool-cases (
        resolve_host hostname a.store.current === a.current_host
        && a.store.current.port == a.current_port)) [
          | inr p ↦ rw p (on_reconnect-IsSynced works a h)
          | inl p ↦ rw p (record {
            current_host = sym ((===_iff _ _).0 ((and-true _ _ p).0));
            current_port = sym ((==_iff _ _).0 ((and-true _ _ p).1));
            host = host;
            port = port;
            sound = h;
          })
        ]

  step-IsSynced :
      (a : App) (e : Event c json hostname) → IsSynced a → IsSynced (step c json hostname a e)
  unfolding step update
  step-IsSynced a (updated (obj fs) works) h = on_settings-IsSynced works _ h.host h.port h.sound
  step-IsSynced a (updated undefined works) h = h
  step-IsSynced a (updated null works) h = h
  step-IsSynced a (updated (bool b) works) h = h
  step-IsSynced a (updated (num x) works) h = h
  step-IsSynced a (updated (str s) works) h = h
  step-IsSynced a (updated (arr vs) works) h = h
  step-IsSynced a (reset works) h = on_settings-IsSynced works _ h.host h.port h.sound
  step-IsSynced a (reconnect works) h = on_reconnect-IsSynced works a h.sound
  step-IsSynced a (net s) h = record {
    current_host = h.current_host;
    current_port = h.current_port;
    host = signal-host a.conn s ∙ h.host;
    port = signal-port a.conn s ∙ h.port;
    sound = signal-IsSound a.conn s h.sound;
  }

  run_app-IsSynced :
      (a : App) (es : List (Event c json hostname))
      → IsSynced a
      → IsSynced (run_app c json hostname a es)
  unfolding run_app
  run_app-IsSynced a [] h = h
  run_app-IsSynced a (e ∷ es) h =
      run_app-IsSynced (step c json hostname a e) es (step-IsSynced a e h)

  connect-host :
      (works : Bool) (k : Conn)
      → ((connect works k).host ≡ k.host) × ((connect works k).port ≡ k.port)
  unfolding connect
  connect-host works k = ground arith

  connect-IsSound :
      (host : Text) (port : ℕ) (callbacks : Callbacks) (works : Bool)
      → IsSound (connect works (create_connection host port callbacks))
  unfolding call
  connect-IsSound host port callbacks works =
      call-IsSound (create_connection host port callbacks) (call_connect works) refl
        (record { timers_agree = refl; alive = (refl, refl) })

  boot-IsSynced :
      (storage : Storage) (site : Value) (works : Bool)
      → IsSynced (boot c json hostname storage site works)
  unfolding boot
  boot-IsSynced storage site works =
      let at = connect-host works (create_connection _ _ _) in
      record {
        current_host = refl;
        current_port = refl;
        host = at.0;
        port = at.1;
        sound = connect-IsSound _ _ _ works;
      }

  -- From boot() on, whatever the user changes, resets or reconnects and whatever the sockets and
  -- timers do: the connection dials the host of the settings, or the page's host where that is empty,
  -- and their port; and it has a socket or one pending timer, exactly one of the two, or is stopped.
  pub run_app-boot-IsSynced :
      (storage : Storage) (site : Value) (works : Bool) (es : List (Event c json hostname))
      → IsSynced (run_app c json hostname (boot c json hostname storage site works) es)
  run_app-boot-IsSynced storage site works es =
      run_app-IsSynced _ es (boot-IsSynced storage site works)
