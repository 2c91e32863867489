-- ===== src/Net/Connection/Isolation.antt =====
-- frontend/js/net.js: what a socket that is not the current one, and a closed connection, can do.
use orbital_viewer.Base.{
  ℕ, ◌+◌, ◌≡◌, refl, ◌≢◌, Bool, true, false, Option, none, some, List, [], ◌∷◌, ◌++◌, append_assoc,
  arith, if◌then◌else◌, Text,
}
use orbital_viewer.Base.Outcome.{err}
use orbital_viewer.Net.Connection.Invariant.{IsSound}
use orbital_viewer.Net.Connection.{
  backoff_delay, connecting, status, dial_failed, dial, Status, hang_up, set_endpoint, Effect,
  Callbacks, Conn, Signal, ws_open, ws_message, ws_close, timer, signal, close,
}
use orbital_viewer.Net.Message.{Problem, parse_message}
use orbital_viewer.Value.{Value}

-- The socket that a signal comes from.
abbrev pub IsFrom : ℕ → Signal → Type 0
IsFrom id (ws_open s) = s ≡ id
IsFrom id (ws_message s _) = s ≡ id
IsFrom id (ws_close s) = s ≡ id
IsFrom id (timer _ _) = ⊥

-- A socket that is not the current one changes nothing by opening, closing or sending.
pub signal_stale :
    (c : Conn) (id : ℕ) (s : Signal) → IsFrom id s → c.socket ≢ some id → signal c s ≡ c
unfolding signal
signal_stale c id (ws_open s) f h = ground arith
signal_stale c id (ws_message s frame) f h = ground arith
signal_stale c id (ws_close s) f h = ground arith
signal_stale c id (timer s works) f h = absurd f

-- A frame from the current socket that does not parse is counted, and all else stays.
pub signal-ws_message_bad :
    (c : Conn) (id : ℕ) (frame : Option Value) (p : Problem)
    → c.socket ≡ some id
    → parse_message frame ≡ err p
    → signal c (ws_message id frame) ≡ record c { parse_error_count = c.parse_error_count + 1 }
unfolding signal
signal-ws_message_bad c id frame p h e = ground arith

abbrev pub signals : Conn → List Signal → Conn
signals c [] = c
signals c (s ∷ ss) = signals (signal c s) ss

signal_at_rest : (c : Conn) (s : Signal) → c.socket ≡ none → c.timers ≡ [] → signal c s ≡ c
unfolding signal
signal_at_rest c (ws_open s) h t = ground arith
signal_at_rest c (ws_message s frame) h t = ground arith
signal_at_rest c (ws_close s) h t = ground arith
signal_at_rest c (timer s works) h t = ground arith

signals_at_rest : (c : Conn) (ss : List Signal) → c.socket ≡ none → c.timers ≡ [] → signals c ss ≡ c
signals_at_rest c [] h t = refl
signals_at_rest c (s ∷ ss) h t = rw (signal_at_rest c s h t) (signals_at_rest c ss h t)

close_at_rest : (c : Conn) → IsSound c → ((close c).socket ≡ none) × ((close c).timers ≡ [])
unfolding close
close_at_rest c h = ground arith

-- Once a sound connection is closed, no signals of sockets and timers change it: no status, no
-- message, no dial.
pub signals-close : (c : Conn) (ss : List Signal) → IsSound c → signals (close c) ss ≡ close c
signals-close c ss h = let (s, t) = close_at_rest c h in signals_at_rest (close c) ss s t

abbrev pub hung_up : Option ℕ → List Effect
hung_up none = []
hung_up (some id) = hang_up id ∷ []

abbrev pub said : Callbacks → Status → List Effect
said k s = if k.has_status then status s ∷ [] else []

abbrev pub dialled : Bool → ℕ → Text → ℕ → List Effect
dialled true id host port = dial id host port ∷ []
dialled false id host port = dial_failed host port ∷ []

set_endpoint-log :
    (host : Text) (port : ℕ) (works : Bool) (c : Conn)
    → (set_endpoint host port works c).log
      ≡ c.log
        ++ (hung_up c.socket ++ (said c.callbacks connecting ++ dialled works c.next_id host port))
unfolding set_endpoint
set_endpoint-log host port works c = grind (arith, append_assoc)

-- Whatever state the connection is in, `setEndpoint` hangs up the socket that there was, announces
-- that it is connecting, and dials the new endpoint, at once and in this order; the new socket is the
-- current one, or, if the dial failed, the one pending timer waits for the first delay.
pub set_endpoint_lem :
    (host : Text) (port : ℕ) (works : Bool) (c : Conn)
    → IsSound c
    → let d = set_endpoint host port works c in
      (d.log
        ≡ c.log
          ++ (hung_up c.socket
              ++ (said c.callbacks connecting ++ dialled works c.next_id host port)))
      × (d.host ≡ host)
      × (d.port ≡ port)
      × (d.stopped ≡ false)
      × (d.socket ≡ (if works then some c.next_id else none))
      × (d.timers ≡ (if works then [] else (c.next_id, 1000) ∷ []))
unfolding set_endpoint backoff_delay
set_endpoint_lem host port works c h = (
  set_endpoint-log host port works c,
  ground arith,
  ground arith,
  ground arith,
  ground arith,
  ground arith,
)
