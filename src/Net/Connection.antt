-- ===== src/Net/Connection.antt =====
-- frontend/js/net.js: createConnection, as a step function on the closure's variables, the pending
-- timers and the log of effects. Sockets and timers have numbers, handed out in order from 1. What
-- the environment decides stands in the event: whether the WebSocket constructor threw, which socket
-- or timer calls back, and what JSON.parse made of a frame.
pub mod Invariant
pub mod Backoff
pub mod Isolation
pub mod Recovery
use orbital_viewer.Base.{
  ℕ, ◌+◌, min, Bool, true, false, not, ◌&&◌, Option, none, some, List, [], ◌∷◌, ◌++◌, ◌==◌,
  if◌then◌else◌, keep, Text, get_elem?,
}
use orbital_viewer.Base.Outcome.{Outcome, ok, err}
use orbital_viewer.Net.Message.{Problem, Message, Hello, State, hello, state, parse_message}
use orbital_viewer.Value.{Value}

pub data Status : Type 0 where
  connecting opened closed : Status

pub data Effect : Type 0 where
  status : Status → Effect
  dial : (id : ℕ) (host : Text) (port : ℕ) → Effect
  dial_failed : (host : Text) (port : ℕ) → Effect
  hang_up : (id : ℕ) → Effect
  on_hello : Hello → Effect
  on_state : State → Effect

-- Which callbacks are functions.
pub record Callbacks : Type 0 where
  pub has_status : Bool
  pub has_hello : Bool
  pub has_state : Bool

pub record Conn : Type 0 where
  pub callbacks : Callbacks
  pub host : Text
  pub port : ℕ
  pub socket : Option ℕ
  pub reconnect_timer : Option ℕ
  pub backoff_index : ℕ
  pub stopped : Bool
  pub parse_error_count : ℕ
  pub next_id : ℕ
  pub timers : List (ℕ × ℕ)
  pub log : List Effect

abbrev pub is_some_id : Option ℕ → ℕ → Bool
is_some_id none id = false
is_some_id (some s) id = s == id

-- `BACKOFF_DELAYS_MS[Math.min(backoffIndex, BACKOFF_DELAYS_MS.length - 1)]`
abbrev delay_at : ℕ → ℕ
delay_at i =
    if i == 0
    then 1000
    else if i == 1
    then 2000
    else if i == 2
    then 4000
    else if i == 3
    then 8000
    else 10_000

unfoldable pub backoff_delay : ℕ → ℕ
backoff_delay i = delay_at (min i 4)

abbrev pub emit : Effect → Conn → Conn
emit e c = record c { log = c.log ++ e ∷ [] }

abbrev pub emit_if : Bool → Effect → Conn → Conn
emit_if b e c = if b then emit e c else c

unfoldable pub emit_status : Status → Conn → Conn
emit_status s c = emit_if c.callbacks.has_status (status s) c

unfoldable pub schedule_reconnect : Conn → Conn
schedule_reconnect c = if c.stopped then c else record c {
  backoff_index = c.backoff_index + 1;
  reconnect_timer = some c.next_id;
  timers = c.timers ++ (c.next_id, backoff_delay c.backoff_index) ∷ [];
  next_id = c.next_id + 1;
}

dial_out : Bool → Conn → Conn
unfolding schedule_reconnect
dial_out true c = record (emit (dial c.next_id c.host c.port) c) {
  socket = some c.next_id;
  next_id = c.next_id + 1;
}
dial_out false c = schedule_reconnect (emit (dial_failed c.host c.port) c)

-- The argument tells whether the constructor returns.
unfoldable pub open_socket : Bool → Conn → Conn
unfolding dial_out emit_status
open_socket works c = if c.stopped then c else dial_out works (emit_status connecting c)

-- `if (reconnectTimer) { clearTimeout(reconnectTimer); reconnectTimer = null; }`
unfoldable pub cancel_timer : Conn → Conn
cancel_timer c = elim c.reconnect_timer [
  | none ↦ c
  | some id ↦ record c { reconnect_timer = none; timers = keep (λ t. not (t.0 == id)) c.timers }
]

-- `if (socket) { const s = socket; socket = null; try { s.close(); } … }`
unfoldable pub drop_socket : Conn → Conn
drop_socket c = elim c.socket [
  | none ↦ c
  | some id ↦ record (emit (hang_up id) c) { socket = none }
]

-- The methods of the connection.
unfoldable pub connect : Bool → Conn → Conn
unfolding cancel_timer open_socket
connect works c = open_socket works (cancel_timer (record c { stopped = false; backoff_index = 0 }))

unfoldable pub close : Conn → Conn
unfolding cancel_timer drop_socket
close c = drop_socket (cancel_timer (record c { stopped = true }))

unfoldable pub set_endpoint : Text → ℕ → Bool → Conn → Conn
unfolding cancel_timer drop_socket open_socket
set_endpoint host port works c =
    open_socket works (record (drop_socket (cancel_timer (record c { host = host; port = port }))) {
      backoff_index = 0;
      stopped = false;
    })

-- The handlers of a socket, behind their test `socket !== ws`.
on_open : Conn → Conn
unfolding emit_status
on_open c = emit_status opened (record c { backoff_index = 0 })

deliver : Outcome Problem Message → Conn → Conn
deliver (err _) c = record c { parse_error_count = c.parse_error_count + 1 }
deliver (ok (hello h)) c = emit_if c.callbacks.has_hello (on_hello h) c
deliver (ok (state s)) c = emit_if c.callbacks.has_state (on_state s) c

on_close : Conn → Conn
unfolding emit_status schedule_reconnect
on_close c = schedule_reconnect (emit_status closed (record c { socket = none }))

abbrev is_pending : ℕ → List (ℕ × ℕ) → Bool
is_pending id [] = false
is_pending id ((t, _) ∷ ts) = if t == id then true else is_pending id ts

-- The timer's callback.
on_timer : ℕ → Bool → Conn → Conn
unfolding open_socket
on_timer id works c =
    open_socket works
      (record c { reconnect_timer = none; timers = keep (λ t. not (t.0 == id)) c.timers })

-- What the environment does. A timer that is not pending does not fire.
pub data Signal : Type 0 where
  ws_open : (id : ℕ) → Signal
  ws_message : (id : ℕ) (frame : Option Value) → Signal
  ws_close : (id : ℕ) → Signal
  timer : (id : ℕ) (works : Bool) → Signal

unfoldable pub signal : Conn → Signal → Conn
unfolding on_open deliver on_close on_timer
signal c (ws_open id) = if is_some_id c.socket id then on_open c else c
signal c (ws_message id frame) =
    if is_some_id c.socket id then deliver (parse_message frame) c else c
signal c (ws_close id) = if is_some_id c.socket id then on_close c else c
signal c (timer id works) = if is_pending id c.timers then on_timer id works c else c

-- What the program calls.
pub data Call : Type 0 where
  call_connect : (works : Bool) → Call
  call_close : Call
  call_set_endpoint : (host : Text) (port : ℕ) (works : Bool) → Call

unfoldable pub call : Conn → Call → Conn
unfolding connect close set_endpoint
call c (call_connect works) = connect works c
call c call_close = close c
call c (call_set_endpoint host port works) = set_endpoint host port works c

abbrev pub create_connection : Text → ℕ → Callbacks → Conn
create_connection host port callbacks = record {
  callbacks = callbacks;
  host = host;
  port = port;
  socket = none;
  reconnect_timer = none;
  backoff_index = 0;
  stopped = true;
  parse_error_count = 0;
  next_id = 1;
  timers = [];
  log = [];
}
