-- ===== src/Net/Connection/Invariant.antt =====
-- frontend/js/net.js: what holds of a connection after any calls and signals.
use orbital_viewer.Base.{
  ℕ, ◌≤◌, ◌≡◌, refl, Bool, true, false, Option, none, some, List, [], ◌∷◌, arith, Text,
}
use orbital_viewer.Net.Connection.{
  create_connection, Callbacks, Conn, Signal, ws_open, ws_message, ws_close, timer, Call,
  call_connect, call_close, call_set_endpoint, signal, call, backoff_delay,
}

-- The pending timers are those that the variable names: none, or one.
abbrev pub TimersAgree : Option ℕ → List (ℕ × ℕ) → Type 0
TimersAgree none ts = ts ≡ []
TimersAgree (some id) [] = ⊥
TimersAgree (some id) ((t, d) ∷ ts) = (t ≡ id) × (d ≤ 10_000) × (ts ≡ [])

-- A stopped connection is at rest; any other has a socket or a pending dial, and not both.
abbrev pub IsAlive : Bool → Option ℕ → Option ℕ → Type 0
IsAlive true socket pending = (socket ≡ none) × (pending ≡ none)
IsAlive false (some _) none = Unit
IsAlive false none (some _) = Unit
IsAlive false _ _ = ⊥

pub record IsSound (c : Conn) : Type 0 where
  pub timers_agree : TimersAgree c.reconnect_timer c.timers
  pub alive : IsAlive c.stopped c.socket c.reconnect_timer

-- `connect` is for a connection with no socket: it would lose the one that there is.
abbrev pub IsAllowed : Conn → Call → Type 0
IsAllowed c (call_connect _) = c.socket ≡ none
IsAllowed c _ = Unit

backoff_delay-le : (i : ℕ) → backoff_delay i ≤ 10_000
unfolding backoff_delay
backoff_delay-le i = ground arith

pub signal-IsSound : (c : Conn) (s : Signal) → IsSound c → IsSound (signal c s)
unfolding signal
signal-IsSound c (ws_open id) h = ground arith
signal-IsSound c (ws_message id frame) h = ground arith
signal-IsSound c (ws_close id) h = ground (arith, backoff_delay-le c.backoff_index)
signal-IsSound c (timer id works) h = ground (arith, backoff_delay-le c.backoff_index)

pub call-IsSound : (c : Conn) (k : Call) → IsAllowed c k → IsSound c → IsSound (call c k)
unfolding call
call-IsSound c (call_connect works) a h = ground (arith, backoff_delay-le 0)
call-IsSound c call_close a h = ground arith
call-IsSound c (call_set_endpoint host port works) a h = ground (arith, backoff_delay-le 0)

-- The connections that a program and its environment can bring about.
pub data Reach (start : Conn) : Conn → Type 0 where
  here : Reach start start
  signalled : {c : Conn} (s : Signal) → Reach start c → Reach start (signal c s)
  called : {c : Conn} (k : Call) → IsAllowed c k → Reach start c → Reach start (call c k)

Reach-IsSound : {start c : Conn} → IsSound start → Reach start c → IsSound c
Reach-IsSound h here = h
Reach-IsSound h (signalled {c} s r) = signal-IsSound c s (Reach-IsSound h r)
Reach-IsSound h (called {c} k a r) = call-IsSound c k a (Reach-IsSound h r)

-- From its creation on, whatever is called and whatever the sockets and timers do, so long as
-- `connect` is called only with no socket: at most one timer is pending, it is the one that the
-- variable names, and its delay is at most ten seconds; a stopped connection has no socket and no
-- timer, and any other has exactly one of the two, so it never stops trying.
pub Reach-create_connection-IsSound :
    (host : Text) (port : ℕ) (callbacks : Callbacks) {c : Conn}
    → Reach (create_connection host port callbacks) c
    → IsSound c
Reach-create_connection-IsSound host port callbacks r =
    Reach-IsSound (record { timers_agree = refl; alive = (refl, refl) }) r
