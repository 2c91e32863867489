-- ===== src/Net/Connection/Recovery.antt =====
-- frontend/js/net.js: a running connection can always come up again.
use orbital_viewer.Net.Connection.Invariant.{IsAlive, TimersAgree, IsSound}
use orbital_viewer.Net.Connection.Isolation.{signals, said}
use orbital_viewer.Net.Connection.{
  backoff_delay, opened, timer, ws_close, Signal, ws_open, Effect, signal, Conn,
}
use orbital_viewer.Base.{
  ℕ, ◌+◌, ◌≡◌, refl, sym, ap, ◌∙◌, subst, true, false, Option, none, some, List, [], ◌∷◌, ◌++◌,
  append-nil, arith,
}

-- The environment's part in coming up again: the current socket, if there is one, closes; the timer
-- fires, and the constructor works; the new socket opens.
abbrev recovery_of : (socket pending : Option ℕ) → (next : ℕ) → List Signal
recovery_of (some id) _ next = ws_close id ∷ timer next true ∷ ws_open (next + 1) ∷ []
recovery_of none (some id) next = timer id true ∷ ws_open next ∷ []
recovery_of none none next = []

abbrev pub recovery : Conn → List Signal
recovery c = recovery_of c.socket c.reconnect_timer c.next_id

-- The connection has a socket that has opened, and starts its delays anew.
pub record IsUp (c : Conn) : Type 0 where
  pub socket : ℕ
  pub current : c.socket ≡ some socket
  pub running : c.stopped ≡ false
  pub quiet : c.timers ≡ []
  pub fresh : c.backoff_index ≡ 0
  pub front : List Effect
  pub announced : c.log ≡ front ++ said c.callbacks opened

log-ws_open :
    (c : Conn) (id : ℕ)
    → c.socket ≡ some id
    → (signal c (ws_open id)).log ≡ c.log ++ said c.callbacks opened
unfolding signal
log-ws_open c id s = ground (arith, append-nil c.log)

callbacks-ws_open : (c : Conn) (id : ℕ) → (signal c (ws_open id)).callbacks ≡ c.callbacks
unfolding signal
callbacks-ws_open c id = ground arith

again-IsUp :
    (c : Conn) (id : ℕ)
    → c.socket ≡ some id
    → c.stopped ≡ false
    → c.timers ≡ []
    → IsUp (signal c (ws_open id))
unfolding signal
again-IsUp c id s r q = record {
  socket = id;
  current = ground (arith, s);
  running = ground (arith, r);
  quiet = ground (arith, q);
  fresh = ground (arith, s);
  front = c.log;
  announced = log-ws_open c id s ∙ ap (λ k. c.log ++ said k opened) (sym (callbacks-ws_open c id));
}

timer_dials :
    (c : Conn) (id delay : ℕ)
    → c.timers ≡ (id, delay) ∷ []
    → c.stopped ≡ false
    → ((signal c (timer id true)).socket ≡ some c.next_id)
      × ((signal c (timer id true)).stopped ≡ false)
      × ((signal c (timer id true)).timers ≡ [])
unfolding signal
timer_dials c id delay t r = ground arith

dials-IsUp :
    (c : Conn) (id delay : ℕ)
    → c.timers ≡ (id, delay) ∷ []
    → c.stopped ≡ false
    → IsUp (signals c (timer id true ∷ ws_open c.next_id ∷ []))
dials-IsUp c id delay t r =
    let (socket, running, quiet) = timer_dials c id delay t r in
    again-IsUp (signal c (timer id true)) c.next_id socket running quiet

ws_close_waits :
    (c : Conn) (id : ℕ)
    → c.socket ≡ some id
    → c.stopped ≡ false
    → c.timers ≡ []
    → ((signal c (ws_close id)).timers ≡ (c.next_id, backoff_delay c.backoff_index) ∷ [])
      × ((signal c (ws_close id)).stopped ≡ false)
      × ((signal c (ws_close id)).next_id ≡ c.next_id + 1)
unfolding signal
ws_close_waits c id s r q = ground arith

closes_and_dials-IsUp :
    (c : Conn) (id : ℕ)
    → c.socket ≡ some id
    → c.stopped ≡ false
    → c.timers ≡ []
    → IsUp (signals c (ws_close id ∷ timer c.next_id true ∷ ws_open (c.next_id + 1) ∷ []))
closes_and_dials-IsUp c id s r q =
    let (waits, running, next) = ws_close_waits c id s r q in
    subst (λ n. IsUp (signals (signal c (ws_close id)) (timer c.next_id true ∷ ws_open n ∷ [])))
      next
      (dials-IsUp (signal c (ws_close id)) c.next_id (backoff_delay c.backoff_index) waits running)

one_timer : (id : ℕ) (ts : List (ℕ × ℕ)) → TimersAgree (some id) ts → (d : ℕ) × (ts ≡ (id, d) ∷ [])
one_timer id [] h = absurd h
one_timer id ((t, d) ∷ ts) h = (d, ground (arith, h))

recovers :
    (c : Conn) (socket pending : Option ℕ)
    → c.socket ≡ socket
    → c.stopped ≡ false
    → TimersAgree pending c.timers
    → IsAlive false socket pending
    → IsUp (signals c (recovery_of socket pending c.next_id))
recovers c (some id) none s r agree alive = closes_and_dials-IsUp c id s r agree
recovers c none (some id) s r agree alive =
    let (d, waits) = one_timer id c.timers agree in dials-IsUp c id d waits r
recovers c none none s r agree alive = absurd alive
recovers c (some id) (some t) s r agree alive = absurd alive

-- A sound connection that is not stopped is never stuck, whatever came before: once its current
-- socket, if it has one, has closed, the one pending timer fires, and if then the constructor works
-- and the socket opens, the connection is up on the new socket, has announced it, and waits for
-- nothing.
pub recovery-IsUp : (c : Conn) → IsSound c → c.stopped ≡ false → IsUp (signals c (recovery c))
recovery-IsUp c h r =
    recovers c c.socket c.reconnect_timer refl r h.timers_agree
      (subst (λ b. IsAlive b c.socket c.reconnect_timer) r h.alive)
