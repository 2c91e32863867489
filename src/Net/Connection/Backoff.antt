-- ===== src/Net/Connection/Backoff.antt =====
-- frontend/js/net.js: the delays between attempts.
use native.Mathlib.Nat.{pow-suc}
use orbital_viewer.Base.{
  ℕ, zero, suc, ◌+◌, ◌-◌, ◌*◌, ◌^◌, ◌≤◌, min, ◌≡◌, refl, false, Option, some, List, [], ◌∷◌, arith,
}
use orbital_viewer.Value.{Value}
use orbital_viewer.Net.Connection.{
  ws_message, ws_open, ws_close, Conn, timer, signal, connect, backoff_delay,
}

-- The pending timer fires and the dial fails again.
abbrev pub retry : Conn → Conn
retry c = signal c (timer (c.next_id - 1) false)

abbrev pub retries : ℕ → Conn → Conn
retries zero c = c
retries (suc n) c = retry (retries n c)

-- A connection that waits for attempt `n + 1` behind its last success.
record IsWaiting (n : ℕ) (c : Conn) : Type 0 where
  counted : c.backoff_index ≡ n + 1
  running : c.stopped ≡ false
  pending : c.timers ≡ (c.next_id - 1, backoff_delay n) ∷ []

connect-IsWaiting : (c : Conn) → c.timers ≡ [] → IsWaiting 0 (connect false c)
unfolding connect
connect-IsWaiting c h = ground arith

retry-IsWaiting : (n : ℕ) (c : Conn) → IsWaiting n c → IsWaiting (suc n) (retry c)
unfolding signal
retry-IsWaiting n c h = ground arith

retries-IsWaiting : (n : ℕ) (c : Conn) → IsWaiting 0 c → IsWaiting n (retries n c)
retries-IsWaiting zero c h = h
retries-IsWaiting (suc n) c h = retry-IsWaiting n (retries n c) (retries-IsWaiting n c h)

pow2-ge : (n : ℕ) → 1 ≤ 2 ^ n
pow2-ge zero = omega arith
pow2-ge (suc n) = simp pow-suc (omega (arith, pow2-ge n))

-- The table of delays doubles from one second up to the cap of ten.
backoff_delay_lem : (n : ℕ) → backoff_delay n ≡ min (1000 * 2 ^ n) 10_000
unfolding backoff_delay
backoff_delay_lem zero = refl
backoff_delay_lem (suc zero) = refl
backoff_delay_lem (suc (suc zero)) = refl
backoff_delay_lem (suc (suc (suc zero))) = refl
backoff_delay_lem (suc (suc (suc (suc n)))) = simp pow-suc (ground (arith, pow2-ge n))

-- Behind `connect`, while every dial fails, the n-th failure in a row is followed by one pending timer
-- whose delay is 1000 * 2 ^ n milliseconds, capped at ten seconds (n counts from 0).
pub timers-retries :
    (n : ℕ) (c : Conn)
    → c.timers ≡ []
    → let d = retries n (connect false c) in
      d.timers ≡ (d.next_id - 1, min (1000 * 2 ^ n) 10_000) ∷ []
timers-retries n c h =
    rw (← backoff_delay_lem n) ((retries-IsWaiting n _ (connect-IsWaiting c h)).pending)

abbrev pub frames : ℕ → Conn → List (Option Value) → Conn
frames id c [] = c
frames id c (f ∷ fs) = frames id (signal c (ws_message id f)) fs

-- The current socket is open, and no attempt has failed since.
record IsFresh (id : ℕ) (c : Conn) : Type 0 where
  current : c.socket ≡ some id
  running : c.stopped ≡ false
  reset : c.backoff_index ≡ 0
  idle : c.timers ≡ []

frames-IsFresh :
    (id : ℕ) (c : Conn) (fs : List (Option Value)) → IsFresh id c → IsFresh id (frames id c fs)
unfolding signal
frames-IsFresh id c [] h = h
frames-IsFresh id c (f ∷ fs) h = frames-IsFresh id (signal c (ws_message id f)) fs (ground arith)

ws_open-IsFresh :
    (id : ℕ) (c : Conn)
    → c.socket ≡ some id
    → c.stopped ≡ false
    → c.timers ≡ []
    → IsFresh id (signal c (ws_open id))
unfolding signal
ws_open-IsFresh id c s r t = ground arith

ws_close_fresh :
    (id : ℕ) (c : Conn) → IsFresh id c → (signal c (ws_close id)).timers ≡ (c.next_id, 1000) ∷ []
unfolding signal backoff_delay
ws_close_fresh id c h = ground arith

-- A current socket that opens resets the delays: if it closes later, whatever the frames in between,
-- the next attempt waits for one second, however many attempts had failed before.
pub timers_reset :
    (id : ℕ) (c : Conn) (fs : List (Option Value))
    → c.socket ≡ some id
    → c.stopped ≡ false
    → c.timers ≡ []
    → let d = frames id (signal c (ws_open id)) fs in
      (signal d (ws_close id)).timers ≡ (d.next_id, 1000) ∷ []
timers_reset id c fs s r t =
    ws_close_fresh id _ (frames-IsFresh id _ fs (ws_open-IsFresh id c s r t))
