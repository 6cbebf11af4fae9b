-- ===== src/Command/Serving/Order.antt =====
-- The order of serveHTTP's shutdown, whatever the other goroutines do meanwhile.
use process_path_management.Prelude.{ℕ, ◌≤◌, Bool, true, false, ◌≡◌, ◌≢◌, ◌⊎◌, arith}
use process_path_management.Command.Serving.{
  Main, selecting, notified, flipped, draining, stopping, awaiting, returning, closing, exited,
  accepting, ended, Process, init, Step, signal, expire, write, written, acquire, release, arrive,
  finish, listen_fails, report_server, begin_pass, end_pass, relay_stops, relay_fails, report_relay,
  take_error, take_signal, set_not_ready, shutdown, drained, drain_expired, stop_relay, relay_done,
  await_expired, close_publisher, close_pool, Steps, here, later,
}

-- how far the main goroutine is
abbrev pub stage : Main → ℕ
stage selecting = 0
stage notified = 1
stage flipped = 2
stage draining = 3
stage stopping = 4
stage awaiting = 5
stage returning = 6
stage closing = 7
stage exited = 8

record Inv (s : Process) : Type 0 where
  stopped : s.signalled ≡ true → s.cancelled ≡ true
  returned : s.failed ≡ true → 6 ≤ stage s.main
  asked : s.failed ≡ false → 1 ≤ stage s.main → s.signalled ≡ true
  unready : s.failed ≡ false → 2 ≤ stage s.main → s.ready ≡ false
  closed : s.failed ≡ false → 3 ≤ stage s.main → s.server ≢ accepting
  quiet : s.failed ≡ false → s.expired ≡ false → 4 ≤ stage s.main → s.in_flight ≡ 0
  done : s.failed ≡ false → s.expired ≡ false → 6 ≤ stage s.main → s.relay ≡ ended
  publisher_last : s.publisher_open ≡ false → 7 ≤ stage s.main
  pool_last : s.pool_open ≡ false → 8 ≤ stage s.main
  publisher_closed : 7 ≤ stage s.main → s.publisher_open ≡ false

init-Inv : (wired : Bool) (rows : ℕ) → Inv (init wired rows)
init-Inv wired rows = ground arith

Step-Inv : {s t : Process} → Step s t → Inv s → Inv t
Step-Inv signal i = ground arith
Step-Inv (expire h) i = ground arith
Step-Inv (write batch h k) i = ground arith
Step-Inv (written n h) i = ground arith
Step-Inv (acquire h) i = ground arith
Step-Inv (release n h) i = ground arith
Step-Inv (arrive h) i = ground arith
Step-Inv (finish n rows h) i = ground arith
Step-Inv (listen_fails e h) i = ground arith
Step-Inv (report_server e h k) i = ground arith
Step-Inv (begin_pass h k) i = ground arith
Step-Inv (end_pass batch rows h k) i = ground arith
Step-Inv (relay_stops h k) i = ground arith
Step-Inv (relay_fails e h) i = ground arith
Step-Inv (report_relay e h k) i = ground arith
Step-Inv (take_error e h k) i = ground arith
Step-Inv (take_signal h k) i = ground arith
Step-Inv (set_not_ready h) i = ground arith
Step-Inv (shutdown h) i = ground arith
Step-Inv (drained h k) i = ground arith
Step-Inv (drain_expired h k) i = ground arith
Step-Inv (stop_relay h) i = ground arith
Step-Inv (relay_done h k) i = ground arith
Step-Inv (await_expired h k) i = ground arith
Step-Inv (close_publisher h k) i = ground arith
Step-Inv (close_pool h k) i = ground arith

Steps-Inv : {s t : Process} → Steps s t → Inv s → Inv t
Steps-Inv here i = i
Steps-Inv (later r st) i = Step-Inv st (Steps-Inv r i)

-- What a shutdown that a signal asked for keeps to, by the time that each adapter is closed.
pub record IsOrderly (s : Process) : Type 0 where
  pub readiness_first :
      s.failed ≡ false → s.ready ≡ true → (s.main ≡ selecting) ⊎ (s.main ≡ notified)
  pub publisher_after_relay :
      s.publisher_open ≡ false
      → s.failed ≡ false
      → s.expired ≡ false
      → (s.relay ≡ ended) × (s.in_flight ≡ 0) × (s.server ≢ accepting) × (s.ready ≡ false)
  pub pool_last : s.pool_open ≡ false → (s.main ≡ exited) × (s.publisher_open ≡ false)
  pub error_unasked : s.failed ≡ false → s.pool_open ≡ false → s.signalled ≡ true

-- However the main goroutine, the server, its requests and the relay take turns: until the process
-- is not ready, main has not got past the flip; the pool is closed by the last step, after the
-- publisher; and where no goroutine's error ended the process and the shutdown did not run out of
-- its time, the publisher is closed only when the relay has ended, no request is in flight and no
-- new one is accepted, with the process not ready.
pub Steps-IsOrderly :
    (wired : Bool) (rows : ℕ) {s : Process} → Steps (init wired rows) s → IsOrderly s
Steps-IsOrderly wired rows {s} r =
    let i = Steps-Inv r (init-Inv wired rows) in
    record {
      readiness_first = ground arith;
      publisher_after_relay = ground arith;
      pool_last = ground arith;
      error_unasked = ground arith;
    }
