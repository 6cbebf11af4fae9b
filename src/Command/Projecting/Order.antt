-- ===== src/Command/Projecting/Order.antt =====
-- The order of the projector's shutdown, whatever its goroutines do meanwhile.
use process_path_management.Prelude.{
  ℕ, ◌≤◌, String, Bool, true, false, ◌≡◌, refl, Option, some, arith,
}
use process_path_management.Errors.{Result}
use process_path_management.Command.Projecting.{
  Main, serving, notified, flipped, draining, stopping, awaiting, closing, closing_pool, exited,
  Consumer, fetching, handling, stopped, Process, init, Step, signal, expire, arrive, answer,
  listen_fails, fetch, handled, consumer_stops, fetch_fails, handling_fails, take_signal, flip,
  shutdown, drained, drain_expired, cancel_consumer, consumer_done, await_expired, close_consumer,
  close_pool, Steps, here, later, admin,
}

-- how far the main goroutine is
abbrev stage : Main → ℕ
stage serving = 0
stage notified = 1
stage flipped = 2
stage draining = 3
stage stopping = 4
stage awaiting = 5
stage closing = 6
stage closing_pool = 7
stage exited = 8

abbrev has_stopped : Consumer → Bool
has_stopped (stopped _) = true
has_stopped _ = false

record Inv (s : Process) : Type 0 where
  asked : 1 ≤ stage s.main → s.signalled ≡ true
  ready : stage s.main ≤ 1 → s.not_ready ≡ false
  unready : 2 ≤ stage s.main → s.not_ready ≡ true
  closed : 3 ≤ stage s.main → s.accepting ≡ false
  quiet : s.expired ≡ false → 4 ≤ stage s.main → s.in_flight ≡ 0
  running : s.cancelled ≡ true → 5 ≤ stage s.main
  done : s.expired ≡ false → 6 ≤ stage s.main → has_stopped s.consumer ≡ true
  consumer_last : s.consumer_open ≡ false → 7 ≤ stage s.main
  consumer_closed : 7 ≤ stage s.main → s.consumer_open ≡ false
  pool_last : s.pool_open ≡ false → 8 ≤ stage s.main

init-Inv : Inv init
init-Inv = ground arith

Step-Inv : {s t : Process} → Step s t → Inv s → Inv t
Step-Inv signal i = ground arith
Step-Inv (expire h) i = ground arith
Step-Inv (arrive h) i = ground arith
Step-Inv (answer n h) i = ground arith
Step-Inv (listen_fails h) i = ground arith
Step-Inv (fetch h) i = ground arith
Step-Inv (handled h) i = ground arith
Step-Inv (consumer_stops h k) i = ground arith
Step-Inv (fetch_fails e h) i = ground arith
Step-Inv (handling_fails e h) i = ground arith
Step-Inv (take_signal h k) i = ground arith
Step-Inv (flip h) i = ground arith
Step-Inv (shutdown h) i = ground arith
Step-Inv (drained h k) i = ground arith
Step-Inv (drain_expired h k) i = ground arith
Step-Inv (cancel_consumer h) i = ground arith
Step-Inv (consumer_done r h k) i = ground arith
Step-Inv (await_expired h k) i = ground arith
Step-Inv (close_consumer h) i = ground arith
Step-Inv (close_pool h) i = ground arith

Steps-Inv : {s t : Process} → Steps s t → Inv s → Inv t
Steps-Inv here i = i
Steps-Inv (later r st) i = Step-Inv st (Steps-Inv r i)

abbrev ready_answer : Option (ℕ × String)
ready_answer = some (200, "{\"status\":\"ready\"}")

abbrev unready_answer : Option (ℕ × String)
unready_answer = some (503, "{\"status\":\"not_ready\"}")

-- What every state of the projector keeps to.
pub record KeepsOrder (s : Process) : Type 0 where
  pub ready_before : s.signalled ≡ false → admin s.not_ready "/readyz" ≡ ready_answer
  pub unready_first :
      s.cancelled ≡ true
      → (admin s.not_ready "/readyz" ≡ unready_answer)
        × (s.accepting ≡ false)
        × (s.signalled ≡ true)
  pub consumer_after_work :
      s.consumer_open ≡ false
      → s.expired ≡ false
      → ((r : Result (Unit {0})) × (s.consumer ≡ stopped r))
        × (s.in_flight ≡ 0)
        × (s.accepting ≡ false)
  pub pool_last : s.pool_open ≡ false → (s.main ≡ exited) × (s.consumer_open ≡ false)
  pub alive : admin s.not_ready "/healthz" ≡ some (200, "{\"status\":\"ok\"}")

result_of : (c : Consumer) → has_stopped c ≡ true → (r : Result (Unit {0})) × (c ≡ stopped r)
result_of (stopped r) h = (r, refl)
result_of fetching h = absurd (ground arith)
result_of handling h = absurd (ground arith)

-- However the main goroutine, the admin server, its requests and the consumer take turns: before the
-- signal /readyz answers 200, also when the consumer has ended with an error; the consumer's context
-- is cancelled only after the signal, when /readyz answers 503 and no new request is accepted; where
-- the shutdown does not run out of its time, the consumer is closed only when its loop has returned
-- and no request is in flight; the pool is closed by the last step, after the consumer; and /healthz
-- answers 200 throughout.
pub Steps-KeepsOrder : {s : Process} → Steps init s → KeepsOrder s
unfolding admin
Steps-KeepsOrder {s} r =
    let i = Steps-Inv r init-Inv in
    record {
      ready_before = ground arith;
      unready_first = ground arith;
      consumer_after_work =
          λ h k. (result_of s.consumer (ground arith), ground arith, ground arith);
      pool_last = ground arith;
      alive = refl;
    }
