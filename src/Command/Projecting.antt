-- ===== src/Command/Projecting.antt =====
-- run of cmd/pathmgmt-projector/main.go from the start of its goroutines to its end: the main
-- goroutine, the admin server with its requests, and the analytics consumer, interleaved in any
-- order; and the endpoints of the admin server. Shutdown is net/http's, which closes the listener at
-- once and waits for the requests in flight or for its context.
pub mod Order
use process_path_management.Prelude.{
  ℕ, ◌+◌, suc, String, Bool, true, false, ◌≡◌, ◌==◌, Option, none, some, not, if◌then◌else◌,
}
use process_path_management.Errors.{Error, Result, ok, err}

-- readinessGate, by its zero value `false`
abbrev pub set_not_ready : Bool → Bool
set_not_ready not_ready = true

abbrev pub is_ready : Bool → Bool
is_ready not_ready = not not_ready

-- the status and the body of an answer
abbrev pub readiness_gate : Bool → ℕ × String
readiness_gate not_ready =
    if not (is_ready not_ready)
    then (503, "{\"status\":\"not_ready\"}")
    else (200, "{\"status\":\"ready\"}")

-- newAdminMux: the answers of its two paths, whatever the method; any other is the mux's
unfoldable pub admin : Bool → String → Option (ℕ × String)
admin not_ready path =
    if path == "/healthz"
    then some (200, "{\"status\":\"ok\"}")
    else if path == "/readyz"
    then some (readiness_gate not_ready)
    else none

-- where the main goroutine stands, in the order of its statements
pub data Main : Type 0 where
  serving notified flipped draining stopping awaiting closing closing_pool exited : Main

-- consumer.Run: in FetchMessage, in handleFetchedMessage, or returned, after which consumerDone is
-- closed
pub data Consumer : Type 0 where
  fetching handling : Consumer
  stopped : Result (Unit {0}) → Consumer

pub record Process : Type 0 where
  pub main : Main
  pub accepting : Bool
  pub consumer : Consumer
  pub signalled : Bool
  pub cancelled : Bool
  pub expired : Bool
  pub not_ready : Bool
  pub in_flight : ℕ
  pub consumer_open : Bool
  pub pool_open : Bool

abbrev pub init : Process
init = record {
  main = serving;
  accepting = true;
  consumer = fetching;
  signalled = false;
  cancelled = false;
  expired = false;
  not_ready = false;
  in_flight = 0;
  consumer_open = true;
  pool_open = true;
}

-- shutdownCtx is made when the signal was received
abbrev pub has_deadline : Main → Bool
has_deadline serving = false
has_deadline _ = true

pub data Step (s : Process) : Process → Type 0 where
  -- the world, the admin server and its requests
  signal : Step s (record s { signalled = true })
  expire : has_deadline s.main ≡ true → Step s (record s { expired = true })
  arrive : s.accepting ≡ true → Step s (record s { in_flight = s.in_flight + 1 })
  answer : (n : ℕ) → s.in_flight ≡ suc n → Step s (record s { in_flight = n })
  listen_fails : s.accepting ≡ true → Step s (record s { accepting = false })
  -- the consumer, whose errors are logged
  fetch : s.consumer ≡ fetching → Step s (record s { consumer = handling })
  handled : s.consumer ≡ handling → Step s (record s { consumer = fetching })
  consumer_stops :
      s.consumer ≡ fetching → s.cancelled ≡ true → Step s (record s { consumer = stopped (ok tt) })
  fetch_fails :
      (e : Error) → s.consumer ≡ fetching → Step s (record s { consumer = stopped (err e) })
  handling_fails :
      (e : Error) → s.consumer ≡ handling → Step s (record s { consumer = stopped (err e) })
  -- the main goroutine
  take_signal : s.main ≡ serving → s.signalled ≡ true → Step s (record s { main = notified })
  flip :
      s.main ≡ notified
      → Step s (record s { main = flipped; not_ready = set_not_ready s.not_ready })
  shutdown : s.main ≡ flipped → Step s (record s { main = draining; accepting = false })
  drained : s.main ≡ draining → s.in_flight ≡ 0 → Step s (record s { main = stopping })
  drain_expired : s.main ≡ draining → s.expired ≡ true → Step s (record s { main = stopping })
  cancel_consumer : s.main ≡ stopping → Step s (record s { main = awaiting; cancelled = true })
  consumer_done :
      (r : Result (Unit {0}))
      → s.main ≡ awaiting
      → s.consumer ≡ stopped r
      → Step s (record s { main = closing })
  await_expired : s.main ≡ awaiting → s.expired ≡ true → Step s (record s { main = closing })
  close_consumer :
      s.main ≡ closing → Step s (record s { main = closing_pool; consumer_open = false })
  close_pool : s.main ≡ closing_pool → Step s (record s { main = exited; pool_open = false })

-- any sequence of steps
pub data Steps (s : Process) : Process → Type 0 where
  here : Steps s s
  later : {t u : Process} → Steps s t → Step t u → Steps s u
