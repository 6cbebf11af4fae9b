-- ===== src/Command/Serving.antt =====
-- serveHTTP of cmd/pathmgmt/main.go, and the deferred calls of run after it: the main goroutine, that
-- of the HTTP server with its requests, and that of the outbox relay, interleaved in any order.
-- What net/http, os/signal and context do is taken from their documentation: Shutdown closes the
-- listener at once and waits for the requests in flight or for its context; a signal ends stopCtx,
-- and with it relayCtx, which is made from it. The Close of the Kafka writer waits for the writes
-- that are pending, and that of pgxpool for the connections that are in use.
pub mod Order
pub mod Stranded
pub mod Exit
use process_path_management.Prelude.{
  ℕ, ◌+◌, ◌-◌, ◌≤◌, suc, Bool, true, false, ◌≡◌, Option, none, some, leb, if◌then◌else◌,
}
use process_path_management.Errors.{Error}

-- where the main goroutine stands, in the order of its statements
pub data Main : Type 0 where
  selecting notified flipped draining stopping awaiting returning closing exited : Main

-- the goroutine of ListenAndServe: its error goes to errCh, unless it is ErrServerClosed
pub data Server : Type 0 where
  accepting gone : Server
  reporting : Error → Server

-- the goroutine of relay.Run: between two passes, or in a pass with a claimed batch; then relayDone
-- is closed, after an error went to errCh
pub data Relay : Type 0 where
  idle ended : Relay
  passing : ℕ → Relay
  failing : Error → Relay

-- `cancelled` is that of relayCtx, `expired` of shutdownCtx. The rows of the outbox that are not
-- published are `early` if they were committed before the signal, else `late`; `committed_late`
-- counts all that were ever committed after it.
pub record Process : Type 0 where
  pub main : Main
  pub server : Server
  pub relay : Relay
  pub errors : Option Error
  pub signalled : Bool
  pub cancelled : Bool
  pub expired : Bool
  pub failed : Bool
  pub ready : Bool
  pub in_flight : ℕ
  pub early : ℕ
  pub late : ℕ
  pub committed_late : ℕ
  -- the pending writes of the publisher, and the connections of the pool that are in use
  pub writes : ℕ
  pub held : ℕ
  pub publisher_open : Bool
  pub pool_open : Bool

-- relayDone is closed at once where no relay is wired
abbrev pub init : Bool → ℕ → Process
init wired rows = record {
  main = selecting;
  server = accepting;
  relay = if wired then idle else ended;
  errors = none;
  signalled = false;
  cancelled = false;
  expired = false;
  failed = false;
  ready = true;
  in_flight = 0;
  early = rows;
  late = 0;
  committed_late = 0;
  writes = 0;
  held = 0;
  publisher_open = true;
  pool_open = true;
}

-- Shutdown makes ListenAndServe return ErrServerClosed
abbrev pub shut : Server → Server
shut accepting = gone
shut gone = gone
shut (reporting e) = reporting e

-- between the making of shutdownCtx and the return of serveHTTP
abbrev pub has_deadline : Main → Bool
has_deadline notified = true
has_deadline flipped = true
has_deadline draining = true
has_deadline stopping = true
has_deadline awaiting = true
has_deadline _ = false

-- a request that ends has committed some rows of the outbox
abbrev pub enqueue : ℕ → Process → Process
enqueue rows s =
    if s.signalled
    then record s { late = s.late + rows; committed_late = s.committed_late + rows }
    else record s { early = s.early + rows }

-- the relay takes rows in the order in which they were committed
abbrev pub publish : ℕ → Process → Process
publish rows s = record s { early = s.early - rows; late = s.late - (rows - s.early) }

pub data Step (s : Process) : Process → Type 0 where
  -- the world
  signal : Step s (record s { signalled = true; cancelled = true })
  expire : has_deadline s.main ≡ true → Step s (record s { expired = true })
  -- a pass of the relay writes to the publisher, a request or a pass uses a connection
  write :
      (batch : ℕ)
      → s.relay ≡ passing batch
      → s.publisher_open ≡ true
      → Step s (record s { writes = s.writes + 1 })
  written : (n : ℕ) → s.writes ≡ suc n → Step s (record s { writes = n })
  acquire : s.pool_open ≡ true → Step s (record s { held = s.held + 1 })
  release : (n : ℕ) → s.held ≡ suc n → Step s (record s { held = n })
  -- the server and its requests
  arrive : s.server ≡ accepting → Step s (record s { in_flight = s.in_flight + 1 })
  finish : (n rows : ℕ) → s.in_flight ≡ suc n → Step s (record (enqueue rows s) { in_flight = n })
  listen_fails : (e : Error) → s.server ≡ accepting → Step s (record s { server = reporting e })
  report_server :
      (e : Error)
      → s.server ≡ reporting e
      → s.errors ≡ none
      → Step s (record s { server = gone; errors = some e })
  -- the relay, which begins no pass under a cancelled context
  begin_pass :
      s.relay ≡ idle
      → s.cancelled ≡ false
      → Step s (record s { relay = passing (s.early + s.late) })
  end_pass :
      (batch rows : ℕ)
      → s.relay ≡ passing batch
      → rows ≤ batch
      → Step s (record (publish rows s) { relay = idle })
  relay_stops : s.relay ≡ idle → s.cancelled ≡ true → Step s (record s { relay = ended })
  relay_fails : (e : Error) → s.relay ≡ idle → Step s (record s { relay = failing e })
  report_relay :
      (e : Error)
      → s.relay ≡ failing e
      → s.errors ≡ none
      → Step s (record s { relay = ended; errors = some e })
  -- the main goroutine
  take_error :
      (e : Error)
      → s.main ≡ selecting
      → s.errors ≡ some e
      → Step s (record s { main = returning; failed = true; errors = none })
  take_signal : s.main ≡ selecting → s.signalled ≡ true → Step s (record s { main = notified })
  set_not_ready : s.main ≡ notified → Step s (record s { main = flipped; ready = false })
  shutdown : s.main ≡ flipped → Step s (record s { main = draining; server = shut s.server })
  drained : s.main ≡ draining → s.in_flight ≡ 0 → Step s (record s { main = stopping })
  drain_expired : s.main ≡ draining → s.expired ≡ true → Step s (record s { main = stopping })
  stop_relay : s.main ≡ stopping → Step s (record s { main = awaiting; cancelled = true })
  relay_done : s.main ≡ awaiting → s.relay ≡ ended → Step s (record s { main = returning })
  await_expired : s.main ≡ awaiting → s.expired ≡ true → Step s (record s { main = returning })
  -- the deferred calls: stopRelay, closePublisher, persistence.close
  close_publisher :
      s.main ≡ returning
      → s.writes ≡ 0
      → Step s (record s { main = closing; cancelled = true; publisher_open = false })
  close_pool :
      s.main ≡ closing → s.held ≡ 0 → Step s (record s { main = exited; pool_open = false })

-- any sequence of steps
pub data Steps (s : Process) : Process → Type 0 where
  here : Steps s s
  later : {t u : Process} → Steps s t → Step t u → Steps s u
