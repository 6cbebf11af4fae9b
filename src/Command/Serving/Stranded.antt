-- ===== src/Command/Serving/Stranded.antt =====
-- What becomes of the rows that requests commit while serveHTTP shuts down.
use process_path_management.Prelude.{ℕ, ◌≤◌, Bool, true, false, ◌≡◌, arith}
use process_path_management.Command.Serving.{
  Relay, passing, Process, init, Step, signal, expire, write, written, acquire, release, arrive,
  finish, listen_fails, report_server, begin_pass, end_pass, relay_stops, relay_fails, report_relay,
  take_error, take_signal, set_not_ready, shutdown, drained, drain_expired, stop_relay, relay_done,
  await_expired, close_publisher, close_pool, Steps, here, later,
}

abbrev batch_of : Relay → ℕ
batch_of (passing batch) = batch
batch_of _ = 0

-- a batch is claimed before the signal, and so before the late rows
record Inv (s : Process) : Type 0 where
  stopped : s.signalled ≡ true → s.cancelled ≡ true
  none_yet : s.signalled ≡ false → s.late ≡ 0
  claimed : batch_of s.relay ≤ s.early
  kept : s.late ≡ s.committed_late

init-Inv : (wired : Bool) (rows : ℕ) → Inv (init wired rows)
init-Inv wired rows = ground arith

Step-Inv : {s t : Process} → Step s t → Inv s → Inv t
Step-Inv signal i = ground arith
Step-Inv (expire h) i = ground arith
Step-Inv (write batch h k) i = ground arith
Step-Inv (written n h) i = ground arith
Step-Inv (acquire h) i = ground arith
Step-Inv (release n h) i = ground arith
Step-Inv (arrive h) i = ground arith
Step-Inv (finish n rows h) i = ground arith
Step-Inv (listen_fails e h) i = ground arith
Step-Inv (report_server e h k) i = ground arith
Step-Inv (begin_pass h k) i = ground arith
Step-Inv (end_pass batch rows h k) i = ground arith
Step-Inv (relay_stops h k) i = ground arith
Step-Inv (relay_fails e h) i = ground arith
Step-Inv (report_relay e h k) i = ground arith
Step-Inv (take_error e h k) i = ground arith
Step-Inv (take_signal h k) i = ground arith
Step-Inv (set_not_ready h) i = ground arith
Step-Inv (shutdown h) i = ground arith
Step-Inv (drained h k) i = ground arith
Step-Inv (drain_expired h k) i = ground arith
Step-Inv (stop_relay h) i = ground arith
Step-Inv (relay_done h k) i = ground arith
Step-Inv (await_expired h k) i = ground arith
Step-Inv (close_publisher h k) i = ground arith
Step-Inv (close_pool h k) i = ground arith

Steps-Inv : {s t : Process} → Steps s t → Inv s → Inv t
Steps-Inv here i = i
Steps-Inv (later r st) i = Step-Inv st (Steps-Inv r i)

-- Rows that a request commits after the signal, while the server drains, are not published by this
-- process: in every state from then on, its end included, and however the goroutines take turns, as
-- many rows committed after the signal wait in the outbox as were ever committed after it. For the
-- signal ends the relay's context before the server has drained.
pub Steps-stranded :
    (wired : Bool) (rows : ℕ) {s : Process} → Steps (init wired rows) s → s.late ≡ s.committed_late
Steps-stranded wired rows r = (Steps-Inv r (init-Inv wired rows)).kept
