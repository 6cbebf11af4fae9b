-- ===== src/Tests/Processes.antt =====
-- The theorems of the shutdowns at concrete runs.
use process_path_management.Prelude.{true, false, ◌≡◌, ◌≢◌, ◌⊎◌, refl, inl, arith}
use process_path_management.Errors.{err, other}
use process_path_management.Command.Serving
use process_path_management.Command.Serving.Order.{IsOrderly, Steps-IsOrderly}
use process_path_management.Command.Serving.Stranded.{Steps-stranded}
use process_path_management.Command.Serving.Exit.{Exits, HasEnded, Steps-Exits}
use process_path_management.Command.Projecting
use process_path_management.Command.Projecting.Order.{KeepsOrder, Steps-KeepsOrder}

-- A pass of two rows and a request are under way when the signal comes. The request commits a row
-- while the server drains, the relay ends its pass and stops, and the process comes to its end.
abbrev served : Serving.Process
served = record (Serving.init true 2) {
  main = Serving.exited;
  server = Serving.gone;
  relay = Serving.ended;
  signalled = true;
  cancelled = true;
  ready = false;
  early = 0;
  late = 1;
  committed_late = 1;
  publisher_open = false;
  pool_open = false;
}

abbrev begun : Serving.Process
begun = record (Serving.init true 2) {
  relay = Serving.passing 2;
  in_flight = 1;
  signalled = true;
  cancelled = true;
}

begun-Steps : Serving.Steps (Serving.init true 2) begun
begun-Steps =
    Serving.later
      (Serving.later (Serving.later Serving.here (Serving.begin_pass refl refl))
        (Serving.arrive refl))
      Serving.signal

abbrev shut : Serving.Process
shut = record begun { main = Serving.draining; server = Serving.gone; ready = false }

shut-Steps : Serving.Steps (Serving.init true 2) shut
shut-Steps =
    Serving.later
      (Serving.later (Serving.later begun-Steps (Serving.take_signal refl refl))
        (Serving.set_not_ready refl))
      (Serving.shutdown refl)

served-Steps : Serving.Steps (Serving.init true 2) served
served-Steps =
    let answered = Serving.later shut-Steps (Serving.finish 0 1 refl) in
    let waited =
      Serving.later (Serving.later answered (Serving.drained refl refl))
        (Serving.stop_relay refl) in
    let relayed =
      Serving.later (Serving.later waited (Serving.end_pass 2 2 refl (omega arith)))
        (Serving.relay_stops refl refl) in
    Serving.later
      (Serving.later (Serving.later relayed (Serving.relay_done refl refl))
        (Serving.close_publisher refl refl))
      (Serving.close_pool refl refl)

Steps-IsOrderly_example : IsOrderly served
Steps-IsOrderly_example = Steps-IsOrderly true 2 served-Steps

Steps-stranded_example : served.late ≡ served.committed_late
Steps-stranded_example = Steps-stranded true 2 served-Steps

-- the pass has a connection and a pending write when the server is shut
abbrev busy : Serving.Process
busy = record shut { writes = 1; held = 1 }

busy-Steps : Serving.Steps (Serving.init true 2) busy
busy-Steps =
    Serving.later (Serving.later shut-Steps (Serving.acquire refl)) (Serving.write 2 refl refl)

Steps-Exits_example : Exits busy × ((busy.main ≢ Serving.exited) ⊎ HasEnded busy)
Steps-Exits_example = Steps-Exits true 2 busy-Steps (inl refl)

-- the consumer ends with an error before the signal, and the process goes on until it comes
abbrev stopped : Projecting.Process
stopped = record Projecting.init {
  main = Projecting.closing_pool;
  accepting = false;
  consumer = Projecting.stopped (err (other "commit failed"));
  signalled = true;
  cancelled = true;
  not_ready = true;
  consumer_open = false;
}

stopped-Steps : Projecting.Steps Projecting.init stopped
stopped-Steps =
    let fetched = Projecting.later Projecting.here (Projecting.fetch refl) in
    let failed =
      Projecting.later fetched (Projecting.handling_fails (other "commit failed") refl) in
    let asked =
      Projecting.later (Projecting.later failed Projecting.signal)
        (Projecting.take_signal refl refl) in
    let shut_down =
      Projecting.later (Projecting.later asked (Projecting.flip refl)) (Projecting.shutdown refl) in
    let waited =
      Projecting.later (Projecting.later shut_down (Projecting.drained refl refl))
        (Projecting.cancel_consumer refl) in
    Projecting.later
      (Projecting.later waited (Projecting.consumer_done (err (other "commit failed")) refl refl))
      (Projecting.close_consumer refl)

Steps-KeepsOrder_example : KeepsOrder stopped
Steps-KeepsOrder_example = Steps-KeepsOrder stopped-Steps
