-- ===== src/Command/Serving/Exit.antt =====
-- How serveHTTP gets to its end, and what holds it up.
use process_path_management.Prelude.{
  ℕ, leb, Bool-cases, ◌≤◌, zero, suc, Bool, true, false, ◌≡◌, ◌≢◌, refl, ◌⊎◌, inl, inr, some, arith,
}
use process_path_management.Command.Serving.Order.{stage}
use process_path_management.Errors.{Error}
use process_path_management.Command.Serving.{
  Main, selecting, notified, flipped, draining, stopping, awaiting, returning, closing, exited,
  Process, init, Step, signal, expire, write, written, acquire, release, arrive, finish,
  listen_fails, report_server, begin_pass, end_pass, relay_stops, relay_fails, report_relay,
  take_error, take_signal, set_not_ready, shutdown, drained, drain_expired, stop_relay, relay_done,
  await_expired, close_publisher, close_pool, Steps,
}

-- any sequence of steps in each of which the relay stays where it is and no request comes or ends
pub data Aside (s : Process) : Process → Type 0 where
  here : Aside s s
  later :
      {t u : Process}
      → Aside s t
      → Step t u
      → u.relay ≡ t.relay
      → u.in_flight ≡ t.in_flight
      → Aside s u

Aside-trans : {s t u : Process} → Aside s t → Aside t u → Aside s u
Aside-trans r here = r
Aside-trans r (later q st same_relay same_requests) =
    later (Aside-trans r q) st same_relay same_requests

-- an end that the process can get to with no step of its relay and of its requests but that pending
-- writes end and connections are returned
abbrev pub Exits : Process → Type 0
Exits s = (t : Process) × Aside s t × (t.main ≡ exited) × (t.writes ≡ 0) × (t.held ≡ 0)

after :
    {s t : Process} → Step s t → t.relay ≡ s.relay → t.in_flight ≡ s.in_flight → Exits t → Exits s
after st same_relay same_requests (u, r, e, w, h) =
    (u, Aside-trans (later here st same_relay same_requests) r, e, w, h)

-- the connections are returned first, then the pool is closed
closing-Exits : (n : ℕ) (s : Process) → s.held ≡ n → s.main ≡ closing → s.writes ≡ 0 → Exits s
closing-Exits zero s h m w = after (close_pool m h) refl refl (_, here, refl, w, h)
closing-Exits (suc n) s h m w =
    after (release n h) refl refl (closing-Exits n (record s { held = n }) refl m w)

returning_from : (n : ℕ) (s : Process) → s.writes ≡ n → s.main ≡ returning → Exits s
returning_from zero s h m =
    after (close_publisher m h) refl refl (closing-Exits s.held _ refl refl h)
returning_from (suc n) s h m =
    after (written n h) refl refl (returning_from n (record s { writes = n }) refl m)

returning-Exits : (s : Process) → s.main ≡ returning → Exits s
returning-Exits s m = returning_from s.writes s refl m

awaiting-Exits : (s : Process) → s.main ≡ awaiting → Exits s
awaiting-Exits s m =
    after (expire (rw m refl)) refl refl
      (after (await_expired m refl) refl refl (returning-Exits _ refl))

stopping-Exits : (s : Process) → s.main ≡ stopping → Exits s
stopping-Exits s m = after (stop_relay m) refl refl (awaiting-Exits _ refl)

draining-Exits : (s : Process) → s.main ≡ draining → Exits s
draining-Exits s m =
    after (expire (rw m refl)) refl refl
      (after (drain_expired m refl) refl refl (stopping-Exits _ refl))

flipped-Exits : (s : Process) → s.main ≡ flipped → Exits s
flipped-Exits s m = after (shutdown m) refl refl (draining-Exits _ refl)

notified-Exits : (s : Process) → s.main ≡ notified → Exits s
notified-Exits s m = after (set_not_ready m) refl refl (flipped-Exits _ refl)

-- what the publisher and the pool hold up once they are to be closed
record Waits (s : Process) : Type 0 where
  written_out : 7 ≤ stage s.main → s.writes ≡ 0
  shut : 7 ≤ stage s.main → s.publisher_open ≡ false
  returned : 8 ≤ stage s.main → s.held ≡ 0
  closed : 8 ≤ stage s.main → s.pool_open ≡ false

init-Waits : (wired : Bool) (rows : ℕ) → Waits (init wired rows)
init-Waits wired rows = ground arith

Step-Waits : {s t : Process} → Step s t → Waits s → Waits t
Step-Waits signal i = ground arith
Step-Waits (expire h) i = ground arith
Step-Waits (write batch h k) i = ground arith
Step-Waits (written n h) i = ground arith
Step-Waits (acquire h) i = ground arith
Step-Waits (release n h) i = ground arith
Step-Waits (arrive h) i = ground arith
Step-Waits (finish n rows h) i = ground arith
Step-Waits (listen_fails e h) i = ground arith
Step-Waits (report_server e h k) i = ground arith
Step-Waits (begin_pass h k) i = ground arith
Step-Waits (end_pass batch rows h k) i = ground arith
Step-Waits (relay_stops h k) i = ground arith
Step-Waits (relay_fails e h) i = ground arith
Step-Waits (report_relay e h k) i = ground arith
Step-Waits (take_error e h k) i = ground arith
Step-Waits (take_signal h k) i = ground arith
Step-Waits (set_not_ready h) i = ground arith
Step-Waits (shutdown h) i = ground arith
Step-Waits (drained h k) i = ground arith
Step-Waits (drain_expired h k) i = ground arith
Step-Waits (stop_relay h) i = ground arith
Step-Waits (relay_done h k) i = ground arith
Step-Waits (await_expired h k) i = ground arith
Step-Waits (close_publisher h k) i = ground arith
Step-Waits (close_pool h k) i = ground arith

Steps-Waits : {s t : Process} → Steps s t → Waits s → Waits t
Steps-Waits Steps.here i = i
Steps-Waits (Steps.later r st) i = Step-Waits st (Steps-Waits r i)

-- the state of a process that is at its end
pub record HasEnded (s : Process) : Type 0 where
  pub nothing_held : s.held ≡ 0
  pub nothing_pending : s.writes ≡ 0

exits_from :
    (s : Process) (m : Main)
    → s.main ≡ m
    → Waits s
    → (s.signalled ≡ true) ⊎ ((e : Error) × (s.errors ≡ some e))
    → Exits s
exits_from s selecting m w (inl h) = after (take_signal m h) refl refl (notified-Exits _ refl)
exits_from s selecting m w (inr (e, h)) =
    after (take_error e m h) refl refl (returning-Exits _ refl)
exits_from s notified m w h = notified-Exits s m
exits_from s flipped m w h = flipped-Exits s m
exits_from s draining m w h = draining-Exits s m
exits_from s stopping m w h = stopping-Exits s m
exits_from s awaiting m w h = awaiting-Exits s m
exits_from s returning m w h = returning-Exits s m
exits_from s closing m w h = closing-Exits s.held s refl m (w.written_out (rw m (omega arith)))
exits_from s exited m w h =
    (s, here, m, w.written_out (rw m (omega arith)), w.returned (rw m (omega arith)))

-- In every state that the process reaches in which the signal has come or an error waits in errCh, it
-- can get to its end by steps in which the relay stays where it is and no request comes or ends, once
-- the pending writes have ended and the connections in use were returned; and it does not get there
-- otherwise: at its end no connection is in use and no write is pending.
pub Steps-Exits :
    (wired : Bool) (rows : ℕ) {s : Process}
    → Steps (init wired rows) s
    → (s.signalled ≡ true) ⊎ ((e : Error) × (s.errors ≡ some e))
    → Exits s × ((s.main ≢ exited) ⊎ HasEnded s)
Steps-Exits wired rows {s} r asked =
    let i = Steps-Waits r (init-Waits wired rows) in
    (
      exits_from s s.main refl i asked,
      elim (Bool-cases (leb 8 (stage s.main))) [
        | inl ended ↦ inr (record { nothing_held = ground arith; nothing_pending = ground arith })
        | inr runs ↦ inl (λ m. ground arith)
      ],
    )
