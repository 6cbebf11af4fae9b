-- ===== src/Relay/Run.antt =====
-- Run of outbox_relay.go: the passes of a relay, and the waits between them.
pub mod Drains
pub mod Order
pub mod Delivers
pub mod Arrives
pub mod EndToEnd
use process_path_management.Prelude.{
  ℕ, zero, suc, Bool, true, false, ◌&&◌, Option, none, some, nat_eq, if◌then◌else◌,
}
use process_path_management.Errors.{Error, Result, ok, err}
use process_path_management.Transaction.{Session}
use process_path_management.Postgres.Session.{Tables}
use process_path_management.Relay.{Sink, Pass, relay_once}

abbrev pub succeeded : Result (Unit {0}) → Bool
succeeded (ok _) = true
succeeded (err _) = false

module _ {R K : Type 0} (sink : Sink K) (batch_size : ℕ)
    (wait : Session (Tables R) × K → Option Error × (Session (Tables R) × K)) where
  -- the wait ends with the error of the context if it was cancelled before the interval was over
  abbrev pub after_wait :
      Option Error × (Session (Tables R) × K)
      → (Session (Tables R) × K → Option (Error × (Session (Tables R) × K)))
      → Option (Error × (Session (Tables R) × K))
  after_wait (some stop, s) next = some (stop, s)
  after_wait (none, s) next = next s

  abbrev pub is_full : ℕ × Result (Unit {0}) → Bool
  is_full (n, r) = nat_eq n batch_size && succeeded r

  -- The loop of Run for at most so many passes: none if it has not returned by then.
  unfoldable pub run : ℕ → Session (Tables R) × K → Option (Error × (Session (Tables R) × K))
  run zero s = none
  run (suc passes) s =
      let pass = relay_once sink batch_size s.0 s.1 in
      let next = run passes pass.1 in
      let waited = after_wait (wait pass.1) (run passes) in if is_full pass.0 then next else waited
