-- ===== src/Postgres/Session.antt =====
-- The tables of the service, and unit_of_work.go over a session of them.
use process_path_management.Prelude.{ℕ, String, Bool, List, ◌++ˢ◌, Option, is_some, if◌then◌else◌}
use process_path_management.Errors.{Result, ok, err, other, error_text}
use process_path_management.Shared.{PathId, SiteId}
use process_path_management.Postgres.CptRows.{ScheduleRow, CutoffRow}
use process_path_management.Postgres.Rows.{PathRow}
use process_path_management.Kafka.{Encoded}
use process_path_management.Ports.{UnitOfWork}
use process_path_management.Transaction.{Session, begin, rollback, commit}

pub record OutboxRow : Type 0 where
  pub id : ℕ
  pub encoded : Encoded
  pub occurred_at : ℕ
  pub published : Bool
  pub attempts : ℕ
  pub last_error : Option String

-- a row of idempotency_keys; the outcome is its status, body and headers, set together
pub record IdempotencyRow (R : Type 0) : Type 0 where
  pub method : String
  pub path : String
  pub request_hash : String
  pub outcome : Option R

-- R is the type of the responses that the idempotency table records.
pub record Tables (R : Type 0) : Type 0 where
  pub paths : List (PathId × PathRow)
  pub schedules : List (SiteId × ScheduleRow)
  pub cutoffs : List CutoffRow
  pub outbox : List OutboxRow
  pub next_id : ℕ
  pub idempotency : List (String × IdempotencyRow R)

module _ {T : Type 0} where
  abbrev pub wrap_commit : Result (Unit {0}) × Session T → Result (Unit {0}) × Session T
  wrap_commit (ok _, s) = (ok tt, s)
  wrap_commit (err e, s) = (err (other ("postgres: commit unit of work: " ++ˢ error_text e)), s)

  abbrev pub settle : Result (Unit {0}) × Session T → Result (Unit {0}) × Session T
  settle (ok _, s) = wrap_commit (commit s)
  settle (err e, s) = (err e, rollback s)

  abbrev pub in_new :
      (Session T → Result (Unit {0}) × Session T)
      → Result (Unit {0}) × Session T
      → Result (Unit {0}) × Session T
  in_new fn (ok _, s) = settle (fn s)
  in_new fn (err e, s) = (err (other ("postgres: begin unit of work: " ++ˢ error_text e)), s)

  -- UnitOfWork.Execute: a nested call joins the transaction that is there
  unfoldable pub execute :
      (Session T → Result (Unit {0}) × Session T) → Session T → Result (Unit {0}) × Session T
  execute fn s = if is_some s.begun then fn s else in_new fn (begin s)

  abbrev pub unit_of_work : UnitOfWork (Session T)
  unit_of_work = record { execute = execute }
