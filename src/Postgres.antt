-- ===== src/Postgres.antt =====
-- internal/adapters/outbound/postgres: the tables, and the statements that the adapters execute,
-- over a database session. A statement fails when `faults` says so, and inside a transaction the
-- failure aborts it: every later statement fails, and so does the commit, until the transaction is
-- rolled back. That is what PostgreSQL documents; SQL and the driver are not in the repository.
pub mod Rows
pub mod CptRows
pub mod Schedules
pub mod Overflow
pub mod CutoffTrip
pub mod ScheduleTrip
pub mod ScheduleOutbox
pub mod RoundTrip
pub mod PathTrip
pub mod Session
pub mod Repo
pub mod Atomic
pub mod Outboxed
pub mod Wired
pub mod Together
