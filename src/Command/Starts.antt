-- ===== src/Command/Starts.antt =====
-- The starts of the other programs, up to their servers: cmd/mcp/main.go,
-- cmd/pathmgmt-projector/main.go and cmd/pathmgmt-reports/main.go. S is the state of the host; each
-- pool has its own Database, made with its URL and that of the migrations; the URL is tested here.
pub mod Pools
pub mod Balance
use process_path_management.Prelude.{String, ◌==◌, Option, none, some, if◌then◌else◌}
use process_path_management.Errors.{Error, Result, ok, err, other}
use process_path_management.BootRetry.{do_boot}
use process_path_management.Command.{
  Env, Persistence, in_memory, pooled, Database, boot_with, build_persistence,
}

module _ {S : Type 0} (db : Database S) where
  -- closeAdapters: it does nothing where there is no pool
  abbrev pub close_adapters : Persistence → S → S
  close_adapters in_memory s = s
  close_adapters pooled s = db.close s

  -- a pool whose first ping failed is closed
  abbrev pub after_first_ping : Result (Unit {0}) × S → Result (Unit {0}) × S
  after_first_ping (ok _, s) = (ok tt, s)
  after_first_ping (err e, s) = (err e, db.close s)

  abbrev pub after_new_pool : String → Result (Unit {0}) × S → Result (Unit {0}) × S
  after_new_pool what (ok _, s) = after_first_ping (do_boot (boot_with db db.ping) what s)
  after_new_pool what (err e, s) = (err e, s)

  abbrev pub persisted : Result (Unit {0}) × S → Result Persistence × S
  persisted (ok _, s) = (ok pooled, s)
  persisted (err e, s) = (err e, s)

  unfoldable pub build_cpt_schedule_repo : String → S → Result Persistence × S
  build_cpt_schedule_repo database_url s =
      if database_url == ""
      then (ok in_memory, s)
      else persisted (after_new_pool "ping database (cpt schedule pool)" (db.new_pool s))

  abbrev pub missing_analytics_url : Error
  missing_analytics_url = other "ANALYTICS_DATABASE_URL is required"

  abbrev pub after_analytics_migrations : Result (Unit {0}) × S → Result (Unit {0}) × S
  after_analytics_migrations (ok _, s) = after_new_pool "ping analytics database" (db.new_pool s)
  after_analytics_migrations (err e, s) = (err e, s)

  -- run of cmd/pathmgmt-projector, up to its consumer
  unfoldable pub projector_start : Env → S → Result (Unit {0}) × S
  projector_start env s =
      if env "ANALYTICS_DATABASE_URL" == ""
      then (err missing_analytics_url, s)
      else after_analytics_migrations
          (do_boot (boot_with db db.run_migrations) "run analytics migrations" s)

  -- run of cmd/pathmgmt-reports, up to its server; the deferred close runs where the ping failed
  unfoldable pub reports_start : Env → S → Result (Unit {0}) × S
  reports_start env s =
      if env "ANALYTICS_DATABASE_URL" == ""
      then (err missing_analytics_url, s)
      else after_new_pool "ping analytics database" (db.new_pool s)

-- run of cmd/mcp: the pool of the paths, and that of the schedules
module _ {S : Type 0} (paths schedules : Database S) where
  -- buildRepo, which opens what buildPersistence of cmd/pathmgmt opens
  abbrev pub build_repo : String → S → Result Persistence × S
  build_repo database_url s = build_persistence paths database_url s

  -- closeAdapters is deferred, and is of the first pool alone
  abbrev pub after_schedules :
      Persistence → Result Persistence × S → Result (Persistence × Persistence) × S
  after_schedules p (ok q, s) = (ok (p, q), s)
  after_schedules p (err e, s) = (err e, close_adapters paths p s)

  abbrev pub after_repo : String → Result Persistence × S → Result (Persistence × Persistence) × S
  after_repo database_url (ok p, s) =
      after_schedules p (build_cpt_schedule_repo schedules database_url s)
  after_repo database_url (err e, s) = (err e, s)

  unfoldable pub mcp_start : Env → S → Result (Persistence × Persistence) × S
  unfolding build_persistence build_cpt_schedule_repo
  mcp_start env s = after_repo (env "DATABASE_URL") (build_repo (env "DATABASE_URL") s)

  abbrev pub after_serving : Result (Persistence × Persistence) × S → (S → S) → S
  after_serving (ok (p, q), s) serve = close_adapters paths p (serve s)
  after_serving (err e, s) serve = s

  -- run, where `serve` is what happens until the server is shut down
  unfoldable pub mcp_run : (S → S) → Env → S → S
  unfolding mcp_start
  mcp_run serve env s = after_serving (mcp_start env s) serve

-- the tool of the reports is offered where REPORTS_BASE_URL is set
abbrev pub reports_url : Env → Option String
reports_url env = if env "REPORTS_BASE_URL" == "" then none else some (env "REPORTS_BASE_URL")
