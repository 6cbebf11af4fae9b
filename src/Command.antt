-- ===== src/Command.antt =====
-- cmd/pathmgmt/main.go: what the service is wired to, by its environment. A pool and a broker's
-- client are third-party; here they are the choice that is made, and opening them is a call.
pub mod Starts
pub mod Serving
pub mod Projecting
use process_path_management.Prelude.{ℕ, String, Bool, Option, none, some, ◌==◌, not, if◌then◌else◌}
use process_path_management.Prelude.Int.{ℤ, is_pos}
use process_path_management.Errors.{Error, Result, ok, err}
use process_path_management.Shared.Platform.{Platform, to_lower}
use process_path_management.BootRetry.{Boot, do_boot}

-- os.Getenv, "" where the variable is not set
abbrev pub Env : Type 0
Env = String → String

unfoldable pub getenv : Env → String → String → String
getenv env key fallback = if env key == "" then fallback else env key

abbrev pub positive_or : ℤ → Option ℤ → ℤ
positive_or fallback none = fallback
positive_or fallback (some d) = if is_pos d then d else fallback

unfoldable pub duration_env : Platform → Env → String → ℤ → ℤ
duration_env pf env key fallback =
    if env key == "" then fallback else positive_or fallback (pf.parse_duration (env key))

pub data Level : Type 0 where
  debug_level info_level warn_level error_level : Level

-- the level that newLogger gives its handler
unfoldable pub logger_level : Platform → String → Level
logger_level pf level =
    if to_lower pf level == "debug"
    then debug_level
    else if to_lower pf level == "warn"
    then warn_level
    else if to_lower pf level == "error"
    then error_level
    else info_level

-- the argument is the variable that the linker sets
unfoldable pub service_version : String → Env → String
unfolding getenv
service_version version env = if version == "" then getenv env "SERVICE_VERSION" "dev" else version

-- persistence: the repositories in memory, or those over a pool with its unit of work
pub data Persistence : Type 0 where
  in_memory pooled : Persistence

-- the calls of buildPersistence, over the state S of the host
pub record Database (S : Type 0) : Type 0 where
  pub run_migrations : S → Result (Unit {0}) × S
  pub new_pool : S → Result (Unit {0}) × S
  pub ping : S → Result (Unit {0}) × S
  pub close : S → S
  pub wait : ℕ → S → Option Error × S

module _ {S : Type 0} (db : Database S) where
  abbrev pub boot_with : (S → Result (Unit {0}) × S) → Boot S
  boot_with op = record { op = op; wait = db.wait }

  abbrev pub after_ping : Result (Unit {0}) × S → Result Persistence × S
  after_ping (ok _, s) = (ok pooled, s)
  after_ping (err e, s) = (err e, db.close s)

  abbrev pub after_pool : Result (Unit {0}) × S → Result Persistence × S
  after_pool (ok _, s) = after_ping (do_boot (boot_with db.ping) "ping database" s)
  after_pool (err e, s) = (err e, s)

  abbrev pub after_migrations : Result (Unit {0}) × S → Result Persistence × S
  after_migrations (ok _, s) = after_pool (db.new_pool s)
  after_migrations (err e, s) = (err e, s)

  unfoldable pub build_persistence : String → S → Result Persistence × S
  build_persistence database_url s =
      if database_url == ""
      then (ok in_memory, s)
      else after_migrations (do_boot (boot_with db.run_migrations) "run migrations" s)

-- the publisher of the use cases; with the outbox comes the relay, and its interval
pub data Publishing : Type 0 where
  logged direct : Publishing
  outboxed : ℤ → Publishing

-- one second, of OUTBOX_RELAY_INTERVAL when it is not set
abbrev pub second : ℤ
second = ℤ.pos 1000000000

abbrev pub kafka_publishing : Platform → Env → Persistence → Publishing
kafka_publishing pf env in_memory = direct
kafka_publishing pf env pooled = outboxed (duration_env pf env "OUTBOX_RELAY_INTERVAL" second)

-- `equal_fold` is strings.EqualFold, whose table of runes is Go's
unfoldable pub build_event_publisher :
    Platform → (String → String → Bool) → Env → Persistence → Publishing
unfolding getenv duration_env
build_event_publisher pf equal_fold env p =
    if not (equal_fold (getenv env "EVENT_PUBLISHER" "log") "kafka")
    then logged
    else kafka_publishing pf env p
