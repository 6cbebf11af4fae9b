-- ===== src/Tests/Database.antt =====
-- The theorems of the rows and of the use cases over the database at concrete inputs.
use process_path_management.Prelude.{
  ◌==◌, arith, eq_iff, ℕ, String, true, false, List, [], ◌∷◌, none, some, ◌≡◌, ◌↔◌, ◌⊎◌, refl,
}
use process_path_management.Prelude.Assoc.{lookup}
use process_path_management.Prelude.Int.{pos}
use process_path_management.Errors.{Error, ok, err}
use process_path_management.Events.{process_path_created, process_path_updated, facts_of}
use process_path_management.Shared.{PathId, parse_destination_location_role}
use process_path_management.Shared.Platform.{to_lower}
use process_path_management.ProcessPath
use process_path_management.ProcessPath.{ProcessPath, is_active}
use process_path_management.ProcessPath.Validity.{IsValid, define_iff}
use process_path_management.ProcessPath.Lifecycle.{outcome}
use process_path_management.UseCases.{define_path, revise_path}
use process_path_management.Http.Problems.{Response}
use process_path_management.Kafka.{encode, encode_analytics}
use process_path_management.Postgres.Rows.{Interval, interval_to_duration, path_to_row, path_of_row}
use process_path_management.Postgres.Overflow.{
  IsInt64, interval_to_duration64, interval_to_duration64_iff,
}
use process_path_management.Postgres.ScheduleTrip.{IsCalm}
use process_path_management.Postgres.PathTrip.{OwnIds, kept_over, find_by_id-save}
use process_path_management.Postgres.RoundTrip.{
  IsWhole, LongEnough, revise-stored_iff, stored-IsValid_iff,
}
use process_path_management.Transaction.{Session}
use process_path_management.Postgres.Session.{Tables}
use process_path_management.Postgres.Repo.{Encoder, save, find_by_id}
use process_path_management.Postgres.Outboxed.{written}
use process_path_management.Postgres.Wired.{define_stored, revise_stored}
use process_path_management.Postgres.Together.{define_path-IsStored, revise_path-IsStored}
use process_path_management.Tests.{platform, rules, sample_path, short_path}

short-IsValid : IsValid platform short_path
unfolding ProcessPath.define ProcessPath.validate to_lower parse_destination_location_role
short-IsValid =
    ((define_iff platform "p1" "pick" true ("forklift" ∷ []) "" (pos 500) rules 7000 short_path).0
      refl).0

revise-stored_iff_example :
    (outcome platform
        (path_of_row (path_to_row platform short_path))
        "pick"
        ("forklift" ∷ [])
        (pos 500)
        rules
        9000
      ≡ ok false)
    ↔ IsWhole (pos 500)
revise-stored_iff_example = revise-stored_iff platform short_path 9000 short-IsValid refl

stored-IsValid_iff_example :
    IsValid platform (path_of_row (path_to_row platform short_path)) ↔ LongEnough (pos 500)
stored-IsValid_iff_example = stored-IsValid_iff platform short_path short-IsValid

-- a maker of ids, and the two topics
abbrev pub new_id : ℕ → String
new_id n = "event"

abbrev pub encoders : List Encoder
encoders = encode platform (λ e. true) ∷ encode_analytics platform (λ e. true) ∷ []

abbrev pub tables : Tables Response
tables = record {
  paths = ("p1", path_to_row platform sample_path) ∷ [];
  schedules = [];
  cutoffs = [];
  outbox = [];
  next_id = 1;
  idempotency = [];
}

-- the third statement fails, the first INSERT into the outbox
abbrev pub session : Session (Tables Response)
session = record {
  tables = tables;
  begun = none;
  aborted = false;
  faults = false ∷ false ∷ true ∷ [];
  refused = λ what faults. what == "path p3";
  minted = 0;
  time = 9000;
}

define_path-IsStored_example :
    let r =
      define_path platform
        (define_stored platform new_id encoders)
        "p2"
        "pick"
        true
        ("forklift" ∷ [])
        ""
        (pos 1800000000000)
        rules
        session in
    ((e : Error) × (r.0 ≡ err e) × (r.1.tables ≡ tables))
    ⊎ ((p : ProcessPath) × (r.0 ≡ ok p)
        × (written platform new_id encoders p (process_path_created (facts_of p 9000)) session
            ≡ ok r.1.tables))
define_path-IsStored_example =
    define_path-IsStored platform new_id encoders "p2" "pick" true ("forklift" ∷ []) ""
      (pos 1800000000000) rules session refl

revise_path-IsStored_example :
    let r =
      revise_path platform
        (revise_stored platform new_id encoders)
        "p1"
        "pack"
        ("forklift" ∷ [])
        (pos 500)
        rules
        session in
    ((e : Error) × (r.0 ≡ err e) × (r.1.tables ≡ tables))
    ⊎ ((p : ProcessPath) × (r.0 ≡ ok p)
        × (((r.1.tables ≡ tables) × (find_by_id platform "p1" session ≡ ok (some p)))
            ⊎ (written platform new_id encoders p (process_path_updated (facts_of p 9000)) session
                ≡ ok r.1.tables)))
revise_path-IsStored_example =
    revise_path-IsStored platform new_id encoders "p1" "pack" ("forklift" ∷ []) (pos 500) rules
      session refl

-- 300 years of 12 months, as a hand-edited row may have
abbrev long : Interval
long = record { microseconds = pos 0; days = pos 0; months = pos 3600; valid = true }

interval_to_duration64_iff_example :
    (interval_to_duration64 long ≡ interval_to_duration long) ↔ IsInt64 (interval_to_duration long)
interval_to_duration64_iff_example = interval_to_duration64_iff long

calm_session : IsCalm (record session { faults = [] })
calm_session = record { unaborted = refl; faultless = refl }

own-ids : OwnIds platform tables
unfolding lookup path_to_row
own-ids id row h = ground (arith, eq_iff "p1" id)

find_by_id-save_example :
    let calm = record session { faults = [] } in
    let r = save platform short_path calm in
    (r.0 ≡ ok tt)
    × (find_by_id platform "p1" r.1
        ≡ ok (some (kept_over platform short_path (lookup "p1" tables.paths))))
    × ((other : PathId)
        → (other ≡ "p1") ⊎ (find_by_id platform other r.1 ≡ find_by_id platform other calm))
find_by_id-save_example =
    find_by_id-save platform short_path (record session { faults = [] }) calm_session own-ids
