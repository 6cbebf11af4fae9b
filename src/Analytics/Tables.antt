-- ===== src/Analytics/Tables.antt =====
-- internal/adapters/outbound/analyticsstore over the analytical database of
-- migrations/analytics/0001_report.up.sql: postgres_projection.go, consumed_events_repo.go and
-- postgres_report.go.
pub mod Refines
pub mod Reports
use process_path_management.Prelude.{
  ℕ, ◌+◌, ◌-◌, String, ◌++ˢ◌, Bool, true, false, not, ◌||◌, ◌&&◌, List, [], ◌∷◌, ◌++◌, Option, none,
  some, is_some, elem, ltb, leb, nat_eq, if◌then◌else◌,
}
use process_path_management.Prelude.Assoc.{lookup}
use process_path_management.Errors.{Result, ok, err, other, error_text, ◌>>=◌}
use process_path_management.Shared.Platform.{Platform}
use process_path_management.Transaction.{Session, exec, read, begin, rollback, commit}
use process_path_management.Analytics.{Row, day_bucket}

pub record ReportTables : Type 0 where
  -- analytics_processed_events: an event's id and when it occurred
  pub processed : List (String × ℕ)
  -- analytics_consumed_events
  pub consumed : List String
  -- catalogue_growth_rollup, by day_bucket
  pub rollup : List (ℕ × Row)

abbrev pub no_reports : ReportTables
no_reports = record { processed = []; consumed = []; rollup = [] }

pub record RollupDelta : Type 0 where
  pub paths_defined : ℕ
  pub paths_revised : ℕ
  pub paths_deactivated : ℕ

abbrev pub add_event : String → ℕ → List (String × ℕ) → List (String × ℕ)
add_event event_id at rows = rows ++ (event_id, at) ∷ []

abbrev pub row_of : RollupDelta → Row
row_of d = record {
  paths_defined = d.paths_defined;
  paths_revised = d.paths_revised;
  paths_deactivated = d.paths_deactivated;
}

abbrev pub add_delta : RollupDelta → Row → Row
add_delta d r = record {
  paths_defined = r.paths_defined + d.paths_defined;
  paths_revised = r.paths_revised + d.paths_revised;
  paths_deactivated = r.paths_deactivated + d.paths_deactivated;
}

-- INSERT … ON CONFLICT (day_bucket) DO UPDATE
unfoldable pub upsert_bucket : ℕ → RollupDelta → List (ℕ × Row) → List (ℕ × Row)
upsert_bucket k d [] = (k, row_of d) ∷ []
upsert_bucket k d ((j, r) ∷ rows) =
    if nat_eq j k then (j, add_delta d r) ∷ rows else (j, r) ∷ upsert_bucket k d rows

-- WHERE day_bucket >= $1 AND day_bucket < $2
unfoldable pub where_bucket : ℕ → ℕ → List (ℕ × Row) → List (ℕ × Row)
where_bucket from to [] = []
where_bucket from to (row ∷ rows) =
    let rest = where_bucket from to rows in
    if leb from row.0 && ltb row.0 to then row ∷ rest else rest

-- ORDER BY day_bucket
unfoldable pub place_bucket : ℕ × Row → List (ℕ × Row) → List (ℕ × Row)
place_bucket row [] = row ∷ []
place_bucket row (r ∷ rs) = if leb row.0 r.0 then row ∷ r ∷ rs else r ∷ place_bucket row rs

unfoldable pub by_bucket : List (ℕ × Row) → List (ℕ × Row)
unfolding place_bucket
by_bucket [] = []
by_bucket (row ∷ rows) = place_bucket row (by_bucket rows)

-- max(occurred_at), NULL of no rows
unfoldable pub max_occurred : List (String × ℕ) → Option ℕ
max_occurred [] = none
max_occurred ((_, at) ∷ rows) = elim (max_occurred rows) [
  | none ↦ some at
  | some later ↦ some (if ltb at later then later else at)
]

abbrev pub Store : Type 0
Store = Session ReportTables

abbrev pub insert_consumed : String → ReportTables → Bool × ReportTables
insert_consumed event_id t =
    if elem event_id t.consumed
    then (false, t)
    else (true, record t { consumed = event_id ∷ t.consumed })

-- ConsumedEventsRepo.MarkProcessed
unfoldable pub mark_processed : String → Store → Result Bool × Store
mark_processed event_id = exec (insert_consumed event_id)

-- inTx
abbrev pub end_tx : Result (Unit {0}) × Store → Result (Unit {0}) × Store
end_tx (ok _, s) = commit s
end_tx (err e, s) = (err e, rollback s)

abbrev pub begun_tx :
    (Store → Result (Unit {0}) × Store) → Result (Unit {0}) × Store → Result (Unit {0}) × Store
begun_tx fn (ok _, s) = end_tx (fn s)
begun_tx fn (err e, s) = (err e, s)

unfoldable pub in_tx : (Store → Result (Unit {0}) × Store) → Store → Result (Unit {0}) × Store
in_tx fn s = begun_tx fn (begin s)

abbrev pub wrap_upsert : Result (Unit {0}) × Store → Result (Unit {0}) × Store
wrap_upsert (ok _, s) = (ok tt, s)
wrap_upsert (err e, s) = (err (other ("analyticsstore: upsert rollup: " ++ˢ error_text e)), s)

abbrev pub created_delta : RollupDelta
created_delta = record { paths_defined = 1; paths_revised = 0; paths_deactivated = 0 }

abbrev pub updated_delta : RollupDelta
updated_delta = record { paths_defined = 0; paths_revised = 1; paths_deactivated = 0 }

abbrev pub deactivated_delta : RollupDelta
deactivated_delta = record { paths_defined = 0; paths_revised = 0; paths_deactivated = 1 }

module _ (pf : Platform) where
  abbrev pub insert_processed : String → ℕ → ReportTables → Bool × ReportTables
  insert_processed event_id at t =
      if is_some (lookup event_id t.processed)
      then (false, t)
      else (true, record t { processed = add_event event_id (pf.stored_time at) t.processed })

  abbrev pub claim : String → ℕ → Store → Result Bool × Store
  claim event_id at = exec (insert_processed event_id at)

  abbrev pub add_to_rollup : ℕ → RollupDelta → ReportTables → Unit {0} × ReportTables
  add_to_rollup at d t =
      (tt, record t { rollup = upsert_bucket (pf.stored_time (day_bucket at)) d t.rollup })

  abbrev pub upsert_rollup : ℕ → RollupDelta → Store → Result (Unit {0}) × Store
  upsert_rollup at d s = wrap_upsert (exec (add_to_rollup at d) s)

  abbrev pub after_claim : ℕ → RollupDelta → Result Bool × Store → Result (Unit {0}) × Store
  after_claim at d (err e, s) = (err (other ("analyticsstore: claim event: " ++ˢ error_text e)), s)
  after_claim at d (ok false, s) = (ok tt, s)
  after_claim at d (ok true, s) = upsert_rollup at d s

  -- the function that `apply` hands to inTx
  abbrev pub claim_and_upsert : String → ℕ → RollupDelta → Store → Result (Unit {0}) × Store
  claim_and_upsert event_id at d s = after_claim at d (claim event_id at s)

  unfoldable pub apply : String → ℕ → RollupDelta → Store → Result (Unit {0}) × Store
  apply event_id at d = in_tx (claim_and_upsert event_id at d)

  abbrev pub apply_process_path_created : String → ℕ → Store → Result (Unit {0}) × Store
  apply_process_path_created event_id at = apply event_id at created_delta

  abbrev pub apply_process_path_updated : String → ℕ → Store → Result (Unit {0}) × Store
  apply_process_path_updated event_id at = apply event_id at updated_delta

  abbrev pub apply_process_path_deactivated : String → ℕ → Store → Result (Unit {0}) × Store
  apply_process_path_deactivated event_id at = apply event_id at deactivated_delta

  -- PostgresReport.Query
  unfoldable pub query : ℕ → ℕ → Store → Result (List (ℕ × Row))
  query from to s =
      elim (read "rollup"
        (λ t. by_bucket (where_bucket (pf.stored_time from) (pf.stored_time to) t.rollup)) s) [
          | err e ↦ err (other ("analyticsstore: query rollup: " ++ˢ error_text e))
          | ok rows ↦ ok rows
        ]

-- PostgresReport.FreshnessLag, at the clock's reading `now`
abbrev pub lag : ℕ → Option ℕ → ℕ
lag now none = 0
lag now (some latest) = if nat_eq latest 0 then 0 else if ltb now latest then 0 else now - latest

unfoldable pub freshness_lag : ℕ → Store → Result ℕ
freshness_lag now s = elim (read "freshness" (λ t. max_occurred t.processed) s) [
  | err e ↦ err (other ("analyticsstore: freshness query: " ++ˢ error_text e))
  | ok latest ↦ ok (lag now latest)
]
