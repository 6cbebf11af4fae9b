-- ===== src/Http/Reports.antt =====
-- internal/adapters/inbound/http/reports_handler.go over a report store whose state is S, and
-- readiness.go. A query parameter that is absent is "", as Get of url.Values has it.
pub mod ReportLaws
use process_path_management.Prelude.{
  ℕ, String, ◌++ˢ◌, Bool, true, false, not, List, [], ◌∷◌, map, Option, none, some, ◌==◌,
  if◌then◌else◌,
}
use process_path_management.Errors.{Error, Result, ok, err, error_text}
use process_path_management.Shared.Platform.{Platform}
use process_path_management.Analytics.{Row}
use process_path_management.Http.Problems.{
  Response, ProblemInfo, CatalogueRow, report_body, lag_body, status_body, info, write_json,
  write_problem,
}

-- ports.go: the read side of the report, for a window from its first time up to its second; the
-- one granularity there is is `day`
pub record ReportStore (S : Type 0) : Type 0 where
  pub query : ℕ → ℕ → S → Result (List (ℕ × Row))
  pub freshness_lag : S → Result ℕ

abbrev pub invalid_report_query : ProblemInfo
invalid_report_query =
    info "invalid-report-query" "The report query is malformed or missing a required parameter"

abbrev pub report_store_error : ProblemInfo
report_store_error = info "report-store-error" "The report could not be served"

unfoldable pub write_report_bad_request : String → String → Response
write_report_bad_request url detail = write_problem 400 invalid_report_query detail url

unfoldable pub write_report_internal : String → Error → Response
write_report_internal url e = write_problem 500 report_store_error (error_text e) url

-- time.Parse of RFC 3339, where a time before the zero Time is the zero Time: no bucket is before it
abbrev pub ParseTime : Type 0
ParseTime = String → Option ℕ

abbrev pub parsed_time : String → Option ℕ → Result ℕ
parsed_time name none =
    err (Error.other ("query parameter '" ++ˢ name ++ˢ "' must be an RFC3339 timestamp"))
parsed_time name (some t) = ok t

-- parseRequiredTime; the error is the detail of the 400 that it writes
unfoldable pub parse_required_time : ParseTime → String → String → Result ℕ
parse_required_time parse raw name =
    if raw == ""
    then err (Error.other ("query parameter '" ++ˢ name ++ˢ "' is required (RFC3339)"))
    else parsed_time name (parse raw)

unfoldable pub to_row_dto : Platform → ℕ × Row → CatalogueRow
to_row_dto pf (bucket, r) = record {
  day_bucket = pf.show_time bucket;
  paths_defined = r.paths_defined;
  paths_revised = r.paths_revised;
  paths_deactivated = r.paths_deactivated;
}

abbrev pub bad_granularity : String → Bool
bad_granularity g = if g == "" then false else not (g == "day")

module _ {S : Type 0} (pf : Platform) (parse : ParseTime) (store : ReportStore S)
    (url : String) where
  abbrev pub respond_report : Result (List (ℕ × Row)) → Response
  respond_report (err e) = write_report_internal url e
  respond_report (ok rows) = write_json 200 (report_body (map (to_row_dto pf) rows))

  unfoldable pub get_catalogue_growth : String → String → String → S → Response
  get_catalogue_growth from to granularity s = elim (parse_required_time parse from "from") [
    | err e ↦ write_report_bad_request url (error_text e)
    | ok first ↦ elim (parse_required_time parse to "to") [
      | err e ↦ write_report_bad_request url (error_text e)
      | ok last ↦
          if bad_granularity granularity
          then write_report_bad_request url "granularity must be 'day'"
          else respond_report (store.query first last s)
    ]
  ]

  unfoldable pub get_catalogue_growth_freshness : S → Response
  get_catalogue_growth_freshness s = elim (store.freshness_lag s) [
    | err e ↦ write_report_internal url e
    | ok lag ↦ write_json 200 (lag_body lag)
  ]

unfoldable pub get_reports_healthz : Response
get_reports_healthz = write_json 200 (status_body "ok")

-- readiness.go: `nil`, or the gate with its flag notReady
abbrev pub Readiness : Type 0
Readiness = Option Bool

unfoldable pub set_not_ready : Readiness → Readiness
set_not_ready none = none
set_not_ready (some _) = some true

unfoldable pub is_ready : Readiness → Bool
is_ready none = true
is_ready (some not_ready) = not not_ready

unfoldable pub handle_readyz : Readiness → Response
unfolding is_ready
handle_readyz g =
    if is_ready g
    then write_json 200 (status_body "ready")
    else write_json 503 (status_body "not_ready")
