-- ===== src/Http/Problems.antt =====
-- internal/adapters/inbound/http/errors.go, and the writers of server.go: from an error to a
-- status and a problem of RFC 7807. `errors.Is` finds a sentinel by identity: each has a tag of its
-- own, and `other` shares its tag with none.
use process_path_management.Prelude.{ℕ, String, ◌++ˢ◌, Bool, List, [], ◌∷◌, nat_eq, if◌then◌else◌}
use process_path_management.Errors.{
  Error, other, error_text, path_not_found, path_already_exists, path_deactivated, empty_path_id,
  empty_match_prefix, match_prefix_not_lowercase, no_required_capabilities,
  invalid_destination_location_role, invalid_cycle_time, cpt_schedule_not_found, ineligible_path_id,
  empty_timezone, invalid_timezone, no_cutoffs, empty_cpt_id, duplicate_cpt_id, empty_local_time,
  invalid_local_time, no_days_of_week, invalid_day_of_week, empty_ship_method, no_eligible_path_ids,
}
use process_path_management.Http.Dto.{ProcessPathResponse, CptScheduleResponse}

abbrev pub tag : Error → ℕ
tag path_not_found = 1
tag path_already_exists = 2
tag path_deactivated = 3
tag empty_path_id = 4
tag empty_match_prefix = 5
tag match_prefix_not_lowercase = 6
tag no_required_capabilities = 7
tag invalid_destination_location_role = 8
tag invalid_cycle_time = 9
tag cpt_schedule_not_found = 10
tag ineligible_path_id = 11
tag empty_timezone = 12
tag invalid_timezone = 13
tag no_cutoffs = 14
tag empty_cpt_id = 15
tag duplicate_cpt_id = 16
tag empty_local_time = 17
tag invalid_local_time = 18
tag no_days_of_week = 19
tag invalid_day_of_week = 20
tag empty_ship_method = 21
tag no_eligible_path_ids = 22
tag (other _) = 0

-- errors.Is
abbrev pub is : Error → Error → Bool
is e target = nat_eq (tag e) (tag target)

unfoldable pub status_for : Error → ℕ
status_for path_not_found = 404
status_for path_already_exists = 409
status_for path_deactivated = 422
status_for empty_path_id = 422
status_for empty_match_prefix = 422
status_for match_prefix_not_lowercase = 422
status_for no_required_capabilities = 422
status_for invalid_destination_location_role = 422
status_for invalid_cycle_time = 422
status_for cpt_schedule_not_found = 404
status_for ineligible_path_id = 422
status_for empty_timezone = 422
status_for invalid_timezone = 422
status_for no_cutoffs = 422
status_for empty_cpt_id = 422
status_for duplicate_cpt_id = 422
status_for empty_local_time = 422
status_for invalid_local_time = 422
status_for no_days_of_week = 422
status_for invalid_day_of_week = 422
status_for empty_ship_method = 422
status_for no_eligible_path_ids = 422
status_for (other _) = 500

pub record ProblemInfo : Type 0 where
  pub slug : String
  pub title : String

abbrev pub info : String → String → ProblemInfo
info slug title = record { slug = slug; title = title }

abbrev pub problem_catalog : List (Error × ProblemInfo)
problem_catalog =
    (path_not_found, info "path-not-found" "No process path exists with this id")
    ∷ (
      path_already_exists,
      info "path-already-exists"
          "A process path with this id already exists (active or deactivated)",
    )
    ∷ (
      path_deactivated,
      info "path-deactivated" "This process path has been deactivated and can no longer be revised",
    )
    ∷ (empty_path_id, info "empty-path-id" "pathId must not be empty")
    ∷ (empty_match_prefix, info "empty-match-prefix" "matchPrefix must not be empty")
    ∷ (
      match_prefix_not_lowercase,
      info "match-prefix-not-lowercase" "matchPrefix must be lower-case",
    )
    ∷ (
      no_required_capabilities,
      info "no-required-capabilities" "requiredCapabilities must be non-empty",
    )
    ∷ (
      invalid_destination_location_role,
      info "invalid-destination-location-role"
          "destinationLocationRole must be one of Drop, WorkCenter, Shipping, or omitted",
    )
    ∷ (invalid_cycle_time, info "invalid-cycle-time-p95" "cycleTimeP95 must be a positive duration")
    ∷ (cpt_schedule_not_found, info "cpt-schedule-not-found" "No CPT schedule exists for this site")
    ∷ (
      ineligible_path_id,
      info "ineligible-path-id"
          "eligiblePathIds must reference an Active process path in this service's own store",
    )
    ∷ (empty_timezone, info "empty-timezone" "timezone must not be empty")
    ∷ (invalid_timezone, info "invalid-timezone" "timezone is not a recognized IANA zone")
    ∷ (no_cutoffs, info "no-cutoffs" "at least one cutoff is required")
    ∷ (empty_cpt_id, info "empty-cpt-id" "cptId must not be empty")
    ∷ (duplicate_cpt_id, info "duplicate-cpt-id" "cptId must be unique within a site")
    ∷ (empty_local_time, info "empty-local-time" "localTime must not be empty")
    ∷ (invalid_local_time, info "invalid-local-time" "localTime must be in HH:MM 24-hour form")
    ∷ (no_days_of_week, info "no-days-of-week" "daysOfWeek must be non-empty")
    ∷ (invalid_day_of_week, info "invalid-day-of-week" "daysOfWeek entries must be one of Mon..Sun")
    ∷ (empty_ship_method, info "empty-ship-method" "shipMethod must not be empty")
    ∷ (no_eligible_path_ids, info "no-eligible-path-ids" "eligiblePathIds must be non-empty")
    ∷ []

abbrev pub internal_error : ProblemInfo
internal_error = info "internal-error" "An unexpected internal error occurred"

abbrev pub find_problem : Error → List (Error × ProblemInfo) → ProblemInfo
find_problem e [] = internal_error
find_problem e ((target, i) ∷ rest) = if is e target then i else find_problem e rest

unfoldable pub problem_for : Error → ProblemInfo
problem_for e = find_problem e problem_catalog

pub record ProblemDetails : Type 0 where
  pub type_uri : String
  pub title : String
  pub status : ℕ
  pub detail : String
  pub instance_path : String

-- catalogueRowDTO of reports_handler.go
pub record CatalogueRow : Type 0 where
  pub day_bucket : String
  pub paths_defined : ℕ
  pub paths_revised : ℕ
  pub paths_deactivated : ℕ

-- the value of a body; the lag of `lag_body` is in nanoseconds, which `Seconds` divides
pub data Body : Type 0 where
  problem_body : ProblemDetails → Body
  path_body : ProcessPathResponse → Body
  paths_body : List ProcessPathResponse → Body
  schedule_body : CptScheduleResponse → Body
  status_body : String → Body
  report_body : List CatalogueRow → Body
  lag_body : ℕ → Body
  empty_body : Body

pub record Response : Type 0 where
  pub status : ℕ
  pub content_type : String
  pub body : Body

abbrev pub problem_base_uri : String
problem_base_uri = "https://errors.process-path-management.warehouse-systems.dev/"

unfoldable pub write_problem : ℕ → ProblemInfo → String → String → Response
write_problem status i detail url = record {
  status = status;
  content_type = "application/problem+json";
  body = problem_body (record {
    type_uri = problem_base_uri ++ˢ i.slug;
    title = i.title;
    status = status;
    detail = detail;
    instance_path = url;
  });
}

unfoldable pub write_json : ℕ → Body → Response
write_json status body = record { status = status; content_type = "application/json"; body = body }

unfoldable pub write_error : Error → String → Response
write_error e url = write_problem (status_for e) (problem_for e) (error_text e) url

abbrev pub malformed_request_body : ProblemInfo
malformed_request_body = info "malformed-request-body" "The request body is not valid JSON"

abbrev pub invalid_query_parameter : ProblemInfo
invalid_query_parameter =
    info "invalid-query-parameter" "The 'all' query parameter must be a boolean (true or false)"
