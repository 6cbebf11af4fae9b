-- ===== src/Http.antt =====
-- internal/adapters/inbound/http/server.go: the handlers of the REST API over the use cases, each a
-- function of the decoded request. A body is the value that is encoded to JSON; a body that does
-- not decode is `malformed`, with the decoder's message. Router has the routes.
pub mod Dto
pub mod Problems
pub mod ProblemLaws
pub mod HandlerLaws
pub mod Reports
pub mod Router
use process_path_management.Prelude.{
  String, Bool, true, false, not, List, Option, none, some, map, ◌==◌, if◌then◌else◌, ℕ, ◌++ˢ◌,
}
use process_path_management.Errors.{Error, Result, ok, err, ◌>>=◌}
use process_path_management.Ports.{ProcessPathRepo, CptScheduleRepo}
use process_path_management.Shared.{PathId, SiteId, parse_destination_location_role}
use process_path_management.Shared.Platform.{Platform}
use process_path_management.ProcessPath.{ProcessPath}
use process_path_management.CptSchedule.{CptSchedule}
use process_path_management.UseCases.{
  DefinePath, RevisePath, DeactivatePath, define_path, revise_path, deactivate_path, get_path,
  list_paths,
}
use process_path_management.UseCases.Schedules.{
  DefineCptSchedule, define_cpt_schedule, get_cpt_schedule,
}
use process_path_management.Http.Dto.{
  DefineProcessPathRequest, ReviseProcessPathRequest, DefineCptScheduleRequest, to_eligibility,
  to_process_path_response, to_cpt_schedule_response, parse_cycle_time, to_cutoffs,
}
use process_path_management.Http.Problems.{
  Response, Body, path_body, paths_body, schedule_body, empty_body, write_json, write_problem,
  write_error, malformed_request_body, invalid_query_parameter,
}

-- decodeJSON
pub data Decoded (A : Type 0) : Type 0 where
  decoded : A → Decoded A
  malformed : String → Decoded A

pub record Server (S : Type 0) : Type 0 where
  pub define_path : DefinePath S
  pub revise_path : RevisePath S
  pub deactivate_path : DeactivatePath S
  pub paths : ProcessPathRepo S
  pub define_cpt_schedule : DefineCptSchedule S
  pub schedules : CptScheduleRepo S

unfoldable pub parse_strict_bool : String → Option Bool
parse_strict_bool v = if v == "true" then some true else if v == "false" then some false else none

module _ {S : Type 0} (pf : Platform) (server : Server S) (url : String) where
  abbrev pub respond_path : ℕ → Result ProcessPath × S → Response × S
  respond_path status (ok p, s) = (write_json status (path_body (to_process_path_response pf p)), s)
  respond_path status (err e, s) = (write_error e url, s)

  abbrev pub respond_schedule : Result CptSchedule × S → Response × S
  respond_schedule (ok c, s) = (write_json 200 (schedule_body (to_cpt_schedule_response pf c)), s)
  respond_schedule (err e, s) = (write_error e url, s)

  abbrev pub respond_empty : Result (Unit {0}) × S → Response × S
  respond_empty (ok _, s) = (record { status = 204; content_type = ""; body = empty_body }, s)
  respond_empty (err e, s) = (write_error e url, s)

  unfoldable pub handle_define_path : Decoded DefineProcessPathRequest → S → Response × S
  handle_define_path (malformed m) s = (write_problem 400 malformed_request_body m url, s)
  handle_define_path (decoded req) s =
      elim (parse_destination_location_role req.destination_location_role) [
        | err e ↦ (write_error e url, s)
        | ok role ↦ elim (parse_cycle_time pf req.cycle_time_p95) [
          | err e ↦ (write_error e url, s)
          | ok cycle_time ↦ respond_path 201 (
              define_path pf server.define_path req.path_id req.match_prefix req.direct
                req.required_capabilities role cycle_time (to_eligibility req.eligibility) s)
        ]
      ]

  unfoldable pub handle_revise_path : PathId → Decoded ReviseProcessPathRequest → S → Response × S
  handle_revise_path id (malformed m) s = (write_problem 400 malformed_request_body m url, s)
  handle_revise_path id (decoded req) s = elim (parse_cycle_time pf req.cycle_time_p95) [
    | err e ↦ (write_error e url, s)
    | ok cycle_time ↦ respond_path 200 (
        revise_path pf server.revise_path id req.match_prefix req.required_capabilities cycle_time
          (to_eligibility req.eligibility) s)
  ]

  unfoldable pub handle_deactivate_path : PathId → S → Response × S
  handle_deactivate_path id s = respond_empty (deactivate_path server.deactivate_path id s)

  unfoldable pub handle_get_path : PathId → S → Response
  handle_get_path id s = elim (get_path server.paths id s) [
    | err e ↦ write_error e url
    | ok p ↦ write_json 200 (path_body (to_process_path_response pf p))
  ]

  -- the argument is the first value of the query parameter `all`, if there is one
  abbrev pub active_only : Option String → Option Bool
  active_only none = some true
  active_only (some v) = elim (parse_strict_bool v) [ none ↦ none | some all ↦ some (not all) ]

  abbrev pub bad_flag : Option String → String
  bad_flag none = ""
  bad_flag (some v) = "could not parse 'all' as a boolean: " ++ˢ v

  unfoldable pub handle_list_paths : Option String → S → Response
  handle_list_paths all s = elim (active_only all) [
    | none ↦ write_problem 400 invalid_query_parameter (bad_flag all) url
    | some only ↦ elim (list_paths server.paths only s) [
      | err e ↦ write_error e url
      | ok ps ↦ write_json 200 (paths_body (map (to_process_path_response pf) ps))
    ]
  ]

  unfoldable pub handle_define_cpt_schedule :
      SiteId → Decoded DefineCptScheduleRequest → S → Response × S
  handle_define_cpt_schedule site (malformed m) s =
      (write_problem 400 malformed_request_body m url, s)
  handle_define_cpt_schedule site (decoded req) s = elim (to_cutoffs req.cutoffs) [
    | err e ↦ (write_error e url, s)
    | ok cutoffs ↦
        respond_schedule
          (define_cpt_schedule pf server.define_cpt_schedule site req.timezone cutoffs s)
  ]

  unfoldable pub handle_get_cpt_schedule : SiteId → S → Response
  handle_get_cpt_schedule site s = elim (get_cpt_schedule server.schedules site s) [
    | err e ↦ write_error e url
    | ok c ↦ write_json 200 (schedule_body (to_cpt_schedule_response pf c))
  ]
