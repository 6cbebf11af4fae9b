-- ===== src/Http/Router/Answers.antt =====
-- What NewRouter of server.go answers: every answer of a handler over any ports.
use process_path_management.Prelude.{
  ℕ, ◌≤◌, String, ◌≡◌, ◌⊎◌, refl, inl, inr, Option, arith, Option-cases,
}
use process_path_management.Errors.{Error, Result, ok, err, other, Result-cases}
use process_path_management.Shared.{PathId, SiteId, parse_destination_location_role}
use process_path_management.Shared.Platform.{Platform}
use process_path_management.ProcessPath.{ProcessPath}
use process_path_management.CptSchedule.{CptSchedule}
use process_path_management.UseCases.{get_path, list_paths}
use process_path_management.UseCases.Schedules.{get_cpt_schedule}
use process_path_management.Http.Dto.{
  DefineProcessPathRequest, ReviseProcessPathRequest, DefineCptScheduleRequest, parse_cycle_time,
  to_cutoffs,
}
use process_path_management.Http.Problems.{
  Response, ProblemInfo, ProblemDetails, Body, problem_body, empty_body, write_json, write_problem,
  write_error, status_for,
}
use process_path_management.Http.{
  Server, Decoded, decoded, malformed, active_only, respond_path, respond_schedule, respond_empty,
  handle_define_path, handle_revise_path, handle_deactivate_path, handle_get_path,
  handle_list_paths, handle_define_cpt_schedule, handle_get_cpt_schedule,
}

-- What a client may count on: JSON, nothing, or a problem that carries the status of the answer and
-- the path of the request.
pub data IsAnswer (url : String) (a : Response) : Type 0 where
  made : (a.status ≡ 200) ⊎ (a.status ≡ 201) → a.content_type ≡ "application/json" → IsAnswer url a
  nothing : a.status ≡ 204 → a.body ≡ empty_body → IsAnswer url a
  refused :
      (d : ProblemDetails)
      → a.body ≡ problem_body d
      → d.status ≡ a.status
      → d.instance_path ≡ url
      → a.content_type ≡ "application/problem+json"
      → 400 ≤ a.status
      → IsAnswer url a

pub write_problem-IsAnswer :
    (status : ℕ) (i : ProblemInfo) (detail url : String)
    → 400 ≤ status
    → IsAnswer url (write_problem status i detail url)
unfolding write_problem
write_problem-IsAnswer status i detail url h = refused _ refl refl refl refl h

pub write_json-IsAnswer :
    (url : String) (status : ℕ) (b : Body)
    → (status ≡ 200) ⊎ (status ≡ 201)
    → IsAnswer url (write_json status b)
unfolding write_json
write_json-IsAnswer url status b h = made h refl

400-le-status_for : (e : Error) → 400 ≤ status_for e
unfolding status_for
400-le-status_for (other m) = omega arith
400-le-status_for _ = omega arith

write_error-IsAnswer : (e : Error) (url : String) → IsAnswer url (write_error e url)
unfolding write_error
write_error-IsAnswer e url = write_problem-IsAnswer (status_for e) _ _ url (400-le-status_for e)

module _ {S : Type 0} (pf : Platform) (server : Server S) (url : String) where
  respond_path-IsAnswer :
      (status : ℕ) (r : Result ProcessPath × S)
      → (status ≡ 200) ⊎ (status ≡ 201)
      → IsAnswer url (respond_path pf server url status r).0
  respond_path-IsAnswer status (ok p, s) h = write_json-IsAnswer url status _ h
  respond_path-IsAnswer status (err e, s) h = write_error-IsAnswer e url

  respond_schedule-IsAnswer :
      (r : Result CptSchedule × S) → IsAnswer url (respond_schedule pf server url r).0
  respond_schedule-IsAnswer (ok c, s) = write_json-IsAnswer url 200 _ (inl refl)
  respond_schedule-IsAnswer (err e, s) = write_error-IsAnswer e url

  respond_empty-IsAnswer :
      (r : Result (Unit {0}) × S) → IsAnswer url (respond_empty pf server url r).0
  respond_empty-IsAnswer (ok _, s) = nothing refl refl
  respond_empty-IsAnswer (err e, s) = write_error-IsAnswer e url

  pub handle_define_path-IsAnswer :
      (b : Decoded DefineProcessPathRequest) (s : S)
      → IsAnswer url (handle_define_path pf server url b s).0
  unfolding handle_define_path
  handle_define_path-IsAnswer (malformed m) s = write_problem-IsAnswer 400 _ m url (omega arith)
  handle_define_path-IsAnswer (decoded req) s =
      elim (Result-cases (parse_destination_location_role req.destination_location_role)) [
        | inl (e, f) ↦ rw (f, handle_define_path) (write_error-IsAnswer e url)
        | inr (role, f) ↦ elim (Result-cases (parse_cycle_time pf req.cycle_time_p95)) [
          | inl (e, g) ↦ rw (f, g, handle_define_path) (write_error-IsAnswer e url)
          | inr (t, g) ↦ rw (f, g, handle_define_path) (respond_path-IsAnswer 201 _ (inr refl))
        ]
      ]

  pub handle_revise_path-IsAnswer :
      (id : PathId) (b : Decoded ReviseProcessPathRequest) (s : S)
      → IsAnswer url (handle_revise_path pf server url id b s).0
  unfolding handle_revise_path
  handle_revise_path-IsAnswer id (malformed m) s = write_problem-IsAnswer 400 _ m url (omega arith)
  handle_revise_path-IsAnswer id (decoded req) s =
      elim (Result-cases (parse_cycle_time pf req.cycle_time_p95)) [
        | inl (e, g) ↦ rw (g, handle_revise_path) (write_error-IsAnswer e url)
        | inr (t, g) ↦ rw (g, handle_revise_path) (respond_path-IsAnswer 200 _ (inl refl))
      ]

  pub handle_deactivate_path-IsAnswer :
      (id : PathId) (s : S) → IsAnswer url (handle_deactivate_path pf server url id s).0
  unfolding handle_deactivate_path
  handle_deactivate_path-IsAnswer id s = respond_empty-IsAnswer _

  pub handle_get_path-IsAnswer :
      (id : PathId) (s : S) → IsAnswer url (handle_get_path pf server url id s)
  unfolding handle_get_path
  handle_get_path-IsAnswer id s = elim (Result-cases (get_path server.paths id s)) [
    | inl (e, f) ↦ rw (f, handle_get_path) (write_error-IsAnswer e url)
    | inr (p, f) ↦ rw (f, handle_get_path) (write_json-IsAnswer url 200 _ (inl refl))
  ]

  pub handle_list_paths-IsAnswer :
      (all : Option String) (s : S) → IsAnswer url (handle_list_paths pf server url all s)
  unfolding handle_list_paths
  handle_list_paths-IsAnswer all s = elim (Option-cases (active_only pf server url all)) [
    | inl bad ↦ rw (bad, handle_list_paths) (write_problem-IsAnswer 400 _ _ url (omega arith))
    | inr (only, f) ↦ elim (Result-cases (list_paths server.paths only s)) [
      | inl (e, g) ↦ rw (f, g, handle_list_paths) (write_error-IsAnswer e url)
      | inr (ps, g) ↦ rw (f, g, handle_list_paths) (write_json-IsAnswer url 200 _ (inl refl))
    ]
  ]

  pub handle_define_cpt_schedule-IsAnswer :
      (site : SiteId) (b : Decoded DefineCptScheduleRequest) (s : S)
      → IsAnswer url (handle_define_cpt_schedule pf server url site b s).0
  unfolding handle_define_cpt_schedule
  handle_define_cpt_schedule-IsAnswer site (malformed m) s =
      write_problem-IsAnswer 400 _ m url (omega arith)
  handle_define_cpt_schedule-IsAnswer site (decoded req) s =
      elim (Result-cases (to_cutoffs req.cutoffs)) [
        | inl (e, f) ↦ rw (f, handle_define_cpt_schedule) (write_error-IsAnswer e url)
        | inr (cs, f) ↦ rw (f, handle_define_cpt_schedule) (respond_schedule-IsAnswer _)
      ]

  pub handle_get_cpt_schedule-IsAnswer :
      (site : SiteId) (s : S) → IsAnswer url (handle_get_cpt_schedule pf server url site s)
  unfolding handle_get_cpt_schedule
  handle_get_cpt_schedule-IsAnswer site s =
      elim (Result-cases (get_cpt_schedule server.schedules site s)) [
        | inl (e, f) ↦ rw (f, handle_get_cpt_schedule) (write_error-IsAnswer e url)
        | inr (c, f) ↦ rw (f, handle_get_cpt_schedule) (write_json-IsAnswer url 200 _ (inl refl))
      ]
