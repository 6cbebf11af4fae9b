-- ===== src/Http/HandlerLaws.antt =====
-- The handlers over the in-memory service: the answers to a client.
use process_path_management.Prelude.{String, ◌≡◌, ◌≢◌, refl, arith, inl, inr}
use process_path_management.Prelude.Int.{ℤ}
use process_path_management.Errors.{Error, Result, ok, err, Result-cases, path_not_found}
use process_path_management.Shared.{DestinationLocationRole, parse_destination_location_role}
use process_path_management.Shared.Platform.{Platform}
use process_path_management.ProcessPath.{ProcessPath}
use process_path_management.UseCases.{define_path}
use process_path_management.Memory
use process_path_management.Memory.{World}
use process_path_management.Memory.Requests.{get_path-define_path}
use process_path_management.Http.Dto.{
  DefineProcessPathRequest, to_process_path_response, to_eligibility, parse_cycle_time,
}
use process_path_management.Http.Problems.{
  path_body, write_json, write_error, write_problem, status_for,
}
use process_path_management.Http.{
  Server, decoded, respond_path, handle_define_path, handle_get_path,
}

abbrev pub memory_server : Server World
memory_server = record {
  define_path = Memory.define_wired;
  revise_path = Memory.revise_wired;
  deactivate_path = Memory.deactivate_wired;
  paths = Memory.process_path_repo;
  define_cpt_schedule = Memory.schedule_wired;
  schedules = Memory.cpt_schedule_repo;
}

status_for-ne-201 : (e : Error) → status_for e ≢ 201
unfolding status_for
status_for-ne-201 path_not_found h = absurd (omega arith)
status_for-ne-201 _ h = absurd (omega arith)

respond_path-created :
    (pf : Platform) (url : String) (r : Result ProcessPath × World)
    → (respond_path pf memory_server url 201 r).0.status ≡ 201
    → (p : ProcessPath) × (r.0 ≡ ok p)
      × (respond_path pf memory_server url 201 r
          ≡ (write_json 201 (path_body (to_process_path_response pf p)), r.1))
unfolding write_error write_problem
respond_path-created pf url (ok p, s) h = (p, refl, refl)
respond_path-created pf url (err e, s) h = absurd (status_for-ne-201 e h)

module _ (pf : Platform) (url : String) where
  -- What a created path takes: a body that parses, and a definition that succeeds.
  record Created (req : DefineProcessPathRequest) (w : World) : Type 0 where
    role : DestinationLocationRole
    cycle_time : ℤ
    path : ProcessPath
    defined :
        (define_path pf Memory.define_wired req.path_id req.match_prefix req.direct
          req.required_capabilities role cycle_time
          (to_eligibility req.eligibility)
          w).0
        ≡ ok path
    answered : handle_define_path pf memory_server url (decoded req) w ≡ (
      write_json 201 (path_body (to_process_path_response pf path)),
      (define_path pf Memory.define_wired req.path_id req.match_prefix req.direct
          req.required_capabilities role cycle_time
          (to_eligibility req.eligibility)
          w).1,
    )

  created :
      (req : DefineProcessPathRequest) (w : World)
      → (handle_define_path pf memory_server url (decoded req) w).0.status ≡ 201
      → Created req w
  unfolding handle_define_path write_error write_problem
  created req w h =
      elim (Result-cases (parse_destination_location_role req.destination_location_role)) [
        | inl (e, f) ↦ absurd (status_for-ne-201 e (rw (f, handle_define_path) at h))
        | inr (role, f) ↦ elim (Result-cases (parse_cycle_time pf req.cycle_time_p95)) [
          | inl (e, g) ↦ absurd (status_for-ne-201 e (rw (f, g, handle_define_path) at h))
          | inr (t, g) ↦
              let (p, made, shown) =
                respond_path-created pf url _ (rw (f, g, handle_define_path) at h) in
              record {
                role = role;
                cycle_time = t;
                path = p;
                defined = made;
                answered = rw (f, g, handle_define_path) shown;
              }
        ]
      ]

  -- A created path is answered by its representation, and a GET of its id answers with the same
  -- representation from then on.
  get-define_path :
      (req : DefineProcessPathRequest) (w : World)
      → (handle_define_path pf memory_server url (decoded req) w).0.status ≡ 201
      → handle_get_path pf memory_server url req.path_id
          (handle_define_path pf memory_server url (decoded req) w).1
        ≡ record ((handle_define_path pf memory_server url (decoded req) w).0) { status = 200 }
  unfolding handle_get_path write_json
  get-define_path req w h =
      let c = created req w h in
      rw (c.answered) (
        rw (
          get_path-define_path pf req.path_id req.match_prefix req.direct req.required_capabilities
              c.role c.cycle_time (to_eligibility req.eligibility) w c.path c.defined,
          handle_get_path,
        ))
