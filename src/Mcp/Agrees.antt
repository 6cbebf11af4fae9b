-- ===== src/Mcp/Agrees.antt =====
-- The tools of tools.go against the handlers of server.go: the same reads by two adapters.
use process_path_management.Prelude.{
  ℕ, String, Bool, true, false, ◌≡◌, ◌≢◌, ◌⊎◌, refl, List, [], ◌∷◌, map, Option, none, some, inl,
  inr, arith, ==-false,
}
use process_path_management.Errors.{Error, Result, ok, err, Result-cases}
use process_path_management.Shared.Platform.{Platform}
use process_path_management.ProcessPath.{ProcessPath, Status, active, deactivated, is_active_status}
use process_path_management.CptSchedule.{CptSchedule}
use process_path_management.CptSchedule.Cutoffs.{Cutoff}
use process_path_management.UseCases.{get_path, list_paths}
use process_path_management.UseCases.Schedules.{get_cpt_schedule}
use process_path_management.Http.Dto.{
  ProcessPathResponse, CptScheduleResponse, CutoffResponse, to_cutoff_response, status_text,
  to_process_path_response, to_cpt_schedule_response, to_eligibility_response,
}
use process_path_management.Http.Problems.{
  Response, Body, path_body, paths_body, schedule_body, write_json, write_error,
}
use process_path_management.Http.{
  Server, active_only, parse_strict_bool, handle_get_path, handle_list_paths,
  handle_get_cpt_schedule,
}
use process_path_management.Mcp.{
  ProcessPathDto, CptScheduleDto, CutoffDto, to_cutoff_dto, to_process_path_dto,
  to_cpt_schedule_dto, get_process_path, list_process_paths, get_cpt_schedule_tool, default_active,
}

-- The tool shows of a path what the REST API shows, but for its destination location role and the
-- time zone of its times.
pub record AgreesOnPath (d : ProcessPathDto) (r : ProcessPathResponse) : Type 0 where
  pub same_id : d.path_id ≡ r.path_id
  pub same_prefix : d.match_prefix ≡ r.match_prefix
  pub same_direct : d.direct ≡ r.direct
  pub same_capabilities : d.required_capabilities ≡ r.required_capabilities
  pub same_status : d.status ≡ r.status
  pub active_status :
      (d.active ≡ true) × (r.status ≡ "ACTIVE") ⊎ (d.active ≡ false) × (r.status ≡ "DEACTIVATED")
  pub same_cycle_time : d.cycle_time_p95 ≡ r.cycle_time_p95
  pub same_max : d.eligibility.max_units_per_line ≡ r.eligibility.max_units_per_line
  pub same_required :
      d.eligibility.required_product_attributes ≡ r.eligibility.required_product_attributes
  pub same_excluded :
      d.eligibility.excluded_product_attributes ≡ r.eligibility.excluded_product_attributes
  pub same_sortable : d.eligibility.non_sortable ≡ r.eligibility.non_sortable

active_iff :
    (s : Status)
    → ((is_active_status s ≡ true) × (status_text s ≡ "ACTIVE"))
      ⊎ ((is_active_status s ≡ false) × (status_text s ≡ "DEACTIVATED"))
active_iff active = inl (refl, refl)
active_iff deactivated = inr (refl, refl)

abbrev pub AgreeOnPaths : List ProcessPathDto → List ProcessPathResponse → Type 0
AgreeOnPaths [] [] = Unit
AgreeOnPaths [] (r ∷ rs) = ⊥
AgreeOnPaths (d ∷ ds) [] = ⊥
AgreeOnPaths (d ∷ ds) (r ∷ rs) = AgreesOnPath d r × AgreeOnPaths ds rs

abbrev AgreeOnCutoffs : List CutoffDto → List CutoffResponse → Type 0
AgreeOnCutoffs [] [] = Unit
AgreeOnCutoffs [] (r ∷ rs) = ⊥
AgreeOnCutoffs (d ∷ ds) [] = ⊥
AgreeOnCutoffs (d ∷ ds) (r ∷ rs) =
    ((d.cpt_id ≡ r.cpt_id)
      × (d.local_time ≡ r.local_time)
      × (d.days_of_week ≡ r.days_of_week)
      × (d.ship_method ≡ r.ship_method)
      × (d.eligible_path_ids ≡ r.eligible_path_ids))
    × AgreeOnCutoffs ds rs

-- The tool shows of a schedule what the REST API shows, but for the time zone of its times.
pub record AgreesOnSchedule (d : CptScheduleDto) (r : CptScheduleResponse) : Type 0 where
  pub same_site : d.site_id ≡ r.site_id
  pub same_timezone : d.timezone ≡ r.timezone
  pub same_cutoffs : AgreeOnCutoffs d.cutoffs r.cutoffs

-- A tool fails with the error that the REST API answers with, or both show the same.
abbrev pub Agree :
    {D R : Type 0} → (D → R → Type 0) → (R → Body) → String → Result D → Response → Type 0
Agree {D = D} {R = R} same body url tool response =
    ((e : Error) × (tool ≡ err e) × (response ≡ write_error e url))
    ⊎ ((d : D) × (r : R) × (tool ≡ ok d) × (response ≡ write_json 200 (body r)) × same d r)

-- the query parameter `all` that asks for what the argument activeOnly asks for
abbrev pub all_flag : Option Bool → Option String
all_flag none = none
all_flag (some true) = some "false"
all_flag (some false) = some "true"

cutoffs-AgreeOnCutoffs :
    (cs : List Cutoff) → AgreeOnCutoffs (map to_cutoff_dto cs) (map to_cutoff_response cs)
cutoffs-AgreeOnCutoffs [] = tt
cutoffs-AgreeOnCutoffs (c ∷ cs) = ((refl, refl, refl, refl, refl), cutoffs-AgreeOnCutoffs cs)

module _ {S : Type 0} (pf : Platform) (show_local : ℕ → String) (server : Server S)
    (url : String) where
  to_process_path_dto-AgreesOnPath :
      (p : ProcessPath)
      → AgreesOnPath (to_process_path_dto pf show_local p) (to_process_path_response pf p)
  unfolding to_process_path_dto to_process_path_response to_eligibility_response
  to_process_path_dto-AgreesOnPath p = record {
    same_id = refl;
    same_prefix = refl;
    same_direct = refl;
    same_capabilities = refl;
    same_status = refl;
    active_status = active_iff p.status;
    same_cycle_time = refl;
    same_max = refl;
    same_required = refl;
    same_excluded = refl;
    same_sortable = refl;
  }

  paths-AgreeOnPaths :
      (ps : List ProcessPath)
      → AgreeOnPaths
          (map (to_process_path_dto pf show_local) ps)
          (map (to_process_path_response pf) ps)
  paths-AgreeOnPaths [] = tt
  paths-AgreeOnPaths (p ∷ ps) = (to_process_path_dto-AgreesOnPath p, paths-AgreeOnPaths ps)

  schedule-AgreesOnSchedule :
      (c : CptSchedule)
      → AgreesOnSchedule (to_cpt_schedule_dto show_local c) (to_cpt_schedule_response pf c)
  unfolding to_cpt_schedule_dto to_cpt_schedule_response
  schedule-AgreesOnSchedule c = record {
    same_site = refl;
    same_timezone = refl;
    same_cutoffs = cutoffs-AgreeOnCutoffs c.cutoffs;
  }

  path-Agree :
      (id : String) (s : S)
      → id ≢ ""
      → Agree AgreesOnPath path_body url
          (get_process_path pf show_local server.paths id s)
          (handle_get_path pf server url id s)
  unfolding get_process_path handle_get_path
  path-Agree id s given = elim (Result-cases (get_path server.paths id s)) [
    | inl (e, failed) ↦ inl (e, ground (arith, ==-false id "" given), ground arith)
    | inr (p, found) ↦ inr (
      to_process_path_dto pf show_local p,
      to_process_path_response pf p,
      ground (arith, ==-false id "" given),
      ground arith,
      to_process_path_dto-AgreesOnPath p,
    )
  ]

  schedule-Agree :
      (site : String) (s : S)
      → site ≢ ""
      → Agree AgreesOnSchedule schedule_body url
          (get_cpt_schedule_tool pf show_local server.schedules site s)
          (handle_get_cpt_schedule pf server url site s)
  unfolding get_cpt_schedule_tool handle_get_cpt_schedule
  schedule-Agree site s given = elim (Result-cases (get_cpt_schedule server.schedules site s)) [
    | inl (e, failed) ↦ inl (e, ground (arith, ==-false site "" given), ground arith)
    | inr (c, found) ↦ inr (
      to_cpt_schedule_dto show_local c,
      to_cpt_schedule_response pf c,
      ground (arith, ==-false site "" given),
      ground arith,
      schedule-AgreesOnSchedule c,
    )
  ]

  flag_agrees : (b : Option Bool) → active_only pf server url (all_flag b) ≡ some (default_active b)
  unfolding parse_strict_bool
  flag_agrees none = refl
  flag_agrees (some true) = refl
  flag_agrees (some false) = refl

  paths-Agree :
      (only : Option Bool) (s : S)
      → Agree AgreeOnPaths paths_body url
          (list_process_paths pf show_local server.paths only s)
          (handle_list_paths pf server url (all_flag only) s)
  unfolding list_process_paths handle_list_paths
  paths-Agree only s = elim (Result-cases (list_paths server.paths (default_active only) s)) [
    | inl (e, failed) ↦ inl (e, ground arith, ground (arith, flag_agrees only))
    | inr (ps, found) ↦ inr (
      map (to_process_path_dto pf show_local) ps,
      map (to_process_path_response pf) ps,
      ground arith,
      ground (arith, flag_agrees only),
      paths-AgreeOnPaths ps,
    )
  ]

  -- For an id and a site that are not empty, in any state of the stores, each of the three read
  -- tools fails with the error that the REST API answers with for the same read, or both show the
  -- same of the same paths or schedule.
  pub tools-Agree :
      (id site : String) (only : Option Bool) (s : S)
      → id ≢ ""
      → site ≢ ""
      → Agree AgreesOnPath path_body url
          (get_process_path pf show_local server.paths id s)
          (handle_get_path pf server url id s)
        × Agree AgreeOnPaths paths_body url
            (list_process_paths pf show_local server.paths only s)
            (handle_list_paths pf server url (all_flag only) s)
        × Agree AgreesOnSchedule schedule_body url
            (get_cpt_schedule_tool pf show_local server.schedules site s)
            (handle_get_cpt_schedule pf server url site s)
  tools-Agree id site only s id_given site_given =
      (path-Agree id s id_given, paths-Agree only s, schedule-Agree site s site_given)
