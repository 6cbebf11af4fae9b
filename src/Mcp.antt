-- ===== src/Mcp.antt =====
-- internal/adapters/inbound/mcp: the tools of mapping.go and tools.go over the read use cases. The
-- protocol, its schemas and its spans are an SDK's; a tool is a function of its decoded input.
pub mod Agrees
pub mod ReportTool
use process_path_management.Prelude.{
  ℕ, String, Bool, true, false, List, [], ◌∷◌, ◌++◌, map, Option, none, some, ◌==◌, if◌then◌else◌,
  is_some,
}
use process_path_management.Prelude.Int.{ℤ}
use process_path_management.Errors.{Result, ok, err, other}
use process_path_management.Ports.{ProcessPathRepo, CptScheduleRepo}
use process_path_management.Shared.Platform.{Platform}
use process_path_management.ProcessPath.{ProcessPath, is_active}
use process_path_management.CptSchedule.{CptSchedule}
use process_path_management.CptSchedule.Cutoffs.{Cutoff}
use process_path_management.UseCases.{get_path, list_paths}
use process_path_management.UseCases.Schedules.{get_cpt_schedule}
use process_path_management.Http.Dto.{status_text}

pub record EligibilityDto : Type 0 where
  pub max_units_per_line : Option ℤ
  pub required_product_attributes : List String
  pub excluded_product_attributes : List String
  pub non_sortable : Bool

pub record ProcessPathDto : Type 0 where
  pub path_id : String
  pub match_prefix : String
  pub direct : Bool
  pub required_capabilities : List String
  pub status : String
  pub active : Bool
  pub created_at : String
  pub updated_at : String
  pub cycle_time_p95 : String
  pub eligibility : EligibilityDto

pub record CutoffDto : Type 0 where
  pub cpt_id : String
  pub local_time : String
  pub days_of_week : List String
  pub ship_method : String
  pub eligible_path_ids : List String

pub record CptScheduleDto : Type 0 where
  pub site_id : String
  pub timezone : String
  pub cutoffs : List CutoffDto
  pub created_at : String
  pub updated_at : String

-- `show_local` is Format with the layout of RFC 3339, in the time zone that the time is in
module _ (pf : Platform) (show_local : ℕ → String) where
  unfoldable pub to_process_path_dto : ProcessPath → ProcessPathDto
  to_process_path_dto p = record {
    path_id = p.id;
    match_prefix = p.match_prefix;
    direct = p.direct;
    required_capabilities = p.required_capabilities;
    status = status_text p.status;
    active = is_active p;
    created_at = show_local p.created_at;
    updated_at = show_local p.updated_at;
    cycle_time_p95 = pf.show_duration p.cycle_time_p95;
    eligibility = record {
      max_units_per_line = p.eligibility.max_units_per_line;
      required_product_attributes = p.eligibility.required_product_attributes;
      excluded_product_attributes = p.eligibility.excluded_product_attributes;
      non_sortable = p.eligibility.non_sortable;
    };
  }

abbrev pub to_cutoff_dto : Cutoff → CutoffDto
to_cutoff_dto c = record {
  cpt_id = c.cpt_id;
  local_time = c.local_time;
  days_of_week = c.days_of_week;
  ship_method = c.ship_method;
  eligible_path_ids = c.eligible_path_ids;
}

unfoldable pub to_cpt_schedule_dto : (ℕ → String) → CptSchedule → CptScheduleDto
to_cpt_schedule_dto show_local s = record {
  site_id = s.site_id;
  timezone = s.timezone;
  cutoffs = map to_cutoff_dto s.cutoffs;
  created_at = show_local s.created_at;
  updated_at = show_local s.updated_at;
}

-- Deps: a use case that is nil turns its tool off
pub record Deps (S : Type 0) : Type 0 where
  pub paths : ProcessPathRepo S
  pub schedules : Option (CptScheduleRepo S)
  pub has_reports : Bool

-- registerTools
abbrev pub when : Bool → String → List String
when true name = name ∷ []
when false name = []

unfoldable pub register_tools : {S : Type 0} → Deps S → List String
register_tools d =
    "get_process_path"
    ∷ "list_process_paths"
    ∷ (when (is_some d.schedules) "get_cpt_schedule"
        ++ when d.has_reports "get_catalogue_growth_report")

abbrev pub default_active : Option Bool → Bool
default_active none = true
default_active (some b) = b

module _ {S : Type 0} (pf : Platform) (show_local : ℕ → String) where
  unfoldable pub get_process_path : ProcessPathRepo S → String → S → Result ProcessPathDto
  get_process_path repo id s =
      if id == "" then err (other "pathId is required") else elim (get_path repo id s) [
        | err e ↦ err e
        | ok p ↦ ok (to_process_path_dto pf show_local p)
      ]

  unfoldable pub list_process_paths :
      ProcessPathRepo S → Option Bool → S → Result (List ProcessPathDto)
  list_process_paths repo active_only s = elim (list_paths repo (default_active active_only) s) [
    | err e ↦ err e
    | ok ps ↦ ok (map (to_process_path_dto pf show_local) ps)
  ]

  unfoldable pub get_cpt_schedule_tool : CptScheduleRepo S → String → S → Result CptScheduleDto
  get_cpt_schedule_tool repo site s =
      if site == "" then err (other "siteId is required") else elim (get_cpt_schedule repo site s) [
        | err e ↦ err e
        | ok c ↦ ok (to_cpt_schedule_dto show_local c)
      ]
