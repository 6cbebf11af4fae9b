-- ===== src/Http/Dto.antt =====
-- internal/adapters/inbound/http/dto.go and the conversions of server.go. A string type of the
-- domain and the `string` of a DTO are one type here, so a copy between them is the list itself.
use process_path_management.Prelude.{String, Bool, List, [], ◌∷◌, map, Option, none, some}
use process_path_management.Prelude.Int.{ℤ}
use process_path_management.Errors.{Result, ok, err, ◌>>=◌, invalid_cycle_time}
use process_path_management.Shared.Platform.{Platform}
use process_path_management.Shared.Eligibility.{Eligibility, new_eligibility, no_eligibility}
use process_path_management.ProcessPath.{ProcessPath, Status, active, deactivated}
use process_path_management.CptSchedule.{CptSchedule}
use process_path_management.CptSchedule.Cutoffs.{Cutoff, new_cutoff}

pub record EligibilityRequest : Type 0 where
  pub max_units_per_line : Option ℤ
  pub required_product_attributes : List String
  pub excluded_product_attributes : List String
  pub non_sortable : Bool

pub record EligibilityResponse : Type 0 where
  pub max_units_per_line : Option ℤ
  pub required_product_attributes : List String
  pub excluded_product_attributes : List String
  pub non_sortable : Bool

pub record DefineProcessPathRequest : Type 0 where
  pub path_id : String
  pub match_prefix : String
  pub direct : Bool
  pub required_capabilities : List String
  pub destination_location_role : String
  pub cycle_time_p95 : String
  pub eligibility : Option EligibilityRequest

pub record ReviseProcessPathRequest : Type 0 where
  pub match_prefix : String
  pub required_capabilities : List String
  pub cycle_time_p95 : String
  pub eligibility : Option EligibilityRequest

pub record ProcessPathResponse : Type 0 where
  pub path_id : String
  pub match_prefix : String
  pub direct : Bool
  pub required_capabilities : List String
  pub destination_location_role : String
  pub cycle_time_p95 : String
  pub eligibility : EligibilityResponse
  pub status : String
  pub created_at : String
  pub updated_at : String

pub record CutoffRequest : Type 0 where
  pub cpt_id : String
  pub local_time : String
  pub days_of_week : List String
  pub ship_method : String
  pub eligible_path_ids : List String

pub record DefineCptScheduleRequest : Type 0 where
  pub timezone : String
  pub cutoffs : List CutoffRequest

pub record CutoffResponse : Type 0 where
  pub cpt_id : String
  pub local_time : String
  pub days_of_week : List String
  pub ship_method : String
  pub eligible_path_ids : List String

pub record CptScheduleResponse : Type 0 where
  pub site_id : String
  pub timezone : String
  pub cutoffs : List CutoffResponse
  pub created_at : String
  pub updated_at : String

-- the constants StatusActive and StatusDeactivated
abbrev pub status_text : Status → String
status_text active = "ACTIVE"
status_text deactivated = "DEACTIVATED"

unfoldable pub to_eligibility : Option EligibilityRequest → Eligibility
to_eligibility none = no_eligibility
to_eligibility (some r) =
    new_eligibility r.max_units_per_line r.required_product_attributes r.excluded_product_attributes
      r.non_sortable

unfoldable pub to_eligibility_response : Eligibility → EligibilityResponse
to_eligibility_response e = record {
  max_units_per_line = e.max_units_per_line;
  required_product_attributes = e.required_product_attributes;
  excluded_product_attributes = e.excluded_product_attributes;
  non_sortable = e.non_sortable;
}

unfoldable pub to_process_path_response : Platform → ProcessPath → ProcessPathResponse
unfolding to_eligibility_response
to_process_path_response pf p = record {
  path_id = p.id;
  match_prefix = p.match_prefix;
  direct = p.direct;
  required_capabilities = p.required_capabilities;
  destination_location_role = p.destination_location_role;
  cycle_time_p95 = pf.show_duration p.cycle_time_p95;
  eligibility = to_eligibility_response p.eligibility;
  status = status_text p.status;
  created_at = pf.show_time p.created_at;
  updated_at = pf.show_time p.updated_at;
}

unfoldable pub parse_cycle_time : Platform → String → Result ℤ
parse_cycle_time pf s = elim (pf.parse_duration s) [ none ↦ err invalid_cycle_time | some d ↦ ok d ]

unfoldable pub to_cutoffs : List CutoffRequest → Result (List Cutoff)
to_cutoffs [] = ok []
to_cutoffs (r ∷ rs) = do
  c ← new_cutoff r.cpt_id r.local_time r.days_of_week r.ship_method r.eligible_path_ids
  cs ← to_cutoffs rs
  ok (c ∷ cs)

abbrev pub to_cutoff_response : Cutoff → CutoffResponse
to_cutoff_response c = record {
  cpt_id = c.cpt_id;
  local_time = c.local_time;
  days_of_week = c.days_of_week;
  ship_method = c.ship_method;
  eligible_path_ids = c.eligible_path_ids;
}

unfoldable pub to_cpt_schedule_response : Platform → CptSchedule → CptScheduleResponse
to_cpt_schedule_response pf s = record {
  site_id = s.site_id;
  timezone = s.timezone;
  cutoffs = map to_cutoff_response s.cutoffs;
  created_at = pf.show_time s.created_at;
  updated_at = pf.show_time s.updated_at;
}
