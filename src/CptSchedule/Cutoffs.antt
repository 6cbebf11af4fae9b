-- ===== src/CptSchedule/Cutoffs.antt =====
-- The Cutoff value object of internal/domain/cptschedule/cpt_schedule.go. A Weekday is Go's string
-- type; `valid_weekdays` is the set of the seven names.
use process_path_management.Prelude.{String, Bool, true, false, not, List, [], ◌∷◌, ◌==◌, elem, all}
use process_path_management.Errors.{
  Result, ok, ◌>>◌, require, empty_cpt_id, empty_local_time, invalid_local_time, no_days_of_week,
  invalid_day_of_week, empty_ship_method, no_eligible_path_ids,
}
use process_path_management.Shared.{PathId}
use process_path_management.CptSchedule.LocalTime.{is_valid_local_time}

abbrev pub Weekday : Type 0
Weekday = String

abbrev pub valid_weekdays : List Weekday
valid_weekdays = "Mon" ∷ "Tue" ∷ "Wed" ∷ "Thu" ∷ "Fri" ∷ "Sat" ∷ "Sun" ∷ []

pub record Cutoff : Type 0 where
  pub cpt_id : String
  pub local_time : String
  pub days_of_week : List Weekday
  pub ship_method : String
  pub eligible_path_ids : List PathId

abbrev pub none_listed : List String → Bool
none_listed [] = true
none_listed (_ ∷ _) = false

unfoldable pub new_cutoff : String → String → List Weekday → String → List PathId → Result Cutoff
new_cutoff cpt_id local_time days_of_week ship_method eligible_path_ids = do
  require (not (cpt_id == "")) empty_cpt_id
  require (not (local_time == "")) empty_local_time
  require (is_valid_local_time local_time) invalid_local_time
  require (not (none_listed days_of_week)) no_days_of_week
  require (all (λ d. elem d valid_weekdays) days_of_week) invalid_day_of_week
  require (not (ship_method == "")) empty_ship_method
  require (not (none_listed eligible_path_ids)) no_eligible_path_ids
  ok (record {
    cpt_id = cpt_id;
    local_time = local_time;
    days_of_week = days_of_week;
    ship_method = ship_method;
    eligible_path_ids = eligible_path_ids;
  })
