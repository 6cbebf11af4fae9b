-- ===== src/CptSchedule/CutoffLaws.antt =====
-- NewCutoff of cpt_schedule.go against the invariant of a cutoff.
use process_path_management.Prelude.{
  ℕ, ◌<◌, String, true, ◌≡◌, ◌≢◌, ◌↔◌, List, [], ◌∷◌, arith, eq_iff, elem, elem_iff, In, all, All,
}
use process_path_management.Errors.{ok}
use process_path_management.CptSchedule.Cutoffs.{Cutoff, Weekday, valid_weekdays, new_cutoff}
use process_path_management.CptSchedule.LocalTime.{
  bytes, clock, is_valid_local_time, is_valid_local_time_iff,
}

-- The invariant of a cutoff.
pub record IsValid (c : Cutoff) : Type 0 where
  pub id_nonempty : c.cpt_id ≢ ""
  pub clock_time : (h : ℕ) × (m : ℕ) × (h < 24) × (m < 60) × (bytes c.local_time ≡ clock h m)
  pub days_nonempty : c.days_of_week ≢ []
  pub days_known : All (λ d. In d valid_weekdays) c.days_of_week
  pub method_nonempty : c.ship_method ≢ ""
  pub paths_nonempty : c.eligible_path_ids ≢ []

all_weekdays_iff :
    (ds : List Weekday)
    → (all (λ d. elem d valid_weekdays) ds ≡ true) ↔ All (λ d. In d valid_weekdays) ds
all_weekdays_iff [] = ground arith
all_weekdays_iff (d ∷ ds) = ground (arith, elem_iff d valid_weekdays, all_weekdays_iff ds)

local_time_nonempty : (s : String) → is_valid_local_time s ≡ true → s ≢ ""
unfolding is_valid_local_time
local_time_nonempty String.[] h e = cc
local_time_nonempty (String.◌∷◌ c s) h e = cc (e)

-- NewCutoff succeeds exactly on a cutoff that meets the invariant, and returns its arguments.
pub new_cutoff_iff :
    (c d : Cutoff)
    → (new_cutoff c.cpt_id c.local_time c.days_of_week c.ship_method c.eligible_path_ids ≡ ok d)
      ↔ (IsValid c × (d ≡ c))
unfolding new_cutoff
new_cutoff_iff c d = ground (
  arith,
  eq_iff c.cpt_id "",
  eq_iff c.local_time "",
  is_valid_local_time_iff c.local_time,
  local_time_nonempty c.local_time,
  all_weekdays_iff c.days_of_week,
  eq_iff c.ship_method "",
)
