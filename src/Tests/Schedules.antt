-- ===== src/Tests/Schedules.antt =====
-- The theorems of the schedule tables at concrete inputs.
use process_path_management.Prelude.{false, ◌≡◌, ◌↔◌, ◌⊎◌, refl, [], ◌∷◌, some}
use process_path_management.Errors.{ok}
use process_path_management.Shared.{SiteId}
use process_path_management.CptSchedule
use process_path_management.CptSchedule.{CptSchedule}
use process_path_management.CptSchedule.Cutoffs.{Cutoff, new_cutoff}
use process_path_management.CptSchedule.CutoffLaws.{IsValid, new_cutoff_iff}
use process_path_management.CptSchedule.LocalTime.{is_valid_local_time}
use process_path_management.CptSchedule.Validity.{IsValidSchedule, outcome, validate_iff}
use process_path_management.UseCases.Schedules.{define_cpt_schedule}
use process_path_management.Transaction.{Session}
use process_path_management.Http.Problems.{Response}
use process_path_management.Postgres.Session.{Tables}
use process_path_management.Postgres.Schedules.{save, find_by_site_id, define_schedule_stored}
use process_path_management.Postgres.CutoffTrip.{in_order}
use process_path_management.Postgres.ScheduleTrip.{
  IsCalm, kept, find_by_site_id-save, revise-saved_iff,
}
use process_path_management.Postgres.ScheduleOutbox.{
  IsScheduleOutcome, define_cpt_schedule-IsStored,
}
use process_path_management.Tests.{platform, cutoff, cpt_schedule}
use process_path_management.Tests.Database.{new_id, encoders, tables, session}

abbrev earlier : Cutoff
earlier = record cutoff { cpt_id = "c0"; local_time = "09:00" }

-- two cutoffs that do not stand in the order of their ids
abbrev two_cutoffs : CptSchedule
two_cutoffs = record cpt_schedule { cutoffs = cutoff ∷ earlier ∷ [] }

abbrev calm_session : Session (Tables Response)
calm_session = record session { faults = [] }

calm_session-IsCalm : IsCalm calm_session
calm_session-IsCalm = record { unaborted = refl; faultless = refl }

cutoff-IsValid : IsValid cutoff
unfolding new_cutoff is_valid_local_time
cutoff-IsValid = ((new_cutoff_iff cutoff cutoff).0 refl).0

earlier-IsValid : IsValid earlier
unfolding new_cutoff is_valid_local_time
earlier-IsValid = ((new_cutoff_iff earlier earlier).0 refl).0

two_cutoffs-IsValidSchedule : IsValidSchedule platform two_cutoffs.timezone two_cutoffs.cutoffs
unfolding CptSchedule.validate CptSchedule.has_duplicate
two_cutoffs-IsValidSchedule =
    (validate_iff platform two_cutoffs.timezone two_cutoffs.cutoffs).0 refl

find_by_site_id-save_example :
    ((save platform two_cutoffs calm_session).0 ≡ ok tt)
    × (find_by_site_id platform "s1" (save platform two_cutoffs calm_session).1
        ≡ ok (some (kept platform two_cutoffs tables)))
    × ((other : SiteId)
        → (other ≡ "s1")
          ⊎ (find_by_site_id platform other (save platform two_cutoffs calm_session).1
              ≡ find_by_site_id platform other calm_session))
find_by_site_id-save_example =
    find_by_site_id-save platform two_cutoffs calm_session calm_session-IsCalm
      two_cutoffs-IsValidSchedule.cutoffs_distinct (cutoff-IsValid, (earlier-IsValid, tt))

revise-saved_iff_example :
    (p : CptSchedule) × (find_by_site_id platform "s1" (save platform two_cutoffs calm_session).1
      ≡ ok (some p))
    × ((outcome platform p two_cutoffs.timezone two_cutoffs.cutoffs 9000 ≡ ok false)
        ↔ (in_order platform two_cutoffs.cutoffs ≡ two_cutoffs.cutoffs))
revise-saved_iff_example =
    revise-saved_iff platform two_cutoffs calm_session 9000 calm_session-IsCalm
      two_cutoffs-IsValidSchedule (cutoff-IsValid, (earlier-IsValid, tt))

define_cpt_schedule-IsStored_example : IsScheduleOutcome platform new_id encoders "s1" session (
    define_cpt_schedule platform
      (define_schedule_stored platform new_id encoders)
      "s1"
      "America/Sao_Paulo"
      (record cutoff { eligible_path_ids = "p1" ∷ [] } ∷ [])
      session)
define_cpt_schedule-IsStored_example =
    define_cpt_schedule-IsStored platform new_id encoders "s1" "America/Sao_Paulo"
      (record cutoff { eligible_path_ids = "p1" ∷ [] } ∷ []) session refl
