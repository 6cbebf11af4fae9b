-- ===== src/Tests/Domain.antt =====
-- The theorems of the aggregates, of the problems and of the analytics at concrete inputs.
use process_path_management.Prelude.{ℕ, ◌<◌, true, [], ◌∷◌, ◌≡◌, ◌↔◌, refl}
use process_path_management.Prelude.Int.{pos}
use process_path_management.Errors.{ok}
use process_path_management.Shared.{parse_destination_location_role}
use process_path_management.Shared.Platform.{to_lower}
use process_path_management.ProcessPath
use process_path_management.ProcessPath.{ProcessPath, deactivate, revise}
use process_path_management.ProcessPath.Equality.{SameDefinition}
use process_path_management.ProcessPath.Validity.{IsValid, defined, define_iff}
use process_path_management.ProcessPath.Lifecycle.{outcome, Accepted, revise-changed_iff}
use process_path_management.ProcessPath.History.{
  Reach, here, next, revising, deactivating, IsLater, Reach-IsLater,
}
use process_path_management.CptSchedule
use process_path_management.CptSchedule.LocalTime.{
  bytes, clock, is_valid_local_time, is_valid_local_time_iff,
}
use process_path_management.CptSchedule.Validity.{IsValidSchedule, define-IsValidSchedule_iff}
use process_path_management.Tests.{platform, rules, sample_path, cutoff, cpt_schedule}

define_iff_example :
    (ProcessPath.define platform "p1" "pick" true
        ("forklift" ∷ [])
        ""
        (pos 1800000000000)
        rules
        7000
      ≡ ok sample_path)
    ↔ (IsValid platform
          (defined platform "p1" "pick" true ("forklift" ∷ []) "" (pos 1800000000000) rules 7000)
        × (sample_path
            ≡ defined platform "p1" "pick" true
                ("forklift" ∷ [])
                ""
                (pos 1800000000000)
                rules
                7000))
define_iff_example =
    define_iff platform "p1" "pick" true ("forklift" ∷ []) "" (pos 1800000000000) rules 7000
      sample_path

sample-IsValid : IsValid platform sample_path
unfolding ProcessPath.define ProcessPath.validate to_lower parse_destination_location_role
sample-IsValid = (define_iff_example.0 refl).0

revise-changed_iff_example :
    (outcome platform sample_path "pack" ("forklift" ∷ []) (pos 500) rules 9000 ≡ ok true) ↔ (
      Accepted platform sample_path "pack" ("forklift" ∷ []) (pos 500) rules 9000
      × (¬ SameDefinition sample_path "pack" ("forklift" ∷ []) (pos 500) rules))
revise-changed_iff_example =
    revise-changed_iff platform sample_path "pack" ("forklift" ∷ []) (pos 500) rules 9000

abbrev deactivated_path : ProcessPath
deactivated_path =
    deactivate (revise platform sample_path "pack" ("forklift" ∷ []) (pos 500) rules 9000).1 9500

abbrev two_steps : Reach platform sample_path deactivated_path
two_steps = next (next here (revising sample_path "pack" ("forklift" ∷ []) (pos 500) rules 9000)) (
    deactivating (revise platform sample_path "pack" ("forklift" ∷ []) (pos 500) rules 9000).1 9500)

Reach-IsLater_example : IsLater platform sample_path deactivated_path
Reach-IsLater_example = Reach-IsLater platform two_steps

is_valid_local_time_iff_example :
    (is_valid_local_time "23:59" ≡ true)
    ↔ ((h : ℕ) × (m : ℕ) × (h < 24) × (m < 60) × (bytes "23:59" ≡ clock h m))
is_valid_local_time_iff_example = is_valid_local_time_iff "23:59"

define-IsValidSchedule_iff_example :
    (CptSchedule.define platform "s1" "America/Sao_Paulo" (cutoff ∷ []) 7000 ≡ ok cpt_schedule)
    ↔ (IsValidSchedule platform "America/Sao_Paulo" (cutoff ∷ []) × (cpt_schedule ≡ cpt_schedule))
define-IsValidSchedule_iff_example =
    define-IsValidSchedule_iff platform "s1" "America/Sao_Paulo" (cutoff ∷ []) 7000 cpt_schedule
