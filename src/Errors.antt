-- ===== src/Errors.antt =====
-- Go's `error` values: one constructor for each sentinel that internal/domain and
-- internal/application/usecases declare, and `other` for an error that `errors.Is` finds none of
-- them in (a driver's, a broker's). A Go function's `(value, error)` is a `Result`.
use process_path_management.Prelude.{String, Bool, true, false, ◌≡◌, refl, ◌⊎◌, inl, inr}

pub data Error : Type 0 where
  -- internal/domain/processpath/process_path.go
  empty_path_id empty_match_prefix match_prefix_not_lowercase no_required_capabilities : Error
  invalid_cycle_time path_deactivated : Error
  -- internal/domain/shared/shared.go
  invalid_destination_location_role : Error
  -- internal/domain/cptschedule/cpt_schedule.go
  empty_timezone invalid_timezone no_cutoffs empty_cpt_id duplicate_cpt_id : Error
  empty_local_time invalid_local_time no_days_of_week invalid_day_of_week : Error
  empty_ship_method no_eligible_path_ids : Error
  -- internal/application/usecases/errors.go
  path_already_exists path_not_found cpt_schedule_not_found ineligible_path_id : Error
  other : String → Error

-- err.Error()
abbrev pub error_text : Error → String
error_text invalid_destination_location_role =
    "shared: destinationLocationRole must be one of Drop, WorkCenter, Shipping, or empty"
error_text empty_path_id = "processpath: pathId must not be empty"
error_text empty_match_prefix = "processpath: matchPrefix must not be empty"
error_text match_prefix_not_lowercase = "processpath: matchPrefix must be lower-case"
error_text no_required_capabilities = "processpath: requiredCapabilities must be non-empty"
error_text invalid_cycle_time = "processpath: cycleTimeP95 must be positive"
error_text path_deactivated = "processpath: path is deactivated"
error_text empty_timezone = "cptschedule: timezone must not be empty"
error_text invalid_timezone = "cptschedule: timezone is not a recognized IANA zone"
error_text no_cutoffs = "cptschedule: at least one cutoff is required"
error_text empty_cpt_id = "cptschedule: cptId must not be empty"
error_text duplicate_cpt_id = "cptschedule: cptId must be unique within a site"
error_text empty_local_time = "cptschedule: localTime must not be empty"
error_text invalid_local_time = "cptschedule: localTime must be in HH:MM 24-hour form"
error_text no_days_of_week = "cptschedule: daysOfWeek must be non-empty"
error_text invalid_day_of_week = "cptschedule: daysOfWeek entries must be one of Mon..Sun"
error_text empty_ship_method = "cptschedule: shipMethod must not be empty"
error_text no_eligible_path_ids = "cptschedule: eligiblePathIds must be non-empty"
error_text path_already_exists = "usecases: process path already exists"
error_text path_not_found = "usecases: process path not found"
error_text cpt_schedule_not_found = "usecases: cpt schedule not found"
error_text ineligible_path_id = "usecases: eligiblePathIds must reference an Active process path"
error_text (other m) = m

pub data Result {ℓ} (A : Type ℓ) : Type ℓ where
  err : Error → Result A
  ok : A → Result A

infixl 5 ◌>>=◌ ◌>>◌
-- `if err != nil { return err }` after a call
abbrev pub ◌>>=◌ {ℓ ℓ'} :
    {Got : Type ℓ} {Made : Type ℓ'} → Result Got → (Got → Result Made) → Result Made
err failure >>= use_it = err failure
ok got >>= use_it = use_it got

abbrev pub ◌>>◌ {ℓ} : {Made : Type ℓ} → Result (Unit {0}) → Result Made → Result Made
err failure >> following = err failure
ok _ >> following = following

-- `if !test { return err }`
abbrev pub require : Bool → Error → Result (Unit {0})
require true e = ok tt
require false e = err e

pub Result-cases {ℓ} :
    {A : Type ℓ} (r : Result A) → ((e : Error) × (r ≡ err e)) ⊎ ((a : A) × (r ≡ ok a))
Result-cases (ok a) = inr (a, refl)
Result-cases (err e) = inl (e, refl)
