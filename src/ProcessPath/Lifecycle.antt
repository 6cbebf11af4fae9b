-- ===== src/ProcessPath/Lifecycle.antt =====
-- Revise of process_path.go: its outcomes, and the path after it.
use process_path_management.Prelude.{ℕ, String, Bool, true, false, ◌≡◌, ◌≢◌, ◌↔◌, List, arith}
use process_path_management.Prelude.Int.{ℤ}
use process_path_management.Errors.{Result, ok}
use process_path_management.Shared.{Capability}
use process_path_management.Shared.Platform.{Platform}
use process_path_management.Shared.Eligibility.{Eligibility}
use process_path_management.ProcessPath.{ProcessPath, active, revise}
use process_path_management.ProcessPath.Equality.{SameDefinition, same_definition_iff}
use process_path_management.ProcessPath.Validity.{IsValid, IsValidDefinition, validate_iff}

module _ (pf : Platform) (p : ProcessPath) (match_prefix : String)
    (required_capabilities : List Capability) (cycle_time_p95 : ℤ) (eligibility : Eligibility)
    (now : ℕ) where
  abbrev pub outcome : Result Bool
  outcome = (revise pf p match_prefix required_capabilities cycle_time_p95 eligibility now).0

  abbrev pub after : ProcessPath
  after = (revise pf p match_prefix required_capabilities cycle_time_p95 eligibility now).1

  abbrev pub revised : ProcessPath
  revised = record p {
    match_prefix = match_prefix;
    required_capabilities = required_capabilities;
    cycle_time_p95 = cycle_time_p95;
    eligibility = eligibility;
    updated_at = now;
  }

  abbrev pub Accepted : Type 0
  Accepted =
      (p.status ≡ active)
      × IsValidDefinition pf match_prefix required_capabilities p.destination_location_role
          cycle_time_p95

  -- A revision reports a change exactly if the path is active, the new definition is valid and it
  -- differs from the old one in at least one of its four parts.
  pub revise-changed_iff : (outcome ≡ ok true) ↔ (
      Accepted × (¬ SameDefinition p match_prefix required_capabilities cycle_time_p95 eligibility))
  unfolding revise
  revise-changed_iff = ground (
    arith,
    validate_iff pf match_prefix required_capabilities p.destination_location_role cycle_time_p95,
    same_definition_iff p match_prefix required_capabilities cycle_time_p95 eligibility,
  )

  pub revise-unchanged_iff :
      (outcome ≡ ok false)
      ↔ (Accepted × SameDefinition p match_prefix required_capabilities cycle_time_p95 eligibility)
  unfolding revise
  revise-unchanged_iff = ground (
    arith,
    validate_iff pf match_prefix required_capabilities p.destination_location_role cycle_time_p95,
    same_definition_iff p match_prefix required_capabilities cycle_time_p95 eligibility,
  )

  pub after-changed : outcome ≡ ok true → after ≡ revised
  unfolding revise
  after-changed h = ground arith

  pub after-unchanged : outcome ≢ ok true → after ≡ p
  unfolding revise
  after-unchanged h = ground arith

  -- Whatever the arguments and the outcome, a revision of a valid path leaves a valid path.
  pub revise-IsValid : IsValid pf p → IsValid pf after
  unfolding revise
  revise-IsValid v = ground (
    arith,
    validate_iff pf match_prefix required_capabilities p.destination_location_role cycle_time_p95,
  )
