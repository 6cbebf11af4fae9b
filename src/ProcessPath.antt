-- ===== src/ProcessPath.antt =====
-- internal/domain/processpath/process_path.go: the ProcessPath aggregate. A method that assigns to
-- the fields of its receiver returns the new value beside its results.
pub mod Equality
pub mod Validity
pub mod Lifecycle
pub mod History
use process_path_management.Prelude.{
  ℕ, String, Bool, true, false, not, ◌&&◌, List, [], ◌∷◌, ◌==◌, length, nat_eq, if◌then◌else◌,
}
use process_path_management.Prelude.Int.{ℤ, int_eq, is_pos}
use process_path_management.Errors.{
  Error, Result, ok, err, ◌>>=◌, ◌>>◌, require, empty_path_id, empty_match_prefix,
  match_prefix_not_lowercase, no_required_capabilities, invalid_cycle_time, path_deactivated,
}
use process_path_management.Shared.{
  PathId, Capability, DestinationLocationRole, parse_destination_location_role,
}
use process_path_management.Shared.Platform.{Platform, to_lower}
use process_path_management.Shared.Eligibility.{Eligibility, equal, same_from}

pub data Status : Type 0 where
  active deactivated : Status

-- `p.status == StatusActive`
abbrev pub is_active_status : Status → Bool
is_active_status active = true
is_active_status deactivated = false

-- Durations are nanoseconds, times are nanoseconds since the zero Time.
pub record ProcessPath : Type 0 where
  pub id : PathId
  pub match_prefix : String
  pub direct : Bool
  pub required_capabilities : List Capability
  pub destination_location_role : DestinationLocationRole
  pub cycle_time_p95 : ℤ
  pub eligibility : Eligibility
  pub status : Status
  pub created_at : ℕ
  pub updated_at : ℕ

abbrev pub is_active : ProcessPath → Bool
is_active p = is_active_status p.status

abbrev is_empty : List Capability → Bool
is_empty [] = true
is_empty (_ ∷ _) = false

unfoldable pub capabilities_equal : List Capability → List Capability → Bool
capabilities_equal a b = if nat_eq (length a) (length b) then same_from a b else false

-- the comparison that makes a revision a no-op
unfoldable pub same_definition : ProcessPath → String → List Capability → ℤ → Eligibility → Bool
same_definition p match_prefix required_capabilities cycle_time_p95 eligibility =
    p.match_prefix == match_prefix
    && (capabilities_equal p.required_capabilities required_capabilities
        && (int_eq p.cycle_time_p95 cycle_time_p95 && equal p.eligibility eligibility))

module _ (pf : Platform) where
  unfoldable pub validate :
      String → List Capability → DestinationLocationRole → ℤ → Result (Unit {0})
  validate match_prefix required_capabilities role cycle_time_p95 = do
    require (not (match_prefix == "")) empty_match_prefix
    require (match_prefix == to_lower pf match_prefix) match_prefix_not_lowercase
    require (not (is_empty required_capabilities)) no_required_capabilities
    _ ← parse_destination_location_role role
    require (is_pos cycle_time_p95) invalid_cycle_time

  unfoldable pub define :
      PathId
      → String
      → Bool
      → List Capability
      → DestinationLocationRole
      → ℤ
      → Eligibility
      → ℕ
      → Result ProcessPath
  define id match_prefix direct required_capabilities role cycle_time_p95 eligibility now = do
    require (not (id == "")) empty_path_id
    validate match_prefix required_capabilities role cycle_time_p95
    ok (record {
      id = id;
      match_prefix = match_prefix;
      direct = direct;
      required_capabilities = required_capabilities;
      destination_location_role = role;
      cycle_time_p95 = cycle_time_p95;
      eligibility = eligibility;
      status = active;
      created_at = now;
      updated_at = now;
    })

  -- The result is `changed`, or the error; the receiver after the call stands beside it.
  unfoldable pub revise :
      ProcessPath → String → List Capability → ℤ → Eligibility → ℕ → Result Bool × ProcessPath
  revise p match_prefix required_capabilities cycle_time_p95 eligibility now =
      if not (is_active p)
      then (err path_deactivated, p)
      else elim (validate match_prefix required_capabilities p.destination_location_role
          cycle_time_p95) [
            | err e ↦ (err e, p)
            | ok _ ↦
                if same_definition p match_prefix required_capabilities cycle_time_p95 eligibility
                then (ok false, p)
                else (
                  ok true,
                  record p {
                    match_prefix = match_prefix;
                    required_capabilities = required_capabilities;
                    cycle_time_p95 = cycle_time_p95;
                    eligibility = eligibility;
                    updated_at = now;
                  },
                )
          ]

unfoldable pub deactivate : ProcessPath → ℕ → ProcessPath
deactivate p now =
    if not (is_active p) then p else record p { status = deactivated; updated_at = now }
