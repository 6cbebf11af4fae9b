-- ===== src/ProcessPath/Validity.antt =====
-- What `validate` and `Define` accept, and what they build.
use process_path_management.Prelude.{
  ℕ, ◌<◌, String, Bool, ◌≡◌, ◌≢◌, ◌↔◌, ◌⊎◌, List, [], ◌∷◌, arith, eq_iff,
}
use process_path_management.Prelude.Int.{ℤ, pos, negsuc}
use process_path_management.Errors.{ok}
use process_path_management.Shared.{
  PathId, Capability, DestinationLocationRole, parse_destination_location_role,
}
use process_path_management.Shared.Platform.{Platform, to_lower}
use process_path_management.Shared.Eligibility.{Eligibility}
use process_path_management.ProcessPath.{ProcessPath, active, validate, define}

abbrev pub IsRole : DestinationLocationRole → Type 0
IsRole r = (r ≡ "") ⊎ ((r ≡ "Drop") ⊎ ((r ≡ "WorkCenter") ⊎ (r ≡ "Shipping")))

abbrev pub IsPositive : ℤ → Type 0
IsPositive (pos n) = 0 < n
IsPositive (negsuc n) = ⊥

module _ (pf : Platform) where
  pub record IsValidDefinition (match_prefix : String) (required_capabilities : List Capability)
      (role : DestinationLocationRole) (cycle_time_p95 : ℤ) : Type 0 where
    pub prefix_nonempty : match_prefix ≢ ""
    pub prefix_lowercase : match_prefix ≡ to_lower pf match_prefix
    pub capabilities_nonempty : required_capabilities ≢ []
    pub known_role : IsRole role
    pub cycle_time_positive : IsPositive cycle_time_p95

  -- The invariant of the aggregate.
  pub record IsValid (p : ProcessPath) : Type 0 where
    pub id_nonempty : p.id ≢ ""
    pub definition :
        IsValidDefinition p.match_prefix p.required_capabilities p.destination_location_role
          p.cycle_time_p95

  pub validate_iff :
      (match_prefix : String) (required_capabilities : List Capability)
      (role : DestinationLocationRole) (cycle_time_p95 : ℤ)
      → (validate pf match_prefix required_capabilities role cycle_time_p95 ≡ ok tt)
        ↔ IsValidDefinition match_prefix required_capabilities role cycle_time_p95
  unfolding validate parse_destination_location_role
  validate_iff match_prefix [] role t = ground (arith, eq_iff match_prefix "")
  validate_iff match_prefix (c ∷ cs) role (negsuc n) = ground (arith, eq_iff match_prefix "")
  validate_iff match_prefix (c ∷ cs) role (pos n) = ground (
    arith,
    eq_iff match_prefix "",
    eq_iff match_prefix (to_lower pf match_prefix),
    eq_iff role "",
    eq_iff role "Drop",
    eq_iff role "WorkCenter",
    eq_iff role "Shipping",
  )

  module _ (id : PathId) (match_prefix : String) (direct : Bool)
      (required_capabilities : List Capability) (role : DestinationLocationRole)
      (cycle_time_p95 : ℤ) (eligibility : Eligibility) (now : ℕ) where
    abbrev pub defined : ProcessPath
    defined = record {
      id = id;
      match_prefix = match_prefix;
      direct = direct;
      required_capabilities = required_capabilities;
      destination_location_role = role;
      cycle_time_p95 = cycle_time_p95;
      eligibility = eligibility;
      status = active;
      created_at = now;
      updated_at = now;
    }

    -- `Define` succeeds exactly on a non-empty id and a valid definition, and the path that it
    -- returns is active, holds the arguments and carries `now` as both of its times.
    pub define_iff :
        (p : ProcessPath)
        → (define pf id match_prefix direct required_capabilities role cycle_time_p95 eligibility
              now
            ≡ ok p)
          ↔ (IsValid defined × (p ≡ defined))
    unfolding define
    define_iff p =
        ground
          (arith, eq_iff id "", validate_iff match_prefix required_capabilities role cycle_time_p95)
