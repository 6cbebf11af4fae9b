-- ===== src/ProcessPath/Equality.antt =====
-- The comparisons of process_path.go against equality.
use process_path_management.Prelude.{String, true, ◌≡◌, ◌↔◌, List, arith, eq_iff}
use process_path_management.Prelude.Int.{ℤ, int_eq_iff}
use process_path_management.Shared.{Capability}
use process_path_management.Shared.Eligibility.{
  Eligibility, equal_iff, string_slices_equal, string_slices_equal_iff,
}
use process_path_management.ProcessPath.{ProcessPath, capabilities_equal, same_definition}

capabilities_equal-string_slices_equal :
    (a b : List Capability) → capabilities_equal a b ≡ string_slices_equal a b
unfolding capabilities_equal string_slices_equal
capabilities_equal-string_slices_equal a b = ground arith

capabilities_equal_iff : (a b : List Capability) → (capabilities_equal a b ≡ true) ↔ (a ≡ b)
capabilities_equal_iff a b =
    ground (arith, capabilities_equal-string_slices_equal a b, string_slices_equal_iff a b)

-- What a revision may change agrees with what the path holds.
pub record SameDefinition (p : ProcessPath) (match_prefix : String)
    (required_capabilities : List Capability) (cycle_time_p95 : ℤ) (eligibility : Eligibility)
    : Type 0 where
  pub prefix : p.match_prefix ≡ match_prefix
  pub capabilities : p.required_capabilities ≡ required_capabilities
  pub cycle_time : p.cycle_time_p95 ≡ cycle_time_p95
  pub rules : p.eligibility ≡ eligibility

pub same_definition_iff :
    (p : ProcessPath) (match_prefix : String) (required_capabilities : List Capability)
    (cycle_time_p95 : ℤ) (eligibility : Eligibility)
    → (same_definition p match_prefix required_capabilities cycle_time_p95 eligibility ≡ true)
      ↔ SameDefinition p match_prefix required_capabilities cycle_time_p95 eligibility
unfolding same_definition
same_definition_iff p match_prefix required_capabilities cycle_time_p95 eligibility = ground (
  arith,
  eq_iff p.match_prefix match_prefix,
  capabilities_equal_iff p.required_capabilities required_capabilities,
  int_eq_iff p.cycle_time_p95 cycle_time_p95,
  equal_iff p.eligibility eligibility,
)
