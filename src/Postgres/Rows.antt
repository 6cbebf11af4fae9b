-- ===== src/Postgres/Rows.antt =====
-- The rows of process_path_repo.go: a path as the columns of its row, and back.
use process_path_management.Prelude.{
  ℕ, String, Bool, true, List, Option, none, some, ◌==◌, if◌then◌else◌,
}
use process_path_management.Prelude.Int.{ℤ, pos, quot, scale, ◌+ℤ◌}
use process_path_management.Shared.{DestinationLocationRole, role_unset}
use process_path_management.Shared.Platform.{Platform}
use process_path_management.Shared.Eligibility.{Eligibility, new_eligibility}
use process_path_management.ProcessPath.{ProcessPath, Status}

-- pgtype.Interval
pub record Interval : Type 0 where
  pub microseconds : ℤ
  pub days : ℤ
  pub months : ℤ
  pub valid : Bool

pub record EligibilityRow : Type 0 where
  pub max_units_per_line : Option ℤ
  pub required_product_attributes : List String
  pub excluded_product_attributes : List String
  pub non_sortable : Bool

pub record PathRow : Type 0 where
  pub id : String
  pub match_prefix : String
  pub direct : Bool
  pub required_capabilities : List String
  pub destination_location_role : Option String
  pub cycle_time_p95 : Interval
  pub eligibility : EligibilityRow
  pub status : Status
  pub created_at : ℕ
  pub updated_at : ℕ

unfoldable pub role_to_column : DestinationLocationRole → Option String
role_to_column role = if role == role_unset then none else some role

unfoldable pub role_from_column : Option String → DestinationLocationRole
role_from_column none = role_unset
role_from_column (some v) = v

-- int64(d / time.Microsecond)
unfoldable pub duration_to_interval : ℤ → Interval
duration_to_interval d = record {
  microseconds = quot d 1000;
  days = pos 0;
  months = pos 0;
  valid = true;
}

-- in nanoseconds; the sums of a row that this service wrote stay within int64
unfoldable pub interval_to_duration : Interval → ℤ
interval_to_duration iv =
    if iv.valid
    then scale iv.microseconds 1000
      +ℤ scale iv.days 86400000000000
      +ℤ scale iv.months 2592000000000000
    else pos 0

unfoldable pub eligibility_to_row : Eligibility → EligibilityRow
eligibility_to_row e = record {
  max_units_per_line = e.max_units_per_line;
  required_product_attributes = e.required_product_attributes;
  excluded_product_attributes = e.excluded_product_attributes;
  non_sortable = e.non_sortable;
}

unfoldable pub eligibility_to_domain : EligibilityRow → Eligibility
eligibility_to_domain r =
    new_eligibility r.max_units_per_line r.required_product_attributes r.excluded_product_attributes
      r.non_sortable

-- the arguments of the INSERT of Save
unfoldable pub path_to_row : Platform → ProcessPath → PathRow
path_to_row pf p = record {
  id = p.id;
  match_prefix = p.match_prefix;
  direct = p.direct;
  required_capabilities = p.required_capabilities;
  destination_location_role = role_to_column p.destination_location_role;
  cycle_time_p95 = duration_to_interval p.cycle_time_p95;
  eligibility = eligibility_to_row p.eligibility;
  status = p.status;
  created_at = pf.stored_time p.created_at;
  updated_at = pf.stored_time p.updated_at;
}

-- ON CONFLICT (id) DO UPDATE: the columns that an update overwrites
unfoldable pub upsert_row : Option PathRow → PathRow → PathRow
upsert_row none excluded = excluded
upsert_row (some old) excluded = record old {
  match_prefix = excluded.match_prefix;
  required_capabilities = excluded.required_capabilities;
  cycle_time_p95 = excluded.cycle_time_p95;
  eligibility = excluded.eligibility;
  status = excluded.status;
  updated_at = excluded.updated_at;
}

-- scanProcessPath and Rehydrate
unfoldable pub path_of_row : PathRow → ProcessPath
path_of_row r = record {
  id = r.id;
  match_prefix = r.match_prefix;
  direct = r.direct;
  required_capabilities = r.required_capabilities;
  destination_location_role = role_from_column r.destination_location_role;
  cycle_time_p95 = interval_to_duration r.cycle_time_p95;
  eligibility = eligibility_to_domain r.eligibility;
  status = r.status;
  created_at = r.created_at;
  updated_at = r.updated_at;
}
