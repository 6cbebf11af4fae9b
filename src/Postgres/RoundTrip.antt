-- ===== src/Postgres/RoundTrip.antt =====
-- What a path looks like after a trip through its row.
use process_path_management.Prelude.{
  ℕ, zero, suc, ◌%◌, ◌/◌, ◌*◌, ◌≤◌, false, subst, sym, ◌≡◌, refl, ◌↔◌, arith, eq_iff,
}
use process_path_management.Prelude.Int.{ℤ, pos, negsuc, neg, quot, scale, +ℤ-zero}
use process_path_management.Shared.{DestinationLocationRole}
use process_path_management.Shared.Platform.{Platform}
use process_path_management.Shared.Eligibility.{Eligibility}
use process_path_management.Errors.{ok}
use process_path_management.ProcessPath.{ProcessPath, active}
use process_path_management.ProcessPath.Validity.{IsValid, IsPositive}
use process_path_management.ProcessPath.Lifecycle.{outcome, revise-unchanged_iff}
use process_path_management.Postgres.Rows.{
  role_to_column, role_from_column, duration_to_interval, interval_to_duration, eligibility_to_row,
  eligibility_to_domain, path_to_row, path_of_row,
}

abbrev pub stored_duration : ℤ → ℤ
stored_duration d = interval_to_duration (duration_to_interval d)

-- Whole microseconds: what the column can hold.
abbrev pub IsWhole : ℤ → Type 0
IsWhole (pos n) = n % 1000 ≡ 0
IsWhole (negsuc n) = suc n % 1000 ≡ 0

pub stored_duration-scale : (d : ℤ) → stored_duration d ≡ scale (quot d 1000) 1000
unfolding interval_to_duration duration_to_interval
stored_duration-scale d = rw (+ℤ-zero, +ℤ-zero)

pub scale-neg : (k : ℕ) → scale (neg k) 1000 ≡ neg (k * 1000)
scale-neg zero = refl
scale-neg (suc k) = refl

neg-negsuc_iff : (m n : ℕ) → (neg m ≡ negsuc n) ↔ (m ≡ suc n)
neg-negsuc_iff zero n = ground arith
neg-negsuc_iff (suc m) n = ground arith

-- A duration survives the column exactly if it is a whole number of microseconds.
pub stored_duration_iff : (d : ℤ) → (stored_duration d ≡ d) ↔ IsWhole d
stored_duration_iff (pos n) = rw (stored_duration-scale (pos n)) (ground arith)
stored_duration_iff (negsuc n) =
    rw (stored_duration-scale (negsuc n), scale-neg (suc n / 1000))
      (ground (arith, neg-negsuc_iff (suc n / 1000 * 1000) n))

-- A microsecond or more.
abbrev pub LongEnough : ℤ → Type 0
LongEnough (pos n) = 1000 ≤ n
LongEnough (negsuc n) = ⊥

negative : (k : ℕ) → IsPositive (neg k) ↔ ⊥
negative zero = ground arith
negative (suc k) = ground arith

stored-IsPositive_iff : (d : ℤ) → IsPositive (stored_duration d) ↔ LongEnough d
stored-IsPositive_iff (pos n) = rw (stored_duration-scale (pos n)) (ground arith)
stored-IsPositive_iff (negsuc n) =
    rw (stored_duration-scale (negsuc n), scale-neg (suc n / 1000)) (negative (suc n / 1000 * 1000))

role_round_trip : (r : DestinationLocationRole) → role_from_column (role_to_column r) ≡ r
unfolding role_from_column role_to_column
role_round_trip r = ground (arith, eq_iff r "")

eligibility_round_trip : (e : Eligibility) → eligibility_to_domain (eligibility_to_row e) ≡ e
unfolding eligibility_to_domain eligibility_to_row
eligibility_round_trip e = refl

-- A path in the precision of its columns.
abbrev pub stored : Platform → ProcessPath → ProcessPath
stored pf p = record p {
  cycle_time_p95 = stored_duration p.cycle_time_p95;
  created_at = pf.stored_time p.created_at;
  updated_at = pf.stored_time p.updated_at;
}

-- A path read back from a fresh row is the path that was saved, but for its times and its cycle
-- time, which come back in the precision of their columns.
pub path_of_row-path_to_row :
    (pf : Platform) (p : ProcessPath) → path_of_row (path_to_row pf p) ≡ stored pf p
unfolding path_of_row path_to_row
path_of_row-path_to_row pf p =
    ground
      (arith, role_round_trip p.destination_location_role, eligibility_round_trip p.eligibility)

module _ (pf : Platform) (p : ProcessPath) where
  abbrev Again : ProcessPath → ℕ → Type 0
  Again q now =
      (outcome pf q p.match_prefix p.required_capabilities p.cycle_time_p95 p.eligibility now
        ≡ ok false)
      ↔ IsWhole p.cycle_time_p95

  again : (now : ℕ) → IsValid pf p → p.status ≡ active → Again (stored pf p) now
  again now v a =
      let iff =
        revise-unchanged_iff pf (stored pf p) p.match_prefix p.required_capabilities
          p.cycle_time_p95 p.eligibility now in
      (
        λ h. (stored_duration_iff p.cycle_time_p95).0 (iff.0 h).1.cycle_time,
        λ w. iff.1 (
          (a, v.definition),
          record {
            prefix = refl;
            capabilities = refl;
            cycle_time = (stored_duration_iff p.cycle_time_p95).1 w;
            rules = refl;
          },
        ),
      )

  -- After a valid, active path was stored and read back, a revision that repeats its definition is
  -- reported as unchanged exactly if its cycle time is a whole number of microseconds.
  pub revise-stored_iff :
      (now : ℕ) → IsValid pf p → p.status ≡ active → Again (path_of_row (path_to_row pf p)) now
  revise-stored_iff now v a =
      subst (λ q. Again q now) (sym (path_of_row-path_to_row pf p)) (again now v a)

  stored-IsValid : IsValid pf p → IsValid pf (stored pf p) ↔ LongEnough p.cycle_time_p95
  stored-IsValid v = (
    λ w. (stored-IsPositive_iff p.cycle_time_p95).0 w.definition.cycle_time_positive,
    λ l. record {
      id_nonempty = v.id_nonempty;
      definition = record {
        prefix_nonempty = v.definition.prefix_nonempty;
        prefix_lowercase = v.definition.prefix_lowercase;
        capabilities_nonempty = v.definition.capabilities_nonempty;
        known_role = v.definition.known_role;
        cycle_time_positive = (stored-IsPositive_iff p.cycle_time_p95).1 l;
      };
    },
  )

  -- A valid path that is stored and read back is valid exactly if its cycle time is a microsecond
  -- or more: a shorter one, which validation lets pass, comes back as zero.
  pub stored-IsValid_iff :
      IsValid pf p → IsValid pf (path_of_row (path_to_row pf p)) ↔ LongEnough p.cycle_time_p95
  stored-IsValid_iff v =
      subst (λ q. IsValid pf q ↔ LongEnough p.cycle_time_p95) (sym (path_of_row-path_to_row pf p))
        (stored-IsValid v)
