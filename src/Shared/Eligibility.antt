-- ===== src/Shared/Eligibility.antt =====
-- internal/domain/shared/eligibility.go. A `*int` is an `Option ℤ`; the copies that the
-- constructor and the accessors make are the values themselves, since no list is ever written to.
use process_path_management.Prelude.{
  String, Bool, true, false, not, ◌&&◌, ◌≡◌, ◌↔◌, Option, none, some, List, [], ◌∷◌, arith, ◌==◌,
  eq_iff, length, nat_eq, is_some, Bool-cases, inl, inr, ap, if◌then◌else◌,
}
use process_path_management.Prelude.Int.{ℤ, int_eq, int_eq_iff}

pub record Eligibility : Type 0 where
  pub max_units_per_line : Option ℤ
  pub required_product_attributes : List String
  pub excluded_product_attributes : List String
  pub non_sortable : Bool

abbrev pub new_eligibility : Option ℤ → List String → List String → Bool → Eligibility
new_eligibility m req exc n = record {
  max_units_per_line = m;
  required_product_attributes = req;
  excluded_product_attributes = exc;
  non_sortable = n;
}

-- The zero value.
abbrev pub no_eligibility : Eligibility
no_eligibility = new_eligibility none [] [] false

-- the loop over the indices of `a`; a missing `b[i]` would be a panic
unfoldable pub same_from : List String → List String → Bool
same_from [] b = true
same_from (x ∷ a) [] = false
same_from (x ∷ a) (y ∷ b) = x == y && same_from a b

unfoldable pub string_slices_equal : List String → List String → Bool
string_slices_equal a b = if nat_eq (length a) (length b) then same_from a b else false

abbrev pub bool_eq : Bool → Bool → Bool
bool_eq true b = b
bool_eq false b = not b

-- `*e.max != *other.max`, read only where both are set
abbrev same_max : Option ℤ → Option ℤ → Bool
same_max (some m) (some n) = int_eq m n
same_max _ _ = true

unfoldable pub equal : Eligibility → Eligibility → Bool
equal e o =
    if not (bool_eq (is_some e.max_units_per_line) (is_some o.max_units_per_line))
    then false
    else if not (same_max e.max_units_per_line o.max_units_per_line)
    then false
    else if not (bool_eq e.non_sortable o.non_sortable)
    then false
    else string_slices_equal e.required_product_attributes o.required_product_attributes
      && string_slices_equal e.excluded_product_attributes o.excluded_product_attributes

length-differ : (a b : List String) → nat_eq (length a) (length b) ≡ false → a ≡ b → ⊥
length-differ a b h e = ground (arith, ap (λ (l : List String). length l) e)

same_from_iff : (a b : List String) → length a ≡ length b → (same_from a b ≡ true) ↔ (a ≡ b)
unfolding same_from
same_from_iff [] [] h = ground arith
same_from_iff [] (y ∷ b) h = absurd (omega arith)
same_from_iff (x ∷ a) [] h = absurd (omega arith)
same_from_iff (x ∷ a) (y ∷ b) h = ground (arith, eq_iff x y, same_from_iff a b (omega arith))

pub string_slices_equal_iff : (a b : List String) → (string_slices_equal a b ≡ true) ↔ (a ≡ b)
unfolding string_slices_equal
string_slices_equal_iff a b = elim (Bool-cases (nat_eq (length a) (length b))) [
  | inl same ↦ rw same (same_from_iff a b (ground arith))
  | inr differ ↦ rw differ (λ h. cc, λ e. absurd (length-differ a b differ e))
]

same_max_iff : (m n : Option ℤ) → is_some m ≡ is_some n → (same_max m n ≡ true) ↔ (m ≡ n)
same_max_iff (some m) (some n) h = ground (arith, int_eq_iff m n)
same_max_iff (some m) none h = ground arith
same_max_iff none (some n) h = ground arith
same_max_iff none none h = ground arith

-- `Equal` decides equality of all four fields.
pub equal_iff : (e o : Eligibility) → (equal e o ≡ true) ↔ (e ≡ o)
unfolding equal
equal_iff e o = ground (
  arith,
  same_max_iff e.max_units_per_line o.max_units_per_line,
  string_slices_equal_iff e.required_product_attributes o.required_product_attributes,
  string_slices_equal_iff e.excluded_product_attributes o.excluded_product_attributes,
)
