-- ===== src/CptSchedule/Equality.antt =====
-- cutoffsEqual of cpt_schedule.go against equality.
use process_path_management.Prelude.{
  String, true, false, ◌≡◌, ◌↔◌, List, [], ◌∷◌, arith, eq_iff, nat_eq, length, ap, Bool-cases, inl,
  inr,
}
use process_path_management.Shared.Eligibility.{string_slices_equal, string_slices_equal_iff}
use process_path_management.CptSchedule.Cutoffs.{Cutoff}
use process_path_management.CptSchedule.{
  weekdays_equal, path_ids_equal, cutoff_equal, cutoffs_equal_from, cutoffs_equal,
}

weekdays_equal_iff : (a b : List String) → (weekdays_equal a b ≡ true) ↔ (a ≡ b)
unfolding weekdays_equal string_slices_equal
weekdays_equal_iff a b = string_slices_equal_iff a b

path_ids_equal_iff : (a b : List String) → (path_ids_equal a b ≡ true) ↔ (a ≡ b)
unfolding path_ids_equal string_slices_equal
path_ids_equal_iff a b = string_slices_equal_iff a b

cutoff_equal_iff : (a b : Cutoff) → (cutoff_equal a b ≡ true) ↔ (a ≡ b)
unfolding cutoff_equal
cutoff_equal_iff a b = ground (
  arith,
  eq_iff a.cpt_id b.cpt_id,
  eq_iff a.local_time b.local_time,
  eq_iff a.ship_method b.ship_method,
  weekdays_equal_iff a.days_of_week b.days_of_week,
  path_ids_equal_iff a.eligible_path_ids b.eligible_path_ids,
)

cutoffs_equal_from_iff :
    (a b : List Cutoff) → length a ≡ length b → (cutoffs_equal_from a b ≡ true) ↔ (a ≡ b)
unfolding cutoffs_equal_from
cutoffs_equal_from_iff [] [] h = ground arith
cutoffs_equal_from_iff [] (y ∷ b) h = absurd (omega arith)
cutoffs_equal_from_iff (x ∷ a) [] h = absurd (omega arith)
cutoffs_equal_from_iff (x ∷ a) (y ∷ b) h =
    ground (arith, cutoff_equal_iff x y, cutoffs_equal_from_iff a b (omega arith))

length-differ : (a b : List Cutoff) → nat_eq (length a) (length b) ≡ false → a ≡ b → ⊥
length-differ a b h e = ground (arith, ap (λ (l : List Cutoff). length l) e)

pub cutoffs_equal_iff : (a b : List Cutoff) → (cutoffs_equal a b ≡ true) ↔ (a ≡ b)
unfolding cutoffs_equal
cutoffs_equal_iff a b = elim (Bool-cases (nat_eq (length a) (length b))) [
  | inl same ↦ rw same (cutoffs_equal_from_iff a b (ground arith))
  | inr differ ↦ rw differ (λ h. cc, λ e. absurd (length-differ a b differ e))
]
