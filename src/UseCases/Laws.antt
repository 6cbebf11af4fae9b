-- ===== src/UseCases/Laws.antt =====
-- Which schedules pass the check of their paths against the store.
use process_path_management.Prelude.{
  true, ◌≡◌, refl, ◌↔◌, inl, inr, List, [], ◌∷◌, none, some, arith, elem, elem_iff, In, Bool-cases,
  subst,
}
use process_path_management.Errors.{ok, Result-cases}
use process_path_management.Shared.{PathId}
use process_path_management.Ports.{ProcessPathRepo}
use process_path_management.ProcessPath.{ProcessPath, is_active}
use process_path_management.CptSchedule.Cutoffs.{Cutoff}
use process_path_management.CptSchedule.Eligible.{InCutoffs}
use process_path_management.UseCases.Schedules.{
  check_one, check_ids, check_cutoffs, validate_eligible_path_ids,
}

module _ {S : Type 0} (repo : ProcessPathRepo S) (s : S) where
  -- The store finds the path, and it is active.
  abbrev pub IsEligible : PathId → Type 0
  IsEligible id = (p : ProcessPath) × (repo.find_by_id id s ≡ ok (some p)) × (is_active p ≡ true)

  abbrev AllIn : List PathId → Type 0
  AllIn ids = (a : PathId) → In a ids → IsEligible a

  check_one-IsEligible : (id : PathId) → check_one repo id s ≡ ok tt → IsEligible id
  check_one-IsEligible id h = elim (Result-cases (repo.find_by_id id s)) [
    | inl (e, found) ↦ ground arith
    | inr (none, found) ↦ ground arith
    | inr (some p, found) ↦ (p, found, ground arith)
  ]

  IsEligible-check_one : (id : PathId) → IsEligible id → check_one repo id s ≡ ok tt
  IsEligible-check_one id (p, found, live) = ground arith

  AllIn-cons : (id : PathId) (ids : List PathId) → IsEligible id → AllIn ids → AllIn (id ∷ ids)
  AllIn-cons id ids one rest a (inl e) = subst IsEligible e one
  AllIn-cons id ids one rest a (inr i) = rest a i

  check_ids-AllIn :
      (checked ids out : List PathId)
      → AllIn checked
      → check_ids repo s checked ids ≡ ok out
      → AllIn ids × AllIn out
  unfolding check_ids
  check_ids-AllIn checked [] out old h =
      let same : checked ≡ out = cc in (λ a i. absurd i, subst AllIn same old)
  check_ids-AllIn checked (id ∷ ids) out old h = elim (Bool-cases (elem id checked)) [
    | inl seen ↦
        let (rest, done) = check_ids-AllIn checked ids out old (ground arith) in
        (AllIn-cons id ids (old id ((elem_iff id checked).0 seen)) rest, done)
    | inr new ↦
        let one = check_one-IsEligible id (ground arith) in
        let (rest, done) =
          check_ids-AllIn (id ∷ checked) ids out (AllIn-cons id checked one old) (ground arith) in
        (AllIn-cons id ids one rest, done)
  ]

  AllIn-check_ids :
      (checked ids : List PathId)
      → AllIn ids
      → (out : List PathId) × (check_ids repo s checked ids ≡ ok out)
  unfolding check_ids
  AllIn-check_ids checked [] every = (checked, refl)
  AllIn-check_ids checked (id ∷ ids) every = elim (Bool-cases (elem id checked)) [
    | inl seen ↦
        let (out, done) = AllIn-check_ids checked ids (λ a i. every a (inr i)) in
        (out, ground arith)
    | inr new ↦
        let one = IsEligible-check_one id (every id (inl refl)) in
        let (out, done) = AllIn-check_ids (id ∷ checked) ids (λ a i. every a (inr i)) in
        (out, ground arith)
  ]

  abbrev AllInCutoffs : List Cutoff → Type 0
  AllInCutoffs cutoffs = (a : PathId) → InCutoffs a cutoffs → IsEligible a

  check_cutoffs-AllInCutoffs :
      (checked : List PathId) (cutoffs : List Cutoff)
      → AllIn checked
      → check_cutoffs repo s checked cutoffs ≡ ok tt
      → AllInCutoffs cutoffs
  unfolding check_cutoffs
  check_cutoffs-AllInCutoffs checked [] old h = λ a i. absurd i
  check_cutoffs-AllInCutoffs checked (c ∷ cs) old h =
      elim (Result-cases (check_ids repo s checked c.eligible_path_ids)) [
        | inl (e, failed) ↦ absurd (ground arith)
        | inr (out, passed) ↦
            let (here, kept) = check_ids-AllIn checked c.eligible_path_ids out old passed in
            let later = check_cutoffs-AllInCutoffs out cs kept (ground arith) in
            λ a i. elim i [ inl now ↦ here a now | inr then_on ↦ later a then_on ]
      ]

  AllInCutoffs-check_cutoffs :
      (checked : List PathId) (cutoffs : List Cutoff)
      → AllInCutoffs cutoffs
      → check_cutoffs repo s checked cutoffs ≡ ok tt
  unfolding check_cutoffs
  AllInCutoffs-check_cutoffs checked [] every = refl
  AllInCutoffs-check_cutoffs checked (c ∷ cs) every =
      let (out, passed) = AllIn-check_ids checked c.eligible_path_ids (λ a i. every a (inl i)) in
      let later = AllInCutoffs-check_cutoffs out cs (λ a i. every a (inr i)) in ground arith

  -- A list of cutoffs passes exactly if the store finds every path that some cutoff names, and
  -- finds it active.
  pub validate_eligible_path_ids_iff :
      (cutoffs : List Cutoff)
      → (validate_eligible_path_ids repo cutoffs s ≡ ok tt)
        ↔ ((a : PathId) → InCutoffs a cutoffs → IsEligible a)
  unfolding validate_eligible_path_ids
  validate_eligible_path_ids_iff cutoffs = (
    λ h. check_cutoffs-AllInCutoffs [] cutoffs (λ a i. absurd i) h,
    λ every. AllInCutoffs-check_cutoffs [] cutoffs every,
  )
