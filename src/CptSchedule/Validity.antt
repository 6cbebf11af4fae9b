-- ===== src/CptSchedule/Validity.antt =====
-- What `validate`, `Define` and `Revise` of a schedule accept and change.
use process_path_management.Prelude.{
  ℕ, String, Bool, true, false, ◌≡◌, ◌≢◌, ◌↔◌, List, [], ◌∷◌, arith, eq_iff, elem_iff, In,
}
use process_path_management.Errors.{Result, ok}
use process_path_management.Shared.{SiteId}
use process_path_management.Shared.Platform.{Platform}
use process_path_management.CptSchedule.Cutoffs.{Cutoff}
use process_path_management.CptSchedule.{CptSchedule, has_duplicate, validate, define, revise}
use process_path_management.CptSchedule.Equality.{cutoffs_equal_iff}

-- No two cutoffs share an id, and none has an id of `seen`.
abbrev pub DistinctFrom : List String → List Cutoff → Type 0
DistinctFrom seen [] = Unit
DistinctFrom seen (c ∷ cs) = (¬ In c.cpt_id seen) × DistinctFrom (c.cpt_id ∷ seen) cs

has_duplicate_iff :
    (seen : List String) (cs : List Cutoff) → (has_duplicate seen cs ≡ false) ↔ DistinctFrom seen cs
unfolding has_duplicate
has_duplicate_iff seen [] = ground arith
has_duplicate_iff seen (c ∷ cs) =
    ground (arith, elem_iff c.cpt_id seen, has_duplicate_iff (c.cpt_id ∷ seen) cs)

module _ (pf : Platform) where
  pub record IsValidSchedule (timezone : String) (cutoffs : List Cutoff) : Type 0 where
    pub zone_nonempty : timezone ≢ ""
    pub zone_known : pf.zone_known timezone ≡ true
    pub cutoffs_nonempty : cutoffs ≢ []
    pub cutoffs_distinct : DistinctFrom [] cutoffs

  pub validate_iff :
      (timezone : String) (cutoffs : List Cutoff)
      → (validate pf timezone cutoffs ≡ ok tt) ↔ IsValidSchedule timezone cutoffs
  unfolding validate
  validate_iff timezone [] = ground (arith, eq_iff timezone "")
  validate_iff timezone (c ∷ cs) = ground (arith, eq_iff timezone "", has_duplicate_iff [] (c ∷ cs))

  -- Define succeeds exactly on a valid schedule, and the schedule that it returns holds the
  -- arguments and carries `now` as both of its times.
  pub define-IsValidSchedule_iff :
      (site : SiteId) (timezone : String) (cutoffs : List Cutoff) (now : ℕ) (s : CptSchedule)
      → (define pf site timezone cutoffs now ≡ ok s) ↔ (
          IsValidSchedule timezone cutoffs
          × (s ≡ record {
            site_id = site;
            timezone = timezone;
            cutoffs = cutoffs;
            created_at = now;
            updated_at = now;
          }))
  unfolding define
  define-IsValidSchedule_iff site timezone cutoffs now s =
      ground (arith, validate_iff timezone cutoffs)

  module _ (s : CptSchedule) (timezone : String) (cutoffs : List Cutoff) (now : ℕ) where
    abbrev pub outcome : Result Bool
    outcome = (revise pf s timezone cutoffs now).0

    abbrev pub after : CptSchedule
    after = (revise pf s timezone cutoffs now).1

    -- A revision reports a change exactly if the new schedule is valid and differs from the old.
    pub revise-schedule_changed_iff :
        (outcome ≡ ok true)
        ↔ (IsValidSchedule timezone cutoffs × (¬ ((s.timezone ≡ timezone) × (s.cutoffs ≡ cutoffs))))
    unfolding revise
    revise-schedule_changed_iff = ground (
      arith,
      validate_iff timezone cutoffs,
      eq_iff s.timezone timezone,
      cutoffs_equal_iff s.cutoffs cutoffs,
    )

    pub after-changed :
        outcome ≡ ok true
        → after ≡ record s { timezone = timezone; cutoffs = cutoffs; updated_at = now }
    unfolding revise
    after-changed h = ground arith

    pub after-unchanged : outcome ≢ ok true → after ≡ s
    unfolding revise
    after-unchanged h = ground arith
