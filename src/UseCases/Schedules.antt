-- ===== src/UseCases/Schedules.antt =====
-- internal/application/usecases/cpt_schedule.go.
use process_path_management.Prelude.{
  ℕ, String, Bool, true, false, List, [], ◌∷◌, Option, none, some, elem, if◌then◌else◌,
}
use process_path_management.Errors.{Result, ok, err, cpt_schedule_not_found, ineligible_path_id}
use process_path_management.Events.{cpt_schedule_changed}
use process_path_management.Ports.{
  ProcessPathRepo, CptScheduleRepo, EventPublisher, UnitOfWork, Clock,
}
use process_path_management.Shared.{PathId, SiteId}
use process_path_management.Shared.Platform.{Platform}
use process_path_management.ProcessPath.{is_active}
use process_path_management.CptSchedule
use process_path_management.CptSchedule.{CptSchedule, to_snapshot}
use process_path_management.CptSchedule.Cutoffs.{Cutoff}
use process_path_management.UseCases.{atomically, then_do, returning}

pub record DefineCptSchedule (S : Type 0) : Type 0 where
  pub repo : CptScheduleRepo S
  pub process_path_repo : ProcessPathRepo S
  pub publisher : EventPublisher S
  pub clock : Clock S
  pub unit_of_work : Option (UnitOfWork S)

module _ {S : Type 0} where
  -- one path id: is it Active in this service's own store
  abbrev pub check_one : ProcessPathRepo S → PathId → S → Result (Unit {0})
  check_one repo id s = elim (repo.find_by_id id s) [
    | err e ↦ err e
    | ok none ↦ err ineligible_path_id
    | ok (some p) ↦ if is_active p then ok tt else err ineligible_path_id
  ]

  -- the inner loop; the result is the set of the ids checked so far
  unfoldable pub check_ids :
      ProcessPathRepo S → S → List PathId → List PathId → Result (List PathId)
  check_ids repo s checked [] = ok checked
  check_ids repo s checked (id ∷ ids) =
      let skip = check_ids repo s checked ids in
      let after = check_ids repo s (id ∷ checked) ids in
      if elem id checked then skip else elim (check_one repo id s) [ err e ↦ err e | ok _ ↦ after ]

  unfoldable pub check_cutoffs :
      ProcessPathRepo S → S → List PathId → List Cutoff → Result (Unit {0})
  check_cutoffs repo s checked [] = ok tt
  check_cutoffs repo s checked (c ∷ cs) = elim (check_ids repo s checked c.eligible_path_ids) [
    | err e ↦ err e
    | ok checked' ↦ check_cutoffs repo s checked' cs
  ]

  unfoldable pub validate_eligible_path_ids :
      ProcessPathRepo S → List Cutoff → S → Result (Unit {0})
  validate_eligible_path_ids repo cutoffs s = check_cutoffs repo s [] cutoffs

  -- the closing `atomically` of Execute
  abbrev pub save_schedule : DefineCptSchedule S → CptSchedule → ℕ → S → Result CptSchedule × S
  save_schedule uc schedule now s =
      returning schedule (λ t. t)
        (atomically uc.unit_of_work
          (λ t.
            then_do (uc.repo.save schedule t)
              (uc.publisher.publish (cpt_schedule_changed (to_snapshot schedule now))))
          s)

  abbrev pub finish_schedule_revision :
      DefineCptSchedule S → ℕ → S → Result Bool × CptSchedule → Result CptSchedule × S
  finish_schedule_revision uc now s (err e, c) = (err e, s)
  finish_schedule_revision uc now s (ok false, c) = (ok c, s)
  finish_schedule_revision uc now s (ok true, c) = save_schedule uc c now (uc.repo.assigned c s)

  abbrev pub write_schedule :
      Platform
      → DefineCptSchedule S
      → SiteId
      → String
      → List Cutoff
      → Option CptSchedule
      → S
      → Result CptSchedule × S
  write_schedule pf uc site timezone cutoffs none s =
      let now = uc.clock.now s in
      elim (CptSchedule.define pf site timezone cutoffs now) [
        | err e ↦ (err e, s)
        | ok schedule ↦ save_schedule uc schedule now s
      ]
  write_schedule pf uc site timezone cutoffs (some existing) s =
      let now = uc.clock.now s in
      finish_schedule_revision uc now s (CptSchedule.revise pf existing timezone cutoffs now)

  unfoldable pub define_cpt_schedule :
      Platform → DefineCptSchedule S → SiteId → String → List Cutoff → S → Result CptSchedule × S
  define_cpt_schedule pf uc site timezone cutoffs s = elim (uc.repo.find_by_site_id site s) [
    | err e ↦ (err e, s)
    | ok existing ↦ elim (validate_eligible_path_ids uc.process_path_repo cutoffs s) [
      | err e ↦ (err e, s)
      | ok _ ↦ write_schedule pf uc site timezone cutoffs existing s
    ]
  ]

  unfoldable pub get_cpt_schedule : CptScheduleRepo S → SiteId → S → Result CptSchedule
  get_cpt_schedule repo site s = elim (repo.find_by_site_id site s) [
    | err e ↦ err e
    | ok none ↦ err cpt_schedule_not_found
    | ok (some c) ↦ ok c
  ]
