-- ===== src/UseCases.antt =====
-- internal/application/usecases: the seven use cases, over the ports. A `nil` dependency is `none`.
pub mod Schedules
pub mod Laws
use process_path_management.Prelude.{
  ℕ, String, Bool, true, false, List, Option, none, some, if◌then◌else◌,
}
use process_path_management.Prelude.Int.{ℤ}
use process_path_management.Errors.{Result, ok, err, path_already_exists, path_not_found}
use process_path_management.Events.{
  DomainEvent, process_path_created, process_path_updated, process_path_deactivated, facts_of,
}
use process_path_management.Ports.{ProcessPathRepo, EventPublisher, UnitOfWork, Clock, PathMetrics}
use process_path_management.Shared.{PathId, Capability, DestinationLocationRole}
use process_path_management.Shared.Platform.{Platform}
use process_path_management.Shared.Eligibility.{Eligibility}
use process_path_management.ProcessPath
use process_path_management.ProcessPath.{ProcessPath, is_active}

pub record DefinePath (S : Type 0) : Type 0 where
  pub repo : ProcessPathRepo S
  pub publisher : EventPublisher S
  pub clock : Clock S
  pub unit_of_work : Option (UnitOfWork S)
  pub metrics : Option (PathMetrics S)

pub record RevisePath (S : Type 0) : Type 0 where
  pub repo : ProcessPathRepo S
  pub publisher : EventPublisher S
  pub clock : Clock S
  pub unit_of_work : Option (UnitOfWork S)

pub record DeactivatePath (S : Type 0) : Type 0 where
  pub repo : ProcessPathRepo S
  pub publisher : EventPublisher S
  pub clock : Clock S
  pub unit_of_work : Option (UnitOfWork S)

module _ {S : Type 0} where
  abbrev pub atomically :
      Option (UnitOfWork S) → (S → Result (Unit {0}) × S) → S → Result (Unit {0}) × S
  atomically none fn = fn
  atomically (some uow) fn = uow.execute fn

  abbrev pub then_do : Result (Unit {0}) × S → (S → Result (Unit {0}) × S) → Result (Unit {0}) × S
  then_do (ok _, s) f = f s
  then_do (err e, s) f = (err e, s)

  -- the function that Execute hands to `atomically`
  abbrev pub save_and_publish :
      ProcessPathRepo S → EventPublisher S → ProcessPath → DomainEvent → S → Result (Unit {0}) × S
  save_and_publish repo publisher p event s = then_do (repo.save p s) (publisher.publish event)

  abbrev pub returning {ℓ} : {A : Type ℓ} → A → (S → S) → Result (Unit {0}) × S → Result A × S
  returning a f (ok _, s) = (ok a, f s)
  returning a f (err e, s) = (err e, s)

  abbrev pub accepted : Option (PathMetrics S) → S → S
  accepted none s = s
  accepted (some m) s = m.path_definition_accepted s

  abbrev pub record_rejected : Option (PathMetrics S) → S → S
  record_rejected none s = s
  record_rejected (some m) s = m.path_definition_rejected s

  unfoldable pub define_path :
      Platform
      → DefinePath S
      → PathId
      → String
      → Bool
      → List Capability
      → DestinationLocationRole
      → ℤ
      → Eligibility
      → S
      → Result ProcessPath × S
  define_path pf uc id match_prefix direct required_capabilities role cycle_time eligibility s =
      elim (uc.repo.find_by_id id s) [
        | err e ↦ (err e, s)
        | ok (some existing) ↦ (err path_already_exists, record_rejected uc.metrics s)
        | ok none ↦
            let now = uc.clock.now s in
            elim (ProcessPath.define pf id match_prefix direct required_capabilities role cycle_time
              eligibility now) [
                | err e ↦ (err e, record_rejected uc.metrics s)
                | ok p ↦ returning p (accepted uc.metrics) (
                    atomically uc.unit_of_work
                      (save_and_publish uc.repo uc.publisher p
                        (process_path_created (facts_of p now)))
                      s)
              ]
      ]

  abbrev pub finish_revision :
      RevisePath S → ℕ → S → Result Bool × ProcessPath → Result ProcessPath × S
  finish_revision uc now s (err e, p) = (err e, s)
  finish_revision uc now s (ok false, p) = (ok p, s)
  finish_revision uc now s (ok true, p) =
      returning p (λ t. t)
        (atomically uc.unit_of_work
          (save_and_publish uc.repo uc.publisher p (process_path_updated (facts_of p now)))
          (uc.repo.assigned p s))

  unfoldable pub revise_path :
      Platform
      → RevisePath S
      → PathId
      → String
      → List Capability
      → ℤ
      → Eligibility
      → S
      → Result ProcessPath × S
  revise_path pf uc id match_prefix required_capabilities cycle_time eligibility s =
      elim (uc.repo.find_by_id id s) [
        | err e ↦ (err e, s)
        | ok none ↦ (err path_not_found, s)
        | ok (some p) ↦
            let now = uc.clock.now s in
            finish_revision uc now s (
              ProcessPath.revise pf p match_prefix required_capabilities cycle_time eligibility now)
      ]

  abbrev pub finish_deactivation : DeactivatePath S → ProcessPath → S → Result (Unit {0}) × S
  finish_deactivation uc p s =
      let now = uc.clock.now s in
      let q = ProcessPath.deactivate p now in
      atomically uc.unit_of_work
        (save_and_publish uc.repo uc.publisher q (process_path_deactivated q.id now))
        (uc.repo.assigned q s)

  unfoldable pub deactivate_path : DeactivatePath S → PathId → S → Result (Unit {0}) × S
  deactivate_path uc id s = elim (uc.repo.find_by_id id s) [
    | err e ↦ (err e, s)
    | ok none ↦ (err path_not_found, s)
    | ok (some p) ↦ if is_active p then finish_deactivation uc p s else (ok tt, s)
  ]

  unfoldable pub get_path : ProcessPathRepo S → PathId → S → Result ProcessPath
  get_path repo id s = elim (repo.find_by_id id s) [
    | err e ↦ err e
    | ok none ↦ err path_not_found
    | ok (some p) ↦ ok p
  ]

  unfoldable pub list_paths : ProcessPathRepo S → Bool → S → Result (List ProcessPath)
  list_paths repo active_only s = if active_only then repo.list_active s else repo.list_all s
