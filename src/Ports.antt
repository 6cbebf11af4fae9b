-- ===== src/Ports.antt =====
-- internal/application/ports/ports.go: what the use cases need from the outside, over the state S
-- of the process and its stores. A call that can write returns the state after it, also when it
-- fails. A `*ProcessPath` that a repository returns may be the object that it holds: `assigned`
-- says what assigning to the fields of that object does to the repository.
use process_path_management.Prelude.{ℕ, List, Option}
use process_path_management.Errors.{Result}
use process_path_management.Events.{DomainEvent}
use process_path_management.Shared.{PathId, SiteId}
use process_path_management.ProcessPath.{ProcessPath}
use process_path_management.CptSchedule.{CptSchedule}

pub record ProcessPathRepo (S : Type 0) : Type 0 where
  pub save : ProcessPath → S → Result (Unit {0}) × S
  pub find_by_id : PathId → S → Result (Option ProcessPath)
  pub list_active : S → Result (List ProcessPath)
  pub list_all : S → Result (List ProcessPath)
  pub assigned : ProcessPath → S → S

pub record CptScheduleRepo (S : Type 0) : Type 0 where
  pub save : CptSchedule → S → Result (Unit {0}) × S
  pub find_by_site_id : SiteId → S → Result (Option CptSchedule)
  pub assigned : CptSchedule → S → S

pub record EventPublisher (S : Type 0) : Type 0 where
  pub publish : DomainEvent → S → Result (Unit {0}) × S

pub record UnitOfWork (S : Type 0) : Type 0 where
  pub execute : (S → Result (Unit {0}) × S) → S → Result (Unit {0}) × S

pub record Clock (S : Type 0) : Type 0 where
  pub now : S → ℕ

pub record PathMetrics (S : Type 0) : Type 0 where
  pub path_definition_accepted : S → S
  pub path_definition_rejected : S → S
