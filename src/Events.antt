-- ===== src/Events.antt =====
-- The domain events of internal/domain/shared/events.go and internal/domain/cptschedule/events.go.
-- ProcessPathCreated and ProcessPathUpdated have the same fields, which stand in `PathFacts`.
use process_path_management.Prelude.{ℕ, String, Bool, List}
use process_path_management.Prelude.Int.{ℤ}
use process_path_management.Shared.{PathId, Capability, DestinationLocationRole}
use process_path_management.Shared.Eligibility.{Eligibility}
use process_path_management.ProcessPath.{ProcessPath}
use process_path_management.CptSchedule.{CptScheduleChanged}

pub record PathFacts : Type 0 where
  pub path_id : PathId
  pub match_prefix : String
  pub direct : Bool
  pub required_capabilities : List Capability
  pub destination_location_role : DestinationLocationRole
  pub cycle_time_p95 : ℤ
  pub eligibility : Eligibility
  pub at : ℕ

pub data DomainEvent : Type 0 where
  process_path_created : PathFacts → DomainEvent
  process_path_updated : PathFacts → DomainEvent
  process_path_deactivated : PathId → ℕ → DomainEvent
  cpt_schedule_changed : CptScheduleChanged → DomainEvent

abbrev pub event_name : DomainEvent → String
event_name (process_path_created _) = "ProcessPathCreated"
event_name (process_path_updated _) = "ProcessPathUpdated"
event_name (process_path_deactivated _ _) = "ProcessPathDeactivated"
event_name (cpt_schedule_changed _) = "CPTScheduleChanged"

abbrev pub occurred_at : DomainEvent → ℕ
occurred_at (process_path_created f) = f.at
occurred_at (process_path_updated f) = f.at
occurred_at (process_path_deactivated _ at) = at
occurred_at (cpt_schedule_changed e) = e.at

-- The fields of an event about the path `p`, as the use cases fill them in.
abbrev pub facts_of : ProcessPath → ℕ → PathFacts
facts_of p now = record {
  path_id = p.id;
  match_prefix = p.match_prefix;
  direct = p.direct;
  required_capabilities = p.required_capabilities;
  destination_location_role = p.destination_location_role;
  cycle_time_p95 = p.cycle_time_p95;
  eligibility = p.eligibility;
  at = now;
}
