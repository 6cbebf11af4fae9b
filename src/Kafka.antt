-- ===== src/Kafka.antt =====
-- internal/adapters/outbound/kafka/publisher.go and analytics_publisher.go over
-- internal/adapters/kafka/cloudevents: from a domain event to the message of a topic. The message's
-- value is the CloudEvent before it is written as JSON.
pub mod Contract
pub mod Direct
use process_path_management.Prelude.{
  ℕ, String, ◌++ˢ◌, Bool, false, List, [], map, Option, none, some, ◌==◌, if◌then◌else◌,
}
use process_path_management.Prelude.Int.{ℤ}
use process_path_management.Errors.{Result, ok, err, other, error_text}
use process_path_management.Events.{
  DomainEvent, PathFacts, process_path_created, process_path_updated, process_path_deactivated,
  cpt_schedule_changed, occurred_at,
}
use process_path_management.Shared.Platform.{Platform}
use process_path_management.Shared.Eligibility.{Eligibility}
use process_path_management.CptSchedule.{CutoffSnapshot}

pub record EligibilityData : Type 0 where
  pub max_units_per_line : Option ℤ
  pub required_product_attributes : List String
  pub excluded_product_attributes : List String
  pub non_sortable : Bool

pub record ProcessPathData : Type 0 where
  pub path_id : String
  pub match_prefix : String
  pub direct : Bool
  pub required_capabilities : List String
  pub destination_location_role : String
  pub cycle_time_p95 : String
  pub eligibility : Option EligibilityData

pub record CutoffData : Type 0 where
  pub cpt_id : String
  pub local_time : String
  pub days_of_week : List String
  pub ship_method : String
  pub eligible_path_ids : List String

pub record CptScheduleData : Type 0 where
  pub site_id : String
  pub timezone : String
  pub cutoffs : List CutoffData

-- the `any` of Spec.Data
pub data EventData : Type 0 where
  path_data : ProcessPathData → EventData
  schedule_data : CptScheduleData → EventData

pub record Mapped : Type 0 where
  pub entity : String
  pub name : String
  pub key : String
  pub payload : EventData

abbrev pub eligibility_to_data : Eligibility → EligibilityData
eligibility_to_data e = record {
  max_units_per_line = e.max_units_per_line;
  required_product_attributes = e.required_product_attributes;
  excluded_product_attributes = e.excluded_product_attributes;
  non_sortable = e.non_sortable;
}

abbrev pub cutoff_to_data : CutoffSnapshot → CutoffData
cutoff_to_data c = record {
  cpt_id = c.cpt_id;
  local_time = c.local_time;
  days_of_week = c.days_of_week;
  ship_method = c.ship_method;
  eligible_path_ids = c.eligible_path_ids;
}

abbrev pub facts_to_data : Platform → PathFacts → ProcessPathData
facts_to_data pf e = record {
  path_id = e.path_id;
  match_prefix = e.match_prefix;
  direct = e.direct;
  required_capabilities = e.required_capabilities;
  destination_location_role = e.destination_location_role;
  cycle_time_p95 = pf.show_duration e.cycle_time_p95;
  eligibility = some (eligibility_to_data e.eligibility);
}

abbrev pub id_data : String → ProcessPathData
id_data key = record {
  path_id = key;
  match_prefix = "";
  direct = false;
  required_capabilities = [];
  destination_location_role = "";
  cycle_time_p95 = "";
  eligibility = none;
}

-- internal/adapters/kafka/cloudevents
abbrev pub entity_process_path : String
entity_process_path = "processpath"

abbrev pub entity_cpt_schedule : String
entity_cpt_schedule = "cptschedule"

abbrev pub repo : String
repo = "process-path-management"

-- Type: "com.warehouse.wes.process-path-management.<entity>.<name>"
abbrev pub event_type : String → String → String
event_type entity name =
    "com.warehouse." ++ˢ "wes" ++ˢ "." ++ˢ repo ++ˢ "." ++ˢ entity ++ˢ "." ++ˢ name

-- DataSchema at version 1, the only one that is asked for
abbrev pub data_schema : String → String → String
data_schema stream name = "urn:warehouse:" ++ˢ repo ++ˢ ":" ++ˢ stream ++ˢ ":" ++ˢ name ++ˢ ":v1"

pub record CloudEvent : Type 0 where
  pub id : String
  pub source : String
  pub type_name : String
  pub subject : String
  pub time : ℕ
  pub data_schema : String
  pub payload : EventData

abbrev pub type_process_path_created : String
type_process_path_created =
    "com.warehouse.wes.process-path-management.processpath.ProcessPathCreated"

abbrev pub type_process_path_updated : String
type_process_path_updated =
    "com.warehouse.wes.process-path-management.processpath.ProcessPathUpdated"

abbrev pub type_process_path_deactivated : String
type_process_path_deactivated =
    "com.warehouse.wes.process-path-management.processpath.ProcessPathDeactivated"

abbrev pub type_cpt_schedule_changed : String
type_cpt_schedule_changed =
    "com.warehouse.wes.process-path-management.cptschedule.CPTScheduleChanged"

pub record Encoded : Type 0 where
  pub topic : String
  pub event_id : String
  pub event_type : String
  pub key : String
  pub value : CloudEvent

unfoldable pub map_event : Platform → DomainEvent → Mapped
map_event pf (process_path_created e) = record {
  entity = entity_process_path;
  name = "ProcessPathCreated";
  key = e.path_id;
  payload = path_data (facts_to_data pf e);
}
map_event pf (process_path_updated e) = record {
  entity = entity_process_path;
  name = "ProcessPathUpdated";
  key = e.path_id;
  payload = path_data (facts_to_data pf e);
}
map_event pf (process_path_deactivated id at) = record {
  entity = entity_process_path;
  name = "ProcessPathDeactivated";
  key = id;
  payload = path_data (id_data id);
}
map_event pf (cpt_schedule_changed e) = record {
  entity = entity_cpt_schedule;
  name = "CPTScheduleChanged";
  key = e.site_id;
  payload = schedule_data (record {
    site_id = e.site_id;
    timezone = e.timezone;
    cutoffs = map cutoff_to_data e.cutoffs;
  });
}

abbrev pub analytics_topic : String
analytics_topic = "warehouse.process-path-management.analytics"

-- `sdk_valid` is the CloudEvents library's own test of the event.
module _ (pf : Platform) (sdk_valid : CloudEvent → Bool) where
  unfoldable pub new_event : Mapped → String → ℕ → String → Result CloudEvent
  new_event m event_id at stream =
      let e : CloudEvent = record {
        id = event_id;
        source = "/warehouse/" ++ˢ repo;
        type_name = event_type m.entity m.name;
        subject = m.key;
        time = at;
        data_schema = data_schema stream m.name;
        payload = m.payload;
      } in
      if m.key == ""
      then err (other ("cloudevents: " ++ˢ m.name ++ˢ ": empty subject"))
      else if sdk_valid e
      then ok e
      else err (other "cloudevents: invalid event")

  unfoldable pub encode_for : DomainEvent → String → String → String → Result Encoded
  encode_for event event_id topic stream =
      let m = map_event pf event in
      elim (new_event m event_id (occurred_at event) stream) [
        | err e ↦ err (other ("kafka: encode " ++ˢ m.name ++ˢ ": " ++ˢ error_text e))
        | ok value ↦ ok (record {
          topic = topic;
          event_id = event_id;
          event_type = event_type m.entity m.name;
          key = m.key;
          value = value;
        })
      ]

  abbrev pub topic : String
  topic = "warehouse.process-path-management.events"

  -- IntegrationEncoder.Encode and AnalyticsEncoder.Encode
  unfoldable pub encode : DomainEvent → String → Result Encoded
  encode event event_id = encode_for event event_id topic "events"

  unfoldable pub encode_analytics : DomainEvent → String → Result Encoded
  encode_analytics event event_id = encode_for event event_id analytics_topic "analytics"
