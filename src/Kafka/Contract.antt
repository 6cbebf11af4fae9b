-- ===== src/Kafka/Contract.antt =====
-- The messages of publisher.go as consumers of the topics see them.
use process_path_management.Prelude.{String, Bool, ◌≡◌, arith}
use process_path_management.Errors.{ok}
use process_path_management.Events.{
  DomainEvent, process_path_created, process_path_updated, process_path_deactivated,
  cpt_schedule_changed, occurred_at,
}
use process_path_management.Shared.Platform.{Platform}
use process_path_management.Kafka.{
  CloudEvent, Encoded, map_event, new_event, encode_for, type_process_path_created,
  type_process_path_updated, type_process_path_deactivated, type_cpt_schedule_changed,
}

-- the full type that a consumer dispatches on
abbrev pub known_type : DomainEvent → String
known_type (process_path_created e) = type_process_path_created
known_type (process_path_updated e) = type_process_path_updated
known_type (process_path_deactivated id at) = type_process_path_deactivated
known_type (cpt_schedule_changed e) = type_cpt_schedule_changed

-- what orders the events of one aggregate
abbrev pub aggregate_id : DomainEvent → String
aggregate_id (process_path_created e) = e.path_id
aggregate_id (process_path_updated e) = e.path_id
aggregate_id (process_path_deactivated id at) = id
aggregate_id (cpt_schedule_changed e) = e.site_id

pub record IsContract (event : DomainEvent) (event_id stream_topic : String) (x : Encoded)
    : Type 0 where
  pub placed : x.topic ≡ stream_topic
  pub dispatched : x.value.type_name ≡ known_type event
  pub typed : x.event_type ≡ known_type event
  pub keyed : x.key ≡ aggregate_id event
  pub about : x.value.subject ≡ aggregate_id event
  pub identified : x.value.id ≡ event_id
  pub deduplicated : x.event_id ≡ event_id
  pub timed : x.value.time ≡ occurred_at event

module _ (pf : Platform) (sdk_valid : CloudEvent → Bool) where
  -- A message that was encoded for a topic is for that topic, has the type that consumers dispatch on
  -- in its event and beside it, the aggregate's id as its key and subject, the event id that was
  -- given, in its event and beside it, and the time of what happened.
  pub encode_for-IsContract :
      (event : DomainEvent) (event_id stream_topic stream : String) (x : Encoded)
      → encode_for pf sdk_valid event event_id stream_topic stream ≡ ok x
      → IsContract event event_id stream_topic x
  unfolding encode_for new_event map_event
  encode_for-IsContract (process_path_created e) event_id stream_topic stream x h = record {
    placed = ground arith;
    dispatched = ground arith;
    typed = ground arith;
    keyed = ground arith;
    about = ground arith;
    identified = ground arith;
    deduplicated = ground arith;
    timed = ground arith;
  }
  encode_for-IsContract (process_path_updated e) event_id stream_topic stream x h = record {
    placed = ground arith;
    dispatched = ground arith;
    typed = ground arith;
    keyed = ground arith;
    about = ground arith;
    identified = ground arith;
    deduplicated = ground arith;
    timed = ground arith;
  }
  encode_for-IsContract (process_path_deactivated id at) event_id stream_topic stream x h = record {
    placed = ground arith;
    dispatched = ground arith;
    typed = ground arith;
    keyed = ground arith;
    about = ground arith;
    identified = ground arith;
    deduplicated = ground arith;
    timed = ground arith;
  }
  encode_for-IsContract (cpt_schedule_changed e) event_id stream_topic stream x h = record {
    placed = ground arith;
    dispatched = ground arith;
    typed = ground arith;
    keyed = ground arith;
    about = ground arith;
    identified = ground arith;
    deduplicated = ground arith;
    timed = ground arith;
  }
