-- ===== src/Tests/Messages.antt =====
-- The theorem of the dead letters at a concrete input.
use process_path_management.Prelude.{
  String, true, false, ◌≡◌, refl, List, [], ◌∷◌, none, some, arith,
}
use process_path_management.Errors.{Error, ok, err, other}
use process_path_management.Projector.{Outside, handle_fetched_message}
use process_path_management.Projector.Broker.{
  Message, Writer, WriteFailure, plain, write_errors, no_entries, nil_entry, failed_entry,
  is_topic_not_ready, new_analytics_consumer, new_dlq_writer,
}
use process_path_management.Projector.DeadLetter.{
  Accepted, at_once, waited, Letter, IsDeadLettered, handle_fetched_message-IsDeadLettered,
}

-- a message with a header that is no CloudEvent
abbrev poison : Message
poison = record { key = "p1"; value = "flat"; headers = ("trace", "1") ∷ [] }

-- the dead-letter topic has no leader at the first write, which is logged as a write that failed
abbrev unready : WriteFailure
unready =
    write_errors (nil_entry (failed_entry (plain "Leader Not Available" false true) no_entries))

abbrev broker : Outside (List String)
broker = record {
  consumer = new_analytics_consumer ("broker" ∷ []) "analytics";
  decode = λ raw. err (other "cloudevents: not a CloudEvent");
  mark_processed = λ id log. (ok true, log);
  created = λ id at log. (ok tt, log);
  updated = λ id at log. (ok tt, log);
  deactivated = λ id at log. (ok tt, log);
  commit_messages = λ m log. (ok tt, "committed" ∷ log);
  write_messages = λ w m log. elim log [
    | [] ↦ (some unready, "refused" ∷ [])
    | line ∷ lines ↦ (none, w.topic ∷ line ∷ lines)
  ];
  count = λ es. 1;
  failure_text = λ f. "Leader Not Available";
  now = λ log. "2026-01-01T00:00:00Z";
  cancelled = λ log. false;
  close_reader = λ log. (ok tt, log);
  close_writer = λ w log. (ok tt, log);
  retry = λ p f log. f log;
}

abbrev not_event : Error
not_event = other "cloudevents: not a CloudEvent"

abbrev dead_letters : Writer
dead_letters = new_dlq_writer ("broker" ∷ []) "analytics.dlq"

poison-Accepted :
    Accepted broker dead_letters
      (Letter broker poison not_event [])
      1
      []
      ("analytics.dlq" ∷ "refused" ∷ [])
unfolding is_topic_not_ready
poison-Accepted = waited unready refl refl refl (at_once refl)

poison-committed :
    handle_fetched_message broker poison []
    ≡ (ok tt, "committed" ∷ "analytics.dlq" ∷ "refused" ∷ [])
poison-committed =
    (handle_fetched_message-IsDeadLettered broker poison dead_letters not_event [] refl refl).sent 1
      ("analytics.dlq" ∷ "refused" ∷ []) (omega arith) poison-Accepted

handle_fetched_message-IsDeadLettered_example :
    IsDeadLettered broker poison dead_letters
      (Letter broker poison not_event [])
      []
      (handle_fetched_message broker poison [])
handle_fetched_message-IsDeadLettered_example =
    handle_fetched_message-IsDeadLettered broker poison dead_letters not_event [] refl refl
