-- ===== src/Projector.antt =====
-- internal/adapters/inbound/kafka/analytics_consumer.go: one fetched message, over the state S of
-- the stores and the broker. Decoding CloudEvents, the backoff library and the Kafka client are
-- parameters; a retry is the library's, over the function that it calls again. What they are set to
-- is in Broker.
pub mod Broker
pub mod DeadLetter
pub mod Laws
pub mod Wired
pub mod Once
pub mod Counts
pub mod Counting
pub mod Published
pub mod EndToEnd
use process_path_management.Prelude.{
  ℕ, String, ◌++ˢ◌, Bool, true, false, ◌||◌, ◌==◌, List, [], ◌∷◌, ◌++◌, Option, none, some, zero,
  suc, if◌then◌else◌,
}
use process_path_management.Errors.{Error, Result, ok, err, other, error_text}
use process_path_management.Kafka.{
  type_process_path_created, type_process_path_updated, type_process_path_deactivated,
}
use process_path_management.Projector.Broker.{
  Message, Writer, Consumer, WriteFailure, WriteErrors, is_topic_not_ready, source_topic, Policy,
  retry_policy,
}

pub record AnalyticsEvent : Type 0 where
  pub id : String
  pub type_name : String
  pub time : ℕ

-- what the consumer calls; `now` is the time of the host in RFC 3339, in UTC
pub record Outside (S : Type 0) : Type 1 where
  pub consumer : Consumer
  pub decode : String → Result AnalyticsEvent
  pub mark_processed : String → S → Result Bool × S
  pub created : String → ℕ → S → Result (Unit {0}) × S
  pub updated : String → ℕ → S → Result (Unit {0}) × S
  pub deactivated : String → ℕ → S → Result (Unit {0}) × S
  pub commit_messages : Message → S → Result (Unit {0}) × S
  pub write_messages : Writer → Message → S → Option WriteFailure × S
  pub count : WriteErrors → ℕ
  pub failure_text : WriteFailure → String
  pub now : S → String
  pub cancelled : S → Bool
  pub close_reader : S → Result (Unit {0}) × S
  pub close_writer : Writer → S → Result (Unit {0}) × S
  pub retry : {A : Type 0} → Policy → (S → Result A × S) → S → Result A × S

abbrev pub is_projecting_event_type : String → Bool
is_projecting_event_type t =
    t == type_process_path_created
    || (t == type_process_path_updated || t == type_process_path_deactivated)

abbrev pub dlq_topic_ready_attempts : ℕ
dlq_topic_ready_attempts = 40

module _ {S : Type 0} (o : Outside S) where
  abbrev pub apply_projection : AnalyticsEvent → S → Result (Unit {0}) × S
  apply_projection e s =
      if e.type_name == type_process_path_created
      then o.created e.id e.time s
      else if e.type_name == type_process_path_updated
      then o.updated e.id e.time s
      else if e.type_name == type_process_path_deactivated
      then o.deactivated e.id e.time s
      else (ok tt, s)

  -- the error that WriteMessages returns
  abbrev pub written : Option WriteFailure → Result (Unit {0})
  written none = ok tt
  written (some f) = err (other (o.failure_text f))

  -- the loop of writeDLQ; the error is that of the attempt before
  unfoldable pub write_dlq : ℕ → Result (Unit {0}) → Writer → Message → S → Result (Unit {0}) × S
  write_dlq zero before w m s = (before, s)
  write_dlq (suc attempts) before w m s =
      let (r, t) = o.write_messages w m s in
      let again = write_dlq attempts (written r) w m t in
      elim r [
        | none ↦ (ok tt, t)
        | some f ↦
            if is_topic_not_ready o.count f
            then (if o.cancelled t
                then (err (other (o.failure_text f ++ˢ "\ncontext canceled")), t)
                else again)
            else (written (some f), t)
      ]

  -- the message that dlqPublish writes
  abbrev pub dead_letter : Message → Error → S → Message
  dead_letter m cause s = record {
    key = m.key;
    value = m.value;
    headers =
        m.headers
        ++ (("x-dlq-source-topic", source_topic o.consumer)
            ∷ ("x-dlq-error", error_text cause)
            ∷ ("x-dlq-failed-at", o.now s)
            ∷ []);
  }

  unfoldable pub dlq_publish : Message → Error → S → Result (Unit {0}) × S
  dlq_publish m cause s = elim o.consumer.dlq_writer [
    | none ↦ (ok tt, s)
    | some w ↦ write_dlq dlq_topic_ready_attempts (ok tt) w (dead_letter m cause s) s
  ]

  abbrev pub after_dlq : Message → Result (Unit {0}) × S → Result (Unit {0}) × S
  after_dlq m (ok _, s) = o.commit_messages m s
  after_dlq m (err e, s) =
      (err (other ("analytics: publish to dead-letter topic: " ++ˢ error_text e)), s)

  abbrev pub dead_letter_and_commit : Message → Error → S → Result (Unit {0}) × S
  dead_letter_and_commit m cause s = after_dlq m (dlq_publish m cause s)

  abbrev pub retry_bounded : {A : Type 0} → (S → Result A × S) → S → Result A × S
  retry_bounded fn s = o.retry retry_policy fn s

  abbrev pub after_apply : Message → Result (Unit {0}) × S → Result (Unit {0}) × S
  after_apply m (ok _, s) = o.commit_messages m s
  after_apply m (err e, s) =
      dead_letter_and_commit m (other ("apply projection: " ++ˢ error_text e)) s

  abbrev pub after_mark : Message → AnalyticsEvent → Result Bool × S → Result (Unit {0}) × S
  after_mark m e (err cause, s) =
      dead_letter_and_commit m (other ("mark processed: " ++ˢ error_text cause)) s
  after_mark m e (ok false, s) = o.commit_messages m s
  after_mark m e (ok true, s) = after_apply m (retry_bounded (apply_projection e) s)

  unfoldable pub handle_fetched_message : Message → S → Result (Unit {0}) × S
  handle_fetched_message m s = elim (o.decode m.value) [
    | err cause ↦ dead_letter_and_commit m (other ("analytics: " ++ˢ error_text cause)) s
    | ok e ↦
        if is_projecting_event_type e.type_name
        then after_mark m e (retry_bounded (o.mark_processed e.id) s)
        else o.commit_messages m s
  ]

  abbrev pub after_gate : AnalyticsEvent → Result Bool × S → Result (Unit {0}) × S
  after_gate e (err cause, s) =
      (err (other ("analytics: mark processed: " ++ˢ error_text cause)), s)
  after_gate e (ok false, s) = (ok tt, s)
  after_gate e (ok true, s) = apply_projection e s

  -- HandleMessage, which neither retries nor commits
  unfoldable pub handle_message : String → S → Result (Unit {0}) × S
  handle_message raw s = elim (o.decode raw) [
    | err cause ↦ (err (other ("analytics: " ++ˢ error_text cause)), s)
    | ok e ↦
        if is_projecting_event_type e.type_name
        then after_gate e (o.mark_processed e.id s)
        else (ok tt, s)
  ]

  -- Close: the reader, and then the writer if there is one; errors.Join of their errors
  abbrev pub join_errors : Result (Unit {0}) → Result (Unit {0}) → Result (Unit {0})
  join_errors (ok _) second = second
  join_errors (err e) (ok _) = err e
  join_errors (err e) (err e') = err (other (error_text e ++ˢ "\n" ++ˢ error_text e'))

  unfoldable pub close : S → Result (Unit {0}) × S
  close s =
      let (r, t) = o.close_reader s in
      elim o.consumer.dlq_writer [
        | none ↦ (r, t)
        | some w ↦ (join_errors r (o.close_writer w t).0, (o.close_writer w t).1)
      ]
