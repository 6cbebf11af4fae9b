-- ===== src/Projector/Wired.antt =====
-- The projector as cmd/pathmgmt-projector wires it: the consumer of analytics_consumer.go over the
-- tables of analyticsstore, and the loop of its Run. The state is a session of the tables and B, the
-- state of the broker.
use process_path_management.Prelude.{ℕ, String, Bool, Option, ◌≡◌, ◌⊎◌, List, [], ◌∷◌, zero, suc}
use process_path_management.Errors.{Error, Result, ok, err}
use process_path_management.Shared.Platform.{Platform}
use process_path_management.Kafka.{analytics_topic}
use process_path_management.Analytics.Tables.{
  Store, mark_processed, apply_process_path_created, apply_process_path_updated,
  apply_process_path_deactivated,
}
use process_path_management.Projector.{AnalyticsEvent, Outside, handle_fetched_message}
use process_path_management.Projector.Broker.{
  Message, Writer, WriteFailure, WriteErrors, Policy, new_analytics_consumer,
}

-- The clients of Kafka, CloudEvents and backoff, and the brokers of KAFKA_BROKERS.
pub record Clients (B : Type 0) : Type 1 where
  pub brokers : List String
  pub decode : String → Result AnalyticsEvent
  pub commit_messages : Message → B → Result (Unit {0}) × B
  pub write_messages : Writer → Message → B → Option WriteFailure × B
  pub count : WriteErrors → ℕ
  pub failure_text : WriteFailure → String
  pub now : B → String
  pub cancelled : B → Bool
  pub close_reader : B → Result (Unit {0}) × B
  pub close_writer : Writer → B → Result (Unit {0}) × B
  pub retry :
      {A : Type 0}
      → Policy
      → (Store × B → Result A × (Store × B))
      → Store × B
      → Result A × (Store × B)

-- the calls of the function that backoff.Retry may make, at most n: the last one's answer is the
-- answer, and only a failed call is followed by another, or by the error of the context
abbrev pub Tried : {S : Type 0} {A : Type 0} → (S → Result A × S) → ℕ → S → Result A × S → Type 0
Tried fn zero s r = ⊥
Tried fn (suc n) s r =
    (r ≡ fn s)
    ⊎ ((e : Error) × ((fn s).0 ≡ err e)
        × (((stop : Error) × (r ≡ (err stop, (fn s).1))) ⊎ Tried fn n (fn s).1 r))

module _ {B : Type 0} where
  -- what backoff documents of WithMaxRetries, for every function that it may be given
  abbrev pub IsBoundedRetry : Clients B → Type 1
  IsBoundedRetry c =
      (A : Type 0) (p : Policy) (fn : Store × B → Result A × (Store × B)) (s : Store × B)
      → Tried fn (suc p.max_retries) s (c.retry p fn s)

  abbrev pub on_store : {A : Type 0} → (Store → A × Store) → Store × B → A × (Store × B)
  on_store f (s, b) = ((f s).0, ((f s).1, b))

  abbrev pub on_broker : {A : Type 0} → (B → A × B) → Store × B → A × (Store × B)
  on_broker f (s, b) = ((f b).0, (s, (f b).1))

  abbrev pub projector : Platform → Clients B → Outside (Store × B)
  projector pf c = record {
    consumer = new_analytics_consumer c.brokers analytics_topic;
    decode = c.decode;
    mark_processed = λ id. on_store (mark_processed id);
    created = λ id at. on_store (apply_process_path_created pf id at);
    updated = λ id at. on_store (apply_process_path_updated pf id at);
    deactivated = λ id at. on_store (apply_process_path_deactivated pf id at);
    commit_messages = λ m. on_broker (c.commit_messages m);
    write_messages = λ w m. on_broker (c.write_messages w m);
    count = c.count;
    failure_text = c.failure_text;
    now = λ s. c.now s.1;
    cancelled = λ s. c.cancelled s.1;
    close_reader = on_broker c.close_reader;
    close_writer = λ w. on_broker (c.close_writer w);
    retry = c.retry;
  }

-- the loop of Run: the messages that FetchMessage returns, and then its error, or nil if that was
-- the cancellation
module _ {S : Type 0} (o : Outside S) where
  abbrev pub after_message :
      Result (Unit {0}) × S → (S → Result (Unit {0}) × S) → Result (Unit {0}) × S
  after_message (ok _, s) next = next s
  after_message (err e, s) next = (err e, s)

  unfoldable pub run : List Message → Result (Unit {0}) → S → Result (Unit {0}) × S
  run [] ended s = (ended, s)
  run (m ∷ ms) ended s = after_message (handle_fetched_message o m s) (run ms ended)
