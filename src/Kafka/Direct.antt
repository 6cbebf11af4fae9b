-- ===== src/Kafka/Direct.antt =====
-- Publishing without an outbox: Publish and Send of publisher.go, AnalyticsPublisher of
-- analytics_publisher.go and FanOutPublisher of fanout_publisher.go, over the state K of the
-- broker's client, which also makes the ids.
use process_path_management.Prelude.{
  String, ◌++ˢ◌, ◌≡◌, ◌⊎◌, inl, inr, refl, ap, List, [], ◌∷◌, ◌++◌, Bool, arith,
}
use process_path_management.Errors.{Error, Result, ok, err, other, error_text, Result-cases}
use process_path_management.Events.{DomainEvent}
use process_path_management.Ports.{EventPublisher}
use process_path_management.Shared.Platform.{Platform}
use process_path_management.Kafka.{CloudEvent, Encoded, encode, encode_analytics}
use process_path_management.Relay.{Sink}

-- kafkago.Message, with the value of its one header; a topic that is not set is ""
pub record KafkaMessage : Type 0 where
  pub topic : String
  pub key : String
  pub value : CloudEvent
  pub content_type : String

-- the Writer, and the maker of ids
pub record Client (K : Type 0) : Type 0 where
  pub write_messages : KafkaMessage → K → Result (Unit {0}) × K
  pub new_id : K → String × K

module _ {K : Type 0} where
  abbrev pub wrap_publish : String → String → Result (Unit {0}) × K → Result (Unit {0}) × K
  wrap_publish event_type suffix (ok _, k) = (ok tt, k)
  wrap_publish event_type suffix (err e, k) =
      (err (other ("kafka: publish " ++ˢ event_type ++ˢ suffix ++ˢ ": " ++ˢ error_text e)), k)

  -- Publisher.Send
  unfoldable pub send : Client K → Encoded → K → Result (Unit {0}) × K
  send c enc k = wrap_publish enc.event_type "" (
      c.write_messages
        (record {
          topic = enc.topic;
          key = enc.key;
          value = enc.value;
          content_type = "application/cloudevents+json";
        })
        k)

  -- the relay's sink, as buildEventPublisher wires it
  abbrev pub kafka_sink : Client K → Sink K
  kafka_sink c = record { send = send c }

  -- the writer of the analytics publisher has its topic, so a message carries none
  abbrev pub send_analytics : Client K → Encoded → K → Result (Unit {0}) × K
  send_analytics c enc k = wrap_publish enc.event_type " analytics event" (
      c.write_messages
        (record {
          topic = "";
          key = enc.key;
          value = enc.value;
          content_type = "application/cloudevents+json";
        })
        k)

  abbrev pub encode_and_send :
      (String → Result Encoded)
      → (Encoded → K → Result (Unit {0}) × K)
      → String × K
      → Result (Unit {0}) × K
  encode_and_send encoder sending (id, k) = elim (encoder id) [
    | err e ↦ (err e, k)
    | ok enc ↦ sending enc k
  ]

  module _ (pf : Platform) (sdk_valid : CloudEvent → Bool) (c : Client K) where
    abbrev pub publisher : EventPublisher K
    publisher = record {
      publish = λ event k. encode_and_send (encode pf sdk_valid event) (send c) (c.new_id k);
    }

    abbrev pub analytics_publisher : EventPublisher K
    analytics_publisher = record {
      publish = λ event k.
          encode_and_send (encode_analytics pf sdk_valid event) (send_analytics c) (c.new_id k);
    }

  abbrev pub and_then : Result (Unit {0}) × K → (K → Result (Unit {0}) × K) → Result (Unit {0}) × K
  and_then (ok _, k) next = next k
  and_then (err e, k) next = (err e, k)

  -- FanOutPublisher.Publish
  unfoldable pub fan_out : List (EventPublisher K) → DomainEvent → K → Result (Unit {0}) × K
  fan_out [] event k = (ok tt, k)
  fan_out (p ∷ ps) event k = and_then (p.publish event k) (fan_out ps event)

  -- Each of the publishers took the event, one after the other, and the last state is the second.
  abbrev AllTook : List (EventPublisher K) → DomainEvent → K → K → Type 0
  AllTook [] event k t = t ≡ k
  AllTook (p ∷ ps) event k t =
      ((p.publish event k).0 ≡ ok tt) × AllTook ps event (p.publish event k).1 t

  -- The publishers before one took the event, that one refused it, and none after it was asked.
  record IsRefused (ps : List (EventPublisher K)) (event : DomainEvent) (k : K)
      (r : Result (Unit {0}) × K) : Type 0 where
    before : List (EventPublisher K)
    refuser : EventPublisher K
    after : List (EventPublisher K)
    all_of_them : ps ≡ before ++ refuser ∷ after
    reached : K
    took : AllTook before event k reached
    reason : Error
    refused : (refuser.publish event reached).0 ≡ err reason
    result : r ≡ (err reason, (refuser.publish event reached).1)

  later-IsRefused :
      (p : EventPublisher K) (ps : List (EventPublisher K)) (event : DomainEvent) (k : K)
      (r : Result (Unit {0}) × K)
      → (p.publish event k).0 ≡ ok tt
      → IsRefused ps event (p.publish event k).1 r
      → IsRefused (p ∷ ps) event k r
  later-IsRefused p ps event k r good stop = record {
    before = p ∷ stop.before;
    refuser = stop.refuser;
    after = stop.after;
    all_of_them = ap (λ l. p ∷ l) stop.all_of_them;
    reached = stop.reached;
    took = (good, stop.took);
    reason = stop.reason;
    refused = stop.refused;
    result = stop.result;
  }

  -- A fan-out succeeds with every publisher having taken the event, in order, or it ends with the
  -- error of the first that refuses it: those before it took it and none after it is asked.
  fan_out-fail_fast :
      (ps : List (EventPublisher K)) (event : DomainEvent) (k : K)
      → (((fan_out ps event k).0 ≡ ok tt) × AllTook ps event k (fan_out ps event k).1)
        ⊎ IsRefused ps event k (fan_out ps event k)
  unfolding fan_out
  fan_out-fail_fast [] event k = inl (refl, refl)
  fan_out-fail_fast (p ∷ ps) event k = elim (Result-cases (p.publish event k).0) [
    | inl (e, bad) ↦ inr (record {
      before = [];
      refuser = p;
      after = ps;
      all_of_them = refl;
      reached = k;
      took = refl;
      reason = e;
      refused = bad;
      result = ground arith;
    })
    | inr (_, good) ↦
        let moved : fan_out (p ∷ ps) event k ≡ fan_out ps event (p.publish event k).1 =
          ground arith in
        rw moved (elim (fan_out-fail_fast ps event (p.publish event k).1) [
          | inl (done, took) ↦ inl (done, (good, took))
          | inr stop ↦
              inr (later-IsRefused p ps event k (fan_out ps event (p.publish event k).1) good stop)
        ])
  ]
