-- ===== src/Projector/Published.antt =====
-- What analytics_consumer.go makes of the messages of analytics_publisher.go: the two ends of the
-- analytics topic.
use process_path_management.Prelude.{
  ℕ, String, Bool, true, false, ◌≡◌, refl, sym, ap, ◌∙◌, subst, Option, none, some, [], elem,
  eq_iff, inl, inr, some_inv, Option-cases,
}
use process_path_management.Errors.{Result, ok}
use process_path_management.Events.{
  DomainEvent, process_path_created, process_path_updated, process_path_deactivated,
  cpt_schedule_changed, occurred_at,
}
use process_path_management.Shared.Platform.{Platform}
use process_path_management.Kafka.{CloudEvent, Encoded, encode_analytics, analytics_topic}
use process_path_management.Kafka.Contract.{known_type, IsContract, encode_for-IsContract}
use process_path_management.Analytics.{MemoryStore}
use process_path_management.Analytics.Totals.{Kind, created, updated, deactivated, apply_kind}
use process_path_management.Analytics.Tables.{Store}
use process_path_management.Analytics.Tables.Refines.{IsTimeColumn, Represents}
use process_path_management.Projector.{
  AnalyticsEvent, is_projecting_event_type, handle_fetched_message,
}
use process_path_management.Projector.Wired.{Clients, IsBoundedRetry, projector}
use process_path_management.Projector.Broker.{Message}
use process_path_management.Projector.Counting.{
  type_of, IsCounting, handle_fetched_message-IsCounting,
}

-- what decoding the bytes of a message gives back of its event
abbrev pub event_of : Encoded → AnalyticsEvent
event_of x = record { id = x.value.id; type_name = x.value.type_name; time = x.value.time }

-- The count that an event is to add to: a change of a schedule is not reported on.
abbrev pub kind_of : DomainEvent → Option Kind
kind_of (process_path_created e) = some created
kind_of (process_path_updated e) = some updated
kind_of (process_path_deactivated id at) = some deactivated
kind_of (cpt_schedule_changed e) = none

abbrev pub counted_as : Option Kind → String → ℕ → MemoryStore → MemoryStore
counted_as none id at m = m
counted_as (some k) id at m = apply_kind k id at m

kind_of-projecting :
    (event : DomainEvent) (k : Kind)
    → kind_of event ≡ some k
    → (known_type event ≡ type_of k) × (is_projecting_event_type (known_type event) ≡ true)
kind_of-projecting (process_path_created e) k h = (ap type_of (some_inv h), refl)
kind_of-projecting (process_path_updated e) k h = (ap type_of (some_inv h), refl)
kind_of-projecting (process_path_deactivated id at) k h = (ap type_of (some_inv h), refl)
kind_of-projecting (cpt_schedule_changed e) k h = absurd (cc h)

type_of-injective : (k l : Kind) → type_of k ≡ type_of l → k ≡ l
type_of-injective created created h = refl
type_of-injective created updated h = absurd (cc ((eq_iff (type_of created) (type_of updated)).1 h))
type_of-injective created deactivated h =
    absurd (cc ((eq_iff (type_of created) (type_of deactivated)).1 h))
type_of-injective updated created h = absurd (cc ((eq_iff (type_of updated) (type_of created)).1 h))
type_of-injective updated updated h = refl
type_of-injective updated deactivated h =
    absurd (cc ((eq_iff (type_of updated) (type_of deactivated)).1 h))
type_of-injective deactivated created h =
    absurd (cc ((eq_iff (type_of deactivated) (type_of created)).1 h))
type_of-injective deactivated updated h =
    absurd (cc ((eq_iff (type_of deactivated) (type_of updated)).1 h))
type_of-injective deactivated deactivated h = refl

same_count :
    (l k : Kind) (i j : String) (t u : ℕ)
    → l ≡ k
    → i ≡ j
    → t ≡ u
    → (m : MemoryStore) → apply_kind l i t m ≡ apply_kind k j u m
same_count l k i j t u e f g m = cc

kind_of-skipped :
    (event : DomainEvent)
    → kind_of event ≡ none
    → is_projecting_event_type (known_type event) ≡ false
kind_of-skipped (process_path_created e) h = absurd (cc h)
kind_of-skipped (process_path_updated e) h = absurd (cc h)
kind_of-skipped (process_path_deactivated id at) h = absurd (cc h)
kind_of-skipped (cpt_schedule_changed e) h = refl

module _ {B : Type 0} (pf : Platform) (c : Clients B) (column : IsTimeColumn pf)
    (bounded : IsBoundedRetry c) (sdk_valid : CloudEvent → Bool) where
  -- The handled message was committed over tables that count its event.
  pub record IsReported (msg : Message) (event : DomainEvent) (event_id : String)
      (memory : MemoryStore) (s : Store × B) (r : Result (Unit {0}) × (Store × B)) : Type 0 where
    pub last : Store × B
    pub committed : r ≡ (projector pf c).commit_messages msg last
    pub reported :
        Represents pf (counted_as (kind_of event) event_id (occurred_at event) memory) last.0.tables

  IsReported-counted :
      (msg : Message) (event : DomainEvent) (event_id : String) (x : Encoded) (k : Kind)
      (memory : MemoryStore) (s : Store × B) (r : Result (Unit {0}) × (Store × B))
      → kind_of event ≡ some k
      → IsContract event event_id analytics_topic x
      → elem event_id s.0.tables.consumed ≡ false
      → IsCounting pf c column bounded msg (event_of x) memory s r
      → IsReported msg event event_id memory s r
  IsReported-counted msg event event_id x k memory s r named contract new done = record {
    last = done.last;
    committed = done.committed;
    reported = elim done.counting [
      | inl (old, same) ↦
          absurd (cc (sym (ap (λ i. elem i s.0.tables.consumed) contract.identified ∙ new) ∙ old))
      | inr (fresh, (l, typed, held)) ↦
          let same : l ≡ k =
            type_of-injective l k
              (typed ∙ (contract.dispatched ∙ (kind_of-projecting event k named).0)) in
          rw named (
            subst (λ m. Represents pf m done.last.0.tables)
              (same_count l k _ _ _ _ same contract.identified contract.timed memory) held)
    ];
  }

  IsReported-skipped :
      (msg : Message) (event : DomainEvent) (event_id : String) (e : AnalyticsEvent)
      (memory : MemoryStore) (s : Store × B)
      → kind_of event ≡ none
      → e.type_name ≡ known_type event
      → c.decode msg.value ≡ ok e
      → Represents pf memory s.0.tables
      → IsReported msg event event_id memory s (handle_fetched_message (projector pf c) msg s)
  unfolding handle_fetched_message
  IsReported-skipped msg event event_id e memory s skipped typed decoded held =
      let aside = ap is_projecting_event_type typed ∙ kind_of-skipped event skipped in
      record {
        last = s;
        committed = rw (decoded, aside, handle_fetched_message) refl;
        reported = rw skipped held;
      }

  -- Where no statement fails, with a retry and time columns as documented: let a domain event be
  -- encoded for the analytics topic under an id that was not consumed before, and let the message
  -- that the projector fetches decode to that event. It ends with the commit of the message, over
  -- tables that count the event once more, by its kind and at its time, if it is about a path, and
  -- that count as before if it is about a schedule.
  pub handle_fetched_message-IsReported :
      (msg : Message) (event : DomainEvent) (event_id : String) (x : Encoded) (memory : MemoryStore)
      (s : Store × B)
      → encode_analytics pf sdk_valid event event_id ≡ ok x
      → c.decode msg.value ≡ ok (event_of x)
      → s.0.begun ≡ none
      → s.0.aborted ≡ false
      → s.0.faults ≡ []
      → Represents pf memory s.0.tables
      → elem event_id s.0.tables.consumed ≡ false
      → IsReported msg event event_id memory s (handle_fetched_message (projector pf c) msg s)
  unfolding encode_analytics
  handle_fetched_message-IsReported msg event event_id x memory s encoded decoded none_open
        unaborted calm held new =
      let contract =
        encode_for-IsContract pf sdk_valid event event_id analytics_topic "analytics" x encoded in
      elim (Option-cases (kind_of event)) [
        | inl skipped ↦
            IsReported-skipped msg event event_id (event_of x) memory s skipped contract.dispatched
              decoded held
        | inr (k, named) ↦
            let counts =
              ap is_projecting_event_type contract.dispatched
              ∙ (kind_of-projecting event k named).1 in
            IsReported-counted msg event event_id x k memory s _ named contract new (
              handle_fetched_message-IsCounting pf c column bounded msg (event_of x) memory s
                decoded counts none_open unaborted calm held)
      ]
