-- ===== src/Projector/Once.antt =====
-- What the projector counts: analytics_consumer.go over the tables of analyticsstore.
use process_path_management.Prelude.{
  ℕ, String, Bool, true, false, ◌≡◌, refl, ◌∙◌, subst, zero, suc, none, inl, inr, arith, In,
  Bool-cases, Option-cases, ◌==◌, ◌++ˢ◌,
}
use process_path_management.Errors.{Error, Result, ok, err, Result-cases}
use process_path_management.Shared.Platform.{Platform}
use process_path_management.Kafka.{
  type_process_path_created, type_process_path_updated, type_process_path_deactivated,
  analytics_topic,
}
use process_path_management.Transaction.{exec}
use process_path_management.Analytics.{MemoryStore}
use process_path_management.Analytics.Totals.{
  Kind, created, updated, deactivated, IsCounted, apply_kind, apply_kind-IsCounted, seen-apply_kind,
}
use process_path_management.Analytics.Tables.{Store, ReportTables, mark_processed}
use process_path_management.Analytics.Tables.Refines.{
  IsTimeColumn, Represents, apply_stored, apply_stored-IsAppliedOnce,
}
use process_path_management.Projector.{
  AnalyticsEvent, Outside, apply_projection, written, write_dlq, dead_letter, dlq_publish,
  after_dlq, dead_letter_and_commit, after_apply, after_mark, dlq_topic_ready_attempts,
  is_projecting_event_type, handle_fetched_message,
}
use process_path_management.Projector.Wired.{Clients, Tried, IsBoundedRetry, projector}
use process_path_management.Projector.Broker.{
  Message, Writer, max_analytics_handler_attempts, retry_policy, new_dlq_writer,
  analytics_dlq_topic_suffix,
}

-- A retry keeps what each call keeps.
Tried-keeps :
    {S : Type 0} {A : Type 0} (P : S → Type 0) (fn : S → Result A × S)
    → ((s : S) → P s → P (fn s).1)
    → (n : ℕ) (s : S) (r : Result A × S) → P s
    → Tried fn n s r
    → P r.1
Tried-keeps P fn keeps zero s r p tried = absurd tried
Tried-keeps P fn keeps (suc n) s r p (inl e) = rw e (keeps s p)
Tried-keeps P fn keeps (suc n) s r p (inr (e, failed, inl (stop, ends))) = rw ends (keeps s p)
Tried-keeps P fn keeps (suc n) s r p (inr (e, failed, inr more)) =
    Tried-keeps P fn keeps n (fn s).1 r (keeps s p) more

pub same_held :
    (pf : Platform) (m : MemoryStore) (t q : ReportTables)
    → Represents pf m t
    → q.processed ≡ t.processed
    → q.rollup ≡ t.rollup
    → Represents pf m q
same_held pf m t q held ids rows = record {
  same_ids = λ a. rw ids (held.same_ids a);
  same_rows = rw rows held.same_rows;
  same_latest = rw ids held.same_latest;
}

module _ {B : Type 0} (pf : Platform) (c : Clients B) (D : String → Type 0) where
  -- The tables hold what a store in memory holds that counted each of its ids once, each of which
  -- is one that was delivered; no transaction is open.
  pub record IsOnce (s : Store) : Type 0 where
    pub closed : s.begun ≡ none
    pub memory : MemoryStore
    pub counted : IsCounted memory
    pub held : Represents pf memory s.tables
    pub delivered : (a : String) → In a memory.seen → D a

  mark_processed-IsOnce : (id : String) (s : Store) → IsOnce s → IsOnce (mark_processed id s).1
  unfolding mark_processed exec
  mark_processed-IsOnce id s once =
      let none_open = once.closed in
      record {
        closed = ground arith;
        memory = once.memory;
        counted = once.counted;
        held =
            same_held pf once.memory s.tables (mark_processed id s).1.tables once.held
              (ground arith) (ground arith);
        delivered = once.delivered;
      }

  module _ (column : IsTimeColumn pf) where
    apply_stored-IsOnce :
        (k : Kind) (id : String) (at : ℕ) (s : Store)
        → D id
        → IsOnce s
        → IsOnce (apply_stored pf k id at s).1
    apply_stored-IsOnce k id at s came once =
        let applied =
          apply_stored-IsAppliedOnce pf column k id at once.memory s once.closed once.held in
        elim applied.outcome [
          | inl (e, failed, same) ↦ record {
            closed = applied.closed;
            memory = once.memory;
            counted = once.counted;
            held = rw same once.held;
            delivered = once.delivered;
          }
          | inr (made, held) ↦ record {
            closed = applied.closed;
            memory = apply_kind k id at once.memory;
            counted = apply_kind-IsCounted k id at once.memory once.counted;
            held = held;
            delivered = λ a i. elim ((seen-apply_kind k id at once.memory a).0 i) [
              | inl e ↦ subst D e came
              | inr old ↦ once.delivered a old
            ];
          }
        ]

    abbrev o : Outside (Store × B)
    o = projector pf c

    apply_projection-IsOnce :
        (e : AnalyticsEvent) (s : Store × B)
        → D e.id
        → IsOnce s.0
        → IsOnce (apply_projection o e s).1.0
    apply_projection-IsOnce e s came once =
        elim (Bool-cases (e.type_name == type_process_path_created)) [
          | inl made ↦ rw made (apply_stored-IsOnce created e.id e.time s.0 came once)
          | inr unmade ↦ rw unmade (elim (Bool-cases (e.type_name == type_process_path_updated)) [
            | inl changed ↦ rw changed (apply_stored-IsOnce updated e.id e.time s.0 came once)
            | inr unchanged ↦
                rw unchanged (elim (Bool-cases (e.type_name == type_process_path_deactivated)) [
                  | inl ended ↦ rw ended (apply_stored-IsOnce deactivated e.id e.time s.0 came once)
                  | inr other ↦ rw other once
                ])
          ])
        ]

    write_dlq-store :
        (n : ℕ) (before : Result (Unit {0})) (w : Writer) (m : Message) (s : Store × B)
        → (write_dlq o n before w m s).1.0 ≡ s.0
    unfolding write_dlq
    write_dlq-store zero before w m s = refl
    write_dlq-store (suc n) before w m s =
        let made = o.write_messages w m s in
        let later = write_dlq-store n (written o made.0) w m made.1 in
        ground (arith, Option-cases (c.write_messages w m s.1).0)

    dlq_publish-store :
        (m : Message) (cause : Error) (s : Store × B) → (dlq_publish o m cause s).1.0 ≡ s.0
    unfolding dlq_publish
    dlq_publish-store m cause s =
        write_dlq-store dlq_topic_ready_attempts (ok tt)
          (new_dlq_writer c.brokers (analytics_topic ++ˢ analytics_dlq_topic_suffix))
          (dead_letter o m cause s) s

    after_dlq-store :
        (m : Message) (r : Result (Unit {0}) × (Store × B)) → (after_dlq o m r).1.0 ≡ r.1.0
    after_dlq-store m (ok _, s) = refl
    after_dlq-store m (err e, s) = refl

    dead_letter-store :
        (m : Message) (cause : Error) (s : Store × B)
        → (dead_letter_and_commit o m cause s).1.0 ≡ s.0
    dead_letter-store m cause s =
        after_dlq-store m (dlq_publish o m cause s) ∙ dlq_publish-store m cause s

    after_apply-store :
        (m : Message) (r : Result (Unit {0}) × (Store × B)) → (after_apply o m r).1.0 ≡ r.1.0
    after_apply-store m (ok _, s) = refl
    after_apply-store m (err e, s) = dead_letter-store m _ s

    module _ (bounded : IsBoundedRetry c) where
      after_mark-IsOnce :
          (m : Message) (e : AnalyticsEvent) (r : Result Bool × (Store × B))
          → D e.id
          → IsOnce r.1.0
          → IsOnce (after_mark o m e r).1.0
      after_mark-IsOnce m e (err cause, s) came once = rw (dead_letter-store m _ s) once
      after_mark-IsOnce m e (ok false, s) came once = once
      after_mark-IsOnce m e (ok true, s) came once =
          rw (after_apply-store m (c.retry retry_policy (apply_projection o e) s)) (
            Tried-keeps (λ t. IsOnce t.0) (apply_projection o e)
              (λ t. apply_projection-IsOnce e t came) max_analytics_handler_attempts s
              (c.retry retry_policy (apply_projection o e) s) once
              (bounded (Unit {0}) retry_policy (apply_projection o e) s))

      pub handle_fetched_message-IsOnce :
          (m : Message) (s : Store × B)
          → ((e : AnalyticsEvent)
              → c.decode m.value ≡ ok e
              → is_projecting_event_type e.type_name ≡ true
              → D e.id)
          → IsOnce s.0
          → IsOnce (handle_fetched_message o m s).1.0
      unfolding handle_fetched_message
      handle_fetched_message-IsOnce m s came once = elim (Result-cases (c.decode m.value)) [
        | inl (cause, decoded) ↦
            rw (decoded, handle_fetched_message) (rw (dead_letter-store m _ s) once)
        | inr (e, decoded) ↦ elim (Bool-cases (is_projecting_event_type e.type_name)) [
          | inl counts ↦
              rw (decoded, counts, handle_fetched_message)
                (after_mark-IsOnce m e (c.retry retry_policy (o.mark_processed e.id) s)
                  (came e decoded counts)
                  (Tried-keeps (λ t. IsOnce t.0) (o.mark_processed e.id)
                    (λ t. mark_processed-IsOnce e.id t.0) max_analytics_handler_attempts s
                    (c.retry retry_policy (o.mark_processed e.id) s) once
                    (bounded Bool retry_policy (o.mark_processed e.id) s)))
          | inr skipped ↦ rw (decoded, skipped, handle_fetched_message) once
        ]
      ]
