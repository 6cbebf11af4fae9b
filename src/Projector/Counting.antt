-- ===== src/Projector/Counting.antt =====
-- One message of analytics_consumer.go where no statement fails.
use process_path_management.Prelude.{
  ℕ, String, Bool, true, false, ◌≡◌, ◌⊎◌, refl, sym, ap, ◌∙◌, [], ◌∷◌, none, inl, inr, arith, elem,
  Bool-cases, eq_iff, ◌==◌,
}
use process_path_management.Errors.{Result, ok}
use process_path_management.Shared.Platform.{Platform}
use process_path_management.Kafka.{
  type_process_path_created, type_process_path_updated, type_process_path_deactivated,
}
use process_path_management.Transaction.{exec}
use process_path_management.Analytics.{MemoryStore}
use process_path_management.Analytics.Totals.{Kind, created, updated, deactivated, apply_kind}
use process_path_management.Analytics.Tables.{Store, mark_processed}
use process_path_management.Analytics.Tables.Refines.{
  IsTimeColumn, Represents, apply_stored, apply_stored-IsAppliedOnce, apply_stored-calm,
}
use process_path_management.Projector.{
  AnalyticsEvent, Outside, apply_projection, is_projecting_event_type, after_mark,
  handle_fetched_message,
}
use process_path_management.Projector.Wired.{Clients, IsBoundedRetry, projector}
use process_path_management.Projector.Broker.{Message, retry_policy}
use process_path_management.Projector.Once.{same_held}

abbrev pub type_of : Kind → String
type_of created = type_process_path_created
type_of updated = type_process_path_updated
type_of deactivated = type_process_path_deactivated

module _ {B : Type 0} (pf : Platform) (c : Clients B) where
  module _ (column : IsTimeColumn pf) (bounded : IsBoundedRetry c) where
    abbrev o : Outside (Store × B)
    o = projector pf c

    first_answer :
        (A : Type 0) (fn : Store × B → Result A × (Store × B)) (s : Store × B) (a : A)
        → (fn s).0 ≡ ok a
        → c.retry retry_policy fn s ≡ fn s
    first_answer A fn s a answered = ground (arith, bounded A retry_policy fn s)

    projecting_kind :
        (t : String) → is_projecting_event_type t ≡ true → (k : Kind) × (type_of k ≡ t)
    projecting_kind t counts = elim (Bool-cases (t == type_process_path_created)) [
      | inl a ↦ (created, sym ((eq_iff t type_process_path_created).0 a))
      | inr na ↦ elim (Bool-cases (t == type_process_path_updated)) [
        | inl b ↦ (updated, sym ((eq_iff t type_process_path_updated).0 b))
        | inr nb ↦ elim (Bool-cases (t == type_process_path_deactivated)) [
          | inl d ↦ (deactivated, sym ((eq_iff t type_process_path_deactivated).0 d))
          | inr nd ↦ absurd (ground arith)
        ]
      ]
    ]

    abbrev of_kind : Kind → String → ℕ → AnalyticsEvent
    of_kind k id at = record { id = id; type_name = type_of k; time = at }

    dispatched :
        (k : Kind) (id : String) (at : ℕ) (s : Store × B)
        → apply_projection o (of_kind k id at) s
          ≡ ((apply_stored pf k id at s.0).0, ((apply_stored pf k id at s.0).1, s.1))
    dispatched created id at s = refl
    dispatched updated id at s = refl
    dispatched deactivated id at s = refl

    event_eq : (k : Kind) (e : AnalyticsEvent) → type_of k ≡ e.type_name → e ≡ of_kind k e.id e.time
    event_eq k e h = cc

    -- What handling a message leaves to be committed.
    pub record IsCounting (msg : Message) (e : AnalyticsEvent) (memory : MemoryStore)
        (s : Store × B) (r : Result (Unit {0}) × (Store × B)) : Type 0 where
      pub last : Store × B
      pub committed : r ≡ o.commit_messages msg last
      pub broker_kept : last.1 ≡ s.1
      pub counting :
          ((elem e.id s.0.tables.consumed ≡ true) × (last.0.tables ≡ s.0.tables))
          ⊎ ((elem e.id s.0.tables.consumed ≡ false)
              × ((k : Kind) × (type_of k ≡ e.type_name)
                  × Represents pf (apply_kind k e.id e.time memory) last.0.tables))

    abbrev marked : String → Store × B → Store × B
    marked id s =
        (record s.0 { tables = record s.0.tables { consumed = id ∷ s.0.tables.consumed } }, s.1)

    mark-old :
        (id : String) (s : Store × B)
        → s.0.aborted ≡ false
        → s.0.faults ≡ []
        → elem id s.0.tables.consumed ≡ true
        → o.mark_processed id s ≡ (ok false, s)
    unfolding mark_processed exec
    mark-old id s unaborted calm old = ground arith

    mark-new :
        (id : String) (s : Store × B)
        → s.0.aborted ≡ false
        → s.0.faults ≡ []
        → elem id s.0.tables.consumed ≡ false
        → o.mark_processed id s ≡ (ok true, marked id s)
    unfolding mark_processed exec
    mark-new id s unaborted calm new = ground arith

    applied_first :
        (k : Kind) (e : AnalyticsEvent) (s : Store × B)
        → type_of k ≡ e.type_name
        → s.0.faults ≡ []
        → c.retry retry_policy (apply_projection o e) s
          ≡ (ok tt, ((apply_stored pf k e.id e.time s.0).1, s.1))
    applied_first k e s named calm =
        let done : apply_projection o e s ≡ (ok tt, ((apply_stored pf k e.id e.time s.0).1, s.1)) =
          ap (λ x. apply_projection o x s) (event_eq k e named)
          ∙ dispatched k e.id e.time s
          ∙ ap (λ x. (x, ((apply_stored pf k e.id e.time s.0).1, s.1)))
              (apply_stored-calm pf column k e.id e.time s.0 calm).0 in
        first_answer (Unit {0}) (apply_projection o e) s tt (ap (λ r. r.0) done) ∙ done

    IsCounting-new :
        (msg : Message) (e : AnalyticsEvent) (memory : MemoryStore) (s : Store × B)
        → is_projecting_event_type e.type_name ≡ true
        → s.0.begun ≡ none
        → s.0.faults ≡ []
        → Represents pf memory s.0.tables
        → elem e.id s.0.tables.consumed ≡ false
        → IsCounting msg e memory s (after_mark o msg e (ok true, marked e.id s))
    IsCounting-new msg e memory s counts none_open calm held new =
        let (k, named) = projecting_kind e.type_name counts in
        let t = marked e.id s in
        let done =
          apply_stored-IsAppliedOnce pf column k e.id e.time memory t.0 none_open
            (same_held pf memory s.0.tables t.0.tables held refl refl) in
        let made = (apply_stored-calm pf column k e.id e.time t.0 calm).0 in
        record {
          last = ((apply_stored pf k e.id e.time t.0).1, s.1);
          committed = rw (applied_first k e t named calm) refl;
          broker_kept = refl;
          counting = inr (
            new,
            (
              k,
              named,
              elim done.outcome [
                | inl (bad, failed, same) ↦ absurd (ground arith)
                | inr (ok_, kept) ↦ kept
              ],
            ),
          );
        }

    -- Where no statement fails, with a retry and time columns as documented, handling a projecting
    -- event ends with the commit of its message. If its id was consumed before, the tables are as
    -- they were, whether the event had been counted or not; if not, they hold what the store in
    -- memory holds after the event.
    pub handle_fetched_message-IsCounting :
        (msg : Message) (e : AnalyticsEvent) (memory : MemoryStore) (s : Store × B)
        → c.decode msg.value ≡ ok e
        → is_projecting_event_type e.type_name ≡ true
        → s.0.begun ≡ none
        → s.0.aborted ≡ false
        → s.0.faults ≡ []
        → Represents pf memory s.0.tables
        → IsCounting msg e memory s (handle_fetched_message o msg s)
    unfolding handle_fetched_message
    handle_fetched_message-IsCounting msg e memory s decoded counts none_open unaborted calm held =
        elim (Bool-cases (elem e.id s.0.tables.consumed)) [
          | inl old ↦
              let marks = mark-old e.id s unaborted calm old in
              rw (decoded, counts, handle_fetched_message)
                (rw
                  (first_answer Bool (o.mark_processed e.id) s false (ap (λ r. r.0) marks) ∙ marks)
                  (record {
                    last = s;
                    committed = refl;
                    broker_kept = refl;
                    counting = inl (old, refl);
                  }))
          | inr new ↦
              let marks = mark-new e.id s unaborted calm new in
              rw (decoded, counts, handle_fetched_message)
                (rw (first_answer Bool (o.mark_processed e.id) s true (ap (λ r. r.0) marks) ∙ marks)
                  (IsCounting-new msg e memory s counts none_open calm held new))
        ]
