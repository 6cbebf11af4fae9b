-- ===== src/Postgres/Outboxed.antt =====
-- A path and the event about it over the database: the unit of work of the use cases that save.
use process_path_management.Prelude.{
  ◌+◌, ℕ, String, ◌≡◌, refl, inl, inr, List, [], ◌∷◌, none, arith,
}
use process_path_management.Errors.{Error, Result, ok, err, Result-cases}
use process_path_management.Events.{DomainEvent, occurred_at}
use process_path_management.Shared.Platform.{Platform}
use process_path_management.ProcessPath.{ProcessPath}
use process_path_management.Kafka.{Encoded}
use process_path_management.UseCases.{save_and_publish}
use process_path_management.Postgres.Rows.{path_to_row}
use process_path_management.Transaction.{Session, exec, begin}
use process_path_management.Postgres.Session.{Tables, execute}
use process_path_management.Postgres.Atomic.{StaysInside, execute-IsAtomic}
use process_path_management.Postgres.Repo.{
  Encoder, enqueue, upsert, publish_each, publish, save, process_path_repo, outbox_publisher,
}

module _ {R : Type 0} where
  -- The outbox after an event, one row for each encoder, or the encoder's error.
  abbrev pub enqueue_each : List Encoder → DomainEvent → String → Tables R → Result (Tables R)
  enqueue_each [] event event_id t = ok t
  enqueue_each (encoder ∷ encoders) event event_id t = elim (encoder event event_id) [
    | err e ↦ err e
    | ok encoded ↦ enqueue_each encoders event event_id (enqueue encoded (occurred_at event) t)
  ]

  abbrev pub enqueueing : Encoded → DomainEvent → Tables R → Unit {0} × Tables R
  enqueueing encoded event t = (tt, enqueue encoded (occurred_at event) t)

  pub publish_each-ok :
      (encoders : List Encoder) (event : DomainEvent) (event_id : String) (s : Session (Tables R))
      → (publish_each encoders event event_id s).0 ≡ ok tt
      → enqueue_each encoders event event_id s.tables
        ≡ ok (publish_each encoders event event_id s).1.tables
  unfolding publish_each exec
  publish_each-ok [] event event_id s h = refl
  publish_each-ok (encoder ∷ encoders) event event_id s h =
      elim (Result-cases (encoder event event_id)) [
        | inr (encoded, e) ↦
            let later =
              publish_each-ok encoders event event_id (exec (enqueueing encoded event) s).1 in
            ground arith
        | inl (e, eq) ↦ ground arith
      ]

  pub publish_each-StaysInside :
      (encoders : List Encoder) (event : DomainEvent) (event_id : String) (s : Session (Tables R))
      → (publish_each encoders event event_id s).1.begun ≡ s.begun
  unfolding publish_each exec
  publish_each-StaysInside [] event event_id s = refl
  publish_each-StaysInside (encoder ∷ encoders) event event_id s =
      elim (Result-cases (encoder event event_id)) [
        | inr (encoded, e) ↦
            let later =
              publish_each-StaysInside encoders event event_id
                (exec (enqueueing encoded event) s).1 in
            ground arith
        | inl (e, eq) ↦ ground arith
      ]

  module _ (pf : Platform) (new_id : ℕ → String) (encoders : List Encoder) where
    -- The tables after a path was saved and its event put into the outbox, one row for each topic.
    abbrev pub written : ProcessPath → DomainEvent → Session (Tables R) → Result (Tables R)
    written p event s =
        enqueue_each encoders event (new_id s.minted)
          (record s.tables { paths = upsert (path_to_row pf p) s.tables.paths })

    -- What a use case that saves p and publishes the event may leave behind.
    pub record IsStored (p : ProcessPath) (event : DomainEvent) (s : Session (Tables R))
        (r : Result (Unit {0}) × Session (Tables R)) : Type 0 where
      pub closed : r.1.begun ≡ none
      pub undone : (e : Error) → r.0 ≡ err e → r.1.tables ≡ s.tables
      pub stored : r.0 ≡ ok tt → written p event s ≡ ok r.1.tables

    abbrev pub save_to_outbox :
        ProcessPath → DomainEvent → Session (Tables R) → Result (Unit {0}) × Session (Tables R)
    save_to_outbox = save_and_publish (process_path_repo pf) (outbox_publisher new_id encoders)

    pub save_to_outbox-StaysInside :
        (p : ProcessPath) (event : DomainEvent) → StaysInside (save_to_outbox p event)
    unfolding save publish exec
    save_to_outbox-StaysInside p event s =
        let saved = save pf p s in
        let minting : Session (Tables R) = record saved.1 { minted = saved.1.minted + 1 } in
        let later = publish_each-StaysInside encoders event (new_id saved.1.minted) minting in
        ground arith

    save_to_outbox-ok :
        (p : ProcessPath) (event : DomainEvent) (s : Session (Tables R))
        → (save_to_outbox p event s).0 ≡ ok tt
        → written p event s ≡ ok (save_to_outbox p event s).1.tables
    unfolding save publish exec
    save_to_outbox-ok p event s h =
        let saved = save pf p s in
        let minting : Session (Tables R) = record saved.1 { minted = saved.1.minted + 1 } in
        let later = publish_each-ok encoders event (new_id saved.1.minted) minting in ground arith

    pub save_to_outbox-IsStored :
        (p : ProcessPath) (event : DomainEvent) (s : Session (Tables R))
        → s.begun ≡ none
        → IsStored p event s (execute (save_to_outbox p event) s)
    unfolding begin
    save_to_outbox-IsStored p event s none_open =
        let atomic =
          execute-IsAtomic (save_to_outbox p event) s (save_to_outbox-StaysInside p event)
            none_open in
        record {
          closed = atomic.closed;
          undone = atomic.undone;
          stored = λ h.
              let inside = save_to_outbox-ok p event (begin s).1 (atomic.done h).0 in
              let same = (atomic.done h).1 in ground arith;
        }
