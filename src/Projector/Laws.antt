-- ===== src/Projector/Laws.antt =====
-- How handleFetchedMessage of analytics_consumer.go ends.
use process_path_management.Prelude.{Bool, true, false, ◌≡◌, refl, ◌⊎◌, inl, inr, Bool-cases}
use process_path_management.Errors.{Error, Result, ok, err, Result-cases}
use process_path_management.Projector.{
  Outside, retry_bounded, AnalyticsEvent, dlq_publish, after_dlq, dead_letter_and_commit,
  after_apply, after_mark, is_projecting_event_type, handle_fetched_message,
}
use process_path_management.Projector.Broker.{Message}

module _ {S : Type 0} (o : Outside S) where
  -- The message was committed last, or its write to the dead-letter topic failed last.
  abbrev pub Ends : Message → Result (Unit {0}) × S → Type 0
  Ends m r =
      ((t : S) × (r ≡ o.commit_messages m t))
      ⊎ ((t : S) × (cause : Error) × (e : Error) × (u : S) × (dlq_publish o m cause t ≡ (err e, u))
          × (r ≡ after_dlq o m (err e, u)))

  after_dlq-Ends :
      (m : Message) (cause : Error) (s : S) (r : Result (Unit {0}) × S)
      → dlq_publish o m cause s ≡ r
      → Ends m (after_dlq o m r)
  after_dlq-Ends m cause s (ok _, t) h = inl (t, refl)
  after_dlq-Ends m cause s (err e, t) h = inr (s, cause, e, t, h, refl)

  dead_letter-Ends :
      (m : Message) (cause : Error) (s : S) → Ends m (dead_letter_and_commit o m cause s)
  dead_letter-Ends m cause s = after_dlq-Ends m cause s _ refl

  after_apply-Ends : (m : Message) (r : Result (Unit {0}) × S) → Ends m (after_apply o m r)
  after_apply-Ends m (ok _, s) = inl (s, refl)
  after_apply-Ends m (err e, s) = dead_letter-Ends m _ s

  after_mark-Ends :
      (m : Message) (e : AnalyticsEvent) (r : Result Bool × S) → Ends m (after_mark o m e r)
  after_mark-Ends m e (err cause, s) = dead_letter-Ends m _ s
  after_mark-Ends m e (ok false, s) = inl (s, refl)
  after_mark-Ends m e (ok true, s) = after_apply-Ends m _

  -- However a fetched message is handled, with any stores and any retries, either its commit comes
  -- last and gives the result, or its write to the dead-letter topic fails, nothing comes after that
  -- write, and the result is its error.
  handle_fetched_message-Ends : (m : Message) (s : S) → Ends m (handle_fetched_message o m s)
  unfolding handle_fetched_message
  handle_fetched_message-Ends m s = elim (Result-cases (o.decode m.value)) [
    | inl (cause, decoded) ↦ rw (decoded, handle_fetched_message) (dead_letter-Ends m _ s)
    | inr (e, decoded) ↦ elim (Bool-cases (is_projecting_event_type e.type_name)) [
      | inl counts ↦
          rw (decoded, counts, handle_fetched_message)
            (after_mark-Ends m e (retry_bounded o (o.mark_processed e.id) s))
      | inr skipped ↦ rw (decoded, skipped, handle_fetched_message) (inl (s, refl))
    ]
  ]
