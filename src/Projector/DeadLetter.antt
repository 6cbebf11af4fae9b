-- ===== src/Projector/DeadLetter.antt =====
-- The dead letters of analytics_consumer.go: what writeDLQ makes of the errors of its writes, and what
-- becomes of a message that is not a CloudEvent.
use process_path_management.Prelude.{
  ℕ, ◌<◌, suc, zero, ◌++ˢ◌, true, false, ◌≡◌, ◌⊎◌, refl, inl, inr, [], ◌∷◌, ◌++◌, some, none, arith,
  ap, ◌∙◌, Bool-cases, Option-cases,
}
use process_path_management.Errors.{Error, Result, ok, err, other, error_text}
use process_path_management.Projector.{
  Outside, written, write_dlq, dead_letter, dlq_publish, after_dlq, dlq_topic_ready_attempts,
  handle_fetched_message,
}
use process_path_management.Projector.Broker.{
  Message, Writer, WriteFailure, is_topic_not_ready, source_topic,
}

module _ {S : Type 0} (o : Outside S) (w : Writer) (m : Message) where
  -- The attempts to write m: so many find the topic not ready, each waited for while the context is
  -- not cancelled, and the next is accepted.
  pub data Accepted : ℕ → S → S → Type 0 where
    at_once : {s t : S} → o.write_messages w m s ≡ (none, t) → Accepted 0 s t
    waited :
        {n : ℕ} {s u t : S} (f : WriteFailure)
        → o.write_messages w m s ≡ (some f, u)
        → is_topic_not_ready o.count f ≡ true
        → o.cancelled u ≡ false
        → Accepted n u t
        → Accepted (suc n) s t

  -- writes of m that failed, one after the other, and nothing else
  pub data Refused : S → S → Type 0 where
    stopped : {s : S} → Refused s s
    refused :
        {s u t : S} (f : WriteFailure)
        → o.write_messages w m s ≡ (some f, u)
        → Refused u t
        → Refused s t

  -- the pass of the loop that the answer of its write ends, or that it goes on from
  accepted-write_dlq :
      (k : ℕ) (before : Result (Unit {0})) (s t : S)
      → o.write_messages w m s ≡ (none, t)
      → write_dlq o (suc k) before w m s ≡ (ok tt, t)
  unfolding write_dlq
  accepted-write_dlq k before s t done = ground arith

  waited-write_dlq :
      (k : ℕ) (before : Result (Unit {0})) (f : WriteFailure) (s u : S)
      → o.write_messages w m s ≡ (some f, u)
      → is_topic_not_ready o.count f ≡ true
      → o.cancelled u ≡ false
      → write_dlq o (suc k) before w m s ≡ write_dlq o k (written o (some f)) w m u
  unfolding write_dlq
  waited-write_dlq k before f s u failed unready on = ground arith

  write_dlq-Accepted :
      (k : ℕ) (before : Result (Unit {0})) (n : ℕ) (s t : S)
      → n < k
      → Accepted n s t
      → write_dlq o k before w m s ≡ (ok tt, t)
  write_dlq-Accepted zero before n s t few a = absurd (omega arith)
  write_dlq-Accepted (suc k) before _ s t few (at_once done) = accepted-write_dlq k before s t done
  write_dlq-Accepted (suc k) before (suc n) s t few (waited f failed unready on a) =
      waited-write_dlq k before f s _ failed unready on
      ∙ write_dlq-Accepted k (written o (some f)) n _ t (omega arith) a

  write_dlq-cases :
      (k : ℕ) (e : Error) (s : S)
      → ((n : ℕ) × (t : S) × (n < k) × Accepted n s t)
        ⊎ ((e' : Error) × (u : S) × Refused s u × (write_dlq o k (err e) w m s ≡ (err e', u)))
  unfolding write_dlq
  write_dlq-cases zero e s = inr (e, s, stopped, refl)
  write_dlq-cases (suc k) e s =
      let r = o.write_messages w m s in
      let one : (f : WriteFailure) → r.0 ≡ some f → o.write_messages w m s ≡ (some f, r.1) =
        λ f failed. ap (λ x. (x, r.1)) failed in
      elim (Option-cases r.0) [
        | inl none_ ↦ inl (0, r.1, omega arith, at_once (ground arith))
        | inr (f, failed) ↦ elim (Bool-cases (is_topic_not_ready o.count f)) [
          | inl unready ↦ elim (Bool-cases (o.cancelled r.1)) [
            | inl off ↦ inr (
              other (o.failure_text f ++ˢ "\ncontext canceled"),
              r.1,
              refused f (one f failed) stopped,
              ground arith,
            )
            | inr on ↦
                let step = waited-write_dlq k (err e) f s r.1 (one f failed) unready on in
                elim (write_dlq-cases k (other (o.failure_text f)) r.1) [
                  | inl (n, t, few, a) ↦
                      inl (suc n, t, omega arith, waited f (one f failed) unready on a)
                  | inr (e', u, only, failing) ↦
                      inr (e', u, refused f (one f failed) only, step ∙ failing)
                ]
          ]
          | inr fatal ↦
              inr (other (o.failure_text f), r.1, refused f (one f failed) stopped, ground arith)
        ]
      ]

module _ {S : Type 0} (o : Outside S) (m : Message) where
  -- a message with the key and the value of m, whose headers say after those of m where it came from
  -- and why and when it failed
  abbrev pub Letter : Error → S → Message
  Letter cause s = record {
    key = m.key;
    value = m.value;
    headers =
        m.headers
        ++ (("x-dlq-source-topic", source_topic o.consumer)
            ∷ ("x-dlq-error", "analytics: " ++ˢ error_text cause)
            ∷ ("x-dlq-failed-at", o.now s)
            ∷ []);
  }

  -- A message is committed once its dead letter was accepted; else nothing is done but writes that
  -- fail, and the result is an error.
  pub record IsDeadLettered (w : Writer) (letter : Message) (s : S) (r : Result (Unit {0}) × S)
      : Type 0 where
    pub sent : (n : ℕ) (t : S) → n < 40 → Accepted o w letter n s t → r ≡ o.commit_messages m t
    pub otherwise :
        ((n : ℕ) × (t : S) × (n < 40) × Accepted o w letter n s t)
        ⊎ ((e : Error) × (u : S) × Refused o w letter s u × (r ≡ (err e, u)))

  dlq_publish-write_dlq :
      (w : Writer) (cause : Error) (s : S)
      → o.consumer.dlq_writer ≡ some w
      → dlq_publish o m cause s
        ≡ write_dlq o dlq_topic_ready_attempts (err cause) w (dead_letter o m cause s) s
  unfolding dlq_publish write_dlq
  dlq_publish-write_dlq w cause s is_set = rw (is_set, dlq_publish) refl

  after_dlq-IsDeadLettered :
      (w : Writer) (cause : Error) (s : S)
      → o.consumer.dlq_writer ≡ some w
      → IsDeadLettered w (dead_letter o m cause s) s (after_dlq o m (dlq_publish o m cause s))
  after_dlq-IsDeadLettered w cause s is_set =
      let letter = dead_letter o m cause s in
      let published = dlq_publish-write_dlq w cause s is_set in
      record {
        sent = λ n t few a. ap (after_dlq o m) (
            published
            ∙ write_dlq-Accepted o w letter dlq_topic_ready_attempts (err cause) n s t few a);
        otherwise = elim (write_dlq-cases o w letter dlq_topic_ready_attempts cause s) [
          | inl a ↦ inl a
          | inr (e, u, only, failing) ↦ inr (_, u, only, ap (after_dlq o m) (published ∙ failing))
        ];
      }

  -- Where the consumer has a dead-letter writer, a message that does not decode is committed as soon
  -- as its dead letter is accepted, if that is within 40 attempts, the ones before failing only since
  -- the topic is not ready and the context not being cancelled between them. If no such attempt is
  -- accepted, nothing but writes that fail is done, and the result is an error. The dead letter has the message's key and value, and its
  -- headers followed by the source topic, the error and the time.
  pub handle_fetched_message-IsDeadLettered :
      (w : Writer) (cause : Error) (s : S)
      → o.consumer.dlq_writer ≡ some w
      → o.decode m.value ≡ err cause
      → IsDeadLettered w (Letter cause s) s (handle_fetched_message o m s)
  unfolding handle_fetched_message
  handle_fetched_message-IsDeadLettered w cause s is_set decoded =
      rw (decoded, handle_fetched_message)
        (after_dlq-IsDeadLettered w (other ("analytics: " ++ˢ error_text cause)) s is_set)
