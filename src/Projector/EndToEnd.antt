-- ===== src/Projector/EndToEnd.antt =====
-- Defining a path over the database, Run of outbox_relay.go after it, and the projector of
-- analytics_consumer.go on what it sent.
use process_path_management.Prelude.{
  ℕ, ◌<◌, suc, String, Bool, ◌≡◌, sym, ap, ◌∙◌, List, [], ◌∷◌, ◌++◌, Option, some, none, false,
  arith, elem, append_moved, append_assoc, inl, inr,
}
use process_path_management.Prelude.Int.{ℤ}
use process_path_management.Errors.{Error, ok, Result-cases}
use process_path_management.Events.{DomainEvent, process_path_created, facts_of, occurred_at}
use process_path_management.Shared.{PathId, Capability, DestinationLocationRole}
use process_path_management.Shared.Platform.{Platform}
use process_path_management.Shared.Eligibility.{Eligibility}
use process_path_management.ProcessPath.{ProcessPath}
use process_path_management.UseCases.{define_path}
use process_path_management.Transaction.{Session}
use process_path_management.Kafka.{CloudEvent, Encoded, encode, encode_analytics, analytics_topic}
use process_path_management.Kafka.Contract.{encode_for-IsContract}
use process_path_management.Postgres.Session.{Tables}
use process_path_management.Postgres.Repo.{Encoder}
use process_path_management.Postgres.Wired.{define_stored}
use process_path_management.Relay.{Sink, pending}
use process_path_management.Relay.Run.{run}
use process_path_management.Relay.Run.Drains.{unpublished}
use process_path_management.Relay.Run.Delivers.{encoded_rows, IsLogged, delivered}
use process_path_management.Relay.Run.Arrives.{encode_each, Fresh, IsNumbered}
use process_path_management.Relay.Run.EndToEnd.{define_path-delivered}
use process_path_management.Analytics.{MemoryStore}
use process_path_management.Analytics.Tables.{Store}
use process_path_management.Analytics.Tables.Refines.{IsTimeColumn, Represents}
use process_path_management.Projector.{handle_fetched_message}
use process_path_management.Projector.Wired.{Clients, IsBoundedRetry, projector}
use process_path_management.Projector.Broker.{Message}
use process_path_management.Projector.Published.{
  event_of, IsReported, handle_fetched_message-IsReported,
}

module _ (pf : Platform) (sdk_valid : CloudEvent → Bool) where
  -- the encoders that buildEventPublisher of cmd/pathmgmt/main.go gives the outbox
  abbrev pub both_topics : List Encoder
  both_topics = encode pf sdk_valid ∷ encode_analytics pf sdk_valid ∷ []

  encode_each-both :
      (event : DomainEvent) (event_id : String) (es : List Encoded)
      → encode_each both_topics event event_id ≡ ok es
      → (first : Encoded) × (x : Encoded) × (es ≡ first ∷ x ∷ [])
        × (encode_analytics pf sdk_valid event event_id ≡ ok x)
  encode_each-both event event_id es h = elim (Result-cases (encode pf sdk_valid event event_id)) [
    | inl (e, failed) ↦ absurd (ground arith)
    | inr (first, a) ↦ elim (Result-cases (encode_analytics pf sdk_valid event event_id)) [
      | inl (e, failed) ↦ absurd (ground arith)
      | inr (x, b) ↦ (first, x, ground arith, b)
    ]
  ]

at_end :
    (a b es : List Encoded) (first x : Encoded)
    → es ≡ first ∷ x ∷ []
    → a ++ (b ++ es) ≡ ((a ++ b) ++ first ∷ []) ++ x ∷ []
at_end a b es first x pair =
    sym (append_assoc a b es)
    ∙ (ap (λ m. (a ++ b) ++ m) pair ∙ sym (append_moved (a ++ b) first (x ∷ [])))

module _ {B : Type 0} (pf : Platform) (sdk_valid : CloudEvent → Bool) (c : Clients B)
    (column : IsTimeColumn pf) (bounded : IsBoundedRetry c) where
  -- The sink was sent an event last, for the analytics topic, that the projector counts.
  pub record IsCountedLast (to_message : Encoded → Message) (event : DomainEvent)
      (event_id : String) (memory : MemoryStore) (q : Store × B) (log : Option (ℕ × List Encoded))
      : Type 0 where
    pub last : Encoded
    pub earlier : List Encoded
    pub sent_last : log ≡ some (0, earlier ++ last ∷ [])
    pub placed : last.topic ≡ analytics_topic
    pub reported :
        IsReported pf c column bounded sdk_valid
          (to_message last)
          event
          event_id
          memory
          q
          (handle_fetched_message (projector pf c) (to_message last) q)

module _ {R K B : Type 0} (pf : Platform) (new_id : ℕ → String) (sdk_valid : CloudEvent → Bool)
    (sink : Sink K) (sent : K → List Encoded) (l : IsLogged sink sent) (c : Clients B)
    (column : IsTimeColumn pf) (bounded : IsBoundedRetry c) where
  -- Outside of a transaction, over tables whose outbox has unique ids below the next one, with the
  -- encoders of cmd/pathmgmt, let defining a path succeed, with none of the encodings of its created
  -- event in the outbox before. Let the relay run on the tables after it as long as rows wait, where
  -- no statement fails and the sink takes and logs every event. Let the message of the analytics
  -- encoding decode to its event, and let the projector read it outside of a transaction, its retry
  -- and time columns as documented, no statement failing and the event's id not consumed before.
  -- Then Run returns with every row published, the last event that the sink was sent is for the
  -- analytics topic, and its message ends with its commit, over report tables that count one more
  -- path defined at the time that it was.
  pub define_path-reported :
      (to_message : Encoded → Message) (id : PathId) (match_prefix : String) (direct : Bool)
      (needed : List Capability) (role : DestinationLocationRole) (cycle_time : ℤ)
      (eligibility : Eligibility) (s u : Session (Tables R)) (p : ProcessPath) (es : List Encoded)
      (n : ℕ) (stop : Error) (passes : ℕ) (k : K) (memory : MemoryStore) (q : Store × B)
      → let r =
          define_path pf
            (define_stored pf new_id (both_topics pf sdk_valid))
            id
            match_prefix
            direct
            needed
            role
            cycle_time
            eligibility
            s in
        let event = process_path_created (facts_of p s.time) in
        s.begun ≡ none
        → IsNumbered s.tables
        → r.0 ≡ ok p
        → encode_each (both_topics pf sdk_valid) event (new_id s.minted) ≡ ok es
        → Fresh s.tables.next_id (occurred_at event) s.tables.outbox es
        → u.tables ≡ r.1.tables
        → u.faults ≡ []
        → unpublished u.tables.outbox < passes
        → ((x : Encoded)
            → encode_analytics pf sdk_valid event (new_id s.minted) ≡ ok x
            → c.decode (to_message x).value ≡ ok (event_of x))
        → q.0.begun ≡ none
        → q.0.aborted ≡ false
        → q.0.faults ≡ []
        → Represents pf memory q.0.tables
        → elem (new_id s.minted) q.0.tables.consumed ≡ false
        → IsCountedLast pf sdk_valid c column bounded to_message event
            (new_id s.minted)
            memory
            q
            (delivered sent (run sink (suc n) (λ st. (some stop, st)) passes (u, k)))
  unfolding encode_analytics
  define_path-reported to_message id match_prefix direct needed role cycle_time eligibility s u p es
        n stop passes k memory q none_open numbered made encoded fresh same calm few decoded closed
        unaborted calm_reports held new =
      let event = process_path_created (facts_of p s.time) in
      let (first, x, pair, analytic) =
        encode_each-both pf sdk_valid event (new_id s.minted) es encoded in
      let before = sent k ++ encoded_rows (pending s.tables.outbox) in
      let arrived =
        define_path-delivered pf new_id (both_topics pf sdk_valid) sink sent l id match_prefix
          direct needed role cycle_time eligibility s u p es n stop passes k none_open numbered made
          encoded fresh same calm few in
      record {
        last = x;
        earlier = before ++ first ∷ [];
        sent_last =
            arrived
            ∙ ap (λ m. some (0, m))
                (at_end (sent k) (encoded_rows (pending s.tables.outbox)) es first x pair);
        placed =
            (encode_for-IsContract pf sdk_valid event (new_id s.minted) analytics_topic "analytics"
              x analytic).placed;
        reported =
            handle_fetched_message-IsReported pf c column bounded sdk_valid (to_message x) event
              (new_id s.minted) x memory q analytic (decoded x analytic) closed unaborted
              calm_reports held new;
      }
