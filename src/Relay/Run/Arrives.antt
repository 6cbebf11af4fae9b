-- ===== src/Relay/Run/Arrives.antt =====
-- From a use case to the sink: what outbox_publisher.go enqueues, Run of outbox_relay.go sends.
use process_path_management.Prelude.{
  ℕ, ◌+◌, ◌<◌, String, false, ◌||◌, ◌≡◌, refl, sym, ap, ◌∙◌, List, [], ◌∷◌, ◌++◌, nat_eq, arith,
  inl, inr, subst, append_nil, append_moved,
}
use process_path_management.Errors.{Result, ok, err, Result-cases}
use process_path_management.Events.{DomainEvent, occurred_at}
use process_path_management.Kafka.{Encoded}
use process_path_management.Postgres.Session.{Tables, OutboxRow}
use process_path_management.Postgres.Repo.{Encoder, enqueue, enqueued, outbox_row}
use process_path_management.Postgres.Outboxed.{enqueue_each}
use process_path_management.Relay.{by_id, pending}
use process_path_management.Relay.Run.Drains.{has_id}
use process_path_management.Relay.Run.Order.{Unique}
use process_path_management.Relay.Run.Delivers.{encoded_rows}

abbrev pub Below : ℕ → List OutboxRow → Type 0
Below n [] = Unit {0}
Below n (r ∷ rows) = (r.id < n) × Below n rows

by_id-append :
    (r row : OutboxRow) (rows : List OutboxRow)
    → r.id < row.id
    → by_id r (rows ++ row ∷ []) ≡ by_id r rows ++ row ∷ []
unfolding by_id
by_id-append r row [] less = ground arith
by_id-append r row (f ∷ rows) less = ground (arith, by_id-append r row rows less)

pending-append :
    (row : OutboxRow) (rows : List OutboxRow)
    → row.published ≡ false
    → Below row.id rows
    → pending (rows ++ row ∷ []) ≡ pending rows ++ row ∷ []
unfolding pending by_id
pending-append row [] waits b = ground arith
pending-append row (r ∷ rows) waits (less, b) =
    let later = pending-append row rows waits b in
    let last = by_id-append r row (pending rows) less in ground arith

has_id-append :
    (i : ℕ) (row : OutboxRow) (rows : List OutboxRow)
    → has_id i (rows ++ row ∷ []) ≡ (has_id i rows || nat_eq row.id i)
has_id-append i row [] = ground arith
has_id-append i row (r ∷ rows) = ground (arith, has_id-append i row rows)

append-Unique :
    (row : OutboxRow) (rows : List OutboxRow)
    → Below row.id rows
    → Unique rows
    → Unique (rows ++ row ∷ [])
append-Unique row [] b u = (refl, tt)
append-Unique row (r ∷ rows) (less, b) (new, u) =
    (ground (arith, has_id-append r.id row rows), append-Unique row rows b u)

append-Below :
    (row : OutboxRow) (rows : List OutboxRow)
    → Below row.id rows
    → Below (row.id + 1) (rows ++ row ∷ [])
append-Below row [] b = (omega arith, tt)
append-Below row (r ∷ rows) (less, b) = (omega arith, append-Below row rows b)

encoded-append :
    (row : OutboxRow) (rows : List OutboxRow)
    → encoded_rows (rows ++ row ∷ []) ≡ encoded_rows rows ++ row.encoded ∷ []
encoded-append row [] = refl
encoded-append row (r ∷ rows) = ap (λ l. r.encoded ∷ l) (encoded-append row rows)

-- the encodings of an event, one for each topic, or the first error
abbrev pub encode_each : List Encoder → DomainEvent → String → Result (List Encoded)
encode_each [] event event_id = ok []
encode_each (encoder ∷ encoders) event event_id = elim (encoder event event_id) [
  | err e ↦ err e
  | ok encoded ↦ elim (encode_each encoders event event_id) [
    | err e ↦ err e
    | ok later ↦ ok (encoded ∷ later)
  ]
]

-- no row, nor one that goes in before it, has the event id and the topic of one of the encodings
abbrev pub Fresh : ℕ → ℕ → List OutboxRow → List Encoded → Type 0
Fresh n at rows [] = Unit {0}
Fresh n at rows (e ∷ es) =
    (enqueued e.event_id e.topic rows ≡ false)
    × Fresh (n + 1) at (rows ++ outbox_row n e at ∷ []) es

module _ {R : Type 0} where
  -- the ids of the outbox are unique, and below the next one
  pub record IsNumbered (t : Tables R) : Type 0 where
    pub unique : Unique t.outbox
    pub below : Below t.next_id t.outbox

  enqueue-IsNumbered :
      (e : Encoded) (at : ℕ) (t : Tables R)
      → IsNumbered t
      → enqueued e.event_id e.topic t.outbox ≡ false
      → IsNumbered (enqueue e at t)
  enqueue-IsNumbered e at t n new = rw new (record {
    unique = append-Unique (outbox_row t.next_id e at) t.outbox n.below n.unique;
    below = append-Below (outbox_row t.next_id e at) t.outbox n.below;
  })

  enqueue-waits :
      (e : Encoded) (at : ℕ) (t : Tables R)
      → IsNumbered t
      → enqueued e.event_id e.topic t.outbox ≡ false
      → encoded_rows (pending (enqueue e at t).outbox) ≡ encoded_rows (pending t.outbox) ++ e ∷ []
  enqueue-waits e at t n new = rw new (
      ap encoded_rows (pending-append (outbox_row t.next_id e at) t.outbox refl n.below)
      ∙ encoded-append (outbox_row t.next_id e at) (pending t.outbox))

  pub enqueue_each-waits :
      (encoders : List Encoder) (event : DomainEvent) (event_id : String) (t u : Tables R)
      (es : List Encoded)
      → IsNumbered t
      → encode_each encoders event event_id ≡ ok es
      → Fresh t.next_id (occurred_at event) t.outbox es
      → enqueue_each encoders event event_id t ≡ ok u
      → Unique u.outbox × (encoded_rows (pending u.outbox) ≡ encoded_rows (pending t.outbox) ++ es)
  enqueue_each-waits [] event event_id t u es n encoded fresh done =
      let same : t ≡ u = ground arith in
      let no_more : es ≡ [] = ground arith in
      (
        subst (λ x. Unique x.outbox) same n.unique,
        ground (arith, append_nil (encoded_rows (pending t.outbox))),
      )
  enqueue_each-waits (encoder ∷ encoders) event event_id t u es n encoded fresh done =
      elim (Result-cases (encoder event event_id)) [
        | inl (e, failed) ↦ absurd (ground arith)
        | inr (first, made) ↦ elim (Result-cases (encode_each encoders event event_id)) [
          | inl (e, failed) ↦ absurd (ground arith)
          | inr (rest, later) ↦
              let whole : es ≡ first ∷ rest = ground arith in
              let (new, fresh_rest) =
                subst (λ x. Fresh t.next_id (occurred_at event) t.outbox x) whole fresh in
              let at = occurred_at event in
              let next : Tables R = enqueue first at t in
              let now = enqueue-waits first at t n new in
              let fresh_next : Fresh next.next_id at next.outbox rest = rw new fresh_rest in
              let done_next : enqueue_each encoders event event_id next ≡ ok u = ground arith in
              let (unique, all_wait) =
                enqueue_each-waits encoders event event_id next u rest
                  (enqueue-IsNumbered first at t n new) later fresh_next done_next in
              (
                unique,
                all_wait
                    ∙ ap (λ l. l ++ rest) now
                    ∙ append_moved (encoded_rows (pending t.outbox)) first rest
                    ∙ ap (λ l. encoded_rows (pending t.outbox) ++ l) (sym whole),
              )
        ]
      ]
