-- ===== src/Postgres/Repo.antt =====
-- process_path_repo.go and outbox_publisher.go over a session.
use process_path_management.Prelude.{
  ◌++ˢ◌, ℕ, ◌+◌, String, Bool, true, false, ◌&&◌, List, [], ◌∷◌, ◌++◌, Option, none, some, ◌==◌,
  if◌then◌else◌,
}
use process_path_management.Prelude.Assoc.{lookup, insert}
use process_path_management.Errors.{Result, ok, err, other, error_text}
use process_path_management.Events.{DomainEvent, occurred_at}
use process_path_management.Ports.{ProcessPathRepo, EventPublisher, Clock}
use process_path_management.Shared.{PathId}
use process_path_management.Shared.Platform.{Platform}
use process_path_management.ProcessPath.{ProcessPath, is_active}
use process_path_management.Kafka.{Encoded}
use process_path_management.Postgres.Rows.{PathRow, path_to_row, path_of_row, upsert_row}
use process_path_management.Transaction.{Session, exec, read}
use process_path_management.Postgres.Session.{Tables, OutboxRow}

-- INSERT … ON CONFLICT (id) DO UPDATE
abbrev pub upsert : PathRow → List (PathId × PathRow) → List (PathId × PathRow)
upsert r paths = insert r.id (upsert_row (lookup r.id paths) r) paths

abbrev pub scan : Option PathRow → Option ProcessPath
scan none = none
scan (some r) = some (path_of_row r)

-- ORDER BY id, in the order of the column
place : Platform → PathId × PathRow → List (PathId × PathRow) → List (PathId × PathRow)
place pf (k, r) [] = (k, r) ∷ []
place pf (k, r) ((j, q) ∷ rows) =
    if pf.text_le k j then (k, r) ∷ (j, q) ∷ rows else (j, q) ∷ place pf (k, r) rows

order_by_id : Platform → List (PathId × PathRow) → List (PathId × PathRow)
unfolding place
order_by_id pf [] = []
order_by_id pf (row ∷ rows) = place pf row (order_by_id pf rows)

abbrev scan_all : List (PathId × PathRow) → List ProcessPath
scan_all [] = []
scan_all ((_, r) ∷ rows) = path_of_row r ∷ scan_all rows

abbrev only_active : List ProcessPath → List ProcessPath
only_active [] = []
only_active (p ∷ ps) = if is_active p then p ∷ only_active ps else only_active ps

abbrev pub Encoder : Type 0
Encoder = DomainEvent → String → Result Encoded

-- is there a row with this event id and topic
abbrev pub enqueued : String → String → List OutboxRow → Bool
enqueued event_id topic [] = false
enqueued event_id topic (r ∷ rows) =
    if r.encoded.event_id == event_id && r.encoded.topic == topic
    then true
    else enqueued event_id topic rows

abbrev pub outbox_row : ℕ → Encoded → ℕ → OutboxRow
outbox_row id encoded at = record {
  id = id;
  encoded = encoded;
  occurred_at = at;
  published = false;
  attempts = 0;
  last_error = none;
}

module _ {R : Type 0} where
  -- INSERT … ON CONFLICT (event_id, topic) DO NOTHING; the id of a row that is not inserted is
  -- taken all the same
  abbrev pub enqueue : Encoded → ℕ → Tables R → Tables R
  enqueue encoded at t =
      if enqueued encoded.event_id encoded.topic t.outbox
      then record t { next_id = t.next_id + 1 }
      else record t {
        outbox = t.outbox ++ outbox_row t.next_id encoded at ∷ [];
        next_id = t.next_id + 1;
      }

  abbrev pub wrap_enqueue :
      Encoded → Result (Unit {0}) × Session (Tables R) → Result (Unit {0}) × Session (Tables R)
  wrap_enqueue encoded (ok _, s) = (ok tt, s)
  wrap_enqueue encoded (err e, s) = (
    err (
        other (
          "postgres: enqueue outbox event "
          ++ˢ encoded.event_type
          ++ˢ " for "
          ++ˢ encoded.topic
          ++ˢ ": "
          ++ˢ error_text e)),
    s,
  )

  abbrev pub after_first :
      Result (Unit {0}) × Session (Tables R)
      → (Session (Tables R) → Result (Unit {0}) × Session (Tables R))
      → Result (Unit {0}) × Session (Tables R)
  after_first (ok _, s) k = k s
  after_first (err e, s) k = (err e, s)

  -- the loop of Publish over the encoders
  unfoldable pub publish_each :
      List Encoder
      → DomainEvent
      → String
      → Session (Tables R)
      → Result (Unit {0}) × Session (Tables R)
  publish_each [] event event_id s = (ok tt, s)
  publish_each (encoder ∷ encoders) event event_id s = elim (encoder event event_id) [
    | err e ↦ (err e, s)
    | ok encoded ↦
        after_first
          (wrap_enqueue encoded (exec (λ t. (tt, enqueue encoded (occurred_at event) t)) s))
          (publish_each encoders event event_id)
  ]

  module _ (pf : Platform) where
    unfoldable pub save : ProcessPath → Session (Tables R) → Result (Unit {0}) × Session (Tables R)
    save p = exec (λ t. (tt, record t { paths = upsert (path_to_row pf p) t.paths }))

    unfoldable pub find_by_id : PathId → Session (Tables R) → Result (Option ProcessPath)
    find_by_id id = read ("path " ++ˢ id) (λ t. scan (lookup id t.paths))

    unfoldable pub list_active : Session (Tables R) → Result (List ProcessPath)
    unfolding order_by_id
    list_active = read "active paths" (λ t. only_active (scan_all (order_by_id pf t.paths)))

    unfoldable pub list_all : Session (Tables R) → Result (List ProcessPath)
    unfolding order_by_id
    list_all = read "paths" (λ t. scan_all (order_by_id pf t.paths))

    -- a path that was scanned is an object of its own: assigning to it changes no table
    abbrev pub process_path_repo : ProcessPathRepo (Session (Tables R))
    process_path_repo = record {
      save = save;
      find_by_id = find_by_id;
      list_active = list_active;
      list_all = list_all;
      assigned = λ p s. s;
    }

  -- OutboxPublisher.Publish; `new_id` is the maker of UUIDs, by the number of the call
  unfoldable pub publish :
      (ℕ → String)
      → List Encoder
      → DomainEvent
      → Session (Tables R)
      → Result (Unit {0}) × Session (Tables R)
  publish new_id encoders event s =
      publish_each encoders event (new_id s.minted) (record s { minted = s.minted + 1 })

  abbrev pub outbox_publisher : (ℕ → String) → List Encoder → EventPublisher (Session (Tables R))
  outbox_publisher new_id encoders = record { publish = publish new_id encoders }

  abbrev pub clock : Clock (Session (Tables R))
  clock = record { now = λ s. s.time }
