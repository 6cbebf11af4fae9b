-- ===== src/Tests/EndToEnd.antt =====
-- The theorem of a definition and the relay after it at a concrete input.
use process_path_management.Prelude.{
  String, inl, ◌<◌, true, List, [], ◌∷◌, ◌++◌, some, ◌≡◌, refl, arith,
}
use process_path_management.Prelude.Assoc.{lookup, insert}
use process_path_management.Prelude.Int.{pos}
use process_path_management.Errors.{Result, ok, err, other}
use process_path_management.Events.{process_path_created, facts_of}
use process_path_management.Shared.{parse_destination_location_role}
use process_path_management.Shared.Platform.{to_lower}
use process_path_management.ProcessPath
use process_path_management.ProcessPath.{ProcessPath}
use process_path_management.UseCases.{define_path}
use process_path_management.Http.Problems.{Response}
use process_path_management.Kafka.{
  Encoded, encode, encode_analytics, encode_for, new_event, map_event, type_process_path_created,
}
use process_path_management.Transaction.{Session, exec, begin, commit, rollback, read}
use process_path_management.Postgres.Session.{Tables, execute}
use process_path_management.Postgres.Repo.{find_by_id, save, publish, publish_each, outbox_row}
use process_path_management.Postgres.Wired.{define_stored}
use process_path_management.Relay.{Sink, pending}
use process_path_management.Relay.Run.{run}
use process_path_management.Relay.Run.Delivers.{delivered, encoded_rows}
use process_path_management.Relay.Run.Arrives.{encode_each, Fresh}
use process_path_management.Relay.Run.EndToEnd.{define_path-delivered}
use process_path_management.Tests.{platform, rules, sample_path}
use process_path_management.Tests.Delivery.{encoded}
use process_path_management.Relay.Run.Drains.{unpublished}
use process_path_management.Analytics.{new_memory_store}
use process_path_management.Projector.Broker.{Message}
use process_path_management.Projector.Wired.{Clients, IsBoundedRetry}
use process_path_management.Projector.Published.{event_of}
use process_path_management.Projector.EndToEnd.{IsCountedLast, define_path-reported}
use process_path_management.Tests.Projection.{
  clients, calm_store, platform-IsTimeColumn, nothing-Represents,
}
use process_path_management.Tests.Database.{new_id, encoders, tables, session}

abbrev or_none : Result (List Encoded) → List Encoded
or_none (ok es) = es
or_none (err e) = []

abbrev path : ProcessPath
path = record sample_path { id = "p2"; created_at = 9000; updated_at = 9000 }

abbrev encodings : List Encoded
encodings = or_none (encode_each encoders (process_path_created (facts_of path 9000)) (new_id 0))

-- one row waits before the path is defined, and no statement fails
abbrev waiting : Session (Tables Response)
waiting = record session {
  tables = record tables { outbox = outbox_row 3 encoded 7000 ∷ []; next_id = 4 };
  faults = [];
}

abbrev after : Result ProcessPath × Session (Tables Response)
after =
    define_path platform (define_stored platform new_id encoders) "p2" "pick" true ("forklift" ∷ [])
      "" (pos 1800000000000) rules waiting

abbrev patient : Sink (List Encoded)
patient = record { send = λ e sent. (ok tt, sent ++ e ∷ []) }

after_lem : (after.0 ≡ ok path) × (after.1.faults ≡ []) × (unpublished after.1.tables.outbox < 5)
unfolding define_path ProcessPath.define ProcessPath.validate to_lower
    parse_destination_location_role find_by_id save publish publish_each execute exec begin commit
    rollback read lookup insert encode encode_analytics encode_for new_event map_event
after_lem = (refl, refl, omega arith)

encodings-ok :
    encode_each encoders (process_path_created (facts_of path 9000)) (new_id 0) ≡ ok encodings
unfolding encode encode_analytics encode_for new_event map_event
encodings-ok = refl

encodings-Fresh : Fresh 4 9000 waiting.tables.outbox encodings
unfolding encode encode_analytics encode_for new_event map_event
encodings-Fresh = (refl, (refl, tt))

define_path-delivered_example :
    delivered
      (λ sent. sent)
      (run patient 3 (λ st. (some (other "context canceled"), st)) 5 (after.1, []))
    ≡ some (0, encoded_rows (pending waiting.tables.outbox) ++ encodings)
define_path-delivered_example =
    define_path-delivered platform new_id encoders patient (λ sent. sent)
      (record { takes = λ e k. refl; logs = λ e k. refl }) "p2" "pick" true ("forklift" ∷ []) ""
      (pos 1800000000000) rules waiting after.1 path encodings 2 (other "context canceled") 5 []
      refl (record { unique = (refl, tt); below = (omega arith, tt) }) after_lem.0 encodings-ok
      encodings-Fresh refl after_lem.1 after_lem.2

-- The same definition with the encoders of both topics, whose analytics event is then projected.
abbrev reading : Clients (List String)
reading = record clients {
  decode = λ raw. ok (record { id = "event"; type_name = type_process_path_created; time = 9000 });
}

abbrev to_message : Encoded → Message
to_message x = record { key = x.key; value = x.value.id; headers = [] }

reading-IsBoundedRetry : IsBoundedRetry reading
reading-IsBoundedRetry A p f s = inl refl

reading-decodes :
    (x : Encoded)
    → encode_analytics platform (λ e. true) (process_path_created (facts_of path 9000)) (new_id 0)
      ≡ ok x
    → reading.decode (to_message x).value ≡ ok (event_of x)
unfolding encode_analytics encode_for new_event map_event
reading-decodes x h = ground arith

define_path-reported_example :
    IsCountedLast platform
      (λ e. true)
      reading
      platform-IsTimeColumn
      reading-IsBoundedRetry
      to_message
      (process_path_created (facts_of path 9000))
      (new_id 0)
      new_memory_store
      (calm_store, [])
      (delivered
        (λ sent. sent)
        (run patient 3 (λ st. (some (other "context canceled"), st)) 5 (after.1, [])))
define_path-reported_example =
    define_path-reported platform new_id (λ e. true) patient (λ sent. sent)
      (record { takes = λ e k. refl; logs = λ e k. refl }) reading platform-IsTimeColumn
      reading-IsBoundedRetry to_message "p2" "pick" true ("forklift" ∷ []) "" (pos 1800000000000)
      rules waiting after.1 path encodings 2 (other "context canceled") 5 [] new_memory_store
      (calm_store, []) refl (record { unique = (refl, tt); below = (omega arith, tt) }) after_lem.0
      encodings-ok encodings-Fresh refl after_lem.1 after_lem.2 reading-decodes refl refl refl
      nothing-Represents refl
