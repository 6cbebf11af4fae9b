-- ===== src/Tests/Projection.antt =====
-- The theorems of the report tables and of the projector over them at concrete inputs.
use process_path_management.Prelude.{
  ℕ, String, true, false, ◌≡◌, ◌⊎◌, refl, inl, inr, List, [], ◌∷◌, none, some, arith, ◌==◌,
  if◌then◌else◌,
}
use process_path_management.Prelude.Assoc.{lookup}
use process_path_management.Errors.{ok, err, other}
use process_path_management.Events.{DomainEvent, process_path_created, facts_of}
use process_path_management.Kafka.{
  Encoded, type_process_path_created, analytics_topic, path_data, facts_to_data, encode_analytics,
  encode_for, new_event, map_event,
}
use process_path_management.Analytics
use process_path_management.Analytics.{Row, MemoryStore, new_memory_store, day_bucket}
use process_path_management.Analytics.Totals.{created}
use process_path_management.Transaction.{read}
use process_path_management.Analytics.Tables
use process_path_management.Analytics.Tables.{
  Store, no_reports, by_bucket, max_occurred, apply_process_path_created,
}
use process_path_management.Analytics.Tables.Refines.{
  IsTimeColumn, Represents, IsAppliedOnce, apply_stored-IsAppliedOnce,
}
use process_path_management.Http.Problems.{CatalogueRow, report_body, write_json}
use process_path_management.Http.Reports.{ParseTime, parse_required_time, get_catalogue_growth}
use process_path_management.Http.Reports.ReportLaws.{
  IsWindow, IsReport, report_store, get_catalogue_growth-Represents,
}
use process_path_management.Projector.{AnalyticsEvent, handle_fetched_message}
use process_path_management.Projector.Broker.{Message}
use process_path_management.Projector.Wired.{Clients, IsBoundedRetry, projector, run}
use process_path_management.Projector.Once.{IsOnce}
use process_path_management.Projector.Counts.{Delivered, run-IsOnce}
use process_path_management.Projector.Counting.{IsCounting, handle_fetched_message-IsCounting}
use process_path_management.Projector.Published.{IsReported, handle_fetched_message-IsReported}
use process_path_management.Tests.{platform, sample_path}

-- the columns of the platform keep whole microseconds
pub platform-IsTimeColumn : IsTimeColumn platform
unfolding day_bucket
platform-IsTimeColumn = record { monotone = λ a b h. omega arith; days_kept = λ t. omega arith }

-- the first statement to come fails
abbrev pub empty_store : Store
empty_store = record {
  tables = no_reports;
  begun = none;
  aborted = false;
  faults = true ∷ [];
  refused = λ what faults. false;
  minted = 0;
  time = 9000;
}

abbrev pub calm_store : Store
calm_store = record empty_store { faults = [] }

pub nothing-Represents : Represents platform new_memory_store no_reports
unfolding max_occurred lookup
nothing-Represents = record { same_ids = λ a. refl; same_rows = refl; same_latest = refl }

apply_stored-IsAppliedOnce_example :
    IsAppliedOnce platform platform-IsTimeColumn created "e1" 7000 new_memory_store empty_store
      (apply_process_path_created platform "e1" 7000 empty_store)
apply_stored-IsAppliedOnce_example =
    apply_stored-IsAppliedOnce platform platform-IsTimeColumn created "e1" 7000 new_memory_store
      empty_store refl nothing-Represents

-- clients that log their commits, and a retry that calls the function once
abbrev pub clients : Clients (List String)
clients = record {
  decode = λ raw.
      if raw == "bad"
      then err (other "not a CloudEvent")
      else ok (record { id = raw; type_name = type_process_path_created; time = 7000 });
  commit_messages = λ m log. (ok tt, m.key ∷ log);
  brokers = "broker" ∷ [];
  write_messages = λ w m log. (none, w.topic ∷ log);
  count = λ es. 0;
  failure_text = λ f. "refused";
  now = λ log. "2026-01-01T00:00:00Z";
  cancelled = λ log. false;
  close_reader = λ log. (ok tt, log);
  close_writer = λ w log. (ok tt, log);
  retry = λ p f s. f s;
}

pub clients-IsBoundedRetry : IsBoundedRetry clients
clients-IsBoundedRetry A p f s = inl refl

abbrev first : Message
first = record { key = "p1"; value = "e1"; headers = [] }

-- an event, a message that is none, and the event again
abbrev messages : List Message
messages = first ∷ record { key = "p2"; value = "bad"; headers = [] } ∷ first ∷ []

empty_store-IsOnce : IsOnce platform clients (Delivered platform clients []) empty_store
empty_store-IsOnce = record {
  closed = refl;
  memory = new_memory_store;
  counted = record { once = tt; counted = refl };
  held = nothing-Represents;
  delivered = λ a i. absurd i;
}

run-IsOnce_example :
    IsOnce platform clients
      (Delivered platform clients messages)
      (run (projector platform clients) messages (ok tt) (empty_store, [])).1.0
run-IsOnce_example =
    run-IsOnce platform clients platform-IsTimeColumn clients-IsBoundedRetry [] messages (ok tt)
      (empty_store, []) empty_store-IsOnce

abbrev event : AnalyticsEvent
event = record { id = "e1"; type_name = type_process_path_created; time = 7000 }

handle_fetched_message-IsCounting_example :
    IsCounting platform clients platform-IsTimeColumn clients-IsBoundedRetry first event
      new_memory_store
      (calm_store, [])
      (handle_fetched_message (projector platform clients) first (calm_store, []))
handle_fetched_message-IsCounting_example =
    handle_fetched_message-IsCounting platform clients platform-IsTimeColumn clients-IsBoundedRetry
      first event new_memory_store (calm_store, []) refl refl refl refl refl nothing-Represents

-- the created event of the sample path, on the analytics topic
abbrev announcement : DomainEvent
announcement = process_path_created (facts_of sample_path 7000)

abbrev announced : Encoded
announced = record {
  topic = analytics_topic;
  event_id = "e1";
  event_type = type_process_path_created;
  key = "p1";
  value = record {
    id = "e1";
    source = "/warehouse/process-path-management";
    type_name = type_process_path_created;
    subject = "p1";
    time = 7000;
    data_schema = "urn:warehouse:process-path-management:analytics:ProcessPathCreated:v1";
    payload = path_data (facts_to_data platform (facts_of sample_path 7000));
  };
}

announced-encoded : encode_analytics platform (λ e. true) announcement "e1" ≡ ok announced
unfolding encode_analytics encode_for new_event map_event
announced-encoded = refl

handle_fetched_message-IsReported_example :
    IsReported platform clients platform-IsTimeColumn clients-IsBoundedRetry
      (λ e. true)
      first
      announcement
      "e1"
      new_memory_store
      (calm_store, [])
      (handle_fetched_message (projector platform clients) first (calm_store, []))
handle_fetched_message-IsReported_example =
    handle_fetched_message-IsReported platform clients platform-IsTimeColumn clients-IsBoundedRetry
      (λ e. true) first announcement "e1" announced new_memory_store (calm_store, [])
      announced-encoded refl refl refl refl nothing-Represents refl

abbrev pub parse : ParseTime
parse text = if text == "2026" then some 1000 else some 5000

-- two days of the window, in the order of their first events
abbrev counted : MemoryStore
counted = record new_memory_store {
  rows =
      (3000, record { paths_defined = 2; paths_revised = 1; paths_deactivated = 0 })
      ∷ (2000, record { paths_defined = 1; paths_revised = 0; paths_deactivated = 4 })
      ∷ [];
}

abbrev counted_store : Store
counted_store = record calm_store { tables = record no_reports { rollup = counted.rows } }

counted-Represents : Represents platform counted counted_store.tables
unfolding max_occurred lookup
counted-Represents = record { same_ids = λ a. refl; same_rows = refl; same_latest = refl }

counted-answered :
    (get_catalogue_growth platform parse
      (report_store platform 9000)
      "/reports/catalogue-growth"
      "2026"
      "2027"
      "day"
      counted_store).status
    ≡ 200
unfolding get_catalogue_growth parse_required_time Analytics.Tables.query read write_json
counted-answered = refl

ends-kept : (t : ℕ) → (parse "2026" ≡ some t) ⊎ (parse "2027" ≡ some t) → platform.stored_time t ≡ t
ends-kept t (inl e) = ground arith
ends-kept t (inr e) = ground arith

get_catalogue_growth-Represents_example :
    (start : ℕ) × (end : ℕ) × (entries : List CatalogueRow) × (rows : List (ℕ × Row)) × IsWindow
      parse "2026" "2027" "day" start end
    × (get_catalogue_growth platform parse
          (report_store platform 9000)
          "/reports/catalogue-growth"
          "2026"
          "2027"
          "day"
          counted_store
        ≡ write_json 200 (report_body entries))
    × IsReport platform start end counted entries rows
get_catalogue_growth-Represents_example =
    get_catalogue_growth-Represents platform parse 9000 "/reports/catalogue-growth" "2026" "2027"
      "day" counted counted_store ends-kept counted-Represents counted-answered
