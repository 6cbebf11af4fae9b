-- ===== src/Tests/Delivery.antt =====
-- The theorems of the middleware and of the relay at concrete inputs.
use process_path_management.Prelude.{
  String, List, [], ◌∷◌, ◌++◌, none, some, ◌≡◌, ◌⊎◌, refl, true, ◌==◌, if◌then◌else◌, eq_iff, arith,
}
use process_path_management.Prelude.Assoc.{lookup}
use process_path_management.Errors.{Result, ok, err, other}
use process_path_management.Ports.{CptScheduleRepo}
use process_path_management.UseCases.Schedules.{DefineCptSchedule}
use process_path_management.Http.Dto.{DefineProcessPathRequest}
use process_path_management.Http.Problems.{Response, empty_body}
use process_path_management.Http.{Decoded, decoded}
use process_path_management.Kafka.{Encoded, path_data, id_data}
use process_path_management.Transaction.{Session}
use process_path_management.Postgres.Session.{Tables, IdempotencyRow}
use process_path_management.Postgres.Repo.{process_path_repo, outbox_publisher, clock, outbox_row}
use process_path_management.Idempotency.{
  Served, answered, Request, Database, require_idempotency_key, key_reused,
}
use process_path_management.Idempotency.Laws.{
  IsSettled, IsExcused, IsCarriedOut, inside, require_idempotency_key-replay,
}
use process_path_management.Idempotency.Post.{post_handler, post-IsSettled}
use process_path_management.Relay.{Sink, relay_once}
use process_path_management.Relay.Laws.{Settles, deliver, batch, relay_once-Settles}
use process_path_management.Tests.{platform}
use process_path_management.Tests.Database.{new_id, encoders, tables, session}

abbrev response : Response
response = record { status = 201; content_type = "application/json"; body = empty_body }

abbrev post : Request
post = record { key = "k1"; method = "POST"; path = "/process-paths"; body = ok "body" }

abbrev pub hash : String → String
hash body = body

-- a handler that forgets what it was asked and answers
abbrev handler : Request → Database → Served × Database
handler r s = (answered response, s)

abbrev row : IdempotencyRow Response
row = record {
  method = "POST";
  path = "/process-paths";
  request_hash = "body";
  outcome = some response;
}

abbrev answered_session : Session (Tables Response)
answered_session = record session {
  tables = record tables { idempotency = ("k1", row) ∷ [] };
  faults = [];
}

answered-found : lookup "k1" answered_session.tables.idempotency ≡ some row
unfolding lookup
answered-found = refl

keyed : post.key ≡ "" → ⊥
keyed h = ground (arith, eq_iff post.key "")

require_idempotency_key-replay_example :
    ((require_idempotency_key hash handler post answered_session).1.tables
      ≡ answered_session.tables)
    × ((require_idempotency_key hash handler post answered_session).0
        ≡ (if row.request_hash == "body" then answered response else key_reused post))
require_idempotency_key-replay_example =
    require_idempotency_key-replay hash handler post "body" answered_session row response refl refl
      keyed refl answered-found refl

abbrev pub schedule_repo : CptScheduleRepo Database
schedule_repo = record {
  save = λ c s. (err (other "not here"), s);
  find_by_site_id = λ site s. err (other "not here");
  assigned = λ c s. s;
}

abbrev pub schedules : DefineCptSchedule Database
schedules = record {
  repo = schedule_repo;
  process_path_repo = process_path_repo platform;
  publisher = outbox_publisher new_id encoders;
  clock = clock;
  unit_of_work = none;
}

abbrev pub decode : Result String → Decoded DefineProcessPathRequest
decode body = decoded (record {
  path_id = "p2";
  match_prefix = "pick";
  direct = true;
  required_capabilities = "forklift" ∷ [];
  destination_location_role = "";
  cycle_time_p95 = "30m0s";
  eligibility = none;
})

abbrev handle : Request → Database → Served × Database
handle = post_handler platform new_id encoders schedules schedule_repo decode

-- no statement fails, and the key is new
abbrev quiet_session : Session (Tables Response)
quiet_session = record session { faults = [] }

abbrev ran : Served × Database
ran = handle post (inside hash handle post "body" quiet_session)

post-IsSettled_example :
    IsSettled "body" post tables ran (require_idempotency_key hash handle post quiet_session)
    × (((made : Response) × (ran.0 ≡ answered made)
          × IsCarriedOut post made ran.1 (require_idempotency_key hash handle post quiet_session))
        ⊎ IsExcused post quiet_session ran.1)
post-IsSettled_example =
    post-IsSettled platform new_id encoders schedules schedule_repo decode hash post "body"
      quiet_session refl refl

abbrev pub encoded : Encoded
encoded = record {
  topic = "topic";
  event_id = "event";
  event_type = "type";
  key = "p1";
  value = record {
    id = "event";
    source = "/process-path-management";
    type_name = "type";
    subject = "p1";
    time = 7000;
    data_schema = "schema";
    payload = path_data (id_data "p1");
  };
}

-- the rows stand out of order, and the second by id is refused
abbrev full : Session (Tables Response)
full = record session {
  tables = record tables {
    outbox =
        outbox_row 2 (record encoded { key = "p2" }) 7000
        ∷ outbox_row 1 encoded 7000
        ∷ outbox_row 3 encoded 7000
        ∷ [];
  };
  faults = [];
}

-- a sink that takes the key p1 alone, and keeps the keys that it was asked to take
abbrev sink : Sink (List String)
sink = record {
  send = λ e sent.
      if e.key == "p1" then (ok tt, e.key ∷ sent) else (err (other "refused"), e.key ∷ sent);
}

relay_once-Settles_example :
    Settles sink full.tables 0
      (deliver sink (batch sink 100 full.tables) full.tables [])
      (relay_once sink 100 full [])
relay_once-Settles_example = relay_once-Settles sink 100 full [] refl

-- a sink that takes every event, and keeps them
abbrev patient : Sink (List Encoded)
patient = record { send = λ e sent. (ok tt, sent ++ e ∷ []) }
