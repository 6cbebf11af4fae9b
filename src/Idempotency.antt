-- ===== src/Idempotency.antt =====
-- internal/adapters/inbound/http/idempotency.go: the middleware on POST /process-paths. The
-- request's hash is SHA-256's, a parameter. `next` is the wrapped handler on the context that
-- carries the transaction; it answers or panics. An answer stands for its status, headers and body.
pub mod Laws
pub mod Post
use process_path_management.Prelude.{
  String, Bool, true, false, List, Option, none, some, is_some, ◌==◌, if◌then◌else◌, not,
}
use process_path_management.Prelude.Assoc.{lookup, insert}
use process_path_management.Errors.{Error, Result, ok, err, other, error_text}
use process_path_management.Http.Problems.{
  Response, ProblemInfo, info, internal_error, write_problem,
}
use process_path_management.Transaction.{Session, exec, read, begin, rollback, commit}
use process_path_management.Postgres.Session.{Tables, IdempotencyRow}

pub data Served : Type 0 where
  answered : Response → Served
  panicked : Served

pub record Request : Type 0 where
  pub key : String
  pub method : String
  pub path : String
  pub body : Result String

abbrev pub Database : Type 0
Database = Session (Tables Response)

abbrev pub internal : Request → Error → Served
internal r e = answered (write_problem 500 internal_error (error_text e) r.path)

abbrev pub reply_headers : Option Response → Request → Served
reply_headers (some response) r = answered response
reply_headers none r =
    internal r
      (other "idempotency row committed with no recorded outcome — this should be impossible")

abbrev pub key_reused : Request → Served
key_reused r = answered (
    write_problem 422
      (info "idempotency-key-reused" "Idempotency-Key was already used with a different request")
      "The Idempotency-Key header on this request was already used with a request that had a different body. Use a new Idempotency-Key for a genuinely different request."
      r.path)

abbrev pub replay_row : Request → String → Result (Option (IdempotencyRow Response)) → Served
replay_row r request_hash (err e) = internal r e
replay_row r request_hash (ok none) = internal r (other "no rows in result set")
replay_row r request_hash (ok (some row)) =
    if not (row.request_hash == request_hash) then key_reused r else reply_headers row.outcome r

-- replayCachedResponse
unfoldable pub replay_cached_response : Request → String → Database → Served
unfolding read
replay_cached_response r request_hash s =
    replay_row r request_hash (read r.key (λ t. lookup r.key t.idempotency) s)

-- INSERT … ON CONFLICT (key) DO NOTHING; true if a row was inserted
abbrev pub insert_key : Request → String → Tables Response → Bool × Tables Response
insert_key r request_hash t = if is_some (lookup r.key t.idempotency) then (false, t) else (
  true,
  record t {
    idempotency =
        insert r.key
          (record { method = r.method; path = r.path; request_hash = request_hash; outcome = none })
          t.idempotency;
  },
)

abbrev pub with_outcome :
    Response
    → Option (IdempotencyRow Response)
    → String
    → List (String × IdempotencyRow Response)
    → List (String × IdempotencyRow Response)
with_outcome response none key rows = rows
with_outcome response (some row) key rows = insert key (record row { outcome = some response }) rows

-- UPDATE … SET status_code, response_body, response_headers WHERE key
abbrev pub record_outcome : Request → Response → Tables Response → Unit {0} × Tables Response
record_outcome r response t = (
  tt,
  record t { idempotency = with_outcome response (lookup r.key t.idempotency) r.key t.idempotency },
)

abbrev pub after_commit : Request → Response → Result (Unit {0}) × Database → Served × Database
after_commit r response (ok _, s) = (answered response, s)
after_commit r response (err e, s) = (internal r e, s)

abbrev pub after_update : Request → Response → Result (Unit {0}) × Database → Served × Database
after_update r response (ok _, s) = after_commit r response (commit s)
after_update r response (err e, s) = (internal r e, rollback s)

-- a panic is raised again once the transaction is rolled back
abbrev pub after_next : Request → Served × Database → Served × Database
after_next r (panicked, s) = (panicked, rollback s)
after_next r (answered response, s) = after_update r response (exec (record_outcome r response) s)

-- runFreshRequest
unfoldable pub run_fresh_request :
    (Database → Served × Database) → Request → Database → Served × Database
unfolding exec commit rollback
run_fresh_request next r s = after_next r (next s)

abbrev pub after_insert :
    (Database → Served × Database) → Request → String → Result Bool × Database → Served × Database
after_insert next r request_hash (err e, s) = (internal r e, rollback s)
after_insert next r request_hash (ok false, s) =
    (replay_cached_response r request_hash (rollback s), rollback s)
after_insert next r request_hash (ok true, s) = run_fresh_request next r s

abbrev pub after_begin :
    (Database → Served × Database)
    → Request
    → String
    → Result (Unit {0}) × Database
    → Served × Database
after_begin next r request_hash (err e, s) = (internal r e, s)
after_begin next r request_hash (ok _, s) =
    after_insert next r request_hash (exec (insert_key r request_hash) s)

-- RequireIdempotencyKey
module _ (hash : String → String) (next : Request → Database → Served × Database) where
  unfoldable pub require_idempotency_key : Request → Database → Served × Database
  unfolding begin exec rollback
  require_idempotency_key r s =
      if r.key == ""
      then (
        answered (
            write_problem 400 (info "idempotency-key-required" "Idempotency-Key header is required")
              "This endpoint creates a new resource on every call and requires a caller-supplied Idempotency-Key header so a retried request is never applied twice."
              r.path),
        s,
      )
      else elim r.body [
        | err e ↦ (
          answered (
              write_problem 400 (info "malformed-request-body" "The request body could not be read")
                (error_text e) r.path),
          s,
        )
        | ok body ↦ after_begin (next r) r (hash body) (begin s)
      ]
