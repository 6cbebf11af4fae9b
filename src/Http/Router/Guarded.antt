-- ===== src/Http/Router/Guarded.antt =====
-- NewRouter of server.go over a database: the answers of the idempotency middleware that it mounts.
use process_path_management.Prelude.{
  String, Bool, ◌⊎◌, eq_iff, true, false, ◌≡◌, refl, inl, inr, Option, none, some, arith,
  Bool-cases, ◌==◌,
}
use process_path_management.Prelude.Assoc.{lookup}
use process_path_management.Errors.{Error, Result, ok, err}
use process_path_management.Http.Problems.{Response}
use process_path_management.Transaction.{exec, read, begin, rollback}
use process_path_management.Postgres.Session.{Tables, IdempotencyRow}
use process_path_management.Idempotency.{
  Served, answered, panicked, Request, Database, internal, reply_headers, replay_row,
  replay_cached_response, insert_key, after_commit, after_update, after_next, run_fresh_request,
  after_insert, after_begin, require_idempotency_key,
}
use process_path_management.Http.Router.Answers.{IsAnswer, write_problem-IsAnswer}

-- The answer that the row of the key has recorded for the same body.
abbrev pub IsRecorded : Request → String → Tables Response → Response → Type 0
IsRecorded r hashed old a =
    (row : IdempotencyRow Response) × (lookup r.key old.idempotency ≡ some row)
    × (row.request_hash ≡ hashed)
    × (row.outcome ≡ some a)

-- a handler that answers, as a client may count on
abbrev pub Handled : String → Served → Type 0
Handled url (answered a) = IsAnswer url a
Handled url panicked = ⊥

module _ (r : Request) (hashed : String) (old : Tables Response) where
  abbrev pub Answers : Served → Type 0
  Answers (answered a) = IsAnswer r.path a ⊎ IsRecorded r hashed old a
  Answers panicked = ⊥

  internal-Answers : (e : Error) → Answers (internal r e)
  internal-Answers e = inl (write_problem-IsAnswer 500 _ _ r.path (omega arith))

  reply_headers-Answers :
      (row : IdempotencyRow Response) (o : Option Response)
      → lookup r.key old.idempotency ≡ some row
      → row.request_hash ≡ hashed
      → row.outcome ≡ o
      → Answers (reply_headers o r)
  reply_headers-Answers row none found same h =
      inl (write_problem-IsAnswer 500 _ _ r.path (omega arith))
  reply_headers-Answers row (some a) found same h = inr (row, found, same, h)

  replay_row-Answers :
      (x : Result (Option (IdempotencyRow Response)))
      → ((row : IdempotencyRow Response)
          → x ≡ ok (some row)
          → lookup r.key old.idempotency ≡ some row)
      → Answers (replay_row r hashed x)
  replay_row-Answers (err e) h = internal-Answers e
  replay_row-Answers (ok none) h = inl (write_problem-IsAnswer 500 _ _ r.path (omega arith))
  replay_row-Answers (ok (some row)) h = elim (Bool-cases (row.request_hash == hashed)) [
    | inl same ↦ rw same (
        reply_headers-Answers row row.outcome (h row refl) ((eq_iff row.request_hash hashed).0 same)
          refl)
    | inr other ↦ rw other (inl (write_problem-IsAnswer 422 _ _ r.path (omega arith)))
  ]

  replay-Answers : (s : Database) → s.tables ≡ old → Answers (replay_cached_response r hashed s)
  unfolding replay_cached_response read
  replay-Answers s same =
      replay_row-Answers (read r.key (λ t. lookup r.key t.idempotency) s) (λ row h. ground arith)

  after_commit-Answers :
      (a : Response) (x : Result (Unit {0}) × Database)
      → IsAnswer r.path a
      → Answers (after_commit r a x).0
  after_commit-Answers a (ok _, s) h = inl h
  after_commit-Answers a (err e, s) h = internal-Answers e

  after_update-Answers :
      (a : Response) (x : Result (Unit {0}) × Database)
      → IsAnswer r.path a
      → Answers (after_update r a x).0
  after_update-Answers a (ok _, s) h = after_commit-Answers a _ h
  after_update-Answers a (err e, s) h = internal-Answers e

  after_next-Answers : (x : Served × Database) → Handled r.path x.0 → Answers (after_next r x).0
  after_next-Answers (panicked, s) h = absurd h
  after_next-Answers (answered a, s) h = after_update-Answers a _ h

  module _ (next : Request → Database → Served × Database)
      (handled : (s : Database) → Handled r.path (next r s).0) where
    after_insert-Answers :
        (t : Database) (x : Result Bool × Database)
        → t.begun ≡ some old
        → exec (insert_key r hashed) t ≡ x
        → Answers (after_insert (next r) r hashed x).0
    unfolding run_fresh_request exec rollback
    after_insert-Answers t (err e, s) begun h = internal-Answers e
    after_insert-Answers t (ok false, s) begun h = replay-Answers (rollback s) (ground arith)
    after_insert-Answers t (ok true, s) begun h = after_next-Answers (next r s) (handled s)

    after_begin-Answers :
        (s : Database) (x : Result (Unit {0}) × Database)
        → s.begun ≡ none
        → s.tables ≡ old
        → begin s ≡ x
        → Answers (after_begin (next r) r hashed x).0
    unfolding begin
    after_begin-Answers s (err e, t) none_open same h = internal-Answers e
    after_begin-Answers s (ok _, t) none_open same h =
        after_insert-Answers t (exec (insert_key r hashed) t) (ground arith) refl

-- Over a handler whose answers are the ones a client may count on, outside of a transaction: so is
-- every answer of the middleware, whatever statement fails, but for the answer that the row of the
-- key has recorded for a body of the same hash.
pub require_idempotency_key-Answers :
    (hash : String → String) (next : Request → Database → Served × Database) (r : Request)
    (body : String) (s : Database)
    → s.begun ≡ none
    → ((t : Database) → Handled r.path (next r t).0)
    → r.body ≡ ok body
    → Answers r (hash body) s.tables (require_idempotency_key hash next r s).0
unfolding require_idempotency_key
require_idempotency_key-Answers hash next r body s none_open handled readable =
    elim (Bool-cases (r.key == "")) [
      | inl empty ↦
          rw (empty, require_idempotency_key)
            (inl (write_problem-IsAnswer 400 _ _ r.path (omega arith)))
      | inr keyed ↦
          rw (keyed, readable, require_idempotency_key)
            (after_begin-Answers r (hash body) s.tables next handled s (begin s) none_open refl
              refl)
    ]

-- A request whose body cannot be read, or that has no key, gets a problem.
pub require_idempotency_key-unreadable :
    (hash : String → String) (next : Request → Database → Served × Database) (r : Request)
    (e : Error) (s : Database)
    → r.body ≡ err e
    → Handled r.path (require_idempotency_key hash next r s).0
unfolding require_idempotency_key
require_idempotency_key-unreadable hash next r e s bad = elim (Bool-cases (r.key == "")) [
  | inl empty ↦
      rw (empty, require_idempotency_key) (write_problem-IsAnswer 400 _ _ r.path (omega arith))
  | inr keyed ↦
      rw (keyed, bad, require_idempotency_key) (write_problem-IsAnswer 400 _ _ r.path (omega arith))
]
