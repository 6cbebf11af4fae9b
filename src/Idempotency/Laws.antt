-- ===== src/Idempotency/Laws.antt =====
-- The middleware of idempotency.go, over any handler: a fresh key and a key that was used.
use process_path_management.Prelude.{
  ◌≤◌, ◌==◌, Bool, true, false, Bool-cases, Option, Option-cases, List, ◌∷◌, is_some, String, [],
  none, some, ◌==◌, eq_iff, ◌≡◌, ◌≢◌, ◌⊎◌, inl, inr, refl, arith, if◌then◌else◌, ◌∙◌,
}
use process_path_management.Prelude.Assoc.{lookup}
use process_path_management.Errors.{Error, Result, ok, err}
use process_path_management.Http.Problems.{Response, write_problem}
use process_path_management.Transaction.{exec, read, begin, rollback, commit}
use process_path_management.Postgres.Session.{Tables, IdempotencyRow}
use process_path_management.Idempotency.{
  internal, reply_headers, replay_row, after_commit, after_update, after_insert, after_begin,
  Served, answered, panicked, Request, Database, insert_key, record_outcome, run_fresh_request,
  after_next, replay_cached_response, require_idempotency_key, key_reused,
}

-- An answer to a request that changes nothing: an error, the answer that the row of its key has
-- recorded for the same body, or the handler's own panic.
pub data IsDeclined (hashed : String) (r : Request) (old : Tables Response) (ran : Served)
    : Served → Type 0 where
  refused : (a : Response) → 400 ≤ a.status → IsDeclined hashed r old ran (answered a)
  recorded :
      (row : IdempotencyRow Response) (a : Response)
      → lookup r.key old.idempotency ≡ some row
      → row.request_hash ≡ hashed
      → row.outcome ≡ some a
      → IsDeclined hashed r old ran (answered a)
  raised : ran ≡ panicked → IsDeclined hashed r old ran panicked

-- What the end of a request does to a transaction over the tables `old`.
pub record IsSettled (hashed : String) (r : Request) (old : Tables Response)
    (ran : Served × Database) (result : Served × Database) : Type 0 where
  pub closed : result.1.begun ≡ none
  pub settled :
      ((result.1.tables ≡ old) × IsDeclined hashed r old ran.0 result.0)
      ⊎ ((response : Response) × (result.0 ≡ answered response)
          × (ran.0 ≡ answered response)
          × (result.1.tables ≡ (record_outcome r response ran.1.tables).1))

is_calm_cases : (bs : List Bool) → (bs ≡ []) ⊎ (bs ≢ [])
is_calm_cases [] = inl refl
is_calm_cases (b ∷ bs) = inr (λ e. cc e)

-- What keeps a request with a readable body from being carried out: a statement that may fail,
-- before its handler or after it, no key, a key that was used, or a transaction that its handler
-- left aborted.
pub data IsExcused (r : Request) (s : Database) (ran : Database) : Type 0 where
  may_fail : s.faults ≢ [] → IsExcused r s ran
  unkeyed : r.key ≡ "" → IsExcused r s ran
  used :
      (row : IdempotencyRow Response)
      → lookup r.key s.tables.idempotency ≡ some row
      → IsExcused r s ran
  aborted : ran.aborted ≡ true → IsExcused r s ran
  may_fail_after : ran.faults ≢ [] → IsExcused r s ran

-- The handler's answer is given, and its writes are committed together with it.
pub record IsCarriedOut (r : Request) (response : Response) (ran : Database)
    (result : Served × Database) : Type 0 where
  pub given : result.0 ≡ answered response
  pub committed : result.1.tables ≡ (record_outcome r response ran.tables).1

module _ (hashed : String) (r : Request) (old : Tables Response) where
  internal-IsDeclined : (ran : Served) (e : Error) → IsDeclined hashed r old ran (internal r e)
  unfolding write_problem
  internal-IsDeclined ran e = refused _ (omega arith)

  reply-IsDeclined :
      (ran : Served) (row : IdempotencyRow Response) (o : Option Response)
      → lookup r.key old.idempotency ≡ some row
      → row.request_hash ≡ hashed
      → row.outcome ≡ o
      → IsDeclined hashed r old ran (reply_headers o r)
  unfolding write_problem
  reply-IsDeclined ran row none found same h = refused _ (omega arith)
  reply-IsDeclined ran row (some a) found same h = recorded row a found same h

  replay_row-IsDeclined :
      (ran : Served) (x : Result (Option (IdempotencyRow Response)))
      → ((row : IdempotencyRow Response)
          → x ≡ ok (some row)
          → lookup r.key old.idempotency ≡ some row)
      → IsDeclined hashed r old ran (replay_row r hashed x)
  unfolding write_problem
  replay_row-IsDeclined ran (err e) h = internal-IsDeclined ran e
  replay_row-IsDeclined ran (ok none) h = refused _ (omega arith)
  replay_row-IsDeclined ran (ok (some row)) h = elim (Bool-cases (row.request_hash == hashed)) [
    | inl same ↦ rw same (
        reply-IsDeclined ran row row.outcome (h row refl) ((eq_iff row.request_hash hashed).0 same)
          refl)
    | inr other ↦ rw other (refused _ (omega arith))
  ]

  replay-IsDeclined :
      (ran : Served) (s : Database)
      → s.tables ≡ old
      → IsDeclined hashed r old ran (replay_cached_response r hashed s)
  unfolding replay_cached_response read
  replay-IsDeclined ran s same =
      replay_row-IsDeclined ran (read r.key (λ t. lookup r.key t.idempotency) s)
        (λ row h. ground arith)

  after_commit-IsSettled :
      (response : Response) (ran : Database) (t : Database) (y : Result (Unit {0}) × Database)
      → t.begun ≡ some old
      → t.tables ≡ (record_outcome r response ran.tables).1
      → commit t ≡ y
      → IsSettled hashed r old (answered response, ran) (after_commit r response y)
  unfolding commit rollback
  after_commit-IsSettled response ran t (err e, u) begun kept h = record {
    closed = ground arith;
    settled = inl (ground arith, internal-IsDeclined (answered response) e);
  }
  after_commit-IsSettled response ran t (ok _, u) begun kept h = record {
    closed = ground arith;
    settled = inr (response, refl, refl, ground arith);
  }

  after_update-IsSettled :
      (response : Response) (s : Database) (x : Result (Unit {0}) × Database)
      → s.begun ≡ some old
      → exec (record_outcome r response) s ≡ x
      → IsSettled hashed r old (answered response, s) (after_update r response x)
  unfolding exec rollback
  after_update-IsSettled response s (err e, t) begun h = record {
    closed = refl;
    settled = inl (ground arith, internal-IsDeclined (answered response) e);
  }
  after_update-IsSettled response s (ok _, t) begun h =
      after_commit-IsSettled response s t (commit t) (ground arith) (ground arith) refl

  after_next-IsSettled :
      (a : Served) (s : Database)
      → s.begun ≡ some old
      → IsSettled hashed r old (a, s) (after_next r (a, s))
  unfolding rollback
  after_next-IsSettled panicked s begun = record {
    closed = refl;
    settled = inl (ground arith, raised refl);
  }
  after_next-IsSettled (answered response) s begun =
      after_update-IsSettled response s (exec (record_outcome r response) s) begun refl

module _ (hash : String → String) (next : Request → Database → Served × Database) where
  abbrev pub StaysOpen : Type 0
  StaysOpen = (r : Request) (s : Database) → (next r s).1.begun ≡ s.begun

  -- the session that the handler runs in: the key is inserted, nothing is committed
  abbrev pub inside : Request → String → Database → Database
  inside r body s = (exec (insert_key r (hash body)) (begin s).1).1

  after_insert-IsSettled :
      (r : Request) (hashed : String) (t : Database) (old : Tables Response)
      (x : Result Bool × Database)
      → StaysOpen
      → t.begun ≡ some old
      → exec (insert_key r hashed) t ≡ x
      → IsSettled hashed r old (next r x.1) (after_insert (next r) r hashed x)
  unfolding exec rollback run_fresh_request
  after_insert-IsSettled r hashed t old (err e, u) stays begun h = record {
    closed = refl;
    settled = inl (ground arith, internal-IsDeclined hashed r old (next r u).0 e);
  }
  after_insert-IsSettled r hashed t old (ok false, u) stays begun h =
      let back : (rollback u).tables ≡ old = ground arith in
      record {
        closed = refl;
        settled = inl (back, replay-IsDeclined hashed r old (next r u).0 (rollback u) back);
      }
  after_insert-IsSettled r hashed t old (ok true, u) stays begun h =
      after_next-IsSettled hashed r old (next r u).0 (next r u).1 (stays r u ∙ ground arith)

  after_begin-IsSettled :
      (r : Request) (hashed : String) (s : Database) (x : Result (Unit {0}) × Database)
      → StaysOpen
      → s.begun ≡ none
      → begin s ≡ x
      → IsSettled hashed r s.tables
          (next r (exec (insert_key r hashed) x.1).1)
          (after_begin (next r) r hashed x)
  unfolding begin
  after_begin-IsSettled r hashed s (err e, t) stays none_open h = record {
    closed = ground arith;
    settled = inl (ground arith, internal-IsDeclined hashed r s.tables _ e);
  }
  after_begin-IsSettled r hashed s (ok _, t) stays none_open h =
      after_insert-IsSettled r hashed t s.tables (exec (insert_key r hashed) t) stays (ground arith)
        refl

  -- Over a handler that leaves the transaction open, for a request with a readable body, outside of
  -- a transaction, whatever statement fails: no transaction stays open, and either every table is as
  -- it was and the answer is an error, the one that is recorded for the key and the same body, or
  -- the handler's panic; or the handler answered, the client gets that answer, and the handler's
  -- writes are committed together with the answer in the key's row.
  pub require_idempotency_key-IsSettled :
      (r : Request) (body : String) (s : Database)
      → StaysOpen
      → s.begun ≡ none
      → r.body ≡ ok body
      → IsSettled
          (hash body)
          r
          s.tables
          (next r (inside r body s))
          (require_idempotency_key hash next r s)
  unfolding require_idempotency_key write_problem
  require_idempotency_key-IsSettled r body s stays none_open readable =
      elim (Bool-cases (r.key == "")) [
        | inl empty ↦
            rw (empty, require_idempotency_key)
              (record { closed = none_open; settled = inl (refl, refused _ (omega arith)) })
        | inr keyed ↦
            simp (keyed, readable, require_idempotency_key)
              (after_begin-IsSettled r (hash body) s (begin s) stays none_open refl)
      ]

  -- Outside of a transaction, where no statement fails: a request with a readable body whose key is
  -- not empty and has a recorded answer changes no table, whatever the handler, and gets that answer
  -- if its body has the recorded hash and the problem of a reused key if not.
  pub require_idempotency_key-replay :
      (r : Request) (body : String) (s : Database) (row : IdempotencyRow Response)
      (response : Response)
      → s.begun ≡ none
      → s.faults ≡ []
      → r.key ≢ ""
      → r.body ≡ ok body
      → lookup r.key s.tables.idempotency ≡ some row
      → row.outcome ≡ some response
      → ((require_idempotency_key hash next r s).1.tables ≡ s.tables)
        × ((require_idempotency_key hash next r s).0
            ≡ (if row.request_hash == hash body then answered response else key_reused r))
  unfolding require_idempotency_key replay_cached_response read begin exec rollback
  require_idempotency_key-replay r body s row response none_open calm keyed readable found filled =
      ground (arith, eq_iff r.key "", eq_iff row.request_hash (hash body))

module _ (hash : String → String) (next : Request → Database → Served × Database) where
  after_next-calm :
      (r : Request) (x : Served × Database) (response : Response)
      → x.0 ≡ answered response
      → is_some x.1.begun ≡ true
      → x.1.aborted ≡ false
      → x.1.faults ≡ []
      → IsCarriedOut r response x.1 (after_next r x)
  unfolding exec commit
  after_next-calm r (answered a, t) response ran open_ whole quiet = record {
    given = ground arith;
    committed = ground arith;
  }
  after_next-calm r (panicked, t) response ran open_ whole quiet = absurd (cc ran)

  reaches :
      (r : Request) (body : String) (s : Database)
      → s.faults ≡ []
      → r.key ≢ ""
      → r.body ≡ ok body
      → lookup r.key s.tables.idempotency ≡ none
      → require_idempotency_key hash next r s ≡ after_next r (next r (inside hash next r body s))
  unfolding require_idempotency_key run_fresh_request begin exec
  reaches r body s calm keyed readable free =
      let named : (r.key == "") ≡ false = ground (arith, eq_iff r.key "") in
      ground (arith, named, calm, readable, free)

  carried_out :
      (r : Request) (body : String) (s : Database) (response : Response)
      → s.faults ≡ []
      → r.key ≢ ""
      → r.body ≡ ok body
      → lookup r.key s.tables.idempotency ≡ none
      → (next r (inside hash next r body s)).0 ≡ answered response
      → is_some (next r (inside hash next r body s)).1.begun ≡ true
      → (next r (inside hash next r body s)).1.aborted ≡ false
      → (next r (inside hash next r body s)).1.faults ≡ []
      → IsCarriedOut r response
          (next r (inside hash next r body s)).1
          (require_idempotency_key hash next r s)
  carried_out r body s response calm keyed readable free ran open_ whole quiet =
      rw (reaches r body s calm keyed readable free)
        (after_next-calm r (next r (inside hash next r body s)) response ran open_ whole quiet)

  -- Over a handler that answers and leaves the transaction open, outside of a transaction: a request
  -- with a readable body is carried out, unless there is one of the excuses.
  pub require_idempotency_key-fresh :
      (r : Request) (body : String) (s : Database) (response : Response)
      → r.body ≡ ok body
      → (next r (inside hash next r body s)).0 ≡ answered response
      → is_some (next r (inside hash next r body s)).1.begun ≡ true
      → IsCarriedOut r response
          (next r (inside hash next r body s)).1
          (require_idempotency_key hash next r s)
        ⊎ IsExcused r s (next r (inside hash next r body s)).1
  require_idempotency_key-fresh r body s response readable ran open_ =
      let t = (next r (inside hash next r body s)).1 in
      elim (is_calm_cases s.faults) [
        | inr faulty ↦ inr (may_fail faulty)
        | inl calm ↦ elim (Bool-cases (r.key == "")) [
          | inl empty ↦ inr (unkeyed ((eq_iff r.key "").0 empty))
          | inr keyed ↦ elim (Option-cases (lookup r.key s.tables.idempotency)) [
            | inr (row, found) ↦ inr (used row found)
            | inl free ↦ elim (Bool-cases t.aborted) [
              | inl broken ↦ inr (aborted broken)
              | inr whole ↦ elim (is_calm_cases t.faults) [
                | inr faulty ↦ inr (may_fail_after faulty)
                | inl quiet ↦ inl (
                    carried_out r body s response calm (λ e. ground (arith, eq_iff r.key ""))
                      readable free ran open_ whole quiet)
              ]
            ]
          ]
        ]
      ]
