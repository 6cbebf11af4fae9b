-- ===== src/Relay.antt =====
-- internal/adapters/outbound/postgres/outbox_relay.go: one pass of the relay that drains the outbox
-- onto a sink whose state is K. The rows are locked while the pass runs: no other relay has them.
pub mod Laws
pub mod Run
use process_path_management.Prelude.{
  ℕ, ◌+◌, zero, suc, String, ◌++ˢ◌, Bool, true, false, List, [], ◌∷◌, Option, none, some, nat_eq,
  leb, if◌then◌else◌,
}
use process_path_management.Errors.{Error, Result, ok, err, other, error_text}
use process_path_management.Kafka.{Encoded}
use process_path_management.Transaction.{Session, exec, begin, rollback, commit}
use process_path_management.Postgres.Session.{Tables, OutboxRow}

-- Sink
pub record Sink (K : Type 0) : Type 0 where
  pub send : Encoded → K → Result (Unit {0}) × K

-- ORDER BY id
unfoldable pub by_id : OutboxRow → List OutboxRow → List OutboxRow
by_id row [] = row ∷ []
by_id row (first ∷ rows) =
    if leb row.id first.id then row ∷ first ∷ rows else first ∷ by_id row rows

-- WHERE published_at IS NULL ORDER BY id
unfoldable pub pending : List OutboxRow → List OutboxRow
unfolding by_id
pending [] = []
pending (row ∷ rows) = if row.published then pending rows else by_id row (pending rows)

-- LIMIT
abbrev pub limit : ℕ → List OutboxRow → List OutboxRow
limit zero rows = []
limit (suc n) [] = []
limit (suc n) (row ∷ rows) = row ∷ limit n rows

-- UPDATE … WHERE id
abbrev pub update_row : ℕ → (OutboxRow → OutboxRow) → List OutboxRow → List OutboxRow
update_row id change [] = []
update_row id change (row ∷ rows) =
    (if nat_eq row.id id then change row else row) ∷ update_row id change rows

abbrev pub published_row : OutboxRow → OutboxRow
published_row row = record row { published = true; attempts = row.attempts + 1; last_error = none }

abbrev pub failed_row : Error → OutboxRow → OutboxRow
failed_row e row = record row { attempts = row.attempts + 1; last_error = some (error_text e) }

-- errors.Join
abbrev pub join : Error → Result (Unit {0}) → String → Error
join e (ok _) context = e
join e (err f) context = other (error_text e ++ˢ "\n" ++ˢ context ++ˢ error_text f)

-- how many rows were published, the outcome, and the states after the pass
abbrev pub Pass : Type 0 → Type 0 → Type 0
Pass R K = (ℕ × Result (Unit {0})) × (Session (Tables R) × K)

module _ {R : Type 0} where
  abbrev pub mark_published : OutboxRow → Tables R → Unit {0} × Tables R
  mark_published row t = (tt, record t { outbox = update_row row.id published_row t.outbox })

  abbrev pub mark_failed : OutboxRow → Error → Tables R → Unit {0} × Tables R
  mark_failed row e t = (tt, record t { outbox = update_row row.id (failed_row e) t.outbox })

  abbrev pub claim : ℕ → Tables R → List OutboxRow × Tables R
  claim batch_size t = (limit batch_size (pending t.outbox), t)

module _ {R K : Type 0} where
  -- the commit at the end of the pass, or in the branch of a failed send
  abbrev pub end_pass : ℕ → K → Result (Unit {0}) × Session (Tables R) → Pass R K
  end_pass published k (ok _, s) = ((published, ok tt), (s, k))
  end_pass published k (err e, s) =
      ((published, err (other ("postgres: commit relay pass: " ++ˢ error_text e))), (s, k))

  abbrev pub end_failed : ℕ → K → Error → Result (Unit {0}) × Session (Tables R) → Pass R K
  end_failed published k e (r, s) =
      ((published, err (join e r "postgres: commit relay pass: ")), (s, k))

  abbrev pub after_failure : ℕ → K → Error → Result (Unit {0}) × Session (Tables R) → Pass R K
  after_failure published k e (r, s) =
      end_failed published k (join e r "postgres: record outbox failure: ") (commit s)

  abbrev pub after_mark :
      ℕ → K → Result (Unit {0}) × Session (Tables R) → (Session (Tables R) → Pass R K) → Pass R K
  after_mark published k (ok _, s) continue = continue s
  after_mark published k (err e, s) continue = ((published, err e), (rollback s, k))

  module _ (sink : Sink K) where
    -- the loop over the batch
    unfoldable pub relay_rows : List OutboxRow → ℕ → Session (Tables R) → K → Pass R K
    unfolding exec commit rollback
    relay_rows [] published s k = end_pass published k (commit s)
    relay_rows (row ∷ rows) published s k =
        let sent = sink.send row.encoded k in
        elim sent.0 [
          | err e ↦ after_failure published sent.1 e (exec (mark_failed row e) s)
          | ok _ ↦
              after_mark published sent.1 (exec (mark_published row) s)
                (λ t. relay_rows rows (published + 1) t sent.1)
        ]

    abbrev pub after_claim : K → Result (List OutboxRow) × Session (Tables R) → Pass R K
    after_claim k (ok batch, s) = relay_rows batch 0 s k
    after_claim k (err e, s) =
        ((0, err (other ("postgres: claim outbox rows: " ++ˢ error_text e))), (rollback s, k))

    abbrev pub after_begin : ℕ → K → Result (Unit {0}) × Session (Tables R) → Pass R K
    after_begin batch_size k (ok _, s) = after_claim k (exec (claim batch_size) s)
    after_begin batch_size k (err e, s) =
        ((0, err (other ("postgres: begin relay pass: " ++ˢ error_text e))), (s, k))

    -- RelayOnce
    unfoldable pub relay_once : ℕ → Session (Tables R) → K → Pass R K
    unfolding begin exec rollback
    relay_once batch_size s k = after_begin batch_size k (begin s)
