-- ===== src/Relay/Run/Delivers.antt =====
-- What Run of outbox_relay.go sends by the time that it first waits, and in which order.
use process_path_management.Prelude.{
  ℕ, ◌+◌, ◌<◌, zero, suc, false, ◌≡◌, sym, ap, ◌∙◌, List, [], ◌∷◌, ◌++◌, map, Option, none, some,
  length, nat_eq, arith, Bool-cases, append_nil, append_moved, inl, inr, subst,
}
use process_path_management.Errors.{Error, ok}
use process_path_management.Transaction.{Session, exec, begin, commit, rollback}
use process_path_management.Kafka.{Encoded}
use process_path_management.Postgres.Session.{Tables, OutboxRow}
use process_path_management.Relay.{
  Sink, pending, limit, mark_published, claim, relay_rows, relay_once,
}
use process_path_management.Relay.Run.{run}
use process_path_management.Relay.Run.Drains.{
  unpublished, mark_all, relay_once-Publishes, short_batch, full_batch, length-limit, limit-short,
  has_id-pending,
}
use process_path_management.Relay.Run.Order.{Unique, drop, pending-mark_all, mark_all-Unique}

abbrev pub encoded_rows : List OutboxRow → List Encoded
encoded_rows rows = map (λ r. r.encoded) rows

encoded-limit :
    (n : ℕ) (log : List Encoded) (rows : List OutboxRow)
    → (log ++ encoded_rows (limit n rows)) ++ encoded_rows (drop n rows) ≡ log ++ encoded_rows rows
encoded-limit zero log rows = ap (λ l. l ++ encoded_rows rows) (append_nil log)
encoded-limit (suc n) log [] = append_nil (log ++ [])
encoded-limit (suc n) log (r ∷ rows) =
    sym (
      ap (λ l. l ++ encoded_rows (drop n rows))
        (append_moved log r.encoded (encoded_rows (limit n rows))))
    ∙ encoded-limit n (log ++ r.encoded ∷ []) rows
    ∙ append_moved log r.encoded (encoded_rows rows)

module _ {K : Type 0} where
  -- a sink that takes every event, and a log of what it took
  pub record IsLogged (sink : Sink K) (sent : K → List Encoded) : Type 0 where
    pub takes : (e : Encoded) (k : K) → (sink.send e k).0 ≡ ok tt
    pub logs : (e : Encoded) (k : K) → sent (sink.send e k).1 ≡ sent k ++ e ∷ []

module _ {R K : Type 0} (sent : K → List Encoded) where
  -- when Run returns, if it does: how many rows are not published, and the log of the sink
  abbrev pub delivered : Option (Error × (Session (Tables R) × K)) → Option (ℕ × List Encoded)
  delivered none = none
  delivered (some (_, (s, k))) = some (unpublished s.tables.outbox, sent k)

module _ {R K : Type 0} (sink : Sink K) (sent : K → List Encoded) (l : IsLogged sink sent) where
  relay_rows-sent :
      (rows : List OutboxRow) (published : ℕ) (s : Session (Tables R)) (k : K)
      → s.faults ≡ []
      → s.aborted ≡ false
      → sent (relay_rows sink rows published s k).1.1 ≡ sent k ++ encoded_rows rows
  unfolding relay_rows exec commit rollback
  relay_rows-sent [] published s k calm live = ground (arith, append_nil (sent k))
  relay_rows-sent (row ∷ rows) published s k calm live =
      let marking = (exec (mark_published row) s).1 in
      let later = relay_rows-sent rows (published + 1) marking (sink.send row.encoded k).1 in
      let taken = l.takes row.encoded k in
      let logged = l.logs row.encoded k in
      ground (arith, append_moved (sent k) row.encoded (encoded_rows rows))

  relay_once-sent :
      (n : ℕ) (s : Session (Tables R)) (k : K)
      → s.faults ≡ []
      → sent (relay_once sink n s k).1.1
        ≡ sent k ++ encoded_rows (limit n (pending s.tables.outbox))
  unfolding relay_once begin exec rollback
  relay_once-sent n s k calm =
      let opened = (begin s).1 in
      let claimed = (exec (claim n) opened).1 in
      let looped = relay_rows-sent (limit n (pending s.tables.outbox)) 0 claimed k in ground arith

  -- Where no statement fails, the sink takes and logs every event, a batch has at least one row, the
  -- ids of the outbox are unique and the context is cancelled at the first wait: Run returns within
  -- as many passes as there are rows that are not published, and one more. By then every row is
  -- published, and the sink was sent the rows that were not, each once, in the order of their ids.
  pub run-delivered :
      (n : ℕ) (stop : Error) (passes : ℕ) (s : Session (Tables R)) (k : K)
      → s.faults ≡ []
      → Unique s.tables.outbox
      → unpublished s.tables.outbox < passes
      → delivered sent (run sink (suc n) (λ st. (some stop, st)) passes (s, k))
        ≡ some (0, sent k ++ encoded_rows (pending s.tables.outbox))
  unfolding run
  run-delivered n stop zero s k calm u few = absurd (omega arith)
  run-delivered n stop (suc passes) s k calm u few =
      let pass = relay_once-Publishes sink l.takes (suc n) s k calm in
      let sent_now = relay_once-sent (suc n) s k calm in
      let rows = s.tables.outbox in
      let waiting = pending rows in
      let short = short_batch (suc n) rows in
      let whole = limit-short (suc n) waiting in
      let full = full_batch n waiting rows (λ i. has_id-pending i rows) in
      let most = length-limit (suc n) waiting in
      let after = (relay_once sink (suc n) s k).1 in
      let marked : after.0.tables.outbox ≡ mark_all (limit (suc n) waiting) rows = ground arith in
      let unique =
        subst (λ x. Unique x) (sym marked) (mark_all-Unique (limit (suc n) waiting) rows u) in
      let left = ap pending marked ∙ pending-mark_all (suc n) rows u in
      let joined = encoded-limit (suc n) (sent k) waiting in
      let later = run-delivered n stop passes after.0 after.1 (ground arith) unique in
      elim (Bool-cases (nat_eq (length (limit (suc n) waiting)) (suc n))) [
        | inl is_whole ↦ ground arith
        | inr is_short ↦ ground arith
      ]
