-- ===== src/Relay/Laws.antt =====
-- RelayOnce of outbox_relay.go against a specification of its batch.
use process_path_management.Prelude.{
  ℕ, ◌+◌, suc, false, List, [], ◌∷◌, none, some, ◌≡◌, ◌⊎◌, inl, inr, arith,
}
use process_path_management.Errors.{ok, err, Result-cases}
use process_path_management.Transaction.{Session, exec, begin, rollback, commit}
use process_path_management.Postgres.Session.{Tables, OutboxRow}
use process_path_management.Relay.{
  Sink, Pass, pending, limit, mark_published, mark_failed, relay_rows, relay_once, claim,
}

-- What should happen to a batch: how many rows are published, and the states after it.
pub record Outcome (R K : Type 0) : Type 0 where
  pub count : ℕ
  pub tables : Tables R
  pub sink_after : K

module _ {R K : Type 0} (sink : Sink K) where
  -- The rows are sent in order up to the first that the sink refuses; those that it took are marked
  -- published, and the refused one has its failure recorded.
  abbrev pub deliver : List OutboxRow → Tables R → K → Outcome R K
  deliver [] t k = record { count = 0; tables = t; sink_after = k }
  deliver (row ∷ rows) t k = elim (sink.send row.encoded k).0 [
    | err e ↦ record {
      count = 0;
      tables = (mark_failed row e t).1;
      sink_after = (sink.send row.encoded k).1;
    }
    | ok _ ↦
        let later = deliver rows (mark_published row t).1 (sink.send row.encoded k).1 in
        record later { count = suc later.count }
  ]

  -- either nothing is written, or all that the specification says
  abbrev pub Settles : Tables R → ℕ → Outcome R K → Pass R K → Type 0
  Settles old before o pass =
      (pass.1.0.begun ≡ none)
      × ((pass.1.0.tables ≡ old)
          ⊎ ((pass.1.0.tables ≡ o.tables)
              × (pass.0.0 ≡ before + o.count)
              × (pass.1.1 ≡ o.sink_after)))

  relay_rows-Settles :
      (old : Tables R) (rows : List OutboxRow) (published : ℕ) (s : Session (Tables R)) (k : K)
      → s.begun ≡ some old
      → Settles old published (deliver rows s.tables k) (relay_rows sink rows published s k)
  unfolding relay_rows exec commit rollback
  relay_rows-Settles old [] published s k opened = ground arith
  relay_rows-Settles old (row ∷ rows) published s k opened =
      let marking = (exec (mark_published row) s).1 in
      let later = relay_rows-Settles old rows (published + 1) marking (sink.send row.encoded k).1 in
      elim (Result-cases (sink.send row.encoded k).0) [
        | inl (e, refused) ↦ ground arith
        | inr (_, taken) ↦ ground arith
      ]

  -- The batch of a pass: the rows that are not published, by their ids, up to the batch size.
  abbrev pub batch : ℕ → Tables R → List OutboxRow
  batch batch_size t = limit batch_size (pending t.outbox)

  -- Outside of a transaction, whatever statement fails: no transaction stays open, and either every
  -- table is as it was, or the rows of the batch up to the first that the sink refuses, and no
  -- others, are marked published, the refused one has its failure recorded, the count that is
  -- returned is that of the marked rows, and the sink was called for those rows alone, in order.
  pub relay_once-Settles :
      (batch_size : ℕ) (s : Session (Tables R)) (k : K)
      → s.begun ≡ none
      → Settles s.tables 0
          (deliver (batch batch_size s.tables) s.tables k)
          (relay_once sink batch_size s k)
  unfolding relay_once begin exec rollback
  relay_once-Settles batch_size s k none_open =
      let opened = (begin s).1 in
      let claimed = (exec (claim batch_size) opened).1 in
      let looped = relay_rows-Settles s.tables (batch batch_size s.tables) 0 claimed k in
      ground arith

  relay_rows-calm :
      (old : Tables R) (rows : List OutboxRow) (published : ℕ) (s : Session (Tables R)) (k : K)
      → s.faults ≡ []
      → s.aborted ≡ false
      → ((relay_rows sink rows published s k).1.0.tables ≡ (deliver rows s.tables k).tables)
        × ((relay_rows sink rows published s k).1.1 ≡ (deliver rows s.tables k).sink_after)
  unfolding relay_rows exec commit rollback
  relay_rows-calm old [] published s k calm live = ground arith
  relay_rows-calm old (row ∷ rows) published s k calm live =
      let marking = (exec (mark_published row) s).1 in
      let later = relay_rows-calm old rows (published + 1) marking (sink.send row.encoded k).1 in
      elim (Result-cases (sink.send row.encoded k).0) [
        | inl (e, refused) ↦ ground arith
        | inr (_, taken) ↦ ground arith
      ]

  -- Where no statement fails, a pass leaves the tables and the sink as the specification says.
  relay_once-calm :
      (batch_size : ℕ) (s : Session (Tables R)) (k : K)
      → s.faults ≡ []
      → ((relay_once sink batch_size s k).1.0.tables
          ≡ (deliver (batch batch_size s.tables) s.tables k).tables)
        × ((relay_once sink batch_size s k).1.1
            ≡ (deliver (batch batch_size s.tables) s.tables k).sink_after)
  unfolding relay_once begin exec rollback
  relay_once-calm batch_size s k calm =
      let opened = (begin s).1 in
      let claimed = (exec (claim batch_size) opened).1 in
      let looped = relay_rows-calm s.tables (batch batch_size s.tables) 0 claimed k in ground arith
