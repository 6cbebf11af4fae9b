-- ===== src/Relay/Run/EndToEnd.antt =====
-- Defining a path over the database, and Run of outbox_relay.go after it.
use process_path_management.Prelude.{
  ℕ, ◌<◌, suc, String, Bool, ◌≡◌, sym, ap, ◌∙◌, List, [], ◌++◌, some, inl, inr, none, subst, arith,
}
use process_path_management.Prelude.Int.{ℤ}
use process_path_management.Errors.{Error, ok}
use process_path_management.Events.{process_path_created, facts_of, occurred_at}
use process_path_management.Shared.{PathId, Capability, DestinationLocationRole}
use process_path_management.Shared.Platform.{Platform}
use process_path_management.Shared.Eligibility.{Eligibility}
use process_path_management.ProcessPath.{ProcessPath}
use process_path_management.UseCases.{define_path}
use process_path_management.Transaction.{Session}
use process_path_management.Kafka.{Encoded}
use process_path_management.Postgres.Session.{Tables}
use process_path_management.Postgres.Repo.{Encoder, upsert}
use process_path_management.Postgres.Rows.{path_to_row}
use process_path_management.Postgres.Outboxed.{written}
use process_path_management.Postgres.Wired.{define_stored}
use process_path_management.Postgres.Together.{define_path-IsStored}
use process_path_management.Relay.{Sink, pending}
use process_path_management.Relay.Run.{run}
use process_path_management.Relay.Run.Drains.{unpublished}
use process_path_management.Relay.Run.Delivers.{encoded_rows, IsLogged, delivered, run-delivered}
use process_path_management.Relay.Run.Arrives.{encode_each, Fresh, IsNumbered, enqueue_each-waits}

module _ {R K : Type 0} (pf : Platform) (new_id : ℕ → String) (encoders : List Encoder)
    (sink : Sink K) (sent : K → List Encoded) (l : IsLogged sink sent) where
  -- Outside of a transaction, over tables whose outbox has unique ids below the next one, let
  -- defining a path succeed, with none of the encodings of its created event in the outbox before.
  -- On the tables after it, where no statement fails, the sink takes and logs every event, a batch
  -- has at least one row and the context is cancelled at the first wait, Run of the relay returns
  -- within as many passes as there are rows that are not published, and one more. By then the sink
  -- was sent the rows that waited before, each once and in the order of their ids, and then each
  -- encoding of the created event, in the order of the encoders; and every row is published.
  pub define_path-delivered :
      (id : PathId) (match_prefix : String) (direct : Bool) (needed : List Capability)
      (role : DestinationLocationRole) (cycle_time : ℤ) (eligibility : Eligibility)
      (s u : Session (Tables R)) (p : ProcessPath) (es : List Encoded) (n : ℕ) (stop : Error)
      (passes : ℕ) (k : K)
      → let r =
          define_path pf
            (define_stored pf new_id encoders)
            id
            match_prefix
            direct
            needed
            role
            cycle_time
            eligibility
            s in
        let event = process_path_created (facts_of p s.time) in
        s.begun ≡ none
        → IsNumbered s.tables
        → r.0 ≡ ok p
        → encode_each encoders event (new_id s.minted) ≡ ok es
        → Fresh s.tables.next_id (occurred_at event) s.tables.outbox es
        → u.tables ≡ r.1.tables
        → u.faults ≡ []
        → unpublished u.tables.outbox < passes
        → delivered sent (run sink (suc n) (λ st. (some stop, st)) passes (u, k))
          ≡ some (0, sent k ++ (encoded_rows (pending s.tables.outbox) ++ es))
  define_path-delivered id match_prefix direct needed role cycle_time eligibility s u p es n stop
        passes k none_open numbered made encoded fresh same calm few =
      let event = process_path_created (facts_of p s.time) in
      let after =
        (define_path pf (define_stored pf new_id encoders) id match_prefix direct needed role
          cycle_time eligibility s).1.tables in
      let stored =
        define_path-IsStored pf new_id encoders id match_prefix direct needed role cycle_time
          eligibility s none_open in
      elim stored [
        | inl (e, failed, _) ↦ absurd (ground arith)
        | inr (q, found, kept) ↦
            let equal : q ≡ p = ground arith in
            let wrote : written pf new_id encoders p event s ≡ ok u.tables =
              subst
                (λ x.
                  written pf new_id encoders x (process_path_created (facts_of x s.time)) s
                  ≡ ok after)
                equal kept
              ∙ ap ok (sym same) in
            let (unique, waits) =
              enqueue_each-waits encoders event (new_id s.minted)
                (record s.tables { paths = upsert (path_to_row pf p) s.tables.paths }) u.tables es
                (record { unique = numbered.unique; below = numbered.below }) encoded fresh wrote in
            run-delivered sink sent l n stop passes u k calm unique few
            ∙ ap (λ x. some (0, sent k ++ x)) waits
      ]
