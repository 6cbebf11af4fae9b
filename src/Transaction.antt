-- ===== src/Transaction.antt =====
-- internal/pgtx over a database whose tables are T: a context that carries a transaction is a session
-- in which one is begun. A statement fails when `faults` says so, and inside of a transaction the
-- failure aborts it: every later statement fails, and so does the commit, until the transaction is
-- rolled back. That is what PostgreSQL documents; SQL and the driver are not in the repository.
use process_path_management.Prelude.{
  ℕ, String, Bool, false, ◌&&◌, not, List, [], ◌∷◌, Option, none, some, is_some, ◌||◌,
  if◌then◌else◌,
}
use process_path_management.Errors.{Result, ok, err, other}

-- `begun` holds the tables as they were at BEGIN; `faults` says of each statement to come that
-- writes, and of each BEGIN and COMMIT, whether it fails; `refused` says of a query, by what it asks
-- and the faults to come, whether it fails; `minted` counts the event ids that were made; `time` is
-- the clock.
pub record Session (T : Type 0) : Type 0 where
  pub tables : T
  pub begun : Option (T)
  pub aborted : Bool
  pub faults : List Bool
  pub refused : String → List Bool → Bool
  pub minted : ℕ
  pub time : ℕ

abbrev pub failing : List Bool → Bool
failing [] = false
failing (b ∷ _) = b

abbrev pub rest : List Bool → List Bool
rest [] = []
rest (_ ∷ bs) = bs

abbrev pub may_refuse : (String → List Bool → Bool) → String → List Bool → Bool
may_refuse refused what [] = false
may_refuse refused what (b ∷ bs) = refused what (b ∷ bs)

module _ {T : Type 0} where
  -- one statement that writes
  unfoldable pub exec {ℓ} : {A : Type ℓ} → (T → A × T) → Session T → Result A × Session T
  exec f s =
      if s.aborted
      then (err (other "current transaction is aborted"), s)
      else if failing s.faults
      then (
        err (other "statement failed"),
        record s { faults = rest s.faults; aborted = is_some s.begun },
      )
      else (ok (f s.tables).0, record s { tables = (f s.tables).1; faults = rest s.faults })

  -- one INSERT with no ON CONFLICT: it fails too where `taken` finds its key
  unfoldable pub exec_unless : (T → Bool) → (T → T) → Session T → Result (Unit {0}) × Session T
  exec_unless taken f s =
      if s.aborted
      then (err (other "current transaction is aborted"), s)
      else if failing s.faults || taken s.tables
      then (
        err (other "statement failed"),
        record s { faults = rest s.faults; aborted = is_some s.begun },
      )
      else (ok tt, record s { tables = f s.tables; faults = rest s.faults })

  -- A query takes no fault away, and whether it fails is no matter of the next statement's, but
  -- inside of a transaction: a query that fails there aborts it, so that the next statement fails
  -- too. Over an empty list of faults nothing fails.
  abbrev pub unanswered : String → Session T → Bool
  unanswered what s =
      may_refuse s.refused what s.faults && (failing s.faults || not (is_some s.begun))

  unfoldable pub read {ℓ} : {A : Type ℓ} → String → (T → A) → Session T → Result A
  read what f s =
      if s.aborted
      then err (other "current transaction is aborted")
      else if unanswered what s
      then err (other "query failed")
      else ok (f s.tables)

  unfoldable pub begin : Session T → Result (Unit {0}) × Session T
  begin s =
      if failing s.faults
      then (err (other "begin failed"), record s { faults = rest s.faults })
      else (ok tt, record s { begun = some s.tables; aborted = false; faults = rest s.faults })

  abbrev pub saved : Option (T) → T → T
  saved none t = t
  saved (some old) t = old

  -- a rollback that fails closes the connection, which rolls back too
  unfoldable pub rollback : Session T → Session T
  rollback s = record s { tables = saved s.begun s.tables; begun = none; aborted = false }

  -- The commit of an aborted transaction, or one that fails, rolls back. A commit that took effect
  -- though its client lost the connection before the answer is not represented.
  unfoldable pub commit : Session T → Result (Unit {0}) × Session T
  unfolding rollback
  commit s =
      if s.aborted
      then (err (other "commit unexpectedly resulted in rollback"), rollback s)
      else if failing s.faults
      then (err (other "commit failed"), rollback (record s { faults = rest s.faults }))
      else (ok tt, record s { begun = none; faults = rest s.faults })
