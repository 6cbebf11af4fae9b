-- ===== src/Postgres/Atomic.antt =====
-- Execute of unit_of_work.go over a function that may fail.
use process_path_management.Prelude.{false, ◌≡◌, none, arith}
use process_path_management.Errors.{Error, Result, ok, err}
use process_path_management.Transaction.{Session, exec, begin, rollback, commit}
use process_path_management.Postgres.Session.{execute}

module _ {T : Type 0} where
  -- The function leaves the transaction that it runs in open.
  abbrev pub StaysInside : (Session T → Result (Unit {0}) × Session T) → Type 0
  StaysInside fn = (s : Session T) → (fn s).1.begun ≡ s.begun

  pub exec-StaysInside : (f : T → Unit {0} × T) → StaysInside (exec f)
  unfolding exec
  exec-StaysInside f s = ground arith

  -- What a unit of work may leave behind: on an error the tables as they were, on success the
  -- tables as its function left them; and no open transaction.
  pub record IsAtomic (fn : Session T → Result (Unit {0}) × Session T) (s : Session T)
      (r : Result (Unit {0}) × Session T) : Type 0 where
    pub closed : r.1.begun ≡ none
    pub undone : (e : Error) → r.0 ≡ err e → r.1.tables ≡ s.tables
    pub done :
        r.0 ≡ ok tt
        → ((fn (begin s).1).0 ≡ ok tt)
          × (r.1.tables ≡ (fn (begin s).1).1.tables)
          × ((fn (begin s).1).1.aborted ≡ false)

  pub execute-IsAtomic :
      (fn : Session T → Result (Unit {0}) × Session T) (s : Session T)
      → StaysInside fn
      → s.begun ≡ none
      → IsAtomic fn s (execute fn s)
  unfolding execute begin commit rollback
  execute-IsAtomic fn s stays none_open =
      let inside = stays (begin s).1 in
      record { closed = ground arith; undone = λ e h. ground arith; done = λ h. ground arith }
