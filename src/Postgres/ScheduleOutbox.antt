-- ===== src/Postgres/ScheduleOutbox.antt =====
-- A schedule and the event about it over the database: DefineCPTSchedule of cpt_schedule.go with
-- the repository, the outbox and the unit of work.
use process_path_management.Prelude.{
  ◌+◌, ℕ, String, false, true, ◌≡◌, ◌⊎◌, refl, inl, inr, List, [], ◌∷◌, none, some, Option, arith,
  ◌++◌, sym, subst, append_nil, append_moved,
}
use process_path_management.Errors.{Error, Result, ok, err, Result-cases}
use process_path_management.Events.{cpt_schedule_changed}
use process_path_management.Shared.{SiteId}
use process_path_management.Shared.Platform.{Platform}
use process_path_management.CptSchedule
use process_path_management.CptSchedule.{CptSchedule, to_snapshot}
use process_path_management.CptSchedule.Cutoffs.{Cutoff}
use process_path_management.CptSchedule.Validity.{outcome, after, after-unchanged}
use process_path_management.UseCases.{then_do}
use process_path_management.UseCases.Schedules.{
  DefineCptSchedule, define_cpt_schedule, save_schedule, write_schedule, validate_eligible_path_ids,
}
use process_path_management.Transaction.{Session, exec, exec_unless, begin}
use process_path_management.Postgres.CptRows.{cutoff_to_row, has_cutoff}
use process_path_management.Postgres.Session.{Tables, execute}
use process_path_management.Postgres.Atomic.{StaysInside, execute-IsAtomic}
use process_path_management.Postgres.Repo.{Encoder, publish, process_path_repo}
use process_path_management.Postgres.Outboxed.{
  enqueue_each, publish_each-ok, publish_each-StaysInside,
}
use process_path_management.Postgres.Schedules.{
  upsert_schedule, clear_cutoffs, add_cutoff, insert_cutoffs, save, find_by_site_id,
  define_schedule_stored,
}
use process_path_management.Postgres.CutoffTrip.{rows_of}
use process_path_management.Postgres.ScheduleTrip.{with_saved}

module _ {R : Type 0} where
  abbrev adding : SiteId → Cutoff → Session (Tables R) → Result (Unit {0}) × Session (Tables R)
  adding site c s =
      exec_unless (λ t. has_cutoff site c.cpt_id t.cutoffs) (add_cutoff (cutoff_to_row site c)) s

  abbrev with_rows : SiteId → List Cutoff → Tables R → Tables R
  with_rows site cs t = record t { cutoffs = t.cutoffs ++ rows_of site cs }

  -- what a failure or a success of the loop leaves
  record IsInserted (site : SiteId) (cs : List Cutoff) (s : Session (Tables R))
      (r : Result (Unit {0}) × Session (Tables R)) : Type 0 where
    same_begun : r.1.begun ≡ s.begun
    same_minted : r.1.minted ≡ s.minted
    all_added : r.0 ≡ ok tt → r.1.tables ≡ with_rows site cs s.tables

  insert_cutoffs-IsInserted :
      (site : SiteId) (cs : List Cutoff) (s : Session (Tables R))
      → IsInserted site cs s (insert_cutoffs site cs s)
  unfolding insert_cutoffs exec_unless
  insert_cutoffs-IsInserted site [] s = record {
    same_begun = refl;
    same_minted = refl;
    all_added = λ h. rw (append_nil s.tables.cutoffs) refl;
  }
  insert_cutoffs-IsInserted site (c ∷ cs) s =
      let later = insert_cutoffs-IsInserted site cs (adding site c s).1 in
      let b = later.same_begun in
      let m = later.same_minted in
      let a = later.all_added in
      let moved = append_moved s.tables.cutoffs (cutoff_to_row site c) (rows_of site cs) in
      record {
        same_begun = ground arith;
        same_minted = ground arith;
        all_added = λ h. ground (arith, moved);
      }

  module _ (pf : Platform) where
    record IsSaved (c : CptSchedule) (s : Session (Tables R))
        (r : Result (Unit {0}) × Session (Tables R)) : Type 0 where
      same_begun : r.1.begun ≡ s.begun
      same_minted : r.1.minted ≡ s.minted
      all_saved : r.0 ≡ ok tt → r.1.tables ≡ with_saved pf c s.tables

    save-IsSaved : (c : CptSchedule) (s : Session (Tables R)) → IsSaved c s (save pf c s)
    unfolding save exec
    save-IsSaved c s =
        let s1 = (exec (upsert_schedule pf c) s).1 in
        let s2 = (exec (clear_cutoffs c.site_id) s1).1 in
        let later = insert_cutoffs-IsInserted c.site_id c.cutoffs s2 in
        let b = later.same_begun in
        let m = later.same_minted in
        let a = later.all_added in
        record {
          same_begun = ground arith;
          same_minted = ground arith;
          all_saved = λ h. ground arith;
        }

  module _ (pf : Platform) (new_id : ℕ → String) (encoders : List Encoder) where
    -- The tables after a schedule was saved and its event put into the outbox.
    abbrev pub schedule_written : CptSchedule → ℕ → Session (Tables R) → Result (Tables R)
    schedule_written c now s =
        enqueue_each encoders (cpt_schedule_changed (to_snapshot c now)) (new_id s.minted)
          (with_saved pf c s.tables)

    abbrev pub save_both :
        CptSchedule → ℕ → Session (Tables R) → Result (Unit {0}) × Session (Tables R)
    save_both c now t =
        then_do (save pf c t) (publish new_id encoders (cpt_schedule_changed (to_snapshot c now)))

    save_both-StaysInside : (c : CptSchedule) (now : ℕ) → StaysInside (save_both c now)
    unfolding publish
    save_both-StaysInside c now s =
        let saved = save-IsSaved pf c s in
        let b = saved.same_begun in
        let t = (save pf c s).1 in
        let minting : Session (Tables R) = record t { minted = t.minted + 1 } in
        let later =
          publish_each-StaysInside encoders (cpt_schedule_changed (to_snapshot c now))
            (new_id t.minted) minting in
        ground arith

    save_both-ok :
        (c : CptSchedule) (now : ℕ) (s : Session (Tables R))
        → (save_both c now s).0 ≡ ok tt
        → schedule_written c now s ≡ ok (save_both c now s).1.tables
    unfolding publish
    save_both-ok c now s h =
        let saved = save-IsSaved pf c s in
        let m = saved.same_minted in
        let a = saved.all_saved in
        let t = (save pf c s).1 in
        let minting : Session (Tables R) = record t { minted = t.minted + 1 } in
        let later =
          publish_each-ok encoders (cpt_schedule_changed (to_snapshot c now)) (new_id t.minted)
            minting in
        ground arith

    pub record IsScheduleStored (c : CptSchedule) (now : ℕ) (s : Session (Tables R))
        (r : Result (Unit {0}) × Session (Tables R)) : Type 0 where
      pub undone : (e : Error) → r.0 ≡ err e → r.1.tables ≡ s.tables
      pub stored : r.0 ≡ ok tt → schedule_written c now s ≡ ok r.1.tables

    save_both-IsScheduleStored :
        (c : CptSchedule) (now : ℕ) (s : Session (Tables R))
        → s.begun ≡ none
        → IsScheduleStored c now s (execute (save_both c now) s)
    unfolding begin
    save_both-IsScheduleStored c now s none_open =
        let atomic = execute-IsAtomic (save_both c now) s (save_both-StaysInside c now) none_open in
        record {
          undone = atomic.undone;
          stored = λ h.
              let inside = save_both-ok c now (begin s).1 (atomic.done h).0 in
              let same = (atomic.done h).1 in ground arith;
        }

    -- What a definition of a site's schedule may leave behind.
    abbrev pub IsScheduleOutcome :
        SiteId → Session (Tables R) → Result CptSchedule × Session (Tables R) → Type 0
    IsScheduleOutcome site s r =
        ((e : Error) × (r.0 ≡ err e) × (r.1.tables ≡ s.tables))
        ⊎ ((c : CptSchedule) × (r.0 ≡ ok c)
            × (((r.1.tables ≡ s.tables) × (find_by_site_id pf site s ≡ ok (some c)))
                ⊎ (schedule_written c s.time s ≡ ok r.1.tables)))

    save_schedule-outcome :
        (site : SiteId) (c : CptSchedule) (s : Session (Tables R))
        → s.begun ≡ none
        → IsScheduleOutcome site s
            (save_schedule (define_schedule_stored pf new_id encoders) c s.time s)
    save_schedule-outcome site c s none_open =
        let done = save_both-IsScheduleStored c s.time s none_open in
        elim (Result-cases (execute (save_both c s.time) s).0) [
          | inl (e, failed) ↦ inl (e, ground arith, ground (arith, done.undone e failed))
          | inr (_, made) ↦ inr (c, ground arith, inr (ground (arith, done.stored made)))
        ]

    abbrev stored_by : DefineCptSchedule (Session (Tables R))
    stored_by = define_schedule_stored pf new_id encoders

    write_schedule-outcome :
        (site : SiteId) (timezone : String) (cutoffs : List Cutoff) (existing : Option CptSchedule)
        (s : Session (Tables R))
        → s.begun ≡ none
        → find_by_site_id pf site s ≡ ok existing
        → IsScheduleOutcome site s (
            write_schedule pf
              (define_schedule_stored pf new_id encoders)
              site
              timezone
              cutoffs
              existing
              s)
    write_schedule-outcome site timezone cutoffs none s none_open found =
        elim (Result-cases (CptSchedule.define pf site timezone cutoffs s.time)) [
          | inl (e, bad) ↦ inl (e, ground arith, ground arith)
          | inr (c, made) ↦
              let e : write_schedule pf stored_by site timezone cutoffs none s
                  ≡ save_schedule stored_by c s.time s =
                ground arith in
              subst (λ r. IsScheduleOutcome site s r) (sym e)
                (save_schedule-outcome site c s none_open)
        ]
    write_schedule-outcome site timezone cutoffs (some old) s none_open found =
        elim (Result-cases (outcome pf old timezone cutoffs s.time)) [
          | inl (e, bad) ↦ inl (e, ground arith, ground arith)
          | inr (false, same) ↦
              let kept = after-unchanged pf old timezone cutoffs s.time in
              inr (old, ground arith, inl (ground arith, found))
          | inr (true, changed) ↦
              let c = after pf old timezone cutoffs s.time in
              let e : write_schedule pf stored_by site timezone cutoffs (some old) s
                  ≡ save_schedule stored_by c s.time s =
                ground arith in
              subst (λ r. IsScheduleOutcome site s r) (sym e)
                (save_schedule-outcome site c s none_open)
        ]

    -- Outside of a transaction, whatever statement fails, defining a site's schedule over the
    -- database either fails and leaves every table as it was, or returns the schedule it found
    -- with every table as it was, or returns a schedule, having put its row and exactly its
    -- cutoffs in place of those of its site together with one outbox row for each topic of its
    -- changed event.
    pub define_cpt_schedule-IsStored :
        (site : SiteId) (timezone : String) (cutoffs : List Cutoff) (s : Session (Tables R))
        → s.begun ≡ none
        → let r =
            define_cpt_schedule pf
              (define_schedule_stored pf new_id encoders)
              site
              timezone
              cutoffs
              s in
          IsScheduleOutcome site s r
    unfolding define_cpt_schedule
    define_cpt_schedule-IsStored site timezone cutoffs s none_open =
        elim (Result-cases (find_by_site_id pf site s)) [
          | inl (e, found) ↦ inl (e, ground arith, ground arith)
          | inr (existing, found) ↦
              elim (Result-cases (validate_eligible_path_ids (process_path_repo pf) cutoffs s)) [
                | inl (e, bad) ↦ inl (e, ground arith, ground arith)
                | inr (_, good) ↦
                    let out =
                      write_schedule-outcome site timezone cutoffs existing s none_open found in
                    let e : define_cpt_schedule pf stored_by site timezone cutoffs s
                        ≡ write_schedule pf stored_by site timezone cutoffs existing s =
                      ground arith in
                    subst (λ r. IsScheduleOutcome site s r) (sym e) out
              ]
        ]
