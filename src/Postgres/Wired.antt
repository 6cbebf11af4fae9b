-- ===== src/Postgres/Wired.antt =====
-- The use cases as cmd/pathmgmt wires them over the database.
use process_path_management.Prelude.{
  ℕ, String, Bool, true, false, ◌≡◌, ◌⊎◌, inl, inr, List, none, some, arith, Bool-cases,
}
use process_path_management.Prelude.Int.{ℤ}
use process_path_management.Errors.{Error, ok, err, Result-cases}
use process_path_management.Events.{
  process_path_created, process_path_updated, process_path_deactivated, facts_of,
}
use process_path_management.Shared.{PathId, Capability, DestinationLocationRole}
use process_path_management.Shared.Platform.{Platform}
use process_path_management.Shared.Eligibility.{Eligibility}
use process_path_management.ProcessPath
use process_path_management.ProcessPath.{ProcessPath, is_active}
use process_path_management.ProcessPath.Lifecycle.{after-unchanged}
use process_path_management.UseCases.{
  DefinePath, RevisePath, DeactivatePath, define_path, revise_path, deactivate_path,
}
use process_path_management.Transaction.{Session}
use process_path_management.Postgres.Session.{Tables, unit_of_work}
use process_path_management.Postgres.Repo.{
  Encoder, find_by_id, process_path_repo, outbox_publisher, clock,
}
use process_path_management.Postgres.Outboxed.{written, save_to_outbox-IsStored}

module _ {R : Type 0} where
  module _ (pf : Platform) (new_id : ℕ → String) (encoders : List Encoder) where
    -- the metrics keep nothing in the database
    abbrev pub define_stored : DefinePath (Session (Tables R))
    define_stored = record {
      repo = process_path_repo pf;
      publisher = outbox_publisher new_id encoders;
      clock = clock;
      unit_of_work = some unit_of_work;
      metrics = none;
    }

    abbrev pub revise_stored : RevisePath (Session (Tables R))
    revise_stored = record {
      repo = process_path_repo pf;
      publisher = outbox_publisher new_id encoders;
      clock = clock;
      unit_of_work = some unit_of_work;
    }

    abbrev pub deactivate_stored : DeactivatePath (Session (Tables R))
    deactivate_stored = record {
      repo = process_path_repo pf;
      publisher = outbox_publisher new_id encoders;
      clock = clock;
      unit_of_work = some unit_of_work;
    }

    pub define_lem :
        (id : PathId) (match_prefix : String) (direct : Bool) (needed : List Capability)
        (role : DestinationLocationRole) (cycle_time : ℤ) (eligibility : Eligibility)
        (s : Session (Tables R))
        → s.begun ≡ none
        → let r =
            define_path pf define_stored id match_prefix direct needed role cycle_time eligibility
              s in
          ((e : Error) → r.0 ≡ err e → r.1.tables ≡ s.tables)
          × ((p : ProcessPath)
              → r.0 ≡ ok p
              → written pf new_id encoders p (process_path_created (facts_of p s.time)) s
                ≡ ok r.1.tables)
    unfolding define_path find_by_id
    define_lem id match_prefix direct needed role cycle_time eligibility s none_open =
        elim (Result-cases (
          ProcessPath.define pf id match_prefix direct needed role cycle_time eligibility s.time)) [
            | inl (e, eq) ↦ ground arith
            | inr (p, eq) ↦
                let event = process_path_created (facts_of p s.time) in
                let done = save_to_outbox-IsStored pf new_id encoders p event s none_open in
                let undone = done.undone in let stored = done.stored in ground arith
          ]

    pub revise_lem :
        (id : PathId) (match_prefix : String) (needed : List Capability) (cycle_time : ℤ)
        (eligibility : Eligibility) (s : Session (Tables R))
        → s.begun ≡ none
        → let r = revise_path pf revise_stored id match_prefix needed cycle_time eligibility s in
          ((e : Error) → r.0 ≡ err e → r.1.tables ≡ s.tables)
          × ((p : ProcessPath)
              → r.0 ≡ ok p
              → (r.1.tables ≡ s.tables) × (find_by_id pf id s ≡ ok (some p))
                ⊎ (written pf new_id encoders p (process_path_updated (facts_of p s.time)) s
                    ≡ ok r.1.tables))
    unfolding revise_path
    revise_lem id match_prefix needed cycle_time eligibility s none_open =
        elim (Result-cases (find_by_id pf id s)) [
          | inl (e, found) ↦ ground arith
          | inr (none, found) ↦ ground arith
          | inr (some old, found) ↦
              elim (Result-cases
                (ProcessPath.revise pf old match_prefix needed cycle_time eligibility s.time).0) [
                  | inl (e, eq) ↦ ground arith
                  | inr (false, eq) ↦
                      let kept =
                        after-unchanged pf old match_prefix needed cycle_time eligibility s.time in
                      ground arith
                  | inr (true, eq) ↦
                      let p =
                        (ProcessPath.revise pf old match_prefix needed cycle_time eligibility
                          s.time).1 in
                      let event = process_path_updated (facts_of p s.time) in
                      let done = save_to_outbox-IsStored pf new_id encoders p event s none_open in
                      let undone = done.undone in let stored = done.stored in ground arith
                ]
        ]

    pub deactivate_lem :
        (id : PathId) (s : Session (Tables R))
        → s.begun ≡ none
        → let r = deactivate_path deactivate_stored id s in
          ((e : Error) → r.0 ≡ err e → r.1.tables ≡ s.tables)
          × (r.0 ≡ ok tt
              → (p : ProcessPath) × (find_by_id pf id s ≡ ok (some p))
                × (((is_active p ≡ false) × (r.1.tables ≡ s.tables))
                    ⊎ ((is_active p ≡ true)
                        × (written pf new_id encoders
                              (ProcessPath.deactivate p s.time)
                              (process_path_deactivated p.id s.time)
                              s
                            ≡ ok r.1.tables))))
    unfolding deactivate_path ProcessPath.deactivate
    deactivate_lem id s none_open = elim (Result-cases (find_by_id pf id s)) [
      | inl (e, found) ↦ ground arith
      | inr (none, found) ↦ ground arith
      | inr (some p, found) ↦
          let q = ProcessPath.deactivate p s.time in
          let event = process_path_deactivated q.id s.time in
          let done = save_to_outbox-IsStored pf new_id encoders q event s none_open in
          let undone = done.undone in
          let stored = done.stored in
          (
            λ e h. ground (arith, done.undone e),
            λ h. (
              p,
              found,
              elim (Bool-cases (is_active p)) [
                | inl live ↦ inr (live, ground arith)
                | inr dead ↦ inl (dead, ground arith)
              ],
            ),
          )
    ]
