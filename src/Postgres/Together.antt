-- ===== src/Postgres/Together.antt =====
-- The use cases over the database: what a request leaves in the tables.
use process_path_management.Prelude.{
  ℕ, String, Bool, true, false, ◌≡◌, ◌⊎◌, inl, inr, List, none, some,
}
use process_path_management.Prelude.Int.{ℤ}
use process_path_management.Errors.{Error, ok, err, Result-cases}
use process_path_management.Events.{
  process_path_created, process_path_updated, process_path_deactivated, facts_of,
}
use process_path_management.Shared.{PathId, Capability, DestinationLocationRole}
use process_path_management.Shared.Platform.{Platform}
use process_path_management.Shared.Eligibility.{Eligibility}
use process_path_management.ProcessPath
use process_path_management.ProcessPath.{ProcessPath, is_active}
use process_path_management.UseCases.{define_path, revise_path, deactivate_path}
use process_path_management.Postgres.Session.{Tables}
use process_path_management.Transaction.{Session}
use process_path_management.Postgres.Repo.{Encoder, find_by_id}
use process_path_management.Postgres.Outboxed.{written}
use process_path_management.Postgres.Wired.{
  define_stored, revise_stored, deactivate_stored, define_lem, revise_lem, deactivate_lem,
}

module _ {R : Type 0} where
  module _ (pf : Platform) (new_id : ℕ → String) (encoders : List Encoder) where
    -- Outside of a transaction, whatever statement fails, defining a path over the database either
    -- fails and leaves every table as it was, or returns a path, having written its row together
    -- with one outbox row for each topic of its created event.
    pub define_path-IsStored :
        (id : PathId) (match_prefix : String) (direct : Bool) (needed : List Capability)
        (role : DestinationLocationRole) (cycle_time : ℤ) (eligibility : Eligibility)
        (s : Session (Tables R))
        → s.begun ≡ none
        → let r =
            define_path pf
              (define_stored pf new_id encoders)
              id
              match_prefix
              direct
              needed
              role
              cycle_time
              eligibility
              s in
          ((e : Error) × (r.0 ≡ err e) × (r.1.tables ≡ s.tables))
          ⊎ ((p : ProcessPath) × (r.0 ≡ ok p)
              × (written pf new_id encoders p (process_path_created (facts_of p s.time)) s
                  ≡ ok r.1.tables))
    define_path-IsStored id match_prefix direct needed role cycle_time eligibility s none_open =
        let (undone, stored) =
          define_lem pf new_id encoders id match_prefix direct needed role cycle_time eligibility s
            none_open in
        elim (Result-cases
          (define_path pf (define_stored pf new_id encoders) id match_prefix direct needed role
            cycle_time eligibility s).0) [
              | inl (e, failed) ↦ inl (e, failed, undone e failed)
              | inr (p, made) ↦ inr (p, made, stored p made)
            ]

    -- Outside of a transaction, whatever statement fails, revising a path over the database either
    -- fails and leaves every table as it was, or returns the path it found with every table as it
    -- was, or returns a path, having written its row together with one outbox row for each topic
    -- of its updated event.
    pub revise_path-IsStored :
        (id : PathId) (match_prefix : String) (needed : List Capability) (cycle_time : ℤ)
        (eligibility : Eligibility) (s : Session (Tables R))
        → s.begun ≡ none
        → let r =
            revise_path pf
              (revise_stored pf new_id encoders)
              id
              match_prefix
              needed
              cycle_time
              eligibility
              s in
          ((e : Error) × (r.0 ≡ err e) × (r.1.tables ≡ s.tables))
          ⊎ ((p : ProcessPath) × (r.0 ≡ ok p)
              × (((r.1.tables ≡ s.tables) × (find_by_id pf id s ≡ ok (some p)))
                  ⊎ (written pf new_id encoders p (process_path_updated (facts_of p s.time)) s
                      ≡ ok r.1.tables)))
    revise_path-IsStored id match_prefix needed cycle_time eligibility s none_open =
        let (undone, stored) =
          revise_lem pf new_id encoders id match_prefix needed cycle_time eligibility s none_open in
        elim (Result-cases
          (revise_path pf (revise_stored pf new_id encoders) id match_prefix needed cycle_time
            eligibility s).0) [
              | inl (e, failed) ↦ inl (e, failed, undone e failed)
              | inr (p, made) ↦ inr (p, made, stored p made)
            ]

    -- Outside of a transaction, whatever statement fails, deactivating a path over the database
    -- either fails and leaves every table as it was, or finds the path inactive and leaves every
    -- table as it was, or finds it active and writes its row as deactivated together with one
    -- outbox row for each topic of its deactivated event.
    pub deactivate_path-IsStored :
        (id : PathId) (s : Session (Tables R))
        → s.begun ≡ none
        → let r = deactivate_path (deactivate_stored pf new_id encoders) id s in
          ((e : Error) × (r.0 ≡ err e) × (r.1.tables ≡ s.tables))
          ⊎ ((r.0 ≡ ok tt)
              × ((p : ProcessPath) × (find_by_id pf id s ≡ ok (some p))
                  × (((is_active p ≡ false) × (r.1.tables ≡ s.tables))
                      ⊎ ((is_active p ≡ true)
                          × (written pf new_id encoders
                                (ProcessPath.deactivate p s.time)
                                (process_path_deactivated p.id s.time)
                                s
                              ≡ ok r.1.tables)))))
    deactivate_path-IsStored id s none_open =
        let (undone, stored) = deactivate_lem pf new_id encoders id s none_open in
        elim (Result-cases (deactivate_path (deactivate_stored pf new_id encoders) id s).0) [
          | inl (e, failed) ↦ inl (e, failed, undone e failed)
          | inr (_, made) ↦ inr (made, stored made)
        ]
