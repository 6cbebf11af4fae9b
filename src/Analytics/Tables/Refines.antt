-- ===== src/Analytics/Tables/Refines.antt =====
-- The projection over the database against the one in memory: postgres_projection.go and
-- memory_store.go.
use process_path_management.Prelude.{
  ℕ, ◌≤◌, String, ◌≡◌, ◌⊎◌, refl, sym, subst, ap, fun_ext, ◌∙◌, false, List, [], ◌∷◌, none, some,
  is_some, elem, ltb, if◌then◌else◌, arith, inl, inr, Bool-cases, ◌||◌, ◌==◌,
}
use process_path_management.Prelude.Assoc.{lookup}
use process_path_management.Errors.{Error, Result, ok, err, Result-cases}
use process_path_management.Shared.Platform.{Platform}
use process_path_management.Transaction.{exec, begin, rollback, commit}
use process_path_management.Analytics.{
  Row, MemoryStore, day_bucket, at_bucket, mutate, apply_created, apply_updated, apply_deactivated,
}
use process_path_management.Analytics.Totals.{Kind, created, updated, deactivated, apply_kind}
use process_path_management.Analytics.Tables.{
  ReportTables, RollupDelta, add_delta, upsert_bucket, max_occurred, Store, in_tx, add_event, apply,
  created_delta, updated_delta, deactivated_delta, apply_process_path_created,
  apply_process_path_updated, apply_process_path_deactivated,
}

upsert_bucket-at_bucket :
    (k : ℕ) (d : RollupDelta) (rows : List (ℕ × Row))
    → upsert_bucket k d rows ≡ at_bucket k (add_delta d) rows
unfolding upsert_bucket at_bucket
upsert_bucket-at_bucket k d [] = ground arith
upsert_bucket-at_bucket k d ((j, r) ∷ rows) = ground (arith, upsert_bucket-at_bucket k d rows)

lookup-add_event :
    (id asked : String) (at : ℕ) (rows : List (String × ℕ))
    → is_some (lookup asked (add_event id at rows)) ≡ (id == asked || is_some (lookup asked rows))
unfolding lookup
lookup-add_event id asked at [] = ground arith
lookup-add_event id asked at ((j, a) ∷ rows) = ground (arith, lookup-add_event id asked at rows)

-- when the latest event occurred, 0 of none
abbrev pub latest : List (String × ℕ) → ℕ
latest rows = elim (max_occurred rows) [ none ↦ 0 | some at ↦ at ]

latest-add_event :
    (id : String) (at : ℕ) (rows : List (String × ℕ))
    → latest (add_event id at rows) ≡ (if ltb (latest rows) at then at else latest rows)
unfolding max_occurred
latest-add_event id at [] = ground arith
latest-add_event id at ((j, a) ∷ rows) = ground (arith, latest-add_event id at rows)

module _ (pf : Platform) where
  -- What a TIMESTAMPTZ column is documented to do: it keeps the order of times, and whole days.
  pub record IsTimeColumn : Type 0 where
    pub monotone : (a b : ℕ) → a ≤ b → pf.stored_time a ≤ pf.stored_time b
    pub days_kept : (t : ℕ) → pf.stored_time (day_bucket t) ≡ day_bucket t

  -- The tables hold what the store in memory holds.
  pub record Represents (m : MemoryStore) (t : ReportTables) : Type 0 where
    pub same_ids : (a : String) → is_some (lookup a t.processed) ≡ elem a m.seen
    pub same_rows : t.rollup ≡ m.rows
    pub same_latest : latest t.processed ≡ pf.stored_time m.latest

  -- the three Apply methods
  abbrev pub apply_stored : Kind → String → ℕ → Store → Result (Unit {0}) × Store
  apply_stored created = apply_process_path_created pf
  apply_stored updated = apply_process_path_updated pf
  apply_stored deactivated = apply_process_path_deactivated pf

  abbrev delta_of : Kind → RollupDelta
  delta_of created = created_delta
  delta_of updated = updated_delta
  delta_of deactivated = deactivated_delta

  module _ (column : IsTimeColumn) where
    same_latest_step :
        (a b : ℕ)
        → (if ltb (pf.stored_time a) (pf.stored_time b) then pf.stored_time b else pf.stored_time a)
          ≡ pf.stored_time (if ltb a b then b else a)
    same_latest_step a b = ground (arith, column.monotone a b, column.monotone b a)

    abbrev pub with_event : String → ℕ → RollupDelta → ReportTables → ReportTables
    with_event id at d t = record t {
      processed = add_event id (pf.stored_time at) t.processed;
      rollup = upsert_bucket (pf.stored_time (day_bucket at)) d t.rollup;
    }

    with_event-Represents :
        (id : String) (at : ℕ) (d : RollupDelta) (m : MemoryStore) (t : ReportTables)
        → Represents m t
        → elem id m.seen ≡ false
        → Represents (mutate id at (add_delta d) m) (with_event id at d t)
    unfolding mutate
    with_event-Represents id at d m t same new =
        rw (new, mutate)
          (record {
            same_ids = λ a.
                rw (lookup-add_event id a (pf.stored_time at) t.processed)
                  (rw (same.same_ids a) refl);
            same_rows =
                rw (column.days_kept at) (
                  rw (upsert_bucket-at_bucket (day_bucket at) d t.rollup) (rw same.same_rows refl));
            same_latest =
                rw (latest-add_event id (pf.stored_time at) t.processed)
                  (rw same.same_latest (same_latest_step m.latest at));
          })

    -- the tables after `apply` without a failure
    abbrev pub applied : String → ℕ → RollupDelta → ReportTables → ReportTables
    applied id at d t = if is_some (lookup id t.processed) then t else with_event id at d t

    applied-Represents :
        (id : String) (at : ℕ) (d : RollupDelta) (m : MemoryStore) (t : ReportTables)
        → Represents m t
        → Represents (mutate id at (add_delta d) m) (applied id at d t)
    unfolding mutate
    applied-Represents id at d m t same = elim (Bool-cases (elem id m.seen)) [
      | inl old ↦ rw (same.same_ids id) (rw (old, mutate) same)
      | inr new ↦
          subst
            (λ b. Represents (mutate id at (add_delta d) m) (if b then t else with_event id at d t))
            (sym (same.same_ids id ∙ new)) (with_event-Represents id at d m t same new)
    ]

    record IsApplied (id : String) (at : ℕ) (d : RollupDelta) (s : Store)
        (r : Result (Unit {0}) × Store) : Type 0 where
      closed : r.1.begun ≡ none
      undone : (e : Error) → r.0 ≡ err e → r.1.tables ≡ s.tables
      done : r.0 ≡ ok tt → r.1.tables ≡ applied id at d s.tables

    apply-IsApplied :
        (id : String) (at : ℕ) (d : RollupDelta) (s : Store)
        → s.begun ≡ none
        → IsApplied id at d s (apply pf id at d s)
    unfolding apply in_tx exec begin rollback commit
    apply-IsApplied id at d s none_open = record {
      closed = ground arith;
      undone = λ e h. ground arith;
      done = λ h. ground arith;
    }

    row_eq :
        (r q : Row)
        → r.paths_defined ≡ q.paths_defined
        → r.paths_revised ≡ q.paths_revised
        → r.paths_deactivated ≡ q.paths_deactivated
        → r ≡ q
    row_eq r q a b c = cc

    mutate-apply_kind :
        (k : Kind) (id : String) (at : ℕ) (m : MemoryStore)
        → mutate id at (add_delta (delta_of k)) m ≡ apply_kind k id at m
    unfolding apply_created apply_updated apply_deactivated
    mutate-apply_kind created id at m =
        ap (λ f. mutate id at f m) (fun_ext (λ r. row_eq _ _ refl (omega arith) (omega arith)))
    mutate-apply_kind updated id at m =
        ap (λ f. mutate id at f m) (fun_ext (λ r. row_eq _ _ (omega arith) refl (omega arith)))
    mutate-apply_kind deactivated id at m =
        ap (λ f. mutate id at f m) (fun_ext (λ r. row_eq _ _ (omega arith) (omega arith) refl))

    apply_stored-apply :
        (k : Kind) (id : String) (at : ℕ) (s : Store)
        → apply_stored k id at s ≡ apply pf id at (delta_of k) s
    apply_stored-apply created id at s = refl
    apply_stored-apply updated id at s = refl
    apply_stored-apply deactivated id at s = refl

    -- What an Apply method may leave behind.
    pub record IsAppliedOnce (k : Kind) (id : String) (at : ℕ) (m : MemoryStore) (s : Store)
        (r : Result (Unit {0}) × Store) : Type 0 where
      pub closed : r.1.begun ≡ none
      pub outcome :
          ((e : Error) × (r.0 ≡ err e) × (r.1.tables ≡ s.tables))
          ⊎ ((r.0 ≡ ok tt) × Represents (apply_kind k id at m) r.1.tables)

    -- Over a database whose time columns keep the order of times and whole days, with tables that
    -- hold what a store in memory holds and outside of a transaction, whatever statement fails,
    -- each Apply method leaves no transaction open and either fails and leaves the tables as they
    -- were, or succeeds and leaves in them what the store in memory holds after the same event.
    pub apply_stored-IsAppliedOnce :
        (k : Kind) (id : String) (at : ℕ) (m : MemoryStore) (s : Store)
        → s.begun ≡ none
        → Represents m s.tables
        → IsAppliedOnce k id at m s (apply_stored k id at s)
    apply_stored-IsAppliedOnce k id at m s none_open same =
        let done = apply-IsApplied id at (delta_of k) s none_open in
        rw (apply_stored-apply k id at s) (record {
          closed = done.closed;
          outcome = elim (Result-cases (apply pf id at (delta_of k) s).0) [
            | inl (e, failed) ↦ inl (e, failed, done.undone e failed)
            | inr (_, made) ↦ inr (
              made,
              rw (done.done made) (
                  subst (λ n. Represents n (applied id at (delta_of k) s.tables))
                    (mutate-apply_kind k id at m)
                    (applied-Represents id at (delta_of k) m s.tables same)),
            )
          ];
        })

    pub apply_stored-calm :
        (k : Kind) (id : String) (at : ℕ) (s : Store)
        → s.faults ≡ []
        → ((apply_stored k id at s).0 ≡ ok tt) × ((apply_stored k id at s).1.faults ≡ [])
    unfolding apply in_tx exec begin commit
    apply_stored-calm k id at s calm = rw (apply_stored-apply k id at s) (ground arith)
