-- ===== src/Postgres/ScheduleTrip.antt =====
-- Save and FindBySiteID of cpt_schedule_repo.go, one after the other.
use process_path_management.Prelude.{
  ℕ, String, false, ◌≡◌, ◌≢◌, ◌↔◌, refl, sym, List, [], ◌∷◌, ◌++◌, Option, none, some, ◌==◌, arith,
  eq_iff, eq_refl, append_nil, append_moved, ==-false, elem, elem_iff, All, ◌||◌, Bool-cases, inl,
  inr, ◌∙◌, Option-cases, ◌⊎◌,
}
use process_path_management.Prelude.Assoc.{lookup, lookup-insert}
use process_path_management.Errors.{Result, ok, ◌>>=◌}
use process_path_management.Shared.{SiteId}
use process_path_management.Shared.Platform.{Platform}
use process_path_management.CptSchedule
use process_path_management.CptSchedule.{CptSchedule}
use process_path_management.CptSchedule.Cutoffs.{Cutoff}
use process_path_management.CptSchedule.CutoffLaws.{IsValid}
use process_path_management.CptSchedule.Validity.{
  DistinctFrom, IsValidSchedule, outcome, validate_iff,
}
use process_path_management.CptSchedule.Equality.{cutoffs_equal_iff}
use process_path_management.Transaction.{Session, exec, exec_unless, read}
use process_path_management.Postgres.CptRows.{
  ScheduleRow, CutoffRow, cutoff_to_row, schedule_to_row, upsert_schedule_row, scan_cutoffs,
  delete_cutoffs, cutoffs_of_site, has_cutoff, order_by_cpt_id,
}
use process_path_management.Postgres.Session.{Tables}
use process_path_management.Postgres.Schedules.{
  with_schedule, upsert_schedule, clear_cutoffs, add_cutoff, insert_cutoffs, save, query_cutoffs,
  find_by_site_id, rehydrate,
}
use process_path_management.Postgres.CutoffTrip.{
  in_order, rows_of, replaced, scan_cutoffs-order_by_cpt_id, cutoffs_of_site-replaced,
  cutoffs_of_site-unreplaced,
}

has_cutoff-append :
    (site : SiteId) (id : String) (rows : List CutoffRow) (c : Cutoff)
    → has_cutoff site id (rows ++ cutoff_to_row site c ∷ [])
      ≡ (c.cpt_id == id || has_cutoff site id rows)
unfolding has_cutoff
has_cutoff-append site id [] c = ground (arith, eq_refl site)
has_cutoff-append site id (r ∷ rs) c = ground (arith, has_cutoff-append site id rs c)

has_cutoff-deleted :
    (site : SiteId) (id : String) (rows : List CutoffRow)
    → has_cutoff site id (delete_cutoffs site rows) ≡ false
unfolding has_cutoff delete_cutoffs
has_cutoff-deleted site id [] = refl
has_cutoff-deleted site id (r ∷ rs) = ground (arith, has_cutoff-deleted site id rs)

module _ {R : Type 0} where
  -- No statement to come fails.
  pub record IsCalm (s : Session (Tables R)) : Type 0 where
    pub unaborted : s.aborted ≡ false
    pub faultless : s.faults ≡ []

  exec-calm :
      (f : Tables R → Unit {0} × Tables R) (s : Session (Tables R))
      → IsCalm s
      → exec f s ≡ (ok tt, record s { tables = (f s.tables).1 })
  unfolding exec
  exec-calm f s calm = ground (arith, calm.faultless, calm.unaborted)

  abbrev adding : SiteId → Cutoff → Session (Tables R) → Result (Unit {0}) × Session (Tables R)
  adding site c s =
      exec_unless (λ t. has_cutoff site c.cpt_id t.cutoffs) (add_cutoff (cutoff_to_row site c)) s

  abbrev added : SiteId → Cutoff → Session (Tables R) → Session (Tables R)
  added site c s = record s { tables = add_cutoff (cutoff_to_row site c) s.tables }

  adding-calm :
      (site : SiteId) (c : Cutoff) (s : Session (Tables R))
      → IsCalm s
      → has_cutoff site c.cpt_id s.tables.cutoffs ≡ false
      → adding site c s ≡ (ok tt, added site c s)
  unfolding exec_unless
  adding-calm site c s calm free = ground (arith, calm.faultless, calm.unaborted)

  insert_cutoffs-calm :
      (site : SiteId) (cs : List Cutoff) (seen : List String) (s : Session (Tables R))
      → IsCalm s
      → ((id : String) → has_cutoff site id s.tables.cutoffs ≡ elem id seen)
      → DistinctFrom seen cs
      → insert_cutoffs site cs s ≡ (
        ok tt,
        record s { tables = record s.tables { cutoffs = s.tables.cutoffs ++ rows_of site cs } },
      )
  unfolding insert_cutoffs
  insert_cutoffs-calm site [] seen s calm same distinct = rw (append_nil s.tables.cutoffs) refl
  insert_cutoffs-calm site (c ∷ cs) seen s calm same distinct =
      rw (adding-calm site c s calm (ground (arith, same c.cpt_id, elem_iff c.cpt_id seen))) (
        rw (sym (append_moved s.tables.cutoffs (cutoff_to_row site c) (rows_of site cs))) (
          insert_cutoffs-calm site cs (c.cpt_id ∷ seen) (added site c s)
            (record { unaborted = calm.unaborted; faultless = calm.faultless })
            (λ id. rw (has_cutoff-append site id s.tables.cutoffs c) (rw (same id) refl))
            distinct.1))

  abbrev pub cleared : SiteId → List Cutoff → List (SiteId × ScheduleRow) → Tables R → Tables R
  cleared site cs schedules t = record t {
    schedules = schedules;
    cutoffs = replaced site cs t.cutoffs;
  }

  module _ (pf : Platform) where
    -- the tables after a schedule was saved
    abbrev pub with_saved : CptSchedule → Tables R → Tables R
    with_saved c t =
        cleared c.site_id c.cutoffs (with_schedule c.site_id (schedule_to_row pf c) t.schedules) t

    wrote : CptSchedule → Session (Tables R) → Session (Tables R)
    wrote c s = record s { tables = (upsert_schedule pf c s.tables).1 }

    emptied : CptSchedule → Session (Tables R) → Session (Tables R)
    unfolding wrote
    emptied c s = record s { tables = (clear_cutoffs c.site_id (wrote c s).tables).1 }

    pub save-calm :
        (c : CptSchedule) (s : Session (Tables R))
        → IsCalm s
        → DistinctFrom [] c.cutoffs
        → save pf c s ≡ (ok tt, record s { tables = with_saved c s.tables })
    unfolding save wrote emptied
    save-calm c s calm distinct = rw (exec-calm (upsert_schedule pf c) s calm) (
        rw
          (exec-calm (clear_cutoffs c.site_id) (wrote c s)
            (record { unaborted = calm.unaborted; faultless = calm.faultless }))
          (insert_cutoffs-calm c.site_id c.cutoffs [] (emptied c s)
            (record { unaborted = calm.unaborted; faultless = calm.faultless })
            (λ id. has_cutoff-deleted c.site_id id s.tables.cutoffs) distinct))

    -- What a saved schedule is when it is read back: its cutoffs in the order of the column, its
    -- times at the precision of theirs, and the first creation time of its site.
    abbrev pub kept : CptSchedule → Tables R → CptSchedule
    kept c t =
        rehydrate c.site_id
          (upsert_schedule_row (lookup c.site_id t.schedules) (schedule_to_row pf c))
          (in_order pf c.cutoffs)

    found : SiteId → Tables R → Option ScheduleRow → Result (Option CptSchedule)
    found site t none = ok none
    found site t (some row) = do
      cutoffs ← scan_cutoffs (order_by_cpt_id pf (cutoffs_of_site site t.cutoffs))
      ok (some (rehydrate site row cutoffs))

    find_by_site_id-calm :
        (site : SiteId) (s : Session (Tables R))
        → IsCalm s
        → find_by_site_id pf site s ≡ found site s.tables (lookup site s.tables.schedules)
    unfolding find_by_site_id query_cutoffs read found
    find_by_site_id-calm site s calm =
        ground
          (arith, calm.faultless, calm.unaborted, Option-cases (lookup site s.tables.schedules))

    found-own :
        (c : CptSchedule) (t : Tables R)
        → All IsValid c.cutoffs
        → found c.site_id (with_saved c t) (lookup c.site_id (with_saved c t).schedules)
          ≡ ok (some (kept c t))
    unfolding found
    found-own c t valid =
        rw
          (lookup-insert c.site_id c.site_id
            (upsert_schedule_row (lookup c.site_id t.schedules) (schedule_to_row pf c)) t.schedules)
          (rw (eq_refl c.site_id) (
            rw (cutoffs_of_site-replaced c.site_id c.cutoffs t.cutoffs)
              (rw (scan_cutoffs-order_by_cpt_id pf c.site_id c.cutoffs valid) refl)))

    found-other :
        (c : CptSchedule) (t : Tables R) (other : SiteId)
        → c.site_id ≢ other
        → found other (with_saved c t) (lookup other (with_saved c t).schedules)
          ≡ found other t (lookup other t.schedules)
    unfolding found
    found-other c t other differ =
        rw
          (lookup-insert c.site_id other
            (upsert_schedule_row (lookup c.site_id t.schedules) (schedule_to_row pf c)) t.schedules)
          (rw (==-false c.site_id other differ) (elim (Option-cases (lookup other t.schedules)) [
            | inl absent ↦ rw absent refl
            | inr (row, there) ↦
                rw there
                  (rw (cutoffs_of_site-unreplaced c.site_id other c.cutoffs t.cutoffs differ) refl)
          ]))

    -- In a calm session, saving a schedule with valid and distinct cutoffs succeeds; a lookup of
    -- its site then returns it with its cutoffs in the order of their column, its times as the
    -- columns keep them and the creation time that its site had; and a lookup of another site
    -- returns what it returned before.
    pub find_by_site_id-save :
        (c : CptSchedule) (s : Session (Tables R))
        → IsCalm s
        → DistinctFrom [] c.cutoffs
        → All IsValid c.cutoffs
        → let r = save pf c s in
          (r.0 ≡ ok tt)
          × (find_by_site_id pf c.site_id r.1 ≡ ok (some (kept c s.tables)))
          × ((other : SiteId)
              → (other ≡ c.site_id) ⊎ (find_by_site_id pf other r.1 ≡ find_by_site_id pf other s))
    find_by_site_id-save c s calm distinct valid =
        let after : Session (Tables R) = record s { tables = with_saved c s.tables } in
        let after_calm : IsCalm after = record {
          unaborted = calm.unaborted;
          faultless = calm.faultless;
        } in
        rw (save-calm c s calm distinct) (
          refl,
          find_by_site_id-calm c.site_id after after_calm ∙ found-own c s.tables valid,
          λ other. elim (Bool-cases (c.site_id == other)) [
            | inl same ↦ inl (sym ((eq_iff c.site_id other).0 same))
            | inr differ ↦ inr (
                find_by_site_id-calm other after after_calm
                ∙ found-other c s.tables other (λ e. ground (arith, eq_iff c.site_id other))
                ∙ sym (find_by_site_id-calm other s calm))
          ],
        )

    kept-timezone : (c : CptSchedule) (t : Tables R) → (kept c t).timezone ≡ c.timezone
    unfolding upsert_schedule_row schedule_to_row
    kept-timezone c t = elim (Option-cases (lookup c.site_id t.schedules)) [
      | inl absent ↦ rw absent refl
      | inr (row, there) ↦ rw there refl
    ]

    revise-kept_iff :
        (c : CptSchedule) (t : Tables R) (now : ℕ)
        → IsValidSchedule pf c.timezone c.cutoffs
        → (outcome pf (kept c t) c.timezone c.cutoffs now ≡ ok false)
          ↔ (in_order pf c.cutoffs ≡ c.cutoffs)
    unfolding CptSchedule.revise
    revise-kept_iff c t now valid = ground (
      arith,
      kept-timezone c t,
      (validate_iff pf c.timezone c.cutoffs).1 valid,
      eq_iff (kept c t).timezone c.timezone,
      cutoffs_equal_iff (in_order pf c.cutoffs) c.cutoffs,
    )

    -- In a calm session, a valid schedule that was saved is found by its site, and revising what is
    -- found with the same time zone and cutoffs is no change exactly if those cutoffs are in the
    -- order of their column.
    pub revise-saved_iff :
        (c : CptSchedule) (s : Session (Tables R)) (now : ℕ)
        → IsCalm s
        → IsValidSchedule pf c.timezone c.cutoffs
        → All IsValid c.cutoffs
        → (p : CptSchedule) × (find_by_site_id pf c.site_id (save pf c s).1 ≡ ok (some p))
          × ((outcome pf p c.timezone c.cutoffs now ≡ ok false)
              ↔ (in_order pf c.cutoffs ≡ c.cutoffs))
    revise-saved_iff c s now calm valid cutoffs_valid = (
      kept c s.tables,
      (find_by_site_id-save c s calm valid.cutoffs_distinct cutoffs_valid).1,
      revise-kept_iff c s.tables now valid,
    )
