-- ===== src/Postgres/Schedules.antt =====
-- CPTScheduleRepo of cpt_schedule_repo.go over a session, and the schedule use case as cmd/pathmgmt
-- wires it over the database.
use process_path_management.Prelude.{ℕ, String, ◌++ˢ◌, List, [], ◌∷◌, ◌++◌, Option, none, some}
use process_path_management.Prelude.Assoc.{lookup, insert}
use process_path_management.Errors.{Result, ok, ◌>>=◌}
use process_path_management.Ports.{CptScheduleRepo}
use process_path_management.Shared.{SiteId}
use process_path_management.Shared.Platform.{Platform}
use process_path_management.CptSchedule.{CptSchedule}
use process_path_management.CptSchedule.Cutoffs.{Cutoff}
use process_path_management.UseCases.{then_do}
use process_path_management.UseCases.Schedules.{DefineCptSchedule}
use process_path_management.Transaction.{Session, exec, exec_unless, read}
use process_path_management.Postgres.CptRows.{
  ScheduleRow, CutoffRow, schedule_to_row, upsert_schedule_row, cutoff_to_row, scan_cutoffs,
  delete_cutoffs, cutoffs_of_site, has_cutoff, order_by_cpt_id,
}
use process_path_management.Postgres.Session.{Tables, unit_of_work}
use process_path_management.Postgres.Repo.{Encoder, process_path_repo, outbox_publisher, clock}

abbrev pub with_schedule :
    SiteId → ScheduleRow → List (SiteId × ScheduleRow) → List (SiteId × ScheduleRow)
with_schedule site row rows = insert site (upsert_schedule_row (lookup site rows) row) rows

-- what FindBySiteID makes of the row of the first query and those of the second
abbrev pub rehydrate : SiteId → ScheduleRow → List Cutoff → CptSchedule
rehydrate site row cutoffs = record {
  site_id = site;
  timezone = row.timezone;
  cutoffs = cutoffs;
  created_at = row.created_at;
  updated_at = row.updated_at;
}

module _ {R : Type 0} where
  abbrev pub upsert_schedule : Platform → CptSchedule → Tables R → Unit {0} × Tables R
  upsert_schedule pf s t =
      (tt, record t { schedules = with_schedule s.site_id (schedule_to_row pf s) t.schedules })

  abbrev pub clear_cutoffs : SiteId → Tables R → Unit {0} × Tables R
  clear_cutoffs site t = (tt, record t { cutoffs = delete_cutoffs site t.cutoffs })

  abbrev pub add_cutoff : CutoffRow → Tables R → Tables R
  add_cutoff row t = record t { cutoffs = t.cutoffs ++ row ∷ [] }

  -- the loop of Save over the cutoffs
  unfoldable pub insert_cutoffs :
      SiteId → List Cutoff → Session (Tables R) → Result (Unit {0}) × Session (Tables R)
  insert_cutoffs site [] s = (ok tt, s)
  insert_cutoffs site (c ∷ cs) s =
      then_do
        (exec_unless (λ t. has_cutoff site c.cpt_id t.cutoffs) (add_cutoff (cutoff_to_row site c))
          s)
        (insert_cutoffs site cs)

  module _ (pf : Platform) where
    unfoldable pub save : CptSchedule → Session (Tables R) → Result (Unit {0}) × Session (Tables R)
    save schedule s = then_do (exec (upsert_schedule pf schedule) s) (λ s1.
        then_do (exec (clear_cutoffs schedule.site_id) s1)
          (insert_cutoffs schedule.site_id schedule.cutoffs))

    unfoldable pub query_cutoffs : SiteId → Session (Tables R) → Result (List CutoffRow)
    query_cutoffs site =
        read ("cutoffs " ++ˢ site) (λ t. order_by_cpt_id pf (cutoffs_of_site site t.cutoffs))

    abbrev pub scan_schedule :
        SiteId → Session (Tables R) → Option ScheduleRow → Result (Option CptSchedule)
    scan_schedule site s none = ok none
    scan_schedule site s (some row) = do
      rows ← query_cutoffs site s
      cutoffs ← scan_cutoffs rows
      ok (some (rehydrate site row cutoffs))

    unfoldable pub find_by_site_id : SiteId → Session (Tables R) → Result (Option CptSchedule)
    find_by_site_id site s = do
      row ← read ("schedule " ++ˢ site) (λ t. lookup site t.schedules) s
      scan_schedule site s row

    -- a schedule that was scanned is an object of its own
    abbrev pub cpt_schedule_repo : CptScheduleRepo (Session (Tables R))
    cpt_schedule_repo = record {
      save = save;
      find_by_site_id = find_by_site_id;
      assigned = λ c s. s;
    }

    abbrev pub define_schedule_stored :
        (ℕ → String) → List Encoder → DefineCptSchedule (Session (Tables R))
    define_schedule_stored new_id encoders = record {
      repo = cpt_schedule_repo;
      process_path_repo = process_path_repo pf;
      publisher = outbox_publisher new_id encoders;
      clock = clock;
      unit_of_work = some unit_of_work;
    }
