-- ===== src/Postgres/CptRows.antt =====
-- The rows of cpt_schedule_repo.go: the tables cpt_schedules and cpt_schedule_cutoffs of
-- migrations/0005_capability.up.sql. A Weekday, a PathId and the text of its column are one type.
use process_path_management.Prelude.{
  ℕ, String, Bool, true, false, ◌&&◌, List, [], ◌∷◌, Option, none, some, ◌==◌, if◌then◌else◌,
}
use process_path_management.Errors.{Result, ok, ◌>>=◌}
use process_path_management.Shared.{SiteId, PathId}
use process_path_management.Shared.Platform.{Platform}
use process_path_management.CptSchedule.{CptSchedule}
use process_path_management.CptSchedule.Cutoffs.{Weekday, Cutoff, new_cutoff}

pub record ScheduleRow : Type 0 where
  pub timezone : String
  pub created_at : ℕ
  pub updated_at : ℕ

pub record CutoffRow : Type 0 where
  pub schedule_site_id : SiteId
  pub cpt_id : String
  pub local_time : String
  pub days_of_week : List Weekday
  pub ship_method : String
  pub eligible_path_ids : List PathId

-- the arguments of the first INSERT of Save
unfoldable pub schedule_to_row : Platform → CptSchedule → ScheduleRow
schedule_to_row pf s = record {
  timezone = s.timezone;
  created_at = pf.stored_time s.created_at;
  updated_at = pf.stored_time s.updated_at;
}

-- ON CONFLICT (site_id) DO UPDATE: the columns that an update overwrites
unfoldable pub upsert_schedule_row : Option ScheduleRow → ScheduleRow → ScheduleRow
upsert_schedule_row none excluded = excluded
upsert_schedule_row (some old) excluded = record old {
  timezone = excluded.timezone;
  updated_at = excluded.updated_at;
}

abbrev pub cutoff_to_row : SiteId → Cutoff → CutoffRow
cutoff_to_row site c = record {
  schedule_site_id = site;
  cpt_id = c.cpt_id;
  local_time = c.local_time;
  days_of_week = c.days_of_week;
  ship_method = c.ship_method;
  eligible_path_ids = c.eligible_path_ids;
}

abbrev pub cutoff_of_row : CutoffRow → Result Cutoff
cutoff_of_row r = new_cutoff r.cpt_id r.local_time r.days_of_week r.ship_method r.eligible_path_ids

-- the loop over the rows of the second query
unfoldable pub scan_cutoffs : List CutoffRow → Result (List Cutoff)
scan_cutoffs [] = ok []
scan_cutoffs (r ∷ rs) = do c ← cutoff_of_row r; cs ← scan_cutoffs rs; ok (c ∷ cs)

-- DELETE … WHERE schedule_site_id
unfoldable pub delete_cutoffs : SiteId → List CutoffRow → List CutoffRow
delete_cutoffs site [] = []
delete_cutoffs site (r ∷ rs) =
    if r.schedule_site_id == site then delete_cutoffs site rs else r ∷ delete_cutoffs site rs

-- SELECT … WHERE schedule_site_id
unfoldable pub cutoffs_of_site : SiteId → List CutoffRow → List CutoffRow
cutoffs_of_site site [] = []
cutoffs_of_site site (r ∷ rs) =
    if r.schedule_site_id == site then r ∷ cutoffs_of_site site rs else cutoffs_of_site site rs

-- is the primary key (schedule_site_id, cpt_id) taken
unfoldable pub has_cutoff : SiteId → String → List CutoffRow → Bool
has_cutoff site cpt_id [] = false
has_cutoff site cpt_id (r ∷ rs) =
    if r.schedule_site_id == site && r.cpt_id == cpt_id then true else has_cutoff site cpt_id rs

-- ORDER BY cpt_id, in the order of the column
unfoldable pub place_cutoff : Platform → CutoffRow → List CutoffRow → List CutoffRow
place_cutoff pf row [] = row ∷ []
place_cutoff pf row (r ∷ rs) =
    if pf.text_le row.cpt_id r.cpt_id then row ∷ r ∷ rs else r ∷ place_cutoff pf row rs

unfoldable pub order_by_cpt_id : Platform → List CutoffRow → List CutoffRow
unfolding place_cutoff
order_by_cpt_id pf [] = []
order_by_cpt_id pf (row ∷ rows) = place_cutoff pf row (order_by_cpt_id pf rows)
