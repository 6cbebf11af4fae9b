-- ===== src/CptSchedule.antt =====
-- internal/domain/cptschedule/cpt_schedule.go and events.go: the CPTSchedule aggregate, a site's
-- time zone and its list of cutoffs.
pub mod Cutoffs
pub mod LocalTime
pub mod CutoffLaws
pub mod Equality
pub mod Validity
pub mod Eligible
use Prim.Native.String.{compare}
use text.Mathlib.Text.{is_le}
use process_path_management.Prelude.{
  ℕ, String, Bool, true, false, not, ◌&&◌, List, [], ◌∷◌, ◌++◌, map, ◌==◌, length, nat_eq, elem,
  if◌then◌else◌,
}
use process_path_management.Errors.{
  Result, ok, err, ◌>>=◌, ◌>>◌, require, empty_timezone, invalid_timezone, no_cutoffs,
  duplicate_cpt_id,
}
use process_path_management.Shared.{PathId, SiteId}
use process_path_management.Shared.Platform.{Platform}
use process_path_management.Shared.Eligibility.{same_from}
use process_path_management.CptSchedule.Cutoffs.{Weekday, Cutoff}

pub record CptSchedule : Type 0 where
  pub site_id : SiteId
  pub timezone : String
  pub cutoffs : List Cutoff
  pub created_at : ℕ
  pub updated_at : ℕ

abbrev is_empty : List Cutoff → Bool
is_empty [] = true
is_empty (_ ∷ _) = false

-- the loop over the cutoffs, with the ids seen so far
unfoldable pub has_duplicate : List String → List Cutoff → Bool
has_duplicate seen [] = false
has_duplicate seen (c ∷ cs) =
    let later = has_duplicate (c.cpt_id ∷ seen) cs in if elem c.cpt_id seen then true else later

unfoldable pub weekdays_equal : List Weekday → List Weekday → Bool
weekdays_equal a b = if nat_eq (length a) (length b) then same_from a b else false

unfoldable pub path_ids_equal : List PathId → List PathId → Bool
path_ids_equal a b = if nat_eq (length a) (length b) then same_from a b else false

-- one round of the loop of cutoffsEqual
unfoldable pub cutoff_equal : Cutoff → Cutoff → Bool
cutoff_equal a b =
    a.cpt_id == b.cpt_id
    && (a.local_time == b.local_time
        && (a.ship_method == b.ship_method
            && (weekdays_equal a.days_of_week b.days_of_week
                && path_ids_equal a.eligible_path_ids b.eligible_path_ids)))

unfoldable pub cutoffs_equal_from : List Cutoff → List Cutoff → Bool
cutoffs_equal_from [] b = true
cutoffs_equal_from (x ∷ a) [] = false
cutoffs_equal_from (x ∷ a) (y ∷ b) = cutoff_equal x y && cutoffs_equal_from a b

unfoldable pub cutoffs_equal : List Cutoff → List Cutoff → Bool
cutoffs_equal a b = if nat_eq (length a) (length b) then cutoffs_equal_from a b else false

module _ (pf : Platform) where
  unfoldable pub validate : String → List Cutoff → Result (Unit {0})
  validate timezone cutoffs = do
    require (not (timezone == "")) empty_timezone
    require (pf.zone_known timezone) invalid_timezone
    require (not (is_empty cutoffs)) no_cutoffs
    require (not (has_duplicate [] cutoffs)) duplicate_cpt_id

  unfoldable pub define : SiteId → String → List Cutoff → ℕ → Result CptSchedule
  define site_id timezone cutoffs now = do
    validate timezone cutoffs
    ok (record {
      site_id = site_id;
      timezone = timezone;
      cutoffs = cutoffs;
      created_at = now;
      updated_at = now;
    })

  unfoldable pub revise : CptSchedule → String → List Cutoff → ℕ → Result Bool × CptSchedule
  revise s timezone cutoffs now = elim (validate timezone cutoffs) [
    | err e ↦ (err e, s)
    | ok _ ↦
        if s.timezone == timezone && cutoffs_equal s.cutoffs cutoffs
        then (ok false, s)
        else (ok true, record s { timezone = timezone; cutoffs = cutoffs; updated_at = now })
  ]

-- the inner loop of AllEligiblePathIds: `seen` is the set, the other list is `out`
collect : List PathId → List PathId → List PathId → List PathId × List PathId
collect seen out [] = (seen, out)
collect seen out (id ∷ ids) =
    let skip = collect seen out ids in
    let keep = collect (id ∷ seen) (out ++ id ∷ []) ids in if elem id seen then skip else keep

collect_all : List PathId → List PathId → List Cutoff → List PathId
collect_all seen out [] = out
collect_all seen out (c ∷ cs) =
    let (seen', out') = collect seen out c.eligible_path_ids in collect_all seen' out' cs

-- slices.Sort, in the order of strings
insert : String → List String → List String
insert x [] = x ∷ []
insert x (y ∷ ys) = if is_le (compare x y) then x ∷ y ∷ ys else y ∷ insert x ys

unfoldable pub sort : List String → List String
unfolding insert
sort [] = []
sort (x ∷ xs) = insert x (sort xs)

unfoldable pub all_eligible_path_ids : CptSchedule → List PathId
unfolding collect collect_all sort
all_eligible_path_ids s = sort (collect_all [] [] s.cutoffs)

-- events.go: the published copy of a cutoff, and the event.
pub record CutoffSnapshot : Type 0 where
  pub cpt_id : String
  pub local_time : String
  pub days_of_week : List Weekday
  pub ship_method : String
  pub eligible_path_ids : List PathId

pub record CptScheduleChanged : Type 0 where
  pub site_id : SiteId
  pub timezone : String
  pub cutoffs : List CutoffSnapshot
  pub at : ℕ

abbrev pub snapshot_cutoff : Cutoff → CutoffSnapshot
snapshot_cutoff c = record {
  cpt_id = c.cpt_id;
  local_time = c.local_time;
  days_of_week = c.days_of_week;
  ship_method = c.ship_method;
  eligible_path_ids = c.eligible_path_ids;
}

unfoldable pub to_snapshot : CptSchedule → ℕ → CptScheduleChanged
to_snapshot s now = record {
  site_id = s.site_id;
  timezone = s.timezone;
  cutoffs = map snapshot_cutoff s.cutoffs;
  at = now;
}
