-- ===== src/Postgres/CutoffTrip.antt =====
-- The cutoffs of a schedule through their table: cpt_schedule_repo.go.
use process_path_management.Prelude.{
  ◌≡◌, ◌≢◌, refl, List, [], ◌∷◌, ◌++◌, if◌then◌else◌, arith, eq_iff, eq_refl, append_nil, ==-false,
  All, Bool-cases, inl, inr,
}
use process_path_management.Errors.{ok}
use process_path_management.Shared.{SiteId}
use process_path_management.Shared.Platform.{Platform}
use process_path_management.CptSchedule.Cutoffs.{Cutoff}
use process_path_management.CptSchedule.CutoffLaws.{IsValid, new_cutoff_iff}
use process_path_management.Postgres.CptRows.{
  CutoffRow, cutoff_to_row, scan_cutoffs, delete_cutoffs, cutoffs_of_site, place_cutoff,
  order_by_cpt_id,
}

-- The cutoffs in the order of their column.
abbrev pub placed : Platform → Cutoff → List Cutoff → List Cutoff
placed pf c [] = c ∷ []
placed pf c (d ∷ ds) = if pf.text_le c.cpt_id d.cpt_id then c ∷ d ∷ ds else d ∷ placed pf c ds

abbrev pub in_order : Platform → List Cutoff → List Cutoff
in_order pf [] = []
in_order pf (c ∷ cs) = placed pf c (in_order pf cs)

abbrev pub rows_of : SiteId → List Cutoff → List CutoffRow
rows_of site [] = []
rows_of site (c ∷ cs) = cutoff_to_row site c ∷ rows_of site cs

place_cutoff-rows_of :
    (pf : Platform) (site : SiteId) (c : Cutoff) (cs : List Cutoff)
    → place_cutoff pf (cutoff_to_row site c) (rows_of site cs) ≡ rows_of site (placed pf c cs)
unfolding place_cutoff
place_cutoff-rows_of pf site c [] = refl
place_cutoff-rows_of pf site c (d ∷ ds) = ground (arith, place_cutoff-rows_of pf site c ds)

order_by_cpt_id-rows_of :
    (pf : Platform) (site : SiteId) (cs : List Cutoff)
    → order_by_cpt_id pf (rows_of site cs) ≡ rows_of site (in_order pf cs)
unfolding order_by_cpt_id
order_by_cpt_id-rows_of pf site [] = refl
order_by_cpt_id-rows_of pf site (c ∷ cs) =
    rw (order_by_cpt_id-rows_of pf site cs) (place_cutoff-rows_of pf site c (in_order pf cs))

placed-All :
    (pf : Platform) (c : Cutoff) (cs : List Cutoff)
    → IsValid c
    → All IsValid cs
    → All IsValid (placed pf c cs)
placed-All pf c [] good all_good = (good, tt)
placed-All pf c (d ∷ ds) good all_good = elim (Bool-cases (pf.text_le c.cpt_id d.cpt_id)) [
  | inl first ↦ rw first (good, all_good)
  | inr later ↦ rw later (all_good.0, placed-All pf c ds good all_good.1)
]

in_order-All : (pf : Platform) (cs : List Cutoff) → All IsValid cs → All IsValid (in_order pf cs)
in_order-All pf [] h = tt
in_order-All pf (c ∷ cs) h = placed-All pf c (in_order pf cs) h.0 (in_order-All pf cs h.1)

scan_cutoffs-rows_of :
    (site : SiteId) (cs : List Cutoff) → All IsValid cs → scan_cutoffs (rows_of site cs) ≡ ok cs
unfolding scan_cutoffs
scan_cutoffs-rows_of site [] h = refl
scan_cutoffs-rows_of site (c ∷ cs) h =
    rw ((new_cutoff_iff c c).1 (h.0, refl)) (rw (scan_cutoffs-rows_of site cs h.1) refl)

-- Valid cutoffs come back as they were, in the order of their column.
pub scan_cutoffs-order_by_cpt_id :
    (pf : Platform) (site : SiteId) (cs : List Cutoff)
    → All IsValid cs
    → scan_cutoffs (order_by_cpt_id pf (rows_of site cs)) ≡ ok (in_order pf cs)
scan_cutoffs-order_by_cpt_id pf site cs h =
    rw (order_by_cpt_id-rows_of pf site cs)
      (scan_cutoffs-rows_of site (in_order pf cs) (in_order-All pf cs h))

cutoffs_of_site-append :
    (site : SiteId) (rows more : List CutoffRow)
    → cutoffs_of_site site (rows ++ more) ≡ cutoffs_of_site site rows ++ cutoffs_of_site site more
unfolding cutoffs_of_site
cutoffs_of_site-append site [] more = refl
cutoffs_of_site-append site (r ∷ rs) more = ground (arith, cutoffs_of_site-append site rs more)

cutoffs_of_site-own :
    (site : SiteId) (cs : List Cutoff) → cutoffs_of_site site (rows_of site cs) ≡ rows_of site cs
unfolding cutoffs_of_site
cutoffs_of_site-own site [] = refl
cutoffs_of_site-own site (c ∷ cs) = ground (arith, eq_refl site, cutoffs_of_site-own site cs)

cutoffs_of_site-other :
    (site asked : SiteId) (cs : List Cutoff)
    → site ≢ asked
    → cutoffs_of_site asked (rows_of site cs) ≡ []
unfolding cutoffs_of_site
cutoffs_of_site-other site asked [] h = refl
cutoffs_of_site-other site asked (c ∷ cs) h =
    ground (arith, ==-false site asked h, cutoffs_of_site-other site asked cs h)

cutoffs_of_site-deleted :
    (site : SiteId) (rows : List CutoffRow) → cutoffs_of_site site (delete_cutoffs site rows) ≡ []
unfolding cutoffs_of_site delete_cutoffs
cutoffs_of_site-deleted site [] = refl
cutoffs_of_site-deleted site (r ∷ rs) = ground (arith, cutoffs_of_site-deleted site rs)

cutoffs_of_site-undeleted :
    (site asked : SiteId) (rows : List CutoffRow)
    → site ≢ asked
    → cutoffs_of_site asked (delete_cutoffs site rows) ≡ cutoffs_of_site asked rows
unfolding cutoffs_of_site delete_cutoffs
cutoffs_of_site-undeleted site asked [] h = refl
cutoffs_of_site-undeleted site asked (r ∷ rs) h = ground (
  arith,
  eq_iff r.schedule_site_id site,
  eq_iff r.schedule_site_id asked,
  cutoffs_of_site-undeleted site asked rs h,
)

-- the table of cutoffs after a schedule was saved
abbrev pub replaced : SiteId → List Cutoff → List CutoffRow → List CutoffRow
replaced site cs rows = delete_cutoffs site rows ++ rows_of site cs

pub cutoffs_of_site-replaced :
    (site : SiteId) (cs : List Cutoff) (rows : List CutoffRow)
    → cutoffs_of_site site (replaced site cs rows) ≡ rows_of site cs
cutoffs_of_site-replaced site cs rows =
    rw (cutoffs_of_site-append site (delete_cutoffs site rows) (rows_of site cs))
      (rw (cutoffs_of_site-deleted site rows) (cutoffs_of_site-own site cs))

pub cutoffs_of_site-unreplaced :
    (site asked : SiteId) (cs : List Cutoff) (rows : List CutoffRow)
    → site ≢ asked
    → cutoffs_of_site asked (replaced site cs rows) ≡ cutoffs_of_site asked rows
cutoffs_of_site-unreplaced site asked cs rows h =
    rw (cutoffs_of_site-append asked (delete_cutoffs site rows) (rows_of site cs)) (
      rw (cutoffs_of_site-undeleted site asked rows h)
        (rw (cutoffs_of_site-other site asked cs h) (append_nil (cutoffs_of_site asked rows))))
