-- ===== src/Http/Reports/ReportLaws.antt =====
-- The report endpoint of reports_handler.go over the tables of analyticsstore.
use process_path_management.Prelude.{
  ℕ, String, ◌≡◌, ◌≢◌, ◌≤◌, ◌⊎◌, ◌↔◌, refl, ◌∙◌, List, [], ◌∷◌, map, Bool, some, Option-cases,
  Bool-cases, inl, inr, arith, eq_iff, false,
}
use process_path_management.Errors.{Result, ok, err, Result-cases}
use process_path_management.Shared.Platform.{Platform}
use process_path_management.Analytics
use process_path_management.Analytics.{Row, MemoryStore}
use process_path_management.Analytics.Tables
use process_path_management.Analytics.Tables.{Store, by_bucket}
use process_path_management.Analytics.Tables.Refines.{Represents}
use process_path_management.Analytics.Tables.Reports.{
  IsAscending, by_bucket-IsAscending, count, within, count-by_bucket, count-select,
  query-Represents,
}
use process_path_management.Http.Problems.{
  Response, CatalogueRow, report_body, write_json, write_problem,
}
use process_path_management.Http.Reports.{
  ReportStore, ParseTime, parse_required_time, bad_granularity, respond_report, to_row_dto,
  write_report_bad_request, write_report_internal, get_catalogue_growth,
}

-- cmd/pathmgmt-reports: the store over the tables, at a reading of the clock
abbrev pub report_store : Platform → ℕ → ReportStore Store
report_store pf now = record {
  query = Analytics.Tables.query pf;
  freshness_lag = Analytics.Tables.freshness_lag now;
}

parse_required_time_iff :
    (parse : ParseTime) (raw name : String) (t : ℕ)
    → (parse_required_time parse raw name ≡ ok t) ↔ ((raw ≢ "") × (parse raw ≡ some t))
unfolding parse_required_time
parse_required_time_iff parse raw name t = ground (arith, eq_iff raw "", Option-cases (parse raw))

granularity_iff : (g : String) → (bad_granularity g ≡ false) ↔ ((g ≡ "") ⊎ (g ≡ "day"))
granularity_iff g = ground (arith, eq_iff g "", eq_iff g "day")

-- A window and a granularity that the endpoint takes.
pub record IsWindow (parse : ParseTime) (from to granularity : String) (first last : ℕ)
    : Type 0 where
  pub from_given : from ≢ ""
  pub to_given : to ≢ ""
  pub from_parsed : parse from ≡ some first
  pub to_parsed : parse to ≡ some last
  pub granularity_known : (granularity ≡ "") ⊎ (granularity ≡ "day")

module _ {S : Type 0} (pf : Platform) (parse : ParseTime) (store : ReportStore S)
    (url : String) where
  -- the answer once the parameters were read
  abbrev pub answer : ℕ → ℕ → S → Response
  answer first last s = respond_report pf parse store url (store.query first last s)

  pub window-answer :
      (from to granularity : String) (first last : ℕ) (s : S)
      → IsWindow parse from to granularity first last
      → get_catalogue_growth pf parse store url from to granularity s ≡ answer first last s
  unfolding get_catalogue_growth
  window-answer from to granularity first last s w =
      let f = (parse_required_time_iff parse from "from" first).1 (w.from_given, w.from_parsed) in
      let l = (parse_required_time_iff parse to "to" last).1 (w.to_given, w.to_parsed) in
      let g = (granularity_iff granularity).1 w.granularity_known in
      rw (f, l, g, get_catalogue_growth) refl

  answered :
      (r : Result (List (ℕ × Row)))
      → (respond_report pf parse store url r).status ≡ 200
      → (rows : List (ℕ × Row)) × (r ≡ ok rows)
  unfolding write_report_internal write_problem
  answered (ok rows) h = (rows, refl)
  answered (err e) h = absurd (omega arith)

  bad_request-status : (detail : String) → (write_report_bad_request url detail).status ≡ 400
  unfolding write_report_bad_request write_problem
  bad_request-status detail = refl

  pub window :
      (from to granularity : String) (s : S)
      → (get_catalogue_growth pf parse store url from to granularity s).status ≡ 200
      → (first : ℕ) × (last : ℕ) × IsWindow parse from to granularity first last
  unfolding get_catalogue_growth write_report_bad_request write_problem
  window from to granularity s h = elim (Result-cases (parse_required_time parse from "from")) [
    | inl (e, bad) ↦ absurd (ground arith)
    | inr (first, f) ↦ elim (Result-cases (parse_required_time parse to "to")) [
      | inl (e, bad) ↦ absurd (ground arith)
      | inr (last, l) ↦ elim (Bool-cases (bad_granularity granularity)) [
        | inl bad ↦ absurd (ground arith)
        | inr good ↦ (
          first,
          last,
          record {
            from_given = ((parse_required_time_iff parse from "from" first).0 f).0;
            to_given = ((parse_required_time_iff parse to "to" last).0 l).0;
            from_parsed = ((parse_required_time_iff parse from "from" first).0 f).1;
            to_parsed = ((parse_required_time_iff parse to "to" last).0 l).1;
            granularity_known = (granularity_iff granularity).0 good;
          },
        )
      ]
    ]
  ]

  respond_report-status :
      (r : Result (List (ℕ × Row)))
      → ((respond_report pf parse store url r).status ≡ 200)
        ⊎ (400 ≤ (respond_report pf parse store url r).status)
  unfolding write_report_internal write_problem write_json
  respond_report-status (ok rows) = inl refl
  respond_report-status (err e) = inr (omega arith)

  pub get_catalogue_growth-status :
      (from to granularity : String) (s : S)
      → ((get_catalogue_growth pf parse store url from to granularity s).status ≡ 200)
        ⊎ (400 ≤ (get_catalogue_growth pf parse store url from to granularity s).status)
  unfolding get_catalogue_growth write_report_bad_request write_problem
  get_catalogue_growth-status from to granularity s =
      elim (Result-cases (parse_required_time parse from "from")) [
        | inl (e, bad) ↦ inr (ground arith)
        | inr (first, f) ↦ elim (Result-cases (parse_required_time parse to "to")) [
          | inl (e, bad) ↦ inr (ground arith)
          | inr (last, l) ↦ elim (Bool-cases (bad_granularity granularity)) [
            | inl bad ↦ inr (ground arith)
            | inr good ↦
                rw (f, l, good, get_catalogue_growth)
                  (respond_report-status (store.query first last s))
          ]
        ]
      ]

  -- A request for the report is answered with status 200 exactly if both ends of its window are
  -- given and parse, its granularity is absent or `day`, and the store answers its query.
  pub get_catalogue_growth_iff :
      (from to granularity : String) (s : S)
      → ((get_catalogue_growth pf parse store url from to granularity s).status ≡ 200) ↔ (
          (first : ℕ) × (last : ℕ) × (rows : List (ℕ × Row)) × IsWindow parse from to granularity
            first last
          × (store.query first last s ≡ ok rows))
  unfolding write_json
  get_catalogue_growth_iff from to granularity s = (
    λ h.
        let (first, last, w) = window from to granularity s h in
        let shown = window-answer from to granularity first last s w in
        let (rows, found) = answered (store.query first last s) (rw shown at h) in
        (first, last, rows, w, found),
    λ t.
        let (first, last, rows, w, found) = t in
        rw (window-answer from to granularity first last s w) (rw found refl),
  )

-- Each entry of a report shows the day and the counters of its row.
abbrev pub ShowsAll : Platform → List (ℕ × Row) → List CatalogueRow → Type 0
ShowsAll pf [] [] = Unit
ShowsAll pf [] (d ∷ ds) = ⊥
ShowsAll pf (r ∷ rs) [] = ⊥
ShowsAll pf ((k, r) ∷ rs) (d ∷ ds) =
    ((d.day_bucket ≡ pf.show_time k)
      × (d.paths_defined ≡ r.paths_defined)
      × (d.paths_revised ≡ r.paths_revised)
      × (d.paths_deactivated ≡ r.paths_deactivated))
    × ShowsAll pf rs ds

-- The entries of a report of a window: one for each row of the store in memory whose day is in it,
-- by day. That the rows are those, each as often as there, is said by what any test counts.
pub record IsReport (pf : Platform) (first last : ℕ) (m : MemoryStore) (entries : List CatalogueRow)
    (rows : List (ℕ × Row)) : Type 0 where
  pub shown : ShowsAll pf rows entries
  pub by_day : IsAscending rows
  pub same_rows : (p : ℕ × Row → Bool) → count p rows ≡ count (within first last p) m.rows

to_row_dto-ShowsAll :
    (pf : Platform) (rows : List (ℕ × Row)) → ShowsAll pf rows (map (to_row_dto pf) rows)
unfolding to_row_dto
to_row_dto-ShowsAll pf [] = tt
to_row_dto-ShowsAll pf ((k, r) ∷ rows) = ((refl, refl, refl, refl), to_row_dto-ShowsAll pf rows)

by_bucket-IsReport :
    (pf : Platform) (first last : ℕ) (m : MemoryStore)
    → let rows = by_bucket (Analytics.query first last m) in
      IsReport pf first last m (map (to_row_dto pf) rows) rows
unfolding Analytics.query
by_bucket-IsReport pf first last m = record {
  shown = to_row_dto-ShowsAll pf (by_bucket (Analytics.query first last m));
  by_day = by_bucket-IsAscending (Analytics.query first last m);
  same_rows =
      λ p. count-by_bucket p (Analytics.query first last m) ∙ count-select first last p m.rows;
}

module _ (pf : Platform) (parse : ParseTime) (now : ℕ) (url : String) where
  -- Over tables that hold what a store in memory holds, a report with status 200, of a window whose
  -- ends a time column keeps, has an entry for each row of that store whose day is in the window,
  -- by day, which shows the day of the row and its three counters.
  pub get_catalogue_growth-Represents :
      (from to granularity : String) (m : MemoryStore) (s : Store)
      → ((t : ℕ) → (parse from ≡ some t) ⊎ (parse to ≡ some t) → pf.stored_time t ≡ t)
      → Represents pf m s.tables
      → (get_catalogue_growth pf parse (report_store pf now) url from to granularity s).status ≡ 200
      → (first : ℕ) × (last : ℕ) × (entries : List CatalogueRow) × (rows : List (ℕ × Row))
        × IsWindow parse from to granularity first last
        × (get_catalogue_growth pf parse (report_store pf now) url from to granularity s
            ≡ write_json 200 (report_body entries))
        × IsReport pf first last m entries rows
  get_catalogue_growth-Represents from to granularity m s kept held h =
      let (first, last, rows, w, found) =
        (get_catalogue_growth_iff pf parse (report_store pf now) url from to granularity s).0 h in
      let reference =
        (query-Represents pf first last now m s held (kept first (inl w.from_parsed))
          (kept last (inr w.to_parsed))).0 in
      let shown =
        window-answer pf parse (report_store pf now) url from to granularity first last s w in
      let sorted = by_bucket (Analytics.query first last m) in
      (
        first,
        last,
        map (to_row_dto pf) sorted,
        sorted,
        w,
        ground (arith, shown),
        by_bucket-IsReport pf first last m,
      )
