-- ===== src/Mcp/ReportTool/Served.antt =====
-- The report tool of report_tool.go over the reports service of reports_handler.go.
use process_path_management.Prelude.{
  ℕ, String, ◌++ˢ◌, ◌≡◌, ◌≢◌, ◌≤◌, ◌⊎◌, ◌↔◌, refl, sym, ◌∙◌, List, map, some, inl, inr, arith,
  eq_iff, ==-false,
}
use process_path_management.Errors.{ok}
use process_path_management.Shared.Platform.{Platform}
use process_path_management.Analytics.{Row}
use process_path_management.Http.Problems.{Response, CatalogueRow, report_body, write_json}
use process_path_management.Http.Reports
use process_path_management.Http.Reports.{
  ReportStore, ParseTime, to_row_dto, respond_report, write_report_bad_request,
  write_report_internal,
}
use process_path_management.Http.Reports.ReportLaws.{
  IsWindow, window-answer, get_catalogue_growth_iff, get_catalogue_growth-status,
}
use process_path_management.Mcp.ReportTool.{
  CatalogueGrowthRowView, CatalogueGrowthQuery, Transport, query_values, get_json, decoded,
  get_catalogue_growth, get_catalogue_growth_report, reports_rest_client,
}

-- the view of a row of the wire, whose field tags are the same
abbrev pub to_view : CatalogueRow → CatalogueGrowthRowView
to_view r = record {
  day_bucket = r.day_bucket;
  paths_defined = r.paths_defined;
  paths_revised = r.paths_revised;
  paths_deactivated = r.paths_deactivated;
}

ok_inv : {A : Type 0} {a b : A} → ok a ≡ ok b → a ≡ b
ok_inv h = cc

module _ {S : Type 0} (pf : Platform) (parse : ParseTime) (store : ReportStore S) (t : Transport S)
    (base_url url : String) where
  abbrev pub url_of : CatalogueGrowthQuery → String
  url_of q = base_url ++ˢ ("/reports/catalogue-growth?" ++ˢ t.encode (query_values t base_url q))

  -- The network and the router bring the request for a query to the handler of the service, with
  -- its query parameters, and JSON brings back the rows.
  pub record IsConnected (q : CatalogueGrowthQuery) : Type 0 where
    pub requested : t.new_request (url_of q) ≡ ok (url_of q)
    pub routed :
        (s : S)
        → t.fetch (url_of q) s
          ≡ ok (Reports.get_catalogue_growth pf parse store url q.from q.to q.granularity s)
    pub rows_decoded :
        (rows : List CatalogueRow) → t.decode_report (report_body rows) ≡ ok (map to_view rows)

  module _ (q : CatalogueGrowthQuery) (connected : IsConnected q) where
    abbrev answer_to : S → Response
    answer_to s = Reports.get_catalogue_growth pf parse store url q.from q.to q.granularity s

    client-decoded :
        (s : S)
        → get_catalogue_growth t base_url q s ≡ decoded t base_url t.decode_report (answer_to s)
    unfolding get_catalogue_growth get_json
    client-decoded s =
        let asked = connected.requested in let reached = connected.routed s in ground arith

    decoded-status :
        (r : Response) (view : List CatalogueGrowthRowView)
        → (r.status ≡ 200) ⊎ (400 ≤ r.status)
        → decoded t base_url t.decode_report r ≡ ok view
        → r.status ≡ 200
    decoded-status r view (inl fine) h = fine
    decoded-status r view (inr bad) h = absurd (ground arith)

    served :
        (s : S) (first last : ℕ) (rows : List (ℕ × Row))
        → IsWindow parse q.from q.to q.granularity first last
        → store.query first last s ≡ ok rows
        → decoded t base_url t.decode_report (answer_to s)
          ≡ ok (map to_view (map (to_row_dto pf) rows))
    unfolding write_json
    served s first last rows w found =
        rw (window-answer pf parse store url q.from q.to q.granularity first last s w)
          (rw found (rw (connected.rows_decoded (map (to_row_dto pf) rows)) refl))

    given :
        (s : S) (view : List CatalogueGrowthRowView)
        → get_catalogue_growth_report (some (reports_rest_client t base_url)) q s ≡ ok view
        → (q.from ≢ "")
          × ((q.to ≢ "") × (decoded t base_url t.decode_report (answer_to s) ≡ ok view))
    unfolding get_catalogue_growth_report
    given s view h = ground (arith, eq_iff q.from "", eq_iff q.to "", client-decoded s)

    -- The report tool, connected to the reports service, returns a report exactly if both ends of
    -- its window are given and parse, its granularity is absent or `day` and the store answers its
    -- query, and the report shows the rows of that answer.
    pub get_catalogue_growth_report_iff :
        (s : S) (view : List CatalogueGrowthRowView)
        → (get_catalogue_growth_report (some (reports_rest_client t base_url)) q s ≡ ok view) ↔ (
            (first : ℕ) × (last : ℕ) × (rows : List (ℕ × Row)) × IsWindow parse q.from q.to
              q.granularity first last
            × (store.query first last s ≡ ok rows)
            × (view ≡ map to_view (map (to_row_dto pf) rows)))
    unfolding get_catalogue_growth_report
    get_catalogue_growth_report_iff s view = (
      λ h.
          let (f, (l, got)) = given s view h in
          let (first, last, rows, w, found) =
            (get_catalogue_growth_iff pf parse store url q.from q.to q.granularity s).0 (
              decoded-status (answer_to s) view
                (get_catalogue_growth-status pf parse store url q.from q.to q.granularity s) got) in
          (first, last, rows, w, found, ok_inv (sym got ∙ served s first last rows w found)),
      λ k.
          let (first, last, rows, w, found, shown) = k in
          let client = client-decoded s ∙ served s first last rows w found in
          ground (arith, ==-false q.from "" w.from_given, ==-false q.to "" w.to_given),
    )
