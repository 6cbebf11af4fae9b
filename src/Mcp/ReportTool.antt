-- ===== src/Mcp/ReportTool.antt =====
-- internal/adapters/inbound/mcp/report_tool.go: the report tool and its client of the reports
-- service, over the state S of that service.
pub mod Served
use process_path_management.Prelude.{
  ℕ, String, ◌++ˢ◌, Bool, true, false, not, ◌||◌, ltb, List, [], ◌∷◌, ◌++◌, Option, none, some,
  ◌==◌, if◌then◌else◌,
}
use process_path_management.Errors.{Error, Result, ok, err, other, error_text}
use process_path_management.Http.Problems.{Response, Body}

pub record CatalogueGrowthRowView : Type 0 where
  pub day_bucket : String
  pub paths_defined : ℕ
  pub paths_revised : ℕ
  pub paths_deactivated : ℕ

-- CatalogueGrowthReportView is its list of rows, and FreshnessView its lag, in nanoseconds
abbrev pub CatalogueGrowthReportView : Type 0
CatalogueGrowthReportView = List CatalogueGrowthRowView

pub record CatalogueGrowthQuery : Type 0 where
  pub from : String
  pub to : String
  pub granularity : String

pub record ReportsClient (S : Type 0) : Type 0 where
  pub get_catalogue_growth : CatalogueGrowthQuery → S → Result CatalogueGrowthReportView
  pub get_freshness : S → Result ℕ

-- net/http, net/url and encoding/json: whether a URL makes a request, the answer to the request,
-- the text of the query parameters, and the decoding of a body; and the text of a number
pub record Transport (S : Type 0) : Type 0 where
  pub new_request : String → Result String
  pub fetch : String → S → Result Response
  pub encode : List (String × String) → String
  pub decode_report : Body → Result CatalogueGrowthReportView
  pub decode_freshness : Body → Result ℕ
  pub show : ℕ → String

abbrev pub client_error : String → Error → Error
client_error step e = other ("reports client: " ++ˢ step ++ˢ ": " ++ˢ error_text e)

module _ {S : Type 0} (t : Transport S) (base_url : String) where
  abbrev pub decoded : {A : Type 0} → (Body → Result A) → Response → Result A
  decoded decode r =
      if ltb r.status 200 || not (ltb r.status 300)
      then err (other ("reports client: unexpected status " ++ˢ t.show r.status))
      else elim (decode r.body) [ err e ↦ err (client_error "decode" e) | ok view ↦ ok view ]

  -- getJSON
  unfoldable pub get_json : {A : Type 0} → (Body → Result A) → String → S → Result A
  get_json decode path s = elim (t.new_request (base_url ++ˢ path)) [
    | err e ↦ err (client_error "build request" e)
    | ok request ↦ elim (t.fetch request s) [
      | err e ↦ err (client_error "request" e)
      | ok r ↦ decoded decode r
    ]
  ]

  abbrev pub granularity_value : String → List (String × String)
  granularity_value g = if g == "" then [] else ("granularity", g) ∷ []

  abbrev pub query_values : CatalogueGrowthQuery → List (String × String)
  query_values q = ("from", q.from) ∷ ("to", q.to) ∷ granularity_value q.granularity

  unfoldable pub get_catalogue_growth : CatalogueGrowthQuery → S → Result CatalogueGrowthReportView
  get_catalogue_growth q =
      get_json t.decode_report ("/reports/catalogue-growth?" ++ˢ t.encode (query_values q))

  unfoldable pub get_freshness : S → Result ℕ
  get_freshness = get_json t.decode_freshness "/reports/catalogue-growth/freshness"

  -- ReportsRESTClient
  abbrev pub reports_rest_client : ReportsClient S
  reports_rest_client = record {
    get_catalogue_growth = get_catalogue_growth;
    get_freshness = get_freshness;
  }

-- the tool; its input has the three texts of the query
unfoldable pub get_catalogue_growth_report :
    {S : Type 0}
    → Option (ReportsClient S)
    → CatalogueGrowthQuery
    → S
    → Result CatalogueGrowthReportView
get_catalogue_growth_report none input s = err (other "reports client not configured")
get_catalogue_growth_report (some client) input s =
    if input.from == "" || input.to == ""
    then err (other "from and to are required (RFC3339)")
    else client.get_catalogue_growth input s
