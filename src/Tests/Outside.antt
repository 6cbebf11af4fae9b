-- ===== src/Tests/Outside.antt =====
-- The theorems of the start-up retry, of the starts and of the tools at concrete inputs.
use process_path_management.Prelude.{
  ℕ, ◌+◌, ◌-◌, String, false, ◌≡◌, ◌≢◌, ◌↔◌, refl, List, [], map, none, some, eq_iff, arith, ltb,
  if◌then◌else◌,
}
use process_path_management.Errors.{Result, ok, err, other}
use process_path_management.Analytics.{Row}
use process_path_management.Command.{Env, Database}
use process_path_management.Command.Starts.Pools.{IsCounted}
use process_path_management.Command.Starts.Balance.{IsMcpCounted, IsBalanced, starts-IsBalanced}
use process_path_management.BootRetry.{Boot, do_with_delay}
use process_path_management.BootRetry.Budget.{IsWithin, counting, do_with_delay-IsWithin}
use process_path_management.Http.{handle_get_path, handle_list_paths, handle_get_cpt_schedule}
use process_path_management.Http.HandlerLaws.{memory_server}
use process_path_management.Http.Problems.{Body, report_body, path_body, paths_body, schedule_body}
use process_path_management.Http.Reports.{get_catalogue_growth, to_row_dto}
use process_path_management.Http.Reports.ReportLaws.{IsWindow, report_store}
use process_path_management.Analytics.Tables.{Store, query}
use process_path_management.Mcp.{get_process_path, list_process_paths, get_cpt_schedule_tool}
use process_path_management.Mcp.Agrees.{
  Agree, AgreesOnPath, AgreeOnPaths, AgreesOnSchedule, all_flag, tools-Agree,
}
use process_path_management.Mcp.ReportTool.{
  CatalogueGrowthRowView, CatalogueGrowthQuery, Transport, reports_rest_client,
  get_catalogue_growth_report,
}
use process_path_management.Mcp.ReportTool.Served.{
  IsConnected, to_view, get_catalogue_growth_report_iff,
}
use process_path_management.Memory.{process_path_repo, cpt_schedule_repo}
use process_path_management.Tests.{platform, one_path}
use process_path_management.Tests.Projection.{parse, calm_store}

-- an operation that succeeds at its third call, and waits that are never cut short
abbrev boot : Boot ℕ
boot = record {
  op = λ n. (if ltb n 2 then err (other "connection reset by peer") else ok tt, n + 1);
  wait = λ delay n. (none, n);
}

do_with_delay-IsWithin_example : IsWithin "ping database" 1000000000 (
    do_with_delay
      (counting boot)
      "ping database"
      1000000000
      (record { process = 0; returned = ok tt; stopped = none; calls = 0; waited = 0 }))
do_with_delay-IsWithin_example = do_with_delay-IsWithin boot "ping database" 1000000000 0

abbrev show_local : ℕ → String
show_local t = "2025-12-31T21:00:00-03:00"

abbrev path_id : String
path_id = "p1"

named : path_id ≢ ""
named h = ground (arith, eq_iff path_id "")

tools-Agree_example :
    Agree AgreesOnPath path_body "/p1"
      (get_process_path platform show_local process_path_repo "p1" one_path)
      (handle_get_path platform memory_server "/p1" "p1" one_path)
    × Agree AgreeOnPaths paths_body "/p1"
        (list_process_paths platform show_local process_path_repo (some false) one_path)
        (handle_list_paths platform memory_server "/p1" (all_flag (some false)) one_path)
    × Agree AgreesOnSchedule schedule_body "/p1"
        (get_cpt_schedule_tool platform show_local cpt_schedule_repo "p1" one_path)
        (handle_get_cpt_schedule platform memory_server "/p1" "p1" one_path)
tools-Agree_example =
    tools-Agree platform show_local memory_server "/p1" "p1" "p1" (some false) one_path named named

abbrev views : Body → List CatalogueGrowthRowView
views (report_body rows) = map to_view rows
views _ = []

abbrev asked : CatalogueGrowthQuery
asked = record { from = "2026"; to = "2027"; granularity = "day" }

-- a network that knows one request
abbrev transport : Transport Store
transport = record {
  new_request = λ url. ok url;
  fetch = λ url s. ok (
      get_catalogue_growth platform parse (report_store platform 9000) "/reports/catalogue-growth"
        "2026" "2027" "day" s);
  encode = λ values. "from=2026&to=2027&granularity=day";
  decode_report = λ body. ok (views body);
  decode_freshness = λ body. ok 0;
  show = λ n. "500";
}

transport-IsConnected :
    IsConnected platform parse
      (report_store platform 9000)
      transport
      "http://reports"
      "/reports/catalogue-growth"
      asked
transport-IsConnected = record { requested = refl; routed = λ s. refl; rows_decoded = λ rows. refl }

get_catalogue_growth_report_iff_example :
    (get_catalogue_growth_report
        (some (reports_rest_client transport "http://reports"))
        asked
        calm_store
      ≡ ok [])
    ↔ ((start : ℕ) × (end : ℕ) × (rows : List (ℕ × Row)) × IsWindow parse "2026" "2027" "day" start
          end
        × (query platform start end calm_store ≡ ok rows)
        × ([] ≡ map to_view (map (to_row_dto platform) rows)))
get_catalogue_growth_report_iff_example =
    get_catalogue_growth_report_iff platform parse (report_store platform 9000) transport
      "http://reports" "/reports/catalogue-growth" asked transport-IsConnected calm_store []

-- the open pools of the paths and of the schedules, and the pings so far: of the first three pings
-- every one fails
record Host : Type 0 where
  of_paths : ℕ
  of_schedules : ℕ
  pings : ℕ

abbrev pinged : Host → Result (Unit {0}) × Host
pinged h = (
  if ltb h.pings 3 then err (other "connection reset by peer") else ok tt,
  record h { pings = h.pings + 1 },
)

abbrev driver : Database Host
driver = record {
  run_migrations = λ h. (ok tt, h);
  new_pool = λ h. (ok tt, record h { of_paths = h.of_paths + 1 });
  ping = pinged;
  close = λ h. record h { of_paths = h.of_paths - 1 };
  wait = λ delay h. (none, h);
}

abbrev schedule_driver : Database Host
schedule_driver = record {
  run_migrations = λ h. (ok tt, h);
  new_pool = λ h. (ok tt, record h { of_schedules = h.of_schedules + 1 });
  ping = pinged;
  close = λ h. record h { of_schedules = h.of_schedules - 1 };
  wait = λ delay h. (none, h);
}

driver-IsCounted : IsCounted (λ h. h.of_paths) 1 driver
driver-IsCounted = record {
  migrating = λ h. refl;
  pinging = λ h. refl;
  waiting = λ delay h. refl;
  opening = λ h made. refl;
  refusing = λ h e failed. absurd (ground arith);
  closing = λ h n same. omega arith;
}

drivers-IsMcpCounted :
    IsMcpCounted (λ h. h.of_paths) (λ h. h.of_schedules) driver schedule_driver (λ h. h)
drivers-IsMcpCounted = record {
  paths_counted = driver-IsCounted;
  schedules_apart = record {
    migrating = λ h. refl;
    pinging = λ h. refl;
    waiting = λ delay h. refl;
    opening = λ h made. omega arith;
    refusing = λ h e failed. refl;
    closing = λ h n same. omega arith;
  };
  paths_apart = record {
    migrating = λ h. refl;
    pinging = λ h. refl;
    waiting = λ delay h. refl;
    opening = λ h made. omega arith;
    refusing = λ h e failed. refl;
    closing = λ h n same. omega arith;
  };
  schedules_counted = record {
    migrating = λ h. refl;
    pinging = λ h. refl;
    waiting = λ delay h. refl;
    opening = λ h made. refl;
    refusing = λ h e failed. absurd (ground arith);
    closing = λ h n same. omega arith;
  };
  paths_served = λ h. refl;
  schedules_served = λ h. refl;
}

abbrev env : Env
env key = "postgres://localhost/pathmgmt"

abbrev host : Host
host = record { of_paths = 0; of_schedules = 0; pings = 0 }

starts-IsBalanced_example :
    IsBalanced
      (λ h. h.of_paths)
      (λ h. h.of_paths)
      (λ h. h.of_schedules)
      driver
      driver
      schedule_driver
      driver
      (λ h. h)
      env
      host
starts-IsBalanced_example =
    starts-IsBalanced (λ h. h.of_paths) (λ h. h.of_paths) (λ h. h.of_schedules) driver driver
      schedule_driver driver driver-IsCounted driver-IsCounted (λ h. h) drivers-IsMcpCounted env
      host
