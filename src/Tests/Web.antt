-- ===== src/Tests/Web.antt =====
-- The theorems of the routed service and of the orders of its requests at concrete inputs.
use process_path_management.Prelude.{
  String, true, ◌≡◌, refl, [], ◌∷◌, none, some, ◌==◌, eq_iff, if◌then◌else◌,
}
use process_path_management.Prelude.Int.{pos}
use process_path_management.Errors.{ok}
use process_path_management.Memory.{World}
use process_path_management.Memory.Laws.{Request, define, deactivate, run, run_all, run_all-Keeps}
use process_path_management.Memory.Orders.{map_of, run-commutes}
use process_path_management.Http.{Server, malformed}
use process_path_management.Idempotency.{Database}
use process_path_management.Idempotency.Post.{database_server}
use process_path_management.Http.Problems.{Response, empty_body}
use process_path_management.Http.Router.{
  post_path, list_paths, HttpRequest, Match, routed, no_route, Library, serve,
}
use process_path_management.Http.Router.Replies.{IsReply, guarded_by, serve-IsReply}
use process_path_management.Tests.{platform, rules, empty_world}
use process_path_management.Tests.Database.{new_id, encoders, session}
use process_path_management.Tests.Delivery.{schedules, schedule_repo, decode, hash}
use process_path_management.Tests.Service.{empty-IsWellFormed}

abbrev empty_response : Response
empty_response = record { status = 405; content_type = ""; body = empty_body }

abbrev matched : String → Match
matched method =
    if method == "POST"
    then routed post_path (λ name. "")
    else if method == "GET"
    then routed list_paths (λ name. "")
    else no_route

-- a router of the two routes of /process-paths, and a decoder that reads nothing
abbrev library : Library
library = record {
  match_route = λ rs method path. matched method;
  not_allowed = empty_response;
  recovered = record empty_response { status = 500 };
  decode_define = decode;
  decode_revise = λ body. malformed "EOF";
  decode_schedule = λ body. malformed "EOF";
}

-- a POST that fails at its third statement
abbrev creation : HttpRequest
creation = record {
  head = record { key = "k1"; method = "POST"; path = "/process-paths"; body = ok "body" };
  all = none;
}

abbrev server : Server Database
server = database_server platform new_id encoders schedules schedule_repo decode

serve-IsReply_example :
    IsReply platform library server none
      (some hash)
      (routed post_path (λ name. ""))
      creation
      session
      (serve platform library server none (guarded_by (some hash)) creation session).0
serve-IsReply_example = serve-IsReply platform library server none (some hash) creation session refl

abbrev define_pick : String → Request
define_pick id = define id "pick" true ("forklift" ∷ []) "" (pos 1800000000000) rules

abbrev picked : World
picked = run_all platform (define_pick "p1" ∷ []) empty_world

run-commutes_example :
    map_of (run platform (deactivate "p1") (run platform (define_pick "p2") picked))
    ≡ map_of (run platform (define_pick "p2") (run platform (deactivate "p1") picked))
run-commutes_example =
    run-commutes platform (deactivate "p1") (define_pick "p2") "p1" "p2" picked refl refl
      (λ e. cc ((eq_iff "p1" "p2").1 e))
      (run_all-Keeps platform (define_pick "p1" ∷ []) empty_world empty-IsWellFormed).0
