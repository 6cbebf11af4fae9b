-- ===== src/Http/Router.antt =====
-- NewRouter of internal/adapters/inbound/http/server.go: the routes, the handler of each, and the
-- middleware on the one that creates a path. What chi matches a request to, and how a body decodes,
-- are parameters; so are its answers to a method that a path does not have and to a panic, which it
-- recovers. Tracing, metrics and the request log see a request and its answer, and change neither.
pub mod Answers
pub mod Replies
pub mod Guarded
use process_path_management.Prelude.{
  ℕ, String, Bool, true, false, List, [], ◌∷◌, map, Option, none, some, ◌==◌, if◌then◌else◌,
}
use process_path_management.Errors.{Result}
use process_path_management.Shared.Platform.{Platform}
use process_path_management.Http.Dto.{
  DefineProcessPathRequest, ReviseProcessPathRequest, DefineCptScheduleRequest,
}
use process_path_management.Http.Problems.{
  Response, ProblemInfo, status_body, info, write_json, write_problem,
}
use process_path_management.Http.{
  Server, Decoded, handle_define_path, handle_revise_path, handle_deactivate_path, handle_get_path,
  handle_list_paths, handle_define_cpt_schedule, handle_get_cpt_schedule,
}
use process_path_management.Http.Reports.{Readiness, handle_readyz}
use process_path_management.Idempotency.{Served, answered, panicked, Request}

-- the handlers that NewRouter mounts
pub data Route : Type 0 where
  healthz readyz post_path list_paths get_path put_path delete_path put_schedule get_schedule :
      Route

abbrev pub method_of : Route → String
method_of post_path = "POST"
method_of put_path = "PUT"
method_of delete_path = "DELETE"
method_of put_schedule = "PUT"
method_of _ = "GET"

abbrev pub pattern_of : Route → String
pattern_of healthz = "/healthz"
pattern_of readyz = "/readyz"
pattern_of post_path = "/process-paths"
pattern_of list_paths = "/process-paths"
pattern_of get_path = "/process-paths/{pathId}"
pattern_of put_path = "/process-paths/{pathId}"
pattern_of delete_path = "/process-paths/{pathId}"
pattern_of put_schedule = "/sites/{siteId}/cpt-schedule"
pattern_of get_schedule = "/sites/{siteId}/cpt-schedule"

-- in the order in which they are mounted
abbrev pub routes : List Route
routes =
    healthz ∷ readyz ∷ post_path ∷ list_paths ∷ get_path ∷ put_path ∷ delete_path ∷ put_schedule
    ∷ get_schedule ∷ []

-- a request, with the first value of its query parameter `all`
pub record HttpRequest : Type 0 where
  pub head : Request
  pub all : Option String

-- the parameters of a matched path, by their names
abbrev pub Params : Type 0
Params = String → String

pub data Match : Type 0 where
  routed : Route → Params → Match
  no_route method_not_allowed : Match

-- chi, and the JSON decoder at the three types that bodies are decoded to
pub record Library : Type 0 where
  pub match_route : List Route → String → String → Match
  pub not_allowed : Response
  pub recovered : Response
  pub decode_define : Result String → Decoded DefineProcessPathRequest
  pub decode_revise : Result String → Decoded ReviseProcessPathRequest
  pub decode_schedule : Result String → Decoded DefineCptScheduleRequest

abbrev pub route_not_found : ProblemInfo
route_not_found = info "route-not-found" "No route matches this request"

-- RequireIdempotencyKey on the pool of the server
abbrev pub Middleware : Type 0 → Type 0
Middleware S = (Request → S → Served × S) → Request → S → Served × S

abbrev pub handle_healthz : Response
handle_healthz = write_json 200 (status_body "ok")

module _ {S : Type 0} (pf : Platform) (lib : Library) (server : Server S) (gate : Readiness)
    (guard : Option (Middleware S)) where
  abbrev pub answer_of : Response × S → Served × S
  answer_of (a, s) = (answered a, s)

  abbrev pub define_handler : Request → S → Served × S
  define_handler r s = answer_of (handle_define_path pf server r.path (lib.decode_define r.body) s)

  -- r.With(RequireIdempotencyKey(pool)).Post, or r.Post where there is no pool
  abbrev pub mounted_define : Option (Middleware S) → Request → S → Served × S
  mounted_define none = define_handler
  mounted_define (some require_key) = require_key define_handler

  unfoldable pub handle_route : Route → Params → HttpRequest → S → Served × S
  handle_route healthz ps r s = (answered handle_healthz, s)
  handle_route readyz ps r s = (answered (handle_readyz gate), s)
  handle_route post_path ps r s = mounted_define guard r.head s
  handle_route list_paths ps r s = (answered (handle_list_paths pf server r.head.path r.all s), s)
  handle_route get_path ps r s =
      (answered (handle_get_path pf server r.head.path (ps "pathId") s), s)
  handle_route put_path ps r s =
      answer_of
        (handle_revise_path pf server r.head.path (ps "pathId") (lib.decode_revise r.head.body) s)
  handle_route delete_path ps r s =
      answer_of (handle_deactivate_path pf server r.head.path (ps "pathId") s)
  handle_route put_schedule ps r s = answer_of (
      handle_define_cpt_schedule pf server r.head.path (ps "siteId")
        (lib.decode_schedule r.head.body) s)
  handle_route get_schedule ps r s =
      (answered (handle_get_cpt_schedule pf server r.head.path (ps "siteId") s), s)

  -- middleware.Recoverer
  abbrev pub recover : Served × S → Response × S
  recover (answered a, s) = (a, s)
  recover (panicked, s) = (lib.recovered, s)

  abbrev pub dispatch : Match → HttpRequest → S → Response × S
  dispatch (routed route ps) r s = recover (handle_route route ps r s)
  dispatch no_route r s = (
    write_problem 404 route_not_found "the request path does not match any operation in this API"
        r.head.path,
    s,
  )
  dispatch method_not_allowed r s = (lib.not_allowed, s)

  unfoldable pub serve : HttpRequest → S → Response × S
  serve r s = dispatch (lib.match_route routes r.head.method r.head.path) r s
