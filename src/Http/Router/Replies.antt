-- ===== src/Http/Router/Replies.antt =====
-- What a client of NewRouter of server.go may count on, over the database, whatever it sends and
-- whatever statement fails.
use process_path_management.Prelude.{
  String, true, false, ◌≡◌, ◌⊎◌, refl, inl, inr, Option, none, some, arith, Bool-cases,
}
use process_path_management.Errors.{ok, Result-cases}
use process_path_management.Shared.Platform.{Platform}
use process_path_management.Http.Problems.{Response, status_body, write_json, write_problem}
use process_path_management.Http.{Server}
use process_path_management.Http.Reports.{Readiness, is_ready, handle_readyz}
use process_path_management.Idempotency.{
  Served, answered, panicked, Request, Database, require_idempotency_key,
}
use process_path_management.Http.Router.{
  Route, healthz, readyz, post_path, list_paths, get_path, put_path, delete_path, put_schedule,
  get_schedule, routes, HttpRequest, Params, Match, routed, no_route, method_not_allowed, Library,
  Middleware, route_not_found, mounted_define, define_handler, handle_route, recover, dispatch,
  serve,
}
use process_path_management.Http.Router.Answers.{
  IsAnswer, write_problem-IsAnswer, handle_define_path-IsAnswer, handle_revise_path-IsAnswer,
  handle_deactivate_path-IsAnswer, handle_get_path-IsAnswer, handle_list_paths-IsAnswer,
  handle_define_cpt_schedule-IsAnswer, handle_get_cpt_schedule-IsAnswer,
}
use process_path_management.Http.Router.Guarded.{
  IsRecorded, Handled, Answers, require_idempotency_key-Answers, require_idempotency_key-unreadable,
}

-- the middleware as NewRouter mounts it, where there is a pool
abbrev pub guarded_by : Option (String → String) → Option (Middleware Database)
guarded_by none = none
guarded_by (some hash) = some (require_idempotency_key hash)

module _ (pf : Platform) (lib : Library) (server : Server Database) (gate : Readiness)
    (pool : Option (String → String)) where
  abbrev pub guard : Option (Middleware Database)
  guard = guarded_by pool

  -- The answer that was recorded for the key of the request and its body.
  abbrev pub IsReplay : HttpRequest → Database → Response → Type 0
  IsReplay r s a =
      (hash : String → String) × (body : String) × (pool ≡ some hash)
      × (r.head.body ≡ ok body)
      × IsRecorded r.head (hash body) s.tables a

  -- The reply of each route.
  abbrev pub IsReplyOf : Route → HttpRequest → Database → Response → Type 0
  IsReplyOf healthz r s a = (a ≡ write_json 200 (status_body "ok"))
  IsReplyOf readyz r s a =
      ((is_ready gate ≡ true) × (a ≡ write_json 200 (status_body "ready")))
      ⊎ ((is_ready gate ≡ false) × (a ≡ write_json 503 (status_body "not_ready")))
  IsReplyOf post_path r s a = IsAnswer r.head.path a ⊎ IsReplay r s a
  IsReplyOf _ r s a = IsAnswer r.head.path a

  -- The reply to a request, by what the router matched it to.
  abbrev pub IsReply : Match → HttpRequest → Database → Response → Type 0
  IsReply (routed route ps) r s a = IsReplyOf route r s a
  IsReply no_route r s a = IsAnswer r.head.path a × (a.status ≡ 404)
  IsReply method_not_allowed r s a = a ≡ lib.not_allowed

  abbrev handler : Request → Database → Served × Database
  handler = define_handler pf lib server gate guard

  handler-Handled : (r : Request) (s : Database) → Handled r.path (handler r s).0
  handler-Handled r s = handle_define_path-IsAnswer pf server r.path (lib.decode_define r.body) s

  -- the reply that a handler's outcome becomes
  abbrev reply_of : Served × Database → Response
  reply_of out = (recover pf lib server gate guard out).0

  unreadable-IsReplyOf :
      (r : HttpRequest) (s : Database) (out : Served × Database)
      → Handled r.head.path out.0
      → IsReplyOf post_path r s (reply_of out)
  unreadable-IsReplyOf r s (answered a, t) h = inl h
  unreadable-IsReplyOf r s (panicked, t) h = absurd h

  keyed-IsReplyOf :
      (r : HttpRequest) (s : Database) (hash : String → String) (body : String)
      (out : Served × Database)
      → pool ≡ some hash
      → r.head.body ≡ ok body
      → Answers r.head (hash body) s.tables out.0
      → IsReplyOf post_path r s (reply_of out)
  keyed-IsReplyOf r s hash body (answered a, t) wired readable (inl h) = inl h
  keyed-IsReplyOf r s hash body (answered a, t) wired readable (inr h) =
      inr (hash, body, wired, readable, h)
  keyed-IsReplyOf r s hash body (panicked, t) wired readable h = absurd h

  mounted-IsReplyOf :
      (r : HttpRequest) (s : Database) (o : Option (String → String))
      → s.begun ≡ none
      → pool ≡ o
      → IsReplyOf post_path r s
          (reply_of (mounted_define pf lib server gate guard (guarded_by o) r.head s))
  mounted-IsReplyOf r s none none_open wired = inl (handler-Handled r.head s)
  mounted-IsReplyOf r s (some hash) none_open wired = elim (Result-cases r.head.body) [
    | inl (e, bad) ↦
        unreadable-IsReplyOf r s (require_idempotency_key hash handler r.head s)
          (require_idempotency_key-unreadable hash handler r.head e s bad)
    | inr (body, readable) ↦
        keyed-IsReplyOf r s hash body (require_idempotency_key hash handler r.head s) wired readable
          (require_idempotency_key-Answers hash handler r.head body s none_open
            (λ t. handler-Handled r.head t) readable)
  ]

  readyz-IsReplyOf : (r : HttpRequest) (s : Database) → IsReplyOf readyz r s (handle_readyz gate)
  unfolding handle_readyz
  readyz-IsReplyOf r s = elim (Bool-cases (is_ready gate)) [
    | inl up ↦ inl (up, rw (up, handle_readyz) refl)
    | inr down ↦ inr (down, rw (down, handle_readyz) refl)
  ]

  handle_route-IsReplyOf :
      (route : Route) (ps : Params) (r : HttpRequest) (s : Database)
      → s.begun ≡ none
      → IsReplyOf route r s (reply_of (handle_route pf lib server gate guard route ps r s))
  unfolding handle_route
  handle_route-IsReplyOf healthz ps r s h = refl
  handle_route-IsReplyOf readyz ps r s h = readyz-IsReplyOf r s
  handle_route-IsReplyOf post_path ps r s h = mounted-IsReplyOf r s pool h refl
  handle_route-IsReplyOf list_paths ps r s h =
      handle_list_paths-IsAnswer pf server r.head.path r.all s
  handle_route-IsReplyOf get_path ps r s h =
      handle_get_path-IsAnswer pf server r.head.path (ps "pathId") s
  handle_route-IsReplyOf put_path ps r s h =
      handle_revise_path-IsAnswer pf server r.head.path (ps "pathId") _ s
  handle_route-IsReplyOf delete_path ps r s h =
      handle_deactivate_path-IsAnswer pf server r.head.path (ps "pathId") s
  handle_route-IsReplyOf put_schedule ps r s h =
      handle_define_cpt_schedule-IsAnswer pf server r.head.path (ps "siteId") _ s
  handle_route-IsReplyOf get_schedule ps r s h =
      handle_get_cpt_schedule-IsAnswer pf server r.head.path (ps "siteId") s

  dispatch-IsReply :
      (m : Match) (r : HttpRequest) (s : Database)
      → s.begun ≡ none
      → IsReply m r s (dispatch pf lib server gate guard m r s).0
  unfolding write_problem
  dispatch-IsReply (routed route ps) r s h = handle_route-IsReplyOf route ps r s h
  dispatch-IsReply no_route r s h = (
    write_problem-IsAnswer 404 route_not_found
        "the request path does not match any operation in this API" r.head.path (omega arith),
    refl,
  )
  dispatch-IsReply method_not_allowed r s h = refl

  -- Over a database outside of a transaction, whatever statement fails, with the idempotency
  -- middleware where there is a pool: a request to /healthz gets `ok` with 200; one to /readyz gets
  -- 200 exactly while the gate is up, and else 503; one to another route gets JSON with 200 or 201,
  -- nothing with 204, or a problem whose status is that of the answer, at least 400, and whose
  -- instance is the path of the request, or, for a POST behind the middleware only, the answer that
  -- the row of its key has recorded for a body of the same hash; one to no route gets such a problem
  -- with 404, and one by a method that the route does not have gets chi's answer. The handlers of
  -- the model do not panic.
  pub serve-IsReply :
      (r : HttpRequest) (s : Database)
      → s.begun ≡ none
      → IsReply
          (lib.match_route routes r.head.method r.head.path)
          r
          s
          (serve pf lib server gate guard r s).0
  unfolding serve
  serve-IsReply r s h = dispatch-IsReply (lib.match_route routes r.head.method r.head.path) r s h
