-- ===== src/Idempotency/Post.antt =====
-- POST /process-paths behind the middleware, over the database: server.go mounts the handler that
-- way. JSON decoding is a parameter, as are the parts of the server that the handler does not use.
use process_path_management.Prelude.{
  false, is_some, ap, Bool-cases, ◌≢◌, ◌⊎◌, [], ◌∙◌, sym, Bool, List, ℕ, String, ◌≡◌, inl, inr,
  refl, arith, none, Option-cases,
}
use process_path_management.Prelude.Int.{ℤ}
use process_path_management.Errors.{Result, ok, Result-cases}
use process_path_management.Events.{process_path_created, facts_of}
use process_path_management.Shared.{PathId, Capability, DestinationLocationRole}
use process_path_management.Shared.{parse_destination_location_role}
use process_path_management.Shared.Platform.{Platform}
use process_path_management.Shared.Eligibility.{Eligibility}
use process_path_management.ProcessPath
use process_path_management.Ports.{CptScheduleRepo}
use process_path_management.UseCases.{define_path}
use process_path_management.UseCases.Schedules.{DefineCptSchedule}
use process_path_management.Http.Dto.{DefineProcessPathRequest, parse_cycle_time, to_eligibility}
use process_path_management.Http.{Server, Decoded, decoded, malformed, handle_define_path}
use process_path_management.Transaction.{exec, begin}
use process_path_management.Http.Problems.{Response}
use process_path_management.Postgres.Session.{execute}
use process_path_management.Postgres.Repo.{Encoder, process_path_repo}
use process_path_management.Postgres.Outboxed.{
  save_to_outbox, save_to_outbox-IsStored, save_to_outbox-StaysInside,
}
use process_path_management.Postgres.Wired.{define_stored, revise_stored, deactivate_stored}
use process_path_management.Idempotency.{
  Served, answered, Request, Database, require_idempotency_key,
}
use process_path_management.Idempotency.Laws.{
  IsSettled, IsExcused, may_fail, IsCarriedOut, inside, require_idempotency_key-IsSettled,
  require_idempotency_key-fresh,
}

module _ (pf : Platform) (new_id : ℕ → String) (encoders : List Encoder) where
  execute-begun :
      (p : ProcessPath.ProcessPath) (now : ℕ) (s : Database)
      → (execute
          (save_to_outbox pf new_id encoders p (process_path_created (facts_of p now)))
          s).1.begun
        ≡ s.begun
  unfolding execute
  execute-begun p now s =
      let event = process_path_created (facts_of p now) in
      let joined = save_to_outbox-StaysInside pf new_id encoders p event s in
      let new = save_to_outbox-IsStored pf new_id encoders p event s in
      elim (Option-cases s.begun) [
        | inl none_open ↦ (new none_open).closed ∙ sym none_open
        | inr (old, opened) ↦ ground arith
      ]

  define_path-begun :
      (id : PathId) (match_prefix : String) (direct : Bool) (needed : List Capability)
      (role : DestinationLocationRole) (cycle_time : ℤ) (eligibility : Eligibility) (s : Database)
      → (define_path pf
          (define_stored pf new_id encoders)
          id
          match_prefix
          direct
          needed
          role
          cycle_time
          eligibility
          s).1.begun
        ≡ s.begun
  unfolding define_path
  define_path-begun id match_prefix direct needed role cycle_time eligibility s =
      elim (Result-cases
        (ProcessPath.define pf id match_prefix direct needed role cycle_time eligibility s.time)) [
          | inl (e, eq) ↦ ground arith
          | inr (p, eq) ↦ let same = execute-begun p s.time s in ground arith
        ]

  module _ (schedules : DefineCptSchedule Database) (schedule_repo : CptScheduleRepo Database)
      (decode : Result String → Decoded DefineProcessPathRequest) where
    abbrev pub database_server : Server Database
    database_server = record {
      define_path = define_stored pf new_id encoders;
      revise_path = revise_stored pf new_id encoders;
      deactivate_path = deactivate_stored pf new_id encoders;
      paths = process_path_repo pf;
      define_cpt_schedule = schedules;
      schedules = schedule_repo;
    }

    -- the handler as the middleware calls it; the model of it does not panic
    abbrev pub post_handler : Request → Database → Served × Database
    post_handler r s =
        let done = handle_define_path pf database_server r.path (decode r.body) s in
        (answered done.0, done.1)

    handler-begun :
        (url : String) (body : Decoded DefineProcessPathRequest) (s : Database)
        → (handle_define_path pf database_server url body s).1.begun ≡ s.begun
    unfolding handle_define_path
    handler-begun url (malformed e) s = refl
    handler-begun url (decoded req) s =
        elim (Result-cases (parse_destination_location_role req.destination_location_role)) [
          | inl (e, f) ↦ ground arith
          | inr (role, f) ↦ elim (Result-cases (parse_cycle_time pf req.cycle_time_p95)) [
            | inl (e, g) ↦ ground arith
            | inr (t, g) ↦
                let same =
                  define_path-begun req.path_id req.match_prefix req.direct
                    req.required_capabilities role t (to_eligibility req.eligibility) s in
                ground arith
          ]
        ]

    -- without a transaction inside, the BEGIN has failed
    begin_failed :
        (hash : String → String) (r : Request) (body : String) (s : Database)
        → is_some (inside hash post_handler r body s).begun ≡ false
        → s.faults ≢ []
    unfolding exec begin
    begin_failed hash r body s failed calm = ground arith

    -- A POST with a readable body, outside of a transaction, whatever statement fails: no transaction
    -- stays open, and either every table is as it was and the answer is an error, the one that is
    -- recorded for the key and the same body, or a panic of the handler; or the client gets the
    -- answer of the handler and the handler's writes are committed together with that answer in the
    -- key's row. The latter it is, unless a statement to come may fail, the request has no key or one
    -- that was used, or the handler left the transaction aborted.
    pub post-IsSettled :
        (hash : String → String) (r : Request) (body : String) (s : Database)
        → s.begun ≡ none
        → r.body ≡ ok body
        → let ran = post_handler r (inside hash post_handler r body s) in
          IsSettled (hash body) r s.tables ran (require_idempotency_key hash post_handler r s)
          × (((response : Response) × (ran.0 ≡ answered response)
                × IsCarriedOut r response ran.1 (require_idempotency_key hash post_handler r s))
              ⊎ IsExcused r s ran.1)
    post-IsSettled hash r body s none_open readable =
        let done =
          handle_define_path pf database_server r.path (decode r.body)
            (inside hash post_handler r body s) in
        (
          require_idempotency_key-IsSettled hash post_handler r body s
              (λ q t. handler-begun q.path (decode q.body) t) none_open readable,
          elim (Bool-cases (is_some (inside hash post_handler r body s).begun)) [
            | inl opened ↦
                elim (require_idempotency_key-fresh hash post_handler r body s done.0 readable refl
                  (ap is_some
                      (handler-begun r.path (decode r.body) (inside hash post_handler r body s))
                    ∙ opened)) [
                      | inl carried ↦ inl (done.0, refl, carried)
                      | inr excused ↦ inr excused
                    ]
            | inr failed ↦ inr (may_fail (begin_failed hash r body s failed))
          ],
        )
