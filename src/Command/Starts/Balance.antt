-- ===== src/Command/Starts/Balance.antt =====
-- The pools that are open after a start of cmd/pathmgmt, cmd/mcp, cmd/pathmgmt-projector or
-- cmd/pathmgmt-reports, and after cmd/mcp has stopped.
use process_path_management.Prelude.{ℕ, ◌+◌, ◌≡◌, ◌∙◌, inl, inr, arith}
use process_path_management.Errors.{Result, ok, err, Result-cases}
use process_path_management.Command.{
  Env, Persistence, in_memory, pooled, Database, build_persistence,
}
use process_path_management.Command.Starts.{
  build_cpt_schedule_repo, projector_start, reports_start, mcp_start, mcp_run,
}
use process_path_management.Command.Starts.Pools.{
  IsCounted, pools, repo_pools, unit_pools, both_pools, persisted-opened,
  build_cpt_schedule_repo-opened, projector_start-opened, reports_start-opened,
}

-- of cmd/mcp's two pools, the one of the paths is closed when it stops
abbrev pub left_open : ℕ → Result (Persistence × Persistence) → ℕ
left_open weight (ok (_, q)) = pools weight q
left_open weight (err e) = 0

module _ {S : Type 0} (opened : S → ℕ) (v w : ℕ) (paths schedules : Database S)
    (p : IsCounted opened v paths) (q : IsCounted opened w schedules) where
  mcp_start-opened :
      (env : Env) (s : S)
      → opened (mcp_start paths schedules env s).1
        ≡ opened s + both_pools v w (mcp_start paths schedules env s).0
  unfolding mcp_start
  mcp_start-opened env s =
      let url = env "DATABASE_URL" in
      let first = build_persistence paths url s in
      let one = persisted-opened opened v paths p url s in
      let second = build_cpt_schedule_repo schedules url first.1 in
      let two = build_cpt_schedule_repo-opened opened w schedules q url first.1 in
      let closed = p.closing second.1 (opened s) in
      elim (Result-cases first.0) [
        | inl (e, failed) ↦ ground arith
        | inr (in_memory, kept) ↦ elim (Result-cases second.0) [
          | inl (e, failed) ↦ ground arith
          | inr (_, made) ↦ ground arith
        ]
        | inr (pooled, kept) ↦ elim (Result-cases second.0) [
          | inl (e, failed) ↦ ground arith
          | inr (_, made) ↦ ground arith
        ]
      ]

  mcp_run-opened :
      (serve : S → S)
      → ((s : S) → opened (serve s) ≡ opened s)
      → (env : Env) (s : S)
      → opened (mcp_run paths schedules serve env s)
        ≡ opened s + left_open w (mcp_start paths schedules env s).0
  unfolding mcp_run
  mcp_run-opened serve serves env s =
      let start = mcp_start paths schedules env s in
      let held = mcp_start-opened env s in
      let served = serves start.1 in
      let closed = p.closing (serve start.1) (opened s) in
      let closed_first = p.closing (serve start.1) (opened s + w) in
      elim (Result-cases start.0) [
        | inl (e, failed) ↦ ground arith
        | inr ((in_memory, in_memory), made) ↦ ground arith
        | inr ((in_memory, pooled), made) ↦ ground arith
        | inr ((pooled, in_memory), made) ↦ ground arith
        | inr ((pooled, pooled), made) ↦ ground arith
      ]

-- The counts of the open pools of the paths and of the schedules, for cmd/mcp, each by itself.
pub record IsMcpCounted {S : Type 0} (of_paths of_schedules : S → ℕ) (paths schedules : Database S)
    (serve : S → S) : Type 0 where
  pub paths_counted : IsCounted of_paths 1 paths
  pub schedules_apart : IsCounted of_paths 0 schedules
  pub paths_apart : IsCounted of_schedules 0 paths
  pub schedules_counted : IsCounted of_schedules 1 schedules
  pub paths_served : (s : S) → of_paths (serve s) ≡ of_paths s
  pub schedules_served : (s : S) → of_schedules (serve s) ≡ of_schedules s

-- Each start leaves open the pools that its program then uses, and none where it fails; but of the
-- two that cmd/mcp uses, that of the schedules is still open when it has stopped.
pub record IsBalanced {S : Type 0} (opened of_paths of_schedules : S → ℕ)
    (service paths schedules analytics : Database S) (serve : S → S) (env : Env) (s : S)
    : Type 0 where
  pub of_service :
      opened (build_persistence service (env "DATABASE_URL") s).1
      ≡ opened s + repo_pools 1 (build_persistence service (env "DATABASE_URL") s).0
  pub paths_of_mcp :
      of_paths (mcp_start paths schedules env s).1
      ≡ of_paths s + both_pools 1 0 (mcp_start paths schedules env s).0
  pub schedules_of_mcp :
      of_schedules (mcp_start paths schedules env s).1
      ≡ of_schedules s + both_pools 0 1 (mcp_start paths schedules env s).0
  pub of_projector :
      opened (projector_start analytics env s).1
      ≡ opened s + unit_pools 1 (projector_start analytics env s).0
  pub of_reports :
      opened (reports_start analytics env s).1
      ≡ opened s + unit_pools 1 (reports_start analytics env s).0
  pub paths_after_mcp : of_paths (mcp_run paths schedules serve env s) ≡ of_paths s
  pub schedules_after_mcp :
      of_schedules (mcp_run paths schedules serve env s)
      ≡ of_schedules s + left_open 1 (mcp_start paths schedules env s).0

none_left : (r : Result (Persistence × Persistence)) (n : ℕ) → n + left_open 0 r ≡ n
none_left (ok (p, in_memory)) n = omega arith
none_left (ok (p, pooled)) n = omega arith
none_left (err e) n = omega arith

-- Whatever fails and however often it is retried, with drivers that open and close a pool only when
-- they are told to: a start of the service, of the projector or of the reports leaves open exactly
-- the pool that its program uses, none if it failed, and a start of the MCP server its pool of the
-- paths and its pool of the schedules, neither if it failed. Where serving opens and closes neither
-- of the two, the MCP server has closed that of the paths when it stops, and that of the schedules
-- is still open.
pub starts-IsBalanced :
    {S : Type 0} (opened of_paths of_schedules : S → ℕ)
    (service paths schedules analytics : Database S)
    → IsCounted opened 1 service
    → IsCounted opened 1 analytics
    → (serve : S → S) → IsMcpCounted of_paths of_schedules paths schedules serve
    → (env : Env) (s : S)
    → IsBalanced opened of_paths of_schedules service paths schedules analytics serve env s
starts-IsBalanced opened of_paths of_schedules service paths schedules analytics a r serve m env s =
    record {
      of_service = persisted-opened opened 1 service a (env "DATABASE_URL") s;
      paths_of_mcp =
          mcp_start-opened of_paths 1 0 paths schedules m.paths_counted m.schedules_apart env s;
      schedules_of_mcp =
          mcp_start-opened of_schedules 0 1 paths schedules m.paths_apart m.schedules_counted env s;
      of_projector = projector_start-opened opened 1 analytics r env s;
      of_reports = reports_start-opened opened 1 analytics r env s;
      paths_after_mcp =
          mcp_run-opened of_paths 1 0 paths schedules m.paths_counted m.schedules_apart serve
            m.paths_served env s
          ∙ none_left (mcp_start paths schedules env s).0 (of_paths s);
      schedules_after_mcp =
          mcp_run-opened of_schedules 0 1 paths schedules m.paths_apart m.schedules_counted serve
            m.schedules_served env s;
    }
