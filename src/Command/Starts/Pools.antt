-- ===== src/Command/Starts/Pools.antt =====
-- The pools that buildPersistence, buildCPTScheduleRepo and the starts of cmd/pathmgmt-projector and
-- cmd/pathmgmt-reports leave open.
use process_path_management.Prelude.{
  ℕ, ◌+◌, ◌*◌, zero, suc, String, ◌≡◌, refl, inl, inr, arith, Option-cases,
}
use process_path_management.Errors.{Error, Result, ok, err, Result-cases}
use process_path_management.BootRetry.{Boot, do_boot, do_with_delay, attempts}
use process_path_management.Command.{
  Env, Persistence, in_memory, pooled, Database, boot_with, build_persistence,
}
use process_path_management.Command.Starts.{
  after_new_pool, build_cpt_schedule_repo, projector_start, reports_start,
}

-- how many pools a start leaves open, where a pool that is not counted weighs 0
abbrev pub pools : ℕ → Persistence → ℕ
pools weight in_memory = 0
pools weight pooled = weight

abbrev pub repo_pools : ℕ → Result Persistence → ℕ
repo_pools weight (ok p) = pools weight p
repo_pools weight (err e) = 0

abbrev pub unit_pools : ℕ → Result (Unit {0}) → ℕ
unit_pools weight (ok _) = weight
unit_pools weight (err e) = 0

abbrev pub both_pools : ℕ → ℕ → Result (Persistence × Persistence) → ℕ
both_pools v w (ok (p, q)) = pools v p + pools w q
both_pools v w (err e) = 0

module _ {S : Type 0} (opened : S → ℕ) where
  -- What the drivers document of a pool, for a count of open pools: only opening it and closing it
  -- changes the count, by its weight, which is 0 where the count is of other pools.
  pub record IsCounted (weight : ℕ) (db : Database S) : Type 0 where
    pub migrating : (s : S) → opened (db.run_migrations s).1 ≡ opened s
    pub pinging : (s : S) → opened (db.ping s).1 ≡ opened s
    pub waiting : (delay : ℕ) (s : S) → opened (db.wait delay s).1 ≡ opened s
    pub opening : (s : S) → (db.new_pool s).0 ≡ ok tt → opened (db.new_pool s).1 ≡ opened s + weight
    pub refusing :
        (s : S) (e : Error) → (db.new_pool s).0 ≡ err e → opened (db.new_pool s).1 ≡ opened s
    pub closing : (s : S) (n : ℕ) → opened s ≡ n + weight → opened (db.close s) ≡ n

  attempts-opened :
      (b : Boot S) (what : String)
      → ((s : S) → opened (b.op s).1 ≡ opened s)
      → ((delay : ℕ) (s : S) → opened (b.wait delay s).1 ≡ opened s)
      → (left delay : ℕ) (s : S) → opened (attempts b what left delay s).1 ≡ opened s
  unfolding attempts
  attempts-opened b what calls waits zero delay s = refl
  attempts-opened b what calls waits (suc left) delay s =
      let called = calls s in
      let waited = waits delay (b.op s).1 in
      let later = attempts-opened b what calls waits left (delay * 2) (b.wait delay (b.op s).1).1 in
      elim (Result-cases (b.op s).0) [
        | inl (e, failed) ↦ elim (Option-cases (b.wait delay (b.op s).1).0) [
          | inl slept ↦ ground arith
          | inr (stop, cut) ↦ ground arith
        ]
        | inr (_, made) ↦ ground arith
      ]

  do_boot-opened :
      (b : Boot S) (what : String)
      → ((s : S) → opened (b.op s).1 ≡ opened s)
      → ((delay : ℕ) (s : S) → opened (b.wait delay s).1 ≡ opened s)
      → (s : S) → opened (do_boot b what s).1 ≡ opened s
  unfolding do_boot do_with_delay
  do_boot-opened b what calls waits s = attempts-opened b what calls waits 5 1000000000 s

  after_new_pool-opened :
      (weight : ℕ) (db : Database S) (c : IsCounted weight db) (what : String) (s : S)
      → opened (after_new_pool db what (db.new_pool s)).1
        ≡ opened s + unit_pools weight (after_new_pool db what (db.new_pool s)).0
  after_new_pool-opened weight db c what s =
      let made = (db.new_pool s).1 in
      let pinged = do_boot-opened (boot_with db db.ping) what c.pinging c.waiting made in
      let boot = do_boot (boot_with db db.ping) what made in
      let closed = c.closing boot.1 (opened s) in
      elim (Result-cases (db.new_pool s).0) [
        | inl (e, failed) ↦ let same = c.refusing s e failed in ground arith
        | inr (_, got) ↦
            let more = c.opening s got in
            elim (Result-cases boot.0) [
              | inl (e, failed) ↦ ground arith
              | inr (_, passed) ↦ ground arith
            ]
      ]

  pub persisted-opened :
      (weight : ℕ) (db : Database S) (c : IsCounted weight db) (url : String) (s : S)
      → opened (build_persistence db url s).1
        ≡ opened s + repo_pools weight (build_persistence db url s).0
  unfolding build_persistence
  persisted-opened weight db c url s =
      let migrated = do_boot (boot_with db db.run_migrations) "run migrations" s in
      let kept =
        do_boot-opened (boot_with db db.run_migrations) "run migrations" c.migrating c.waiting s in
      let opened_pool = after_new_pool-opened weight db c "ping database" migrated.1 in
      elim (Result-cases migrated.0) [
        | inl (e, failed) ↦ ground arith
        | inr (_, done) ↦ elim (Result-cases (db.new_pool migrated.1).0) [
          | inl (e, failed) ↦ ground arith
          | inr (_, got) ↦
              elim (Result-cases
                (do_boot (boot_with db db.ping) "ping database" (db.new_pool migrated.1).1).0) [
                  | inl (e, failed) ↦ ground arith
                  | inr (_, passed) ↦ ground arith
                ]
        ]
      ]

  pub build_cpt_schedule_repo-opened :
      (weight : ℕ) (db : Database S) (c : IsCounted weight db) (url : String) (s : S)
      → opened (build_cpt_schedule_repo db url s).1
        ≡ opened s + repo_pools weight (build_cpt_schedule_repo db url s).0
  unfolding build_cpt_schedule_repo
  build_cpt_schedule_repo-opened weight db c url s =
      let what : String = "ping database (cpt schedule pool)" in
      let opened_pool = after_new_pool-opened weight db c what s in
      elim (Result-cases (after_new_pool db what (db.new_pool s)).0) [
        | inl (e, failed) ↦ ground arith
        | inr (_, got) ↦ ground arith
      ]

  pub projector_start-opened :
      (weight : ℕ) (db : Database S) (c : IsCounted weight db) (env : Env) (s : S)
      → opened (projector_start db env s).1
        ≡ opened s + unit_pools weight (projector_start db env s).0
  unfolding projector_start
  projector_start-opened weight db c env s =
      let what : String = "run analytics migrations" in
      let migrated = do_boot (boot_with db db.run_migrations) what s in
      let kept = do_boot-opened (boot_with db db.run_migrations) what c.migrating c.waiting s in
      let opened_pool = after_new_pool-opened weight db c "ping analytics database" migrated.1 in
      elim (Result-cases migrated.0) [
        | inl (e, failed) ↦ ground arith
        | inr (_, done) ↦ ground arith
      ]

  pub reports_start-opened :
      (weight : ℕ) (db : Database S) (c : IsCounted weight db) (env : Env) (s : S)
      → opened (reports_start db env s).1 ≡ opened s + unit_pools weight (reports_start db env s).0
  unfolding reports_start
  reports_start-opened weight db c env s =
      let opened_pool = after_new_pool-opened weight db c "ping analytics database" s in
      ground arith
