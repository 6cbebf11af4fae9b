-- ===== src/Memory/Laws.antt =====
-- The in-memory service against the abstract catalogue, request by request.
use process_path_management.Prelude.{
  ℕ, String, Bool, true, false, ◌≡◌, refl, List, [], ◌∷◌, Option, none, some, arith, ◌==◌,
  if◌then◌else◌, Bool-cases, Option-cases, inl, inr, ap, sym, subst,
}
use process_path_management.Prelude.Int.{ℤ}
use process_path_management.Prelude.Assoc.{lookup, insert, lookup-insert}
use process_path_management.Errors.{Result, ok, err}
use process_path_management.Shared.{PathId, SiteId, Capability, DestinationLocationRole}
use process_path_management.Shared.Platform.{Platform}
use process_path_management.Shared.Eligibility.{Eligibility}
use process_path_management.ProcessPath
use process_path_management.ProcessPath.{ProcessPath, is_active}
use process_path_management.ProcessPath.Validity.{IsValid, define_iff}
use process_path_management.ProcessPath.History.{Reach, here, next, revising, deactivating}
use process_path_management.CptSchedule.Cutoffs.{Cutoff}
use process_path_management.Catalogue.{
  View, Change, unchanged, added, replaced, IsWellFormed, Keeps, Change-IsWellFormed, Change-Keeps,
  Keeps-trans,
}
use process_path_management.UseCases.{define_path, revise_path, deactivate_path}
use process_path_management.UseCases.Schedules.{define_cpt_schedule}
use process_path_management.Memory.{
  World, save, find_by_id, save_schedule, find_by_site_id, define_wired, revise_wired,
  deactivate_wired, schedule_wired,
}

abbrev pub view : World → View
view w id = lookup id w.paths

-- What can happen to the service: the four requests that write, and its environment, where time
-- passes and the publisher is repaired or breaks.
pub data Request : Type 0 where
  define :
      PathId → String → Bool → List Capability → DestinationLocationRole → ℤ → Eligibility → Request
  revise : PathId → String → List Capability → ℤ → Eligibility → Request
  deactivate : PathId → Request
  schedule : SiteId → String → List Cutoff → Request
  environment : ℕ → List Bool → Request

unfoldable pub run : Platform → Request → World → World
run pf (define id m d c r t e) w = (define_path pf define_wired id m d c r t e w).1
run pf (revise id m c t e) w = (revise_path pf revise_wired id m c t e w).1
run pf (deactivate id) w = (deactivate_path deactivate_wired id w).1
run pf (schedule site tz cutoffs) w = (define_cpt_schedule pf schedule_wired site tz cutoffs w).1
run pf (environment t b) w = record w { time = t; broken = b }

unfoldable pub run_all : Platform → List Request → World → World
run_all pf [] w = w
run_all pf (r ∷ rs) w = run_all pf rs (run pf r w)

abbrev pub Paths : Type 0
Paths = List (PathId × ProcessPath)

-- The paths after a definition, from what the repository found and what the aggregate answered.
abbrev pub after_define : Option ProcessPath → Result ProcessPath → Paths → Paths
after_define (some p) r m = m
after_define none (err e) m = m
after_define none (ok p) m = insert p.id p m

abbrev pub after_revise : Option ProcessPath → Result Bool × ProcessPath → Paths → Paths
after_revise none r m = m
after_revise (some p) (err e, q) m = m
after_revise (some p) (ok false, q) m = m
after_revise (some p) (ok true, q) m = insert q.id q (insert q.id q m)

abbrev pub after_deactivate : Option ProcessPath → (ProcessPath → ProcessPath) → Paths → Paths
after_deactivate none f m = m
after_deactivate (some p) f m =
    if is_active p then insert (f p).id (f p) (insert (f p).id (f p) m) else m

module _ (pf : Platform) where
  pub paths-define_path :
      (id : PathId) (m : String) (d : Bool) (c : List Capability) (r : DestinationLocationRole)
      (t : ℤ) (e : Eligibility) (w : World)
      → (define_path pf define_wired id m d c r t e w).1.paths
        ≡ after_define (lookup id w.paths) (ProcessPath.define pf id m d c r t e w.time) w.paths
  unfolding define_path save find_by_id
  paths-define_path id m d c r t e w = ground arith

  pub paths-revise_path :
      (id : PathId) (m : String) (c : List Capability) (t : ℤ) (e : Eligibility) (w : World)
      → (revise_path pf revise_wired id m c t e w).1.paths ≡ elim (lookup id w.paths) [
        | none ↦ w.paths
        | some p ↦ after_revise (some p) (ProcessPath.revise pf p m c t e w.time) w.paths
      ]
  unfolding revise_path save find_by_id
  paths-revise_path id m c t e w = ground arith

  pub paths-deactivate_path :
      (id : PathId) (w : World)
      → (deactivate_path deactivate_wired id w).1.paths
        ≡ after_deactivate (lookup id w.paths) (λ p. ProcessPath.deactivate p w.time) w.paths
  unfolding deactivate_path save find_by_id
  paths-deactivate_path id w = ground arith

  pub paths-define_cpt_schedule :
      (site : SiteId) (tz : String) (cutoffs : List Cutoff) (w : World)
      → (define_cpt_schedule pf schedule_wired site tz cutoffs w).1.paths ≡ w.paths
  unfolding define_cpt_schedule save_schedule find_by_site_id
  paths-define_cpt_schedule site tz cutoffs w = ground arith

  same_paths : {m n : Paths} → n ≡ m → Change pf (λ j. lookup j m) (λ j. lookup j n)
  same_paths e = unchanged (λ j. ap (λ l. lookup j l) e)

  of_paths :
      (m : Paths) {n k : Paths}
      → k ≡ n
      → Change pf (λ j. lookup j m) (λ j. lookup j n)
      → Change pf (λ j. lookup j m) (λ j. lookup j k)
  of_paths m e c = subst (λ x. Change pf (λ j. lookup j m) (λ j. lookup j x)) (sym e) c

  insert_twice :
      (k : PathId) (p : ProcessPath) (m : Paths) (j : PathId)
      → lookup j (insert k p (insert k p m)) ≡ (if k == j then some p else lookup j m)
  insert_twice k p m j = simp lookup-insert (ground arith)

  Change-after_define :
      (id : PathId) (mp : String) (d : Bool) (c : List Capability) (r : DestinationLocationRole)
      (t : ℤ) (e : Eligibility) (now : ℕ) (m : Paths) (o : Option ProcessPath)
      (x : Result ProcessPath)
      → lookup id m ≡ o
      → ProcessPath.define pf id mp d c r t e now ≡ x
      → Change pf (λ j. lookup j m) (λ j. lookup j (after_define o x m))
  Change-after_define id mp d c r t e now m (some p) x h k = same_paths refl
  Change-after_define id mp d c r t e now m none (err f) h k = same_paths refl
  Change-after_define id mp d c r t e now m none (ok p) h k =
      let (valid, same) = (define_iff pf id mp d c r t e now p).0 k in
      added p (cc (ap (λ (q : ProcessPath). q.id) same))
        (subst (λ q. IsValid pf q) (sym same) valid) (λ j. lookup-insert p.id j p m)

  Change-after_revise :
      (id : PathId) (mp : String) (c : List Capability) (t : ℤ) (e : Eligibility) (now : ℕ)
      (m : Paths) (p : ProcessPath) (r : Result Bool × ProcessPath)
      → lookup id m ≡ some p
      → ProcessPath.revise pf p mp c t e now ≡ r
      → Change pf (λ j. lookup j m) (λ j. lookup j (after_revise (some p) r m))
  Change-after_revise id mp c t e now m p (err f, q) h k = same_paths refl
  Change-after_revise id mp c t e now m p (ok false, q) h k = same_paths refl
  Change-after_revise id mp c t e now m p (ok true, q) h k =
      replaced p q id h
        (subst (λ x. Reach pf p x) (ap (λ (y : Result Bool × ProcessPath). y.1) k)
          (next here (revising p mp c t e now)))
        (insert_twice q.id q m)

  Change-after_deactivate :
      (id : PathId) (now : ℕ) (m : Paths) (o : Option ProcessPath)
      → lookup id m ≡ o
      → Change pf
          (λ j. lookup j m)
          (λ j. lookup j (after_deactivate o (λ p. ProcessPath.deactivate p now) m))
  Change-after_deactivate id now m none h = same_paths refl
  Change-after_deactivate id now m (some p) h = elim (Bool-cases (is_active p)) [
    | inl yes_active ↦
        let q = ProcessPath.deactivate p now in
        replaced p q id h (next here (deactivating p now))
          (λ j. rw yes_active (insert_twice q.id q m j))
    | inr gone ↦ rw gone (same_paths refl)
  ]

  -- One request to the in-memory service, whatever it answers and whether or not the publisher
  -- works, is one change of the catalogue.
  pub run-Change : (r : Request) (w : World) → Change pf (view w) (view (run pf r w))
  unfolding run
  run-Change (define id m d c r t e) w =
      of_paths w.paths (paths-define_path id m d c r t e w)
        (Change-after_define id m d c r t e w.time w.paths _ _ refl refl)
  run-Change (revise id m c t e) w =
      of_paths w.paths (paths-revise_path id m c t e w) (elim (Option-cases (lookup id w.paths)) [
        | inl missing ↦ rw missing (same_paths refl)
        | inr (p, found) ↦ rw found (Change-after_revise id m c t e w.time w.paths p _ found refl)
      ])
  run-Change (deactivate id) w =
      of_paths w.paths (paths-deactivate_path id w)
        (Change-after_deactivate id w.time w.paths _ refl)
  run-Change (schedule site tz cutoffs) w = same_paths (paths-define_cpt_schedule site tz cutoffs w)
  run-Change (environment t b) w = same_paths refl

  -- From a well-formed catalogue, any sequence of requests, failing or not, with any publisher,
  -- leaves it well-formed and keeps every path as a later state of itself: its id, direct flag,
  -- destination role and creation time stay, and a deactivated path stays exactly as it is.
  pub run_all-Keeps :
      (rs : List Request) (w : World)
      → IsWellFormed pf (view w)
      → IsWellFormed pf (view (run_all pf rs w)) × Keeps pf (view w) (view (run_all pf rs w))
  unfolding run_all
  run_all-Keeps [] w h = (h, Change-Keeps pf (unchanged (λ j. refl)) h)
  run_all-Keeps (r ∷ rs) w h =
      let c = run-Change r w in
      let (well, keeps) = run_all-Keeps rs (run pf r w) (Change-IsWellFormed pf c h) in
      (well, Keeps-trans pf (Change-Keeps pf c h) keeps)
