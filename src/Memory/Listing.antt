-- ===== src/Memory/Listing.antt =====
-- ListActive and ListAll of process_path_repo.go in internal/adapters/outbound/memory: what a list of
-- the paths holds.
use process_path_management.Prelude.{
  Bool, true, false, ◌≡◌, ◌≢◌, ◌⊎◌, ◌↔◌, refl, List, [], ◌∷◌, map, Option, none, some, arith, ◌==◌,
  eq_iff, Bool-cases, Option-cases, inl, inr, ap, sym, ◌∙◌, subst, In, Distinct,
}
use process_path_management.Prelude.Assoc.{lookup, insert, lookup-insert}
use process_path_management.Errors.{Result, ok, err}
use process_path_management.Shared.{PathId}
use process_path_management.Shared.Platform.{Platform}
use process_path_management.ProcessPath.{ProcessPath, is_active}
use process_path_management.UseCases.{list_paths}
use process_path_management.Memory.{
  World, actives, values, list_active, list_all, process_path_repo,
}
use process_path_management.Memory.Laws.{
  Paths, Request, define, revise, deactivate, schedule, environment, view, run, run_all,
  after_define, after_revise, after_deactivate, paths-define_path, paths-revise_path,
  paths-deactivate_path, paths-define_cpt_schedule,
}

-- every path stands under its own id, and no id twice
abbrev pub IsKeyed : Paths → Type 0
IsKeyed [] = Unit {0}
IsKeyed (e ∷ m) = (e.1.id ≡ e.0) × (lookup e.0 m ≡ none) × IsKeyed m

abbrev pub InPaths : ProcessPath → List ProcessPath → Type 0
InPaths p [] = ⊥
InPaths p (q ∷ ps) = (q ≡ p) ⊎ InPaths p ps

abbrev pub path_ids : List ProcessPath → List PathId
path_ids ps = map (λ p. p.id) ps

insert-IsKeyed : (p : ProcessPath) (m : Paths) → IsKeyed m → IsKeyed (insert p.id p m)
unfolding lookup insert
insert-IsKeyed p [] k = ground arith
insert-IsKeyed p (e ∷ m) (own, fresh, k) = elim (Bool-cases (e.0 == p.id)) [
  | inl same ↦ rw same (sym ((eq_iff e.0 p.id).0 same), fresh, k)
  | inr other ↦
      let differ : (p.id == e.0) ≡ false = ground (arith, eq_iff e.0 p.id, eq_iff p.id e.0) in
      rw other (own, rw (lookup-insert p.id e.0 p m, differ) fresh, insert-IsKeyed p m k)
]

values_iff :
    (m : Paths) → IsKeyed m → (p : ProcessPath) → InPaths p (values m) ↔ (lookup p.id m ≡ some p)
unfolding lookup
values_iff [] k p = ground arith
values_iff (e ∷ m) (own, fresh, k) p = ground (arith, values_iff m k p, eq_iff e.0 p.id)

values-known :
    (m : Paths) → IsKeyed m → (i : PathId) → In i (path_ids (values m)) → lookup i m ≢ none
unfolding lookup
values-known [] k i h = absurd h
values-known (e ∷ m) (own, fresh, k) i h = ground (arith, values-known m k i, eq_iff e.0 i)

values-Distinct : (m : Paths) → IsKeyed m → Distinct (path_ids (values m))
values-Distinct [] k = tt
values-Distinct (e ∷ m) (own, fresh, k) =
    (λ h. values-known m k e.1.id h (ap (λ i. lookup i m) own ∙ fresh), values-Distinct m k)

actives_iff :
    (ps : List ProcessPath) (p : ProcessPath)
    → InPaths p (actives ps) ↔ (InPaths p ps × (is_active p ≡ true))
actives_iff [] p = ground arith
actives_iff (q ∷ ps) p = ground (arith, actives_iff ps p)

actives-ids :
    (ps : List ProcessPath) (i : PathId) → In i (path_ids (actives ps)) → In i (path_ids ps)
actives-ids [] i h = h
actives-ids (q ∷ ps) i h = ground (arith, actives-ids ps i)

actives-Distinct :
    (ps : List ProcessPath) → Distinct (path_ids ps) → Distinct (path_ids (actives ps))
actives-Distinct [] d = tt
actives-Distinct (q ∷ ps) (new, d) = elim (Bool-cases (is_active q)) [
  | inl live ↦ rw live ((λ h. new (actives-ids ps q.id h)), actives-Distinct ps d)
  | inr gone ↦ rw gone (actives-Distinct ps d)
]

after_define-IsKeyed :
    (o : Option ProcessPath) (r : Result ProcessPath) (m : Paths)
    → IsKeyed m
    → IsKeyed (after_define o r m)
after_define-IsKeyed (some p) r m k = k
after_define-IsKeyed none (err e) m k = k
after_define-IsKeyed none (ok p) m k = insert-IsKeyed p m k

after_revise-IsKeyed :
    (o : Option ProcessPath) (r : Result Bool × ProcessPath) (m : Paths)
    → IsKeyed m
    → IsKeyed (after_revise o r m)
after_revise-IsKeyed none r m k = k
after_revise-IsKeyed (some p) (err e, q) m k = k
after_revise-IsKeyed (some p) (ok false, q) m k = k
after_revise-IsKeyed (some p) (ok true, q) m k =
    insert-IsKeyed q (insert q.id q m) (insert-IsKeyed q m k)

after_deactivate-IsKeyed :
    (o : Option ProcessPath) (f : ProcessPath → ProcessPath) (m : Paths)
    → IsKeyed m
    → IsKeyed (after_deactivate o f m)
after_deactivate-IsKeyed none f m k = k
after_deactivate-IsKeyed (some p) f m k = elim (Bool-cases (is_active p)) [
  | inl live ↦ rw live (insert-IsKeyed (f p) (insert (f p).id (f p) m) (insert-IsKeyed (f p) m k))
  | inr gone ↦ rw gone k
]

of_IsKeyed : {m n : Paths} → n ≡ m → IsKeyed m → IsKeyed n
of_IsKeyed same k = subst (λ x. IsKeyed x) (sym same) k

module _ (pf : Platform) where
  run-IsKeyed : (r : Request) (w : World) → IsKeyed w.paths → IsKeyed (run pf r w).paths
  unfolding run
  run-IsKeyed (define id m d c r t e) w k =
      of_IsKeyed (paths-define_path pf id m d c r t e w) (after_define-IsKeyed _ _ w.paths k)
  run-IsKeyed (revise id m c t e) w k =
      of_IsKeyed (paths-revise_path pf id m c t e w) (elim (Option-cases (lookup id w.paths)) [
        | inl missing ↦ rw missing k
        | inr (p, found) ↦ rw found (after_revise-IsKeyed (some p) _ w.paths k)
      ])
  run-IsKeyed (deactivate id) w k =
      of_IsKeyed (paths-deactivate_path pf id w) (after_deactivate-IsKeyed _ _ w.paths k)
  run-IsKeyed (schedule site tz cutoffs) w k =
      of_IsKeyed (paths-define_cpt_schedule pf site tz cutoffs w) k
  run-IsKeyed (environment t b) w k = k

  run_all-IsKeyed :
      (rs : List Request) (w : World) → IsKeyed w.paths → IsKeyed (run_all pf rs w).paths
  unfolding run_all
  run_all-IsKeyed [] w k = k
  run_all-IsKeyed (r ∷ rs) w k = run_all-IsKeyed rs (run pf r w) (run-IsKeyed r w k)

abbrev pub Asked : Bool → ProcessPath → Type 0
Asked true p = is_active p ≡ true
Asked false p = Unit {0}

-- The paths that are asked for, each once.
pub record Lists (w : World) (active_only : Bool) (ps : List ProcessPath) : Type 0 where
  pub answer : list_paths process_path_repo active_only w ≡ ok ps
  pub each : (p : ProcessPath) → InPaths p ps ↔ ((view w p.id ≡ some p) × Asked active_only p)
  pub once : Distinct (path_ids ps)

keyed-Lists :
    (w : World) (active_only : Bool)
    → IsKeyed w.paths
    → (ps : List ProcessPath) × Lists w active_only ps
unfolding list_paths list_active list_all
keyed-Lists w true k =
    let all = values w.paths in
    (
      actives all,
      record {
        answer = refl;
        each = λ p. ground (arith, actives_iff all p, values_iff w.paths k p);
        once = actives-Distinct all (values-Distinct w.paths k);
      },
    )
keyed-Lists w false k = (
  values w.paths,
  record {
    answer = refl;
    each = λ p. ground (arith, values_iff w.paths k p);
    once = values-Distinct w.paths k;
  },
)

-- After any sequence of requests to a service whose paths stand under their own ids, no id twice, a
-- list of its paths succeeds, and holds exactly the paths of the catalogue, or exactly the active
-- ones where those alone are asked for, and no id twice.
pub run_all-Lists :
    (pf : Platform) (rs : List Request) (w : World) (active_only : Bool)
    → IsKeyed w.paths
    → (ps : List ProcessPath) × Lists (run_all pf rs w) active_only ps
run_all-Lists pf rs w active_only k =
    keyed-Lists (run_all pf rs w) active_only (run_all-IsKeyed pf rs w k)
