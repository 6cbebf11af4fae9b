-- ===== src/Memory/Requests.antt =====
-- When the requests to the in-memory service succeed.
use process_path_management.Prelude.{
  String, Bool, true, false, not, ◌≡◌, ◌↔◌, ◌⊎◌, inl, inr, ap, List, [], ◌∷◌, none, some, arith,
  eq_iff, Option-cases,
}
use process_path_management.Prelude.Int.{ℤ}
use process_path_management.Prelude.Assoc.{lookup, insert, lookup-insert}
use process_path_management.Errors.{ok, err, other, path_already_exists}
use process_path_management.Shared.{PathId, Capability, DestinationLocationRole}
use process_path_management.Shared.Platform.{Platform}
use process_path_management.Shared.Eligibility.{Eligibility}
use process_path_management.ProcessPath
use process_path_management.ProcessPath.{ProcessPath, is_active}
use process_path_management.ProcessPath.Validity.{define_iff}
use process_path_management.UseCases.{define_path, deactivate_path, get_path}
use process_path_management.Memory.{
  World, save, find_by_id, define_wired, deactivate_wired, process_path_repo,
}

-- The next publication succeeds.
abbrev pub works : List Bool → Bool
works [] = true
works (b ∷ _) = not b

get_path-found :
    (id : PathId) (w : World) (p : ProcessPath)
    → lookup id w.paths ≡ some p
    → get_path process_path_repo id w ≡ ok p
unfolding get_path find_by_id
get_path-found id w p found = rw (found, get_path)

module _ (pf : Platform) where
  module _ (id : PathId) (m : String) (d : Bool) (c : List Capability) (r : DestinationLocationRole)
      (t : ℤ) (e : Eligibility) (w : World) where
    -- Defining a path succeeds exactly if the id is free, the aggregate makes the path and the next
    -- publication succeeds.
    pub define_path-ok_iff :
        (p : ProcessPath)
        → ((define_path pf define_wired id m d c r t e w).0 ≡ ok p) ↔ (
            (lookup id w.paths ≡ none)
            × (ProcessPath.define pf id m d c r t e w.time ≡ ok p)
            × (works w.broken ≡ true))
    unfolding define_path save find_by_id
    define_path-ok_iff p = ground arith

    define_path-paths :
        (p : ProcessPath)
        → lookup id w.paths ≡ none
        → ProcessPath.define pf id m d c r t e w.time ≡ ok p
        → (define_path pf define_wired id m d c r t e w).1.paths ≡ insert p.id p w.paths
    unfolding define_path save find_by_id
    define_path-paths p free made = ground arith

    own_id : (p : ProcessPath) → ProcessPath.define pf id m d c r t e w.time ≡ ok p → p.id ≡ id
    own_id p made =
        let (_, same) = (define_iff pf id m d c r t e w.time p).0 made in
        ap (λ (q : ProcessPath). q.id) same

    stored :
        (p : ProcessPath)
        → lookup id w.paths ≡ none
        → ProcessPath.define pf id m d c r t e w.time ≡ ok p
        → lookup id (define_path pf define_wired id m d c r t e w).1.paths ≡ some p
    stored p free made =
        rw (define_path-paths p free made, lookup-insert)
          (ground (arith, own_id p made, eq_iff p.id id))

    -- What a definition answers is what a lookup of the id answers from then on.
    pub get_path-define_path :
        (p : ProcessPath)
        → (define_path pf define_wired id m d c r t e w).0 ≡ ok p
        → get_path process_path_repo id (define_path pf define_wired id m d c r t e w).1 ≡ ok p
    get_path-define_path p h =
        let (free, made, _) = (define_path-ok_iff p).0 h in
        get_path-found id (define_path pf define_wired id m d c r t e w).1 p (stored p free made)

    unpublished :
        (p : ProcessPath) (rest : List Bool)
        → lookup id w.paths ≡ none
        → ProcessPath.define pf id m d c r t e w.time ≡ ok p
        → w.broken ≡ true ∷ rest
        → let now = define_path pf define_wired id m d c r t e w in
          (now.0 ≡ err (other "publish failed")) × (now.1.published ≡ w.published)
    unfolding define_path save find_by_id
    unpublished p rest free made broken = ground arith

  refused :
      (id : PathId) (m : String) (d : Bool) (c : List Capability) (r : DestinationLocationRole)
      (t : ℤ) (e : Eligibility) (w : World) (p : ProcessPath)
      → lookup id w.paths ≡ some p
      → (define_path pf define_wired id m d c r t e w).0 ≡ err path_already_exists
  unfolding define_path find_by_id
  refused id m d c r t e w p found = ground arith

  -- A definition that the store takes and the publisher refuses answers an error, publishes
  -- nothing and leaves the path in the store: the same request, sent again, is a duplicate.
  pub define_path-unpublished :
      (id : PathId) (m : String) (d : Bool) (c : List Capability) (r : DestinationLocationRole)
      (t : ℤ) (e : Eligibility) (w : World) (p : ProcessPath) (rest : List Bool)
      → lookup id w.paths ≡ none
      → ProcessPath.define pf id m d c r t e w.time ≡ ok p
      → w.broken ≡ true ∷ rest
      → let first = define_path pf define_wired id m d c r t e w in
        (first.0 ≡ err (other "publish failed"))
        × (first.1.published ≡ w.published)
        × (lookup id first.1.paths ≡ some p)
        × ((define_path pf define_wired id m d c r t e first.1).0 ≡ err path_already_exists)
  define_path-unpublished id m d c r t e w p rest free made broken =
      let (failed, silent) = unpublished id m d c r t e w p rest free made broken in
      let kept = stored id m d c r t e w p free made in
      (
        failed,
        silent,
        kept,
        refused id m d c r t e (define_path pf define_wired id m d c r t e w).1 p kept,
      )

  -- Deactivating succeeds exactly if the path is there and is inactive already or the next
  -- publication succeeds.
  pub deactivate_path-ok_iff :
      (id : PathId) (w : World)
      → ((deactivate_path deactivate_wired id w).0 ≡ ok tt) ↔ (
          (p : ProcessPath) × (lookup id w.paths ≡ some p)
          × ((is_active p ≡ false) ⊎ (works w.broken ≡ true)))
  unfolding deactivate_path save find_by_id
  deactivate_path-ok_iff id w = (
    λ h. elim (Option-cases (lookup id w.paths)) [
      | inl missing ↦ absurd (ground arith)
      | inr (p, found) ↦ (p, found, ground arith)
    ],
    λ t. let (p, found, c) = t in ground arith,
  )
