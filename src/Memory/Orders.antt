-- ===== src/Memory/Orders.antt =====
-- Requests about different paths in either order, over internal/adapters/outbound/memory. A Go map
-- has no order: as a map, a store is its entries up to what a lookup finds.
use process_path_management.Prelude.{
  ℕ, String, Bool, true, false, ◌≡◌, ◌≢◌, refl, sym, ◌∙◌, ap, subst, List, Option, none, some,
  some_inv, arith, ◌==◌, eq_iff, if◌then◌else◌, Bool-cases, Option-cases, inl, inr,
}
use mathlib.Core.Quot
use mathlib.Core.Quot.{Quot}
use process_path_management.Prelude.Int.{ℤ}
use process_path_management.Prelude.Assoc.{lookup, insert, lookup-insert}
use process_path_management.Errors.{Result, ok, err}
use process_path_management.Shared.{PathId, Capability, DestinationLocationRole}
use process_path_management.Shared.Platform.{Platform}
use process_path_management.Shared.Eligibility.{Eligibility}
use process_path_management.ProcessPath
use process_path_management.ProcessPath.{ProcessPath, is_active}
use process_path_management.ProcessPath.Validity.{define_iff}
use process_path_management.ProcessPath.History.{
  Reach, IsLater, Reach-IsLater, here, next, revising, deactivating,
}
use process_path_management.Catalogue.{IsWellFormed, Change-IsWellFormed}
use process_path_management.UseCases.{define_path, revise_path, deactivate_path}
use process_path_management.Memory.{World, save, find_by_id}
use process_path_management.Memory.Laws.{
  Paths, Request, define, revise, deactivate, schedule, environment, view, run, after_define,
  after_revise, after_deactivate, paths-define_path, paths-revise_path, paths-deactivate_path,
  run-Change,
}

abbrev pub SamePaths : Paths → Paths → Type 0
SamePaths m n = (id : PathId) → lookup id m ≡ lookup id n

-- the map of a ProcessPathRepo
abbrev pub PathMap : Type 0
PathMap = Quot SamePaths

abbrev pub map_of : World → PathMap
map_of w = Quot.mk w.paths

-- the path that a request is about
abbrev pub target : Request → Option PathId
target (define id m d c r t e) = some id
target (revise id m c t e) = some id
target (deactivate id) = some id
target _ = none

abbrev defined : Option ProcessPath → Result ProcessPath → Option ProcessPath
defined (some p) x = some p
defined none (err e) = none
defined none (ok p) = some p

abbrev revised : ProcessPath → Result Bool × ProcessPath → Option ProcessPath
revised p (err e, q) = some p
revised p (ok false, q) = some p
revised p (ok true, q) = some q

-- what a request does to the path that it is about, at a time
abbrev effect : Platform → Request → ℕ → Option ProcessPath → Option ProcessPath
effect pf (define id m d c r t e) now o = defined o (ProcessPath.define pf id m d c r t e now)
effect pf (revise id m c t e) now none = none
effect pf (revise id m c t e) now (some p) = revised p (ProcessPath.revise pf p m c t e now)
effect pf (deactivate id) now none = none
effect pf (deactivate id) now (some p) =
    if is_active p then some (ProcessPath.deactivate p now) else some p
effect pf _ now o = o

abbrev At : PathId → Option ProcessPath → Paths → PathId → Option ProcessPath
At id o m j = if id == j then o else lookup j m

-- an entry written over itself
at-lookup :
    (id : PathId) (o : Option ProcessPath) (m : Paths) (j : PathId)
    → lookup id m ≡ o
    → lookup j m ≡ At id o m j
at-lookup id o m j h = elim (Bool-cases (id == j)) [
  | inl same ↦ rw same (ap (λ k. lookup k m) (sym ((eq_iff id j).0 same)) ∙ h)
  | inr other ↦ rw other refl
]

at-insert :
    (p : ProcessPath) (id : PathId) (m : Paths) (j : PathId)
    → p.id ≡ id
    → lookup j (insert p.id p m) ≡ At id (some p) m j
at-insert p id m j h = lookup-insert p.id j p m ∙ ap (λ k. if k == j then some p else lookup j m) h

at-insert_twice :
    (p : ProcessPath) (id : PathId) (m : Paths) (j : PathId)
    → p.id ≡ id
    → lookup j (insert p.id p (insert p.id p m)) ≡ At id (some p) m j
at-insert_twice p id m j h =
    at-insert p id (insert p.id p m) j h ∙ (let once = at-insert p id m j h in ground arith)

swapped :
    (a b j : PathId) (x y z : Option ProcessPath)
    → (a == b) ≡ false
    → (if a == j then x else if b == j then y else z)
      ≡ (if b == j then y else if a == j then x else z)
swapped a b j x y z differ = ground (arith, eq_iff a j, eq_iff b j, eq_iff a b)

module _ (pf : Platform) where
  after_define-At :
      (id : PathId) (mp : String) (d : Bool) (c : List Capability) (r : DestinationLocationRole)
      (t : ℤ) (e : Eligibility) (now : ℕ) (m : Paths) (j : PathId) (o : Option ProcessPath)
      (x : Result ProcessPath)
      → lookup id m ≡ o
      → ProcessPath.define pf id mp d c r t e now ≡ x
      → lookup j (after_define o x m) ≡ At id (defined o x) m j
  after_define-At id mp d c r t e now m j (some p) x h k = at-lookup id (some p) m j h
  after_define-At id mp d c r t e now m j none (err f) h k = at-lookup id none m j h
  after_define-At id mp d c r t e now m j none (ok p) h k =
      let (valid, same) = (define_iff pf id mp d c r t e now p).0 k in
      at-insert p id m j (cc (ap (λ (q : ProcessPath). q.id) same))

  after_revise-At :
      (id : PathId) (mp : String) (c : List Capability) (t : ℤ) (e : Eligibility) (now : ℕ)
      (m : Paths) (j : PathId) (p : ProcessPath) (x : Result Bool × ProcessPath)
      → lookup id m ≡ some p
      → p.id ≡ id
      → ProcessPath.revise pf p mp c t e now ≡ x
      → lookup j (after_revise (some p) x m) ≡ At id (revised p x) m j
  after_revise-At id mp c t e now m j p (err f, q) h own k = at-lookup id (some p) m j h
  after_revise-At id mp c t e now m j p (ok false, q) h own k = at-lookup id (some p) m j h
  after_revise-At id mp c t e now m j p (ok true, q) h own k =
      let later : IsLater pf p q = Reach-IsLater pf (
        subst (λ x. Reach pf p x) (ap (λ (y : Result Bool × ProcessPath). y.1) k)
          (next here (revising p mp c t e now))) in
      at-insert_twice q id m j (sym later.identity.id ∙ own)

  after_deactivate-At :
      (id : PathId) (now : ℕ) (m : Paths) (j : PathId) (p : ProcessPath)
      → lookup id m ≡ some p
      → p.id ≡ id
      → lookup j (after_deactivate (some p) (λ x. ProcessPath.deactivate x now) m)
        ≡ At id (effect pf (deactivate id) now (some p)) m j
  after_deactivate-At id now m j p h own = elim (Bool-cases (is_active p)) [
    | inl live ↦
        let q = ProcessPath.deactivate p now in
        let later : IsLater pf p q = Reach-IsLater pf (next here (deactivating p now)) in
        rw live (at-insert_twice q id m j (sym later.identity.id ∙ own))
    | inr gone ↦ rw gone (at-lookup id (some p) m j h)
  ]

  moved :
      (r : Request) (id : PathId) {a : PathId} (w : World) (j : PathId)
      → id ≡ a
      → lookup j (run pf r w).paths ≡ At id (effect pf r w.time (lookup id w.paths)) w.paths j
      → lookup j (run pf r w).paths ≡ At a (effect pf r w.time (lookup a w.paths)) w.paths j
  moved r id w j e h =
      subst
        (λ x. lookup j (run pf r w).paths ≡ At x (effect pf r w.time (lookup x w.paths)) w.paths j)
        e h

  -- a request changes what is found under its target, and nothing else
  run-At :
      (r : Request) (a : PathId) (w : World) (j : PathId)
      → target r ≡ some a
      → IsWellFormed pf (view w)
      → lookup j (run pf r w).paths ≡ At a (effect pf r w.time (lookup a w.paths)) w.paths j
  unfolding run
  run-At (define id m d c r t e) a w j h well = moved (define id m d c r t e) id w j (some_inv h) (
      ap (lookup j) (paths-define_path pf id m d c r t e w)
      ∙ after_define-At id m d c r t e w.time w.paths j _ _ refl refl)
  run-At (revise id m c t e) a w j h well = moved (revise id m c t e) id w j (some_inv h) (
      ap (lookup j) (paths-revise_path pf id m c t e w) ∙ (elim (Option-cases (lookup id w.paths)) [
        | inl missing ↦ rw missing (at-lookup id none w.paths j missing)
        | inr (p, found) ↦
            rw found
              (after_revise-At id m c t e w.time w.paths j p _ found (well id p found).0 refl)
      ]))
  run-At (deactivate id) a w j h well = moved (deactivate id) id w j (some_inv h) (
      ap (lookup j) (paths-deactivate_path pf id w) ∙ (elim (Option-cases (lookup id w.paths)) [
        | inl missing ↦ rw missing (at-lookup id none w.paths j missing)
        | inr (p, found) ↦
            rw found (after_deactivate-At id w.time w.paths j p found (well id p found).0)
      ]))
  run-At (schedule s t c) a w j h well = absurd (ground arith)
  run-At (environment t b) a w j h well = absurd (ground arith)

  run-time : (r : Request) (a : PathId) (w : World) → target r ≡ some a → (run pf r w).time ≡ w.time
  unfolding run define_path revise_path deactivate_path save find_by_id
  run-time (define id m d c r t e) a w h = ground arith
  run-time (revise id m c t e) a w h = ground arith
  run-time (deactivate id) a w h = ground arith
  run-time (schedule s t c) a w h = absurd (ground arith)
  run-time (environment t b) a w h = absurd (ground arith)

  -- two requests one after the other, as what each does to its own path
  both-At :
      (r q : Request) (a b : PathId) (w : World) (j : PathId)
      → target r ≡ some a
      → target q ≡ some b
      → (a == b) ≡ false
      → IsWellFormed pf (view w)
      → lookup j (run pf r (run pf q w)).paths ≡ (
          if a == j
          then effect pf r w.time (lookup a w.paths)
          else At b (effect pf q w.time (lookup b w.paths)) w.paths j)
  both-At r q a b w j h k differ well =
      let u = run pf q w in
      let differ_back : (b == a) ≡ false = ground (arith, eq_iff a b, eq_iff b a) in
      let at_a : lookup a u.paths ≡ lookup a w.paths =
        run-At q b w a k well ∙ rw differ_back refl in
      let at_j = run-At q b w j k well in
      run-At r a u j h (Change-IsWellFormed pf (run-Change pf q w) well)
      ∙ (ap (λ o. At a (effect pf r u.time o) u.paths j) at_a
          ∙ (ap (λ t. At a (effect pf r t (lookup a w.paths)) u.paths j) (run-time q b w k)
              ∙ ap (λ x. if a == j then effect pf r w.time (lookup a w.paths) else x) at_j))

  -- Two requests to define, revise or deactivate two different paths of a well-formed catalogue leave
  -- the same map in either order, whatever they answer and whether or not the publisher works.
  pub run-commutes :
      (r q : Request) (a b : PathId) (w : World)
      → target r ≡ some a
      → target q ≡ some b
      → a ≢ b
      → IsWellFormed pf (view w)
      → map_of (run pf r (run pf q w)) ≡ map_of (run pf q (run pf r w))
  run-commutes r q a b w h k differ well =
      let ab : (a == b) ≡ false = ground (arith, eq_iff a b) in
      let ba : (b == a) ≡ false = ground (arith, eq_iff b a) in
      Quot.sound (λ j.
        both-At r q a b w j h k ab well
        ∙ (swapped a b j _ _ _ ab ∙ sym (both-At q r b a w j k h ba well)))
