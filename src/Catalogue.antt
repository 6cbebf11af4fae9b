-- ===== src/Catalogue.antt =====
-- The catalogue that the service promises, with no store and no publisher: a partial map from ids
-- to paths, and what one request may do to it. It is the abstract view of a
-- ProcessPathRepo (internal/application/ports/ports.go).
use process_path_management.Prelude.{
  ◌≡◌, sym, ◌∙◌, ap, subst, Option, none, some, eq_iff, ◌==◌, if◌then◌else◌, Bool-cases, some_inv,
  inl, inr,
}
use process_path_management.Shared.{PathId}
use process_path_management.Shared.Platform.{Platform}
use process_path_management.ProcessPath.{ProcessPath}
use process_path_management.ProcessPath.Validity.{IsValid}
use process_path_management.ProcessPath.History.{Reach, here, IsLater, Reach-IsLater, IsLater-trans}

abbrev pub View : Type 0
View = PathId → Option ProcessPath

abbrev pub updated : View → ProcessPath → View
updated f p id = if p.id == id then some p else f id

pub data Change (pf : Platform) (f g : View) : Type 0 where
  unchanged : ((id : PathId) → g id ≡ f id) → Change pf f g
  added :
      (p : ProcessPath)
      → f p.id ≡ none
      → IsValid pf p
      → ((id : PathId) → g id ≡ updated f p id)
      → Change pf f g
  replaced :
      (p q : ProcessPath) (id : PathId)
      → f id ≡ some p
      → Reach pf p q
      → ((j : PathId) → g j ≡ updated f q j)
      → Change pf f g

-- Every stored path stands under its own id and is valid.
abbrev pub IsWellFormed : Platform → View → Type 0
IsWellFormed pf f = (id : PathId) (p : ProcessPath) → f id ≡ some p → (p.id ≡ id) × IsValid pf p

-- Every path of `f` is still there in `g`, as a later state of itself.
abbrev pub Keeps : Platform → View → View → Type 0
Keeps pf f g =
    (id : PathId) (p : ProcessPath)
    → f id ≡ some p
    → (q : ProcessPath) × (g id ≡ some q) × IsLater pf p q

taken :
    (f : View) (q : ProcessPath) (id : PathId) (p : ProcessPath)
    → f q.id ≡ none
    → f id ≡ some p
    → q.id ≡ id
    → ⊥
taken f q id p free h same = cc (ap f same)

module _ (pf : Platform) where
  updated-IsWellFormed :
      (f : View) (q : ProcessPath)
      → IsWellFormed pf f
      → IsValid pf q
      → IsWellFormed pf (updated f q)
  updated-IsWellFormed f q w v id p h = elim (Bool-cases (q.id == id)) [
    | inl same ↦
        let found : q ≡ p = some_inv (rw same at h) in
        subst (λ x. (x.id ≡ id) × IsValid pf x) found ((eq_iff q.id id).0 same, v)
    | inr other ↦ w id p (rw other at h)
  ]

  reached-IsValid :
      (f : View) {p q : ProcessPath} (id : PathId)
      → f id ≡ some p
      → Reach pf p q
      → IsWellFormed pf f
      → IsValid pf q
  reached-IsValid f {p} id at r w = (Reach-IsLater pf r).valid (w id p at).1

  -- A change of a well-formed catalogue leaves it well-formed.
  pub Change-IsWellFormed : {f g : View} → Change pf f g → IsWellFormed pf f → IsWellFormed pf g
  Change-IsWellFormed (unchanged e) w id p h = w id p (sym (e id) ∙ h)
  Change-IsWellFormed {f} (added q free v e) w id p h =
      updated-IsWellFormed f q w v id p (sym (e id) ∙ h)
  Change-IsWellFormed {f} (replaced p q i at r e) w id x h =
      updated-IsWellFormed f q w (reached-IsValid f i at r w) id x (sym (e id) ∙ h)

  keep_others :
      (f : View) (q : ProcessPath) (id : PathId) (p : ProcessPath)
      → f id ≡ some p
      → (q.id ≡ id → IsLater pf p q)
      → (x : ProcessPath) × (updated f q id ≡ some x) × IsLater pf p x
  keep_others f q id p h k = elim (Bool-cases (q.id == id)) [
    | inl same ↦ (q, rw same, k ((eq_iff q.id id).0 same))
    | inr other ↦ (p, rw other h, Reach-IsLater pf here)
  ]

  along :
      {a b : Option ProcessPath} {p : ProcessPath}
      → b ≡ a
      → (x : ProcessPath) × (a ≡ some x) × IsLater pf p x
      → (x : ProcessPath) × (b ≡ some x) × IsLater pf p x
  along e t = let (x, h, l) = t in (x, e ∙ h, l)

  of_same-IsLater :
      (f : View) (p q x : ProcessPath) (i id : PathId)
      → IsWellFormed pf f
      → f i ≡ some p
      → Reach pf p q
      → f id ≡ some x
      → q.id ≡ id
      → IsLater pf x q
  of_same-IsLater f p q x i id w at r h same =
      let later = Reach-IsLater pf r in
      let place : i ≡ id = sym (w i p at).0 ∙ (later.identity.id ∙ same) in
      let found : p ≡ x = some_inv (sym at ∙ (ap f place ∙ h)) in
      subst (λ y. IsLater pf y q) found later

  -- A change of a well-formed catalogue keeps every path, as a later state of itself.
  pub Change-Keeps : {f g : View} → Change pf f g → IsWellFormed pf f → Keeps pf f g
  Change-Keeps (unchanged e) w id p h = along (e id) (p, h, Reach-IsLater pf here)
  Change-Keeps {f} (added q free v e) w id p h =
      along (e id) (keep_others f q id p h (λ same. absurd (taken f q id p free h same)))
  Change-Keeps {f} (replaced p q i at r e) w id x h =
      along (e id) (keep_others f q id x h (of_same-IsLater f p q x i id w at r h))

  pub Keeps-trans : {f g k : View} → Keeps pf f g → Keeps pf g k → Keeps pf f k
  Keeps-trans a b id p h =
      let (q, at, l) = a id p h in let (r, found, m) = b id q at in (r, found, IsLater-trans pf l m)
