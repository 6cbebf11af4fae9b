-- ===== src/CptSchedule/Eligible.antt =====
-- AllEligiblePathIds of cpt_schedule.go against membership, distinctness and order.
use Prim.Native.Nat.{Ordering, compare as compare_ℕ}
use Prim.Native.String.{compare, then}
use Prim.Native.String.compare
use text.Mathlib.Text.{is_le}
use process_path_management.Prelude.{
  String, true, false, ◌≡◌, refl, ◌↔◌, ◌⊎◌, inl, inr, List, [], ◌∷◌, ◌++◌, arith, elem, elem_iff,
  In, Distinct, Bool-cases, ℕ, subst,
}
use process_path_management.Shared.{PathId}
use process_path_management.CptSchedule.Cutoffs.{Cutoff}
use process_path_management.CptSchedule.{
  CptSchedule, collect, collect_all, insert, sort, all_eligible_path_ids,
}

abbrev pub Le : String → String → Type 0
Le x y = is_le (compare x y) ≡ true

abbrev pub Below : String → List String → Type 0
Below x [] = Unit
Below x (y ∷ ys) = Le x y

-- Each text is at most the next.
abbrev pub Ascending : List String → Type 0
Ascending [] = Unit
Ascending (x ∷ xs) = Below x xs × Ascending xs

-- The id is listed by one of the cutoffs.
abbrev pub InCutoffs : PathId → List Cutoff → Type 0
InCutoffs a [] = ⊥
InCutoffs a (c ∷ cs) = In a c.eligible_path_ids ⊎ InCutoffs a cs

In-append : (a : String) (xs ys : List String) → In a (xs ++ ys) ↔ (In a xs ⊎ In a ys)
In-append a [] ys = (λ h. inr h, λ h. elim h [ inl e ↦ elim e [ ] | inr e ↦ e ])
In-append a (x ∷ xs) ys = ground (arith, In-append a xs ys)

Distinct-append :
    (x : String) (xs : List String) → ¬ In x xs → Distinct xs → Distinct (xs ++ x ∷ [])
Distinct-append x [] n d = ground arith
Distinct-append x (y ∷ xs) n (m, d) =
    ground (arith, In-append y xs (x ∷ []), Distinct-append x xs (λ h. n (inr h)) d)

-- The set and the list of the loop agree.
abbrev Agree : List String → List String → Type 0
Agree seen out = (a : String) → In a seen ↔ In a out

Agree-keep :
    (id : String) (seen out : List String) → Agree seen out → Agree (id ∷ seen) (out ++ id ∷ [])
Agree-keep id seen out h a = ground (arith, h a, In-append a out (id ∷ []))

record Collected (seen out ids : List String) (r : List String × List String) : Type 0 where
  agree : Agree r.0 r.1
  distinct : Distinct r.1
  all_in : (a : String) → In a r.1 ↔ (In a out ⊎ In a ids)

collect-old :
    (id a : String) (seen out ids : List String) {r : Type 0}
    → In a seen ↔ In a out
    → r ↔ (In a out ⊎ In a ids)
    → In id seen
    → r ↔ (In a out ⊎ In a (id ∷ ids))
collect-old id a seen out ids h c m = (
  λ x. elim (c.0 x) [ inl o ↦ inl o | inr i ↦ inr (inr i) ],
  λ t. elim t [
    | inl o ↦ c.1 (inl o)
    | inr u ↦ elim u [ inl e ↦ c.1 (inl (h.0 (subst (λ b. In b seen) e m))) | inr i ↦ c.1 (inr i) ]
  ],
)

collect_lem :
    (seen out ids : List String)
    → Agree seen out
    → Distinct out
    → Collected seen out ids (collect seen out ids)
unfolding collect
collect_lem seen out [] h d = record { agree = h; distinct = d; all_in = λ a. ground arith }
collect_lem seen out (id ∷ ids) h d = elim (Bool-cases (elem id seen)) [
  | inl old ↦ rw old (
      let c = collect_lem seen out ids h d in
      record {
        agree = c.agree;
        distinct = c.distinct;
        all_in = λ a. collect-old id a seen out ids (h a) (c.all_in a) ((elem_iff id seen).0 old);
      })
  | inr new ↦ rw new (
      let fresh : ¬ In id out = λ m. cc ((elem_iff id seen).1 ((h id).1 m)) in
      let c =
        collect_lem (id ∷ seen) (out ++ id ∷ []) ids (Agree-keep id seen out h)
          (Distinct-append id out fresh d) in
      record {
        agree = c.agree;
        distinct = c.distinct;
        all_in = λ a. ground (arith, c.all_in a, In-append a out (id ∷ []));
      })
]

collect_all_lem :
    (seen out : List String) (cs : List Cutoff)
    → Agree seen out
    → Distinct out
    → Distinct (collect_all seen out cs)
      × ((a : String) → In a (collect_all seen out cs) ↔ (In a out ⊎ InCutoffs a cs))
unfolding collect_all
collect_all_lem seen out [] h d = (d, λ a. ground arith)
collect_all_lem seen out (c ∷ cs) h d =
    let r = collect_lem seen out c.eligible_path_ids h d in
    let (distinct, all_in) =
      collect_all_lem (collect seen out c.eligible_path_ids).0
        (collect seen out c.eligible_path_ids).1 cs r.agree r.distinct in
    (distinct, λ a. ground (arith, all_in a, r.all_in a))

In-insert : (a x : String) (ys : List String) → In a (insert x ys) ↔ ((x ≡ a) ⊎ In a ys)
unfolding insert
In-insert a x [] = ground arith
In-insert a x (y ∷ ys) = ground (arith, In-insert a x ys)

Distinct-insert : (x : String) (ys : List String) → ¬ In x ys → Distinct ys → Distinct (insert x ys)
unfolding insert
Distinct-insert x [] n d = ground arith
Distinct-insert x (y ∷ ys) n d =
    ground (arith, In-insert y x ys, Distinct-insert x ys (λ h. n (inr h)) d.1)

In-sort : (a : String) (xs : List String) → In a (sort xs) ↔ In a xs
unfolding sort
In-sort a [] = ground arith
In-sort a (x ∷ xs) = ground (arith, In-insert a x (sort xs), In-sort a xs)

Distinct-sort : (xs : List String) → Distinct xs → Distinct (sort xs)
unfolding sort
Distinct-sort [] d = tt
Distinct-sort (x ∷ xs) (n, d) =
    Distinct-insert x (sort xs) (λ h. n ((In-sort x xs).0 h)) (Distinct-sort xs d)

abbrev flip : Ordering → Ordering
flip Ordering.lt = Ordering.gt
flip Ordering.eq = Ordering.eq
flip Ordering.gt = Ordering.lt

flip-then : (a b : Ordering) → flip (then a b) ≡ then (flip a) (flip b)
flip-then Ordering.lt b = refl
flip-then Ordering.eq b = refl
flip-then Ordering.gt b = refl

flip-compare_ℕ : (m n : ℕ) → compare_ℕ n m ≡ flip (compare_ℕ m n)
flip-compare_ℕ m n = ground arith

flip-compare : (x y : String) → compare y x ≡ flip (compare x y)
flip-compare String.[] String.[] = refl
flip-compare String.[] (String.◌∷◌ d t) = simp (compare.nil-cons, compare.cons-nil)
flip-compare (String.◌∷◌ c s) String.[] = simp (compare.nil-cons, compare.cons-nil)
flip-compare (String.◌∷◌ c s) (String.◌∷◌ d t) =
    simp (compare.cons-cons, flip-then, ← flip-compare_ℕ, ← flip-compare s t)

Le_total : (x y : String) → is_le (compare x y) ≡ false → Le y x
Le_total x y h = ground (arith, flip-compare x y)

Below-insert : (z x : String) (ys : List String) → Le z x → Below z ys → Below z (insert x ys)
unfolding insert
Below-insert z x [] h b = h
Below-insert z x (y ∷ ys) h b = ground arith

Ascending-insert : (x : String) (ys : List String) → Ascending ys → Ascending (insert x ys)
unfolding insert
Ascending-insert x [] a = (tt, tt)
Ascending-insert x (y ∷ ys) (b, a) = elim (Bool-cases (is_le (compare x y))) [
  | inl below ↦ rw below (below, (b, a))
  | inr above ↦ rw above (Below-insert y x ys (Le_total x y above) b, Ascending-insert x ys a)
]

Ascending-sort : (xs : List String) → Ascending (sort xs)
unfolding sort
Ascending-sort [] = tt
Ascending-sort (x ∷ xs) = Ascending-insert x (sort xs) (Ascending-sort xs)

-- AllEligiblePathIds lists exactly the paths that some cutoff names, each once, in ascending order.
pub all_eligible_path_ids_lem :
    (s : CptSchedule)
    → ((a : PathId) → In a (all_eligible_path_ids s) ↔ InCutoffs a s.cutoffs)
      × Distinct (all_eligible_path_ids s)
      × Ascending (all_eligible_path_ids s)
unfolding all_eligible_path_ids
all_eligible_path_ids_lem s =
    let (distinct, all_in) = collect_all_lem [] [] s.cutoffs (λ a. ground arith) tt in
    (
      λ a. ground (arith, In-sort a (collect_all [] [] s.cutoffs), all_in a),
      Distinct-sort _ distinct,
      Ascending-sort (collect_all [] [] s.cutoffs),
    )
