-- ===== src/Http/ProblemLaws.antt =====
-- problemCatalog and statusFor of errors.go, one against the other.
use process_path_management.Prelude.{
  String, ◌≡◌, ◌≢◌, refl, sym, ◌∙◌, ap, ◌↔◌, List, [], ◌∷◌, Option, none, some, arith, ◌==◌,
  some_inv, Option-cases, inl, inr, if◌then◌else◌,
}
use process_path_management.Errors.{Error, other}
use process_path_management.Http.Problems.{
  ProblemInfo, problem_catalog, problem_for, status_for, internal_error,
}

find_slug : String → List (Error × ProblemInfo) → Option Error
find_slug slug [] = none
find_slug slug ((e, i) ∷ rest) = if i.slug == slug then some e else find_slug slug rest

abbrev named : Error → Option Error
named (other _) = none
named e = some e

find_slug-problem_for : (e : Error) → find_slug (problem_for e).slug problem_catalog ≡ named e
unfolding find_slug problem_for
find_slug-problem_for (other m) = refl
find_slug-problem_for _ = refl

named_text_lem : (e x : Error) → named e ≡ some x → e ≡ x
named_text_lem (other m) x h = cc
named_text_lem _ x h = some_inv h

unnamed_lem : (e : Error) → named e ≡ none → problem_for e ≡ internal_error
unfolding problem_for
unnamed_lem (other m) h = refl
unnamed_lem _ h = cc

internal_named : (e : Error) → problem_for e ≡ internal_error → named e ≡ none
unfolding find_slug
internal_named e h =
    sym (find_slug-problem_for e) ∙ ap (λ (i : ProblemInfo). find_slug i.slug problem_catalog) h

same_named : (e f : Error) → problem_for e ≡ problem_for f → named e ≡ named f
same_named e f h =
    sym (find_slug-problem_for e)
    ∙ (ap (λ (i : ProblemInfo). find_slug i.slug problem_catalog) h ∙ find_slug-problem_for f)

-- Two errors that are reported under the same problem, other than as an internal error, are the
-- same error.
pub problem_for_injective :
    (e f : Error) → problem_for e ≢ internal_error → problem_for e ≡ problem_for f → e ≡ f
problem_for_injective e f h k = elim (Option-cases (named e)) [
  | inl unknown ↦ absurd (h (unnamed_lem e unknown))
  | inr (x, found) ↦
      named_text_lem e x found ∙ sym (named_text_lem f x (sym (same_named e f k) ∙ found))
]

status_named : (e : Error) → (status_for e ≡ 500) ↔ (named e ≡ none)
unfolding status_for
status_named (other m) = (λ _. refl, λ _. refl)
status_named _ = (λ h. absurd (omega arith), λ h. cc)

-- An error is answered by status 500 exactly if the catalogue has no problem for it.
pub status_for-internal_iff : (e : Error) → (status_for e ≡ 500) ↔ (problem_for e ≡ internal_error)
status_for-internal_iff e =
    (λ h. unnamed_lem e ((status_named e).0 h), λ h. (status_named e).1 (internal_named e h))
