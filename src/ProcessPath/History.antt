-- ===== src/ProcessPath/History.antt =====
-- Every sequence of revisions and deactivations of one path, as a step relation.
use process_path_management.Prelude.{ℕ, String, ◌≡◌, refl, List, arith, ◌∙◌}
use process_path_management.Prelude.Int.{ℤ}
use process_path_management.Shared.{Capability}
use process_path_management.Shared.Platform.{Platform}
use process_path_management.Shared.Eligibility.{Eligibility}
use process_path_management.ProcessPath.{ProcessPath, deactivated, revise, deactivate}
use process_path_management.ProcessPath.Validity.{IsValid}
use process_path_management.ProcessPath.Lifecycle.{revise-IsValid}

pub data Step (pf : Platform) : ProcessPath → ProcessPath → Type 0 where
  revising :
      (p : ProcessPath) (match_prefix : String) (required_capabilities : List Capability)
      (cycle_time_p95 : ℤ) (eligibility : Eligibility) (now : ℕ)
      → Step pf p (revise pf p match_prefix required_capabilities cycle_time_p95 eligibility now).1
  deactivating : (p : ProcessPath) (now : ℕ) → Step pf p (deactivate p now)

pub data Reach (pf : Platform) (s : ProcessPath) : ProcessPath → Type 0 where
  here : Reach pf s s
  next : {p q : ProcessPath} → Reach pf s p → Step pf p q → Reach pf s q

-- What no step changes.
pub record SameIdentity (p q : ProcessPath) : Type 0 where
  pub id : p.id ≡ q.id
  pub direct : p.direct ≡ q.direct
  pub role : p.destination_location_role ≡ q.destination_location_role
  pub created : p.created_at ≡ q.created_at

-- What an observer of a path may rely on, whatever happens to it.
pub record IsLater (pf : Platform) (p q : ProcessPath) : Type 0 where
  pub identity : SameIdentity p q
  pub valid : IsValid pf p → IsValid pf q
  pub final : p.status ≡ deactivated → q ≡ p

module _ (pf : Platform) where
  revise-IsLater :
      (p : ProcessPath) (match_prefix : String) (required_capabilities : List Capability)
      (cycle_time_p95 : ℤ) (eligibility : Eligibility) (now : ℕ)
      → IsLater pf p
          (revise pf p match_prefix required_capabilities cycle_time_p95 eligibility now).1
  unfolding revise
  revise-IsLater p m c t e n = record {
    identity = ground arith;
    valid = revise-IsValid pf p m c t e n;
    final = λ h. ground arith;
  }

  deactivate-IsLater : (p : ProcessPath) (now : ℕ) → IsLater pf p (deactivate p now)
  unfolding deactivate
  deactivate-IsLater p now = record {
    identity = ground arith;
    valid = λ v. ground arith;
    final = λ h. ground arith;
  }

  Step-IsLater : {p q : ProcessPath} → Step pf p q → IsLater pf p q
  Step-IsLater (revising p m c t e n) = revise-IsLater p m c t e n
  Step-IsLater (deactivating p n) = deactivate-IsLater p n

  pub IsLater-trans : {p q r : ProcessPath} → IsLater pf p q → IsLater pf q r → IsLater pf p r
  IsLater-trans a b = record {
    identity = ground arith;
    valid = λ v. b.valid (a.valid v);
    final = λ h. let e = a.final h in b.final (cc) ∙ e;
  }

  -- However many revisions and deactivations a path goes through, with whatever arguments, its id,
  -- direct flag, destination role and creation time stay, a valid path stays valid, and a
  -- deactivated path stays exactly as it is.
  pub Reach-IsLater : {p q : ProcessPath} → Reach pf p q → IsLater pf p q
  Reach-IsLater here = record {
    identity = record { id = refl; direct = refl; role = refl; created = refl };
    valid = λ v. v;
    final = λ _. refl;
  }
  Reach-IsLater (next r s) = IsLater-trans (Reach-IsLater r) (Step-IsLater s)
