-- ===== src/Prelude/Texts.antt =====
-- Lists of texts compared with `==`, element by element.
use Prim.Native.String.{String}
use mathlib.Core.Path.{◌≡◌}
use mathlib.Core.Bool.{Bool, true, false, ◌||◌}
use mathlib.Core.Logic.{◌↔◌, ◌≢◌, ◌⊎◌}
use mathlib.Core.List.{List, [], ◌∷◌}
use native.Mathlib.Omega.{arith}
use text.Mathlib.Text.{◌==◌}
use text.Mathlib.TextEquality.{eq_iff}

pub ==-false : (s t : String) → s ≢ t → (s == t) ≡ false
==-false s t h = ground (arith, eq_iff s t)

-- Does a text occur in a list, as a Go map of booleans says it.
abbrev pub elem : String → List String → Bool
elem a [] = false
elem a (x ∷ xs) = x == a || elem a xs

-- Membership as a sum, which the tactics take apart.
abbrev pub In : String → List String → Type 0
In a [] = ⊥
In a (x ∷ xs) = (x ≡ a) ⊎ In a xs

pub elem_iff : (a : String) (xs : List String) → (elem a xs ≡ true) ↔ In a xs
elem_iff a [] = ground arith
elem_iff a (x ∷ xs) = ground (arith, eq_iff x a, elem_iff a xs)

abbrev pub Distinct : List String → Type 0
Distinct [] = Unit
Distinct (x ∷ xs) = (¬ In x xs) × Distinct xs
