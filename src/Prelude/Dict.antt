-- ===== src/Prelude/Dict.antt =====
-- A Python dictionary with text keys as an association list in insertion order.
use Prim.Native.String.{String}
use mathlib.Core.Path.{◌≡◌, refl}
use mathlib.Core.Bool.{Bool, true, false, not, ◌&&◌}
use mathlib.Core.List.{List, [], ◌∷◌}
use mathlib.Core.Option.{Option, none, some}
use native.Mathlib.Omega.{arith}
use text.Mathlib.Text.{◌==◌}
use text.Mathlib.TextEquality.{eq_iff}
use control_gate_backend.Prelude.Tests.{if◌then◌else◌}
use control_gate_backend.Prelude.Lists.{any}

abbrev pub Dict {ℓ} : Type ℓ → Type ℓ
Dict V = List (String × V)

-- `k in xs`
abbrev pub contains : List String → String → Bool
contains xs k = any (λ j. j == k) xs

module _ {ℓ} {V : Type ℓ} where
  -- `d.get(k)`
  abbrev pub lookup : String → Dict V → Option V
  lookup k [] = none
  lookup k ((j, v) ∷ d) = if j == k then some v else lookup k d

  -- `d[k] = v`
  abbrev pub insert : String → V → Dict V → Dict V
  insert k v [] = (k, v) ∷ []
  insert k v ((j, w) ∷ d) = if j == k then (j, v) ∷ d else (j, w) ∷ insert k v d

  -- `del d[k]`, and no effect where `k` is missing
  abbrev pub erase : String → Dict V → Dict V
  erase k [] = []
  erase k ((j, w) ∷ d) = let rest = erase k d in if j == k then rest else (j, w) ∷ rest

  pub lookup-insert :
      (k j : String) (v : V) (d : Dict V)
      → lookup j (insert k v d) ≡ (if k == j then some v else lookup j d)
  lookup-insert k j v [] = refl
  lookup-insert k j v ((i, w) ∷ d) =
      ground (arith, eq_iff k j, eq_iff i k, eq_iff i j, lookup-insert k j v d)

  pub lookup-erase :
      (k j : String) (d : Dict V) → lookup j (erase k d) ≡ (if k == j then none else lookup j d)
  lookup-erase k j [] = ground arith
  lookup-erase k j ((i, w) ∷ d) =
      ground (arith, eq_iff k j, eq_iff i k, eq_iff i j, lookup-erase k j d)

-- No text stands in both lists.
abbrev pub are_disjoint : List String → List String → Bool
are_disjoint [] ys = true
are_disjoint (x ∷ xs) ys = not (contains ys x) && are_disjoint xs ys

contains_of_eq : (ys : List String) (x k : String) → (x == k) ≡ true → contains ys x ≡ contains ys k
contains_of_eq ys x k e = rw ((eq_iff x k).0 e)

pub contains_of_disjoint :
    (xs ys : List String) (k : String)
    → are_disjoint xs ys ≡ true
    → contains xs k ≡ true
    → contains ys k ≡ false
contains_of_disjoint [] ys k d h = cc
contains_of_disjoint (x ∷ xs) ys k d h =
    ground (arith, contains_of_eq ys x k, contains_of_disjoint xs ys k)

module _ {ℓ} {V : Type ℓ} where
  -- Every key is bound once.
  abbrev pub HasDistinctKeys : Dict V → Type ℓ
  HasDistinctKeys [] = Unit
  HasDistinctKeys ((k, v) ∷ d) = (lookup k d ≡ none) × HasDistinctKeys d

  pub insert-HasDistinctKeys :
      (k : String) (v : V) (d : Dict V) → HasDistinctKeys d → HasDistinctKeys (insert k v d)
  insert-HasDistinctKeys k v [] h = (refl, tt)
  insert-HasDistinctKeys k v ((j, w) ∷ d) (fresh, h) =
      ground (arith, eq_iff j k, eq_iff k j, lookup-insert k j v d, insert-HasDistinctKeys k v d h)

  pub erase-HasDistinctKeys :
      (k : String) (d : Dict V) → HasDistinctKeys d → HasDistinctKeys (erase k d)
  erase-HasDistinctKeys k [] h = tt
  erase-HasDistinctKeys k ((j, w) ∷ d) (fresh, h) =
      ground (arith, lookup-erase k j d, erase-HasDistinctKeys k d h)
