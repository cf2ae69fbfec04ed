-- ===== src/Prelude/Sort.antt =====
-- Python's stable sort by a numeric key, as an insertion sort.
use Prim.Native.Nat.{ℕ, suc, ◌≤◌}
use mathlib.Core.Path.{◌≡◌, refl}
use mathlib.Core.Bool.{Bool, ◌||◌}
use mathlib.Core.List.{List, [], ◌∷◌}
use native.Mathlib.Omega.{arith}
use control_gate_backend.Prelude.Tests.{leb, ◌==◌, if◌then◌else◌}
use control_gate_backend.Prelude.Lists.{filter, any, count_if, length}

module _ {ℓ} {A : Type ℓ} (key : A → ℕ) where
  unfoldable pub insert_by : A → List A → List A
  insert_by x [] = x ∷ []
  insert_by x (y ∷ ys) = if leb (key x) (key y) then x ∷ y ∷ ys else y ∷ insert_by x ys

  unfoldable pub sort_by : List A → List A
  sort_by [] = []
  sort_by (x ∷ xs) = insert_by x (sort_by xs)

  -- No element has a greater key than one that stands behind it.
  abbrev pub IsAbove : ℕ → List A → Type 0
  IsAbove n [] = Unit
  IsAbove n (x ∷ xs) = n ≤ key x

  abbrev pub IsSorted : List A → Type 0
  IsSorted [] = Unit
  IsSorted (x ∷ xs) = IsAbove (key x) xs × IsSorted xs

  insert_by-IsAbove :
      (n : ℕ) (x : A) (xs : List A) → n ≤ key x → IsAbove n xs → IsAbove n (insert_by x xs)
  unfolding insert_by
  insert_by-IsAbove n x [] h a = h
  insert_by-IsAbove n x (y ∷ ys) h a = ground arith

  insert_by-IsSorted : (x : A) (xs : List A) → IsSorted xs → IsSorted (insert_by x xs)
  unfolding insert_by
  insert_by-IsSorted x [] s = (tt, tt)
  insert_by-IsSorted x (y ∷ ys) (a, s) =
      ground (arith, insert_by-IsSorted x ys s, insert_by-IsAbove (key y) x ys)

  pub sort_by-IsSorted : (xs : List A) → IsSorted (sort_by xs)
  unfolding sort_by
  sort_by-IsSorted [] = tt
  sort_by-IsSorted (x ∷ xs) = insert_by-IsSorted x (sort_by xs) (sort_by-IsSorted xs)

  -- The sort keeps the order of the elements of each key.
  filter-insert_by :
      (k : ℕ) (x : A) (xs : List A)
      → filter (λ a. key a == k) (insert_by x xs) ≡ filter (λ a. key a == k) (x ∷ xs)
  unfolding insert_by
  filter-insert_by k x [] = refl
  filter-insert_by k x (y ∷ ys) = ground (arith, filter-insert_by k x ys)

  pub filter-sort_by :
      (k : ℕ) (xs : List A) → filter (λ a. key a == k) (sort_by xs) ≡ filter (λ a. key a == k) xs
  unfolding sort_by
  filter-sort_by k [] = refl
  filter-sort_by k (x ∷ xs) = ground (arith, filter-insert_by k x (sort_by xs), filter-sort_by k xs)

  any-insert_by : (q : A → Bool) (x : A) (xs : List A) → any q (insert_by x xs) ≡ (q x || any q xs)
  unfolding insert_by
  any-insert_by q x [] = refl
  any-insert_by q x (y ∷ ys) = ground (arith, any-insert_by q x ys)

  pub any-sort_by : (q : A → Bool) (xs : List A) → any q (sort_by xs) ≡ any q xs
  unfolding sort_by
  any-sort_by q [] = refl
  any-sort_by q (x ∷ xs) = ground (arith, any-insert_by q x (sort_by xs), any-sort_by q xs)

  count_if-insert_by :
      (q : A → Bool) (x : A) (xs : List A) → count_if q (insert_by x xs) ≡ count_if q (x ∷ xs)
  unfolding insert_by
  count_if-insert_by q x [] = refl
  count_if-insert_by q x (y ∷ ys) = ground (arith, count_if-insert_by q x ys)

  pub count_if-sort_by : (q : A → Bool) (xs : List A) → count_if q (sort_by xs) ≡ count_if q xs
  unfolding sort_by
  count_if-sort_by q [] = refl
  count_if-sort_by q (x ∷ xs) =
      ground (arith, count_if-insert_by q x (sort_by xs), count_if-sort_by q xs)

  length-insert_by : (x : A) (xs : List A) → length (insert_by x xs) ≡ suc (length xs)
  unfolding insert_by
  length-insert_by x [] = refl
  length-insert_by x (y ∷ ys) = ground (arith, length-insert_by x ys)

  pub length-sort_by : (xs : List A) → length (sort_by xs) ≡ length xs
  unfolding sort_by
  length-sort_by [] = refl
  length-sort_by (x ∷ xs) = ground (arith, length-insert_by x (sort_by xs), length-sort_by xs)
