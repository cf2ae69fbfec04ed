-- ===== src/Prelude/Lists.antt =====
-- Lists with Boolean tests, and lists measured by the native numbers.
use Prim.Native.Nat.{ℕ, zero, suc, ◌+◌, ◌≤◌, max}
use mathlib.Core.Path.{◌≡◌, refl, ap}
use mathlib.Core.Logic.{◌⊎◌, inl, inr}
use mathlib.Core.Bool.{Bool, true, false, not, ◌&&◌, ◌||◌}
use mathlib.Core.List.{List, [], ◌∷◌, ◌++◌, map}
use mathlib.Core.Option.{Option, none, some}
use native.Mathlib.Omega.{arith}
use control_gate_backend.Prelude.Tests.{if◌then◌else◌}

module _ {ℓ} {A : Type ℓ} where
  abbrev pub length : List A → ℕ
  length [] = 0
  length (_ ∷ xs) = suc (length xs)

  -- `[x for x in xs if p(x)]`
  abbrev pub filter : (A → Bool) → List A → List A
  filter p [] = []
  filter p (x ∷ xs) = let rest = filter p xs in if p x then x ∷ rest else rest

  -- `any(p(x) for x in xs)`
  abbrev pub any : (A → Bool) → List A → Bool
  any p [] = false
  any p (x ∷ xs) = p x || any p xs

  -- `all(p(x) for x in xs)`
  abbrev pub all : (A → Bool) → List A → Bool
  all p [] = true
  all p (x ∷ xs) = p x && all p xs

  -- The truth value of a list.
  abbrev pub is_cons : List A → Bool
  is_cons [] = false
  is_cons (_ ∷ _) = true

  -- `sum(1 for x in xs if p(x))`
  abbrev pub count_if : (A → Bool) → List A → ℕ
  count_if p [] = 0
  count_if p (x ∷ xs) = let rest = count_if p xs in if p x then suc rest else rest

  abbrev pub get_elem? : List A → ℕ → Option A
  get_elem? [] _ = none
  get_elem? (x ∷ _) zero = some x
  get_elem? (_ ∷ xs) (suc i) = get_elem? xs i

  abbrev pub take : ℕ → List A → List A
  take zero _ = []
  take (suc _) [] = []
  take (suc n) (x ∷ xs) = x ∷ take n xs

  pub length-append : (xs ys : List A) → length (xs ++ ys) ≡ length xs + length ys
  length-append [] ys = omega arith
  length-append (x ∷ xs) ys = omega (arith, length-append xs ys)

  pub length-filter : (p : A → Bool) (xs : List A) → length (filter p xs) ≡ count_if p xs
  length-filter p [] = refl
  length-filter p (x ∷ xs) = ground (arith, length-filter p xs)

  pub count_if-le : (p : A → Bool) (xs : List A) → count_if p xs ≤ length xs
  count_if-le p [] = omega arith
  count_if-le p (x ∷ xs) = ground (arith, count_if-le p xs)

  pub count_if-append :
      (p : A → Bool) (xs ys : List A) → count_if p (xs ++ ys) ≡ count_if p xs + count_if p ys
  count_if-append p [] ys = omega arith
  count_if-append p (x ∷ xs) ys = ground (arith, count_if-append p xs ys)

  -- A filtered list has an element exactly when some element passes the test.
  pub is_cons-filter : (p : A → Bool) (xs : List A) → is_cons (filter p xs) ≡ any p xs
  is_cons-filter p [] = refl
  is_cons-filter p (x ∷ xs) = ground (arith, is_cons-filter p xs)

  pub is_cons-append : (xs ys : List A) → is_cons (xs ++ ys) ≡ (is_cons xs || is_cons ys)
  is_cons-append [] ys = refl
  is_cons-append (x ∷ xs) ys = refl

  -- To split on a computed list and keep the equation.
  pub List-cases : (xs : List A) → (xs ≡ []) ⊎ ((x : A) × (rest : List A) × (xs ≡ x ∷ rest))
  List-cases [] = inl refl
  List-cases (x ∷ rest) = inr (x, rest, refl)

-- `max(xs, default=d)`
abbrev pub max_or : ℕ → List ℕ → ℕ
max_or d [] = d
max_or d (x ∷ []) = x
max_or d (x ∷ y ∷ rest) = max x (max_or d (y ∷ rest))

module _ {ℓ} {A : Type ℓ} where
  pub any-append : (p : A → Bool) (xs ys : List A) → any p (xs ++ ys) ≡ (any p xs || any p ys)
  any-append p [] ys = refl
  any-append p (x ∷ xs) ys = ground (arith, any-append p xs ys)

  pub all-append : (p : A → Bool) (xs ys : List A) → all p (xs ++ ys) ≡ (all p xs && all p ys)
  all-append p [] ys = refl
  all-append p (x ∷ xs) ys = ground (arith, all-append p xs ys)

  pub any-filter : (p q : A → Bool) (xs : List A) → any p (filter q xs) ≡ any (λ x. q x && p x) xs
  any-filter p q [] = refl
  any-filter p q (x ∷ xs) = ground (arith, any-filter p q xs)

  -- `not all(p)` is `any(not p)`.
  pub not-all : (p : A → Bool) (xs : List A) → not (all p xs) ≡ any (λ x. not (p x)) xs
  not-all p [] = refl
  not-all p (x ∷ xs) = ground (arith, not-all p xs)

  pub any_congr : (p q : A → Bool) → ((x : A) → p x ≡ q x) → (xs : List A) → any p xs ≡ any q xs
  any_congr p q h [] = refl
  any_congr p q h (x ∷ xs) = ground (arith, h x, any_congr p q h xs)

-- Every element has a property.
abbrev pub Every {ℓ κ} : {A : Type ℓ} → (A → Type κ) → List A → Type κ
Every P [] = Unit
Every P (x ∷ xs) = P x × Every P xs

module _ {ℓ κ} {A : Type ℓ} (P : A → Type κ) where
  pub Every-append : (xs ys : List A) → Every P xs → Every P ys → Every P (xs ++ ys)
  Every-append [] ys h k = k
  Every-append (x ∷ xs) ys (a, h) k = (a, Every-append xs ys h k)

  pub Every-take : (n : ℕ) (xs : List A) → Every P xs → Every P (take n xs)
  Every-take zero xs h = tt
  Every-take (suc n) [] h = tt
  Every-take (suc n) (x ∷ xs) (a, h) = (a, Every-take n xs h)

  Every-if : (b : Bool) (xs ys : List A) → Every P xs → Every P ys → Every P (if b then xs else ys)
  Every-if true xs ys h k = h
  Every-if false xs ys h k = k

  pub Every-filter : (p : A → Bool) (xs : List A) → Every P xs → Every P (filter p xs)
  Every-filter p [] h = tt
  Every-filter p (x ∷ xs) (a, h) =
      Every-if (p x) (x ∷ filter p xs) (filter p xs) (a, Every-filter p xs h) (Every-filter p xs h)

  pub Every-imp {μ} :
      (Q : A → Type μ) → ((x : A) → P x → Q x) → (xs : List A) → Every P xs → Every Q xs
  Every-imp Q f [] h = tt
  Every-imp Q f (x ∷ xs) (a, h) = (f x a, Every-imp Q f xs h)

pub Every-map {ℓ κ μ} :
    {A : Type ℓ} {B : Type κ} (P : B → Type μ) (f : A → B) (xs : List A)
    → Every (λ x. P (f x)) xs
    → Every P (map f xs)
Every-map P f [] h = tt
Every-map P f (x ∷ xs) (a, h) = (a, Every-map P f xs h)

module _ {ℓ} {A : Type ℓ} where
  pub any-map {κ} :
      {B : Type κ} (p : B → Bool) (f : A → B) (xs : List A)
      → any p (map f xs) ≡ any (λ x. p (f x)) xs
  any-map p f [] = refl
  any-map p f (x ∷ xs) = ground (arith, any-map p f xs)

  pub length-map {κ} : {B : Type κ} (f : A → B) (xs : List A) → length (map f xs) ≡ length xs
  length-map f [] = refl
  length-map f (x ∷ xs) = ap suc (length-map f xs)

  pub length-take : (n : ℕ) (xs : List A) → length (take n xs) ≤ n
  length-take zero xs = omega arith
  length-take (suc n) [] = omega arith
  length-take (suc n) (x ∷ xs) = omega (arith, length-take n xs)

-- `find_one` and `update_one` of a collection: the first document that matches.
module _ {ℓ} {A : Type ℓ} where
  abbrev pub find_one : (A → Bool) → List A → Option A
  find_one p [] = none
  find_one p (x ∷ xs) = let rest = find_one p xs in if p x then some x else rest

  abbrev pub update_one : (A → Bool) → (A → A) → List A → List A
  update_one p f [] = []
  update_one p f (x ∷ xs) = let rest = update_one p f xs in if p x then f x ∷ xs else x ∷ rest

  pub find_one-none : (p : A → Bool) (xs : List A) → find_one p xs ≡ none → any p xs ≡ false
  find_one-none p [] h = refl
  find_one-none p (x ∷ xs) h = ground (arith, find_one-none p xs)

  -- An update that a test does not see.
  pub any-update_one :
      (q p : A → Bool) (f : A → A)
      → ((x : A) → q (f x) ≡ q x)
      → (xs : List A) → any q (update_one p f xs) ≡ any q xs
  any-update_one q p f h [] = refl
  any-update_one q p f h (x ∷ xs) = ground (arith, h x, any-update_one q p f h xs)

  abbrev pub drop : ℕ → List A → List A
  drop zero xs = xs
  drop (suc _) [] = []
  drop (suc n) (_ ∷ xs) = drop n xs

  -- `[x for x in xs if x is not None]`
  abbrev pub keep_some : List (Option A) → List A
  keep_some [] = []
  keep_some (none ∷ xs) = keep_some xs
  keep_some (some x ∷ xs) = x ∷ keep_some xs
