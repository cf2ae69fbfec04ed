-- ===== src/Pipeline/Cluster/Pairs.antt =====
-- `_cluster_by_same_finding` of semantic_engine/pipeline.py: the pairs that its buckets compare.
use control_gate_backend.Prelude.{
  ℕ, zero, suc, String, Bool, true, false, ◌≡◌, ◌+◌, refl, sym, ap, ◌↔◌, ◌&&◌, ◌||◌, Option, none,
  some, List, [], ◌∷◌, ◌++◌, map, ◌==◌, if◌then◌else◌, get_elem?, any, any-append, eq_iff, arith,
}
use control_gate_backend.Prelude.Texts.{same_text_comm}
use control_gate_backend.Pipeline.Cluster.{
  Place, file_of, same_file, same_finding, normalize_sink, Buckets, add_index, pairs_of,
  bucket_pairs, bucket_items, pairs_in,
}

same_file_iff : (f g : Option String) → (same_file f g ≡ true) ↔ (f ≡ g)
same_file_iff none none = (λ h. refl, λ h. refl)
same_file_iff none (some g) = (λ h. absurd cc, λ h. absurd cc)
same_file_iff (some f) none = (λ h. absurd cc, λ h. absurd cc)
same_file_iff (some f) (some g) = (λ h. ap some ((eq_iff f g).0 h), λ h. (eq_iff f g).1 cc)

-- The pair is compared, in one order or the other.
abbrev pub is_pair : ℕ → ℕ → ℕ × ℕ → Bool
is_pair i j (a, b) = (a == i && b == j) || (a == j && b == i)

abbrev pub holds : ℕ → List ℕ → Bool
holds i is = any (λ a. a == i) is

pair_with :
    (x i j : ℕ) (is : List ℕ)
    → (x == i) ≡ true
    → holds j is ≡ true
    → any (is_pair i j) (map (λ y. (x, y)) is) ≡ true
pair_with x i j [] e h = cc
pair_with x i j (y ∷ is) e h = ground (arith, pair_with x i j is e)

pair_with' :
    (x i j : ℕ) (is : List ℕ)
    → (x == j) ≡ true
    → holds i is ≡ true
    → any (is_pair i j) (map (λ y. (x, y)) is) ≡ true
pair_with' x i j [] e h = cc
pair_with' x i j (y ∷ is) e h = ground (arith, pair_with' x i j is e)

pairs_of-any :
    (i j : ℕ) (is : List ℕ)
    → (i == j) ≡ false
    → holds i is ≡ true
    → holds j is ≡ true
    → any (is_pair i j) (pairs_of is) ≡ true
unfolding pairs_of
pairs_of-any i j [] d h k = cc
pairs_of-any i j (x ∷ is) d h k = ground (
  arith,
  any-append (is_pair i j) (map (λ y. (x, y)) is) (pairs_of is),
  pair_with x i j is,
  pair_with' x i j is,
  pairs_of-any i j is d,
)

-- the first bucket of a file
abbrev bucket_of : Option String → Buckets → List ℕ
bucket_of f [] = []
bucket_of f ((g, is) ∷ rest) = if same_file g f then is else bucket_of f rest

bucket_of-add_index :
    (f g : Option String) (i : ℕ) (bs : Buckets)
    → bucket_of f (add_index g i bs)
      ≡ (if same_file g f then bucket_of f bs ++ i ∷ [] else bucket_of f bs)
unfolding add_index
bucket_of-add_index f g i [] = refl
bucket_of-add_index f g i ((h, is) ∷ rest) =
    ground (
      arith,
      same_file_iff h g,
      same_file_iff h f,
      same_file_iff g f,
      bucket_of-add_index f g i rest,
    )

bucket_pairs-any :
    (i j : ℕ) (f : Option String) (bs : Buckets)
    → (i == j) ≡ false
    → holds i (bucket_of f bs) ≡ true
    → holds j (bucket_of f bs) ≡ true
    → any (is_pair i j) (bucket_pairs bs) ≡ true
unfolding bucket_pairs
bucket_pairs-any i j f [] d h k = cc
bucket_pairs-any i j f ((g, is) ∷ rest) d h k = ground (
  arith,
  any-append (is_pair i j) (pairs_of is) (bucket_pairs rest),
  pairs_of-any i j is,
  bucket_pairs-any i j f rest,
)

module _ {A : Type 0} (place : A → Place) where
  bucket_items-keeps :
      (idx i : ℕ) (f : Option String) (xs : List A) (bs : Buckets)
      → holds i (bucket_of f bs) ≡ true
      → holds i (bucket_of f (bucket_items place idx xs bs)) ≡ true
  unfolding bucket_items
  bucket_items-keeps idx i f [] bs h = h
  bucket_items-keeps idx i f (x ∷ xs) bs h =
      bucket_items-keeps (suc idx) i f xs (add_index (file_of (place x)) idx bs) (
        ground (
          arith,
          bucket_of-add_index f (file_of (place x)) idx bs,
          any-append (λ a. a == i) (bucket_of f bs) (idx ∷ []),
        ))

  -- The bucket of an item's file holds its index.
  bucket_items-holds :
      (idx i k : ℕ) (x : A) (xs : List A) (bs : Buckets)
      → i ≡ idx + k
      → get_elem? xs k ≡ some x
      → holds i (bucket_of (file_of (place x)) (bucket_items place idx xs bs)) ≡ true
  unfolding bucket_items
  bucket_items-holds idx i k x [] bs e h = absurd cc
  bucket_items-holds idx i zero x (y ∷ xs) bs e h =
      bucket_items-keeps (suc idx) i (file_of (place x)) xs (add_index (file_of (place y)) idx bs) (
        ground (
          arith,
          bucket_of-add_index (file_of (place x)) (file_of (place y)) idx bs,
          any-append (λ a. a == i) (bucket_of (file_of (place x)) bs) (idx ∷ []),
          same_file_iff (file_of (place y)) (file_of (place x)),
        ))
  bucket_items-holds idx i (suc k) x (y ∷ xs) bs e h =
      bucket_items-holds (suc idx) i k x xs (add_index (file_of (place y)) idx bs) (omega arith) h

  pub same_finding_comm : (a b : Place) → same_finding a b ≡ same_finding b a
  unfolding same_finding
  same_finding_comm a b = ground (
    arith,
    same_file_iff (file_of a) (file_of b),
    same_file_iff (file_of b) (file_of a),
    same_text_comm (normalize_sink a.sink_label) (normalize_sink b.sink_label),
  )

  same_finding-file : (a b : Place) → same_finding a b ≡ true → file_of a ≡ file_of b
  unfolding same_finding
  same_finding-file a b h = ground (arith, same_file_iff (file_of a) (file_of b))

  -- Two items that are the same finding are compared.
  pub pairs_in-any :
      (items : List A) (i j : ℕ) (x y : A)
      → get_elem? items i ≡ some x
      → get_elem? items j ≡ some y
      → (i == j) ≡ false
      → same_finding (place x) (place y) ≡ true
      → any (is_pair i j) (pairs_in place items) ≡ true
  pairs_in-any items i j x y at_i at_j d h =
      bucket_pairs-any i j (file_of (place y)) (bucket_items place 0 items []) d
        (rw (sym (same_finding-file (place x) (place y) h))
          (bucket_items-holds 0 i i x items [] (omega arith) at_i))
        (bucket_items-holds 0 j j y items [] (omega arith) at_j)
