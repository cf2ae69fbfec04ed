-- ===== src/Pipeline/Cluster/Groups.antt =====
-- `_cluster_by_same_finding` of semantic_engine/pipeline.py: the loop that fills its clusters.
use control_gate_backend.Prelude.{
  ℕ, suc, Bool, false, ◌≡◌, ◌<◌, ◌+◌, refl, sym, ◌||◌, some, List, [], ◌∷◌, map, ◌==◌, get_elem?,
  any, arith, inl, inr, Bool-cases, Every, Every-append, count_if, count_if-append,
}
use control_gate_backend.Pipeline.Forest.{Parents, find}
use control_gate_backend.Pipeline.Forest.Heights.{IsForest, find-rep, eq_test}
use control_gate_backend.Pipeline.Cluster.{add_item, collect}

module _ {A : Type 0} where
  abbrev pub has_key : ℕ → List (ℕ × List A) → Bool
  has_key r clusters = any (λ (e : ℕ × List A). e.0 == r) clusters

  -- Every root has one cluster.
  abbrev pub IsKeyed : List (ℕ × List A) → Type 0
  IsKeyed [] = Unit
  IsKeyed ((k, xs) ∷ rest) = (has_key k rest ≡ false) × IsKeyed rest

  -- how many of the items in the clusters pass a test
  abbrev pub count_all : (A → Bool) → List (List A) → ℕ
  count_all q [] = 0
  count_all q (c ∷ cs) = count_if q c + count_all q cs

  abbrev pub groups : List (ℕ × List A) → List (List A)
  groups clusters = map (λ (e : ℕ × List A). e.1) clusters

  has_key-add_item :
      (r k : ℕ) (x : A) (cs : List (ℕ × List A))
      → has_key k (add_item r x cs) ≡ (has_key k cs || r == k)
  unfolding add_item
  has_key-add_item r k x [] = ground arith
  has_key-add_item r k x ((j, ys) ∷ cs) = ground (arith, has_key-add_item r k x cs)

  add_item-IsKeyed :
      (r : ℕ) (x : A) (cs : List (ℕ × List A)) → IsKeyed cs → IsKeyed (add_item r x cs)
  unfolding add_item
  add_item-IsKeyed r x [] h = (refl, tt)
  add_item-IsKeyed r x ((k, ys) ∷ cs) (fresh, h) =
      ground (arith, has_key-add_item r k x cs, add_item-IsKeyed r x cs h)

  add_item-count :
      (q : A → Bool) (r : ℕ) (x : A) (cs : List (ℕ × List A))
      → count_all q (groups (add_item r x cs)) ≡ count_all q (groups cs) + count_if q (x ∷ [])
  unfolding add_item
  add_item-count q r x [] = omega arith
  add_item-count q r x ((k, ys) ∷ cs) =
      ground (arith, add_item-count q r x cs, count_if-append q ys (x ∷ []))

  pub collect-count :
      (q : A → Bool) (fuel : ℕ) (p : Parents) (idx : ℕ) (xs : List A) (cs : List (ℕ × List A))
      → count_all q (groups (collect fuel p idx xs cs)) ≡ count_all q (groups cs) + count_if q xs
  unfolding collect
  collect-count q fuel p idx [] cs = omega arith
  collect-count q fuel p idx (x ∷ xs) cs =
      let (p', r) = find fuel p idx in
      let later = collect-count q fuel p' (suc idx) xs (add_item r x cs) in
      let now = add_item-count q r x cs in ground (arith, later, now)

  module _ (items : List A) (rep : ℕ → ℕ) where
    -- The item stands in the list at an index of the tree.
    unfoldable pub IsFrom : ℕ → A → Type 0
    IsFrom r x = (i : ℕ) × (get_elem? items i ≡ some x) × (rep i ≡ r)

    unfoldable pub IsGroup : ℕ × List A → Type 0
    unfolding IsFrom
    IsGroup (r, xs) = Every (IsFrom r) xs

    add_item-IsGroup :
        (r : ℕ) (x : A) (cs : List (ℕ × List A))
        → IsFrom r x
        → Every IsGroup cs
        → Every IsGroup (add_item r x cs)
    unfolding add_item IsGroup
    add_item-IsGroup r x [] from h = ((from, tt), tt)
    add_item-IsGroup r x ((k, ys) ∷ cs) from (own, h) = elim (Bool-cases (k == r)) [
      | inl e ↦
          let here : IsFrom k x = rw (eq_test k r e) from in
          rw e (Every-append (IsFrom k) ys (x ∷ []) own (here, tt), h)
      | inr e ↦ rw e (own, add_item-IsGroup r x cs from h)
    ]

    -- Each cluster holds the items of one tree, and each tree has one cluster.
    pub collect-groups :
        (height : ℕ → ℕ) (fuel : ℕ) (p : Parents) (idx : ℕ) (xs : List A) (cs : List (ℕ × List A))
        → IsForest rep height p
        → ((i : ℕ) → height i < fuel)
        → ((i k : ℕ) (x : A) → i ≡ idx + k → get_elem? xs k ≡ some x → get_elem? items i ≡ some x)
        → Every IsGroup cs
        → IsKeyed cs
        → Every IsGroup (collect fuel p idx xs cs) × IsKeyed (collect fuel p idx xs cs)
    unfolding collect IsFrom
    collect-groups height fuel p idx [] cs f low at_items h keyed = (h, keyed)
    collect-groups height fuel p idx (x ∷ xs) cs f low at_items h keyed =
        let (found, g) = find-rep rep height fuel p idx f (low idx) in
        let p' = (find fuel p idx).0 in
        let r = (find fuel p idx).1 in
        let from : IsFrom r x = (idx, at_items idx 0 x (omega arith) refl, sym found) in
        collect-groups height fuel p' (suc idx) xs (add_item r x cs) g low
          (λ i k y e at_k. at_items i (suc k) y (omega arith) at_k) (add_item-IsGroup r x cs from h)
          (add_item-IsKeyed r x cs keyed)
