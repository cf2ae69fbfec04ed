-- ===== src/Pipeline/Cluster/Correct.antt =====
-- `_cluster_by_same_finding` of semantic_engine/pipeline.py: what its clusters are.
use control_gate_backend.Prelude.{
  ℕ, suc, Bool, true, false, ◌≡◌, ◌≢◌, refl, sym, ap, ◌∙◌, some, List, [], ◌∷◌, ◌==◌, length,
  get_elem?, any, arith, inl, inr, Bool-cases, Every, Every-imp, Every-map, count_if,
}
use control_gate_backend.Pipeline.Forest.{union_all}
use control_gate_backend.Pipeline.Forest.Heights.{eq_test}
use control_gate_backend.Pipeline.Forest.Unions.{IsLinked, same-HasTrees, IsMerged, union_all-trees}
use control_gate_backend.Pipeline.Cluster.{
  Place, same_finding, same_at, pairs_in, collect, cluster_by_same_finding,
}
use control_gate_backend.Pipeline.Cluster.Pairs.{is_pair, pairs_in-any, same_finding_comm}
use control_gate_backend.Pipeline.Cluster.Groups.{
  groups, IsKeyed, has_key, count_all, collect-count, collect-groups, IsFrom, IsGroup,
}

merged-any :
    (same : ℕ → ℕ → Bool) (rep : ℕ → ℕ) (i j : ℕ) (ps : List (ℕ × ℕ))
    → Every (IsMerged same rep) ps
    → any (is_pair i j) ps ≡ true
    → same i j ≡ true
    → same j i ≡ true
    → rep i ≡ rep j
unfolding IsMerged
merged-any same rep i j [] all_in h k l = absurd cc
merged-any same rep i j ((a, b) ∷ ps) (own, all_in) h k l =
    ground (arith, merged-any same rep i j ps all_in)

module _ {A : Type 0} (place : A → Place) where
  -- No item of one cluster is the same finding as an item of a later one.
  abbrev pub AreApart : List (List A) → Type 0
  AreApart [] = Unit
  AreApart (c ∷ cs) =
      Every (λ x. Every (λ d. Every (λ y. same_finding (place x) (place y) ≡ false) d) cs) c
      × AreApart cs

  -- Two items of the list that a chain of same findings links.
  abbrev pub AreLinked : List A → A → A → Type 0
  AreLinked items x y =
      (i : ℕ) × (j : ℕ) × (get_elem? items i ≡ some x)
      × (get_elem? items j ≡ some y)
      × IsLinked (same_at place items) i j

  abbrev pub IsChained : List A → List A → Type 0
  IsChained items c = Every (λ x. Every (λ y. AreLinked items x y) c) c

  pub record IsClustering (items : List A) (clusters : List (List A)) : Type 0 where
    pub complete : (q : A → Bool) → count_all q clusters ≡ count_if q items
    pub apart : AreApart clusters
    pub chained : Every (IsChained items) clusters

  module _ (items : List A) (rep : ℕ → ℕ) where
    differ :
        (r s : ℕ) (x y : A)
        → Every (IsMerged (same_at place items) rep) (pairs_in place items)
        → r ≢ s
        → IsFrom items rep r x
        → IsFrom items rep s y
        → same_finding (place x) (place y) ≡ false
    unfolding IsFrom
    differ r s x y all_in d (i, at_i, rep_i) (j, at_j, rep_j) =
        let one = same_at place items in
        let fwd : one i j ≡ same_finding (place x) (place y) = rw (at_i, at_j) refl in
        let bwd : one j i ≡ same_finding (place x) (place y) =
          rw (at_i, at_j) (same_finding_comm place (place y) (place x)) in
        elim (Bool-cases (same_finding (place x) (place y))) [
          | inr e ↦ e
          | inl e ↦ elim (Bool-cases (i == j)) [
            | inl f ↦ absurd (d (sym rep_i ∙ ap rep (eq_test i j f) ∙ rep_j))
            | inr f ↦
                let near =
                  merged-any one rep i j (pairs_in place items) all_in
                    (pairs_in-any place items i j x y at_i at_j f e) (fwd ∙ e) (bwd ∙ e) in
                absurd (d (sym rep_i ∙ near ∙ rep_j))
          ]
        ]

    differ_all :
        (r : ℕ) (x : A) (es : List (ℕ × List A))
        → Every (IsMerged (same_at place items) rep) (pairs_in place items)
        → has_key r es ≡ false
        → IsFrom items rep r x
        → Every (IsGroup items rep) es
        → Every (λ d. Every (λ y. same_finding (place x) (place y) ≡ false) d) (groups es)
    unfolding IsGroup
    differ_all r x [] all_in fresh from h = tt
    differ_all r x ((k, ys) ∷ es) all_in fresh from (own, h) = (
      Every-imp (IsFrom items rep k) (λ y. same_finding (place x) (place y) ≡ false)
          (λ y from_y. differ r k x y all_in (ground arith) from from_y) ys own,
      differ_all r x es all_in (ground arith) from h,
    )

    groups-AreApart :
        (es : List (ℕ × List A))
        → Every (IsMerged (same_at place items) rep) (pairs_in place items)
        → Every (IsGroup items rep) es
        → IsKeyed es
        → AreApart (groups es)
    unfolding IsGroup
    groups-AreApart [] all_in h keyed = tt
    groups-AreApart ((r, xs) ∷ es) all_in (own, h) (fresh, keyed) = (
      Every-imp (IsFrom items rep r)
          (λ x. Every (λ d. Every (λ y. same_finding (place x) (place y) ≡ false) d) (groups es))
          (λ x from. differ_all r x es all_in fresh from h) xs own,
      groups-AreApart es all_in h keyed,
    )

    group-IsChained :
        (r : ℕ) (xs : List A)
        → ((i : ℕ) → IsLinked (same_at place items) i (rep i))
        → IsGroup items rep (r, xs)
        → IsChained items xs
    unfolding IsGroup IsFrom
    group-IsChained r xs linked h =
        Every-imp (IsFrom items rep r) (λ x. Every (λ y. AreLinked items x y) xs)
          (λ x (i, at_i, rep_i).
            Every-imp (IsFrom items rep r) (AreLinked items x)
              (λ y (j, at_j, rep_j).
                let up = rw rep_i at (linked i) in
                let down = IsLinked.back j r (rw rep_j at (linked j)) in
                (i, j, at_i, at_j, IsLinked.chain i r j up down))
              xs h)
          xs h

  -- The clusters hold each item once; an item of one is never the same finding as an item of another; and any two items of one are linked by a chain of same findings.
  pub cluster_by_same_finding-IsClustering :
      (items : List A) → IsClustering items (cluster_by_same_finding place items)
  unfolding cluster_by_same_finding
  cluster_by_same_finding-IsClustering items =
      let same = same_at place items in
      let pairs = pairs_in place items in
      let fuel = suc (length pairs) in
      let (t, all_in, kept) =
        union_all-trees same fuel 0 (length pairs) pairs (λ i. i) (same-HasTrees same) (omega arith)
          (omega arith) in
      let parent = union_all fuel same pairs (λ i. i) in
      let (h, keyed) =
        collect-groups items t.rep t.height fuel parent 0 items [] t.forest
          (λ i. let low = t.is_low i in omega arith) (λ i k x e at_k. ground arith) tt tt in
      let es = collect fuel parent 0 items [] in
      record {
        complete = λ q. let counted = collect-count q fuel parent 0 items [] in omega arith;
        apart = groups-AreApart items t.rep es all_in h keyed;
        chained =
            Every-map (IsChained items) (λ (e : ℕ × List A). e.1) es
              (Every-imp (IsGroup items t.rep) (λ e. IsChained items e.1)
                (λ e g. group-IsChained items t.rep e.0 e.1 t.is_linked g) es h);
      }
