-- ===== src/Pipeline/Forest/Unions.antt =====
-- semantic_engine/pipeline.py: what the unions of `_cluster_by_same_finding` join.
use control_gate_backend.Prelude.{
  ℕ, suc, Bool, true, ◌≡◌, ◌≤◌, ◌<◌, refl, sym, Every, List, [], ◌∷◌, arith, ◌+◌, length, ◌==◌, inl,
  inr, Bool-cases,
}
use control_gate_backend.Pipeline.Forest.{Parents, find, attach, union, union_all}
use control_gate_backend.Pipeline.Forest.Heights.{
  IsForest, find-rep, joined, raised, attach-IsForest, eq_test, same-IsForest,
}

-- A chain of indices, each the same finding as the next.
pub data IsLinked (same : ℕ → ℕ → Bool) : ℕ → ℕ → Type 0 where
  here : (i : ℕ) → IsLinked same i i
  link : (i j : ℕ) → same i j ≡ true → IsLinked same i j
  back : (i j : ℕ) → IsLinked same i j → IsLinked same j i
  chain : (i j k : ℕ) → IsLinked same i j → IsLinked same j k → IsLinked same i k

-- A forest of low trees that hold linked indices only, and which of them they join.
pub record HasTrees (same : ℕ → ℕ → Bool) (bound : ℕ) (p : Parents) : Type 0 where
  pub rep : ℕ → ℕ
  pub height : ℕ → ℕ
  pub forest : IsForest rep height p
  pub is_low : (i : ℕ) → height i ≤ bound
  pub is_linked : (i : ℕ) → IsLinked same i (rep i)

pub same-HasTrees : (same : ℕ → ℕ → Bool) → HasTrees same 0 (λ i. i)
same-HasTrees same = record {
  rep = λ i. i;
  height = λ i. 0;
  forest = same-IsForest;
  is_low = λ i. omega arith;
  is_linked = λ i. IsLinked.here i;
}

module _ (same : ℕ → ℕ → Bool) where
  -- A union joins the trees of its pair, and takes nothing apart.
  record IsJoin {b c : ℕ} {p q : Parents} (s : HasTrees same b p) (t : HasTrees same c q) (i j : ℕ)
      : Type 0 where
    meets : t.rep i ≡ t.rep j
    keeps : (x y : ℕ) → s.rep x ≡ s.rep y → t.rep x ≡ t.rep y

  attach-trees :
      (b : ℕ) (p q : Parents) (s : HasTrees same b p) (i j : ℕ)
      → IsForest s.rep s.height q
      → IsLinked same i j
      → (t : HasTrees same (suc b) (attach (s.rep i) (s.rep j) q)) × IsJoin s t i j
  attach-trees b p q s i j f near = elim (Bool-cases (s.rep i == s.rep j)) [
    | inl e ↦ (
      record {
        rep = s.rep;
        height = s.height;
        forest = rw e f;
        is_low = λ x. let low = s.is_low x in omega arith;
        is_linked = s.is_linked;
      },
      record { meets = eq_test (s.rep i) (s.rep j) e; keeps = λ x y h. h },
    )
    | inr e ↦ (
      record {
        rep = joined (s.rep i) (s.rep j) s.rep;
        height = raised (s.rep i) s.rep s.height;
        forest = rw e (
            attach-IsForest s.rep s.height q (s.rep i) (s.rep j) f (f.rep_root i) (f.rep_root j) e);
        is_low = λ x. ground (arith, s.is_low x);
        is_linked = λ x. elim (Bool-cases (s.rep x == s.rep i)) [
          | inl r ↦
              let up : IsLinked same x (s.rep i) =
                rw (sym (eq_test (s.rep x) (s.rep i) r)) (s.is_linked x) in
              rw r (
                IsLinked.chain x (s.rep i) (s.rep j) up (
                  IsLinked.chain (s.rep i) i (s.rep j) (IsLinked.back i (s.rep i) (s.is_linked i))
                    (IsLinked.chain i j (s.rep j) near (s.is_linked j))))
          | inr r ↦ rw r (s.is_linked x)
        ];
      },
      record { meets = ground arith; keeps = λ x y h. rw h refl },
    )
  ]

  -- `union`, with more fuel than the trees are high.
  union_trees :
      (fuel b : ℕ) (p : Parents) (s : HasTrees same b p) (i j : ℕ)
      → b < fuel
      → IsLinked same i j
      → (t : HasTrees same (suc b) (union fuel i j p)) × IsJoin s t i j
  unfolding union
  union_trees fuel b p s i j enough near =
      let low_i = s.is_low i in
      let low_j = s.is_low j in
      let (at_i, f) = find-rep s.rep s.height fuel p i s.forest (omega arith) in
      let (at_j, g) = find-rep s.rep s.height fuel (find fuel p i).0 j f (omega arith) in
      rw (at_i, at_j) (attach-trees b p (find fuel (find fuel p i).0 j).0 s i j g near)

  -- Each pair that satisfies the test is in one tree.
  unfoldable pub IsMerged : (ℕ → ℕ) → ℕ × ℕ → Type 0
  IsMerged rep (i, j) = same i j ≡ true → rep i ≡ rep j

  -- With more fuel than there are pairs, the unions put each pair that satisfies the test in one
  -- tree, and every index stays linked to its root.
  pub union_all-trees :
      (fuel b c : ℕ) (pairs : List (ℕ × ℕ)) (p : Parents) (s : HasTrees same b p)
      → b + length pairs ≤ c
      → c < fuel
      → (t : HasTrees same c (union_all fuel same pairs p)) × Every (IsMerged t.rep) pairs
        × ((x y : ℕ) → s.rep x ≡ s.rep y → t.rep x ≡ t.rep y)
  unfolding union_all IsMerged
  union_all-trees fuel b c [] p s room enough = (
    record {
      rep = s.rep;
      height = s.height;
      forest = s.forest;
      is_low = λ x. let low = s.is_low x in omega arith;
      is_linked = s.is_linked;
    },
    tt,
    λ x y h. h,
  )
  union_all-trees fuel b c ((i, j) ∷ pairs) p s room enough = elim (Bool-cases (same i j)) [
    | inl e ↦
        let (s', k) = union_trees fuel b p s i j (omega arith) (IsLinked.link i j e) in
        let (t, all_in, kept) =
          union_all-trees fuel (suc b) c pairs (union fuel i j p) s' (omega arith) enough in
        rw e (t, (λ h. kept i j k.meets, all_in), λ x y h. kept x y (k.keeps x y h))
    | inr e ↦
        let (t, all_in, kept) = union_all-trees fuel b c pairs p s (omega arith) enough in
        rw e (t, (λ h. absurd cc, all_in), kept)
  ]
