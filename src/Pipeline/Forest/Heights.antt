-- ===== src/Pipeline/Forest/Heights.antt =====
-- semantic_engine/pipeline.py: the forest of `_cluster_by_same_finding`. Each index has a
-- representative, the root above it, and a height that falls with every step to a parent.
use control_gate_backend.Prelude.{
  ℕ, zero, suc, true, false, ◌≡◌, ◌≢◌, ◌<◌, refl, sym, ◌∙◌, ap, inl, inr, arith, ◌==◌,
  if◌then◌else◌, Bool-cases,
}
use control_gate_backend.Pipeline.Forest.{Parents, set_parent, find}

pub record IsForest (rep height : ℕ → ℕ) (p : Parents) : Type 0 where
  pub parent_rep : (i : ℕ) → rep (p i) ≡ rep i
  pub rep_root : (i : ℕ) → p (rep i) ≡ rep i
  pub root_rep : (i : ℕ) → p i ≡ i → rep i ≡ i
  pub root_low : (i : ℕ) → p i ≡ i → height i ≡ 0
  pub climbs : (i : ℕ) → p i ≢ i → height (p i) < height i

pub eq_test : (a b : ℕ) → (a == b) ≡ true → a ≡ b
eq_test a b h = ground arith

pub ne_test : (a b : ℕ) → (a == b) ≡ false → a ≢ b
ne_test a b h = ground arith

module _ (rep height : ℕ → ℕ) where
  climbs_twice :
      (p : Parents) (i : ℕ) → IsForest rep height p → p i ≢ i → height (p (p i)) < height i
  climbs_twice p i f low =
      let once = f.climbs i low in
      elim (Bool-cases (p (p i) == p i)) [
        | inl e ↦ rw (eq_test (p (p i)) (p i) e) once
        | inr e ↦ let twice = f.climbs (p i) (ne_test (p (p i)) (p i) e) in omega arith
      ]

  -- Halving a path keeps every representative and every height.
  halve-IsForest :
      (p : Parents) (i : ℕ)
      → IsForest rep height p
      → p i ≢ i
      → IsForest rep height (set_parent i (p (p i)) p)
  halve-IsForest p i f low = record {
    parent_rep = λ x. elim (Bool-cases (x == i)) [
      | inl e ↦ rw (e, eq_test x i e) (f.parent_rep (p i) ∙ f.parent_rep i)
      | inr e ↦ rw e (f.parent_rep x)
    ];
    rep_root = λ x. elim (Bool-cases (rep x == i)) [
      | inl e ↦
          let same : rep x ≡ i = eq_test (rep x) i e in absurd (low (rw same at (f.rep_root x)))
      | inr e ↦ rw e (f.rep_root x)
    ];
    root_rep = λ x h. elim (Bool-cases (x == i)) [
      | inl e ↦
          let same = eq_test x i e in
          let loops : p (p i) ≡ i = rw (e, same) at h in
          let higher = climbs_twice p i f low in let level = ap height loops in absurd (omega arith)
      | inr e ↦ f.root_rep x (rw e at h)
    ];
    root_low = λ x h. elim (Bool-cases (x == i)) [
      | inl e ↦
          let same = eq_test x i e in
          let loops : p (p i) ≡ i = rw (e, same) at h in
          let higher = climbs_twice p i f low in let level = ap height loops in absurd (omega arith)
      | inr e ↦ f.root_low x (rw e at h)
    ];
    climbs = λ x h. elim (Bool-cases (x == i)) [
      | inl e ↦ rw (e, eq_test x i e) (climbs_twice p i f low)
      | inr e ↦ rw e (f.climbs x (rw e at h))
    ];
  }

  -- With more fuel than the height of the index, `find` returns its representative, and
  -- the forest keeps its representatives and heights.
  pub find-rep :
      (fuel : ℕ) (p : Parents) (i : ℕ)
      → IsForest rep height p
      → height i < fuel
      → ((find fuel p i).1 ≡ rep i) × IsForest rep height (find fuel p i).0
  unfolding find
  find-rep zero p i f h = absurd (omega arith)
  find-rep (suc fuel) p i f h = elim (Bool-cases (p i == i)) [
    | inl e ↦ let top = f.root_rep i (eq_test (p i) i e) in rw (find, e) (sym top, f)
    | inr e ↦
        let low = ne_test (p i) i e in
        let p' = set_parent i (p (p i)) p in
        let own : (i == i) ≡ true = ground arith in
        let kept = halve-IsForest p i f low in
        let up : p' i ≡ p (p i) = rw own refl in
        let near : height (p' i) < fuel =
          rw up (let higher = climbs_twice p i f low in omega arith) in
        let (found, f') = find-rep fuel p' (p' i) kept near in
        let named : rep (p' i) ≡ rep i = rw up (f.parent_rep (p i) ∙ f.parent_rep i) in
        rw (find, e) (found ∙ named, f')
  ]

-- The forest after the root `ri` is hung below the root `rj`.
abbrev pub joined : ℕ → ℕ → (ℕ → ℕ) → ℕ → ℕ
joined ri rj rep x = if rep x == ri then rj else rep x

abbrev pub raised : ℕ → (ℕ → ℕ) → (ℕ → ℕ) → ℕ → ℕ
raised ri rep height x = if rep x == ri then suc (height x) else height x

pub attach-IsForest :
    (rep height : ℕ → ℕ) (p : Parents) (ri rj : ℕ)
    → IsForest rep height p
    → p ri ≡ ri
    → p rj ≡ rj
    → (ri == rj) ≡ false
    → IsForest (joined ri rj rep) (raised ri rep height) (set_parent ri rj p)
attach-IsForest rep height p ri rj f top_i top_j apart =
    let rep_i = f.root_rep ri top_i in
    let rep_j = f.root_rep rj top_j in
    let low_j = f.root_low rj top_j in
    record {
      parent_rep = λ x. ground (arith, f.parent_rep x);
      rep_root = λ x. ground (arith, f.rep_root x);
      root_rep = λ x h. ground (arith, f.root_rep x);
      root_low = λ x h. ground (arith, f.root_low x, f.root_rep x);
      climbs = λ x h. ground (arith, f.climbs x, f.parent_rep x);
    }

-- `parent = list(range(n))`: every index is a root.
pub same-IsForest : IsForest (λ i. i) (λ i. 0) (λ i. i)
same-IsForest = record {
  parent_rep = λ i. refl;
  rep_root = λ i. refl;
  root_rep = λ i h. refl;
  root_low = λ i h. refl;
  climbs = λ i h. absurd (h refl);
}
