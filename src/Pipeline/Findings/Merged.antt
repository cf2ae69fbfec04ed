-- ===== src/Pipeline/Findings/Merged.antt =====
-- `_dedupe_vulnerabilities` of semantic_engine/pipeline.py: what is left of a cluster of findings.
use control_gate_backend.Prelude.{
  String, Bool, true, false, ◌≡◌, ◌<◌, ◌||◌, List, [], ◌∷◌, ◌++◌, arith, str_eq, eq_iff, any,
  any-append, Every, Every-imp, is_cons, Bool-cases, inl, inr, refl, count_if,
}
use control_gate_backend.Prelude.Dict.{contains}
use control_gate_backend.Pipeline.Cluster.{Place, same_finding, cluster_by_same_finding}
use control_gate_backend.Pipeline.Cluster.Groups.{count_all}
use control_gate_backend.Pipeline.Cluster.Correct.{AreApart, cluster_by_same_finding-IsClustering}
use control_gate_backend.Pipeline.Findings.{
  ClassifiedVulnerability, place_of, rank, below, best, add_sorted, sorted_union, other_rule_ids,
  merged_with, merge_all, dedupe_vulnerabilities,
}

-- The finding reports the rule, as its own or as one that contributed.
abbrev pub names : String → ClassifiedVulnerability → Bool
names id v = str_eq v.rule_id id || contains v.contributing_rule_ids id

contains-add_sorted :
    (k t : String) (us : List String) → contains (add_sorted t us) k ≡ (str_eq t k || contains us k)
unfolding add_sorted
contains-add_sorted k t [] = refl
contains-add_sorted k t (u ∷ us) = ground (arith, eq_iff t u, contains-add_sorted k t us)

contains-sorted_union :
    (k : String) (ts us : List String)
    → contains (sorted_union ts us) k ≡ (contains ts k || contains us k)
unfolding sorted_union
contains-sorted_union k [] us = refl
contains-sorted_union k (t ∷ ts) us =
    ground (arith, contains-add_sorted k t (sorted_union ts us), contains-sorted_union k ts us)

-- The rule of each member is the primary's or one of the others.
others-contains :
    (k id : String) (cluster : List ClassifiedVulnerability)
    → any (λ v. str_eq v.rule_id k) cluster ≡ true
    → (str_eq id k || contains (other_rule_ids id cluster) k) ≡ true
others-contains k id [] h = absurd cc
others-contains k id (v ∷ vs) h =
    ground (arith, others-contains k id vs, eq_iff v.rule_id id, eq_iff v.rule_id k, eq_iff id k)

is_cons-contains : (ts : List String) (k : String) → contains ts k ≡ true → is_cons ts ≡ true
is_cons-contains [] k h = cc
is_cons-contains (t ∷ ts) k h = refl

names-merged_with :
    (id : String) (primary : ClassifiedVulnerability) (cluster : List ClassifiedVulnerability)
    → any (λ v. str_eq v.rule_id id) cluster ≡ true
    → names id (merged_with primary cluster) ≡ true
unfolding merged_with
names-merged_with id primary cluster h =
    let others = other_rule_ids primary.rule_id cluster in
    let covered = others-contains id primary.rule_id cluster h in
    elim (Bool-cases (is_cons others)) [
      | inl e ↦ ground (
        arith,
        contains-sorted_union id (primary.contributing_rule_ids ++ others) [],
        any-append (λ j. str_eq j id) primary.contributing_rule_ids others,
      )
      | inr e ↦ ground (arith, is_cons-contains others id)
    ]

any_of_count :
    (q : ClassifiedVulnerability → Bool) (vs : List ClassifiedVulnerability)
    → 0 < count_if q vs
    → any q vs ≡ true
any_of_count q [] h = absurd (omega arith)
any_of_count q (v ∷ vs) h = ground (arith, any_of_count q vs)

count_of_any :
    (q : ClassifiedVulnerability → Bool) (vs : List ClassifiedVulnerability)
    → any q vs ≡ true
    → 0 < count_if q vs
count_of_any q [] h = absurd cc
count_of_any q (v ∷ vs) h = ground (arith, count_of_any q vs)

merge_all-names :
    (id : String) (clusters : List (List ClassifiedVulnerability))
    → 0 < count_all (λ v. str_eq v.rule_id id) clusters
    → any (names id) (merge_all clusters) ≡ true
unfolding merge_all
merge_all-names id [] h = absurd (omega arith)
merge_all-names id ([] ∷ clusters) h = merge_all-names id clusters (omega arith)
merge_all-names id ((v ∷ vs) ∷ clusters) h =
    let q : ClassifiedVulnerability → Bool = λ w. str_eq w.rule_id id in
    elim (Bool-cases (any q (v ∷ vs))) [
      | inl e ↦ rw (names-merged_with id (best v vs) (v ∷ vs) e) refl
      | inr e ↦ ground (arith, merge_all-names id clusters, any_of_count q (v ∷ vs))
    ]

-- Each rule with a finding among the inputs is named by a finding that is left.
pub dedupe_vulnerabilities-names :
    (id : String) (vulnerabilities : List ClassifiedVulnerability)
    → any (λ v. str_eq v.rule_id id) vulnerabilities ≡ true
    → any (names id) (dedupe_vulnerabilities vulnerabilities) ≡ true
unfolding dedupe_vulnerabilities
dedupe_vulnerabilities-names id vs h =
    let q : ClassifiedVulnerability → Bool = λ w. str_eq w.rule_id id in
    let clustering = cluster_by_same_finding-IsClustering place_of vs in
    merge_all-names id (cluster_by_same_finding place_of vs)
      (rw (clustering.complete q) (count_of_any q vs h))

place-merged_with :
    (primary : ClassifiedVulnerability) (cluster : List ClassifiedVulnerability)
    → place_of (merged_with primary cluster) ≡ place_of primary
unfolding merged_with
place-merged_with primary cluster =
    elim (Bool-cases (is_cons (other_rule_ids primary.rule_id cluster))) [
      | inl e ↦ rw e refl
      | inr e ↦ rw e refl
    ]

Every-best :
    (P : ClassifiedVulnerability → Type 0) (x : ClassifiedVulnerability)
    (xs : List ClassifiedVulnerability)
    → Every P (x ∷ xs)
    → P (best x xs)
unfolding best
Every-best P x [] (h, t) = h
Every-best P x (y ∷ ys) (h, (k, t)) = elim (Bool-cases (below (rank x) (rank y))) [
  | inl e ↦ rw e (Every-best P y ys (k, t))
  | inr e ↦ rw e (Every-best P x ys (h, t))
]

-- No two of the findings are the same.
abbrev pub AreDistinct : List ClassifiedVulnerability → Type 0
AreDistinct [] = Unit
AreDistinct (v ∷ vs) =
    Every (λ w. same_finding (place_of v) (place_of w) ≡ false) vs × AreDistinct vs

apart_from :
    (p : Place) (clusters : List (List ClassifiedVulnerability))
    → Every (λ d. Every (λ y. same_finding p (place_of y) ≡ false) d) clusters
    → Every (λ w. same_finding p (place_of w) ≡ false) (merge_all clusters)
unfolding merge_all
apart_from p [] h = tt
apart_from p ([] ∷ clusters) (own, h) = apart_from p clusters h
apart_from p ((v ∷ vs) ∷ clusters) (own, h) = (
  rw (place-merged_with (best v vs) (v ∷ vs))
      (Every-best (λ y. same_finding p (place_of y) ≡ false) v vs own),
  apart_from p clusters h,
)

merge_all-AreDistinct :
    (clusters : List (List ClassifiedVulnerability))
    → AreApart place_of clusters
    → AreDistinct (merge_all clusters)
unfolding merge_all
merge_all-AreDistinct [] h = tt
merge_all-AreDistinct ([] ∷ clusters) (own, h) = merge_all-AreDistinct clusters h
merge_all-AreDistinct ((v ∷ vs) ∷ clusters) (own, h) = (
  rw (place-merged_with (best v vs) (v ∷ vs)) (
      Every-best
        (λ x. Every (λ w. same_finding (place_of x) (place_of w) ≡ false) (merge_all clusters)) v vs
        (Every-imp
          (λ x. Every (λ d. Every (λ y. same_finding (place_of x) (place_of y) ≡ false) d) clusters)
          (λ x. Every (λ w. same_finding (place_of x) (place_of w) ≡ false) (merge_all clusters))
          (λ x. apart_from (place_of x) clusters) (v ∷ vs) own)),
  merge_all-AreDistinct clusters h,
)

-- No two of the findings that are left are the same finding.
pub dedupe_vulnerabilities-AreDistinct :
    (vulnerabilities : List ClassifiedVulnerability)
    → AreDistinct (dedupe_vulnerabilities vulnerabilities)
unfolding dedupe_vulnerabilities
dedupe_vulnerabilities-AreDistinct vs =
    let clustering = cluster_by_same_finding-IsClustering place_of vs in
    merge_all-AreDistinct (cluster_by_same_finding place_of vs) clustering.apart
