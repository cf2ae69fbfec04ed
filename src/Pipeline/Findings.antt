-- ===== src/Pipeline/Findings.antt =====
-- `_filter_discovery_slices` and `_dedupe_vulnerabilities` of semantic_engine/pipeline.py. A confidence
-- is a float and a number here, in units of a ten-thousandth; the fields that the pipeline only copies
-- are left out.
pub mod Merged
pub mod Ranked
use control_gate_backend.Prelude.{
  ℕ, zero, suc, String, Bool, true, false, not, ◌&&◌, ◌||◌, Option, none, some, List, [], ◌∷◌, ◌++◌,
  map, ltb, leb, ◌==◌, if◌then◌else◌, str_eq, length, get_or, is_cons, any, filter,
}
use control_gate_backend.Prelude.Dict.{Dict, lookup, contains}
use control_gate_backend.Prelude.Texts.{
  Text, codes_of, lower, same_text, text_le, is_space, strip_front,
}
use control_gate_backend.Pipeline.Cluster.{Location, Place, same_finding, cluster_by_same_finding}

-- What the pipeline and its classifier read of a slice.
pub record CodeSlice : Type 0 where
  pub slice_id : String
  pub rule_id : String
  pub rule_name : String
  pub pattern_type : String
  pub code_snippet : Text
  pub location : Location
  pub sink_label : Option Text
  pub path_nodes : List String
  pub severity : Text
  pub confidence : Text

abbrev pub slice_place : CodeSlice → Place
slice_place s = record { location = s.location; sink_label = s.sink_label }

-- `query_slices_by_rule.get(s.rule_id, [])`
abbrev slices_of_rule : String → List CodeSlice → List CodeSlice
slices_of_rule id slices = filter (λ (q : CodeSlice). str_eq q.rule_id id) slices

-- `_filter_discovery_slices`
unfoldable pub filter_discovery_slices : List CodeSlice → List CodeSlice → List CodeSlice
unfolding same_finding
filter_discovery_slices discovery_slices query_slices =
    filter
      (λ s. not (
        any (λ q. same_finding (slice_place s) (slice_place q))
          (slices_of_rule s.rule_id query_slices)))
      discovery_slices

pub data Classification : Type 0 where
  safe vulnerable likely_vulnerable unknown : Classification

-- What the pipeline reads of a classified vulnerability.
pub record ClassifiedVulnerability : Type 0 where
  pub slice_id : String
  pub rule_id : String
  pub rule_name : String
  pub code_snippet : Option Text
  pub location : Location
  pub sink_label : Option Text
  pub path_nodes : List String
  pub llm_classification : Classification
  pub final_severity : Option Text
  pub final_confidence : ℕ
  pub contributing_rule_ids : List String

abbrev pub place_of : ClassifiedVulnerability → Place
place_of v = record { location = v.location; sink_label = v.sink_label }

-- `severity_rank.get((severity or "").lower(), 0)`
abbrev severity_rank : Text → ℕ
severity_rank text =
    if same_text text (codes_of "critical")
    then 4
    else if same_text text (codes_of "high")
    then 3
    else if same_text text (codes_of "medium")
    then 2
    else if same_text text (codes_of "low")
    then 1
    else 0

abbrev strength : Classification → ℕ
strength Classification.safe = 0
strength Classification.vulnerable = 2
strength Classification.likely_vulnerable = 1
strength Classification.unknown = 0

-- The tuple of `rank`; a greater length ranks lower.
pub record Rank : Type 0 where
  pub evidence : ℕ
  pub has_snippet : ℕ
  pub conf : ℕ
  pub sev : ℕ
  pub path_len : ℕ

abbrev pub rank : ClassifiedVulnerability → Rank
rank v = record {
  evidence = strength v.llm_classification;
  has_snippet = if is_cons (strip_front is_space (get_or v.code_snippet [])) then 1 else 0;
  conf = v.final_confidence;
  sev = severity_rank (lower (get_or v.final_severity []));
  path_len = length v.path_nodes;
}

-- `a < b` of two tuples
abbrev pub below : Rank → Rank → Bool
below a b =
    ltb a.evidence b.evidence
    || (a.evidence == b.evidence
        && (ltb a.has_snippet b.has_snippet
            || (a.has_snippet == b.has_snippet
                && (ltb a.conf b.conf
                    || (a.conf == b.conf
                        && (ltb a.sev b.sev || (a.sev == b.sev && ltb b.path_len a.path_len)))))))

-- `max(x ∷ xs, key=rank)`, the first of the greatest
unfoldable pub best :
    ClassifiedVulnerability → List ClassifiedVulnerability → ClassifiedVulnerability
best x [] = x
best x (y ∷ ys) = best (if below (rank x) (rank y) then y else x) ys

-- the texts of two sets, sorted
unfoldable pub add_sorted : String → List String → List String
add_sorted t [] = t ∷ []
add_sorted t (u ∷ us) =
    let later = add_sorted t us in
    if str_eq t u
    then u ∷ us
    else if text_le (codes_of t) (codes_of u)
    then t ∷ u ∷ us
    else u ∷ later

unfoldable pub sorted_union : List String → List String → List String
unfolding add_sorted
sorted_union [] others = others
sorted_union (t ∷ ts) others = add_sorted t (sorted_union ts others)

-- `{v.rule_id for v in cluster} - {rule_id}`
abbrev other_rule_ids : String → List ClassifiedVulnerability → List String
other_rule_ids id cluster =
    filter (λ t. not (str_eq t id)) (map (λ (v : ClassifiedVulnerability). v.rule_id) cluster)

abbrev with_rule_ids : List String → ClassifiedVulnerability → ClassifiedVulnerability
with_rule_ids ids v = record {
  slice_id = v.slice_id;
  rule_id = v.rule_id;
  rule_name = v.rule_name;
  code_snippet = v.code_snippet;
  location = v.location;
  sink_label = v.sink_label;
  path_nodes = v.path_nodes;
  llm_classification = v.llm_classification;
  final_severity = v.final_severity;
  final_confidence = v.final_confidence;
  contributing_rule_ids = ids;
}

-- the body of the loop over the clusters
unfoldable pub merged_with :
    ClassifiedVulnerability → List ClassifiedVulnerability → ClassifiedVulnerability
unfolding sorted_union
merged_with primary cluster =
    let others = other_rule_ids primary.rule_id cluster in
    if is_cons others
    then with_rule_ids (sorted_union (primary.contributing_rule_ids ++ others) []) primary
    else primary

-- No cluster is empty.
unfoldable pub merge_all : List (List ClassifiedVulnerability) → List ClassifiedVulnerability
unfolding best merged_with
merge_all [] = []
merge_all ([] ∷ clusters) = merge_all clusters
merge_all ((v ∷ vs) ∷ clusters) = merged_with (best v vs) (v ∷ vs) ∷ merge_all clusters

-- `_dedupe_vulnerabilities`
unfoldable pub dedupe_vulnerabilities : List ClassifiedVulnerability → List ClassifiedVulnerability
unfolding cluster_by_same_finding merge_all
dedupe_vulnerabilities vulnerabilities =
    merge_all (cluster_by_same_finding place_of vulnerabilities)
