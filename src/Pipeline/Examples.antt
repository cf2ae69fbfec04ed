-- ===== src/Pipeline/Examples.antt =====
-- semantic_engine/pipeline.py: two rules that report one call of a database cursor, and one that reports
-- a debug setting.
use control_gate_backend.Prelude.{
  ℕ, String, true, false, ◌≡◌, refl, arith, none, some, List, [], ◌∷◌, any,
}
use control_gate_backend.Prelude.Dict.{Dict, contains}
use control_gate_backend.Prelude.Texts.{codes_of}
use control_gate_backend.Pipeline.Forest.{set_parent, find}
use control_gate_backend.Pipeline.Forest.Heights.{
  IsForest, joined, raised, attach-IsForest, find-rep, same-IsForest,
}
use control_gate_backend.Pipeline.Cluster.{
  Location, normalize_sink, callee_of, cluster_by_same_finding,
}
use control_gate_backend.Pipeline.Cluster.Correct.{
  IsClustering, cluster_by_same_finding-IsClustering,
}
use control_gate_backend.Pipeline.Findings.{
  CodeSlice, Classification, ClassifiedVulnerability, place_of, dedupe_vulnerabilities,
}
use control_gate_backend.Pipeline.Findings.Merged.{AreDistinct, dedupe_vulnerabilities-AreDistinct}
use control_gate_backend.Pipeline.Report.{QueryRule}
use control_gate_backend.Pipeline.Report.Controls.{reports, reports-contains}
use control_gate_backend.Classifier.Safe.{Searches}
use control_gate_backend.Pipeline.Analyze.{PipelineConfig, Slices, analyze_code}
use control_gate_backend.Pipeline.Analyze.Reported.{reported, analyze_code-reported}

abbrev lines : ℕ → ℕ → Location
lines a b = record { file = some "db.py"; start_line = some a; end_line = some b }

abbrev found : String → String → ℕ → ℕ → ClassifiedVulnerability
found id sink a b = record {
  slice_id = id;
  rule_id = id;
  rule_name = id;
  code_snippet = some (codes_of "cursor.execute(q)");
  location = lines a b;
  sink_label = some (codes_of sink);
  path_nodes = [];
  llm_classification = Classification.vulnerable;
  final_severity = some (codes_of "high");
  final_confidence = 8500;
  contributing_rule_ids = [];
}

abbrev findings : List ClassifiedVulnerability
findings =
    found "SQL_INJECTION" "Cursor.Execute(q)" 3 5
    ∷ found "DEBUG_MODE_ENABLED" "debug" 4 4
    ∷ found "ORM_BYPASS" " self.cursor.execute() " 5 9
    ∷ []

-- Both labels name one call.
labels_agree :
    normalize_sink (some (codes_of "Cursor.Execute(q)"))
    ≡ normalize_sink (some (codes_of " self.cursor.execute() "))
unfolding normalize_sink callee_of
labels_agree = refl

abbrev rule : String → String → QueryRule
rule id control = record {
  rule_id = id;
  name = id;
  asvs_controls = control ∷ [];
  finding_polarity = "vulnerable";
}

abbrev store : Dict QueryRule
store =
    ("ORM_BYPASS", rule "ORM_BYPASS" "V1.2.4")
    ∷ ("DEBUG_MODE_ENABLED", rule "DEBUG_MODE_ENABLED" "V13.4.2")
    ∷ []

cluster_by_same_finding-IsClustering_example :
    IsClustering place_of findings (cluster_by_same_finding place_of findings)
cluster_by_same_finding-IsClustering_example =
    cluster_by_same_finding-IsClustering place_of findings

dedupe_vulnerabilities-AreDistinct_example : AreDistinct (dedupe_vulnerabilities findings)
dedupe_vulnerabilities-AreDistinct_example = dedupe_vulnerabilities-AreDistinct findings

reports-contains_example :
    any (λ t. contains t.asvs_controls "V1.2.4") (reports store findings) ≡ true
reports-contains_example =
    reports-contains store "ORM_BYPASS" (rule "ORM_BYPASS" "V1.2.4") "V1.2.4" findings refl refl
      refl

-- The index 0 below the index 1.
abbrev one_pair :
    IsForest (joined 0 1 (λ i. i)) (raised 0 (λ i. i) (λ i. 0)) (set_parent 0 1 (λ i. i))
one_pair = attach-IsForest (λ i. i) (λ i. 0) (λ i. i) 0 1 same-IsForest refl refl refl

find-rep_example :
    ((find 2 (set_parent 0 1 (λ i. i)) 0).1 ≡ 1)
    × IsForest
        (joined 0 1 (λ i. i))
        (raised 0 (λ i. i) (λ i. 0))
        (find 2 (set_parent 0 1 (λ i. i)) 0).0
find-rep_example =
    find-rep (joined 0 1 (λ i. i)) (raised 0 (λ i. i) (λ i. 0)) 2 (set_parent 0 1 (λ i. i)) 0
      one_pair (omega arith)

abbrev no_patterns : Searches
no_patterns = record { search = λ p code. false; regex_source = λ code. none }

abbrev debug_slice : CodeSlice
debug_slice = record {
  slice_id = "s1";
  rule_id = "DEBUG_MODE_ENABLED";
  rule_name = "Debug mode";
  pattern_type = "REGEX";
  code_snippet = codes_of "DEBUG = True";
  location = lines 1 1;
  sink_label = some (codes_of "DEBUG");
  path_nodes = [];
  severity = codes_of "medium";
  confidence = codes_of "high";
}

abbrev both : Slices
both = record { discovery_slices = []; query_slices = debug_slice ∷ [] }

abbrev config : PipelineConfig
config = record { enable_llm = true; max_graph_nodes = 200000; enable_path_discovery = true }

analyze_code-reported_example :
    reported "V13.4.2" (analyze_code config store no_patterns 100 [] (λ s. false) (some 12) both)
    ≡ true
analyze_code-reported_example =
    analyze_code-reported config store no_patterns 100 [] (λ s. false) 12 both "DEBUG_MODE_ENABLED"
      (rule "DEBUG_MODE_ENABLED" "V13.4.2") "V13.4.2" refl (omega arith) refl refl refl
