-- ===== src/Executor/Examples.antt =====
-- semantic_engine/query_executor/executor.py: two slices of one call, and one of another.
use control_gate_backend.Prelude.{
  ℕ, String, true, ◌≡◌, some, List, [], ◌∷◌, if◌then◌else◌, any, count_if, Every,
}
use control_gate_backend.Prelude.Texts.{codes_of}
use control_gate_backend.Pipeline.Findings.{CodeSlice}
use control_gate_backend.Executor.{SliceKey, deduplicate_slices}
use control_gate_backend.Executor.Unique.{is_at}
use control_gate_backend.Executor.Strongest.{covers, deduplicate_slices-strongest}

abbrev slice : String → ℕ → CodeSlice
slice confidence line = record {
  slice_id = confidence;
  rule_id = "SQL_INJECTION";
  rule_name = "SQL injection";
  pattern_type = "DFG_FLOW";
  code_snippet = codes_of "execute(q)";
  location = record { file = some "db.py"; start_line = some line; end_line = some line };
  sink_label = some (codes_of "execute");
  path_nodes = [];
  severity = codes_of "high";
  confidence = codes_of confidence;
}

abbrev slices : List CodeSlice
slices = slice "low" 3 ∷ slice "high" 3 ∷ slice "low" 9 ∷ []

deduplicate_slices-strongest_example :
    ((k : SliceKey)
      → count_if (is_at k) (deduplicate_slices slices) ≡ (if any (is_at k) slices then 1 else 0))
    × Every (λ r. any (covers r) (deduplicate_slices slices) ≡ true) slices
deduplicate_slices-strongest_example = deduplicate_slices-strongest slices
