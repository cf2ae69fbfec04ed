-- ===== src/Classifier/Examples.antt =====
-- semantic_engine/classifier/classifier.py: one worker, one slice within the budget and one above it.
use control_gate_backend.Prelude.{String, false, none, some, List, [], ◌∷◌}
use control_gate_backend.Prelude.Texts.{codes_of}
use control_gate_backend.Pipeline.Findings.{CodeSlice, Classification}
use control_gate_backend.Classifier.{LlmResult}
use control_gate_backend.Classifier.Safe.{Searches}
use control_gate_backend.Classifier.Workers.{Turn, pull, answer}

abbrev no_patterns : Searches
no_patterns = record { search = λ p code. false; regex_source = λ code. none }

abbrev slice : String → CodeSlice
slice confidence = record {
  slice_id = confidence;
  rule_id = "SQL_INJECTION";
  rule_name = "SQL injection";
  pattern_type = "TAINT_FLOW";
  code_snippet = codes_of "execute(q)";
  location = record { file = some "db.py"; start_line = some 3; end_line = some 3 };
  sink_label = some (codes_of "execute");
  path_nodes = [];
  severity = codes_of "high";
  confidence = codes_of confidence;
}

abbrev slices : List CodeSlice
slices = slice "low" ∷ slice "high" ∷ []

abbrev said_safe : LlmResult
said_safe = record {
  classification = Classification.safe;
  severity = codes_of "low";
  confidence = 9000;
}

abbrev turns : List Turn
turns = pull ∷ answer 0 said_safe ∷ []
