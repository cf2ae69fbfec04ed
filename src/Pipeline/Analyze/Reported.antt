-- ===== src/Pipeline/Analyze/Reported.antt =====
-- `analyze_code` of semantic_engine/pipeline.py: when its reports name a control.
use control_gate_backend.Prelude.{
  ℕ, String, Bool, true, false, not, ◌≡◌, ◌≤◌, ◌||◌, some, List, ltb, arith, ◌∙◌, any, any-append,
  if◌then◌else◌,
}
use control_gate_backend.Prelude.Dict.{Dict, lookup, contains}
use control_gate_backend.Pipeline.Findings.{filter_discovery_slices}
use control_gate_backend.Pipeline.Report.{QueryRule, Report}
use control_gate_backend.Pipeline.Report.Controls.{reports, reports-contains}
use control_gate_backend.Classifier.Safe.{Searches}
use control_gate_backend.Classifier.Workers.{Turn, classify_slices}
use control_gate_backend.Classifier.Presence.{is_certain, classify_slices-certain}
use control_gate_backend.Pipeline.Analyze.{
  Stage, discovery, queries, classification, formatting, raised, after_queries, PipelineConfig,
  AnalysisResult, Slices, all_slices, after_graph, analyze_code, success, no_graph, graph_too_large,
  unbound_local,
}

or_true : (a b : Bool) → b ≡ true → (a || b) ≡ true
or_true a b h = ground arith

-- The result has a report that names the control.
abbrev pub reported : String → AnalysisResult → Bool
reported control no_graph = false
reported control graph_too_large = false
reported control unbound_local = false
reported control (raised stage) = false
reported control (success rs) = any (λ t. contains t.asvs_controls control) rs

module _ (config : PipelineConfig) (store : Dict QueryRule) (re : Searches) (max_llm_calls : ℕ)
    (turns : List Turn) (raises : Stage → Bool) where
  abbrev pub any_raises : Bool
  any_raises = raises discovery || raises queries || raises classification || raises formatting

  -- With path discovery enabled and a graph within its limit, each ASVS control of a presence rule that
  -- a query slice matches, where the slice's snippet does not import defusedxml, is named by a report
  -- exactly where no stage of the analysis raises: whatever path discovery finds, the language model
  -- answers, and the deduplication merges.
  pub analyze_code-reported :
      (nodes : ℕ) (s : Slices) (id : String) (r : QueryRule) (control : String)
      → config.enable_path_discovery ≡ true
      → nodes ≤ config.max_graph_nodes
      → any (is_certain re id) s.query_slices ≡ true
      → lookup id store ≡ some r
      → contains r.asvs_controls control ≡ true
      → reported control (analyze_code config store re max_llm_calls turns raises (some nodes) s)
        ≡ not any_raises
  unfolding analyze_code after_graph after_queries
  analyze_code-reported nodes s id r control enabled small certain found holds =
      let slices = all_slices config store re max_llm_calls turns raises s in
      let kept = filter_discovery_slices s.discovery_slices s.query_slices in
      let fits : ltb config.max_graph_nodes nodes ≡ false = ground arith in
      let in_all : any (is_certain re id) slices ≡ true =
        any-append (is_certain re id) kept s.query_slices
        ∙ or_true (any (is_certain re id) kept) (any (is_certain re id) s.query_slices) certain in
      let left = classify_slices re config.enable_llm max_llm_calls turns slices in
      let one = classify_slices-certain re id config.enable_llm max_llm_calls turns slices in_all in
      let named = reports-contains store id r control left found holds one in
      rw (reported, analyze_code, fits)
        (rw (after_graph, enabled, after_queries) (stages control (reports store left) named))
    where
      stages :
          (k : String) (rs : List Report)
          → any (λ t. contains t.asvs_controls k) rs ≡ true
          → reported k (
              if raises discovery
              then raised discovery
              else if raises queries
              then raised queries
              else if raises classification
              then raised classification
              else if raises formatting
              then raised formatting
              else success rs)
            ≡ not any_raises
      stages k rs h = ground arith
