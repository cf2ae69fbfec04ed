-- ===== src/Pipeline/Analyze.antt =====
-- The steps of `analyze_code` in semantic_engine/pipeline.py, from the graph and the slices of its two
-- engines on.
pub mod Reported
use control_gate_backend.Prelude.{
  ℕ, String, Bool, true, false, not, ◌&&◌, Option, none, some, List, [], ◌∷◌, ◌++◌, ltb,
  if◌then◌else◌,
}
use control_gate_backend.Prelude.Dict.{Dict}
use control_gate_backend.Pipeline.Findings.{
  CodeSlice, ClassifiedVulnerability, filter_discovery_slices, dedupe_vulnerabilities,
}
use control_gate_backend.Pipeline.Report.{QueryRule, Report, format_vulnerability}
use control_gate_backend.Pipeline.Report.Controls.{reports}
use control_gate_backend.Classifier.Safe.{Searches}
use control_gate_backend.Classifier.Workers.{Turn, classify_slices}

-- What `analyze_code` reads of its configuration.
pub record PipelineConfig : Type 0 where
  pub enable_llm : Bool
  pub max_graph_nodes : ℕ
  pub enable_path_discovery : Bool

-- The stages after the graph, each of which may raise: `_discover_paths`, `_execute_queries` with the
-- filter, `_classify_slices` with the deduplication, and the formatting with `_serialize_graph`.
pub data Stage : Type 0 where
  discovery queries classification formatting : Stage

-- `AnalysisResult`: the errors of a result without success, where `raised` and `unbound_local` come
-- from the `except Exception` at the end, or the findings of one with it.
pub data AnalysisResult : Type 0 where
  no_graph graph_too_large unbound_local : AnalysisResult
  raised : Stage → AnalysisResult
  success : List Report → AnalysisResult

-- What the two engines give: the slices of the discovery and those of the rules.
pub record Slices : Type 0 where
  pub discovery_slices : List CodeSlice
  pub query_slices : List CodeSlice

module _ (config : PipelineConfig) (store : Dict QueryRule) (re : Searches) (max_llm_calls : ℕ)
    (turns : List Turn) (raises : Stage → Bool) where
  abbrev pub all_slices : Slices → List CodeSlice
  all_slices s = filter_discovery_slices s.discovery_slices s.query_slices ++ s.query_slices

  -- Steps 4 and 5.
  unfoldable pub after_queries : Slices → AnalysisResult
  unfolding filter_discovery_slices classify_slices dedupe_vulnerabilities format_vulnerability
  after_queries s =
      if raises classification
      then raised classification
      else if raises formatting
      then raised formatting
      else success
          (reports store (classify_slices re config.enable_llm max_llm_calls turns (all_slices s)))

  -- Steps 2 to 5. Without path discovery, `if discovery_slices:` reads a name that no statement bound.
  unfoldable pub after_graph : Slices → AnalysisResult
  unfolding after_queries
  after_graph s =
      if config.enable_path_discovery && raises discovery
      then raised discovery
      else if raises queries
      then raised queries
      else if config.enable_path_discovery
      then after_queries s
      else unbound_local

  -- `analyze_code`, with the number of the nodes where there is a graph
  unfoldable pub analyze_code : Option ℕ → Slices → AnalysisResult
  unfolding after_graph
  analyze_code none s = no_graph
  analyze_code (some nodes) s =
      if ltb config.max_graph_nodes nodes then graph_too_large else after_graph s
