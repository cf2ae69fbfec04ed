-- ===== src/Discovery/Select.antt =====
-- `discover` of semantic_engine/path_discovery.py: the paths of every source, the best of them, and
-- the slices that they become. The heuristic score is a float and an argument here, in units of a
-- ten-thousandth; the snippet of a slice is left out.
pub mod Flows
pub mod Attributed
use control_gate_backend.Prelude.{
  ℕ, zero, suc, String, Bool, true, false, not, ◌&&◌, ◌||◌, Option, none, some, List, [], ◌∷◌, ◌++◌,
  map, ltb, leb, ◌==◌, if◌then◌else◌, is_cons, is_truthy, str_eq, any, filter, length, take, get_or,
}
use control_gate_backend.Prelude.Dict.{Dict, lookup, contains}
use control_gate_backend.Prelude.Texts.{Text, codes_of, lower, text_le}
use control_gate_backend.Discovery.Graph.{
  GraphNode, GraphEdge, Adjacency, build_adjacency, node_map_of,
}
use control_gate_backend.Discovery.Labels.{
  label_matches_pattern, label_of, looks_like_db_query, is_parameterized,
}
use control_gate_backend.Discovery.Bfs.{bfs_paths}

-- What the discovery reads of a rule of the catalog.
pub record Rule : Type 0 where
  pub rule_id : String
  pub name : String
  pub owasp : String
  pub cwe : Option String
  pub sources : List String
  pub sinks : List String

-- The store of the rules by their ids.
abbrev pub Store : Type 0
Store = Dict Rule

abbrev pub all_rules : Store → List Rule
all_rules store = map (λ (e : String × Rule). e.1) store

-- the ids of the rules with a pattern that the node's label matches
unfoldable pub matching_rules : (Rule → List String) → List Rule → GraphNode → List String
unfolding label_matches_pattern
matching_rules patterns rules node =
    map (λ r. r.rule_id)
      (filter
        (λ r. any (λ p. label_matches_pattern (label_of node) (lower (codes_of p))) (patterns r))
        rules)

abbrev has_role : String → Option String → Bool
has_role role none = false
has_role role (some r) = str_eq r role

abbrev pub is_source : List Rule → GraphNode → Bool
is_source rules n =
    is_cons (matching_rules (λ r. r.sources) rules n) || has_role "source" n.security_role

abbrev pub is_sink : List Rule → GraphNode → Bool
is_sink rules n = is_cons (matching_rules (λ r. r.sinks) rules n) || has_role "sink" n.security_role

-- `owners.get(id, set())`: the matching rules of every node with the id
unfoldable pub owners : (Rule → List String) → List Rule → List GraphNode → String → List String
unfolding matching_rules
owners patterns rules [] id = []
owners patterns rules (n ∷ ns) id =
    let rest = owners patterns rules ns id in
    if str_eq n.id id then matching_rules patterns rules n ++ rest else rest

abbrev lesser : String → Option String → Option String
lesser t none = some t
lesser t (some u) = if text_le (codes_of t) (codes_of u) then some t else some u

-- the first text of `sorted(texts)`
unfoldable pub least : List String → Option String
least [] = none
least (t ∷ ts) = lesser t (least ts)

-- The rule that a slice is attributed to.
pub record Attribution : Type 0 where
  pub rule_id : String
  pub rule_name : String
  pub owasp : Option String
  pub cwe : Option String

abbrev pub unattributed : Attribution
unattributed = record {
  rule_id = "PATH_DISCOVERY";
  rule_name = "Unclassified Data-Flow Finding";
  owasp = none;
  cwe = none;
}

abbrev pub attributed_to : Option Rule → Attribution
attributed_to none = unattributed
attributed_to (some r) = record {
  rule_id = r.rule_id;
  rule_name = r.name;
  owasp = some r.owasp;
  cwe = r.cwe;
}

abbrev rule_for : Option String → Store → Option Rule
rule_for none store = none
rule_for (some id) store = lookup id store

-- `_attribute_rule`
unfoldable pub attribute_rule : List String → List String → Store → Attribution
unfolding least
attribute_rule source_owners sink_owners store =
    attributed_to (rule_for (least (filter (contains sink_owners) source_owners)) store)

-- `_severity_from_score`
pub data Severity : Type 0 where
  critical high medium low : Severity

unfoldable pub severity_from_score : ℕ → Severity
severity_from_score score =
    if leb 7500 score
    then Severity.critical
    else if leb 6000 score
    then Severity.high
    else if leb 4500 score
    then Severity.medium
    else Severity.low

pub record CandidatePath : Type 0 where
  pub score : ℕ
  pub source_node : GraphNode
  pub sink_node : GraphNode
  pub path_nodes : List String  -- the last node first

-- `sort(key=score, reverse=True)`, which keeps the order of equal scores
unfoldable pub insert_down : CandidatePath → List CandidatePath → List CandidatePath
insert_down c [] = c ∷ []
insert_down c (d ∷ ds) = if leb d.score c.score then c ∷ d ∷ ds else d ∷ insert_down c ds

unfoldable pub sort_down : List CandidatePath → List CandidatePath
unfolding insert_down
sort_down [] = []
sort_down (c ∷ cs) = insert_down c (sort_down cs)

-- A slice, without its snippet and location.
pub record CodeSlice : Type 0 where
  pub attribution : Attribution
  pub severity : Severity
  pub source_node_id : String
  pub sink_node_id : String
  pub path_nodes : List String

-- `source_code_map.get(file, "")`
abbrev source_of : Dict Text → String → Text
source_of sources file = get_or (lookup file sources) []

-- the test that drops a call with bound parameters
abbrev pub is_suppressed : Dict Text → CandidatePath → Bool
is_suppressed sources c =
    looks_like_db_query c.sink_node
    && is_parameterized c.sink_node.line (source_of sources c.sink_node.file)

module _ (score_path : List String → GraphNode → GraphNode → ℕ)
    (max_depth max_candidates score_threshold max_cross_file_hops : ℕ) where
  abbrev scored : GraphNode → GraphNode → List String → List CandidatePath
  scored source sink_node path =
      let score = score_path path source sink_node in
      if leb score_threshold score
      then record { score = score; source_node = source; sink_node = sink_node; path_nodes = path }
        ∷ []
      else []

  -- the body of the loop over the paths of one source
  unfoldable pub candidate_of : Dict GraphNode → GraphNode → List String → List CandidatePath
  candidate_of nodes source [] = []
  candidate_of nodes source (x ∷ ys) = elim (lookup x nodes) [
    | none ↦ []
    | some sink_node ↦ if is_cons ys then scored source sink_node (x ∷ ys) else []
  ]

  unfoldable pub candidates_of :
      Dict GraphNode → GraphNode → List (List String) → List CandidatePath
  unfolding candidate_of
  candidates_of nodes source [] = []
  candidates_of nodes source (p ∷ ps) = candidate_of nodes source p ++ candidates_of nodes source ps

  unfoldable pub all_candidates :
      Dict GraphNode → Adjacency → List String → List GraphNode → List CandidatePath
  unfolding candidates_of
  all_candidates nodes adj sink_ids [] = []
  all_candidates nodes adj sink_ids (source ∷ sources) =
      candidates_of nodes source
        (bfs_paths max_depth max_candidates max_cross_file_hops nodes adj sink_ids source.id)
      ++ all_candidates nodes adj sink_ids sources

  unfoldable pub slice_of : List GraphNode → Store → CandidatePath → CodeSlice
  unfolding owners attribute_rule severity_from_score
  slice_of nodes store c = record {
    attribution =
        attribute_rule (owners (λ r. r.sources) (all_rules store) nodes c.source_node.id)
          (owners (λ r. r.sinks) (all_rules store) nodes c.sink_node.id) store;
    severity = severity_from_score c.score;
    source_node_id = c.source_node.id;
    sink_node_id = c.sink_node.id;
    path_nodes = c.path_nodes;
  }

  -- the candidates that become slices
  unfoldable pub selected : List GraphNode → List GraphEdge → Store → Dict Text → List CandidatePath
  unfolding all_candidates sort_down node_map_of build_adjacency matching_rules
  selected nodes edges store source_code_map =
      let sinks = filter (is_sink (all_rules store)) nodes in
      let sources = filter (is_source (all_rules store)) nodes in
      filter (λ c. not (is_suppressed source_code_map c))
        (take max_candidates (
          sort_down (
            all_candidates (node_map_of nodes []) (build_adjacency edges []) (map (λ s. s.id) sinks)
              sources)))

  -- `discover`; where there is no source or no sink there is no candidate either
  unfoldable pub discover : List GraphNode → List GraphEdge → Store → Dict Text → List CodeSlice
  unfolding selected slice_of
  discover nodes edges store source_code_map =
      let sinks = filter (is_sink (all_rules store)) nodes in
      let sources = filter (is_source (all_rules store)) nodes in
      if not (is_cons sources) || not (is_cons sinks)
      then []
      else map (slice_of nodes store) (selected nodes edges store source_code_map)
