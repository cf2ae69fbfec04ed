-- ===== src/Discovery/Examples.antt =====
-- semantic_engine/path_discovery.py: a request value that reaches an evaluation in another file.
use control_gate_backend.Prelude.{
  String, false, ◌≡◌, ◌≤◌, refl, none, some, List, [], ◌∷◌, map, length,
}
use control_gate_backend.Discovery.Graph.{EdgeType, GraphNode, GraphEdge, carries_data}
use control_gate_backend.Discovery.Bfs.{bfs_paths, loop, start, round, offer_all, offer}
use control_gate_backend.Discovery.Labels.{looks_like_db_query}
use control_gate_backend.Discovery.Select.{Rule, Store, CodeSlice, discover}
use control_gate_backend.Discovery.Select.Flows.{discover-IsPath}

abbrev node : String → String → GraphNode
node id file = record {
  id = id;
  name = some id;
  file = file;
  line = 1;
  source_code = none;
  is_http = false;
  security_role = none;
  scope_id = none;
}

abbrev nodes : List GraphNode
nodes = node "req" "app.js" ∷ node "name" "app.js" ∷ node "eval" "run.js" ∷ []

abbrev edge : String → String → GraphEdge
edge a b = record { from_node = a; to_node = b; type = EdgeType.dfg_flow }

abbrev edges : List GraphEdge
edges = edge "req" "name" ∷ edge "name" "req" ∷ edge "name" "eval" ∷ []

abbrev code_injection : Rule
code_injection = record {
  rule_id = "CODE_INJECTION";
  name = "Code Injection";
  owasp = "A03";
  cwe = some "CWE-94";
  sources = "req" ∷ [];
  sinks = "eval" ∷ [];
}

abbrev store : Store
store = ("CODE_INJECTION", code_injection) ∷ []

abbrev slices : List CodeSlice
slices = discover (λ path source sink. 5000) 50 200 3500 2 nodes edges store []

-- The one path is found, and the cycle back to the request is not followed.
slices_found : map (λ s. s.path_nodes) slices ≡ ("eval" ∷ "name" ∷ "req" ∷ []) ∷ []
unfolding discover bfs_paths loop start round offer_all offer carries_data looks_like_db_query
slices_found = refl

discover-IsPath_example : length slices ≤ 200
discover-IsPath_example =
    (discover-IsPath (λ path source sink. 5000) 50 200 3500 2 nodes edges store []).1
