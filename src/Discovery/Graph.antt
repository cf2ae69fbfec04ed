-- ===== src/Discovery/Graph.antt =====
-- app/schemas/graph.py and `_build_adjacency` of semantic_engine/path_discovery.py: the graph that
-- the search walks, as far as the search reads it.
use control_gate_backend.Prelude.{
  ℕ, String, Bool, true, false, ◌≡◌, refl, sym, ◌∙◌, ◌&&◌, Option, List, [], ◌∷◌, ◌++◌, map,
  if◌then◌else◌, get_or, str_eq, eq_iff, filter, Bool-cases, inl, inr,
}
use mathlib.Core.List.{append_assoc, append-nil}
use control_gate_backend.Prelude.Dict.{Dict, lookup, insert, lookup-insert}

-- app/enums/edge_type.py
pub data EdgeType : Type 0 where
  ast_child : EdgeType
  control_flow cfg_next cfg_branch_true cfg_branch_false : EdgeType
  cfg_loop_entry cfg_loop_exit cfg_exception : EdgeType
  data_flow dfg_flow dfg_interp dfg_template dfg_param_pass dfg_ret : EdgeType
  dfg_property dfg_attr : EdgeType
  call_graph call_arg call_return : EdgeType
  imports defines uses : EdgeType
  taint_flow taint_source taint_sink sanitized : EdgeType
  auth_coverage permission_flow : EdgeType
  http_flow http_route http_middleware : EdgeType
  orm_flow sql_param : EdgeType

pub record GraphEdge : Type 0 where
  pub from_node : String
  pub to_node : String
  pub type : EdgeType

-- A node; `security_role` and `scope_id` are read from its metadata.
pub record GraphNode : Type 0 where
  pub id : String
  pub name : Option String
  pub file : String
  pub line : ℕ
  pub source_code : Option String
  pub is_http : Bool  -- its type is HTTP_ENDPOINT or HTTP_RESPONSE
  pub security_role : Option String
  pub scope_id : Option String

-- `edge_types`: the edges that carry data or taint
unfoldable pub carries_data : EdgeType → Bool
carries_data EdgeType.dfg_flow = true
carries_data EdgeType.dfg_param_pass = true
carries_data EdgeType.dfg_ret = true
carries_data EdgeType.dfg_interp = true
carries_data EdgeType.dfg_template = true
carries_data EdgeType.taint_flow = true
carries_data EdgeType.data_flow = true
carries_data EdgeType.call_graph = true
carries_data EdgeType.auth_coverage = true
carries_data EdgeType.http_route = true
carries_data _ = false

abbrev pub Adjacency : Type 0
Adjacency = Dict (List String)

-- `adj.get(node, [])`
abbrev pub neighbors : Adjacency → String → List String
neighbors adj node = get_or (lookup node adj) []

-- `adj.setdefault(node, []).append(to)`
append_to : String → String → Adjacency → Adjacency
append_to node to adj = insert node (neighbors adj node ++ to ∷ []) adj

-- The loop of `_build_adjacency`, for the forward lists.
unfoldable pub build_adjacency : List GraphEdge → Adjacency → Adjacency
unfolding append_to
build_adjacency [] adj = adj
build_adjacency (e ∷ es) adj =
    build_adjacency es (if carries_data e.type then append_to e.from_node e.to_node adj else adj)

-- `edge_map.get((a, b), [])`, of the same loop
unfoldable pub types_between : List GraphEdge → String → String → List EdgeType
types_between es a b =
    map (λ e. e.type) (filter (λ e. str_eq e.from_node a && str_eq e.to_node b) es)

-- `{n.id: n for n in graph.nodes}`
unfoldable pub node_map_of : List GraphNode → Dict GraphNode → Dict GraphNode
node_map_of [] nodes = nodes
node_map_of (n ∷ ns) nodes = node_map_of ns (insert n.id n nodes)

-- The targets of a node's data edges, in the order of the graph.
abbrev pub data_targets : List GraphEdge → String → List String
data_targets es node =
    map (λ e. e.to_node) (filter (λ e. carries_data e.type && str_eq e.from_node node) es)

neighbors-append_to :
    (node to k : String) (adj : Adjacency)
    → neighbors (append_to node to adj) k
      ≡ (if str_eq node k then neighbors adj k ++ to ∷ [] else neighbors adj k)
unfolding append_to
neighbors-append_to node to k adj = elim (Bool-cases (str_eq node k)) [
  | inl same ↦
      let e = (eq_iff node k).0 same in
      let own : str_eq k k ≡ true = (eq_iff k k).1 refl in
      rw (lookup-insert node k (neighbors adj node ++ to ∷ []) adj, e, own) refl
  | inr other ↦ rw (lookup-insert node k (neighbors adj node ++ to ∷ []) adj, other) refl
]

-- The forward lists hold, for every node, the targets of its data edges.
neighbors-build :
    (es : List GraphEdge) (adj : Adjacency) (k : String)
    → neighbors (build_adjacency es adj) k ≡ neighbors adj k ++ data_targets es k
unfolding build_adjacency
neighbors-build [] adj k = sym (append-nil (neighbors adj k))
neighbors-build (e ∷ es) adj k = elim (Bool-cases (carries_data e.type)) [
  | inr other ↦ rw (build_adjacency, other) (neighbors-build es adj k)
  | inl carries ↦
      let rest = neighbors-build es (append_to e.from_node e.to_node adj) k in
      let head = neighbors-append_to e.from_node e.to_node k adj in
      elim (Bool-cases (str_eq e.from_node k)) [
        | inr other ↦ rw (build_adjacency, carries, other) (rw (head, other) at rest)
        | inl same ↦
            rw (build_adjacency, carries, same)
              ((rw (head, same) at rest)
                ∙ append_assoc (neighbors adj k) (e.to_node ∷ []) (data_targets es k))
      ]
]

pub neighbors-data_targets :
    (es : List GraphEdge) (k : String) → neighbors (build_adjacency es []) k ≡ data_targets es k
neighbors-data_targets es k = neighbors-build es [] k
