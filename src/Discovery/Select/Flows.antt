-- ===== src/Discovery/Select/Flows.antt =====
-- `discover` of semantic_engine/path_discovery.py: what every slice stands for.
use control_gate_backend.Prelude.{
  ℕ, String, Bool, true, not, ◌≡◌, ◌≤◌, refl, sym, ◌∙◌, ap, ◌&&◌, ◌||◌, Option, none, some, List,
  [], ◌∷◌, map, arith, leb, is_cons, str_eq, eq_iff, any, filter, length, take, Every, Every-append,
  Every-take, Every-filter, Every-map, any-map, any-filter, length-map, length-take, length-filter,
  count_if-le, Bool-cases, Option-cases, inl, inr,
}
use control_gate_backend.Prelude.Dict.{Dict, lookup, insert, contains, lookup-insert}
use control_gate_backend.Prelude.Texts.{Text}
use control_gate_backend.Discovery.Graph.{
  GraphNode, GraphEdge, Adjacency, carries_data, neighbors, build_adjacency, node_map_of,
  neighbors-data_targets,
}
use control_gate_backend.Discovery.Bfs.{bfs_paths}
use control_gate_backend.Discovery.Bfs.Sound.{
  origin, is_linked, has_no_repeat, crossings, IsFlow, AllFlows, bfs_paths-IsFlow,
}
use control_gate_backend.Discovery.Select.{
  Store, all_rules, is_source, is_sink, CandidatePath, insert_down, sort_down, is_suppressed,
  candidate_of, candidates_of, all_candidates, slice_of, selected, discover,
}

-- Every step of a path follows an edge of the graph that carries data.
abbrev pub is_followed : List GraphEdge → String → List String → Bool
is_followed es x [] = true
is_followed es x (y ∷ ys) =
    any (λ e. (carries_data e.type && str_eq e.from_node y) && str_eq e.to_node x) es
    && is_followed es y ys

contains-neighbors :
    (es : List GraphEdge) (x y : String)
    → contains (neighbors (build_adjacency es []) y) x
      ≡ any (λ e. (carries_data e.type && str_eq e.from_node y) && str_eq e.to_node x) es
contains-neighbors es x y =
    ap (λ ts. contains ts x) (neighbors-data_targets es y)
    ∙ any-map (λ j. str_eq j x) (λ e. e.to_node)
        (filter (λ e. carries_data e.type && str_eq e.from_node y) es)
    ∙ any-filter (λ e. str_eq e.to_node x) (λ e. carries_data e.type && str_eq e.from_node y) es

is_linked-is_followed :
    (es : List GraphEdge) (x : String) (ys : List String)
    → is_linked (build_adjacency es []) x ys ≡ is_followed es x ys
is_linked-is_followed es x [] = refl
is_linked-is_followed es x (y ∷ ys) =
    rw (contains-neighbors es x y, is_linked-is_followed es y ys) refl

abbrev HasId : Option GraphNode → String → Type 0
HasId none id = Unit
HasId (some n) id = n.id ≡ id

-- The map of the nodes binds every node to its own id.
node_map-keyed :
    (ns : List GraphNode) (nodes : Dict GraphNode)
    → ((id : String) → HasId (lookup id nodes) id)
    → (id : String) → HasId (lookup id (node_map_of ns nodes)) id
unfolding node_map_of
node_map-keyed [] nodes h id = h id
node_map-keyed (n ∷ ns) nodes h id = node_map-keyed ns (insert n.id n nodes) keeps id
  where
    keeps : (k : String) → HasId (lookup k (insert n.id n nodes)) k
    keeps k = elim (Bool-cases (str_eq n.id k)) [
      | inl same ↦ rw (lookup-insert n.id k n nodes, same) ((eq_iff n.id k).0 same)
      | inr other ↦ rw (lookup-insert n.id k n nodes, other) (h k)
    ]

module _ (score_path : List String → GraphNode → GraphNode → ℕ)
    (max_depth max_candidates score_threshold max_cross_file_hops : ℕ) (ns : List GraphNode)
    (es : List GraphEdge) where
  -- A path from `source` to `sink`, an element of `sink_ids`.
  pub record IsPath (sink_ids : List String) (source sink : String) (path : List String)
      : Type 0 where
    pub middle : List String
    pub form : path ≡ sink ∷ middle
    pub at_sink : contains sink_ids sink ≡ true
    pub from_source : origin middle sink ≡ source
    pub steps : is_cons middle ≡ true
    pub followed : is_followed es sink middle ≡ true
    pub no_repeat : has_no_repeat sink middle ≡ true
    pub short : length (sink ∷ middle) ≤ max_depth
    pub few_crossings : crossings (node_map_of ns []) sink middle ≤ max_cross_file_hops

  abbrev IsCandidate : List String → CandidatePath → Type 0
  IsCandidate sink_ids c = IsPath sink_ids c.source_node.id c.sink_node.id c.path_nodes

  abbrev nodes : Dict GraphNode
  nodes = node_map_of ns []

  abbrev adj : Adjacency
  adj = build_adjacency es []

  candidate_of-IsCandidate :
      (sink_ids : List String) (source : GraphNode) (x : String) (ys : List String)
      → IsFlow max_depth max_candidates max_cross_file_hops nodes adj sink_ids source.id x ys
      → Every (IsCandidate sink_ids) (
          candidate_of score_path max_depth max_candidates score_threshold max_cross_file_hops nodes
            source
            (x ∷ ys))
  unfolding candidate_of
  candidate_of-IsCandidate sink_ids source x ys f = elim (Option-cases (lookup x nodes)) [
    | inl e ↦ rw (candidate_of, e) tt
    | inr (n, e) ↦
        let named : n.id ≡ x = rw e at (node_map-keyed ns [] (λ _. tt) x) in
        elim (Bool-cases (is_cons ys)) [
          | inr one ↦ rw (candidate_of, e, one) tt
          | inl longer ↦
              let path : IsPath sink_ids source.id n.id (x ∷ ys) = record {
                middle = ys;
                form = rw named refl;
                at_sink = rw named f.at_sink;
                from_source = rw named f.route.from_source;
                steps = longer;
                followed = rw named (sym (is_linked-is_followed es x ys) ∙ f.route.linked);
                no_repeat = rw named f.route.no_repeat;
                short = f.short;
                few_crossings = rw named f.route.few_crossings;
              } in
              elim (Bool-cases (leb score_threshold (score_path (x ∷ ys) source n))) [
                | inl good ↦ rw (candidate_of, e, longer, good) (path, tt)
                | inr poor ↦ rw (candidate_of, e, longer, poor) tt
              ]
        ]
  ]

  candidates_of-IsCandidate :
      (sink_ids : List String) (source : GraphNode) (paths : List (List String))
      → AllFlows max_depth max_candidates max_cross_file_hops nodes adj sink_ids source.id paths
      → Every (IsCandidate sink_ids) (
          candidates_of score_path max_depth max_candidates score_threshold max_cross_file_hops
            nodes source paths)
  unfolding candidates_of
  candidates_of-IsCandidate sink_ids source [] h = tt
  candidates_of-IsCandidate sink_ids source ([] ∷ paths) h = absurd h
  candidates_of-IsCandidate sink_ids source ((x ∷ ys) ∷ paths) (f, h) =
      Every-append (IsCandidate sink_ids)
        (candidate_of score_path max_depth max_candidates score_threshold max_cross_file_hops nodes
          source (x ∷ ys))
        (candidates_of score_path max_depth max_candidates score_threshold max_cross_file_hops nodes
          source paths)
        (candidate_of-IsCandidate sink_ids source x ys f)
        (candidates_of-IsCandidate sink_ids source paths h)

  all_candidates-IsCandidate :
      (sink_ids : List String) (sources : List GraphNode)
      → Every (IsCandidate sink_ids) (
          all_candidates score_path max_depth max_candidates score_threshold max_cross_file_hops
            nodes adj sink_ids sources)
  unfolding all_candidates
  all_candidates-IsCandidate sink_ids [] = tt
  all_candidates-IsCandidate sink_ids (s ∷ sources) =
      Every-append (IsCandidate sink_ids)
        (candidates_of score_path max_depth max_candidates score_threshold max_cross_file_hops nodes
          s (bfs_paths max_depth max_candidates max_cross_file_hops nodes adj sink_ids s.id))
        (all_candidates score_path max_depth max_candidates score_threshold max_cross_file_hops
          nodes adj sink_ids sources)
        (candidates_of-IsCandidate sink_ids s
          (bfs_paths max_depth max_candidates max_cross_file_hops nodes adj sink_ids s.id)
          (bfs_paths-IsFlow max_depth max_candidates max_cross_file_hops nodes adj sink_ids s.id).0)
        (all_candidates-IsCandidate sink_ids sources)

module _ {κ} (P : CandidatePath → Type κ) where
  insert_down-Every :
      (c : CandidatePath) (cs : List CandidatePath) → P c → Every P cs → Every P (insert_down c cs)
  unfolding insert_down
  insert_down-Every c [] a h = (a, tt)
  insert_down-Every c (d ∷ cs) a (b, h) = elim (Bool-cases (leb d.score c.score)) [
    | inl e ↦ rw (insert_down, e) (a, (b, h))
    | inr e ↦ rw (insert_down, e) (b, insert_down-Every c cs a h)
  ]

  sort_down-Every : (cs : List CandidatePath) → Every P cs → Every P (sort_down cs)
  unfolding sort_down
  sort_down-Every [] h = tt
  sort_down-Every (c ∷ cs) (a, h) = insert_down-Every c (sort_down cs) a (sort_down-Every cs h)

module _ (score_path : List String → GraphNode → GraphNode → ℕ)
    (max_depth max_candidates score_threshold max_cross_file_hops : ℕ) (ns : List GraphNode)
    (es : List GraphEdge) (store : Store) (source_code_map : Dict Text) where
  abbrev sink_ids_of : List String
  sink_ids_of = map (λ s. s.id) (filter (is_sink (all_rules store)) ns)

  selected-IsCandidate :
      Every
        (λ c.
          IsPath score_path max_depth max_candidates score_threshold max_cross_file_hops ns es
            sink_ids_of c.source_node.id c.sink_node.id c.path_nodes)
        (selected score_path max_depth max_candidates score_threshold max_cross_file_hops ns es
          store source_code_map)
  unfolding selected
  selected-IsCandidate =
      let P = λ (c : CandidatePath).
        IsPath score_path max_depth max_candidates score_threshold max_cross_file_hops ns es
          sink_ids_of c.source_node.id c.sink_node.id c.path_nodes in
      let sources = filter (is_source (all_rules store)) ns in
      let candidates =
        all_candidates score_path max_depth max_candidates score_threshold max_cross_file_hops
          (node_map_of ns []) (build_adjacency es []) sink_ids_of sources in
      Every-filter P (λ c. not (is_suppressed source_code_map c))
        (take max_candidates (sort_down candidates))
        (Every-take P max_candidates (sort_down candidates) (
          sort_down-Every P candidates (
            all_candidates-IsCandidate score_path max_depth max_candidates score_threshold
              max_cross_file_hops ns es sink_ids_of sources)))

  selected-length :
      length (
        selected score_path max_depth max_candidates score_threshold max_cross_file_hops ns es store
          source_code_map)
      ≤ max_candidates
  unfolding selected
  selected-length =
      let sources = filter (is_source (all_rules store)) ns in
      let best = take max_candidates (
        sort_down (
          all_candidates score_path max_depth max_candidates score_threshold max_cross_file_hops
            (node_map_of ns []) (build_adjacency es []) sink_ids_of sources)) in
      let kept = λ (c : CandidatePath). not (is_suppressed source_code_map c) in
      omega (
        arith,
        length-filter kept best,
        count_if-le kept best,
        length-take max_candidates (
            sort_down (
              all_candidates score_path max_depth max_candidates score_threshold max_cross_file_hops
                (node_map_of ns []) (build_adjacency es []) sink_ids_of sources)),
      )

  -- Every slice that the discovery returns stands for a path of the graph, of two nodes at least,
  -- from the slice's source to the slice's sink, which a rule or a role marks as a sink; each step
  -- follows an edge that carries data, no node comes twice, and the bounds on the length and on
  -- the changes of file are kept. There are at most `max_candidates` slices.
  pub discover-IsPath :
      Every
        (λ s.
          IsPath score_path max_depth max_candidates score_threshold max_cross_file_hops ns es
            sink_ids_of s.source_node_id s.sink_node_id s.path_nodes)
        (discover score_path max_depth max_candidates score_threshold max_cross_file_hops ns es
          store source_code_map)
      × (length (
            discover score_path max_depth max_candidates score_threshold max_cross_file_hops ns es
              store source_code_map)
          ≤ max_candidates)
  unfolding discover
  discover-IsPath =
      let sinks = filter (is_sink (all_rules store)) ns in
      let sources = filter (is_source (all_rules store)) ns in
      let chosen =
        selected score_path max_depth max_candidates score_threshold max_cross_file_hops ns es store
          source_code_map in
      elim (Bool-cases (not (is_cons sources) || not (is_cons sinks))) [
        | inl e ↦ rw (discover, e) (tt, omega arith)
        | inr e ↦
            rw (discover, e)
              (
                Every-map _
                    (slice_of score_path max_depth max_candidates score_threshold
                      max_cross_file_hops ns store)
                    chosen selected-IsCandidate,
                rw
                    (length-map
                      (slice_of score_path max_depth max_candidates score_threshold
                        max_cross_file_hops ns store)
                      chosen)
                    selected-length,
              )
      ]
