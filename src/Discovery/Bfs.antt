-- ===== src/Discovery/Bfs.antt =====
-- `_bfs_paths` of semantic_engine/path_discovery.py. A path is kept with its last node first, so that
-- `path[-1]` is its head, and `path + [neighbor]` puts the neighbor in front.
pub mod Sound
use control_gate_backend.Prelude.{
  ℕ, zero, suc, String, Bool, true, false, not, ◌+◌, ◌&&◌, ◌||◌, Option, none, some, List, [], ◌∷◌,
  ◌++◌, if◌then◌else◌, ltb, leb, ◌==◌, is_truthy, str_eq, any, length, get_or,
}
use control_gate_backend.Prelude.Dict.{Dict, lookup, contains}
use control_gate_backend.Discovery.Graph.{GraphNode, Adjacency, neighbors}

-- An element of the queue: a path, its last node apart, the number of files it has crossed, and the
-- last file it was in.
pub record Entry : Type 0 where
  pub current : String
  pub earlier : List String
  pub hops : ℕ
  pub last_file : Option String

pub record Search : Type 0 where
  pub queue : List Entry
  pub visited : List (String × ℕ)
  pub paths : List (List String)

abbrev pub path_of : Entry → List String
path_of e = e.current ∷ e.earlier

-- `node.file if node else None`
abbrev pub file_of : Dict GraphNode → String → Option String
file_of nodes id = file_in (lookup id nodes)
  where
    file_in : Option GraphNode → Option String
    file_in none = none
    file_in (some n) = some n.file

abbrev differs : Option String → Option String → Bool
differs (some a) (some b) = not (str_eq b a)
differs _ _ = true

-- `bool(last_file and neighbor_file and neighbor_file != last_file)`
abbrev pub crosses_file : Option String → Option String → Bool
crosses_file last_file neighbor_file =
    is_truthy last_file && is_truthy neighbor_file && differs last_file neighbor_file

-- `neighbor_file or last_file`
abbrev pub file_or : Option String → Option String → Option String
file_or a b = if is_truthy a then a else b

abbrev was_visited : String → ℕ → List (String × ℕ) → Bool
was_visited n hops visited = any (λ (v : String × ℕ). str_eq v.0 n && v.1 == hops) visited

-- `MAX_BFS_OPS`
abbrev pub max_bfs_ops : ℕ
max_bfs_ops = 5000

module _ (max_depth max_candidates max_cross_file_hops : ℕ) (nodes : Dict GraphNode)
    (adj : Adjacency) (sink_ids : List String) where
  abbrev pub hops_to : Entry → String → ℕ
  hops_to e n = e.hops + (if crosses_file e.last_file (file_of nodes n) then 1 else 0)

  abbrev pub extend : Entry → String → Entry
  extend e n = record {
    current = n;
    earlier = path_of e;
    hops = hops_to e n;
    last_file = file_or (file_of nodes n) e.last_file;
  }

  -- the body of the loop over the neighbors
  unfoldable pub offer : Entry → String → Search → Search
  offer e n s =
      if contains (path_of e) n
      then s
      else if ltb max_cross_file_hops (hops_to e n)
      then s
      else if not (was_visited n (hops_to e n) s.visited) || contains sink_ids n
      then record s { visited = (n, hops_to e n) ∷ s.visited; queue = s.queue ++ extend e n ∷ [] }
      else s

  unfoldable pub offer_all : Entry → List String → Search → Search
  unfolding offer
  offer_all e [] s = s
  offer_all e (n ∷ ns) s = offer_all e ns (offer e n s)

  -- one round of the `while` loop, after `e` left the queue
  unfoldable pub round : Entry → Search → Search
  unfolding offer_all
  round e s =
      if ltb max_depth (length (path_of e))
      then s
      else if contains sink_ids e.current
      then record s { paths = s.paths ++ path_of e ∷ [] }
      else offer_all e (neighbors adj e.current) s

  -- The `while` loop, with the operations that are left.
  unfoldable pub loop : ℕ → Search → List (List String)
  unfolding round
  loop zero s = s.paths
  loop (suc ops) s =
      if leb max_candidates (length s.paths)
      then s.paths
      else elim s.queue [ [] ↦ s.paths | e ∷ rest ↦ loop ops (round e (record s { queue = rest })) ]

  unfoldable pub start : String → Search
  start source_id = record {
    queue =
        record { current = source_id; earlier = []; hops = 0; last_file = file_of nodes source_id }
        ∷ [];
    visited = (source_id, 0) ∷ [];
    paths = [];
  }

  -- `_bfs_paths`
  unfoldable pub bfs_paths : String → List (List String)
  unfolding loop start
  bfs_paths source_id = loop max_bfs_ops (start source_id)
