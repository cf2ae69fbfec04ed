-- ===== src/Discovery/Bfs/Sound.antt =====
-- `_bfs_paths` of semantic_engine/path_discovery.py: what every path that it returns is like.
use control_gate_backend.Prelude.{
  ℕ, zero, suc, String, Bool, true, false, not, ◌≡◌, ◌≤◌, refl, ◌∙◌, ◌+◌, ◌&&◌, ◌||◌, Option, List,
  [], ◌∷◌, ◌++◌, arith, if◌then◌else◌, ltb, leb, str_eq, eq_iff, all, length, Bool-cases,
  List-cases, inl, inr, length-append, any-append,
}
use mathlib.Core.List.{append_assoc}
use control_gate_backend.Prelude.Dict.{Dict, contains}
use control_gate_backend.Discovery.Graph.{GraphNode, Adjacency, neighbors}
use control_gate_backend.Discovery.Bfs.{
  Entry, Search, path_of, file_of, crosses_file, file_or, was_visited, max_bfs_ops, hops_to, extend,
  offer, offer_all, round, loop, start, bfs_paths,
}

-- the first node of a path
abbrev pub origin : List String → String → String
origin [] x = x
origin (y ∷ ys) x = origin ys y

-- Every step follows an edge.
abbrev pub is_linked : Adjacency → String → List String → Bool
is_linked adj x [] = true
is_linked adj x (y ∷ ys) = contains (neighbors adj y) x && is_linked adj y ys

abbrev pub has_no_repeat : String → List String → Bool
has_no_repeat x [] = true
has_no_repeat x (y ∷ ys) = not (contains (y ∷ ys) x) && has_no_repeat y ys

-- the last file that a path was in, of those that are known
abbrev pub last_file_on : Dict GraphNode → String → List String → Option String
last_file_on nodes x [] = file_of nodes x
last_file_on nodes x (y ∷ ys) = file_or (file_of nodes x) (last_file_on nodes y ys)

-- how many times a path goes from one file to another
abbrev pub crossings : Dict GraphNode → String → List String → ℕ
crossings nodes x [] = 0
crossings nodes x (y ∷ ys) =
    crossings nodes y ys
    + (if crosses_file (last_file_on nodes y ys) (file_of nodes x) then 1 else 0)

all_contained : (before xs : List String) → all (contains (before ++ xs)) xs ≡ true
all_contained before [] = refl
all_contained before (x ∷ xs) =
    let here : contains (before ++ x ∷ xs) x ≡ true =
      ground (arith, any-append (λ j. str_eq j x) before (x ∷ xs), eq_iff x x) in
    let there : all (contains ((before ++ x ∷ []) ++ xs)) xs ≡ true =
      all_contained (before ++ x ∷ []) xs in
    ground (arith, here, rw (append_assoc before (x ∷ []) xs) at there)

module _ (max_depth max_candidates max_cross_file_hops : ℕ) (nodes : Dict GraphNode)
    (adj : Adjacency) (sink_ids : List String) (source_id : String) where
  -- A path from the source along edges that visits no node twice, within the bound of files.
  pub record IsRoute (x : String) (ys : List String) : Type 0 where
    pub from_source : origin ys x ≡ source_id
    pub linked : is_linked adj x ys ≡ true
    pub no_repeat : has_no_repeat x ys ≡ true
    pub few_crossings : crossings nodes x ys ≤ max_cross_file_hops

  record IsTracked (e : Entry) : Type 0 where
    route : IsRoute e.current e.earlier
    hops : e.hops ≡ crossings nodes e.current e.earlier
    last_file : e.last_file ≡ last_file_on nodes e.current e.earlier

  abbrev AllTracked : List Entry → Type 0
  AllTracked [] = Unit
  AllTracked (e ∷ es) = IsTracked e × AllTracked es

  AllTracked-append :
      (es : List Entry) (e : Entry) → AllTracked es → IsTracked e → AllTracked (es ++ e ∷ [])
  AllTracked-append [] e h t = (t, tt)
  AllTracked-append (d ∷ es) e (a, h) t = (a, AllTracked-append es e h t)

  extend-IsTracked :
      (e : Entry) (n : String)
      → IsTracked e
      → contains (neighbors adj e.current) n ≡ true
      → contains (path_of e) n ≡ false
      → ltb max_cross_file_hops
          (hops_to max_depth max_candidates max_cross_file_hops nodes adj sink_ids e n)
        ≡ false
      → IsTracked (extend max_depth max_candidates max_cross_file_hops nodes adj sink_ids e n)
  extend-IsTracked e n t edge fresh few =
      let hops : e.hops + (if crosses_file e.last_file (file_of nodes n) then 1 else 0)
          ≡ crossings nodes n (path_of e) =
        rw (t.hops, t.last_file) refl in
      record {
        route = record {
          from_source = t.route.from_source;
          linked = rw (edge, t.route.linked) refl;
          no_repeat = rw (fresh, t.route.no_repeat) refl;
          few_crossings = rw hops at (ltb_false _ _ few);
        };
        hops = hops;
        last_file = rw t.last_file refl;
      }
    where
      ltb_false : (a b : ℕ) → ltb a b ≡ false → b ≤ a
      ltb_false a b h = ground arith

  offer-AllTracked :
      (e : Entry) (n : String) (s : Search)
      → IsTracked e
      → contains (neighbors adj e.current) n ≡ true
      → AllTracked s.queue
      → AllTracked
          (offer max_depth max_candidates max_cross_file_hops nodes adj sink_ids e n s).queue
        × ((offer max_depth max_candidates max_cross_file_hops nodes adj sink_ids e n s).paths
            ≡ s.paths)
  unfolding offer
  offer-AllTracked e n s t edge h = elim (Bool-cases (contains (path_of e) n)) [
    | inl seen ↦ rw (offer, seen) (h, refl)
    | inr fresh ↦
        elim (Bool-cases (
          ltb max_cross_file_hops
            (hops_to max_depth max_candidates max_cross_file_hops nodes adj sink_ids e n))) [
              | inl far ↦ rw (offer, fresh, far) (h, refl)
              | inr few ↦
                  let more =
                    AllTracked-append s.queue _ h (extend-IsTracked e n t edge fresh few) in
                  elim (Bool-cases (
                    not (
                      was_visited n
                        (hops_to max_depth max_candidates max_cross_file_hops nodes adj sink_ids e
                          n)
                        s.visited)
                    || contains sink_ids n)) [
                      | inl new ↦ rw (offer, fresh, few, new) (more, refl)
                      | inr old ↦ rw (offer, fresh, few, old) (h, refl)
                    ]
            ]
  ]

  offer_all-AllTracked :
      (e : Entry) (ns : List String) (s : Search)
      → IsTracked e
      → all (contains (neighbors adj e.current)) ns ≡ true
      → AllTracked s.queue
      → AllTracked
          (offer_all max_depth max_candidates max_cross_file_hops nodes adj sink_ids e ns s).queue
        × ((offer_all max_depth max_candidates max_cross_file_hops nodes adj sink_ids e ns s).paths
            ≡ s.paths)
  unfolding offer_all
  offer_all-AllTracked e [] s t edges h = (h, refl)
  offer_all-AllTracked e (n ∷ ns) s t edges h =
      let edge : contains (neighbors adj e.current) n ≡ true = ground arith in
      let rest : all (contains (neighbors adj e.current)) ns ≡ true = ground arith in
      let s' = offer max_depth max_candidates max_cross_file_hops nodes adj sink_ids e n s in
      let (queue, paths) = offer-AllTracked e n s t edge h in
      let (queue', paths') = offer_all-AllTracked e ns s' t rest queue in (queue', paths' ∙ paths)

  -- A path that `_bfs_paths` may return.
  pub record IsFlow (x : String) (ys : List String) : Type 0 where
    pub route : IsRoute x ys
    pub at_sink : contains sink_ids x ≡ true
    pub short : length (x ∷ ys) ≤ max_depth

  abbrev pub AllFlows : List (List String) → Type 0
  AllFlows [] = Unit
  AllFlows ([] ∷ paths) = ⊥
  AllFlows ((x ∷ ys) ∷ paths) = IsFlow x ys × AllFlows paths

  AllFlows-append :
      (paths : List (List String)) (x : String) (ys : List String)
      → AllFlows paths
      → IsFlow x ys
      → AllFlows (paths ++ (x ∷ ys) ∷ [])
  AllFlows-append [] x ys h f = (f, tt)
  AllFlows-append ([] ∷ paths) x ys h f = absurd h
  AllFlows-append ((z ∷ zs) ∷ paths) x ys (a, h) f = (a, AllFlows-append paths x ys h f)

  record IsSound (s : Search) : Type 0 where
    queue : AllTracked s.queue
    paths : AllFlows s.paths

  round-IsSound :
      (e : Entry) (s : Search)
      → IsTracked e
      → IsSound s
      → IsSound (round max_depth max_candidates max_cross_file_hops nodes adj sink_ids e s)
        × (length (round max_depth max_candidates max_cross_file_hops nodes adj sink_ids e s).paths
            ≤ suc (length s.paths))
  unfolding round
  round-IsSound e s t h = elim (Bool-cases (ltb max_depth (length (path_of e)))) [
    | inl long ↦ rw (round, long) (h, omega arith)
    | inr short ↦ elim (Bool-cases (contains sink_ids e.current)) [
      | inl sink ↦
          let flow : IsFlow e.current e.earlier = record {
            route = t.route;
            at_sink = sink;
            short = ground arith;
          } in
          let more = length-append s.paths (path_of e ∷ []) in
          rw (round, short, sink)
            (
              record {
                queue = h.queue;
                paths = AllFlows-append s.paths e.current e.earlier h.paths flow;
              },
              omega (arith, more),
            )
      | inr inner ↦
          let (queue, paths) =
            offer_all-AllTracked e (neighbors adj e.current) s t
              (all_contained [] (neighbors adj e.current)) h.queue in
          rw (round, short, inner, paths)
            (record { queue = queue; paths = rw paths h.paths }, omega arith)
    ]
  ]

  abbrev IsResult : List (List String) → Type 0
  IsResult paths = AllFlows paths × (length paths ≤ max_candidates)

  loop-IsResult :
      (ops : ℕ) (s : Search)
      → IsSound s
      → length s.paths ≤ max_candidates
      → IsResult (loop max_depth max_candidates max_cross_file_hops nodes adj sink_ids ops s)
  unfolding loop
  loop-IsResult zero s h n = (h.paths, n)
  loop-IsResult (suc ops) s h n = elim (Bool-cases (leb max_candidates (length s.paths))) [
    | inl full ↦ rw (loop, full) (h.paths, n)
    | inr room ↦ elim (List-cases s.queue) [
      | inl e ↦ rw (loop, room, e) (h.paths, n)
      | inr (e, rest, q) ↦
          let (head, tail) = (rw q at h.queue) in
          let s' = record s { queue = rest } in
          let (sound, bound) = round-IsSound e s' head (record { queue = tail; paths = h.paths }) in
          rw (loop, room, q)
            (loop-IsResult ops
              (round max_depth max_candidates max_cross_file_hops nodes adj sink_ids e s') sound
              (ground arith))
    ]
  ]

  -- Every path that the search returns starts at the source, ends at a sink, follows edges that carry
  -- data, visits no node twice, is at most `max_depth` nodes long, and goes from one file to another at
  -- most `max_cross_file_hops` times; and there are at most `max_candidates` paths.
  pub bfs_paths-IsFlow :
      AllFlows (bfs_paths max_depth max_candidates max_cross_file_hops nodes adj sink_ids source_id)
      × (length
            (bfs_paths max_depth max_candidates max_cross_file_hops nodes adj sink_ids source_id)
          ≤ max_candidates)
  unfolding bfs_paths start
  bfs_paths-IsFlow =
      loop-IsResult max_bfs_ops
        (start max_depth max_candidates max_cross_file_hops nodes adj sink_ids source_id)
        (record {
          queue = (
            record {
              route = record {
                from_source = refl;
                linked = refl;
                no_repeat = refl;
                few_crossings = omega arith;
              };
              hops = refl;
              last_file = refl;
            },
            tt,
          );
          paths = tt;
        })
        (omega arith)
