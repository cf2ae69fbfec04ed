-- ===== src/Discovery/Labels.antt =====
-- semantic_engine/path_discovery.py and semantic_engine/query_executor/executor.py: the tests on a
-- node's label and on the source at a sink, on ASCII text.
use control_gate_backend.Prelude.{
  ℕ, zero, suc, Bool, false, not, ◌-◌, ◌&&◌, ◌||◌, List, [], ◌∷◌, ◌++◌, if◌then◌else◌, ◌==◌, any,
  is_cons, is_truthy, get_or, take,
}
use control_gate_backend.Prelude.Texts.{
  Text, codes_of, lower, same_text, is_space, is_word_code, has_part,
}
use control_gate_backend.Discovery.Graph.{GraphNode}

-- The tokens of a label, with the characters of the one that is being read.
unfoldable pub tokens_from : Text → Text → List Text
tokens_from current [] = if is_cons current then current ∷ [] else []
tokens_from current (c ∷ cs) =
    let word = tokens_from (current ++ c ∷ []) cs in
    let others = tokens_from [] cs in
    if is_word_code c then word else if is_cons current then current ∷ others else others

-- a dot, a parenthesis or a quotation mark
abbrev is_mark : ℕ → Bool
is_mark c = c == b'.' || c == b'(' || c == b')' || c == 39 || c == b'"'

-- `_label_matches_pattern`; its case of a leading dot is behind the test for a dot, and never arises.
unfoldable pub label_matches_pattern : Text → Text → Bool
unfolding tokens_from
label_matches_pattern label_lower pattern_lower =
    if not (is_cons pattern_lower)
    then false
    else if any is_mark pattern_lower
    then has_part pattern_lower label_lower
    else any (same_text pattern_lower) (tokens_from [] label_lower)

-- `(node.name or node.id).lower()`
abbrev pub label_of : GraphNode → Text
label_of n = lower (codes_of (if is_truthy n.name then get_or n.name "" else n.id))

-- `sink_looks_like_db_query_call`
unfoldable pub looks_like_db_query : GraphNode → Bool
looks_like_db_query sink_node =
    any (λ token. has_part (codes_of token) (label_of sink_node))
      ("query" ∷ "execute" ∷ "executemany" ∷ "raw" ∷ [])

-- `text.split("\n")`
abbrev push_code : ℕ → List Text → List Text
push_code c [] = (c ∷ []) ∷ []
push_code c (line ∷ lines) = (c ∷ line) ∷ lines

unfoldable pub split_lines : Text → List Text
split_lines [] = [] ∷ []
split_lines (c ∷ cs) = let rest = split_lines cs in if c == 10 then [] ∷ rest else push_code c rest

abbrev pub drop_lines : ℕ → List Text → List Text
drop_lines zero lines = lines
drop_lines (suc n) [] = []
drop_lines (suc n) (_ ∷ lines) = drop_lines n lines

-- `"\n".join(lines)`
abbrev pub join_lines : List Text → Text
join_lines [] = []
join_lines (line ∷ []) = line
join_lines (line ∷ next ∷ lines) = line ++ 10 ∷ join_lines (next ∷ lines)

-- `\s*\[` at the start of a text
abbrev opens_list : Text → Bool
opens_list [] = false
opens_list (c ∷ cs) = let rest = opens_list cs in if is_space c then rest else c == b'['

-- `_PARAMETERIZED_QUERY_ARG_RE.search`
unfoldable pub has_list_argument : Text → Bool
has_list_argument [] = false
has_list_argument (c ∷ cs) = (c == b',' && opens_list cs) || has_list_argument cs

-- `sink_call_is_parameterized_query`, for the line of the sink
unfoldable pub is_parameterized : ℕ → Text → Bool
unfolding split_lines has_list_argument
is_parameterized line file_source =
    if line == 0 || not (is_cons file_source)
    then false
    else has_list_argument (join_lines (take 6 (drop_lines (line - 1) (split_lines file_source))))
