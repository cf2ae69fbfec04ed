-- ===== src/Executor.antt =====
-- `_deduplicate_slices` of semantic_engine/query_executor/executor.py. A confidence score is a float and
-- a number of tenths here.
pub mod Unique
pub mod Strongest
mod Examples
use control_gate_backend.Prelude.{
  ℕ, zero, suc, String, Bool, true, false, not, ◌+◌, ◌-◌, ◌*◌, ◌&&◌, ◌||◌, Option, none, some, List,
  [], ◌∷◌, ◌==◌, if◌then◌else◌, str_eq, length, is_cons,
}
use control_gate_backend.Prelude.Sort.{sort_by}
use control_gate_backend.Prelude.Texts.{
  Text, codes_of, lower, same_text, has_part, strip_front, is_space,
}
use control_gate_backend.Pipeline.Findings.{CodeSlice, Rank, below}

-- The tuple `key`.
pub record SliceKey : Type 0 where
  pub rule_id : String
  pub sink_label : Option Text
  pub file : Option String
  pub start_line : Option ℕ
  pub end_line : Option ℕ

abbrev pub key_of : CodeSlice → SliceKey
key_of s = record {
  rule_id = s.rule_id;
  sink_label = s.sink_label;
  file = s.location.file;
  start_line = s.location.start_line;
  end_line = s.location.end_line;
}

-- `==` of two values that may be missing
abbrev pub same_option : {A : Type 0} → (A → A → Bool) → Option A → Option A → Bool
same_option same none none = true
same_option same none (some y) = false
same_option same (some x) none = false
same_option same (some x) (some y) = same x y

unfoldable pub same_key : SliceKey → SliceKey → Bool
same_key a b =
    str_eq a.rule_id b.rule_id
    && same_option same_text a.sink_label b.sink_label
    && same_option str_eq a.file b.file
    && same_option (λ m n. m == n) a.start_line b.start_line
    && same_option (λ m n. m == n) a.end_line b.end_line

-- `confidence_score`
abbrev confidence_score : Text → ℕ
confidence_score conf =
    let c = lower conf in
    if same_text c (codes_of "high")
    then 9
    else if same_text c (codes_of "medium")
    then 6
    else if same_text c (codes_of "low")
    then 3
    else 5

-- `severity_order.get(severity.lower(), 4)`
abbrev severity_order : Text → ℕ
severity_order severity =
    let s = lower severity in
    if same_text s (codes_of "critical")
    then 0
    else if same_text s (codes_of "high")
    then 1
    else if same_text s (codes_of "medium")
    then 2
    else if same_text s (codes_of "low")
    then 3
    else 4

-- `rank`; a severity that is negated ranks as its distance from the least severe
abbrev pub rank_slice : CodeSlice → Rank
rank_slice s = record {
  evidence = if has_part (codes_of "DFG_FLOW") (codes_of s.pattern_type) then 1 else 0;
  has_snippet = if is_cons (strip_front is_space s.code_snippet) then 1 else 0;
  conf = confidence_score s.confidence;
  sev = 4 - severity_order s.severity;
  path_len = length s.path_nodes;
}

-- the body of the loop that fills `best_by_key`
unfoldable pub keep_better : CodeSlice → List CodeSlice → List CodeSlice
unfolding same_key
keep_better s [] = s ∷ []
keep_better s (t ∷ ts) =
    let later = keep_better s ts in
    if same_key (key_of t) (key_of s)
    then (if below (rank_slice t) (rank_slice s) then s else t) ∷ ts
    else t ∷ later

unfoldable pub best_by_key : List CodeSlice → List CodeSlice → List CodeSlice
unfolding keep_better
best_by_key kept [] = kept
best_by_key kept (s ∷ ss) = best_by_key (keep_better s kept) ss

-- the key of the last sort, severity before negated confidence
abbrev pub sort_key : CodeSlice → ℕ
sort_key s = severity_order s.severity * 10 + (9 - confidence_score s.confidence)

-- `_deduplicate_slices`
unfoldable pub deduplicate_slices : List CodeSlice → List CodeSlice
unfolding sort_by best_by_key
deduplicate_slices slices = sort_by sort_key (best_by_key [] slices)
