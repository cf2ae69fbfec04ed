-- ===== src/Classifier/Workers.antt =====
-- `classify_slices` of semantic_engine/classifier/classifier.py: the queue that its workers share.
use control_gate_backend.Prelude.{
  ℕ, zero, suc, Bool, true, false, not, ◌&&◌, ◌||◌, Option, none, some, List, [], ◌∷◌, ◌++◌, ltb,
  leb, ◌==◌, if◌then◌else◌, filter, take, drop, get_or, keep_some,
}
use control_gate_backend.Prelude.Sort.{sort_by}
use control_gate_backend.Prelude.Texts.{codes_of, lower, same_text}
use control_gate_backend.Pipeline.Findings.{CodeSlice, Classification, ClassifiedVulnerability}
use control_gate_backend.Classifier.{
  LlmResult, is_presence, severity_rank, static_only_result, confirmed,
}
use control_gate_backend.Classifier.Safe.{Searches, code_is_safe}

abbrev is_safe : Classification → Bool
is_safe Classification.safe = true
is_safe Classification.vulnerable = false
is_safe Classification.likely_vulnerable = false
is_safe Classification.unknown = false

abbrev safe_result : LlmResult
safe_result = record {
  classification = Classification.safe;
  severity = codes_of "low";
  confidence = 9500;
}

-- `conf_rank.get(confidence.lower(), 0)`, as a key that sorts the highest first
abbrev pub confidence_key : CodeSlice → ℕ
confidence_key s =
    let c = lower s.confidence in
    if same_text c (codes_of "critical")
    then 0
    else if same_text c (codes_of "high")
    then 1
    else if same_text c (codes_of "medium")
    then 2
    else if same_text c (codes_of "low")
    then 3
    else 4

-- `sort(key=(severity_rank, -final_confidence))`, which keeps the order of equal keys
abbrev ranks_before : ClassifiedVulnerability → ClassifiedVulnerability → Bool
ranks_before a b =
    let ra = severity_rank (get_or a.final_severity []) in
    let rb = severity_rank (get_or b.final_severity []) in
    ltb ra rb || (ra == rb && leb b.final_confidence a.final_confidence)

unfoldable pub insert_finding :
    ClassifiedVulnerability → List ClassifiedVulnerability → List ClassifiedVulnerability
insert_finding v [] = v ∷ []
insert_finding v (w ∷ ws) = if ranks_before v w then v ∷ w ∷ ws else w ∷ insert_finding v ws

unfoldable pub sort_findings : List ClassifiedVulnerability → List ClassifiedVulnerability
unfolding insert_finding
sort_findings [] = []
sort_findings (v ∷ vs) = insert_finding v (sort_findings vs)

-- What the workers do, one at a time: one takes the next slice, or the model answers for a slice that
-- one of them has taken.
pub data Turn : Type 0 where
  pull : Turn
  answer : ℕ → LlmResult → Turn

-- The queue, the slices that workers have taken, and the results so far.
pub record Queue : Type 0 where
  pub waiting : List CodeSlice
  pub taken : List CodeSlice
  pub results : List (Option ClassifiedVulnerability)

abbrev pub remove_at : ℕ → List CodeSlice → Option (CodeSlice × List CodeSlice)
remove_at i [] = none
remove_at zero (s ∷ ss) = some (s, ss)
remove_at (suc i) (s ∷ ss) = elim (remove_at i ss) [ none ↦ none | some r ↦ some (r.0, s ∷ r.1) ]

module _ (re : Searches) where
  -- the end of `_classify_with_service` and of `classify_slice`, from the result
  abbrev pub classify_result : CodeSlice → LlmResult → Option ClassifiedVulnerability
  classify_result s r = confirmed s (
      if not (is_safe r.classification) && code_is_safe re s.code_snippet s.rule_id
      then safe_result
      else r)

  -- `_classify_with_service`, with the model's answer
  abbrev pub classify_with_service : CodeSlice → LlmResult → Option ClassifiedVulnerability
  classify_with_service s r = classify_result s (if is_presence s then static_only_result s else r)

  -- `_fallback_classify`
  abbrev pub fallback_classify : CodeSlice → Option ClassifiedVulnerability
  fallback_classify s =
      if code_is_safe re s.code_snippet s.rule_id then none else confirmed s (static_only_result s)

  -- `get_nowait` of a worker whose pool is available
  abbrev pub pulled : List CodeSlice → Queue → Queue
  pulled [] q = q
  pulled (s ∷ ss) q = record { waiting = ss; taken = q.taken ++ s ∷ []; results = q.results }

  abbrev pub answered : LlmResult → Option (CodeSlice × List CodeSlice) → Queue → Queue
  answered r none q = q
  answered r (some (s, ss)) q = record {
    waiting = q.waiting;
    taken = ss;
    results = q.results ++ classify_with_service s r ∷ [];
  }

  unfoldable pub take_turn : Turn → Queue → Queue
  take_turn pull q = pulled q.waiting q
  take_turn (answer i r) q = answered r (remove_at i q.taken) q

  unfoldable pub take_turns : List Turn → Queue → Queue
  unfolding take_turn
  take_turns [] q = q
  take_turns (t ∷ ts) q = take_turns ts (take_turn t q)

  -- `_fallback_classify` of each slice
  unfoldable pub fallback_all : List CodeSlice → List (Option ClassifiedVulnerability)
  fallback_all [] = []
  fallback_all (s ∷ ss) = fallback_classify s ∷ fallback_all ss

  -- `classify_slice` of each slice that needs no model
  unfoldable pub static_all : List CodeSlice → List (Option ClassifiedVulnerability)
  static_all [] = []
  static_all (s ∷ ss) = classify_result s (static_only_result s) ∷ static_all ss

  -- the slices that the model is asked about
  abbrev pub llm_slices : List CodeSlice → List CodeSlice
  llm_slices slices = filter (λ s. not (is_presence s)) (sort_by confidence_key slices)

  -- the queue after the turns, which end when each worker has answered for what it took
  abbrev pub worked : ℕ → List Turn → List CodeSlice → Queue
  worked max_llm_calls turns slices =
      take_turns turns
        (record { waiting = take max_llm_calls (llm_slices slices); taken = []; results = [] })

  -- the results of `classify_slices` with the model, `None` among them
  unfoldable pub verdicts : ℕ → List Turn → List CodeSlice → List (Option ClassifiedVulnerability)
  unfolding sort_by take_turns fallback_all static_all
  verdicts max_llm_calls turns slices =
      let queue = worked max_llm_calls turns slices in
      let by_model =
        queue.results
        ++ fallback_all queue.waiting
        ++ fallback_all (drop max_llm_calls (llm_slices slices)) in
      static_all (filter is_presence (sort_by confidence_key slices)) ++ by_model

  -- `classify_slices`
  unfoldable pub classify_slices :
      Bool → ℕ → List Turn → List CodeSlice → List ClassifiedVulnerability
  unfolding sort_findings verdicts
  classify_slices enable_llm max_llm_calls turns slices =
      if enable_llm
      then sort_findings (keep_some (verdicts max_llm_calls turns slices))
      else sort_findings (keep_some (fallback_all (sort_by confidence_key slices)))
