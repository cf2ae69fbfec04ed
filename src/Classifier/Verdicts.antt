-- ===== src/Classifier/Verdicts.antt =====
-- `classify_slices` of semantic_engine/classifier/classifier.py: every verdict judges a slice.
use control_gate_backend.Prelude.{
  ℕ, Bool, true, ◌≡◌, ◌≤◌, List, ◌++◌, map, filter, drop, all, count_if, Option,
}
use control_gate_backend.Prelude.Sort.{sort_by}
use control_gate_backend.Pipeline.Findings.{CodeSlice, ClassifiedVulnerability}
use control_gate_backend.Classifier.{is_presence}
use control_gate_backend.Classifier.Safe.{Searches}
use control_gate_backend.Classifier.Workers.{Turn, confidence_key, llm_slices}
use control_gate_backend.Classifier.Judgments.{
  Judgment, is_by_model, is_fitting, slices_of, verdict_of,
}

-- The four parts of the judgments.
module _ {A : Type 0} (a b c d : List A) where
  abbrev parts : List A
  parts = a ++ ((b ++ c) ++ d)

module _ (re : Searches) where
  -- The judgments behind a list of verdicts: each slice is judged as often as it stands in the list,
  -- by its rule alone exactly where its rule's match is the verdict, and at most `max_llm_calls`
  -- slices by the model.
  abbrev pub AreJudgments :
      ℕ → List CodeSlice → List (Option ClassifiedVulnerability) → List Judgment → Type 0
  AreJudgments max_llm_calls slices vs js =
      (map (verdict_of re) js ≡ vs)
      × ((p : CodeSlice → Bool) → count_if p (slices_of js) ≡ count_if p slices)
      × (all (is_fitting is_presence) js ≡ true)
      × (count_if is_by_model js ≤ max_llm_calls)

  module _ (max_llm_calls : ℕ) (slices : List CodeSlice) (turns : List Turn) where
    -- The slices that the model is asked about, and those among them above the limit.
    abbrev asked : List CodeSlice
    asked = llm_slices re slices

    abbrev over : List CodeSlice
    over = drop max_llm_calls asked

    abbrev certain : List CodeSlice
    certain = filter is_presence (sort_by confidence_key slices)
