-- ===== src/Asvs/Static.antt =====
-- app/services/asvs_service.py: the catalog's rules by control, and the merge of the static engine's
-- findings with the capability checks.
pub mod Index
pub mod Verdicts
pub mod Bases
mod Examples
use control_gate_backend.Prelude.Texts.{Text, codes_of}
use control_gate_backend.Prelude.{
  ltb, leb, str_eq, ◌||◌, false, ℕ, String, Bool, not, ◌&&◌, Option, none, some, List, [], ◌∷◌,
  ◌++◌, map, ◌==◌, if◌then◌else◌, get_or, is_truthy, filter, all, is_cons, length,
}
use control_gate_backend.Prelude.Dict.{Dict, contains, lookup, insert}
use control_gate_backend.Asvs.Types.{
  Verdict, is_verdict, Basis, Message, Vulnerability, Finding, QueryRule, Evidence, ControlResult,
  Summary, contents,
}
use control_gate_backend.Asvs.Evidence.{
  untested, quoted_note, evidence_from_vuln, dynamic_by_static_id, capability_item,
  dynamic_evidence_for_control,
}
use control_gate_backend.Asvs.Config.{
  decided, basis_if_pass, basis_if_negative, is_compliant, for_control,
}
use control_gate_backend.Asvs.Attest.{is_llm_confirmed, is_confirmed_hit}

abbrev pub RuleIndex : Type 0
RuleIndex = Dict (List QueryRule)

-- `index.get(control_id, [])`
abbrev pub rules_of : RuleIndex → String → List QueryRule
rules_of index control_id = get_or (lookup control_id index) []

-- `for control_id in rule.asvs_controls: index[control_id].append(rule)`
index_rule : QueryRule → List String → RuleIndex → RuleIndex
index_rule rule [] index = index
index_rule rule (c ∷ cs) index = index_rule rule cs (insert c (rules_of index c ++ rule ∷ []) index)

index_rules : List QueryRule → RuleIndex → RuleIndex
unfolding index_rule
index_rules [] index = index
index_rules (r ∷ rs) index = index_rules rs (index_rule r r.asvs_controls index)

-- `_rule_index`
pub rule_index : List QueryRule → RuleIndex
unfolding index_rules
rule_index rules = index_rules rules []

-- The result of a capability check, which `_merge_static` reads first.
capability_result : String → String → Finding → Verdict → ControlResult
capability_result control_id scan_id cap verdict =
    record (decided control_id scan_id verdict cap.confidence
      (if is_truthy cap.file then capability_item cap ∷ [] else []) (basis_if_pass verdict)
      (basis_if_negative verdict)) {
        llm_explanation = quoted_note cap.note;
        reason =
            if is_verdict Verdict.not_tested (some verdict) then quoted_note cap.note else none;
      }

-- The evidence of `hits`, and of the live checks that none of them shows.
hit_evidence : String → Summary → List Vulnerability → List Evidence
hit_evidence control_id s hits =
    map (evidence_from_vuln (dynamic_by_static_id s)) hits
    ++ dynamic_evidence_for_control control_id s (map (λ v. v.id) hits)

hit_explanation : ℕ → Verdict → Vulnerability → Option Message
hit_explanation hits verdict worst =
    if is_verdict Verdict.manual_review (some verdict)
    then some (Message.unconfirmed_hits hits)
    else if worst.bridge_confirmed && not (is_llm_confirmed worst.explanation)
    then some Message.bridge_reproduced
    else quoted_note worst.explanation

vulnerable_result :
    String → String → Summary → ℕ → Verdict → Basis → List Vulnerability → ControlResult
unfolding hit_evidence hit_explanation
vulnerable_result control_id scan_id s hits verdict basis [] = untested control_id scan_id none
vulnerable_result control_id scan_id s hits verdict basis (worst ∷ rest) =
    record (decided control_id scan_id verdict worst.confidence
      (hit_evidence control_id s (worst ∷ rest)) none (some basis)) {
        llm_explanation = hit_explanation hits verdict worst;
      }

-- Some hit is not a marker of compliance. The empty list of `vulnerable_result` does not arise.
judge_hits : String → String → Summary → List Vulnerability → ControlResult
unfolding vulnerable_result
judge_hits control_id scan_id s hits =
    let confirmed_hits = filter is_confirmed_hit hits in
    if is_cons confirmed_hits
    then vulnerable_result control_id scan_id s (length hits) Verdict.fail Basis.confirmed
        confirmed_hits
    else vulnerable_result control_id scan_id s (length hits) Verdict.manual_review
        Basis.unconfirmed hits

first_confidence : List Vulnerability → Option ℕ
first_confidence [] = none
first_confidence (best ∷ _) = best.confidence

-- Only markers of compliance matched.
marker_result : String → String → Summary → List Vulnerability → ControlResult
unfolding hit_evidence first_confidence
marker_result control_id scan_id s matches =
    decided control_id scan_id Verdict.pass (first_confidence matches)
      (hit_evidence control_id s matches) (some Basis.confirmed) none

-- `summary.get("files_scanned") or summary.get("total_files")`
coverage : Summary → Option ℕ
coverage s = if s.files_scanned == 0 then some s.total_files else some s.files_scanned

-- Python's order of texts, by their code points
comes_before : Text → Text → Bool
comes_before [] ys = is_cons ys
comes_before (x ∷ xs) [] = false
comes_before (x ∷ xs) (y ∷ ys) = ltb x y || (x == y && comes_before xs ys)

insert_name : String → List String → List String
unfolding comes_before
insert_name name [] = name ∷ []
insert_name name (n ∷ ns) =
    if str_eq name n
    then n ∷ ns
    else if comes_before (codes_of name) (codes_of n)
    then name ∷ n ∷ ns
    else n ∷ insert_name name ns

-- `sorted({r.name for r in rules})`
sorted_names : List QueryRule → List String
unfolding insert_name
sorted_names [] = []
sorted_names (r ∷ rs) = insert_name r.name (sorted_names rs)

-- the `reason`, which names at most three rules
swept_reason : List String → Option ℕ → Message
swept_reason names files =
    if leb (length names) 3
    then Message.evaluated_by names files
    else Message.evaluated_by_rules (length names) files

-- Every rule for the control ran and matched nothing.
swept_result : String → String → Summary → List QueryRule → ControlResult
unfolding coverage sorted_names swept_reason
swept_result control_id scan_id s rules =
    record (decided control_id scan_id Verdict.pass (some 60)
      (dynamic_evidence_for_control control_id s []) (some Basis.no_findings) none) {
        llm_explanation = some Message.swept_clean;
        reason = some (swept_reason (sorted_names rules) (coverage s));
      }

abbrev pub is_marker_rule : QueryRule → Bool
is_marker_rule r = is_compliant (some r.finding_polarity)

judge_absence : String → String → Summary → List QueryRule → ControlResult
unfolding swept_result
judge_absence control_id scan_id s rules =
    if s.total_files == 0
    then untested control_id scan_id (some Message.no_source)
    else if all is_marker_rule rules
    then untested control_id scan_id (some Message.only_weak_rules)
    else swept_result control_id scan_id s rules

without_matches : String → String → Option Summary → List QueryRule → ControlResult
unfolding judge_absence
without_matches control_id scan_id none rules =
    untested control_id scan_id (some Message.no_summary)
without_matches control_id scan_id (some s) rules = judge_absence control_id scan_id s rules

pub matches_of : String → Summary → List Vulnerability
matches_of control_id s = filter (λ v. contains v.asvs_controls control_id) s.vulnerabilities

-- the rest of `_merge_static`, where no capability check has a finding
judge_matches : String → String → Option Summary → List QueryRule → ControlResult
unfolding judge_hits marker_result without_matches
judge_matches control_id scan_id summary rules =
    let s = contents summary in
    let matches = matches_of control_id s in
    let hits = filter (λ v. not (is_compliant v.asvs_finding_polarity)) matches in
    if is_cons matches
    then (if is_cons hits
        then judge_hits control_id scan_id s hits
        else marker_result control_id scan_id s matches)
    else without_matches control_id scan_id summary rules

capability_first : String → String → List Finding → ControlResult → ControlResult
unfolding capability_result
capability_first control_id scan_id [] otherwise = otherwise
capability_first control_id scan_id (cap ∷ _) otherwise =
    capability_result control_id scan_id cap (get_or cap.verdict Verdict.not_tested)

-- `_merge_static`
pub merge_static : RuleIndex → String → Option Summary → String → ControlResult
unfolding capability_first judge_matches
merge_static index control_id summary scan_id =
    capability_first control_id scan_id
      (for_control control_id (contents summary).capability_findings)
      (judge_matches control_id scan_id summary (rules_of index control_id))
