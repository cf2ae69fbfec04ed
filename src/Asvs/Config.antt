-- ===== src/Asvs/Config.antt =====
-- app/services/asvs_service.py: the merges of the configuration findings, alone, with a static
-- marker, or with a live probe, and the merge of the live probe alone.
pub mod Bases
pub mod Verdicts
use control_gate_backend.Prelude.{
  ℕ, String, Bool, true, false, ◌&&◌, ◌||◌, Option, none, some, List, [], ◌∷◌, ◌++◌, map,
  if◌then◌else◌, get_or, str_eq, filter, any, is_cons, max_or,
}
use control_gate_backend.Prelude.Dict.{contains}
use control_gate_backend.Asvs.Types.{
  Verdict, is_verdict, Polarity, Basis, Message, Finding, Vulnerability, Evidence, ControlResult,
  Summary, contents,
}
use control_gate_backend.Asvs.Evidence.{
  untested, quoted_note, evidence_from_vuln, dynamic_by_static_id, config_item, probe_item,
}

-- `[f for f in findings if f.get("control_id") == control_id]`
abbrev pub for_control : String → List Finding → List Finding
for_control control_id fs = filter (λ f. str_eq f.control_id control_id) fs

-- `[f for f in findings if f.get("verdict") == v]`
abbrev pub with_verdict : Verdict → List Finding → List Finding
with_verdict v fs = filter (λ f. is_verdict v f.verdict) fs

-- `f.get("confidence") or 0` of each
abbrev pub confidences : List Finding → List ℕ
confidences fs = map (λ f. get_or f.confidence 0) fs

-- A result that a check or a human decided, with no reviewer and no reason.
abbrev pub decided :
    String
    → String
    → Verdict
    → Option ℕ
    → List Evidence
    → Option Basis
    → Option Basis
    → ControlResult
decided control_id scan_id verdict confidence evidence pass_basis fail_basis = record {
  control_id = control_id;
  scan_id = scan_id;
  verdict = verdict;
  confidence = confidence;
  evidence = evidence;
  llm_explanation = none;
  reviewed_by = none;
  reviewed_at = none;
  reason = none;
  pass_basis = pass_basis;
  fail_basis = fail_basis;
}

-- `"confirmed" if verdict == "pass" else None`
abbrev pub basis_if_pass : Verdict → Option Basis
basis_if_pass v = if is_verdict Verdict.pass (some v) then some Basis.confirmed else none

-- `"confirmed" if verdict == "fail" else None`
abbrev pub basis_if_fail : Verdict → Option Basis
basis_if_fail v = if is_verdict Verdict.fail (some v) then some Basis.confirmed else none

-- `"confirmed" if verdict in ("fail", "manual_review") else None`
abbrev pub basis_if_negative : Verdict → Option Basis
basis_if_negative v =
    if is_verdict Verdict.fail (some v) || is_verdict Verdict.manual_review (some v)
    then some Basis.confirmed
    else none

abbrev pub is_compliant : Option Polarity → Bool
is_compliant (some Polarity.compliant) = true
is_compliant (some Polarity.vulnerable) = false
is_compliant none = false

pub static_markers : String → Summary → List Vulnerability
static_markers control_id s =
    filter (λ v. contains v.asvs_controls control_id && is_compliant v.asvs_finding_polarity)
      s.vulnerabilities

-- `_merge_config_or_compliant_static`
pub merge_config_or_compliant_static : String → Option Summary → String → ControlResult
unfolding static_markers
merge_config_or_compliant_static control_id summary scan_id =
    let s = contents summary in
    let markers = static_markers control_id s in
    let findings = for_control control_id s.config_findings in
    let passing = with_verdict Verdict.pass findings in
    let failing = with_verdict Verdict.fail findings in
    if is_cons passing || is_cons markers
    then decided control_id scan_id Verdict.pass
        (some (max_or 60 (confidences passing ++ map (λ v. get_or v.confidence 0) markers)))
        (map config_item passing ++ map (evidence_from_vuln (dynamic_by_static_id s)) markers)
        (some Basis.confirmed) none
    else if is_cons failing
    then decided control_id scan_id Verdict.fail (some (max_or 50 (confidences failing)))
        (map config_item failing) none (some Basis.confirmed)
    else untested control_id scan_id (some Message.no_config_or_marker)

-- `_merge_config_or_dynamic`
pub merge_config_or_dynamic : String → Option Summary → String → ControlResult
merge_config_or_dynamic control_id summary scan_id =
    let s = contents summary in
    let config = for_control control_id s.config_findings in
    let probe = for_control control_id s.dynamic_probe_findings in
    let failing = with_verdict Verdict.fail config ++ with_verdict Verdict.fail probe in
    let passing = with_verdict Verdict.pass config ++ with_verdict Verdict.pass probe in
    if is_cons failing
    then decided control_id scan_id Verdict.fail (some (max_or 50 (confidences failing)))
        (map probe_item failing) none (some Basis.confirmed)
    else if is_cons passing
    then decided control_id scan_id Verdict.pass (some (max_or 50 (confidences passing)))
        (map probe_item passing) (some Basis.confirmed) none
    else untested control_id scan_id (some Message.no_config_or_probe)

-- `max(…, default=None)`
abbrev max_or_none : List ℕ → Option ℕ
max_or_none [] = none
max_or_none (x ∷ xs) = some (max_or 0 (x ∷ xs))

config_verdict : List Finding → Verdict
config_verdict findings =
    if is_cons (with_verdict Verdict.fail findings)
    then Verdict.fail
    else if any (λ f. is_verdict Verdict.pass f.verdict) findings
    then Verdict.pass
    else Verdict.not_tested

-- `failing or findings`
config_chosen : List Finding → List Finding
config_chosen findings =
    let failing = with_verdict Verdict.fail findings in
    if is_cons failing then failing else findings

config_result : String → String → List Finding → Verdict → ControlResult
unfolding config_chosen
config_result control_id scan_id findings verdict =
    record (decided control_id scan_id verdict (max_or_none (confidences (config_chosen findings)))
      (map config_item (config_chosen findings)) (basis_if_pass verdict) (basis_if_fail verdict)) {
        reason =
            if is_verdict Verdict.not_tested (some verdict)
            then some Message.no_definite_config
            else none;
      }

config_or_untested : String → String → List Finding → ControlResult
unfolding config_result config_verdict
config_or_untested control_id scan_id [] = untested control_id scan_id (some Message.no_config)
config_or_untested control_id scan_id (f ∷ fs) =
    config_result control_id scan_id (f ∷ fs) (config_verdict (f ∷ fs))

-- `_merge_config`
pub merge_config : String → Option Summary → String → ControlResult
unfolding config_or_untested
merge_config control_id summary scan_id =
    config_or_untested control_id scan_id
      (for_control control_id (contents summary).config_findings)

probe_result : String → String → Finding → Verdict → ControlResult
probe_result control_id scan_id f verdict =
    record (decided control_id scan_id verdict f.confidence
      (record (probe_item f) { file = none; line = none } ∷ []) (basis_if_pass verdict)
      (basis_if_negative verdict)) {
        reason = if is_verdict Verdict.not_tested (some verdict) then quoted_note f.note else none;
      }

first_probe : String → String → List Finding → ControlResult
unfolding probe_result
first_probe control_id scan_id [] = untested control_id scan_id (some Message.no_probe)
first_probe control_id scan_id (f ∷ _) =
    probe_result control_id scan_id f (get_or f.verdict Verdict.not_tested)

-- `_merge_dynamic`
pub merge_dynamic : String → Option Summary → String → ControlResult
unfolding first_probe
merge_dynamic control_id summary scan_id =
    first_probe control_id scan_id
      (for_control control_id (contents summary).dynamic_probe_findings)
