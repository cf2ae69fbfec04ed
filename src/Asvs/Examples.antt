-- ===== src/Asvs/Examples.antt =====
-- app/services/asvs_service.py: the verdict merge at a concrete scan.
use control_gate_backend.Prelude.{String, true, false, ◌≡◌, refl, none, some, List, [], ◌∷◌, any}
use control_gate_backend.Prelude.Dict.{lookup}
use control_gate_backend.Asvs.Types.{
  Verdict, Strategy, Polarity, Finding, Vulnerability, DynamicFinding, Summary, QueryRule, Control,
  Attestations,
}
use control_gate_backend.Asvs.Evidence.{dynamic_by_static_id}
use control_gate_backend.Asvs.Evidence.Bridge.{
  IsFirstStrongest, dynamic_by_static_id-IsFirstStrongest,
}
use control_gate_backend.Asvs.Basis.{BasesAgree}
use control_gate_backend.Asvs.Config.{merge_config_or_dynamic, merge_config_or_compliant_static}
use control_gate_backend.Asvs.Config.Verdicts.{
  merge_config_or_dynamic-verdict, merge_config_or_compliant_static-best,
}
use control_gate_backend.Asvs.Static.{rules_of, rule_index, merge_static}
use control_gate_backend.Asvs.Static.Index.{rule_index-any}
use control_gate_backend.Asvs.Static.Verdicts.{merge_static-verdict}
use control_gate_backend.Asvs.Attest.{is_confirmed_hit, is_llm_confirmed, vulnerable_hits}
use control_gate_backend.Asvs.Compute.{compute_attested, compute_result}
use control_gate_backend.Asvs.Compute.Verdicts.{compute_attested-verdict, compute_result-BasesAgree}
use control_gate_backend.Asvs.Results.{Database, build_results_for_scan}
use control_gate_backend.Asvs.Results.Stored.{find_result, result_for, build_results-stored}
use control_gate_backend.Asvs.Compliance.{chapters, level_score, manual_tasks}
use control_gate_backend.Asvs.Compliance.Counts.{IsBreakdown, chapters-IsBreakdown}
use control_gate_backend.Asvs.Compliance.Levels.{IsWithin, levels_cumulative}
use control_gate_backend.Asvs.Compliance.Queue.{IsQueue, manual_tasks-IsQueue}

abbrev finding : String → Verdict → Finding
finding c v = record {
  control_id = c;
  verdict = some v;
  file = some "app.py";
  line = some 3;
  note = some "cookie flags";
  severity = none;
  confidence = some 90;
}

abbrev injection : Vulnerability
injection = record {
  id = some "v1";
  kind = some "sql_injection";
  file = some "db.py";
  start_line = some 12;
  code_snippet = none;
  severity = some "high";
  confidence = some 80;
  cvss_score = some 910;
  cwe = some "CWE-89";
  asvs_controls = "V1.2.4" ∷ [];
  asvs_finding_polarity = some Polarity.vulnerable;
  explanation = some "input reaches the query";
  bridge_confirmed = false;
}

abbrev check : Verdict → DynamicFinding
check v = record {
  control_id = "V1.2.4";
  verdict = some v;
  rule_id = some "sql_injection";
  url = some "/items";
  method = some "GET";
  note = none;
  severity = none;
  confidence = none;
  evidence_type = none;
  payload = none;
  reproduction = none;
  proof = none;
  bridge_static_finding_id = some "v1";
}

-- One injection that two live checks re-tested, and a cookie check that fails once and passes once.
abbrev summary : Summary
summary = record {
  vulnerabilities = injection ∷ [];
  config_findings =
      finding "V3.3.1" Verdict.pass
      ∷ finding "V3.3.1" Verdict.fail
      ∷ finding "V3.5.8" Verdict.fail
      ∷ finding "V3.5.8" Verdict.pass
      ∷ [];
  dynamic_probe_findings = finding "V3.3.1" Verdict.fail ∷ [];
  capability_findings = [];
  dynamic_findings = check Verdict.inconclusive ∷ check Verdict.confirmed ∷ [];
  dependency_findings = [];
  dependency_control_result = none;
  total_files = 4;
  files_scanned = 4;
}

abbrev sql_rule : QueryRule
sql_rule = record {
  name = "sql_injection";
  finding_polarity = Polarity.vulnerable;
  asvs_controls = "V1.2.4" ∷ "V1.2.5" ∷ [];
}

abbrev control : String → String → Strategy → Control
control c level s = record {
  control_id = c;
  chapter_id = "V1";
  level = level;
  detection_strategy = s;
}

abbrev controls : List Control
controls =
    control "V1.2.4" "L1" Strategy.static_code
    ∷ control "V1.2.5" "L2" Strategy.static_code
    ∷ control "V1.1.1" "L3" Strategy.manual_attestation
    ∷ []

abbrev answers : Attestations
answers =
    (
      "V1.1.1",
      record {
        answer = some Verdict.pass;
        evidence_url = none;
        evidence_notes = some "design document";
        proof_type = none;
        attested_by = some "u1";
        timestamp = none;
      },
    )
    ∷ []

abbrev database : Database
database = record {
  scans = record { scan_id = "s1"; user_id = some "u1"; summary = some summary } ∷ [];
  attestations = [];
  asvs_controls = controls;
  asvs_results = [];
}

merge_config_or_dynamic-verdict_example :
    (merge_config_or_dynamic "V3.3.1" (some summary) "s1").verdict ≡ Verdict.fail
merge_config_or_dynamic-verdict_example =
    merge_config_or_dynamic-verdict "V3.3.1" (some summary) "s1"

merge_config_or_compliant_static-best_example :
    (merge_config_or_compliant_static "V3.5.8" (some summary) "s1").verdict ≡ Verdict.pass
merge_config_or_compliant_static-best_example =
    merge_config_or_compliant_static-best "V3.5.8" (some summary) "s1"

merge_static-verdict_example :
    (merge_static (rule_index (sql_rule ∷ [])) "V1.2.4" (some summary) "s1").verdict ≡ Verdict.fail
unfolding is_confirmed_hit is_llm_confirmed
merge_static-verdict_example =
    merge_static-verdict (rule_index (sql_rule ∷ [])) "V1.2.4" (some summary) "s1"

rule_index-any_example : any (λ r. true) (rules_of (rule_index (sql_rule ∷ [])) "V1.2.5") ≡ true
rule_index-any_example = rule_index-any (λ r. true) (sql_rule ∷ []) "V1.2.5"

compute_attested-verdict_example :
    (compute_attested "V1.1.1" (some summary) answers "s1").verdict ≡ Verdict.pass
unfolding vulnerable_hits is_confirmed_hit is_llm_confirmed
compute_attested-verdict_example = compute_attested-verdict "V1.1.1" (some summary) answers "s1"

compute_result-BasesAgree_example : BasesAgree (
    compute_result
      (rule_index (sql_rule ∷ []))
      (control "V1.2.4" "L1" Strategy.static_code)
      (some summary)
      answers
      "s1")
compute_result-BasesAgree_example =
    compute_result-BasesAgree (rule_index (sql_rule ∷ []))
      (control "V1.2.4" "L1" Strategy.static_code) (some summary) answers "s1"

build_results-stored_example :
    let (results, db') = build_results_for_scan (sql_rule ∷ []) "s1" (some "u2") database in
    (lookup "V1.2.4" results
      ≡ some (
          result_for
            (sql_rule ∷ [])
            "s1"
            (some "u2")
            database
            (control "V1.2.4" "L1" Strategy.static_code)))
    × (find_result "s1" "V1.2.4" db'.asvs_results
        ≡ some (
            result_for
              (sql_rule ∷ [])
              "s1"
              (some "u2")
              database
              (control "V1.2.4" "L1" Strategy.static_code)))
build_results-stored_example =
    (build_results-stored (sql_rule ∷ []) "s1" (some "u2") database
      ((refl, (refl, tt)), ((refl, tt), (tt, tt)))).0

dynamic_by_static_id-IsFirstStrongest_example :
    IsFirstStrongest "v1" summary.dynamic_findings (lookup "v1" (dynamic_by_static_id summary))
dynamic_by_static_id-IsFirstStrongest_example = dynamic_by_static_id-IsFirstStrongest "v1" summary

chapters-IsBreakdown_example : IsBreakdown [] controls (chapters [] controls)
chapters-IsBreakdown_example = chapters-IsBreakdown [] controls

levels_cumulative_example :
    IsWithin (level_score (λ a b. a) [] controls "L1") (level_score (λ a b. a) [] controls "L2")
levels_cumulative_example = (levels_cumulative (λ a b. a) [] controls).0

manual_tasks-IsQueue_example : IsQueue [] answers controls (manual_tasks [] answers controls)
manual_tasks-IsQueue_example = manual_tasks-IsQueue [] answers controls
