-- ===== src/Dependencies/Examples.antt =====
-- app/services/dependency_scanner.py: the audit of two packages.
use control_gate_backend.Prelude.{
  String, true, ◌≡◌, refl, Option, none, some, List, [], ◌∷◌, all, any, str_eq, if◌then◌else◌,
}
use control_gate_backend.Prelude.Sort.{sort_by, insert_by}
use control_gate_backend.Dependencies.{
  DependencyRef, DependencyFinding, Severity, past, Vuln, has_same_key, dedupe, extract_severity,
  severity_named, first_severity, entry_severity, whole_part, query_osv, Verdict, evaluate_v15_2_1,
  evaluate_breached,
}
use control_gate_backend.Dependencies.Dedupe.{dedupe-AreDistinct_covered}
use control_gate_backend.Dependencies.Policy.{evaluate-query, evaluate-worst}

abbrev flask : String → DependencyRef
flask name = record {
  name = name;
  version = "2.0";
  ecosystem = "PyPI";
  source_file = "requirements.txt";
}

abbrev vuln : Vuln
vuln = record {
  id = some "GHSA-1";
  database_severity = none;
  severity_entries = record { kind = some "CVSS_V3"; score = some "7.5" } ∷ [];
  days_since = some (past 31);
}

abbrev ask : DependencyRef → Option (List Vuln)
ask r = if str_eq r.name "flask" then some (vuln ∷ []) else none

abbrev late : DependencyFinding
late = record {
  package_name = "flask";
  version = "2.0";
  vuln_id = "GHSA-1";
  severity = Severity.high;
  days_since_published = some (past 31);
  sla_days = 30;
  breached_sla = true;
}

dedupe-AreDistinct_covered_example :
    all
      (λ r. any (has_same_key r) (dedupe [] (flask "Flask" ∷ flask "flask" ∷ [])))
      (flask "Flask" ∷ flask "flask" ∷ [])
    ≡ true
dedupe-AreDistinct_covered_example =
    (dedupe-AreDistinct_covered (flask "Flask" ∷ flask "flask" ∷ [])).1

evaluate-query_example :
    (evaluate_v15_2_1 (query_osv ask (flask "flask" ∷ flask "jinja2" ∷ []))).verdict ≡ Verdict.fail
unfolding extract_severity severity_named first_severity entry_severity whole_part
evaluate-query_example = evaluate-query ask (flask "flask" ∷ flask "jinja2" ∷ [])

evaluate-worst_example : late.breached_sla ≡ true
unfolding evaluate_v15_2_1 evaluate_breached sort_by insert_by
evaluate-worst_example = (evaluate-worst (late ∷ []) 1 1 late refl).0
