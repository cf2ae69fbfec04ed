-- ===== src/Asvs/Types.antt =====
-- app/services/asvs_service.py: the data that the verdict merge reads and writes. A scan summary is
-- a JSON document, so what the code reads by `.get` is an option; confidences and CVSS scores are
-- floats that the code only compares, and stand here as numbers of hundredths.
use control_gate_backend.Prelude.{ℕ, String, Bool, false, Option, none, some, List, [], ◌==◌}
use control_gate_backend.Prelude.Dict.{Dict}

-- The verdict texts of app/enums/asvs.py and of app/domain/analysis/dast/verdict.py.
pub data Verdict : Type 0 where
  pass fail n_a manual_review not_tested : Verdict
  confirmed inconclusive not_configured skipped_requires_active_authorization : Verdict

abbrev pub verdict_code : Verdict → ℕ
verdict_code Verdict.pass = 0
verdict_code Verdict.fail = 1
verdict_code Verdict.n_a = 2
verdict_code Verdict.manual_review = 3
verdict_code Verdict.not_tested = 4
verdict_code Verdict.confirmed = 5
verdict_code Verdict.inconclusive = 6
verdict_code Verdict.not_configured = 7
verdict_code Verdict.skipped_requires_active_authorization = 8

-- `verdict == "…"`, where a missing verdict is `None`.
abbrev pub is_verdict : Verdict → Option Verdict → Bool
is_verdict v none = false
is_verdict v (some w) = verdict_code w == verdict_code v

pub data Strategy : Type 0 where
  static_code config_inspection dependency_scan dynamic_probe manual_attestation : Strategy
  unknown : Strategy

pub data Polarity : Type 0 where
  vulnerable compliant : Polarity

-- The strength that a result claims for its evidence, `pass_basis` and `fail_basis`.
pub data Basis : Type 0 where
  confirmed no_findings unconfirmed : Basis

-- A text shown to the reader: a constructor for each template, with the values put into it.
pub data Message : Type 0 where
  quoted : String → Message
  no_attestation no_strategy no_config no_definite_config no_config_or_marker : Message
  no_config_or_probe no_probe wrong_dependency_control no_dependency_result : Message
  no_summary no_source only_weak_rules bridge_reproduced swept_clean : Message
  attested_without_proof : String → Message
  proof_type : String → Message
  unconfirmed_hits : ℕ → Message
  evaluated_by : List String → Option ℕ → Message
  evaluated_by_rules : ℕ → Option ℕ → Message
  dynamic_check : String → Message
  race_advisory : String → String → String → Message
  advisory : String → String → String → String → Message
  vulnerable_package : String → String → String → String → Message

-- One entry of `summary["dynamic_findings"]`, an app/domain/analysis/dast/findings.py record.
pub record DynamicFinding : Type 0 where
  pub control_id : String
  pub verdict : Option Verdict
  pub rule_id : Option String
  pub url : Option String
  pub method : Option String
  pub note : Option String
  pub severity : Option String
  pub confidence : Option ℕ
  pub evidence_type : Option String
  pub payload : Option String
  pub reproduction : Option String
  pub proof : Option String
  pub bridge_static_finding_id : Option String

-- One entry of `summary["vulnerabilities"]`.
pub record Vulnerability : Type 0 where
  pub id : Option String
  pub kind : Option String
  pub file : Option String
  pub start_line : Option ℕ
  pub code_snippet : Option String
  pub severity : Option String
  pub confidence : Option ℕ
  pub cvss_score : Option ℕ
  pub cwe : Option String
  pub asvs_controls : List String
  pub asvs_finding_polarity : Option Polarity
  pub explanation : Option String
  pub bridge_confirmed : Bool

-- One entry of the lists `config_findings`, `dynamic_probe_findings` and `capability_findings`.
pub record Finding : Type 0 where
  pub control_id : String
  pub verdict : Option Verdict
  pub file : Option String
  pub line : Option ℕ
  pub note : Option String
  pub severity : Option String
  pub confidence : Option ℕ

-- One entry of `summary["dependency_findings"]`, with the scores of its `cve_details`.
pub record DependencyRecord : Type 0 where
  pub package_name : String
  pub version : String
  pub vuln_id : String
  pub severity : String
  pub summary : String
  pub cvss_scores : List (Option ℕ)

pub record DependencyControl : Type 0 where
  pub verdict : Option Verdict
  pub note : Option String

pub record Summary : Type 0 where
  pub vulnerabilities : List Vulnerability
  pub config_findings : List Finding
  pub dynamic_probe_findings : List Finding
  pub capability_findings : List Finding
  pub dynamic_findings : List DynamicFinding
  pub dependency_findings : List DependencyRecord
  pub dependency_control_result : Option DependencyControl
  pub total_files : ℕ
  pub files_scanned : ℕ

abbrev pub empty_summary : Summary
empty_summary = record {
  vulnerabilities = [];
  config_findings = [];
  dynamic_probe_findings = [];
  capability_findings = [];
  dynamic_findings = [];
  dependency_findings = [];
  dependency_control_result = none;
  total_files = 0;
  files_scanned = 0;
}

-- What `.get` finds in the summary document; `none` is the empty document `{}`.
abbrev pub contents : Option Summary → Summary
contents none = empty_summary
contents (some s) = s

pub record Attestation : Type 0 where
  pub answer : Option Verdict
  pub evidence_url : Option String
  pub evidence_notes : Option String
  pub proof_type : Option String
  pub attested_by : Option String
  pub timestamp : Option String

pub record Control : Type 0 where
  pub control_id : String
  pub chapter_id : String
  pub level : String
  pub detection_strategy : Strategy

-- A rule of the catalog, as far as the merge reads it.
pub record QueryRule : Type 0 where
  pub name : String
  pub finding_polarity : Polarity
  pub asvs_controls : List String

-- The live test of one finding, shown as `live_proof` or as `dynamic_corroboration`.
pub record LiveProof : Type 0 where
  pub verdict : Option Verdict
  pub url : Option String
  pub method : Option String
  pub evidence_type : Option String
  pub payload : Option String
  pub note : Option String
  pub reproduction : Option String
  pub proof : Option String

-- An item of a result's evidence list; a key that an item does not have is `none`.
pub record Evidence : Type 0 where
  pub file : Option String
  pub line : Option ℕ
  pub note : Option Message
  pub code_snippet : Option String
  pub static_only : Option Bool
  pub severity : Option String
  pub confidence : Option ℕ
  pub cvss_score : Option ℕ
  pub cwe : Option String
  pub live_proof : Option LiveProof
  pub dynamic_corroboration : Option LiveProof

pub record ControlResult : Type 0 where
  pub control_id : String
  pub scan_id : String
  pub verdict : Verdict
  pub confidence : Option ℕ
  pub evidence : List Evidence
  pub llm_explanation : Option Message
  pub reviewed_by : Option String
  pub reviewed_at : Option String
  pub reason : Option Message
  pub pass_basis : Option Basis
  pub fail_basis : Option Basis

abbrev pub Attestations : Type 0
Attestations = Dict Attestation
