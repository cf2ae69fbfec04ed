-- ===== src/Classifier.antt =====
-- semantic_engine/classifier/classifier.py: how a slice becomes a classified vulnerability. A
-- confidence is a float and a number here, in units of a ten-thousandth. The answer of the language
-- model is an argument, and so is `re.search` for each of the patterns.
pub mod Safe
pub mod Workers
pub mod Judgments
pub mod Verdicts
pub mod Presence
mod Examples
use control_gate_backend.Prelude.{
  ℕ, zero, suc, String, Bool, true, false, not, ◌+◌, ◌/◌, ◌&&◌, ◌||◌, Option, none, some, List, [],
  ◌∷◌, ◌++◌, ltb, leb, ◌==◌, if◌then◌else◌, str_eq, get_or,
}
use control_gate_backend.Prelude.Dict.{contains}
use control_gate_backend.Prelude.Texts.{Text, codes_of, lower, same_text}
use control_gate_backend.Pipeline.Findings.{CodeSlice, Classification, ClassifiedVulnerability}

-- What the classifier reads of `LLMClassificationResult`.
pub record LlmResult : Type 0 where
  pub classification : Classification
  pub severity : Text
  pub confidence : ℕ

-- `_PRESENCE_VULN_RULES`
abbrev pub presence_vuln_rules : List String
presence_vuln_rules =
    "INSECURE_DESERIALIZATION" ∷ "WEAK_CRYPTO" ∷ "USE_OF_HARD_CODED_IV" ∷ "DEBUG_MODE_ENABLED"
    ∷ "DISABLED_CERTIFICATE_VALIDATION" ∷ "JWT_NONE_ALGORITHM" ∷ "JWT_WEAK_SECRET"
    ∷ "HARDCODED_SECRETS" ∷ "LOGGING_DISABLED" ∷ "AWS_METADATA_ACCESS" ∷ "GCP_METADATA_ACCESS"
    ∷ "AZURE_METADATA_ACCESS" ∷ "IMDS_TOKENLESS" ∷ "A06_NPM_RESOLVED_HTTP" ∷ "A06_NPM_REGISTRY_HTTP"
    ∷ "A06_PYTHON_VCS_DEP" ∷ "A06_PIPFILE_VCS" ∷ "VULNERABLE_COMPONENTS" ∷ "INSECURE_WEBSOCKET"
    ∷ "SECRET_QUESTIONS_PRESENT" ∷ "SESSION_VERIFICATION_BYPASSED" ∷ "JWT_EXP_NBF_NOT_VERIFIED"
    ∷ "JWT_HEADER_SOURCE_NOT_VALIDATED" ∷ "PASSWORD_FIELD_NOT_MASKED" ∷ "WEAK_PASSWORD_MIN_LENGTH"
    ∷ "OVERLY_RESTRICTIVE_PASSWORD_COMPOSITION" ∷ "PASSWORD_MANAGER_BLOCKED"
    ∷ "PASSWORD_MODIFIED_BEFORE_VERIFY" ∷ "STATIC_SESSION_SECRET" ∷ []

-- `pattern_type == "REGEX" and rule_id in _PRESENCE_VULN_RULES`
abbrev pub is_presence : CodeSlice → Bool
is_presence s = str_eq s.pattern_type "REGEX" && contains presence_vuln_rules s.rule_id

-- `_severity_rank`
abbrev pub severity_rank : Text → ℕ
severity_rank severity =
    let s = lower severity in
    if same_text s (codes_of "critical")
    then 0
    else if same_text s (codes_of "high")
    then 1
    else if same_text s (codes_of "medium")
    then 2
    else if same_text s (codes_of "low")
    then 3
    else if same_text s (codes_of "info")
    then 4
    else 5

-- `_confidence_to_score`
abbrev confidence_to_score : Text → ℕ
confidence_to_score confidence =
    let c = lower confidence in
    if same_text c (codes_of "high")
    then 9000
    else if same_text c (codes_of "medium")
    then 6000
    else if same_text c (codes_of "low")
    then 3000
    else 5000

-- `conf_map.get(confidence.lower(), 0.65)`
abbrev static_confidence : Text → ℕ
static_confidence confidence =
    let c = lower confidence in
    if same_text c (codes_of "high")
    then 8500
    else if same_text c (codes_of "medium")
    then 6500
    else if same_text c (codes_of "low")
    then 4500
    else if same_text c (codes_of "critical")
    then 9000
    else 6500

-- `_get_static_only_result`
abbrev pub static_only_result : CodeSlice → LlmResult
static_only_result s = record {
  classification = Classification.vulnerable;
  severity = s.severity;
  confidence = static_confidence s.confidence;
}

-- The tuple of `_combine_results`.
pub record Combined : Type 0 where
  pub final_severity : Text
  pub final_confidence : ℕ
  pub is_vulnerable : Bool

abbrev averaged : CodeSlice → LlmResult → Bool → Combined
averaged s r v = record {
  final_severity =
      if leb (severity_rank s.severity) (severity_rank r.severity) then s.severity else r.severity;
  final_confidence = (confidence_to_score s.confidence + r.confidence) / 2;
  is_vulnerable = v;
}

abbrev combine_as : Classification → CodeSlice → LlmResult → Combined
combine_as Classification.safe s r = record {
  final_severity = codes_of "low";
  final_confidence = 9000;
  is_vulnerable = false;
}
combine_as Classification.vulnerable s r = record {
  final_severity = r.severity;
  final_confidence = r.confidence;
  is_vulnerable = true;
}
combine_as Classification.likely_vulnerable s r = averaged s r true
combine_as Classification.unknown s r = averaged s r false

-- `_combine_results`
abbrev pub combine_results : CodeSlice → LlmResult → Combined
combine_results s r = combine_as r.classification s r

abbrev pub classified : CodeSlice → LlmResult → Combined → ClassifiedVulnerability
classified s r c = record {
  slice_id = s.slice_id;
  rule_id = s.rule_id;
  rule_name = s.rule_name;
  code_snippet = some s.code_snippet;
  location = s.location;
  sink_label = s.sink_label;
  path_nodes = s.path_nodes;
  llm_classification = r.classification;
  final_severity = some c.final_severity;
  final_confidence = c.final_confidence;
  contributing_rule_ids = [];
}

-- A vulnerability, unless the combined verdict is that there is none.
abbrev pub confirmed : CodeSlice → LlmResult → Option ClassifiedVulnerability
confirmed s r =
    let c = combine_results s r in if c.is_vulnerable then some (classified s r c) else none
