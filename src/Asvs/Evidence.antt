-- ===== src/Asvs/Evidence.antt =====
-- app/services/asvs_service.py: the evidence items of a control's result.
pub mod Bridge
use control_gate_backend.Prelude.{
  ℕ, String, Bool, true, false, not, ◌&&◌, ◌||◌, Option, none, some, List, [], ◌∷◌, map, ltb,
  if◌then◌else◌, get_or, is_truthy, str_eq, filter,
}
use control_gate_backend.Prelude.Dict.{Dict, lookup, insert}
use control_gate_backend.Prelude.Sort.{sort_by}
use control_gate_backend.Asvs.Types.{
  Verdict, is_verdict, Message, DynamicFinding, Vulnerability, Finding, LiveProof, Evidence,
  ControlResult, Summary,
}

abbrev pub empty_evidence : Evidence
empty_evidence = record {
  file = none;
  line = none;
  note = none;
  code_snippet = none;
  static_only = none;
  severity = none;
  confidence = none;
  cvss_score = none;
  cwe = none;
  live_proof = none;
  dynamic_corroboration = none;
}

abbrev pub quoted_note : Option String → Option Message
quoted_note none = none
quoted_note (some s) = some (Message.quoted s)

-- `_not_tested`
unfoldable pub untested : String → String → Option Message → ControlResult
untested control_id scan_id reason = record {
  control_id = control_id;
  scan_id = scan_id;
  verdict = Verdict.not_tested;
  confidence = none;
  evidence = [];
  llm_explanation = none;
  reviewed_by = none;
  reviewed_at = none;
  reason = reason;
  pass_basis = none;
  fail_basis = none;
}

live_proof_of : DynamicFinding → LiveProof
live_proof_of f = record {
  verdict = f.verdict;
  url = f.url;
  method = f.method;
  evidence_type = f.evidence_type;
  payload = f.payload;
  note = f.note;
  reproduction = f.reproduction;
  proof = f.proof;
}

-- `verdict in ("fail", "confirmed")`
abbrev pub is_failing : Option Verdict → Bool
is_failing v = is_verdict Verdict.fail v || is_verdict Verdict.confirmed v

find_dynamic : Option String → Dict DynamicFinding → Option DynamicFinding
find_dynamic none d = none
find_dynamic (some id) d = lookup id d

static_item : Vulnerability → Evidence
static_item v = record {
  file = v.file;
  line = v.start_line;
  note = quoted_note v.kind;
  code_snippet = v.code_snippet;
  static_only = some true;
  severity = v.severity;
  confidence = v.confidence;
  cvss_score = v.cvss_score;
  cwe = v.cwe;
  live_proof = none;
  dynamic_corroboration = none;
}

attach_live : Evidence → Option DynamicFinding → Evidence
unfolding live_proof_of
attach_live item none = item
attach_live item (some f) = record item {
  static_only = some (not (is_failing f.verdict));
  live_proof = some (live_proof_of f);
}

-- `_evidence_from_vuln`
pub evidence_from_vuln : Dict DynamicFinding → Vulnerability → Evidence
unfolding attach_live static_item find_dynamic
evidence_from_vuln dynamic_by_id v = attach_live (static_item v) (find_dynamic v.id dynamic_by_id)

-- the `_rank` of `_dynamic_by_static_id`
abbrev pub bridge_rank : Option Verdict → ℕ
bridge_rank v =
    if is_verdict Verdict.confirmed v
    then 3
    else if is_verdict Verdict.fail v
    then 2
    else if is_verdict Verdict.inconclusive v
    then 1
    else 0

-- the `current is None or _rank(f) > _rank(current)` of `_dynamic_by_static_id`
abbrev pub outranks : DynamicFinding → Option DynamicFinding → Bool
outranks f none = true
outranks f (some current) = ltb (bridge_rank current.verdict) (bridge_rank f.verdict)

record_bridge : Option String → DynamicFinding → Dict DynamicFinding → Dict DynamicFinding
record_bridge none f by_id = by_id
record_bridge (some id) f by_id =
    if is_truthy (some id) && outranks f (lookup id by_id) then insert id f by_id else by_id

collect_bridges : List DynamicFinding → Dict DynamicFinding → Dict DynamicFinding
unfolding record_bridge
collect_bridges [] by_id = by_id
collect_bridges (f ∷ fs) by_id =
    collect_bridges fs (record_bridge f.bridge_static_finding_id f by_id)

-- `_dynamic_by_static_id`
pub dynamic_by_static_id : Summary → Dict DynamicFinding
unfolding collect_bridges
dynamic_by_static_id s = collect_bridges s.dynamic_findings []

-- the items of the config and probe merges
pub config_item : Finding → Evidence
config_item f = record empty_evidence {
  file = f.file;
  line = f.line;
  note = quoted_note f.note;
  confidence = f.confidence;
}

pub probe_item : Finding → Evidence
probe_item f = record empty_evidence {
  file = f.file;
  line = f.line;
  note = quoted_note f.note;
  severity = f.severity;
  confidence = f.confidence;
}

pub capability_item : Finding → Evidence
capability_item f = record empty_evidence {
  file = f.file;
  line = f.line;
  note = quoted_note f.note;
}

pub corroboration : DynamicFinding → Evidence
unfolding live_proof_of
corroboration f = record empty_evidence {
  note = some (Message.dynamic_check (get_or f.rule_id "unknown rule"));
  dynamic_corroboration = some (live_proof_of f);
}

-- `static_id and static_id in exclude`
is_excluded : List (Option String) → Option String → Bool
is_excluded exclude none = false
is_excluded [] (some id) = false
is_excluded (none ∷ rest) (some id) = is_excluded rest (some id)
is_excluded (some j ∷ rest) (some id) =
    is_truthy (some id) && (str_eq j id || is_excluded rest (some id))

-- `_verdict_priority.get(verdict, 2)`: passes first, then confirmed findings, then the rest.
abbrev pub verdict_priority : Option Verdict → ℕ
verdict_priority v =
    if is_verdict Verdict.pass v then 0 else if is_verdict Verdict.confirmed v then 1 else 2

abbrev pub corroborated_verdict : Option LiveProof → Option Verdict
corroborated_verdict none = none
corroborated_verdict (some proof) = proof.verdict

abbrev pub evidence_priority : Evidence → ℕ
evidence_priority item = verdict_priority (corroborated_verdict item.dynamic_corroboration)

pub shown_findings : String → Summary → List (Option String) → List DynamicFinding
unfolding is_excluded
shown_findings control_id s exclude =
    filter
      (λ f. str_eq f.control_id control_id && not (is_excluded exclude f.bridge_static_finding_id))
      s.dynamic_findings

-- `_dynamic_evidence_for_control`
pub dynamic_evidence_for_control : String → Summary → List (Option String) → List Evidence
unfolding shown_findings corroboration
dynamic_evidence_for_control control_id s exclude =
    sort_by evidence_priority (map corroboration (shown_findings control_id s exclude))
