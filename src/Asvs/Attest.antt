-- ===== src/Asvs/Attest.antt =====
-- app/services/asvs_service.py: manual attestation, alone and with each automated source that may
-- fail a control of the attestation queue.
pub mod Human
use control_gate_backend.Prelude.{
  String, Bool, true, not, ◌&&◌, ◌||◌, Option, none, some, List, [], ◌∷◌, ◌++◌, map, if◌then◌else◌,
  get_or, is_truthy, str_eq, filter,
}
use control_gate_backend.Prelude.Dict.{contains, lookup}
use control_gate_backend.Asvs.Types.{
  Verdict, is_verdict, Basis, Message, DynamicFinding, Vulnerability, Finding, Attestation,
  Attestations, Evidence, ControlResult, Summary, contents,
}
use control_gate_backend.Asvs.Evidence.{
  empty_evidence, untested, quoted_note, is_failing, evidence_from_vuln, dynamic_by_static_id,
  capability_item,
}
use control_gate_backend.Asvs.Config.{
  decided, basis_if_pass, basis_if_negative, is_compliant, for_control,
}

note_item : Message → Evidence
note_item m = record empty_evidence { note = some m }

-- `if att.get(key): evidence.append(…)`
proof_item : (String → Message) → Option String → List Evidence
unfolding note_item
proof_item template none = []
proof_item template (some s) = if is_truthy (some s) then note_item (template s) ∷ [] else []

attested_evidence : Attestation → List Evidence
unfolding proof_item
attested_evidence a =
    proof_item Message.quoted a.evidence_url
    ++ (proof_item Message.quoted a.evidence_notes ++ proof_item Message.proof_type a.proof_type)

-- `att.get("attested_by") or "a reviewer"`
reviewer : Option String → String
reviewer none = "a reviewer"
reviewer (some s) = if is_truthy (some s) then s else "a reviewer"

missing_proof : List Evidence → Option String → Option Message
unfolding reviewer
missing_proof [] attested_by = some (Message.attested_without_proof (reviewer attested_by))
missing_proof (_ ∷ _) attested_by = none

attested : String → String → Attestation → ControlResult
unfolding attested_evidence missing_proof
attested control_id scan_id a =
    let answer = get_or a.answer Verdict.not_tested in
    record (decided control_id scan_id answer none (attested_evidence a) (basis_if_pass answer)
      (basis_if_negative answer)) {
        reviewed_by = a.attested_by;
        reviewed_at = a.timestamp;
        reason = missing_proof (attested_evidence a) a.attested_by;
      }

attested_or_pending : String → String → Option Attestation → ControlResult
unfolding attested
attested_or_pending control_id scan_id none =
    untested control_id scan_id (some Message.no_attestation)
attested_or_pending control_id scan_id (some a) = attested control_id scan_id a

-- `_merge_attestation`
pub merge_attestation : String → Attestations → String → ControlResult
unfolding attested_or_pending
merge_attestation control_id attestations scan_id =
    attested_or_pending control_id scan_id (lookup control_id attestations)

-- `_UNCONFIRMED_LLM_MARKERS`
abbrev pub unconfirmed_llm_markers : List String
unconfirmed_llm_markers =
    "LLM unavailable — pattern-based detection only" ∷ "LLM cap reached — static analysis only" ∷ []

-- `explanation not in _UNCONFIRMED_LLM_MARKERS`; `None` is in no set of texts
unfoldable pub is_llm_confirmed : Option String → Bool
is_llm_confirmed none = true
is_llm_confirmed (some e) = not (contains unconfirmed_llm_markers e)

-- `_llm_confirmed(v) or v.get("bridge_confirmed")`
unfoldable pub is_confirmed_hit : Vulnerability → Bool
is_confirmed_hit v = is_llm_confirmed v.explanation || v.bridge_confirmed

-- the findings of a control that are not markers of compliance
unfoldable pub vulnerable_hits : String → Summary → List Vulnerability
vulnerable_hits control_id s =
    filter (λ v. contains v.asvs_controls control_id && not (is_compliant v.asvs_finding_polarity))
      s.vulnerabilities

fail_by_static : String → String → Summary → List Vulnerability → ControlResult → ControlResult
fail_by_static control_id scan_id s [] otherwise = otherwise
fail_by_static control_id scan_id s (worst ∷ rest) otherwise =
    record (decided control_id scan_id Verdict.fail worst.confidence
      (map (evidence_from_vuln (dynamic_by_static_id s)) (worst ∷ rest)) none
      (some Basis.confirmed)) { llm_explanation = quoted_note worst.explanation }

-- `_merge_attestation_or_vulnerable_static`
pub merge_attestation_or_vulnerable_static :
    String → Option Summary → Attestations → String → ControlResult
unfolding fail_by_static
merge_attestation_or_vulnerable_static control_id summary attestations scan_id =
    let s = contents summary in
    fail_by_static control_id scan_id s (filter is_confirmed_hit (vulnerable_hits control_id s))
      (merge_attestation control_id attestations scan_id)

dynamic_item : DynamicFinding → Evidence
dynamic_item f = record empty_evidence {
  note = quoted_note f.note;
  severity = f.severity;
  confidence = f.confidence;
}

fail_by_dynamic : String → String → List DynamicFinding → ControlResult → ControlResult
unfolding dynamic_item
fail_by_dynamic control_id scan_id [] otherwise = otherwise
fail_by_dynamic control_id scan_id (worst ∷ rest) otherwise =
    decided control_id scan_id Verdict.fail worst.confidence (map dynamic_item (worst ∷ rest)) none
      (some Basis.confirmed)

pub failing_dynamic : String → Summary → List DynamicFinding
failing_dynamic control_id s =
    filter (λ f. is_failing f.verdict)
      (filter (λ f. str_eq f.control_id control_id) s.dynamic_findings)

-- `_merge_attestation_or_dynamic_finding`
pub merge_attestation_or_dynamic_finding :
    String → Option Summary → Attestations → String → ControlResult
unfolding fail_by_dynamic
merge_attestation_or_dynamic_finding control_id summary attestations scan_id =
    fail_by_dynamic control_id scan_id (failing_dynamic control_id (contents summary))
      (merge_attestation control_id attestations scan_id)

-- `verdict in ("fail", "manual_review")`
abbrev pub is_negative : Option Verdict → Bool
is_negative v = is_verdict Verdict.fail v || is_verdict Verdict.manual_review v

fail_by_capability : String → String → List Finding → ControlResult → ControlResult
fail_by_capability control_id scan_id [] otherwise = otherwise
fail_by_capability control_id scan_id (worst ∷ rest) otherwise =
    record (decided control_id scan_id Verdict.fail worst.confidence
      (map capability_item (worst ∷ rest)) none (some Basis.confirmed)) {
        llm_explanation = quoted_note worst.note;
      }

pub failing_capability : String → Summary → List Finding
failing_capability control_id s =
    filter (λ f. is_negative f.verdict) (for_control control_id s.capability_findings)

-- `_merge_attestation_or_capability_finding`
pub merge_attestation_or_capability_finding :
    String → Option Summary → Attestations → String → ControlResult
unfolding fail_by_capability
merge_attestation_or_capability_finding control_id summary attestations scan_id =
    fail_by_capability control_id scan_id (failing_capability control_id (contents summary))
      (merge_attestation control_id attestations scan_id)
