-- ===== src/Asvs/Compute.antt =====
-- app/services/asvs_service.py: the choice of the merge by the control's detection strategy.
pub mod Verdicts
use control_gate_backend.Prelude.{String, Option, some, List, [], ◌∷◌, if◌then◌else◌, str_eq, ◌||◌}
use control_gate_backend.Prelude.Dict.{contains}
use control_gate_backend.Asvs.Types.{
  Strategy, static_code, config_inspection, dependency_scan, dynamic_probe, manual_attestation,
  unknown, Message, Attestations, Control, ControlResult, Summary,
}
use control_gate_backend.Asvs.Evidence.{untested}
use control_gate_backend.Asvs.Config.{
  merge_config, merge_config_or_compliant_static, merge_config_or_dynamic, merge_dynamic,
}
use control_gate_backend.Asvs.Attest.{
  merge_attestation, merge_attestation_or_vulnerable_static, merge_attestation_or_dynamic_finding,
  merge_attestation_or_capability_finding,
}
use control_gate_backend.Asvs.Advisory.{merge_attestation_or_dependency_finding, merge_dependency}
use control_gate_backend.Asvs.Static.{RuleIndex, merge_static}

-- `HYBRID_ATTESTATION_ELIGIBLE_CONTROLS`
abbrev pub hybrid_static_controls : List String
hybrid_static_controls = "V1.1.1" ∷ "V1.5.3" ∷ "V2.3.3" ∷ "V6.3.4" ∷ "V10.3.2" ∷ []

-- `HYBRID_ATTESTATION_DYNAMIC_ELIGIBLE_CONTROLS`
abbrev pub hybrid_dynamic_controls : List String
hybrid_dynamic_controls =
    "V2.3.1" ∷ "V2.3.4" ∷ "V3.7.3" ∷ "V4.2.2" ∷ "V4.2.4" ∷ "V4.4.3" ∷ "V4.4.4" ∷ "V6.4.3" ∷ "V6.6.2"
    ∷ "V6.8.3" ∷ "V7.4.3" ∷ "V7.4.4" ∷ "V8.3.2" ∷ "V8.3.3" ∷ "V10.4.1" ∷ "V10.4.2" ∷ "V10.4.3"
    ∷ "V10.4.4" ∷ "V10.4.5" ∷ "V10.4.7" ∷ "V10.4.11" ∷ "V10.4.12" ∷ "V10.4.13" ∷ "V10.4.14"
    ∷ "V10.4.15" ∷ "V10.4.16" ∷ "V10.7.1" ∷ "V11.2.5" ∷ "V17.2.3" ∷ "V17.2.4" ∷ "V17.2.5"
    ∷ "V17.2.7" ∷ "V17.3.2" ∷ []

-- `HYBRID_ATTESTATION_CAPABILITY_ELIGIBLE_CONTROLS`
abbrev pub hybrid_capability_controls : List String
hybrid_capability_controls = "V6.6.1" ∷ "V6.8.1" ∷ "V7.6.2" ∷ "V10.7.2" ∷ "V11.2.2" ∷ "V15.4.4" ∷ []

-- `HYBRID_ATTESTATION_DEPENDENCY_ELIGIBLE_CONTROLS`
abbrev pub hybrid_dependency_controls : List String
hybrid_dependency_controls = "V17.2.6" ∷ []

-- the branch of `_compute_result` for "manual_attestation"
pub compute_attested : String → Option Summary → Attestations → String → ControlResult
compute_attested control_id summary attestations scan_id =
    if contains hybrid_static_controls control_id
    then merge_attestation_or_vulnerable_static control_id summary attestations scan_id
    else if contains hybrid_dynamic_controls control_id
    then merge_attestation_or_dynamic_finding control_id summary attestations scan_id
    else if contains hybrid_capability_controls control_id
    then merge_attestation_or_capability_finding control_id summary attestations scan_id
    else if contains hybrid_dependency_controls control_id
    then merge_attestation_or_dependency_finding control_id summary attestations scan_id
    else merge_attestation control_id attestations scan_id

-- the branch of `_compute_result` for "config_inspection"
pub compute_config : String → Option Summary → String → ControlResult
compute_config control_id summary scan_id =
    if str_eq control_id "V3.5.8"
    then merge_config_or_compliant_static control_id summary scan_id
    else if str_eq control_id "V3.4.1" || str_eq control_id "V13.4.6"
    then merge_config_or_dynamic control_id summary scan_id
    else merge_config control_id summary scan_id

compute_by : Strategy → RuleIndex → String → Option Summary → Attestations → String → ControlResult
unfolding compute_attested compute_config
compute_by manual_attestation index c summary attestations scan_id =
    compute_attested c summary attestations scan_id
compute_by static_code index c summary attestations scan_id = merge_static index c summary scan_id
compute_by config_inspection index c summary attestations scan_id = compute_config c summary scan_id
compute_by dependency_scan index c summary attestations scan_id = merge_dependency c summary scan_id
compute_by dynamic_probe index c summary attestations scan_id = merge_dynamic c summary scan_id
compute_by unknown index c summary attestations scan_id =
    untested c scan_id (some Message.no_strategy)

-- `_compute_result`
pub compute_result : RuleIndex → Control → Option Summary → Attestations → String → ControlResult
unfolding compute_by
compute_result index control summary attestations scan_id =
    compute_by control.detection_strategy index control.control_id summary attestations scan_id
