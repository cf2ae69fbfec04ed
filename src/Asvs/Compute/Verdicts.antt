-- ===== src/Asvs/Compute/Verdicts.antt =====
-- app/services/asvs_service.py: what `_compute_result` decides, over all detection strategies.
use control_gate_backend.Prelude.{
  String, Bool, true, false, ◌≡◌, refl, ◌&&◌, ◌||◌, Option, some, arith, if◌then◌else◌,
}
use control_gate_backend.Prelude.Dict.{contains, contains_of_disjoint}
use control_gate_backend.Asvs.Types.{
  Verdict, Strategy, static_code, config_inspection, dependency_scan, dynamic_probe,
  manual_attestation, unknown, Attestations, Control, ControlResult, Summary, contents, Message,
}
use control_gate_backend.Asvs.Basis.{BasesAgree}
use control_gate_backend.Asvs.Config.Bases.{
  untested-BasesAgree, merge_config-BasesAgree, merge_config_or_dynamic-BasesAgree,
  merge_config_or_compliant_static-BasesAgree, merge_dynamic-BasesAgree,
}
use control_gate_backend.Asvs.Attest.Human.{
  answer_of, unless_decisive, static_decides, dynamic_decides, capability_decides,
  merge_attestation-verdict, merge_attestation-BasesAgree, vulnerable_static-verdict,
  vulnerable_static-BasesAgree, dynamic_finding-verdict, dynamic_finding-BasesAgree,
  capability_finding-verdict, capability_finding-BasesAgree,
}
use control_gate_backend.Asvs.Advisory.Laws.{
  advisory_decides, dependency_finding-verdict, dependency_finding-BasesAgree,
  merge_dependency-BasesAgree,
}
use control_gate_backend.Asvs.Static.{RuleIndex}
use control_gate_backend.Asvs.Static.Bases.{merge_static-BasesAgree}
use control_gate_backend.Asvs.Compute.{
  hybrid_static_controls, hybrid_dynamic_controls, hybrid_capability_controls,
  hybrid_dependency_controls, compute_attested, compute_config, compute_by, compute_result,
}

-- Some automated source may fail the control, and has a finding that does.
abbrev pub is_decided : String → Summary → Bool
is_decided c s =
    (contains hybrid_static_controls c && static_decides c s)
    || (contains hybrid_dynamic_controls c && dynamic_decides c s)
    || (contains hybrid_capability_controls c && capability_decides c s)
    || (contains hybrid_dependency_controls c && advisory_decides s)

-- The four lists of controls share none, so that the order in which `_compute_result` tries them
-- does not matter.
hybrid_disjoint :
    (c : String)
    → (contains hybrid_static_controls c ≡ true → contains hybrid_dynamic_controls c ≡ false)
      × (contains hybrid_static_controls c ≡ true → contains hybrid_capability_controls c ≡ false)
      × (contains hybrid_static_controls c ≡ true → contains hybrid_dependency_controls c ≡ false)
      × (contains hybrid_dynamic_controls c ≡ true → contains hybrid_capability_controls c ≡ false)
      × (contains hybrid_dynamic_controls c ≡ true → contains hybrid_dependency_controls c ≡ false)
      × (contains hybrid_capability_controls c ≡ true
          → contains hybrid_dependency_controls c ≡ false)
hybrid_disjoint c = (
  contains_of_disjoint hybrid_static_controls hybrid_dynamic_controls c refl,
  contains_of_disjoint hybrid_static_controls hybrid_capability_controls c refl,
  contains_of_disjoint hybrid_static_controls hybrid_dependency_controls c refl,
  contains_of_disjoint hybrid_dynamic_controls hybrid_capability_controls c refl,
  contains_of_disjoint hybrid_dynamic_controls hybrid_dependency_controls c refl,
  contains_of_disjoint hybrid_capability_controls hybrid_dependency_controls c refl,
)

-- The choice of the first list that holds the control, over any four tests.
choose :
    Bool
    → Bool
    → Bool
    → Bool
    → ControlResult
    → ControlResult
    → ControlResult
    → ControlResult
    → ControlResult
    → ControlResult
choose p q r t x y z w e = if p then x else if q then y else if r then z else if t then w else e

choose-verdict :
    (p q r t dp dq dr dt : Bool) (x y z w e : ControlResult) (human : Verdict)
    → (p ≡ true → q ≡ false)
      × (p ≡ true → r ≡ false)
      × (p ≡ true → t ≡ false)
      × (q ≡ true → r ≡ false)
      × (q ≡ true → t ≡ false)
      × (r ≡ true → t ≡ false)
    → x.verdict ≡ unless_decisive dp human
    → y.verdict ≡ unless_decisive dq human
    → z.verdict ≡ unless_decisive dr human
    → w.verdict ≡ unless_decisive dt human
    → e.verdict ≡ human
    → (choose p q r t x y z w e).verdict
      ≡ unless_decisive ((p && dp) || (q && dq) || (r && dr) || (t && dt)) human
unfolding choose
choose-verdict true q r t dp dq dr dt x y z w e human h hx hy hz hw he =
    ground (arith, h.0 refl, h.1 refl, h.2 refl)
choose-verdict false true r t dp dq dr dt x y z w e human h hx hy hz hw he =
    ground (arith, h.3 refl, h.4 refl)
choose-verdict false false true t dp dq dr dt x y z w e human h hx hy hz hw he =
    ground (arith, h.5 refl)
choose-verdict false false false t dp dq dr dt x y z w e human h hx hy hz hw he = ground arith

-- A control of the attestation queue fails where an automated source that may fail it has a
-- decisive finding, whatever the human answered; otherwise the human's answer stands, and without
-- an answer it is not_tested.
pub compute_attested-verdict :
    (c : String) (s : Option Summary) (atts : Attestations) (scan : String)
    → (compute_attested c s atts scan).verdict
      ≡ unless_decisive (is_decided c (contents s)) (answer_of c atts)
unfolding compute_attested choose
compute_attested-verdict c s atts scan =
    choose-verdict _ _ _ _ _ _ _ _ _ _ _ _ _ _ (hybrid_disjoint c)
      (vulnerable_static-verdict c s atts scan) (dynamic_finding-verdict c s atts scan)
      (capability_finding-verdict c s atts scan) (dependency_finding-verdict c s atts scan)
      (merge_attestation-verdict c atts scan)

if-BasesAgree :
    (b : Bool) {x y : ControlResult} → BasesAgree x → BasesAgree y → BasesAgree (if b then x else y)
if-BasesAgree true hx hy = hx
if-BasesAgree false hx hy = hy

pub compute_attested-BasesAgree :
    (c : String) (s : Option Summary) (atts : Attestations) (scan : String)
    → BasesAgree (compute_attested c s atts scan)
unfolding compute_attested
compute_attested-BasesAgree c s atts scan =
    if-BasesAgree _ (vulnerable_static-BasesAgree c s atts scan) (
      if-BasesAgree _ (dynamic_finding-BasesAgree c s atts scan) (
        if-BasesAgree _ (capability_finding-BasesAgree c s atts scan) (
          if-BasesAgree _ (dependency_finding-BasesAgree c s atts scan)
            (merge_attestation-BasesAgree c atts scan))))

compute_config-BasesAgree :
    (c : String) (s : Option Summary) (scan : String) → BasesAgree (compute_config c s scan)
unfolding compute_config
compute_config-BasesAgree c s scan =
    if-BasesAgree _ (merge_config_or_compliant_static-BasesAgree c s scan) (
      if-BasesAgree _ (merge_config_or_dynamic-BasesAgree c s scan)
        (merge_config-BasesAgree c s scan))

compute_by-BasesAgree :
    (how : Strategy) (index : RuleIndex) (c : String) (s : Option Summary) (atts : Attestations)
    (scan : String)
    → BasesAgree (compute_by how index c s atts scan)
unfolding compute_by
compute_by-BasesAgree manual_attestation index c s atts scan =
    compute_attested-BasesAgree c s atts scan
compute_by-BasesAgree static_code index c s atts scan = merge_static-BasesAgree index c s scan
compute_by-BasesAgree config_inspection index c s atts scan = compute_config-BasesAgree c s scan
compute_by-BasesAgree dependency_scan index c s atts scan = merge_dependency-BasesAgree c s scan
compute_by-BasesAgree dynamic_probe index c s atts scan = merge_dynamic-BasesAgree c s scan
compute_by-BasesAgree unknown index c s atts scan =
    untested-BasesAgree c scan (some Message.no_strategy)

-- Every result of `_compute_result` names a pass basis exactly where it passes, and a fail basis
-- exactly where it fails or asks for manual review, under every strategy and for every summary.
pub compute_result-BasesAgree :
    (index : RuleIndex) (control : Control) (s : Option Summary) (atts : Attestations)
    (scan : String)
    → BasesAgree (compute_result index control s atts scan)
unfolding compute_result
compute_result-BasesAgree index control s atts scan =
    compute_by-BasesAgree control.detection_strategy index control.control_id s atts scan
