-- ===== src/Asvs/Attest/Human.antt =====
-- app/services/asvs_service.py: what decides a control of the attestation queue.
use control_gate_backend.Prelude.{
  String, Bool, ◌≡◌, refl, Option, none, some, List, [], ◌∷◌, arith, if◌then◌else◌, get_or, str_eq,
  any, is_cons, is_cons-filter, any-filter, ◌&&◌,
}
use control_gate_backend.Prelude.Dict.{lookup}
use control_gate_backend.Asvs.Types.{
  Verdict, DynamicFinding, Vulnerability, Finding, Attestation, Attestations, ControlResult,
  Summary, contents, Message,
}
use control_gate_backend.Asvs.Evidence.{untested, is_failing}
use control_gate_backend.Asvs.Basis.{BasesAgree}
use control_gate_backend.Asvs.Config.Bases.{untested-BasesAgree}
use control_gate_backend.Asvs.Attest.{
  attested, attested_or_pending, merge_attestation, is_confirmed_hit, vulnerable_hits,
  fail_by_static, merge_attestation_or_vulnerable_static, fail_by_dynamic, failing_dynamic,
  merge_attestation_or_dynamic_finding, is_negative, fail_by_capability, failing_capability,
  merge_attestation_or_capability_finding,
}

-- The answer that a human gave, or not_tested.
abbrev pub answer_in : Option Attestation → Verdict
answer_in none = Verdict.not_tested
answer_in (some a) = get_or a.answer Verdict.not_tested

abbrev pub answer_of : String → Attestations → Verdict
answer_of c attestations = answer_in (lookup c attestations)

attested_or_pending-verdict :
    (c scan : String) (a : Option Attestation)
    → (attested_or_pending c scan a).verdict ≡ answer_in a
unfolding attested_or_pending attested untested
attested_or_pending-verdict c scan none = refl
attested_or_pending-verdict c scan (some a) = refl

pub merge_attestation-verdict :
    (c : String) (atts : Attestations) (scan : String)
    → (merge_attestation c atts scan).verdict ≡ answer_of c atts
unfolding merge_attestation
merge_attestation-verdict c atts scan = attested_or_pending-verdict c scan (lookup c atts)

attested_or_pending-BasesAgree :
    (c scan : String) (a : Option Attestation) → BasesAgree (attested_or_pending c scan a)
unfolding attested_or_pending attested
attested_or_pending-BasesAgree c scan none =
    untested-BasesAgree c scan (some Message.no_attestation)
attested_or_pending-BasesAgree c scan (some a) = ground arith

pub merge_attestation-BasesAgree :
    (c : String) (atts : Attestations) (scan : String) → BasesAgree (merge_attestation c atts scan)
unfolding merge_attestation
merge_attestation-BasesAgree c atts scan = attested_or_pending-BasesAgree c scan (lookup c atts)

-- `r` is the answer that stands unless a finding is decisive.
abbrev pub unless_decisive : Bool → Verdict → Verdict
unless_decisive decisive answer = if decisive then Verdict.fail else answer

fail_by_static-verdict :
    (c scan : String) (s : Summary) (vs : List Vulnerability) (r : ControlResult)
    → (fail_by_static c scan s vs r).verdict ≡ unless_decisive (is_cons vs) r.verdict
unfolding fail_by_static
fail_by_static-verdict c scan s [] r = refl
fail_by_static-verdict c scan s (v ∷ vs) r = refl

fail_by_dynamic-verdict :
    (c scan : String) (fs : List DynamicFinding) (r : ControlResult)
    → (fail_by_dynamic c scan fs r).verdict ≡ unless_decisive (is_cons fs) r.verdict
unfolding fail_by_dynamic
fail_by_dynamic-verdict c scan [] r = refl
fail_by_dynamic-verdict c scan (f ∷ fs) r = refl

fail_by_capability-verdict :
    (c scan : String) (fs : List Finding) (r : ControlResult)
    → (fail_by_capability c scan fs r).verdict ≡ unless_decisive (is_cons fs) r.verdict
unfolding fail_by_capability
fail_by_capability-verdict c scan [] r = refl
fail_by_capability-verdict c scan (f ∷ fs) r = refl

fail_by_static-BasesAgree :
    (c scan : String) (s : Summary) (vs : List Vulnerability) (r : ControlResult)
    → BasesAgree r
    → BasesAgree (fail_by_static c scan s vs r)
unfolding fail_by_static
fail_by_static-BasesAgree c scan s [] r h = h
fail_by_static-BasesAgree c scan s (v ∷ vs) r h = record { on_pass = refl; on_fail = refl }

fail_by_dynamic-BasesAgree :
    (c scan : String) (fs : List DynamicFinding) (r : ControlResult)
    → BasesAgree r
    → BasesAgree (fail_by_dynamic c scan fs r)
unfolding fail_by_dynamic
fail_by_dynamic-BasesAgree c scan [] r h = h
fail_by_dynamic-BasesAgree c scan (f ∷ fs) r h = record { on_pass = refl; on_fail = refl }

fail_by_capability-BasesAgree :
    (c scan : String) (fs : List Finding) (r : ControlResult)
    → BasesAgree r
    → BasesAgree (fail_by_capability c scan fs r)
unfolding fail_by_capability
fail_by_capability-BasesAgree c scan [] r h = h
fail_by_capability-BasesAgree c scan (f ∷ fs) r h = record { on_pass = refl; on_fail = refl }

-- A finding of `summary` that fails the control by itself, by the kind of evidence.
abbrev pub static_decides : String → Summary → Bool
static_decides c s = any is_confirmed_hit (vulnerable_hits c s)

abbrev pub dynamic_decides : String → Summary → Bool
dynamic_decides c s = any (λ f. str_eq f.control_id c && is_failing f.verdict) s.dynamic_findings

abbrev pub capability_decides : String → Summary → Bool
capability_decides c s =
    any (λ f. str_eq f.control_id c && is_negative f.verdict) s.capability_findings

module _ (c : String) (s : Option Summary) (atts : Attestations) (scan : String) where
  pub vulnerable_static-verdict :
      (merge_attestation_or_vulnerable_static c s atts scan).verdict
      ≡ unless_decisive (static_decides c (contents s)) (answer_of c atts)
  unfolding merge_attestation_or_vulnerable_static
  vulnerable_static-verdict = rw (
    fail_by_static-verdict,
    is_cons-filter is_confirmed_hit (vulnerable_hits c (contents s)),
    merge_attestation-verdict c atts scan,
  )

  pub vulnerable_static-BasesAgree :
      BasesAgree (merge_attestation_or_vulnerable_static c s atts scan)
  unfolding merge_attestation_or_vulnerable_static
  vulnerable_static-BasesAgree =
      fail_by_static-BasesAgree c scan (contents s) _ _ (merge_attestation-BasesAgree c atts scan)

  pub dynamic_finding-verdict :
      (merge_attestation_or_dynamic_finding c s atts scan).verdict
      ≡ unless_decisive (dynamic_decides c (contents s)) (answer_of c atts)
  unfolding merge_attestation_or_dynamic_finding failing_dynamic
  dynamic_finding-verdict =
      rw
        (fail_by_dynamic-verdict, is_cons-filter, any-filter, merge_attestation-verdict c atts scan)

  pub dynamic_finding-BasesAgree : BasesAgree (merge_attestation_or_dynamic_finding c s atts scan)
  unfolding merge_attestation_or_dynamic_finding
  dynamic_finding-BasesAgree =
      fail_by_dynamic-BasesAgree c scan _ _ (merge_attestation-BasesAgree c atts scan)

  pub capability_finding-verdict :
      (merge_attestation_or_capability_finding c s atts scan).verdict
      ≡ unless_decisive (capability_decides c (contents s)) (answer_of c atts)
  unfolding merge_attestation_or_capability_finding failing_capability
  capability_finding-verdict = rw (
    fail_by_capability-verdict,
    is_cons-filter,
    any-filter,
    merge_attestation-verdict c atts scan,
  )

  pub capability_finding-BasesAgree :
      BasesAgree (merge_attestation_or_capability_finding c s atts scan)
  unfolding merge_attestation_or_capability_finding
  capability_finding-BasesAgree =
      fail_by_capability-BasesAgree c scan _ _ (merge_attestation-BasesAgree c atts scan)
