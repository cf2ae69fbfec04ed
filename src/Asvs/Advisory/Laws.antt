-- ===== src/Asvs/Advisory/Laws.antt =====
-- app/services/asvs_service.py: what the dependency merges decide, and the bases that they name.
use control_gate_backend.Prelude.{
  String, Bool, ◌≡◌, refl, Option, none, some, List, [], ◌∷◌, arith, get_or, any, is_cons,
  is_cons-filter,
}
use control_gate_backend.Asvs.Types.{
  Verdict, DependencyRecord, DependencyControl, Attestations, ControlResult, Summary, contents,
  Message,
}
use control_gate_backend.Asvs.Basis.{BasesAgree}
use control_gate_backend.Asvs.Config.Bases.{untested-BasesAgree}
use control_gate_backend.Asvs.Attest.Human.{
  answer_of, unless_decisive, merge_attestation-verdict, merge_attestation-BasesAgree,
}
use control_gate_backend.Asvs.Advisory.{
  names_handshake_race, fail_by_advisory, merge_attestation_or_dependency_finding,
  dependency_result, dependency_or_untested, merge_dependency,
}

fail_by_advisory-verdict :
    (c scan : String) (fs : List DependencyRecord) (r : ControlResult)
    → (fail_by_advisory c scan fs r).verdict ≡ unless_decisive (is_cons fs) r.verdict
unfolding fail_by_advisory
fail_by_advisory-verdict c scan [] r = refl
fail_by_advisory-verdict c scan (f ∷ fs) r = refl

fail_by_advisory-BasesAgree :
    (c scan : String) (fs : List DependencyRecord) (r : ControlResult)
    → BasesAgree r
    → BasesAgree (fail_by_advisory c scan fs r)
unfolding fail_by_advisory
fail_by_advisory-BasesAgree c scan [] r h = h
fail_by_advisory-BasesAgree c scan (f ∷ fs) r h = record { on_pass = refl; on_fail = refl }

abbrev pub advisory_decides : Summary → Bool
advisory_decides s = any names_handshake_race s.dependency_findings

module _ (c : String) (s : Option Summary) (atts : Attestations) (scan : String) where
  pub dependency_finding-verdict :
      (merge_attestation_or_dependency_finding c s atts scan).verdict
      ≡ unless_decisive (advisory_decides (contents s)) (answer_of c atts)
  unfolding merge_attestation_or_dependency_finding
  dependency_finding-verdict = rw (
    fail_by_advisory-verdict,
    is_cons-filter names_handshake_race (contents s).dependency_findings,
    merge_attestation-verdict c atts scan,
  )

  pub dependency_finding-BasesAgree :
      BasesAgree (merge_attestation_or_dependency_finding c s atts scan)
  unfolding merge_attestation_or_dependency_finding
  dependency_finding-BasesAgree =
      fail_by_advisory-BasesAgree c scan _ _ (merge_attestation-BasesAgree c atts scan)

dependency_result-BasesAgree :
    (c scan : String) (fs : List DependencyRecord) (v : Verdict) (told : Option String)
    → BasesAgree (dependency_result c scan fs v told)
unfolding dependency_result
dependency_result-BasesAgree c scan fs v told = ground arith

dependency_or_untested-BasesAgree :
    (c scan : String) (fs : List DependencyRecord) (d : Option DependencyControl)
    → BasesAgree (dependency_or_untested c scan fs d)
unfolding dependency_or_untested
dependency_or_untested-BasesAgree c scan fs none =
    untested-BasesAgree c scan (some Message.no_dependency_result)
dependency_or_untested-BasesAgree c scan fs (some d) =
    dependency_result-BasesAgree c scan fs (get_or d.verdict Verdict.not_tested) d.note

pub merge_dependency-BasesAgree :
    (c : String) (s : Option Summary) (scan : String) → BasesAgree (merge_dependency c s scan)
unfolding merge_dependency
merge_dependency-BasesAgree c s scan =
    let d = (contents s).dependency_control_result in
    let fs = (contents s).dependency_findings in
    ground (
      arith,
      dependency_or_untested-BasesAgree c scan fs d,
      untested-BasesAgree c scan (some Message.wrong_dependency_control),
    )
