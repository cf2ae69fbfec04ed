-- ===== src/Pipeline/Report/Controls.antt =====
-- semantic_engine/pipeline.py: the ASVS controls that the reports of the findings name.
use control_gate_backend.Prelude.{
  String, Bool, true, ◌≡◌, ◌||◌, some, List, [], ◌∷◌, ◌++◌, arith, map, str_eq, eq_iff, any,
  any-append, any-map, Bool-cases, Option-cases, inl, inr, refl, ◌∙◌,
}
use control_gate_backend.Prelude.Dict.{Dict, lookup, contains}
use control_gate_backend.Pipeline.Findings.{ClassifiedVulnerability, dedupe_vulnerabilities}
use control_gate_backend.Pipeline.Findings.Merged.{names, dedupe_vulnerabilities-names}
use control_gate_backend.Pipeline.Report.{
  QueryRule, Report, rules_of, add_controls, controls_of, format_vulnerability,
}

contains-add_controls :
    (k : String) (seen cs : List String)
    → contains (add_controls seen cs) k ≡ (contains seen k || contains cs k)
unfolding add_controls
contains-add_controls k seen [] = ground arith
contains-add_controls k seen (c ∷ cs) = elim (Bool-cases (contains seen c)) [
  | inl e ↦ ground (arith, contains-add_controls k seen cs, eq_iff c k)
  | inr e ↦ ground (
    arith,
    contains-add_controls k (seen ++ c ∷ []) cs,
    any-append (λ j. str_eq j k) seen (c ∷ []),
  )
]

contains-controls_of :
    (k : String) (seen : List String) (rs : List QueryRule)
    → contains (controls_of seen rs) k
      ≡ (contains seen k || any (λ r. contains r.asvs_controls k) rs)
unfolding controls_of
contains-controls_of k seen [] = ground arith
contains-controls_of k seen (r ∷ rs) = ground (
  arith,
  contains-controls_of k (add_controls seen r.asvs_controls) rs,
  contains-add_controls k seen r.asvs_controls,
)

rules_of-any :
    (store : Dict QueryRule) (id : String) (r : QueryRule) (q : QueryRule → Bool)
    (ids : List String)
    → lookup id store ≡ some r
    → q r ≡ true
    → contains ids id ≡ true
    → any q (rules_of store ids) ≡ true
unfolding rules_of
rules_of-any store id r q [] found h k = absurd cc
rules_of-any store id r q (j ∷ ids) found h k = elim (Bool-cases (str_eq j id)) [
  | inl e ↦
      let found_j : lookup j store ≡ some r = rw ((eq_iff j id).0 e) found in
      let first : rules_of store (j ∷ ids) ≡ r ∷ rules_of store ids = rw (rules_of, found_j) refl in
      rw first (rw h refl)
  | inr e ↦ elim (Option-cases (lookup j store)) [
    | inl o ↦ rw (any, rules_of, o) (rules_of-any store id r q ids found h (ground arith))
    | inr (s, o) ↦ rw (any, rules_of, o) (ground (arith, rules_of-any store id r q ids found h))
  ]
]

-- The report of a finding names each control of the rules that the finding names.
pub format_vulnerability-contains :
    (store : Dict QueryRule) (id : String) (r : QueryRule) (control : String)
    (v : ClassifiedVulnerability)
    → lookup id store ≡ some r
    → contains r.asvs_controls control ≡ true
    → names id v ≡ true
    → contains (format_vulnerability store v).asvs_controls control ≡ true
unfolding format_vulnerability
format_vulnerability-contains store id r control v found h named =
    contains-controls_of control [] (rules_of store (v.rule_id ∷ v.contributing_rule_ids))
    ∙ rules_of-any store id r (λ s. contains s.asvs_controls control)
        (v.rule_id ∷ v.contributing_rule_ids) found h named

-- the reports of the pipeline
abbrev pub reports : Dict QueryRule → List ClassifiedVulnerability → List Report
reports store vs = map (format_vulnerability store) (dedupe_vulnerabilities vs)

any_imp_any :
    (store : Dict QueryRule) (id : String) (r : QueryRule) (control : String)
    (vs : List ClassifiedVulnerability)
    → lookup id store ≡ some r
    → contains r.asvs_controls control ≡ true
    → any (names id) vs ≡ true
    → any (λ v. contains (format_vulnerability store v).asvs_controls control) vs ≡ true
any_imp_any store id r control [] found h named = absurd cc
any_imp_any store id r control (v ∷ vs) found h named = ground (
  arith,
  any_imp_any store id r control vs found h,
  format_vulnerability-contains store id r control v found h,
)

-- Each ASVS control of a catalog rule with a finding is named by a report, whatever was merged.
pub reports-contains :
    (store : Dict QueryRule) (id : String) (r : QueryRule) (control : String)
    (vulnerabilities : List ClassifiedVulnerability)
    → lookup id store ≡ some r
    → contains r.asvs_controls control ≡ true
    → any (λ v. str_eq v.rule_id id) vulnerabilities ≡ true
    → any (λ t. contains t.asvs_controls control) (reports store vulnerabilities) ≡ true
reports-contains store id r control vs found h one =
    let left = dedupe_vulnerabilities vs in
    any-map (λ t. contains t.asvs_controls control) (format_vulnerability store) left
    ∙ any_imp_any store id r control left found h (dedupe_vulnerabilities-names id vs one)
