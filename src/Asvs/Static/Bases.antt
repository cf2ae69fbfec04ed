-- ===== src/Asvs/Static/Bases.antt =====
-- app/services/asvs_service.py: the bases that the static merge names, and what a weak basis means.
use control_gate_backend.Prelude.{
  ℕ, String, true, false, ◌≡◌, refl, Option, none, some, List, [], ◌∷◌, arith, get_or, any, filter,
  length, not-all,
}
use control_gate_backend.Asvs.Types.{
  Verdict, Basis, Vulnerability, Finding, QueryRule, ControlResult, Summary, contents,
}
use control_gate_backend.Asvs.Evidence.{untested}
use control_gate_backend.Asvs.Basis.{BasesAgree}
use control_gate_backend.Asvs.Config.{for_control}
use control_gate_backend.Asvs.Config.Bases.{untested-BasesAgree}
use control_gate_backend.Asvs.Attest.{is_confirmed_hit}
use control_gate_backend.Asvs.Static.{
  RuleIndex, rules_of, capability_result, vulnerable_result, judge_hits, marker_result,
  is_marker_rule, swept_result, judge_absence, without_matches, judge_matches, capability_first,
  merge_static,
}
use control_gate_backend.Asvs.Static.Verdicts.{is_tagged, was_searched, matches_any, hits_of}

fail-BasesAgree :
    (c scan : String) (s : Summary) (n : ℕ) (hits : List Vulnerability)
    → BasesAgree (vulnerable_result c scan s n Verdict.fail Basis.confirmed hits)
unfolding vulnerable_result
fail-BasesAgree c scan s n [] = untested-BasesAgree c scan none
fail-BasesAgree c scan s n (w ∷ ws) = record { on_pass = refl; on_fail = refl }

review-BasesAgree :
    (c scan : String) (s : Summary) (n : ℕ) (hits : List Vulnerability)
    → BasesAgree (vulnerable_result c scan s n Verdict.manual_review Basis.unconfirmed hits)
unfolding vulnerable_result
review-BasesAgree c scan s n [] = untested-BasesAgree c scan none
review-BasesAgree c scan s n (w ∷ ws) = record { on_pass = refl; on_fail = refl }

judge_hits-BasesAgree :
    (c scan : String) (s : Summary) (hits : List Vulnerability)
    → BasesAgree (judge_hits c scan s hits)
unfolding judge_hits
judge_hits-BasesAgree c scan s hits = ground (
  arith,
  fail-BasesAgree c scan s (length hits) (filter is_confirmed_hit hits),
  review-BasesAgree c scan s (length hits) hits,
)

without_matches-BasesAgree :
    (c scan : String) (s : Option Summary) (rules : List QueryRule)
    → BasesAgree (without_matches c scan s rules)
unfolding without_matches judge_absence swept_result untested
without_matches-BasesAgree c scan none rules = ground arith
without_matches-BasesAgree c scan (some s) rules = ground arith

judge_matches-BasesAgree :
    (c scan : String) (s : Option Summary) (rules : List QueryRule)
    → BasesAgree (judge_matches c scan s rules)
unfolding judge_matches marker_result
judge_matches-BasesAgree c scan s rules = ground (
  arith,
  judge_hits-BasesAgree c scan (contents s) (hits_of c (contents s)),
  without_matches-BasesAgree c scan s rules,
)

capability_result-BasesAgree :
    (c scan : String) (cap : Finding) (v : Verdict) → BasesAgree (capability_result c scan cap v)
unfolding capability_result
capability_result-BasesAgree c scan cap v = ground arith

capability_first-BasesAgree :
    (c scan : String) (caps : List Finding) (r : ControlResult)
    → BasesAgree r
    → BasesAgree (capability_first c scan caps r)
unfolding capability_first
capability_first-BasesAgree c scan [] r h = h
capability_first-BasesAgree c scan (cap ∷ _) r h =
    capability_result-BasesAgree c scan cap (get_or cap.verdict Verdict.not_tested)

pub merge_static-BasesAgree :
    (index : RuleIndex) (c : String) (s : Option Summary) (scan : String)
    → BasesAgree (merge_static index c s scan)
unfolding merge_static
merge_static-BasesAgree index c s scan =
    capability_first-BasesAgree c scan (for_control c (contents s).capability_findings)
      (judge_matches c scan s (rules_of index c))
      (judge_matches-BasesAgree c scan s (rules_of index c))

-- What a pass by absence rests on: source was there, a rule looks for the violation, and no finding
-- of any polarity is tagged with the control.
abbrev pub PassByAbsence : String → Option Summary → List QueryRule → Type 0
PassByAbsence c s rules =
    (was_searched s rules ≡ true) × (any (is_tagged c) (contents s).vulnerabilities ≡ false)

-- The pass that the static merge marks as weak rests on a real search that found nothing.
abbrev WeakPass : String → Option Summary → List QueryRule → ControlResult → Type 0
WeakPass c s rules r = r.pass_basis ≡ some Basis.no_findings → PassByAbsence c s rules

vulnerable_result-no_pass :
    (c scan : String) (s : Summary) (n : ℕ) (v : Verdict) (b : Basis) (hits : List Vulnerability)
    → (vulnerable_result c scan s n v b hits).pass_basis ≡ none
unfolding vulnerable_result untested
vulnerable_result-no_pass c scan s n v b [] = refl
vulnerable_result-no_pass c scan s n v b (w ∷ ws) = refl

judge_hits-no_pass :
    (c scan : String) (s : Summary) (hits : List Vulnerability)
    → (judge_hits c scan s hits).pass_basis ≡ none
unfolding judge_hits
judge_hits-no_pass c scan s hits =
    let sure = filter is_confirmed_hit hits in
    ground (
      arith,
      vulnerable_result-no_pass c scan s (length hits) Verdict.fail Basis.confirmed sure,
      vulnerable_result-no_pass c scan s (length hits) Verdict.manual_review Basis.unconfirmed hits,
    )

without_matches-searched :
    (c scan : String) (s : Option Summary) (rules : List QueryRule)
    → (without_matches c scan s rules).pass_basis ≡ some Basis.no_findings
    → was_searched s rules ≡ true
unfolding without_matches judge_absence swept_result untested
without_matches-searched c scan none rules h = cc
without_matches-searched c scan (some s) rules h = ground (arith, not-all is_marker_rule rules)

judge_matches-WeakPass :
    (c scan : String) (s : Option Summary) (rules : List QueryRule)
    → WeakPass c s rules (judge_matches c scan s rules)
unfolding judge_matches marker_result
judge_matches-WeakPass c scan s rules h = ground (
  arith,
  matches_any c (contents s),
  judge_hits-no_pass c scan (contents s) (hits_of c (contents s)),
  without_matches-searched c scan s rules,
)

-- A pass by absence of `merge_static` is earned: the scan had source, some rule tagged with the
-- control looks for its violation, and no finding at all is tagged with it.
pub merge_static-earned :
    (index : RuleIndex) (c : String) (s : Option Summary) (scan : String)
    → (merge_static index c s scan).pass_basis ≡ some Basis.no_findings
    → PassByAbsence c s (rules_of index c)
unfolding merge_static
merge_static-earned index c s scan h = past (for_control c (contents s).capability_findings) h
  where
    past :
        (caps : List Finding)
        → (capability_first c scan caps (judge_matches c scan s (rules_of index c))).pass_basis
          ≡ some Basis.no_findings
        → PassByAbsence c s (rules_of index c)
    past [] e = judge_matches-WeakPass c scan s (rules_of index c) e
    past (cap ∷ _) e = ground arith
