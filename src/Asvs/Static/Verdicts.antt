-- ===== src/Asvs/Static/Verdicts.antt =====
-- app/services/asvs_service.py: which verdict and which bases the static merge reaches.
use control_gate_backend.Prelude.{
  ℕ, String, Bool, true, false, not, ◌≡◌, refl, ◌&&◌, ◌||◌, Option, none, some, List, [], ◌∷◌,
  arith, ◌==◌, if◌then◌else◌, get_or, filter, any, is_cons, length, is_cons-filter, any-filter,
  not-all,
}
use control_gate_backend.Prelude.Dict.{contains}
use control_gate_backend.Asvs.Types.{
  Verdict, Basis, Vulnerability, Finding, QueryRule, ControlResult, Summary, contents,
}
use control_gate_backend.Asvs.Evidence.{untested}
use control_gate_backend.Asvs.Config.{is_compliant, for_control}
use control_gate_backend.Asvs.Attest.{is_confirmed_hit}
use control_gate_backend.Asvs.Static.{
  RuleIndex, rules_of, capability_result, vulnerable_result, judge_hits, marker_result,
  is_marker_rule, swept_result, judge_absence, without_matches, matches_of, judge_matches,
  capability_first, merge_static,
}

-- What the summary holds for a control, said of the list of findings itself.
abbrev pub is_tagged : String → Vulnerability → Bool
is_tagged c v = contains v.asvs_controls c

abbrev pub is_hit : String → Vulnerability → Bool
is_hit c v = is_tagged c v && not (is_compliant v.asvs_finding_polarity)

abbrev pub is_sure_hit : String → Vulnerability → Bool
is_sure_hit c v = is_hit c v && is_confirmed_hit v

-- The control was really searched for: there was source, and a rule looks for its violation.
abbrev pub was_searched : Option Summary → List QueryRule → Bool
was_searched none rules = false
was_searched (some s) rules = not (s.total_files == 0) && any (λ r. not (is_marker_rule r)) rules

-- The verdict policy: a confirmed hit fails, an unconfirmed one asks for review, a marker passes,
-- and silence passes only where the control was searched for.
abbrev pub static_policy : String → Option Summary → List QueryRule → Verdict
static_policy c s rules =
    if any (is_sure_hit c) (contents s).vulnerabilities
    then Verdict.fail
    else if any (is_hit c) (contents s).vulnerabilities
    then Verdict.manual_review
    else if any (is_tagged c) (contents s).vulnerabilities || was_searched s rules
    then Verdict.pass
    else Verdict.not_tested

-- The first capability check of a control overrides the policy.
abbrev pub capability_or : List Finding → Verdict → Verdict
capability_or [] v = v
capability_or (cap ∷ _) v = get_or cap.verdict Verdict.not_tested

vulnerable_result-verdict :
    (c scan : String) (s : Summary) (n : ℕ) (v : Verdict) (b : Basis) (hits : List Vulnerability)
    → is_cons hits ≡ true
    → (vulnerable_result c scan s n v b hits).verdict ≡ v
unfolding vulnerable_result
vulnerable_result-verdict c scan s n v b [] h = cc
vulnerable_result-verdict c scan s n v b (w ∷ ws) h = refl

judge_hits-verdict :
    (c scan : String) (s : Summary) (hits : List Vulnerability)
    → is_cons hits ≡ true
    → (judge_hits c scan s hits).verdict
      ≡ (if any is_confirmed_hit hits then Verdict.fail else Verdict.manual_review)
unfolding judge_hits
judge_hits-verdict c scan s hits h =
    let sure = filter is_confirmed_hit hits in
    ground (
      arith,
      is_cons-filter is_confirmed_hit hits,
      vulnerable_result-verdict c scan s (length hits) Verdict.fail Basis.confirmed sure,
      vulnerable_result-verdict c scan s (length hits) Verdict.manual_review Basis.unconfirmed hits,
    )

without_matches-verdict :
    (c scan : String) (s : Option Summary) (rules : List QueryRule)
    → (without_matches c scan s rules).verdict
      ≡ (if was_searched s rules then Verdict.pass else Verdict.not_tested)
unfolding without_matches judge_absence swept_result untested
without_matches-verdict c scan none rules = refl
without_matches-verdict c scan (some s) rules = ground (arith, not-all is_marker_rule rules)

module _ (c : String) (s : Summary) where
  abbrev pub hits_of : List Vulnerability
  hits_of = filter (λ v. not (is_compliant v.asvs_finding_polarity)) (matches_of c s)

  pub matches_any : is_cons (matches_of c s) ≡ any (is_tagged c) s.vulnerabilities
  unfolding matches_of
  matches_any = is_cons-filter (is_tagged c) s.vulnerabilities

  pub hits_any : is_cons hits_of ≡ any (is_hit c) s.vulnerabilities
  unfolding matches_of
  hits_any = rw (is_cons-filter, any-filter)

sure_any :
    (c : String) (vs : List Vulnerability)
    → any is_confirmed_hit
        (filter (λ v. not (is_compliant v.asvs_finding_polarity)) (filter (is_tagged c) vs))
      ≡ any (is_sure_hit c) vs
sure_any c [] = refl
sure_any c (v ∷ vs) = ground (arith, sure_any c vs)

any-imp :
    (p q : Vulnerability → Bool) (vs : List Vulnerability)
    → any (λ v. p v && q v) vs ≡ true
    → any p vs ≡ true
any-imp p q [] h = h
any-imp p q (v ∷ vs) h = ground (arith, any-imp p q vs)

judge_matches-verdict :
    (c scan : String) (s : Option Summary) (rules : List QueryRule)
    → (judge_matches c scan s rules).verdict ≡ static_policy c s rules
unfolding judge_matches marker_result matches_of
judge_matches-verdict c scan s rules =
    let vs = (contents s).vulnerabilities in
    ground (
      arith,
      matches_any c (contents s),
      hits_any c (contents s),
      sure_any c vs,
      any-imp (is_hit c) is_confirmed_hit vs,
      any-imp (is_tagged c) (λ v. not (is_compliant v.asvs_finding_polarity)) vs,
      judge_hits-verdict c scan (contents s) (hits_of c (contents s)),
      without_matches-verdict c scan s rules,
    )

capability_first-verdict :
    (c scan : String) (caps : List Finding) (r : ControlResult)
    → (capability_first c scan caps r).verdict ≡ capability_or caps r.verdict
unfolding capability_first capability_result
capability_first-verdict c scan [] r = refl
capability_first-verdict c scan (cap ∷ _) r = refl

-- The static merge reaches the verdict of the first capability check of the control, and where
-- there is none, that of the policy: fail for a confirmed hit, review for an unconfirmed one, pass
-- for a marker or for a silent search, and not_tested otherwise.
pub merge_static-verdict :
    (index : RuleIndex) (c : String) (s : Option Summary) (scan : String)
    → (merge_static index c s scan).verdict
      ≡ capability_or
          (for_control c (contents s).capability_findings)
          (static_policy c s (rules_of index c))
unfolding merge_static
merge_static-verdict index c s scan =
    rw (capability_first-verdict, judge_matches-verdict c scan s (rules_of index c))
