-- ===== src/Asvs/Config/Verdicts.antt =====
-- app/services/asvs_service.py: which verdict the configuration and probe merges reach.
use control_gate_backend.Prelude.{
  String, Bool, true, false, ◌≡◌, refl, ◌||◌, Option, List, [], ◌∷◌, ◌++◌, arith, if◌then◌else◌,
  any, map, inl, inr, Bool-cases, Option-cases, some, ◌&&◌, str_eq, get_or, is_cons, is_cons-filter,
  is_cons-append,
}
use control_gate_backend.Prelude.Dict.{contains}
use control_gate_backend.Asvs.Types.{Verdict, is_verdict, Finding, Vulnerability, Summary, contents}
use control_gate_backend.Asvs.Evidence.{untested}
use control_gate_backend.Asvs.Config.{
  for_control, with_verdict, static_markers, is_compliant, merge_config_or_compliant_static,
  merge_config_or_dynamic, config_or_untested, merge_config,
}

abbrev pub has_verdict : Verdict → List Finding → Bool
has_verdict v fs = any (λ f. is_verdict v f.verdict) fs

-- The policy "a fail always wins", said without the code: of all findings for a control.
abbrev pub conservative : List Finding → Verdict
conservative fs =
    if has_verdict Verdict.fail fs
    then Verdict.fail
    else if has_verdict Verdict.pass fs
    then Verdict.pass
    else Verdict.not_tested

has_verdict-append :
    (v : Verdict) (xs ys : List Finding)
    → has_verdict v (xs ++ ys) ≡ (has_verdict v xs || has_verdict v ys)
has_verdict-append v [] ys = refl
has_verdict-append v (x ∷ xs) ys = ground (arith, has_verdict-append v xs ys)

is_cons-with_verdict :
    (v : Verdict) (fs : List Finding) → is_cons (with_verdict v fs) ≡ has_verdict v fs
is_cons-with_verdict v fs = is_cons-filter (λ f. is_verdict v f.verdict) fs

-- The configuration merge reaches the conservative verdict of the control's findings: fail if one
-- fails, else pass if one passes, else not_tested.
pub merge_config-verdict :
    (c : String) (s : Option Summary) (scan : String)
    → (merge_config c s scan).verdict ≡ conservative (for_control c (contents s).config_findings)
unfolding merge_config untested
merge_config-verdict c s scan = verdict-of (for_control c (contents s).config_findings)
  where
    verdict-of : (fs : List Finding) → (config_or_untested c scan fs).verdict ≡ conservative fs
    verdict-of [] = refl
    verdict-of (f ∷ fs) = ground (arith, is_cons-with_verdict Verdict.fail (f ∷ fs))

-- A live probe is one more source: the two-source merge reaches the conservative verdict of the
-- configuration and probe findings together, so that a fail from either one wins.
pub merge_config_or_dynamic-verdict :
    (c : String) (s : Option Summary) (scan : String)
    → (merge_config_or_dynamic c s scan).verdict
      ≡ conservative (
          for_control c (contents s).config_findings
          ++ for_control c (contents s).dynamic_probe_findings)
unfolding merge_config_or_dynamic untested
merge_config_or_dynamic-verdict c s scan =
    let xs = for_control c (contents s).config_findings in
    let ys = for_control c (contents s).dynamic_probe_findings in
    ground (
      arith,
      is_cons-append (with_verdict Verdict.fail xs) (with_verdict Verdict.fail ys),
      is_cons-append (with_verdict Verdict.pass xs) (with_verdict Verdict.pass ys),
      is_cons-with_verdict Verdict.fail xs,
      is_cons-with_verdict Verdict.fail ys,
      is_cons-with_verdict Verdict.pass xs,
      is_cons-with_verdict Verdict.pass ys,
      has_verdict-append Verdict.fail xs ys,
      has_verdict-append Verdict.pass xs ys,
    )

-- The better of two verdicts, in the order not_tested, fail, pass; all others count as not_tested.
abbrev pub better : Verdict → Verdict → Verdict
better v w =
    if is_verdict Verdict.pass (some v) || is_verdict Verdict.pass (some w)
    then Verdict.pass
    else if is_verdict Verdict.fail (some v) || is_verdict Verdict.fail (some w)
    then Verdict.fail
    else Verdict.not_tested

abbrev pub best : List Verdict → Verdict
best [] = Verdict.not_tested
best (v ∷ vs) = better v (best vs)

-- What a configuration check says of the control, and what a finding of the source says of it.
abbrev pub check_vote : String → Finding → Verdict
check_vote c f =
    if str_eq f.control_id c then get_or f.verdict Verdict.not_tested else Verdict.not_tested

abbrev pub marker_vote : String → Vulnerability → Verdict
marker_vote c v =
    if contains v.asvs_controls c && is_compliant v.asvs_finding_polarity
    then Verdict.pass
    else Verdict.not_tested

abbrev lenient : Bool → Bool → Verdict
lenient passes fails =
    if passes then Verdict.pass else if fails then Verdict.fail else Verdict.not_tested

lenient-better :
    (v : Verdict) (p f : Bool)
    → better v (lenient p f)
      ≡ lenient (is_verdict Verdict.pass (some v) || p) (is_verdict Verdict.fail (some v) || f)
lenient-better v true f = ground arith
lenient-better v false true = ground arith
lenient-better v false false = ground arith

best-markers :
    (c : String) (vs : List Vulnerability)
    → best (map (marker_vote c) vs)
      ≡ lenient
          (any (λ v. contains v.asvs_controls c && is_compliant v.asvs_finding_polarity) vs)
          false
best-markers c [] = refl
best-markers c (v ∷ vs) = ground (arith, best-markers c vs)

best-checks :
    (c : String) (fs : List Finding) (vs : List Verdict) (p : Bool)
    → best vs ≡ lenient p false
    → best (map (check_vote c) fs ++ vs)
      ≡ lenient
          (has_verdict Verdict.pass (for_control c fs) || p)
          (has_verdict Verdict.fail (for_control c fs))
best-checks c [] vs p h = h
best-checks c (f ∷ fs) vs p h = elim (Bool-cases (str_eq f.control_id c)) [
  | inl e ↦ elim (Option-cases f.verdict) [
    | inl n ↦ ground (arith, best-checks c fs vs p h)
    | inr (v, n) ↦
        rw
          (
            e,
            n,
            best-checks c fs vs p h,
            lenient-better v (has_verdict Verdict.pass (for_control c fs) || p)
                (has_verdict Verdict.fail (for_control c fs)),
          )
          (ground arith)
  ]
  | inr e ↦ rw (e, best-checks c fs vs p h) (ground arith)
]

-- For V3.5.8 the order is the other way round: the merge reaches the best verdict, a pass before a
-- fail before not_tested, of all configuration checks of the control together with one pass for each
-- finding of the source that is a marker of the control's compliance.
pub merge_config_or_compliant_static-best :
    (c : String) (s : Option Summary) (scan : String)
    → (merge_config_or_compliant_static c s scan).verdict
      ≡ best (
          map (check_vote c) (contents s).config_findings
          ++ map (marker_vote c) (contents s).vulnerabilities)
unfolding merge_config_or_compliant_static untested static_markers
merge_config_or_compliant_static-best c s scan =
    let fs = (contents s).config_findings in
    let vs = (contents s).vulnerabilities in
    let is_marker =
      λ (v : Vulnerability). contains v.asvs_controls c && is_compliant v.asvs_finding_polarity in
    let e = best-checks c fs (map (marker_vote c) vs) (any is_marker vs) (best-markers c vs) in
    ground (
      arith,
      e,
      is_cons-with_verdict Verdict.pass (for_control c fs),
      is_cons-with_verdict Verdict.fail (for_control c fs),
      is_cons-filter is_marker vs,
    )
