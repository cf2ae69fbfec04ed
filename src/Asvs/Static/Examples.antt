-- ===== src/Asvs/Static/Examples.antt =====
-- app/services/asvs_service.py: a silent search of a concrete scan.
use control_gate_backend.Prelude.{◌≡◌, refl, some, [], ◌∷◌}
use control_gate_backend.Asvs.Types.{Polarity, Basis, Summary, QueryRule, empty_summary}
use control_gate_backend.Asvs.Static.{
  RuleIndex, rules_of, merge_static, matches_of, without_matches, judge_absence, judge_matches,
  swept_result,
}
use control_gate_backend.Asvs.Static.Bases.{PassByAbsence, merge_static-earned}

abbrev sql_rule : QueryRule
sql_rule = record {
  name = "sql_injection";
  finding_polarity = Polarity.vulnerable;
  asvs_controls = "V1.2.5" ∷ [];
}

abbrev silent : Summary
silent = record empty_summary { total_files = 4; files_scanned = 4 }

abbrev index : RuleIndex
index = ("V1.2.5", sql_rule ∷ []) ∷ []

swept : (merge_static index "V1.2.5" (some silent) "s1").pass_basis ≡ some Basis.no_findings
unfolding merge_static matches_of without_matches judge_absence judge_matches swept_result
swept = refl

merge_static-earned_example : PassByAbsence "V1.2.5" (some silent) (rules_of index "V1.2.5")
merge_static-earned_example = merge_static-earned index "V1.2.5" (some silent) "s1" swept
