-- ===== src/Pipeline/Report.antt =====
-- `_format_vulnerability` of semantic_engine/pipeline.py: the report of a finding, without its scores
-- and the texts that it only copies.
pub mod Controls
use control_gate_backend.Prelude.{
  ℕ, zero, suc, String, Bool, true, false, not, ◌&&◌, ◌||◌, Option, none, some, List, [], ◌∷◌, ◌++◌,
  map, ltb, leb, ◌==◌, if◌then◌else◌, str_eq, length, get_or, is_cons, any, filter,
}
use control_gate_backend.Prelude.Dict.{Dict, lookup, contains}
use control_gate_backend.Pipeline.Cluster.{Location}
use control_gate_backend.Pipeline.Findings.{ClassifiedVulnerability}

-- What `_format_vulnerability` reads of a rule of the catalog.
pub record QueryRule : Type 0 where
  pub rule_id : String
  pub name : String
  pub asvs_controls : List String
  pub finding_polarity : String

-- The report of a finding.
pub record Report : Type 0 where
  pub id : String
  pub type : String
  pub rule_id : String
  pub asvs_controls : List String
  pub asvs_finding_polarity : String
  pub contributing_rules : List (String × String)
  pub needs_manual_triage : Bool
  pub file : String
  pub start_line : ℕ
  pub end_line : ℕ

-- the rules that the catalog has, in the order of their ids
unfoldable pub rules_of : Dict QueryRule → List String → List QueryRule
rules_of store [] = []
rules_of store (id ∷ ids) =
    let later = rules_of store ids in elim (lookup id store) [ none ↦ later | some r ↦ r ∷ later ]

-- the loops that collect `asvs_controls`
unfoldable pub add_controls : List String → List String → List String
add_controls seen [] = seen
add_controls seen (c ∷ cs) = add_controls (if contains seen c then seen else seen ++ c ∷ []) cs

unfoldable pub controls_of : List String → List QueryRule → List String
unfolding add_controls
controls_of seen [] = seen
controls_of seen (r ∷ rs) = controls_of (add_controls seen r.asvs_controls) rs

abbrev polarity_of : List QueryRule → String
polarity_of [] = "vulnerable"
polarity_of (r ∷ rs) = r.finding_polarity

abbrev rest_of : List QueryRule → List QueryRule
rest_of [] = []
rest_of (r ∷ rs) = rs

-- `_format_vulnerability`
unfoldable pub format_vulnerability : Dict QueryRule → ClassifiedVulnerability → Report
unfolding rules_of controls_of
format_vulnerability store v =
    let rules = rules_of store (v.rule_id ∷ v.contributing_rule_ids) in
    record {
      id = v.slice_id;
      type = v.rule_name;
      rule_id = v.rule_id;
      asvs_controls = controls_of [] rules;
      asvs_finding_polarity = polarity_of rules;
      contributing_rules = map (λ (r : QueryRule). (r.rule_id, r.name)) (rest_of rules);
      needs_manual_triage = not (is_cons rules);
      file = get_or v.location.file "unknown";
      start_line = get_or v.location.start_line 0;
      end_line = get_or v.location.end_line 0;
    }
