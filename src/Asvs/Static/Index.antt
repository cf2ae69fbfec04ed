-- ===== src/Asvs/Static/Index.antt =====
-- app/services/asvs_service.py: the index from a control to the rules that are tagged with it.
use control_gate_backend.Prelude.{
  String, Bool, ◌≡◌, ◌&&◌, ◌||◌, List, [], ◌∷◌, ◌++◌, arith, str_eq, eq_iff, any, any-append,
}
use control_gate_backend.Prelude.Dict.{contains, insert, lookup-insert}
use control_gate_backend.Asvs.Types.{QueryRule}
use control_gate_backend.Asvs.Static.{RuleIndex, rules_of, index_rule, index_rules, rule_index}

-- The rules of a control, after one more rule is filed under `k`.
rules_of-insert :
    (p : QueryRule → Bool) (rule : QueryRule) (k c : String) (index : RuleIndex)
    → any p (rules_of (insert k (rules_of index k ++ rule ∷ []) index) c)
      ≡ (any p (rules_of index c) || (str_eq k c && p rule))
rules_of-insert p rule k c index = ground (
  arith,
  eq_iff k c,
  lookup-insert k c (rules_of index k ++ rule ∷ []) index,
  any-append p (rules_of index k) (rule ∷ []),
)

any-index_rule :
    (p : QueryRule → Bool) (rule : QueryRule) (ks : List String) (c : String) (index : RuleIndex)
    → any p (rules_of (index_rule rule ks index) c)
      ≡ (any p (rules_of index c) || (contains ks c && p rule))
unfolding index_rule
any-index_rule p rule [] c index = ground arith
any-index_rule p rule (k ∷ ks) c index =
    let next = insert k (rules_of index k ++ rule ∷ []) index in
    ground (arith, any-index_rule p rule ks c next, rules_of-insert p rule k c index)

any-index_rules :
    (p : QueryRule → Bool) (rules : List QueryRule) (c : String) (index : RuleIndex)
    → any p (rules_of (index_rules rules index) c)
      ≡ (any p (rules_of index c) || any (λ r. contains r.asvs_controls c && p r) rules)
unfolding index_rules
any-index_rules p [] c index = ground arith
any-index_rules p (r ∷ rs) c index = ground (
  arith,
  any-index_rules p rs c (index_rule r r.asvs_controls index),
  any-index_rule p r r.asvs_controls c index,
)

-- The index finds for a control exactly the rules that are tagged with it: some indexed rule
-- satisfies a test if and only if some tagged rule of the catalog does, for every test.
pub rule_index-any :
    (p : QueryRule → Bool) (rules : List QueryRule) (c : String)
    → any p (rules_of (rule_index rules) c) ≡ any (λ r. contains r.asvs_controls c && p r) rules
unfolding rule_index
rule_index-any p rules c = any-index_rules p rules c []
