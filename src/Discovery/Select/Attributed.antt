-- ===== src/Discovery/Select/Attributed.antt =====
-- `_attribute_rule` of semantic_engine/path_discovery.py: which rule a slice may name.
use control_gate_backend.Prelude.{
  String, Bool, true, ◌≡◌, refl, sym, ◌∙◌, ap, ◌&&◌, ◌⊎◌, some, List, [], ◌∷◌, arith, str_eq,
  eq_iff, filter, Bool-cases, Option-cases, inl, inr,
}
use control_gate_backend.Prelude.Dict.{lookup, contains}
use control_gate_backend.Prelude.Texts.{codes_of, text_le}
use control_gate_backend.Discovery.Select.{
  Rule, Store, least, lesser, unattributed, attributed_to, attribute_rule,
}

contains-filter :
    (p : String → Bool) (xs : List String) (t : String)
    → contains (filter p xs) t ≡ (p t && contains xs t)
contains-filter p [] t = ground arith
contains-filter p (x ∷ xs) t = elim (Bool-cases (str_eq x t)) [
  | inl same ↦
      let e = (eq_iff x t).0 same in
      let rest = contains-filter p xs t in
      let own : str_eq t t ≡ true = (eq_iff t t).1 refl in rw e (ground (arith, rest, own))
  | inr other ↦ ground (arith, contains-filter p xs t, other)
]

contains-least : (ts : List String) (t : String) → least ts ≡ some t → contains ts t ≡ true
unfolding least
contains-least [] t h = cc
contains-least (u ∷ ts) t h = elim (Option-cases (least ts)) [
  | inl e ↦
      let same : u ≡ t = cc in let own : str_eq u t ≡ true = (eq_iff u t).1 same in rw own refl
  | inr (v, e) ↦
      let found = contains-least ts v e in
      let pick : lesser u (some v) ≡ some t = sym (ap (lesser u) e) ∙ h in
      elim (Bool-cases (text_le (codes_of u) (codes_of v))) [
        | inl first ↦
            let same : some u ≡ some t = rw first at pick in
            let own : str_eq u t ≡ true = (eq_iff u t).1 (cc) in rw own refl
        | inr later ↦
            let same : some v ≡ some t = rw later at pick in
            let e' : v ≡ t = cc in let there : contains ts t ≡ true = rw e' at found in ground arith
      ]
]

-- A path is attributed to no rule, or to a rule of the store whose id is among the owners of its source
-- and among those of its sink.
pub attribute_rule-owned :
    (source_owners sink_owners : List String) (store : Store)
    → (attribute_rule source_owners sink_owners store ≡ unattributed)
      ⊎ ((id : String) × (r : Rule) × (lookup id store ≡ some r)
          × (contains source_owners id ≡ true)
          × (contains sink_owners id ≡ true)
          × (attribute_rule source_owners sink_owners store ≡ attributed_to (some r)))
unfolding attribute_rule
attribute_rule-owned source_owners sink_owners store =
    let common = filter (contains sink_owners) source_owners in
    elim (Option-cases (least common)) [
      | inl e ↦ inl (rw (attribute_rule, e) refl)
      | inr (id, e) ↦ elim (Option-cases (lookup id store)) [
        | inl missing ↦ inl (rw (attribute_rule, e, missing) refl)
        | inr (r, found) ↦
            let both =
              sym (contains-filter (contains sink_owners) source_owners id)
              ∙ contains-least common id e in
            inr (id, r, found, ground arith, ground arith, rw (attribute_rule, e, found) refl)
      ]
    ]
