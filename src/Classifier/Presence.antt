-- ===== src/Classifier/Presence.antt =====
-- semantic_engine/classifier/classifier.py: the rules whose match is the verdict, which no answer of the
-- language model takes back.
use control_gate_backend.Prelude.{
  ℕ, String, Bool, true, false, not, ◌≡◌, ◌&&◌, ◌||◌, Option, none, some, List, [], ◌∷◌, ◌++◌,
  str_eq, arith, refl, ◌∙◌, ap, any, any-append, any-filter, any_congr, filter, drop, keep_some,
  eq_iff, Bool-cases, inl, inr,
}
use control_gate_backend.Prelude.Dict.{contains}
use control_gate_backend.Prelude.Sort.{sort_by, any-sort_by}
use control_gate_backend.Prelude.Texts.{Text}
use control_gate_backend.Pipeline.Findings.{CodeSlice, ClassifiedVulnerability}
use control_gate_backend.Classifier.{
  presence_vuln_rules, is_presence, static_only_result, classified, combine_results,
}
use control_gate_backend.Classifier.Safe.{Searches, Pattern, code_is_safe}
use control_gate_backend.Classifier.Workers.{
  Turn, insert_finding, sort_findings, fallback_all, static_all, classify_slices, classify_result,
  fallback_classify, confidence_key, verdicts, worked, llm_slices,
}

-- A rule that is not in the list is another one than a rule that is.
other_rule :
    (t id : String)
    → contains presence_vuln_rules t ≡ false
    → contains presence_vuln_rules id ≡ true
    → str_eq t id ≡ false
other_rule t id h k = elim (Bool-cases (str_eq t id)) [
  | inl e ↦
      let same : t ≡ id = (eq_iff t id).0 e in
      let both : contains presence_vuln_rules t ≡ contains presence_vuln_rules id =
        ap (contains presence_vuln_rules) same in
      absurd (cc)
  | inr e ↦ e
]

or_false :
    (b : Bool)
    → (b || false || false || false || false || false || false || false || false || false || false
        || false)
      ≡ b
or_false true = refl
or_false false = refl

-- Only the pattern that stands before every rule can call a presence rule's snippet safe.
presence-code_is_safe :
    (re : Searches) (code : Text) (id : String)
    → contains presence_vuln_rules id ≡ true
    → code_is_safe re code id ≡ re.search Pattern.defusedxml code
presence-code_is_safe re code id h =
    rw
      (
        other_rule "SQL_INJECTION" id refl h,
        other_rule "NOSQL_INJECTION" id refl h,
        other_rule "BROKEN_ACCESS_CONTROL" id refl h,
        other_rule "COMMAND_INJECTION" id refl h,
        other_rule "CODE_INJECTION" id refl h,
        other_rule "PATH_TRAVERSAL" id refl h,
        other_rule "PATH_DISCOVERY" id refl h,
        other_rule "INPUT_VALIDATION_MISSING" id refl h,
        other_rule "REGEX_DOS" id refl h,
        other_rule "TEMPLATE_INJECTION" id refl h,
        other_rule "XSS" id refl h,
        other_rule "SSRF" id refl h,
        other_rule "UNVALIDATED_REDIRECT" id refl h,
        other_rule "INSECURE_RANDOM" id refl h,
        other_rule "OTP_INSECURE_RANDOM" id refl h,
      )
      (or_false (re.search Pattern.defusedxml code))

any-insert_finding :
    (q : ClassifiedVulnerability → Bool) (v : ClassifiedVulnerability)
    (vs : List ClassifiedVulnerability)
    → any q (insert_finding v vs) ≡ (q v || any q vs)
unfolding insert_finding
any-insert_finding q v [] = refl
any-insert_finding q v (w ∷ ws) = ground (arith, any-insert_finding q v ws)

any-sort_findings :
    (q : ClassifiedVulnerability → Bool) (vs : List ClassifiedVulnerability)
    → any q (sort_findings vs) ≡ any q vs
unfolding sort_findings
any-sort_findings q [] = refl
any-sort_findings q (v ∷ vs) =
    ground (arith, any-insert_finding q v (sort_findings vs), any-sort_findings q vs)

keep_some-append :
    (xs ys : List (Option ClassifiedVulnerability))
    → keep_some (xs ++ ys) ≡ keep_some xs ++ keep_some ys
keep_some-append [] ys = refl
keep_some-append (none ∷ xs) ys = keep_some-append xs ys
keep_some-append (some v ∷ xs) ys = ap (λ zs. v ∷ zs) (keep_some-append xs ys)

bool_right : (a b c d : Bool) → (a && b && c && d) ≡ true → b ≡ true
bool_right a b c d h = ground arith

bool_mid : (a b c : Bool) → (a && b && c) ≡ true → b ≡ true
bool_mid a b c h = ground arith

bool_last : (a b : Bool) → (a && not b) ≡ true → b ≡ false
bool_last a b h = ground arith

bool_twice : (a b c : Bool) → (a && (a && b && c)) ≡ (a && b && c)
bool_twice a b c = ground arith

or_left : (a b : Bool) → a ≡ true → (a || b) ≡ true
or_left a b h = ground arith

or_right : (a b : Bool) → a ≡ false → (a || b) ≡ true → b ≡ true
or_right a b h k = ground arith

module _ (re : Searches) (id : String) where
  -- A presence finding of the rule whose snippet does not import defusedxml.
  abbrev pub is_certain : CodeSlice → Bool
  is_certain s =
      is_presence s && str_eq s.rule_id id && not (re.search Pattern.defusedxml s.code_snippet)

  abbrev pub is_of_rule : ClassifiedVulnerability → Bool
  is_of_rule v = str_eq v.rule_id id

  skip :
      (o : Option ClassifiedVulnerability) (os : List (Option ClassifiedVulnerability))
      → any is_of_rule (keep_some os) ≡ true
      → any is_of_rule (keep_some (o ∷ os)) ≡ true
  skip none os h = h
  skip (some v) os h = ground arith

  abbrev sure : CodeSlice → ClassifiedVulnerability
  sure s = let r = static_only_result s in classified s r (combine_results s r)

  certain-unsafe :
      (s : CodeSlice) → is_certain s ≡ true → code_is_safe re s.code_snippet s.rule_id ≡ false
  certain-unsafe s h =
      let listed : contains presence_vuln_rules s.rule_id ≡ true =
        bool_right (str_eq s.pattern_type "REGEX") (contains presence_vuln_rules s.rule_id)
          (str_eq s.rule_id id) (not (re.search Pattern.defusedxml s.code_snippet)) h in
      let clear =
        bool_last (is_presence s && str_eq s.rule_id id)
          (re.search Pattern.defusedxml s.code_snippet) h in
      presence-code_is_safe re s.code_snippet s.rule_id listed ∙ clear

  certain-rule : (s : CodeSlice) → is_certain s ≡ true → str_eq s.rule_id id ≡ true
  certain-rule s h =
      bool_mid (is_presence s) (str_eq s.rule_id id)
        (not (re.search Pattern.defusedxml s.code_snippet)) h

  static_all-certain :
      (ss : List CodeSlice)
      → any is_certain ss ≡ true
      → any is_of_rule (keep_some (static_all re ss)) ≡ true
  unfolding static_all
  static_all-certain [] h = absurd cc
  static_all-certain (s ∷ ss) h = elim (Bool-cases (is_certain s)) [
    | inl e ↦
        let result : classify_result re s (static_only_result s) ≡ some (sure s) =
          rw (certain-unsafe s e) refl in
        rw (static_all, result)
          (or_left (str_eq s.rule_id id) (any is_of_rule (keep_some (static_all re ss)))
            (certain-rule s e))
    | inr e ↦
        skip (classify_result re s (static_only_result s)) (static_all re ss)
          (static_all-certain ss (or_right (is_certain s) (any is_certain ss) e h))
  ]

  fallback_all-certain :
      (ss : List CodeSlice)
      → any is_certain ss ≡ true
      → any is_of_rule (keep_some (fallback_all re ss)) ≡ true
  unfolding fallback_all
  fallback_all-certain [] h = absurd cc
  fallback_all-certain (s ∷ ss) h = elim (Bool-cases (is_certain s)) [
    | inl e ↦
        let result : fallback_classify re s ≡ some (sure s) = rw (certain-unsafe s e) refl in
        rw (fallback_all, result)
          (or_left (str_eq s.rule_id id) (any is_of_rule (keep_some (fallback_all re ss)))
            (certain-rule s e))
    | inr e ↦
        skip (fallback_classify re s) (fallback_all re ss)
          (fallback_all-certain ss (or_right (is_certain s) (any is_certain ss) e h))
  ]

  certain-presence : (s : CodeSlice) → (is_presence s && is_certain s) ≡ is_certain s
  certain-presence s =
      bool_twice (is_presence s) (str_eq s.rule_id id)
        (not (re.search Pattern.defusedxml s.code_snippet))

  certain-sorted :
      (key : CodeSlice → ℕ) (slices : List CodeSlice)
      → any is_certain slices ≡ true
      → any is_certain (filter is_presence (sort_by key slices)) ≡ true
  certain-sorted key slices h =
      any-filter is_certain is_presence (sort_by key slices)
      ∙ any_congr (λ s. is_presence s && is_certain s) is_certain certain-presence
          (sort_by key slices)
      ∙ any-sort_by key is_certain slices
      ∙ h

  -- A slice of a presence rule becomes a vulnerability of its rule, with the language model or without,
  -- whatever the model answers and however the workers take turns, where the snippet does not import
  -- defusedxml.
  pub classify_slices-certain :
      (enable_llm : Bool) (max_llm_calls : ℕ) (turns : List Turn) (slices : List CodeSlice)
      → any is_certain slices ≡ true
      → any is_of_rule (classify_slices re enable_llm max_llm_calls turns slices) ≡ true
  unfolding classify_slices verdicts
  classify_slices-certain true max_llm_calls turns slices h =
      let sorted = sort_by confidence_key slices in
      let queue = worked re max_llm_calls turns slices in
      let statics = static_all re (filter is_presence sorted) in
      let rest =
        queue.results
        ++ fallback_all re queue.waiting
        ++ fallback_all re (drop max_llm_calls (llm_slices re slices)) in
      any-sort_findings is_of_rule (keep_some (statics ++ rest))
      ∙ ap (any is_of_rule) (keep_some-append statics rest)
      ∙ any-append is_of_rule (keep_some statics) (keep_some rest)
      ∙ or_left (any is_of_rule (keep_some statics)) (any is_of_rule (keep_some rest))
          (static_all-certain (filter is_presence sorted) (certain-sorted confidence_key slices h))
  classify_slices-certain false max_llm_calls turns slices h =
      let sorted = sort_by confidence_key slices in
      any-sort_findings is_of_rule (keep_some (fallback_all re sorted))
      ∙ fallback_all-certain sorted (any-sort_by confidence_key is_certain slices ∙ h)
