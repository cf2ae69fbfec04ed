-- ===== src/Dependencies/Policy.antt =====
-- app/services/dependency_scanner.py: the verdict for V15.2.1 and the finding that it names.
use control_gate_backend.Prelude.{
  ℕ, Bool, true, false, not, ◌≡◌, ◌≤◌, refl, sym, ◌∙◌, ap, ◌&&◌, ◌||◌, Option, List, [], ◌∷◌, ◌++◌,
  map, arith, ltb, if◌then◌else◌, any, is_cons, filter, length, any-append,
}
use control_gate_backend.Prelude.Sort.{insert_by, sort_by, IsAbove, IsSorted, sort_by-IsSorted}
use control_gate_backend.Dependencies.{
  DependencyRef, DependencyFinding, sla_days_of, Vuln, extract_severity, exceeds, to_finding,
  vulns_of, query_osv, Verdict, Note, evaluate_breached, evaluate_v15_2_1,
}

-- The policy of the control, said of what OSV answers.
abbrev pub is_overdue : Vuln → Bool
is_overdue v = exceeds v.days_since (sla_days_of (extract_severity v))

module _ (ask : DependencyRef → Option (List Vuln)) where
  abbrev pub has_vuln : List DependencyRef → Bool
  has_vuln refs = any (λ r. is_cons (vulns_of (ask r))) refs

  abbrev pub has_overdue : List DependencyRef → Bool
  has_overdue refs = any (λ r. any is_overdue (vulns_of (ask r))) refs

late-map :
    (ref : DependencyRef) (vs : List Vuln)
    → any (λ f. f.breached_sla) (map (λ v. to_finding ref v) vs) ≡ any is_overdue vs
unfolding to_finding
late-map ref [] = refl
late-map ref (v ∷ vs) = ground (arith, late-map ref vs)

some_late :
    (ask : DependencyRef → Option (List Vuln)) (refs : List DependencyRef)
    → any (λ f. f.breached_sla) (query_osv ask refs) ≡ has_overdue ask refs
unfolding query_osv
some_late ask [] = refl
some_late ask (r ∷ refs) =
    rw
      (
        any-append (λ f. f.breached_sla) (map (λ v. to_finding r v) (vulns_of (ask r)))
            (query_osv ask refs),
        late-map r (vulns_of (ask r)),
        some_late ask refs,
      )
      refl

is_cons-map-append :
    (ref : DependencyRef) (vs : List Vuln) (fs : List DependencyFinding)
    → is_cons (map (λ v. to_finding ref v) vs ++ fs) ≡ (is_cons vs || is_cons fs)
is_cons-map-append ref [] fs = refl
is_cons-map-append ref (v ∷ vs) fs = refl

some_found :
    (ask : DependencyRef → Option (List Vuln)) (refs : List DependencyRef)
    → is_cons (query_osv ask refs) ≡ has_vuln ask refs
unfolding query_osv
some_found ask [] = refl
some_found ask (r ∷ refs) =
    rw (is_cons-map-append r (vulns_of (ask r)) (query_osv ask refs), some_found ask refs) refl

-- the days that a finding's severity allows
abbrev pub sla_of : DependencyFinding → ℕ
sla_of g = sla_days_of g.severity

insert-any :
    (p : DependencyFinding → Bool) (x : DependencyFinding) (xs : List DependencyFinding)
    → any p (insert_by sla_of x xs) ≡ (p x || any p xs)
unfolding insert_by
insert-any p x [] = refl
insert-any p x (y ∷ ys) = ground (arith, insert-any p x ys)

sort-any :
    (p : DependencyFinding → Bool) (xs : List DependencyFinding)
    → any p (sort_by sla_of xs) ≡ any p xs
unfolding sort_by
sort-any p [] = refl
sort-any p (x ∷ xs) = ground (arith, insert-any p x (sort_by sla_of xs), sort-any p xs)

filter-is_cons :
    (p : DependencyFinding → Bool) (xs : List DependencyFinding) → is_cons (filter p xs) ≡ any p xs
filter-is_cons p [] = refl
filter-is_cons p (x ∷ xs) = ground (arith, filter-is_cons p xs)

sort-is_cons : (xs : List DependencyFinding) → is_cons (sort_by sla_of xs) ≡ is_cons xs
unfolding sort_by insert_by
sort-is_cons [] = refl
sort-is_cons (x ∷ xs) = insert-is_cons x (sort_by sla_of xs)
  where
    insert-is_cons :
        (y : DependencyFinding) (ys : List DependencyFinding)
        → is_cons (insert_by sla_of y ys) ≡ true
    insert-is_cons y [] = refl
    insert-is_cons y (z ∷ ys) = ground arith

evaluate_breached-verdict :
    (total count : ℕ) (fs : List DependencyFinding)
    → (evaluate_breached total count fs).verdict
      ≡ (if is_cons fs then Verdict.fail else Verdict.manual_review)
unfolding evaluate_breached
evaluate_breached-verdict total count [] = refl
evaluate_breached-verdict total count (f ∷ fs) = refl

evaluate-verdict :
    (fs : List DependencyFinding)
    → (evaluate_v15_2_1 fs).verdict ≡ (
        if not (is_cons fs)
        then Verdict.pass
        else if any (λ f. f.breached_sla) fs
        then Verdict.fail
        else Verdict.manual_review)
unfolding evaluate_v15_2_1
evaluate-verdict [] = refl
evaluate-verdict (f ∷ fs) =
    let late = filter (λ g. g.breached_sla) (f ∷ fs) in
    let verdict = evaluate_breached-verdict (length (f ∷ fs)) (length late) (sort_by sla_of late) in
    rw (verdict, sort-is_cons late, filter-is_cons (λ g. g.breached_sla) (f ∷ fs)) refl

-- The audit of a set of dependencies: pass where OSV names no vulnerability of any of them (also
-- where its queries fail), fail where one is older than its severity's deadline allows, and manual
-- review where all are within their deadlines.
pub evaluate-query :
    (ask : DependencyRef → Option (List Vuln)) (refs : List DependencyRef)
    → (evaluate_v15_2_1 (query_osv ask refs)).verdict ≡ (
        if not (has_vuln ask refs)
        then Verdict.pass
        else if has_overdue ask refs
        then Verdict.fail
        else Verdict.manual_review)
evaluate-query ask refs =
    rw (evaluate-verdict (query_osv ask refs), some_found ask refs, some_late ask refs) refl

above_all :
    (n : ℕ) (xs : List DependencyFinding)
    → IsAbove sla_of n xs
    → IsSorted sla_of xs
    → any (λ f. ltb (sla_of f) n) xs ≡ false
above_all n [] a s = refl
above_all n (x ∷ xs) a (b, s) =
    let rest = above_all n xs (later n x xs a b) s in ground (arith, rest)
  where
    later :
        (m : ℕ) (y : DependencyFinding) (ys : List DependencyFinding)
        → m ≤ sla_of y
        → IsAbove sla_of (sla_of y) ys
        → IsAbove sla_of m ys
    later m y [] p q = tt
    later m y (z ∷ ys) p q = omega arith

evaluate_breached-note :
    (total count c t : ℕ) (w : DependencyFinding) (fs : List DependencyFinding)
    → (evaluate_breached total count fs).note ≡ Note.breached c t w
    → (rest : List DependencyFinding) × (fs ≡ w ∷ rest) × (c ≡ count) × (t ≡ total)
unfolding evaluate_breached
evaluate_breached-note total count c t w [] h = cc
evaluate_breached-note total count c t w (f ∷ fs) h = (fs, cc, cc, cc)

filter-none :
    (p : DependencyFinding → Bool) (xs : List DependencyFinding)
    → any (λ f. not (p f)) (filter p xs) ≡ false
filter-none p [] = refl
filter-none p (x ∷ xs) = ground (arith, filter-none p xs)

filter-any :
    (p q : DependencyFinding → Bool) (xs : List DependencyFinding)
    → any q (filter p xs) ≡ any (λ f. p f && q f) xs
filter-any p q [] = refl
filter-any p q (x ∷ xs) = ground (arith, filter-any p q xs)

-- The finding that a failing verdict names has breached its deadline, no other breached finding
-- has a shorter one, and the counts of the note are those of the breached and of all findings.
pub evaluate-worst :
    (fs : List DependencyFinding) (c t : ℕ) (w : DependencyFinding)
    → (evaluate_v15_2_1 fs).note ≡ Note.breached c t w
    → (w.breached_sla ≡ true)
      × (any (λ f. f.breached_sla && ltb (sla_of f) (sla_of w)) fs ≡ false)
      × (c ≡ length (filter (λ f. f.breached_sla) fs))
      × (t ≡ length fs)
unfolding evaluate_v15_2_1
evaluate-worst [] c t w h = cc
evaluate-worst (f ∷ fs) c t w h =
    let late = filter (λ g. g.breached_sla) (f ∷ fs) in
    let (rest, e, same_c, same_t) =
      evaluate_breached-note (length (f ∷ fs)) (length late) c t w (sort_by sla_of late) h in
    let all_late : any (λ g. not g.breached_sla) (w ∷ rest) ≡ false =
      sym (ap (any (λ g. not g.breached_sla)) e)
      ∙ sort-any (λ g. not g.breached_sla) late
      ∙ filter-none (λ g. g.breached_sla) (f ∷ fs) in
    let sorted : IsSorted sla_of (w ∷ rest) = rw e at (sort_by-IsSorted sla_of late) in
    let above : any (λ g. ltb (sla_of g) (sla_of w)) (w ∷ rest) ≡ false =
      above_all (sla_of w) (w ∷ rest) (omega arith) sorted in
    let shortest : any (λ g. ltb (sla_of g) (sla_of w)) late ≡ false =
      sym (sort-any (λ g. ltb (sla_of g) (sla_of w)) late)
      ∙ ap (any (λ g. ltb (sla_of g) (sla_of w))) e
      ∙ above in
    (
      ground arith,
      sym (filter-any (λ g. g.breached_sla) (λ g. ltb (sla_of g) (sla_of w)) (f ∷ fs)) ∙ shortest,
      same_c,
      same_t,
    )
