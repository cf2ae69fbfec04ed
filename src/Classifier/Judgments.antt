-- ===== src/Classifier/Judgments.antt =====
-- `classify_slices` of semantic_engine/classifier/classifier.py: how the slices move through the queue
-- of the workers, each with who judged it.
use control_gate_backend.Prelude.{
  ℕ, zero, suc, Bool, true, false, not, ◌≡◌, ◌+◌, none, some, Option, List, [], ◌∷◌, ◌++◌, map,
  arith, refl, sym, ◌∙◌, ap, filter, take, drop, all, all-append, count_if, count_if-append, inl,
  inr, Option-cases,
}
use mathlib.Core.List.{append_assoc, append-nil}
use control_gate_backend.Pipeline.Findings.{CodeSlice, ClassifiedVulnerability}
use control_gate_backend.Classifier.{LlmResult, static_only_result}
use control_gate_backend.Classifier.Safe.{Searches}
use control_gate_backend.Classifier.Workers.{
  Turn, pull, answer, Queue, remove_at, take_turn, take_turns, pulled, classify_with_service,
  classify_result, fallback_classify,
}

-- Who judged a slice: its rule alone, the model by an answer, or the fallback without the model.
pub data Source : Type 0 where
  static fallback : Source
  by_model : LlmResult → Source

pub record Judgment : Type 0 where
  pub slice : CodeSlice
  pub source : Source

abbrev pub is_by_model : Judgment → Bool
is_by_model j = elim j.source [ static ↦ false | fallback ↦ false | by_model r ↦ true ]

-- The slices that pass the test are judged by their rule alone, and no others.
abbrev pub is_fitting : (CodeSlice → Bool) → Judgment → Bool
is_fitting p j = elim j.source [
  | static ↦ p j.slice
  | fallback ↦ not (p j.slice)
  | by_model r ↦ not (p j.slice)
]

abbrev pub judge : Source → CodeSlice → Judgment
judge source s = record { slice = s; source = source }

abbrev pub slices_of : List Judgment → List CodeSlice
slices_of js = map (λ j. j.slice) js

module _ {A B : Type 0} (f : A → B) where
  pub map-append : (xs ys : List A) → map f (xs ++ ys) ≡ map f xs ++ map f ys
  map-append [] ys = refl
  map-append (x ∷ xs) ys = ap (λ zs. f x ∷ zs) (map-append xs ys)

module _ (p : CodeSlice → Bool) where
  pub count_if-split :
      (q : CodeSlice → Bool) (xs : List CodeSlice)
      → count_if p (filter q xs) + count_if p (filter (λ x. not (q x)) xs) ≡ count_if p xs
  count_if-split q [] = omega arith
  count_if-split q (x ∷ xs) = ground (arith, count_if-split q xs)

  pub count_if-take :
      (n : ℕ) (xs : List CodeSlice)
      → count_if p (take n xs) + count_if p (drop n xs) ≡ count_if p xs
  count_if-take zero xs = omega arith
  count_if-take (suc n) [] = omega arith
  count_if-take (suc n) (x ∷ xs) = ground (arith, count_if-take n xs)

  count_if-remove_at :
      (i : ℕ) (ss rest : List CodeSlice) (s : CodeSlice)
      → remove_at i ss ≡ some (s, rest)
      → count_if p ss ≡ count_if p (s ∷ rest)
  count_if-remove_at i [] rest s h = absurd cc
  count_if-remove_at zero (t ∷ ss) rest s h =
      let same : t ∷ ss ≡ s ∷ rest = cc in ap (count_if p) same
  count_if-remove_at (suc i) (t ∷ ss) rest s h = elim (Option-cases (remove_at i ss)) [
    | inl e ↦ let no : none ≡ some (s, rest) = rw (remove_at, e) at h in absurd cc
    | inr ((u, us), e) ↦
        let yes : some (u, t ∷ us) ≡ some (s, rest) = rw (remove_at, e) at h in
        let head : u ≡ s = cc in
        let kept : t ∷ us ≡ rest = cc in
        let fewer = count_if-remove_at i ss us u e in
        rw (sym kept, sym head) (ground (arith, fewer))
  ]

  pub count_if-judge :
      (source : Source) (ss : List CodeSlice)
      → count_if p (slices_of (map (judge source) ss)) ≡ count_if p ss
  count_if-judge source [] = refl
  count_if-judge source (s ∷ ss) = ground (arith, count_if-judge source ss)

-- What a judgment comes to.
module _ (re : Searches) where
  abbrev pub verdict_by : Source → CodeSlice → Option ClassifiedVulnerability
  verdict_by static s = classify_result re s (static_only_result s)
  verdict_by fallback s = fallback_classify re s
  verdict_by (by_model r) s = classify_with_service re s r

  abbrev pub verdict_of : Judgment → Option ClassifiedVulnerability
  verdict_of j = verdict_by j.source j.slice

  -- How often a slice waits, is taken or is judged in `js`.
  abbrev pub in_all : (CodeSlice → Bool) → Queue → List Judgment → ℕ
  in_all p q js = count_if p q.waiting + count_if p q.taken + count_if p (slices_of js)

  -- The judgments that lead from one queue to another.
  abbrev pub Judged : Queue → Queue → List Judgment → Type 0
  Judged q r js =
      (r.results ≡ q.results ++ map verdict_of js)
      × ((p : CodeSlice → Bool) → in_all p r js ≡ in_all p q [])
      × (all is_by_model js ≡ true)

  same-Judged : (q : Queue) → Judged q q []
  same-Judged q = (sym (append-nil q.results), λ p. refl, refl)

  pulled-Judged : (ss : List CodeSlice) (q : Queue) → q.waiting ≡ ss → Judged q (pulled re ss q) []
  pulled-Judged [] q h = same-Judged q
  pulled-Judged (s ∷ ss) q h = (
    sym (append-nil q.results),
    λ p. rw h (ground (arith, count_if-append p q.taken (s ∷ []))),
    refl,
  )

  take_turn-Judged : (t : Turn) (q : Queue) → (js : List Judgment) × Judged q (take_turn re t q) js
  unfolding take_turn
  take_turn-Judged pull q = ([], pulled-Judged q.waiting q refl)
  take_turn-Judged (answer i r) q = elim (Option-cases (remove_at i q.taken)) [
    | inl e ↦ rw (take_turn, e) ([], same-Judged q)
    | inr ((s, ss), e) ↦
        rw (take_turn, e)
          (
            judge (by_model r) s ∷ [],
            (
              refl,
              λ p. (let fewer = count_if-remove_at p i q.taken ss s e in ground (arith, fewer)),
              refl,
            ),
          )
  ]

  trans-Judged :
      (q r t : Queue) (js ks : List Judgment)
      → Judged q r js
      → Judged r t ks
      → Judged q t (js ++ ks)
  trans-Judged q r t js ks (e, counts, models) (f, more, others) = (
    f
        ∙ rw (e, map-append verdict_of js ks)
            (append_assoc q.results (map verdict_of js) (map verdict_of ks)),
    λ p.
        rw (map-append (λ (j : Judgment). j.slice) js ks)
          (omega (arith, counts p, more p, count_if-append p (slices_of js) (slices_of ks))),
    rw (all-append is_by_model js ks) (ground arith),
  )

  pub take_turns-Judged :
      (ts : List Turn) (q : Queue) → (js : List Judgment) × Judged q (take_turns re ts q) js
  unfolding take_turns
  take_turns-Judged [] q = ([], same-Judged q)
  take_turns-Judged (t ∷ ts) q =
      let (js, one) = take_turn-Judged t q in
      let (ks, rest) = take_turns-Judged ts (take_turn re t q) in
      (
        js ++ ks,
        trans-Judged q (take_turn re t q) (take_turns re ts (take_turn re t q)) js ks one rest,
      )
