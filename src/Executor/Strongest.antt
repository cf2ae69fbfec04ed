-- ===== src/Executor/Strongest.antt =====
-- `_deduplicate_slices` of semantic_engine/query_executor/executor.py: each key keeps its strongest
-- slice.
use control_gate_backend.Prelude.{
  Bool, true, false, not, ◌≡◌, ◌&&◌, ◌||◌, List, [], ◌∷◌, if◌then◌else◌, any, count_if, Every,
  Every-imp, arith, refl, ◌∙◌, Bool-cases, inl, inr,
}
use control_gate_backend.Prelude.Sort.{any-sort_by}
use control_gate_backend.Pipeline.Findings.{CodeSlice, below}
use control_gate_backend.Pipeline.Findings.Ranked.{below_self, below_trans, below_asym}
use control_gate_backend.Executor.{
  SliceKey, key_of, same_key, rank_slice, keep_better, best_by_key, sort_key, deduplicate_slices,
}
use control_gate_backend.Executor.Unique.{
  is_at, is_at_eq, better, same_key_self, deduplicate_slices-count,
}

bool_cover :
    (a b c d : Bool) → (a && not c) ≡ true → a ≡ b → (c ≡ false → d ≡ false) → (b && not d) ≡ true
bool_cover a b c d h k l = ground arith

or_rest : (a b : Bool) → a ≡ false → (a || b) ≡ true → b ≡ true
or_rest a b h k = ground arith

or_first : (a b : Bool) → a ≡ true → (a || b) ≡ true
or_first a b h = ground arith

or_second : (a b : Bool) → b ≡ true → (a || b) ≡ true
or_second a b h = ground arith

-- A slice of the key that the other does not outrank.
abbrev pub covers : CodeSlice → CodeSlice → Bool
covers s t = same_key (key_of t) (key_of s) && not (below (rank_slice t) (rank_slice s))

covers_trans :
    (r s t : CodeSlice)
    → covers r t ≡ true
    → same_key (key_of t) (key_of s) ≡ true
    → covers r (better t s) ≡ true
covers_trans r s t h k = elim (Bool-cases (below (rank_slice t) (rank_slice s))) [
  | inr e ↦ rw e h
  | inl e ↦
      let lower = below_asym (rank_slice t) (rank_slice s) e in
      let same = is_at_eq (key_of r) t s k in
      let chain = below_trans (rank_slice r) (rank_slice t) (rank_slice s) in
      rw e (
        bool_cover (same_key (key_of t) (key_of r)) (same_key (key_of s) (key_of r))
          (below (rank_slice t) (rank_slice r)) (below (rank_slice s) (rank_slice r)) h same
          (λ a. chain a lower))
]

keep_better-keeps :
    (r s : CodeSlice) (ts : List CodeSlice)
    → any (covers r) ts ≡ true
    → any (covers r) (keep_better s ts) ≡ true
unfolding keep_better
keep_better-keeps r s [] h = absurd cc
keep_better-keeps r s (t ∷ ts) h = elim (Bool-cases (same_key (key_of t) (key_of s))) [
  | inl e ↦
      rw (keep_better, e)
        (elim (Bool-cases (covers r t)) [
          | inl c ↦ or_first (covers r (better t s)) (any (covers r) ts) (covers_trans r s t c e)
          | inr c ↦
              or_second (covers r (better t s)) (any (covers r) ts)
                (or_rest (covers r t) (any (covers r) ts) c h)
        ])
  | inr e ↦ rw (keep_better, e) (ground (arith, keep_better-keeps r s ts))
]

covers-better :
    (s t : CodeSlice) → same_key (key_of t) (key_of s) ≡ true → covers s (better t s) ≡ true
covers-better s t h = elim (Bool-cases (below (rank_slice t) (rank_slice s))) [
  | inl e ↦ rw e (rw (same_key_self (key_of s), below_self (rank_slice s)) refl)
  | inr e ↦ rw e (rw (h, e) refl)
]

keep_better-covers :
    (s : CodeSlice) (ts : List CodeSlice) → any (covers s) (keep_better s ts) ≡ true
unfolding keep_better
keep_better-covers s [] = rw (same_key_self (key_of s), below_self (rank_slice s)) refl
keep_better-covers s (t ∷ ts) = elim (Bool-cases (same_key (key_of t) (key_of s))) [
  | inl e ↦
      rw (keep_better, e)
        (or_first (covers s (better t s)) (any (covers s) ts) (covers-better s t e))
  | inr e ↦
      rw (keep_better, e)
        (or_second (covers s t) (any (covers s) (keep_better s ts)) (keep_better-covers s ts))
]

best_by_key-keeps :
    (r : CodeSlice) (kept slices : List CodeSlice)
    → any (covers r) kept ≡ true
    → any (covers r) (best_by_key kept slices) ≡ true
unfolding best_by_key
best_by_key-keeps r kept [] h = h
best_by_key-keeps r kept (s ∷ ss) h =
    best_by_key-keeps r (keep_better s kept) ss (keep_better-keeps r s kept h)

best_by_key-covers :
    (kept slices : List CodeSlice)
    → Every (λ r. any (covers r) (best_by_key kept slices) ≡ true) slices
unfolding best_by_key
best_by_key-covers kept [] = tt
best_by_key-covers kept (s ∷ ss) = (
  best_by_key-keeps s (keep_better s kept) ss (keep_better-covers s kept),
  best_by_key-covers (keep_better s kept) ss,
)

-- The result has exactly one slice of each key that a slice has, and none of any other key; and each
-- slice has one of its key in the result that it does not outrank.
pub deduplicate_slices-strongest :
    (slices : List CodeSlice)
    → ((k : SliceKey)
        → count_if (is_at k) (deduplicate_slices slices) ≡ (if any (is_at k) slices then 1 else 0))
      × Every (λ r. any (covers r) (deduplicate_slices slices) ≡ true) slices
unfolding deduplicate_slices
deduplicate_slices-strongest slices = (
  λ k. deduplicate_slices-count k slices,
  Every-imp (λ r. any (covers r) (best_by_key [] slices) ≡ true)
      (λ r. any (covers r) (deduplicate_slices slices) ≡ true)
      (λ r h. any-sort_by sort_key (covers r) (best_by_key [] slices) ∙ h) slices
      (best_by_key-covers [] slices),
)
