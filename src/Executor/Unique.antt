-- ===== src/Executor/Unique.antt =====
-- `_deduplicate_slices` of semantic_engine/query_executor/executor.py: one slice for each key.
use control_gate_backend.Prelude.{
  ℕ, Bool, true, false, ◌≡◌, ◌≤◌, ◌↔◌, ◌+◌, ◌||◌, Option, none, some, List, [], ◌∷◌, ◌==◌,
  if◌then◌else◌, str_eq, eq_iff, any, count_if, arith, refl, sym, ◌∙◌, ap, Bool-cases, inl, inr,
}
use control_gate_backend.Prelude.Sort.{count_if-sort_by}
use control_gate_backend.Prelude.Texts.{Text, same_text, same_text_self, same_text-true}
use control_gate_backend.Pipeline.Findings.{CodeSlice, below}
use control_gate_backend.Executor.{
  SliceKey, key_of, same_option, same_key, rank_slice, keep_better, best_by_key, sort_key,
  deduplicate_slices,
}

same_option_iff :
    {A : Type 0} (same : A → A → Bool)
    → ((x y : A) → (same x y ≡ true) ↔ (x ≡ y))
    → (a b : Option A) → (same_option same a b ≡ true) ↔ (a ≡ b)
same_option_iff same iff none none = (λ h. refl, λ h. refl)
same_option_iff same iff none (some y) = (λ h. absurd cc, λ h. absurd cc)
same_option_iff same iff (some x) none = (λ h. absurd cc, λ h. absurd cc)
same_option_iff same iff (some x) (some y) = (λ h. ap some ((iff x y).0 h), λ h. (iff x y).1 cc)

text_iff : (x y : Text) → (same_text x y ≡ true) ↔ (x ≡ y)
text_iff x y = (same_text-true x y, λ h. rw h (same_text_self y))

nat_iff : (m n : ℕ) → ((m == n) ≡ true) ↔ (m ≡ n)
nat_iff m n = (λ h. ground arith, λ h. ground arith)

same_key-true : (a b : SliceKey) → same_key a b ≡ true → a ≡ b
unfolding same_key
same_key-true a b h =
    let r = (eq_iff a.rule_id b.rule_id).0 (ground arith) in
    let l = (same_option_iff same_text text_iff a.sink_label b.sink_label).0 (ground arith) in
    let f = (same_option_iff str_eq eq_iff a.file b.file).0 (ground arith) in
    let m = (same_option_iff (λ m n. m == n) nat_iff a.start_line b.start_line).0 (ground arith) in
    let n = (same_option_iff (λ m n. m == n) nat_iff a.end_line b.end_line).0 (ground arith) in cc

pub same_key_self : (a : SliceKey) → same_key a a ≡ true
unfolding same_key
same_key_self a =
    let r = (eq_iff a.rule_id a.rule_id).1 refl in
    let l = (same_option_iff same_text text_iff a.sink_label a.sink_label).1 refl in
    let f = (same_option_iff str_eq eq_iff a.file a.file).1 refl in
    let m = (same_option_iff (λ m n. m == n) nat_iff a.start_line a.start_line).1 refl in
    let n = (same_option_iff (λ m n. m == n) nat_iff a.end_line a.end_line).1 refl in ground arith

abbrev pub is_at : SliceKey → CodeSlice → Bool
is_at k s = same_key (key_of s) k

pub is_at_eq :
    (k : SliceKey) (s t : CodeSlice) → same_key (key_of s) (key_of t) ≡ true → is_at k s ≡ is_at k t
is_at_eq k s t h = ap (λ j. same_key j k) (same_key-true (key_of s) (key_of t) h)

abbrev pub better : CodeSlice → CodeSlice → CodeSlice
better t s = if below (rank_slice t) (rank_slice s) then s else t

better-is_at :
    (k : SliceKey) (s t : CodeSlice)
    → same_key (key_of t) (key_of s) ≡ true
    → is_at k (better t s) ≡ is_at k t
better-is_at k s t h = elim (Bool-cases (below (rank_slice t) (rank_slice s))) [
  | inl e ↦ rw e (sym (is_at_eq k t s h))
  | inr e ↦ rw e refl
]

keep_better-count :
    (k : SliceKey) (s : CodeSlice) (ts : List CodeSlice)
    → count_if (is_at k) (keep_better s ts)
      ≡ count_if (is_at k) ts
        + (if any (is_at (key_of s)) ts then 0 else count_if (is_at k) (s ∷ []))
unfolding keep_better
keep_better-count k s [] = omega arith
keep_better-count k s (t ∷ ts) = elim (Bool-cases (same_key (key_of t) (key_of s))) [
  | inl e ↦ let same = better-is_at k s t e in rw (keep_better, e) (ground (arith, same))
  | inr e ↦ rw (keep_better, e) (ground (arith, keep_better-count k s ts))
]

keep_better-any :
    (k : SliceKey) (s : CodeSlice) (ts : List CodeSlice)
    → any (is_at k) (keep_better s ts) ≡ (is_at k s || any (is_at k) ts)
unfolding keep_better
keep_better-any k s [] = refl
keep_better-any k s (t ∷ ts) = elim (Bool-cases (same_key (key_of t) (key_of s))) [
  | inl e ↦
      let same = better-is_at k s t e in
      let also = is_at_eq k t s e in rw (keep_better, e) (ground (arith, same, also))
  | inr e ↦ rw (keep_better, e) (ground (arith, keep_better-any k s ts))
]

any_of_count :
    (k : SliceKey) (ts : List CodeSlice) → any (is_at k) ts ≡ false → count_if (is_at k) ts ≡ 0
any_of_count k [] h = refl
any_of_count k (t ∷ ts) h = ground (arith, any_of_count k ts)

keep_better_unique :
    (k : SliceKey) (s : CodeSlice) (ts : List CodeSlice)
    → count_if (is_at k) ts ≤ 1
    → count_if (is_at k) (keep_better s ts) ≤ 1
keep_better_unique k s ts h = elim (Bool-cases (is_at k s)) [
  | inl e ↦
      let same : key_of s ≡ k = same_key-true (key_of s) k e in
      let counted = rw same at (keep_better-count k s ts) in
      ground (arith, counted, any_of_count k ts)
  | inr e ↦ ground (arith, keep_better-count k s ts)
]

best_by_key_unique :
    (k : SliceKey) (kept slices : List CodeSlice)
    → count_if (is_at k) kept ≤ 1
    → count_if (is_at k) (best_by_key kept slices) ≤ 1
unfolding best_by_key
best_by_key_unique k kept [] h = h
best_by_key_unique k kept (s ∷ ss) h =
    best_by_key_unique k (keep_better s kept) ss (keep_better_unique k s kept h)

best_by_key-any :
    (k : SliceKey) (kept slices : List CodeSlice)
    → any (is_at k) (best_by_key kept slices) ≡ (any (is_at k) kept || any (is_at k) slices)
unfolding best_by_key
best_by_key-any k kept [] = ground arith
best_by_key-any k kept (s ∷ ss) =
    let later = best_by_key-any k (keep_better s kept) ss in
    let now = keep_better-any k s kept in ground (arith, later, now)

count_by_any :
    (q : CodeSlice → Bool) (ts : List CodeSlice)
    → count_if q ts ≤ 1
    → count_if q ts ≡ (if any q ts then 1 else 0)
count_by_any q [] h = refl
count_by_any q (t ∷ ts) h = ground (arith, count_by_any q ts)

pub deduplicate_slices-count :
    (k : SliceKey) (slices : List CodeSlice)
    → count_if (is_at k) (deduplicate_slices slices) ≡ (if any (is_at k) slices then 1 else 0)
unfolding deduplicate_slices
deduplicate_slices-count k slices =
    let kept = best_by_key [] slices in
    let some_kept = best_by_key-any k [] slices in
    let one = count_by_any (is_at k) kept (best_by_key_unique k [] slices (omega arith)) in
    count_if-sort_by sort_key (is_at k) kept ∙ one ∙ ap (λ b. if b then 1 else 0) some_kept
