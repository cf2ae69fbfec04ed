-- ===== src/Asvs/Compliance/Counts.antt =====
-- app/services/asvs_service.py: what the chapters of a compliance summary count.
use control_gate_backend.Prelude.{
  ℕ, String, Bool, true, false, ◌+◌, ◌≡◌, ◌&&◌, ◌||◌, refl, sym, ◌∙◌, none, some, List, [], ◌∷◌,
  ◌++◌, map, arith, get_or, is_some, length, length-filter, eq_iff, str_eq, filter, any, count_if,
  if◌then◌else◌, Bool-cases, inl, inr, Every, ap, ◌==◌,
}
use mathlib.Core.List.{append_assoc, append-nil}
use control_gate_backend.Prelude.Dict.{
  Dict, lookup, insert, lookup-insert, HasDistinctKeys, insert-HasDistinctKeys,
}
use control_gate_backend.Prelude.Sort.{insert_by, sort_by, count_if-sort_by}
use control_gate_backend.Asvs.Types.{Verdict, verdict_code, is_verdict, Control, ControlResult}
use control_gate_backend.Asvs.Compliance.{
  bump, verdict_in, zero_counts, count_all, chapter_counts, group, chapter_number, Chapter,
  chapters,
}

abbrev pub is_in : String → Control → Bool
is_in k c = str_eq c.chapter_id k

abbrev pub has_result : Dict ControlResult → Verdict → Control → Bool
has_result results v c = is_verdict v (some (verdict_in results c))

-- The count that stands under a verdict.
abbrev pub count_of : Verdict → List (Verdict × ℕ) → ℕ
count_of v [] = 0
count_of v ((w, n) ∷ rest) = if is_verdict v (some w) then n else count_of v rest

same_code :
    (a b d n r : ℕ)
    → (a == b) ≡ true
    → (if a == d then n + 1 else r)
      ≡ (if b == d then (if a == d then n else r) + 1 else if a == d then n else r)
same_code a b d n r h = ground arith

other_code :
    (a b d n r s : ℕ)
    → (a == b) ≡ false
    → s ≡ (if b == d then r + 1 else r)
    → (if a == d then n else s)
      ≡ (if b == d then (if a == d then n else r) + 1 else if a == d then n else r)
other_code a b d n r s h k = ground arith

count_of-bump :
    (v u : Verdict) (counts : List (Verdict × ℕ))
    → count_of v (bump u counts)
      ≡ (if is_verdict v (some u) then count_of v counts + 1 else count_of v counts)
unfolding bump
count_of-bump v u [] = ground arith
count_of-bump v u ((w, n) ∷ rest) =
    let a : ℕ = verdict_code w in
    let b : ℕ = verdict_code u in
    let d : ℕ = verdict_code v in
    elim (Bool-cases (verdict_code w == verdict_code u)) [
      | inl e ↦ rw (bump, e) (same_code a b d n (count_of v rest) e)
      | inr e ↦
          rw (bump, e)
            (other_code a b d n (count_of v rest) (count_of v (bump u rest)) e
              (count_of-bump v u rest))
    ]

count_of-count_all :
    (results : Dict ControlResult) (v : Verdict) (cs : List Control) (counts : List (Verdict × ℕ))
    → count_of v (count_all results cs counts)
      ≡ count_of v counts + count_if (has_result results v) cs
unfolding count_all
count_of-count_all results v [] counts = omega arith
count_of-count_all results v (c ∷ cs) counts =
    let now = count_of-bump v (verdict_in results c) counts in
    let rest = count_of-count_all results v cs (bump (verdict_in results c) counts) in ground arith

count_of-zero_counts : (v : Verdict) → count_of v zero_counts ≡ 0
count_of-zero_counts v = ground arith

count_if-filter :
    (p q : Control → Bool) (cs : List Control)
    → count_if p (filter q cs) ≡ count_if (λ c. q c && p c) cs
count_if-filter p q [] = refl
count_if-filter p q (c ∷ cs) = ground (arith, count_if-filter p q cs)

-- The entry of a chapter holds the catalog's controls of the chapter, in their order.
lookup-group :
    (k : String) (cs : List Control) (d : Dict (List Control))
    → get_or (lookup k (group cs d)) [] ≡ get_or (lookup k d) [] ++ filter (is_in k) cs
unfolding group
lookup-group k [] d = sym (append-nil (get_or (lookup k d) []))
lookup-group k (c ∷ cs) d =
    let more = get_or (lookup c.chapter_id d) [] ++ c ∷ [] in
    let rest = lookup-group k cs (insert c.chapter_id more d) in
    let one = lookup-insert c.chapter_id k more d in
    elim (Bool-cases (str_eq c.chapter_id k)) [
      | inl e ↦
          let same : c.chapter_id ≡ k = (eq_iff c.chapter_id k).0 e in
          let now : lookup k (insert c.chapter_id more d) ≡ some more = rw (one, e) refl in
          rw e (
            rest
            ∙ rw (now, ap (λ j. lookup j d) same)
                (append_assoc (get_or (lookup k d) []) (c ∷ []) (filter (is_in k) cs)))
      | inr e ↦
          let now : lookup k (insert c.chapter_id more d) ≡ lookup k d = rw (one, e) refl in
          rw e (rest ∙ rw now refl)
    ]

is_some-group :
    (k : String) (cs : List Control) (d : Dict (List Control))
    → is_some (lookup k (group cs d)) ≡ (is_some (lookup k d) || any (is_in k) cs)
unfolding group
is_some-group k [] d = ground arith
is_some-group k (c ∷ cs) d =
    let more = get_or (lookup c.chapter_id d) [] ++ c ∷ [] in
    let rest = is_some-group k cs (insert c.chapter_id more d) in
    let one = lookup-insert c.chapter_id k more d in ground arith

group-HasDistinctKeys :
    (cs : List Control) (d : Dict (List Control)) → HasDistinctKeys d → HasDistinctKeys (group cs d)
unfolding group
group-HasDistinctKeys [] d h = h
group-HasDistinctKeys (c ∷ cs) d h =
    let more = get_or (lookup c.chapter_id d) [] ++ c ∷ [] in
    group-HasDistinctKeys cs (insert c.chapter_id more d)
      (insert-HasDistinctKeys c.chapter_id more d h)

abbrev Group : Type 0
Group = String × List Control

-- An entry holds the controls of its chapter.
abbrev IsExact : List Control → Group → Type 0
IsExact cs e = e.1 ≡ filter (is_in e.0) cs

HasDistinctKeys-IsExact :
    (cs : List Control) (d : Dict (List Control))
    → HasDistinctKeys d
    → ((k : String) (es : List Control) → lookup k d ≡ some es → es ≡ filter (is_in k) cs)
    → Every (IsExact cs) d
HasDistinctKeys-IsExact cs [] h found = tt
HasDistinctKeys-IsExact cs ((k, es) ∷ d) (fresh, h) found = (
  found k es (ground (arith, eq_iff k k)),
  HasDistinctKeys-IsExact cs d h (λ j fs e. found j fs (elim (Bool-cases (str_eq k j)) [
    | inl same ↦
        let there : lookup k d ≡ some fs = rw ((eq_iff k j).0 same) e in
        let bad : none ≡ some fs = rw fresh at there in absurd cc
    | inr other ↦ rw other e
  ])),
)

count_if-keys :
    (k : String) (d : Dict (List Control))
    → HasDistinctKeys d
    → count_if (λ e. str_eq e.0 k) d ≡ (if is_some (lookup k d) then 1 else 0)
count_if-keys k [] h = refl
count_if-keys k ((j, es) ∷ d) (fresh, h) =
    let rest = count_if-keys k d h in
    elim (Bool-cases (str_eq j k)) [
      | inl e ↦
          let none_left : lookup k d ≡ none = rw (sym ((eq_iff j k).0 e)) fresh in
          let zero_left : count_if (λ (e : Group). str_eq e.0 k) d ≡ 0 = rw none_left at rest in
          rw (e, zero_left) refl
      | inr e ↦ rw e rest
    ]

module _ (P : Group → Type 0) (key : Group → ℕ) where
  insert_by-Every : (e : Group) (es : List Group) → P e → Every P es → Every P (insert_by key e es)
  unfolding insert_by
  insert_by-Every e [] p h = (p, tt)
  insert_by-Every e (f ∷ es) p h = ground (arith, insert_by-Every e es p)

  sort_by-Every : (es : List Group) → Every P es → Every P (sort_by key es)
  unfolding sort_by
  sort_by-Every [] h = tt
  sort_by-Every (e ∷ es) (p, h) = insert_by-Every e (sort_by key es) p (sort_by-Every es h)

-- What a chapter reports of the catalog: the controls with its id, and under each verdict those of
-- them that have it.
abbrev pub IsTally : Dict ControlResult → List Control → Chapter → Type 0
IsTally results cs ch =
    (ch.control_count ≡ count_if (is_in ch.chapter_id) cs)
    × ((v : Verdict)
        → count_of v ch.counts ≡ count_if (λ c. is_in ch.chapter_id c && has_result results v c) cs)

-- One chapter for each chapter id of the catalog and no other, and each a tally of its controls.
abbrev pub IsBreakdown : Dict ControlResult → List Control → List Chapter → Type 0
IsBreakdown results cs chs =
    ((k : String)
      → count_if (λ ch. str_eq ch.chapter_id k) chs ≡ (if any (is_in k) cs then 1 else 0))
    × Every (IsTally results cs) chs

abbrev chapter_of : Dict ControlResult → Group → Chapter
chapter_of results e = record {
  chapter_id = e.0;
  control_count = length e.1;
  counts = chapter_counts results e.1;
}

exact-IsTally :
    (results : Dict ControlResult) (cs : List Control) (e : Group)
    → IsExact cs e
    → IsTally results cs (chapter_of results e)
unfolding chapter_counts
exact-IsTally results cs (k, es) exact = (
  rw exact (length-filter (is_in k) cs),
  λ v. rw exact (
      omega (
        arith,
        count_of-count_all results v (filter (is_in k) cs) zero_counts,
        count_of-zero_counts v,
        count_if-filter (has_result results v) (is_in k) cs,
      )),
)

tallies :
    (results : Dict ControlResult) (cs : List Control) (es : List Group)
    → Every (IsExact cs) es
    → Every (IsTally results cs) (map (chapter_of results) es)
tallies results cs [] h = tt
tallies results cs (e ∷ es) (one, h) = (exact-IsTally results cs e one, tallies results cs es h)

count_if-chapter_of :
    (results : Dict ControlResult) (k : String) (es : List Group)
    → count_if (λ ch. str_eq ch.chapter_id k) (map (chapter_of results) es)
      ≡ count_if (λ e. str_eq e.0 k) es
count_if-chapter_of results k [] = refl
count_if-chapter_of results k (e ∷ es) = ground (arith, count_if-chapter_of results k es)

-- The chapters of a compliance summary break the catalog down: for each chapter id that a control
-- has there is one chapter, and no other; it counts the controls with its id, and under each
-- verdict those of them whose result has the verdict, a control without a result being not_tested.
pub chapters-IsBreakdown :
    (results : Dict ControlResult) (controls : List Control)
    → IsBreakdown results controls (chapters results controls)
unfolding chapters
chapters-IsBreakdown results controls =
    let key = λ (e : Group). chapter_number e.0 in
    let d = group controls [] in
    let distinct : HasDistinctKeys d = group-HasDistinctKeys controls [] tt in
    let exact =
      HasDistinctKeys-IsExact controls d distinct
        (λ k es e. rw e at (lookup-group k controls [])) in
    (
      λ k.
          count_if-chapter_of results k (sort_by key d)
          ∙ count_if-sort_by key (λ e. str_eq e.0 k) d
          ∙ rw (is_some-group k controls []) at (count_if-keys k d distinct),
      tallies results controls (sort_by key d) (sort_by-Every (IsExact controls) key d exact),
    )
