-- ===== src/RateLimit/Trace.antt =====
-- app/core/rate_limit.py: what the limiter promises over any sequence of calls.
use control_gate_backend.Prelude.{
  ℕ, String, Bool, true, false, ◌≤◌, ◌≡◌, refl, ◌∙◌, inl, inr, Option, none, some, List, [], ◌∷◌,
  ◌++◌, arith, if◌then◌else◌, str_eq, eq_iff, Bool-cases,
}
use control_gate_backend.Prelude.Dict.{
  Dict, lookup, insert, lookup-insert, lookup-erase, HasDistinctKeys, insert-HasDistinctKeys,
  erase-HasDistinctKeys,
}
use control_gate_backend.RateLimit.{
  Limiter, sweep_stale_after, sweep_if_due, trim, store_trimmed, trim_bucket, entries_of, trimmed,
  is_full, admit,
}
use control_gate_backend.RateLimit.Window.{
  recent, IsOrdered, IsOrdered-later, IsOrdered-append, recent-append, trim-IsOrdered, recent-trim,
}
use control_gate_backend.RateLimit.Sweep.{sweep_if_due-recent}

pub record Call : Type 0 where
  pub key : String
  pub limit : ℕ
  pub window : ℕ
  pub now : ℕ

-- The trim of a call's own deque, and of no other.
entries-store_trimmed :
    (key k : String) (es : List ℕ) (d : Dict (List ℕ))
    → entries_of (lookup k (store_trimmed key es d))
      ≡ (if str_eq key k then es else entries_of (lookup k d))
unfolding store_trimmed
entries-store_trimmed key k [] d = ground (arith, lookup-erase key k d)
entries-store_trimmed key k (e ∷ es) d = ground (arith, lookup-insert key k (e ∷ es) d)

store_trimmed-HasDistinctKeys :
    (key : String) (es : List ℕ) (d : Dict (List ℕ))
    → HasDistinctKeys d
    → HasDistinctKeys (store_trimmed key es d)
unfolding store_trimmed
store_trimmed-HasDistinctKeys key [] d h = erase-HasDistinctKeys key d h
store_trimmed-HasDistinctKeys key (e ∷ es) d h = insert-HasDistinctKeys key (e ∷ es) d h

entries-trim_bucket :
    (key k : String) (window now : ℕ) (found : Option (List ℕ)) (d : Dict (List ℕ))
    → lookup key d ≡ found
    → entries_of (lookup k (trim_bucket key window now found d)) ≡ (
        if str_eq key k then trim window now (entries_of (lookup k d)) else entries_of (lookup k d))
unfolding trim_bucket
entries-trim_bucket key k window now none d h = ground (arith, eq_iff key k)
entries-trim_bucket key k window now (some []) d h = ground (arith, eq_iff key k)
entries-trim_bucket key k window now (some (e ∷ es)) d h =
    ground (arith, eq_iff key k, entries-store_trimmed key k (trim window now (e ∷ es)) d)

trim_bucket-HasDistinctKeys :
    (key : String) (window now : ℕ) (found : Option (List ℕ)) (d : Dict (List ℕ))
    → HasDistinctKeys d
    → HasDistinctKeys (trim_bucket key window now found d)
unfolding trim_bucket
trim_bucket-HasDistinctKeys key window now none d h = h
trim_bucket-HasDistinctKeys key window now (some []) d h = h
trim_bucket-HasDistinctKeys key window now (some (e ∷ es)) d h =
    store_trimmed-HasDistinctKeys key (trim window now (e ∷ es)) d h

-- The state agrees with the calls `admitted` under the key `k`: at every later time the deque and
-- the whole history count alike.
pub record Tracks (k : String) (window t : ℕ) (s : Limiter) (admitted : List ℕ) : Type 0 where
  pub distinct : HasDistinctKeys s.buckets
  pub ordered : IsOrdered t (entries_of (lookup k s.buckets))
  pub counted :
      (later : ℕ)
      → t ≤ later
      → recent window later (entries_of (lookup k s.buckets)) ≡ recent window later admitted

-- An admitted call of `k` joins the history; any other call leaves it.
unfoldable pub admitted_by : String → String → ℕ → Bool → List ℕ → List ℕ
admitted_by k key now allowed g =
    if (if allowed then str_eq key k else false) then g ++ now ∷ [] else g

module _ (k : String) (window : ℕ) (small : window ≤ sweep_stale_after) where
  pub sweep-Tracks :
      (t now : ℕ) (s : Limiter) (g : List ℕ)
      → t ≤ now
      → Tracks k window t s g
      → Tracks k window now (sweep_if_due now s) g
  sweep-Tracks t now s g le h =
      let at = λ (later : ℕ) (p : now ≤ later).
        sweep_if_due-recent window now later t k s small p h.distinct h.ordered in
      let here = at now (omega arith) in
      record {
        distinct = here.0;
        ordered = IsOrdered-later t now _ le here.1;
        counted = λ later p. (at later p).2 ∙ h.counted later (omega arith);
      }

  -- Trimming another key's deque changes nothing for `k`.
  pub trimmed_other-Tracks :
      (key : String) (w now : ℕ) (s : Limiter) (g : List ℕ)
      → str_eq key k ≡ false
      → Tracks k window now s g
      → Tracks k window now (trimmed key w now s) g
  unfolding trimmed
  trimmed_other-Tracks key w now s g ne h =
      let e : entries_of (lookup k (trim_bucket key w now (lookup key s.buckets) s.buckets))
          ≡ entries_of (lookup k s.buckets) =
        ground (arith, entries-trim_bucket key k w now (lookup key s.buckets) s.buckets refl) in
      record {
        distinct =
            trim_bucket-HasDistinctKeys key w now (lookup key s.buckets) s.buckets h.distinct;
        ordered = rw e h.ordered;
        counted = λ later p. rw e (h.counted later p);
      }

  pub entries-trimmed :
      (now : ℕ) (s : Limiter)
      → entries_of (lookup k (trimmed k window now s).buckets)
        ≡ trim window now (entries_of (lookup k s.buckets))
  unfolding trimmed
  entries-trimmed now s =
      ground
        (arith, eq_iff k k, entries-trim_bucket k k window now (lookup k s.buckets) s.buckets refl)

  pub trimmed-Tracks :
      (now : ℕ) (s : Limiter) (g : List ℕ)
      → Tracks k window now s g
      → Tracks k window now (trimmed k window now s) g
  unfolding trimmed
  trimmed-Tracks now s g h =
      let es = entries_of (lookup k s.buckets) in
      record {
        distinct =
            trim_bucket-HasDistinctKeys k window now (lookup k s.buckets) s.buckets h.distinct;
        ordered = rw (entries-trimmed now s) (trim-IsOrdered window now now es h.ordered);
        counted = λ later p.
            rw (entries-trimmed now s) (recent-trim window now later es p ∙ h.counted later p);
      }

  pub admit_full :
      (key : String) (limit now : ℕ) (s : Limiter)
      → is_full limit (entries_of (lookup key s.buckets)) ≡ true
      → admit key limit now s ≡ (s, false)
  unfolding admit
  admit_full key limit now s full = rw full

  pub admit_free :
      (key : String) (limit now : ℕ) (s : Limiter)
      → is_full limit (entries_of (lookup key s.buckets)) ≡ false
      → admit key limit now s ≡ (
        record s { buckets = insert key (entries_of (lookup key s.buckets) ++ now ∷ []) s.buckets },
        true,
      )
  unfolding admit
  admit_free key limit now s free = rw free

  joined-Tracks :
      (key : String) (now : ℕ) (s : Limiter) (g : List ℕ)
      → Tracks k window now s g
      → Tracks k window now
          (record s {
            buckets = insert key (entries_of (lookup key s.buckets) ++ now ∷ []) s.buckets;
          })
          (admitted_by k key now true g)
  unfolding admitted_by
  joined-Tracks key now s g h =
      let more = entries_of (lookup key s.buckets) ++ now ∷ [] in
      elim (Bool-cases (str_eq key k)) [
        | inl same ↦
            let e : key ≡ k = (eq_iff key k).0 same in
            let found : lookup k (insert key more s.buckets) ≡ some more =
              ground (arith, lookup-insert key k more s.buckets) in
            let es : more ≡ entries_of (lookup k s.buckets) ++ now ∷ [] = rw e refl in
            record {
              distinct = insert-HasDistinctKeys key more s.buckets h.distinct;
              ordered =
                  rw (found, es)
                    (IsOrdered-append now now (entries_of (lookup k s.buckets)) (omega arith)
                      h.ordered);
              counted = λ later p.
                  rw (found, es, same)
                    (ground (
                      arith,
                      h.counted later p,
                      recent-append window later (entries_of (lookup k s.buckets)) (now ∷ []),
                      recent-append window later g (now ∷ []),
                    ));
            }
        | inr other ↦
            let found : lookup k (insert key more s.buckets) ≡ lookup k s.buckets =
              ground (arith, lookup-insert key k more s.buckets) in
            record {
              distinct = insert-HasDistinctKeys key more s.buckets h.distinct;
              ordered = rw found h.ordered;
              counted = λ later p. rw (found, other) (h.counted later p);
            }
      ]

  pub admit-Tracks :
      (key : String) (limit now : ℕ) (s : Limiter) (g : List ℕ)
      → Tracks k window now s g
      → Tracks k window now
          (admit key limit now s).0
          (admitted_by k key now (admit key limit now s).1 g)
  admit-Tracks key limit now s g h =
      elim (Bool-cases (is_full limit (entries_of (lookup key s.buckets)))) [
        | inl full ↦ rw (admit_full key limit now s full) (unfold admitted_by in h)
        | inr free ↦ rw (admit_free key limit now s free) (joined-Tracks key now s g h)
      ]
