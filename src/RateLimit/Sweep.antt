-- ===== src/RateLimit/Sweep.antt =====
-- app/core/rate_limit.py: the periodic sweep drops no call that a window of an hour or less counts.
use control_gate_backend.Prelude.{
  ℕ, String, true, ◌+◌, ◌≤◌, ◌≡◌, refl, Option, none, some, List, [], ◌∷◌, arith, leb,
  if◌then◌else◌, eq_iff, Bool-cases, inl, inr,
}
use control_gate_backend.Prelude.Dict.{Dict, lookup, HasDistinctKeys}
use control_gate_backend.RateLimit.{
  Limiter, sweep_stale_after, is_stale, sweep_expired_buckets, sweep_if_due, entries_of,
}
use control_gate_backend.RateLimit.Window.{recent, IsOrdered}

abbrev kept : ℕ → Option (List ℕ) → Option (List ℕ)
kept now none = none
kept now (some es) = if is_stale now es then none else some es

sweep-none :
    (now : ℕ) (k : String) (d : Dict (List ℕ))
    → lookup k d ≡ none
    → lookup k (sweep_expired_buckets now d) ≡ none
unfolding sweep_expired_buckets
sweep-none now k [] h = refl
sweep-none now k ((j, es) ∷ d) h = ground (arith, eq_iff j k, sweep-none now k d)

lookup-sweep :
    (now : ℕ) (k : String) (d : Dict (List ℕ))
    → HasDistinctKeys d
    → lookup k (sweep_expired_buckets now d) ≡ kept now (lookup k d)
unfolding sweep_expired_buckets
lookup-sweep now k [] h = refl
lookup-sweep now k ((j, es) ∷ d) (fresh, h) =
    ground (arith, eq_iff j k, sweep-none now k d, lookup-sweep now k d h)

sweep-HasDistinctKeys :
    (now : ℕ) (d : Dict (List ℕ))
    → HasDistinctKeys d
    → HasDistinctKeys (sweep_expired_buckets now d)
unfolding sweep_expired_buckets
sweep-HasDistinctKeys now [] h = tt
sweep-HasDistinctKeys now ((j, es) ∷ d) (fresh, h) =
    ground (arith, sweep-none now j d fresh, sweep-HasDistinctKeys now d h)

-- A stale deque holds no call that a window of at most an hour counts, now or later.
stale_recent :
    (window now later t : ℕ) (es : List ℕ)
    → window ≤ sweep_stale_after
    → now ≤ later
    → IsOrdered t es
    → is_stale now es ≡ true
    → recent window later es ≡ 0
unfolding is_stale
stale_recent window now later t [] small le h stale = refl
stale_recent window now later t (e ∷ []) small le h stale = ground arith
stale_recent window now later t (e ∷ f ∷ es) small le (ef, h) stale =
    ground (arith, stale_recent window now later t (f ∷ es) small le h stale)

kept-recent :
    (window now later t : ℕ) (found : Option (List ℕ))
    → window ≤ sweep_stale_after
    → now ≤ later
    → IsOrdered t (entries_of found)
    → IsOrdered t (entries_of (kept now found))
      × (recent window later (entries_of (kept now found)) ≡ recent window later (entries_of found))
kept-recent window now later t none small le h = (tt, refl)
kept-recent window now later t (some es) small le h = elim (Bool-cases (is_stale now es)) [
  | inl stale ↦ rw stale (tt, rw (stale_recent window now later t es small le h stale))
  | inr fresh ↦ rw fresh (h, refl)
]

-- The sweep that a call may trigger keeps every key bound once and every deque in order, and leaves
-- the number of calls that any window of at most an hour counts.
pub sweep_if_due-recent :
    (window now later t : ℕ) (k : String) (s : Limiter)
    → window ≤ sweep_stale_after
    → now ≤ later
    → HasDistinctKeys s.buckets
    → IsOrdered t (entries_of (lookup k s.buckets))
    → HasDistinctKeys (sweep_if_due now s).buckets
      × IsOrdered t (entries_of (lookup k (sweep_if_due now s).buckets))
      × (recent window later (entries_of (lookup k (sweep_if_due now s).buckets))
          ≡ recent window later (entries_of (lookup k s.buckets)))
unfolding sweep_if_due
sweep_if_due-recent window now later t k s small le distinct h =
    elim (Bool-cases (leb 1000 (s.calls_since_sweep + 1))) [
      | inl due ↦
          let (o, r) = kept-recent window now later t (lookup k s.buckets) small le h in
          rw due (
            sweep-HasDistinctKeys now s.buckets distinct,
            rw (lookup-sweep now k s.buckets distinct) o,
            rw (lookup-sweep now k s.buckets distinct) r,
          )
      | inr not_due ↦ rw not_due (distinct, h, refl)
    ]
