-- ===== src/RateLimit/Bound.antt =====
-- app/core/rate_limit.py: the limit holds in every window of any sequence of calls.
use control_gate_backend.Prelude.{
  ℕ, String, Bool, true, false, not, ◌≤◌, ◌≡◌, refl, ◌||◌, inl, inr, List, [], ◌∷◌, arith, ltb,
  ◌==◌, length, str_eq, eq_iff, Bool-cases, max,
}
use control_gate_backend.Prelude.Dict.{lookup}
use control_gate_backend.RateLimit.{
  Limiter, sweep_stale_after, sweep_if_due, entries_of, trimmed, is_full, admit, check_key,
}
use control_gate_backend.RateLimit.Window.{recent, recent-append, length-trim}
use control_gate_backend.RateLimit.Trace.{
  Call, Tracks, sweep-Tracks, trimmed_other-Tracks, entries-trimmed, trimmed-Tracks, admitted_by,
  admit-Tracks,
}

abbrev pub fresh : Limiter
fresh = record { buckets = []; calls_since_sweep = 0 }

-- A later window counts no more of the same calls.
recent_mono :
    (window now later : ℕ) (g : List ℕ) → now ≤ later → recent window later g ≤ recent window now g
recent_mono window now later [] le = omega arith
recent_mono window now later (e ∷ g) le = ground (arith, recent_mono window now later g le)

module _ (k : String) (window : ℕ) (small : window ≤ sweep_stale_after) (limit : ℕ) where
  -- the state in which `check_key` decides on a call of `k`
  ready : ℕ → Limiter → Limiter
  ready now s = trimmed k window now (sweep_if_due now s)

  ready-Tracks :
      (t now : ℕ) (s : Limiter) (g : List ℕ)
      → t ≤ now
      → Tracks k window t s g
      → Tracks k window now (ready now s) g
  unfolding ready
  ready-Tracks t now s g le h =
      trimmed-Tracks k window small now (sweep_if_due now s) g
        (sweep-Tracks k window small t now s g le h)

  length-ready :
      (t now : ℕ) (s : Limiter) (g : List ℕ)
      → t ≤ now
      → Tracks k window t s g
      → length (entries_of (lookup k (ready now s).buckets)) ≡ recent window now g
  unfolding ready
  length-ready t now s g le h =
      let swept = sweep-Tracks k window small t now s g le h in
      let es = entries_of (lookup k (sweep_if_due now s).buckets) in
      rw (entries-trimmed k window small now (sweep_if_due now s)) (
        ground
          (arith, length-trim window now now es swept.ordered, swept.counted now (omega arith)))

  is_full-length :
      (es : List ℕ) → is_full limit es ≡ not ((length es == 0) || ltb (length es) limit)
  unfolding is_full
  is_full-length [] = refl
  is_full-length (e ∷ es) = ground arith

  allowed_unless_full :
      (now : ℕ) (s : Limiter)
      → (check_key k limit window now s).1
        ≡ not (is_full limit (entries_of (lookup k (ready now s).buckets)))
  unfolding check_key admit ready
  allowed_unless_full now s =
      elim (Bool-cases (is_full limit (entries_of (lookup k (ready now s).buckets)))) [
        | inl full ↦ rw full
        | inr free ↦ rw free
      ]

  -- A call is let through exactly where its window holds fewer than `limit` admitted calls, or none
  -- at all, in every state that agrees with the calls admitted so far.
  pub check_key-allowed :
      (t now : ℕ) (s : Limiter) (g : List ℕ)
      → t ≤ now
      → Tracks k window t s g
      → (check_key k limit window now s).1
        ≡ ((recent window now g == 0) || ltb (recent window now g) limit)
  check_key-allowed t now s g le h = ground (
    arith,
    allowed_unless_full now s,
    is_full-length (entries_of (lookup k (ready now s).buckets)),
    length-ready t now s g le h,
  )

  own_call-Tracks :
      (t now : ℕ) (s : Limiter) (g : List ℕ)
      → t ≤ now
      → Tracks k window t s g
      → Tracks k window now
          (check_key k limit window now s).0
          (admitted_by k k now (check_key k limit window now s).1 g)
  unfolding check_key ready
  own_call-Tracks t now s g le h =
      admit-Tracks k window small k limit now (ready now s) g (ready-Tracks t now s g le h)

  other_call-Tracks :
      (key : String) (other_limit w t now : ℕ) (s : Limiter) (g : List ℕ)
      → str_eq key k ≡ false
      → t ≤ now
      → Tracks k window t s g
      → Tracks k window now
          (check_key key other_limit w now s).0
          (admitted_by k key now (check_key key other_limit w now s).1 g)
  unfolding check_key
  other_call-Tracks key other_limit w t now s g ne le h =
      admit-Tracks k window small key other_limit now (trimmed key w now (sweep_if_due now s)) g (
        trimmed_other-Tracks k window small key w now (sweep_if_due now s) g ne
          (sweep-Tracks k window small t now s g le h))

  -- The state after some calls, and the times of the admitted calls of `k`.
  abbrev pub serve : List Call → Limiter → List ℕ → Limiter × List ℕ
  serve [] s g = (s, g)
  serve (c ∷ cs) s g =
      let (s', allowed) = check_key c.key c.limit c.window c.now s in
      serve cs s' (admitted_by k c.key c.now allowed g)

  -- The clock does not run back, and every call of `k` has this limit and this window.
  abbrev pub AreRegular : ℕ → List Call → Type 0
  AreRegular t [] = Unit
  AreRegular t (c ∷ cs) =
      (t ≤ c.now)
      × (str_eq c.key k ≡ true → (c.limit ≡ limit) × (c.window ≡ window))
      × AreRegular c.now cs

  -- The time of the last call.
  abbrev pub last_time : ℕ → List Call → ℕ
  last_time t [] = t
  last_time t (c ∷ cs) = last_time c.now cs

  abbrev IsBounded : ℕ → List ℕ → Type 0
  IsBounded t g = (later : ℕ) → t ≤ later → recent window later g ≤ max 1 limit

  -- One more call keeps the bound, if it was admitted as `check_key-allowed` says.
  IsBounded-join :
      (t now : ℕ) (g : List ℕ) (allowed : Bool) (key : String)
      → t ≤ now
      → IsBounded t g
      → (str_eq key k ≡ true
          → allowed ≡ ((recent window now g == 0) || ltb (recent window now g) limit))
      → IsBounded now (admitted_by k key now allowed g)
  unfolding admitted_by
  IsBounded-join t now g allowed key le h own later p = ground (
    arith,
    h later,
    own,
    recent_mono window now later g p,
    recent-append window later g (now ∷ []),
  )

  step-Bounded :
      (t : ℕ) (c : Call) (s : Limiter) (g : List ℕ)
      → t ≤ c.now
      → (str_eq c.key k ≡ true → (c.limit ≡ limit) × (c.window ≡ window))
      → Tracks k window t s g
      → IsBounded t g
      → let (s', allowed) = check_key c.key c.limit c.window c.now s in
        let g' = admitted_by k c.key c.now allowed g in
        Tracks k window c.now s' g' × IsBounded c.now g'
  step-Bounded t c s g le own h b = elim (Bool-cases (str_eq c.key k)) [
    | inl same ↦
        let key : c.key ≡ k = (eq_iff c.key k).0 same in
        rw (key, (own same).0, (own same).1)
          (
            own_call-Tracks t c.now s g le h,
            IsBounded-join t c.now g (check_key k limit window c.now s).1 k le b
                (λ _. check_key-allowed t c.now s g le h),
          )
    | inr other ↦ (
      other_call-Tracks c.key c.limit c.window t c.now s g other le h,
      IsBounded-join t c.now g (check_key c.key c.limit c.window c.now s).1 c.key le b (λ e. cc),
    )
  ]

  serve-Bounded :
      (t : ℕ) (cs : List Call) (s : Limiter) (g : List ℕ)
      → AreRegular t cs
      → Tracks k window t s g
      → IsBounded t g
      → IsBounded (last_time t cs) (serve cs s g).1
  serve-Bounded t [] s g regular h b = b
  serve-Bounded t (c ∷ cs) s g (le, own, regular) h b =
      let (s', allowed) = check_key c.key c.limit c.window c.now s in
      let g' = admitted_by k c.key c.now allowed g in
      let (h', b') = step-Bounded t c s g le own h b in serve-Bounded c.now cs s' g' regular h' b'

  fresh-Tracks : Tracks k window 0 fresh []
  fresh-Tracks = record { distinct = tt; ordered = tt; counted = λ later p. refl }

  -- Over any sequence of calls, of this key and of others, from an empty limiter and under a clock
  -- that does not run back: no window of the key, of at most an hour, ever holds more admitted calls
  -- than the limit (than one, where the limit is 0), the sweeps between them included.
  pub limit_holds :
      (cs : List Call)
      → AreRegular 0 cs
      → (later : ℕ) → last_time 0 cs ≤ later
      → recent window later (serve cs fresh []).1 ≤ max 1 limit
  limit_holds cs regular later p =
      serve-Bounded 0 cs fresh [] regular fresh-Tracks (λ _ _. omega arith) later p
