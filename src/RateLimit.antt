-- ===== src/RateLimit.antt =====
-- app/core/rate_limit.py: the sliding-window rate limiter. `monotonic()` is an argument, in ticks of
-- a clock that does not run back; `now - e > w` is written `e + w < now`.
pub mod Client
pub mod Window
pub mod Sweep
pub mod Trace
pub mod Bound
mod Examples
use control_gate_backend.Prelude.{
  ℕ, String, Bool, true, false, suc, ◌+◌, ◌-◌, ◌&&◌, Option, none, some, List, [], ◌∷◌, ◌++◌, leb,
  ltb, if◌then◌else◌, is_cons, length, text_append,
}
use control_gate_backend.Prelude.Dict.{Dict, lookup, insert, erase}

abbrev pub sweep_interval : ℕ
sweep_interval = 1000

abbrev pub sweep_stale_after : ℕ
sweep_stale_after = 3600

-- `_buckets` and `_calls_since_sweep`. A deque is a list with its left end first.
pub record Limiter : Type 0 where
  pub buckets : Dict (List ℕ)
  pub calls_since_sweep : ℕ

-- `not entries or now - entries[-1] > _SWEEP_STALE_AFTER_SECONDS`
pub is_stale : ℕ → List ℕ → Bool
is_stale now [] = true
is_stale now (e ∷ []) = ltb (e + sweep_stale_after) now
is_stale now (_ ∷ e ∷ es) = is_stale now (e ∷ es)

-- `_sweep_expired_buckets`
pub sweep_expired_buckets : ℕ → Dict (List ℕ) → Dict (List ℕ)
unfolding is_stale
sweep_expired_buckets now [] = []
sweep_expired_buckets now ((k, es) ∷ d) =
    let rest = sweep_expired_buckets now d in if is_stale now es then rest else (k, es) ∷ rest

-- the count of calls, and the sweep that it triggers
pub sweep_if_due : ℕ → Limiter → Limiter
unfolding sweep_expired_buckets
sweep_if_due now s =
    if leb sweep_interval (s.calls_since_sweep + 1)
    then record { buckets = sweep_expired_buckets now s.buckets; calls_since_sweep = 0 }
    else record s { calls_since_sweep = s.calls_since_sweep + 1 }

-- `while entries and now - entries[0] > window_seconds: entries.popleft()`
pub trim : ℕ → ℕ → List ℕ → List ℕ
trim window now [] = []
trim window now (e ∷ es) =
    let rest = trim window now es in if ltb (e + window) now then rest else e ∷ es

-- The trimmed deque stays under its key, and a key whose deque is empty goes.
store_trimmed : String → List ℕ → Dict (List ℕ) → Dict (List ℕ)
store_trimmed key [] d = erase key d
store_trimmed key (e ∷ es) d = insert key (e ∷ es) d

trim_bucket : String → ℕ → ℕ → Option (List ℕ) → Dict (List ℕ) → Dict (List ℕ)
unfolding trim store_trimmed
trim_bucket key window now none d = d
trim_bucket key window now (some []) d = d
trim_bucket key window now (some (e ∷ es)) d = store_trimmed key (trim window now (e ∷ es)) d

-- The entries under a key, none where the key is missing.
abbrev pub entries_of : Option (List ℕ) → List ℕ
entries_of none = []
entries_of (some es) = es

-- `entries and len(entries) >= limit`
pub is_full : ℕ → List ℕ → Bool
is_full limit es = is_cons es && leb limit (length es)

-- `raise HTTPException(429)` on a full deque, and the append otherwise
pub admit : String → ℕ → ℕ → Limiter → Limiter × Bool
unfolding is_full
admit key limit now s =
    let es = entries_of (lookup key s.buckets) in
    if is_full limit es
    then (s, false)
    else (record s { buckets = insert key (es ++ now ∷ []) s.buckets }, true)

pub trimmed : String → ℕ → ℕ → Limiter → Limiter
unfolding trim_bucket
trimmed key window now s = record s {
  buckets = trim_bucket key window now (lookup key s.buckets) s.buckets;
}

-- `check_rate_limit` behind the key: the new state, and whether the call is let through
pub check_key : String → ℕ → ℕ → ℕ → Limiter → Limiter × Bool
unfolding sweep_if_due trimmed admit
check_key key limit window now s = admit key limit now (trimmed key window now (sweep_if_due now s))
