-- ===== src/RateLimit/Window.antt =====
-- app/core/rate_limit.py: one key of the limiter against a count of the calls in the window.
use control_gate_backend.Prelude.{
  ℕ, ◌+◌, ◌≤◌, ◌≡◌, refl, List, [], ◌∷◌, ◌++◌, arith, leb, length, count_if,
}
use control_gate_backend.RateLimit.{trim}

-- The calls that the window of a call at `now` still sees.
abbrev pub recent : ℕ → ℕ → List ℕ → ℕ
recent window now es = count_if (λ e. leb now (e + window)) es

-- The clock does not run back: a deque's entries stand in order, and none is later than `t`.
abbrev pub IsOrdered : ℕ → List ℕ → Type 0
IsOrdered t [] = Unit
IsOrdered t (e ∷ []) = e ≤ t
IsOrdered t (e ∷ f ∷ es) = (e ≤ f) × IsOrdered t (f ∷ es)

pub IsOrdered-later : (t u : ℕ) (es : List ℕ) → t ≤ u → IsOrdered t es → IsOrdered u es
IsOrdered-later t u [] le h = tt
IsOrdered-later t u (e ∷ []) le h = omega arith
IsOrdered-later t u (e ∷ f ∷ es) le (h, rest) = (h, IsOrdered-later t u (f ∷ es) le rest)

IsOrdered-tail : (t e : ℕ) (es : List ℕ) → IsOrdered t (e ∷ es) → IsOrdered t es
IsOrdered-tail t e [] h = tt
IsOrdered-tail t e (f ∷ es) (_, h) = h

pub IsOrdered-append :
    (t now : ℕ) (es : List ℕ) → t ≤ now → IsOrdered t es → IsOrdered now (es ++ now ∷ [])
IsOrdered-append t now [] le h = omega arith
IsOrdered-append t now (e ∷ []) le h = (omega arith, omega arith)
IsOrdered-append t now (e ∷ f ∷ es) le (h, rest) = (h, IsOrdered-append t now (f ∷ es) le rest)

pub recent-append :
    (window now : ℕ) (es fs : List ℕ)
    → recent window now (es ++ fs) ≡ recent window now es + recent window now fs
recent-append window now [] fs = omega arith
recent-append window now (e ∷ es) fs = ground (arith, recent-append window now es fs)

-- Where the first entry is in the window, all are.
all_recent :
    (window now t e : ℕ) (es : List ℕ)
    → IsOrdered t (e ∷ es)
    → now ≤ e + window
    → recent window now (e ∷ es) ≡ length (e ∷ es)
all_recent window now t e [] h le = ground arith
all_recent window now t e (f ∷ es) (ef, h) le = ground (arith, all_recent window now t f es h)

pub trim-IsOrdered :
    (window now t : ℕ) (es : List ℕ) → IsOrdered t es → IsOrdered t (trim window now es)
unfolding trim
trim-IsOrdered window now t [] h = tt
trim-IsOrdered window now t (e ∷ es) h =
    ground (arith, trim-IsOrdered window now t es (IsOrdered-tail t e es h))

-- What is trimmed away no later call of the same window counts.
pub recent-trim :
    (window now later : ℕ) (es : List ℕ)
    → now ≤ later
    → recent window later (trim window now es) ≡ recent window later es
unfolding trim
recent-trim window now later [] le = refl
recent-trim window now later (e ∷ es) le = ground (arith, recent-trim window now later es le)

-- The trimmed deque holds exactly the calls in the window.
pub length-trim :
    (window now t : ℕ) (es : List ℕ)
    → IsOrdered t es
    → length (trim window now es) ≡ recent window now es
unfolding trim
length-trim window now t [] h = refl
length-trim window now t (e ∷ es) h =
    ground
      (arith, length-trim window now t es (IsOrdered-tail t e es h), all_recent window now t e es h)
