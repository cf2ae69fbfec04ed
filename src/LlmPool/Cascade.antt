-- ===== src/LlmPool/Cascade.antt =====
-- semantic_engine/classifier/llm_pool.py: what a call leaves behind.
use control_gate_backend.Prelude.{
  all-append, Bool, true, false, ◌≡◌, refl, ◌&&◌, inl, inr, Option, none, some, List, [], ◌∷◌, ◌++◌,
  arith, eq_iff, filter, any, all, any-append, Bool-cases,
}
use mathlib.Core.List.{append_assoc}
use control_gate_backend.Prelude.Dict.{contains}
use control_gate_backend.LlmPool.{
  Provider, Pool, Failure, Outcome, answered, failed, mark_failed, is_eligible, is_not_sticky,
  sticky_first, attempt, ordered,
}
use control_gate_backend.LlmPool.Invariant.{
  IsConsistent, agrees_with, is_same, is_known, is_sticky_known, mark_failed-IsConsistent,
}

-- Every entry's id names its provider.
abbrev pub AreNamed : List Provider → Type 0
AreNamed ps = all (λ p. all (agrees_with p) ps) ps ≡ true

pub all_imp :
    (p q : Provider → Bool)
    → ((x : Provider) → p x ≡ true → q x ≡ true)
    → (xs : List Provider) → all p xs ≡ true
    → all q xs ≡ true
all_imp p q f [] h = refl
all_imp p q f (x ∷ xs) h = ground (arith, f x, all_imp p q f xs)

-- Every entry of a list is found in it, and in a longer one.
all_found : (before ps : List Provider) → all (λ p. any (is_same p) (before ++ ps)) ps ≡ true
all_found before [] = refl
all_found before (p ∷ ps) =
    let here : any (is_same p) (before ++ p ∷ ps) ≡ true = ground (
      arith,
      any-append (is_same p) before (p ∷ ps),
      eq_iff p.id p.id,
      eq_iff p.provider p.provider,
    ) in
    let there : all (λ q. any (is_same q) ((before ++ p ∷ []) ++ ps)) ps ≡ true =
      all_found (before ++ p ∷ []) ps in
    ground (arith, here, rw (append_assoc before (p ∷ []) ps) at there)

all_both :
    (p q : Provider → Bool) (xs : List Provider)
    → all p xs ≡ true
    → all q xs ≡ true
    → all (λ x. p x && q x) xs ≡ true
all_both p q [] hp hq = refl
all_both p q (x ∷ xs) hp hq = ground (arith, all_both p q xs)

all_known : (ps : List Provider) → AreNamed ps → all (is_known ps) ps ≡ true
all_known ps h =
    all_both (λ p. any (is_same p) ps) (λ p. all (agrees_with p) ps) ps (all_found [] ps) h

pub all-filter :
    (p q : Provider → Bool) (xs : List Provider) → all p xs ≡ true → all p (filter q xs) ≡ true
all-filter p q [] h = refl
all-filter p q (x ∷ xs) h = ground (arith, all-filter p q xs)

sticky_first_known :
    (is_critical : Bool) (s : Pool) (ps : List Provider) (sticky : Option Provider)
    → is_sticky_known ps sticky ≡ true
    → all (is_known ps) (sticky_first is_critical s sticky) ≡ true
unfolding sticky_first
sticky_first_known is_critical s ps none h = refl
sticky_first_known is_critical s ps (some cfg) h =
    elim (Bool-cases (is_eligible is_critical s cfg)) [
      | inl free ↦ rw free (ground arith)
      | inr used ↦ rw used
    ]

-- Every entry that a call tries is an entry of the pool.
pub ordered_known :
    (is_critical : Bool) (s : Pool)
    → AreNamed s.providers
    → IsConsistent s
    → all (is_known s.providers) (ordered is_critical s) ≡ true
unfolding ordered
ordered_known is_critical s named h =
    let test = λ (p : Provider). is_not_sticky s.sticky p && is_eligible is_critical s p in
    rw (all-append (is_known s.providers)) (
      rw (
        sticky_first_known is_critical s s.providers s.sticky h.sticky_known,
        all-filter (is_known s.providers) test s.providers (all_known s.providers named),
      ))

mark_failed-providers :
    (cfg : Provider) (f : Failure) (s : Pool) → (mark_failed cfg f s).providers ≡ s.providers
unfolding mark_failed
mark_failed-providers cfg f s = ground arith

pub attempt-IsConsistent :
    (cfg : Provider) (o : Outcome) (s : Pool)
    → is_known s.providers cfg ≡ true
    → contains s.exhausted cfg.id ≡ false
    → IsConsistent s
    → IsConsistent (attempt cfg o s).0
unfolding attempt
attempt-IsConsistent cfg (answered text) s known free h = record {
  covered = h.covered;
  sticky_free = rw free;
  sticky_known = known;
}
attempt-IsConsistent cfg (failed f) s known free h = mark_failed-IsConsistent cfg f s h

pub attempt-providers :
    (cfg : Provider) (o : Outcome) (s : Pool) → (attempt cfg o s).0.providers ≡ s.providers
unfolding attempt
attempt-providers cfg (answered text) s = refl
attempt-providers cfg (failed f) s = mark_failed-providers cfg f s
