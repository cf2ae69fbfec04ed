-- ===== src/LlmPool/Exhaustion.antt =====
-- semantic_engine/classifier/llm_pool.py: which models are exhausted after a call, and for how long.
use control_gate_backend.Prelude.{
  all-append, String, Bool, true, false, not, ◌≡◌, refl, ◌&&◌, inl, inr, Option, none, some, List,
  [], ◌∷◌, arith, eq_iff, filter, any, all, Bool-cases,
}
use control_gate_backend.Prelude.Dict.{contains}
use control_gate_backend.LlmPool.{
  Provider, Pool, Failure, Outcome, failed, reset_soft_exhausted, soft_exhaust, hard_exhaust,
  ids_of, block_provider, mark_failed, is_eligible, is_not_sticky, sticky_first, attempt, cascade,
  ordered, call,
}
use control_gate_backend.LlmPool.Invariant.{
  IsConsistent, agrees_with, is_same, is_known, is_sticky_known, reset-IsConsistent,
  contains-append,
}
use control_gate_backend.LlmPool.Cascade.{AreNamed, ordered_known, attempt-providers}
use control_gate_backend.LlmPool.Calls.{
  Outcome-cases, cascade_skip, cascade_answered, cascade_failed, call-IsConsistent,
}

-- A failure only adds to the exhausted models of each kind.
mark_failed_grows :
    (cfg : Provider) (f : Failure) (s : Pool) (id : String)
    → (contains s.exhausted id ≡ true → contains (mark_failed cfg f s).exhausted id ≡ true)
      × (contains s.hard_exhausted id ≡ true
          → contains (mark_failed cfg f s).hard_exhausted id ≡ true)
unfolding mark_failed soft_exhaust hard_exhaust block_provider
mark_failed_grows cfg f s id = (
  λ h. ground (arith, contains-append (ids_of cfg.provider s.providers) s.exhausted id),
  λ h. ground arith,
)

ids_of_own :
    (cfg : Provider) (ps : List Provider)
    → any (is_same cfg) ps ≡ true
    → contains (ids_of cfg.provider ps) cfg.id ≡ true
ids_of_own cfg [] h = h
ids_of_own cfg (q ∷ ps) h =
    ground (arith, eq_iff q.provider cfg.provider, eq_iff q.id cfg.id, ids_of_own cfg ps)

-- The model that failed is exhausted.
mark_failed_own :
    (cfg : Provider) (f : Failure) (s : Pool)
    → is_known s.providers cfg ≡ true
    → contains (mark_failed cfg f s).exhausted cfg.id ≡ true
unfolding mark_failed soft_exhaust hard_exhaust block_provider
mark_failed_own cfg f s known = ground (
  arith,
  eq_iff cfg.id cfg.id,
  ids_of_own cfg s.providers,
  contains-append (ids_of cfg.provider s.providers) s.exhausted cfg.id,
)

AllUsed : Pool → List Provider → Type 0
AllUsed s ps = all (λ p. contains s.exhausted p.id) ps ≡ true

AllUsed-nil : (s : Pool) → AllUsed s []
unfolding AllUsed
AllUsed-nil s = refl

AllUsed-cons :
    (s : Pool) (p : Provider) (ps : List Provider)
    → contains s.exhausted p.id ≡ true
    → AllUsed s ps
    → AllUsed s (p ∷ ps)
unfolding AllUsed
AllUsed-cons s p ps own others = ground (arith, own, others)

module _ (ask : Provider → Outcome) where
  cascade_grows :
      (cfgs : List Provider) (s : Pool) (id : String)
      → (contains s.exhausted id ≡ true → contains (cascade ask cfgs s).0.exhausted id ≡ true)
        × (contains s.hard_exhausted id ≡ true
            → contains (cascade ask cfgs s).0.hard_exhausted id ≡ true)
  unfolding cascade
  cascade_grows [] s id = ((λ h. h), (λ h. h))
  cascade_grows (cfg ∷ cfgs) s id = elim (Bool-cases (contains s.exhausted cfg.id)) [
    | inl used ↦ rw (cascade_skip ask cfg cfgs s used) (cascade_grows cfgs s id)
    | inr free ↦ elim (Outcome-cases (ask cfg)) [
      | inl (t, e) ↦ rw (cascade_answered ask cfg cfgs s t free e) ((λ h. h), (λ h. h))
      | inr (f, e) ↦
          let now = mark_failed_grows cfg f s id in
          let later = cascade_grows cfgs (mark_failed cfg f s) id in
          rw (cascade_failed ask cfg cfgs s f free e)
            ((λ h. later.0 (now.0 h)), (λ h. later.1 (now.1 h)))
    ]
  ]

  cascade-none :
      (cfgs : List Provider) (s : Pool)
      → all (is_known s.providers) cfgs ≡ true
      → (cascade ask cfgs s).1 ≡ none
      → AllUsed (cascade ask cfgs s).0 cfgs
  unfolding cascade
  cascade-none [] s known h = AllUsed-nil s
  cascade-none (cfg ∷ cfgs) s known h =
      let head : is_known s.providers cfg ≡ true = ground arith in
      let rest : all (is_known s.providers) cfgs ≡ true = ground arith in
      elim (Bool-cases (contains s.exhausted cfg.id)) [
        | inl used ↦
            let e = cascade_skip ask cfg cfgs s used in
            let own = (cascade_grows cfgs s cfg.id).0 used in
            let others = cascade-none cfgs s rest (rw e at h) in
            rw e (AllUsed-cons (cascade ask cfgs s).0 cfg cfgs own others)
        | inr free ↦ elim (Outcome-cases (ask cfg)) [
          | inl (t, o) ↦
              let e = cascade_answered ask cfg cfgs s t free o in
              let bad : some t ≡ none = rw e at h in cc
          | inr (f, o) ↦
              let e = cascade_failed ask cfg cfgs s f free o in
              let same : (mark_failed cfg f s).providers ≡ s.providers =
                unfold attempt in attempt-providers cfg (failed f) s in
              let own =
                (cascade_grows cfgs (mark_failed cfg f s) cfg.id).0
                  (mark_failed_own cfg f s head) in
              let others = cascade-none cfgs (mark_failed cfg f s) (rw same rest) (rw e at h) in
              rw e (AllUsed-cons (cascade ask cfgs (mark_failed cfg f s)).0 cfg cfgs own others)
        ]
      ]

abbrev agrees_with_sticky : Option Provider → Provider → Bool
agrees_with_sticky none p = true
agrees_with_sticky (some cfg) p = agrees_with cfg p

all_agree :
    (ps : List Provider) (sticky : Option Provider)
    → is_sticky_known ps sticky ≡ true
    → all (agrees_with_sticky sticky) ps ≡ true
all_agree ps (some cfg) h = ground arith
all_agree [] none h = refl
all_agree (p ∷ ps) none h = all_agree ps none h

module _ (is_critical : Bool) (s f : Pool) where
  -- The entry that is left out as the sticky one is tried as the sticky one.
  twin :
      (sticky : Option Provider) (p : Provider)
      → agrees_with_sticky sticky p ≡ true
      → AllUsed f (sticky_first is_critical s sticky)
      → is_not_sticky sticky p ≡ false
      → is_eligible is_critical s p ≡ true
      → contains f.exhausted p.id ≡ true
  unfolding sticky_first is_eligible AllUsed
  twin none p agree used twins free = cc
  twin (some cfg) p agree used twins free = ground (arith, eq_iff p.id cfg.id)

  all_out :
      (sticky : Option Provider) (ps : List Provider)
      → ((id : String) → contains s.exhausted id ≡ true → contains f.exhausted id ≡ true)
      → all (agrees_with_sticky sticky) ps ≡ true
      → AllUsed f (sticky_first is_critical s sticky)
      → AllUsed f (filter (λ p. is_not_sticky sticky p && is_eligible is_critical s p) ps)
      → all (λ p. not (is_eligible is_critical f p)) ps ≡ true
  unfolding is_eligible AllUsed
  all_out sticky [] grows agree first used = refl
  all_out sticky (p ∷ ps) grows agree first used =
      ground (arith, grows p.id, twin sticky p, all_out sticky ps grows)

-- After a call that returns nothing, from a pool whose entries are named apart and whose bookkeeping
-- is consistent, none of the pool's entries is eligible for calls of the same severity.
pub call-none :
    (ask : Provider → Outcome) (is_critical : Bool) (s : Pool)
    → AreNamed s.providers
    → IsConsistent s
    → (call ask is_critical s).1 ≡ none
    → all (λ p. not (is_eligible is_critical (call ask is_critical s).0 p)) s.providers ≡ true
unfolding call ordered AllUsed
call-none ask is_critical s named h gave_up =
    let used =
      cascade-none ask (ordered is_critical s) s (ordered_known is_critical s named h) gave_up in
    let split =
      all-append (λ p. contains (call ask is_critical s).0.exhausted p.id)
        (sticky_first is_critical s s.sticky)
        (filter (λ p. is_not_sticky s.sticky p && is_eligible is_critical s p) s.providers) in
    all_out is_critical s (call ask is_critical s).0 s.sticky s.providers
      (λ id. (cascade_grows ask (ordered is_critical s) s id).0)
      (all_agree s.providers s.sticky h.sticky_known) (ground arith) (ground arith)

-- One use of the pool: a call, or the reset at the start of the next scan.
pub data Use : Type 0 where
  called : (Provider → Outcome) → Bool → Use
  reset : Use

unfoldable pub use_once : Use → Pool → Pool
use_once (called ask is_critical) s = (call ask is_critical s).0
use_once reset s = reset_soft_exhausted s

unfoldable pub use_all : List Use → Pool → Pool
unfolding use_once
use_all [] s = s
use_all (u ∷ us) s = use_all us (use_once u s)

reset-hard :
    (s : Pool)
    → ((reset_soft_exhausted s).hard_exhausted ≡ s.hard_exhausted)
      × ((reset_soft_exhausted s).providers ≡ s.providers)
unfolding reset_soft_exhausted
reset-hard s = (ground arith, ground arith)

use_once-IsConsistent :
    (u : Use) (s : Pool)
    → AreNamed s.providers
    → IsConsistent s
    → IsConsistent (use_once u s) × ((use_once u s).providers ≡ s.providers)
unfolding use_once
use_once-IsConsistent (called ask is_critical) s named h =
    call-IsConsistent ask is_critical s named h
use_once-IsConsistent reset s named h = (reset-IsConsistent s h, (reset-hard s).1)

use_once-hard :
    (u : Use) (s : Pool) (id : String)
    → contains s.hard_exhausted id ≡ true
    → contains (use_once u s).hard_exhausted id ≡ true
unfolding use_once call
use_once-hard (called ask is_critical) s id h = (cascade_grows ask (ordered is_critical s) s id).1 h
use_once-hard reset s id h = rw ((reset-hard s).0) h

-- A model that has used up its day is never tried again: over any sequence of calls and resets the
-- bookkeeping stays consistent and the model stays exhausted, so that no call finds it eligible.
pub daily_quota_lasts :
    (us : List Use) (s : Pool) (p : Provider) (is_critical : Bool)
    → AreNamed s.providers
    → IsConsistent s
    → contains s.hard_exhausted p.id ≡ true
    → IsConsistent (use_all us s) × (is_eligible is_critical (use_all us s) p ≡ false)
unfolding use_all is_eligible
daily_quota_lasts [] s p is_critical named h hard = (h, ground (arith, h.covered p.id))
daily_quota_lasts (u ∷ us) s p is_critical named h hard =
    let (next, same) = use_once-IsConsistent u s named h in
    daily_quota_lasts us (use_once u s) p is_critical (rw same named) next
      (use_once-hard u s p.id hard)
