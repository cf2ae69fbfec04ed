-- ===== src/LlmPool/Calls.antt =====
-- semantic_engine/classifier/llm_pool.py: a whole call, and any sequence of calls and resets.
use control_gate_backend.Prelude.{
  String, Bool, true, false, ◌≡◌, refl, ◌∙◌, ◌⊎◌, inl, inr, some, List, [], ◌∷◌, arith, all,
  Bool-cases,
}
use control_gate_backend.Prelude.Dict.{contains}
use control_gate_backend.LlmPool.{
  Provider, Pool, Failure, Outcome, answered, failed, mark_failed, attempt, cascade, ordered, call,
}
use control_gate_backend.LlmPool.Invariant.{IsConsistent, is_known}
use control_gate_backend.LlmPool.Cascade.{
  AreNamed, ordered_known, attempt-IsConsistent, attempt-providers,
}

pub Outcome-cases :
    (o : Outcome) → ((t : String) × (o ≡ answered t)) ⊎ ((f : Failure) × (o ≡ failed f))
Outcome-cases (answered t) = inl (t, refl)
Outcome-cases (failed f) = inr (f, refl)

module _ (ask : Provider → Outcome) where
  pub cascade_skip :
      (cfg : Provider) (cfgs : List Provider) (s : Pool)
      → contains s.exhausted cfg.id ≡ true
      → cascade ask (cfg ∷ cfgs) s ≡ cascade ask cfgs s
  unfolding cascade
  cascade_skip cfg cfgs s h = rw h

  pub cascade_answered :
      (cfg : Provider) (cfgs : List Provider) (s : Pool) (t : String)
      → contains s.exhausted cfg.id ≡ false
      → ask cfg ≡ answered t
      → cascade ask (cfg ∷ cfgs) s ≡ (record s { sticky = some cfg }, some t)
  unfolding cascade attempt
  cascade_answered cfg cfgs s t h e = ground arith

  pub cascade_failed :
      (cfg : Provider) (cfgs : List Provider) (s : Pool) (f : Failure)
      → contains s.exhausted cfg.id ≡ false
      → ask cfg ≡ failed f
      → cascade ask (cfg ∷ cfgs) s ≡ cascade ask cfgs (mark_failed cfg f s)
  unfolding cascade attempt
  cascade_failed cfg cfgs s f h e = ground arith

  -- The rule for any property of a call: it holds of the pool with no entry left to try and of the
  -- pool after an answer, and it goes through a failure.
  cascade-IsConsistent :
      (cfgs : List Provider) (s : Pool)
      → all (is_known s.providers) cfgs ≡ true
      → IsConsistent s
      → IsConsistent (cascade ask cfgs s).0 × ((cascade ask cfgs s).0.providers ≡ s.providers)
  unfolding cascade
  cascade-IsConsistent [] s known h = (h, refl)
  cascade-IsConsistent (cfg ∷ cfgs) s known h =
      let head : is_known s.providers cfg ≡ true = ground arith in
      let rest : all (is_known s.providers) cfgs ≡ true = ground arith in
      elim (Bool-cases (contains s.exhausted cfg.id)) [
        | inl used ↦ rw (cascade_skip cfg cfgs s used) (cascade-IsConsistent cfgs s rest h)
        | inr free ↦ elim (Outcome-cases (ask cfg)) [
          | inl (t, e) ↦
              rw (cascade_answered cfg cfgs s t free e)
                (unfold attempt in attempt-IsConsistent cfg (answered t) s head free h, refl)
          | inr (f, e) ↦
              let same : (mark_failed cfg f s).providers ≡ s.providers =
                unfold attempt in attempt-providers cfg (failed f) s in
              let next : IsConsistent (mark_failed cfg f s) =
                unfold attempt in attempt-IsConsistent cfg (failed f) s head free h in
              let (a, b) = cascade-IsConsistent cfgs (mark_failed cfg f s) (rw same rest) next in
              rw (cascade_failed cfg cfgs s f free e) (a, b ∙ same)
        ]
      ]

-- A call keeps the bookkeeping consistent, whatever the providers answer, and never changes the
-- list of entries.
pub call-IsConsistent :
    (ask : Provider → Outcome) (is_critical : Bool) (s : Pool)
    → AreNamed s.providers
    → IsConsistent s
    → IsConsistent (call ask is_critical s).0 × ((call ask is_critical s).0.providers ≡ s.providers)
unfolding call
call-IsConsistent ask is_critical s named h =
    cascade-IsConsistent ask (ordered is_critical s) s (ordered_known is_critical s named h) h
