-- ===== src/LlmPool/Examples.antt =====
-- semantic_engine/classifier/llm_pool.py: a pool of three models.
use control_gate_backend.Prelude.{Bool, true, false, not, str_eq, ◌≡◌, refl, List, [], ◌∷◌, all}
use control_gate_backend.Prelude.Dict.{contains}
use control_gate_backend.LlmPool.{
  Provider, Pool, Failure, Outcome, answered, failed, new, call, is_eligible, cascade, ordered,
  sticky_first, attempt, mark_failed, soft_exhaust, hard_exhaust, block_provider,
}
use control_gate_backend.LlmPool.Invariant.{IsConsistent, new-IsConsistent}
use control_gate_backend.LlmPool.Cascade.{AreNamed}
use control_gate_backend.LlmPool.Calls.{call-IsConsistent}
use control_gate_backend.LlmPool.Exhaustion.{called, reset, use_all, call-none, daily_quota_lasts}

abbrev mini : Provider
mini = record { position = 0; id = "github:mini"; provider = "github"; critical_only = false }

abbrev large : Provider
large = record { position = 1; id = "github:large"; provider = "github"; critical_only = true }

abbrev llama : Provider
llama = record { position = 2; id = "groq:llama"; provider = "groq"; critical_only = false }

abbrev models : List Provider
models = mini ∷ large ∷ llama ∷ []

abbrev says : Bool → Bool → Failure
says daily scraping = record {
  says_daily = daily;
  says_scraping = scraping;
  says_acceptable_use = false;
  says_rate_limit = false;
  says_429 = false;
}

-- The first provider blocks its callers, and the second has used up the day.
abbrev refuse : Provider → Outcome
refuse p = failed (says (not (str_eq p.provider "github")) (str_eq p.provider "github"))

call-IsConsistent_example : IsConsistent (call refuse false (new models)).0
unfolding new
call-IsConsistent_example =
    (call-IsConsistent refuse false (new models) refl (new-IsConsistent models)).0

call-none_example :
    all (λ p. not (is_eligible true (call refuse true (new models)).0 p)) models ≡ true
unfolding new call cascade ordered sticky_first is_eligible attempt mark_failed soft_exhaust
    hard_exhaust block_provider
call-none_example = call-none refuse true (new models) refl (new-IsConsistent models) refl

models_named : AreNamed (new models).providers
unfolding new
models_named = refl

abbrev spent : Pool
spent = (call refuse false (new models)).0

spent-llama : contains spent.hard_exhausted "groq:llama" ≡ true
unfolding new call cascade ordered sticky_first is_eligible attempt mark_failed soft_exhaust
    hard_exhaust block_provider
spent-llama = refl

spent-IsConsistent : IsConsistent spent
spent-IsConsistent =
    (call-IsConsistent refuse false (new models) models_named (new-IsConsistent models)).0

daily_quota_lasts_example :
    is_eligible false (use_all (reset ∷ called (λ p. answered "ok") false ∷ []) spent) llama ≡ false
daily_quota_lasts_example =
    (daily_quota_lasts (reset ∷ called (λ p. answered "ok") false ∷ []) spent llama false
      (unfold new call cascade ordered sticky_first is_eligible attempt mark_failed soft_exhaust
          hard_exhaust block_provider in
        refl)
      spent-IsConsistent spent-llama).1
