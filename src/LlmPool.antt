-- ===== src/LlmPool.antt =====
-- semantic_engine/classifier/llm_pool.py: `RoleAwareLLMPool`, the cascading pool of model providers.
-- What a provider answers, and what the text of the exception that it raises says, come from outside
-- and are arguments. Waiting, logging and the client are left out.
pub mod Invariant
pub mod Cascade
pub mod Calls
pub mod Exhaustion
mod Examples
use control_gate_backend.Prelude.{
  ℕ, String, Bool, true, false, not, ◌&&◌, ◌||◌, Option, none, some, List, [], ◌∷◌, ◌++◌, map,
  if◌then◌else◌, ◌==◌, str_eq, filter, any, is_cons,
}
use control_gate_backend.Prelude.Dict.{contains}

-- An entry of `_make_entry`, without the key and the address. `is` tells entries apart by their
-- position in the list.
pub record Provider : Type 0 where
  pub position : ℕ
  pub id : String
  pub provider : String
  pub critical_only : Bool

-- The sets of ids are lists, and `in` is `contains`.
pub record Pool : Type 0 where
  pub providers : List Provider
  pub exhausted : List String
  pub soft_exhausted : List String
  pub hard_exhausted : List String
  pub sticky : Option Provider

-- The keywords that `_try_provider` finds in an exception's lower-cased text.
pub record Failure : Type 0 where
  pub says_daily : Bool  -- "per day", "tokens per day", "daily", "tpd" or "quota exceeded"
  pub says_scraping : Bool  -- "scraping"
  pub says_acceptable_use : Bool  -- "acceptable use"
  pub says_rate_limit : Bool  -- "rate limit"
  pub says_429 : Bool  -- "429", "too many requests" or "please review our"

pub data Outcome : Type 0 where
  answered : String → Outcome
  failed : Failure → Outcome

-- `__init__`, after `_build_providers`
unfoldable pub new : List Provider → Pool
new providers = record {
  providers = providers;
  exhausted = [];
  soft_exhausted = [];
  hard_exhausted = [];
  sticky = none;
}

-- `self._sticky and self._sticky["id"] == pid`, and `self._sticky = None`
abbrev pub drop_sticky : (Provider → Bool) → Option Provider → Option Provider
drop_sticky p none = none
drop_sticky p (some cfg) = if p cfg then none else some cfg

-- `reset_soft_exhausted`
unfoldable pub reset_soft_exhausted : Pool → Pool
reset_soft_exhausted s =
    if is_cons s.soft_exhausted
    then record {
      providers = s.providers;
      exhausted = s.hard_exhausted;
      soft_exhausted = [];
      hard_exhausted = s.hard_exhausted;
      sticky = drop_sticky (λ cfg. contains s.hard_exhausted cfg.id) s.sticky;
    }
    else s

-- the `is_daily`, `is_scraping` and `is_rate` of an exception
abbrev pub is_scraping : Failure → Bool
is_scraping f = f.says_scraping || (f.says_acceptable_use && not f.says_rate_limit)

abbrev pub is_rate : Failure → Bool
is_rate f = (f.says_429 || f.says_rate_limit) && not (is_scraping f)

-- One model is exhausted until the next reset.
soft_exhaust : Provider → Pool → Pool
soft_exhaust cfg s = record s {
  exhausted = cfg.id ∷ s.exhausted;
  soft_exhausted = cfg.id ∷ s.soft_exhausted;
  sticky = drop_sticky (λ p. str_eq p.id cfg.id) s.sticky;
}

-- One model is exhausted for the day.
hard_exhaust : Provider → Pool → Pool
hard_exhaust cfg s = record s {
  exhausted = cfg.id ∷ s.exhausted;
  hard_exhausted = cfg.id ∷ s.hard_exhausted;
  sticky = drop_sticky (λ p. str_eq p.id cfg.id) s.sticky;
}

-- the ids of all entries of a provider
abbrev pub ids_of : String → List Provider → List String
ids_of name ps = map (λ p. p.id) (filter (λ p. str_eq p.provider name) ps)

-- All models of a provider are exhausted until the next reset.
block_provider : String → Pool → Pool
block_provider name s =
    let ids = ids_of name s.providers in
    record s {
      exhausted = ids ++ s.exhausted;
      soft_exhausted = ids ++ s.soft_exhausted;
      sticky = drop_sticky (λ p. str_eq p.provider name) s.sticky;
    }

-- The `except` branch of `_try_provider`.
pub mark_failed : Provider → Failure → Pool → Pool
unfolding soft_exhaust hard_exhaust block_provider
mark_failed cfg f s =
    if is_rate f && not f.says_daily
    then soft_exhaust cfg s
    else if is_scraping f
    then block_provider cfg.provider s
    else if f.says_daily
    then hard_exhaust cfg s
    else soft_exhaust cfg s

-- `_eligible`
pub is_eligible : Bool → Pool → Provider → Bool
is_eligible is_critical s p =
    not (contains s.exhausted p.id) && not (p.critical_only && not is_critical)

-- `p is not self._sticky`
abbrev pub is_not_sticky : Option Provider → Provider → Bool
is_not_sticky none p = true
is_not_sticky (some cfg) p = not (p.position == cfg.position)

sticky_first : Bool → Pool → Option Provider → List Provider
unfolding is_eligible
sticky_first is_critical s none = []
sticky_first is_critical s (some cfg) = if is_eligible is_critical s cfg then cfg ∷ [] else []

-- The order in which `call` tries the entries.
pub ordered : Bool → Pool → List Provider
unfolding sticky_first is_eligible
ordered is_critical s =
    sticky_first is_critical s s.sticky
    ++ filter (λ p. is_not_sticky s.sticky p && is_eligible is_critical s p) s.providers

-- The attempt on one entry: `_try_provider`, and `self._sticky = cfg` after an answer.
pub attempt : Provider → Outcome → Pool → Pool × Option String
unfolding mark_failed
attempt cfg (answered text) s = (record s { sticky = some cfg }, some text)
attempt cfg (failed f) s = (mark_failed cfg f s, none)

pub cascade : (Provider → Outcome) → List Provider → Pool → Pool × Option String
unfolding attempt
cascade ask [] s = (s, none)
cascade ask (cfg ∷ cfgs) s =
    let skip = cascade ask cfgs s in
    let (s', text) = attempt cfg (ask cfg) s in
    let rest = cascade ask cfgs s' in
    if contains s.exhausted cfg.id then skip else elim text [ none ↦ rest | some t ↦ (s', some t) ]

-- `call`: the loop over the ordered entries
unfoldable pub call : (Provider → Outcome) → Bool → Pool → Pool × Option String
unfolding cascade ordered
call ask is_critical s = cascade ask (ordered is_critical s) s

-- `is_available`
unfoldable pub is_available : Pool → Bool
is_available s = any (λ p. not (contains s.exhausted p.id)) s.providers
