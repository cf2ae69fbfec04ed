-- ===== src/LlmPool/Invariant.antt =====
-- semantic_engine/classifier/llm_pool.py: the bookkeeping of the exhausted models.
use control_gate_backend.Prelude.{
  String, Bool, true, false, not, ◌≡◌, refl, ◌&&◌, ◌||◌, Option, none, some, List, [], ◌∷◌, ◌++◌,
  arith, if◌then◌else◌, str_eq, ◌==◌, eq_iff, any, all, is_cons, any-append,
}
use control_gate_backend.Prelude.Dict.{contains}
use control_gate_backend.LlmPool.{
  Provider, Pool, Failure, new, drop_sticky, reset_soft_exhausted, soft_exhaust, hard_exhaust,
  ids_of, block_provider, mark_failed,
}

-- The sticky model, if there is one, is not exhausted.
abbrev pub sticky_is_free : Option Provider → List String → Bool
sticky_is_free none ids = true
sticky_is_free (some cfg) ids = not (contains ids cfg.id)

-- Two entries with one id have one provider (an id is the provider's name, a colon and the model),
-- and two entries with one position are one entry.
abbrev pub agrees_with : Provider → Provider → Bool
agrees_with p q =
    (not (str_eq q.id p.id) || str_eq q.provider p.provider)
    && (not (q.position == p.position)
        || (str_eq q.id p.id && (if q.critical_only then p.critical_only else not p.critical_only)))

abbrev pub is_same : Provider → Provider → Bool
is_same p q = str_eq q.id p.id && str_eq q.provider p.provider

-- `cfg` is an entry of the pool, and its id names its provider.
abbrev pub is_known : List Provider → Provider → Bool
is_known ps cfg = any (is_same cfg) ps && all (agrees_with cfg) ps

abbrev pub is_sticky_known : List Provider → Option Provider → Bool
is_sticky_known ps none = true
is_sticky_known ps (some cfg) = is_known ps cfg

-- Between two calls: a model is exhausted exactly if it is so until the next reset or for the day,
-- and the sticky model is an entry of the pool that is not exhausted.
pub record IsConsistent (s : Pool) : Type 0 where
  pub covered :
      (id : String)
      → contains s.exhausted id ≡ (contains s.soft_exhausted id || contains s.hard_exhausted id)
  pub sticky_free : sticky_is_free s.sticky s.exhausted ≡ true
  pub sticky_known : is_sticky_known s.providers s.sticky ≡ true

pub contains-append :
    (xs ys : List String) (id : String)
    → contains (xs ++ ys) id ≡ (contains xs id || contains ys id)
contains-append xs ys id = any-append (λ j. str_eq j id) xs ys

-- A sticky model that is kept was not dropped by the test.
drop_sticky_free :
    (p : Provider → Bool) (sticky : Option Provider) (new_ids old : List String)
    → ((cfg : Provider) → p cfg ≡ false → contains new_ids cfg.id ≡ false)
    → sticky_is_free sticky old ≡ true
    → sticky_is_free (drop_sticky p sticky) (new_ids ++ old) ≡ true
drop_sticky_free p none new_ids old h free = refl
drop_sticky_free p (some cfg) new_ids old h free =
    ground (arith, h cfg, contains-append new_ids old cfg.id)

one_id : (cfg p : Provider) → str_eq p.id cfg.id ≡ false → contains (cfg.id ∷ []) p.id ≡ false
one_id cfg p h = ground (arith, eq_iff p.id cfg.id, eq_iff cfg.id p.id)

drop_sticky_known :
    (ps : List Provider) (p : Provider → Bool) (sticky : Option Provider)
    → is_sticky_known ps sticky ≡ true
    → is_sticky_known ps (drop_sticky p sticky) ≡ true
drop_sticky_known ps p none h = refl
drop_sticky_known ps p (some cfg) h = ground arith

soft_exhaust-IsConsistent :
    (cfg : Provider) (s : Pool) → IsConsistent s → IsConsistent (soft_exhaust cfg s)
unfolding soft_exhaust
soft_exhaust-IsConsistent cfg s h = record {
  covered = λ id. ground (arith, h.covered id);
  sticky_free =
      drop_sticky_free (λ p. str_eq p.id cfg.id) s.sticky (cfg.id ∷ []) s.exhausted (one_id cfg)
        h.sticky_free;
  sticky_known = drop_sticky_known s.providers (λ p. str_eq p.id cfg.id) s.sticky h.sticky_known;
}

hard_exhaust-IsConsistent :
    (cfg : Provider) (s : Pool) → IsConsistent s → IsConsistent (hard_exhaust cfg s)
unfolding hard_exhaust
hard_exhaust-IsConsistent cfg s h = record {
  covered = λ id. ground (arith, h.covered id);
  sticky_free =
      drop_sticky_free (λ p. str_eq p.id cfg.id) s.sticky (cfg.id ∷ []) s.exhausted (one_id cfg)
        h.sticky_free;
  sticky_known = drop_sticky_known s.providers (λ p. str_eq p.id cfg.id) s.sticky h.sticky_known;
}

-- The id of an entry of another provider is none of a provider's ids.
ids_of_other :
    (name : String) (cfg : Provider) (ps : List Provider)
    → all (agrees_with cfg) ps ≡ true
    → str_eq cfg.provider name ≡ false
    → contains (ids_of name ps) cfg.id ≡ false
ids_of_other name cfg [] h ne = refl
ids_of_other name cfg (q ∷ ps) h ne =
    ground (arith, eq_iff q.provider cfg.provider, ids_of_other name cfg ps)

drop_blocked_free :
    (name : String) (ps : List Provider) (sticky : Option Provider) (old : List String)
    → is_sticky_known ps sticky ≡ true
    → sticky_is_free sticky old ≡ true
    → sticky_is_free (drop_sticky (λ p. str_eq p.provider name) sticky) (ids_of name ps ++ old)
      ≡ true
drop_blocked_free name ps none old h free = refl
drop_blocked_free name ps (some cfg) old h free =
    ground (arith, ids_of_other name cfg ps, contains-append (ids_of name ps) old cfg.id)

block_provider-IsConsistent :
    (name : String) (s : Pool) → IsConsistent s → IsConsistent (block_provider name s)
unfolding block_provider
block_provider-IsConsistent name s h =
    let ids = ids_of name s.providers in
    record {
      covered = λ id. ground (
        arith,
        h.covered id,
        contains-append ids s.exhausted id,
        contains-append ids s.soft_exhausted id,
      );
      sticky_free =
          drop_blocked_free name s.providers s.sticky s.exhausted h.sticky_known h.sticky_free;
      sticky_known =
          drop_sticky_known s.providers (λ p. str_eq p.provider name) s.sticky h.sticky_known;
    }

if-IsConsistent :
    (b : Bool) {x y : Pool} → IsConsistent x → IsConsistent y → IsConsistent (if b then x else y)
if-IsConsistent true hx hy = hx
if-IsConsistent false hx hy = hy

pub mark_failed-IsConsistent :
    (cfg : Provider) (f : Failure) (s : Pool) → IsConsistent s → IsConsistent (mark_failed cfg f s)
unfolding mark_failed
mark_failed-IsConsistent cfg f s h = if-IsConsistent _ (soft_exhaust-IsConsistent cfg s h) (
    if-IsConsistent _ (block_provider-IsConsistent cfg.provider s h)
      (if-IsConsistent _ (hard_exhaust-IsConsistent cfg s h) (soft_exhaust-IsConsistent cfg s h)))

-- A reset keeps the day's exhaustions and forgets the others.
reset_sticky_free :
    (hard : List String) (sticky : Option Provider)
    → sticky_is_free (drop_sticky (λ cfg. contains hard cfg.id) sticky) hard ≡ true
reset_sticky_free hard none = refl
reset_sticky_free hard (some cfg) = ground arith

pub reset-IsConsistent : (s : Pool) → IsConsistent s → IsConsistent (reset_soft_exhausted s)
unfolding reset_soft_exhausted
reset-IsConsistent s h =
    if-IsConsistent (is_cons s.soft_exhausted)
      (record {
        covered = λ id. refl;
        sticky_free = reset_sticky_free s.hard_exhausted s.sticky;
        sticky_known =
            drop_sticky_known s.providers (λ cfg. contains s.hard_exhausted cfg.id) s.sticky
              h.sticky_known;
      })
      h

pub new-IsConsistent : (ps : List Provider) → IsConsistent (new ps)
unfolding new
new-IsConsistent ps = record { covered = λ id. refl; sticky_free = refl; sticky_known = refl }
