-- ===== src/Asvs/Evidence/Bridge.antt =====
-- app/services/asvs_service.py: which live check is shown with a static finding, and the order of
-- the further live checks.
use mathlib.Core.List.{append_assoc, append-nil}
use control_gate_backend.Prelude.{
  all, all-append, ltb, not, ◌++◌, ◌||◌, ℕ, String, Bool, true, false, ◌≡◌, refl, ◌&&◌, Option,
  none, some, List, [], ◌∷◌, map, arith, ◌==◌, if◌then◌else◌, is_truthy, str_eq, eq_iff, filter,
  Bool-cases, inl, inr,
}
use control_gate_backend.Prelude.Dict.{Dict, lookup, insert, lookup-insert}
use control_gate_backend.Prelude.Sort.{IsSorted, sort_by-IsSorted, filter-sort_by}
use control_gate_backend.Asvs.Types.{Verdict, is_verdict, DynamicFinding, Summary}
use control_gate_backend.Asvs.Evidence.{
  bridge_rank, outranks, record_bridge, collect_bridges, dynamic_by_static_id, corroboration,
  evidence_priority, shown_findings, dynamic_evidence_for_control,
}

-- The bridge re-tested the static finding `id`.
abbrev pub retests : String → Option String → Bool
retests id none = false
retests id (some j) = is_truthy (some j) && str_eq j id

-- The order of the verdicts of a live check: a confirmation stands above a fail, a fail above an
-- inconclusive check, and that above every other outcome.
abbrev pub is_stronger : Option Verdict → Option Verdict → Bool
is_stronger v w =
    (is_verdict Verdict.confirmed v && not (is_verdict Verdict.confirmed w))
    || (is_verdict Verdict.fail v
        && not (is_verdict Verdict.confirmed w)
        && not (is_verdict Verdict.fail w))
    || (is_verdict Verdict.inconclusive v
        && not (is_verdict Verdict.confirmed w)
        && not (is_verdict Verdict.fail w)
        && not (is_verdict Verdict.inconclusive w))

-- The checks of `id` before the kept one `f` are weaker, and no check of `id` after it is stronger.
abbrev pub all_weaker : String → DynamicFinding → List DynamicFinding → Bool
all_weaker id f gs =
    all (λ g. not (retests id g.bridge_static_finding_id) || is_stronger f.verdict g.verdict) gs

abbrev pub none_stronger : String → DynamicFinding → List DynamicFinding → Bool
none_stronger id f gs =
    all (λ g. not (retests id g.bridge_static_finding_id) || not (is_stronger g.verdict f.verdict))
      gs

abbrev pub none_retests : String → List DynamicFinding → Bool
none_retests id gs = all (λ g. not (retests id g.bridge_static_finding_id)) gs

-- `kept` is the first of the strongest checks of `id` in the list.
abbrev pub IsFirstStrongest : String → List DynamicFinding → Option DynamicFinding → Type 0
IsFirstStrongest id fs none = none_retests id fs ≡ true
IsFirstStrongest id fs (some f) =
    (before : List DynamicFinding) × (after : List DynamicFinding) × (fs ≡ before ++ f ∷ after)
    × (retests id f.bridge_static_finding_id ≡ true)
    × (all_weaker id f before ≡ true)
    × (none_stronger id f after ≡ true)

is_stronger-rank : (v w : Option Verdict) → is_stronger v w ≡ ltb (bridge_rank w) (bridge_rank v)
is_stronger-rank v w = ground arith

ltb_trans : (a b c : ℕ) → ltb b a ≡ true → ltb c b ≡ true → ltb c a ≡ true
ltb_trans a b c h k = ground arith

ltb_above : (a b c : ℕ) → ltb b a ≡ true → not (ltb b c) ≡ true → ltb c a ≡ true
ltb_above a b c h k = ground arith

stronger_trans :
    (u v w : Option Verdict)
    → is_stronger u v ≡ true
    → is_stronger v w ≡ true
    → is_stronger u w ≡ true
stronger_trans u v w h k = rw (is_stronger-rank u w) (
    ltb_trans (bridge_rank u) (bridge_rank v) (bridge_rank w) (rw (is_stronger-rank u v) at h)
      (rw (is_stronger-rank v w) at k))

stronger_above :
    (u v w : Option Verdict)
    → is_stronger u v ≡ true
    → not (is_stronger w v) ≡ true
    → is_stronger u w ≡ true
stronger_above u v w h k = rw (is_stronger-rank u w) (
    ltb_above (bridge_rank u) (bridge_rank v) (bridge_rank w) (rw (is_stronger-rank u v) at h)
      (rw (is_stronger-rank w v) at k))

each_implied :
    (b p q r t : Bool)
    → (p ≡ true → q ≡ true)
    → (r ≡ true → t ≡ true)
    → ((not b || p) && r) ≡ true
    → ((not b || q) && t) ≡ true
each_implied b p q r t one rest h = ground arith

lookup-record_bridge :
    (id : String) (j : Option String) (f : DynamicFinding) (d : Dict DynamicFinding)
    → lookup id (record_bridge j f d)
      ≡ (if retests id j && outranks f (lookup id d) then some f else lookup id d)
unfolding record_bridge
lookup-record_bridge id none f d = refl
lookup-record_bridge id (some j) f d = elim (Bool-cases (str_eq j id)) [
  | inl same ↦ rw ((eq_iff j id).0 same) (here id)
  | inr other ↦ ground (arith, lookup-insert j id f d)
]
  where
    here :
        (k : String)
        → lookup k (if is_truthy (some k) && outranks f (lookup k d) then insert k f d else d) ≡ (
            if (is_truthy (some k) && str_eq k k) && outranks f (lookup k d)
            then some f
            else lookup k d)
    here k = ground (arith, lookup-insert k k f d, eq_iff k k)

module _ (id : String) where
  never_retested :
      (f : DynamicFinding) (gs : List DynamicFinding)
      → none_retests id gs ≡ true
      → all_weaker id f gs ≡ true
  never_retested f [] h = refl
  never_retested f (g ∷ gs) h = ground (arith, never_retested f gs)

  -- What a check leaves behind, a stronger one leaves behind too.
  weaker_before :
      (f g : DynamicFinding) (hs : List DynamicFinding)
      → is_stronger f.verdict g.verdict ≡ true
      → all_weaker id g hs ≡ true
      → all_weaker id f hs ≡ true
  weaker_before f g [] above h = refl
  weaker_before f g (x ∷ hs) above h =
      each_implied (retests id x.bridge_static_finding_id) (is_stronger g.verdict x.verdict)
        (is_stronger f.verdict x.verdict) (all_weaker id g hs) (all_weaker id f hs)
        (stronger_trans f.verdict g.verdict x.verdict above) (weaker_before f g hs above) h

  weaker_after :
      (f g : DynamicFinding) (hs : List DynamicFinding)
      → is_stronger f.verdict g.verdict ≡ true
      → none_stronger id g hs ≡ true
      → all_weaker id f hs ≡ true
  weaker_after f g [] above h = refl
  weaker_after f g (x ∷ hs) above h =
      each_implied (retests id x.bridge_static_finding_id) (not (is_stronger x.verdict g.verdict))
        (is_stronger f.verdict x.verdict) (none_stronger id g hs) (all_weaker id f hs)
        (stronger_above f.verdict g.verdict x.verdict above) (weaker_after f g hs above) h

  abbrev next : DynamicFinding → Option DynamicFinding → Option DynamicFinding
  next f best = if retests id f.bridge_static_finding_id && outranks f best then some f else best

  next-first :
      (f : DynamicFinding) (seen : List DynamicFinding)
      → IsFirstStrongest id seen none
      → IsFirstStrongest id (seen ++ f ∷ []) (next f none)
  next-first f seen h = elim (Bool-cases (retests id f.bridge_static_finding_id)) [
    | inl r ↦ rw r (seen, [], refl, r, never_retested f seen h, refl)
    | inr r ↦
        let split = all-append (λ g. not (retests id g.bridge_static_finding_id)) seen (f ∷ []) in
        rw r (ground arith)
  ]

  next-later :
      (f g : DynamicFinding) (seen : List DynamicFinding)
      → IsFirstStrongest id seen (some g)
      → IsFirstStrongest id (seen ++ f ∷ []) (next f (some g))
  next-later f g seen (before, after, e, r, weaker, none_above) =
      let rank = is_stronger-rank f.verdict g.verdict in
      elim (Bool-cases (retests id f.bridge_static_finding_id && outranks f (some g))) [
        | inl wins ↦
            let again : retests id f.bridge_static_finding_id ≡ true = ground arith in
            let above : is_stronger f.verdict g.verdict ≡ true = ground arith in
            let all_of =
              all-append
                (λ h.
                  not (retests id h.bridge_static_finding_id) || is_stronger f.verdict h.verdict)
                before (g ∷ after) in
            let first = weaker_before f g before above weaker in
            let last = weaker_after f g after above none_above in
            let behind : all_weaker id f seen ≡ true = rw e (ground arith) in
            rw wins (seen, [], refl, again, behind, refl)
        | inr loses ↦
            let longer : seen ++ f ∷ [] ≡ before ++ g ∷ (after ++ f ∷ []) =
              rw e (append_assoc before (g ∷ after) (f ∷ [])) in
            let all_of =
              all-append
                (λ h.
                  not (retests id h.bridge_static_finding_id)
                  || not (is_stronger h.verdict g.verdict))
                after (f ∷ []) in
            let still : none_stronger id g (after ++ f ∷ []) ≡ true = ground arith in
            rw loses (before, after ++ f ∷ [], longer, r, weaker, still)
      ]

  next-IsFirstStrongest :
      (f : DynamicFinding) (seen : List DynamicFinding) (best : Option DynamicFinding)
      → IsFirstStrongest id seen best
      → IsFirstStrongest id (seen ++ f ∷ []) (next f best)
  next-IsFirstStrongest f seen none h = next-first f seen h
  next-IsFirstStrongest f seen (some g) h = next-later f g seen h

  collect-IsFirstStrongest :
      (fs seen : List DynamicFinding) (d : Dict DynamicFinding)
      → IsFirstStrongest id seen (lookup id d)
      → IsFirstStrongest id (seen ++ fs) (lookup id (collect_bridges fs d))
  unfolding collect_bridges
  collect-IsFirstStrongest [] seen d h = rw (append-nil seen) h
  collect-IsFirstStrongest (f ∷ fs) seen d h =
      let one = lookup-record_bridge id f.bridge_static_finding_id f d in
      let now = next-IsFirstStrongest f seen (lookup id d) h in
      let rest =
        collect-IsFirstStrongest fs (seen ++ f ∷ []) (record_bridge f.bridge_static_finding_id f d)
          (rw one now) in
      rw (append_assoc seen (f ∷ []) fs) at rest

-- The live check that is kept for a static finding is the first of the strongest that re-tested it:
-- it re-tested the finding, every check of the finding before it is weaker, and none after it is
-- stronger; none is kept only where no check re-tested the finding. A confirmation is stronger than
-- a fail, a fail than an inconclusive check, and that than the rest.
pub dynamic_by_static_id-IsFirstStrongest :
    (id : String) (s : Summary)
    → IsFirstStrongest id s.dynamic_findings (lookup id (dynamic_by_static_id s))
unfolding dynamic_by_static_id
dynamic_by_static_id-IsFirstStrongest id s =
    collect-IsFirstStrongest id s.dynamic_findings [] [] refl

-- The evidence of a control lists passing live checks before confirmed ones and those before the
-- rest, and within each group it keeps the order of the scan.
pub dynamic_evidence-IsSorted :
    (c : String) (s : Summary) (exclude : List (Option String))
    → IsSorted evidence_priority (dynamic_evidence_for_control c s exclude)
      × ((k : ℕ)
          → filter (λ e. evidence_priority e == k) (dynamic_evidence_for_control c s exclude)
            ≡ filter
                (λ e. evidence_priority e == k)
                (map corroboration (shown_findings c s exclude)))
unfolding dynamic_evidence_for_control
dynamic_evidence-IsSorted c s exclude =
    let items = map corroboration (shown_findings c s exclude) in
    (sort_by-IsSorted evidence_priority items, λ k. filter-sort_by evidence_priority k items)
