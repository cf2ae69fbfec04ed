-- ===== src/Pipeline/Findings/Ranked.antt =====
-- `_dedupe_vulnerabilities` of semantic_engine/pipeline.py: the finding of a cluster that is kept.
use control_gate_backend.Prelude.{
  true, false, ◌≡◌, List, [], ◌∷◌, arith, Every, Bool-cases, inl, inr, refl,
}
use mathlib.Core.Path.{subst}
use control_gate_backend.Pipeline.Findings.{ClassifiedVulnerability, Rank, rank, below, best}

pub below_self : (a : Rank) → below a a ≡ false
below_self a = ground arith

pub below_trans : (a b c : Rank) → below b a ≡ false → below c b ≡ false → below c a ≡ false
below_trans a b c h k = ground arith

pub below_asym : (a b : Rank) → below a b ≡ true → below b a ≡ false
below_asym a b h = ground arith

-- The finding that is kept ranks below no member of its cluster.
pub best-below :
    (x : ClassifiedVulnerability) (xs : List ClassifiedVulnerability)
    → Every (λ v. below (rank (best x xs)) (rank v) ≡ false) (x ∷ xs)
unfolding best
best-below x [] = (below_self (rank x), tt)
best-below x (y ∷ ys) =
    let Tops : ClassifiedVulnerability → Type 0 =
      λ b. Every (λ v. below (rank b) (rank v) ≡ false) (x ∷ y ∷ ys) in
    elim (Bool-cases (below (rank x) (rank y))) [
      | inl e ↦
          let (top, rest) = best-below y ys in
          let kept : best y ys ≡ best x (y ∷ ys) = rw (best, e) refl in
          subst Tops kept (
            below_trans (rank x) (rank y) (rank (best y ys)) (below_asym (rank x) (rank y) e) top,
            (top, rest),
          )
      | inr e ↦
          let (top, rest) = best-below x ys in
          let kept : best x ys ≡ best x (y ∷ ys) = rw (best, e) refl in
          subst Tops kept (top, (below_trans (rank y) (rank x) (rank (best x ys)) e top, rest))
    ]
