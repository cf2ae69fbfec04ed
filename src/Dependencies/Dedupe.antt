-- ===== src/Dependencies/Dedupe.antt =====
-- app/services/dependency_scanner.py: the refs that are left after the de-duplication.
use control_gate_backend.Prelude.{
  true, false, not, ◌≡◌, refl, ◌||◌, List, [], ◌∷◌, arith, any, all, eq_iff, Bool-cases, inl, inr,
}
use control_gate_backend.Prelude.Texts.{codes_of, lower, same_text_self, same_text-true}
use control_gate_backend.Dependencies.{DependencyRef, has_same_key, dedupe}

has_same_key_self : (r : DependencyRef) → has_same_key r r ≡ true
unfolding has_same_key
has_same_key_self r = ground (
  arith,
  same_text_self (lower (codes_of r.name)),
  eq_iff r.version r.version,
  eq_iff r.ecosystem r.ecosystem,
)

has_same_key_flip : (r s : DependencyRef) → has_same_key r s ≡ true → has_same_key s r ≡ true
unfolding has_same_key
has_same_key_flip r s h =
    let a = same_text-true (lower (codes_of r.name)) (lower (codes_of s.name)) (ground arith) in
    let b = (eq_iff r.version s.version).0 (ground arith) in
    let c = (eq_iff r.ecosystem s.ecosystem).0 (ground arith) in
    rw (a, b, c)
      (ground (
        arith,
        same_text_self (lower (codes_of s.name)),
        eq_iff s.version s.version,
        eq_iff s.ecosystem s.ecosystem,
      ))

-- No ref of `rs` has a key of `seen`.
abbrev AreNew : List DependencyRef → List DependencyRef → Type 0
AreNew seen rs = all (λ r. not (any (has_same_key r) seen)) rs ≡ true

AreNew-fewer :
    (s : DependencyRef) (seen rs : List DependencyRef) → AreNew (s ∷ seen) rs → AreNew seen rs
AreNew-fewer s seen [] h = refl
AreNew-fewer s seen (r ∷ rs) h = ground (arith, AreNew-fewer s seen rs)

dedupe-AreNew : (seen rs : List DependencyRef) → AreNew seen (dedupe seen rs)
unfolding dedupe
dedupe-AreNew seen [] = refl
dedupe-AreNew seen (r ∷ rs) =
    let rest = AreNew-fewer r seen (dedupe (r ∷ seen) rs) (dedupe-AreNew (r ∷ seen) rs) in
    ground (arith, dedupe-AreNew seen rs, rest)

-- The refs have different keys.
abbrev pub AreDistinct : List DependencyRef → Type 0
AreDistinct [] = Unit
AreDistinct (r ∷ rs) = (all (λ s. not (has_same_key r s)) rs ≡ true) × AreDistinct rs

AreNew-head :
    (r : DependencyRef) (seen rs : List DependencyRef)
    → AreNew (r ∷ seen) rs
    → all (λ s. not (has_same_key r s)) rs ≡ true
AreNew-head r seen [] h = refl
AreNew-head r seen (s ∷ rs) h = ground (arith, has_same_key_flip r s, AreNew-head r seen rs)

dedupe-AreDistinct : (seen rs : List DependencyRef) → AreDistinct (dedupe seen rs)
unfolding dedupe
dedupe-AreDistinct seen [] = tt
dedupe-AreDistinct seen (r ∷ rs) = elim (Bool-cases (any (has_same_key r) seen)) [
  | inl old ↦ rw (dedupe, old) (dedupe-AreDistinct seen rs)
  | inr new ↦
      rw (dedupe, new)
        (
          AreNew-head r seen (dedupe (r ∷ seen) rs) (dedupe-AreNew (r ∷ seen) rs),
          dedupe-AreDistinct (r ∷ seen) rs,
        )
]

-- Every ref of `rs` has a key of `seen` or of `kept`.
AreCovered : List DependencyRef → List DependencyRef → List DependencyRef → Type 0
AreCovered seen kept rs =
    all (λ r. any (has_same_key r) seen || any (has_same_key r) kept) rs ≡ true

AreCovered-nil : (seen kept : List DependencyRef) → AreCovered seen kept []
unfolding AreCovered
AreCovered-nil seen kept = refl

AreCovered-cons :
    (r : DependencyRef) (seen kept rs : List DependencyRef)
    → (any (has_same_key r) seen || any (has_same_key r) kept) ≡ true
    → AreCovered seen kept rs
    → AreCovered seen kept (r ∷ rs)
unfolding AreCovered
AreCovered-cons r seen kept rs here rest = ground (arith, here, rest)

AreCovered-move :
    (s : DependencyRef) (seen kept rs : List DependencyRef)
    → AreCovered (s ∷ seen) kept rs
    → AreCovered seen (s ∷ kept) rs
unfolding AreCovered
AreCovered-move s seen kept [] h = refl
AreCovered-move s seen kept (r ∷ rs) h = ground (arith, AreCovered-move s seen kept rs)

dedupe-old :
    (r : DependencyRef) (seen rs : List DependencyRef)
    → any (has_same_key r) seen ≡ true
    → dedupe seen (r ∷ rs) ≡ dedupe seen rs
unfolding dedupe
dedupe-old r seen rs old = rw old refl

dedupe-new :
    (r : DependencyRef) (seen rs : List DependencyRef)
    → any (has_same_key r) seen ≡ false
    → dedupe seen (r ∷ rs) ≡ r ∷ dedupe (r ∷ seen) rs
unfolding dedupe
dedupe-new r seen rs fresh = rw fresh refl

dedupe-AreCovered : (seen rs : List DependencyRef) → AreCovered seen (dedupe seen rs) rs
dedupe-AreCovered seen [] = AreCovered-nil seen _
dedupe-AreCovered seen (r ∷ rs) = elim (Bool-cases (any (has_same_key r) seen)) [
  | inl old ↦
      rw (dedupe-old r seen rs old)
        (AreCovered-cons r seen (dedupe seen rs) rs (ground arith) (dedupe-AreCovered seen rs))
  | inr fresh ↦
      let own = has_same_key_self r in
      rw (dedupe-new r seen rs fresh) (
        AreCovered-cons r seen (r ∷ dedupe (r ∷ seen) rs) rs (ground arith)
          (AreCovered-move r seen (dedupe (r ∷ seen) rs) rs (dedupe-AreCovered (r ∷ seen) rs)))
]

-- The de-duplicated refs have different keys, and every ref has the key of one of them, so that no
-- package is queried twice and none is lost.
pub dedupe-AreDistinct_covered :
    (rs : List DependencyRef)
    → AreDistinct (dedupe [] rs) × (all (λ r. any (has_same_key r) (dedupe [] rs)) rs ≡ true)
unfolding AreCovered
dedupe-AreDistinct_covered rs = (dedupe-AreDistinct [] rs, dedupe-AreCovered [] rs)
