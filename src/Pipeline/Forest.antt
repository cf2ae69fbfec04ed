-- ===== src/Pipeline/Forest.antt =====
-- `find` and `union` of `_cluster_by_same_finding` in semantic_engine/pipeline.py. The list `parent`
-- is a function of the index, and a loop that may run for ever takes fuel.
pub mod Heights
pub mod Unions
use control_gate_backend.Prelude.{
  ℕ, zero, suc, Bool, true, false, List, [], ◌∷◌, ◌==◌, if◌then◌else◌,
}

abbrev pub Parents : Type 0
Parents = ℕ → ℕ

-- `parent[i] = v`
abbrev pub set_parent : ℕ → ℕ → Parents → Parents
set_parent i v p x = if x == i then v else p x

-- `find`, which halves the path that it climbs: the new parents, and the root.
unfoldable pub find : ℕ → Parents → ℕ → Parents × ℕ
find zero p i = (p, i)
find (suc fuel) p i =
    let p' = set_parent i (p (p i)) p in
    let above = find fuel p' (p' i) in if p i == i then (p, i) else above

-- `parent[ri] = rj`, unless the roots are one
abbrev pub attach : ℕ → ℕ → Parents → Parents
attach ri rj p = if ri == rj then p else set_parent ri rj p

-- `union`
unfoldable pub union : ℕ → ℕ → ℕ → Parents → Parents
unfolding find
union fuel i j p = let (p1, ri) = find fuel p i in let (p2, rj) = find fuel p1 j in attach ri rj p2

-- The unions of the pairs that satisfy a test, in their order.
unfoldable pub union_all : ℕ → (ℕ → ℕ → Bool) → List (ℕ × ℕ) → Parents → Parents
unfolding union
union_all fuel same [] p = p
union_all fuel same ((i, j) ∷ pairs) p =
    union_all fuel same pairs (if same i j then union fuel i j p else p)
