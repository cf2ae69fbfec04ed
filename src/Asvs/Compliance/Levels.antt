-- ===== src/Asvs/Compliance/Levels.antt =====
-- app/services/asvs_service.py: the scores of the levels.
use control_gate_backend.Prelude.{
  ℕ, String, Bool, true, ◌≤◌, ◌≡◌, List, [], ◌∷◌, arith, filter, length,
}
use control_gate_backend.Prelude.Dict.{Dict}
use control_gate_backend.Asvs.Types.{Control, ControlResult}
use control_gate_backend.Asvs.Compliance.{
  level_order, level_includes, LevelScore, passes, level_score, overall_score,
}

filter_mono :
    (p q : Control → Bool)
    → ((c : Control) → p c ≡ true → q c ≡ true)
    → (w : Control → Bool) (cs : List Control)
    → (length (filter p cs) ≤ length (filter q cs))
      × (length (filter w (filter p cs)) ≤ length (filter w (filter q cs)))
filter_mono p q h w [] = (omega arith, omega arith)
filter_mono p q h w (c ∷ cs) =
    let (a, b) = filter_mono p q h w cs in (ground (arith, h c), ground (arith, h c))

-- `a` has no more controls and no more passes than `b`.
abbrev pub IsWithin : LevelScore → LevelScore → Type 0
IsWithin a b = (a.total ≤ b.total) × (a.passed ≤ b.passed)

level_includes_mono :
    (lo hi : String)
    → level_order lo 0 ≤ level_order hi 0
    → (c : Control) → level_includes c.level lo ≡ true
    → level_includes c.level hi ≡ true
unfolding level_includes
level_includes_mono lo hi le c h = ground arith

module _ (percent : ℕ → ℕ → ℕ) (results : Dict ControlResult) (controls : List Control) where
  level_mono :
      (lo hi : String)
      → level_order lo 0 ≤ level_order hi 0
      → IsWithin (level_score percent results controls lo) (level_score percent results controls hi)
  unfolding level_score
  level_mono lo hi le =
      filter_mono (λ c. level_includes c.level lo) (λ c. level_includes c.level hi)
        (level_includes_mono lo hi le) (passes results) controls

  level-IsWithin_overall :
      (level : String)
      → IsWithin
          (level_score percent results controls level)
          (overall_score percent results controls)
  unfolding level_score overall_score
  level-IsWithin_overall level = within controls
    where
      within :
          (cs : List Control)
          → (length (filter (λ c. level_includes c.level level) cs) ≤ length cs)
            × (length (filter (passes results) (filter (λ c. level_includes c.level level) cs))
                ≤ length (filter (passes results) cs))
      within [] = (omega arith, omega arith)
      within (c ∷ cs) = let (a, b) = within cs in (ground arith, ground arith)

  -- The levels are cumulative: L1 has no more controls and no more passes than L2, L2 than L3, and
  -- L3 than the whole catalog.
  pub levels_cumulative :
      IsWithin
        (level_score percent results controls "L1")
        (level_score percent results controls "L2")
      × IsWithin
          (level_score percent results controls "L2")
          (level_score percent results controls "L3")
      × IsWithin
          (level_score percent results controls "L3")
          (overall_score percent results controls)
  levels_cumulative = (
    level_mono "L1" "L2" (omega arith),
    level_mono "L2" "L3" (omega arith),
    level-IsWithin_overall "L3",
  )
