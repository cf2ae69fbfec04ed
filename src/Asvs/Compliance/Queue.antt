-- ===== src/Asvs/Compliance/Queue.antt =====
-- app/services/asvs_service.py: the attestation queue against the catalog.
use control_gate_backend.Prelude.{
  Bool, true, false, not, ◌≡◌, refl, ◌&&◌, none, some, List, [], ◌∷◌, map, arith, is_some, filter,
  count_if, Bool-cases, inl, inr, Every, if◌then◌else◌, suc, ap,
}
use control_gate_backend.Prelude.Dict.{Dict, lookup}
use control_gate_backend.Asvs.Types.{
  Verdict, is_verdict, Basis, Strategy, static_code, config_inspection, dependency_scan,
  dynamic_probe, manual_attestation, Attestations, Control, ControlResult,
}
use control_gate_backend.Asvs.Compliance.{
  TaskStatus, attested, is_status, Task, is_manual, is_confirmed_fail, task_for, manual_tasks,
  task_counts,
}

-- The controls of the catalog that only a human answers.
abbrev pub asks_human : Control → Bool
asks_human c = elim c.detection_strategy [
  | static_code ↦ false
  | config_inspection ↦ false
  | dependency_scan ↦ false
  | dynamic_probe ↦ false
  | manual_attestation ↦ true
  | Strategy.unknown ↦ false
]

module _ (results : Dict ControlResult) (attestations : Attestations) where
  abbrev pub is_answered : Control → Bool
  is_answered c = is_some (lookup c.control_id attestations)

  -- The stored result is a fail on confirmed evidence.
  abbrev pub is_proven_fail : Control → Bool
  is_proven_fail c = elim (lookup c.control_id results) [
    | none ↦ false
    | some r ↦ is_verdict Verdict.fail (some r.verdict) && elim r.fail_basis [
      | none ↦ false
      | some b ↦ elim b [
        | Basis.confirmed ↦ true
        | Basis.no_findings ↦ false
        | Basis.unconfirmed ↦ false
      ]
    ]
  ]

  -- What a task says of its control.
  abbrev pub IsTrueTask : Task → Type 0
  IsTrueTask t =
      (t.result ≡ lookup t.control.control_id results)
      × (t.attestation ≡ lookup t.control.control_id attestations)
      × (t.requires_attestation ≡ not (is_proven_fail t.control && not (is_answered t.control)))
      × (is_status attested t.status ≡ is_answered t.control)
      × (is_status TaskStatus.scan_failed t.status
          ≡ (is_proven_fail t.control && not (is_answered t.control)))

  is_proven-is_confirmed :
      (c : Control) → is_confirmed_fail (lookup c.control_id results) ≡ is_proven_fail c
  unfolding is_confirmed_fail
  is_proven-is_confirmed c = ground arith

  asks-is_manual : (c : Control) → is_manual c.detection_strategy ≡ asks_human c
  asks-is_manual c = ground arith

  task_for-IsTrueTask : (c : Control) → IsTrueTask (task_for results attestations c)
  unfolding task_for
  task_for-IsTrueTask c = let e = is_proven-is_confirmed c in ground arith

  -- The queue of a catalog with one control more.
  manual_tasks-cons :
      (c : Control) (cs : List Control)
      → manual_tasks results attestations (c ∷ cs) ≡ (
          if asks_human c
          then task_for results attestations c ∷ manual_tasks results attestations cs
          else manual_tasks results attestations cs)
  unfolding manual_tasks
  manual_tasks-cons c cs = rw (asks-is_manual c) (ground arith)

  -- Every answer of the scan and every attestation of the catalog's manual controls, counted.
  abbrev pub IsQueue : List Control → List Task → Type 0
  IsQueue cs ts =
      (map (λ t. t.control) ts ≡ filter asks_human cs)
      × Every IsTrueTask ts
      × ((task_counts ts).total ≡ count_if asks_human cs)
      × ((task_counts ts).answered ≡ count_if (λ c. asks_human c && is_answered c) cs)
      × ((task_counts ts).scan_failed
          ≡ count_if (λ c. asks_human c && not (is_answered c) && is_proven_fail c) cs)
      × ((task_counts ts).pending
          ≡ count_if (λ c. asks_human c && not (is_answered c) && not (is_proven_fail c)) cs)

  task_for-status :
      (c : Control)
      → (is_status attested (task_for results attestations c).status ≡ is_answered c)
        × (is_status TaskStatus.scan_failed (task_for results attestations c).status
            ≡ (not (is_answered c) && is_proven_fail c))
        × (is_status TaskStatus.pending (task_for results attestations c).status
            ≡ (not (is_answered c) && not (is_proven_fail c)))
  unfolding task_for
  task_for-status c = let e = is_proven-is_confirmed c in ground arith

  IsQueue-task :
      (c : Control) (cs : List Control) (ts : List Task)
      → asks_human c ≡ true
      → IsQueue cs ts
      → IsQueue (c ∷ cs) (task_for results attestations c ∷ ts)
  unfolding task_counts task_for
  IsQueue-task c cs ts asks (controls, true_tasks, total, answered, failed, pending) =
      let one = task_for-IsTrueTask c in
      let (a, f, p) = task_for-status c in
      (
        rw asks (ap (λ ds. c ∷ ds) controls),
        (one, true_tasks),
        rw asks (ap suc total),
        rw (asks, a) (ground arith),
        rw (asks, f) (ground arith),
        rw (asks, p) (ground arith),
      )

  IsQueue-nil : IsQueue [] (manual_tasks results attestations [])
  unfolding manual_tasks task_counts
  IsQueue-nil = (refl, tt, refl, refl, refl, refl)

  IsQueue-skip :
      (c : Control) (cs : List Control) (ts : List Task)
      → asks_human c ≡ false
      → IsQueue cs ts
      → IsQueue (c ∷ cs) ts
  IsQueue-skip c cs ts asks h = rw asks h

-- The attestation queue has one task for each control of the catalog that only a human answers, in
-- the catalog's order and no other; a task shows the control's stored result and its attestation,
-- and is closed by the scan alone exactly where the result is a confirmed fail and there is no
-- attestation. The counts are those of the catalog: the answered controls, and of the others the
-- confirmed fails and the rest.
pub manual_tasks-IsQueue :
    (results : Dict ControlResult) (attestations : Attestations) (cs : List Control)
    → IsQueue results attestations cs (manual_tasks results attestations cs)
manual_tasks-IsQueue results attestations [] = IsQueue-nil results attestations
manual_tasks-IsQueue results attestations (c ∷ cs) =
    let rest = manual_tasks-IsQueue results attestations cs in
    let ts = manual_tasks results attestations cs in
    let one = manual_tasks-cons results attestations c cs in
    elim (Bool-cases (asks_human c)) [
      | inl asks ↦
          let e : manual_tasks results attestations (c ∷ cs)
              ≡ task_for results attestations c ∷ ts =
            rw asks at one in
          rw e (IsQueue-task results attestations c cs ts asks rest)
      | inr asks ↦
          let e : manual_tasks results attestations (c ∷ cs) ≡ ts = rw asks at one in
          rw e (IsQueue-skip results attestations c cs ts asks rest)
    ]
