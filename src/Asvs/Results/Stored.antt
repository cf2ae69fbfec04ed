-- ===== src/Asvs/Results/Stored.antt =====
-- app/services/asvs_service.py: what a rebuild of a scan's results leaves in the store.
use control_gate_backend.Prelude.{
  String, false, ◌≡◌, refl, ◌&&◌, Option, none, some, List, [], ◌∷◌, arith, if◌then◌else◌, str_eq,
  eq_iff, ◌∙◌,
}
use control_gate_backend.Prelude.Dict.{
  Dict, lookup, insert, lookup-insert, HasDistinctKeys, insert-HasDistinctKeys,
}
use control_gate_backend.Asvs.Types.{Attestations, Control, ControlResult, QueryRule, Summary}
use control_gate_backend.Asvs.Static.{RuleIndex, rule_index}
use control_gate_backend.Asvs.Compute.{compute_result}
use control_gate_backend.Asvs.Results.{
  ResultDocument, Database, find_scan, scan_summary, attestation_user, attestations_for,
  compute_all, upsert, upsert_all, results_of, build_results_for_scan,
}

-- The stored result of a control in a scan.
abbrev pub find_result : String → String → List ResultDocument → Option ControlResult
find_result scan_id control_id [] = none
find_result scan_id control_id (d ∷ ds) =
    if str_eq d.scan_id scan_id && str_eq d.control_id control_id
    then some d.result
    else find_result scan_id control_id ds

find_result-upsert :
    (scan scan' c c' : String) (r : ControlResult) (docs : List ResultDocument)
    → find_result scan' c' (upsert scan c r docs)
      ≡ (if str_eq scan scan' && str_eq c c' then some r else find_result scan' c' docs)
unfolding upsert
find_result-upsert scan scan' c c' r [] = refl
find_result-upsert scan scan' c c' r (d ∷ ds) = ground (
  arith,
  eq_iff scan scan',
  eq_iff c c',
  eq_iff d.scan_id scan,
  eq_iff d.scan_id scan',
  eq_iff d.control_id c,
  eq_iff d.control_id c',
  find_result-upsert scan scan' c c' r ds,
)

-- A rebuild of one scan leaves the results of every other scan alone.
upsert_all_other :
    (scan scan' c : String) (items : Dict ControlResult) (docs : List ResultDocument)
    → str_eq scan scan' ≡ false
    → find_result scan' c (upsert_all scan items docs) ≡ find_result scan' c docs
unfolding upsert_all
upsert_all_other scan scan' c [] docs ne = refl
upsert_all_other scan scan' c ((k, r) ∷ items) docs ne = ground (
  arith,
  upsert_all_other scan scan' c items (upsert scan k r docs) ne,
  find_result-upsert scan scan' k c r docs,
)

abbrev or_stored : Option ControlResult → Option ControlResult → Option ControlResult
or_stored none old = old
or_stored (some r) old = some r

upsert_all_same :
    (scan c : String) (items : Dict ControlResult) (docs : List ResultDocument)
    → HasDistinctKeys items
    → find_result scan c (upsert_all scan items docs)
      ≡ or_stored (lookup c items) (find_result scan c docs)
unfolding upsert_all
upsert_all_same scan c [] docs h = refl
upsert_all_same scan c ((k, r) ∷ items) docs (fresh, h) = ground (
  arith,
  eq_iff k c,
  eq_iff scan scan,
  upsert_all_same scan c items (upsert scan k r docs) h,
  find_result-upsert scan scan k c r docs,
)

-- No control of the list has the id `k`.
abbrev pub IsFresh : String → List Control → Type 0
IsFresh k [] = Unit
IsFresh k (c ∷ cs) = (str_eq c.control_id k ≡ false) × IsFresh k cs

-- The catalog lists every control id once.
abbrev pub HasDistinctIds : List Control → Type 0
HasDistinctIds [] = Unit
HasDistinctIds (c ∷ cs) = IsFresh c.control_id cs × HasDistinctIds cs

abbrev pub AllControls : (Control → Type 0) → List Control → Type 0
AllControls P [] = Unit
AllControls P (c ∷ cs) = P c × AllControls P cs

AllControls-map :
    (P Q : Control → Type 0)
    → ((c : Control) → P c → Q c)
    → (cs : List Control) → AllControls P cs
    → AllControls Q cs
AllControls-map P Q f [] h = tt
AllControls-map P Q f (c ∷ cs) (p, h) = (f c p, AllControls-map P Q f cs h)

module _ (index : RuleIndex) (s : Option Summary) (atts : Attestations) (scan : String) where
  compute_all-HasDistinctKeys :
      (cs : List Control) (d : Dict ControlResult)
      → HasDistinctKeys d
      → HasDistinctKeys (compute_all index s atts scan cs d)
  unfolding compute_all
  compute_all-HasDistinctKeys [] d h = h
  compute_all-HasDistinctKeys (c ∷ cs) d h =
      compute_all-HasDistinctKeys cs (insert c.control_id (compute_result index c s atts scan) d)
        (insert-HasDistinctKeys c.control_id (compute_result index c s atts scan) d h)

  -- The last control of an id decides its entry.
  abbrev last_result : String → List Control → Option ControlResult → Option ControlResult
  last_result k [] r = r
  last_result k (c ∷ cs) r =
      last_result k cs
        (if str_eq c.control_id k then some (compute_result index c s atts scan) else r)

  lookup-compute_all :
      (k : String) (cs : List Control) (d : Dict ControlResult)
      → lookup k (compute_all index s atts scan cs d) ≡ last_result k cs (lookup k d)
  unfolding compute_all
  lookup-compute_all k [] d = refl
  lookup-compute_all k (c ∷ cs) d =
      let r = compute_result index c s atts scan in
      rw (lookup-compute_all k cs (insert c.control_id r d), lookup-insert c.control_id k r d)

  last_result_fresh :
      (k : String) (cs : List Control) (r : Option ControlResult)
      → IsFresh k cs
      → last_result k cs r ≡ r
  last_result_fresh k [] r h = refl
  last_result_fresh k (c ∷ cs) r (ne, h) = rw ne (last_result_fresh k cs r h)

  -- With distinct ids every control's own result is the last of its id.
  last_result_own :
      (cs : List Control) (before : String → Option ControlResult)
      → HasDistinctIds cs
      → AllControls
          (λ c.
            last_result c.control_id cs (before c.control_id)
            ≡ some (compute_result index c s atts scan))
          cs
  last_result_own [] before h = tt
  last_result_own (c ∷ cs) before (fresh, h) = (
    ground (
      arith,
      eq_iff c.control_id c.control_id,
      last_result_fresh c.control_id cs (some (compute_result index c s atts scan)) fresh,
    ),
    last_result_own cs
        (λ k. if str_eq c.control_id k then some (compute_result index c s atts scan) else before k)
        h,
  )

-- What `build_results_for_scan` computes for one control, from the documents of the store.
abbrev pub result_for : List QueryRule → String → Option String → Database → Control → ControlResult
result_for rules scan_id user db control =
    let scan = find_scan scan_id db.scans in
    compute_result (rule_index rules) control (scan_summary scan)
      (attestations_for (attestation_user scan user) scan_id db.attestations []) scan_id

-- After a rebuild the store holds, for every control of the catalog, the result that is computed
-- from the scan's summary and from the attestations of the scan's owner, and the same result is
-- returned. The catalog lists every id once.
pub build_results-stored :
    (rules : List QueryRule) (scan_id : String) (user : Option String) (db : Database)
    → HasDistinctIds db.asvs_controls
    → let (results, db') = build_results_for_scan rules scan_id user db in
      AllControls
        (λ c.
          (lookup c.control_id results ≡ some (result_for rules scan_id user db c))
          × (find_result scan_id c.control_id db'.asvs_results
              ≡ some (result_for rules scan_id user db c)))
        db.asvs_controls
unfolding build_results_for_scan
build_results-stored rules scan_id user db distinct =
    AllControls-map _ _ both db.asvs_controls
      (last_result_own index s atts scan_id db.asvs_controls (λ k. none) distinct)
  where
    index : RuleIndex
    index = rule_index rules

    s : Option Summary
    s = scan_summary (find_scan scan_id db.scans)

    atts : Attestations
    atts =
        attestations_for (attestation_user (find_scan scan_id db.scans) user) scan_id
          db.attestations []

    both :
        (c : Control)
        → last_result index s atts scan_id c.control_id db.asvs_controls none
          ≡ some (compute_result index c s atts scan_id)
        → (lookup c.control_id (compute_all index s atts scan_id db.asvs_controls [])
            ≡ some (compute_result index c s atts scan_id))
          × (find_result scan_id c.control_id (
                upsert_all scan_id
                  (compute_all index s atts scan_id db.asvs_controls [])
                  db.asvs_results)
              ≡ some (compute_result index c s atts scan_id))
    both c e =
        let found = lookup-compute_all index s atts scan_id c.control_id db.asvs_controls [] ∙ e in
        (
          found,
          rw (
            upsert_all_same scan_id c.control_id
                (compute_all index s atts scan_id db.asvs_controls []) db.asvs_results
                (compute_all-HasDistinctKeys index s atts scan_id db.asvs_controls [] tt),
            found,
          ),
        )

-- A rebuild changes neither the results of other scans nor any other collection.
pub build_results_frame :
    (rules : List QueryRule) (scan_id other control_id : String) (user : Option String)
    (db : Database)
    → str_eq scan_id other ≡ false
    → let db' = (build_results_for_scan rules scan_id user db).1 in
      (find_result other control_id db'.asvs_results ≡ find_result other control_id db.asvs_results)
      × (db'.scans ≡ db.scans)
      × (db'.attestations ≡ db.attestations)
      × (db'.asvs_controls ≡ db.asvs_controls)
unfolding build_results_for_scan
build_results_frame rules scan_id other control_id user db ne = (
  upsert_all_other scan_id other control_id (results_of rules scan_id user db) db.asvs_results ne,
  refl,
  refl,
  refl,
)
