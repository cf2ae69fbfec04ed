-- ===== src/Asvs/Results.antt =====
-- app/services/asvs_service.py: the results of a scan, computed from the stored documents and
-- written back. The document store is the list of documents of each collection.
pub mod Stored
use control_gate_backend.Prelude.{
  String, Bool, ◌&&◌, Option, none, some, List, [], ◌∷◌, if◌then◌else◌, is_truthy, str_eq,
}
use control_gate_backend.Prelude.Dict.{Dict, insert}
use control_gate_backend.Asvs.Types.{
  Attestation, Attestations, Control, ControlResult, QueryRule, Summary,
}
use control_gate_backend.Asvs.Static.{RuleIndex, rule_index}
use control_gate_backend.Asvs.Compute.{compute_result}

pub record ScanDocument : Type 0 where
  pub scan_id : String
  pub user_id : Option String
  pub summary : Option Summary

pub record AttestationDocument : Type 0 where
  pub user_id : String
  pub scan_id : String
  pub control_id : String
  pub attestation : Attestation

-- A document of `asvs_results`, by the fields of its upsert's filter.
pub record ResultDocument : Type 0 where
  pub scan_id : String
  pub control_id : String
  pub result : ControlResult

pub record Database : Type 0 where
  pub scans : List ScanDocument
  pub attestations : List AttestationDocument
  pub asvs_controls : List Control
  pub asvs_results : List ResultDocument

-- `find_one({"scan_id": scan_id})`
pub find_scan : String → List ScanDocument → Option ScanDocument
find_scan scan_id [] = none
find_scan scan_id (d ∷ ds) = if str_eq d.scan_id scan_id then some d else find_scan scan_id ds

-- `a or b` on texts
abbrev pub or_text : Option String → Option String → Option String
or_text a b = if is_truthy a then a else b

abbrev pub scan_user : Option ScanDocument → Option String
scan_user none = none
scan_user (some d) = d.user_id

abbrev pub scan_summary : Option ScanDocument → Option Summary
scan_summary none = none
scan_summary (some d) = d.summary

abbrev text_or_empty : Option String → String
text_or_empty none = ""
text_or_empty (some s) = s

-- `str(scan.get("user_id") or user.get("id") or "")`
pub attestation_user : Option ScanDocument → Option String → String
attestation_user scan user = text_or_empty (or_text (scan_user scan) (or_text user (some "")))

-- The attestations of one user for one scan, by control.
pub attestations_for : String → String → List AttestationDocument → Attestations → Attestations
attestations_for user_id scan_id [] found = found
attestations_for user_id scan_id (d ∷ ds) found = attestations_for user_id scan_id ds (
    if str_eq d.user_id user_id && str_eq d.scan_id scan_id
    then insert d.control_id d.attestation found
    else found)

-- `results[control["control_id"]] = self._compute_result(…)`
compute_all :
    RuleIndex
    → Option Summary
    → Attestations
    → String
    → List Control
    → Dict ControlResult
    → Dict ControlResult
compute_all index summary attestations scan_id [] results = results
compute_all index summary attestations scan_id (c ∷ cs) results =
    compute_all index summary attestations scan_id cs
      (insert c.control_id (compute_result index c summary attestations scan_id) results)

-- `update_one({"scan_id": …, "control_id": …}, {"$set": result}, upsert=True)`
upsert : String → String → ControlResult → List ResultDocument → List ResultDocument
upsert scan_id control_id result [] =
    record { scan_id = scan_id; control_id = control_id; result = result } ∷ []
upsert scan_id control_id result (d ∷ ds) =
    if str_eq d.scan_id scan_id && str_eq d.control_id control_id
    then record d { result = result } ∷ ds
    else d ∷ upsert scan_id control_id result ds

upsert_all : String → Dict ControlResult → List ResultDocument → List ResultDocument
unfolding upsert
upsert_all scan_id [] docs = docs
upsert_all scan_id ((control_id, result) ∷ rest) docs =
    upsert_all scan_id rest (upsert scan_id control_id result docs)

pub results_of : List QueryRule → String → Option String → Database → Dict ControlResult
unfolding compute_all find_scan attestation_user attestations_for
results_of rules scan_id user db =
    let scan = find_scan scan_id db.scans in
    compute_all (rule_index rules) (scan_summary scan)
      (attestations_for (attestation_user scan user) scan_id db.attestations []) scan_id
      db.asvs_controls []

-- `build_results_for_scan`: the results, and the store after they are written
pub build_results_for_scan :
    List QueryRule → String → Option String → Database → Dict ControlResult × Database
unfolding results_of upsert_all
build_results_for_scan rules scan_id user db =
    let results = results_of rules scan_id user db in
    (results, record db { asvs_results = upsert_all scan_id results db.asvs_results })
