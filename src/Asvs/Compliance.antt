-- ===== src/Asvs/Compliance.antt =====
-- app/services/asvs_service.py: the compliance summary and the attestation work queue, computed from
-- the results of a scan. The percentage is Python's `round(passed / total * 100)`, on binary floats
-- that are not modelled: it is the argument `percent`.
pub mod Counts
pub mod Levels
pub mod Queue
use Prim.Native.Char.{code}
use control_gate_backend.Prelude.{
  ℕ, String, Bool, true, false, not, ◌+◌, ◌-◌, ◌*◌, ◌&&◌, Option, none, some, List, [], ◌∷◌, ◌++◌,
  map, leb, ◌==◌, if◌then◌else◌, get_or, is_some, str_eq, filter, count_if, length,
}
use control_gate_backend.Prelude.Dict.{Dict, lookup, insert}
use control_gate_backend.Prelude.Sort.{sort_by}
use control_gate_backend.Asvs.Types.{
  Verdict, verdict_code, is_verdict, Basis, Strategy, manual_attestation, Attestation, Attestations,
  Control, ControlResult,
}

abbrev result_verdict : Option ControlResult → Verdict
result_verdict none = Verdict.not_tested
result_verdict (some r) = r.verdict

-- `results.get(control_id, {}).get("verdict", "not_tested")`
pub verdict_in : Dict ControlResult → Control → Verdict
verdict_in results c = result_verdict (lookup c.control_id results)

-- `{k: 0 for k in _VERDICT_KEYS}`
abbrev zero_counts : List (Verdict × ℕ)
zero_counts =
    (Verdict.pass, 0)
    ∷ (Verdict.fail, 0)
    ∷ (Verdict.n_a, 0)
    ∷ (Verdict.manual_review, 0)
    ∷ (Verdict.not_tested, 0)
    ∷ []

-- `counts[verdict] = counts.get(verdict, 0) + 1`
bump : Verdict → List (Verdict × ℕ) → List (Verdict × ℕ)
bump v [] = (v, 1) ∷ []
bump v ((w, n) ∷ rest) =
    if verdict_code w == verdict_code v then (w, n + 1) ∷ rest else (w, n) ∷ bump v rest

count_all : Dict ControlResult → List Control → List (Verdict × ℕ) → List (Verdict × ℕ)
unfolding bump verdict_in
count_all results [] counts = counts
count_all results (c ∷ cs) counts = count_all results cs (bump (verdict_in results c) counts)

-- The counts of one chapter.
pub chapter_counts : Dict ControlResult → List Control → List (Verdict × ℕ)
unfolding count_all
chapter_counts results controls = count_all results controls zero_counts

-- `by_chapter[c["chapter_id"]].append(c)`
group : List Control → Dict (List Control) → Dict (List Control)
group [] by_chapter = by_chapter
group (c ∷ cs) by_chapter =
    group cs (insert c.chapter_id (get_or (lookup c.chapter_id by_chapter) [] ++ c ∷ []) by_chapter)

abbrev digits_value : ℕ → String → ℕ
digits_value n String.[] = n
digits_value n (String.◌∷◌ c s) = digits_value (n * 10 + (code c - b'0')) s

-- `int(chapter_id[1:])`, of an id that is a letter and decimal digits
chapter_number : String → ℕ
chapter_number String.[] = 0
chapter_number (String.◌∷◌ _ s) = digits_value 0 s

pub record Chapter : Type 0 where
  pub chapter_id : String
  pub control_count : ℕ
  pub counts : List (Verdict × ℕ)

-- The chapters of the summary, each with its number of controls and its counts.
pub chapters : Dict ControlResult → List Control → List Chapter
unfolding group chapter_counts chapter_number
chapters results controls =
    map
      (λ (e : String × List Control). record {
        chapter_id = e.0;
        control_count = length e.1;
        counts = chapter_counts results e.1;
      })
      (sort_by (λ (e : String × List Control). chapter_number e.0) (group controls []))

-- `_LEVEL_ORDER.get(level, missing)`
abbrev level_order : String → ℕ → ℕ
level_order level missing =
    if str_eq level "L1"
    then 1
    else if str_eq level "L2"
    then 2
    else if str_eq level "L3"
    then 3
    else missing

-- `_level_includes`
pub level_includes : String → String → Bool
level_includes control_level target_level =
    leb (level_order control_level 99) (level_order target_level 0)

pub record LevelScore : Type 0 where
  pub total : ℕ
  pub passed : ℕ
  pub pct : ℕ

abbrev passes : Dict ControlResult → Control → Bool
passes results c = is_verdict Verdict.pass (some (verdict_in results c))

module _ (percent : ℕ → ℕ → ℕ) where
  score : Dict ControlResult → List Control → LevelScore
  score results applicable =
      let total = length applicable in
      let passed = length (filter (passes results) applicable) in
      record {
        total = total;
        passed = passed;
        pct = if total == 0 then 0 else percent passed total;
      }

  -- The score of one level.
  pub level_score : Dict ControlResult → List Control → String → LevelScore
  unfolding score level_includes verdict_in
  level_score results controls level =
      score results (filter (λ c. level_includes c.level level) controls)

  -- The score of the whole catalog.
  pub overall_score : Dict ControlResult → List Control → LevelScore
  unfolding score verdict_in
  overall_score results controls = score results controls

-- One entry of the attestation queue.
pub data TaskStatus : Type 0 where
  attested scan_failed pending : TaskStatus

pub record Task : Type 0 where
  pub control : Control
  pub result : Option ControlResult
  pub attestation : Option Attestation
  pub requires_attestation : Bool
  pub status : TaskStatus

abbrev is_confirmed_basis : Option Basis → Bool
is_confirmed_basis (some Basis.confirmed) = true
is_confirmed_basis _ = false

-- `result.get("verdict") == "fail" and result.get("fail_basis") == "confirmed"`
pub is_confirmed_fail : Option ControlResult → Bool
is_confirmed_fail none = false
is_confirmed_fail (some r) =
    is_verdict Verdict.fail (some r.verdict) && is_confirmed_basis r.fail_basis

task_for : Dict ControlResult → Attestations → Control → Task
unfolding is_confirmed_fail
task_for results attestations c =
    let result = lookup c.control_id results in
    let attestation = lookup c.control_id attestations in
    let decisive_scan_fail = is_confirmed_fail result && not (is_some attestation) in
    record {
      control = c;
      result = result;
      attestation = attestation;
      requires_attestation = not decisive_scan_fail;
      status =
          if is_some attestation
          then attested
          else if decisive_scan_fail
          then scan_failed
          else pending;
    }

abbrev is_manual : Strategy → Bool
is_manual manual_attestation = true
is_manual _ = false

abbrev is_status : TaskStatus → TaskStatus → Bool
is_status attested attested = true
is_status scan_failed scan_failed = true
is_status pending pending = true
is_status _ _ = false

pub record TaskCounts : Type 0 where
  pub total : ℕ
  pub pending : ℕ
  pub answered : ℕ
  pub scan_failed : ℕ

-- `list_manual_attestation_tasks`, from the results and the owner's attestations
pub manual_tasks : Dict ControlResult → Attestations → List Control → List Task
unfolding task_for
manual_tasks results attestations controls =
    map (task_for results attestations) (filter (λ c. is_manual c.detection_strategy) controls)

pub task_counts : List Task → TaskCounts
task_counts tasks = record {
  total = length tasks;
  pending = count_if (λ t. is_status TaskStatus.pending t.status) tasks;
  answered = count_if (λ t. is_status attested t.status) tasks;
  scan_failed = count_if (λ t. is_status TaskStatus.scan_failed t.status) tasks;
}
