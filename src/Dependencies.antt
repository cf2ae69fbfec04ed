-- ===== src/Dependencies.antt =====
-- app/services/dependency_scanner.py: the known vulnerabilities of the components, their remediation
-- deadlines, and the verdict for V15.2.1. What OSV.dev answers comes from outside and is an argument.
-- The parsers of the manifests are left out.
pub mod Dedupe
pub mod Policy
mod Examples
use Prim.Native.Char.{code}
use control_gate_backend.Prelude.{
  ℕ, String, Bool, true, false, not, ◌+◌, ◌*◌, ◌-◌, ◌&&◌, ◌||◌, Option, none, some, List, [], ◌∷◌,
  ◌++◌, map, ltb, leb, ◌==◌, if◌then◌else◌, any, filter, length, str_eq, get_or, is_truthy,
}
use control_gate_backend.Prelude.Texts.{codes_of, same_text, lower}
use control_gate_backend.Prelude.Sort.{sort_by}

pub record DependencyRef : Type 0 where
  pub name : String
  pub version : String
  pub ecosystem : String
  pub source_file : String

-- The keys of `REMEDIATION_SLA_DAYS`.
pub data Severity : Type 0 where
  critical high moderate low : Severity

-- `REMEDIATION_SLA_DAYS`
abbrev pub sla_days_of : Severity → ℕ
sla_days_of Severity.critical = 7
sla_days_of Severity.high = 30
sla_days_of Severity.moderate = 90
sla_days_of Severity.low = 180

-- Whole days from a publication to now, which may lie ahead.
pub data Days : Type 0 where
  past future : ℕ → Days

pub record DependencyFinding : Type 0 where
  pub package_name : String
  pub version : String
  pub vuln_id : String
  pub severity : Severity
  pub days_since_published : Option Days
  pub sla_days : ℕ
  pub breached_sla : Bool

-- equality of the keys `(name.lower(), version, ecosystem)`, on ASCII names
pub has_same_key : DependencyRef → DependencyRef → Bool
has_same_key r s =
    same_text (lower (codes_of r.name)) (lower (codes_of s.name))
    && str_eq r.version s.version
    && str_eq r.ecosystem s.ecosystem

-- The loop that de-duplicates, with the refs whose keys it has seen.
pub dedupe : List DependencyRef → List DependencyRef → List DependencyRef
unfolding has_same_key
dedupe seen [] = []
dedupe seen (r ∷ rs) =
    let skip = dedupe seen rs in
    let keep = r ∷ dedupe (r ∷ seen) rs in if any (has_same_key r) seen then skip else keep

-- One entry of a vulnerability's `severity` list.
pub record SeverityEntry : Type 0 where
  pub kind : Option String
  pub score : Option String

-- What the scanner reads of one OSV record, with the days since its publication.
pub record Vuln : Type 0 where
  pub id : Option String
  pub database_severity : Option String
  pub severity_entries : List SeverityEntry
  pub days_since : Option Days

-- `sev.upper() in REMEDIATION_SLA_DAYS`, and the key
severity_named : Option String → Option Severity
severity_named none = none
severity_named (some sev) =
    if same_text (lower (codes_of sev)) (lower (codes_of "CRITICAL"))
    then some Severity.critical
    else if same_text (lower (codes_of sev)) (lower (codes_of "HIGH"))
    then some Severity.high
    else if same_text (lower (codes_of sev)) (lower (codes_of "MODERATE"))
    then some Severity.moderate
    else if same_text (lower (codes_of sev)) (lower (codes_of "LOW"))
    then some Severity.low
    else none

-- The whole part of `float(score_str)`, for a text of ASCII digits with at most one dot.
whole_part : String → ℕ → Bool → Bool → Option ℕ
whole_part String.[] n has_dot has_digit = if has_digit then some n else none
whole_part (String.◌∷◌ c s) n has_dot has_digit =
    let after_dot = whole_part s n true has_digit in
    let fraction = whole_part s n true true in
    let whole = whole_part s (n * 10 + (code c - b'0')) false true in
    if code c == b'.'
    then if has_dot then none else after_dot
    else if leb b'0' (code c) && leb (code c) b'9'
    then if has_dot then fraction else whole
    else none

-- The bands of a bare score.
abbrev band_of : ℕ → Severity
band_of n =
    if leb 9 n
    then Severity.critical
    else if leb 7 n
    then Severity.high
    else if leb 4 n
    then Severity.moderate
    else Severity.low

abbrev is_kind : String → Option String → Bool
is_kind k none = false
is_kind k (some j) = str_eq j k

entry_severity : SeverityEntry → Option Severity
unfolding whole_part
entry_severity e =
    if is_kind "CVSS_V3" e.kind && is_truthy e.score
    then elim (whole_part (get_or e.score "") 0 false false) [
      | none ↦ none
      | some n ↦ some (band_of n)
    ]
    else none

first_severity : List SeverityEntry → Severity
unfolding entry_severity
first_severity [] = Severity.moderate
first_severity (e ∷ es) = elim (entry_severity e) [ none ↦ first_severity es | some s ↦ s ]

-- `_extract_severity`
pub extract_severity : Vuln → Severity
unfolding severity_named first_severity
extract_severity v = elim (severity_named v.database_severity) [
  | none ↦ first_severity v.severity_entries
  | some s ↦ s
]

abbrev pub exceeds : Option Days → ℕ → Bool
exceeds none sla = false
exceeds (some (past n)) sla = ltb sla n
exceeds (some (future n)) sla = false

-- `_to_finding`, without the texts and the CVE ids
pub to_finding : DependencyRef → Vuln → DependencyFinding
unfolding extract_severity
to_finding ref vuln =
    let severity = extract_severity vuln in
    record {
      package_name = ref.name;
      version = ref.version;
      vuln_id = get_or vuln.id "UNKNOWN";
      severity = severity;
      days_since_published = vuln.days_since;
      sla_days = sla_days_of severity;
      breached_sla = exceeds vuln.days_since (sla_days_of severity);
    }

-- What one query adds: a failed query is logged and adds nothing.
abbrev pub vulns_of : Option (List Vuln) → List Vuln
vulns_of none = []
vulns_of (some vs) = vs

-- `query_osv`; `gather` keeps the order of the refs.
pub query_osv : (DependencyRef → Option (List Vuln)) → List DependencyRef → List DependencyFinding
unfolding to_finding
query_osv ask [] = []
query_osv ask (ref ∷ refs) = map (λ v. to_finding ref v) (vulns_of (ask ref)) ++ query_osv ask refs

pub data Verdict : Type 0 where
  pass fail manual_review : Verdict

-- The note of a verdict, by the values put into it.
pub data Note : Type 0 where
  none_known : Note
  breached : ℕ → ℕ → DependencyFinding → Note
  within_window : ℕ → Note

pub record Evaluation : Type 0 where
  pub verdict : Verdict
  pub note : Note

evaluate_breached : ℕ → ℕ → List DependencyFinding → Evaluation
evaluate_breached total count [] = record {
  verdict = Verdict.manual_review;
  note = within_window total;
}
evaluate_breached total count (worst ∷ _) = record {
  verdict = Verdict.fail;
  note = breached count total worst;
}

-- `evaluate_v15_2_1`
pub evaluate_v15_2_1 : List DependencyFinding → Evaluation
unfolding evaluate_breached
evaluate_v15_2_1 [] = record { verdict = Verdict.pass; note = none_known }
evaluate_v15_2_1 (f ∷ fs) =
    let late = filter (λ g. g.breached_sla) (f ∷ fs) in
    evaluate_breached (length (f ∷ fs)) (length late) (sort_by (λ g. sla_days_of g.severity) late)
