-- ===== src/Asvs/Advisory.antt =====
-- app/services/asvs_service.py: the dependency records, as they are read for V15.2.1 and for the
-- DTLS race control. The two regular expressions are matched on the code points of ASCII text.
pub mod Laws
use control_gate_backend.Prelude.{
  ℕ, String, Bool, true, false, not, ◌+◌, ◌&&◌, ◌||◌, Option, none, some, List, [], ◌∷◌, ◌++◌, map,
  leb, ◌==◌, if◌then◌else◌, get_or, is_cons, str_eq, filter, take, max_or,
}
use control_gate_backend.Prelude.Texts.{codes_of, lower_code, is_word_code}
use control_gate_backend.Asvs.Types.{
  Verdict, is_verdict, Basis, Message, DependencyRecord, DependencyControl, Attestations, Evidence,
  ControlResult, Summary, contents,
}
use control_gate_backend.Asvs.Evidence.{empty_evidence, untested, quoted_note}
use control_gate_backend.Asvs.Config.{decided, basis_if_negative}
use control_gate_backend.Asvs.Attest.{merge_attestation}

-- `\b`, where the character before did not belong to a word
at_word_end : List ℕ → Bool
at_word_end [] = true
at_word_end (c ∷ _) = not (is_word_code c)

-- What follows a word, letter case aside, at the start of a text.
after : List ℕ → List ℕ → Option (List ℕ)
after [] text = some text
after (w ∷ ws) [] = none
after (w ∷ ws) (c ∷ text) = let rest = after ws text in if lower_code c == w then rest else none

ends_word : Option (List ℕ) → Bool
unfolding at_word_end
ends_word none = false
ends_word (some rest) = at_word_end rest

-- `\s` on ASCII, or a dash
is_separator : ℕ → Bool
is_separator c = c == b'-' || c == b' ' || (leb 9 c && leb c 13) || (leb 28 c && leb c 31)

-- `[\s-]?`
skip_separator : List ℕ → List ℕ
unfolding is_separator
skip_separator [] = []
skip_separator (c ∷ text) = if is_separator c then text else c ∷ text

ends_race : Option (List ℕ) → Bool
unfolding ends_word after skip_separator
ends_race none = false
ends_race (some rest) =
    ends_word (after (codes_of "condition") (skip_separator rest))
    || ends_word (after (codes_of "condition") rest)
    || ends_word (some rest)

-- `(clienthello|dtls)\b` at one place
handshake_here : List ℕ → Bool
unfolding ends_word after
handshake_here text =
    ends_word (after (codes_of "clienthello") text) || ends_word (after (codes_of "dtls") text)

-- `race(?:[\s-]?condition)?\b` at one place
race_here : List ℕ → Bool
unfolding ends_race after
race_here text = ends_race (after (codes_of "race") text)

-- `re.search(r"\b…")`: the pattern begins with a letter, so `\b` asks that no word character stand
-- before it.
search_from : (List ℕ → Bool) → Bool → List ℕ → Bool
search_from here inside [] = not inside && here []
search_from here inside (c ∷ text) =
    (not inside && here (c ∷ text)) || search_from here (is_word_code c) text

abbrev advisory_text : DependencyRecord → List ℕ
advisory_text f = codes_of f.summary ++ b' ' ∷ codes_of f.vuln_id

-- both regular expressions find a match in the record's text
pub names_handshake_race : DependencyRecord → Bool
unfolding search_from handshake_here race_here
names_handshake_race f =
    search_from handshake_here false (advisory_text f)
    && search_from race_here false (advisory_text f)

advisory_item : DependencyRecord → Evidence
advisory_item f = record empty_evidence {
  note = some (Message.advisory f.package_name f.version f.vuln_id f.summary);
}

fail_by_advisory : String → String → List DependencyRecord → ControlResult → ControlResult
unfolding advisory_item
fail_by_advisory control_id scan_id [] otherwise = otherwise
fail_by_advisory control_id scan_id (worst ∷ rest) otherwise =
    record (decided control_id scan_id Verdict.fail (some 60) (map advisory_item (worst ∷ rest))
      none (some Basis.confirmed)) {
        llm_explanation =
            some (Message.race_advisory worst.package_name worst.version worst.vuln_id);
      }

-- `_merge_attestation_or_dependency_finding`
pub merge_attestation_or_dependency_finding :
    String → Option Summary → Attestations → String → ControlResult
unfolding fail_by_advisory
merge_attestation_or_dependency_finding control_id summary attestations scan_id =
    fail_by_advisory control_id scan_id
      (filter names_handshake_race (contents summary).dependency_findings)
      (merge_attestation control_id attestations scan_id)

known_scores : List (Option ℕ) → List ℕ
known_scores [] = []
known_scores (none ∷ rest) = known_scores rest
known_scores (some n ∷ rest) = n ∷ known_scores rest

highest : List ℕ → Option ℕ
highest [] = none
highest (x ∷ xs) = some (max_or 0 (x ∷ xs))

-- `_dep_evidence`
dependency_item : DependencyRecord → Evidence
unfolding known_scores highest
dependency_item f = record empty_evidence {
  note = some (Message.vulnerable_package f.package_name f.version f.vuln_id f.severity);
  severity = some f.severity;
  cvss_score = highest (known_scores f.cvss_scores);
}

dependency_pass_basis : Verdict → Bool → Option Basis
dependency_pass_basis verdict has_evidence =
    if is_verdict Verdict.pass (some verdict)
    then some (if has_evidence then Basis.confirmed else Basis.no_findings)
    else none

dependency_result :
    String → String → List DependencyRecord → Verdict → Option String → ControlResult
unfolding dependency_item dependency_pass_basis
dependency_result control_id scan_id records verdict note =
    let evidence = map dependency_item (take 20 records) in
    record (decided control_id scan_id verdict (some (if is_cons records then 75 else 90)) evidence
      (dependency_pass_basis verdict (is_cons evidence)) (basis_if_negative verdict)) {
        llm_explanation = quoted_note note;
        reason = if is_cons evidence then none else quoted_note note;
      }

dependency_or_untested :
    String → String → List DependencyRecord → Option DependencyControl → ControlResult
unfolding dependency_result
dependency_or_untested control_id scan_id records none =
    untested control_id scan_id (some Message.no_dependency_result)
dependency_or_untested control_id scan_id records (some c) =
    dependency_result control_id scan_id records (get_or c.verdict Verdict.not_tested) c.note

-- `_merge_dependency`
pub merge_dependency : String → Option Summary → String → ControlResult
unfolding dependency_or_untested
merge_dependency control_id summary scan_id =
    let s = contents summary in
    if str_eq control_id "V15.2.1"
    then dependency_or_untested control_id scan_id s.dependency_findings s.dependency_control_result
    else untested control_id scan_id (some Message.wrong_dependency_control)
