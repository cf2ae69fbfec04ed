-- ===== src/Asvs/Config/Bases.antt =====
-- app/services/asvs_service.py: the bases that the configuration and probe merges name.
use control_gate_backend.Prelude.{String, Option, some, List, [], ◌∷◌, arith, get_or}
use control_gate_backend.Asvs.Types.{Verdict, Finding, Message, Summary, contents}
use control_gate_backend.Asvs.Evidence.{untested}
use control_gate_backend.Asvs.Basis.{BasesAgree}
use control_gate_backend.Asvs.Config.{
  for_control, merge_config_or_compliant_static, merge_config_or_dynamic, config_verdict,
  config_result, config_or_untested, merge_config, probe_result, first_probe, merge_dynamic,
}

pub untested-BasesAgree :
    (c scan : String) (reason : Option Message) → BasesAgree (untested c scan reason)
unfolding untested
untested-BasesAgree c scan reason = ground arith

config_result-BasesAgree :
    (c scan : String) (fs : List Finding) → BasesAgree (config_result c scan fs (config_verdict fs))
unfolding config_result config_verdict
config_result-BasesAgree c scan fs = ground arith

config_or_untested-BasesAgree :
    (c scan : String) (fs : List Finding) → BasesAgree (config_or_untested c scan fs)
unfolding config_or_untested
config_or_untested-BasesAgree c scan [] = untested-BasesAgree c scan (some Message.no_config)
config_or_untested-BasesAgree c scan (f ∷ fs) = config_result-BasesAgree c scan (f ∷ fs)

pub merge_config-BasesAgree :
    (c : String) (s : Option Summary) (scan : String) → BasesAgree (merge_config c s scan)
unfolding merge_config
merge_config-BasesAgree c s scan =
    config_or_untested-BasesAgree c scan (for_control c (contents s).config_findings)

pub merge_config_or_dynamic-BasesAgree :
    (c : String) (s : Option Summary) (scan : String)
    → BasesAgree (merge_config_or_dynamic c s scan)
unfolding merge_config_or_dynamic untested
merge_config_or_dynamic-BasesAgree c s scan = ground arith

pub merge_config_or_compliant_static-BasesAgree :
    (c : String) (s : Option Summary) (scan : String)
    → BasesAgree (merge_config_or_compliant_static c s scan)
unfolding merge_config_or_compliant_static untested
merge_config_or_compliant_static-BasesAgree c s scan = ground arith

probe_result-BasesAgree :
    (c scan : String) (f : Finding) (v : Verdict) → BasesAgree (probe_result c scan f v)
unfolding probe_result
probe_result-BasesAgree c scan f v = ground arith

first_probe-BasesAgree : (c scan : String) (fs : List Finding) → BasesAgree (first_probe c scan fs)
unfolding first_probe
first_probe-BasesAgree c scan [] = untested-BasesAgree c scan (some Message.no_probe)
first_probe-BasesAgree c scan (f ∷ _) =
    probe_result-BasesAgree c scan f (get_or f.verdict Verdict.not_tested)

pub merge_dynamic-BasesAgree :
    (c : String) (s : Option Summary) (scan : String) → BasesAgree (merge_dynamic c s scan)
unfolding merge_dynamic
merge_dynamic-BasesAgree c s scan =
    first_probe-BasesAgree c scan (for_control c (contents s).dynamic_probe_findings)
