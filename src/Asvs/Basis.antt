-- ===== src/Asvs/Basis.antt =====
-- What the bases of a result have to say of its verdict, for every merge of
-- app/services/asvs_service.py.
use control_gate_backend.Prelude.{◌≡◌, ◌||◌, is_some, some}
use control_gate_backend.Asvs.Types.{Verdict, is_verdict, ControlResult}

-- A pass names the strength of its evidence, and so does a fail or a call for review; no other
-- verdict does.
pub record BasesAgree (r : ControlResult) : Type 0 where
  pub on_pass : is_some r.pass_basis ≡ is_verdict Verdict.pass (some r.verdict)
  pub on_fail : is_some r.fail_basis ≡ (
      is_verdict Verdict.fail (some r.verdict) || is_verdict Verdict.manual_review (some r.verdict))
