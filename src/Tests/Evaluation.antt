-- ===== src/Tests/Evaluation.antt =====
-- The policy engine on a small and on a large payment, with the in-memory spend state.
use inntris_x402_policy_adap.Base.{◌≤◌, ◌<◌, ◌≡◌, ◌↔◌, refl, true, String}
use inntris_x402_policy_adap.Base.Exec.{Exec, ◌>>=◌}
use inntris_x402_policy_adap.Core.Text.{codes}
use inntris_x402_policy_adap.Core.Reasons.{allow, require_approval}
use inntris_x402_policy_adap.Core.Signing.{Fault, Evaluation}
use inntris_x402_policy_adap.Policy.Document.{Merchant, rail_policy, time_text}
use inntris_x402_policy_adap.Policy.Window.{
  within_time_window, within_time_window_iff, minute, since,
}
use inntris_x402_policy_adap.Policy.Evaluate.{
  LocalTime, evaluate_policy, block_evaluation, screen, denied_by_explicit_rule, matching_merchant,
  transaction_limit, local_time_parts,
}
use inntris_x402_policy_adap.Core.Reasons.{default_deny}
use inntris_x402_policy_adap.Policy.Stores.{Memory, memory_stores, empty_memory}
use inntris_x402_policy_adap.Policy.Verdicts.{
  Granted, evaluate_policy-allow_iff, evaluate_policy-require_approval_iff,
}
use inntris_x402_policy_adap.Tests.Samples.{platform, or_default}
use inntris_x402_policy_adap.Tests.Actions.{policy, paying}

-- A window over midnight, from 22:00 to 06:00, at half past one.
within_time_window_iff_example :
    (within_time_window (codes "01:30") (codes "22:00") (codes "06:00") ≡ true) ↔ (
      since (minute (codes "22:00")) (minute (codes "01:30"))
      ≤ since (minute (codes "22:00")) (minute (codes "06:00")))
unfolding time_text
within_time_window_iff_example =
    within_time_window_iff (codes "01:30") (codes "22:00") (codes "06:00") refl refl refl

abbrev spend : String → String → Exec Fault Memory String
spend = (memory_stores platform.decimals true).daily_spend

abbrev evaluation : String → Evaluation
evaluation amount =
    or_default (evaluate_policy platform spend (paying amount) policy 1000000 empty_memory).0
      (block_evaluation default_deny)

evaluate_policy-allow_iff_example : ((evaluation "20.50").verdict ≡ allow) ↔ (
    (m : Merchant) × (local : LocalTime) × (spent : String) × Granted platform policy
      (paying "20.50")
      spend
      1000000
      empty_memory
      m
      local
      spent
    × (platform.decimals.units "20.50" ≤ platform.decimals.units "25.00"))
unfolding evaluate_policy screen denied_by_explicit_rule rail_policy matching_merchant
    transaction_limit platform ◌>>=◌ local_time_parts memory_stores
evaluate_policy-allow_iff_example =
    evaluate_policy-allow_iff platform policy (paying "20.50") spend 1000000 empty_memory
      (evaluation "20.50") refl

evaluate_policy-require_approval_iff_example : ((evaluation "40.00").verdict ≡ require_approval) ↔ (
    (m : Merchant) × (local : LocalTime) × (spent : String) × Granted platform policy
      (paying "40.00")
      spend
      1000000
      empty_memory
      m
      local
      spent
    × (platform.decimals.units "25.00" < platform.decimals.units "40.00"))
unfolding evaluate_policy screen denied_by_explicit_rule rail_policy matching_merchant
    transaction_limit platform ◌>>=◌ local_time_parts memory_stores
evaluate_policy-require_approval_iff_example =
    evaluate_policy-require_approval_iff platform policy (paying "40.00") spend 1000000 empty_memory
      (evaluation "40.00") refl
