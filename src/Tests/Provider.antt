-- ===== src/Tests/Provider.antt =====
-- The local provider over the in-memory stores: an approval that is resolved twice, and a decision
-- that is consumed twice.
use inntris_x402_policy_adap.Base.{
  some, ℕ, sym, ◌∙◌, eq_iff, Bool, ◌≡◌, refl, true, false, none, String, List, [], ◌∷◌,
}
use inntris_x402_policy_adap.Base.Exec.{Result, ok}
use inntris_x402_policy_adap.Base.Exec.{◌>>=◌}
use inntris_x402_policy_adap.Base.Maps.{get, set}
use inntris_x402_policy_adap.Core.Text.{
  identifier, canonical_amount, hash_text, utf8, base64url_text,
}
use inntris_x402_policy_adap.Core.Time.{iso_text}
use inntris_x402_policy_adap.Core.Reasons.{distinct_reasons, reason_eq}
use inntris_x402_policy_adap.Core.Action.{action_schema}
use inntris_x402_policy_adap.Core.Decision.{decision_schema, fingerprint_payload, signable_payload}
use inntris_x402_policy_adap.Core.Signing.{create_signed_decision, calculate_decision_fingerprint}
use inntris_x402_policy_adap.Policy.Document.{rail_policy}
use inntris_x402_policy_adap.Policy.Window.{within_time_window}
use inntris_x402_policy_adap.Policy.Evaluate.{
  evaluate_policy, screen, denied_by_explicit_rule, matching_merchant, transaction_limit,
  settle_evaluation, local_time_parts, includes_weekday,
}
use inntris_x402_policy_adap.Policy.Provider.{resolved_evaluation, supersede}
use inntris_x402_policy_adap.Core.Replay.{consume_nonce, ConsumeInput, ConsumeResult}
use inntris_x402_policy_adap.Core.Reasons.{approval_not_pending, decision_not_allow}
use inntris_x402_policy_adap.Core.Signing.{Fault}
use inntris_x402_policy_adap.Core.Encoding.{hash_action}
use inntris_x402_policy_adap.Policy.Stores.{Memory, memory_stores, empty_memory, Stores}
use inntris_x402_policy_adap.Policy.Provider.{
  evaluate, resolve_approval, ResolveApprovalInput, ResolveApprovalResult, consume, rejection,
  refused,
}
use inntris_x402_policy_adap.Policy.Provider.Calls.{Call, evaluates, after_calls}
use inntris_x402_policy_adap.Policy.Provider.Outcome.{Resolves, resolve_approval-Resolves}
use inntris_x402_policy_adap.Core.Decision.{Decision}
use inntris_x402_policy_adap.Policy.Stores.{StoredDecision}
use inntris_x402_policy_adap.Policy.Provider.Approvals.{resolve_approval-once}
use inntris_x402_policy_adap.Policy.Provider.Execution.{consume-once}
use inntris_x402_policy_adap.Policy.Provider.Spending.{Counted, consume-Counted}
use inntris_x402_policy_adap.Core.Reasons.{action_hash_mismatch}
use inntris_x402_policy_adap.Core.Signing.{Evaluation}
use inntris_x402_policy_adap.Policy.Provider.{issue_block}
use inntris_x402_policy_adap.Policy.Provider.Issue.{
  Issues, blocked_for, evaluate-Issues, issue_block-Issues,
}
use inntris_x402_policy_adap.Tests.Verifier.{decision}
use inntris_x402_policy_adap.Tests.Samples.{externals, platform, or_default}
use inntris_x402_policy_adap.Tests.Actions.{paying, provider, fresh}

abbrev stores : Stores Memory
stores = memory_stores platform.decimals true

abbrev after_evaluation : String → Memory
after_evaluation amount =
    (evaluate externals platform provider stores (paying amount) 1000000 (fresh 1000000 "d1")
      empty_memory).1

abbrev evaluating : Result Fault Decision × Memory
evaluating =
    evaluate externals platform provider stores (paying "20.00") 1000000 (fresh 1000000 "d1")
      empty_memory

abbrev blocking : Result Fault Decision × Memory
blocking =
    issue_block externals platform provider stores (paying "20.00") (action_hash_mismatch ∷ [])
      (fresh 1000000 "d1") empty_memory

issues-run :
    (evaluating ≡ (ok (or_default evaluating.0 decision), evaluating.1))
    × (blocking ≡ (ok (or_default blocking.0 decision), blocking.1))
unfolding resolve_approval ◌>>=◌ memory_stores get set evaluate evaluate_policy screen
    denied_by_explicit_rule rail_policy matching_merchant transaction_limit settle_evaluation
    platform local_time_parts create_signed_decision action_schema identifier canonical_amount
    externals hash_text decision_schema hash_action utf8 distinct_reasons base64url_text
    calculate_decision_fingerprint fingerprint_payload iso_text signable_payload issue_block
    includes_weekday within_time_window
issues-run = (refl, refl)

abbrev Evaluated : Type 0
Evaluated =
    (e : Evaluation) × ((evaluate_policy platform stores.daily_spend (paying "20.00")
        provider.policy 1000000 empty_memory).0
      ≡ ok e)
    × Issues externals platform provider true (paying "20.00") e (fresh 1000000 "d1") evaluating.1
        (or_default evaluating.0 decision)

evaluate-Issues_example : Evaluated
evaluate-Issues_example =
    evaluate-Issues externals platform provider true (paying "20.00") 1000000 (fresh 1000000 "d1")
      empty_memory evaluating.1 (or_default evaluating.0 decision) issues-run.0

issue_block-Issues_example :
    Issues externals platform provider true
      (paying "20.00")
      (blocked_for (action_hash_mismatch ∷ []))
      (fresh 1000000 "d1")
      blocking.1
      (or_default blocking.0 decision)
issue_block-Issues_example =
    issue_block-Issues externals platform provider true (paying "20.00") (action_hash_mismatch ∷ [])
      (fresh 1000000 "d1") empty_memory blocking.1 (or_default blocking.0 decision) issues-run.1

abbrev resolution : Bool → ResolveApprovalInput
resolution granted = record {
  decision_id = "d1";
  granted = granted;
  approval_reference = "ticket";
  approver_ids = "boss" ∷ [];
}

abbrev resolving : Bool → String → Memory → Result Fault ResolveApprovalResult × Memory
resolving granted id m =
    resolve_approval externals platform provider stores (resolution granted) none 1001000 1001000
      (fresh 1001000 id) m

abbrev calls : List Call
calls = evaluates (paying "20.00") 1002000 (fresh 1002000 "d3") ∷ []

abbrev no_resolution : ResolveApprovalResult
no_resolution = rejection "d1" approval_not_pending

-- The request is resolved once, another payment is evaluated, and it is resolved again.
abbrev first_answer : Result Fault ResolveApprovalResult
first_answer = (resolving true "d2" (after_evaluation "40.00")).0

abbrev afterwards : Memory
afterwards =
    after_calls externals platform provider true calls
      (resolving true "d2" (after_evaluation "40.00")).1

abbrev second_answer : Result Fault ResolveApprovalResult
second_answer = (resolving false "d4" afterwards).0

resolutions-run :
    (first_answer ≡ ok (or_default first_answer no_resolution))
    × ((or_default first_answer no_resolution).success ≡ true)
    × (second_answer ≡ ok (or_default second_answer no_resolution))
unfolding resolve_approval ◌>>=◌ memory_stores get set evaluate evaluate_policy screen
    denied_by_explicit_rule rail_policy matching_merchant transaction_limit settle_evaluation
    platform local_time_parts create_signed_decision action_schema identifier canonical_amount
    externals hash_text decision_schema hash_action utf8 distinct_reasons base64url_text
    calculate_decision_fingerprint fingerprint_payload iso_text signable_payload after_calls consume
    includes_weekday within_time_window resolved_evaluation reason_eq rejection supersede
    consume_nonce
resolutions-run = (refl, refl, refl)

resolve_approval-once_example : (or_default second_answer no_resolution).success ≡ false
resolve_approval-once_example =
    resolve_approval-once externals platform provider true (resolution true) (resolution false) none
      none 1001000 1001000 1001000 1001000 (fresh 1001000 "d2") (fresh 1001000 "d4")
      (after_evaluation "40.00") calls (or_default first_answer no_resolution)
      (or_default second_answer no_resolution) refl resolutions-run.0 resolutions-run.1
      resolutions-run.2

abbrev consumption : ConsumeInput
consumption = record {
  decision_id = "d1";
  action_hash = hash_action externals (paying "20.00");
  execution_ref = "r1";
}

abbrev consuming : ℕ → Memory → Result Fault ConsumeResult × Memory
consuming now m = consume externals platform provider stores consumption now m

abbrev no_consumption : ConsumeResult
no_consumption = refused consumption decision_not_allow

abbrev once : Result Fault ConsumeResult
once = (consuming 1001000 (after_evaluation "20.00")).0

abbrev later : Memory
later =
    after_calls externals platform provider true calls
      (consuming 1001000 (after_evaluation "20.00")).1

abbrev again : Result Fault ConsumeResult
again = (consuming 1003000 later).0

consumptions-run :
    (once ≡ ok (or_default once no_consumption))
    × ((or_default once no_consumption).success ≡ true)
    × (again ≡ ok (or_default again no_consumption))
    × ((or_default again no_consumption).success ≡ true)
unfolding resolve_approval ◌>>=◌ memory_stores get set evaluate evaluate_policy screen
    denied_by_explicit_rule rail_policy matching_merchant transaction_limit settle_evaluation
    platform local_time_parts create_signed_decision action_schema identifier canonical_amount
    externals hash_text decision_schema hash_action utf8 distinct_reasons base64url_text
    calculate_decision_fingerprint fingerprint_payload iso_text signable_payload after_calls consume
    includes_weekday within_time_window resolved_evaluation reason_eq rejection supersede
    consume_nonce
consumptions-run = (refl, refl, refl, refl)

consume-once_example : consumption.execution_ref ≡ "r1"
consume-once_example =
    consume-once externals platform provider true consumption consumption 1001000 1003000
      (after_evaluation "20.00") calls (or_default once no_consumption)
      (or_default again no_consumption) refl (λ id e f. cc ((eq_iff "d3" "d1").1 (f ∙ sym e)), tt)
      consumptions-run.0 consumptions-run.1 consumptions-run.2 consumptions-run.3

abbrev Counting : Type 0
Counting =
    (stored : StoredDecision) × Counted externals platform provider true consumption 1001000
      (after_evaluation "20.00") (consuming 1001000 (after_evaluation "20.00")).1 stored

consume-Counted_example : Counting
consume-Counted_example =
    consume-Counted externals platform provider true consumption 1001000 (after_evaluation "20.00")
      (or_default once no_consumption) consumptions-run.0 consumptions-run.1

-- The granted resolution, with its request and its decision.
abbrev Resolution : Type 0
Resolution =
    (issued : StoredDecision) × (d : Decision) × (get "d1" (after_evaluation "40.00").decisions
      ≡ some issued)
    × ((or_default first_answer no_resolution).decision ≡ some d)
    × Resolves externals platform provider true (resolution true) none 1001000
        (after_evaluation "40.00") (resolving true "d2" (after_evaluation "40.00")).1 issued d

resolve_approval-Resolves_example : Resolution
resolve_approval-Resolves_example =
    resolve_approval-Resolves externals platform provider true (resolution true) none 1001000
      1001000 (fresh 1001000 "d2") (after_evaluation "40.00")
      (or_default first_answer no_resolution) resolutions-run.0 resolutions-run.1
