-- ===== src/Tests/Ap2Outcome.antt =====
-- The AP2 gate: a delegate that fails, and how old the verification was.
use inntris_x402_policy_adap.Base.{◌≡◌, ◌≤◌, ◌<◌, ◌+◌, refl, Option, none, some, List, [], ◌∷◌}
use inntris_x402_policy_adap.Base.Exec.{Result, ok, err, Exec, ◌>>=◌, catching}
use inntris_x402_policy_adap.Base.Maps.{get, set}
use inntris_x402_policy_adap.Core.Text.{
  identifier, canonical_amount, hash_text, utf8, base64url_text, unsigned_digits, sized,
}
use inntris_x402_policy_adap.Core.Time.{iso_text}
use inntris_x402_policy_adap.Core.Json.{Json, sha256_bytes, hash_canonical}
use inntris_x402_policy_adap.Core.Reasons.{distinct_reasons}
use inntris_x402_policy_adap.Core.Action.{action_schema, reference_schema}
use inntris_x402_policy_adap.Core.Encoding.{hash_action}
use inntris_x402_policy_adap.Core.Decision.{
  signable_payload, decision_schema, fingerprint_payload, registry_schema,
}
use inntris_x402_policy_adap.Core.Signing.{
  create_signed_decision, calculate_decision_fingerprint, public_key_fingerprint,
  verify_ed25519_signature, verify_decision_signature,
}
use inntris_x402_policy_adap.Verifier.{verify_decision}
use inntris_x402_policy_adap.Execution.{
  GateFault, gate_error, Thrown, reject, guarded, ensure, spend, claim_execution, Binding,
  same_binding, claim, complete,
}
use inntris_x402_policy_adap.Execution.Once.{ClaimCall, claims, completes, after_call, after_calls}
use inntris_x402_policy_adap.Execution.Attempt.{NeverCompletes}
use inntris_x402_policy_adap.Execution.Receipt.{create_receipt}
use inntris_x402_policy_adap.Ap2.Types.{
  Ap2Input, presentation_schema, verification_schema, ap2_input_schema, ap2_receipt_schema,
  request_schema, currency_text,
}
use inntris_x402_policy_adap.Ap2.Binding.{action_from_ap2}
use inntris_x402_policy_adap.Ap2.Gate
use inntris_x402_policy_adap.Ap2.Bounds.{process-Recent}
use inntris_x402_policy_adap.Ap2.Outcome.{IsBarred, failed-paused}
use inntris_x402_policy_adap.Tests.Samples.{externals, or_default}
use inntris_x402_policy_adap.Tests.Ap2.{
  State, request, options, readings, delegate, start, clearing, cleared, no_answer, runs, first_run,
  apart,
}

accepted : Gate.accept_options externals options ≡ ok tt
unfolding Gate.accept_options currency_text
accepted = refl

process-Recent_example :
    (cleared.verification.verified_at ≤ readings.spent_at)
    × (readings.spent_at ≤ cleared.verification.verified_at + 300000)
    × (readings.spent_at < cleared.verification.checkout.expires_at)
    × (readings.spent_at < cleared.verification.payment.expires_at)
process-Recent_example =
    process-Recent externals options request readings start clearing.1 cleared accepted first_run

abbrev failing : Gate.Ap2DelegateInput → Exec Thrown State (Option Json)
failing d s = (err (record { error_name = some "Error" }), s)

-- After the failure another execution is claimed and completed in the store.
abbrev another : Binding
another = record { binding_hash = "hash"; execution_ref = "another" }

abbrev others : List (ClaimCall Binding Gate.Ap2Execution)
others = claims "another" another ∷ completes "another" another no_answer.execution ∷ []

-- The state after the failure and those calls.
abbrev later_state : State
later_state = (tt, after_calls same_binding others clearing.1.1)

others-NeverCompletes : NeverCompletes cleared.verification.payment.mandate_hash others
unfolding Gate.before_run Gate.process ◌>>=◌ action_from_ap2 externals unsigned_digits get set claim
    complete create_signed_decision action_schema identifier canonical_amount hash_text
    decision_schema hash_action utf8 distinct_reasons base64url_text calculate_decision_fingerprint
    fingerprint_payload iso_text signable_payload registry_schema public_key_fingerprint
    sha256_bytes verify_decision guarded ensure reject claim_execution reference_schema
    verify_decision_signature verify_ed25519_signature create_receipt presentation_schema
    verification_schema ap2_input_schema ap2_receipt_schema request_schema hash_canonical sized
    catching spend
others-NeverCompletes = (λ same. cc, tt)

failed-paused_example :
    (Gate.process externals options failing request readings start
      ≡ (err (gate_error Gate.ap2_delegate_failed (some "Error")), clearing.1))
    × IsBarred externals options cleared.verification.payment.mandate_hash request readings
        later_state
failed-paused_example =
    failed-paused externals options request request readings readings start clearing.1 clearing.1 tt
      cleared failing (record { error_name = some "Error" }) others refl apart runs.0 refl refl
      others-NeverCompletes

abbrev second_request : Ap2Input
second_request = record request { mandates = record request.mandates { checkout_nonce = "second" } }

-- The same payment again is refused there, and one under other mandates is made.
repeated-refused :
    (Gate.process externals options delegate request readings later_state).0
    ≡ err (gate_error Gate.ap2_execution_in_progress none)
unfolding after_calls after_call Gate.before_run Gate.process ◌>>=◌ action_from_ap2 externals
    unsigned_digits get set claim complete create_signed_decision action_schema identifier
    canonical_amount hash_text decision_schema hash_action utf8 distinct_reasons base64url_text
    calculate_decision_fingerprint fingerprint_payload iso_text signable_payload registry_schema
    public_key_fingerprint sha256_bytes verify_decision guarded ensure reject claim_execution
    reference_schema verify_decision_signature verify_ed25519_signature create_receipt
    presentation_schema verification_schema ap2_input_schema ap2_receipt_schema request_schema
    hash_canonical sized catching spend
repeated-refused = refl

abbrev second : Result (GateFault Gate.Ap2Reason) Gate.Ap2Result × State
second = Gate.process externals options delegate second_request readings later_state

second-returns : second ≡ (ok (or_default second.0 no_answer), second.1)
unfolding after_calls after_call Gate.before_run Gate.process ◌>>=◌ action_from_ap2 externals
    unsigned_digits get set claim complete create_signed_decision action_schema identifier
    canonical_amount hash_text decision_schema hash_action utf8 distinct_reasons base64url_text
    calculate_decision_fingerprint fingerprint_payload iso_text signable_payload registry_schema
    public_key_fingerprint sha256_bytes verify_decision guarded ensure reject claim_execution
    reference_schema verify_decision_signature verify_ed25519_signature create_receipt
    presentation_schema verification_schema ap2_input_schema ap2_receipt_schema request_schema
    hash_canonical sized catching spend
second-returns = refl
