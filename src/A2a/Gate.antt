-- ===== src/A2a/Gate.antt =====
-- packages/a2a-settlement-gate/src/gate.ts: `InntrisA2ASettlementGate` over the x402 guard.
use Prim.Native.String.{◌++◌ as join}
use inntris_x402_policy_adap.Base.{
  ℕ, String, Bool, true, false, not, ◌&&◌, ◌||◌, Option, none, some, [], ltb, str_eq, option_eq,
}
use inntris_x402_policy_adap.Base.Exec.{
  Result, ok, err, Exec, pure, throw, lift, bind, ◌>>=◌, ◌>>◌, catching,
}
use inntris_x402_policy_adap.Base.Maps.{set}
use inntris_x402_policy_adap.Core.Text.{identifier}
use inntris_x402_policy_adap.Core.Json.{
  Json, null, str, obj, field, end, nullable, Externals, hash_canonical,
}
use inntris_x402_policy_adap.Core.Reasons.{is_allow}
use inntris_x402_policy_adap.Core.Decision.{Decision}
use inntris_x402_policy_adap.Core.Signing.{Fault, unavailable, SigningProvider, parse, or_else}
use inntris_x402_policy_adap.Verifier.{safe_parse}
use inntris_x402_policy_adap.Adapter.Binding.{
  X402Schemas, BindingInput, payment_requirements_hash, drop_text,
}
use inntris_x402_policy_adap.Adapter.Guard
use inntris_x402_policy_adap.Adapter.Guard.{GuardOptions, GuardFault, names_allow}
use inntris_x402_policy_adap.Execution.{
  Thrown, ExecutionStore, GateFault, gate_error, other_fault, as_gate, joined, reason_text, demand,
  ensure, guarded, claim_execution,
}
use inntris_x402_policy_adap.Execution.Receipt.{Receipt, create_receipt}
use inntris_x402_policy_adap.A2a.Types.{
  Task, PaymentSubmission, ActionBinding, SettlementState, settled, failed, unknown, Observation,
  GateInput, finality_schema, submission_schema, binding_schema, observation_schema, binding_json,
  observation_json, A2aReceipt, a2a_form,
}

-- `A2AGateReasonCode`
pub data A2aReason : Type 0 where
  invalid_a2a_input payment_binding_mismatch decision_invalid decision_not_allow : A2aReason
  settlement_failed settlement_not_final settlement_unknown settlement_binding_mismatch : A2aReason
  decision_consumption_failed delegate_execution_in_progress delegate_execution_conflict : A2aReason
  delegate_execution_store_unavailable delegate_execution_failed receipt_signing_failed : A2aReason

-- A completed execution; its result is JSON, or undefined.
pub record A2aExecution : Type 0 where
  pub receipt : Receipt A2aReceipt
  pub result : Option Json

pub record PreparedInput : Type 0 where
  pub task : Task
  pub submission : PaymentSubmission
  pub payment : BindingInput
  pub binding : ActionBinding
  pub required_finality : String

-- `A2ASettlementConfirmationRequest`; a request to settle has no settlement reference.
pub record SettlementRequest : Type 0 where
  pub task : Task
  pub payment_submission : PaymentSubmission
  pub payment : BindingInput
  pub decision : Decision
  pub idempotency_key : String
  pub required_finality : String

-- `InntrisA2ASettlementGateOptions`; an observation is `none` where it has another shape. The names of
-- what the guard and the schemas throw are parameters.
pub record A2aOptions (S : Type 0) : Type 0 where
  pub guard : GuardOptions S
  pub settle : SettlementRequest → Exec Thrown S (Option Observation)
  pub confirm : SettlementRequest → String → Exec Thrown S (Option Observation)
  pub receipt_signer : SigningProvider
  pub required_finality : String
  pub store : ExecutionStore String A2aExecution S
  pub guard_error_name : GuardFault → Option String
  pub error_name : Fault → Option String

pub record A2aReadings : Type 0 where
  pub authorised_at : ℕ
  pub verified_at : ℕ
  pub executed_at : ℕ
  pub receipt_id : String

pub record DelegateInput : Type 0 where
  pub task : Task
  pub decision : Decision
  pub settlement : Observation
  pub execution_ref : String

pub record A2aResult : Type 0 where
  pub decision : Decision
  pub settlement : Observation
  pub execution_ref : String
  pub receipt : Receipt A2aReceipt
  pub result : Option Json
  pub replayed : Bool

abbrev pub A2aCheck : Type 0 → Type 0
A2aCheck A = Result (GateFault A2aReason) A

abbrev pub A2aExec : Type 0 → Type 0 → Type 0
A2aExec S A = Exec (GateFault A2aReason) S A

abbrev pub is_unknown : SettlementState → Bool
is_unknown unknown = true
is_unknown _ = false

abbrev pub is_failed : SettlementState → Bool
is_failed failed = true
is_failed _ = false

abbrev pub is_settled : SettlementState → Bool
is_settled settled = true
is_settled _ = false

abbrev pub given : Option String → Bool
given none = false
given (some s) = true

abbrev pub or_invalid : {A : Type 0} → Result Fault A → A2aCheck A
or_invalid (ok a) = ok a
or_invalid (err e) = err (gate_error invalid_a2a_input none)

-- `requireFinalSettlement`
unfoldable pub require_final_settlement : Observation → String → A2aCheck (Unit {0})
require_final_settlement o required =
    bind
      (demand (not (is_unknown o.state || option_eq o.finality (some "UNKNOWN")))
        settlement_unknown)
      λ _. bind (demand (not (is_failed o.state)) settlement_failed) λ _.
        demand
          (is_settled o.state && given o.settlement_ref && option_eq o.finality (some required))
          settlement_not_final

-- The submission's settlement reference, where it has one, is the observation's.
abbrev pub same_settlement : Option String → Option String → Bool
same_settlement none r = true
same_settlement (some s) r = option_eq r (some s)

-- `verifySettlementBinding`
unfoldable pub verify_settlement_binding : Observation → PreparedInput → A2aCheck (Unit {0})
verify_settlement_binding o p =
    bind
      (demand
        (str_eq o.task_id p.task.id
          && str_eq o.context_id p.task.context_id
          && str_eq o.payment_submission_id p.submission.submission_id
          && str_eq o.payment_requirements_hash p.submission.payment_requirements_hash
          && str_eq o.resource p.payment.resource)
        settlement_binding_mismatch)
      λ _.
        bind
          (demand (same_settlement p.submission.settlement_ref o.settlement_ref)
            settlement_binding_mismatch)
          λ _.
            demand (not (ltb o.observed_at p.submission.submitted_at)) settlement_binding_mismatch

module _ (x : Externals) (q : X402Schemas) where
  abbrev pub action_binding : GateInput → String → String → ActionBinding
  action_binding i hash finality = record {
    task_id = i.task.id;
    context_id = i.task.context_id;
    payment_submission_id = i.payment_submission.submission_id;
    payment_requirements_hash = hash;
    resource = i.payment.resource;
    required_finality = finality;
  }

  -- The payment with the binding under `inntris_a2a`.
  abbrev pub bound_payment : BindingInput → ActionBinding → BindingInput
  bound_payment p b = record p {
    extensions = some (set "inntris_a2a" (binding_json b) (or_else p.extensions []));
  }

  abbrev pub prepared_input : GateInput → String → ActionBinding → PreparedInput
  prepared_input i finality binding = record {
    task = i.task;
    submission = i.payment_submission;
    payment = bound_payment i.payment binding;
    binding = binding;
    required_finality = finality;
  }

  -- The submission against the task and the challenge, and the input with its binding.
  unfoldable pub bind_submission : GateInput → String → String → A2aCheck PreparedInput
  bind_submission i finality hash =
      bind
        (demand
          (str_eq i.payment_submission.task_id i.task.id
            && str_eq i.payment_submission.context_id i.task.context_id
            && str_eq i.payment_submission.resource i.payment.resource
            && str_eq i.payment_submission.payment_requirements_hash hash)
          payment_binding_mismatch)
        λ _.
          bind (as_gate (parse (binding_schema x) (action_binding i hash finality)))
            λ binding. ok (prepared_input i finality binding)

  -- `prepareInput`
  unfoldable pub prepare_input : GateInput → String → A2aCheck PreparedInput
  unfolding bind_submission
  prepare_input i finality =
      bind
        (demand
          (identifier i.task.id
            && identifier i.task.context_id
            && submission_schema x i.payment_submission
            && finality_schema finality)
          invalid_a2a_input)
        λ _.
          bind (or_invalid (payment_requirements_hash x q i.payment.payment_requirements))
            (bind_submission i finality)

  module _ {S : Type 0} (o : A2aOptions S) where
    abbrev pub settlement_key : ActionBinding → String
    settlement_key b = join "a2a-settlement:" (drop_text 7 (hash_canonical x (binding_json b)))

    abbrev pub settlement_request : PreparedInput → Decision → SettlementRequest
    settlement_request p d = record {
      task = p.task;
      payment_submission = p.submission;
      payment = p.payment;
      decision = d;
      idempotency_key = settlement_key p.binding;
      required_finality = p.required_finality;
    }

    -- The decision of the guard, which must allow.
    unfoldable pub authorise_payment : PreparedInput → ℕ → A2aExec S Decision
    authorise_payment p now = do
      decision ←
          catching (Guard.authorise x q o.guard p.payment now)
            (λ e. throw (gate_error decision_invalid (o.guard_error_name e)))
      ensure (is_allow decision.verdict) decision_not_allow none
      pure decision

    -- `settle` or `confirm`, by whether the submission names a settlement.
    unfoldable pub ask_provider : PreparedInput → Decision → Exec Thrown S (Option Observation)
    ask_provider p d = elim p.submission.settlement_ref [
      | none ↦ o.settle (settlement_request p d)
      | some ref ↦ o.confirm (settlement_request p d) ref
    ]

    abbrev pub parsed_observation : Option Observation → A2aCheck Observation
    parsed_observation raw = elim (safe_parse (observation_schema x) raw) [
      | none ↦ err (gate_error settlement_unknown (some "INVALID_SETTLEMENT_SCHEMA"))
      | some observation ↦ ok observation
    ]

    -- The provider's evidence, parsed, bound to the input and final.
    unfoldable pub check_observation : PreparedInput → Option Observation → A2aCheck Observation
    unfolding verify_settlement_binding require_final_settlement
    check_observation p raw = bind (parsed_observation raw) λ observation.
        bind (verify_settlement_binding observation p)
          λ _. bind (require_final_settlement observation p.required_finality) λ _. ok observation

    unfoldable pub observe_settlement : PreparedInput → Decision → A2aExec S Observation
    unfolding ask_provider check_observation
    observe_settlement p d =
        guarded settlement_unknown (ask_provider p d) >>= λ raw. lift (check_observation p raw)

    -- The second verification of the decision.
    unfoldable pub verify_again : PreparedInput → Decision → ℕ → A2aExec S (Unit {0})
    verify_again p d now = do
      verification ← lift (as_gate (Guard.verify_before_settlement x q o.guard p.payment d now))
      ensure (verification.valid && names_allow verification.verdict) decision_invalid
          (some (joined verification.reason_codes))

    abbrev pub a2a_execution_ref : PreparedInput → Decision → Observation → String
    a2a_execution_ref p d s = join "a2a-execution:" (
        drop_text 7 (
          hash_canonical x (
            obj (
              field "version" (str "inntris-a2a-execution-ref-v1") (
                field "task_id" (str p.task.id) (
                  field "context_id" (str p.task.context_id) (
                    field "payment_submission_id" (str p.submission.submission_id) (
                      field "settlement_ref" (nullable s.settlement_ref)
                        (field "action_hash" (str d.action_hash) end)))))))))

    abbrev pub a2a_binding_hash : PreparedInput → Decision → Observation → String
    a2a_binding_hash p d s = hash_canonical x (
        obj (
          field "version" (str "inntris-a2a-execution-binding-v1") (
            field "task_id" (str p.task.id) (
              field "context_id" (str p.task.context_id) (
                field "payment_submission_id" (str p.submission.submission_id) (
                  field "resource" (str p.payment.resource) (
                    field "settlement_ref" (nullable s.settlement_ref)
                      (field "action_hash" (str d.action_hash) end))))))))

    -- The consumption through the guard, which answers where it could throw.
    unfoldable pub consume_decision : Decision → String → A2aExec S (Unit {0})
    consume_decision d ref = do
      consumption ←
          catching (Guard.consume_before_execution x q o.guard d ref)
            (λ e. throw (other_fault unavailable))
      ensure consumption.success decision_consumption_failed (reason_text consumption.reason_code)

    unfoldable pub claim_delegation :
        PreparedInput → Decision → Observation → A2aExec S (Option (String × A2aExecution))
    claim_delegation p d s =
        claim_execution o.store delegate_execution_store_unavailable delegate_execution_conflict
          delegate_execution_in_progress (a2a_execution_ref p d s) (a2a_binding_hash p d s)

    -- `process` up to the call of the delegate.
    unfoldable pub before_delegation :
        GateInput
        → A2aReadings
        → A2aExec S (PreparedInput × Decision × Observation × Option (String × A2aExecution))
    unfolding prepare_input authorise_payment observe_settlement verify_again consume_decision
        claim_delegation
    before_delegation i t = do
      prepared ← lift (prepare_input i o.required_finality)
      decision ← authorise_payment prepared t.authorised_at
      settlement ← observe_settlement prepared decision
      verify_again prepared decision t.verified_at
      consume_decision decision (a2a_execution_ref prepared decision settlement)
      earlier ← claim_delegation prepared decision settlement
      pure (prepared, decision, settlement, earlier)

    abbrev pub receipt_body :
        PreparedInput → Decision → Observation → Option Json → A2aReadings → A2aReceipt
    receipt_body p d s result t = record {
      receipt_id = t.receipt_id;
      task_id = p.task.id;
      context_id = p.task.context_id;
      resource = p.payment.resource;
      payment_submission_id = p.submission.submission_id;
      decision_id = d.decision_id;
      decision_fingerprint = d.decision_fingerprint;
      action_hash = d.action_hash;
      settlement_ref = or_else s.settlement_ref "";
      settlement_evidence_hash = hash_canonical x (observation_json s);
      execution_ref = a2a_execution_ref p d s;
      delegate_result_hash = hash_canonical x (or_else result null);
      executed_at = t.executed_at;
      key_id = o.receipt_signer.key_id;
    }

    abbrev signed_receipt : A2aReceipt → A2aCheck (Receipt A2aReceipt)
    signed_receipt body = elim (create_receipt x (a2a_form x) body o.receipt_signer) [
      | ok r ↦ ok r
      | err e ↦ err (gate_error receipt_signing_failed (o.error_name e))
    ]

    abbrev pub result_of : PreparedInput → Decision → Observation → A2aExecution → Bool → A2aResult
    result_of p d s e again = record {
      decision = d;
      settlement = s;
      execution_ref = a2a_execution_ref p d s;
      receipt = e.receipt;
      result = e.result;
      replayed = again;
    }

    -- The receipt and the completion of the execution.
    unfoldable pub finish_delegation :
        PreparedInput → Decision → Observation → A2aReadings → Option Json → A2aExec S A2aResult
    unfolding create_receipt
    finish_delegation p d s t result = do
      receipt ← lift (signed_receipt (receipt_body p d s result t))
      guarded delegate_execution_store_unavailable (
          o.store.complete (a2a_execution_ref p d s) (a2a_binding_hash p d s)
            (record { receipt = receipt; result = result }))
      pure (result_of p d s (record { receipt = receipt; result = result }) false)

    unfoldable pub run_delegation :
        (DelegateInput → Exec Thrown S (Option Json))
        → A2aReadings
        → PreparedInput × Decision × Observation × Option (String × A2aExecution)
        → A2aExec S A2aResult
    unfolding finish_delegation
    run_delegation delegate t (p, d, s, some (b, e)) = pure (result_of p d s e true)
    run_delegation delegate t (p, d, s, none) =
        guarded delegate_execution_failed (
          delegate (record {
            task = p.task;
            decision = d;
            settlement = s;
            execution_ref = a2a_execution_ref p d s;
          }))
        >>= finish_delegation p d s t

    -- `process`
    unfoldable pub process :
        (DelegateInput → Exec Thrown S (Option Json))
        → GateInput
        → A2aReadings
        → A2aExec S A2aResult
    unfolding before_delegation run_delegation
    process delegate i t = before_delegation i t >>= run_delegation delegate t
