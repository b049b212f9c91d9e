-- ===== src/Ap2/Gate.antt =====
-- packages/ap2-runtime-gate/src/gate.ts: `InntrisAP2RuntimeGate`.
use Prim.Native.String.{◌++◌ as join}
use inntris_x402_policy_adap.Base.{
  ℕ, String, Bool, true, false, ◌&&◌, Option, none, some, List, ltb, leb, str_eq, all,
  if◌then◌else◌, ◌+◌, ◌*◌, ◌/◌,
}
use inntris_x402_policy_adap.Base.Exec.{
  Result, ok, err, Exec, pure, lift, bind, require, ◌>>=◌, ◌>>◌,
}
use inntris_x402_policy_adap.Base.Maps.{Map, get}
use inntris_x402_policy_adap.Core.Json.{
  Json, null, str, obj, field, end, nullable, Externals, hash_canonical,
}
use inntris_x402_policy_adap.Core.Reasons.{is_allow}
use inntris_x402_policy_adap.Core.Action.{Action, ProtocolReference, Ap2Reference, ap2_reference}
use inntris_x402_policy_adap.Core.Decision.{Decision, KeyEntry}
use inntris_x402_policy_adap.Core.Signing.{Fault, type_error, SigningProvider, parse, or_else}
use inntris_x402_policy_adap.Core.Replay.{ConsumeInput, ConsumeResult}
use inntris_x402_policy_adap.Verifier.{VerificationResult, verify_decision}
use inntris_x402_policy_adap.Adapter.Binding.{drop_text}
use inntris_x402_policy_adap.Execution.{
  Thrown, ExecutionStore, Binding, GateFault, gate_error, as_gate, joined, demand, ensure, guarded,
  spend, claim_execution,
}
use inntris_x402_policy_adap.Execution.Receipt.{Receipt, create_receipt}
use inntris_x402_policy_adap.Ap2.Types.{
  TrustMaterial, VerificationRequest, Verification, RawVerification, shaped, misshapen, Ap2Input,
  official_repository, official_commit, currency_text, request_schema, verification_schema,
  ap2_input_schema, Ap2Receipt, ap2_form,
}
use inntris_x402_policy_adap.Ap2.Binding.{action_from_ap2}

-- `AP2GateReasonCode`
pub data Ap2Reason : Type 0 where
  invalid_ap2_input ap2_trust_unavailable ap2_verification_failed : Ap2Reason
  ap2_sdk_provenance_mismatch ap2_verification_stale ap2_mandate_expired : Ap2Reason
  ap2_intent_invalid ap2_checkout_binding_mismatch ap2_payment_binding_mismatch : Ap2Reason
  decision_invalid decision_not_allow decision_consumption_failed : Ap2Reason
  ap2_execution_conflict ap2_execution_in_progress ap2_execution_store_unavailable : Ap2Reason
  ap2_delegate_failed ap2_receipt_signing_failed : Ap2Reason

-- `CompletedAP2Execution` without its binding; its result is JSON, or undefined.
pub record Ap2Execution : Type 0 where
  pub action : Action
  pub decision : Decision
  pub verification : Verification
  pub receipt : Receipt Ap2Receipt
  pub result : Option Json

-- `InntrisAP2RuntimeGateOptions`. The names of the errors of the schemas are a parameter.
pub record Ap2Options (S : Type 0) : Type 0 where
  pub evaluate : Action → Exec Thrown S Decision
  pub consume : ConsumeInput → Exec Thrown S ConsumeResult
  pub key_registry : List KeyEntry
  pub verify : VerificationRequest → Exec Thrown S RawVerification
  pub resolve : String → Exec Thrown S TrustMaterial
  pub receipt_signer : SigningProvider
  pub store : ExecutionStore Binding Ap2Execution S
  pub expected_policy_version : Option String
  pub max_verification_age_seconds : Option ℕ
  pub currency_decimals : Map ℕ
  pub error_name : Fault → Option String

-- The readings of the clock, in their order, and the id of a receipt.
pub record Ap2Readings : Type 0 where
  pub now : ℕ
  pub decided_at : ℕ
  pub spent_at : ℕ
  pub executed_at : ℕ
  pub receipt_id : String

-- `AP2DelegateInput`
pub record Ap2DelegateInput : Type 0 where
  pub action : Action
  pub decision : Decision
  pub verification : Verification
  pub execution_ref : String

-- `AP2RuntimeGateResult`
pub record Ap2Result : Type 0 where
  pub execution : Ap2Execution
  pub execution_ref : String
  pub replayed : Bool

abbrev pub Ap2Check : Type 0 → Type 0
Ap2Check A = Result (GateFault Ap2Reason) A

abbrev pub Ap2Exec : Type 0 → Type 0 → Type 0
Ap2Exec S A = Exec (GateFault Ap2Reason) S A

abbrev pub is_text : Option String → String → Bool
is_text none s = false
is_text (some t) s = str_eq t s

-- Whether a malformed answer names the pinned SDK.
abbrev pub has_provenance : RawVerification → Bool
has_provenance (shaped v) =
    str_eq v.sdk.repository official_repository && str_eq v.sdk.commit official_commit
has_provenance (misshapen repository commit) =
    is_text repository official_repository && is_text commit official_commit

abbrev pub malformed : RawVerification → Ap2Check Verification
malformed raw =
    bind (demand (has_provenance raw) ap2_sdk_provenance_mismatch)
      λ _. err (gate_error ap2_verification_failed none)

-- The verifier's answer, parsed.
unfoldable pub parse_verification : RawVerification → Ap2Check Verification
parse_verification (shaped v) = if verification_schema v then ok v else malformed (shaped v)
parse_verification (misshapen repository commit) = malformed (misshapen repository commit)

-- `requireCurrentVerification`
unfoldable pub require_current_verification : Verification → ℕ → ℕ → Ap2Check (Unit {0})
require_current_verification v now max_age =
    bind
      (demand (leb v.verified_at now && leb now (v.verified_at + max_age * 1000))
        ap2_verification_stale)
      λ _.
        demand (ltb now v.checkout.expires_at && ltb now v.payment.expires_at) ap2_mandate_expired

-- `requireExactBinding`
unfoldable pub require_exact_binding : Ap2Input → Verification → Ap2Check (Unit {0})
require_exact_binding i v = bind (demand v.intent.verified ap2_intent_invalid) λ _.
    bind
      (demand
        (str_eq v.checkout.merchant_id i.expected_merchant_id
          && str_eq v.payment.payee_id i.expected_merchant_id
          && str_eq v.checkout.merchant_id v.payment.payee_id)
        ap2_checkout_binding_mismatch)
      λ _.
        demand
          (str_eq v.payment.amount_minor i.expected_amount_minor
            && str_eq v.payment.currency i.expected_currency
            && str_eq v.payment.transaction_id v.checkout.checkout_hash)
          ap2_payment_binding_mismatch

abbrev decimals_accepted : String × ℕ → Bool
decimals_accepted (currency, decimals) = currency_text currency && leb decimals 18

-- `action.protocol_reference`, if its type is "ap2".
abbrev pub ap2_reference_of : ProtocolReference → Option Ap2Reference
ap2_reference_of (ap2_reference r) = some r
ap2_reference_of _ = none

abbrev pub intent_hash_of : Action → Option String
intent_hash_of a = elim (ap2_reference_of a.protocol_reference) [
  | none ↦ none
  | some r ↦ some r.intent_verification_hash
]

-- What a run knows when it comes to its claim's answer.
pub record Ap2Run : Type 0 where
  pub verification : Verification
  pub action : Action
  pub decision : Decision

module _ (x : Externals) {S : Type 0} (o : Ap2Options S) where
  abbrev pub max_age : ℕ
  max_age = or_else o.max_verification_age_seconds 30

  -- The checks of the constructor.
  unfoldable pub accept_options : Result Fault (Unit {0})
  accept_options =
      bind (require (leb 1 max_age && leb max_age 300) type_error)
        λ _. require (all decimals_accepted o.currency_decimals) type_error

  -- The official verification of the mandates.
  unfoldable pub verify_mandates : Ap2Input → ℕ → Ap2Exec S Verification
  unfolding parse_verification
  verify_mandates i now = do
    trust ← guarded ap2_trust_unavailable (o.resolve i.expected_merchant_id)
    request ← lift (
        as_gate (
          parse request_schema (record {
            mandates = i.mandates;
            trust = trust;
            expected_merchant_id = i.expected_merchant_id;
            current_time_epoch = now / 1000;
          })))
    raw ← guarded ap2_verification_failed (o.verify request)
    lift (parse_verification raw)

  abbrev pub decimals_of : Verification → Ap2Check ℕ
  decimals_of v = elim (get v.payment.currency o.currency_decimals) [
    | none ↦ err (gate_error invalid_ap2_input none)
    | some decimals ↦ ok decimals
  ]

  abbrev pub or_unbound : {A : Type 0} → Result Fault A → Ap2Check A
  or_unbound (ok a) = ok a
  or_unbound (err e) = err (gate_error invalid_ap2_input (o.error_name e))

  -- The checks of the verification against the input and the clock, and the action.
  unfoldable pub bind_evidence : Ap2Input → Verification → ℕ → Ap2Check Action
  unfolding require_current_verification require_exact_binding
  bind_evidence i v now = bind (require_current_verification v now max_age) λ _.
      bind (require_exact_binding i v)
        λ _. bind (decimals_of v) λ decimals. or_unbound (action_from_ap2 x i v decimals)

  abbrev pub ap2_verification : Action → Decision → ℕ → VerificationResult
  ap2_verification action decision now = verify_decision x (record {
    decision = some decision;
    action = some action;
    key_registry = some o.key_registry;
    at = now;
    expected_policy_version = o.expected_policy_version;
    expected_payment_requirements_hash = none;
  })

  -- The decision of the provider, which must be valid and allow.
  unfoldable pub decide : Action → ℕ → Ap2Exec S Decision
  decide action now = do
    decision ← guarded decision_invalid (o.evaluate action)
    ensure (ap2_verification action decision now).valid decision_invalid
        (some (joined (ap2_verification action decision now).reason_codes))
    ensure (is_allow decision.verdict) decision_not_allow none
    pure decision

  abbrev pub ap2_execution_ref : Verification → Decision → String
  ap2_execution_ref v d = join "ap2-execution:" (
      drop_text 7 (
        hash_canonical x (
          obj (
            field "version" (str "inntris-ap2-execution-ref-v1") (
              field "checkout_mandate_hash" (str v.checkout.mandate_hash) (
                field "payment_mandate_hash" (str v.payment.mandate_hash)
                  (field "action_hash" (str d.action_hash) end)))))))

  abbrev pub ap2_binding_hash : Action → Verification → Decision → String
  ap2_binding_hash a v d = hash_canonical x (
      obj (
        field "version" (str "inntris-ap2-execution-binding-v1") (
          field "intent_verification_hash" (nullable (intent_hash_of a)) (
            field "checkout_mandate_hash" (str v.checkout.mandate_hash) (
              field "payment_mandate_hash" (str v.payment.mandate_hash)
                (field "action_hash" (str d.action_hash) end))))))

  abbrev pub ap2_binding : Action → Verification → Decision → Binding
  ap2_binding a v d = record {
    binding_hash = ap2_binding_hash a v d;
    execution_ref = ap2_execution_ref v d;
  }

  abbrev pub ap2_consumption : Verification → Decision → ConsumeInput
  ap2_consumption v d = record {
    decision_id = d.decision_id;
    action_hash = d.action_hash;
    execution_ref = ap2_execution_ref v d;
  }

  -- The second look at the clock, the consumption and the claim.
  unfoldable pub spend_and_claim :
      Action → Verification → Decision → ℕ → Ap2Exec S (Option (Binding × Ap2Execution))
  unfolding require_current_verification
  spend_and_claim a v d now = do
    lift (require_current_verification v now max_age)
    spend decision_consumption_failed o.consume (ap2_consumption v d)
    claim_execution o.store ap2_execution_store_unavailable ap2_execution_conflict
        ap2_execution_in_progress v.payment.mandate_hash (ap2_binding a v d)

  -- `process` up to the call of the delegate.
  unfoldable pub before_run :
      Ap2Input → Ap2Readings → Ap2Exec S (Ap2Run × Option (Binding × Ap2Execution))
  unfolding verify_mandates bind_evidence decide spend_and_claim
  before_run i t = do
    ensure (ap2_input_schema x i) invalid_ap2_input none
    verification ← verify_mandates i t.now
    action ← lift (bind_evidence i verification t.now)
    decision ← decide action t.decided_at
    earlier ← spend_and_claim action verification decision t.spent_at
    pure (record { verification = verification; action = action; decision = decision }, earlier)

  abbrev pub ap2_receipt_body : Ap2Run → Ap2Reference → Option Json → Ap2Readings → Ap2Receipt
  ap2_receipt_body u r result t = record {
    receipt_id = t.receipt_id;
    intent_verification_hash = r.intent_verification_hash;
    checkout_mandate_hash = u.verification.checkout.mandate_hash;
    payment_mandate_hash = u.verification.payment.mandate_hash;
    checkout_hash = u.verification.checkout.checkout_hash;
    transaction_id = u.verification.payment.transaction_id;
    decision_id = u.decision.decision_id;
    decision_fingerprint = u.decision.decision_fingerprint;
    action_hash = u.decision.action_hash;
    execution_ref = ap2_execution_ref u.verification u.decision;
    delegate_result_hash = hash_canonical x (or_else result null);
    executed_at = t.executed_at;
    key_id = o.receipt_signer.key_id;
  }

  -- `createAP2ActionReceipt`
  unfoldable pub create_ap2_receipt :
      Ap2Run → Option Json → Ap2Readings → Result Fault (Receipt Ap2Receipt)
  unfolding create_receipt
  create_ap2_receipt u result t = elim (ap2_reference_of u.action.protocol_reference) [
    | none ↦ err type_error
    | some r ↦ create_receipt x ap2_form (ap2_receipt_body u r result t) o.receipt_signer
  ]

  abbrev pub or_unsigned : {A : Type 0} → Result Fault A → Ap2Check A
  or_unsigned (ok a) = ok a
  or_unsigned (err e) = err (gate_error ap2_receipt_signing_failed (o.error_name e))

  abbrev pub execution_of : Ap2Run → Receipt Ap2Receipt → Option Json → Ap2Execution
  execution_of u receipt result = record {
    action = u.action;
    decision = u.decision;
    verification = u.verification;
    receipt = receipt;
    result = result;
  }

  -- The receipt and the completion of the execution.
  unfoldable pub finish_run : Ap2Run → Ap2Readings → Option Json → Ap2Exec S Ap2Result
  unfolding create_ap2_receipt
  finish_run u t result = do
    receipt ← lift (or_unsigned (create_ap2_receipt u result t))
    guarded ap2_execution_store_unavailable (
        o.store.complete u.verification.payment.mandate_hash
          (ap2_binding u.action u.verification u.decision) (execution_of u receipt result))
    pure (record {
      execution = execution_of u receipt result;
      execution_ref = ap2_execution_ref u.verification u.decision;
      replayed = false;
    })

  abbrev pub delegate_input : Ap2Run → Ap2DelegateInput
  delegate_input u = record {
    action = u.action;
    decision = u.decision;
    verification = u.verification;
    execution_ref = ap2_execution_ref u.verification u.decision;
  }

  unfoldable pub run_delegate :
      (Ap2DelegateInput → Exec Thrown S (Option Json))
      → Ap2Readings
      → Ap2Run × Option (Binding × Ap2Execution)
      → Ap2Exec S Ap2Result
  unfolding finish_run
  run_delegate delegate t (u, some (b, e)) =
      pure (record { execution = e; execution_ref = b.execution_ref; replayed = true })
  run_delegate delegate t (u, none) =
      guarded ap2_delegate_failed (delegate (delegate_input u)) >>= finish_run u t

  -- `process`
  unfoldable pub process :
      (Ap2DelegateInput → Exec Thrown S (Option Json))
      → Ap2Input
      → Ap2Readings
      → Ap2Exec S Ap2Result
  unfolding before_run run_delegate
  process delegate i t = before_run i t >>= run_delegate delegate t
