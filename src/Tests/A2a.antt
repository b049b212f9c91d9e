-- ===== src/Tests/A2a.antt =====
-- The A2A gate: a settled task, delegated and repeated.
use inntris_x402_policy_adap.Base.{
  String, ◌≡◌, ◌≢◌, ◌⊎◌, inl, inr, refl, true, false, Option, none, some, List, [], ◌∷◌, str_eq,
  Option-cases,
}
use inntris_x402_policy_adap.Base.Exec.{Result, ok, Exec, ◌>>=◌, catching}
use inntris_x402_policy_adap.Base.Maps.{Map, get, set}
use inntris_x402_policy_adap.Core.Text.{
  identifier, canonical_amount, hash_text, utf8, base64url_text, unsigned_digits,
}
use inntris_x402_policy_adap.Core.Time.{iso_text}
use inntris_x402_policy_adap.Core.Json.{Json, str, sha256_bytes, hash_canonical}
use inntris_x402_policy_adap.Core.Reasons.{distinct_reasons}
use inntris_x402_policy_adap.Core.Action.{action_schema, reference_schema}
use inntris_x402_policy_adap.Core.Encoding.{hash_action}
use inntris_x402_policy_adap.Core.Decision.{
  Decision, signable_payload, decision_schema, fingerprint_payload, registry_schema,
}
use inntris_x402_policy_adap.Core.Signing.{
  Fault, create_signed_decision, calculate_decision_fingerprint, public_key_fingerprint,
  verify_ed25519_signature, verify_decision_signature,
}
use inntris_x402_policy_adap.Core.Replay.{consumed}
use inntris_x402_policy_adap.Verifier.{verify_decision}
use inntris_x402_policy_adap.Adapter.Binding.{payment_requirements_hash, action_from_x402}
use inntris_x402_policy_adap.Adapter.Guard
use inntris_x402_policy_adap.Adapter.Guard.{verified, reject_verdict, GuardOptions}
use inntris_x402_policy_adap.Execution.{
  GateFault, Thrown, reject, guarded, ensure, claim_execution, Stored, claim, complete,
  memory_store,
}
use inntris_x402_policy_adap.Execution.Once.{ClaimCall, claims, after_calls}
use inntris_x402_policy_adap.Execution.Receipt.{Receipt, create_receipt, verify_receipt}
use inntris_x402_policy_adap.Execution.Issued.{create_receipt-verify}
use inntris_x402_policy_adap.A2a.Types.{
  Observation, settled, GateInput, A2aReceipt, a2a_form, a2a_receipt_schema, finality_schema,
  submission_schema, binding_schema, observation_schema,
}
use inntris_x402_policy_adap.A2a.Gate
use inntris_x402_policy_adap.A2a.Delegation.{
  Delegates, process-Delegates, before_delegation-IsCleared,
}
use inntris_x402_policy_adap.A2a.Once.{IsApart, delegate-once}
use inntris_x402_policy_adap.Tests.Samples.{externals, or_default}
use inntris_x402_policy_adap.Tests.Actions.{signer, hash}
use inntris_x402_policy_adap.Tests.Verifier.{entry, signer-IsHonest, registered, registry-accepted}
use inntris_x402_policy_adap.Tests.Wallet.{deciding}
use inntris_x402_policy_adap.Tests.Guard.{schemas, payment, decision as some_decision}

abbrev State : Type 0
State = Unit {0} × Map (Stored String Gate.A2aExecution)

abbrev guard : GuardOptions State
guard = record {
  evaluate = λ a s. (ok (or_default (deciding a) some_decision), s);
  consume = λ i s. (
    ok (record {
      success = true;
      status = consumed;
      decision_id = i.decision_id;
      execution_ref = i.execution_ref;
      consumed_at = some 1100000;
      reason_code = none;
    }),
    s,
  );
  key_registry = entry ∷ [];
  expected_policy_version = some "1";
  reconciliation_store = none;
  classify_settlement_error = none;
}

abbrev challenge : String
challenge = or_default (payment_requirements_hash externals schemas payment.payment_requirements) ""

abbrev request : GateInput
request = record {
  task = record { id = "task"; context_id = "context" };
  payment_submission = record {
    submission_id = "submission";
    task_id = "task";
    context_id = "context";
    resource = payment.resource;
    payment_requirements_hash = challenge;
    submitted_at = 1000000;
    settlement_ref = none;
  };
  payment = payment;
}

abbrev evidence : Observation
evidence = record {
  state = settled;
  task_id = "task";
  context_id = "context";
  payment_submission_id = "submission";
  payment_requirements_hash = challenge;
  resource = payment.resource;
  settlement_ref = some "settlement";
  finality = some "CONFIRMED";
  observed_at = 1050000;
  evidence = [];
}

abbrev options : Gate.A2aOptions State
options = record {
  guard = guard;
  settle = λ r s. (ok (some evidence), s);
  confirm = λ r ref s. (ok (some evidence), s);
  receipt_signer = signer;
  required_finality = "CONFIRMED";
  store = memory_store str_eq;
  guard_error_name = λ e. none;
  error_name = λ e. none;
}

abbrev readings : Gate.A2aReadings
readings = record {
  authorised_at = 1000000;
  verified_at = 1100000;
  executed_at = 1150000;
  receipt_id = "receipt";
}

abbrev delegate : Gate.DelegateInput → Exec Thrown State (Option Json)
delegate d s = (ok (some (str "done")), s)

-- A delegate that does something else.
abbrev rogue : Gate.DelegateInput → Exec Thrown State (Option Json)
rogue d s = (ok none, s)

abbrev start : State
start = (tt, [])

abbrev Before : Type 0
Before = Gate.PreparedInput × Decision × Observation × Option (String × Gate.A2aExecution)

abbrev clearing : Result (GateFault Gate.A2aReason) Before × State
clearing = Gate.before_delegation externals schemas options request readings start

abbrev no_input : Gate.PreparedInput
no_input =
    Gate.prepared_input externals schemas request ""
      (Gate.action_binding externals schemas request "" "")

abbrev cleared : Before
cleared = or_default clearing.0 (no_input, some_decision, evidence, none)

abbrev answer : Result (GateFault Gate.A2aReason) Gate.A2aResult × State
answer = Gate.process externals schemas options delegate request readings start

abbrev no_receipt : Receipt A2aReceipt
no_receipt = record {
  body = Gate.receipt_body externals schemas options no_input some_decision evidence none readings;
  receipt_fingerprint = "";
  signature = "";
}

abbrev no_answer : Gate.A2aResult
no_answer =
    Gate.result_of externals schemas options no_input some_decision evidence
      (record { receipt = no_receipt; result = none }) false

runs :
    (clearing ≡ (ok (cleared.0, cleared.1, cleared.2, none), clearing.1))
    × (answer ≡ (ok (or_default answer.0 no_answer), answer.1))
    × ((or_default answer.0 no_answer).replayed ≡ false)
unfolding Gate.before_delegation Gate.process ◌>>=◌ action_from_x402 externals unsigned_digits get
    set claim complete create_signed_decision action_schema identifier canonical_amount hash_text
    decision_schema hash_action utf8 distinct_reasons base64url_text calculate_decision_fingerprint
    fingerprint_payload iso_text signable_payload registry_schema public_key_fingerprint
    sha256_bytes verify_decision guarded catching ensure reject claim_execution verified
    reject_verdict reference_schema verify_decision_signature verify_ed25519_signature
    create_receipt finality_schema submission_schema binding_schema observation_schema
    a2a_receipt_schema Guard.authorise Guard.verify_before_settlement Guard.consume_before_execution
runs = (refl, refl, refl)

first_delegation :
    Delegates externals schemas options request readings start cleared.0 cleared.1 cleared.2
      clearing.1
first_delegation =
    before_delegation-IsCleared externals schemas options request readings start clearing.1
      cleared.0 cleared.1 cleared.2 none runs.0

process-Delegates_example :
    ((p : Gate.PreparedInput) × (d : Decision) × (e : Observation) × (t : State) × Delegates
        externals schemas options request readings start p d e t)
    ⊎ ((f g : Gate.DelegateInput → Exec Thrown State (Option Json))
        → Gate.process externals schemas options f request readings start
          ≡ Gate.process externals schemas options g request readings start)
process-Delegates_example = process-Delegates externals schemas options request readings start

apart : IsApart externals schemas options
unfolding Gate.ask_provider
apart = record {
  evaluating = λ a s. refl;
  consuming = λ a s. refl;
  asking = λ p d s. elim (Option-cases p.submission.settlement_ref) [
    | inl e ↦ rw (Gate.ask_provider, e) refl
    | inr (r, e) ↦ rw (Gate.ask_provider, e) refl
  ];
}

abbrev between : List (ClaimCall String Gate.A2aExecution)
between = claims "another" "hash" ∷ []

delegate-once_example :
    ((p2 : Gate.PreparedInput) × (d2 : Decision) × (e2 : Observation) × (t2 : State) × Delegates
        externals schemas options request readings
        (tt, after_calls str_eq between clearing.1.1)
        p2
        d2
        e2
        t2
      × (Gate.a2a_execution_ref externals schemas options cleared.0 cleared.1 cleared.2
          ≢ Gate.a2a_execution_ref externals schemas options p2 d2 e2))
    ⊎ ((f g : Gate.DelegateInput → Exec Thrown State (Option Json))
        → Gate.process externals schemas options f request readings
            (tt, after_calls str_eq between clearing.1.1)
          ≡ Gate.process externals schemas options g request readings
              (tt, after_calls str_eq between clearing.1.1))
delegate-once_example =
    delegate-once externals schemas options request request readings readings start clearing.1 tt
      cleared.0 cleared.1 cleared.2 between refl apart first_delegation

abbrev receipt : A2aReceipt
receipt = record {
  receipt_id = "receipt";
  task_id = "task";
  context_id = "context";
  resource = payment.resource;
  payment_submission_id = "submission";
  decision_id = "d1";
  decision_fingerprint = hash;
  action_hash = hash;
  settlement_ref = "settlement";
  settlement_evidence_hash = hash;
  execution_ref = "execution";
  delegate_result_hash = hash;
  executed_at = 1150000;
  key_id = "key";
}

abbrev signed : Result Fault (Receipt A2aReceipt)
signed = create_receipt externals (a2a_form externals) receipt signer

abbrev sealed_receipt : Receipt A2aReceipt
sealed_receipt =
    or_default signed (record { body = receipt; receipt_fingerprint = ""; signature = "" })

receipt-made : signed ≡ ok sealed_receipt
unfolding externals identifier hash_text utf8 base64url_text iso_text create_receipt
    a2a_receipt_schema hash_canonical
receipt-made = refl

create_receipt-verify_example :
    (verify_receipt externals (a2a_form externals) (some sealed_receipt) (some (entry ∷ []))).valid
    ≡ true
create_receipt-verify_example =
    create_receipt-verify externals (a2a_form externals) receipt signer sealed_receipt (entry ∷ [])
      receipt-made refl signer-IsHonest (registered 1150000) registry-accepted
