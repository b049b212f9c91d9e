-- ===== src/Tests/Ap2.antt =====
-- The AP2 gate: verified mandates, paid and repeated.
use Prim.Native.String.{◌++◌ as join}
use inntris_x402_policy_adap.Base.{
  str_eq, if◌then◌else◌, String, ◌≡◌, ◌≢◌, ◌⊎◌, refl, true, false, Option, none, some, List, [],
  ◌∷◌,
}
use inntris_x402_policy_adap.Base.Exec.{Result, ok, Exec, ◌>>=◌, catching}
use inntris_x402_policy_adap.Base.Maps.{Map, get, set}
use inntris_x402_policy_adap.Core.Text.{
  identifier, canonical_amount, hash_text, utf8, base64url_text, unsigned_digits, sized,
}
use inntris_x402_policy_adap.Core.Time.{iso_text}
use inntris_x402_policy_adap.Core.Json.{Json, str, sha256_bytes, hash_canonical}
use inntris_x402_policy_adap.Core.Reasons.{distinct_reasons}
use inntris_x402_policy_adap.Core.Action.{action_schema, reference_schema}
use inntris_x402_policy_adap.Core.Encoding.{hash_action}
use inntris_x402_policy_adap.Core.Decision.{
  signable_payload, decision_schema, fingerprint_payload, registry_schema,
}
use inntris_x402_policy_adap.Core.Signing.{
  create_signed_decision, calculate_decision_fingerprint, public_key_fingerprint,
  verify_ed25519_signature, verify_decision_signature,
}
use inntris_x402_policy_adap.Core.Replay.{consumed}
use inntris_x402_policy_adap.Verifier.{verify_decision}
use inntris_x402_policy_adap.Execution.{
  GateFault, Thrown, reject, guarded, ensure, spend, claim_execution, Stored, Binding, same_binding,
  claim, complete, memory_store,
}
use inntris_x402_policy_adap.Execution.Once.{ClaimCall, claims, after_calls}
use inntris_x402_policy_adap.Execution.Receipt.{create_receipt}
use inntris_x402_policy_adap.Ap2.Types.{
  Ap2Input, Verification, VerificationRequest, shaped, official_repository, official_commit,
  protocol_version, presentation_schema, verification_schema, ap2_input_schema, ap2_receipt_schema,
  request_schema,
}
use inntris_x402_policy_adap.Ap2.Binding.{action_from_ap2}
use inntris_x402_policy_adap.Ap2.Gate
use inntris_x402_policy_adap.Ap2.Delegation.{Runs, process-Runs, before_run-IsCleared}
use inntris_x402_policy_adap.Ap2.Once.{IsApart, run-once}
use inntris_x402_policy_adap.Tests.Samples.{externals, or_default, repeat_text}
use inntris_x402_policy_adap.Tests.Actions.{signer, hash, paying}
use inntris_x402_policy_adap.Tests.Verifier.{entry}
use inntris_x402_policy_adap.Tests.Wallet.{deciding}
use inntris_x402_policy_adap.Tests.Guard.{decision as some_decision}

abbrev pub State : Type 0
State = Unit {0} × Map (Stored Binding Gate.Ap2Execution)

abbrev token : String
token = repeat_text 16 "t"

abbrev pub request : Ap2Input
request = record {
  mandates = record {
    checkout_mandate_token = token;
    payment_mandate_token = token;
    checkout_jwt = token;
    checkout_audience = "audience";
    checkout_nonce = "nonce";
    checkout_issuer = "issuer";
    payment_audience = "audience";
    payment_nonce = "nonce";
  };
  principal_id = "org";
  agent_id = "agent";
  resource = "https://shop.example/report";
  purpose = "research";
  expected_merchant_id = "shop";
  expected_amount_minor = "2000";
  expected_currency = "USD";
  extensions = none;
}

abbrev verification : Verification
verification = record {
  sdk = record {
    repository = official_repository;
    commit = official_commit;
    protocol_version = protocol_version;
  };
  mode = "autonomous";
  intent = record {
    verified = true;
    checkout_open_mandate_hash = hash;
    payment_open_mandate_hash = hash;
  };
  checkout = record {
    verified = true;
    mandate_hash = hash;
    expires_at = 2000000;
    checkout_hash = "checkout";
    checkout_id = "c1";
    merchant_id = "shop";
    merchant_name = "Shop";
  };
  payment = record {
    verified = true;
    mandate_hash = hash;
    expires_at = 2000000;
    transaction_id = "checkout";
    payee_id = "shop";
    payee_name = "Shop";
    amount_minor = "2000";
    currency = "USD";
    payment_instrument_type = "card";
  };
  verified_at = 1000000;
}

-- The verification of another payment, which a request with another nonce asks for.
abbrev verification_for : VerificationRequest → Verification
verification_for r =
    if str_eq r.mandates.checkout_nonce "nonce" then verification else record verification {
      payment = record verification.payment { mandate_hash = join "sha256:" (repeat_text 64 "c") };
    }

abbrev pub options : Gate.Ap2Options State
options = record {
  evaluate = λ a s. (ok (or_default (deciding a) some_decision), s);
  consume = λ i s. (
    ok (record {
      success = true;
      status = consumed;
      decision_id = i.decision_id;
      execution_ref = i.execution_ref;
      consumed_at = some 1000000;
      reason_code = none;
    }),
    s,
  );
  key_registry = entry ∷ [];
  verify = λ r s. (ok (shaped (verification_for r)), s);
  resolve = λ m s. (ok (record { issuer_public_jwk = []; merchant_public_jwk = [] }), s);
  receipt_signer = signer;
  store = memory_store same_binding;
  expected_policy_version = some "1";
  max_verification_age_seconds = none;
  currency_decimals = ("USD", 2) ∷ [];
  error_name = λ e. none;
}

abbrev pub readings : Gate.Ap2Readings
readings = record {
  now = 1010000;
  decided_at = 1010100;
  spent_at = 1010200;
  executed_at = 1010300;
  receipt_id = "receipt";
}

abbrev pub delegate : Gate.Ap2DelegateInput → Exec Thrown State (Option Json)
delegate d s = (ok (some (str "done")), s)

abbrev pub start : State
start = (tt, [])

abbrev Before : Type 0
Before = Gate.Ap2Run × Option (Binding × Gate.Ap2Execution)

abbrev pub clearing : Result (GateFault Gate.Ap2Reason) Before × State
clearing = Gate.before_run externals options request readings start

abbrev no_run : Gate.Ap2Run
no_run = record { verification = verification; action = paying "20.00"; decision = some_decision }

abbrev pub cleared : Gate.Ap2Run
cleared = (or_default clearing.0 (no_run, none)).0

abbrev answer : Result (GateFault Gate.Ap2Reason) Gate.Ap2Result × State
answer = Gate.process externals options delegate request readings start

abbrev pub no_answer : Gate.Ap2Result
no_answer = record {
  execution =
      Gate.execution_of externals options no_run
        (record {
          body =
              Gate.ap2_receipt_body externals options no_run
                (record {
                  resource = "";
                  intent_verification_hash = "";
                  checkout_mandate_hash = "";
                  payment_mandate_hash = "";
                  checkout_hash = "";
                  transaction_id = "";
                })
                none readings;
          receipt_fingerprint = "";
          signature = "";
        })
        none;
  execution_ref = "";
  replayed = true;
}

pub runs :
    (clearing ≡ (ok (cleared, none), clearing.1))
    × (answer ≡ (ok (or_default answer.0 no_answer), answer.1))
    × ((or_default answer.0 no_answer).replayed ≡ false)
unfolding Gate.before_run Gate.process ◌>>=◌ action_from_ap2 externals unsigned_digits get set claim
    complete create_signed_decision action_schema identifier canonical_amount hash_text
    decision_schema hash_action utf8 distinct_reasons base64url_text calculate_decision_fingerprint
    fingerprint_payload iso_text signable_payload registry_schema public_key_fingerprint
    sha256_bytes verify_decision guarded ensure reject claim_execution reference_schema
    verify_decision_signature verify_ed25519_signature create_receipt presentation_schema
    verification_schema ap2_input_schema ap2_receipt_schema request_schema hash_canonical sized
    catching spend
runs = (refl, refl, refl)

pub first_run : Runs externals options request readings start cleared clearing.1
first_run =
    before_run-IsCleared externals options request readings start clearing.1 cleared none runs.0

process-Runs_example :
    ((u : Gate.Ap2Run) × (t : State) × Runs externals options request readings start u t)
    ⊎ ((f g : Gate.Ap2DelegateInput → Exec Thrown State (Option Json))
        → Gate.process externals options f request readings start
          ≡ Gate.process externals options g request readings start)
process-Runs_example = process-Runs externals options request readings start

pub apart : IsApart externals options
apart = record {
  resolving = λ m s. refl;
  verifying = λ r s. refl;
  evaluating = λ a s. refl;
  consuming = λ a s. refl;
}

abbrev between : List (ClaimCall Binding Gate.Ap2Execution)
between = claims "another" (record { binding_hash = ""; execution_ref = "" }) ∷ []

run-once_example :
    ((u2 : Gate.Ap2Run) × (t2 : State) × Runs externals options request readings
        (tt, after_calls same_binding between clearing.1.1)
        u2
        t2
      × (cleared.verification.payment.mandate_hash ≢ u2.verification.payment.mandate_hash))
    ⊎ ((f g : Gate.Ap2DelegateInput → Exec Thrown State (Option Json))
        → Gate.process externals options f request readings
            (tt, after_calls same_binding between clearing.1.1)
          ≡ Gate.process externals options g request readings
              (tt, after_calls same_binding between clearing.1.1))
run-once_example =
    run-once externals options request request readings readings start clearing.1 tt cleared between
      refl apart first_run
