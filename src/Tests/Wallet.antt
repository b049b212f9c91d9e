-- ===== src/Tests/Wallet.antt =====
-- The wallet gate: one transfer, signed and repeated.
use Prim.Native.String.{◌++◌ as join}
use inntris_x402_policy_adap.Base.{
  String, ◌≡◌, ◌⊎◌, refl, true, false, Option, none, some, List, [], ◌∷◌,
}
use inntris_x402_policy_adap.Base.Exec.{Result, ok, ◌>>=◌, catching}
use inntris_x402_policy_adap.Base.Maps.{Map, get, set}
use inntris_x402_policy_adap.Core.Text.{
  address_text, positive_digits, identifier, canonical_amount, hash_text, utf8, base64url_text,
  lower_text, unsigned_digits,
}
use inntris_x402_policy_adap.Core.Time.{iso_text}
use inntris_x402_policy_adap.Core.Json.{sha256_bytes}
use inntris_x402_policy_adap.Core.Reasons.{distinct_reasons}
use inntris_x402_policy_adap.Core.Action.{Action, action_schema, reference_schema}
use inntris_x402_policy_adap.Core.Encoding.{hash_action}
use inntris_x402_policy_adap.Core.Decision.{
  Decision, signable_payload, decision_schema, fingerprint_payload, registry_schema,
}
use inntris_x402_policy_adap.Core.Signing.{
  Fault, create_signed_decision, calculate_decision_fingerprint, public_key_fingerprint,
  verify_ed25519_signature, verify_decision_signature,
}
use inntris_x402_policy_adap.Core.Replay.{consumed}
use inntris_x402_policy_adap.Verifier.{verify_decision}
use inntris_x402_policy_adap.Execution.{
  GateFault, reject, guarded, ensure, claim_execution, Stored, claimed, Binding, same_binding,
  claim, complete, memory_store,
}
use inntris_x402_policy_adap.Execution.Once.{ClaimCall, claims, after_calls}
use inntris_x402_policy_adap.Wallet.Types.{
  EvmTransaction, EvmWalletGateInput, eip1559, input_schema, transaction_schema, hex_text,
  signed_transaction_schema,
}
use inntris_x402_policy_adap.Wallet.Binding.{
  normalise_evm_transaction, action_from_evm, lower_fields,
}
use inntris_x402_policy_adap.Wallet.Verification.{
  ParsedTransaction, Viem, verify_signed_evm_transaction,
}
use inntris_x402_policy_adap.Wallet.Gate
use inntris_x402_policy_adap.Wallet.Cleared.{IsCleared, before_signing-IsCleared}
use inntris_x402_policy_adap.Wallet.Signing.{
  Answers, sign_and_broadcast-Answers, Clears, sign_and_broadcast-Clears,
}
use inntris_x402_policy_adap.Wallet.Exact.{Carries, verify_signed-Carries}
use inntris_x402_policy_adap.Wallet.Once.{IsApart, sign-once}
use inntris_x402_policy_adap.Tests.Samples.{externals, repeat_text, or_default}
use inntris_x402_policy_adap.Tests.Actions.{paying, signer, fresh}
use inntris_x402_policy_adap.Tests.Verifier.{
  input as decision_input, decision as some_decision, entry,
}

abbrev address : String
address = join "0x" (repeat_text 40 "a")

abbrev recipient : String
recipient = join "0x" (repeat_text 40 "b")

abbrev transfer : EvmTransaction
transfer = record {
  kind = eip1559;
  chain_id = "8453";
  sender = join "0x" (repeat_text 40 "A");
  recipient = recipient;
  value_wei = "20000000";
  call_data = "0x";
  nonce = "7";
  gas_limit = "21000";
  max_fee_per_gas_wei = some "10";
  max_priority_fee_per_gas_wei = some "1";
  gas_price_wei = none;
  access_list = [];
}

abbrev request : EvmWalletGateInput
request = record {
  transaction = transfer;
  principal_id = "org";
  agent_id = "agent";
  resource = "https://shop.example/report";
  purpose = "research";
  asset = "USDC";
  asset_decimals = 6;
  extensions = none;
}

abbrev viem : Viem
viem = record {
  parse_transaction = λ s. some (record {
    kind = "eip1559";
    chain_id = some "8453";
    recipient = some recipient;
    value = some "20000000";
    call_data = none;
    nonce = some "7";
    gas = some "21000";
    max_fee_per_gas = some "10";
    max_priority_fee_per_gas = some "1";
    gas_price = none;
    access_list = none;
  });
  recover_transaction_address = λ s. some address;
  keccak256 = λ s. join "0x" (repeat_text 64 "c");
}

abbrev State : Type 0
State = Unit {0} × Map (Stored Binding Gate.EvmExecution)

abbrev pub deciding : Action → Result Fault Decision
deciding a =
    create_signed_decision externals (record decision_input { action = a }) signer
      (fresh 1000000 "d1")

abbrev options : Gate.EvmGateOptions State
options = record {
  evaluate = λ a s. (ok (or_default (deciding a) some_decision), s);
  consume = λ i s. (
    ok (record {
      success = true;
      status = consumed;
      decision_id = i.decision_id;
      execution_ref = i.execution_ref;
      consumed_at = some 1000000;
      reason_code = none;
    }),
    s,
  );
  key_registry = entry ∷ [];
  get_address = λ s. (ok (join "0x" (repeat_text 40 "A")), s);
  store = memory_store same_binding;
  expected_policy_version = some "1";
}

abbrev signing : Gate.EvmSigning State
signing = record {
  sign_transaction = λ t s. (ok (some "0x02f8"), s);
  broadcast_transaction = λ b s. (ok (some (join "0x" (repeat_text 64 "C"))), s);
}

-- The action of the transfer, and the decision on it.
abbrev action : Action
action =
    or_default (action_from_evm externals (record request { transaction = lower_fields transfer }))
      (paying "20.00")

abbrev decision : Decision
decision = or_default (deciding action) some_decision

abbrev start : State
start = (tt, [])

abbrev no_claim : Gate.EvmClaim
no_claim = record { unsigned_hash = ""; binding = record { binding_hash = ""; execution_ref = "" } }

abbrev Before : Type 0
Before = Gate.Prepared × Gate.EvmClaim × Option (Binding × Gate.EvmExecution)

abbrev clearing : Result (GateFault Gate.EvmReason) Before × State
clearing = Gate.before_signing externals viem options request decision 1100000 start

abbrev cleared : Before
cleared = or_default clearing.0 (record { transaction = transfer; action = action }, no_claim, none)

abbrev answer : Result (GateFault Gate.EvmReason) Gate.EvmResult × State
answer = Gate.sign_and_broadcast externals viem options signing request decision 1100000 start

abbrev no_answer : Gate.EvmResult
no_answer = Gate.executed_result no_claim (record {
  action = action;
  decision = decision;
  unsigned_transaction = transfer;
  signed_transaction = "";
  transaction_hash = "";
})

runs :
    (clearing ≡ (ok (cleared.0, cleared.1, none), clearing.1))
    × (answer ≡ (ok (or_default answer.0 no_answer), answer.1))
    × ((or_default answer.0 no_answer).replayed ≡ false)
unfolding Gate.before_signing Gate.sign_and_broadcast ◌>>=◌ action_from_evm externals lower_text get
    set claim complete create_signed_decision action_schema identifier canonical_amount hash_text
    decision_schema hash_action utf8 distinct_reasons base64url_text calculate_decision_fingerprint
    fingerprint_payload iso_text signable_payload registry_schema public_key_fingerprint
    sha256_bytes unsigned_digits verify_decision input_schema guarded catching ensure reject
    claim_execution address_text reference_schema positive_digits verify_decision_signature
    verify_ed25519_signature signed_transaction_schema verify_signed_evm_transaction hex_text
runs = (refl, refl, refl)

exact : verify_signed_evm_transaction viem "0x02f8" transfer ≡ ok true
unfolding verify_signed_evm_transaction lower_text normalise_evm_transaction transaction_schema
exact = refl

sign_and_broadcast-Answers_example :
    Answers externals viem options signing request decision 1100000 start answer.1
      (or_default answer.0 no_answer)
sign_and_broadcast-Answers_example =
    sign_and_broadcast-Answers externals viem options signing request decision 1100000 start
      answer.1 (or_default answer.0 no_answer) runs.1

first_clear :
    IsCleared externals viem options request decision 1100000 start clearing.1 cleared.0 cleared.1
      claimed
first_clear =
    before_signing-IsCleared externals viem options request decision 1100000 start clearing.1
      cleared.0 cleared.1 none runs.0

sign_and_broadcast-Clears_example :
    Clears externals viem options request decision 1100000 start
    ⊎ ((w other : Gate.EvmSigning State)
        → Gate.sign_and_broadcast externals viem options w request decision 1100000 start
          ≡ Gate.sign_and_broadcast externals viem options other request decision 1100000 start)
sign_and_broadcast-Clears_example =
    sign_and_broadcast-Clears externals viem options request decision 1100000 start

apart : IsApart externals viem options
apart = record { wallet = λ s. refl; provider = λ a s. refl }

-- The same transfer in lower case, for another purpose.
abbrev second_request : EvmWalletGateInput
second_request = record request { transaction = lower_fields transfer; purpose = "data" }

same_form : normalise_evm_transaction transfer ≡ normalise_evm_transaction (lower_fields transfer)
unfolding normalise_evm_transaction lower_text transaction_schema
same_form = refl

-- A wallet that signs something else.
abbrev rogue : Gate.EvmSigning State
rogue = record signing { sign_transaction = λ t s. (ok (some "0x00"), s) }

abbrev between : List (ClaimCall Binding Gate.EvmExecution)
between = claims "another" no_claim.binding ∷ []

sign-once_example :
    Gate.sign_and_broadcast externals viem options signing second_request decision 1200000
      (tt, after_calls same_binding between clearing.1.1)
    ≡ Gate.sign_and_broadcast externals viem options rogue second_request decision 1200000
        (tt, after_calls same_binding between clearing.1.1)
sign-once_example =
    sign-once externals viem options request second_request decision decision 1100000 1200000 start
      tt between refl apart same_form (cleared.0, cleared.1, clearing.1, first_clear) signing rogue

verify_signed-Carries_example :
    (t : EvmTransaction) × (p : ParsedTransaction) × (recovered : String)
    × (normalise_evm_transaction transfer ≡ ok t)
    × (viem.parse_transaction "0x02f8" ≡ some p)
    × (viem.recover_transaction_address "0x02f8" ≡ some recovered)
    × Carries p recovered t
verify_signed-Carries_example = verify_signed-Carries viem "0x02f8" transfer exact
