-- ===== src/Tests/Guard.antt =====
-- The guard around the settlement of an x402 payment, with a signed decision and in-memory stores.
use inntris_x402_policy_adap.Base.{Option, none, ◌≡◌, ◌⊎◌, refl, true, none, some, [], ◌∷◌, String}
use inntris_x402_policy_adap.Base.Exec.{◌>>=◌, catching, err}
use inntris_x402_policy_adap.Base.{List}
use inntris_x402_policy_adap.Base.Maps.{get, set}
use inntris_x402_policy_adap.Core.Text.{
  identifier, canonical_amount, hash_text, utf8, base64url_text,
}
use inntris_x402_policy_adap.Core.Time.{iso_text}
use inntris_x402_policy_adap.Core.Json.{hash_canonical, sha256_bytes}
use inntris_x402_policy_adap.Core.Reasons.{distinct_reasons}
use inntris_x402_policy_adap.Core.Action.{action_schema}
use inntris_x402_policy_adap.Core.Encoding.{hash_action}
use inntris_x402_policy_adap.Core.Replay.{consume_nonce}
use inntris_x402_policy_adap.Core.Decision.{
  decision_schema, fingerprint_payload, signable_payload, registry_schema,
}
use inntris_x402_policy_adap.Core.Signing.{
  verify_decision_signature, verify_ed25519_signature, create_signed_decision,
  calculate_decision_fingerprint,
}
use inntris_x402_policy_adap.Policy.Document.{rail_policy}
use inntris_x402_policy_adap.Policy.Window.{within_time_window}
use inntris_x402_policy_adap.Policy.Evaluate.{
  evaluate_policy, screen, denied_by_explicit_rule, matching_merchant, transaction_limit,
  settle_evaluation, local_time_parts, includes_weekday,
}
use inntris_x402_policy_adap.Verifier.{verify_decision}
use inntris_x402_policy_adap.Reconciliation.Types.{prepare_schema, operation_schema, start_schema}
use inntris_x402_policy_adap.Reconciliation.Store.{
  prepare, prepare_once, prepare_new, operation_id_of, start, start_known, start_claim,
}
use inntris_x402_policy_adap.Adapter.Guard.{verified, reject_verdict}
use inntris_x402_policy_adap.Tests.Actions.{hash}
use inntris_x402_policy_adap.Base.Exec.{Exec, Result, ok}
use inntris_x402_policy_adap.Core.Decision.{Decision, KeyEntry, active, policy_engine}
use inntris_x402_policy_adap.Core.Reasons.{allow, merchant_allowed}
use inntris_x402_policy_adap.Core.Text.{unsigned_digits}
use inntris_x402_policy_adap.Core.Signing.{Fault, unsigned_decision, public_key_fingerprint}
use inntris_x402_policy_adap.Policy.Evaluate.{approval_of}
use inntris_x402_policy_adap.Policy.Stores.{Memory, memory_stores, empty_memory}
use inntris_x402_policy_adap.Policy.Provider.{evaluate, consume}
use inntris_x402_policy_adap.Reconciliation.Store.{Operations}
use inntris_x402_policy_adap.Adapter.Binding.{
  X402Schemas, BindingInput, PaymentRequirements, action_from_x402, format_atomic_amount,
}
use inntris_x402_policy_adap.Adapter.Guard.{
  Claim, GuardFault, before_settlement, GuardOptions, Readings, SettleError, operations_store,
  settle_if_authorised,
}
use inntris_x402_policy_adap.Adapter.Guard.{authorise}
use inntris_x402_policy_adap.Adapter.Guard.Authorise.{IsIssued, authorise-IsIssued}
use inntris_x402_policy_adap.Adapter.Guard.Once.{settle-once}
use inntris_x402_policy_adap.Reconciliation.Histories.{after_all, StoreCall, reports_unknown}
use inntris_x402_policy_adap.Adapter.Guard.Settlement.{
  before_settlement-IsAuthorised, IsAuthorised, settle_if_authorised-IsAuthorised,
}
use inntris_x402_policy_adap.Tests.Samples.{externals, platform, or_default, to_digits}
use inntris_x402_policy_adap.Tests.Actions.{paying, provider, signer, fresh}

abbrev pub schemas : X402Schemas
schemas = record { is_requirements = λ r. true; is_payload = λ p. true }

abbrev requirements : PaymentRequirements
requirements = record {
  scheme = "exact";
  network = "base";
  asset = "USDC";
  amount = "20000000";
  pay_to = "0xshop";
  max_timeout_seconds = "60";
  extra = none;
}

abbrev pub payment : BindingInput
payment = record {
  payment_requirements = requirements;
  payment_payload = none;
  resource = "https://shop.example/report";
  principal_id = "org";
  agent_id = "agent";
  purpose = "research";
  asset_decimals = 6;
  extensions = none;
}

abbrev World : Type 0
World = Memory × Operations

abbrev evaluated : Result Fault Decision × Memory
evaluated =
    evaluate externals platform provider (memory_stores platform.decimals true)
      (or_default (action_from_x402 externals schemas payment) (paying "20.00")) 1000000
      (fresh 1000000 "d1") empty_memory

abbrev pub decision : Decision
decision = or_default evaluated.0 (record {
  body =
      unsigned_decision externals
        (record {
          action = paying "20.00";
          evaluation = record {
            verdict = allow;
            reason_codes = merchant_allowed ∷ [];
            approval = approval_of policy_engine;
          };
          policy_hash = "";
          policy_version = "1";
          decision_ttl_seconds = 300;
          decision_id = none;
          nonce = none;
          supersedes_decision_id = none;
        })
        signer (fresh 1000000 "d1");
  decision_fingerprint = "";
  signature = "";
})

abbrev entry : KeyEntry
entry = record {
  key_id = "key";
  public_key = to_digits signer.public_key;
  fingerprint = public_key_fingerprint externals signer.public_key;
  status = active;
  not_before = 0;
  not_after = none;
}

abbrev guard : GuardOptions World
guard = record {
  evaluate = λ a s.
      let (r, m) =
        evaluate externals platform provider (memory_stores platform.decimals true) a 1000000
          (fresh 1000000 "d1") s.0 in
      (r, (m, s.1));
  consume = λ i s.
      let (r, m) =
        consume externals platform provider (memory_stores platform.decimals true) i 1000100 s.0 in
      (r, (m, s.1));
  key_registry = entry ∷ [];
  expected_policy_version = some "1";
  reconciliation_store = some (operations_store externals);
  classify_settlement_error = none;
}

abbrev readings : Readings
readings = record {
  verified_at = 1000100;
  prepared_at = 1000100;
  started_at = 1000100;
  ended_at = 1000200;
}

-- Atomic amounts become canonical ones.
format_atomic_amount_known :
    (format_atomic_amount "20000000" 6 ≡ ok "20.00")
    × (format_atomic_amount "1234567" 6 ≡ ok "1.234567")
    × (format_atomic_amount "5" 0 ≡ ok "5.00")
    × (format_atomic_amount "1200" 18 ≡ ok "0.0000000000000012")
unfolding format_atomic_amount unsigned_digits
format_atomic_amount_known = (refl, refl, refl, refl)

settle_if_authorised-IsAuthorised_example :
    IsAuthorised externals schemas guard payment decision "r1" readings (evaluated.1, [])
    ⊎ ((settle other : Exec SettleError World String)
        → settle_if_authorised externals schemas guard payment decision "r1" readings settle
            (evaluated.1, [])
          ≡ settle_if_authorised externals schemas guard payment decision "r1" readings other
              (evaluated.1, []))
settle_if_authorised-IsAuthorised_example =
    settle_if_authorised-IsAuthorised externals schemas guard payment decision "r1" readings
      (evaluated.1, [])

abbrev start_state : World
start_state = (evaluated.1, [])

abbrev passed : Result GuardFault (Option (Claim World)) × World
passed = before_settlement externals schemas guard payment decision "r1" readings start_state

abbrev passed_claim : Option (Claim World)
passed_claim = or_default passed.0 none

abbrev authorised : Result GuardFault Decision × World
authorised = authorise externals schemas guard payment 1000100 (empty_memory, [])

-- Both methods return.
guard-runs :
    (passed ≡ (ok passed_claim, passed.1))
    × (authorised ≡ (ok (or_default authorised.0 decision), authorised.1))
unfolding authorise before_settlement ◌>>=◌ catching action_from_x402 unsigned_digits action_schema
    identifier canonical_amount externals hash_text hash_canonical utf8 verified reject_verdict
    verify_decision decision_schema registry_schema evaluate evaluate_policy screen
    denied_by_explicit_rule rail_policy matching_merchant transaction_limit settle_evaluation
    platform local_time_parts create_signed_decision hash_action distinct_reasons base64url_text
    calculate_decision_fingerprint fingerprint_payload iso_text signable_payload includes_weekday
    within_time_window memory_stores get set consume consume_nonce public_key_fingerprint
    sha256_bytes prepare prepare_schema prepare_once prepare_new operation_schema operation_id_of
    start start_schema start_known start_claim verify_decision_signature verify_ed25519_signature
guard-runs = (refl, refl)

abbrev first : IsAuthorised externals schemas guard payment decision "r1" readings start_state
first =
    before_settlement-IsAuthorised externals schemas guard payment decision "r1" readings
      start_state passed.1 passed_claim guard-runs.0

abbrev paying_out : Exec SettleError World String
paying_out s = (ok "tx", s)

abbrev timing_out : Exec SettleError World String
timing_out s = (err (record { error_name = some "TimeoutError" }), s)

-- A report on another operation comes between the two runs.
abbrev reports : List StoreCall
reports =
    reports_unknown (record {
      operation_id = "sha256:00";
      binding_hash = hash;
      error_code = "TimeoutError";
      observed_at = 1000200;
    })
    ∷ []

settle-once_example :
    settle_if_authorised externals schemas guard payment decision "r1" readings paying_out
      (first.final.0, after_all externals reports first.final.1)
    ≡ settle_if_authorised externals schemas guard payment decision "r1" readings timing_out
        (first.final.0, after_all externals reports first.final.1)
unfolding get
settle-once_example =
    settle-once externals schemas guard refl (λ a u. refl) payment payment decision decision "r1"
      readings readings start_state first.final.0 reports (λ k r h. cc) first paying_out timing_out

authorise-IsIssued_example :
    IsIssued externals schemas guard payment 1000100
      (empty_memory, [])
      authorised.1
      (or_default authorised.0 decision)
authorise-IsIssued_example =
    authorise-IsIssued externals schemas guard payment 1000100 (empty_memory, []) authorised.1
      (or_default authorised.0 decision) guard-runs.1
