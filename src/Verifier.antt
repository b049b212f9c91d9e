-- ===== src/Verifier.antt =====
-- packages/decision-verifier/src/verify.ts: offline verification of a signed decision.
pub mod Keys
pub mod Laws
pub mod Issued
pub mod Envelope
use inntris_x402_policy_adap.Base.{
  ℕ, String, Bool, true, false, not, ◌&&◌, ◌||◌, Option, none, some, List, [], ◌∷◌, ◌++◌, leb, ltb,
  ◌==◌, str_eq, if◌then◌else◌, find, length,
}
use inntris_x402_policy_adap.Core.Json.{Externals, hash_canonical}
use inntris_x402_policy_adap.Core.Reasons.{
  Verdict, ReasonCode, includes_reason, invalid_decision_schema, fingerprint_mismatch,
  unknown_signing_key, invalid_signature, action_hash_mismatch, decision_binding_mismatch,
  decision_expired, policy_version_mismatch, payment_requirements_mismatch,
}
use inntris_x402_policy_adap.Core.Action.{
  Action, action_schema, rail_eq, ProtocolReference, x402_reference,
}
use inntris_x402_policy_adap.Core.Encoding.{transaction_json, reference_json, hash_action}
use inntris_x402_policy_adap.Core.Decision.{
  Decision, decision_schema, KeyEntry, KeyStatus, active, retired, revoked, registry_schema,
}
use inntris_x402_policy_adap.Core.Signing.{
  public_key_fingerprint, calculate_decision_fingerprint, verify_decision_signature,
}

pub record Checks : Type 0 where
  pub schema : Bool
  pub signature : Bool
  pub fingerprint : Bool
  pub action_hash : Bool
  pub decision_binding : Bool
  pub expiry : Bool
  pub policy_version : Bool
  pub payment_requirements : Bool

pub record VerificationResult : Type 0 where
  pub valid : Bool
  pub verdict : Option Verdict
  pub decision_id : Option String
  pub checks : Checks
  pub reason_codes : List ReasonCode

-- `none` stands for a value that is not an object of the expected shape. `at` is always given.
pub record VerifyInput : Type 0 where
  pub decision : Option Decision
  pub action : Option Action
  pub key_registry : Option (List KeyEntry)
  pub at : ℕ
  pub expected_policy_version : Option String
  pub expected_payment_requirements_hash : Option String

abbrev pub empty_checks : Checks
empty_checks = record {
  schema = false;
  signature = false;
  fingerprint = false;
  action_hash = false;
  decision_binding = false;
  expiry = false;
  policy_version = false;
  payment_requirements = false;
}

-- `Object.values(checks).every(Boolean)`
abbrev pub every_check : Checks → Bool
every_check c =
    c.schema && c.signature && c.fingerprint && c.action_hash && c.decision_binding && c.expiry
    && c.policy_version && c.payment_requirements

-- `addReason`, where the check failed.
unfoldable pub add_reason_unless : Bool → ReasonCode → List ReasonCode → List ReasonCode
add_reason_unless true r rs = rs
add_reason_unless false r rs = if includes_reason rs r then rs else rs ++ r ∷ []

abbrev pub is_revoked : KeyStatus → Bool
is_revoked revoked = true
is_revoked _ = false

-- `Schema.safeParse(value)`
abbrev pub safe_parse : {A : Type 0} → (A → Bool) → Option A → Option A
safe_parse schema none = none
safe_parse schema (some a) = if schema a then some a else none

abbrev pub before_limit : Option ℕ → ℕ → Bool
before_limit none t = true
before_limit (some limit) t = ltb t limit

abbrev pub version_matches : Option String → String → Bool
version_matches none v = true
version_matches (some e) v = str_eq v e

-- The x402 test on the expected payment requirements.
abbrev pub requirements_match : Option String → ProtocolReference → Bool
requirements_match none r = true
requirements_match (some e) (x402_reference r) = str_eq r.payment_requirements_hash e
requirements_match (some e) _ = false

abbrev pub key_reason : Option (List ℕ) → ReasonCode
key_reason none = unknown_signing_key
key_reason (some k) = invalid_signature

-- `SignedDecisionVerificationResult`
pub record SignedResult : Type 0 where
  pub valid : Bool
  pub schema : Bool
  pub fingerprint : Bool
  pub signature : Bool
  pub reason_codes : List ReasonCode

abbrev signed_schema_failure : SignedResult
signed_schema_failure = record {
  valid = false;
  schema = false;
  fingerprint = false;
  signature = false;
  reason_codes = invalid_decision_schema ∷ [];
}

-- The reasons, in the order in which the code adds them.
unfoldable pub decision_reasons : Checks → ReasonCode → List ReasonCode
unfolding add_reason_unless
decision_reasons c key = add_reason_unless c.payment_requirements payment_requirements_mismatch (
    add_reason_unless c.policy_version policy_version_mismatch (
      add_reason_unless c.expiry decision_expired (
        add_reason_unless c.decision_binding decision_binding_mismatch (
          add_reason_unless c.action_hash action_hash_mismatch (
            add_reason_unless c.signature key
              (add_reason_unless c.fingerprint fingerprint_mismatch []))))))

abbrev pub schema_failure : VerificationResult
schema_failure = record {
  valid = false;
  verdict = none;
  decision_id = none;
  checks = empty_checks;
  reason_codes = invalid_decision_schema ∷ [];
}

module _ (x : Externals) where
  -- `bindsSuppliedAction`
  unfoldable pub binds_supplied_action : Decision → Action → Bool
  binds_supplied_action d a =
      str_eq d.principal_id a.principal_id
      && str_eq d.agent_id a.agent_id
      && rail_eq d.rail a.rail
      && str_eq (hash_canonical x (transaction_json d.transaction))
          (hash_canonical x (transaction_json a.transaction))
      && str_eq (hash_canonical x (reference_json d.protocol_reference))
          (hash_canonical x (reference_json a.protocol_reference))

  -- The tests of `findUsableKey` on the entry with the decision's key id.
  unfoldable pub usable_key : Decision → KeyEntry → Option (List ℕ)
  usable_key d k =
      let public_key = x.base64url_decode k.public_key in
      if is_revoked k.status
      then none
      else if ltb d.issued_at k.not_before || not (before_limit k.not_after d.issued_at)
      then none
      else if not (length public_key == 32)
          || not (str_eq (public_key_fingerprint x public_key) k.fingerprint)
      then none
      else some public_key

  unfoldable pub find_usable_key : Decision → List KeyEntry → Option (List ℕ)
  unfolding usable_key
  find_usable_key d registry = elim (find (λ k. str_eq k.key_id d.key_id) registry) [
    | none ↦ none
    | some k ↦ usable_key d k
  ]

  unfoldable pub signature_check : Decision → Option (List ℕ) → Bool
  signature_check d none = false
  signature_check d (some public_key) = verify_decision_signature x d public_key

  abbrev pub envelope_result : Decision → List KeyEntry → SignedResult
  envelope_result d registry =
      let fingerprint = str_eq (calculate_decision_fingerprint x d.body) d.decision_fingerprint in
      let key = find_usable_key d registry in
      let signature = signature_check d key in
      record {
        valid = fingerprint && signature;
        schema = true;
        fingerprint = fingerprint;
        signature = signature;
        reason_codes =
            add_reason_unless signature (key_reason key)
              (add_reason_unless fingerprint fingerprint_mismatch []);
      }

  -- `verifySignedDecision`
  unfoldable pub verify_signed_decision : Option Decision → Option (List KeyEntry) → SignedResult
  unfolding find_usable_key signature_check add_reason_unless
  verify_signed_decision decision registry = elim (safe_parse (decision_schema x) decision) [
    | none ↦ signed_schema_failure
    | some d ↦ elim (safe_parse registry_schema registry) [
      | none ↦ signed_schema_failure
      | some r ↦ envelope_result d r
    ]
  ]

  -- The checks of `verifyDecision` on parsed values.
  unfoldable pub decision_checks : VerifyInput → Decision → Action → List KeyEntry → Checks
  unfolding binds_supplied_action find_usable_key signature_check
  decision_checks i d a registry = record {
    schema = true;
    signature = signature_check d (find_usable_key d registry);
    fingerprint = str_eq (calculate_decision_fingerprint x d.body) d.decision_fingerprint;
    action_hash = str_eq (hash_action x a) d.action_hash;
    decision_binding = binds_supplied_action d a;
    expiry = leb d.issued_at i.at && ltb i.at d.expires_at;
    policy_version = version_matches i.expected_policy_version d.policy_version;
    payment_requirements =
        requirements_match i.expected_payment_requirements_hash d.protocol_reference;
  }

  unfoldable pub checked_result :
      VerifyInput → Decision → Action → List KeyEntry → VerificationResult
  unfolding decision_checks decision_reasons
  checked_result i d a registry =
      let checks = decision_checks i d a registry in
      record {
        valid = every_check checks;
        verdict = some d.verdict;
        decision_id = some d.decision_id;
        checks = checks;
        reason_codes = decision_reasons checks (key_reason (find_usable_key d registry));
      }

  -- `verifyDecision`
  unfoldable pub verify_decision : VerifyInput → VerificationResult
  unfolding checked_result
  verify_decision i = elim (safe_parse (decision_schema x) i.decision) [
    | none ↦ schema_failure
    | some d ↦ elim (safe_parse (action_schema x) i.action) [
      | none ↦ schema_failure
      | some a ↦ elim (safe_parse registry_schema i.key_registry) [
        | none ↦ schema_failure
        | some r ↦ checked_result i d a r
      ]
    ]
  ]
