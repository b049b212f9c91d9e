-- ===== src/Core/Signing.antt =====
-- packages/decision-core/src/signing.ts and decision.ts: fingerprint, signature, and the issue of a
-- signed decision. The clock, `randomUUID` and `randomNonce` are read by the caller.
pub mod Facts
use inntris_x402_policy_adap.Base.{
  ℕ, ◌+◌, ◌*◌, String, Bool, false, ◌&&◌, Option, none, some, List, length, ◌==◌, str_eq,
  if◌then◌else◌,
}
use inntris_x402_policy_adap.Base.Exec.{Result, ok, err, bind}
use inntris_x402_policy_adap.Core.Json.{Externals, canonical_bytes, sha256_bytes}
use inntris_x402_policy_adap.Core.Reasons.{Verdict, ReasonCode}
use inntris_x402_policy_adap.Core.Action.{Action, action_schema}
use inntris_x402_policy_adap.Core.Encoding.{hash_action}
use inntris_x402_policy_adap.Core.Decision.{
  Approval, Body, Decision, decision_schema, fingerprint_payload, signable_payload, KeyStatus,
  KeyEntry, key_entry_schema,
}

-- What is thrown: by a schema, by an explicit check, or by a service that the code calls.
pub data Fault : Type 0 where
  schema_error type_error state_error unavailable : Fault

-- `SigningProvider`; the algorithm is always Ed25519.
pub record SigningProvider : Type 0 where
  pub key_id : String
  pub public_key : List ℕ
  pub sign : List ℕ → Result Fault String

-- `Schema.parse`
abbrev pub parse : {A : Type 0} → (A → Bool) → A → Result Fault A
parse schema a = if schema a then ok a else err schema_error

pub record Evaluation : Type 0 where
  pub verdict : Verdict
  pub reason_codes : List ReasonCode
  pub approval : Approval

pub record CreateDecisionInput : Type 0 where
  pub action : Action
  pub evaluation : Evaluation
  pub policy_hash : String
  pub policy_version : String
  pub decision_ttl_seconds : ℕ
  pub decision_id : Option String
  pub nonce : Option String
  pub supersedes_decision_id : Option String

-- One reading of the clock and of the random sources.
pub record Fresh : Type 0 where
  pub now : ℕ
  pub uuid : String
  pub random_nonce : String

abbrev pub or_else : {A : Type 0} → Option A → A → A
or_else none d = d
or_else (some a) d = a

-- `{ ...signable, signing: { ...signable.signing, signature } }`
abbrev pub sealed : Body → String → String → Decision
sealed body fingerprint signature = record {
  body = body;
  decision_fingerprint = fingerprint;
  signature = signature;
}

module _ (x : Externals) where
  -- `publicKeyFingerprint`
  unfoldable pub public_key_fingerprint : List ℕ → String
  public_key_fingerprint k = sha256_bytes x k

  unfoldable pub calculate_decision_fingerprint : Body → String
  calculate_decision_fingerprint d = sha256_bytes x (canonical_bytes x (fingerprint_payload d))

  -- `Ed25519SigningProvider.fromSeed`; `public_key` is what the seed yields.
  unfoldable pub from_seed : String → List ℕ → List ℕ → Result Fault SigningProvider
  from_seed key_id public_key seed =
      if length seed == 32
      then ok (record {
        key_id = key_id;
        public_key = public_key;
        sign = λ payload. ok (x.base64url_encode (x.ed25519_sign seed payload));
      })
      else err type_error

  unfoldable pub verify_ed25519_signature : List ℕ → String → List ℕ → Bool
  verify_ed25519_signature payload signature public_key =
      let bytes = x.base64url_decode signature in
      if length public_key == 32
      then length bytes == 64 && x.ed25519_verify payload bytes public_key
      else false

  unfoldable pub verify_decision_signature : Decision → List ℕ → Bool
  verify_decision_signature d public_key =
      verify_ed25519_signature (canonical_bytes x (signable_payload d.body d.decision_fingerprint))
        d.signature public_key

  -- `attachDecisionSignature`
  unfoldable pub attach_decision_signature : Body → SigningProvider → Result Fault Decision
  attach_decision_signature unsigned signer =
      if str_eq unsigned.key_id signer.key_id
      then (let fingerprint = calculate_decision_fingerprint unsigned in
          bind (signer.sign (canonical_bytes x (signable_payload unsigned fingerprint)))
            λ signature. parse (decision_schema x) (sealed unsigned fingerprint signature))
      else err type_error

  -- The unsigned decision of `createSignedDecision`.
  unfoldable pub unsigned_decision : CreateDecisionInput → SigningProvider → Fresh → Body
  unsigned_decision input signer fresh = record {
    decision_id = or_else input.decision_id fresh.uuid;
    verdict = input.evaluation.verdict;
    principal_id = input.action.principal_id;
    agent_id = input.action.agent_id;
    action_hash = hash_action x input.action;
    rail = input.action.rail;
    protocol_reference = input.action.protocol_reference;
    transaction = input.action.transaction;
    policy_hash = input.policy_hash;
    policy_version = input.policy_version;
    approval = input.evaluation.approval;
    reason_codes = input.evaluation.reason_codes;
    issued_at = fresh.now;
    expires_at = fresh.now + input.decision_ttl_seconds * 1000;
    nonce = or_else input.nonce fresh.random_nonce;
    supersedes_decision_id = input.supersedes_decision_id;
    key_id = signer.key_id;
  }

  unfoldable pub create_signed_decision :
      CreateDecisionInput → SigningProvider → Fresh → Result Fault Decision
  unfolding attach_decision_signature unsigned_decision
  create_signed_decision input signer fresh =
      bind (parse (action_schema x) input.action)
        λ action. attach_decision_signature (unsigned_decision input signer fresh) signer

  -- `buildKeyRegistryEntry`
  unfoldable pub build_key_registry_entry :
      SigningProvider → ℕ → Option ℕ → KeyStatus → Result Fault KeyEntry
  build_key_registry_entry signer not_before not_after status = parse key_entry_schema (record {
    key_id = signer.key_id;
    public_key = x.base64url_encode signer.public_key;
    fingerprint = public_key_fingerprint signer.public_key;
    status = status;
    not_before = not_before;
    not_after = not_after;
  })
