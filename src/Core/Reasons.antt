-- ===== src/Core/Reasons.antt =====
-- The verdicts and reason codes of packages/decision-core/src/schemas.ts.
use inntris_x402_policy_adap.Base.{
  String, ◌≡◌, refl, Bool, true, false, ◌||◌, List, [], ◌∷◌, str_eq, not, ◌&&◌,
}

pub data Verdict : Type 0 where
  allow block require_approval : Verdict

abbrev pub is_allow : Verdict → Bool
is_allow allow = true
is_allow _ = false

abbrev pub is_block : Verdict → Bool
is_block block = true
is_block _ = false

abbrev pub is_require_approval : Verdict → Bool
is_require_approval require_approval = true
is_require_approval _ = false

abbrev pub verdict_name : Verdict → String
verdict_name allow = "ALLOW"
verdict_name block = "BLOCK"
verdict_name require_approval = "REQUIRE_APPROVAL"

pub data ReasonCode : Type 0 where
  merchant_allowed within_transaction_limit within_daily_limit default_deny network_not_allowed :
      ReasonCode
  asset_not_allowed payee_not_allowed resource_not_allowed purpose_not_allowed : ReasonCode
  amount_exceeds_transaction_limit daily_limit_exceeded outside_allowed_time : ReasonCode
  human_approval_required human_approval_granted human_approval_refused approval_not_pending :
      ReasonCode
  approval_already_resolved policy_expired policy_version_mismatch action_hash_mismatch : ReasonCode
  payment_requirements_mismatch decision_binding_mismatch decision_expired : ReasonCode
  invalid_decision_schema fingerprint_mismatch invalid_signature unknown_signing_key : ReasonCode
  nonce_already_consumed decision_not_allow decision_service_unavailable : ReasonCode
  execution_state_unavailable execution_conflict execution_outcome_unknown : ReasonCode
  execution_already_completed execution_failed_final reconciliation_required : ReasonCode
  kya_authority_required kya_presentation_invalid kya_proof_invalid kya_proof_replayed : ReasonCode
  kya_agent_identity_mismatch kya_delegation_invalid kya_delegation_signature_invalid : ReasonCode
  kya_delegation_expired kya_delegation_revoked kya_revocation_unavailable : ReasonCode
  kya_action_not_delegated kya_max_amount_required kya_amount_exceeds_delegation : ReasonCode
  kya_currency_mismatch kya_invocation_target_mismatch kya_audience_mismatch : ReasonCode
  kya_responsible_party_not_allowed kya_principal_mismatch kya_proof_assurance_insufficient :
      ReasonCode
  kya_authority_state_unavailable kya_authority_binding_mismatch : ReasonCode

abbrev pub reason_name : ReasonCode → String
reason_name merchant_allowed = "MERCHANT_ALLOWED"
reason_name within_transaction_limit = "WITHIN_TRANSACTION_LIMIT"
reason_name within_daily_limit = "WITHIN_DAILY_LIMIT"
reason_name default_deny = "DEFAULT_DENY"
reason_name network_not_allowed = "NETWORK_NOT_ALLOWED"
reason_name asset_not_allowed = "ASSET_NOT_ALLOWED"
reason_name payee_not_allowed = "PAYEE_NOT_ALLOWED"
reason_name resource_not_allowed = "RESOURCE_NOT_ALLOWED"
reason_name purpose_not_allowed = "PURPOSE_NOT_ALLOWED"
reason_name amount_exceeds_transaction_limit = "AMOUNT_EXCEEDS_TRANSACTION_LIMIT"
reason_name daily_limit_exceeded = "DAILY_LIMIT_EXCEEDED"
reason_name outside_allowed_time = "OUTSIDE_ALLOWED_TIME"
reason_name human_approval_required = "HUMAN_APPROVAL_REQUIRED"
reason_name human_approval_granted = "HUMAN_APPROVAL_GRANTED"
reason_name human_approval_refused = "HUMAN_APPROVAL_REFUSED"
reason_name approval_not_pending = "APPROVAL_NOT_PENDING"
reason_name approval_already_resolved = "APPROVAL_ALREADY_RESOLVED"
reason_name policy_expired = "POLICY_EXPIRED"
reason_name policy_version_mismatch = "POLICY_VERSION_MISMATCH"
reason_name action_hash_mismatch = "ACTION_HASH_MISMATCH"
reason_name payment_requirements_mismatch = "PAYMENT_REQUIREMENTS_MISMATCH"
reason_name decision_binding_mismatch = "DECISION_BINDING_MISMATCH"
reason_name decision_expired = "DECISION_EXPIRED"
reason_name invalid_decision_schema = "INVALID_DECISION_SCHEMA"
reason_name fingerprint_mismatch = "FINGERPRINT_MISMATCH"
reason_name invalid_signature = "INVALID_SIGNATURE"
reason_name unknown_signing_key = "UNKNOWN_SIGNING_KEY"
reason_name nonce_already_consumed = "NONCE_ALREADY_CONSUMED"
reason_name decision_not_allow = "DECISION_NOT_ALLOW"
reason_name decision_service_unavailable = "DECISION_SERVICE_UNAVAILABLE"
reason_name execution_state_unavailable = "EXECUTION_STATE_UNAVAILABLE"
reason_name execution_conflict = "EXECUTION_CONFLICT"
reason_name execution_outcome_unknown = "EXECUTION_OUTCOME_UNKNOWN"
reason_name execution_already_completed = "EXECUTION_ALREADY_COMPLETED"
reason_name execution_failed_final = "EXECUTION_FAILED_FINAL"
reason_name reconciliation_required = "RECONCILIATION_REQUIRED"
reason_name kya_authority_required = "KYA_AUTHORITY_REQUIRED"
reason_name kya_presentation_invalid = "KYA_PRESENTATION_INVALID"
reason_name kya_proof_invalid = "KYA_PROOF_INVALID"
reason_name kya_proof_replayed = "KYA_PROOF_REPLAYED"
reason_name kya_agent_identity_mismatch = "KYA_AGENT_IDENTITY_MISMATCH"
reason_name kya_delegation_invalid = "KYA_DELEGATION_INVALID"
reason_name kya_delegation_signature_invalid = "KYA_DELEGATION_SIGNATURE_INVALID"
reason_name kya_delegation_expired = "KYA_DELEGATION_EXPIRED"
reason_name kya_delegation_revoked = "KYA_DELEGATION_REVOKED"
reason_name kya_revocation_unavailable = "KYA_REVOCATION_UNAVAILABLE"
reason_name kya_action_not_delegated = "KYA_ACTION_NOT_DELEGATED"
reason_name kya_max_amount_required = "KYA_MAX_AMOUNT_REQUIRED"
reason_name kya_amount_exceeds_delegation = "KYA_AMOUNT_EXCEEDS_DELEGATION"
reason_name kya_currency_mismatch = "KYA_CURRENCY_MISMATCH"
reason_name kya_invocation_target_mismatch = "KYA_INVOCATION_TARGET_MISMATCH"
reason_name kya_audience_mismatch = "KYA_AUDIENCE_MISMATCH"
reason_name kya_responsible_party_not_allowed = "KYA_RESPONSIBLE_PARTY_NOT_ALLOWED"
reason_name kya_principal_mismatch = "KYA_PRINCIPAL_MISMATCH"
reason_name kya_proof_assurance_insufficient = "KYA_PROOF_ASSURANCE_INSUFFICIENT"
reason_name kya_authority_state_unavailable = "KYA_AUTHORITY_STATE_UNAVAILABLE"
reason_name kya_authority_binding_mismatch = "KYA_AUTHORITY_BINDING_MISMATCH"

-- `a === b` on codes, which are their names.
unfoldable pub reason_eq : ReasonCode → ReasonCode → Bool
reason_eq a b = str_eq (reason_name a) (reason_name b)

-- `reasons.includes(reason)`
unfoldable pub includes_reason : List ReasonCode → ReasonCode → Bool
unfolding reason_eq
includes_reason [] r = false
includes_reason (c ∷ cs) r = reason_eq c r || includes_reason cs r

-- `new Set(codes).size === codes.length`
unfoldable pub distinct_reasons : List ReasonCode → Bool
unfolding includes_reason
distinct_reasons [] = true
distinct_reasons (c ∷ cs) = not (includes_reason cs c) && distinct_reasons cs

pub is_allow-eq : (v : Verdict) → is_allow v ≡ true → v ≡ allow
is_allow-eq allow h = refl
is_allow-eq _ h = cc
