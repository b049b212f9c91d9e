-- ===== src/Core/Decision.antt =====
-- Decisions and key registries of packages/decision-core/src/schemas.ts: the data, what the schemas
-- accept, and the JSON that is fingerprinted and signed. A timestamp of `IsoTimestampSchema` is
-- its millisecond since the epoch, which `Date.parse` and `toISOString` exchange for the text.
use inntris_x402_policy_adap.Base.{
  ℕ, String, Bool, true, false, not, ◌&&◌, Option, none, some, List, [], ◌∷◌, ltb, leb, length, all,
  includes,
}
use inntris_x402_policy_adap.Core.Text.{sized, identifier, hash_text, base64url_text}
use inntris_x402_policy_adap.Core.Json.{
  Json, str, arr, obj, Items, nil, cons, Fields, end, field, nullable, texts, Externals,
}
use inntris_x402_policy_adap.Core.Reasons.{
  Verdict, ReasonCode, verdict_name, reason_name, distinct_reasons,
}
use inntris_x402_policy_adap.Core.Action.{
  Rail, rail_name, rail_eq, Transaction, ProtocolReference, reference_rail, transaction_schema,
  reference_schema,
}
use inntris_x402_policy_adap.Core.Encoding.{transaction_json, reference_json}
use inntris_x402_policy_adap.Core.Time.{iso_text}

pub data ApprovalMode : Type 0 where
  policy_engine human : ApprovalMode

abbrev pub mode_name : ApprovalMode → String
mode_name policy_engine = "policy_engine"
mode_name human = "human"

pub record Approval : Type 0 where
  pub mode : ApprovalMode
  pub approval_reference : Option String
  pub approver_ids : List String

-- The part of a decision that its fingerprint covers, the signing identity included.
pub record Body : Type 0 where
  pub decision_id : String
  pub verdict : Verdict
  pub principal_id : String
  pub agent_id : String
  pub action_hash : String
  pub rail : Rail
  pub protocol_reference : ProtocolReference
  pub transaction : Transaction
  pub policy_hash : String
  pub policy_version : String
  pub approval : Approval
  pub reason_codes : List ReasonCode
  pub issued_at : ℕ
  pub expires_at : ℕ
  pub nonce : String
  pub supersedes_decision_id : Option String
  pub key_id : String

pub record Decision : Type 0 where
  pub body : Body
  pub open body use *
  pub decision_fingerprint : String
  pub signature : String

abbrev optional_text : Option String → Bool
optional_text none = true
optional_text (some s) = sized 1 256 s

abbrev optional_identifier : Option String → Bool
optional_identifier none = true
optional_identifier (some s) = identifier s

unfoldable pub approval_schema : Approval → Bool
approval_schema a =
    optional_text a.approval_reference
    && all identifier a.approver_ids
    && leb (length a.approver_ids) 32

abbrev some_reason : List ReasonCode → Bool
some_reason [] = false
some_reason (c ∷ cs) = true

module _ (x : Externals) where
  unfoldable pub body_schema : Body → Bool
  unfolding approval_schema
  body_schema d =
      identifier d.decision_id
      && identifier d.principal_id
      && identifier d.agent_id
      && hash_text d.action_hash
      && rail_eq (reference_rail d.protocol_reference) d.rail
      && reference_schema x d.protocol_reference
      && transaction_schema d.transaction
      && hash_text d.policy_hash
      && sized 1 64 d.policy_version
      && approval_schema d.approval
      && some_reason d.reason_codes
      && ltb d.issued_at d.expires_at
      && distinct_reasons d.reason_codes
      && base64url_text d.nonce
      && optional_identifier d.supersedes_decision_id
      && identifier d.key_id

  -- `InntrisDecisionV1Schema`
  unfoldable pub decision_schema : Decision → Bool
  unfolding body_schema
  decision_schema d =
      body_schema d.body && hash_text d.decision_fingerprint && base64url_text d.signature

abbrev reason_items : List ReasonCode → Items
reason_items [] = nil
reason_items (c ∷ cs) = cons (str (reason_name c)) (reason_items cs)

abbrev approval_json : Approval → Json
approval_json a = obj (
    field "mode" (str (mode_name a.mode)) (
      field "approval_reference" (nullable a.approval_reference)
        (field "approver_ids" (arr (texts a.approver_ids)) end)))

-- All fields of a body but `signing`, before other fields.
abbrev body_fields : Body → Fields → Fields
body_fields d rest = field "version" (str "inntris-decision-v1") (
    field "decision_id" (str d.decision_id) (
      field "verdict" (str (verdict_name d.verdict)) (
        field "principal_id" (str d.principal_id) (
          field "agent_id" (str d.agent_id) (
            field "action_type" (str "financial_transaction") (
              field "action_hash" (str d.action_hash) (
                field "rail" (str (rail_name d.rail)) (
                  field "protocol_reference" (reference_json d.protocol_reference) (
                    field "transaction" (transaction_json d.transaction) (
                      field "policy"
                        (obj (
                          field "policy_hash" (str d.policy_hash)
                            (field "policy_version" (str d.policy_version) end)))
                        (field "approval" (approval_json d.approval) (
                          field "reason_codes" (arr (reason_items d.reason_codes)) (
                            field "issued_at" (str (iso_text d.issued_at)) (
                              field "expires_at" (str (iso_text d.expires_at)) (
                                field "nonce" (str d.nonce) (
                                  field "supersedes_decision_id" (nullable d.supersedes_decision_id)
                                    rest))))))))))))))))

abbrev signing_json : Body → Json
signing_json d = obj (field "alg" (str "Ed25519") (field "key_id" (str d.key_id) end))

-- `decisionFingerprintPayload`: neither the fingerprint nor the signature.
unfoldable pub fingerprint_payload : Body → Json
fingerprint_payload d = obj (body_fields d (field "signing" (signing_json d) end))

-- `signableDecisionPayload`: the fingerprint, and no signature.
unfoldable pub signable_payload : Body → String → Json
signable_payload d fingerprint = obj (
    body_fields d
      (field "decision_fingerprint" (str fingerprint) (field "signing" (signing_json d) end)))

pub data KeyStatus : Type 0 where
  active retired revoked : KeyStatus

pub record KeyEntry : Type 0 where
  pub key_id : String
  pub public_key : String
  pub fingerprint : String
  pub status : KeyStatus
  pub not_before : ℕ
  pub not_after : Option ℕ

abbrev pub key_ids : List KeyEntry → List String
key_ids [] = []
key_ids (k ∷ ks) = k.key_id ∷ key_ids ks

-- `new Set(ids).size === ids.length`
unfoldable pub distinct_texts : List String → Bool
distinct_texts [] = true
distinct_texts (s ∷ l) = not (includes l s) && distinct_texts l

unfoldable pub key_entry_schema : KeyEntry → Bool
key_entry_schema k = identifier k.key_id && base64url_text k.public_key && hash_text k.fingerprint

abbrev some_key : List KeyEntry → Bool
some_key [] = false
some_key (k ∷ ks) = true

-- `KeyRegistrySchema`
unfoldable pub registry_schema : List KeyEntry → Bool
unfolding key_entry_schema distinct_texts
registry_schema ks = some_key ks && all key_entry_schema ks && distinct_texts (key_ids ks)
