-- ===== src/Mtp/Client.antt =====
-- packages/mtp-authority/src/client.ts: the requests to the authority, and the checks of its answers.
use Prim.Native.String.{◌++◌ as join}
use inntris_x402_policy_adap.Base.{
  ℕ, String, Bool, true, false, not, ◌&&◌, Option, none, some, List, [], ◌∷◌, leb, ◌==◌, str_eq,
  option_eq, if◌then◌else◌, ◌-◌, ◌%◌,
}
use inntris_x402_policy_adap.Base.Exec.{
  Result, ok, err, Exec, pure, lift, bind, require, ◌>>=◌, ◌>>◌, or_throw,
}
use inntris_x402_policy_adap.Core.Text.{codes, sized, hash_text, utf16_length}
use inntris_x402_policy_adap.Core.Time.{iso_text}
use inntris_x402_policy_adap.Core.Json.{
  Json, str, obj, field, end, Externals, fields_of, hash_canonical,
}
use inntris_x402_policy_adap.Core.Action.{Action, action_schema, rail_name, resource_of}
use inntris_x402_policy_adap.Core.Encoding.{action_json, hash_action}
use inntris_x402_policy_adap.Core.Decision.{Decision, decision_schema}
use inntris_x402_policy_adap.Core.Signing.{Fault, type_error, schema_error, SigningProvider, parse}
use inntris_x402_policy_adap.Verifier.{safe_parse}
use inntris_x402_policy_adap.Adapter.Binding.{take_text, drop_text}
use inntris_x402_policy_adap.Mtp.Store.{
  SignedRequest, Authorization, ConsumptionReceipt, ConsumptionStatus,
}

-- `MtpAuthorityDeniedError`, `MtpConsumptionRejectedError`, `MtpAuthorityError`, and other errors.
pub data MtpFault : Type 0 where
  authority_denied : ℕ → MtpFault
  consumption_rejected authority_unavailable : MtpFault
  mtp_fault : Fault → MtpFault

-- `MtpApprovedResponse`, as far as the client reads or tests it.
pub record ApprovedResponse : Type 0 where
  pub approval_token : String
  pub trust_score : ℕ
  pub audit_id : String
  pub timestamp : String

-- `MtpTokenResponse`, as far as the client reads it; null is absent.
pub record TokenResponse : Type 0 where
  pub valid : Bool
  pub verdict : Option String
  pub agent_id : Option String
  pub action_hash : Option String
  pub action_hash_matches : Option Bool
  pub consumption_audit_id : Option String
  pub consumption_status : Option ConsumptionStatus
  pub execution_ref : Option String
  pub sandbox : Option Bool

-- The body of `/verify-token`; the action type, the signature's version and `consume` are constants.
pub record TokenRequest : Type 0 where
  pub approval_token : String
  pub request : SignedRequest
  pub execution_ref : String

-- The tests of zod for a UUID and a timestamp, and Node's conversions of texts.
pub record MtpExternals : Type 0 where
  pub is_uuid : String → Bool
  pub is_datetime : String → Bool
  pub decode_hex : String → List ℕ
  pub base64_of_url : String → String

-- `MtpAuthorityClientOptions`; the two posts throw for a service that fails, and answer the status with
-- the body, where `none` is a body of another shape.
pub record MtpClient (S : Type 0) : Type 0 where
  pub agent_id : String
  pub signer : SigningProvider
  pub policy_hash : Option String
  pub post_verify : SignedRequest → Exec MtpFault S (ℕ × Option ApprovedResponse)
  pub post_token : TokenRequest → Exec MtpFault S (ℕ × Option TokenResponse)

abbrev pub mtp_of : {A : Type 0} → Result Fault A → Result MtpFault A
mtp_of (ok a) = ok a
mtp_of (err e) = err (mtp_fault e)

abbrev raw_sha256 : String → Bool
raw_sha256 s = hash_text (join "sha256:" s)

abbrev optional_sha256 : Option String → Bool
optional_sha256 none = true
optional_sha256 (some s) = raw_sha256 s

-- `normalizePolicyHash`
unfoldable pub normalise_policy_hash : Option String → Result Fault (Option String)
normalise_policy_hash none = ok none
normalise_policy_hash (some s) =
    let raw = if str_eq (take_text 7 s) "sha256:" then drop_text 7 s else s in
    bind (require (raw_sha256 raw) type_error) λ _. ok (some raw)

-- `canonicalMtpTimestamp`
unfoldable pub canonical_mtp_timestamp : ℕ → String
canonical_mtp_timestamp t =
    let iso = iso_text t in
    let size = utf16_length (codes iso) in
    if t % 1000 == 0
    then join (take_text (size - 5) iso) "Z"
    else join (take_text (size - 1) iso) "000Z"

abbrev pub status_ok : ℕ → MtpFault → Result MtpFault (Unit {0})
status_ok status f = require (status == 200) f

abbrev pub is_given : Option Bool → Bool → Bool
is_given none b = false
is_given (some true) b = b
is_given (some false) b = not b

module _ (x : Externals) (e : MtpExternals) where
  -- `actionToMtpPayload`
  unfoldable pub action_to_mtp_payload : Action → Decision → Result Fault (List (String × Json))
  action_to_mtp_payload action decision = bind (parse (action_schema x) action) λ a.
      bind (parse (decision_schema x) decision) λ d.
        bind (require (str_eq d.action_hash (hash_action x a)) type_error) λ _. ok (
          ("version", str "inntris-mtp-authority-v1")
          ∷ ("amount", str a.transaction.amount)
          ∷ ("currency", str a.transaction.asset)
          ∷ ("recipient", str a.transaction.payee)
          ∷ ("network", str a.transaction.network)
          ∷ ("purpose", str a.transaction.purpose)
          ∷ ("resource", str (resource_of a.protocol_reference))
          ∷ ("rail", str (rail_name a.rail))
          ∷ ("principal_id", str a.principal_id)
          ∷ ("declared_agent_id", str a.agent_id)
          ∷ ("inntris_action", action_json a)
          ∷ ("inntris_action_hash", str d.action_hash)
          ∷ ("inntris_decision_id", str d.decision_id)
          ∷ ("inntris_decision_fingerprint", str d.decision_fingerprint)
          ∷ ("inntris_policy_hash", str d.policy_hash)
          ∷ ("inntris_policy_version", str d.policy_version)
          ∷ [])

  abbrev raw_hash : Json → String
  raw_hash j = drop_text 7 (hash_canonical x j)

  -- `MtpSignedVerifyRequestSchema`
  unfoldable pub signed_request_schema : SignedRequest → Bool
  signed_request_schema r =
      e.is_uuid r.agent_id
      && sized 1 64 r.nonce
      && e.is_datetime r.timestamp
      && not (str_eq r.signature "")
      && optional_sha256 r.policy_hash

  -- `MtpApprovedResponseSchema`
  unfoldable pub approved_schema : ApprovedResponse → Bool
  approved_schema r =
      not (str_eq r.approval_token "")
      && leb r.trust_score 100
      && e.is_uuid r.audit_id
      && e.is_datetime r.timestamp

  module _ {S : Type 0} (c : MtpClient S) where
    abbrev envelope_hash : List (String × Json) → String → String → String
    envelope_hash payload nonce timestamp = raw_hash (
        obj (
          field "agent_id" (str c.agent_id) (
            field "action_type" (str "financial_transaction") (
              field "payload_hash" (str (raw_hash (obj (fields_of payload))))
                (field "nonce" (str nonce) (field "timestamp" (str timestamp) end))))))

    -- `#signedRequest`
    unfoldable pub signed_request :
        List (String × Json) → String → ℕ → Result Fault (SignedRequest × String)
    unfolding signed_request_schema canonical_mtp_timestamp
    signed_request payload nonce now =
        let timestamp = canonical_mtp_timestamp now in
        let hash = envelope_hash payload nonce timestamp in
        bind (c.signer.sign (e.decode_hex hash)) λ signature.
          bind
            (parse signed_request_schema (record {
              agent_id = c.agent_id;
              payload = payload;
              nonce = nonce;
              timestamp = timestamp;
              signature = e.base64_of_url signature;
              policy_hash = c.policy_hash;
            }))
            λ request. ok (request, hash)

    abbrev pub authorization_of :
        Decision → SignedRequest × String → ApprovedResponse → Authorization
    authorization_of d (request, hash) r = record {
      decision_id = d.decision_id;
      action_hash = d.action_hash;
      request = request;
      mtp_action_hash = hash;
      approval_token = r.approval_token;
      authorization_audit_id = r.audit_id;
      authorized_at = r.timestamp;
      execution_ref = none;
      consumption_audit_id = none;
      consumption_status = none;
      completed_at = none;
    }

    -- `authorize`
    unfoldable pub authorize : Action → Decision → String → ℕ → Exec MtpFault S Authorization
    unfolding action_to_mtp_payload signed_request approved_schema
    authorize action decision nonce now = do
      payload ← lift (mtp_of (action_to_mtp_payload action decision))
      signed ← lift (mtp_of (signed_request payload nonce now))
      answer ← c.post_verify signed.0
      lift (status_ok answer.0 (authority_denied answer.0))
      approved ← lift (or_throw (safe_parse approved_schema answer.1) (mtp_fault schema_error))
      pure (authorization_of decision signed approved)

    -- The receipt of a token response whose evidence is about this authorization and execution.
    unfoldable pub check_evidence :
        Authorization → String → TokenResponse → Result MtpFault ConsumptionReceipt
    check_evidence a ref r = bind (require r.valid consumption_rejected) λ _.
        bind
          (require
            (option_eq r.verdict (some "approved")
              && option_eq r.agent_id (some a.request.agent_id)
              && option_eq r.action_hash (some a.mtp_action_hash)
              && is_given r.action_hash_matches true
              && option_eq r.execution_ref (some ref)
              && is_given r.sandbox false)
            consumption_rejected)
          λ _. bind (or_throw r.consumption_audit_id consumption_rejected) λ audit.
            bind (or_throw r.consumption_status consumption_rejected)
              λ status. ok (record { execution_ref = ref; audit_id = audit; status = status })

    -- `consume`
    unfoldable pub consume_token : Authorization → String → Exec MtpFault S ConsumptionReceipt
    unfolding check_evidence
    consume_token a ref = do
      answer ←
          c.post_token
            (record { approval_token = a.approval_token; request = a.request; execution_ref = ref })
      lift (status_ok answer.0 consumption_rejected)
      response ← lift (or_throw answer.1 (mtp_fault schema_error))
      lift (check_evidence a ref response)
