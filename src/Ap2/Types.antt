-- ===== src/Ap2/Types.antt =====
-- packages/ap2-runtime-gate/src/types.ts, and the fields of the receipt of src/receipt.ts.
use inntris_x402_policy_adap.Base.{
  ℕ, String, Bool, ◌&&◌, Option, List, str_eq, ◌==◌, leb, length, all,
}
use inntris_x402_policy_adap.Core.Text.{
  codes, sized, identifier, hash_text, base64url_text, unsigned_digits,
}
use inntris_x402_policy_adap.Core.Time.{iso_text}
use inntris_x402_policy_adap.Core.Json.{Json, str, Fields, field, Externals}
use inntris_x402_policy_adap.Execution.Receipt.{ReceiptForm}

abbrev pub official_repository : String
official_repository = "https://github.com/google-agentic-commerce/AP2"

abbrev pub official_commit : String
official_commit = "e1ea56db72a6385bce3e5c1112b3a56ce60acb43"

abbrev pub protocol_version : String
protocol_version = "0.2"

-- `AP2MandatePresentation`
pub record Presentation : Type 0 where
  pub checkout_mandate_token : String
  pub payment_mandate_token : String
  pub checkout_jwt : String
  pub checkout_audience : String
  pub checkout_nonce : String
  pub checkout_issuer : String
  pub payment_audience : String
  pub payment_nonce : String

-- `AP2TrustMaterial`
pub record TrustMaterial : Type 0 where
  pub issuer_public_jwk : List (String × Json)
  pub merchant_public_jwk : List (String × Json)

-- `AP2OfficialVerificationRequest`
pub record VerificationRequest : Type 0 where
  pub mandates : Presentation
  pub trust : TrustMaterial
  pub expected_merchant_id : String
  pub current_time_epoch : ℕ

pub record Sdk : Type 0 where
  pub repository : String
  pub commit : String
  pub protocol_version : String

pub record Intent : Type 0 where
  pub verified : Bool
  pub checkout_open_mandate_hash : String
  pub payment_open_mandate_hash : String

pub record CheckoutMandate : Type 0 where
  pub verified : Bool
  pub mandate_hash : String
  pub expires_at : ℕ
  pub checkout_hash : String
  pub checkout_id : String
  pub merchant_id : String
  pub merchant_name : String

pub record PaymentMandate : Type 0 where
  pub verified : Bool
  pub mandate_hash : String
  pub expires_at : ℕ
  pub transaction_id : String
  pub payee_id : String
  pub payee_name : String
  pub amount_minor : String
  pub currency : String
  pub payment_instrument_type : String

-- `AP2OfficialVerification`
pub record Verification : Type 0 where
  pub sdk : Sdk
  pub mode : String
  pub intent : Intent
  pub checkout : CheckoutMandate
  pub payment : PaymentMandate
  pub verified_at : ℕ

-- What a verifier answers: a value with the fields of a verification, or another one, of which the
-- repository and the commit under `sdk` are read.
pub data RawVerification : Type 0 where
  shaped : Verification → RawVerification
  misshapen : Option String → Option String → RawVerification

-- `AP2RuntimeGateInput`
pub record Ap2Input : Type 0 where
  pub mandates : Presentation
  pub principal_id : String
  pub agent_id : String
  pub resource : String
  pub purpose : String
  pub expected_merchant_id : String
  pub expected_amount_minor : String
  pub expected_currency : String
  pub extensions : Option (List (String × Json))

abbrev pub compact_token : String → Bool
compact_token s = sized 16 1000000 s

abbrev is_capital : ℕ → Bool
is_capital c = leb b'A' c && leb c b'Z'

-- `/^[A-Z]{3}$/`
unfoldable pub currency_text : String → Bool
currency_text s = let l = codes s in length l == 3 && all is_capital l

-- `AP2MandatePresentationSchema`
unfoldable pub presentation_schema : Presentation → Bool
unfolding sized identifier
presentation_schema p =
    compact_token p.checkout_mandate_token
    && compact_token p.payment_mandate_token
    && compact_token p.checkout_jwt
    && identifier p.checkout_audience
    && identifier p.checkout_nonce
    && identifier p.checkout_issuer
    && identifier p.payment_audience
    && identifier p.payment_nonce

-- `AP2OfficialVerificationRequestSchema`
unfoldable pub request_schema : VerificationRequest → Bool
unfolding presentation_schema identifier
request_schema r = presentation_schema r.mandates && identifier r.expected_merchant_id

unfoldable pub checkout_schema : CheckoutMandate → Bool
unfolding sized identifier hash_text base64url_text
checkout_schema c =
    c.verified
    && hash_text c.mandate_hash
    && base64url_text c.checkout_hash
    && identifier c.checkout_id
    && identifier c.merchant_id
    && sized 1 512 c.merchant_name

unfoldable pub payment_schema : PaymentMandate → Bool
unfolding sized identifier hash_text base64url_text unsigned_digits currency_text
payment_schema p =
    p.verified
    && hash_text p.mandate_hash
    && base64url_text p.transaction_id
    && identifier p.payee_id
    && sized 1 512 p.payee_name
    && unsigned_digits (codes p.amount_minor)
    && currency_text p.currency
    && sized 1 128 p.payment_instrument_type

-- `AP2OfficialVerificationSchema`
unfoldable pub verification_schema : Verification → Bool
unfolding checkout_schema payment_schema hash_text
verification_schema v =
    str_eq v.sdk.repository official_repository
    && str_eq v.sdk.commit official_commit
    && str_eq v.sdk.protocol_version protocol_version
    && str_eq v.mode "autonomous"
    && hash_text v.intent.checkout_open_mandate_hash
    && hash_text v.intent.payment_open_mandate_hash
    && checkout_schema v.checkout
    && payment_schema v.payment

-- `AP2GateInputSchema`
unfoldable pub ap2_input_schema : Externals → Ap2Input → Bool
unfolding presentation_schema sized unsigned_digits currency_text
ap2_input_schema x i =
    presentation_schema i.mandates
    && sized 1 128 i.principal_id
    && sized 1 128 i.agent_id
    && x.is_url i.resource
    && sized 1 128 i.purpose
    && sized 1 128 i.expected_merchant_id
    && unsigned_digits (codes i.expected_amount_minor)
    && currency_text i.expected_currency

-- What an `AP2ActionReceipt` says.
pub record Ap2Receipt : Type 0 where
  pub receipt_id : String
  pub intent_verification_hash : String
  pub checkout_mandate_hash : String
  pub payment_mandate_hash : String
  pub checkout_hash : String
  pub transaction_id : String
  pub decision_id : String
  pub decision_fingerprint : String
  pub action_hash : String
  pub execution_ref : String
  pub delegate_result_hash : String
  pub executed_at : ℕ
  pub key_id : String

abbrev pub ap2_fields : Ap2Receipt → Fields → Fields
ap2_fields r rest = field "version" (str "inntris-ap2-action-receipt-v1") (
    field "receipt_id" (str r.receipt_id) (
      field "intent_verification_hash" (str r.intent_verification_hash) (
        field "checkout_mandate_hash" (str r.checkout_mandate_hash) (
          field "payment_mandate_hash" (str r.payment_mandate_hash) (
            field "checkout_hash" (str r.checkout_hash) (
              field "transaction_id" (str r.transaction_id) (
                field "decision_id" (str r.decision_id) (
                  field "decision_fingerprint" (str r.decision_fingerprint) (
                    field "action_hash" (str r.action_hash) (
                      field "execution_ref" (str r.execution_ref) (
                        field "delegate_result_hash" (str r.delegate_result_hash)
                          (field "executed_at" (str (iso_text r.executed_at)) rest))))))))))))

-- `AP2ActionReceiptSchema` on these fields.
unfoldable pub ap2_receipt_schema : Ap2Receipt → Bool
unfolding identifier hash_text sized base64url_text
ap2_receipt_schema r =
    identifier r.receipt_id
    && hash_text r.intent_verification_hash
    && hash_text r.checkout_mandate_hash
    && hash_text r.payment_mandate_hash
    && base64url_text r.checkout_hash
    && base64url_text r.transaction_id
    && identifier r.decision_id
    && hash_text r.decision_fingerprint
    && hash_text r.action_hash
    && sized 1 512 r.execution_ref
    && hash_text r.delegate_result_hash

abbrev pub ap2_form : ReceiptForm Ap2Receipt
ap2_form = record {
  body_fields = ap2_fields;
  body_schema = ap2_receipt_schema;
  key_id = λ r. r.key_id;
  executed_at = λ r. r.executed_at;
}
