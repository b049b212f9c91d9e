-- ===== src/Execution/Receipt.antt =====
-- Signed action receipts: packages/a2a-settlement-gate/src/receipt.ts and, with other fields,
-- packages/ap2-runtime-gate/src/receipt.ts. `B` is what a receipt says besides its fingerprint and
-- its signature; the key id is part of it.
use inntris_x402_policy_adap.Base.{
  ℕ, String, Bool, true, false, not, ◌&&◌, ◌||◌, Option, none, some, List, find, ltb, ◌==◌, length,
  str_eq, if◌then◌else◌,
}
use inntris_x402_policy_adap.Base.Exec.{Result, bind}
use inntris_x402_policy_adap.Core.Text.{hash_text, identifier, base64url_text}
use inntris_x402_policy_adap.Core.Json.{
  Json, str, obj, Fields, field, end, Externals, canonical_bytes, hash_canonical,
}
use inntris_x402_policy_adap.Core.Decision.{KeyEntry, registry_schema}
use inntris_x402_policy_adap.Core.Signing.{Fault, SigningProvider, parse, public_key_fingerprint}
use inntris_x402_policy_adap.Verifier.{is_revoked, before_limit, safe_parse}

-- How a kind of receipt is written and read: its fields in front of others, and their schema.
pub record ReceiptForm (B : Type 0) : Type 0 where
  pub body_fields : B → Fields → Fields
  pub body_schema : B → Bool
  pub key_id : B → String
  pub executed_at : B → ℕ

pub record Receipt (B : Type 0) : Type 0 where
  pub body : B
  pub receipt_fingerprint : String
  pub signature : String

-- The checks of `A2AReceiptVerificationResult`, and whether all of them passed.
pub record ReceiptVerification : Type 0 where
  pub valid : Bool
  pub schema : Bool
  pub fingerprint : Bool
  pub key : Bool
  pub signature : Bool

-- What is returned before the signature is checked.
abbrev pub receipt_failure : Bool → Bool → ReceiptVerification
receipt_failure schema fingerprint = record {
  valid = false;
  schema = schema;
  fingerprint = fingerprint;
  key = false;
  signature = false;
}

module _ (x : Externals) {B : Type 0} (form : ReceiptForm B) where
  open form use {body_fields, body_schema, key_id, executed_at}

  abbrev receipt_signing : B → Json
  receipt_signing b = obj (field "alg" (str "Ed25519") (field "key_id" (str (key_id b)) end))

  -- `calculateA2AReceiptFingerprint`
  unfoldable pub calculate_receipt_fingerprint : B → String
  calculate_receipt_fingerprint b =
      hash_canonical x (obj (body_fields b (field "signing" (receipt_signing b) end)))

  unfoldable pub signable_receipt : B → String → Json
  signable_receipt b fingerprint = obj (
      body_fields b
        (field "receipt_fingerprint" (str fingerprint) (field "signing" (receipt_signing b) end)))

  -- `A2AActionReceiptSchema`
  unfoldable pub receipt_schema : Receipt B → Bool
  receipt_schema r =
      body_schema r.body
      && hash_text r.receipt_fingerprint
      && identifier (key_id r.body)
      && base64url_text r.signature

  -- `createA2AActionReceipt` on the fields that it collects.
  unfoldable pub create_receipt : B → SigningProvider → Result Fault (Receipt B)
  unfolding calculate_receipt_fingerprint signable_receipt receipt_schema
  create_receipt b signer =
      let fingerprint = calculate_receipt_fingerprint b in
      bind (signer.sign (canonical_bytes x (signable_receipt b fingerprint))) λ signature.
        parse receipt_schema
          (record { body = b; receipt_fingerprint = fingerprint; signature = signature })

  -- The key may have signed at the time of execution.
  abbrev pub key_in_force : Receipt B → KeyEntry → Bool
  key_in_force r k = not (
      is_revoked k.status
      || ltb (executed_at r.body) k.not_before
      || not (before_limit k.not_after (executed_at r.body)))

  abbrev pub key_matches : KeyEntry → Bool
  key_matches k =
      let public_key = x.base64url_decode k.public_key in
      length public_key == 32 && str_eq (public_key_fingerprint x public_key) k.fingerprint

  abbrev pub receipt_signature : Receipt B → KeyEntry → Bool
  receipt_signature r k =
      let signature = x.base64url_decode r.signature in
      length signature == 64
      && x.ed25519_verify (canonical_bytes x (signable_receipt r.body r.receipt_fingerprint))
          signature (x.base64url_decode k.public_key)

  -- The checks with the key that the registry has under the receipt's key id.
  unfoldable pub check_with_key : Receipt B → Bool → KeyEntry → ReceiptVerification
  unfolding signable_receipt
  check_with_key r fingerprint k =
      if not (key_in_force r k)
      then receipt_failure true fingerprint
      else if not (key_matches k)
      then receipt_failure true fingerprint
      else record {
        valid = fingerprint && receipt_signature r k;
        schema = true;
        fingerprint = fingerprint;
        key = true;
        signature = receipt_signature r k;
      }

  unfoldable pub check_receipt : Receipt B → List KeyEntry → ReceiptVerification
  unfolding check_with_key calculate_receipt_fingerprint
  check_receipt r ks =
      let fingerprint = str_eq (calculate_receipt_fingerprint r.body) r.receipt_fingerprint in
      elim (find (λ k. str_eq k.key_id (key_id r.body)) ks) [
        | none ↦ receipt_failure true fingerprint
        | some k ↦ check_with_key r fingerprint k
      ]

  -- `verifyA2AActionReceipt`
  unfoldable pub verify_receipt : Option (Receipt B) → Option (List KeyEntry) → ReceiptVerification
  unfolding check_receipt receipt_schema
  verify_receipt receipt registry = elim (safe_parse receipt_schema receipt) [
    | none ↦ receipt_failure false false
    | some r ↦ elim (safe_parse registry_schema registry) [
      | none ↦ receipt_failure false false
      | some ks ↦ check_receipt r ks
    ]
  ]
