-- ===== src/Tests/Verifier.antt =====
-- An issued decision at the verifier.
use inntris_x402_policy_adap.Base.{
  ℕ, ◌≡◌, ◌↔◌, refl, true, none, some, [], ◌∷◌, inl, inr, arith, Bool-cases,
}
use inntris_x402_policy_adap.Base.Exec.{ok}
use inntris_x402_policy_adap.Core.Decision.{Decision, Body, KeyEntry, active, policy_engine}
use inntris_x402_policy_adap.Core.Reasons.{allow, merchant_allowed, distinct_reasons}
use inntris_x402_policy_adap.Core.Signing.{
  CreateDecisionInput, unsigned_decision, sealed, calculate_decision_fingerprint,
  create_signed_decision, public_key_fingerprint, verify_ed25519_signature,
}
use inntris_x402_policy_adap.Core.Decision.{
  signable_payload, decision_schema, fingerprint_payload, registry_schema,
}
use inntris_x402_policy_adap.Core.Action.{action_schema}
use inntris_x402_policy_adap.Core.Encoding.{hash_action}
use inntris_x402_policy_adap.Core.Text.{
  identifier, canonical_amount, hash_text, utf8, base64url_text,
}
use inntris_x402_policy_adap.Core.Time.{iso_text}
use inntris_x402_policy_adap.Core.Json.{sha256_bytes}
use inntris_x402_policy_adap.Policy.Evaluate.{approval_of}
use inntris_x402_policy_adap.Verifier.{VerifyInput, verify_decision, verify_signed_decision}
use inntris_x402_policy_adap.Verifier.Laws.{
  IsVerified, verify_decision-IsVerified_iff, verify_decision-reasons_iff,
}
use inntris_x402_policy_adap.Verifier.Issued.{IsRegistered, IsHonest, create-verify}
use inntris_x402_policy_adap.Verifier.Envelope.{SameEnvelope, verify_signed_decision-SameEnvelope}
use inntris_x402_policy_adap.Tests.Samples.{externals, to_digits, toy_sign, is_even, or_default}
use inntris_x402_policy_adap.Tests.Actions.{paying, signer, fresh, hash, reference}

abbrev pub input : CreateDecisionInput
input = record {
  action = paying "20.00";
  evaluation = record {
    verdict = allow;
    reason_codes = merchant_allowed ∷ [];
    approval = approval_of policy_engine;
  };
  policy_hash = hash;
  policy_version = "1";
  decision_ttl_seconds = 300;
  decision_id = none;
  nonce = none;
  supersedes_decision_id = none;
}

abbrev body : Body
body = unsigned_decision externals input signer (fresh 1000000 "d1")

abbrev pub decision : Decision
decision =
    let fingerprint = calculate_decision_fingerprint externals body in
    or_default (create_signed_decision externals input signer (fresh 1000000 "d1"))
      (sealed body fingerprint "")

abbrev pub entry : KeyEntry
entry = record {
  key_id = "key";
  public_key = to_digits signer.public_key;
  fingerprint = public_key_fingerprint externals signer.public_key;
  status = active;
  not_before = 0;
  not_after = none;
}

abbrev asked : VerifyInput
asked = record {
  decision = some decision;
  action = some input.action;
  key_registry = some (entry ∷ []);
  at = 1100000;
  expected_policy_version = some "1";
  expected_payment_requirements_hash = some hash;
}

pub signer-IsHonest : IsHonest externals signer
unfolding externals verify_ed25519_signature
signer-IsHonest payload signature e =
    let same : to_digits (toy_sign signer.public_key payload) ≡ signature = cc in
    rw (← same) (elim (Bool-cases (is_even payload)) [ inl h ↦ rw h | inr h ↦ rw h ])

pub registered : (now : ℕ) → IsRegistered externals (entry ∷ []) signer now
unfolding externals
registered now = record {
  entry = entry;
  listed = inl refl;
  identity = refl;
  not_revoked = λ e. cc;
  from = omega arith;
  until = λ t e. absurd (cc);
  key = refl;
  size = refl;
  fingerprint = refl;
}

decision-issued : create_signed_decision externals input signer (fresh 1000000 "d1") ≡ ok decision
unfolding create_signed_decision action_schema identifier canonical_amount externals hash_text
    decision_schema hash_action utf8 distinct_reasons base64url_text calculate_decision_fingerprint
    fingerprint_payload iso_text signable_payload
decision-issued = refl

pub registry-accepted : registry_schema (entry ∷ []) ≡ true
unfolding registry_schema identifier base64url_text hash_text externals public_key_fingerprint
    sha256_bytes
registry-accepted = refl

create-verify_example : (verify_decision externals asked).valid ≡ true
create-verify_example =
    create-verify externals input signer (fresh 1000000 "d1") decision (entry ∷ []) asked
      decision-issued signer-IsHonest (registered 1000000) registry-accepted refl refl refl
      (omega arith) (omega arith) (λ v e. cc) (λ h e. (reference, refl, cc))

verify_decision-IsVerified_iff_example :
    ((verify_decision externals asked).valid ≡ true)
    ↔ IsVerified externals asked decision input.action (entry ∷ [])
verify_decision-IsVerified_iff_example =
    verify_decision-IsVerified_iff externals asked decision input.action (entry ∷ []) refl refl refl

verify_decision-reasons_iff_example :
    ((verify_decision externals asked).reason_codes ≡ [])
    ↔ ((verify_decision externals asked).valid ≡ true)
verify_decision-reasons_iff_example = verify_decision-reasons_iff externals asked

asked-parsed : (verify_decision externals asked).checks.schema ≡ true
unfolding verify_decision create_signed_decision action_schema identifier canonical_amount externals
    hash_text decision_schema hash_action utf8 distinct_reasons base64url_text
    calculate_decision_fingerprint fingerprint_payload iso_text signable_payload registry_schema
    public_key_fingerprint sha256_bytes
asked-parsed = refl

verify_signed_decision-SameEnvelope_example :
    SameEnvelope
      (verify_signed_decision externals (some decision) (some (entry ∷ [])))
      (verify_decision externals asked).checks
verify_signed_decision-SameEnvelope_example =
    verify_signed_decision-SameEnvelope externals asked asked-parsed
