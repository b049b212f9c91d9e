-- ===== src/Verifier/Issued.antt =====
-- A decision that packages/decision-core/src/decision.ts issues passes the verifier.
use inntris_x402_policy_adap.Base.{
  ℕ, ◌+◌, ◌*◌, ◌≤◌, ◌<◌, String, ◌≡◌, ◌≢◌, sym, ◌∙◌, true, some, List, In, length,
}
use inntris_x402_policy_adap.Base.Exec.{ok}
use inntris_x402_policy_adap.Core.Json.{Externals}
use inntris_x402_policy_adap.Core.Action.{X402Reference, x402_reference}
use inntris_x402_policy_adap.Core.Decision.{Decision, KeyEntry, revoked, registry_schema}
use inntris_x402_policy_adap.Core.Signing.{
  SigningProvider, CreateDecisionInput, Fresh, create_signed_decision, public_key_fingerprint,
  verify_ed25519_signature, verify_decision_signature, unsigned_decision,
}
use inntris_x402_policy_adap.Core.Signing.Facts.{create-IsSigned}
use inntris_x402_policy_adap.Verifier.{VerifyInput, verify_decision}
use inntris_x402_policy_adap.Verifier.Laws.{verify_decision-IsVerified_iff}

module _ (x : Externals) where
  -- The registry entry of a signer, as `buildKeyRegistryEntry` makes it, at the time of issue.
  pub record IsRegistered (ks : List KeyEntry) (signer : SigningProvider) (now : ℕ) : Type 0 where
    pub entry : KeyEntry
    pub listed : In entry ks
    pub identity : entry.key_id ≡ signer.key_id
    pub not_revoked : entry.status ≢ revoked
    pub from : entry.not_before ≤ now
    pub until : (t : ℕ) → entry.not_after ≡ some t → now < t
    pub key : x.base64url_decode entry.public_key ≡ signer.public_key
    pub size : length signer.public_key ≡ 32
    pub fingerprint : public_key_fingerprint x signer.public_key ≡ entry.fingerprint

  -- What a signer signs, its public key checks.
  abbrev pub IsHonest : SigningProvider → Type 0
  IsHonest signer =
      (payload : List ℕ) (signature : String)
      → signer.sign payload ≡ ok signature
      → verify_ed25519_signature x payload signature signer.public_key ≡ true

-- A decision that `createSignedDecision` returns is valid for `verifyDecision` against the same action
-- and any registry with the signer's key, at every time from the issue on and before the
-- time to live is over, provided that the signer's signatures check under its key, and that an
-- expected policy version is the policy's and an expected requirements hash the action's.
pub create-verify :
    (x : Externals) (input : CreateDecisionInput) (signer : SigningProvider) (fresh : Fresh)
    (d : Decision) (ks : List KeyEntry) (i : VerifyInput)
    → create_signed_decision x input signer fresh ≡ ok d
    → IsHonest x signer
    → IsRegistered x ks signer fresh.now
    → registry_schema ks ≡ true
    → i.decision ≡ some d
    → i.action ≡ some input.action
    → i.key_registry ≡ some ks
    → fresh.now ≤ i.at
    → i.at < fresh.now + input.decision_ttl_seconds * 1000
    → ((v : String) → i.expected_policy_version ≡ some v → input.policy_version ≡ v)
    → ((h : String)
        → i.expected_payment_requirements_hash ≡ some h
        → (r : X402Reference) × (input.action.protocol_reference ≡ x402_reference r)
          × (r.payment_requirements_hash ≡ h))
    → (verify_decision x i).valid ≡ true
unfolding unsigned_decision verify_decision_signature
create-verify x input signer fresh d ks i made honest reg ksok ed ea ek lo hi ver req =
    let (action_ok, s) = create-IsSigned x input signer fresh d made in
    (verify_decision-IsVerified_iff x i d input.action ks ed ea ek).1 (record {
      decision_parsed = s.accepted;
      action_parsed = action_ok;
      registry_parsed = ksok;
      key = reg.entry;
      usable = record {
        listed = reg.listed;
        identity = reg.identity ∙ sym s.key;
        not_revoked = reg.not_revoked;
        from = rw s.body_is reg.from;
        until = rw s.body_is reg.until;
        size = rw reg.key reg.size;
        fingerprint = rw reg.key reg.fingerprint;
      };
      signature = rw reg.key (honest _ d.signature s.signature);
      fingerprint = s.fingerprint;
      action_hash = rw s.body_is;
      principal = rw s.body_is;
      agent = rw s.body_is;
      rail = rw s.body_is;
      transaction = rw s.body_is;
      reference = rw s.body_is;
      issued = rw s.body_is lo;
      unexpired = rw s.body_is hi;
      version = rw s.body_is ver;
      requirements = rw s.body_is req;
    })
