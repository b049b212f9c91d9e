-- ===== src/Verifier/Envelope.antt =====
-- packages/decision-verifier/src/verify.ts: `verifySignedDecision`, which reads the decision without
-- its action, beside `verifyDecision`.
use inntris_x402_policy_adap.Base.{List, ◌≡◌, refl, ap, true, ◌&&◌, inl, inr}
use inntris_x402_policy_adap.Core.Json.{Externals}
use inntris_x402_policy_adap.Core.Action.{Action}
use inntris_x402_policy_adap.Core.Decision.{Decision, decision_schema, KeyEntry, registry_schema}
use inntris_x402_policy_adap.Verifier.{
  Checks, VerifyInput, SignedResult, verify_signed_decision, verify_decision, decision_checks,
  checked_result, envelope_result,
}
use inntris_x402_policy_adap.Verifier.Laws.{
  Parsed, Parsed-verify_decision, verify_decision-cases, some-safe_parse,
}

-- The tests of an envelope are those of the checks that are about the decision alone.
abbrev pub SameEnvelope : SignedResult → Checks → Type 0
SameEnvelope e c =
    (e.schema ≡ c.schema)
    × (e.fingerprint ≡ c.fingerprint)
    × (e.signature ≡ c.signature)
    × (e.valid ≡ (c.fingerprint && c.signature))

module _ (x : Externals) (i : VerifyInput) where
  Parsed-verify_signed_decision :
      (d : Decision) (a : Action) (ks : List KeyEntry)
      → Parsed x i d a ks
      → verify_signed_decision x i.decision i.key_registry ≡ envelope_result x d ks
  unfolding verify_signed_decision
  Parsed-verify_signed_decision d a ks p = rw (
    some-safe_parse (decision_schema x) i.decision d p.decision.0 p.decision.1,
    some-safe_parse registry_schema i.key_registry ks p.registry.0 p.registry.1,
    verify_signed_decision,
  )

  Parsed-SameEnvelope :
      (d : Decision) (a : Action) (ks : List KeyEntry)
      → Parsed x i d a ks
      → SameEnvelope
          (verify_signed_decision x i.decision i.key_registry)
          (decision_checks x i d a ks)
  unfolding verify_signed_decision decision_checks
  Parsed-SameEnvelope d a ks p =
      rw (Parsed-verify_signed_decision d a ks p) (refl, refl, refl, refl)

-- Where `verifyDecision` accepts the shape of its three inputs, `verifySignedDecision` finds the same
-- of the fingerprint and the signature, and calls the decision valid exactly when both hold.
pub verify_signed_decision-SameEnvelope :
    (x : Externals) (i : VerifyInput)
    → (verify_decision x i).checks.schema ≡ true
    → SameEnvelope (verify_signed_decision x i.decision i.key_registry) (verify_decision x i).checks
verify_signed_decision-SameEnvelope x i h = elim (verify_decision-cases x i) [
  | inl e ↦ absurd (cc (ap (λ r. r.checks.schema) e, h))
  | inr (d, a, ks, p) ↦
      rw (Parsed-verify_decision x i d a ks p)
        (unfold checked_result in Parsed-SameEnvelope x i d a ks p)
]
