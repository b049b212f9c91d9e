-- ===== src/Adapter/Guard/Authorise.antt =====
-- When `authorise` of packages/x402-adapter/src/guard.ts returns a decision.
use inntris_x402_policy_adap.Base.{ℕ, ◌≡◌, sym, ap, ◌∙◌, true}
use inntris_x402_policy_adap.Base.Exec.{ok, lift, catching}
use inntris_x402_policy_adap.Base.Returns.{
  bind-returns, lift-returns, catch-returns, throw-returns, unless-returns,
}
use inntris_x402_policy_adap.Core.Json.{Externals}
use inntris_x402_policy_adap.Core.Action.{Action}
use inntris_x402_policy_adap.Core.Decision.{Decision}
use inntris_x402_policy_adap.Verifier.{VerificationResult}
use inntris_x402_policy_adap.Adapter.Binding.{X402Schemas, BindingInput, action_from_x402}
use inntris_x402_policy_adap.Adapter.Guard.{GuardOptions, authorise, verified, as_guard, refuse}
use inntris_x402_policy_adap.Adapter.Guard.Settlement.{as_guard-ok}

module _ (x : Externals) (q : X402Schemas) {S : Type 0} (o : GuardOptions S) where
  -- The provider answered with the decision, and it is valid for the input's action now.
  pub record IsIssued (i : BindingInput) (now : ℕ) (s t : S) (d : Decision) : Type 0 where
    pub action : Action
    pub action_made : action_from_x402 x q i ≡ ok action
    pub answered : ((o.evaluate action s).0 ≡ ok d) × ((o.evaluate action s).1 ≡ t)
    pub verification : VerificationResult
    pub verification_made : verified x q o i d action now ≡ ok verification
    pub valid : verification.valid ≡ true

  -- When `authorise` returns a decision, the action of the input is made, the provider's evaluation of
  -- it returned that decision, which left the state, and the decision is valid for the action at
  -- the reading of the clock, whatever its verdict.
  pub authorise-IsIssued :
      (i : BindingInput) (now : ℕ) (s t : S) (d : Decision)
      → authorise x q o i now s ≡ (ok d, t)
      → IsIssued i now s t d
  unfolding authorise refuse
  authorise-IsIssued i now s t d h =
      let (a, s1, e1, h1) = bind-returns (lift (as_guard (action_from_x402 x q i))) _ s t d h in
      let (made, same) = lift-returns _ s s1 a e1 in
      let (b, s2, e2, h2) = bind-returns (catching (o.evaluate a) _) _ s1 t d h1 in
      let (answered, moved) =
        catch-returns (o.evaluate a) _ s1 s2 b (λ f u. throw-returns _ u b s2) e2 in
      let (v, s3, e3, h3) = bind-returns (lift (as_guard (verified x q o i b a now))) _ s2 t d h2 in
      let (checked, still) = lift-returns _ s2 s3 v e3 in
      let (valid, one, last) = unless-returns v.valid _ b d s3 t h3 in
      record {
        action = a;
        action_made = as_guard-ok _ a made;
        answered = rw (same, ← one, ← last, ← still) (answered, moved);
        verification = v;
        verification_made = ap (λ u. verified x q o i u a now) (sym one) ∙ as_guard-ok _ v checked;
        valid = valid;
      }
