-- ===== src/A2a/Delegation.antt =====
-- When `process` of packages/a2a-settlement-gate/src/gate.ts calls the delegate.
use mathlib.Core.Path.{ap₂}
use inntris_x402_policy_adap.Base.{
  ℕ, String, ◌≡◌, ◌⊎◌, inl, inr, refl, ap, ◌∙◌, true, Option, none, some, and-eq-true,
}
use inntris_x402_policy_adap.Base.Exec.{ok, Exec, ◌>>=◌, ◌>>◌, catching, Result-cases}
use inntris_x402_policy_adap.Base.Returns.{bind-returns, lift-returns, catch-returns, throw-returns}
use inntris_x402_policy_adap.Core.Json.{Externals, Json}
use inntris_x402_policy_adap.Core.Reasons.{is_allow, is_allow-eq, allow}
use inntris_x402_policy_adap.Core.Decision.{Decision}
use inntris_x402_policy_adap.Verifier.{VerificationResult}
use inntris_x402_policy_adap.Adapter.Binding.{X402Schemas}
use inntris_x402_policy_adap.Adapter.Guard
use inntris_x402_policy_adap.Adapter.Guard.Authorise.{IsIssued, authorise-IsIssued}
use inntris_x402_policy_adap.Adapter.Guard.Settlement.{consume-succeeds, names_allow-eq}
use inntris_x402_policy_adap.Execution.{Thrown, ClaimAnswer, claimed, joined}
use inntris_x402_policy_adap.Execution.Admission.{
  ensure-returns, then-lifted, then-checked, then-ensure, then-guarded, pure-returns, IsSpent,
  answer_of, claim_execution-answer,
}
use inntris_x402_policy_adap.A2a.Types.{Observation, GateInput}
use inntris_x402_policy_adap.A2a.Gate
use inntris_x402_policy_adap.A2a.Settled.{
  IsBound, IsFinal, IsPrepared, prepare_input-IsPrepared, check_observation-accepts,
}

module _ (x : Externals) (q : X402Schemas) {S : Type 0} (o : Gate.A2aOptions S) where
  -- The guard issued the decision, which allows.
  pub record IsGranted (p : Gate.PreparedInput) (now : ℕ) (s t : S) (d : Decision) : Type 0 where
    pub issued : IsIssued x q o.guard p.payment now s t d
    pub allowed : d.verdict ≡ allow

  authorise_payment-IsGranted :
      (p : Gate.PreparedInput) (now : ℕ) (s t : S) (d : Decision)
      → Gate.authorise_payment x q o p now s ≡ (ok d, t)
      → IsGranted p now s t d
  unfolding Gate.authorise_payment
  authorise_payment-IsGranted p now s t d h =
      let (a, u, e, h1) =
        bind-returns (catching (Guard.authorise x q o.guard p.payment now) _) _ s t d h in
      let (answer, same) =
        catch-returns (Guard.authorise x q o.guard p.payment now) _ s u a
          (λ f w. throw-returns _ w a u) e in
      let (allowed, h2) = then-ensure (is_allow a.verdict) _ none _ u t d h1 in
      pure-returns (λ d t. IsGranted p now s t d) a d u t h2
        (record {
          issued =
              authorise-IsIssued x q o.guard p.payment now s u a (ap₂ (λ q v. (q, v)) answer same);
          allowed = is_allow-eq a.verdict allowed;
        })

  -- The provider, asked to settle or to confirm, returned the evidence, which is bound and final.
  pub record IsObserved (p : Gate.PreparedInput) (d : Decision) (s t : S) (e : Observation)
      : Type 0 where
    pub asked : Gate.ask_provider x q o p d s ≡ (ok (some e), t)
    pub bound : IsBound p e
    pub final : IsFinal p.required_finality e

  observe_settlement-IsObserved :
      (p : Gate.PreparedInput) (d : Decision) (s t : S) (e : Observation)
      → Gate.observe_settlement x q o p d s ≡ (ok e, t)
      → IsObserved p d s t e
  unfolding Gate.observe_settlement
  observe_settlement-IsObserved p d s t e h =
      let (raw, u, asked, h1) = then-guarded _ (Gate.ask_provider x q o p d) _ s t e h in
      let (checked, same) = lift-returns (Gate.check_observation x q o p raw) u t e h1 in
      let (raw_is, accepted, bound, final) = check_observation-accepts x q o p raw e checked in
      record { asked = asked ∙ ap₂ (λ r w. (ok r, w)) raw_is same; bound = bound; final = final }

  -- The decision was verified again, and was still an ALLOW.
  pub record IsVerified (p : Gate.PreparedInput) (d : Decision) (now : ℕ) : Type 0 where
    pub verification : VerificationResult
    pub made : Guard.verify_before_settlement x q o.guard p.payment d now ≡ ok verification
    pub valid : verification.valid ≡ true
    pub verdict : verification.verdict ≡ some allow

  verify_again-IsVerified :
      (p : Gate.PreparedInput) (d : Decision) (now : ℕ) (s t : S) (u : Unit {0})
      → Gate.verify_again x q o p d now s ≡ (ok u, t)
      → IsVerified p d now × (s ≡ t)
  unfolding Gate.verify_again
  verify_again-IsVerified p d now s t u h =
      let (v, made, h1) =
        then-lifted (Guard.verify_before_settlement x q o.guard p.payment d now) _ s t u h in
      let (both, same) =
        ensure-returns _ Gate.decision_invalid (some (joined v.reason_codes)) s t u h1 in
      let (valid, verdict) = and-eq-true _ _ both in
      (
        record {
          verification = v;
          made = made;
          valid = valid;
          verdict = names_allow-eq v.verdict verdict;
        },
        same,
      )

  -- The provider consumed the decision for the execution with success.
  abbrev pub IsConsumed : Decision → String → S → S → Type 0
  IsConsumed d ref =
      IsSpent o.guard.consume
        (record { decision_id = d.decision_id; action_hash = d.action_hash; execution_ref = ref })

  consume_decision-IsConsumed :
      (d : Decision) (ref : String) (s t : S) (u : Unit {0})
      → Gate.consume_decision x q o d ref s ≡ (ok u, t)
      → IsConsumed d ref s t
  unfolding Gate.consume_decision
  consume_decision-IsConsumed d ref s t u h =
      let (c, w, e, h1) =
        bind-returns (catching (Guard.consume_before_execution x q o.guard d ref) _) _ s t u h in
      let (answer, moved) =
        catch-returns (Guard.consume_before_execution x q o.guard d ref) _ s w c
          (λ f k. throw-returns _ k c w) e in
      let (success, same) = ensure-returns c.success _ _ w t u h1 in
      record {
        consumption = c;
        consumed =
            consume-succeeds x q o.guard d ref s t c (ap₂ (λ q v. (q, v)) answer (moved ∙ same))
              success;
        success = success;
      }

  -- What a run has done when it comes to its claim's answer.
  pub record IsCleared (i : GateInput) (r : Gate.A2aReadings) (s t : S) (p : Gate.PreparedInput)
      (d : Decision) (e : Observation) (answer : ClaimAnswer String Gate.A2aExecution)
      : Type 0 where
    pub prepared : IsPrepared x q i o.required_finality p
    pub decided : S
    pub granted : IsGranted p r.authorised_at s decided d
    pub seen : S
    pub observed : IsObserved p d decided seen e
    pub verified : IsVerified p d r.verified_at
    pub spent : S
    pub consumed : IsConsumed d (Gate.a2a_execution_ref x q o p d e) seen spent
    pub answered :
        o.store.claim (Gate.a2a_execution_ref x q o p d e) (Gate.a2a_binding_hash x q o p d e) spent
        ≡ (ok answer, t)

  verify_again-then :
      {A : Type 0} (p : Gate.PreparedInput) (d : Decision) (now : ℕ) (f : Gate.A2aExec S A)
      (s t : S) (a : A)
      → (Gate.verify_again x q o p d now >> f) s ≡ (ok a, t)
      → IsVerified p d now × (f s ≡ (ok a, t))
  verify_again-then p d now f s t a h =
      let (u, w, e, k) = bind-returns (Gate.verify_again x q o p d now) (λ _. f) s t a h in
      let (valid, same) = verify_again-IsVerified p d now s w u e in (valid, rw same k)

  pub before_delegation-IsCleared :
      (i : GateInput) (r : Gate.A2aReadings) (s t : S) (p : Gate.PreparedInput) (d : Decision)
      (e : Observation) (c : Option (String × Gate.A2aExecution))
      → Gate.before_delegation x q o i r s ≡ (ok (p, d, e, c), t)
      → IsCleared i r s t p d e (answer_of c)
  unfolding Gate.before_delegation Gate.claim_delegation
  before_delegation-IsCleared i r s t p d e c h =
      let z : Gate.PreparedInput × Decision × Observation × Option (String × Gate.A2aExecution) =
        (p, d, e, c) in
      let (p1, made, h1) = then-checked (Gate.prepare_input x q i o.required_finality) _ s t z h in
      let (d1, s2, e2, h2) =
        bind-returns (Gate.authorise_payment x q o p1 r.authorised_at) _ s t z h1 in
      let (o1, s3, e3, h3) = bind-returns (Gate.observe_settlement x q o p1 d1) _ s2 t z h2 in
      let (verified, h4) = verify_again-then p1 d1 r.verified_at _ s3 t z h3 in
      let ref = Gate.a2a_execution_ref x q o p1 d1 o1 in
      let (u, s4, e4, h5) = bind-returns (Gate.consume_decision x q o d1 ref) _ s3 t z h4 in
      let (c1, s5, e5, h6) = bind-returns (Gate.claim_delegation x q o p1 d1 o1) _ s4 t z h5 in
      pure-returns (λ z t. IsCleared i r s t z.0 z.1 z.2 (answer_of z.3)) (p1, d1, o1, c1) z s5 t h6
        (record {
          prepared = prepare_input-IsPrepared x q i o.required_finality p1 made;
          decided = s2;
          granted = authorise_payment-IsGranted p1 r.authorised_at s s2 d1 e2;
          seen = s3;
          observed = observe_settlement-IsObserved p1 d1 s2 s3 o1 e3;
          verified = verified;
          spent = s4;
          consumed = consume_decision-IsConsumed d1 ref s3 s4 u e4;
          answered = claim_execution-answer o.store _ _ _ _ _ c1 s4 s5 e5;
        })

  -- A claim that was won: the run comes to the call of the delegate.
  abbrev pub Delegates :
      GateInput → Gate.A2aReadings → S → Gate.PreparedInput → Decision → Observation → S → Type 0
  Delegates i r s p d e t = IsCleared i r s t p d e claimed

  -- Either a run of `process` is cleared for the delegate, or its outcome does not depend on the
  -- delegate, which is then not called. Cleared means: the submission is about the task, the resource
  -- and the payment's challenge; the guard issued a decision with the verdict ALLOW for the payment
  -- bound to the task; the settlement provider returned evidence for this task, submission and
  -- resource, not older than the submission, that says SETTLED under a reference with exactly the
  -- required finality; the decision was then valid and an ALLOW at a second reading of the
  -- clock; it was consumed with success; and the store has claimed the execution.
  pub process-Delegates :
      (i : GateInput) (r : Gate.A2aReadings) (s : S)
      → ((p : Gate.PreparedInput) × (d : Decision) × (e : Observation) × (t : S) × Delegates i r s p
            d e t)
        ⊎ ((f g : Gate.DelegateInput → Exec Thrown S (Option Json))
            → Gate.process x q o f i r s ≡ Gate.process x q o g i r s)
  unfolding Gate.process Gate.run_delegation ◌>>=◌
  process-Delegates i r s =
      let t = (Gate.before_delegation x q o i r s).1 in
      elim (Result-cases (Gate.before_delegation x q o i r s).0) [
        | inl (e, stopped) ↦ inr (λ f g. rw stopped refl)
        | inr ((p, d, e, none), passed) ↦
            inl
              (p, d, e, t, before_delegation-IsCleared i r s t p d e none (ap (λ z. (z, t)) passed))
        | inr ((p, d, e, some (b, c)), passed) ↦ inr (λ f g. rw passed refl)
      ]
