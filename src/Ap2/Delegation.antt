-- ===== src/Ap2/Delegation.antt =====
-- When `process` of packages/ap2-runtime-gate/src/gate.ts calls the delegate.
use inntris_x402_policy_adap.Base.{ℕ, ◌≡◌, ◌⊎◌, inl, inr, refl, ap, true, Option, none, some}
use inntris_x402_policy_adap.Base.Exec.{ok, Exec, ◌>>=◌, Result-cases}
use inntris_x402_policy_adap.Base.Returns.{bind-returns}
use inntris_x402_policy_adap.Core.Json.{Externals, Json}
use inntris_x402_policy_adap.Core.Reasons.{is_allow, is_allow-eq, allow}
use inntris_x402_policy_adap.Core.Action.{Action}
use inntris_x402_policy_adap.Core.Decision.{Decision}
use inntris_x402_policy_adap.Execution.{Thrown, ClaimAnswer, claimed, Binding}
use inntris_x402_policy_adap.Execution.Admission.{
  then-checked, then-ensure, then-guarded, pure-returns, IsSpent, then-spend, answer_of,
  claim_execution-answer,
}
use inntris_x402_policy_adap.Ap2.Types.{Verification, Ap2Input, ap2_input_schema}
use inntris_x402_policy_adap.Ap2.Gate
use inntris_x402_policy_adap.Ap2.Verified.{
  IsCurrent, require-IsCurrent, IsOfficial, verify_mandates-IsOfficial, IsBound,
  bind_evidence-IsBound,
}

module _ (x : Externals) {S : Type 0} (o : Gate.Ap2Options S) where
  -- The provider's decision is valid for the action, and allows it.
  pub record IsDecided (a : Action) (now : ℕ) (s t : S) (d : Decision) : Type 0 where
    pub answered : o.evaluate a s ≡ (ok d, t)
    pub valid : (Gate.ap2_verification x o a d now).valid ≡ true
    pub allowed : d.verdict ≡ allow

  decide-IsDecided :
      (a : Action) (now : ℕ) (s t : S) (d : Decision)
      → Gate.decide x o a now s ≡ (ok d, t)
      → IsDecided a now s t d
  unfolding Gate.decide
  decide-IsDecided a now s t d h =
      let (e, u, answered, h1) = then-guarded _ (o.evaluate a) _ s t d h in
      let (valid, h2) = then-ensure (Gate.ap2_verification x o a e now).valid _ _ _ u t d h1 in
      let (allowed, h3) = then-ensure (is_allow e.verdict) _ none _ u t d h2 in
      pure-returns (λ d t. IsDecided a now s t d) e d u t h3
        (record { answered = answered; valid = valid; allowed = is_allow-eq e.verdict allowed })

  -- The verification was still current, the decision was consumed, and the store answered the claim of
  -- the payment mandate.
  pub record IsClaimed (a : Action) (v : Verification) (d : Decision) (now : ℕ)
      (answer : ClaimAnswer Binding Gate.Ap2Execution) (s t : S) : Type 0 where
    pub current : IsCurrent v now (Gate.max_age x o)
    pub between : S
    pub spent : IsSpent o.consume (Gate.ap2_consumption x o v d) s between
    pub answered :
        o.store.claim v.payment.mandate_hash (Gate.ap2_binding x o a v d) between ≡ (ok answer, t)

  spend_and_claim-IsClaimed :
      (a : Action) (v : Verification) (d : Decision) (now : ℕ)
      (r : Option (Binding × Gate.Ap2Execution)) (s t : S)
      → Gate.spend_and_claim x o a v d now s ≡ (ok r, t)
      → IsClaimed a v d now (answer_of r) s t
  unfolding Gate.spend_and_claim
  spend_and_claim-IsClaimed a v d now r s t h =
      let (w, current, h1) =
        then-checked (Gate.require_current_verification v now (Gate.max_age x o)) _ s t r h in
      let (u, spent, h2) =
        then-spend Gate.decision_consumption_failed o.consume (Gate.ap2_consumption x o v d) _ s t r
          h1 in
      record {
        current = require-IsCurrent v now (Gate.max_age x o) w current;
        between = u;
        spent = spent;
        answered =
            claim_execution-answer o.store Gate.ap2_execution_store_unavailable
              Gate.ap2_execution_conflict Gate.ap2_execution_in_progress v.payment.mandate_hash
              (Gate.ap2_binding x o a v d) r u t h2;
      }

  -- What a run has done when it comes to its claim's answer.
  pub record IsCleared (i : Ap2Input) (r : Gate.Ap2Readings) (s t : S) (u : Gate.Ap2Run)
      (answer : ClaimAnswer Binding Gate.Ap2Execution) : Type 0 where
    pub accepted : ap2_input_schema x i ≡ true
    pub verified : S
    pub official : IsOfficial x o i r.now s verified u.verification
    pub bound : IsBound x o i u.verification r.now u.action
    pub decided : S
    pub granted : IsDecided u.action r.decided_at verified decided u.decision
    pub claim : IsClaimed u.action u.verification u.decision r.spent_at answer decided t

  pub before_run-IsCleared :
      (i : Ap2Input) (r : Gate.Ap2Readings) (s t : S) (u : Gate.Ap2Run)
      (c : Option (Binding × Gate.Ap2Execution))
      → Gate.before_run x o i r s ≡ (ok (u, c), t)
      → IsCleared i r s t u (answer_of c)
  unfolding Gate.before_run
  before_run-IsCleared i r s t u c h =
      let (accepted, h1) = then-ensure (ap2_input_schema x i) _ none _ s t (u, c) h in
      let (v, s1, e1, h2) = bind-returns (Gate.verify_mandates x o i r.now) _ s t (u, c) h1 in
      let (a, bound, h3) = then-checked (Gate.bind_evidence x o i v r.now) _ s1 t (u, c) h2 in
      let (d, s2, e2, h4) = bind-returns (Gate.decide x o a r.decided_at) _ s1 t (u, c) h3 in
      let (b, s3, e3, h5) =
        bind-returns (Gate.spend_and_claim x o a v d r.spent_at) _ s2 t (u, c) h4 in
      pure-returns (λ z t. IsCleared i r s t z.0 (answer_of z.1))
        (record { verification = v; action = a; decision = d }, b) (u, c) s3 t h5
        (record {
          accepted = accepted;
          verified = s1;
          official = verify_mandates-IsOfficial x o i r.now s s1 v e1;
          bound = bind_evidence-IsBound x o i v r.now a bound;
          decided = s2;
          granted = decide-IsDecided a r.decided_at s1 s2 d e2;
          claim = spend_and_claim-IsClaimed a v d r.spent_at b s2 s3 e3;
        })

  -- A claim that was won: the run comes to the call of the delegate.
  abbrev pub Runs : Ap2Input → Gate.Ap2Readings → S → Gate.Ap2Run → S → Type 0
  Runs i r s u t = IsCleared i r s t u claimed

  -- Either a run of `process` is cleared for the delegate, or its outcome does not depend on the
  -- delegate, which is then not called. Cleared means: the input is well formed; the verifier returned
  -- an official verification of its mandates under the merchant's trust material, that is neither
  -- stale nor expired at either of two readings of the clock, whose merchant, payee, amount and
  -- currency are the expected ones, whose intent was verified and whose payment is for its
  -- checkout; the action is made of it, with the mandate's amount in the currency's minor units;
  -- the decision is valid for that action with the verdict ALLOW, and was consumed with success;
  -- and the store has claimed the payment mandate.
  pub process-Runs :
      (i : Ap2Input) (r : Gate.Ap2Readings) (s : S)
      → ((u : Gate.Ap2Run) × (t : S) × Runs i r s u t)
        ⊎ ((f g : Gate.Ap2DelegateInput → Exec Thrown S (Option Json))
            → Gate.process x o f i r s ≡ Gate.process x o g i r s)
  unfolding Gate.process Gate.run_delegate ◌>>=◌
  process-Runs i r s =
      let t = (Gate.before_run x o i r s).1 in
      elim (Result-cases (Gate.before_run x o i r s).0) [
        | inl (e, stopped) ↦ inr (λ f g. rw stopped refl)
        | inr ((u, none), passed) ↦
            inl (u, t, before_run-IsCleared i r s t u none (ap (λ z. (z, t)) passed))
        | inr ((u, some (b, c)), passed) ↦ inr (λ f g. rw passed refl)
      ]
