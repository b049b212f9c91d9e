-- ===== src/Ap2/Once.antt =====
-- The gate of packages/ap2-runtime-gate/src/gate.ts over the in-memory execution store: one call of the
-- delegate for a payment mandate.
use inntris_x402_policy_adap.Base.{String, ◌≡◌, ◌≢◌, ◌⊎◌, inl, inr, sym, ap, ◌∙◌, Option, List}
use inntris_x402_policy_adap.Base.Exec.{Exec}
use inntris_x402_policy_adap.Base.Maps.{Map}
use inntris_x402_policy_adap.Core.Json.{Externals, Json}
use inntris_x402_policy_adap.Core.Action.{Action}
use inntris_x402_policy_adap.Core.Replay.{ConsumeInput}
use inntris_x402_policy_adap.Execution.{
  Thrown, Stored, Binding, same_binding, ClaimAnswer, claimed, memory_store,
}
use inntris_x402_policy_adap.Execution.Once.{
  ClaimCall, after_calls, wins-once, same_binding-Decides,
}
use inntris_x402_policy_adap.Ap2.Types.{Ap2Input, VerificationRequest}
use inntris_x402_policy_adap.Ap2.Gate
use inntris_x402_policy_adap.Ap2.Delegation.{IsCleared, Runs, process-Runs}

module _ (x : Externals) {W : Type 0}
    (o : Gate.Ap2Options (W × Map (Stored Binding Gate.Ap2Execution))) where
  abbrev pub Ap2State : Type 0
  Ap2State = W × Map (Stored Binding Gate.Ap2Execution)

  -- The trust provider, the verifier and the provider of decisions leave the executions alone.
  pub record IsApart : Type 0 where
    pub resolving : (m : String) (s : Ap2State) → (o.resolve m s).1.1 ≡ s.1
    pub verifying : (r : VerificationRequest) (s : Ap2State) → (o.verify r s).1.1 ≡ s.1
    pub evaluating : (a : Action) (s : Ap2State) → (o.evaluate a s).1.1 ≡ s.1
    pub consuming : (a : ConsumeInput) (s : Ap2State) → (o.consume a s).1.1 ≡ s.1

  -- The state in which a cleared run claims has the executions of the first state.
  pub claim-state :
      (i : Ap2Input) (r : Gate.Ap2Readings) (s t : Ap2State) (u : Gate.Ap2Run)
      (a : ClaimAnswer Binding Gate.Ap2Execution)
      → IsApart
      → (c : IsCleared x o i r s t u a) → c.claim.between.1 ≡ s.1
  claim-state i r s t u a apart c =
      ap (λ z. z.1.1) (sym c.claim.spent.consumed)
      ∙ apart.consuming _ c.decided
      ∙ ap (λ z. z.1.1) (sym c.granted.answered)
      ∙ apart.evaluating u.action c.verified
      ∙ ap (λ z. z.1.1) (sym c.official.verified)
      ∙ apart.verifying c.official.request c.official.resolved
      ∙ ap (λ z. z.1.1) (sym c.official.trusted)
      ∙ apart.resolving i.expected_merchant_id s

  -- Over the in-memory execution store, and with services that leave the store alone: once a run is
  -- cleared and has come to the call of the delegate, then after any calls on the store and any
  -- change of the other state, a further run, with any input, is cleared for another payment
  -- mandate, or its outcome does not depend on the delegate, which is then not called.
  pub run-once :
      (i j : Ap2Input) (r later : Gate.Ap2Readings) (s t : Ap2State) (w : W) (u : Gate.Ap2Run)
      (cs : List (ClaimCall Binding Gate.Ap2Execution))
      → o.store ≡ memory_store same_binding
      → IsApart
      → Runs x o i r s u t
      → ((u2 : Gate.Ap2Run) × (t2 : Ap2State) × Runs x o j later
            (w, after_calls same_binding cs t.1)
            u2
            t2
          × (u.verification.payment.mandate_hash ≢ u2.verification.payment.mandate_hash))
        ⊎ ((f g : Gate.Ap2DelegateInput → Exec Thrown Ap2State (Option Json))
            → Gate.process x o f j later (w, after_calls same_binding cs t.1)
              ≡ Gate.process x o g j later (w, after_calls same_binding cs t.1))
  run-once i j r later s t w u cs memory apart a =
      let z : Ap2State = (w, after_calls same_binding cs t.1) in
      elim (process-Runs x o j later z) [
        | inr inert ↦ inr inert
        | inl (u2, t2, b) ↦ inl (
          u2,
          t2,
          b,
          λ same.
              wins-once same_binding o.store u.verification.payment.mandate_hash
                u2.verification.payment.mandate_hash
                (Gate.ap2_binding x o u.action u.verification u.decision)
                (Gate.ap2_binding x o u2.action u2.verification u2.decision) a.claim.between t
                b.claim.between t2 cs memory same_binding-Decides same a.claim.answered
                (claim-state j later z t2 u2 claimed apart b) b.claim.answered,
        )
      ]
