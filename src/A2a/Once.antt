-- ===== src/A2a/Once.antt =====
-- The gate of packages/a2a-settlement-gate/src/gate.ts over the in-memory execution store: one call
-- of the delegate for a settled task.
use inntris_x402_policy_adap.Base.{
  String, ◌≡◌, ◌≢◌, ◌⊎◌, inl, inr, sym, ap, ◌∙◌, Option, List, str_eq, eq_iff,
}
use inntris_x402_policy_adap.Base.Exec.{Exec}
use inntris_x402_policy_adap.Base.Maps.{Map}
use inntris_x402_policy_adap.Core.Json.{Externals, Json}
use inntris_x402_policy_adap.Core.Action.{Action}
use inntris_x402_policy_adap.Core.Decision.{Decision}
use inntris_x402_policy_adap.Core.Replay.{ConsumeInput}
use inntris_x402_policy_adap.Adapter.Binding.{X402Schemas}
use inntris_x402_policy_adap.Execution.{Thrown, Stored, claimed, memory_store}
use inntris_x402_policy_adap.Execution.Once.{ClaimCall, after_calls, wins-once, Decides}
use inntris_x402_policy_adap.A2a.Types.{Observation, GateInput}
use inntris_x402_policy_adap.A2a.Gate
use inntris_x402_policy_adap.A2a.Delegation.{IsCleared, Delegates, process-Delegates}

str_eq-Decides : Decides str_eq
str_eq-Decides a b = eq_iff a b

module _ (x : Externals) (q : X402Schemas) {W : Type 0}
    (o : Gate.A2aOptions (W × Map (Stored String Gate.A2aExecution))) where
  abbrev pub A2aState : Type 0
  A2aState = W × Map (Stored String Gate.A2aExecution)

  -- The provider of decisions and the settlement provider leave the executions alone.
  pub record IsApart : Type 0 where
    pub evaluating : (a : Action) (s : A2aState) → (o.guard.evaluate a s).1.1 ≡ s.1
    pub consuming : (a : ConsumeInput) (s : A2aState) → (o.guard.consume a s).1.1 ≡ s.1
    pub asking :
        (p : Gate.PreparedInput) (d : Decision) (s : A2aState)
        → (Gate.ask_provider x q o p d s).1.1 ≡ s.1

  -- The state in which a cleared run claims has the executions of the first state.
  spent-state :
      (i : GateInput) (r : Gate.A2aReadings) (s t : A2aState) (p : Gate.PreparedInput)
      (d : Decision) (e : Observation)
      → IsApart
      → (c : IsCleared x q o i r s t p d e claimed) → c.spent.1 ≡ s.1
  spent-state i r s t p d e apart c =
      ap (λ z. z.1.1) (sym c.consumed.consumed)
      ∙ apart.consuming _ c.seen
      ∙ ap (λ z. z.1.1) (sym c.observed.asked)
      ∙ apart.asking p d c.decided
      ∙ ap (λ z. z.1) (sym c.granted.issued.answered.1)
      ∙ apart.evaluating c.granted.issued.action s

  -- Over the in-memory execution store, and with providers that leave the store alone: once a run is
  -- cleared and has come to the call of the delegate, then after any calls on the store and any
  -- change of the other state, a further run, with any input, is cleared for another execution
  -- reference, or its outcome does not depend on the delegate, which is then not called. The
  -- execution reference is computed from the task, the context, the submission, the settlement
  -- reference and the action's hash.
  pub delegate-once :
      (i j : GateInput) (r later : Gate.A2aReadings) (s t : A2aState) (w : W)
      (p : Gate.PreparedInput) (d : Decision) (e : Observation)
      (cs : List (ClaimCall String Gate.A2aExecution))
      → o.store ≡ memory_store str_eq
      → IsApart
      → Delegates x q o i r s p d e t
      → ((p2 : Gate.PreparedInput) × (d2 : Decision) × (e2 : Observation) × (t2 : A2aState)
          × Delegates x q o j later (w, after_calls str_eq cs t.1) p2 d2 e2 t2
          × (Gate.a2a_execution_ref x q o p d e ≢ Gate.a2a_execution_ref x q o p2 d2 e2))
        ⊎ ((f g : Gate.DelegateInput → Exec Thrown A2aState (Option Json))
            → Gate.process x q o f j later (w, after_calls str_eq cs t.1)
              ≡ Gate.process x q o g j later (w, after_calls str_eq cs t.1))
  delegate-once i j r later s t w p d e cs memory apart a =
      let u : A2aState = (w, after_calls str_eq cs t.1) in
      elim (process-Delegates x q o j later u) [
        | inr inert ↦ inr inert
        | inl (p2, d2, e2, t2, b) ↦ inl (
          p2,
          d2,
          e2,
          t2,
          b,
          λ same.
              wins-once str_eq o.store (Gate.a2a_execution_ref x q o p d e)
                (Gate.a2a_execution_ref x q o p2 d2 e2) (Gate.a2a_binding_hash x q o p d e)
                (Gate.a2a_binding_hash x q o p2 d2 e2) a.spent t b.spent t2 cs memory str_eq-Decides
                same a.answered (spent-state j later u t2 p2 d2 e2 apart b) b.answered,
        )
      ]
