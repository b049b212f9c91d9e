-- ===== src/Ap2/Outcome.antt =====
-- What packages/ap2-runtime-gate/src/gate.ts leaves in the in-memory execution store when the delegate
-- fails.
use mathlib.Core.Path.{ap₂}
use inntris_x402_policy_adap.Base.{
  String, ◌≡◌, ◌≢◌, ◌⊎◌, inl, inr, refl, sym, ap, ◌∙◌, Option, none, some, List, Bool-cases,
}
use inntris_x402_policy_adap.Base.Exec.{ok, err, Exec, ◌>>=◌, catching, throw, Result-cases}
use inntris_x402_policy_adap.Base.Maps.{Map, get}
use inntris_x402_policy_adap.Core.Json.{Externals, Json}
use inntris_x402_policy_adap.Execution.{
  Thrown, Stored, stored_in_progress, Binding, same_binding, claim, in_progress, conflict,
  ClaimAnswer, claimed, memory_store, GateFault, gate_error, guarded, reject,
}
use inntris_x402_policy_adap.Execution.Admission.{answer_of}
use inntris_x402_policy_adap.Execution.Once.{ClaimCall, after_calls, claim-entry, claimed-entry}
use inntris_x402_policy_adap.Execution.Attempt.{NeverCompletes, get-after_calls}
use inntris_x402_policy_adap.Ap2.Types.{Ap2Input}
use inntris_x402_policy_adap.Ap2.Gate
use inntris_x402_policy_adap.Ap2.Delegation.{IsCleared, before_run-IsCleared}
use inntris_x402_policy_adap.Ap2.Once.{Ap2State, IsApart, claim-state}

module _ (x : Externals) {W : Type 0}
    (o : Gate.Ap2Options (W × Map (Stored Binding Gate.Ap2Execution))) where
  -- What a claim that is answered so finds, in a store with an attempt under the same key.
  held-refuses :
      (key : String) (b d : Binding) (m n : Map (Stored Binding Gate.Ap2Execution))
      (c : Option (Binding × Gate.Ap2Execution))
      → get key m ≡ some (stored_in_progress b)
      → claim same_binding key d m ≡ (answer_of c, n)
      → ⊥
  held-refuses key b d m n c there answered =
      let answer =
        sym (claim-entry same_binding key d (stored_in_progress b) m there)
        ∙ ap (λ z. z.0) answered in
      elim (Bool-cases (same_binding b d)) [
        | inl e ↦ refuses c (rw e at answer)
        | inr e ↦ disputes c (rw e at answer)
      ]
    where
      refuses : (c : Option (Binding × Gate.Ap2Execution)) → in_progress ≡ answer_of c → ⊥
      refuses none h = cc
      refuses (some (b, e)) h = cc

      disputes : (c : Option (Binding × Gate.Ap2Execution)) → conflict ≡ answer_of c → ⊥
      disputes none h = cc
      disputes (some (b, e)) h = cc

  claimed-pair :
      (key : String) (b : Binding) (a : ClaimAnswer Binding Gate.Ap2Execution) (s t : Ap2State x o)
      → o.store ≡ memory_store same_binding
      → o.store.claim key b s ≡ (ok a, t)
      → claim same_binding key b s.1 ≡ (a, t.1)
  claimed-pair key b a s t memory h =
      let e = rw memory at h in ap₂ (λ r m. (r, m)) (cc (ap (λ r. r.0) e)) (ap (λ r. r.1.1) e)

  -- The claim that a run wins leaves an attempt under its payment mandate.
  pub claimed-attempt :
      (key : String) (b : Binding) (s t : Ap2State x o)
      → o.store ≡ memory_store same_binding
      → o.store.claim key b s ≡ (ok claimed, t)
      → get key t.1 ≡ some (stored_in_progress b)
  claimed-attempt key b s t memory h =
      let e = claimed-pair key b claimed s t memory h in
      sym (ap (λ r. get key r.1) e) ∙ claimed-entry same_binding key b s.1 (ap (λ r. r.0) e)

  -- A run that comes to the answer of its claim, in a store with an attempt, is about another payment
  -- mandate than that attempt.
  attempt-ne :
      (j : Ap2Input) (later : Gate.Ap2Readings) (s t : Ap2State x o) (u : Gate.Ap2Run)
      (c : Option (Binding × Gate.Ap2Execution)) (key : String) (b : Binding)
      → o.store ≡ memory_store same_binding
      → IsApart x o
      → get key s.1 ≡ some (stored_in_progress b)
      → IsCleared x o j later s t u (answer_of c)
      → key ≢ u.verification.payment.mandate_hash
  attempt-ne j later s t u c key b memory apart held l same =
      let d = Gate.ap2_binding x o u.action u.verification u.decision in
      let found =
        claimed-pair u.verification.payment.mandate_hash d (answer_of c) l.claim.between t memory
          l.claim.answered in
      held-refuses key b d s.1 t.1 c held
        (rw (← claim-state x o j later s t u (answer_of c) apart l, same) found)

  -- A run comes to the answer of its claim for another payment mandate, or it throws, in a way that
  -- does not depend on the delegate.
  abbrev pub IsBarred : String → Ap2Input → Gate.Ap2Readings → Ap2State x o → Type 0
  IsBarred key j later s =
      ((u : Gate.Ap2Run) × (t : Ap2State x o) × (c : ClaimAnswer Binding Gate.Ap2Execution)
        × IsCleared x o j later s t u c
        × (key ≢ u.verification.payment.mandate_hash))
      ⊎ ((k : GateFault Gate.Ap2Reason) × (t : Ap2State x o) × ((g : Gate.Ap2DelegateInput
              → Exec Thrown (Ap2State x o) (Option Json))
            → Gate.process x o g j later s ≡ (err k, t)))

  attempt-IsBarred :
      (j : Ap2Input) (later : Gate.Ap2Readings) (s : Ap2State x o) (key : String) (b : Binding)
      → o.store ≡ memory_store same_binding
      → IsApart x o
      → get key s.1 ≡ some (stored_in_progress b)
      → IsBarred key j later s
  unfolding Gate.process ◌>>=◌
  attempt-IsBarred j later s key b memory apart held =
      let t = (Gate.before_run x o j later s).1 in
      elim (Result-cases (Gate.before_run x o j later s).0) [
        | inl (k, stopped) ↦ inr (k, t, λ g. rw stopped refl)
        | inr ((u, c), passed) ↦
            let l = before_run-IsCleared x o j later s t u c (ap (λ z. (z, t)) passed) in
            inl (u, t, answer_of c, l, attempt-ne j later s t u c key b memory apart held l)
      ]

  -- Over the in-memory execution store, and with services that leave the store alone: when the
  -- delegate of a cleared run fails, and leaves the store alone, `process` throws
  -- AP2_DELEGATE_FAILED with the name of the delegate's error; and after any calls on the store that
  -- do not complete an execution under that payment mandate, and any change of the other state, a
  -- further run, with any input, comes to the answer of its claim for another payment mandate, or
  -- it throws, with the same error whatever the delegate is.
  pub failed-paused :
      (i j : Ap2Input) (r later : Gate.Ap2Readings) (s t v : Ap2State x o) (w : W) (u : Gate.Ap2Run)
      (f : Gate.Ap2DelegateInput → Exec Thrown (Ap2State x o) (Option Json)) (e : Thrown)
      (cs : List (ClaimCall Binding Gate.Ap2Execution))
      → o.store ≡ memory_store same_binding
      → IsApart x o
      → Gate.before_run x o i r s ≡ (ok (u, none), t)
      → f (Gate.delegate_input x o u) t ≡ (err e, v)
      → v.1 ≡ t.1
      → NeverCompletes u.verification.payment.mandate_hash cs
      → (Gate.process x o f i r s ≡ (err (gate_error Gate.ap2_delegate_failed e.error_name), v))
        × IsBarred u.verification.payment.mandate_hash j later (w, after_calls same_binding cs v.1)
  unfolding Gate.process Gate.run_delegate ◌>>=◌ guarded catching reject throw
  failed-paused i j r later s t v w u f e cs memory apart cleared failed kept never =
      let k = before_run-IsCleared x o i r s t u none cleared in
      let key = u.verification.payment.mandate_hash in
      let b = Gate.ap2_binding x o u.action u.verification u.decision in
      let attempt =
        ap (get key) kept ∙ claimed-attempt key b k.claim.between t memory k.claim.answered in
      (
        rw (cleared, failed) refl,
        attempt-IsBarred j later (w, after_calls same_binding cs v.1) key b memory apart
            (get-after_calls same_binding key (stored_in_progress b) cs v.1 never attempt),
      )
