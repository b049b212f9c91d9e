-- ===== src/Ap2/Completion.antt =====
-- A run of packages/ap2-runtime-gate/src/gate.ts to its end, over the in-memory execution store.
use inntris_x402_policy_adap.Base.{
  String, ◌≡◌, refl, ap, ◌∙◌, true, false, Option, none, some, eq_refl,
}
use inntris_x402_policy_adap.Base.Exec.{ok, Exec, ◌>>=◌, catching, pure, lift}
use inntris_x402_policy_adap.Base.Maps.{Map, get, set, get-set_self}
use inntris_x402_policy_adap.Core.Json.{Externals, Json}
use inntris_x402_policy_adap.Execution.{
  Thrown, Stored, stored_in_progress, stored_completed, Binding, same_binding, complete,
  memory_store, guarded,
}
use inntris_x402_policy_adap.Execution.Receipt.{Receipt}
use inntris_x402_policy_adap.Ap2.Types.{Ap2Input, Ap2Receipt}
use inntris_x402_policy_adap.Ap2.Gate
use inntris_x402_policy_adap.Ap2.Delegation.{before_run-IsCleared}
use inntris_x402_policy_adap.Ap2.Once.{Ap2State}
use inntris_x402_policy_adap.Ap2.Outcome.{claimed-attempt}

same_binding_refl : (b : Binding) → same_binding b b ≡ true
same_binding_refl b = rw (eq_refl b.binding_hash) (eq_refl b.execution_ref)

module _ (x : Externals) {W : Type 0}
    (o : Gate.Ap2Options (W × Map (Stored Binding Gate.Ap2Execution))) where
  completes-attempt :
      (key : String) (b : Binding) (e : Gate.Ap2Execution) (s : Ap2State x o)
      → o.store ≡ memory_store same_binding
      → get key s.1 ≡ some (stored_in_progress b)
      → o.store.complete key b e s ≡ (ok tt, (s.0, set key (stored_completed b e) s.1))
  unfolding complete
  completes-attempt key b e s memory there =
      rw memory (rw (there, complete, same_binding_refl b) refl)

  -- `process` returns the execution, not as a replay, and the store has it as completed under the
  -- payment mandate, with the binding of the run.
  pub record IsCompleted (i : Ap2Input) (r : Gate.Ap2Readings) (s : Ap2State x o) (u : Gate.Ap2Run)
      (f : Gate.Ap2DelegateInput → Exec Thrown (Ap2State x o) (Option Json)) (result : Option Json)
      (receipt : Receipt Ap2Receipt) : Type 0 where
    pub last : Ap2State x o
    pub answered : Gate.process x o f i r s ≡ (
      ok (record {
        execution = Gate.execution_of x o u receipt result;
        execution_ref = Gate.ap2_execution_ref x o u.verification u.decision;
        replayed = false;
      }),
      last,
    )
    pub held :
        get u.verification.payment.mandate_hash last.1
        ≡ some (
            stored_completed
              (Gate.ap2_binding x o u.action u.verification u.decision)
              (Gate.execution_of x o u receipt result))

  -- Over the in-memory execution store: when a run is cleared, the delegate returns and leaves the store
  -- alone, and the receipt of its result is created, then `process` returns that execution, not as a
  -- replay, and the store has it as completed under the payment mandate, with the binding that was
  -- claimed.
  pub process-completes :
      (i : Ap2Input) (r : Gate.Ap2Readings) (s t v : Ap2State x o) (u : Gate.Ap2Run)
      (f : Gate.Ap2DelegateInput → Exec Thrown (Ap2State x o) (Option Json)) (result : Option Json)
      (receipt : Receipt Ap2Receipt)
      → o.store ≡ memory_store same_binding
      → Gate.before_run x o i r s ≡ (ok (u, none), t)
      → f (Gate.delegate_input x o u) t ≡ (ok result, v)
      → v.1 ≡ t.1
      → Gate.create_ap2_receipt x o u result r ≡ ok receipt
      → IsCompleted i r s u f result receipt
  unfolding Gate.process Gate.run_delegate Gate.finish_run ◌>>=◌ guarded catching pure lift
  process-completes i r s t v u f result receipt memory cleared returned kept made =
      let k = before_run-IsCleared x o i r s t u none cleared in
      let key = u.verification.payment.mandate_hash in
      let b = Gate.ap2_binding x o u.action u.verification u.decision in
      let e = Gate.execution_of x o u receipt result in
      let attempt =
        ap (get key) kept ∙ claimed-attempt x o key b k.claim.between t memory k.claim.answered in
      let done = completes-attempt key b e v memory attempt in
      record {
        last = (v.0, set key (stored_completed b e) v.1);
        answered = rw (cleared, returned, made, done) refl;
        held = get-set_self key (stored_completed b e) v.1;
      }
