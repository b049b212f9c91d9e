-- ===== src/Ap2/Bounds.antt =====
-- How old a verification may be when packages/ap2-runtime-gate/src/gate.ts calls the delegate.
use inntris_x402_policy_adap.Base.{◌≤◌, ◌<◌, ◌+◌, ◌≡◌, ◌&&◌, arith, leb, leb→le, and-eq-true}
use inntris_x402_policy_adap.Base.Exec.{ok}
use inntris_x402_policy_adap.Base.Returns.{require-then}
use inntris_x402_policy_adap.Core.Json.{Externals}
use inntris_x402_policy_adap.Core.Signing.{type_error}
use inntris_x402_policy_adap.Ap2.Types.{Ap2Input}
use inntris_x402_policy_adap.Ap2.Gate
use inntris_x402_policy_adap.Ap2.Delegation.{Runs}

module _ (x : Externals) {S : Type 0} (o : Gate.Ap2Options S) where
  accepted-age : Gate.accept_options x o ≡ ok tt → Gate.max_age x o ≤ 300
  unfolding Gate.accept_options
  accepted-age h =
      let (range, rest) =
        require-then (leb 1 (Gate.max_age x o) && leb (Gate.max_age x o) 300) type_error _ tt h in
      leb→le _ _ (and-eq-true _ _ range).1

  -- In a gate whose options the constructor accepts, a run that comes to the call of the delegate has
  -- taken its last reading of the clock at most 300 seconds after the verification of the mandates,
  -- not before it, and before either mandate expires.
  pub process-Recent :
      (i : Ap2Input) (r : Gate.Ap2Readings) (s t : S) (u : Gate.Ap2Run)
      → Gate.accept_options x o ≡ ok tt
      → Runs x o i r s u t
      → (u.verification.verified_at ≤ r.spent_at)
        × (r.spent_at ≤ u.verification.verified_at + 300000)
        × (r.spent_at < u.verification.checkout.expires_at)
        × (r.spent_at < u.verification.payment.expires_at)
  process-Recent i r s t u accepted c =
      let now = c.claim.current in
      let age = accepted-age accepted in
      let recent = now.recent in (now.past, omega (arith, age, recent), now.checkout, now.payment)
