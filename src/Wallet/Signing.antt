-- ===== src/Wallet/Signing.antt =====
-- When `signAndBroadcast` of packages/wallet-signing-gate/src/gate.ts calls the wallet, and what its
-- answer means.
use inntris_x402_policy_adap.Base.{
  ℕ, String, ◌≡◌, ◌⊎◌, inl, inr, refl, ap, ◌∙◌, true, Option, none, some,
}
use inntris_x402_policy_adap.Base.Exec.{ok, ◌>>=◌, ◌>>◌, Result-cases}
use inntris_x402_policy_adap.Base.Returns.{bind-returns}
use inntris_x402_policy_adap.Core.Json.{Externals}
use inntris_x402_policy_adap.Core.Decision.{Decision}
use inntris_x402_policy_adap.Execution.{claimed, completed, Binding}
use inntris_x402_policy_adap.Execution.Admission.{
  ensure-returns, then-lifted, then-ensure, then-guarded, reject-returns, pure-returns,
}
use inntris_x402_policy_adap.Wallet.Types.{
  EvmTransaction, EvmWalletGateInput, signed_transaction_schema,
}
use inntris_x402_policy_adap.Wallet.Verification.{Viem, verify_signed_evm_transaction}
use inntris_x402_policy_adap.Wallet.Gate
use inntris_x402_policy_adap.Wallet.Cleared.{IsCleared, before_signing-IsCleared}

module _ (x : Externals) (v : Viem) {S : Type 0} (o : Gate.EvmGateOptions S) where
  -- A claim that was won: the run comes to the call of the wallet.
  abbrev pub Clears : EvmWalletGateInput → Decision → ℕ → S → Type 0
  Clears i d now s =
      (p : Gate.Prepared) × (c : Gate.EvmClaim) × (t : S) × IsCleared x v o i d now s t p c claimed

  -- Either a run is cleared, or its outcome does not depend on the wallet's signature and on the
  -- broadcaster, which are then not called. Cleared means: the transaction is in normal form and of
  -- the wallet's own address, its action is made, the decision is valid for that action at the
  -- reading of the clock with the verdict ALLOW, the provider consumes it with success, and the
  -- execution store has claimed the transaction's hash under the decision.
  pub sign_and_broadcast-Clears :
      (i : EvmWalletGateInput) (d : Decision) (now : ℕ) (s : S)
      → Clears i d now s
        ⊎ ((w other : Gate.EvmSigning S)
            → Gate.sign_and_broadcast x v o w i d now s
              ≡ Gate.sign_and_broadcast x v o other i d now s)
  unfolding Gate.sign_and_broadcast ◌>>=◌
  sign_and_broadcast-Clears i d now s =
      let t = (Gate.before_signing x v o i d now s).1 in
      elim (Result-cases (Gate.before_signing x v o i d now s).0) [
        | inl (e, stopped) ↦ inr (λ w other. rw stopped refl)
        | inr ((p, c, none), passed) ↦
            inl (
              p,
              c,
              t,
              before_signing-IsCleared x v o i d now s t p c none (ap (λ r. (r, t)) passed),
            )
        | inr ((p, c, some (b, e)), passed) ↦ inr (λ w other. rw passed refl)
      ]

  -- The wallet returned a signed transaction that was verified against the unsigned one.
  pub record IsSigned (w : Gate.EvmSigning S) (tx : EvmTransaction) (s t : S) (signed : String)
      : Type 0 where
    pub asked : w.sign_transaction tx s ≡ (ok (some signed), t)
    pub accepted : signed_transaction_schema signed ≡ true
    pub exact : verify_signed_evm_transaction v signed tx ≡ ok true

  check_signed-IsSigned :
      (w : Gate.EvmSigning S) (tx : EvmTransaction) (s u t : S) (raw : Option String)
      (signed : String)
      → w.sign_transaction tx s ≡ (ok raw, u)
      → Gate.check_signed x v o tx raw u ≡ (ok signed, t)
      → IsSigned w tx s t signed
  unfolding Gate.check_signed
  check_signed-IsSigned w tx s u t none signed asked h = absurd (reject-returns _ none u t signed h)
  check_signed-IsSigned w tx s u t (some text) signed asked h =
      let (accepted, h1) = then-ensure (signed_transaction_schema text) _ none _ u t signed h in
      let (same, exact, h2) =
        then-lifted (verify_signed_evm_transaction v text tx) _ u t signed h1 in
      let (passed, h3) = then-ensure same _ none _ u t signed h2 in
      pure-returns (λ q w'. IsSigned w tx s w' q) text signed u t h3
        (record { asked = asked; accepted = accepted; exact = exact ∙ ap ok passed })

  -- What follows the signature: the broadcast's hash is that of the signed bytes, and the execution is
  -- completed under the claim.
  pub record IsSent (w : Gate.EvmSigning S) (d : Decision) (p : Gate.Prepared) (c : Gate.EvmClaim)
      (signed : String) (s t : S) (r : Gate.EvmResult) : Type 0 where
    pub answer : Option String
    pub after_broadcast : S
    pub broadcast :
        w.broadcast_transaction
          (record {
            signed_transaction = signed;
            unsigned_transaction = p.transaction;
            execution_ref = c.binding.execution_ref;
          })
          s
        ≡ (ok answer, after_broadcast)
    pub matches : Gate.broadcast_matches answer (v.keccak256 signed) ≡ true
    pub kept :
        o.store.complete c.unsigned_hash c.binding
          (Gate.evm_execution x v o p d signed)
          after_broadcast
        ≡ (ok tt, t)
    pub result : r ≡ Gate.executed_result c (Gate.evm_execution x v o p d signed)

  -- What a run with its own signature has done.
  pub record IsExecuted (w : Gate.EvmSigning S) (d : Decision) (p : Gate.Prepared)
      (c : Gate.EvmClaim) (s t : S) (r : Gate.EvmResult) : Type 0 where
    pub signed : String
    pub after_signature : S
    pub signature : IsSigned w p.transaction s after_signature signed
    pub sent : IsSent w d p c signed after_signature t r

  broadcast_verified-then :
      (w : Gate.EvmSigning S) (tx : EvmTransaction) (ref signed : String)
      (f : Gate.EvmExec S Gate.EvmResult) (s t : S) (r : Gate.EvmResult)
      → (Gate.broadcast_verified x v o w tx ref signed >> f) s ≡ (ok r, t)
      → (answer : Option String) × (u : S) × (w.broadcast_transaction
            (record { signed_transaction = signed; unsigned_transaction = tx; execution_ref = ref })
            s
          ≡ (ok answer, u))
        × (Gate.broadcast_matches answer (v.keccak256 signed) ≡ true)
        × (f u ≡ (ok r, t))
  unfolding Gate.broadcast_verified
  broadcast_verified-then w tx ref signed f s t r h =
      let (k, m, e, g) =
        bind-returns (Gate.broadcast_verified x v o w tx ref signed) (λ _. f) s t r h in
      let (answer, q, sent, e1) = then-guarded _ (w.broadcast_transaction _) _ s m k e in
      let (matches, same) =
        ensure-returns (Gate.broadcast_matches answer (v.keccak256 signed)) _ none q m k e1 in
      (answer, q, sent, matches, rw same g)

  finish-IsSent :
      (w : Gate.EvmSigning S) (d : Decision) (p : Gate.Prepared) (c : Gate.EvmClaim)
      (signed : String) (s t : S) (r : Gate.EvmResult)
      → Gate.finish_signing x v o w d p c signed s ≡ (ok r, t)
      → IsSent w d p c signed s t r
  unfolding Gate.finish_signing
  finish-IsSent w d p c signed s t r h =
      let e = Gate.evm_execution x v o p d signed in
      let (answer, q, sent, matches, h1) =
        broadcast_verified-then w p.transaction c.binding.execution_ref signed _ s t r h in
      let (y, z, kept, h2) =
        then-guarded _ (o.store.complete c.unsigned_hash c.binding e) _ q t r h1 in
      pure-returns (λ r t. IsSent w d p c signed s t r) (Gate.executed_result c e) r z t h2
        (record {
          answer = answer;
          after_broadcast = q;
          broadcast = sent;
          matches = matches;
          kept = kept;
          result = refl;
        })

  run_signing-IsExecuted :
      (w : Gate.EvmSigning S) (d : Decision) (p : Gate.Prepared) (c : Gate.EvmClaim) (s t : S)
      (r : Gate.EvmResult)
      → Gate.run_signing x v o w d p c s ≡ (ok r, t)
      → IsExecuted w d p c s t r
  unfolding Gate.run_signing Gate.sign_verified
  run_signing-IsExecuted w d p c s t r h =
      let (signed, u, e0, h0) = bind-returns (Gate.sign_verified x v o w p.transaction) _ s t r h in
      let (raw, n, asked, e1) = then-guarded _ (w.sign_transaction p.transaction) _ s u signed e0 in
      record {
        signed = signed;
        after_signature = u;
        signature = check_signed-IsSigned w p.transaction s n u raw signed asked e1;
        sent = finish-IsSent w d p c signed u t r h0;
      }

  -- A run that returns either has signed itself, or repeats a completed execution: then the wallet
  -- owns the transaction, the decision is valid, allows it and was consumed, as for a new run.
  abbrev pub Answers :
      Gate.EvmSigning S → EvmWalletGateInput → Decision → ℕ → S → S → Gate.EvmResult → Type 0
  Answers w i d now s t r =
      ((p : Gate.Prepared) × (c : Gate.EvmClaim) × (u : S) × IsCleared x v o i d now s u p c claimed
        × IsExecuted w d p c u t r)
      ⊎ ((p : Gate.Prepared) × (c : Gate.EvmClaim) × (b : Binding) × (e : Gate.EvmExecution)
          × IsCleared x v o i d now s t p c (completed b e)
          × (r ≡ Gate.replayed_result c.unsigned_hash b e))

  -- When `signAndBroadcast` returns, the run was cleared (the transaction is of the wallet's address,
  -- and the decision valid for its action, an ALLOW, and consumed), and either it claimed the
  -- transaction's hash, the wallet signed exactly this transaction, the broadcaster reported the
  -- Keccak hash of the signed bytes, the execution was completed in the store and the result is
  -- this one with `replayed` false, or the store answered the claim with a completed execution,
  -- which is the result, with `replayed` true.
  pub sign_and_broadcast-Answers :
      (w : Gate.EvmSigning S) (i : EvmWalletGateInput) (d : Decision) (now : ℕ) (s t : S)
      (r : Gate.EvmResult)
      → Gate.sign_and_broadcast x v o w i d now s ≡ (ok r, t)
      → Answers w i d now s t r
  unfolding Gate.sign_and_broadcast Gate.after_claim
  sign_and_broadcast-Answers w i d now s t r h =
      let (z, u, e, k) = bind-returns (Gate.before_signing x v o i d now) _ s t r h in
      answers z u e k
    where
      answers :
          (z : Gate.Prepared × Gate.EvmClaim × Option (Binding × Gate.EvmExecution)) (u : S)
          → Gate.before_signing x v o i d now s ≡ (ok z, u)
          → Gate.after_claim x v o w d z u ≡ (ok r, t)
          → Answers w i d now s t r
      answers (p, c, none) u e k = inl (
        p,
        c,
        u,
        before_signing-IsCleared x v o i d now s u p c none e,
        run_signing-IsExecuted w d p c u t r k,
      )
      answers (p, c, some (b, f)) u e k =
          let q = before_signing-IsCleared x v o i d now s u p c (some (b, f)) e in
          pure-returns (λ r t. Answers w i d now s t r) (Gate.replayed_result c.unsigned_hash b f) r
            u t k (inr (p, c, b, f, q, refl))
