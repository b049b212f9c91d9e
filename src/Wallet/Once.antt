-- ===== src/Wallet/Once.antt =====
-- The gate of packages/wallet-signing-gate/src/gate.ts over the in-memory execution store: one call of
-- the wallet for an unsigned transaction.
use inntris_x402_policy_adap.Base.{ℕ, String, ◌≡◌, inl, inr, sym, ap, ◌∙◌, some, List}
use inntris_x402_policy_adap.Base.Exec.{Result, ok, bind}
use inntris_x402_policy_adap.Base.Maps.{Map}
use inntris_x402_policy_adap.Core.Json.{Externals}
use inntris_x402_policy_adap.Core.Action.{Action, action_schema}
use inntris_x402_policy_adap.Core.Decision.{Decision}
use inntris_x402_policy_adap.Core.Signing.{Fault}
use inntris_x402_policy_adap.Core.Signing.Facts.{bind-ok, parse-ok, parse-then}
use inntris_x402_policy_adap.Core.Replay.{ConsumeInput}
use inntris_x402_policy_adap.Execution.{Stored, Binding, same_binding, claimed, memory_store}
use inntris_x402_policy_adap.Execution.Once.{
  ClaimCall, after_calls, wins-once, same_binding-Decides,
}
use inntris_x402_policy_adap.Wallet.Types.{EvmTransaction, EvmWalletGateInput, input_schema}
use inntris_x402_policy_adap.Wallet.Binding.{
  normalise_evm_transaction, evm_unsigned_transaction_hash, format_evm_amount, evm_action,
  action_from_evm,
}
use inntris_x402_policy_adap.Wallet.Verification.{Viem}
use inntris_x402_policy_adap.Wallet.Gate
use inntris_x402_policy_adap.Wallet.Cleared.{IsCleared}
use inntris_x402_policy_adap.Wallet.Signing.{Clears, sign_and_broadcast-Clears}

module _ (x : Externals) where
  -- The hash of the normal form, which is what an action carries.
  abbrev transaction_hash : EvmTransaction → Result Fault String
  transaction_hash t = bind (normalise_evm_transaction t) (evm_unsigned_transaction_hash x)

  pub action-hash :
      (i : EvmWalletGateInput) (a : Action)
      → action_from_evm x i ≡ ok a
      → (h : String) × (transaction_hash i.transaction ≡ ok h)
        × (Gate.unsigned_hash_of a.protocol_reference ≡ some h)
  unfolding action_from_evm evm_action
  action-hash i a h =
      let (accepted, h1) = parse-then (input_schema x) i _ a h in
      let (t, normal, h2) = bind-ok (normalise_evm_transaction i.transaction) _ a h1 in
      let (amount, priced, h3) = bind-ok (format_evm_amount t.value_wei i.asset_decimals) _ a h2 in
      let (hash, hashed, h4) = bind-ok (evm_unsigned_transaction_hash x t) _ a h3 in
      let (valid, same) = parse-ok (action_schema x) (evm_action x i t amount hash) a h4 in
      (
        hash,
        ap (λ r. bind r (evm_unsigned_transaction_hash x)) normal ∙ hashed,
        ap (λ b. Gate.unsigned_hash_of b.protocol_reference) (sym same),
      )

module _ (x : Externals) (v : Viem) {W : Type 0}
    (o : Gate.EvmGateOptions (W × Map (Stored Binding Gate.EvmExecution))) where
  -- The wallet and the provider leave the executions alone.
  pub record IsApart : Type 0 where
    pub wallet : (s : W × Map (Stored Binding Gate.EvmExecution)) → (o.get_address s).1.1 ≡ s.1
    pub provider :
        (a : ConsumeInput) (s : W × Map (Stored Binding Gate.EvmExecution))
        → (o.consume a s).1.1 ≡ s.1

  -- The state in which a cleared run claims has the executions of the first state.
  between-state :
      (i : EvmWalletGateInput) (d : Decision) (now : ℕ)
      (s t : W × Map (Stored Binding Gate.EvmExecution)) (p : Gate.Prepared) (c : Gate.EvmClaim)
      → IsApart
      → (cl : IsCleared x v o i d now s t p c claimed) → cl.claim.between.1 ≡ s.1
  between-state i d now s t p c apart cl =
      ap (λ r. r.1.1) (sym cl.claim.spent.consumed)
      ∙ apart.provider _ cl.middle
      ∙ ap (λ r. r.1.1) (sym cl.prepared.asked)
      ∙ apart.wallet s

  same-hash :
      (i j : EvmWalletGateInput) (d e : Decision) (now later : ℕ)
      (s t u w : W × Map (Stored Binding Gate.EvmExecution)) (p q : Gate.Prepared)
      (c f : Gate.EvmClaim)
      → normalise_evm_transaction i.transaction ≡ normalise_evm_transaction j.transaction
      → IsCleared x v o i d now s t p c claimed
      → IsCleared x v o j e later u w q f claimed
      → c.unsigned_hash ≡ f.unsigned_hash
  same-hash i j d e now later s t u w p q c f one a b =
      let same : p.transaction ≡ q.transaction = cc (a.prepared.normal, one, b.prepared.normal) in
      let (h, made, carried) =
        action-hash x (record i { transaction = p.transaction }) p.action a.prepared.made in
      let (k, remade, recarried) =
        action-hash x (record j { transaction = q.transaction }) q.action b.prepared.made in
      let agree : h ≡ k = cc (made, ap (transaction_hash x) same, remade) in
      cc (carried, a.hash, agree, recarried, b.hash)

  -- Over the in-memory execution store, and with a wallet's address call and a provider that leave the
  -- store alone: once a run on a transaction is cleared and has come to the call of the wallet, then
  -- after any calls on the store and any change of the other state, the outcome of a further run
  -- on a transaction of the same normal form, under any decision and with any other input, does not
  -- depend on the wallet's signature and the broadcaster, which are then not called.
  pub sign-once :
      (i j : EvmWalletGateInput) (d e : Decision) (now later : ℕ)
      (s : W × Map (Stored Binding Gate.EvmExecution)) (w : W)
      (cs : List (ClaimCall Binding Gate.EvmExecution))
      → o.store ≡ memory_store same_binding
      → IsApart
      → normalise_evm_transaction i.transaction ≡ normalise_evm_transaction j.transaction
      → (a : Clears x v o i d now s)
      → (k other : Gate.EvmSigning (W × Map (Stored Binding Gate.EvmExecution)))
      → Gate.sign_and_broadcast x v o k j e later (w, after_calls same_binding cs a.2.1)
        ≡ Gate.sign_and_broadcast x v o other j e later (w, after_calls same_binding cs a.2.1)
  sign-once i j d e now later s w cs memory apart one (p, c, t, a) k other =
      let u : W × Map (Stored Binding Gate.EvmExecution) = (w, after_calls same_binding cs t.1) in
      elim (sign_and_broadcast-Clears x v o j e later u) [
        | inr inert ↦ inert k other
        | inl (q, f, z, b) ↦ absurd (
            wins-once same_binding o.store c.unsigned_hash f.unsigned_hash
              (Gate.evm_claim x v o d c.unsigned_hash p.transaction).binding
              (Gate.evm_claim x v o e f.unsigned_hash q.transaction).binding a.claim.between t
              b.claim.between z cs memory same_binding-Decides
              (same-hash i j d e now later s t u z p q c f one a b) a.claim.answered
              (between-state j e later u z q f apart b) b.claim.answered)
      ]
