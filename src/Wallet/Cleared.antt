-- ===== src/Wallet/Cleared.antt =====
-- What `signAndBroadcast` of packages/wallet-signing-gate/src/gate.ts has done when it comes to the
-- call of the wallet.
use inntris_x402_policy_adap.Base.{
  ℕ, String, ◌≡◌, inl, inr, refl, true, Option, none, some, str_eq, eq_iff, Option-cases,
}
use inntris_x402_policy_adap.Base.Exec.{ok, pure, ◌>>=◌, ◌>>◌}
use inntris_x402_policy_adap.Base.Returns.{bind-returns}
use inntris_x402_policy_adap.Core.Text.{lower_text}
use inntris_x402_policy_adap.Core.Json.{Externals}
use inntris_x402_policy_adap.Core.Reasons.{allow, is_allow, is_allow-eq}
use inntris_x402_policy_adap.Core.Action.{Action}
use inntris_x402_policy_adap.Core.Decision.{Decision}
use inntris_x402_policy_adap.Execution.{ClaimAnswer, Binding, ensure, joined}
use inntris_x402_policy_adap.Execution.Admission.{
  ensure-returns, then-lifted, then-ensure, then-guarded, reject-returns, pure-returns, IsSpent,
  then-spend, answer_of, claim_execution-answer,
}
use inntris_x402_policy_adap.Wallet.Types.{EvmTransaction, EvmWalletGateInput, input_schema}
use inntris_x402_policy_adap.Wallet.Binding.{normalise_evm_transaction, action_from_evm}
use inntris_x402_policy_adap.Wallet.Verification.{Viem}
use inntris_x402_policy_adap.Wallet.Gate

module _ (x : Externals) (v : Viem) {S : Type 0} (o : Gate.EvmGateOptions S) where
  -- The input is well formed, the transaction is its normal form, of the wallet's own address, and the
  -- action is made of it.
  pub record IsPrepared (i : EvmWalletGateInput) (s t : S) (p : Gate.Prepared) : Type 0 where
    pub accepted : input_schema x i ≡ true
    pub normal : normalise_evm_transaction i.transaction ≡ ok p.transaction
    pub address : String
    pub asked : o.get_address s ≡ (ok address, t)
    pub owner : lower_text address ≡ p.transaction.sender
    pub made : action_from_evm x (record i { transaction = p.transaction }) ≡ ok p.action

  pub prepare-IsPrepared :
      (i : EvmWalletGateInput) (s t : S) (p : Gate.Prepared)
      → Gate.prepare x v o i s ≡ (ok p, t)
      → IsPrepared i s t p
  unfolding Gate.prepare pure
  prepare-IsPrepared i s t p h =
      let (accepted, h1) = then-ensure (input_schema x i) _ none _ s t p h in
      let (tx, normal, h2) = then-lifted (normalise_evm_transaction i.transaction) _ s t p h1 in
      let (address, u, asked, h3) = then-guarded _ o.get_address _ s t p h2 in
      let (owned, h4) = then-ensure (str_eq (lower_text address) tx.sender) _ none _ u t p h3 in
      let (a, made, h5) =
        then-lifted (action_from_evm x (record i { transaction = tx })) _ u t p h4 in
      pure-returns (λ q w. IsPrepared i s w q) (record { transaction = tx; action = a }) p u t h5
        (record {
          accepted = accepted;
          normal = normal;
          address = address;
          asked = asked;
          owner = (eq_iff (lower_text address) tx.sender).0 owned;
          made = made;
        })

  pub require_allowed-then :
      {A : Type 0} (a : Action) (d : Decision) (now : ℕ) (f : Gate.EvmExec S A) (s t : S) (r : A)
      → (Gate.require_allowed x v o a d now >> f) s ≡ (ok r, t)
      → ((Gate.evm_verification x v o a d now).valid ≡ true)
        × (d.verdict ≡ allow)
        × (f s ≡ (ok r, t))
  unfolding Gate.require_allowed
  require_allowed-then a d now f s t r h =
      let check = Gate.evm_verification x v o a d now in
      let (u, w, e, k) =
        bind-returns
          (ensure check.valid Gate.decision_invalid (some (joined check.reason_codes))
            >> ensure (is_allow d.verdict) Gate.decision_not_allow none)
          (λ _. f) s t r h in
      let (valid, e1) = then-ensure check.valid _ _ _ s w u e in
      let (allowed, same) = ensure-returns (is_allow d.verdict) _ none s w u e1 in
      (valid, is_allow-eq d.verdict allowed, rw same k)

  -- The decision was consumed with success, and the store answered the claim.
  pub record IsClaimed (d : Decision) (unsigned : String) (tx : EvmTransaction)
      (answer : ClaimAnswer Binding Gate.EvmExecution) (s t : S) : Type 0 where
    pub between : S
    pub spent : IsSpent o.consume (Gate.evm_consumption x v o d unsigned) s between
    pub answered :
        o.store.claim unsigned (Gate.evm_claim x v o d unsigned tx).binding between ≡ (ok answer, t)

  consume_and_claim-IsClaimed :
      (d : Decision) (unsigned : String) (tx : EvmTransaction)
      (r : Option (Binding × Gate.EvmExecution)) (s t : S)
      → Gate.consume_and_claim x v o d unsigned tx s ≡ (ok r, t)
      → IsClaimed d unsigned tx (answer_of r) s t
  unfolding Gate.consume_and_claim
  consume_and_claim-IsClaimed d unsigned tx r s t h =
      let (u, spent, h1) =
        then-spend Gate.decision_consumption_failed o.consume
          (Gate.evm_consumption x v o d unsigned) _ s t r h in
      record {
        between = u;
        spent = spent;
        answered = claim_execution-answer o.store _ _ _ unsigned _ r u t h1;
      }

  unsigned-returns :
      (a : Action) (s t : S) (unsigned : String)
      → Gate.require_evm x v o a s ≡ (ok unsigned, t)
      → (Gate.unsigned_hash_of a.protocol_reference ≡ some unsigned) × (s ≡ t)
  unfolding Gate.require_evm
  unsigned-returns a s t unsigned h =
      elim (Option-cases (Gate.unsigned_hash_of a.protocol_reference)) [
        | inl e ↦ absurd (reject-returns _ none s t unsigned (rw (Gate.require_evm, e) at h))
        | inr (k, e) ↦
            pure-returns (λ u w. (Gate.unsigned_hash_of a.protocol_reference ≡ some u) × (s ≡ w)) k
              unsigned s t (rw (Gate.require_evm, e) at h) (e, refl)
      ]

  require_evm-then :
      {A : Type 0} (a : Action) (f : String → Gate.EvmExec S A) (s t : S) (r : A)
      → (Gate.require_evm x v o a >>= f) s ≡ (ok r, t)
      → (unsigned : String) × (Gate.unsigned_hash_of a.protocol_reference ≡ some unsigned)
        × (f unsigned s ≡ (ok r, t))
  require_evm-then a f s t r h =
      let (u, w, e, k) = bind-returns (Gate.require_evm x v o a) f s t r h in
      let (hash, same) = unsigned-returns a s w u e in (u, hash, rw same k)

  -- The input is prepared, the decision is valid for the action now and allows it, was consumed with
  -- success, and the store answered the claim of the transaction's hash.
  pub record IsCleared (i : EvmWalletGateInput) (d : Decision) (now : ℕ) (s t : S)
      (p : Gate.Prepared) (c : Gate.EvmClaim) (answer : ClaimAnswer Binding Gate.EvmExecution)
      : Type 0 where
    pub middle : S
    pub prepared : IsPrepared i s middle p
    pub valid : (Gate.evm_verification x v o p.action d now).valid ≡ true
    pub allowed : d.verdict ≡ allow
    pub hash : Gate.unsigned_hash_of p.action.protocol_reference ≡ some c.unsigned_hash
    pub identity : c ≡ Gate.evm_claim x v o d c.unsigned_hash p.transaction
    pub claim : IsClaimed d c.unsigned_hash p.transaction answer middle t

  pub before_signing-IsCleared :
      (i : EvmWalletGateInput) (d : Decision) (now : ℕ) (s t : S) (p : Gate.Prepared)
      (c : Gate.EvmClaim) (r : Option (Binding × Gate.EvmExecution))
      → Gate.before_signing x v o i d now s ≡ (ok (p, c, r), t)
      → IsCleared i d now s t p c (answer_of r)
  unfolding Gate.before_signing
  before_signing-IsCleared i d now s t p c r h =
      let (q, m, e0, h0) = bind-returns (Gate.prepare x v o i) _ s t (p, c, r) h in
      let (valid, allowed, h1) = require_allowed-then q.action d now _ m t (p, c, r) h0 in
      let (u, hash, h2) = require_evm-then q.action _ m t (p, c, r) h1 in
      let (a, n, e3, h3) =
        bind-returns (Gate.consume_and_claim x v o d u q.transaction) _ m t (p, c, r) h2 in
      pure-returns (λ z n. IsCleared i d now s n z.0 z.1 (answer_of z.2))
        (q, Gate.evm_claim x v o d u q.transaction, a) (p, c, r) n t h3
        (record {
          middle = m;
          prepared = prepare-IsPrepared i s m q e0;
          valid = valid;
          allowed = allowed;
          hash = hash;
          identity = refl;
          claim = consume_and_claim-IsClaimed d u q.transaction a m n e3;
        })
