-- ===== src/Wallet/Gate.antt =====
-- packages/wallet-signing-gate/src/gate.ts: `InntrisEvmWalletGate`.
use Prim.Native.String.{◌++◌ as join}
use inntris_x402_policy_adap.Base.{
  ℕ, String, Bool, true, false, ◌&&◌, Option, none, some, List, str_eq,
}
use inntris_x402_policy_adap.Base.Exec.{Exec, pure, lift, ◌>>=◌, ◌>>◌}
use inntris_x402_policy_adap.Core.Text.{lower_text}
use inntris_x402_policy_adap.Core.Json.{str, obj, field, end, Externals, hash_canonical}
use inntris_x402_policy_adap.Core.Reasons.{is_allow}
use inntris_x402_policy_adap.Core.Action.{Action, ProtocolReference, evm_reference}
use inntris_x402_policy_adap.Core.Decision.{Decision, KeyEntry}
use inntris_x402_policy_adap.Core.Replay.{ConsumeInput, ConsumeResult}
use inntris_x402_policy_adap.Verifier.{VerificationResult, verify_decision}
use inntris_x402_policy_adap.Adapter.Binding.{drop_text}
use inntris_x402_policy_adap.Execution.{
  Thrown, ExecutionStore, Binding, GateFault, as_gate, joined, reject, ensure, guarded, spend,
  claim_execution,
}
use inntris_x402_policy_adap.Wallet.Types.{
  EvmTransaction, EvmWalletGateInput, input_schema, signed_transaction_schema, hex_text,
}
use inntris_x402_policy_adap.Wallet.Binding.{normalise_evm_transaction, action_from_evm}
use inntris_x402_policy_adap.Wallet.Verification.{Viem, verify_signed_evm_transaction}

-- `EvmWalletGateReasonCode`
pub data EvmReason : Type 0 where
  invalid_evm_input wallet_unavailable wallet_address_mismatch decision_invalid : EvmReason
  decision_not_allow decision_consumption_failed evm_execution_conflict : EvmReason
  evm_execution_in_progress evm_execution_store_unavailable wallet_signing_failed : EvmReason
  invalid_signed_transaction broadcast_failed invalid_broadcast_result : EvmReason

-- `CompletedEvmExecution` without its binding.
pub record EvmExecution : Type 0 where
  pub action : Action
  pub decision : Decision
  pub unsigned_transaction : EvmTransaction
  pub signed_transaction : String
  pub transaction_hash : String

-- `InntrisEvmWalletGateOptions` up to the wallet's signature and the broadcaster.
pub record EvmGateOptions (S : Type 0) : Type 0 where
  pub evaluate : Action → Exec Thrown S Decision
  pub consume : ConsumeInput → Exec Thrown S ConsumeResult
  pub key_registry : List KeyEntry
  pub get_address : Exec Thrown S String
  pub store : ExecutionStore Binding EvmExecution S
  pub expected_policy_version : Option String

pub record BroadcastInput : Type 0 where
  pub signed_transaction : String
  pub unsigned_transaction : EvmTransaction
  pub execution_ref : String

-- `wallet.signTransaction`, where `none` is no text, and `broadcaster.broadcastTransaction` with the
-- result's `transaction_hash`, where `none` is a result of another shape.
pub record EvmSigning (S : Type 0) : Type 0 where
  pub sign_transaction : EvmTransaction → Exec Thrown S (Option String)
  pub broadcast_transaction : BroadcastInput → Exec Thrown S (Option String)

pub record Prepared : Type 0 where
  pub transaction : EvmTransaction
  pub action : Action

pub record EvmResult : Type 0 where
  pub action : Action
  pub decision : Decision
  pub unsigned_transaction_hash : String
  pub signed_transaction : String
  pub transaction_hash : String
  pub execution_ref : String
  pub replayed : Bool

abbrev pub EvmExec : Type 0 → Type 0 → Type 0
EvmExec S A = Exec (GateFault EvmReason) S A

-- What is signed under: the execution's key and binding.
pub record EvmClaim : Type 0 where
  pub unsigned_hash : String
  pub binding : Binding

abbrev pub unsigned_hash_of : ProtocolReference → Option String
unsigned_hash_of (evm_reference r) = some r.unsigned_transaction_hash
unsigned_hash_of _ = none

-- The result of a completed execution, and that of this one.
abbrev pub replayed_result : String → Binding → EvmExecution → EvmResult
replayed_result unsigned b e = record {
  action = e.action;
  decision = e.decision;
  unsigned_transaction_hash = unsigned;
  signed_transaction = e.signed_transaction;
  transaction_hash = e.transaction_hash;
  execution_ref = b.execution_ref;
  replayed = true;
}

abbrev pub executed_result : EvmClaim → EvmExecution → EvmResult
executed_result c e = record {
  action = e.action;
  decision = e.decision;
  unsigned_transaction_hash = c.unsigned_hash;
  signed_transaction = e.signed_transaction;
  transaction_hash = e.transaction_hash;
  execution_ref = c.binding.execution_ref;
  replayed = false;
}

-- `EvmBroadcastResultSchema` and the comparison with the hash of the signed bytes.
abbrev pub broadcast_matches : Option String → String → Bool
broadcast_matches none expected = false
broadcast_matches (some h) expected = hex_text 64 h && str_eq (lower_text h) expected

module _ (x : Externals) (v : Viem) {S : Type 0} (o : EvmGateOptions S) where
  -- `#prepare`
  unfoldable pub prepare : EvmWalletGateInput → EvmExec S Prepared
  prepare input = do
    ensure (input_schema x input) invalid_evm_input none
    transaction ← lift (as_gate (normalise_evm_transaction input.transaction))
    address ← guarded wallet_unavailable o.get_address
    ensure (str_eq (lower_text address) transaction.sender) wallet_address_mismatch none
    action ← lift (as_gate (action_from_evm x (record input { transaction = transaction })))
    pure (record { transaction = transaction; action = action })

  abbrev pub evm_verification : Action → Decision → ℕ → VerificationResult
  evm_verification action decision now = verify_decision x (record {
    decision = some decision;
    action = some action;
    key_registry = some o.key_registry;
    at = now;
    expected_policy_version = o.expected_policy_version;
    expected_payment_requirements_hash = none;
  })

  -- The verification of the decision against the prepared action, and its verdict.
  unfoldable pub require_allowed : Action → Decision → ℕ → EvmExec S (Unit {0})
  require_allowed action decision now =
      let verification = evm_verification action decision now in
      ensure verification.valid decision_invalid (some (joined verification.reason_codes))
      >> ensure (is_allow decision.verdict) decision_not_allow none

  -- `authorise`
  unfoldable pub authorise : EvmWalletGateInput → ℕ → EvmExec S (Action × Decision)
  unfolding prepare require_allowed
  authorise input now = do
    prepared ← prepare input
    decision ← guarded decision_invalid (o.evaluate prepared.action)
    require_allowed prepared.action decision now
    pure (prepared.action, decision)

  abbrev pub evm_execution_ref : Decision → String → String
  evm_execution_ref d unsigned = join "evm-execution:" (
      drop_text 7 (
        hash_canonical x (
          obj (
            field "version" (str "inntris-evm-execution-ref-v1") (
              field "decision_id" (str d.decision_id) (
                field "action_hash" (str d.action_hash)
                  (field "unsigned_transaction_hash" (str unsigned) end)))))))

  abbrev pub evm_binding_hash : Decision → String → EvmTransaction → String
  evm_binding_hash d unsigned t = hash_canonical x (
      obj (
        field "version" (str "inntris-evm-execution-binding-v1") (
          field "action_hash" (str d.action_hash) (
            field "unsigned_transaction_hash" (str unsigned)
              (field "wallet_address" (str t.sender) end)))))

  abbrev pub evm_claim : Decision → String → EvmTransaction → EvmClaim
  evm_claim d unsigned t = record {
    unsigned_hash = unsigned;
    binding = record {
      binding_hash = evm_binding_hash d unsigned t;
      execution_ref = evm_execution_ref d unsigned;
    };
  }

  abbrev pub evm_consumption : Decision → String → ConsumeInput
  evm_consumption d unsigned = record {
    decision_id = d.decision_id;
    action_hash = d.action_hash;
    execution_ref = evm_execution_ref d unsigned;
  }

  -- The consumption of the decision and the claim of the execution.
  unfoldable pub consume_and_claim :
      Decision → String → EvmTransaction → EvmExec S (Option (Binding × EvmExecution))
  unfolding spend
  consume_and_claim d unsigned t = do
    spend decision_consumption_failed o.consume (evm_consumption d unsigned)
    claim_execution o.store evm_execution_store_unavailable evm_execution_conflict
        evm_execution_in_progress unsigned (evm_claim d unsigned t).binding

  unfoldable pub require_evm : Action → EvmExec S String
  require_evm action = elim (unsigned_hash_of action.protocol_reference) [
    | none ↦ reject decision_invalid none
    | some unsigned ↦ pure unsigned
  ]

  -- `signAndBroadcast` up to the call of the wallet's signature: what was prepared, the claim, and the
  -- result of a completed execution.
  unfoldable pub before_signing :
      EvmWalletGateInput
      → Decision
      → ℕ
      → EvmExec S (Prepared × EvmClaim × Option (Binding × EvmExecution))
  unfolding prepare require_allowed require_evm consume_and_claim
  before_signing input decision now = do
    prepared ← prepare input
    require_allowed prepared.action decision now
    unsigned ← require_evm prepared.action
    earlier ← consume_and_claim decision unsigned prepared.transaction
    pure (prepared, evm_claim decision unsigned prepared.transaction, earlier)

  -- The checks of what the wallet returned.
  unfoldable pub check_signed : EvmTransaction → Option String → EvmExec S String
  check_signed t none = reject invalid_signed_transaction none
  check_signed t (some signed) = do
    ensure (signed_transaction_schema signed) invalid_signed_transaction none
    same ← lift (as_gate (verify_signed_evm_transaction v signed t))
    ensure same invalid_signed_transaction none
    pure signed

  unfoldable pub sign_verified : EvmSigning S → EvmTransaction → EvmExec S String
  unfolding check_signed
  sign_verified w t = guarded wallet_signing_failed (w.sign_transaction t) >>= check_signed t

  -- The broadcast, and the check of its transaction hash.
  unfoldable pub broadcast_verified :
      EvmSigning S → EvmTransaction → String → String → EvmExec S (Unit {0})
  broadcast_verified w t ref signed = do
    raw ← guarded broadcast_failed (
        w.broadcast_transaction
          (record { signed_transaction = signed; unsigned_transaction = t; execution_ref = ref }))
    ensure (broadcast_matches raw (v.keccak256 signed)) invalid_broadcast_result none

  abbrev pub evm_execution : Prepared → Decision → String → EvmExecution
  evm_execution p d signed = record {
    action = p.action;
    decision = d;
    unsigned_transaction = p.transaction;
    signed_transaction = signed;
    transaction_hash = v.keccak256 signed;
  }

  -- The broadcast, and the completion of the execution.
  unfoldable pub finish_signing :
      EvmSigning S → Decision → Prepared → EvmClaim → String → EvmExec S EvmResult
  unfolding broadcast_verified
  finish_signing w d p c signed = do
    broadcast_verified w p.transaction c.binding.execution_ref signed
    guarded evm_execution_store_unavailable
        (o.store.complete c.unsigned_hash c.binding (evm_execution p d signed))
    pure (executed_result c (evm_execution p d signed))

  -- `signAndBroadcast` from the call of the wallet's signature on.
  unfoldable pub run_signing : EvmSigning S → Decision → Prepared → EvmClaim → EvmExec S EvmResult
  unfolding sign_verified finish_signing
  run_signing w d p c = sign_verified w p.transaction >>= finish_signing w d p c

  unfoldable pub after_claim :
      EvmSigning S
      → Decision
      → Prepared × EvmClaim × Option (Binding × EvmExecution)
      → EvmExec S EvmResult
  unfolding run_signing
  after_claim w d (p, c, none) = run_signing w d p c
  after_claim w d (p, c, some (b, e)) = pure (replayed_result c.unsigned_hash b e)

  -- `signAndBroadcast`
  unfoldable pub sign_and_broadcast :
      EvmSigning S → EvmWalletGateInput → Decision → ℕ → EvmExec S EvmResult
  unfolding before_signing after_claim
  sign_and_broadcast w input decision now =
      before_signing input decision now >>= after_claim w decision

  -- `execute`; the clock is read for each of its two steps.
  unfoldable pub execute : EvmSigning S → EvmWalletGateInput → ℕ → ℕ → EvmExec S EvmResult
  unfolding authorise sign_and_broadcast
  execute w input now later =
      authorise input now >>= λ authorisation. sign_and_broadcast w input (authorisation.1) later
