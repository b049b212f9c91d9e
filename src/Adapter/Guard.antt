-- ===== src/Adapter/Guard.antt =====
-- packages/x402-adapter/src/guard.ts: `InntrisX402Guard`. `settle` is an argument, as in the code; a
-- failed settlement is known by the name of its error, if the thrown value is an `Error`.
pub mod Settlement
pub mod Once
pub mod Authorise
use inntris_x402_policy_adap.Base.{
  ℕ, String, Bool, true, false, not, ◌||◌, Option, none, some, List, [], ◌∷◌, ◌++◌, str_eq,
  if◌then◌else◌,
}
use inntris_x402_policy_adap.Base.Exec.{
  require, Result, ok, err, Exec, pure, throw, lift, ◌>>=◌, ◌>>◌, catching, bind,
}
use inntris_x402_policy_adap.Core.Json.{str, obj, field, end, Externals, hash_canonical}
use inntris_x402_policy_adap.Core.Reasons.{
  Verdict, is_allow, ReasonCode, decision_not_allow, decision_service_unavailable,
  action_hash_mismatch, payment_requirements_mismatch, execution_state_unavailable,
  execution_conflict, execution_outcome_unknown, execution_already_completed,
  execution_failed_final, reconciliation_required,
}
use inntris_x402_policy_adap.Core.Action.{Action, x402}
use inntris_x402_policy_adap.Core.Encoding.{hash_action}
use inntris_x402_policy_adap.Core.Decision.{Decision, KeyEntry}
use inntris_x402_policy_adap.Core.Signing.{Fault, or_else}
use inntris_x402_policy_adap.Core.Replay.{ConsumeInput, ConsumeResult, rejected}
use inntris_x402_policy_adap.Verifier.{VerificationResult, empty_checks, verify_decision}
use inntris_x402_policy_adap.Reconciliation.Types.{
  Operation, OperationStatus, prepared, in_progress, succeeded, failed_final, outcome_unknown,
  PrepareOperation, StartOperation, MarkSucceeded, MarkFailedFinal, MarkOutcomeUnknown,
  x402_settlement,
}
use inntris_x402_policy_adap.Reconciliation.Store
use inntris_x402_policy_adap.Reconciliation.Store.{
  Operations, StartResult, missing, conflicting, claimed, held,
}
use inntris_x402_policy_adap.Adapter.Binding.{
  X402Schemas, BindingInput, action_from_x402, payment_requirements_hash, take_text,
}

pub record SettleError : Type 0 where
  pub error_name : Option String

-- `InntrisGuardError` with its reasons, an error of a schema or a check, or what `settle` threw.
pub data GuardFault : Type 0 where
  guard_error : List ReasonCode → GuardFault
  other_fault : Fault → GuardFault
  settle_failed : SettleError → GuardFault

-- The methods of `ExecutionReconciliationStore` that the guard calls.
pub record ReconciliationStore (S : Type 0) : Type 0 where
  pub prepare : PrepareOperation → Exec Fault S Operation
  pub start : StartOperation → Exec Fault S StartResult
  pub mark_succeeded : MarkSucceeded → Exec Fault S Operation
  pub mark_failed_final : MarkFailedFinal → Exec Fault S Operation
  pub mark_outcome_unknown : MarkOutcomeUnknown → Exec Fault S Operation

-- `InntrisX402GuardOptions`, with the methods of the provider that the guard calls.
pub record GuardOptions (S : Type 0) : Type 0 where
  pub evaluate : Action → Exec Fault S Decision
  pub consume : ConsumeInput → Exec Fault S ConsumeResult
  pub key_registry : List KeyEntry
  pub expected_policy_version : Option String
  pub reconciliation_store : Option (ReconciliationStore S)
  pub classify_settlement_error : Option (SettleError → OperationStatus)

-- The readings of the clock.
pub record Readings : Type 0 where
  pub verified_at : ℕ
  pub prepared_at : ℕ
  pub started_at : ℕ
  pub ended_at : ℕ

-- `result.verdict === "ALLOW"`
abbrev pub names_allow : Option Verdict → Bool
names_allow none = false
names_allow (some v) = is_allow v

unfoldable pub reject_verdict : VerificationResult → VerificationResult
reject_verdict r =
    if not r.valid || names_allow r.verdict
    then r
    else record r { valid = false; reason_codes = r.reason_codes ++ decision_not_allow ∷ [] }

abbrev pub binding_failure : VerificationResult
binding_failure = record {
  valid = false;
  verdict = none;
  decision_id = none;
  checks = empty_checks;
  reason_codes = payment_requirements_mismatch ∷ [];
}

abbrev pub as_guard : {A : Type 0} → Result Fault A → Result GuardFault A
as_guard (ok a) = ok a
as_guard (err e) = err (other_fault e)

-- What the guard settles under, when it has a reconciliation store.
pub record Claim (S : Type 0) : Type 0 where
  pub store : ReconciliationStore S
  pub operation_id : String
  pub binding_hash : String

unfoldable pub refuse : {S A : Type 0} → ReasonCode → Exec GuardFault S A
unfolding throw
refuse r = throw (guard_error (r ∷ []))

module _ (x : Externals) (q : X402Schemas) {S : Type 0} (o : GuardOptions S) where
  unfoldable pub verified : BindingInput → Decision → Action → ℕ → Result Fault VerificationResult
  verified i d action now = bind (payment_requirements_hash x q i.payment_requirements) λ h. ok (
      verify_decision x (record {
        decision = some d;
        action = some action;
        key_registry = some o.key_registry;
        at = now;
        expected_policy_version = o.expected_policy_version;
        expected_payment_requirements_hash = some h;
      }))

  unfoldable pub authorise : BindingInput → ℕ → Exec GuardFault S Decision
  authorise i now = do
    action ← lift (as_guard (action_from_x402 x q i))
    decision ← catching (o.evaluate action) (λ e. refuse decision_service_unavailable)
    verification ← lift (as_guard (verified i decision action now))
    if not verification.valid then throw (guard_error verification.reason_codes) else pure decision

  unfoldable pub verify_before_settlement :
      BindingInput → Decision → ℕ → Result Fault VerificationResult
  verify_before_settlement i d now = elim (action_from_x402 x q i) [
    | err e ↦ ok binding_failure
    | ok action ↦ bind (verified i d action now) λ r. ok (reject_verdict r)
  ]

  unfoldable pub consume_before_execution : Decision → String → Exec GuardFault S ConsumeResult
  consume_before_execution d ref =
      catching
        (o.consume (record {
          decision_id = d.decision_id;
          action_hash = d.action_hash;
          execution_ref = ref;
        }))
        (λ e. pure (record {
          success = false;
          status = rejected;
          decision_id = d.decision_id;
          execution_ref = ref;
          consumed_at = none;
          reason_code = some decision_service_unavailable;
        }))

  abbrev pub settlement_binding : Decision → String → String
  settlement_binding d ref = hash_canonical x (
      obj (
        field "version" (str "inntris-x402-settlement-binding-v1") (
          field "decision_id" (str d.decision_id)
            (field "action_hash" (str d.action_hash) (field "execution_ref" (str ref) end)))))

  unfoldable pub prepare_claim : Decision → String → ℕ → Exec GuardFault S (Option (Claim S))
  prepare_claim d ref now = elim o.reconciliation_store [
    | none ↦ pure none
    | some store ↦ do
      operation ←
          catching
            (store.prepare (record {
              rail = x402;
              operation_kind = x402_settlement;
              decision_id = d.decision_id;
              action_hash = d.action_hash;
              execution_ref = ref;
              binding_hash = settlement_binding d ref;
              prepared_at = now;
            }))
            (λ e. refuse execution_state_unavailable)
      pure (
          some (record {
            store = store;
            operation_id = operation.operation_id;
            binding_hash = settlement_binding d ref;
          }))
  ]

  -- The answers of `start`; one that is none of the refused ones lets the settlement go on.
  unfoldable pub admit_held : OperationStatus → Exec GuardFault S (Unit {0})
  unfolding refuse
  admit_held prepared = pure tt
  admit_held in_progress = refuse execution_outcome_unknown
  admit_held outcome_unknown = refuse execution_outcome_unknown
  admit_held succeeded = refuse execution_already_completed
  admit_held failed_final = refuse execution_failed_final

  unfoldable pub admit_start : StartResult → Exec GuardFault S (Unit {0})
  unfolding admit_held
  admit_start missing = refuse execution_state_unavailable
  admit_start conflicting = refuse execution_conflict
  admit_start (claimed r) = pure tt
  admit_start (held r) = admit_held r.status

  unfoldable pub start_settlement : Option (Claim S) → ℕ → Exec GuardFault S (Unit {0})
  unfolding admit_start
  start_settlement none now = pure tt
  start_settlement (some c) now =
      catching
        (c.store.start (record {
          operation_id = c.operation_id;
          binding_hash = c.binding_hash;
          started_at = now;
        }))
        (λ e. refuse execution_state_unavailable)
      >>= admit_start

  -- The first checks of `settleIfAuthorised`, which touch no state.
  unfoldable pub check_settlement : BindingInput → Decision → ℕ → Result GuardFault (Unit {0})
  unfolding verify_before_settlement
  check_settlement i d now = bind (as_guard (verify_before_settlement i d now)) λ verification.
      bind (require verification.valid (guard_error verification.reason_codes)) λ _.
        bind (as_guard (action_from_x402 x q i)) λ action.
          require (str_eq (hash_action x action) d.action_hash)
            (guard_error (action_hash_mismatch ∷ []))

  -- The preparation, the consumption and the start.
  unfoldable pub claim_settlement :
      Decision → String → Readings → Exec GuardFault S (Option (Claim S))
  unfolding prepare_claim consume_before_execution start_settlement
  claim_settlement d ref t = do
    claim ← prepare_claim d ref t.prepared_at
    consumption ← consume_before_execution d ref
    lift (
        require consumption.success
          (guard_error (or_else consumption.reason_code decision_not_allow ∷ [])))
    start_settlement claim t.started_at
    pure claim

  -- `settleIfAuthorised` up to the call of `settle`.
  unfoldable pub before_settlement :
      BindingInput → Decision → String → Readings → Exec GuardFault S (Option (Claim S))
  unfolding check_settlement claim_settlement
  before_settlement i d ref t = do
    lift (check_settlement i d t.verified_at)
    claim_settlement d ref t

  abbrev pub is_final_failure : SettleError → Bool
  is_final_failure e = elim o.classify_settlement_error [
    | none ↦ false
    | some classify ↦ elim (classify e) [ failed_final ↦ true | _ ↦ false ]
  ]

  abbrev pub error_code : SettleError → String
  error_code e = elim e.error_name [ none ↦ "UNKNOWN_ERROR" | some name ↦ take_text 128 name ]

  -- The `catch` block of the settlement.
  unfoldable pub record_failure : {T : Type 0} → Claim S → SettleError → ℕ → Exec GuardFault S T
  record_failure c e now =
      if is_final_failure e
      then (catching
            (c.store.mark_failed_final (record {
              operation_id = c.operation_id;
              binding_hash = c.binding_hash;
              error_code = error_code e;
              resolved_at = now;
            }))
            (λ f. refuse reconciliation_required)
          >> refuse execution_failed_final)
      else (catching
            (c.store.mark_outcome_unknown (record {
              operation_id = c.operation_id;
              binding_hash = c.binding_hash;
              error_code = error_code e;
              observed_at = now;
            }))
            (λ f. refuse reconciliation_required)
          >> refuse execution_outcome_unknown)

  -- `settleIfAuthorised` from the call of `settle` on.
  unfoldable pub run_settlement :
      {T : Type 0} → Exec SettleError S T → String → ℕ → Option (Claim S) → Exec GuardFault S T
  unfolding record_failure
  run_settlement settle ref now none = catching settle (λ e. throw (settle_failed e))
  run_settlement settle ref now (some c) = do
    result ← catching settle (λ e. record_failure c e now)
    _ ←
        catching
          (c.store.mark_succeeded (record {
            operation_id = c.operation_id;
            binding_hash = c.binding_hash;
            outcome_reference = ref;
            resolved_at = now;
          }))
          (λ e. refuse reconciliation_required)
    pure result

  unfoldable pub settle_if_authorised :
      {T : Type 0}
      → BindingInput
      → Decision
      → String
      → Readings
      → Exec SettleError S T
      → Exec GuardFault S T
  unfolding before_settlement run_settlement
  settle_if_authorised i d ref t settle =
      before_settlement i d ref t >>= run_settlement settle ref t.ended_at

-- The in-memory reconciliation store beside the state of the other services.
abbrev pub beside : {W A : Type 0} → Exec Fault Operations A → Exec Fault (W × Operations) A
beside act s = let (r, m) = act s.1 in (r, (s.0, m))

abbrev pub operations_store : Externals → {W : Type 0} → ReconciliationStore (W × Operations)
operations_store x = record {
  prepare = λ i. beside (Store.prepare x i);
  start = λ i. beside (Store.start i);
  mark_succeeded = λ i. beside (Store.mark_succeeded i);
  mark_failed_final = λ i. beside (Store.mark_failed_final i);
  mark_outcome_unknown = λ i. beside (Store.mark_outcome_unknown i);
}
