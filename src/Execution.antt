-- ===== src/Execution.antt =====
-- What the runtime gates of packages/wallet-signing-gate, packages/a2a-settlement-gate and
-- packages/ap2-runtime-gate share: the execution store, which claims an execution before it runs and
-- keeps its result, and the errors of a gate. An error is its reason code and its cause code; the
-- English message is left out.
pub mod Once
pub mod Attempt
pub mod Admission
pub mod Receipt
pub mod Issued
use Prim.Native.String.{◌++◌ as join}
use inntris_x402_policy_adap.Base.{
  String, Bool, true, false, not, ◌&&◌, Option, none, some, List, [], ◌∷◌, str_eq, if◌then◌else◌,
}
use inntris_x402_policy_adap.Base.Exec.{
  Result, ok, err, Exec, pure, throw, lift, require, ◌>>=◌, ◌>>◌, catching,
}
use inntris_x402_policy_adap.Base.Maps.{Map, get, set}
use inntris_x402_policy_adap.Core.Reasons.{ReasonCode, reason_name}
use inntris_x402_policy_adap.Core.Signing.{Fault}
use inntris_x402_policy_adap.Core.Replay.{ConsumeInput, ConsumeResult}

-- What a service throws, as far as `error instanceof Error ? error.name : undefined` reads it.
pub record Thrown : Type 0 where
  pub error_name : Option String

-- An execution under its binding, `B`, and with its result, `C`, once it is completed.
pub data Stored (B C : Type 0) : Type 0 where
  stored_in_progress : B → Stored B C
  stored_completed : B → C → Stored B C

pub data ClaimAnswer (B C : Type 0) : Type 0 where
  claimed in_progress conflict : ClaimAnswer B C
  completed : B → C → ClaimAnswer B C

-- The methods of `EvmExecutionStore`, `A2AExecutionStore` and `AP2ExecutionStore`.
pub record ExecutionStore (B C S : Type 0) : Type 0 where
  pub claim : String → B → Exec Thrown S (ClaimAnswer B C)
  pub complete : String → B → C → Exec Thrown S (Unit {0})

module _ {B C : Type 0} where
  abbrev pub binding_of : Stored B C → B
  binding_of (stored_in_progress b) = b
  binding_of (stored_completed b c) = b

  abbrev pub held_answer : Stored B C → ClaimAnswer B C
  held_answer (stored_in_progress b) = in_progress
  held_answer (stored_completed b c) = completed b c

  module _ (same : B → B → Bool) where
    -- `claim` of the in-memory stores.
    unfoldable pub claim : String → B → Map (Stored B C) → ClaimAnswer B C × Map (Stored B C)
    claim key b m = elim (get key m) [
      | none ↦ (claimed, set key (stored_in_progress b) m)
      | some e ↦ if not (same (binding_of e) b) then (conflict, m) else (held_answer e, m)
    ]

    abbrev pub complete_held :
        String → B → C → Stored B C → Exec Thrown (Map (Stored B C)) (Unit {0})
    complete_held key b c (stored_completed e d) m = (err (record { error_name = some "Error" }), m)
    complete_held key b c (stored_in_progress e) m =
        if not (same e b)
        then (err (record { error_name = some "Error" }), m)
        else (ok tt, set key (stored_completed b c) m)

    -- `complete` of the in-memory stores.
    unfoldable pub complete : String → B → C → Exec Thrown (Map (Stored B C)) (Unit {0})
    complete key b c m = elim (get key m) [
      | none ↦ (err (record { error_name = some "Error" }), m)
      | some e ↦ complete_held key b c e m
    ]

    -- An in-memory store beside the state of the other services.
    abbrev pub memory_store : {W : Type 0} → ExecutionStore B C (W × Map (Stored B C))
    memory_store = record {
      claim = λ key b s. let (a, m) = claim key b s.1 in (ok a, (s.0, m));
      complete = λ key b c s. let (r, m) = complete key b c s.1 in (r, (s.0, m));
    }

-- A binding hash with an execution reference.
pub record Binding : Type 0 where
  pub binding_hash : String
  pub execution_ref : String

abbrev pub same_binding : Binding → Binding → Bool
same_binding a b = str_eq a.binding_hash b.binding_hash && str_eq a.execution_ref b.execution_ref

-- The error of a gate with its reason codes, `R`, or an error of a schema or a check.
pub data GateFault (R : Type 0) : Type 0 where
  gate_error : R → Option String → GateFault R
  other_fault : Fault → GateFault R

abbrev pub as_gate : {R A : Type 0} → Result Fault A → Result (GateFault R) A
as_gate (ok a) = ok a
as_gate (err e) = err (other_fault e)

-- `if (!test) reject(r)`
abbrev pub demand : {R : Type 0} → Bool → R → Result (GateFault R) (Unit {0})
demand test r = require test (gate_error r none)

-- `codes.join(",")`
abbrev pub joined : List ReasonCode → String
joined [] = ""
joined (r ∷ []) = reason_name r
joined (r ∷ rs) = join (reason_name r) (join "," (joined rs))

abbrev pub reason_text : Option ReasonCode → Option String
reason_text none = none
reason_text (some r) = some (reason_name r)

module _ {R S : Type 0} where
  unfoldable pub reject : {A : Type 0} → R → Option String → Exec (GateFault R) S A
  unfolding throw
  reject r cause = throw (gate_error r cause)

  -- `if (!test) reject(r, cause)`
  unfoldable pub ensure : Bool → R → Option String → Exec (GateFault R) S (Unit {0})
  unfolding reject
  ensure test r cause = if test then pure tt else reject r cause

  -- `try { act } catch (error) { reject(r, error.name) }`
  unfoldable pub guarded : {A : Type 0} → R → Exec Thrown S A → Exec (GateFault R) S A
  unfolding reject
  guarded r act = catching act (λ e. reject r e.error_name)

  -- The claim of an execution, with the reason codes of a store that fails, of a conflict and of an
  -- unresolved attempt; the result of a completed execution is handed on.
  unfoldable pub admit :
      {B C : Type 0} → R → R → ClaimAnswer B C → Exec (GateFault R) S (Option (B × C))
  unfolding reject
  admit other unresolved claimed = pure none
  admit other unresolved in_progress = reject unresolved none
  admit other unresolved conflict = reject other none
  admit other unresolved (completed b c) = pure (some (b, c))

  unfoldable pub claim_execution :
      {B C : Type 0}
      → ExecutionStore B C S
      → R
      → R
      → R
      → String
      → B
      → Exec (GateFault R) S (Option (B × C))
  unfolding guarded admit
  claim_execution store failed other unresolved key b =
      guarded failed (store.claim key b) >>= admit other unresolved

  -- The consumption of a decision for an execution.
  unfoldable pub spend :
      R
      → (ConsumeInput → Exec Thrown S ConsumeResult)
      → ConsumeInput
      → Exec (GateFault R) S (Unit {0})
  unfolding guarded ensure
  spend r consume i = do
    consumption ← guarded r (consume i)
    ensure consumption.success r (reason_text consumption.reason_code)
