-- ===== src/Reconciliation/Types.antt =====
-- packages/execution-reconciliation/src/types.ts: execution operations, the inputs of the store's
-- methods, and their schemas. A `Date` of an input is its millisecond since the epoch.
use inntris_x402_policy_adap.Base.{ℕ, String, Bool, true, false, ◌&&◌, ◌||◌, Option, none, some}
use inntris_x402_policy_adap.Core.Text.{sized, identifier, hash_text}
use inntris_x402_policy_adap.Core.Action.{Rail}

pub data OperationKind : Type 0 where
  x402_settlement a2a_settlement a2a_delegate ap2_delegate evm_broadcast mtp_consumption :
      OperationKind

abbrev pub kind_name : OperationKind → String
kind_name x402_settlement = "x402_settlement"
kind_name a2a_settlement = "a2a_settlement"
kind_name a2a_delegate = "a2a_delegate"
kind_name ap2_delegate = "ap2_delegate"
kind_name evm_broadcast = "evm_broadcast"
kind_name mtp_consumption = "mtp_consumption"

pub data OperationStatus : Type 0 where
  prepared in_progress succeeded failed_final outcome_unknown : OperationStatus

abbrev pub is_prepared : OperationStatus → Bool
is_prepared prepared = true
is_prepared _ = false

abbrev pub is_in_progress : OperationStatus → Bool
is_in_progress in_progress = true
is_in_progress _ = false

abbrev pub is_succeeded : OperationStatus → Bool
is_succeeded succeeded = true
is_succeeded _ = false

abbrev pub is_failed_final : OperationStatus → Bool
is_failed_final failed_final = true
is_failed_final _ = false

abbrev pub is_outcome_unknown : OperationStatus → Bool
is_outcome_unknown outcome_unknown = true
is_outcome_unknown _ = false

pub record PrepareOperation : Type 0 where
  pub rail : Rail
  pub operation_kind : OperationKind
  pub decision_id : String
  pub action_hash : String
  pub execution_ref : String
  pub binding_hash : String
  pub prepared_at : ℕ

pub record Operation : Type 0 where
  pub operation_id : String
  pub rail : Rail
  pub operation_kind : OperationKind
  pub decision_id : String
  pub action_hash : String
  pub execution_ref : String
  pub binding_hash : String
  pub status : OperationStatus
  pub attempt_count : ℕ
  pub prepared_at : ℕ
  pub started_at : Option ℕ
  pub updated_at : ℕ
  pub resolved_at : Option ℕ
  pub outcome_reference : Option String
  pub last_error_code : Option String
  pub resolved_by : Option String
  pub resolution_note : Option String

pub record StartOperation : Type 0 where
  pub operation_id : String
  pub binding_hash : String
  pub started_at : ℕ

pub record MarkSucceeded : Type 0 where
  pub operation_id : String
  pub binding_hash : String
  pub outcome_reference : String
  pub resolved_at : ℕ

pub record MarkFailedFinal : Type 0 where
  pub operation_id : String
  pub binding_hash : String
  pub error_code : String
  pub resolved_at : ℕ

pub record MarkOutcomeUnknown : Type 0 where
  pub operation_id : String
  pub binding_hash : String
  pub error_code : String
  pub observed_at : ℕ

-- `outcome` is `succeeded` or `failed_final`, here whether it succeeded.
pub record ResolveOperation : Type 0 where
  pub operation_id : String
  pub binding_hash : String
  pub has_succeeded : Bool
  pub outcome_reference : String
  pub error_code : Option String
  pub resolved_by : String
  pub resolution_note : String
  pub resolved_at : ℕ

abbrev optional : (String → Bool) → Option String → Bool
optional schema none = true
optional schema (some s) = schema s

abbrev pub is_some : Option String → Bool
is_some none = false
is_some (some s) = true

unfoldable pub prepare_schema : PrepareOperation → Bool
prepare_schema i =
    identifier i.decision_id
    && hash_text i.action_hash
    && sized 1 512 i.execution_ref
    && hash_text i.binding_hash

unfoldable pub operation_schema : Operation → Bool
operation_schema r =
    hash_text r.operation_id
    && identifier r.decision_id
    && hash_text r.action_hash
    && sized 1 512 r.execution_ref
    && hash_text r.binding_hash
    && optional (sized 1 512) r.outcome_reference
    && optional (sized 1 128) r.last_error_code
    && optional identifier r.resolved_by
    && optional (sized 1 1024) r.resolution_note

unfoldable pub start_schema : StartOperation → Bool
start_schema i = hash_text i.operation_id && hash_text i.binding_hash

unfoldable pub succeeded_schema : MarkSucceeded → Bool
succeeded_schema i =
    hash_text i.operation_id && hash_text i.binding_hash && sized 1 512 i.outcome_reference

unfoldable pub failed_schema : MarkFailedFinal → Bool
failed_schema i = hash_text i.operation_id && hash_text i.binding_hash && sized 1 128 i.error_code

unfoldable pub unknown_schema : MarkOutcomeUnknown → Bool
unknown_schema i = hash_text i.operation_id && hash_text i.binding_hash && sized 1 128 i.error_code

-- The refinement: a final failure needs an error code.
unfoldable pub resolve_schema : ResolveOperation → Bool
resolve_schema i =
    hash_text i.operation_id
    && hash_text i.binding_hash
    && sized 1 512 i.outcome_reference
    && optional (sized 1 128) i.error_code
    && identifier i.resolved_by
    && sized 1 1024 i.resolution_note
    && (i.has_succeeded || is_some i.error_code)
