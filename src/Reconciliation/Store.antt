-- ===== src/Reconciliation/Store.antt =====
-- packages/execution-reconciliation/src/store.ts: the in-memory store. Its state is the map of operations.
use inntris_x402_policy_adap.Base.{
  ℕ, suc, zero, ◌+◌, String, Bool, not, ◌&&◌, ◌||◌, Option, none, some, List, [], ◌∷◌, leb, ltb,
  str_eq, if◌then◌else◌, option_eq, keep,
}
use inntris_x402_policy_adap.Base.Exec.{Result, ok, err, Exec, pure, throw, require, bind}
use inntris_x402_policy_adap.Base.Maps.{Map, get, set}
use inntris_x402_policy_adap.Core.Json.{str, obj, end, field, Externals, hash_canonical}
use inntris_x402_policy_adap.Core.Action.{rail_name, rail_eq}
use inntris_x402_policy_adap.Core.Signing.{Fault, schema_error, state_error, parse}
use inntris_x402_policy_adap.Reconciliation.Types.{
  kind_name, prepared, in_progress, succeeded, failed_final, outcome_unknown, is_prepared,
  is_in_progress, is_succeeded, is_failed_final, is_outcome_unknown, PrepareOperation, Operation,
  StartOperation, MarkSucceeded, MarkFailedFinal, MarkOutcomeUnknown, ResolveOperation,
  prepare_schema, operation_schema, start_schema, succeeded_schema, failed_schema, unknown_schema,
  resolve_schema,
}

-- `ExecutionStartResult`; `held` has the status of its operation.
pub data StartResult : Type 0 where
  missing conflicting : StartResult
  claimed held : Operation → StartResult

unfoldable pub same_identity : Operation → PrepareOperation → Bool
same_identity r i =
    rail_eq r.rail i.rail
    && str_eq (kind_name r.operation_kind) (kind_name i.operation_kind)
    && str_eq r.decision_id i.decision_id
    && str_eq r.action_hash i.action_hash
    && str_eq r.execution_ref i.execution_ref
    && str_eq r.binding_hash i.binding_hash

-- `assertMutation`
unfoldable pub assert_mutation : Option Operation → String → Result Fault Operation
assert_mutation none hash = err state_error
assert_mutation (some r) hash = if not (str_eq r.binding_hash hash) then err state_error else ok r

-- What the mutating methods write.
abbrev pub started : ℕ → Operation → Operation
started t r = record r {
  status = in_progress;
  attempt_count = r.attempt_count + 1;
  started_at = some t;
  updated_at = t;
}

abbrev pub with_success : String → ℕ → Operation → Operation
with_success reference t r = record r {
  status = succeeded;
  outcome_reference = some reference;
  resolved_at = some t;
  updated_at = t;
}

abbrev pub with_failure : String → ℕ → Operation → Operation
with_failure code t r = record r {
  status = failed_final;
  last_error_code = some code;
  resolved_at = some t;
  updated_at = t;
}

abbrev pub with_unknown : String → ℕ → Operation → Operation
with_unknown code t r = record r {
  status = outcome_unknown;
  last_error_code = some code;
  updated_at = t;
}

abbrev pub with_resolution : ResolveOperation → Operation → Operation
with_resolution i r = record r {
  status = if i.has_succeeded then succeeded else failed_final;
  outcome_reference = some i.outcome_reference;
  last_error_code = if i.has_succeeded then none else i.error_code;
  resolved_by = some i.resolved_by;
  resolution_note = some i.resolution_note;
  resolved_at = some i.resolved_at;
  updated_at = i.resolved_at;
}

abbrev pub Operations : Type 0
Operations = Map Operation

-- `Schema.parse(input)` before the rest of a method.
unfoldable pub given : {A : Type 0} → Bool → Exec Fault Operations A → Exec Fault Operations A
unfolding throw
given accepted act = if accepted then act else throw schema_error

-- The fields of the stored record are assigned, and its copy is parsed.
unfoldable pub write : String → Operation → Exec Fault Operations Operation
write id r m = (parse operation_schema r, set id r m)

-- The record of an operation with its binding hash, and what is done with it.
unfoldable pub mutate :
    String
    → String
    → (Operation → Exec Fault Operations Operation)
    → Exec Fault Operations Operation
mutate id hash act m = elim (assert_mutation (get id m) hash) [
  | err e ↦ (err e, m)
  | ok r ↦ act r m
]

unfoldable pub start_claim : StartOperation → Operation → Exec Fault Operations StartResult
start_claim i r m =
    if not (str_eq r.binding_hash i.binding_hash)
    then (ok conflicting, m)
    else if is_prepared r.status
    then (ok (claimed (started i.started_at r)), set i.operation_id (started i.started_at r) m)
    else (ok (held r), m)

unfoldable pub start_known : StartOperation → Exec Fault Operations StartResult
start_known i m = elim (get i.operation_id m) [
  | none ↦ (ok missing, m)
  | some r ↦ start_claim i r m
]

unfoldable pub start : StartOperation → Exec Fault Operations StartResult
unfolding given
start i = given (start_schema i) (start_known i)

unfoldable pub succeed : MarkSucceeded → Operation → Exec Fault Operations Operation
unfolding pure throw
succeed i r =
    if is_succeeded r.status && option_eq r.outcome_reference (some i.outcome_reference)
    then pure r
    else if not (is_in_progress r.status)
    then throw state_error
    else write i.operation_id (with_success i.outcome_reference i.resolved_at r)

-- `markSucceeded`
unfoldable pub mark_succeeded : MarkSucceeded → Exec Fault Operations Operation
unfolding given mutate
mark_succeeded i = given (succeeded_schema i) (mutate i.operation_id i.binding_hash (succeed i))

unfoldable pub fail : MarkFailedFinal → Operation → Exec Fault Operations Operation
unfolding pure throw
fail i r =
    if is_failed_final r.status && option_eq r.last_error_code (some i.error_code)
    then pure r
    else if not (is_in_progress r.status)
    then throw state_error
    else write i.operation_id (with_failure i.error_code i.resolved_at r)

-- `markFailedFinal`
unfoldable pub mark_failed_final : MarkFailedFinal → Exec Fault Operations Operation
unfolding given mutate
mark_failed_final i = given (failed_schema i) (mutate i.operation_id i.binding_hash (fail i))

unfoldable pub lose : MarkOutcomeUnknown → Operation → Exec Fault Operations Operation
unfolding pure throw
lose i r =
    if is_outcome_unknown r.status
    then pure r
    else if not (is_in_progress r.status)
    then throw state_error
    else write i.operation_id (with_unknown i.error_code i.observed_at r)

-- `markOutcomeUnknown`
unfoldable pub mark_outcome_unknown : MarkOutcomeUnknown → Exec Fault Operations Operation
unfolding given mutate
mark_outcome_unknown i = given (unknown_schema i) (mutate i.operation_id i.binding_hash (lose i))

unfoldable pub settle : ResolveOperation → Operation → Exec Fault Operations Operation
unfolding throw
settle i r =
    if not (is_outcome_unknown r.status) && not (is_in_progress r.status)
    then throw state_error
    else write i.operation_id (with_resolution i r)

unfoldable pub resolve : ResolveOperation → Exec Fault Operations Operation
unfolding given mutate
resolve i = given (resolve_schema i) (mutate i.operation_id i.binding_hash (settle i))

module _ (x : Externals) where
  -- `executionOperationId`
  unfoldable pub operation_id_of : PrepareOperation → String
  operation_id_of i = hash_canonical x (
      obj (
        field "version" (str "inntris-execution-operation-id-v1") (
          field "rail" (str (rail_name i.rail)) (
            field "operation_kind" (str (kind_name i.operation_kind))
              (field "execution_ref" (str i.execution_ref) end)))))

  abbrev pub prepared_operation : PrepareOperation → Operation
  prepared_operation i = record {
    operation_id = operation_id_of i;
    rail = i.rail;
    operation_kind = i.operation_kind;
    decision_id = i.decision_id;
    action_hash = i.action_hash;
    execution_ref = i.execution_ref;
    binding_hash = i.binding_hash;
    status = prepared;
    attempt_count = 0;
    prepared_at = i.prepared_at;
    started_at = none;
    updated_at = i.prepared_at;
    resolved_at = none;
    outcome_reference = none;
    last_error_code = none;
    resolved_by = none;
    resolution_note = none;
  }

  unfoldable pub prepare_new : PrepareOperation → Exec Fault Operations Operation
  prepare_new i m =
      if operation_schema (prepared_operation i)
      then (ok (prepared_operation i), set (operation_id_of i) (prepared_operation i) m)
      else (err schema_error, m)

  unfoldable pub prepare_once : PrepareOperation → Exec Fault Operations Operation
  unfolding prepare_new
  prepare_once i m = elim (get (operation_id_of i) m) [
    | none ↦ prepare_new i m
    | some r ↦ if not (same_identity r i) then (err state_error, m) else (ok r, m)
  ]

  unfoldable pub prepare : PrepareOperation → Exec Fault Operations Operation
  unfolding given
  prepare i = given (prepare_schema i) (prepare_once i)

-- `listUnresolved`: the oldest first, in the order of the map where times are equal.
abbrev pub is_unresolved : Option ℕ → Operation → Bool
is_unresolved none r = is_in_progress r.status || is_outcome_unknown r.status
is_unresolved (some before) r =
    (is_in_progress r.status || is_outcome_unknown r.status) && ltb r.updated_at before

unfoldable pub values : Operations → List Operation
values [] = []
values ((k, r) ∷ m) = r ∷ values m

-- A stable sort by `updatedAt`.
unfoldable pub insert_by_time : Operation → List Operation → List Operation
insert_by_time r [] = r ∷ []
insert_by_time r (s ∷ l) =
    if leb r.updated_at s.updated_at then r ∷ s ∷ l else s ∷ insert_by_time r l

unfoldable pub sort_by_time : List Operation → List Operation
unfolding insert_by_time
sort_by_time [] = []
sort_by_time (r ∷ l) = insert_by_time r (sort_by_time l)

unfoldable pub take {ℓ} : {A : Type ℓ} → ℕ → List A → List A
take zero l = []
take (suc n) [] = []
take (suc n) (a ∷ l) = a ∷ take n l

abbrev pub limit_of : Option ℕ → ℕ
limit_of none = 100
limit_of (some n) = n

-- Both the schema of the input and `validateLimit` refuse a limit that is not from 1 to 500.
unfoldable pub list_unresolved : Option ℕ → Option ℕ → Operations → Result Fault (List Operation)
list_unresolved before limit m =
    bind (require (leb 1 (limit_of limit) && leb (limit_of limit) 500) schema_error)
      λ _. ok (take (limit_of limit) (sort_by_time (keep (is_unresolved before) (values m))))
