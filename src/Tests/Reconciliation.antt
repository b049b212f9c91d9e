-- ===== src/Tests/Reconciliation.antt =====
-- One operation: prepared, started, its outcome lost, and resolved.
use inntris_x402_policy_adap.Base.{◌≡◌, ◌≢◌, refl, true, none, some, List, [], ◌∷◌, String}
use inntris_x402_policy_adap.Base.Exec.{ok}
use inntris_x402_policy_adap.Base.Maps.{get, set}
use inntris_x402_policy_adap.Core.Action.{x402}
use inntris_x402_policy_adap.Core.Text.{hash_text, utf8, sized, identifier}
use inntris_x402_policy_adap.Core.Json.{hash_canonical}
use inntris_x402_policy_adap.Reconciliation.Types.{
  prepare_schema, operation_schema, start_schema, unknown_schema, resolve_schema, Operation,
  PrepareOperation, StartOperation, MarkOutcomeUnknown, ResolveOperation, x402_settlement,
}
use inntris_x402_policy_adap.Reconciliation.Store.{
  prepare_once, prepare_new, start_known, start_claim, mark_outcome_unknown, lose, resolve, settle,
  assert_mutation, write, same_identity, prepare, start, operation_id_of, prepared_operation,
  claimed, started, with_unknown, with_resolution,
}
use inntris_x402_policy_adap.Reconciliation.Steps.{IsSound}
use inntris_x402_policy_adap.Reconciliation.Evolution.{Evolves}
use inntris_x402_policy_adap.Reconciliation.Histories.{
  StoreCall, prepares, starts_one, reports_unknown, resolves, after_all, after_all-Evolves,
  after_all-IsSound, after_all-final, start-once, prepare-agrees,
}
use inntris_x402_policy_adap.Tests.Samples.{externals}
use inntris_x402_policy_adap.Tests.Actions.{hash}

abbrev preparation : PrepareOperation
preparation = record {
  rail = x402;
  operation_kind = x402_settlement;
  decision_id = "d1";
  action_hash = hash;
  execution_ref = "r1";
  binding_hash = hash;
  prepared_at = 1000;
}

abbrev id : String
id = operation_id_of externals preparation

abbrev starting : StartOperation
starting = record { operation_id = id; binding_hash = hash; started_at = 1001 }

abbrev losing : MarkOutcomeUnknown
losing = record {
  operation_id = id;
  binding_hash = hash;
  error_code = "TIMEOUT";
  observed_at = 1002;
}

abbrev resolution : ResolveOperation
resolution = record {
  operation_id = id;
  binding_hash = hash;
  has_succeeded = true;
  outcome_reference = "tx";
  error_code = none;
  resolved_by = "ops";
  resolution_note = "found on chain";
  resolved_at = 1003;
}

abbrev calls : List StoreCall
calls =
    prepares preparation ∷ starts_one starting ∷ reports_unknown losing ∷ resolves resolution ∷ []

abbrev prepared_one : Operation
prepared_one = prepared_operation externals preparation

abbrev started_one : Operation
started_one = started 1001 prepared_one

abbrev resolved_one : Operation
resolved_one = with_resolution resolution (with_unknown "TIMEOUT" 1002 started_one)

after_all-Evolves_example : Evolves externals [] (after_all externals calls [])
after_all-Evolves_example = after_all-Evolves externals calls []

after_all-IsSound_example : IsSound resolved_one
unfolding get set after_all prepare prepare_schema prepare_once prepare_new operation_schema start
    start_schema start_known start_claim mark_outcome_unknown unknown_schema lose resolve
    resolve_schema settle assert_mutation write hash_text operation_id_of hash_canonical externals
    utf8 sized identifier same_identity
after_all-IsSound_example =
    after_all-IsSound externals calls [] (λ k r h. absurd (cc)) id resolved_one refl

-- A late report and a second start leave the resolved operation as it is.
after_all-final_example :
    get id (
      after_all externals
        (starts_one starting ∷ reports_unknown losing ∷ [])
        (after_all externals calls []))
    ≡ some resolved_one
unfolding get set after_all prepare prepare_schema prepare_once prepare_new operation_schema start
    start_schema start_known start_claim mark_outcome_unknown unknown_schema lose resolve
    resolve_schema settle assert_mutation write hash_text operation_id_of hash_canonical externals
    utf8 sized identifier same_identity
after_all-final_example =
    after_all-final externals (starts_one starting ∷ reports_unknown losing ∷ [])
      (after_all externals calls []) id resolved_one refl refl

start-once_example :
    (start starting (
      after_all externals
        (reports_unknown losing ∷ [])
        (start starting (prepare externals preparation []).1).1)).0
    ≢ ok (claimed started_one)
unfolding get set after_all prepare prepare_schema prepare_once prepare_new operation_schema start
    start_schema start_known start_claim mark_outcome_unknown unknown_schema lose resolve
    resolve_schema settle assert_mutation write hash_text operation_id_of hash_canonical externals
    utf8 sized identifier same_identity
start-once_example =
    start-once externals starting starting (prepare externals preparation []).1
      (reports_unknown losing ∷ []) started_one started_one refl refl

prepare-agrees_example :
    (preparation.decision_id ≡ preparation.decision_id)
    × (preparation.action_hash ≡ preparation.action_hash)
    × (preparation.binding_hash ≡ preparation.binding_hash)
unfolding get set after_all prepare prepare_schema prepare_once prepare_new operation_schema start
    start_schema start_known start_claim mark_outcome_unknown unknown_schema lose resolve
    resolve_schema settle assert_mutation write hash_text operation_id_of hash_canonical externals
    utf8 sized identifier same_identity
prepare-agrees_example =
    prepare-agrees externals preparation preparation [] (starts_one starting ∷ []) prepared_one
      started_one refl refl refl
