-- ===== src/Reconciliation/Methods.antt =====
-- What each method of the in-memory reconciliation store does to the map of operations.
use inntris_x402_policy_adap.Base.{
  String, ◌≡◌, ◌⊎◌, refl, Bool, true, false, not, ◌&&◌, ◌||◌, none, some, inl, inr, Bool-cases,
  Option-cases, str_eq, if◌then◌else◌, and-eq-true, option_eq,
}
use inntris_x402_policy_adap.Base.Exec.{Exec, pure, throw}
use inntris_x402_policy_adap.Base.Keeps.{Keeps, Keeps-pure, Keeps-throw}
use inntris_x402_policy_adap.Base.Maps.{get}
use inntris_x402_policy_adap.Core.Json.{Externals}
use inntris_x402_policy_adap.Core.Signing.{Fault, state_error}
use inntris_x402_policy_adap.Reconciliation.Types.{
  Operation, OperationStatus, prepared, in_progress, outcome_unknown, is_prepared, is_in_progress,
  is_outcome_unknown, is_succeeded, is_failed_final, PrepareOperation, StartOperation,
  MarkSucceeded, MarkFailedFinal, MarkOutcomeUnknown, ResolveOperation, is_some, resolve_schema,
  operation_schema, prepare_schema, start_schema, succeeded_schema, failed_schema, unknown_schema,
}
use inntris_x402_policy_adap.Reconciliation.Store.{
  Operations, given, mutate, write, assert_mutation, start, start_claim, start_known, started,
  succeed, fail, lose, settle, prepare, prepare_new, prepare_once, prepared_operation,
  operation_id_of, same_identity, mark_succeeded, mark_failed_final, mark_outcome_unknown, resolve,
  with_success, with_failure, with_unknown, with_resolution,
}
use inntris_x402_policy_adap.Reconciliation.Steps.{
  Step, starts, succeeds, fails, is_lost, is_resolved,
}
use inntris_x402_policy_adap.Reconciliation.Evolution.{
  Evolves, Evolves-order, set-Evolves, new-Evolves,
}

in_progress-eq : (s : OperationStatus) → not (is_in_progress s) ≡ false → s ≡ in_progress
in_progress-eq in_progress h = refl
in_progress-eq _ h = cc

unresolved-eq :
    (s : OperationStatus)
    → (not (is_outcome_unknown s) && not (is_in_progress s)) ≡ false
    → (s ≡ outcome_unknown) ⊎ (s ≡ in_progress)
unresolved-eq outcome_unknown h = inl refl
unresolved-eq in_progress h = inr refl
unresolved-eq _ h = absurd (cc)

prepared-eq : (s : OperationStatus) → is_prepared s ≡ true → s ≡ prepared
prepared-eq prepared h = refl
prepared-eq _ h = cc

or-cases : (a b : Bool) → (a || b) ≡ true → (a ≡ true) ⊎ (b ≡ true)
or-cases true b h = inl refl
or-cases false b h = inr h

module _ (x : Externals) where
  given-Evolves :
      {A : Type 0} (b : Bool) (act : Exec Fault Operations A)
      → (b ≡ true → Keeps (Evolves x) act)
      → Keeps (Evolves x) (given b act)
  unfolding given
  given-Evolves true act h = h refl
  given-Evolves false act h = Keeps-throw (Evolves-order x) _

  -- What is done with the record `r` under `id`.
  abbrev Acts : String → Operation → Exec Fault Operations Operation → Type 0
  Acts id r act = (m : Operations) → get id m ≡ some r → Evolves x m (act m).1

  mutate-Evolves :
      (id hash : String) (act : Operation → Exec Fault Operations Operation)
      → ((r : Operation) → Acts id r (act r))
      → Keeps (Evolves x) (mutate id hash act)
  unfolding mutate assert_mutation
  mutate-Evolves id hash act h = record {
    at = λ m. elim (Option-cases (get id m)) [
      | inl e ↦ rw (mutate, assert_mutation, e) ((Evolves-order x).same m)
      | inr (r, e) ↦ elim (Bool-cases (str_eq r.binding_hash hash)) [
        | inl f ↦ rw (mutate, e, assert_mutation, f) (h r m e)
        | inr f ↦ rw (mutate, e, assert_mutation, f) ((Evolves-order x).same m)
      ]
    ];
  }

  -- A report is repeated, comes at the wrong status, or is written.
  report-Acts :
      (id : String) (r s : Operation) (is_repeated : Bool)
      → (r.status ≡ in_progress → Step r s)
      → Acts id r (
          if is_repeated
          then pure r
          else if not (is_in_progress r.status)
          then throw state_error
          else write id s)
  unfolding write
  report-Acts id r s true p m h = (Keeps-pure (Evolves-order x) r).at m
  report-Acts id r s false p m h = elim (Bool-cases (is_in_progress r.status)) [
    | inl e ↦ rw (e, write) (set-Evolves x m id r s h (p (in_progress-eq r.status (rw e))))
    | inr e ↦ rw e ((Keeps-throw (Evolves-order x) state_error).at m)
  ]

  pub mark_succeeded-Evolves : (i : MarkSucceeded) → Keeps (Evolves x) (mark_succeeded i)
  unfolding mark_succeeded succeed
  mark_succeeded-Evolves i = given-Evolves (succeeded_schema i) _ λ accepted.
      mutate-Evolves i.operation_id i.binding_hash (succeed i) λ r.
        report-Acts i.operation_id r (with_success i.outcome_reference i.resolved_at r)
          (is_succeeded r.status && option_eq r.outcome_reference (some i.outcome_reference))
          (succeeds r i.outcome_reference i.resolved_at)

  pub mark_failed_final-Evolves : (i : MarkFailedFinal) → Keeps (Evolves x) (mark_failed_final i)
  unfolding mark_failed_final fail
  mark_failed_final-Evolves i = given-Evolves (failed_schema i) _ λ accepted.
      mutate-Evolves i.operation_id i.binding_hash (fail i) λ r.
        report-Acts i.operation_id r (with_failure i.error_code i.resolved_at r)
          (is_failed_final r.status && option_eq r.last_error_code (some i.error_code))
          (fails r i.error_code i.resolved_at)

  pub mark_outcome_unknown-Evolves :
      (i : MarkOutcomeUnknown) → Keeps (Evolves x) (mark_outcome_unknown i)
  unfolding mark_outcome_unknown lose
  mark_outcome_unknown-Evolves i = given-Evolves (unknown_schema i) _ λ accepted.
      mutate-Evolves i.operation_id i.binding_hash (lose i) λ r.
        report-Acts i.operation_id r (with_unknown i.error_code i.observed_at r)
          (is_outcome_unknown r.status) (is_lost r i.error_code i.observed_at)

  resolve_schema-error :
      (i : ResolveOperation)
      → resolve_schema i ≡ true
      → (i.has_succeeded ≡ true) ⊎ (is_some i.error_code ≡ true)
  unfolding resolve_schema
  resolve_schema-error i h = or-cases i.has_succeeded (is_some i.error_code) (and-eq-true _ _ h).1

  settle-Acts :
      (i : ResolveOperation) (r : Operation)
      → resolve_schema i ≡ true
      → Acts i.operation_id r (settle i r)
  unfolding settle write
  settle-Acts i r accepted m h =
      elim (Bool-cases (not (is_outcome_unknown r.status) && not (is_in_progress r.status))) [
        | inl e ↦ rw (settle, e) ((Keeps-throw {A = Operation} (Evolves-order x) state_error).at m)
        | inr e ↦
            rw (settle, e, write)
              (set-Evolves x m i.operation_id r (with_resolution i r) h
                (is_resolved r i (unresolved-eq r.status e) (resolve_schema-error i accepted)))
      ]

  pub resolve-Evolves : (i : ResolveOperation) → Keeps (Evolves x) (resolve i)
  unfolding resolve
  resolve-Evolves i = given-Evolves (resolve_schema i) _ λ accepted.
      mutate-Evolves i.operation_id i.binding_hash (settle i) λ r. settle-Acts i r accepted

  claim-Evolves :
      (i : StartOperation) (r : Operation) (m : Operations)
      → get i.operation_id m ≡ some r
      → Evolves x m (start_claim i r m).1
  unfolding start_claim
  claim-Evolves i r m h = elim (Bool-cases (str_eq r.binding_hash i.binding_hash)) [
    | inr f ↦ rw (start_claim, f) ((Evolves-order x).same m)
    | inl f ↦ elim (Bool-cases (is_prepared r.status)) [
      | inr g ↦ rw (start_claim, f, g) ((Evolves-order x).same m)
      | inl g ↦
          rw (start_claim, f, g)
            (set-Evolves x m i.operation_id r (started i.started_at r) h
              (starts r i.started_at (prepared-eq r.status g)))
    ]
  ]

  pub start-Evolves : (i : StartOperation) → Keeps (Evolves x) (start i)
  unfolding start start_known
  start-Evolves i = given-Evolves (start_schema i) (start_known i) λ accepted. record {
    at = λ m. elim (Option-cases (get i.operation_id m)) [
      | inl f ↦ rw (start_known, f) ((Evolves-order x).same m)
      | inr (r, f) ↦ rw (start_known, f) (claim-Evolves i r m f)
    ];
  }

  prepare_new-Evolves :
      (i : PrepareOperation) (m : Operations)
      → get (operation_id_of x i) m ≡ none
      → Evolves x m (prepare_new x i m).1
  unfolding prepare_new
  prepare_new-Evolves i m h = elim (Bool-cases (operation_schema (prepared_operation x i))) [
    | inl f ↦ rw (prepare_new, f) (new-Evolves x m i h)
    | inr f ↦ rw (prepare_new, f) ((Evolves-order x).same m)
  ]

  pub prepare-Evolves : (i : PrepareOperation) → Keeps (Evolves x) (prepare x i)
  unfolding prepare prepare_once
  prepare-Evolves i = given-Evolves (prepare_schema i) (prepare_once x i) λ accepted. record {
    at = λ m. elim (Option-cases (get (operation_id_of x i) m)) [
      | inl f ↦ rw (prepare_once, f) (prepare_new-Evolves i m f)
      | inr (r, f) ↦ elim (Bool-cases (same_identity r i)) [
        | inl g ↦ rw (prepare_once, f, g) ((Evolves-order x).same m)
        | inr g ↦ rw (prepare_once, f, g) ((Evolves-order x).same m)
      ]
    ];
  }
