-- ===== src/A2a/Types.antt =====
-- packages/a2a-settlement-gate/src/types.ts, and the fields of the receipt of src/receipt.ts.
use inntris_x402_policy_adap.Base.{
  ℕ, String, Bool, true, false, not, ◌&&◌, ◌||◌, Option, none, some, List, [], ◌∷◌, includes,
}
use inntris_x402_policy_adap.Core.Text.{sized, identifier, hash_text}
use inntris_x402_policy_adap.Core.Time.{iso_text}
use inntris_x402_policy_adap.Core.Json.{
  Json, str, obj, Fields, field, end, Externals, nullable, fields_of,
}
use inntris_x402_policy_adap.Adapter.Binding.{BindingInput}
use inntris_x402_policy_adap.Execution.Receipt.{ReceiptForm}

-- `A2ATaskReference`
pub record Task : Type 0 where
  pub id : String
  pub context_id : String

pub record PaymentSubmission : Type 0 where
  pub submission_id : String
  pub task_id : String
  pub context_id : String
  pub resource : String
  pub payment_requirements_hash : String
  pub submitted_at : ℕ
  pub settlement_ref : Option String

-- `A2AActionBinding`
pub record ActionBinding : Type 0 where
  pub task_id : String
  pub context_id : String
  pub payment_submission_id : String
  pub payment_requirements_hash : String
  pub resource : String
  pub required_finality : String

pub data SettlementState : Type 0 where
  payment_submitted settled failed unknown : SettlementState

pub record Observation : Type 0 where
  pub state : SettlementState
  pub task_id : String
  pub context_id : String
  pub payment_submission_id : String
  pub payment_requirements_hash : String
  pub resource : String
  pub settlement_ref : Option String
  pub finality : Option String
  pub observed_at : ℕ
  pub evidence : List (String × Json)

-- `A2ASettlementGateInput`
pub record GateInput : Type 0 where
  pub task : Task
  pub payment_submission : PaymentSubmission
  pub payment : BindingInput

abbrev pub state_name : SettlementState → String
state_name payment_submitted = "PAYMENT_SUBMITTED"
state_name settled = "SETTLED"
state_name failed = "FAILED"
state_name unknown = "UNKNOWN"

abbrev optional_sized : ℕ → Option String → Bool
optional_sized n none = true
optional_sized n (some s) = sized 1 n s

abbrev given : Option String → Bool
given none = false
given (some s) = true

abbrev is_settled : SettlementState → Bool
is_settled settled = true
is_settled _ = false

-- `A2AFinalityRequirementSchema`
unfoldable pub finality_schema : String → Bool
unfolding sized
finality_schema s =
    sized 1 128 s && not (includes ("UNKNOWN" ∷ "PENDING" ∷ "PAYMENT_SUBMITTED" ∷ []) s)

module _ (x : Externals) where
  -- `A2APaymentSubmissionSchema`
  unfoldable pub submission_schema : PaymentSubmission → Bool
  unfolding identifier hash_text sized
  submission_schema s =
      identifier s.submission_id
      && identifier s.task_id
      && identifier s.context_id
      && x.is_url s.resource
      && hash_text s.payment_requirements_hash
      && optional_sized 512 s.settlement_ref

  -- `A2AActionBindingSchema`
  unfoldable pub binding_schema : ActionBinding → Bool
  unfolding identifier hash_text finality_schema
  binding_schema b =
      identifier b.task_id
      && identifier b.context_id
      && identifier b.payment_submission_id
      && hash_text b.payment_requirements_hash
      && x.is_url b.resource
      && finality_schema b.required_finality

  -- `A2ASettlementObservationSchema`
  unfoldable pub observation_schema : Observation → Bool
  unfolding identifier hash_text sized
  observation_schema o =
      identifier o.task_id
      && identifier o.context_id
      && identifier o.payment_submission_id
      && hash_text o.payment_requirements_hash
      && x.is_url o.resource
      && optional_sized 512 o.settlement_ref
      && optional_sized 128 o.finality
      && (not (is_settled o.state) || (given o.settlement_ref && given o.finality))

abbrev pub binding_json : ActionBinding → Json
binding_json b = obj (
    field "version" (str "inntris-a2a-binding-v1") (
      field "task_id" (str b.task_id) (
        field "context_id" (str b.context_id) (
          field "payment_submission_id" (str b.payment_submission_id) (
            field "payment_requirements_hash" (str b.payment_requirements_hash) (
              field "resource" (str b.resource)
                (field "required_finality" (str b.required_finality) end)))))))

abbrev pub observation_json : Observation → Json
observation_json o = obj (
    field "version" (str "inntris-a2a-settlement-observation-v1") (
      field "state" (str (state_name o.state)) (
        field "task_id" (str o.task_id) (
          field "context_id" (str o.context_id) (
            field "payment_submission_id" (str o.payment_submission_id) (
              field "payment_requirements_hash" (str o.payment_requirements_hash) (
                field "resource" (str o.resource) (
                  field "settlement_ref" (nullable o.settlement_ref) (
                    field "finality" (nullable o.finality) (
                      field "observed_at" (str (iso_text o.observed_at))
                        (field "evidence" (obj (fields_of o.evidence)) end)))))))))))

-- What an `A2AActionReceipt` says.
pub record A2aReceipt : Type 0 where
  pub receipt_id : String
  pub task_id : String
  pub context_id : String
  pub resource : String
  pub payment_submission_id : String
  pub decision_id : String
  pub decision_fingerprint : String
  pub action_hash : String
  pub settlement_ref : String
  pub settlement_evidence_hash : String
  pub execution_ref : String
  pub delegate_result_hash : String
  pub executed_at : ℕ
  pub key_id : String

abbrev pub a2a_fields : A2aReceipt → Fields → Fields
a2a_fields r rest = field "version" (str "inntris-a2a-action-receipt-v1") (
    field "receipt_id" (str r.receipt_id) (
      field "task_id" (str r.task_id) (
        field "context_id" (str r.context_id) (
          field "resource" (str r.resource) (
            field "payment_submission_id" (str r.payment_submission_id) (
              field "decision_id" (str r.decision_id) (
                field "decision_fingerprint" (str r.decision_fingerprint) (
                  field "action_hash" (str r.action_hash) (
                    field "settlement_ref" (str r.settlement_ref) (
                      field "settlement_evidence_hash" (str r.settlement_evidence_hash) (
                        field "execution_ref" (str r.execution_ref) (
                          field "delegate_result_hash" (str r.delegate_result_hash)
                            (field "executed_at" (str (iso_text r.executed_at)) rest)))))))))))))

-- `A2AActionReceiptSchema` on these fields.
unfoldable pub a2a_receipt_schema : Externals → A2aReceipt → Bool
unfolding identifier hash_text sized
a2a_receipt_schema x r =
    identifier r.receipt_id
    && identifier r.task_id
    && identifier r.context_id
    && x.is_url r.resource
    && identifier r.payment_submission_id
    && identifier r.decision_id
    && hash_text r.decision_fingerprint
    && hash_text r.action_hash
    && sized 1 512 r.settlement_ref
    && hash_text r.settlement_evidence_hash
    && sized 1 512 r.execution_ref
    && hash_text r.delegate_result_hash

abbrev pub a2a_form : Externals → ReceiptForm A2aReceipt
a2a_form x = record {
  body_fields = a2a_fields;
  body_schema = a2a_receipt_schema x;
  key_id = λ r. r.key_id;
  executed_at = λ r. r.executed_at;
}
