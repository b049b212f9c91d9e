-- ===== src/Mtp/Store.antt =====
-- packages/mtp-authority/src/store.ts: `InMemoryMtpAuthorityStateStore`, and the records of
-- src/types.ts.
use inntris_x402_policy_adap.Base.{
  String, Bool, false, not, ◌&&◌, ◌||◌, Option, none, some, List, [], ◌∷◌, str_eq, option_eq,
  if◌then◌else◌,
}
use inntris_x402_policy_adap.Base.Exec.{ok, err, Exec, pure, throw}
use inntris_x402_policy_adap.Base.Maps.{Map, get, set}
use inntris_x402_policy_adap.Core.Json.{Json, str, obj, field, end, Externals, fields_of}
use inntris_x402_policy_adap.Core.Signing.{Fault, state_error}

-- `MtpSignedVerifyRequest`; the action type and the signature's version are constants.
pub record SignedRequest : Type 0 where
  pub agent_id : String
  pub payload : List (String × Json)
  pub nonce : String
  pub timestamp : String
  pub signature : String
  pub policy_hash : Option String

pub data ConsumptionStatus : Type 0 where
  first_consumption same_consumption : ConsumptionStatus

-- `MtpConsumptionReceipt`
pub record ConsumptionReceipt : Type 0 where
  pub execution_ref : String
  pub audit_id : String
  pub status : ConsumptionStatus

-- `MtpAuthorizationRecord`
pub record Authorization : Type 0 where
  pub decision_id : String
  pub action_hash : String
  pub request : SignedRequest
  pub mtp_action_hash : String
  pub approval_token : String
  pub authorization_audit_id : String
  pub authorized_at : String
  pub execution_ref : Option String
  pub consumption_audit_id : Option String
  pub consumption_status : Option ConsumptionStatus
  pub completed_at : Option String

-- `MtpExecutionClaim`
pub data MtpClaim : Type 0 where
  mtp_claimed mtp_idempotent mtp_conflict mtp_missing : MtpClaim

abbrev pub Authorizations : Type 0
Authorizations = Map Authorization

abbrev optional_field : String → Option String → List (String × Json) → List (String × Json)
optional_field k none l = l
optional_field k (some s) l = (k, str s) ∷ l

abbrev request_json : SignedRequest → Json
request_json r = obj (
    field "agent_id" (str r.agent_id) (
      field "action_type" (str "financial_transaction") (
        field "payload" (obj (fields_of r.payload)) (
          field "nonce" (str r.nonce) (
            field "timestamp" (str r.timestamp) (
              field "signature" (str r.signature) (
                fields_of (
                  ("sig_version", Json.num "3")
                  ∷ optional_field "policy_hash" r.policy_hash []))))))))

-- `immutableAuthorization`
abbrev pub immutable_authorization : Authorization → Json
immutable_authorization a = obj (
    field "decisionId" (str a.decision_id) (
      field "actionHash" (str a.action_hash) (
        field "request" (request_json a.request) (
          field "mtpActionHash" (str a.mtp_action_hash) (
            field "approvalToken" (str a.approval_token) (
              field "authorizationAuditId" (str a.authorization_audit_id)
                (field "authorizedAt" (str a.authorized_at) end)))))))

-- `saveAuthorization`
unfoldable pub save_authorization : Externals → Authorization → Exec Fault Authorizations (Unit {0})
unfolding pure throw
save_authorization x a m = elim (get a.decision_id m) [
  | none ↦ pure tt (set a.decision_id a m)
  | some e ↦
      if not (
        str_eq (x.canonicalise (immutable_authorization e))
          (x.canonicalise (immutable_authorization a)))
      then throw state_error m
      else pure tt (set a.decision_id e m)
]

-- Another decision of the agent has claimed the reference.
abbrev pub is_duplicate : String → String → String → String × Authorization → Bool
is_duplicate id agent ref (k, a) =
    not (str_eq a.decision_id id)
    && str_eq a.request.agent_id agent
    && option_eq a.execution_ref (some ref)

abbrev pub any_duplicate : String → String → String → Authorizations → Bool
any_duplicate id agent ref [] = false
any_duplicate id agent ref (e ∷ m) = is_duplicate id agent ref e || any_duplicate id agent ref m

abbrev pub claim_record :
    String → String → Authorization → Authorizations → MtpClaim × Authorizations
claim_record id ref a m = elim a.execution_ref [
  | none ↦
      if any_duplicate id a.request.agent_id ref m
      then (mtp_conflict, m)
      else (mtp_claimed, set id (record a { execution_ref = some ref }) m)
  | some e ↦ if str_eq e ref then (mtp_idempotent, m) else (mtp_conflict, m)
]

-- `claimExecution`
unfoldable pub claim_authorization :
    String → String → String → Authorizations → MtpClaim × Authorizations
claim_authorization id hash ref m = elim (get id m) [
  | none ↦ (mtp_missing, m)
  | some a ↦ if not (str_eq a.action_hash hash) then (mtp_conflict, m) else claim_record id ref a m
]

abbrev pub with_consumption : ConsumptionReceipt → Authorization → Authorization
with_consumption r a = record a {
  consumption_audit_id = some r.audit_id;
  consumption_status = some r.status;
}

-- `markMtpConsumed` on the record of the decision.
abbrev pub consume_record :
    String → String → ConsumptionReceipt → Authorization → Exec Fault Authorizations (Unit {0})
consume_record id ref r a m =
    if not (option_eq a.execution_ref (some ref)) || not (str_eq r.execution_ref ref)
    then (err state_error, m)
    else if not (option_eq a.consumption_audit_id none)
        && not (option_eq a.consumption_audit_id (some r.audit_id))
    then (err state_error, m)
    else (ok tt, set id (with_consumption r a) m)

-- `markMtpConsumed`
unfoldable pub mark_mtp_consumed :
    String → String → ConsumptionReceipt → Exec Fault Authorizations (Unit {0})
mark_mtp_consumed id ref r m = elim (get id m) [
  | none ↦ (err state_error, m)
  | some a ↦ consume_record id ref r a m
]

abbrev first_of : Option String → String → Option String
first_of none s = some s
first_of (some r) s = some r

abbrev pub with_completion : String → Authorization → Authorization
with_completion at a = record a { completed_at = first_of a.completed_at at }

abbrev pub complete_record :
    String → String → String → Authorization → Exec Fault Authorizations (Unit {0})
complete_record id ref at a m =
    if not (option_eq a.execution_ref (some ref)) || option_eq a.consumption_audit_id none
    then (err state_error, m)
    else (ok tt, set id (with_completion at a) m)

-- `markComplete`
unfoldable pub mark_complete : String → String → String → Exec Fault Authorizations (Unit {0})
mark_complete id ref at m = elim (get id m) [
  | none ↦ (err state_error, m)
  | some a ↦ complete_record id ref at a m
]
