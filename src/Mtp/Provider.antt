-- ===== src/Mtp/Provider.antt =====
-- packages/mtp-authority/src/provider.ts: `MtpCompositeDecisionProvider`.
use inntris_x402_policy_adap.Base.{
  ℕ, String, Bool, true, false, ◌&&◌, ◌||◌, Option, none, some, List, ltb, leb, ◌==◌, str_eq, all,
  if◌then◌else◌,
}
use inntris_x402_policy_adap.Base.Exec.{Result, ok, Exec, pure, throw, lift, ◌>>=◌, ◌>>◌, catching}
use inntris_x402_policy_adap.Base.Maps.{get}
use inntris_x402_policy_adap.Core.Text.{codes, utf16_length}
use inntris_x402_policy_adap.Core.Time.{iso_text}
use inntris_x402_policy_adap.Core.Json.{Externals}
use inntris_x402_policy_adap.Core.Reasons.{
  ReasonCode, is_allow, decision_not_allow, decision_service_unavailable, nonce_already_consumed,
  action_hash_mismatch, approval_not_pending,
}
use inntris_x402_policy_adap.Core.Action.{Action, action_schema}
use inntris_x402_policy_adap.Core.Decision.{Decision}
use inntris_x402_policy_adap.Core.Signing.{Fault, parse}
use inntris_x402_policy_adap.Core.Replay.{ConsumeInput, ConsumeResult, conflict, rejected}
use inntris_x402_policy_adap.Policy.Provider.{
  ResolveApprovalInput, ResolveApprovalResult, rejection,
}
use inntris_x402_policy_adap.Mtp.Store.{
  Authorization, Authorizations, ConsumptionReceipt, MtpClaim, mtp_conflict, mtp_missing,
  save_authorization, claim_authorization, mark_mtp_consumed, mark_complete,
}
use inntris_x402_policy_adap.Mtp.Client.{MtpFault, consumption_rejected, mtp_of}

-- `MtpAuthorityStateStore`
pub record MtpStateStore (S : Type 0) : Type 0 where
  pub save : Authorization → Exec MtpFault S (Unit {0})
  pub read : String → Exec MtpFault S (Option Authorization)
  pub claim : String → String → String → Exec MtpFault S MtpClaim
  pub mark_consumed : String → String → ConsumptionReceipt → Exec MtpFault S (Unit {0})
  pub mark_complete : String → String → String → Exec MtpFault S (Unit {0})

abbrev beside :
    {W A : Type 0} → Result Fault A × Authorizations → W → Result MtpFault A × (W × Authorizations)
beside (r, m) w = (mtp_of r, (w, m))

-- The in-memory store beside the state of the other services.
abbrev pub memory_authority : {W : Type 0} → Externals → MtpStateStore (W × Authorizations)
memory_authority x = record {
  save = λ a s. beside (save_authorization x a s.1) s.0;
  read = λ id s. (ok (get id s.1), s);
  claim = λ id hash ref s. let (c, m) = claim_authorization id hash ref s.1 in (ok c, (s.0, m));
  mark_consumed = λ id ref r s. beside (mark_mtp_consumed id ref r s.1) s.0;
  mark_complete = λ id ref at s. beside (mark_complete id ref at s.1) s.0;
}

-- `MtpCompositeDecisionProviderOptions`, with the two calls of the client.
pub record MtpOptions (S : Type 0) : Type 0 where
  pub evaluate : Action → Exec MtpFault S Decision
  pub consume : ConsumeInput → Exec MtpFault S ConsumeResult
  pub issue_block : Action → List ReasonCode → Exec MtpFault S Decision
  pub resolve_approval : Option (ResolveApprovalInput → Exec MtpFault S ResolveApprovalResult)
  pub resolve_with_action : ResolveApprovalInput → Action → Exec MtpFault S ResolveApprovalResult
  pub authorize : Action → Decision → Exec MtpFault S Authorization
  pub consume_token : Authorization → String → Exec MtpFault S ConsumptionReceipt
  pub store : MtpStateStore S

-- `reject`, which names a consumed nonce a conflict.
abbrev pub mtp_refused : ConsumeInput → ReasonCode → ConsumeResult
mtp_refused i nonce_already_consumed = record {
  success = false;
  status = conflict;
  decision_id = i.decision_id;
  execution_ref = i.execution_ref;
  consumed_at = none;
  reason_code = some nonce_already_consumed;
}
mtp_refused i r = record {
  success = false;
  status = rejected;
  decision_id = i.decision_id;
  execution_ref = i.execution_ref;
  consumed_at = none;
  reason_code = some r;
}

-- White space and line terminators, which `trim` takes off.
abbrev is_space : ℕ → Bool
is_space c =
    (leb 9 c && leb c 13)
    || c == 32
    || c == 160
    || c == 0x1680
    || (leb 0x2000 c && leb c 0x200a)
    || c == 0x2028
    || c == 0x2029
    || c == 0x202f
    || c == 0x205f
    || c == 0x3000
    || c == 0xfeff

-- `executionRef.trim() === "" || executionRef.length > 512`
abbrev pub is_unusable_ref : String → Bool
is_unusable_ref ref = all is_space (codes ref) || ltb 512 (utf16_length (codes ref))

abbrev pub action_of_decision : Decision → Action
action_of_decision d = record {
  principal_id = d.principal_id;
  agent_id = d.agent_id;
  rail = d.rail;
  transaction = d.transaction;
  protocol_reference = d.protocol_reference;
  extensions = none;
}

-- The claim, and the refusal that it leads to.
abbrev pub refusal_of : MtpClaim → Option ReasonCode
refusal_of mtp_missing = some decision_service_unavailable
refusal_of mtp_conflict = some nonce_already_consumed
refusal_of _ = none

abbrev pub check_record : ConsumeInput → Option Authorization → Option ReasonCode
check_record i none = some decision_service_unavailable
check_record i (some a) =
    if str_eq a.action_hash i.action_hash then none else some action_hash_mismatch

-- A rejection by the authority is answered, another error is thrown on.
abbrev pub after_token_error : {S : Type 0} → MtpFault → Exec MtpFault S Bool
after_token_error consumption_rejected = pure false
after_token_error e = throw e

abbrev pub evidence_answer : {S : Type 0} → Bool → Exec MtpFault S (Option ReasonCode)
evidence_answer true = pure none
evidence_answer false = pure (some decision_not_allow)

module _ (x : Externals) {S : Type 0} (o : MtpOptions S) where
  unfoldable pub authorise_and_save : Action → Decision → Exec MtpFault S (Unit {0})
  authorise_and_save action d = o.authorize action d >>= o.store.save

  -- `evaluate`
  unfoldable pub mtp_evaluate : Action → Exec MtpFault S Decision
  unfolding authorise_and_save
  mtp_evaluate action = o.evaluate action >>= λ d. elim (is_allow d.verdict) [
    | false ↦ pure d
    | true ↦ authorise_and_save action d >> pure d
  ]

  -- `#authoriseApprovalResult`
  unfoldable pub authorise_approval_result :
      Action → ResolveApprovalResult → Exec MtpFault S ResolveApprovalResult
  unfolding authorise_and_save
  authorise_approval_result action r = elim r.decision [
    | none ↦ pure r
    | some d ↦ elim (is_allow d.verdict) [
      | false ↦ pure r
      | true ↦ authorise_and_save action d >> pure r
    ]
  ]

  abbrev pub resolved_result : ResolveApprovalResult → Exec MtpFault S ResolveApprovalResult
  unfolding authorise_approval_result
  resolved_result r = elim r.decision [
    | none ↦ pure r
    | some d ↦ lift (mtp_of (parse (action_schema x) (action_of_decision d))) >>= λ action.
        authorise_approval_result action r
  ]

  -- `resolveApproval`
  unfoldable pub mtp_resolve_approval : ResolveApprovalInput → Exec MtpFault S ResolveApprovalResult
  unfolding rejection
  mtp_resolve_approval i = elim o.resolve_approval [
    | none ↦ pure (rejection i.decision_id approval_not_pending)
    | some resolve ↦ resolve i >>= resolved_result
  ]

  -- `resolveApprovalWithAction`
  unfoldable pub mtp_resolve_with_action :
      ResolveApprovalInput → Action → Exec MtpFault S ResolveApprovalResult
  unfolding authorise_approval_result
  mtp_resolve_with_action i action =
      o.resolve_with_action i action >>= authorise_approval_result action

  -- The consumption of the token and its record; whether the authority did not reject it.
  unfoldable pub spend_token : ConsumeInput → Authorization → Exec MtpFault S Bool
  spend_token i a =
      catching
        (o.consume_token a i.execution_ref >>= λ receipt.
          o.store.mark_consumed i.decision_id i.execution_ref receipt >> pure true)
        after_token_error

  -- The evidence of a consumption, there before or made now.
  unfoldable pub have_evidence : ConsumeInput → Authorization → Exec MtpFault S Bool
  unfolding spend_token
  have_evidence i a = elim a.consumption_audit_id [
    | none ↦ spend_token i a
    | some audit ↦ pure true
  ]

  -- The checks and the claim of the reference: a refusal, or nothing.
  unfoldable pub claim_reference : ConsumeInput → Exec MtpFault S (Option ReasonCode)
  claim_reference i = elim (is_unusable_ref i.execution_ref) [
    | true ↦ pure (some decision_not_allow)
    | false ↦ o.store.read i.decision_id >>= λ found. elim (check_record i found) [
      | some r ↦ pure (some r)
      | none ↦ o.store.claim i.decision_id i.action_hash i.execution_ref >>= λ claim.
          pure (refusal_of claim)
    ]
  ]

  -- The evidence of the authority on the record that is found.
  unfoldable pub prove_found :
      ConsumeInput → Option Authorization → Exec MtpFault S (Option ReasonCode)
  unfolding have_evidence
  prove_found i none = pure (some decision_service_unavailable)
  prove_found i (some a) = have_evidence i a >>= evidence_answer

  -- The evidence of the authority for the claimed reference.
  unfoldable pub prove_consumption : ConsumeInput → Exec MtpFault S (Option ReasonCode)
  unfolding prove_found
  prove_consumption i = o.store.read i.decision_id >>= prove_found i

  abbrev pub unless_refused :
      Option ReasonCode → Exec MtpFault S (Option ReasonCode) → Exec MtpFault S (Option ReasonCode)
  unless_refused (some r) second = pure (some r)
  unless_refused none second = second

  abbrev pub and_then :
      Exec MtpFault S (Option ReasonCode)
      → Exec MtpFault S (Option ReasonCode)
      → Exec MtpFault S (Option ReasonCode)
  and_then first second = first >>= λ refusal. unless_refused refusal second

  -- `consume` up to the call of the provider.
  unfoldable pub before_consumption : ConsumeInput → Exec MtpFault S (Option ReasonCode)
  unfolding claim_reference prove_consumption
  before_consumption i = and_then (claim_reference i) (prove_consumption i)

  -- The local consumption, and the completion of a success.
  unfoldable pub consume_locally : ConsumeInput → ℕ → Exec MtpFault S ConsumeResult
  consume_locally i now = o.consume i >>= λ result. elim result.success [
    | true ↦ o.store.mark_complete i.decision_id i.execution_ref (iso_text now) >> pure result
    | false ↦ pure result
  ]

  -- `consume`
  unfoldable pub mtp_consume : ConsumeInput → ℕ → Exec MtpFault S ConsumeResult
  unfolding before_consumption consume_locally
  mtp_consume i now = before_consumption i >>= λ refusal. elim refusal [
    | some r ↦ pure (mtp_refused i r)
    | none ↦ consume_locally i now
  ]
