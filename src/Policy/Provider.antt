-- ===== src/Policy/Provider.antt =====
-- packages/policy-engine/src/local-provider.ts: `LocalPolicyDecisionProvider`. The readings of the
-- clock and of the random sources are arguments; metrics change nothing and are left out.
pub mod History
pub mod Calls
pub mod Approvals
pub mod Outcome
pub mod Execution
pub mod Spending
pub mod Issue
use inntris_x402_policy_adap.Base.{
  ℕ, ◌+◌, ◌*◌, String, Bool, true, false, not, ◌&&◌, ◌||◌, Option, none, some, List, [], ◌∷◌, ◌++◌,
  leb, str_eq, if◌then◌else◌, keep, option_eq,
}
use inntris_x402_policy_adap.Base.Exec.{Result, ok, err, Exec, pure, throw, lift, ◌>>=◌, ◌>>◌}
use inntris_x402_policy_adap.Core.Json.{Externals}
use inntris_x402_policy_adap.Core.Reasons.{
  Verdict, allow, block, is_allow, is_block, is_require_approval, ReasonCode, reason_eq,
  human_approval_required, human_approval_granted, human_approval_refused, approval_not_pending,
  approval_already_resolved, action_hash_mismatch, decision_expired, decision_not_allow,
}
use inntris_x402_policy_adap.Core.Action.{Action, Transaction, ProtocolReference, rail_eq}
use inntris_x402_policy_adap.Core.Decision.{Decision, Approval, policy_engine, human}
use inntris_x402_policy_adap.Core.Signing.{
  Fault, type_error, SigningProvider, Evaluation, CreateDecisionInput, Fresh, or_else,
  create_signed_decision,
}
use inntris_x402_policy_adap.Core.Replay.{
  ConsumeInput, ConsumeResult, ConsumeStatus, consumed, rejected, NonceConsumption,
}
use inntris_x402_policy_adap.Policy.Document.{Policy, default_approval_request_ttl_seconds}
use inntris_x402_policy_adap.Policy.Evaluate.{
  Platform, LocalTime, local_time_parts, approval_of, evaluate_policy,
}
use inntris_x402_policy_adap.Policy.Stores.{
  StoredDecision, ApprovalClaim, claimed, already_claimed, RecordSpendInput, AtomicConsumptionInput,
  Stores,
}
use inntris_x402_policy_adap.Policy.SameText.{same_transaction, same_reference}

pub data ResolveStatus : Type 0 where
  superseded approval_conflict approval_rejected : ResolveStatus

pub record ResolveApprovalInput : Type 0 where
  pub decision_id : String
  pub granted : Bool
  pub approval_reference : String
  pub approver_ids : List String

pub record ResolveApprovalResult : Type 0 where
  pub success : Bool
  pub status : ResolveStatus
  pub decision_id : String
  pub decision : Option Decision
  pub reason_code : Option ReasonCode

-- `options`, with the hash that the constructor computes of the policy.
pub record Provider : Type 0 where
  pub policy : Policy
  pub policy_hash : String
  pub signer : SigningProvider

-- `rejection(reasonCode)`
unfoldable pub rejection : String → ReasonCode → ResolveApprovalResult
rejection id r = record {
  success = false;
  status = if reason_eq r approval_already_resolved then approval_conflict else approval_rejected;
  decision_id = id;
  decision = none;
  reason_code = some r;
}

abbrev pub refused : ConsumeInput → ReasonCode → ConsumeResult
refused i r = record {
  success = false;
  status = rejected;
  decision_id = i.decision_id;
  execution_ref = i.execution_ref;
  consumed_at = none;
  reason_code = some r;
}

-- The test on a replacement action, which may differ from the stored one in its extensions only.
unfoldable pub same_subject : Action → Action → Bool
same_subject a b =
    str_eq a.principal_id b.principal_id
    && str_eq a.agent_id b.agent_id
    && rail_eq a.rail b.rail
    && same_transaction a.transaction b.transaction
    && same_reference a.protocol_reference b.protocol_reference

abbrev pub replaced_subject : Option Action → Action → Bool
replaced_subject none stored = true
replaced_subject (some a) stored = same_subject a stored

-- The evaluation that a human answer and the current policy lead to.
unfoldable pub resolved_evaluation : ResolveApprovalInput → Evaluation → Evaluation
resolved_evaluation i e =
    let approval : Approval = record {
      mode = human;
      approval_reference = some i.approval_reference;
      approver_ids = i.approver_ids;
    } in
    if not i.granted
    then record { verdict = block; reason_codes = human_approval_refused ∷ []; approval = approval }
    else if is_block e.verdict
    then record e { approval = approval }
    else record {
      verdict = allow;
      reason_codes =
          keep (λ c. not (reason_eq c human_approval_required)) e.reason_codes
          ++ human_approval_granted ∷ [];
      approval = approval;
    }

abbrev pub is_consumed : ConsumeStatus → Bool
is_consumed consumed = true
is_consumed _ = false

-- What `#sign` hands to `createSignedDecision`.
abbrev pub sign_input : Provider → Action → Evaluation → Option String → CreateDecisionInput
sign_input p action evaluation supersedes = record {
  action = action;
  evaluation = evaluation;
  policy_hash = p.policy_hash;
  policy_version = p.policy.policy_version;
  decision_ttl_seconds = p.policy.decision_ttl_seconds;
  decision_id = none;
  nonce = none;
  supersedes_decision_id = supersedes;
}

module _ (x : Externals) (s : Platform) (p : Provider) {S : Type 0} (stores : Stores S) where
  open p use {policy, policy_hash, signer}

  -- `#sign`
  unfoldable pub sign : Action → Evaluation → Option String → Fresh → Exec Fault S Decision
  sign action evaluation supersedes fresh = do
    decision ←
        lift (create_signed_decision x (sign_input p action evaluation supersedes) signer fresh)
    stores.save (record { decision = decision; action = action })
    pure decision

  -- `evaluate`; the clock is read once for the policy and once for the decision.
  unfoldable pub evaluate : Action → ℕ → Fresh → Exec Fault S Decision
  unfolding sign
  evaluate action now fresh = do
    evaluation ← evaluate_policy s stores.daily_spend action policy now
    sign action evaluation none fresh

  unfoldable pub issue_block : Action → List ReasonCode → Fresh → Exec Fault S Decision
  unfolding sign
  issue_block action [] fresh = throw type_error
  issue_block action (r ∷ rs) fresh =
      sign action
        (record { verdict = block; reason_codes = r ∷ rs; approval = approval_of policy_engine })
        none fresh

  -- The part of `#resolveApproval` behind a won claim.
  unfoldable pub supersede :
      ResolveApprovalInput
      → StoredDecision
      → Action
      → ℕ
      → Fresh
      → Exec Fault S ResolveApprovalResult
  unfolding sign
  supersede i issued action now fresh = do
    evaluation ← evaluate_policy s stores.daily_spend action policy now
    decision ←
        sign action (resolved_evaluation i evaluation) (some issued.decision.decision_id) fresh
    pure (record {
      success = true;
      status = superseded;
      decision_id = i.decision_id;
      decision = some decision;
      reason_code = none;
    })

  abbrev pub closes_at : StoredDecision → ℕ
  closes_at issued =
      issued.decision.issued_at
      + or_else policy.request_ttl_seconds default_approval_request_ttl_seconds * 1000

  unfoldable pub after_claim :
      ResolveApprovalInput
      → StoredDecision
      → Action
      → ℕ
      → Fresh
      → ApprovalClaim
      → Exec Fault S ResolveApprovalResult
  after_claim i issued action now fresh already_claimed =
      pure (rejection i.decision_id approval_already_resolved)
  after_claim i issued action now fresh claimed = supersede i issued action now fresh

  unfoldable pub resolve_pending :
      ResolveApprovalInput
      → Option Action
      → StoredDecision
      → ℕ
      → ℕ
      → Fresh
      → Exec Fault S ResolveApprovalResult
  unfolding after_claim
  resolve_pending i replacement issued at now fresh =
      if not (is_require_approval issued.decision.verdict)
      then pure (rejection i.decision_id approval_not_pending)
      else if not (replaced_subject replacement issued.action)
      then pure (rejection i.decision_id action_hash_mismatch)
      else if leb (closes_at issued) at
      then pure (rejection i.decision_id decision_expired)
      else (stores.claim_approval i.decision_id
          >>= after_claim i issued (or_else replacement issued.action) now fresh)

  -- `resolveApproval`, and `resolveApprovalWithAction` where an action is given. The clock is read
  -- for the deadline, for the policy, and for the new decision.
  unfoldable pub resolve_approval :
      ResolveApprovalInput → Option Action → ℕ → ℕ → Fresh → Exec Fault S ResolveApprovalResult
  unfolding resolve_pending
  resolve_approval i replacement at now fresh = stores.find_decision i.decision_id >>= elim [
    | none ↦ pure (rejection i.decision_id approval_not_pending)
    | some issued ↦ resolve_pending i replacement issued at now fresh
  ]

  abbrev pub consumption_of : ConsumeInput → Decision → ℕ → NonceConsumption
  consumption_of i d now = record {
    decision_id = d.decision_id;
    nonce = d.nonce;
    action_hash = d.action_hash;
    execution_ref = i.execution_ref;
    expires_at = d.expires_at;
    consumed_at = now;
  }

  abbrev pub spend_of : Decision → LocalTime → RecordSpendInput
  spend_of d local = record {
    principal_id = d.principal_id;
    day_key = local.day_key;
    amount = d.transaction.amount;
  }

  -- The consumption proper: one atomic call, or the nonce store and then the spend state.
  unfoldable pub consume_once : NonceConsumption → RecordSpendInput → Exec Fault S ConsumeResult
  consume_once consumption spend = elim stores.consume_and_record_spend [
    | some atomic ↦
        atomic (record { consumption = consumption; spend = spend; daily_limit = policy.daily })
    | none ↦ stores.consume consumption >>= λ result.
        if is_consumed result.status then stores.record_spend spend >> pure result else pure result
  ]

  unfoldable pub consume_stored : ConsumeInput → Decision → ℕ → Exec Fault S ConsumeResult
  unfolding consume_once
  consume_stored i d now =
      if not (is_allow d.verdict)
      then pure (refused i decision_not_allow)
      else if not (str_eq d.action_hash i.action_hash)
      then pure (refused i action_hash_mismatch)
      else if leb d.expires_at now
      then pure (refused i decision_expired)
      else do
        local ← lift (local_time_parts s now policy.time_windows.timezone)
        consume_once (consumption_of i d now) (spend_of d local)

  -- `consume`
  unfoldable pub consume : ConsumeInput → ℕ → Exec Fault S ConsumeResult
  unfolding consume_stored
  consume i now = stores.find_decision i.decision_id >>= elim [
    | none ↦ pure (refused i decision_not_allow)
    | some stored ↦ consume_stored i stored.decision now
  ]
