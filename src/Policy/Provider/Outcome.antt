-- ===== src/Policy/Provider/Outcome.antt =====
-- What `resolveApproval` of packages/policy-engine/src/local-provider.ts signs and stores.
use inntris_x402_policy_adap.Base.{
  ℕ, String, ◌≡◌, ◌↔◌, refl, ap, sym, ◌∙◌, Bool, true, false, Option, none, some, inl, inr,
  Bool-cases,
}
use inntris_x402_policy_adap.Base.Exec.{ok, err, Result, pure, lift}
use inntris_x402_policy_adap.Base.Returns.{bind-returns, lift-returns}
use inntris_x402_policy_adap.Base.Maps.{get, get-set_self}
use inntris_x402_policy_adap.Core.Json.{Externals}
use inntris_x402_policy_adap.Core.Reasons.{Verdict, allow, block, is_block}
use inntris_x402_policy_adap.Core.Action.{Action}
use inntris_x402_policy_adap.Core.Encoding.{hash_action}
use inntris_x402_policy_adap.Core.Decision.{Decision, Approval, human}
use inntris_x402_policy_adap.Core.Signing.{
  Fault, Fresh, or_else, Evaluation, create_signed_decision, unsigned_decision,
}
use inntris_x402_policy_adap.Core.Signing.Facts.{create-IsSigned}
use inntris_x402_policy_adap.Policy.Evaluate.{Platform, evaluate_policy}
use inntris_x402_policy_adap.Policy.Stores.{StoredDecision, Memory, memory_stores, save_decision}
use inntris_x402_policy_adap.Policy.Provider.{
  Provider, ResolveApprovalInput, ResolveApprovalResult, resolve_approval, resolved_evaluation,
  supersede, sign, sign_input,
}
use inntris_x402_policy_adap.Policy.Provider.Approvals.{success-Won, Won-resolve, claimed_memory}

is_block-false : (v : Verdict) → is_block v ≡ true → v ≡ allow → ⊥
is_block-false block h e = cc
is_block-false _ h e = cc

resolved_evaluation-allow_iff :
    (i : ResolveApprovalInput) (e : Evaluation)
    → ((resolved_evaluation i e).verdict ≡ allow)
      ↔ ((i.granted ≡ true) × (is_block e.verdict ≡ false))
unfolding resolved_evaluation
resolved_evaluation-allow_iff i e = elim (Bool-cases i.granted) [
  | inr g ↦ rw (resolved_evaluation, g) (λ h. absurd (cc), λ (a, b). absurd (cc))
  | inl g ↦ elim (Bool-cases (is_block e.verdict)) [
    | inl b ↦
        rw (resolved_evaluation, g, b)
          (λ h. absurd (is_block-false e.verdict b h), λ (a, c). absurd (cc))
    | inr b ↦ rw (resolved_evaluation, g, b) (λ h. (refl, refl), λ h. refl)
  ]
]

-- The approval that records a human's answer.
abbrev pub answer_of : ResolveApprovalInput → Approval
answer_of i = record {
  mode = human;
  approval_reference = some i.approval_reference;
  approver_ids = i.approver_ids;
}

resolved_evaluation-approval :
    (i : ResolveApprovalInput) (e : Evaluation) → (resolved_evaluation i e).approval ≡ answer_of i
unfolding resolved_evaluation
resolved_evaluation-approval i e = elim (Bool-cases i.granted) [
  | inr g ↦ rw (resolved_evaluation, g) refl
  | inl g ↦ elim (Bool-cases (is_block e.verdict)) [
    | inl b ↦ rw (resolved_evaluation, g, b) refl
    | inr b ↦ rw (resolved_evaluation, g, b) refl
  ]
]

abbrev decision_of : Result Fault ResolveApprovalResult → Option Decision
decision_of (ok r) = r.decision
decision_of (err e) = none

module _ (x : Externals) (s : Platform) (p : Provider) (counts : Bool) where
  pub sign-returns :
      (action : Action) (e : Evaluation) (old : Option String) (f : Fresh) (m n : Memory)
      (d : Decision)
      → sign x s p (memory_stores s.decimals counts) action e old f m ≡ (ok d, n)
      → (create_signed_decision x (sign_input p action e old) p.signer f ≡ ok d)
        × (n ≡ save_decision (record { decision = d; action = action }) m)
  unfolding sign memory_stores pure
  sign-returns action e old f m n d h =
      let (a, m1, made, k) =
        bind-returns (lift (create_signed_decision x (sign_input p action e old) p.signer f)) _ m n
          d h in
      let (created, same) = lift-returns _ m m1 a made in
      let (w, m2, saved, l) =
        bind-returns (λ m. (ok tt, save_decision (record { decision = a; action = action }) m)) _ m1
          n d k in
      let one : a ≡ d = cc (ap (λ r. r.0) l) in
      (
        rw one at created,
        sym (ap (λ r. r.1) l)
            ∙ sym (ap (λ r. r.1) saved)
            ∙ ap (λ b. save_decision (record { decision = b; action = action }) m1) one
            ∙ ap (save_decision (record { decision = d; action = action })) (sym same),
      )

  -- The decision `d` is signed for the request `issued`, on the policy's present evaluation.
  pub record Resolves (i : ResolveApprovalInput) (r : Option Action) (now : ℕ) (m n : Memory)
      (issued : StoredDecision) (d : Decision) : Type 0 where
    pub evaluation : Evaluation
    pub evaluated :
        (evaluate_policy s
          (memory_stores s.decimals counts).daily_spend
          (or_else r issued.action)
          p.policy
          now
          (claimed_memory x s p counts i.decision_id m)).0
        ≡ ok evaluation
    pub verdict : (d.verdict ≡ allow) ↔ ((i.granted ≡ true) × (is_block evaluation.verdict ≡ false))
    pub supersedes : d.supersedes_decision_id ≡ some issued.decision.decision_id
    pub action : d.action_hash ≡ hash_action x (or_else r issued.action)
    pub approval : d.approval ≡ answer_of i
    pub stored :
        get d.decision_id n.decisions
        ≡ some (record { decision = d; action = or_else r issued.action })

  supersede-Resolves :
      (i : ResolveApprovalInput) (r : Option Action) (now : ℕ) (f : Fresh) (m n : Memory)
      (issued : StoredDecision) (res : ResolveApprovalResult)
      → supersede x s p
          (memory_stores s.decimals counts)
          i
          issued
          (or_else r issued.action)
          now
          f
          (claimed_memory x s p counts i.decision_id m)
        ≡ (ok res, n)
      → (d : Decision) × (res.decision ≡ some d) × Resolves i r now m n issued d
  unfolding supersede pure unsigned_decision save_decision
  supersede-Resolves i r now f m n issued res h =
      let a = or_else r issued.action in
      let m0 = claimed_memory x s p counts i.decision_id m in
      let (e, m1, evaluated, k) =
        bind-returns
          (evaluate_policy s (memory_stores s.decimals counts).daily_spend a p.policy now) _ m0 n
          res h in
      let old = some issued.decision.decision_id in
      let (d, m2, signed, l) =
        bind-returns
          (sign x s p (memory_stores s.decimals counts) a (resolved_evaluation i e) old f) _ m1 n
          res k in
      let (created, saved) = sign-returns a (resolved_evaluation i e) old f m1 m2 d signed in
      let made =
        (create-IsSigned x (sign_input p a (resolved_evaluation i e) old) p.signer f d
          created).1.body_is in
      let last : save_decision (record { decision = d; action = a }) m1 ≡ n =
        sym saved ∙ ap (λ q. q.1) l in
      (
        d,
        sym (ap (λ q. decision_of q.0) l),
        record {
          evaluation = e;
          evaluated = ap (λ q. q.0) evaluated;
          verdict = rw made (resolved_evaluation-allow_iff i e);
          supersedes = rw made refl;
          action = rw made refl;
          approval = rw made (resolved_evaluation-approval i e);
          stored =
              rw (← last)
                (get-set_self d.decision_id (record { decision = d; action = a }) m1.decisions);
        },
      )

  -- Over the in-memory stores, a resolution that succeeds answers with a decision that supersedes the
  -- request, is for the replacement action if one is given and for the request's otherwise, carries
  -- the human approval with its reference and approvers, and is stored with that action: it allows
  -- exactly when the human granted it and the policy, evaluated again, does not block the action.
  pub resolve_approval-Resolves :
      (i : ResolveApprovalInput) (r : Option Action) (at now : ℕ) (f : Fresh) (m : Memory)
      (res : ResolveApprovalResult)
      → (resolve_approval x s p (memory_stores s.decimals counts) i r at now f m).0 ≡ ok res
      → res.success ≡ true
      → (issued : StoredDecision) × (d : Decision) × (get i.decision_id m.decisions ≡ some issued)
        × (res.decision ≡ some d)
        × Resolves i r now m
            (resolve_approval x s p (memory_stores s.decimals counts) i r at now f m).1
            issued
            d
  resolve_approval-Resolves i r at now f m res h won =
      let (issued, w) = success-Won x s p counts i r at now f m res h won in
      let n = (resolve_approval x s p (memory_stores s.decimals counts) i r at now f m).1 in
      let (d, answered, resolved) =
        supersede-Resolves i r now f m n issued res
          (sym (Won-resolve x s p counts i r at now f m issued w) ∙ ap (λ q. (q, n)) h) in
      (issued, d, w.found, answered, resolved)
