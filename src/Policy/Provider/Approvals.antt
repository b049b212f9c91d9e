-- ===== src/Policy/Provider/Approvals.antt =====
-- An approval request is resolved at most once, and what the resolution may be.
use inntris_x402_policy_adap.Base.{
  ℕ, String, ◌≡◌, Bool, true, false, Option, some, List, ◌∷◌, arith, leb, Option-cases, inl, inr,
  eq_refl, includes,
}
use inntris_x402_policy_adap.Base.Exec.{ok, ◌>>=◌}
use inntris_x402_policy_adap.Base.Maps.{get}
use inntris_x402_policy_adap.Core.Json.{Externals}
use inntris_x402_policy_adap.Core.Reasons.{is_require_approval}
use inntris_x402_policy_adap.Core.Action.{Action}
use inntris_x402_policy_adap.Core.Signing.{Fresh, or_else}
use inntris_x402_policy_adap.Policy.Evaluate.{Platform}
use inntris_x402_policy_adap.Policy.Stores.{StoredDecision, Memory, memory_stores}
use inntris_x402_policy_adap.Policy.Provider.{
  Provider, ResolveApprovalInput, ResolveApprovalResult, rejection, resolve_approval,
  resolve_pending, supersede, after_claim, replaced_subject, closes_at,
}
use inntris_x402_policy_adap.Policy.Provider.History.{supersede-Later}
use inntris_x402_policy_adap.Policy.Provider.Calls.{Call, after_calls, after_calls-Later, no_old}

module _ (x : Externals) (s : Platform) (p : Provider) (counts : Bool) where
  -- Once claimed, an approval is refused.
  claimed-refused :
      (i : ResolveApprovalInput) (r : Option Action) (at now : ℕ) (f : Fresh) (m : Memory)
      (res : ResolveApprovalResult)
      → includes m.claimed_approvals i.decision_id ≡ true
      → (resolve_approval x s p (memory_stores s.decimals counts) i r at now f m).0 ≡ ok res
      → res.success ≡ false
  unfolding resolve_approval resolve_pending after_claim memory_stores rejection ◌>>=◌
  claimed-refused i r at now f m res c h = ground arith

  -- A resolution that succeeds found a pending request with the same subject, in time, unclaimed.
  pub record Won (i : ResolveApprovalInput) (r : Option Action) (at : ℕ) (m : Memory)
      (issued : StoredDecision) : Type 0 where
    pub found : get i.decision_id m.decisions ≡ some issued
    pub pending : is_require_approval issued.decision.verdict ≡ true
    pub subject : replaced_subject r issued.action ≡ true
    pub in_time : leb (closes_at x s p (memory_stores s.decimals counts) issued) at ≡ false
    pub unclaimed : includes m.claimed_approvals i.decision_id ≡ false

  found-issued :
      (i : ResolveApprovalInput) (r : Option Action) (at now : ℕ) (f : Fresh) (m : Memory)
      (res : ResolveApprovalResult)
      → (resolve_approval x s p (memory_stores s.decimals counts) i r at now f m).0 ≡ ok res
      → res.success ≡ true
      → (issued : StoredDecision) × (get i.decision_id m.decisions ≡ some issued)
  unfolding resolve_approval memory_stores rejection ◌>>=◌
  found-issued i r at now f m res h ok_ = elim (Option-cases (get i.decision_id m.decisions)) [
    | inl e ↦ absurd (ground arith)
    | inr e ↦ e
  ]

  pub success-Won :
      (i : ResolveApprovalInput) (r : Option Action) (at now : ℕ) (f : Fresh) (m : Memory)
      (res : ResolveApprovalResult)
      → (resolve_approval x s p (memory_stores s.decimals counts) i r at now f m).0 ≡ ok res
      → res.success ≡ true
      → (issued : StoredDecision) × Won i r at m issued
  unfolding resolve_approval resolve_pending after_claim memory_stores rejection ◌>>=◌
  success-Won i r at now f m res h ok_ =
      let (issued, e) = found-issued i r at now f m res h ok_ in
      (
        issued,
        record {
          found = e;
          pending = ground arith;
          subject = ground arith;
          in_time = ground arith;
          unclaimed = ground arith;
        },
      )

  abbrev pub claimed_memory : String → Memory → Memory
  claimed_memory id m = record m { claimed_approvals = id ∷ m.claimed_approvals }

  pub Won-resolve :
      (i : ResolveApprovalInput) (r : Option Action) (at now : ℕ) (f : Fresh) (m : Memory)
      (issued : StoredDecision)
      → Won i r at m issued
      → resolve_approval x s p (memory_stores s.decimals counts) i r at now f m
        ≡ supersede x s p
            (memory_stores s.decimals counts)
            i
            issued
            (or_else r issued.action)
            now
            f
            (claimed_memory i.decision_id m)
  unfolding resolve_approval resolve_pending after_claim memory_stores rejection ◌>>=◌
  Won-resolve i r at now f m issued w = ground (arith, w.found, w.pending)

  success-claims :
      (i : ResolveApprovalInput) (r : Option Action) (at now : ℕ) (f : Fresh) (m : Memory)
      (issued : StoredDecision)
      → Won i r at m issued
      → includes
          (resolve_approval x s p
            (memory_stores s.decimals counts)
            i
            r
            at
            now
            f
            m).1.claimed_approvals
          i.decision_id
        ≡ true
  success-claims i r at now f m issued w = rw (Won-resolve i r at now f m issued w) (
      ((supersede-Later x s p counts (λ id. ⊥) i issued (or_else r issued.action) now f
            (λ id o. absurd o)).at
          (claimed_memory i.decision_id m)).claims
        i.decision_id (rw (eq_refl i.decision_id)))

-- Over the in-memory stores, after one successful resolution of an approval request and any calls
-- that follow, evaluations, blocks, resolutions and consumptions in any order, no further
-- resolution of the same request succeeds.
pub resolve_approval-once :
    (x : Externals) (s : Platform) (p : Provider) (counts : Bool) (i j : ResolveApprovalInput)
    (r q : Option Action) (at now at' now' : ℕ) (f g : Fresh) (m : Memory) (cs : List Call)
    (res res' : ResolveApprovalResult)
    → i.decision_id ≡ j.decision_id
    → (resolve_approval x s p (memory_stores s.decimals counts) i r at now f m).0 ≡ ok res
    → res.success ≡ true
    → (resolve_approval x s p (memory_stores s.decimals counts) j q at' now' g (
        after_calls x s p counts cs
          (resolve_approval x s p (memory_stores s.decimals counts) i r at now f m).1)).0
      ≡ ok res'
    → res'.success ≡ false
resolve_approval-once x s p counts i j r q at now at' now' f g m cs res res' same h won h' =
    let (issued, w) = success-Won x s p counts i r at now f m res h won in
    claimed-refused x s p counts j q at' now' g _ res'
      (rw (← same) (
        (after_calls-Later x s p counts (λ id. ⊥) cs _ (no_old x s p counts cs)).claims
          i.decision_id (success-claims x s p counts i r at now f m issued w)))
      h'
