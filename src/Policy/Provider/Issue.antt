-- ===== src/Policy/Provider/Issue.antt =====
-- What `evaluate` and `issueBlock` of packages/policy-engine/src/local-provider.ts sign and store.
use inntris_x402_policy_adap.Base.{ℕ, ◌+◌, ◌*◌, ◌≡◌, refl, ap, Bool, none, some, List, [], ◌∷◌}
use inntris_x402_policy_adap.Base.Exec.{ok}
use inntris_x402_policy_adap.Base.Returns.{bind-returns, throw-returns}
use inntris_x402_policy_adap.Base.Maps.{get, get-set_self}
use inntris_x402_policy_adap.Core.Json.{Externals}
use inntris_x402_policy_adap.Core.Reasons.{ReasonCode, block}
use inntris_x402_policy_adap.Core.Action.{Action}
use inntris_x402_policy_adap.Core.Encoding.{hash_action}
use inntris_x402_policy_adap.Core.Decision.{Decision, policy_engine}
use inntris_x402_policy_adap.Core.Signing.{Fresh, Evaluation, unsigned_decision}
use inntris_x402_policy_adap.Core.Signing.Facts.{create-IsSigned}
use inntris_x402_policy_adap.Policy.Evaluate.{Platform, approval_of, evaluate_policy}
use inntris_x402_policy_adap.Policy.Stores.{Memory, memory_stores, save_decision}
use inntris_x402_policy_adap.Policy.Provider.{Provider, evaluate, issue_block, sign, sign_input}
use inntris_x402_policy_adap.Policy.Provider.Outcome.{sign-returns}

-- The evaluation of `issueBlock`.
abbrev pub blocked_for : List ReasonCode → Evaluation
blocked_for rs = record { verdict = block; reason_codes = rs; approval = approval_of policy_engine }

module _ (x : Externals) (s : Platform) (p : Provider) (counts : Bool) where
  -- The decision `d` gives the evaluation `e` of the action, under the provider's policy.
  pub record Issues (a : Action) (e : Evaluation) (f : Fresh) (n : Memory) (d : Decision)
      : Type 0 where
    pub verdict : d.verdict ≡ e.verdict
    pub reasons : d.reason_codes ≡ e.reason_codes
    pub approval : d.approval ≡ e.approval
    pub action : d.action_hash ≡ hash_action x a
    pub policy : (d.policy_hash ≡ p.policy_hash) × (d.policy_version ≡ p.policy.policy_version)
    pub lifetime :
        (d.issued_at ≡ f.now) × (d.expires_at ≡ f.now + p.policy.decision_ttl_seconds * 1000)
    pub supersedes : d.supersedes_decision_id ≡ none
    pub stored : get d.decision_id n.decisions ≡ some (record { decision = d; action = a })

  sign-Issues :
      (a : Action) (e : Evaluation) (f : Fresh) (m n : Memory) (d : Decision)
      → sign x s p (memory_stores s.decimals counts) a e none f m ≡ (ok d, n)
      → Issues a e f n d
  unfolding unsigned_decision save_decision
  sign-Issues a e f m n d h =
      let (created, saved) = sign-returns x s p counts a e none f m n d h in
      let made = (create-IsSigned x (sign_input p a e none) p.signer f d created).1.body_is in
      record {
        verdict = rw made refl;
        reasons = rw made refl;
        approval = rw made refl;
        action = rw made refl;
        policy = rw made (refl, refl);
        lifetime = rw made (refl, refl);
        supersedes = rw made refl;
        stored =
            rw saved (get-set_self d.decision_id (record { decision = d; action = a }) m.decisions);
      }

  -- Over the in-memory stores, a decision that `evaluate` returns carries the verdict, the reasons and
  -- the approval of the policy's evaluation of the action, the action's hash, the policy's hash,
  -- version and lifetime, supersedes nothing, and is stored with the action under its id.
  pub evaluate-Issues :
      (a : Action) (now : ℕ) (f : Fresh) (m n : Memory) (d : Decision)
      → evaluate x s p (memory_stores s.decimals counts) a now f m ≡ (ok d, n)
      → (e : Evaluation) × ((evaluate_policy s
            (memory_stores s.decimals counts).daily_spend
            a
            p.policy
            now
            m).0
          ≡ ok e)
        × Issues a e f n d
  unfolding evaluate
  evaluate-Issues a now f m n d h =
      let (e, t, evaluated, signed) =
        bind-returns
          (evaluate_policy s (memory_stores s.decimals counts).daily_spend a p.policy now) _ m n d
          h in
      (e, ap (λ q. q.0) evaluated, sign-Issues a e f t n d signed)

  -- Over the in-memory stores, a decision that `issueBlock` returns blocks, with exactly the supplied
  -- reasons and the policy engine's approval, carries the action's hash and the policy's hash,
  -- version and lifetime, supersedes nothing, and is stored with the action under its id.
  pub issue_block-Issues :
      (a : Action) (rs : List ReasonCode) (f : Fresh) (m n : Memory) (d : Decision)
      → issue_block x s p (memory_stores s.decimals counts) a rs f m ≡ (ok d, n)
      → Issues a (blocked_for rs) f n d
  unfolding issue_block
  issue_block-Issues a [] f m n d h = absurd (throw-returns _ m d n h)
  issue_block-Issues a (r ∷ rs) f m n d h = sign-Issues a (blocked_for (r ∷ rs)) f m n d h
