-- ===== src/Policy/Provider/Calls.antt =====
-- Histories of calls on the local provider with the in-memory stores, in any order.
use inntris_x402_policy_adap.Base.{ℕ, String, Bool, Option, List, [], ◌∷◌}
use inntris_x402_policy_adap.Base.First.{Each}
use inntris_x402_policy_adap.Core.Json.{Externals}
use inntris_x402_policy_adap.Core.Reasons.{ReasonCode}
use inntris_x402_policy_adap.Core.Action.{Action}
use inntris_x402_policy_adap.Core.Signing.{Fresh}
use inntris_x402_policy_adap.Core.Replay.{ConsumeInput}
use inntris_x402_policy_adap.Policy.Evaluate.{Platform}
use inntris_x402_policy_adap.Policy.Stores.{Memory, memory_stores}
use inntris_x402_policy_adap.Policy.Provider.{
  Provider, ResolveApprovalInput, evaluate, issue_block, resolve_approval, consume,
}
use inntris_x402_policy_adap.Policy.Provider.History.{
  Later, Later-order, IsNew, evaluate-Later, issue_block-Later, resolve_approval-Later,
  consume-Later_all,
}

pub data Call : Type 0 where
  evaluates : Action → ℕ → Fresh → Call
  blocks : Action → List ReasonCode → Fresh → Call
  resolves : ResolveApprovalInput → Option Action → ℕ → ℕ → Fresh → Call
  consumes : ConsumeInput → ℕ → Call

module _ (x : Externals) (s : Platform) (p : Provider) (counts : Bool) where
  -- The state that a call leaves, whether it returns or throws.
  unfoldable pub after_call : Call → Memory → Memory
  after_call (evaluates a now f) m = (evaluate x s p (memory_stores s.decimals counts) a now f m).1
  after_call (blocks a rs f) m = (issue_block x s p (memory_stores s.decimals counts) a rs f m).1
  after_call (resolves i r at now f) m =
      (resolve_approval x s p (memory_stores s.decimals counts) i r at now f m).1
  after_call (consumes i now) m = (consume x s p (memory_stores s.decimals counts) i now m).1

  unfoldable pub after_calls : List Call → Memory → Memory
  unfolding after_call
  after_calls [] m = m
  after_calls (c ∷ cs) m = after_calls cs (after_call c m)

  -- The ids that the calls' decisions get are none of the old ones.
  abbrev pub NewIds : (String → Type 0) → Call → Type 0
  NewIds Old (evaluates a now f) = IsNew x s p counts Old f
  NewIds Old (blocks a rs f) = IsNew x s p counts Old f
  NewIds Old (resolves i r at now f) = IsNew x s p counts Old f
  NewIds Old (consumes i now) = Unit {0}

  after_call-Later :
      (Old : String → Type 0) (c : Call) (m : Memory) → NewIds Old c → Later Old m (after_call c m)
  unfolding after_call
  after_call-Later Old (evaluates a now f) m n = (evaluate-Later x s p counts Old a now f n).at m
  after_call-Later Old (blocks a rs f) m n = (issue_block-Later x s p counts Old a rs f n).at m
  after_call-Later Old (resolves i r at now f) m n =
      (resolve_approval-Later x s p counts Old i r at now f n).at m
  after_call-Later Old (consumes i now) m n = (consume-Later_all x s p counts Old i now).at m

  pub after_calls-Later :
      (Old : String → Type 0) (cs : List Call) (m : Memory)
      → Each (NewIds Old) cs
      → Later Old m (after_calls cs m)
  unfolding after_calls
  after_calls-Later Old [] m n = (Later-order Old).same m
  after_calls-Later Old (c ∷ cs) m n =
      (Later-order Old).then_ m (after_call c m) (after_calls cs (after_call c m))
        (after_call-Later Old c m n.0) (after_calls-Later Old cs (after_call c m) n.1)

  -- With no old ids, nothing is asked of the fresh ones.
  pub no_old : (cs : List Call) → Each (NewIds (λ id. ⊥)) cs
  no_old [] = tt
  no_old (evaluates a now f ∷ cs) = (λ id o. absurd o, no_old cs)
  no_old (blocks a rs f ∷ cs) = (λ id o. absurd o, no_old cs)
  no_old (resolves i r at now f ∷ cs) = (λ id o. absurd o, no_old cs)
  no_old (consumes i now ∷ cs) = (tt, no_old cs)
