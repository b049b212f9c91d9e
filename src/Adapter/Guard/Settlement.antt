-- ===== src/Adapter/Guard/Settlement.antt =====
-- When `settleIfAuthorised` of packages/x402-adapter/src/guard.ts calls `settle`.
use mathlib.Core.Path.{ap₂}
use inntris_x402_policy_adap.Base.{
  sym, ℕ, String, ◌≡◌, ◌⊎◌, refl, ◌∙◌, ap, Bool, true, false, Option, none, some, inl, inr,
  Bool-cases, str_eq, eq_iff,
}
use inntris_x402_policy_adap.Base.Exec.{
  Result, ok, err, Exec, pure, lift, ◌>>=◌, require, catching, Result-cases,
}
use inntris_x402_policy_adap.Base.Returns.{bind-returns, lift-returns}
use inntris_x402_policy_adap.Core.Json.{Externals}
use inntris_x402_policy_adap.Core.Reasons.{allow, Verdict}
use inntris_x402_policy_adap.Core.Action.{Action}
use inntris_x402_policy_adap.Core.Encoding.{hash_action}
use inntris_x402_policy_adap.Core.Decision.{Decision}
use inntris_x402_policy_adap.Core.Signing.{Fault}
use inntris_x402_policy_adap.Core.Signing.Facts.{bind-ok}
use inntris_x402_policy_adap.Core.Replay.{ConsumeInput, ConsumeResult}
use inntris_x402_policy_adap.Verifier.{VerificationResult}
use inntris_x402_policy_adap.Adapter.Binding.{X402Schemas, BindingInput, action_from_x402}
use inntris_x402_policy_adap.Adapter.Guard.{
  GuardOptions, Readings, Claim, SettleError, check_settlement, claim_settlement, prepare_claim,
  start_settlement, before_settlement, settle_if_authorised, verified, verify_before_settlement,
  reject_verdict, names_allow, consume_before_execution, as_guard,
}

require-true : {E : Type 0} (b : Bool) (e : E) (u : Unit {0}) → require b e ≡ ok u → b ≡ true
require-true true e u h = refl
require-true false e u h = absurd (cc)

pub as_guard-ok : {A : Type 0} (r : Result Fault A) (a : A) → as_guard r ≡ ok a → r ≡ ok a
as_guard-ok (ok b) a h = cc
as_guard-ok (err e) a h = cc

pub names_allow-eq : (o : Option Verdict) → names_allow o ≡ true → o ≡ some allow
names_allow-eq none h = cc
names_allow-eq (some allow) h = refl
names_allow-eq (some _) h = cc

reject_verdict-valid :
    (r : VerificationResult)
    → (reject_verdict r).valid ≡ true
    → (r.valid ≡ true) × (r.verdict ≡ some allow)
unfolding reject_verdict
reject_verdict-valid r h = elim (Bool-cases r.valid) [
  | inr e ↦ absurd (cc (rw (reject_verdict, e) at h))
  | inl e ↦ elim (Bool-cases (names_allow r.verdict)) [
    | inl f ↦ (e, names_allow-eq r.verdict f)
    | inr f ↦ absurd (cc (rw (reject_verdict, e, f) at h))
  ]
]

module _ (x : Externals) (q : X402Schemas) {S : Type 0} (o : GuardOptions S) where
  -- The decision is valid for the input's action now and allows it, the operation was prepared if
  -- there is a store, the decision's consumption succeeded, and the start was admitted.
  pub record IsAuthorised (i : BindingInput) (d : Decision) (ref : String) (t : Readings) (s : S)
      : Type 0 where
    pub action : Action
    pub action_made : action_from_x402 x q i ≡ ok action
    pub verification : VerificationResult
    pub verification_made : verified x q o i d action t.verified_at ≡ ok verification
    pub valid : verification.valid ≡ true
    pub allowed : verification.verdict ≡ some allow
    pub hash : hash_action x action ≡ d.action_hash
    pub claim : Option (Claim S)
    pub before : S
    pub prepared : prepare_claim x q o d ref t.prepared_at s ≡ (ok claim, before)
    pub after : S
    pub consumption : ConsumeResult
    pub consumed :
        o.consume
          (record { decision_id = d.decision_id; action_hash = d.action_hash; execution_ref = ref })
          before
        ≡ (ok consumption, after)
    pub success : consumption.success ≡ true
    pub final : S
    pub started : start_settlement x q o claim t.started_at after ≡ (ok tt, final)
    pub reached : before_settlement x q o i d ref t s ≡ (ok claim, final)

  pub consume-succeeds :
      (d : Decision) (ref : String) (s u : S) (r : ConsumeResult)
      → consume_before_execution x q o d ref s ≡ (ok r, u)
      → r.success ≡ true
      → o.consume
          (record { decision_id = d.decision_id; action_hash = d.action_hash; execution_ref = ref })
          s
        ≡ (ok r, u)
  unfolding consume_before_execution catching pure
  consume-succeeds d ref s u r h w =
      let asked : ConsumeInput = record {
        decision_id = d.decision_id;
        action_hash = d.action_hash;
        execution_ref = ref;
      } in
      elim (Result-cases (o.consume asked s).0) [
        | inl (e, f) ↦
            let answer = ap (λ p. p.0) (rw (consume_before_execution, catching, f) at h) in
            absurd (cc (answer, w))
        | inr (a, f) ↦
            let answer = rw (consume_before_execution, catching, f) at h in
            let same : a ≡ r = cc (ap (λ p. p.0) answer) in
            ap (λ z. (z, (o.consume asked s).1)) f
            ∙ ap₂ (λ b t. (ok b, t)) same (ap (λ p. p.1) answer)
      ]

  verify-allows :
      (i : BindingInput) (d : Decision) (action : Action) (now : ℕ) (r : VerificationResult)
      → action_from_x402 x q i ≡ ok action
      → verify_before_settlement x q o i d now ≡ ok r
      → r.valid ≡ true
      → (v : VerificationResult) × (verified x q o i d action now ≡ ok v)
        × (v.valid ≡ true)
        × (v.verdict ≡ some allow)
  unfolding verify_before_settlement
  verify-allows i d action now r a h w =
      let (v, made, rejected) =
        bind-ok (verified x q o i d action now) (λ v. ok (reject_verdict v)) r
          (rw (verify_before_settlement, a) at h) in
      let same : reject_verdict v ≡ r = cc in
      let (valid, allowed) = reject_verdict-valid v (rw same w) in (v, made, valid, allowed)

  -- What the checks without state have found.
  record IsChecked (i : BindingInput) (d : Decision) (now : ℕ) : Type 0 where
    action : Action
    action_made : action_from_x402 x q i ≡ ok action
    verification : VerificationResult
    verification_made : verified x q o i d action now ≡ ok verification
    valid : verification.valid ≡ true
    allowed : verification.verdict ≡ some allow
    hash : hash_action x action ≡ d.action_hash

  check-IsChecked :
      (i : BindingInput) (d : Decision) (now : ℕ) (u : Unit {0})
      → check_settlement x q o i d now ≡ ok u
      → IsChecked i d now
  unfolding check_settlement
  check-IsChecked i d now u h =
      let (v, e1, h1) = bind-ok (as_guard (verify_before_settlement x q o i d now)) _ u h in
      let (w, e2, h2) = bind-ok (require v.valid _) _ u h1 in
      let (a, e3, h3) = bind-ok (as_guard (action_from_x402 x q i)) _ u h2 in
      let made = as_guard-ok _ a e3 in
      let (r, checked, valid, allowed) =
        verify-allows i d a now v made (as_guard-ok _ v e1) (require-true v.valid _ w e2) in
      record {
        action = a;
        action_made = made;
        verification = r;
        verification_made = checked;
        valid = valid;
        allowed = allowed;
        hash =
            (eq_iff (hash_action x a) d.action_hash).0
              (require-true (str_eq (hash_action x a) d.action_hash) _ u h3);
      }

  -- The consumption that a claimed settlement has made.
  record IsConsumed (d : Decision) (ref : String) (t : Readings) (s : S) : Type 0 where
    claim : Option (Claim S)
    before : S
    prepared : prepare_claim x q o d ref t.prepared_at s ≡ (ok claim, before)
    after : S
    consumption : ConsumeResult
    consumed :
        o.consume
          (record { decision_id = d.decision_id; action_hash = d.action_hash; execution_ref = ref })
          before
        ≡ (ok consumption, after)
    success : consumption.success ≡ true
    final : S
    started : start_settlement x q o claim t.started_at after ≡ (ok tt, final)
    reached : claim_settlement x q o d ref t s ≡ (ok claim, final)

  claim-IsConsumed :
      (d : Decision) (ref : String) (t : Readings) (s u : S) (c : Option (Claim S))
      → claim_settlement x q o d ref t s ≡ (ok c, u)
      → IsConsumed d ref t s
  unfolding claim_settlement pure
  claim-IsConsumed d ref t s u c h =
      let (claim, s1, e1, h1) = bind-returns (prepare_claim x q o d ref t.prepared_at) _ s u c h in
      let (r, s2, e2, h2) = bind-returns (consume_before_execution x q o d ref) _ s1 u c h1 in
      let (w, s3, e3, h3) = bind-returns (lift (require r.success _)) _ s2 u c h2 in
      let (v, s4, e4, h4) = bind-returns (start_settlement x q o claim t.started_at) _ s3 u c h3 in
      let (passed, same) = lift-returns _ s2 s3 w e3 in
      let success = require-true r.success _ w passed in
      record {
        claim = claim;
        before = s1;
        prepared = e1;
        after = s2;
        consumption = r;
        consumed = consume-succeeds d ref s1 s2 r e2 success;
        success = success;
        final = s4;
        started = rw same e4;
        reached = h ∙ sym h4;
      }

  pub before_settlement-IsAuthorised :
      (i : BindingInput) (d : Decision) (ref : String) (t : Readings) (s u : S)
      (c : Option (Claim S))
      → before_settlement x q o i d ref t s ≡ (ok c, u)
      → IsAuthorised i d ref t s
  unfolding before_settlement
  before_settlement-IsAuthorised i d ref t s u c h =
      let (w, s1, e1, h1) =
        bind-returns (lift (check_settlement x q o i d t.verified_at)) _ s u c h in
      let (passed, same) = lift-returns _ s s1 w e1 in
      let k = check-IsChecked i d t.verified_at w passed in
      let n = claim-IsConsumed d ref t s1 u c h1 in
      record {
        action = k.action;
        action_made = k.action_made;
        verification = k.verification;
        verification_made = k.verification_made;
        valid = k.valid;
        allowed = k.allowed;
        hash = k.hash;
        claim = n.claim;
        before = n.before;
        prepared = rw same n.prepared;
        after = n.after;
        consumption = n.consumption;
        consumed = n.consumed;
        success = n.success;
        final = n.final;
        started = n.started;
        reached = h ∙ sym h1 ∙ n.reached;
      }

  -- Either a settlement is authorised, or its outcome does not depend on what `settle` is, which is
  -- then not called. Authorised means: the action of the input is made, the decision is valid for it
  -- at the reading of the clock with the verdict ALLOW, its hash is the decision's, the operation
  -- is prepared where there is a reconciliation store, then the provider consumes the decision
  -- under the execution reference with success, and then the store admits the start.
  pub settle_if_authorised-IsAuthorised :
      {T : Type 0} (i : BindingInput) (d : Decision) (ref : String) (t : Readings) (s : S)
      → IsAuthorised i d ref t s
        ⊎ ((settle other : Exec SettleError S T)
            → settle_if_authorised x q o i d ref t settle s
              ≡ settle_if_authorised x q o i d ref t other s)
  unfolding settle_if_authorised ◌>>=◌
  settle_if_authorised-IsAuthorised i d ref t s =
      elim (Result-cases (before_settlement x q o i d ref t s).0) [
        | inl (e, stopped) ↦ inr (λ settle other. rw stopped refl)
        | inr (c, passed) ↦ inl (
            before_settlement-IsAuthorised i d ref t s (before_settlement x q o i d ref t s).1 c
              (ap (λ r. (r, (before_settlement x q o i d ref t s).1)) passed))
      ]
