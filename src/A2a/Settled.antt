-- ===== src/A2a/Settled.antt =====
-- When the settlement evidence of packages/a2a-settlement-gate/src/gate.ts is accepted.
use inntris_x402_policy_adap.Base.{
  ℕ, ◌≤◌, String, ◌≡◌, ◌⊎◌, inl, inr, refl, sym, ap, ◌∙◌, true, not, ◌&&◌, ◌||◌, Option, none, some,
  arith, ltb, eq_iff, option_eq, option_eq-some, and-eq-true, Option-cases,
}
use inntris_x402_policy_adap.Base.Exec.{Result, ok, err, bind}
use inntris_x402_policy_adap.Core.Json.{Externals}
use inntris_x402_policy_adap.Core.Signing.{Fault, parse}
use inntris_x402_policy_adap.Core.Signing.Facts.{bind-ok, parse-ok}
use inntris_x402_policy_adap.Verifier.{safe_parse}
use inntris_x402_policy_adap.Verifier.Laws.{safe_parse-some}
use inntris_x402_policy_adap.Adapter.Binding.{X402Schemas, payment_requirements_hash}
use inntris_x402_policy_adap.Execution.{as_gate, demand}
use inntris_x402_policy_adap.Execution.Admission.{as_gate-ok, demand-ok, demand-then}
use inntris_x402_policy_adap.A2a.Types.{
  SettlementState, settled, Observation, GateInput, observation_schema, submission_schema,
  binding_schema, finality_schema,
}
use inntris_x402_policy_adap.A2a.Gate

is_settled-eq : (s : SettlementState) → Gate.is_settled s ≡ true → s ≡ settled
is_settled-eq settled h = refl
is_settled-eq _ h = cc

same_settlement-cases :
    (o r : Option String) → Gate.same_settlement o r ≡ true → (o ≡ none) ⊎ (r ≡ o)
same_settlement-cases none r h = inl refl
same_settlement-cases (some s) r h = inr (option_eq-some r s h)

not_before : (a b : ℕ) → not (ltb b a) ≡ true → a ≤ b
not_before a b h = ground arith

given-some : (o : Option String) → Gate.given o ≡ true → (s : String) × (o ≡ some s)
given-some none h = cc
given-some (some s) h = (s, refl)

-- The evidence is about the task, the submission, its challenge and the resource, not older than the
-- submission, and about the settlement that the submission names, if it names one.
pub record IsBound (p : Gate.PreparedInput) (o : Observation) : Type 0 where
  pub task : o.task_id ≡ p.task.id
  pub context : o.context_id ≡ p.task.context_id
  pub submission : o.payment_submission_id ≡ p.submission.submission_id
  pub requirements : o.payment_requirements_hash ≡ p.submission.payment_requirements_hash
  pub resource : o.resource ≡ p.payment.resource
  pub settlement :
      (p.submission.settlement_ref ≡ none) ⊎ (o.settlement_ref ≡ p.submission.settlement_ref)
  pub later : p.submission.submitted_at ≤ o.observed_at

-- The payment is settled, under a reference, with exactly the required finality.
pub record IsFinal (required : String) (o : Observation) : Type 0 where
  pub state : o.state ≡ settled
  pub reference : (s : String) × (o.settlement_ref ≡ some s)
  pub finality : o.finality ≡ some required

verify-IsBound :
    (o : Observation) (p : Gate.PreparedInput) (u : Unit {0})
    → Gate.verify_settlement_binding o p ≡ ok u
    → IsBound p o
unfolding Gate.verify_settlement_binding
verify-IsBound o p u h =
    let (ids, h1) = demand-then _ Gate.settlement_binding_mismatch _ u h in
    let (reference, h2) = demand-then _ Gate.settlement_binding_mismatch _ u h1 in
    let (ids, resource) = and-eq-true _ _ ids in
    let (ids, requirements) = and-eq-true _ _ ids in
    let (ids, submission) = and-eq-true _ _ ids in
    let (task, context) = and-eq-true _ _ ids in
    record {
      task = (eq_iff _ _).0 task;
      context = (eq_iff _ _).0 context;
      submission = (eq_iff _ _).0 submission;
      requirements = (eq_iff _ _).0 requirements;
      resource = (eq_iff _ _).0 resource;
      settlement = same_settlement-cases _ _ reference;
      later = not_before _ _ (demand-ok _ Gate.settlement_binding_mismatch u h2);
    }

require-IsFinal :
    (o : Observation) (required : String) (u : Unit {0})
    → Gate.require_final_settlement o required ≡ ok u
    → IsFinal required o
unfolding Gate.require_final_settlement
require-IsFinal o required u h =
    let last =
      Gate.is_settled o.state
      && Gate.given o.settlement_ref
      && option_eq o.finality (some required) in
    let alive = λ (w : Unit {0}). demand last Gate.settlement_not_final in
    let known =
      λ (w : Unit {0}). bind (demand (not (Gate.is_failed o.state)) Gate.settlement_failed) alive in
    let (k, h1) =
      demand-then (not (Gate.is_unknown o.state || option_eq o.finality (some "UNKNOWN")))
        Gate.settlement_unknown known u h in
    let (a, h2) = demand-then (not (Gate.is_failed o.state)) Gate.settlement_failed alive u h1 in
    let (both, finality) = and-eq-true _ _ (demand-ok last Gate.settlement_not_final u h2) in
    let (state, reference) = and-eq-true _ _ both in
    record {
      state = is_settled-eq o.state state;
      reference = given-some o.settlement_ref reference;
      finality = option_eq-some o.finality required finality;
    }

module _ (x : Externals) (q : X402Schemas) where
  -- What `prepareInput` has done when it returns: the submission is about the task, the resource and
  -- the challenge, whose hash is computed from the payment's requirements.
  pub record IsPrepared (i : GateInput) (required : String) (p : Gate.PreparedInput) : Type 0 where
    pub task : p.task ≡ i.task
    pub submission : p.submission ≡ i.payment_submission
    pub accepted : submission_schema x i.payment_submission ≡ true
    pub finality : p.required_finality ≡ required
    pub nameable : finality_schema required ≡ true
    pub hash : String
    pub hashed : payment_requirements_hash x q i.payment.payment_requirements ≡ ok hash
    pub own_task : i.payment_submission.task_id ≡ i.task.id
    pub own_context : i.payment_submission.context_id ≡ i.task.context_id
    pub own_resource : i.payment_submission.resource ≡ i.payment.resource
    pub own_challenge : i.payment_submission.payment_requirements_hash ≡ hash
    pub payment :
        p.payment ≡ Gate.bound_payment x q i.payment (Gate.action_binding x q i hash required)

  or_invalid-ok : {A : Type 0} (r : Result Fault A) (a : A) → Gate.or_invalid r ≡ ok a → r ≡ ok a
  or_invalid-ok (ok b) a h = cc
  or_invalid-ok (err e) a h = cc

  bound-IsPrepared :
      (i : GateInput) (required : String) (p : Gate.PreparedInput) (hash : String)
      → submission_schema x i.payment_submission ≡ true
      → finality_schema required ≡ true
      → payment_requirements_hash x q i.payment.payment_requirements ≡ ok hash
      → Gate.bind_submission x q i required hash ≡ ok p
      → IsPrepared i required p
  unfolding Gate.bind_submission
  bound-IsPrepared i required p hash accepted nameable hashed h =
      let (ids, h1) = demand-then _ Gate.payment_binding_mismatch _ p h in
      let (ids, challenge) = and-eq-true _ _ ids in
      let (ids, resource) = and-eq-true _ _ ids in
      let (task, context) = and-eq-true _ _ ids in
      let (b, parsed, h2) =
        bind-ok (as_gate (parse (binding_schema x) (Gate.action_binding x q i hash required)))
          (λ binding. ok (Gate.prepared_input x q i required binding)) p h1 in
      let same : Gate.prepared_input x q i required b ≡ p = cc in
      let (valid, one) =
        parse-ok (binding_schema x) (Gate.action_binding x q i hash required) b
          (as_gate-ok _ b parsed) in
      rw (← same) (record {
        task = refl;
        submission = refl;
        accepted = accepted;
        finality = refl;
        nameable = nameable;
        hash = hash;
        hashed = hashed;
        own_task = (eq_iff _ _).0 task;
        own_context = (eq_iff _ _).0 context;
        own_resource = (eq_iff _ _).0 resource;
        own_challenge = (eq_iff _ _).0 challenge;
        payment = ap (Gate.bound_payment x q i.payment) (sym one);
      })

  pub prepare_input-IsPrepared :
      (i : GateInput) (required : String) (p : Gate.PreparedInput)
      → Gate.prepare_input x q i required ≡ ok p
      → IsPrepared i required p
  unfolding Gate.prepare_input
  prepare_input-IsPrepared i required p h =
      let (ids, h1) = demand-then _ Gate.invalid_a2a_input _ p h in
      let (ids, nameable) = and-eq-true _ _ ids in
      let (ids, accepted) = and-eq-true _ _ ids in
      let (hash, hashed, h2) =
        bind-ok (Gate.or_invalid (payment_requirements_hash x q i.payment.payment_requirements)) _ p
          h1 in
      bound-IsPrepared i required p hash accepted nameable (or_invalid-ok _ hash hashed) h2

module _ (x : Externals) (q : X402Schemas) {S : Type 0} (o : Gate.A2aOptions S) where
  parsed-ok :
      (raw : Option Observation) (s : Observation)
      → Gate.parsed_observation x q o raw ≡ ok s
      → (raw ≡ some s) × (observation_schema x s ≡ true)
  parsed-ok raw s h = elim (Option-cases (safe_parse (observation_schema x) raw)) [
    | inl e ↦ absurd (cc (rw (Gate.parsed_observation, e) at h))
    | inr (b, e) ↦
        let same : b ≡ s = cc (rw (Gate.parsed_observation, e) at h) in
        safe_parse-some (observation_schema x) raw s (e ∙ ap some same)
  ]

  -- The evidence of the settlement provider is accepted only as it is, well formed, bound to the input
  -- and final.
  pub check_observation-accepts :
      (p : Gate.PreparedInput) (raw : Option Observation) (s : Observation)
      → Gate.check_observation x q o p raw ≡ ok s
      → (raw ≡ some s)
        × (observation_schema x s ≡ true)
        × IsBound p s
        × IsFinal p.required_finality s
  unfolding Gate.check_observation
  check_observation-accepts p raw s h =
      let (a, parsed, h1) = bind-ok (Gate.parsed_observation x q o raw) _ s h in
      let (u, bound, h2) = bind-ok (Gate.verify_settlement_binding a p) _ s h1 in
      let (w, final, h3) = bind-ok (Gate.require_final_settlement a p.required_finality) _ s h2 in
      let same : a ≡ s = cc in
      let (raw_is, accepted) = parsed-ok raw a parsed in
      rw (← same) (
        raw_is,
        accepted,
        verify-IsBound a p u bound,
        require-IsFinal a p.required_finality w final,
      )
