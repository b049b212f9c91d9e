-- ===== src/Mtp/Evidence.antt =====
-- What packages/mtp-authority/src/client.ts has checked when it returns an authorization or a receipt.
use inntris_x402_policy_adap.Base.{
  ℕ, String, ◌≡◌, refl, sym, ap, ◌∙◌, Bool, true, false, Option, none, some, ◌==◌, str_eq, eq_iff,
  option_eq-some, and-eq-true, arith, inl, inr, Bool-cases,
}
use inntris_x402_policy_adap.Base.Exec.{Result, ok, err, require, or_throw, lift}
use inntris_x402_policy_adap.Base.Returns.{bind-returns, lift-returns, require-then, or_throw-ok}
use inntris_x402_policy_adap.Core.Json.{Externals}
use inntris_x402_policy_adap.Core.Action.{Action, action_schema}
use inntris_x402_policy_adap.Core.Encoding.{hash_action}
use inntris_x402_policy_adap.Core.Decision.{Decision, decision_schema}
use inntris_x402_policy_adap.Core.Signing.{Fault, schema_error}
use inntris_x402_policy_adap.Core.Signing.Facts.{bind-ok, parse-then}
use inntris_x402_policy_adap.Verifier.{safe_parse}
use inntris_x402_policy_adap.Execution.Admission.{pure-returns}
use inntris_x402_policy_adap.Mtp.Store.{Authorization, ConsumptionReceipt}
use inntris_x402_policy_adap.Mtp.Client
use inntris_x402_policy_adap.Mtp.Uniqueness.{IsFresh}

mtp_of-ok : {A : Type 0} (r : Result Fault A) (a : A) → Client.mtp_of r ≡ ok a → r ≡ ok a
mtp_of-ok (ok b) a h = cc
mtp_of-ok (err e) a h = cc

status_is : {E : Type 0} (n : ℕ) (e : E) (u : Unit {0}) → require (n == 200) e ≡ ok u → n ≡ 200
status_is n e u h = elim (Bool-cases (n == 200)) [
  | inl f ↦ ground arith
  | inr f ↦ absurd (cc (rw f at h))
]

is_given-true : (o : Option Bool) (b : Bool) → Client.is_given o b ≡ true → o ≡ some b
is_given-true none b h = cc
is_given-true (some true) true h = refl
is_given-true (some true) false h = cc
is_given-true (some false) true h = cc
is_given-true (some false) false h = refl

module _ (x : Externals) (e : Client.MtpExternals) {S : Type 0} (c : Client.MtpClient S) where
  -- The answer approves this agent's action for this reference, outside the sandbox, with the
  -- evidence of a consumption, which the receipt repeats.
  pub record IsEvidence (a : Authorization) (ref : String) (r : Client.TokenResponse)
      (k : ConsumptionReceipt) : Type 0 where
    pub valid : r.valid ≡ true
    pub verdict : r.verdict ≡ some "approved"
    pub agent : r.agent_id ≡ some a.request.agent_id
    pub action : r.action_hash ≡ some a.mtp_action_hash
    pub matches : r.action_hash_matches ≡ some true
    pub reference : r.execution_ref ≡ some ref
    pub live : r.sandbox ≡ some false
    pub audit : r.consumption_audit_id ≡ some k.audit_id
    pub status : r.consumption_status ≡ some k.status
    pub receipt : k.execution_ref ≡ ref

  check_evidence-IsEvidence :
      (a : Authorization) (ref : String) (r : Client.TokenResponse) (k : ConsumptionReceipt)
      → Client.check_evidence x e c a ref r ≡ ok k
      → IsEvidence a ref r k
  unfolding Client.check_evidence
  check_evidence-IsEvidence a ref r k h =
      let (valid, h1) = require-then r.valid Client.consumption_rejected _ k h in
      let (all, h2) = require-then _ Client.consumption_rejected _ k h1 in
      let (all, live) = and-eq-true _ _ all in
      let (all, reference) = and-eq-true _ _ all in
      let (all, matches) = and-eq-true _ _ all in
      let (all, action) = and-eq-true _ _ all in
      let (verdict, agent) = and-eq-true _ _ all in
      let (audit, f, h3) =
        bind-ok (or_throw r.consumption_audit_id Client.consumption_rejected) _ k h2 in
      let (status, g, h4) =
        bind-ok (or_throw r.consumption_status Client.consumption_rejected)
          (λ status. ok (record { execution_ref = ref; audit_id = audit; status = status })) k h3 in
      let same : record { execution_ref = ref; audit_id = audit; status = status } ≡ k = cc in
      rw (← same) (record {
        valid = valid;
        verdict = option_eq-some _ _ verdict;
        agent = option_eq-some _ _ agent;
        action = option_eq-some _ _ action;
        matches = is_given-true _ _ matches;
        reference = option_eq-some _ _ reference;
        live = is_given-true _ _ live;
        audit = or_throw-ok _ _ audit f;
        status = or_throw-ok _ _ status g;
        receipt = refl;
      })

  -- When the client's `consume` returns a receipt, the authority answered the token's request with
  -- status 200 and a body that says valid and approved, names the request's agent, the
  -- authorization's action hash and the execution reference, is not of the sandbox, and has the
  -- audit id and status of a consumption, which are the receipt's.
  pub consume_token-IsEvidence :
      (a : Authorization) (ref : String) (s t : S) (k : ConsumptionReceipt)
      → Client.consume_token x e c a ref s ≡ (ok k, t)
      → (r : Client.TokenResponse) × (c.post_token
            (record { approval_token = a.approval_token; request = a.request; execution_ref = ref })
            s
          ≡ (ok (200, some r), t))
        × IsEvidence a ref r k
  unfolding Client.consume_token
  consume_token-IsEvidence a ref s t k h =
      let (answer, s1, posted, h1) = bind-returns (c.post_token _) _ s t k h in
      let (u, s2, fine, h2) =
        bind-returns (lift (Client.status_ok answer.0 Client.consumption_rejected)) _ s1 t k h1 in
      let (accepted, same1) = lift-returns _ s1 s2 u fine in
      let (r, s3, shaped, h3) =
        bind-returns (lift (or_throw answer.1 (Client.mtp_fault schema_error))) _ s2 t k h2 in
      let (there, same2) = lift-returns _ s2 s3 r shaped in
      let (checked, same3) = lift-returns (Client.check_evidence x e c a ref r) s3 t k h3 in
      let status = status_is answer.0 Client.consumption_rejected u accepted in
      let body = or_throw-ok answer.1 _ r there in
      (
        r,
        posted
            ∙ ap (λ z. (ok (z, answer.1), s1)) status
            ∙ ap (λ z. (ok (200, z), s1)) body
            ∙ ap (λ z. (ok (200, some r), z)) (same1 ∙ same2 ∙ same3),
        check_evidence-IsEvidence a ref r k checked,
      )

  -- When the client's `authorize` returns, the decision is bound to the action by its hash, and the
  -- authorization is the decision's, for that hash, with no execution yet.
  pub authorize-IsFresh :
      (action : Action) (d : Decision) (nonce : String) (now : ℕ) (s t : S) (a : Authorization)
      → Client.authorize x e c action d nonce now s ≡ (ok a, t)
      → (hash_action x action ≡ d.action_hash)
        × (a.decision_id ≡ d.decision_id)
        × (a.action_hash ≡ d.action_hash)
        × IsFresh a
  unfolding Client.authorize Client.action_to_mtp_payload
  authorize-IsFresh action d nonce now s t a h =
      let (p, s1, made, h1) =
        bind-returns (lift (Client.mtp_of (Client.action_to_mtp_payload x e action d))) _ s t a h in
      let (payload, same1) =
        lift-returns (Client.mtp_of (Client.action_to_mtp_payload x e action d)) s s1 p made in
      let (sound, g1) = parse-then (action_schema x) action _ p (mtp_of-ok _ p payload) in
      let (valid, g2) = parse-then (decision_schema x) d _ p g1 in
      let (bound, g3) = require-then (str_eq d.action_hash (hash_action x action)) _ _ p g2 in
      let (signed, s2, e2, h2) =
        bind-returns (lift (Client.mtp_of (Client.signed_request x e c p nonce now))) _ s1 t a h1 in
      let (answer, s3, e3, h3) = bind-returns (c.post_verify signed.0) _ s2 t a h2 in
      let (u, s4, e4, h4) =
        bind-returns (lift (Client.status_ok answer.0 (Client.authority_denied answer.0))) _ s3 t a
          h3 in
      let (r, s5, e5, h5) =
        bind-returns
          (lift (
            or_throw (safe_parse (Client.approved_schema x e) answer.1)
              (Client.mtp_fault schema_error)))
          _ s4 t a h4 in
      pure-returns
        (λ a t.
          (hash_action x action ≡ d.action_hash)
          × (a.decision_id ≡ d.decision_id)
          × (a.action_hash ≡ d.action_hash)
          × IsFresh a)
        (Client.authorization_of x e c d signed r) a s5 t h5
        (
          sym ((eq_iff _ _).0 bound),
          refl,
          refl,
          record { unclaimed = refl; unconsumed = refl; incomplete = refl },
        )
