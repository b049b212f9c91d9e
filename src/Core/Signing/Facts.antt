-- ===== src/Core/Signing/Facts.antt =====
-- What `createSignedDecision` and `attachDecisionSignature` have done when they return.
use inntris_x402_policy_adap.Base.{
  ◌≡◌, refl, Bool, true, arith, eq_iff, str_eq, Bool-cases, inl, inr,
}
use inntris_x402_policy_adap.Base.Exec.{Result, ok, err, bind}
use inntris_x402_policy_adap.Core.Json.{Externals, canonical_bytes}
use inntris_x402_policy_adap.Core.Action.{action_schema}
use inntris_x402_policy_adap.Core.Decision.{Body, Decision, decision_schema, signable_payload}
use inntris_x402_policy_adap.Core.Signing.{
  Fault, SigningProvider, parse, sealed, CreateDecisionInput, Fresh, calculate_decision_fingerprint,
  attach_decision_signature, unsigned_decision, create_signed_decision,
}

pub bind-ok :
    {E A B : Type 0} (m : Result E A) (f : A → Result E B) (b : B)
    → bind m f ≡ ok b
    → (a : A) × (m ≡ ok a) × (f a ≡ ok b)
bind-ok (ok a) f b h = (a, refl, h)
bind-ok (err e) f b h = cc

pub parse-ok :
    {A : Type 0} (schema : A → Bool) (v a : A) → parse schema v ≡ ok a → (schema v ≡ true) × (v ≡ a)
parse-ok schema v a h = elim (Bool-cases (schema v)) [
  | inl e ↦ (e, ground arith)
  | inr e ↦ absurd (ground arith)
]

pub parse-then :
    {A B : Type 0} (schema : A → Bool) (v : A) (f : A → Result Fault B) (b : B)
    → bind (parse schema v) f ≡ ok b
    → (schema v ≡ true) × (f v ≡ ok b)
parse-then schema v f b h = elim (Bool-cases (schema v)) [
  | inl e ↦ (e, rw e at h)
  | inr e ↦ absurd (cc (rw e at h))
]

module _ (x : Externals) where
  pub record IsSigned (body : Body) (signer : SigningProvider) (d : Decision) : Type 0 where
    pub body_is : d.body ≡ body
    pub fingerprint : calculate_decision_fingerprint x d.body ≡ d.decision_fingerprint
    pub signature :
        signer.sign (canonical_bytes x (signable_payload d.body d.decision_fingerprint))
        ≡ ok d.signature
    pub accepted : decision_schema x d ≡ true
    pub key : d.key_id ≡ signer.key_id

  pub attach-IsSigned :
      (body : Body) (signer : SigningProvider) (d : Decision)
      → attach_decision_signature x body signer ≡ ok d
      → IsSigned body signer d
  unfolding attach_decision_signature
  attach-IsSigned body signer d h = elim (Bool-cases (str_eq body.key_id signer.key_id)) [
    | inr e ↦ absurd (cc (rw (e, attach_decision_signature) at h))
    | inl e ↦
        let print = calculate_decision_fingerprint x body in
        let (signature, signed, parsed) =
          bind-ok (signer.sign (canonical_bytes x (signable_payload body print)))
            (λ signature. parse (decision_schema x) (sealed body print signature)) d
            (rw (e, attach_decision_signature) at h) in
        let (accepted, same) =
          parse-ok (decision_schema x) (sealed body print signature) d parsed in
        rw (← same) (record {
          body_is = refl;
          fingerprint = refl;
          signature = signed;
          accepted = accepted;
          key = (eq_iff body.key_id signer.key_id).0 e;
        })
  ]

  pub create-IsSigned :
      (input : CreateDecisionInput) (signer : SigningProvider) (fresh : Fresh) (d : Decision)
      → create_signed_decision x input signer fresh ≡ ok d
      → (action_schema x input.action ≡ true)
        × IsSigned (unsigned_decision x input signer fresh) signer d
  unfolding create_signed_decision
  create-IsSigned input signer fresh d h =
      let (a, parsed, attached) = bind-ok (parse (action_schema x) input.action) _ d h in
      ((parse-ok (action_schema x) input.action a parsed).0, attach-IsSigned _ signer d attached)
