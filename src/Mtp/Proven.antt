-- ===== src/Mtp/Proven.antt =====
-- When `consume` of packages/mtp-authority/src/provider.ts comes to the local consumption.
use mathlib.Core.Path.{ap₂}
use inntris_x402_policy_adap.Base.{
  ℕ, String, ◌≡◌, ◌⊎◌, inl, inr, refl, ap, ◌∙◌, Bool, true, false, Option, none, some, str_eq,
  eq_iff, Bool-cases, Option-cases,
}
use inntris_x402_policy_adap.Base.Exec.{ok, Exec, pure, throw, ◌>>=◌, ◌>>◌, Result-cases}
use inntris_x402_policy_adap.Base.Returns.{bind-returns, catch-returns}
use inntris_x402_policy_adap.Core.Json.{Externals}
use inntris_x402_policy_adap.Core.Reasons.{ReasonCode}
use inntris_x402_policy_adap.Core.Replay.{ConsumeInput, ConsumeResult}
use inntris_x402_policy_adap.Execution.Admission.{pure-returns}
use inntris_x402_policy_adap.Mtp.Store.{
  Authorization, ConsumptionReceipt, MtpClaim, mtp_claimed, mtp_idempotent, mtp_conflict,
  mtp_missing,
}
use inntris_x402_policy_adap.Mtp.Client.{MtpFault, consumption_rejected}
use inntris_x402_policy_adap.Mtp.Provider.{
  MtpOptions, after_token_error, prove_found, evidence_answer, and_then, unless_refused,
  check_record, refusal_of, is_unusable_ref, claim_reference, prove_consumption, have_evidence,
  spend_token, before_consumption, mtp_consume,
}

refusal-none : (c : MtpClaim) → refusal_of c ≡ none → (c ≡ mtp_claimed) ⊎ (c ≡ mtp_idempotent)
refusal-none mtp_claimed h = inl refl
refusal-none mtp_idempotent h = inr refl
refusal-none mtp_conflict h = cc
refusal-none mtp_missing h = cc

check-none :
    (i : ConsumeInput) (f : Option Authorization)
    → check_record i f ≡ none
    → (a : Authorization) × (f ≡ some a) × (a.action_hash ≡ i.action_hash)
check-none i none h = cc
check-none i (some a) h = elim (Bool-cases (str_eq a.action_hash i.action_hash)) [
  | inl e ↦ (a, refl, (eq_iff _ _).0 e)
  | inr e ↦ absurd (cc (rw e at h))
]

after_token_error-false :
    {S : Type 0} (e : MtpFault) (u t : S) → after_token_error e u ≡ (ok true, t) → ⊥
unfolding pure throw
after_token_error-false consumption_rejected u t h = cc (ap (λ z. z.0) h)
after_token_error-false _ u t h = cc (ap (λ z. z.0) h)

module _ (x : Externals) {S : Type 0} (o : MtpOptions S) where
  -- The record of the decision has the input's action hash, and the store has the claim of the input's
  -- reference, from now or from before.
  pub record IsReferenced (i : ConsumeInput) (s t : S) : Type 0 where
    pub usable : is_unusable_ref i.execution_ref ≡ false
    pub between : S
    pub authorization : Authorization
    pub found : o.store.read i.decision_id s ≡ (ok (some authorization), between)
    pub hash : authorization.action_hash ≡ i.action_hash
    pub claim : MtpClaim
    pub won : (claim ≡ mtp_claimed) ⊎ (claim ≡ mtp_idempotent)
    pub claimed : o.store.claim i.decision_id i.action_hash i.execution_ref between ≡ (ok claim, t)

  claim_reference-IsReferenced :
      (i : ConsumeInput) (s t : S) → claim_reference x o i s ≡ (ok none, t) → IsReferenced i s t
  unfolding claim_reference pure
  claim_reference-IsReferenced i s t h = elim (Bool-cases (is_unusable_ref i.execution_ref)) [
    | inl e ↦ absurd (cc (ap (λ z. z.0) (rw (claim_reference, e) at h)))
    | inr e ↦
        let (f, u, found, h1) =
          bind-returns (o.store.read i.decision_id) _ s t none (rw (claim_reference, e) at h) in
        elim (Option-cases (check_record i f)) [
          | inr (r, g) ↦ absurd (cc (ap (λ z. z.0) (rw g at h1)))
          | inl g ↦
              let (a, there, hash) = check-none i f g in
              let (c, w, claimed, h2) =
                bind-returns (o.store.claim i.decision_id i.action_hash i.execution_ref) _ u t none
                  (rw g at h1) in
              record {
                usable = e;
                between = u;
                authorization = a;
                found = found ∙ ap (λ z. (ok z, u)) there;
                hash = hash;
                claim = c;
                won = refusal-none c (cc (ap (λ z. z.0) h2));
                claimed = claimed ∙ ap (λ z. (ok c, z)) (ap (λ z. z.1) h2);
              }
        ]
  ]

  -- The authority consumed the token for the reference, and the store recorded its receipt.
  pub record IsConsumed (i : ConsumeInput) (a : Authorization) (s t : S) : Type 0 where
    pub receipt : ConsumptionReceipt
    pub between : S
    pub consumed : o.consume_token a i.execution_ref s ≡ (ok receipt, between)
    pub recorded : o.store.mark_consumed i.decision_id i.execution_ref receipt between ≡ (ok tt, t)

  -- The record read after the claim has evidence of a consumption, or it is made now.
  pub record IsEvident (i : ConsumeInput) (s t : S) : Type 0 where
    pub authorization : Authorization
    pub between : S
    pub found : o.store.read i.decision_id s ≡ (ok (some authorization), between)
    pub evidence :
        (((audit : String) × (authorization.consumption_audit_id ≡ some audit)) × (between ≡ t))
        ⊎ IsConsumed i authorization between t

  pub record IsProven (i : ConsumeInput) (s t : S) : Type 0 where
    pub middle : S
    pub referenced : IsReferenced i s middle
    pub evident : IsEvident i middle t

  spend_token-IsConsumed :
      (i : ConsumeInput) (a : Authorization) (s t : S)
      → spend_token x o i a s ≡ (ok true, t)
      → IsConsumed i a s t
  unfolding spend_token
  spend_token-IsConsumed i a s t h =
      let (answer, state) =
        catch-returns
          (o.consume_token a i.execution_ref >>= λ receipt.
            o.store.mark_consumed i.decision_id i.execution_ref receipt >> pure true)
          after_token_error s t true (λ e u k. after_token_error-false e u t k) h in
      let (r, u, consumed, h1) =
        bind-returns (o.consume_token a i.execution_ref) _ s t true
          (ap₂ (λ q v. (q, v)) answer state) in
      let (v, w, recorded, h2) =
        bind-returns (o.store.mark_consumed i.decision_id i.execution_ref r) (λ _. pure true) u t
          true h1 in
      pure-returns (λ q t. IsConsumed i a s t) true true w t h2
        (record { receipt = r; between = u; consumed = consumed; recorded = recorded })

  have_evidence-evidence :
      (i : ConsumeInput) (a : Authorization) (s t : S)
      → have_evidence x o i a s ≡ (ok true, t)
      → (((audit : String) × (a.consumption_audit_id ≡ some audit)) × (s ≡ t)) ⊎ IsConsumed i a s t
  unfolding have_evidence pure
  have_evidence-evidence i a s t h = elim (Option-cases a.consumption_audit_id) [
    | inl e ↦ inr (spend_token-IsConsumed i a s t (rw (have_evidence, e) at h))
    | inr (audit, e) ↦ inl ((audit, e), ap (λ z. z.1) (rw (have_evidence, e) at h))
  ]

  prove_found-IsEvident :
      (i : ConsumeInput) (f : Option Authorization) (s u t : S)
      → o.store.read i.decision_id s ≡ (ok f, u)
      → prove_found x o i f u ≡ (ok none, t)
      → IsEvident i s t
  unfolding prove_found pure
  prove_found-IsEvident i none s u t found h = absurd (cc (ap (λ z. z.0) h))
  prove_found-IsEvident i (some a) s u t found h =
      let (b, w, e, h1) = bind-returns (have_evidence x o i a) _ u t none h in proven b w e h1
    where
      proven :
          (b : Bool) (w : S)
          → have_evidence x o i a u ≡ (ok b, w)
          → evidence_answer b w ≡ (ok none, t)
          → IsEvident i s t
      proven true w e k = record {
        authorization = a;
        between = u;
        found = found;
        evidence = have_evidence-evidence i a u t (e ∙ ap (λ z. (ok true, z)) (ap (λ z. z.1) k));
      }
      proven false w e k = absurd (cc (ap (λ z. z.0) k))

  prove_consumption-IsEvident :
      (i : ConsumeInput) (s t : S) → prove_consumption x o i s ≡ (ok none, t) → IsEvident i s t
  unfolding prove_consumption
  prove_consumption-IsEvident i s t h =
      let (f, u, found, h1) = bind-returns (o.store.read i.decision_id) _ s t none h in
      prove_found-IsEvident i f s u t found h1

  then-second :
      (first second : Exec MtpFault S (Option ReasonCode)) (s t : S)
      → and_then x o first second s ≡ (ok none, t)
      → (u : S) × (first s ≡ (ok none, u)) × (second u ≡ (ok none, t))
  unfolding pure
  then-second first second s t h =
      let (r, u, e, k) = bind-returns first _ s t none h in split r u e k
    where
      split :
          (r : Option ReasonCode) (u : S)
          → first s ≡ (ok r, u)
          → unless_refused x o r second u ≡ (ok none, t)
          → (u : S) × (first s ≡ (ok none, u)) × (second u ≡ (ok none, t))
      split none u e k = (u, e, k)
      split (some r) u e k = absurd (cc (ap (λ z. z.0) k))

  -- The provider's `consume` is reached with this state.
  pub before_consumption-IsProven :
      (i : ConsumeInput) (s t : S) → before_consumption x o i s ≡ (ok none, t) → IsProven i s t
  unfolding before_consumption
  before_consumption-IsProven i s t h =
      let (u, first, second) =
        then-second (claim_reference x o i) (prove_consumption x o i) s t h in
      record {
        middle = u;
        referenced = claim_reference-IsReferenced i s u first;
        evident = prove_consumption-IsEvident i u t second;
      }

  abbrev pub with_provider : (ConsumeInput → Exec MtpFault S ConsumeResult) → MtpOptions S
  with_provider f = record o { consume = f }

  before-same :
      (i : ConsumeInput) (s : S) (f : ConsumeInput → Exec MtpFault S ConsumeResult)
      → before_consumption x (with_provider f) i s ≡ before_consumption x o i s
  unfolding before_consumption claim_reference prove_consumption prove_found have_evidence
      spend_token
  before-same i s f = refl

  -- Either a run of `consume` is proven, or its outcome does not depend on the `consume` of the local
  -- provider, which is then not called. Proven means: the decision's authorization was saved for the
  -- input's action hash, the store has the claim of the execution reference for the decision, from
  -- now or from before, and the authorization has the evidence of a consumption by the authority,
  -- or the authority consumed its token for the reference now and the store recorded its receipt.
  pub mtp_consume-IsProven :
      (i : ConsumeInput) (now : ℕ) (s : S)
      → ((t : S) × IsProven i s t)
        ⊎ ((f g : ConsumeInput → Exec MtpFault S ConsumeResult)
            → mtp_consume x (with_provider f) i now s ≡ mtp_consume x (with_provider g) i now s)
  unfolding mtp_consume ◌>>=◌
  mtp_consume-IsProven i now s =
      let t = (before_consumption x o i s).1 in
      elim (Result-cases (before_consumption x o i s).0) [
        | inl (e, stopped) ↦ inr (λ f g. rw (before-same i s f, before-same i s g, stopped) refl)
        | inr (none, passed) ↦ inl (t, before_consumption-IsProven i s t (ap (λ z. (z, t)) passed))
        | inr (some r, passed) ↦ inr (λ f g. rw (before-same i s f, before-same i s g, passed) refl)
      ]
