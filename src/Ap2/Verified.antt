-- ===== src/Ap2/Verified.antt =====
-- When packages/ap2-runtime-gate/src/gate.ts accepts the official verification of the mandates, and
-- what action it makes of it.
use mathlib.Core.Path.{ap₂}
use inntris_x402_policy_adap.Base.{
  ℕ, ◌≤◌, ◌<◌, ◌+◌, ◌*◌, String, ◌≡◌, inl, inr, sym, ap, ◌∙◌, true, ◌&&◌, none, some, ltb, leb,
  ltb→lt, leb→le, eq_iff, and-eq-true, Bool-cases, Option-cases,
}
use inntris_x402_policy_adap.Base.Exec.{Result, ok, err}
use inntris_x402_policy_adap.Base.Maps.{get}
use inntris_x402_policy_adap.Core.Json.{Externals}
use inntris_x402_policy_adap.Core.Action.{Action, action_schema}
use inntris_x402_policy_adap.Core.Signing.{Fault, parse}
use inntris_x402_policy_adap.Core.Signing.Facts.{bind-ok, parse-ok, parse-then}
use inntris_x402_policy_adap.Execution.{demand, gate_error}
use inntris_x402_policy_adap.Execution.Admission.{demand-ok, demand-then, then-lifted, then-guarded}
use inntris_x402_policy_adap.Base.Returns.{lift-returns}
use inntris_x402_policy_adap.Ap2.Types.{
  TrustMaterial, VerificationRequest, Verification, RawVerification, shaped, misshapen, Ap2Input,
  presentation_schema, request_schema, verification_schema,
}
use inntris_x402_policy_adap.Ap2.Binding.{format_minor_amount, ap2_action, action_from_ap2}
use inntris_x402_policy_adap.Ap2.Gate

-- The verification is at most `age` seconds old, not from the future, and no mandate has expired.
pub record IsCurrent (v : Verification) (now age : ℕ) : Type 0 where
  pub past : v.verified_at ≤ now
  pub recent : now ≤ v.verified_at + age * 1000
  pub checkout : now < v.checkout.expires_at
  pub payment : now < v.payment.expires_at

pub require-IsCurrent :
    (v : Verification) (now age : ℕ) (u : Unit {0})
    → Gate.require_current_verification v now age ≡ ok u
    → IsCurrent v now age
unfolding Gate.require_current_verification
require-IsCurrent v now age u h =
    let (both, h1) =
      demand-then (leb v.verified_at now && leb now (v.verified_at + age * 1000))
        Gate.ap2_verification_stale
        (λ _.
          demand (ltb now v.checkout.expires_at && ltb now v.payment.expires_at)
            Gate.ap2_mandate_expired)
        u h in
    let (past, recent) = and-eq-true _ _ both in
    let (checkout, payment) = and-eq-true _ _ (demand-ok _ Gate.ap2_mandate_expired u h1) in
    record {
      past = leb→le _ _ past;
      recent = leb→le _ _ recent;
      checkout = ltb→lt _ _ checkout;
      payment = ltb→lt _ _ payment;
    }

-- The mandates are those of the expected merchant, amount and currency, the intent was verified, and
-- the payment is for the checkout.
pub record IsExact (i : Ap2Input) (v : Verification) : Type 0 where
  pub intent : v.intent.verified ≡ true
  pub merchant : v.checkout.merchant_id ≡ i.expected_merchant_id
  pub payee : v.payment.payee_id ≡ i.expected_merchant_id
  pub amount : v.payment.amount_minor ≡ i.expected_amount_minor
  pub currency : v.payment.currency ≡ i.expected_currency
  pub checkout : v.payment.transaction_id ≡ v.checkout.checkout_hash

require-IsExact :
    (i : Ap2Input) (v : Verification) (u : Unit {0})
    → Gate.require_exact_binding i v ≡ ok u
    → IsExact i v
unfolding Gate.require_exact_binding
require-IsExact i v u h =
    let (intent, h1) = demand-then v.intent.verified Gate.ap2_intent_invalid _ u h in
    let (who, h2) = demand-then _ Gate.ap2_checkout_binding_mismatch _ u h1 in
    let (who, same) = and-eq-true _ _ who in
    let (merchant, payee) = and-eq-true _ _ who in
    let (what, checkout) = and-eq-true _ _ (demand-ok _ Gate.ap2_payment_binding_mismatch u h2) in
    let (amount, currency) = and-eq-true _ _ what in
    record {
      intent = intent;
      merchant = (eq_iff _ _).0 merchant;
      payee = (eq_iff _ _).0 payee;
      amount = (eq_iff _ _).0 amount;
      currency = (eq_iff _ _).0 currency;
      checkout = (eq_iff _ _).0 checkout;
    }

malformed-err :
    {A : Type 0} (raw : RawVerification) (v : Verification) → Gate.malformed raw ≡ ok v → A
malformed-err raw v h =
    let (named, k) =
      demand-then (Gate.has_provenance raw) Gate.ap2_sdk_provenance_mismatch
        (λ _. err (gate_error Gate.ap2_verification_failed none)) v h in
    absurd (cc k)

-- The verifier's answer is accepted only as it is, and when it has the shape of a verification.
parse-accepts :
    (raw : RawVerification) (v : Verification)
    → Gate.parse_verification raw ≡ ok v
    → (raw ≡ shaped v) × (verification_schema v ≡ true)
unfolding Gate.parse_verification
parse-accepts (misshapen r c) v h = malformed-err (misshapen r c) v h
parse-accepts (shaped w) v h = elim (Bool-cases (verification_schema w)) [
  | inr e ↦ malformed-err (shaped w) v (rw (Gate.parse_verification, e) at h)
  | inl e ↦
      let same : w ≡ v = cc (rw (Gate.parse_verification, e) at h) in
      (ap shaped same, rw (← same) e)
]

module _ (x : Externals) {S : Type 0} (o : Gate.Ap2Options S) where
  -- The merchant's trust material was found, and the verifier returned this verification for the
  -- input's mandates under it.
  pub record IsOfficial (i : Ap2Input) (now : ℕ) (s t : S) (v : Verification) : Type 0 where
    pub trust : TrustMaterial
    pub resolved : S
    pub trusted : o.resolve i.expected_merchant_id s ≡ (ok trust, resolved)
    pub request : VerificationRequest
    pub asked : request.mandates ≡ i.mandates
    pub under : request.trust ≡ trust
    pub verified : o.verify request resolved ≡ (ok (shaped v), t)
    pub accepted : verification_schema v ≡ true

  pub verify_mandates-IsOfficial :
      (i : Ap2Input) (now : ℕ) (s t : S) (v : Verification)
      → Gate.verify_mandates x o i now s ≡ (ok v, t)
      → IsOfficial i now s t v
  unfolding Gate.verify_mandates
  verify_mandates-IsOfficial i now s t v h =
      let (trust, s1, trusted, h1) = then-guarded _ (o.resolve i.expected_merchant_id) _ s t v h in
      let (request, parsed, h2) = then-lifted (parse request_schema _) _ s1 t v h1 in
      let (valid, same) = parse-ok request_schema _ request parsed in
      let (raw, s2, asked, h3) = then-guarded _ (o.verify request) _ s1 t v h2 in
      let (made, still) = lift-returns (Gate.parse_verification raw) s2 t v h3 in
      let (raw_is, accepted) = parse-accepts raw v made in
      record {
        trust = trust;
        resolved = s1;
        trusted = trusted;
        request = request;
        asked = ap (λ r. r.mandates) (sym same);
        under = ap (λ r. r.trust) (sym same);
        verified = asked ∙ ap₂ (λ r w. (ok r, w)) raw_is still;
        accepted = accepted;
      }

  -- The verification is current and exact, its currency has minor units, and the action is the one
  -- of the input and the verification, with the mandate's amount in these units.
  pub record IsBound (i : Ap2Input) (v : Verification) (now : ℕ) (a : Action) : Type 0 where
    pub current : IsCurrent v now (Gate.max_age x o)
    pub exact : IsExact i v
    pub decimals : ℕ
    pub units : get v.payment.currency o.currency_decimals ≡ some decimals
    pub amount : String
    pub formatted : format_minor_amount v.payment.amount_minor decimals ≡ ok amount
    pub made : a ≡ ap2_action x i v amount
    pub valid : action_schema x a ≡ true

  decimals-ok :
      (v : Verification) (n : ℕ)
      → Gate.decimals_of x o v ≡ ok n
      → get v.payment.currency o.currency_decimals ≡ some n
  decimals-ok v n h = elim (Option-cases (get v.payment.currency o.currency_decimals)) [
    | inl e ↦ absurd (cc (rw (Gate.decimals_of, e) at h))
    | inr (m, e) ↦ let same : m ≡ n = cc (rw (Gate.decimals_of, e) at h) in e ∙ ap some same
  ]

  or_unbound-ok :
      {A : Type 0} (r : Result Fault A) (a : A) → Gate.or_unbound x o r ≡ ok a → r ≡ ok a
  or_unbound-ok (ok b) a h = cc
  or_unbound-ok (err e) a h = cc

  pub bind_evidence-IsBound :
      (i : Ap2Input) (v : Verification) (now : ℕ) (a : Action)
      → Gate.bind_evidence x o i v now ≡ ok a
      → IsBound i v now a
  unfolding Gate.bind_evidence action_from_ap2
  bind_evidence-IsBound i v now a h =
      let (u, current, h1) =
        bind-ok (Gate.require_current_verification v now (Gate.max_age x o)) _ a h in
      let (w, exact, h2) = bind-ok (Gate.require_exact_binding i v) _ a h1 in
      let (decimals, units, h3) = bind-ok (Gate.decimals_of x o v) _ a h2 in
      let h4 = or_unbound-ok (action_from_ap2 x i v decimals) a h3 in
      let (known, h5) = parse-then presentation_schema i.mandates _ a h4 in
      let (valid, h6) = parse-then verification_schema v _ a h5 in
      let (amount, formatted, h7) =
        bind-ok (format_minor_amount v.payment.amount_minor decimals) _ a h6 in
      let (accepted, same) = parse-ok (action_schema x) (ap2_action x i v amount) a h7 in
      record {
        current = require-IsCurrent v now (Gate.max_age x o) u current;
        exact = require-IsExact i v w exact;
        decimals = decimals;
        units = decimals-ok v decimals units;
        amount = amount;
        formatted = formatted;
        made = sym same;
        valid = rw same at accepted;
      }
