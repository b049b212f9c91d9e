-- ===== src/Verifier/Laws.antt =====
-- What a positive answer of packages/decision-verifier/src/verify.ts means.
use inntris_x402_policy_adap.Base.{
  ℕ, ◌≤◌, ◌<◌, String, ◌≡◌, ◌↔◌, ◌⊎◌, ap, refl, Bool, true, false, Option, none, some, List, [],
  ◌∷◌, arith, Bool-cases, Option-cases, eq_iff, inl, inr, str_eq, ◌&&◌, leb, ltb, le→leb, lt→ltb,
  leb→le, ltb→lt, and-eq-true, sym, ◌∙◌,
}
use inntris_x402_policy_adap.Core.Json.{Externals, hash_canonical}
use inntris_x402_policy_adap.Core.Reasons.{
  ReasonCode, includes_reason, fingerprint_mismatch, action_hash_mismatch,
  decision_binding_mismatch, decision_expired, policy_version_mismatch,
  payment_requirements_mismatch,
}
use inntris_x402_policy_adap.Core.Action.{
  Action, action_schema, Rail, rail_eq, x402, ap2, evm, card, mcp, ProtocolReference, X402Reference,
  x402_reference,
}
use inntris_x402_policy_adap.Core.Encoding.{hash_action, transaction_json, reference_json}
use inntris_x402_policy_adap.Core.Decision.{Decision, decision_schema, KeyEntry, registry_schema}
use inntris_x402_policy_adap.Core.Signing.{
  calculate_decision_fingerprint, verify_decision_signature,
}
use inntris_x402_policy_adap.Verifier.{
  Checks, VerifyInput, every_check, add_reason_unless, safe_parse, binds_supplied_action,
  find_usable_key, signature_check, decision_checks, key_reason, decision_reasons, checked_result,
  schema_failure, verify_decision, version_matches, requirements_match,
}
use inntris_x402_policy_adap.Verifier.Keys.{
  IsUsable, find_usable_key-IsUsable, IsUsable-find_usable_key,
}

add_reason-nil :
    (b : Bool) (r : ReasonCode) (rs : List ReasonCode)
    → add_reason_unless b r rs ≡ []
    → (b ≡ true) × (rs ≡ [])
unfolding add_reason_unless includes_reason
add_reason-nil true r rs h = (refl, h)
add_reason-nil false r [] h = cc
add_reason-nil false r (c ∷ cs) h = ground arith

nil-add_reason :
    (b : Bool) (r : ReasonCode) (rs : List ReasonCode)
    → b ≡ true
    → rs ≡ []
    → add_reason_unless b r rs ≡ []
unfolding add_reason_unless
nil-add_reason true r rs e h = h
nil-add_reason false r rs e h = cc

-- No reason is given exactly when every check behind the reasons passed.
decision_reasons-nil :
    (c : Checks) (k : ReasonCode)
    → c.schema ≡ true
    → (decision_reasons c k ≡ []) ↔ (every_check c ≡ true)
unfolding decision_reasons
decision_reasons-nil c k s = (
  λ h.
      let (a, h1) = add_reason-nil c.payment_requirements payment_requirements_mismatch _ h in
      let (b, h2) = add_reason-nil c.policy_version policy_version_mismatch _ h1 in
      let (d, h3) = add_reason-nil c.expiry decision_expired _ h2 in
      let (e, h4) = add_reason-nil c.decision_binding decision_binding_mismatch _ h3 in
      let (f, h5) = add_reason-nil c.action_hash action_hash_mismatch _ h4 in
      let (g, h6) = add_reason-nil c.signature k _ h5 in
      let (i, h7) = add_reason-nil c.fingerprint fingerprint_mismatch _ h6 in
      rw (s, g, i, f, e, d, b, a),
  λ h. nil-add_reason c.payment_requirements payment_requirements_mismatch _ (ground arith) (
      nil-add_reason c.policy_version policy_version_mismatch _ (ground arith) (
        nil-add_reason c.expiry decision_expired _ (ground arith) (
          nil-add_reason c.decision_binding decision_binding_mismatch _ (ground arith) (
            nil-add_reason c.action_hash action_hash_mismatch _ (ground arith) (
              nil-add_reason c.signature k _ (ground arith)
                (nil-add_reason c.fingerprint fingerprint_mismatch [] (ground arith) refl)))))),
)

pub safe_parse-some :
    {A : Type 0} (f : A → Bool) (o : Option A) (a : A)
    → safe_parse f o ≡ some a
    → (o ≡ some a) × (f a ≡ true)
safe_parse-some f none a h = cc
safe_parse-some f (some b) a h = elim (Bool-cases (f b)) [
  | inl e ↦ let same : b ≡ a = ground arith in (ap some same, rw (← same) e)
  | inr e ↦ absurd (ground arith)
]

pub some-safe_parse :
    {A : Type 0} (f : A → Bool) (o : Option A) (a : A)
    → o ≡ some a
    → f a ≡ true
    → safe_parse f o ≡ some a
some-safe_parse f o a e h = rw (e, safe_parse) (rw h)

-- The inputs that pass the three schemas.
pub record Parsed (x : Externals) (i : VerifyInput) (d : Decision) (a : Action) (ks : List KeyEntry)
    : Type 0 where
  pub decision : (i.decision ≡ some d) × (decision_schema x d ≡ true)
  pub action : (i.action ≡ some a) × (action_schema x a ≡ true)
  pub registry : (i.key_registry ≡ some ks) × (registry_schema ks ≡ true)

pub Parsed-verify_decision :
    (x : Externals) (i : VerifyInput) (d : Decision) (a : Action) (ks : List KeyEntry)
    → Parsed x i d a ks
    → verify_decision x i ≡ checked_result x i d a ks
unfolding verify_decision
Parsed-verify_decision x i d a ks p = rw (
  some-safe_parse (decision_schema x) i.decision d p.decision.0 p.decision.1,
  some-safe_parse (action_schema x) i.action a p.action.0 p.action.1,
  some-safe_parse registry_schema i.key_registry ks p.registry.0 p.registry.1,
  verify_decision,
)

pub verify_decision-cases :
    (x : Externals) (i : VerifyInput)
    → (verify_decision x i ≡ schema_failure)
      ⊎ ((d : Decision) × (a : Action) × (ks : List KeyEntry) × Parsed x i d a ks)
unfolding verify_decision
verify_decision-cases x i = elim (Option-cases (safe_parse (decision_schema x) i.decision)) [
  | inl e ↦ inl (rw (e, verify_decision))
  | inr (d, e) ↦ elim (Option-cases (safe_parse (action_schema x) i.action)) [
    | inl f ↦ inl (rw (e, f, verify_decision))
    | inr (a, f) ↦ elim (Option-cases (safe_parse registry_schema i.key_registry)) [
      | inl g ↦ inl (rw (e, f, g, verify_decision))
      | inr (ks, g) ↦ inr (
        d,
        a,
        ks,
        record {
          decision = safe_parse-some (decision_schema x) i.decision d e;
          action = safe_parse-some (action_schema x) i.action a f;
          registry = safe_parse-some registry_schema i.key_registry ks g;
        },
      )
    ]
  ]
]

-- `verifyDecision` gives no reason exactly when it answers that the decision is valid.
pub verify_decision-reasons_iff :
    (x : Externals) (i : VerifyInput)
    → ((verify_decision x i).reason_codes ≡ []) ↔ ((verify_decision x i).valid ≡ true)
verify_decision-reasons_iff x i = elim (verify_decision-cases x i) [
  | inl e ↦ rw e (λ h. cc, λ h. cc)
  | inr (d, a, ks, p) ↦ rw (Parsed-verify_decision x i d a ks p) (
      unfold checked_result decision_checks in
      decision_reasons-nil (decision_checks x i d a ks) (key_reason (find_usable_key x d ks)) refl)
]

rail_eq-eq : (a b : Rail) → rail_eq a b ≡ true → a ≡ b
rail_eq-eq x402 x402 h = refl
rail_eq-eq ap2 ap2 h = refl
rail_eq-eq evm evm h = refl
rail_eq-eq card card h = refl
rail_eq-eq mcp mcp h = refl
rail_eq-eq _ _ h = cc

rail_eq_refl : (a : Rail) → rail_eq a a ≡ true
rail_eq_refl x402 = refl
rail_eq_refl ap2 = refl
rail_eq_refl evm = refl
rail_eq_refl card = refl
rail_eq_refl mcp = refl

module _ (x : Externals) (i : VerifyInput) (d : Decision) (a : Action) (ks : List KeyEntry) where
  -- What a valid decision is, said without the checks.
  pub record IsVerified : Type 0 where
    pub decision_parsed : decision_schema x d ≡ true
    pub action_parsed : action_schema x a ≡ true
    pub registry_parsed : registry_schema ks ≡ true
    pub key : KeyEntry
    pub usable : IsUsable x d ks key
    pub signature : verify_decision_signature x d (x.base64url_decode key.public_key) ≡ true
    pub fingerprint : calculate_decision_fingerprint x d.body ≡ d.decision_fingerprint
    pub action_hash : hash_action x a ≡ d.action_hash
    pub principal : d.principal_id ≡ a.principal_id
    pub agent : d.agent_id ≡ a.agent_id
    pub rail : d.rail ≡ a.rail
    pub transaction :
        hash_canonical x (transaction_json d.transaction)
        ≡ hash_canonical x (transaction_json a.transaction)
    pub reference :
        hash_canonical x (reference_json d.protocol_reference)
        ≡ hash_canonical x (reference_json a.protocol_reference)
    pub issued : d.issued_at ≤ i.at
    pub unexpired : i.at < d.expires_at
    pub version : (v : String) → i.expected_policy_version ≡ some v → d.policy_version ≡ v
    pub requirements :
        (h : String)
        → i.expected_payment_requirements_hash ≡ some h
        → (r : X402Reference) × (d.protocol_reference ≡ x402_reference r)
          × (r.payment_requirements_hash ≡ h)

  signature-IsUsable :
      (k : KeyEntry)
      → registry_schema ks ≡ true
      → IsUsable x d ks k
      → verify_decision_signature x d (x.base64url_decode k.public_key) ≡ true
      → signature_check x d (find_usable_key x d ks) ≡ true
  unfolding signature_check
  signature-IsUsable k r u h = rw (IsUsable-find_usable_key x d ks k r u) h

  IsUsable-signature :
      (o : Option (List ℕ))
      → find_usable_key x d ks ≡ o
      → signature_check x d o ≡ true
      → (k : KeyEntry) × IsUsable x d ks k
        × (verify_decision_signature x d (x.base64url_decode k.public_key) ≡ true)
  unfolding signature_check
  IsUsable-signature none e h = cc
  IsUsable-signature (some b) e h =
      let (k, u, same) = find_usable_key-IsUsable x d ks b e in (k, u, rw same h)

  version_iff :
      (o : Option String)
      → (version_matches o d.policy_version ≡ true)
        ↔ ((v : String) → o ≡ some v → d.policy_version ≡ v)
  version_iff none = (λ h v e. cc, λ h. refl)
  version_iff (some v) = (
    λ h w e. let same : v ≡ w = cc in (eq_iff d.policy_version v).0 h ∙ same,
    λ h. (eq_iff d.policy_version v).1 (h v refl),
  )

  requirements_iff :
      (o : Option String) (r : ProtocolReference)
      → (requirements_match o r ≡ true) ↔ (
          (h : String)
          → o ≡ some h
          → (q : X402Reference) × (r ≡ x402_reference q) × (q.payment_requirements_hash ≡ h))
  requirements_iff none r = (λ h v e. absurd (cc), λ h. refl)
  requirements_iff (some v) (x402_reference q) = (
    λ h w e. let same : v ≡ w = cc in (q, refl, (eq_iff q.payment_requirements_hash v).0 h ∙ same),
    λ h.
        let (q', e, same) = h v refl in
        (eq_iff q.payment_requirements_hash v).1
          (let back : q ≡ q' = cc in ap (λ t. t.payment_requirements_hash) back ∙ same),
  )
  requirements_iff (some v) _ = (λ h. cc, λ h. let (q, e, same) = h v refl in absurd (cc))

  -- The eight checks hold exactly when the decision is verified in that sense.
  IsVerified-checks : IsVerified → every_check (decision_checks x i d a ks) ≡ true
  unfolding decision_checks binds_supplied_action
  IsVerified-checks v = rw (
    signature-IsUsable v.key v.registry_parsed v.usable v.signature,
    (eq_iff (calculate_decision_fingerprint x d.body) d.decision_fingerprint).1 v.fingerprint,
    (eq_iff (hash_action x a) d.action_hash).1 v.action_hash,
    (eq_iff d.principal_id a.principal_id).1 v.principal,
    (eq_iff d.agent_id a.agent_id).1 v.agent,
    v.rail,
    rail_eq_refl a.rail,
    (eq_iff (hash_canonical x (transaction_json d.transaction))
          (hash_canonical x (transaction_json a.transaction))).1
        v.transaction,
    (eq_iff (hash_canonical x (reference_json d.protocol_reference))
          (hash_canonical x (reference_json a.protocol_reference))).1
        v.reference,
    le→leb d.issued_at i.at v.issued,
    lt→ltb i.at d.expires_at v.unexpired,
    (version_iff i.expected_policy_version).1 v.version,
    (requirements_iff i.expected_payment_requirements_hash d.protocol_reference).1 v.requirements,
  )

  checks-IsVerified :
      Parsed x i d a ks → every_check (decision_checks x i d a ks) ≡ true → IsVerified
  unfolding decision_checks binds_supplied_action
  checks-IsVerified p h =
      let (r1, requirements_ok) =
        and-eq-true _ (requirements_match i.expected_payment_requirements_hash d.protocol_reference)
          h in
      let (r2, version_ok) =
        and-eq-true _ (version_matches i.expected_policy_version d.policy_version) r1 in
      let (r3, expiry_ok) = and-eq-true _ (leb d.issued_at i.at && ltb i.at d.expires_at) r2 in
      let (r4, binding_ok) = and-eq-true _ (binds_supplied_action x d a) r3 in
      let (r5, hash_ok) = and-eq-true _ (str_eq (hash_action x a) d.action_hash) r4 in
      let (signature_ok, fingerprint_ok) =
        and-eq-true (signature_check x d (find_usable_key x d ks))
          (str_eq (calculate_decision_fingerprint x d.body) d.decision_fingerprint) r5 in
      let (issued_ok, unexpired_ok) =
        and-eq-true (leb d.issued_at i.at) (ltb i.at d.expires_at) expiry_ok in
      let (b1, reference_ok) =
        and-eq-true _
          (str_eq (hash_canonical x (reference_json d.protocol_reference))
            (hash_canonical x (reference_json a.protocol_reference)))
          binding_ok in
      let (b2, transaction_ok) =
        and-eq-true _
          (str_eq (hash_canonical x (transaction_json d.transaction))
            (hash_canonical x (transaction_json a.transaction)))
          b1 in
      let (b3, rail_ok) = and-eq-true _ (rail_eq d.rail a.rail) b2 in
      let (principal_ok, agent_ok) =
        and-eq-true (str_eq d.principal_id a.principal_id) (str_eq d.agent_id a.agent_id) b3 in
      let (k, usable, signature) = IsUsable-signature (find_usable_key x d ks) refl signature_ok in
      record {
        decision_parsed = p.decision.1;
        action_parsed = p.action.1;
        registry_parsed = p.registry.1;
        key = k;
        usable = usable;
        signature = signature;
        fingerprint = (eq_iff _ _).0 fingerprint_ok;
        action_hash = (eq_iff _ _).0 hash_ok;
        principal = (eq_iff _ _).0 principal_ok;
        agent = (eq_iff _ _).0 agent_ok;
        rail = rail_eq-eq d.rail a.rail rail_ok;
        transaction = (eq_iff _ _).0 transaction_ok;
        reference = (eq_iff _ _).0 reference_ok;
        issued = leb→le d.issued_at i.at issued_ok;
        unexpired = ltb→lt i.at d.expires_at unexpired_ok;
        version = (version_iff i.expected_policy_version).0 version_ok;
        requirements =
            (requirements_iff i.expected_payment_requirements_hash d.protocol_reference).0
              requirements_ok;
      }

-- On objects of the expected shapes, `verifyDecision` answers valid exactly when all three meet
-- their schemas, the registry holds a usable key (the decision's key id, not revoked, valid at the
-- time of issue, 32 bytes with its stated fingerprint) under which the signature checks, the
-- fingerprint and the action hash are those recomputed, the decision restates the action's
-- principal, agent, rail, and the hashes of its transaction and protocol reference, the time
-- lies from the issue on and before the expiry, and the expected policy version and the expected
-- x402 requirements hash, where given, are the decision's.
pub verify_decision-IsVerified_iff :
    (x : Externals) (i : VerifyInput) (d : Decision) (a : Action) (ks : List KeyEntry)
    → i.decision ≡ some d
    → i.action ≡ some a
    → i.key_registry ≡ some ks
    → ((verify_decision x i).valid ≡ true) ↔ IsVerified x i d a ks
verify_decision-IsVerified_iff x i d a ks ed ea ek = (
  λ h. elim (verify_decision-cases x i) [
    | inl e ↦ absurd (cc (ap (λ r. r.valid) (sym e) ∙ h))
    | inr (d', a', ks', p) ↦
        let same_d : d' ≡ d = cc (p.decision.0, ed) in
        let same_a : a' ≡ a = cc (p.action.0, ea) in
        let same_k : ks' ≡ ks = cc (p.registry.0, ek) in
        let q : Parsed x i d a ks = record {
          decision = (ed, rw (← same_d) p.decision.1);
          action = (ea, rw (← same_a) p.action.1);
          registry = (ek, rw (← same_k) p.registry.1);
        } in
        checks-IsVerified x i d a ks q
          (unfold checked_result in rw (Parsed-verify_decision x i d a ks q) at h)
  ],
  λ v.
      rw
        (Parsed-verify_decision x i d a ks (record {
          decision = (ed, v.decision_parsed);
          action = (ea, v.action_parsed);
          registry = (ek, v.registry_parsed);
        }))
        (unfold checked_result in IsVerified-checks x i d a ks v),
)
