-- ===== src/Execution/Issued.antt =====
-- A receipt that a gate creates passes the verification of packages/a2a-settlement-gate/src/receipt.ts.
use inntris_x402_policy_adap.Base.{
  ℕ, ◌≤◌, ◌<◌, ◌≡◌, ◌≢◌, refl, sym, ap, ◌∙◌, Bool, true, false, some, List, arith, str_eq, eq_iff,
  length,
}
use inntris_x402_policy_adap.Base.Exec.{ok}
use inntris_x402_policy_adap.Core.Json.{Externals, canonical_bytes}
use inntris_x402_policy_adap.Core.Decision.{KeyEntry, KeyStatus, revoked, registry_schema}
use inntris_x402_policy_adap.Core.Signing.{
  SigningProvider, public_key_fingerprint, verify_ed25519_signature,
}
use inntris_x402_policy_adap.Core.Signing.Facts.{bind-ok, parse-ok}
use inntris_x402_policy_adap.Verifier.{is_revoked}
use inntris_x402_policy_adap.Verifier.Keys.{find-of_In, lt-before_limit, registry-distinct}
use inntris_x402_policy_adap.Verifier.Laws.{some-safe_parse}
use inntris_x402_policy_adap.Verifier.Issued.{IsRegistered, IsHonest}
use inntris_x402_policy_adap.Execution.Receipt.{
  ReceiptForm, Receipt, calculate_receipt_fingerprint, signable_receipt, receipt_schema,
  create_receipt, key_in_force, key_matches, receipt_signature, check_with_key, check_receipt,
  verify_receipt,
}

not_revoked : (s : KeyStatus) → s ≢ revoked → is_revoked s ≡ false
not_revoked revoked h = absurd (h refl)
not_revoked _ h = refl

module _ (x : Externals) {B : Type 0} (form : ReceiptForm B) where
  -- What `create_receipt` has done when it returns.
  pub record IsSealed (b : B) (signer : SigningProvider) (r : Receipt B) : Type 0 where
    pub body_is : r.body ≡ b
    pub fingerprint : calculate_receipt_fingerprint x form r.body ≡ r.receipt_fingerprint
    pub signature :
        signer.sign (canonical_bytes x (signable_receipt x form r.body r.receipt_fingerprint))
        ≡ ok r.signature
    pub accepted : receipt_schema x form r ≡ true

  pub create_receipt-IsSealed :
      (b : B) (signer : SigningProvider) (r : Receipt B)
      → create_receipt x form b signer ≡ ok r
      → IsSealed b signer r
  unfolding create_receipt
  create_receipt-IsSealed b signer r h =
      let print = calculate_receipt_fingerprint x form b in
      let (signature, signed, parsed) =
        bind-ok (signer.sign (canonical_bytes x (signable_receipt x form b print))) _ r h in
      let (accepted, same) = parse-ok (receipt_schema x form) _ r parsed in
      rw (← same)
        (record { body_is = refl; fingerprint = refl; signature = signed; accepted = accepted })

  in_force :
      (r : Receipt B) (k : KeyEntry)
      → k.status ≢ revoked
      → k.not_before ≤ form.executed_at r.body
      → ((t : ℕ) → k.not_after ≡ some t → form.executed_at r.body < t)
      → key_in_force x form r k ≡ true
  in_force r k s f u =
      ground
        (arith, lt-before_limit k.not_after (form.executed_at r.body) u, not_revoked k.status s)

  check-valid :
      (r : Receipt B) (k : KeyEntry) (fingerprint : Bool)
      → key_in_force x form r k ≡ true
      → key_matches x form k ≡ true
      → receipt_signature x form r k ≡ true
      → (check_with_key x form r fingerprint k).valid ≡ fingerprint
  unfolding check_with_key
  check-valid r k true e f g = rw (check_with_key, e, f) g
  check-valid r k false e f g = rw (check_with_key, e, f) refl

  registered-matches :
      (k : KeyEntry) (signer : SigningProvider)
      → x.base64url_decode k.public_key ≡ signer.public_key
      → length signer.public_key ≡ 32
      → public_key_fingerprint x signer.public_key ≡ k.fingerprint
      → key_matches x form k ≡ true
  registered-matches k signer e size print =
      rw e (ground (arith, eq_iff (public_key_fingerprint x signer.public_key) k.fingerprint))

  honest-signature :
      (r : Receipt B) (k : KeyEntry) (signer : SigningProvider)
      → x.base64url_decode k.public_key ≡ signer.public_key
      → verify_ed25519_signature x
          (canonical_bytes x (signable_receipt x form r.body r.receipt_fingerprint))
          r.signature
          signer.public_key
        ≡ true
      → receipt_signature x form r k ≡ true
  unfolding verify_ed25519_signature
  honest-signature r k signer e h = rw e (ground arith)

  sealed-valid :
      (b : B) (signer : SigningProvider) (r : Receipt B) (ks : List KeyEntry)
      → IsSealed b signer r
      → form.key_id b ≡ signer.key_id
      → IsHonest x signer
      → IsRegistered x ks signer (form.executed_at b)
      → registry_schema ks ≡ true
      → (check_receipt x form r ks).valid ≡ true
  unfolding check_receipt
  sealed-valid b signer r ks s same honest reg distinct =
      let k = reg.entry in
      let found =
        find-of_In (form.key_id r.body) k ks (registry-distinct ks distinct) reg.listed
          (reg.identity ∙ sym same ∙ ap form.key_id (sym s.body_is)) in
      let force = in_force r k reg.not_revoked (rw s.body_is reg.from) (rw s.body_is reg.until) in
      let matches = registered-matches k signer reg.key reg.size reg.fingerprint in
      let signed = honest-signature r k signer reg.key (honest _ r.signature s.signature) in
      rw (found, check_receipt)
        (check-valid r k
            (str_eq (calculate_receipt_fingerprint x form r.body) r.receipt_fingerprint) force
            matches signed
          ∙ (eq_iff _ _).1 s.fingerprint)

-- A receipt that is created verifies against any registry with the signer's key in force at the time
-- of execution, provided that the receipt names that key and that the signer's signatures check
-- under it.
pub create_receipt-verify :
    (x : Externals) {B : Type 0} (form : ReceiptForm B) (b : B) (signer : SigningProvider)
    (r : Receipt B) (ks : List KeyEntry)
    → create_receipt x form b signer ≡ ok r
    → form.key_id b ≡ signer.key_id
    → IsHonest x signer
    → IsRegistered x ks signer (form.executed_at b)
    → registry_schema ks ≡ true
    → (verify_receipt x form (some r) (some ks)).valid ≡ true
unfolding verify_receipt
create_receipt-verify x form b signer r ks made same honest reg distinct =
    let s = create_receipt-IsSealed x form b signer r made in
    rw
      (
        some-safe_parse (receipt_schema x form) (some r) r refl s.accepted,
        some-safe_parse registry_schema (some ks) ks refl distinct,
        verify_receipt,
      )
      (sealed-valid x form b signer r ks s same honest reg distinct)
