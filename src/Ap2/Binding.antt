-- ===== src/Ap2/Binding.antt =====
-- packages/ap2-runtime-gate/src/binding.ts: the action of verified mandates.
use inntris_x402_policy_adap.Base.{ℕ, String, Option, some, List, [], leb}
use inntris_x402_policy_adap.Base.Exec.{Result, ok, bind, require}
use inntris_x402_policy_adap.Base.Maps.{set}
use inntris_x402_policy_adap.Core.Text.{codes, unsigned_digits}
use inntris_x402_policy_adap.Core.Json.{Json, str, obj, field, end, Externals, hash_canonical}
use inntris_x402_policy_adap.Core.Action.{Action, ap2, ap2_reference, action_schema}
use inntris_x402_policy_adap.Core.Signing.{Fault, type_error, parse, or_else}
use inntris_x402_policy_adap.Adapter.Binding.{decimal_text}
use inntris_x402_policy_adap.Ap2.Types.{
  Verification, Ap2Input, presentation_schema, verification_schema,
}

-- `formatMinorUnitAmount`
unfoldable pub format_minor_amount : String → ℕ → Result Fault String
format_minor_amount amount decimals =
    bind (require (unsigned_digits (codes amount)) type_error)
      λ _. bind (require (leb decimals 18) type_error) λ _. ok (decimal_text amount decimals)

module _ (x : Externals) where
  -- `intentVerificationHash`
  abbrev pub intent_verification_hash : Verification → String
  intent_verification_hash v = hash_canonical x (
      obj (
        field "version" (str "inntris-ap2-intent-verification-v1") (
          field "checkout_open_mandate_hash" (str v.intent.checkout_open_mandate_hash) (
            field "payment_open_mandate_hash" (str v.intent.payment_open_mandate_hash) (
              field "checkout_mandate_hash" (str v.checkout.mandate_hash)
                (field "payment_mandate_hash" (str v.payment.mandate_hash) end))))))

  -- The extensions, with the verified checkout under `inntris_ap2`.
  abbrev pub ap2_extensions : Option (List (String × Json)) → Verification → List (String × Json)
  ap2_extensions e v =
      set "inntris_ap2"
        (obj (
          field "sdk_commit" (str v.sdk.commit) (
            field "checkout_id" (str v.checkout.checkout_id)
              (field "payment_instrument_type" (str v.payment.payment_instrument_type) end))))
        (or_else e [])

  -- The action that is parsed at the end.
  unfoldable pub ap2_action : Ap2Input → Verification → String → Action
  ap2_action i v amount = record {
    principal_id = i.principal_id;
    agent_id = i.agent_id;
    rail = ap2;
    transaction = record {
      amount = amount;
      asset = v.payment.currency;
      network = v.payment.payment_instrument_type;
      payee = v.payment.payee_id;
      purpose = i.purpose;
    };
    protocol_reference = ap2_reference (record {
      resource = i.resource;
      intent_verification_hash = intent_verification_hash v;
      checkout_mandate_hash = v.checkout.mandate_hash;
      payment_mandate_hash = v.payment.mandate_hash;
      checkout_hash = v.checkout.checkout_hash;
      transaction_id = v.payment.transaction_id;
    });
    extensions = some (ap2_extensions i.extensions v);
  }

  -- `actionFromAP2`
  unfoldable pub action_from_ap2 : Ap2Input → Verification → ℕ → Result Fault Action
  unfolding format_minor_amount ap2_action
  action_from_ap2 i raw decimals = bind (parse presentation_schema i.mandates) λ _.
      bind (parse verification_schema raw) λ v.
        bind (format_minor_amount v.payment.amount_minor decimals)
          λ amount. parse (action_schema x) (ap2_action i v amount)
