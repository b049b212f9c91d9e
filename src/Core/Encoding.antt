-- ===== src/Core/Encoding.antt =====
-- The JSON of packages/decision-core/src/schemas.ts's actions, and `hashAction` of canonical.ts.
use inntris_x402_policy_adap.Base.{String, Option, none, some, List}
use inntris_x402_policy_adap.Core.Json.{
  Json, str, obj, Fields, end, field, nullable, fields_of, Externals, hash_canonical,
}
use inntris_x402_policy_adap.Core.Action.{
  rail_name, Transaction, ProtocolReference, x402_reference, ap2_reference, evm_reference,
  card_reference, mcp_reference, Action,
}

abbrev pub transaction_json : Transaction → Json
transaction_json t = obj (
    field "amount" (str t.amount) (
      field "asset" (str t.asset) (
        field "network" (str t.network)
          (field "payee" (str t.payee) (field "purpose" (str t.purpose) end)))))

unfoldable pub reference_json : ProtocolReference → Json
reference_json (x402_reference r) = obj (
    field "type" (str "x402") (
      field "resource" (str r.resource) (
        field "scheme" (str r.scheme) (
          field "payment_requirements_hash" (str r.payment_requirements_hash)
            (field "payment_payload_hash" (nullable r.payment_payload_hash) end)))))
reference_json (ap2_reference r) = obj (
    field "type" (str "ap2") (
      field "protocol_version" (str "0.2") (
        field "resource" (str r.resource) (
          field "mode" (str "autonomous") (
            field "intent_verification_hash" (str r.intent_verification_hash) (
              field "checkout_mandate_hash" (str r.checkout_mandate_hash) (
                field "payment_mandate_hash" (str r.payment_mandate_hash) (
                  field "checkout_hash" (str r.checkout_hash)
                    (field "transaction_id" (str r.transaction_id) end)))))))))
reference_json (evm_reference r) = obj (
    field "type" (str "evm") (
      field "resource" (str r.resource) (
        field "transaction_type" (str r.transaction_type) (
          field "chain_id" (str r.chain_id) (
            field "from" (str r.sender) (
              field "to" (str r.recipient) (
                field "value_wei" (str r.value_wei) (
                  field "nonce" (str r.nonce) (
                    field "unsigned_transaction_hash" (str r.unsigned_transaction_hash)
                      (field "data_hash" (str r.data_hash) end))))))))))
reference_json (card_reference r) = obj (
    field "type" (str "card") (
      field "resource" (str r.resource) (
        field "authorisation_request_id" (str r.authorisation_request_id) (
          field "merchant_id" (str r.merchant_id) (
            field "card_network" (str r.card_network) (
              field "credential_reference_hash" (str r.credential_reference_hash)
                (field "authorisation_request_hash" (str r.authorisation_request_hash) end)))))))
reference_json (mcp_reference r) = obj (
    field "type" (str "mcp") (
      field "resource" (str r.resource) (
        field "server_id" (str r.server_id) (
          field "tool_name" (str r.tool_name) (
            field "tool_call_id" (str r.tool_call_id) (
              field "tool_arguments_hash" (str r.tool_arguments_hash)
                (field "payment_reference_hash" (str r.payment_reference_hash) end)))))))

abbrev extension_fields : Option (List (String × Json)) → Fields
extension_fields none = end
extension_fields (some m) = field "extensions" (obj (fields_of m)) end

unfoldable pub action_json : Action → Json
unfolding reference_json
action_json a = obj (
    field "version" (str "inntris-action-v1") (
      field "principal_id" (str a.principal_id) (
        field "agent_id" (str a.agent_id) (
          field "action_type" (str "financial_transaction") (
            field "transaction" (transaction_json a.transaction) (
              field "rail" (str (rail_name a.rail)) (
                field "protocol_reference" (reference_json a.protocol_reference)
                  (extension_fields a.extensions))))))))

module _ (x : Externals) where
  -- `hashAction` on an action that has been parsed.
  unfoldable pub hash_action : Action → String
  unfolding action_json hash_canonical
  hash_action a = hash_canonical x (action_json a)
