-- ===== src/Policy/SameText.antt =====
-- `JSON.stringify(a) === JSON.stringify(b)` for two transactions or two protocol references that the
-- schemas returned, whose members stand in one order: all members are equal.
use inntris_x402_policy_adap.Base.{◌≡◌, Bool, true, false, ◌&&◌, arith, str_eq, eq_iff, option_eq}
use inntris_x402_policy_adap.Core.Action.{
  Transaction, ProtocolReference, x402_reference, ap2_reference, evm_reference, card_reference,
  mcp_reference,
}

unfoldable pub same_transaction : Transaction → Transaction → Bool
same_transaction a b =
    str_eq a.amount b.amount
    && str_eq a.asset b.asset
    && str_eq a.network b.network
    && str_eq a.payee b.payee
    && str_eq a.purpose b.purpose

unfoldable pub same_reference : ProtocolReference → ProtocolReference → Bool
same_reference (x402_reference a) (x402_reference b) =
    str_eq a.resource b.resource
    && str_eq a.scheme b.scheme
    && str_eq a.payment_requirements_hash b.payment_requirements_hash
    && option_eq a.payment_payload_hash b.payment_payload_hash
same_reference (ap2_reference a) (ap2_reference b) =
    str_eq a.resource b.resource
    && str_eq a.intent_verification_hash b.intent_verification_hash
    && str_eq a.checkout_mandate_hash b.checkout_mandate_hash
    && str_eq a.payment_mandate_hash b.payment_mandate_hash
    && str_eq a.checkout_hash b.checkout_hash
    && str_eq a.transaction_id b.transaction_id
same_reference (evm_reference a) (evm_reference b) =
    str_eq a.resource b.resource
    && str_eq a.transaction_type b.transaction_type
    && str_eq a.chain_id b.chain_id
    && str_eq a.sender b.sender
    && str_eq a.recipient b.recipient
    && str_eq a.value_wei b.value_wei
    && str_eq a.nonce b.nonce
    && str_eq a.unsigned_transaction_hash b.unsigned_transaction_hash
    && str_eq a.data_hash b.data_hash
same_reference (card_reference a) (card_reference b) =
    str_eq a.resource b.resource
    && str_eq a.authorisation_request_id b.authorisation_request_id
    && str_eq a.merchant_id b.merchant_id
    && str_eq a.card_network b.card_network
    && str_eq a.credential_reference_hash b.credential_reference_hash
    && str_eq a.authorisation_request_hash b.authorisation_request_hash
same_reference (mcp_reference a) (mcp_reference b) =
    str_eq a.resource b.resource
    && str_eq a.server_id b.server_id
    && str_eq a.tool_name b.tool_name
    && str_eq a.tool_call_id b.tool_call_id
    && str_eq a.tool_arguments_hash b.tool_arguments_hash
    && str_eq a.payment_reference_hash b.payment_reference_hash
same_reference _ _ = false

pub same_transaction-eq : (a b : Transaction) → same_transaction a b ≡ true → a ≡ b
unfolding same_transaction
same_transaction-eq a b h = ground (
  arith,
  eq_iff a.amount b.amount,
  eq_iff a.asset b.asset,
  eq_iff a.network b.network,
  eq_iff a.payee b.payee,
  eq_iff a.purpose b.purpose,
)
