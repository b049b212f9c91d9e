-- ===== src/Core/Action.antt =====
-- Actions of packages/decision-core/src/schemas.ts: the data, what the schemas accept. A field whose schema is one literal (`version`, `action_type`) is not stored.
use inntris_x402_policy_adap.Base.{String, Bool, true, ◌&&◌, ◌||◌, Option, none, some, List, str_eq}
use inntris_x402_policy_adap.Core.Text.{
  codes, sized, identifier, hash_text, address_text, base64url_text, positive_digits,
  unsigned_digits, canonical_amount,
}
use inntris_x402_policy_adap.Core.Json.{Json, Externals}

pub data Rail : Type 0 where
  x402 ap2 evm card mcp : Rail

abbrev pub rail_name : Rail → String
rail_name x402 = "x402"
rail_name ap2 = "ap2"
rail_name evm = "evm"
rail_name card = "card"
rail_name mcp = "mcp"

pub record Transaction : Type 0 where
  pub amount : String
  pub asset : String
  pub network : String
  pub payee : String
  pub purpose : String

pub record X402Reference : Type 0 where
  pub resource : String
  pub scheme : String
  pub payment_requirements_hash : String
  pub payment_payload_hash : Option String

pub record Ap2Reference : Type 0 where
  pub resource : String
  pub intent_verification_hash : String
  pub checkout_mandate_hash : String
  pub payment_mandate_hash : String
  pub checkout_hash : String
  pub transaction_id : String

pub record EvmReference : Type 0 where
  pub resource : String
  pub transaction_type : String
  pub chain_id : String
  pub sender : String
  pub recipient : String
  pub value_wei : String
  pub nonce : String
  pub unsigned_transaction_hash : String
  pub data_hash : String

pub record CardReference : Type 0 where
  pub resource : String
  pub authorisation_request_id : String
  pub merchant_id : String
  pub card_network : String
  pub credential_reference_hash : String
  pub authorisation_request_hash : String

pub record McpReference : Type 0 where
  pub resource : String
  pub server_id : String
  pub tool_name : String
  pub tool_call_id : String
  pub tool_arguments_hash : String
  pub payment_reference_hash : String

pub data ProtocolReference : Type 0 where
  x402_reference : X402Reference → ProtocolReference
  ap2_reference : Ap2Reference → ProtocolReference
  evm_reference : EvmReference → ProtocolReference
  card_reference : CardReference → ProtocolReference
  mcp_reference : McpReference → ProtocolReference

-- The rail that the discriminated union pairs with a reference.
abbrev pub reference_rail : ProtocolReference → Rail
reference_rail (x402_reference r) = x402
reference_rail (ap2_reference r) = ap2
reference_rail (evm_reference r) = evm
reference_rail (card_reference r) = card
reference_rail (mcp_reference r) = mcp

abbrev pub resource_of : ProtocolReference → String
resource_of (x402_reference r) = r.resource
resource_of (ap2_reference r) = r.resource
resource_of (evm_reference r) = r.resource
resource_of (card_reference r) = r.resource
resource_of (mcp_reference r) = r.resource

pub record Action : Type 0 where
  pub principal_id : String
  pub agent_id : String
  pub rail : Rail
  pub transaction : Transaction
  pub protocol_reference : ProtocolReference
  pub extensions : Option (List (String × Json))

abbrev pub rail_eq : Rail → Rail → Bool
rail_eq a b = str_eq (rail_name a) (rail_name b)

unfoldable pub transaction_schema : Transaction → Bool
transaction_schema t =
    canonical_amount t.amount
    && sized 1 128 t.asset
    && sized 1 128 t.network
    && sized 1 512 t.payee
    && sized 1 128 t.purpose

abbrev nullable_hash : Option String → Bool
nullable_hash none = true
nullable_hash (some h) = hash_text h

module _ (x : Externals) where
  unfoldable pub reference_schema : ProtocolReference → Bool
  reference_schema (x402_reference r) =
      x.is_url r.resource
      && sized 1 64 r.scheme
      && hash_text r.payment_requirements_hash
      && nullable_hash r.payment_payload_hash
  reference_schema (ap2_reference r) =
      x.is_url r.resource
      && hash_text r.intent_verification_hash
      && hash_text r.checkout_mandate_hash
      && hash_text r.payment_mandate_hash
      && base64url_text r.checkout_hash
      && base64url_text r.transaction_id
  reference_schema (evm_reference r) =
      x.is_url r.resource
      && (str_eq r.transaction_type "eip1559" || str_eq r.transaction_type "legacy")
      && positive_digits (codes r.chain_id)
      && address_text r.sender
      && address_text r.recipient
      && unsigned_digits (codes r.value_wei)
      && unsigned_digits (codes r.nonce)
      && hash_text r.unsigned_transaction_hash
      && hash_text r.data_hash
  reference_schema (card_reference r) =
      x.is_url r.resource
      && identifier r.authorisation_request_id
      && identifier r.merchant_id
      && sized 1 64 r.card_network
      && hash_text r.credential_reference_hash
      && hash_text r.authorisation_request_hash
  reference_schema (mcp_reference r) =
      x.is_url r.resource
      && identifier r.server_id
      && identifier r.tool_name
      && identifier r.tool_call_id
      && hash_text r.tool_arguments_hash
      && hash_text r.payment_reference_hash

  -- `InntrisActionV1Schema`: also the reference is that of the rail.
  unfoldable pub action_schema : Action → Bool
  unfolding transaction_schema reference_schema
  action_schema a =
      identifier a.principal_id
      && identifier a.agent_id
      && transaction_schema a.transaction
      && rail_eq (reference_rail a.protocol_reference) a.rail
      && reference_schema a.protocol_reference
