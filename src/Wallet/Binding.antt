-- ===== src/Wallet/Binding.antt =====
-- packages/wallet-signing-gate/src/binding.ts: the action of an unsigned transaction.
use Prim.Native.String.{◌++◌ as join}
use inntris_x402_policy_adap.Base.{ℕ, String, Option, some, List, [], ◌∷◌, leb, map}
use inntris_x402_policy_adap.Base.Exec.{Result, ok, bind, require}
use inntris_x402_policy_adap.Base.Maps.{set}
use inntris_x402_policy_adap.Core.Text.{codes, unsigned_digits, lower_text}
use inntris_x402_policy_adap.Core.Json.{
  Json, str, arr, obj, Items, nil, cons, field, end, Externals, nullable, texts, hash_canonical,
}
use inntris_x402_policy_adap.Core.Action.{Action, evm, evm_reference, action_schema}
use inntris_x402_policy_adap.Core.Signing.{Fault, type_error, parse, or_else}
use inntris_x402_policy_adap.Adapter.Binding.{decimal_text}
use inntris_x402_policy_adap.Wallet.Types.{
  type_name, AccessEntry, EvmTransaction, EvmWalletGateInput, transaction_schema, input_schema,
}

abbrev lower_entry : AccessEntry → AccessEntry
lower_entry e = record {
  address = lower_text e.address;
  storage_keys = map lower_text e.storage_keys;
}

abbrev pub lower_fields : EvmTransaction → EvmTransaction
lower_fields t = record t {
  sender = lower_text t.sender;
  recipient = lower_text t.recipient;
  call_data = lower_text t.call_data;
  access_list = map lower_entry t.access_list;
}

-- `normaliseEvmTransaction`
unfoldable pub normalise_evm_transaction : EvmTransaction → Result Fault EvmTransaction
normalise_evm_transaction t = bind (parse transaction_schema t) λ p. ok (lower_fields p)

abbrev access_items : List AccessEntry → Items
access_items [] = nil
access_items (e ∷ l) =
    cons
      (obj
        (field "address" (str e.address) (field "storage_keys" (arr (texts e.storage_keys)) end)))
      (access_items l)

abbrev pub unsigned_json : EvmTransaction → Json
unsigned_json t = obj (
    field "type" (str (type_name t.kind)) (
      field "chain_id" (str t.chain_id) (
        field "from" (str t.sender) (
          field "to" (str t.recipient) (
            field "value_wei" (str t.value_wei) (
              field "data" (str t.call_data) (
                field "nonce" (str t.nonce) (
                  field "gas_limit" (str t.gas_limit) (
                    field "max_fee_per_gas_wei" (nullable t.max_fee_per_gas_wei) (
                      field "max_priority_fee_per_gas_wei" (nullable t.max_priority_fee_per_gas_wei)
                        (field "gas_price_wei" (nullable t.gas_price_wei)
                          (field "access_list" (arr (access_items t.access_list)) end))))))))))))

-- `formatEvmAmount`
unfoldable pub format_evm_amount : String → ℕ → Result Fault String
format_evm_amount value decimals =
    bind (require (unsigned_digits (codes value)) type_error)
      λ _. bind (require (leb decimals 18) type_error) λ _. ok (decimal_text value decimals)

module _ (x : Externals) where
  -- `evmUnsignedTransactionHash`
  unfoldable pub evm_unsigned_transaction_hash : EvmTransaction → Result Fault String
  unfolding normalise_evm_transaction
  evm_unsigned_transaction_hash t =
      bind (normalise_evm_transaction t) λ n. ok (hash_canonical x (unsigned_json n))

  -- The extensions, with the exact transaction under `inntris_evm`.
  abbrev pub evm_extensions : Option (List (String × Json)) → EvmTransaction → List (String × Json)
  evm_extensions e t =
      set "inntris_evm" (obj (field "unsigned_transaction" (unsigned_json t) end)) (or_else e [])

  -- The action that is parsed at the end.
  unfoldable pub evm_action : EvmWalletGateInput → EvmTransaction → String → String → Action
  evm_action i t amount unsigned = record {
    principal_id = i.principal_id;
    agent_id = i.agent_id;
    rail = evm;
    transaction = record {
      amount = amount;
      asset = i.asset;
      network = join "eip155:" t.chain_id;
      payee = t.recipient;
      purpose = i.purpose;
    };
    protocol_reference = evm_reference (record {
      resource = i.resource;
      transaction_type = type_name t.kind;
      chain_id = t.chain_id;
      sender = t.sender;
      recipient = t.recipient;
      value_wei = t.value_wei;
      nonce = t.nonce;
      unsigned_transaction_hash = unsigned;
      data_hash = hash_canonical x (str t.call_data);
    });
    extensions = some (evm_extensions i.extensions t);
  }

  -- `actionFromEvmTransaction`
  unfoldable pub action_from_evm : EvmWalletGateInput → Result Fault Action
  unfolding normalise_evm_transaction format_evm_amount evm_unsigned_transaction_hash evm_action
  action_from_evm input = bind (parse (input_schema x) input) λ i.
      bind (normalise_evm_transaction i.transaction) λ t.
        bind (format_evm_amount t.value_wei i.asset_decimals) λ amount.
          bind (evm_unsigned_transaction_hash t)
            λ unsigned. parse (action_schema x) (evm_action i t amount unsigned)
