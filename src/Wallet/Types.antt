-- ===== src/Wallet/Types.antt =====
-- packages/wallet-signing-gate/src/types.ts: unsigned EVM transactions and the input of the gate.
use inntris_x402_policy_adap.Base.{
  ℕ, ◌+◌, ◌*◌, ◌-◌, ◌%◌, String, Bool, true, false, not, ◌&&◌, ◌||◌, Option, none, some, List, [],
  ◌∷◌, leb, ◌==◌, all, length,
}
use inntris_x402_policy_adap.Core.Json.{Json, Externals}
use inntris_x402_policy_adap.Core.Text.{
  codes, sized, identifier, is_lower_hex, strip_prefix, unsigned_digits, positive_digits,
}

pub data TransactionType : Type 0 where
  eip1559 legacy : TransactionType

abbrev pub type_name : TransactionType → String
type_name eip1559 = "eip1559"
type_name legacy = "legacy"

pub record AccessEntry : Type 0 where
  pub address : String
  pub storage_keys : List String

-- `EvmUnsignedTransaction`; `sender` and `recipient` are its fields `from` and `to`.
pub record EvmTransaction : Type 0 where
  pub kind : TransactionType
  pub chain_id : String
  pub sender : String
  pub recipient : String
  pub value_wei : String
  pub call_data : String
  pub nonce : String
  pub gas_limit : String
  pub max_fee_per_gas_wei : Option String
  pub max_priority_fee_per_gas_wei : Option String
  pub gas_price_wei : Option String
  pub access_list : List AccessEntry

pub record EvmWalletGateInput : Type 0 where
  pub transaction : EvmTransaction
  pub principal_id : String
  pub agent_id : String
  pub resource : String
  pub purpose : String
  pub asset : String
  pub asset_decimals : ℕ
  pub extensions : Option (List (String × Json))

-- `BigInt(value)` on decimal digits.
abbrev pub number_of : ℕ → List ℕ → ℕ
number_of acc [] = acc
number_of acc (c ∷ s) = number_of (acc * 10 + (c - b'0')) s

-- `Number.MAX_SAFE_INTEGER`
abbrev pub max_safe_integer : ℕ
max_safe_integer = 9007199254740991

abbrev is_hex : ℕ → Bool
is_hex c = is_lower_hex c || (leb b'A' c && leb c b'F')

abbrev hex_digits : Option (List ℕ) → Bool
hex_digits none = false
hex_digits (some rest) = all is_hex rest

abbrev after_0x : String → Option (List ℕ)
after_0x s = strip_prefix (codes "0x") (codes s)

abbrev digits_after : Option (List ℕ) → ℕ
digits_after none = 0
digits_after (some rest) = length rest

-- `/^0x[0-9a-fA-F]{n}$/`
unfoldable pub hex_text : ℕ → String → Bool
unfolding is_lower_hex strip_prefix
hex_text n s = hex_digits (after_0x s) && digits_after (after_0x s) == n

-- `/^0x(?:[0-9a-fA-F]{2})*$/`, and with `+` where there is at least one byte.
unfoldable pub hex_data : String → Bool
unfolding is_lower_hex strip_prefix
hex_data s = hex_digits (after_0x s) && digits_after (after_0x s) % 2 == 0

unfoldable pub signed_transaction_schema : String → Bool
unfolding hex_data
signed_transaction_schema s = hex_data s && leb 2 (digits_after (after_0x s))

unfoldable pub unsigned_integer : String → Bool
unfolding unsigned_digits
unsigned_integer s = unsigned_digits (codes s)

unfoldable pub safe_unsigned_integer : String → Bool
unfolding unsigned_integer
safe_unsigned_integer s = unsigned_integer s && leb (number_of 0 (codes s)) max_safe_integer

unfoldable pub safe_positive_integer : String → Bool
unfolding positive_digits
safe_positive_integer s = positive_digits (codes s) && leb (number_of 0 (codes s)) max_safe_integer

abbrev optional_integer : Option String → Bool
optional_integer none = true
optional_integer (some s) = unsigned_integer s

abbrev given : Option String → Bool
given none = false
given (some s) = true

abbrev no_entries : List AccessEntry → Bool
no_entries [] = true
no_entries (e ∷ l) = false

-- The `superRefine` of the transaction.
unfoldable pub fees_fit : EvmTransaction → TransactionType → Bool
fees_fit t eip1559 =
    given t.max_fee_per_gas_wei
    && given t.max_priority_fee_per_gas_wei
    && not (given t.gas_price_wei)
fees_fit t legacy =
    given t.gas_price_wei
    && not (given t.max_fee_per_gas_wei)
    && not (given t.max_priority_fee_per_gas_wei)
    && no_entries t.access_list

unfoldable pub access_entry_schema : AccessEntry → Bool
unfolding hex_text
access_entry_schema e = hex_text 40 e.address && all (hex_text 64) e.storage_keys

-- `EvmUnsignedTransactionSchema`
unfoldable pub transaction_schema : EvmTransaction → Bool
unfolding hex_text hex_data safe_positive_integer safe_unsigned_integer positive_digits fees_fit
    access_entry_schema
transaction_schema t =
    safe_positive_integer t.chain_id
    && hex_text 40 t.sender
    && hex_text 40 t.recipient
    && unsigned_integer t.value_wei
    && hex_data t.call_data
    && safe_unsigned_integer t.nonce
    && positive_digits (codes t.gas_limit)
    && optional_integer t.max_fee_per_gas_wei
    && optional_integer t.max_priority_fee_per_gas_wei
    && optional_integer t.gas_price_wei
    && all access_entry_schema t.access_list
    && fees_fit t t.kind

-- `EvmWalletGateInputSchema`
unfoldable pub input_schema : Externals → EvmWalletGateInput → Bool
unfolding transaction_schema identifier sized
input_schema x i =
    transaction_schema i.transaction
    && identifier i.principal_id
    && identifier i.agent_id
    && x.is_url i.resource
    && sized 1 128 i.purpose
    && sized 1 128 i.asset
    && leb i.asset_decimals 18
