-- ===== src/Wallet/Verification.antt =====
-- packages/wallet-signing-gate/src/verification.ts: what the wallet signed is what was authorised.
use inntris_x402_policy_adap.Base.{
  String, Bool, true, false, ◌&&◌, Option, none, some, List, [], ◌∷◌, map, str_eq, option_eq,
}
use inntris_x402_policy_adap.Base.Exec.{Result, ok, err}
use inntris_x402_policy_adap.Core.Text.{lower_text}
use inntris_x402_policy_adap.Core.Signing.{Fault, or_else}
use inntris_x402_policy_adap.Wallet.Types.{AccessEntry, EvmTransaction, type_name}
use inntris_x402_policy_adap.Wallet.Binding.{normalise_evm_transaction}

-- What `parseTransaction` of viem yields; a number is its decimal text.
pub record ParsedTransaction : Type 0 where
  pub kind : String
  pub chain_id : Option String
  pub recipient : Option String
  pub value : Option String
  pub call_data : Option String
  pub nonce : Option String
  pub gas : Option String
  pub max_fee_per_gas : Option String
  pub max_priority_fee_per_gas : Option String
  pub gas_price : Option String
  pub access_list : Option (List AccessEntry)

-- The functions of viem that the package calls; `none` is a throw.
pub record Viem : Type 0 where
  pub parse_transaction : String → Option ParsedTransaction
  pub recover_transaction_address : String → Option String
  pub keccak256 : String → String

-- `normaliseAccessList`
abbrev pub normalise_access_list : Option (List AccessEntry) → List AccessEntry
normalise_access_list l =
    map
      (λ e. record { address = lower_text e.address; storage_keys = map lower_text e.storage_keys })
      (or_else l [])

abbrev pub same_texts : List String → List String → Bool
same_texts [] [] = true
same_texts (a ∷ l) (b ∷ m) = str_eq a b && same_texts l m
same_texts _ _ = false

-- `JSON.stringify(a) === JSON.stringify(b)` on access lists.
abbrev pub same_access_list : List AccessEntry → List AccessEntry → Bool
same_access_list [] [] = true
same_access_list (a ∷ l) (b ∷ m) =
    str_eq a.address b.address && same_texts a.storage_keys b.storage_keys && same_access_list l m
same_access_list _ _ = false

abbrev pub lower_option : Option String → Option String
lower_option none = none
lower_option (some s) = some (lower_text s)

-- The tests on the parsed transaction and the recovered address.
unfoldable pub carries : ParsedTransaction → String → EvmTransaction → Bool
carries p recovered t =
    str_eq (lower_text recovered) t.sender
    && str_eq p.kind (type_name t.kind)
    && str_eq (or_else p.chain_id "undefined") t.chain_id
    && option_eq (lower_option p.recipient) (some t.recipient)
    && str_eq (or_else p.value "0") t.value_wei
    && str_eq (lower_text (or_else p.call_data "0x")) t.call_data
    && str_eq (or_else p.nonce "undefined") t.nonce
    && option_eq p.gas (some t.gas_limit)
    && option_eq p.max_fee_per_gas t.max_fee_per_gas_wei
    && option_eq p.max_priority_fee_per_gas t.max_priority_fee_per_gas_wei
    && option_eq p.gas_price t.gas_price_wei
    && same_access_list (normalise_access_list p.access_list) t.access_list

-- The body of `try`.
unfoldable pub verify_parsed : Option ParsedTransaction → Option String → EvmTransaction → Bool
unfolding carries
verify_parsed (some p) (some recovered) t = carries p recovered t
verify_parsed _ _ t = false

-- `verifySignedEvmTransaction`
unfoldable pub verify_signed_evm_transaction : Viem → String → EvmTransaction → Result Fault Bool
unfolding verify_parsed
verify_signed_evm_transaction v signed expected = elim (normalise_evm_transaction expected) [
  | err e ↦ err e
  | ok t ↦ ok (verify_parsed (v.parse_transaction signed) (v.recover_transaction_address signed) t)
]
