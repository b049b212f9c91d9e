-- ===== src/Wallet/Exact.antt =====
-- What packages/wallet-signing-gate/src/verification.ts has found when it accepts a signed transaction.
use inntris_x402_policy_adap.Base.{
  String, ◌≡◌, refl, ap, true, Option, none, some, List, [], ◌∷◌, inl, inr, Option-cases, str_eq,
  eq_iff, option_eq, and-eq-true,
}
use inntris_x402_policy_adap.Base.Exec.{ok, Result-cases}
use inntris_x402_policy_adap.Core.Text.{lower_text}
use inntris_x402_policy_adap.Core.Signing.{or_else}
use inntris_x402_policy_adap.Wallet.Types.{AccessEntry, EvmTransaction, type_name}
use inntris_x402_policy_adap.Wallet.Binding.{normalise_evm_transaction}
use inntris_x402_policy_adap.Wallet.Verification.{
  ParsedTransaction, Viem, normalise_access_list, same_texts, same_access_list, lower_option,
  carries, verify_parsed, verify_signed_evm_transaction,
}

option_eq-eq : (a b : Option String) → option_eq a b ≡ true → a ≡ b
option_eq-eq none none h = refl
option_eq-eq (some a) (some b) h = ap some ((eq_iff a b).0 h)
option_eq-eq none (some b) h = cc
option_eq-eq (some a) none h = cc

same_texts-eq : (l m : List String) → same_texts l m ≡ true → l ≡ m
same_texts-eq [] [] h = refl
same_texts-eq (a ∷ l) (b ∷ m) h =
    let (e, rest) = and-eq-true (str_eq a b) (same_texts l m) h in
    let head = (eq_iff a b).0 e in let tail = same_texts-eq l m rest in cc
same_texts-eq [] (b ∷ m) h = cc
same_texts-eq (a ∷ l) [] h = cc

same_access_list-eq : (l m : List AccessEntry) → same_access_list l m ≡ true → l ≡ m
same_access_list-eq [] [] h = refl
same_access_list-eq (a ∷ l) (b ∷ m) h =
    let (entry, rest) = and-eq-true _ (same_access_list l m) h in
    let (e, keys) =
      and-eq-true (str_eq a.address b.address) (same_texts a.storage_keys b.storage_keys) entry in
    let address = (eq_iff a.address b.address).0 e in
    let storage = same_texts-eq a.storage_keys b.storage_keys keys in
    let tail = same_access_list-eq l m rest in cc
same_access_list-eq [] (b ∷ m) h = cc
same_access_list-eq (a ∷ l) [] h = cc

-- Every field of the parsed transaction is that of the unsigned one, and the recovered address is
-- its sender.
pub record Carries (p : ParsedTransaction) (recovered : String) (t : EvmTransaction) : Type 0 where
  pub signer : lower_text recovered ≡ t.sender
  pub kind : p.kind ≡ type_name t.kind
  pub chain_id : or_else p.chain_id "undefined" ≡ t.chain_id
  pub recipient : lower_option p.recipient ≡ some t.recipient
  pub value : or_else p.value "0" ≡ t.value_wei
  pub call_data : lower_text (or_else p.call_data "0x") ≡ t.call_data
  pub nonce : or_else p.nonce "undefined" ≡ t.nonce
  pub gas : p.gas ≡ some t.gas_limit
  pub max_fee : p.max_fee_per_gas ≡ t.max_fee_per_gas_wei
  pub priority_fee : p.max_priority_fee_per_gas ≡ t.max_priority_fee_per_gas_wei
  pub gas_price : p.gas_price ≡ t.gas_price_wei
  pub access_list : normalise_access_list p.access_list ≡ t.access_list

carries-Carries :
    (p : ParsedTransaction) (recovered : String) (t : EvmTransaction)
    → carries p recovered t ≡ true
    → Carries p recovered t
unfolding carries
carries-Carries p recovered t h =
    let (r0, access_list) =
      and-eq-true _ (same_access_list (normalise_access_list p.access_list) t.access_list) h in
    let (r1, gas_price) = and-eq-true _ (option_eq p.gas_price t.gas_price_wei) r0 in
    let (r2, priority_fee) =
      and-eq-true _ (option_eq p.max_priority_fee_per_gas t.max_priority_fee_per_gas_wei) r1 in
    let (r3, max_fee) = and-eq-true _ (option_eq p.max_fee_per_gas t.max_fee_per_gas_wei) r2 in
    let (r4, gas) = and-eq-true _ (option_eq p.gas (some t.gas_limit)) r3 in
    let (r5, nonce) = and-eq-true _ (str_eq (or_else p.nonce "undefined") t.nonce) r4 in
    let (r6, call_data) =
      and-eq-true _ (str_eq (lower_text (or_else p.call_data "0x")) t.call_data) r5 in
    let (r7, value) = and-eq-true _ (str_eq (or_else p.value "0") t.value_wei) r6 in
    let (r8, recipient) =
      and-eq-true _ (option_eq (lower_option p.recipient) (some t.recipient)) r7 in
    let (r9, chain_id) = and-eq-true _ (str_eq (or_else p.chain_id "undefined") t.chain_id) r8 in
    let (signer, kind) =
      and-eq-true (str_eq (lower_text recovered) t.sender) (str_eq p.kind (type_name t.kind)) r9 in
    record {
      signer = (eq_iff _ _).0 signer;
      kind = (eq_iff _ _).0 kind;
      chain_id = (eq_iff _ _).0 chain_id;
      recipient = option_eq-eq _ _ recipient;
      value = (eq_iff _ _).0 value;
      call_data = (eq_iff _ _).0 call_data;
      nonce = (eq_iff _ _).0 nonce;
      gas = option_eq-eq _ _ gas;
      max_fee = option_eq-eq _ _ max_fee;
      priority_fee = option_eq-eq _ _ priority_fee;
      gas_price = option_eq-eq _ _ gas_price;
      access_list = same_access_list-eq _ _ access_list;
    }

-- When `verifySignedEvmTransaction` accepts signed bytes, viem parses them and recovers an address, the
-- address is the sender of the expected transaction's normal form, and the parsed type, chain,
-- recipient, value, data, nonce, gas, fees and access list are its own.
pub verify_signed-Carries :
    (v : Viem) (signed : String) (expected : EvmTransaction)
    → verify_signed_evm_transaction v signed expected ≡ ok true
    → (t : EvmTransaction) × (p : ParsedTransaction) × (recovered : String)
      × (normalise_evm_transaction expected ≡ ok t)
      × (v.parse_transaction signed ≡ some p)
      × (v.recover_transaction_address signed ≡ some recovered)
      × Carries p recovered t
unfolding verify_signed_evm_transaction verify_parsed
verify_signed-Carries v signed expected h =
    elim (Result-cases (normalise_evm_transaction expected)) [
      | inl (e, f) ↦ absurd (cc (rw (verify_signed_evm_transaction, f) at h))
      | inr (t, f) ↦
          let g = rw (verify_signed_evm_transaction, f) at h in
          elim (Option-cases (v.parse_transaction signed)) [
            | inl n ↦ absurd (cc (rw (n, verify_parsed) at g))
            | inr (p, a) ↦ elim (Option-cases (v.recover_transaction_address signed)) [
              | inl n ↦ absurd (cc (rw (a, n, verify_parsed) at g))
              | inr (r, b) ↦
                  (t, p, r, f, a, b, carries-Carries p r t (cc (rw (a, b, verify_parsed) at g)))
            ]
          ]
    ]
