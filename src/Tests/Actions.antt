-- ===== src/Tests/Actions.antt =====
-- A policy, actions on it, a signer, and the stores' first state.
use inntris_x402_policy_adap.Base.{ℕ, String, none, some, List, [], ◌∷◌}
use inntris_x402_policy_adap.Base.Exec.{ok}
use inntris_x402_policy_adap.Core.Action.{Action, x402, X402Reference, x402_reference}
use inntris_x402_policy_adap.Core.Signing.{SigningProvider, Fresh}
use inntris_x402_policy_adap.Policy.Document.{Policy, Merchant, wednesday, thursday}
use inntris_x402_policy_adap.Policy.Provider.{Provider}
use inntris_x402_policy_adap.Tests.Samples.{repeat_byte, to_digits, toy_sign}

abbrev pub hash : String
hash = "sha256:aaaaaaaaaaaaaaaaaaaaaaaaaaaaaaaaaaaaaaaaaaaaaaaaaaaaaaaaaaaaaaaa"

abbrev pub reference : X402Reference
reference = record {
  resource = "https://shop.example/report";
  scheme = "exact";
  payment_requirements_hash = hash;
  payment_payload_hash = none;
}

abbrev pub paying : String → Action
paying amount = record {
  principal_id = "org";
  agent_id = "agent";
  rail = x402;
  transaction = record {
    amount = amount;
    asset = "USDC";
    network = "base";
    payee = "0xshop";
    purpose = "research";
  };
  protocol_reference = x402_reference reference;
  extensions = none;
}

abbrev pub shop : Merchant
shop = record {
  merchant_id = "shop";
  payees = "0xshop" ∷ [];
  purposes = "data" ∷ "research" ∷ [];
  resources = "https://shop.example/report" ∷ [];
  per_transaction_limit = "60.00";
}

abbrev pub policy : Policy
policy = record {
  policy_id = "p";
  policy_version = "1";
  expires_at = some 2000000;
  decision_ttl_seconds = 300;
  deny = none;
  rails = record {
    x402_policy = record { allowed_networks = "base" ∷ []; allowed_assets = "USDC" ∷ [] };
    ap2_policy = none;
    evm_policy = none;
    card_policy = none;
    mcp_policy = none;
  };
  per_transaction = "50.00";
  daily = "100.00";
  require_human_above = "25.00";
  request_ttl_seconds = none;
  merchants = shop ∷ [];
  time_windows = record {
    timezone = "UTC";
    allowed_weekdays = wednesday ∷ thursday ∷ [];
    start = "09:00";
    finish = "17:00";
  };
}

abbrev seed : List ℕ
seed = repeat_byte 32 7

abbrev pub signer : SigningProvider
signer = record {
  key_id = "key";
  public_key = seed;
  sign = λ payload. ok (to_digits (toy_sign seed payload));
}

abbrev pub provider : Provider
provider = record { policy = policy; policy_hash = hash; signer = signer }

-- The clock at `now`, and an id.
abbrev pub fresh : ℕ → String → Fresh
fresh now id = record { now = now; uuid = id; random_nonce = "nonce" }
