-- ===== src/Tests/Replay.antt =====
-- The nonce store on a repeated consumption.
use inntris_x402_policy_adap.Base.{String, refl, [], ◌∷◌, inl, inr, List}
use inntris_x402_policy_adap.Base.Maps.{get, set}
use inntris_x402_policy_adap.Core.Replay.{
  NonceConsumption, ConsumeResult, consume_nonce, consume_all,
}
use inntris_x402_policy_adap.Core.Replay.Once.{SameExecution, consume_all-SameExecution}

abbrev consumption : String → NonceConsumption
consumption ref = record {
  decision_id = "d1";
  nonce = "n1";
  action_hash = "sha256:00";
  execution_ref = ref;
  expires_at = 9000;
  consumed_at = 1000;
}

-- The second call names another execution and is refused; the third repeats the first.
abbrev calls : List NonceConsumption
calls = consumption "r1" ∷ consumption "r2" ∷ consumption "r1" ∷ []

abbrev answer : NonceConsumption × ConsumeResult
answer = (consumption "r1", (consume_nonce (consumption "r1") []).0)

abbrev repeated : NonceConsumption × ConsumeResult
repeated =
    (consumption "r1", (consume_nonce (consumption "r1") (consume_nonce (consumption "r1") []).1).0)

consume_all-SameExecution_example : SameExecution answer.0 repeated.0
unfolding consume_all consume_nonce get set
consume_all-SameExecution_example =
    consume_all-SameExecution calls [] answer repeated (inl refl) (inr (inr (inl refl))) refl refl
      refl
