-- ===== src/Core/Replay.antt =====
-- packages/decision-core/src/provider.ts: the results of consumption, and the in-memory nonce store.
pub mod Once
use Prim.Native.String.{◌++◌}
use inntris_x402_policy_adap.Base.{
  ℕ, String, Bool, true, false, Option, none, some, List, [], ◌∷◌, str_eq, ◌&&◌, if◌then◌else◌,
}
use inntris_x402_policy_adap.Base.Maps.{Map, get, set}
use inntris_x402_policy_adap.Core.Reasons.{ReasonCode, nonce_already_consumed}

pub data ConsumeStatus : Type 0 where
  consumed idempotent conflict rejected : ConsumeStatus

pub record ConsumeInput : Type 0 where
  pub decision_id : String
  pub action_hash : String
  pub execution_ref : String

pub record ConsumeResult : Type 0 where
  pub success : Bool
  pub status : ConsumeStatus
  pub decision_id : String
  pub execution_ref : String
  pub consumed_at : Option ℕ
  pub reason_code : Option ReasonCode

pub record NonceConsumption : Type 0 where
  pub decision_id : String
  pub nonce : String
  pub action_hash : String
  pub execution_ref : String
  pub expires_at : ℕ
  pub consumed_at : ℕ

abbrev pub nonce_key : NonceConsumption → String
nonce_key c = c.decision_id ++ ":" ++ c.nonce

-- What the store answers when the key is taken.
unfoldable pub repeat_result : NonceConsumption → NonceConsumption → ConsumeResult
repeat_result existing input =
    if str_eq existing.action_hash input.action_hash
      && str_eq existing.execution_ref input.execution_ref
    then record {
      success = true;
      status = idempotent;
      decision_id = input.decision_id;
      execution_ref = input.execution_ref;
      consumed_at = some existing.consumed_at;
      reason_code = none;
    }
    else record {
      success = false;
      status = conflict;
      decision_id = input.decision_id;
      execution_ref = input.execution_ref;
      consumed_at = none;
      reason_code = some nonce_already_consumed;
    }

-- `InMemoryNonceStore.consume`
unfoldable pub consume_nonce :
    NonceConsumption → Map NonceConsumption → ConsumeResult × Map NonceConsumption
unfolding repeat_result
consume_nonce input m = elim (get (nonce_key input) m) [
  | none ↦ (
    record {
      success = true;
      status = consumed;
      decision_id = input.decision_id;
      execution_ref = input.execution_ref;
      consumed_at = some input.consumed_at;
      reason_code = none;
    },
    set (nonce_key input) input m,
  )
  | some existing ↦ (repeat_result existing input, m)
]

-- A history of calls, each with its answer.
abbrev pub Trace : Type 0
Trace = List (NonceConsumption × ConsumeResult)

unfoldable pub consume_all : List NonceConsumption → Map NonceConsumption → Trace
consume_all [] m = []
consume_all (c ∷ cs) m = let (r, m') = consume_nonce c m in (c, r) ∷ consume_all cs m'
