-- ===== src/Policy/Stores.antt =====
-- packages/policy-engine: decision-store.ts, state-store.ts and the spend states of evaluate.ts. The
-- provider takes the stores as an interface; the in-memory classes are one implementation of it.
use Prim.Native.Char.{code}
use Prim.Native.String.{◌++◌}
use inntris_x402_policy_adap.Base.{
  ℕ, String, Bool, Option, none, some, List, [], ◌∷◌, ◌==◌, if◌then◌else◌, includes,
}
use inntris_x402_policy_adap.Base.Exec.{Exec, pure}
use inntris_x402_policy_adap.Base.Maps.{Map, get, set}
use inntris_x402_policy_adap.Core.Action.{Action}
use inntris_x402_policy_adap.Core.Decision.{Decision}
use inntris_x402_policy_adap.Core.Signing.{Fault}
use inntris_x402_policy_adap.Core.Replay.{ConsumeResult, NonceConsumption, consume_nonce}
use inntris_x402_policy_adap.Policy.Evaluate.{Decimals}

pub record StoredDecision : Type 0 where
  pub decision : Decision
  pub action : Action

pub data ApprovalClaim : Type 0 where
  claimed already_claimed : ApprovalClaim

pub record RecordSpendInput : Type 0 where
  pub principal_id : String
  pub day_key : String
  pub amount : String

pub record AtomicConsumptionInput : Type 0 where
  pub consumption : NonceConsumption
  pub spend : RecordSpendInput
  pub daily_limit : String

-- `DecisionStateStore`, `SpendState`, `NonceStore`, and `consumeAndRecordSpend` where the provider
-- was built with a `stateStore`.
pub record Stores (S : Type 0) : Type 0 where
  pub save : StoredDecision → Exec Fault S (Unit {0})
  pub find_decision : String → Exec Fault S (Option StoredDecision)
  pub claim_approval : String → Exec Fault S ApprovalClaim
  pub daily_spend : String → String → Exec Fault S String
  pub record_spend : RecordSpendInput → Exec Fault S (Unit {0})
  pub consume : NonceConsumption → Exec Fault S ConsumeResult
  pub consume_and_record_spend : Option (AtomicConsumptionInput → Exec Fault S ConsumeResult)

-- The maps and the set behind the in-memory classes.
pub record Memory : Type 0 where
  pub decisions : Map StoredDecision
  pub claimed_approvals : List String
  pub consumptions : Map NonceConsumption
  pub spend : Map String

unfoldable pub save_decision : StoredDecision → Memory → Memory
save_decision r m = record m { decisions = set r.decision.decision_id r m.decisions }

-- `claimApproval` of `InMemoryDecisionStateStore`
unfoldable pub claim_in_memory : String → Memory → ApprovalClaim × Memory
claim_in_memory id m =
    if includes m.claimed_approvals id
    then (already_claimed, m)
    else (claimed, record m { claimed_approvals = id ∷ m.claimed_approvals })

abbrev pub or_zero : Option String → String
or_zero none = "0.00"
or_zero (some s) = s

-- `text.split(".")`: the first part, and the second or "".
whole_part : String → String
whole_part String.[] = String.[]
whole_part (String.◌∷◌ c s) = if code c == b'.' then String.[] else String.◌∷◌ c (whole_part s)

fraction_part : String → String
fraction_part String.[] = String.[]
fraction_part (String.◌∷◌ c s) = if code c == b'.' then s else fraction_part s

-- `fraction.padEnd(2, "0")`
pad_end : String → String
pad_end String.[] = "00"
pad_end (String.◌∷◌ c String.[]) = String.◌∷◌ c "0"
pad_end s = s

unfoldable pub to_canonical_amount : Decimals → ℕ → String
unfolding whole_part fraction_part pad_end
to_canonical_amount d v = let t = d.to_fixed v in whole_part t ++ "." ++ pad_end (fraction_part t)

abbrev pub spend_key : String → String → String
spend_key principal day = principal ++ ":" ++ day

-- `recordSpend` of `InMemorySpendState`
unfoldable pub record_in_memory : Decimals → RecordSpendInput → Memory → Memory
unfolding to_canonical_amount
record_in_memory d i m =
    let key = spend_key i.principal_id i.day_key in
    let current = d.units (or_zero (get key m.spend)) in
    record m { spend = set key (to_canonical_amount d (d.plus current (d.units i.amount))) m.spend }

unfoldable pub consume_in_memory : NonceConsumption → Memory → ConsumeResult × Memory
consume_in_memory c m =
    let (r, map) = consume_nonce c m.consumptions in (r, record m { consumptions = map })

-- The reference stores: `InMemorySpendState`, or `ZeroSpendState` where `counts` is false.
unfoldable pub memory_stores : Decimals → Bool → Stores Memory
unfolding save_decision claim_in_memory record_in_memory consume_in_memory pure
memory_stores d counts = record {
  save = λ r m. pure tt (save_decision r m);
  find_decision = λ id m. pure (get id m.decisions) m;
  claim_approval = λ id m. let (c, m') = claim_in_memory id m in pure c m';
  daily_spend = λ principal day m.
      pure (if counts then or_zero (get (spend_key principal day) m.spend) else "0.00") m;
  record_spend = λ i m. pure tt (if counts then record_in_memory d i m else m);
  consume = λ c m. let (r, m') = consume_in_memory c m in pure r m';
  consume_and_record_spend = none;
}

abbrev pub empty_memory : Memory
empty_memory = record { decisions = []; claimed_approvals = []; consumptions = []; spend = [] }
