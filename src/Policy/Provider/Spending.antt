-- ===== src/Policy/Provider/Spending.antt =====
-- The daily spend is counted once for a decision: `consume` of the local provider and the spend state.
use inntris_x402_policy_adap.Base.{
  ℕ, String, ◌≡◌, refl, Bool, true, false, ◌&&◌, Option, none, some, Option-cases, inl, inr, arith,
  if◌then◌else◌,
}
use inntris_x402_policy_adap.Base.Exec.{ok}
use inntris_x402_policy_adap.Base.Maps.{Map, get, set}
use inntris_x402_policy_adap.Core.Json.{Externals}
use inntris_x402_policy_adap.Core.Decision.{Decision}
use inntris_x402_policy_adap.Core.Replay.{
  ConsumeInput, ConsumeResult, NonceConsumption, nonce_key, repeat_result, consume_nonce,
}
use inntris_x402_policy_adap.Policy.Evaluate.{Decimals, Platform, LocalTime}
use inntris_x402_policy_adap.Policy.Stores.{
  StoredDecision, Memory, memory_stores, record_in_memory, spend_key, or_zero, to_canonical_amount,
}
use inntris_x402_policy_adap.Policy.Provider.{Provider, consume, is_consumed, spend_of}
use inntris_x402_policy_adap.Policy.Provider.Execution.{
  consumption, Consumed, success-Consumed, Consumed-consume, once-spend,
}

abbrev absent : Option NonceConsumption → Bool
absent none = true
absent (some e) = false

-- The principal's total of the day, the decision's amount added.
abbrev pub with_amount : Decimals → Decision → LocalTime → Map String → Map String
with_amount d decision local spend =
    let key = spend_key decision.principal_id local.day_key in
    let current = d.units (or_zero (get key spend)) in
    set key (to_canonical_amount d (d.plus current (d.units decision.transaction.amount))) spend

is_consumed-absent :
    (c : NonceConsumption) (m : Map NonceConsumption)
    → is_consumed (consume_nonce c m).0.status ≡ absent (get (nonce_key c) m)
unfolding consume_nonce repeat_result
is_consumed-absent c m = elim (Option-cases (get (nonce_key c) m)) [
  | inl e ↦ ground arith
  | inr (r, e) ↦ ground arith
]

-- What a consumption that succeeds does to the spend state.
pub record Counted (x : Externals) (s : Platform) (p : Provider) (counts : Bool) (i : ConsumeInput)
    (now : ℕ) (m after : Memory) (stored : StoredDecision) : Type 0 where
  pub checked : Consumed x s p counts i now m stored
  pub spend : after.spend ≡ (
      if absent (get (nonce_key (consumption x s p counts i stored now)) m.consumptions) && counts
      then with_amount s.decimals stored.decision checked.local m.spend
      else m.spend)

-- Over the in-memory stores, a consumption that succeeds is one of a stored decision that allows,
-- has the supplied action hash and has not expired; where the spend state counts, it adds the
-- decision's amount to the principal's total of the local day if the nonce store had no entry for
-- the decision's id and nonce, and a repetition leaves the spend state as it was.
pub consume-Counted :
    (x : Externals) (s : Platform) (p : Provider) (counts : Bool) (i : ConsumeInput) (now : ℕ)
    (m : Memory) (res : ConsumeResult)
    → (consume x s p (memory_stores s.decimals counts) i now m).0 ≡ ok res
    → res.success ≡ true
    → (stored : StoredDecision) × Counted x s p counts i now m
        (consume x s p (memory_stores s.decimals counts) i now m).1
        stored
consume-Counted x s p counts i now m res h won =
    let (stored, c) = success-Consumed x s p counts i now m res h won in
    let cons = consumption x s p counts i stored now in
    let spend = spend_of x s p (memory_stores s.decimals counts) stored.decision c.local in
    (
      stored,
      record {
        checked = c;
        spend = rw (Consumed-consume x s p counts i now m stored c) (
            rw (once-spend x s p counts cons spend m)
              (rw (is_consumed-absent cons m.consumptions) (unfold record_in_memory in refl)));
      },
    )
