-- ===== src/Policy/Provider/Execution.antt =====
-- A decision is consumed for one execution: `consume` of the local provider over any history.
use inntris_x402_policy_adap.Base.{
  ℕ, ◌<◌, String, ◌≡◌, refl, sym, ap, ◌∙◌, Bool, true, ◌&&◌, some, List, arith, Bool-cases,
  Option-cases, inl, inr, eq_iff, if◌then◌else◌,
}
use inntris_x402_policy_adap.Base.First.{Each}
use inntris_x402_policy_adap.Base.Exec.{Result, ok, Result-cases, ◌>>=◌}
use inntris_x402_policy_adap.Base.Maps.{get}
use inntris_x402_policy_adap.Core.Json.{Externals}
use inntris_x402_policy_adap.Core.Reasons.{is_allow}
use inntris_x402_policy_adap.Core.Signing.{Fault}
use inntris_x402_policy_adap.Core.Replay.{
  ConsumeInput, ConsumeResult, NonceConsumption, nonce_key, consume_nonce,
}
use inntris_x402_policy_adap.Core.Replay.Once.{success-get, repeat-agrees}
use inntris_x402_policy_adap.Policy.Evaluate.{Platform, LocalTime, local_time_parts}
use inntris_x402_policy_adap.Policy.Stores.{
  StoredDecision, RecordSpendInput, Memory, memory_stores, record_in_memory, consume_in_memory,
}
use inntris_x402_policy_adap.Policy.Provider.{
  Provider, consume, consume_stored, consume_once, is_consumed, consumption_of, spend_of,
}
use inntris_x402_policy_adap.Policy.Provider.History.{consume-Later_all}
use inntris_x402_policy_adap.Policy.Provider.Calls.{Call, NewIds, after_calls, after_calls-Later}

module _ (x : Externals) (s : Platform) (p : Provider) (counts : Bool) where
  abbrev pub consumption : ConsumeInput → StoredDecision → ℕ → NonceConsumption
  consumption i stored now =
      consumption_of x s p (memory_stores s.decimals counts) i stored.decision now

  found-stored :
      (i : ConsumeInput) (now : ℕ) (m : Memory) (res : ConsumeResult)
      → (consume x s p (memory_stores s.decimals counts) i now m).0 ≡ ok res
      → res.success ≡ true
      → (stored : StoredDecision) × (get i.decision_id m.decisions ≡ some stored)
  unfolding consume memory_stores ◌>>=◌
  found-stored i now m res h won = elim (Option-cases (get i.decision_id m.decisions)) [
    | inl e ↦ absurd (ground arith)
    | inr e ↦ e
  ]

  -- What a consumption that succeeds has checked.
  pub record Consumed (i : ConsumeInput) (now : ℕ) (m : Memory) (stored : StoredDecision)
      : Type 0 where
    pub found : get i.decision_id m.decisions ≡ some stored
    pub allowed : is_allow stored.decision.verdict ≡ true
    pub hash : stored.decision.action_hash ≡ i.action_hash
    pub in_time : now < stored.decision.expires_at
    pub local : LocalTime
    pub local_is : local_time_parts s now p.policy.time_windows.timezone ≡ ok local

  found-local :
      (i : ConsumeInput) (now : ℕ) (m : Memory) (res : ConsumeResult) (stored : StoredDecision)
      → (consume x s p (memory_stores s.decimals counts) i now m).0 ≡ ok res
      → res.success ≡ true
      → get i.decision_id m.decisions ≡ some stored
      → (local : LocalTime) × (local_time_parts s now p.policy.time_windows.timezone ≡ ok local)
  unfolding consume consume_stored memory_stores ◌>>=◌
  found-local i now m res stored h won found =
      elim (Result-cases (local_time_parts s now p.policy.time_windows.timezone)) [
        | inl (f, e) ↦ absurd (ground (arith, e))
        | inr e ↦ e
      ]

  pub success-Consumed :
      (i : ConsumeInput) (now : ℕ) (m : Memory) (res : ConsumeResult)
      → (consume x s p (memory_stores s.decimals counts) i now m).0 ≡ ok res
      → res.success ≡ true
      → (stored : StoredDecision) × Consumed i now m stored
  unfolding consume consume_stored memory_stores ◌>>=◌
  success-Consumed i now m res h won =
      let (stored, found) = found-stored i now m res h won in
      let (local, local_is) = found-local i now m res stored h won found in
      (
        stored,
        record {
          found = found;
          allowed = ground arith;
          hash = ground (arith, eq_iff stored.decision.action_hash i.action_hash);
          in_time = ground arith;
          local = local;
          local_is = local_is;
        },
      )

  -- The whole call comes down to the nonce store and, the first time, the spend.
  pub Consumed-consume :
      (i : ConsumeInput) (now : ℕ) (m : Memory) (stored : StoredDecision)
      → (c : Consumed i now m stored)
      → consume x s p (memory_stores s.decimals counts) i now m
        ≡ consume_once x s p
            (memory_stores s.decimals counts)
            (consumption i stored now)
            (spend_of x s p (memory_stores s.decimals counts) stored.decision c.local)
            m
  unfolding consume consume_stored memory_stores ◌>>=◌
  Consumed-consume i now m stored c =
      ground (arith, c.found, c.local_is, eq_iff stored.decision.action_hash i.action_hash)

  module _ (c : NonceConsumption) (i : RecordSpendInput) (m : Memory) where
    abbrev pub once : Result Fault ConsumeResult × Memory
    once = consume_once x s p (memory_stores s.decimals counts) c i m

    pub once-result : once.0 ≡ ok (consume_nonce c m.consumptions).0
    unfolding consume_once memory_stores consume_in_memory ◌>>=◌
    once-result = elim (Bool-cases (is_consumed (consume_nonce c m.consumptions).0.status)) [
      | inl e ↦ rw e
      | inr e ↦ rw e
    ]

    pub once-consumptions : once.1.consumptions ≡ (consume_nonce c m.consumptions).1
    unfolding consume_once memory_stores consume_in_memory record_in_memory ◌>>=◌
    once-consumptions = elim (Bool-cases (is_consumed (consume_nonce c m.consumptions).0.status)) [
      | inl e ↦ rw e (elim (Bool-cases counts) [ inl f ↦ rw f | inr f ↦ rw f ])
      | inr e ↦ rw e
    ]

    -- The spend grows on the first consumption only, and where the spend state counts.
    pub once-spend : once.1.spend ≡ (
        if is_consumed (consume_nonce c m.consumptions).0.status && counts
        then (record_in_memory s.decimals i m).spend
        else m.spend)
    unfolding consume_once memory_stores consume_in_memory record_in_memory ◌>>=◌
    once-spend = elim (Bool-cases (is_consumed (consume_nonce c m.consumptions).0.status)) [
      | inl e ↦ rw e (elim (Bool-cases counts) [ inl f ↦ rw f | inr f ↦ rw f ])
      | inr e ↦ rw e
    ]

  -- The entry that a successful consumption leaves under its decision and nonce.
  Consumed-entry :
      (i : ConsumeInput) (now : ℕ) (m : Memory) (res : ConsumeResult) (stored : StoredDecision)
      → Consumed i now m stored
      → (consume x s p (memory_stores s.decimals counts) i now m).0 ≡ ok res
      → res.success ≡ true
      → (e : NonceConsumption) × (get
            (nonce_key (consumption i stored now))
            (consume x s p (memory_stores s.decimals counts) i now m).1.consumptions
          ≡ some e)
        × (e.execution_ref ≡ i.execution_ref)
  Consumed-entry i now m res stored c h won =
      let cons = consumption i stored now in
      let spend = spend_of x s p (memory_stores s.decimals counts) stored.decision c.local in
      let step = Consumed-consume i now m stored c in
      let same : (consume_nonce cons m.consumptions).0 ≡ res =
        cc (once-result cons spend m, ap (λ r. r.0) step, h) in
      let (e, at, a, b) = success-get cons m.consumptions (rw same won) in
      (e, rw step (rw (once-consumptions cons spend m) at), b)

  -- A success where the key has an entry repeats that entry's execution.
  repeats-entry :
      (i : ConsumeInput) (now : ℕ) (m : Memory) (res : ConsumeResult) (stored : StoredDecision)
      (e : NonceConsumption)
      → Consumed i now m stored
      → (consume x s p (memory_stores s.decimals counts) i now m).0 ≡ ok res
      → res.success ≡ true
      → get (nonce_key (consumption i stored now)) m.consumptions ≡ some e
      → e.execution_ref ≡ i.execution_ref
  repeats-entry i now m res stored e c h won at =
      let cons = consumption i stored now in
      let spend = spend_of x s p (memory_stores s.decimals counts) stored.decision c.local in
      let same : (consume_nonce cons m.consumptions).0 ≡ res =
        cc (once-result cons spend m, ap (λ r. r.0) (Consumed-consume i now m stored c), h) in
      (repeat-agrees cons e m.consumptions at (rw same won)).1

-- Over the in-memory stores, when one consumption of a decision succeeds and, after any calls in any
-- order none of which issues a decision under that same id, another consumption of it
-- succeeds, both name the same execution reference.
pub consume-once :
    (x : Externals) (s : Platform) (p : Provider) (counts : Bool) (i j : ConsumeInput)
    (now later : ℕ) (m : Memory) (cs : List Call) (res res' : ConsumeResult)
    → i.decision_id ≡ j.decision_id
    → Each (NewIds x s p counts (λ id. i.decision_id ≡ id)) cs
    → (consume x s p (memory_stores s.decimals counts) i now m).0 ≡ ok res
    → res.success ≡ true
    → (consume x s p
        (memory_stores s.decimals counts)
        j
        later
        (after_calls x s p counts cs (consume x s p (memory_stores s.decimals counts) i now m).1)).0
      ≡ ok res'
    → res'.success ≡ true
    → i.execution_ref ≡ j.execution_ref
consume-once x s p counts i j now later m cs res res' same new h won h' won' =
    let old : String → Type 0 = λ id. i.decision_id ≡ id in
    let n = (consume x s p (memory_stores s.decimals counts) i now m).1 in
    let here = (consume-Later_all x s p counts old i now).at m in
    let kept = after_calls-Later x s p counts old cs n new in
    let (stored, c) = success-Consumed x s p counts i now m res h won in
    let (stored', c') = success-Consumed x s p counts j later _ res' h' won' in
    let (e, at, ref) = Consumed-entry x s p counts i now m res stored c h won in
    let one : stored ≡ stored' = cc (
      c.found,
      c'.found,
      kept.decisions i.decision_id refl,
      here.decisions i.decision_id refl,
      same,
    ) in
    sym ref
    ∙ repeats-entry x s p counts j later _ res' stored' e c' h' won'
        (rw (← one) (kept.consumptions _ e at))
