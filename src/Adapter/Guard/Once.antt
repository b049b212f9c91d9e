-- ===== src/Adapter/Guard/Once.antt =====
-- The guard of packages/x402-adapter/src/guard.ts over the in-memory reconciliation store: one
-- settlement for an execution reference.
use inntris_x402_policy_adap.Base.{
  ℕ, String, ◌≡◌, ◌≢◌, refl, sym, ◌∙◌, ap, false, Option, some, List, inl, inr,
}
use inntris_x402_policy_adap.Base.Exec.{ok, Exec, pure}
use inntris_x402_policy_adap.Base.Returns.{bind-returns, catch-returns, throw-returns}
use inntris_x402_policy_adap.Core.Json.{Externals}
use inntris_x402_policy_adap.Core.Action.{x402}
use inntris_x402_policy_adap.Core.Decision.{Decision}
use inntris_x402_policy_adap.Core.Replay.{ConsumeInput}
use inntris_x402_policy_adap.Reconciliation.Types.{
  OperationStatus, Operation, PrepareOperation, StartOperation, x402_settlement, is_prepared,
  prepared, in_progress, outcome_unknown, succeeded, failed_final,
}
use inntris_x402_policy_adap.Reconciliation.Store
use inntris_x402_policy_adap.Reconciliation.Store.{
  Operations, operation_id_of, claimed, held, missing, conflicting, StartResult,
}
use inntris_x402_policy_adap.Reconciliation.Evolution.{Evolves, Evolves-order}
use inntris_x402_policy_adap.Reconciliation.Methods.{prepare-Evolves, start-Evolves}
use inntris_x402_policy_adap.Reconciliation.Histories.{
  StoreCall, after_all, after_all-Evolves, claimed-once, prepare-stores, IsKeyed, Evolves-IsKeyed,
  held-begun,
}
use inntris_x402_policy_adap.Adapter.Binding.{X402Schemas, BindingInput}
use inntris_x402_policy_adap.Adapter.Guard.{
  GuardOptions, Readings, Claim, SettleError, settle_if_authorised, prepare_claim, start_settlement,
  admit_start, admit_held, refuse, settlement_binding, operations_store, beside,
}
use inntris_x402_policy_adap.Adapter.Guard.Settlement.{
  IsAuthorised, settle_if_authorised-IsAuthorised,
}

module _ (x : Externals) (q : X402Schemas) {W : Type 0} (o : GuardOptions (W × Operations)) where
  abbrev preparation : Decision → String → ℕ → PrepareOperation
  preparation d ref now = record {
    rail = x402;
    operation_kind = x402_settlement;
    decision_id = d.decision_id;
    action_hash = d.action_hash;
    execution_ref = ref;
    binding_hash = settlement_binding x q o d ref;
    prepared_at = now;
  }

  -- What `prepare_claim` has done with the in-memory store.
  record IsClaimed (d : Decision) (ref : String) (now : ℕ) (s t : W × Operations)
      (c : Option (Claim (W × Operations))) : Type 0 where
    operation : Operation
    made : (Store.prepare x (preparation d ref now) s.1).0 ≡ ok operation
    state : (Store.prepare x (preparation d ref now) s.1).1 ≡ t.1
    claim :
        c
        ≡ some (record {
          store = operations_store x;
          operation_id = operation.operation_id;
          binding_hash = settlement_binding x q o d ref;
        })

  prepare_claim-IsClaimed :
      (d : Decision) (ref : String) (now : ℕ) (s t : W × Operations)
      (c : Option (Claim (W × Operations)))
      → o.reconciliation_store ≡ some (operations_store x)
      → prepare_claim x q o d ref now s ≡ (ok c, t)
      → IsClaimed d ref now s t c
  unfolding prepare_claim pure refuse
  prepare_claim-IsClaimed d ref now s t c memory h =
      let (r, s1, e, k) = bind-returns _ _ s t c (rw (prepare_claim, memory) at h) in
      let (made, moved) =
        catch-returns (beside (Store.prepare x (preparation d ref now))) _ s s1 r
          (λ f u. throw-returns _ u r s1) e in
      let claim_at : pure _ s1 ≡ (ok c, t) = k in
      record {
        operation = r;
        made = made;
        state = ap (λ p. p.1) moved ∙ ap (λ p. p.1.1) claim_at;
        claim = cc (ap (λ p. p.0) claim_at);
      }

  held-refused :
      (v : OperationStatus) (s t : W × Operations)
      → is_prepared v ≡ false
      → admit_held x q o v s ≢ (ok tt, t)
  unfolding admit_held refuse
  held-refused prepared s t n h = cc
  held-refused in_progress s t n h = throw-returns _ s tt t h
  held-refused outcome_unknown s t n h = throw-returns _ s tt t h
  held-refused succeeded s t n h = throw-returns _ s tt t h
  held-refused failed_final s t n h = throw-returns _ s tt t h

  admit-claims :
      (i : StartOperation) (m : Operations) (r : StartResult) (s t : W × Operations)
      → (Store.start i m).0 ≡ ok r
      → admit_start x q o r s ≡ (ok tt, t)
      → (a : Operation) × ((Store.start i m).0 ≡ ok (claimed a)) × (s ≡ t)
  unfolding admit_start pure refuse
  admit-claims i m missing s t e h = absurd (throw-returns _ s tt t h)
  admit-claims i m conflicting s t e h = absurd (throw-returns _ s tt t h)
  admit-claims i m (claimed a) s t e h = (a, e, ap (λ p. p.1) h)
  admit-claims i m (held a) s t e h = absurd (held-refused a.status s t (held-begun x i m a e) h)

  start-claims :
      (id hash : String) (now : ℕ) (s t : W × Operations)
      → start_settlement x q o
          (some (record { store = operations_store x; operation_id = id; binding_hash = hash }))
          now
          s
        ≡ (ok tt, t)
      → (i : StartOperation) × (r : Operation) × (i.operation_id ≡ id)
        × ((Store.start i s.1).0 ≡ ok (claimed r))
        × ((Store.start i s.1).1 ≡ t.1)
  unfolding start_settlement refuse
  start-claims id hash now s t h =
      let i : StartOperation = record {
        operation_id = id;
        binding_hash = hash;
        started_at = now;
      } in
      let (r, s1, e, k) = bind-returns _ _ s t tt h in
      let (answered, moved) =
        catch-returns (beside (Store.start i)) _ s s1 r (λ f u. throw-returns _ u r s1) e in
      let (a, claims, same) = admit-claims i s.1 r s1 t answered k in
      (i, a, refl, claims, ap (λ p. p.1) moved ∙ ap (λ p. p.1) same)

  -- The provider leaves the operations alone.
  abbrev pub IsApart : Type 0
  IsApart = (a : ConsumeInput) (u : W × Operations) → (o.consume a u).1.1 ≡ u.1

  -- The claim that an authorised settlement has won in the in-memory store.
  record Opens (d : Decision) (ref : String) (t : Readings) (m final : Operations) : Type 0 where
    start : StartOperation
    operation : Operation
    before : Operations
    identity : start.operation_id ≡ operation_id_of x (preparation d ref t.prepared_at)
    grows : Evolves x m before
    claims : (Store.start start before).0 ≡ ok (claimed operation)
    ends : (Store.start start before).1 ≡ final

  module _ (memory : o.reconciliation_store ≡ some (operations_store x)) (apart : IsApart) where
    IsAuthorised-Opens :
        (i : BindingInput) (d : Decision) (ref : String) (t : Readings) (s : W × Operations)
        → IsKeyed x s.1
        → (a : IsAuthorised x q o i d ref t s) → Opens d ref t s.1 a.final.1
    IsAuthorised-Opens i d ref t s keyed a =
        let p = preparation d ref t.prepared_at in
        let c = prepare_claim-IsClaimed d ref t.prepared_at s a.before a.claim memory a.prepared in
        let grow = (prepare-Evolves x p).at s.1 in
        let id =
          Evolves-IsKeyed x s.1 (Store.prepare x p s.1).1 grow keyed (operation_id_of x p)
            c.operation (prepare-stores x p s.1 c.operation c.made) in
        let still : a.after.1 ≡ a.before.1 = ap (λ r. r.1.1) (sym a.consumed) ∙ apart _ a.before in
        let (start, r, same, claims, ends) =
          start-claims c.operation.operation_id (settlement_binding x q o d ref) t.started_at
            a.after a.final (rw c.claim at a.started) in
        record {
          start = start;
          operation = r;
          before = a.after.1;
          identity = same ∙ id;
          grows = rw (still, ← c.state) grow;
          claims = claims;
          ends = ends;
        }

    -- Over the in-memory reconciliation store, in which each operation stands under its own id,
    -- and with a provider that leaves that store alone: once a run under an execution reference
    -- is authorised and has come to its call of `settle`, then after any calls on the store and
    -- any change of the other state, the outcome of a further run under the same reference, for
    -- any payment and decision, does not depend on what `settle` is, which is then not called.
    pub settle-once :
        {T : Type 0} (i j : BindingInput) (d e : Decision) (ref : String) (t u : Readings)
        (s : W × Operations) (w : W) (cs : List StoreCall)
        → IsKeyed x s.1
        → (a : IsAuthorised x q o i d ref t s)
        → (settle other : Exec SettleError (W × Operations) T)
        → settle_if_authorised x q o j e ref u settle (w, after_all x cs a.final.1)
          ≡ settle_if_authorised x q o j e ref u other (w, after_all x cs a.final.1)
    unfolding operation_id_of
    settle-once i j d e ref t u s w cs keyed a settle other =
        let m = after_all x cs a.final.1 in
        let later = after_all-Evolves x cs a.final.1 in
        let first = IsAuthorised-Opens i d ref t s keyed a in
        let order = Evolves-order x in
        let started = (start-Evolves x first.start).at first.before in
        let up_to : Evolves x s.1 a.final.1 =
          order.then_ s.1 first.before a.final.1 first.grows (rw first.ends at started) in
        let keyed_then : IsKeyed x m =
          Evolves-IsKeyed x s.1 m (order.then_ s.1 a.final.1 m up_to later) keyed in
        elim (settle_if_authorised-IsAuthorised x q o j e ref u (w, m)) [
          | inr inert ↦ inert settle other
          | inl b ↦
              let second = IsAuthorised-Opens j e ref u (w, m) keyed_then b in
              absurd (
                claimed-once x first.start second.start first.before second.before first.operation
                  second.operation (first.identity ∙ sym second.identity)
                  (rw first.ends (order.then_ a.final.1 m second.before later second.grows))
                  first.claims second.claims)
        ]
