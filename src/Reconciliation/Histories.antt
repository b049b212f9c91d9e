-- ===== src/Reconciliation/Histories.antt =====
-- Histories of calls on the in-memory reconciliation store, in any order.
use inntris_x402_policy_adap.Base.{
  false, String, ◌≡◌, ◌≢◌, refl, sym, ◌∙◌, ap, true, some, List, [], ◌∷◌, inl, inr, Bool-cases,
  Option-cases, str_eq, eq_iff, and-eq-true,
}
use inntris_x402_policy_adap.Base.Exec.{ok, throw}
use inntris_x402_policy_adap.Base.Maps.{get, get-set_self}
use inntris_x402_policy_adap.Core.Json.{Externals}
use inntris_x402_policy_adap.Reconciliation.Types.{
  Operation, PrepareOperation, StartOperation, MarkSucceeded, MarkFailedFinal, MarkOutcomeUnknown,
  ResolveOperation, OperationStatus, prepared, is_prepared, prepare_schema, start_schema,
  operation_schema,
}
use inntris_x402_policy_adap.Reconciliation.Store.{
  Operations, start, start_claim, start_known, given, claimed, held, started, prepare, prepare_once,
  prepare_new, prepared_operation, operation_id_of, mark_succeeded, mark_failed_final,
  mark_outcome_unknown, resolve, same_identity,
}
use inntris_x402_policy_adap.Reconciliation.Steps.{
  IsSound, Steps-IsSound, is_final, final_fixed, has_begun, Steps-has_begun, Steps-subject,
}
use inntris_x402_policy_adap.Reconciliation.Evolution.{Evolves, Evolves-order, grown, fresh}
use inntris_x402_policy_adap.Reconciliation.Methods.{
  prepare-Evolves, start-Evolves, mark_succeeded-Evolves, mark_failed_final-Evolves,
  mark_outcome_unknown-Evolves, resolve-Evolves,
}

pub data StoreCall : Type 0 where
  prepares : PrepareOperation → StoreCall
  starts_one : StartOperation → StoreCall
  reports_success : MarkSucceeded → StoreCall
  reports_failure : MarkFailedFinal → StoreCall
  reports_unknown : MarkOutcomeUnknown → StoreCall
  resolves : ResolveOperation → StoreCall

module _ (x : Externals) where
  unfoldable pub store_after : StoreCall → Operations → Operations
  store_after (prepares i) m = (prepare x i m).1
  store_after (starts_one i) m = (start i m).1
  store_after (reports_success i) m = (mark_succeeded i m).1
  store_after (reports_failure i) m = (mark_failed_final i m).1
  store_after (reports_unknown i) m = (mark_outcome_unknown i m).1
  store_after (resolves i) m = (resolve i m).1

  unfoldable pub after_all : List StoreCall → Operations → Operations
  unfolding store_after
  after_all [] m = m
  after_all (c ∷ cs) m = after_all cs (store_after c m)

  store_after-Evolves : (c : StoreCall) (m : Operations) → Evolves x m (store_after c m)
  unfolding store_after
  store_after-Evolves (prepares i) m = (prepare-Evolves x i).at m
  store_after-Evolves (starts_one i) m = (start-Evolves x i).at m
  store_after-Evolves (reports_success i) m = (mark_succeeded-Evolves x i).at m
  store_after-Evolves (reports_failure i) m = (mark_failed_final-Evolves x i).at m
  store_after-Evolves (reports_unknown i) m = (mark_outcome_unknown-Evolves x i).at m
  store_after-Evolves (resolves i) m = (resolve-Evolves x i).at m

  -- After any calls, returned or thrown, no operation is dropped, and what a key holds grew from
  -- what it held before, or from a preparation under it, by the steps prepared to in progress, in
  -- progress to succeeded, failed or unknown, and unresolved to succeeded or failed.
  pub after_all-Evolves : (cs : List StoreCall) (m : Operations) → Evolves x m (after_all cs m)
  unfolding after_all
  after_all-Evolves [] m = (Evolves-order x).same m
  after_all-Evolves (c ∷ cs) m =
      (Evolves-order x).then_ m (store_after c m) (after_all cs (store_after c m))
        (store_after-Evolves c m) (after_all-Evolves cs (store_after c m))

  -- After any calls on a store whose operations are all sound, as on an empty one, all are sound: one
  -- still prepared was never attempted, every other was attempted exactly once, and an outcome
  -- is stored with its time and its reference or error code.
  pub after_all-IsSound :
      (cs : List StoreCall) (m : Operations)
      → ((k : String) (r : Operation) → get k m ≡ some r → IsSound r)
      → (k : String) (s : Operation) → get k (after_all cs m) ≡ some s
      → IsSound s
  after_all-IsSound cs m w k s h = elim ((after_all-Evolves cs m).backward k s h) [
    | grown r e p ↦ Steps-IsSound r s p (w k r e)
    | fresh i e j p ↦ Steps-IsSound (prepared_operation x i) s p (refl, refl, refl)
  ]

  -- An operation that succeeded or failed finally is the same record after any calls.
  pub after_all-final :
      (cs : List StoreCall) (m : Operations) (k : String) (r : Operation)
      → get k m ≡ some r
      → is_final r.status ≡ true
      → get k (after_all cs m) ≡ some r
  after_all-final cs m k r h f =
      let (s, g, p) = (after_all-Evolves cs m).forward k r h in g ∙ ap some (final_fixed r s p f)

  record Claims (i : StartOperation) (m : Operations) : Type 0 where
    held : Operation
    found : get i.operation_id m ≡ some held
    waiting : is_prepared held.status ≡ true
    after : get i.operation_id (start i m).1 ≡ some (started i.started_at held)

  claimed-Claims :
      (i : StartOperation) (m : Operations) (s : Operation)
      → (start i m).0 ≡ ok (claimed s)
      → Claims i m
  unfolding start given throw start_known start_claim
  claimed-Claims i m s h = elim (Bool-cases (start_schema i)) [
    | inr e ↦ absurd (cc (rw (start, given, e) at h))
    | inl e ↦ elim (Option-cases (get i.operation_id m)) [
      | inl f ↦ absurd (cc (rw (start, given, e, start_known, f) at h))
      | inr (r, f) ↦ elim (Bool-cases (str_eq r.binding_hash i.binding_hash)) [
        | inr g ↦ absurd (cc (rw (start, given, e, start_known, f, start_claim, g) at h))
        | inl g ↦ elim (Bool-cases (is_prepared r.status)) [
          | inr k ↦ absurd (cc (rw (start, given, e, start_known, f, start_claim, g, k) at h))
          | inl k ↦ record {
            held = r;
            found = f;
            waiting = k;
            after =
                rw (start, given, e, start_known, f, start_claim, g, k)
                  (get-set_self i.operation_id (started i.started_at r) m);
          }
        ]
      ]
    ]
  ]

  begun-waiting : (s : OperationStatus) → has_begun s ≡ true → is_prepared s ≡ true → ⊥
  begun-waiting prepared h k = cc
  begun-waiting _ h k = cc

  pub claimed-once :
      (i j : StartOperation) (m n : Operations) (s t : Operation)
      → i.operation_id ≡ j.operation_id
      → Evolves x (start i m).1 n
      → (start i m).0 ≡ ok (claimed s)
      → (start j n).0 ≢ ok (claimed t)
  claimed-once i j m n s t same grow h g =
      let c = claimed-Claims i m s h in
      let d = claimed-Claims j n t g in
      let (r, e, p) = grow.forward i.operation_id (started i.started_at c.held) c.after in
      let one : r ≡ d.held = cc (e, d.found, same) in
      begun-waiting r.status (Steps-has_begun (started i.started_at c.held) r p refl)
        (rw one d.waiting)

  -- Once `start` has claimed an operation, no later `start` of the same operation id answers that it
  -- is claimed, whatever calls come between.
  pub start-once :
      (i j : StartOperation) (m : Operations) (cs : List StoreCall) (s t : Operation)
      → i.operation_id ≡ j.operation_id
      → (start i m).0 ≡ ok (claimed s)
      → (start j (after_all cs (start i m).1)).0 ≢ ok (claimed t)
  start-once i j m cs s t same h g =
      claimed-once i j m (after_all cs (start i m).1) s t same (after_all-Evolves cs (start i m).1)
        h g

  record Prepares (i : PrepareOperation) (m : Operations) (r : Operation) : Type 0 where
    made : Operation
    answered : r ≡ made
    stored : get (operation_id_of x i) (prepare x i m).1 ≡ some made
    decision : made.decision_id ≡ i.decision_id
    action : made.action_hash ≡ i.action_hash
    binding : made.binding_hash ≡ i.binding_hash

  prepare-Prepares :
      (i : PrepareOperation) (m : Operations) (r : Operation)
      → (prepare x i m).0 ≡ ok r
      → Prepares i m r
  unfolding prepare given throw prepare_once prepare_new same_identity
  prepare-Prepares i m r h = elim (Bool-cases (prepare_schema i)) [
    | inr e ↦ absurd (cc (rw (prepare, given, e) at h))
    | inl e ↦ elim (Option-cases (get (operation_id_of x i) m)) [
      | inl f ↦ elim (Bool-cases (operation_schema (prepared_operation x i))) [
        | inr g ↦ absurd (cc (rw (prepare, given, e, prepare_once, f, prepare_new, g) at h))
        | inl g ↦ record {
          made = prepared_operation x i;
          answered = sym (cc (rw (prepare, given, e, prepare_once, f, prepare_new, g) at h));
          stored =
              rw (prepare, given, e, prepare_once, f, prepare_new, g)
                (get-set_self (operation_id_of x i) (prepared_operation x i) m);
          decision = refl;
          action = refl;
          binding = refl;
        }
      ]
      | inr (r', f) ↦ elim (Bool-cases (same_identity r' i)) [
        | inr g ↦ absurd (cc (rw (prepare, given, e, prepare_once, f, g) at h))
        | inl g ↦
            let (a, binding_same) = and-eq-true _ (str_eq r'.binding_hash i.binding_hash) g in
            let (b, ref_same) = and-eq-true _ (str_eq r'.execution_ref i.execution_ref) a in
            let (c, action_same) = and-eq-true _ (str_eq r'.action_hash i.action_hash) b in
            let (d, decision_same) = and-eq-true _ (str_eq r'.decision_id i.decision_id) c in
            record {
              made = r';
              answered = sym (cc (rw (prepare, given, e, prepare_once, f, g) at h));
              stored = rw (prepare, given, e, prepare_once, f, g) f;
              decision = (eq_iff r'.decision_id i.decision_id).0 decision_same;
              action = (eq_iff r'.action_hash i.action_hash).0 action_same;
              binding = (eq_iff r'.binding_hash i.binding_hash).0 binding_same;
            }
      ]
    ]
  ]

  -- When two preparations with one operation id, which is the hash of rail, kind and execution
  -- reference, succeed, whatever calls come between, both name the same decision, action hash
  -- and binding hash.
  pub prepare-agrees :
      (i j : PrepareOperation) (m : Operations) (cs : List StoreCall) (r s : Operation)
      → operation_id_of x i ≡ operation_id_of x j
      → (prepare x i m).0 ≡ ok r
      → (prepare x j (after_all cs (prepare x i m).1)).0 ≡ ok s
      → (i.decision_id ≡ j.decision_id)
        × (i.action_hash ≡ j.action_hash)
        × (i.binding_hash ≡ j.binding_hash)
  prepare-agrees i j m cs r s same h g =
      let a = prepare-Prepares i m r h in
      let b = prepare-Prepares j _ s g in
      let n = (prepare x i m).1 in
      let grow =
        (Evolves-order x).then_ n (after_all cs n) (prepare x j (after_all cs n)).1
          (after_all-Evolves cs n) ((prepare-Evolves x j).at (after_all cs n)) in
      let (t, e, p) = grow.forward (operation_id_of x i) a.made a.stored in
      let one : t ≡ b.made = cc (e, b.stored, same) in
      let kept = Steps-subject a.made t p in
      (
        sym a.decision
            ∙ sym (ap (λ u. u.decision_id) kept)
            ∙ ap (λ u. u.decision_id) one
            ∙ b.decision,
        sym a.action ∙ sym (ap (λ u. u.action_hash) kept) ∙ ap (λ u. u.action_hash) one ∙ b.action,
        sym a.binding
            ∙ sym (ap (λ u. u.binding_hash) kept)
            ∙ ap (λ u. u.binding_hash) one
            ∙ b.binding,
      )

  pub prepare-stores :
      (i : PrepareOperation) (m : Operations) (r : Operation)
      → (prepare x i m).0 ≡ ok r
      → get (operation_id_of x i) (prepare x i m).1 ≡ some r
  prepare-stores i m r h = let p = prepare-Prepares i m r h in p.stored ∙ ap some (sym p.answered)

  -- Each operation stands under its own id.
  abbrev pub IsKeyed : Operations → Type 0
  IsKeyed m = (k : String) (r : Operation) → get k m ≡ some r → r.operation_id ≡ k

  pub Evolves-IsKeyed : (m n : Operations) → Evolves x m n → IsKeyed m → IsKeyed n
  Evolves-IsKeyed m n grow keyed k s h = elim (grow.backward k s h) [
    | grown r e p ↦ ap (λ u. u.operation_id) (Steps-subject r s p) ∙ keyed k r e
    | fresh i e j p ↦ ap (λ u. u.operation_id) (Steps-subject (prepared_operation x i) s p) ∙ j
  ]

  pub held-begun :
      (i : StartOperation) (m : Operations) (s : Operation)
      → (start i m).0 ≡ ok (held s)
      → is_prepared s.status ≡ false
  unfolding start given throw start_known start_claim
  held-begun i m s h = elim (Bool-cases (start_schema i)) [
    | inr e ↦ absurd (cc (rw (start, given, e) at h))
    | inl e ↦ elim (Option-cases (get i.operation_id m)) [
      | inl f ↦ absurd (cc (rw (start, given, e, start_known, f) at h))
      | inr (r, f) ↦ elim (Bool-cases (str_eq r.binding_hash i.binding_hash)) [
        | inr g ↦ absurd (cc (rw (start, given, e, start_known, f, start_claim, g) at h))
        | inl g ↦ elim (Bool-cases (is_prepared r.status)) [
          | inl k ↦ absurd (cc (rw (start, given, e, start_known, f, start_claim, g, k) at h))
          | inr k ↦
              let same : r ≡ s =
                cc (rw (start, given, e, start_known, f, start_claim, g, k) at h) in
              rw (← same) k
        ]
      ]
    ]
  ]
