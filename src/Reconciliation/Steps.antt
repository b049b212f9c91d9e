-- ===== src/Reconciliation/Steps.antt =====
-- How an operation of packages/execution-reconciliation may change, and what no change can undo.
use inntris_x402_policy_adap.Base.{
  ℕ, ◌+◌, String, ◌≡◌, ◌⊎◌, refl, ◌∙◌, ap, Bool-cases, Bool, true, false, none, some, inl, inr,
}
use inntris_x402_policy_adap.Core.Action.{Rail}
use inntris_x402_policy_adap.Reconciliation.Types.{
  OperationKind, Operation, OperationStatus, prepared, in_progress, succeeded, failed_final,
  outcome_unknown, ResolveOperation, is_some,
}
use inntris_x402_policy_adap.Reconciliation.Store.{
  started, with_success, with_failure, with_unknown, with_resolution,
}

-- The assignments of the store's methods, each with the status that it starts from.
pub data Step : Operation → Operation → Type 0 where
  starts : (r : Operation) (t : ℕ) → r.status ≡ prepared → Step r (started t r)
  succeeds :
      (r : Operation) (reference : String) (t : ℕ)
      → r.status ≡ in_progress
      → Step r (with_success reference t r)
  fails :
      (r : Operation) (code : String) (t : ℕ)
      → r.status ≡ in_progress
      → Step r (with_failure code t r)
  is_lost :
      (r : Operation) (code : String) (t : ℕ)
      → r.status ≡ in_progress
      → Step r (with_unknown code t r)
  is_resolved :
      (r : Operation) (i : ResolveOperation)
      → (r.status ≡ outcome_unknown) ⊎ (r.status ≡ in_progress)
      → (i.has_succeeded ≡ true) ⊎ (is_some i.error_code ≡ true)
      → Step r (with_resolution i r)

pub data Steps : Operation → Operation → Type 0 where
  stays : (r : Operation) → Steps r r
  then_ : (r s t : Operation) → Step r s → Steps s t → Steps r t

pub append : (r s t : Operation) → Steps r s → Steps s t → Steps r t
append r s t (stays _) q = q
append r s t (then_ _ m _ p ps) q = then_ r m t p (append m s t ps q)

-- What an operation is about.
pub record Subject : Type 0 where
  pub operation_id : String
  pub rail : Rail
  pub operation_kind : OperationKind
  pub decision_id : String
  pub action_hash : String
  pub execution_ref : String
  pub binding_hash : String

abbrev pub subject : Operation → Subject
subject r = record {
  operation_id = r.operation_id;
  rail = r.rail;
  operation_kind = r.operation_kind;
  decision_id = r.decision_id;
  action_hash = r.action_hash;
  execution_ref = r.execution_ref;
  binding_hash = r.binding_hash;
}

step-subject : (r s : Operation) → Step r s → subject s ≡ subject r
step-subject r s (starts _ t h) = refl
step-subject r s (succeeds _ u t h) = refl
step-subject r s (fails _ c t h) = refl
step-subject r s (is_lost _ c t h) = refl
step-subject r s (is_resolved _ i h k) = refl

pub Steps-subject : (r s : Operation) → Steps r s → subject s ≡ subject r
Steps-subject r s (stays _) = refl
Steps-subject r s (then_ _ m _ p ps) = Steps-subject m s ps ∙ step-subject r m p

-- A status that no method changes.
abbrev pub is_final : OperationStatus → Bool
is_final succeeded = true
is_final failed_final = true
is_final _ = false

abbrev pub has_begun : OperationStatus → Bool
has_begun prepared = false
has_begun _ = true

step-open : (r s : Operation) → Step r s → is_final r.status ≡ false
step-open r s (starts _ t h) = rw h
step-open r s (succeeds _ u t h) = rw h
step-open r s (fails _ c t h) = rw h
step-open r s (is_lost _ c t h) = rw h
step-open r s (is_resolved _ i (inl h) k) = rw h
step-open r s (is_resolved _ i (inr h) k) = rw h

pub final_fixed : (r s : Operation) → Steps r s → is_final r.status ≡ true → s ≡ r
final_fixed r s (stays _) f = refl
final_fixed r s (then_ _ m _ p ps) f = absurd (cc (step-open r m p, f))

step-has_begun : (r s : Operation) → Step r s → has_begun s.status ≡ true
step-has_begun r s (starts _ t h) = refl
step-has_begun r s (succeeds _ u t h) = refl
step-has_begun r s (fails _ c t h) = refl
step-has_begun r s (is_lost _ c t h) = refl
step-has_begun r s (is_resolved _ i h k) = elim (Bool-cases i.has_succeeded) [
  | inl e ↦ rw e
  | inr e ↦ rw e
]

pub Steps-has_begun :
    (r s : Operation) → Steps r s → has_begun r.status ≡ true → has_begun s.status ≡ true
Steps-has_begun r s (stays _) b = b
Steps-has_begun r s (then_ _ m _ p ps) b = Steps-has_begun m s ps (step-has_begun r m p)

-- What a record holds at each status: an operation that was prepared was never attempted, every
-- other was attempted once; an outcome is recorded with its time, its reference or its error.
abbrev pub Holds : OperationStatus → Operation → Type 0
Holds prepared r = (r.attempt_count ≡ 0) × (r.started_at ≡ none) × (r.resolved_at ≡ none)
Holds in_progress r =
    (r.attempt_count ≡ 1) × ((t : ℕ) × (r.started_at ≡ some t)) × (r.resolved_at ≡ none)
Holds outcome_unknown r =
    (r.attempt_count ≡ 1)
    × ((t : ℕ) × (r.started_at ≡ some t))
    × (r.resolved_at ≡ none)
    × (is_some r.last_error_code ≡ true)
Holds succeeded r =
    (r.attempt_count ≡ 1)
    × ((t : ℕ) × (r.started_at ≡ some t))
    × ((t : ℕ) × (r.resolved_at ≡ some t))
    × (is_some r.outcome_reference ≡ true)
Holds failed_final r =
    (r.attempt_count ≡ 1)
    × ((t : ℕ) × (r.started_at ≡ some t))
    × ((t : ℕ) × (r.resolved_at ≡ some t))
    × (is_some r.last_error_code ≡ true)

abbrev pub IsSound : Operation → Type 0
IsSound r = Holds r.status r

begun-once :
    (r : Operation)
    → (r.status ≡ outcome_unknown) ⊎ (r.status ≡ in_progress)
    → IsSound r
    → (r.attempt_count ≡ 1) × ((t : ℕ) × (r.started_at ≡ some t))
begun-once r (inl h) w = let v : Holds outcome_unknown r = rw h at w in (v.0, v.1)
begun-once r (inr h) w = let v : Holds in_progress r = rw h at w in (v.0, v.1)

resolution-Holds :
    (r : Operation) (i : ResolveOperation) (b : Bool)
    → i.has_succeeded ≡ b
    → (b ≡ true) ⊎ (is_some i.error_code ≡ true)
    → (r.attempt_count ≡ 1) × ((t : ℕ) × (r.started_at ≡ some t))
    → IsSound (with_resolution i r)
resolution-Holds r i true e k w = rw e (w.0, w.1, (i.resolved_at, refl), refl)
resolution-Holds r i false e (inl k) w = absurd (cc k)
resolution-Holds r i false e (inr k) w = rw e (w.0, w.1, (i.resolved_at, refl), k)

step-IsSound : (r s : Operation) → Step r s → IsSound r → IsSound s
step-IsSound r s (starts _ t h) w =
    let v : Holds prepared r = rw h at w in (ap (λ n. n + 1) v.0, (t, refl), v.2)
step-IsSound r s (succeeds _ u t h) w =
    let v = begun-once r (inr h) w in (v.0, v.1, (t, refl), refl)
step-IsSound r s (fails _ c t h) w = let v = begun-once r (inr h) w in (v.0, v.1, (t, refl), refl)
step-IsSound r s (is_lost _ c t h) w =
    let v : Holds in_progress r = rw h at w in (v.0, v.1, v.2, refl)
step-IsSound r s (is_resolved _ i h k) w =
    resolution-Holds r i i.has_succeeded refl k (begun-once r h w)

pub Steps-IsSound : (r s : Operation) → Steps r s → IsSound r → IsSound s
Steps-IsSound r s (stays _) w = w
Steps-IsSound r s (then_ _ m _ p ps) w = Steps-IsSound m s ps (step-IsSound r m p w)
