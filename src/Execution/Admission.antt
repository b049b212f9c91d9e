-- ===== src/Execution/Admission.antt =====
-- What the steps of a runtime gate have done when they return.
use mathlib.Core.Path.{ap₂, subst}
use inntris_x402_policy_adap.Base.{
  String, ◌≡◌, refl, ap, ◌∙◌, Bool, true, false, Option, none, some,
}
use inntris_x402_policy_adap.Base.Exec.{Result, ok, err, bind, Exec, pure, lift, ◌>>=◌, ◌>>◌}
use inntris_x402_policy_adap.Base.Returns.{bind-returns, lift-returns, catch-returns, throw-returns}
use inntris_x402_policy_adap.Core.Signing.{Fault}
use inntris_x402_policy_adap.Core.Replay.{ConsumeInput, ConsumeResult}
use inntris_x402_policy_adap.Execution.{
  Thrown, ClaimAnswer, claimed, in_progress, conflict, completed, ExecutionStore, GateFault,
  as_gate, demand, reject, ensure, guarded, admit, claim_execution, spend,
}

pub as_gate-ok : {R A : Type 0} (r : Result Fault A) (a : A) → as_gate {R = R} r ≡ ok a → r ≡ ok a
as_gate-ok (ok b) a h = cc
as_gate-ok (err e) a h = cc

pub demand-ok :
    {R : Type 0} (test : Bool) (r : R) (u : Unit {0}) → demand test r ≡ ok u → test ≡ true
demand-ok true r u h = refl
demand-ok false r u h = absurd (cc)

pub demand-then :
    {R A : Type 0} (test : Bool) (r : R) (f : Unit {0} → Result (GateFault R) A) (a : A)
    → bind (demand test r) f ≡ ok a
    → (test ≡ true) × (f tt ≡ ok a)
demand-then true r f a h = (refl, h)
demand-then false r f a h = absurd (cc)

-- What holds of the value and the state that are returned.
pub pure-returns :
    {E S A : Type 0} (P : A → S → Type 0) (a b : A) (s t : S)
    → pure {E = E} a s ≡ (ok b, t)
    → P a s
    → P b t
unfolding pure
pure-returns P a b s t h p =
    let same : a ≡ b = cc (ap (λ q. q.0) h) in
    subst (λ c. P c t) same (subst (P a) (ap (λ q. q.1) h) p)

-- What the store answered, from what is handed on.
abbrev pub answer_of : {B C : Type 0} → Option (B × C) → ClaimAnswer B C
answer_of none = claimed
answer_of (some (b, c)) = completed b c

-- The provider consumed a decision with success.
pub record IsSpent {E S : Type 0} (consume : ConsumeInput → Exec E S ConsumeResult)
    (i : ConsumeInput) (s t : S) : Type 0 where
  pub consumption : ConsumeResult
  pub consumed : consume i s ≡ (ok consumption, t)
  pub success : consumption.success ≡ true

module _ {R S : Type 0} where
  pub lifted-returns :
      {A : Type 0} (r : Result Fault A) (s t : S) (a : A)
      → lift (as_gate {R = R} r) s ≡ (ok a, t)
      → (r ≡ ok a) × (s ≡ t)
  lifted-returns r s t a h =
      let (e, same) = lift-returns (as_gate {R = R} r) s t a h in (as_gate-ok {R = R} r a e, same)

  pub reject-returns :
      {A : Type 0} (r : R) (cause : Option String) (s t : S) (a : A)
      → reject r cause s ≡ (ok a, t)
      → ⊥
  unfolding reject
  reject-returns r cause s t a h = throw-returns _ s a t h

  pub ensure-returns :
      (test : Bool) (r : R) (cause : Option String) (s t : S) (u : Unit {0})
      → ensure test r cause s ≡ (ok u, t)
      → (test ≡ true) × (s ≡ t)
  unfolding ensure pure
  ensure-returns true r cause s t u h = (refl, ap (λ p. p.1) h)
  ensure-returns false r cause s t u h = absurd (reject-returns r cause s t u h)

  pub guarded-returns :
      {A : Type 0} (r : R) (act : Exec Thrown S A) (s t : S) (a : A)
      → guarded r act s ≡ (ok a, t)
      → act s ≡ (ok a, t)
  unfolding guarded
  guarded-returns r act s t a h =
      let (answer, same) =
        catch-returns act (λ e. reject r e.error_name) s t a
          (λ e u k. reject-returns r e.error_name u t a k) h in
      ap₂ (λ q v. (q, v)) answer same

  -- A chain of steps that returns, taken apart at its first step.
  pub then-lifted :
      {A B : Type 0} (r : Result Fault A) (f : A → Exec (GateFault R) S B) (s t : S) (b : B)
      → (lift (as_gate r) >>= f) s ≡ (ok b, t)
      → (a : A) × (r ≡ ok a) × (f a s ≡ (ok b, t))
  then-lifted r f s t b h =
      let (a, u, e, k) = bind-returns (lift (as_gate r)) f s t b h in
      let (made, same) = lifted-returns r s u a e in (a, made, rw same k)

  pub then-checked :
      {A B : Type 0} (r : Result (GateFault R) A) (f : A → Exec (GateFault R) S B) (s t : S) (b : B)
      → (lift r >>= f) s ≡ (ok b, t)
      → (a : A) × (r ≡ ok a) × (f a s ≡ (ok b, t))
  then-checked r f s t b h =
      let (a, u, e, k) = bind-returns (lift r) f s t b h in
      let (made, same) = lift-returns r s u a e in (a, made, rw same k)

  pub then-ensure :
      {B : Type 0} (test : Bool) (r : R) (cause : Option String) (f : Exec (GateFault R) S B)
      (s t : S) (b : B)
      → (ensure test r cause >> f) s ≡ (ok b, t)
      → (test ≡ true) × (f s ≡ (ok b, t))
  then-ensure test r cause f s t b h =
      let (a, u, e, k) = bind-returns (ensure test r cause) (λ _. f) s t b h in
      let (passed, same) = ensure-returns test r cause s u a e in (passed, rw same k)

  pub then-guarded :
      {A B : Type 0} (r : R) (act : Exec Thrown S A) (f : A → Exec (GateFault R) S B) (s t : S)
      (b : B)
      → (guarded r act >>= f) s ≡ (ok b, t)
      → (a : A) × (u : S) × (act s ≡ (ok a, u)) × (f a u ≡ (ok b, t))
  then-guarded r act f s t b h =
      let (a, u, e, k) = bind-returns (guarded r act) f s t b h in
      (a, u, guarded-returns r act s u a e, k)

  module _ {B C : Type 0} where
    admit-claimed :
        (other unresolved : R) (a : ClaimAnswer B C) (s t : S)
        → admit other unresolved a s ≡ (ok none, t)
        → (a ≡ claimed) × (s ≡ t)
    unfolding admit pure
    admit-claimed other unresolved claimed s t h = (refl, ap (λ p. p.1) h)
    admit-claimed other unresolved in_progress s t h =
        absurd (reject-returns unresolved none s t none h)
    admit-claimed other unresolved conflict s t h = absurd (reject-returns other none s t none h)
    admit-claimed other unresolved (completed b c) s t h = absurd (cc (ap (λ p. p.0) h))

    admit-completed :
        (other unresolved : R) (a : ClaimAnswer B C) (b : B) (c : C) (s t : S)
        → admit other unresolved a s ≡ (ok (some (b, c)), t)
        → (a ≡ completed b c) × (s ≡ t)
    unfolding admit pure
    admit-completed other unresolved claimed b c s t h = absurd (cc (ap (λ p. p.0) h))
    admit-completed other unresolved in_progress b c s t h =
        absurd (reject-returns unresolved none s t (some (b, c)) h)
    admit-completed other unresolved conflict b c s t h =
        absurd (reject-returns other none s t (some (b, c)) h)
    admit-completed other unresolved (completed d r) b c s t h =
        (cc (ap (λ p. p.0) h), ap (λ p. p.1) h)

    module _ (store : ExecutionStore B C S) (failed other unresolved : R) (key : String)
        (b : B) where
      -- An execution goes on exactly when the store has claimed it.
      pub claim_execution-claimed :
          (s t : S)
          → claim_execution store failed other unresolved key b s ≡ (ok none, t)
          → store.claim key b s ≡ (ok claimed, t)
      unfolding claim_execution
      claim_execution-claimed s t h =
          let (a, u, e, k) = bind-returns (guarded failed (store.claim key b)) _ s t none h in
          let (answer, same) = admit-claimed other unresolved a u t k in
          guarded-returns failed (store.claim key b) s u a e ∙ ap₂ (λ q v. (ok q, v)) answer same

      pub claim_execution-completed :
          (d : B) (c : C) (s t : S)
          → claim_execution store failed other unresolved key b s ≡ (ok (some (d, c)), t)
          → store.claim key b s ≡ (ok (completed d c), t)
      unfolding claim_execution
      claim_execution-completed d c s t h =
          let (a, u, e, k) =
            bind-returns (guarded failed (store.claim key b)) _ s t (some (d, c)) h in
          let (answer, same) = admit-completed other unresolved a d c u t k in
          guarded-returns failed (store.claim key b) s u a e ∙ ap₂ (λ q v. (ok q, v)) answer same

  pub claim_execution-answer :
      {B C : Type 0} (store : ExecutionStore B C S) (failed other unresolved : R) (key : String)
      (b : B) (r : Option (B × C)) (s t : S)
      → claim_execution store failed other unresolved key b s ≡ (ok r, t)
      → store.claim key b s ≡ (ok (answer_of r), t)
  claim_execution-answer store f o u key b none s t h =
      claim_execution-claimed store f o u key b s t h
  claim_execution-answer store f o u key b (some (d, c)) s t h =
      claim_execution-completed store f o u key b d c s t h

  pub then-spend :
      {A : Type 0} (r : R) (consume : ConsumeInput → Exec Thrown S ConsumeResult) (i : ConsumeInput)
      (f : Exec (GateFault R) S A) (s t : S) (a : A)
      → (spend r consume i >> f) s ≡ (ok a, t)
      → (u : S) × IsSpent consume i s u × (f u ≡ (ok a, t))
  unfolding spend
  then-spend r consume i f s t a h =
      let (k, u, e, g) = bind-returns (spend r consume i) (λ _. f) s t a h in
      let (c, w, consumed, e1) = then-guarded r (consume i) _ s u k e in
      let (success, same) = ensure-returns c.success r _ w u k e1 in
      (u, record { consumption = c; consumed = rw same at consumed; success = success }, g)
