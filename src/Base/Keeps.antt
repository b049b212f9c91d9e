-- ===== src/Base/Keeps.antt =====
-- Relations between the state before and after a call, one rule for each way to build a call.
use mathlib.Core.Bool.{Bool, true, false}
use inntris_x402_policy_adap.Base.Tests.{if◌then◌else◌}
use inntris_x402_policy_adap.Base.Exec.{Result, ok, err, Exec, ◌>>=◌, continue, pure, throw, lift}

pub record IsOrder {S : Type 0} (R : S → S → Type 0) : Type 0 where
  pub same : (s : S) → R s s
  pub then_ : (s t u : S) → R s t → R t u → R s u

-- A call that returns or throws leaves a state that `R` allows.
pub record Keeps {E S A : Type 0} (R : S → S → Type 0) (act : Exec E S A) : Type 0 where
  pub at : (s : S) → R s (act s).1

module _ {E S A B : Type 0} {R : S → S → Type 0} (order : IsOrder R) where
  continue-Keeps :
      (r : Result E A) (f : A → Exec E S B) (s t : S)
      → R s t
      → ((a : A) → Keeps R (f a))
      → R s (continue r f t).1
  continue-Keeps (ok a) f s t h k = order.then_ s t (f a t).1 h ((k a).at t)
  continue-Keeps (err e) f s t h k = h

  pub Keeps-bind :
      (act : Exec E S A) (f : A → Exec E S B)
      → Keeps R act
      → ((a : A) → Keeps R (f a))
      → Keeps R (act >>= f)
  unfolding ◌>>=◌
  Keeps-bind act f h k = record { at = λ s. continue-Keeps (act s).0 f s (act s).1 (h.at s) k }

module _ {E S A : Type 0} {R : S → S → Type 0} (order : IsOrder R) where
  pub Keeps-pure : (a : A) → Keeps R (pure {E = E} a)
  unfolding pure
  Keeps-pure a = record { at = order.same }

  pub Keeps-throw : (e : E) → Keeps R (throw {A = A} e)
  unfolding throw
  Keeps-throw e = record { at = order.same }

  pub Keeps-lift : (r : Result E A) → Keeps R (lift r)
  unfolding lift
  Keeps-lift r = record { at = order.same }

module _ {E S A : Type 0} (R : S → S → Type 0) where
  pub Keeps-if :
      (b : Bool) (act other : Exec E S A)
      → Keeps R act
      → Keeps R other
      → Keeps R (if b then act else other)
  Keeps-if true act other h k = h
  Keeps-if false act other h k = k
