-- ===== src/Base/Returns.antt =====
-- What a call that returns has done: one rule for each way to build a call.
use mathlib.Core.Path.{◌≡◌, refl, ap}
use mathlib.Core.Logic.{◌≢◌, inl, inr}
use mathlib.Core.Bool.{Bool, true, false, not}
use mathlib.Core.Option.{Option, none, some}
use inntris_x402_policy_adap.Base.Tests.{if◌then◌else◌}
use inntris_x402_policy_adap.Base.Exec.{
  pure, throw, Result, ok, err, bind, require, or_throw, Exec, lift, ◌>>=◌, continue, catching,
  Result-cases,
}

module _ {E S A B : Type 0} where
  pub bind-returns :
      (m : Exec E S A) (f : A → Exec E S B) (s u : S) (b : B)
      → (m >>= f) s ≡ (ok b, u)
      → (a : A) × (t : S) × (m s ≡ (ok a, t)) × (f a t ≡ (ok b, u))
  unfolding ◌>>=◌
  bind-returns m f s u b h = go (m s).0 refl h
    where
      go :
          (r : Result E A)
          → (m s).0 ≡ r
          → continue r f (m s).1 ≡ (ok b, u)
          → (a : A) × (t : S) × (m s ≡ (ok a, t)) × (f a t ≡ (ok b, u))
      go (ok a) e k = (a, (m s).1, ap (λ r. (r, (m s).1)) e, k)
      go (err e) q k = absurd (cc)

pub lift-returns :
    {E S A : Type 0} (r : Result E A) (s t : S) (a : A)
    → lift r s ≡ (ok a, t)
    → (r ≡ ok a) × (s ≡ t)
unfolding lift
lift-returns r s t a h = (ap (λ p. p.0) h, ap (λ p. p.1) h)

pub throw-returns : {E S A : Type 0} (e : E) (s : S) (a : A) (t : S) → throw e s ≢ (ok a, t)
unfolding throw
throw-returns e s a t h = cc

pub catch-returns :
    {E F S A : Type 0} (m : Exec E S A) (h : E → Exec F S A) (s t : S) (a : A)
    → ((e : E) (u : S) → h e u ≢ (ok a, t))
    → catching m h s ≡ (ok a, t)
    → ((m s).0 ≡ ok a) × ((m s).1 ≡ t)
unfolding catching
catch-returns m h s t a n k = elim (Result-cases (m s).0) [
  | inl (e, f) ↦ absurd (n e (m s).1 (rw (catching, f) at k))
  | inr (b, f) ↦
      let answer = rw (catching, f) at k in
      let same : b ≡ a = cc (ap (λ p. p.0) answer) in (rw same at f, ap (λ p. p.1) answer)
]

-- `if (!test) throw e; return a`
pub unless-returns :
    {E S A : Type 0} (b : Bool) (e : E) (a c : A) (s t : S)
    → (if not b then throw e else pure a) s ≡ (ok c, t)
    → (b ≡ true) × (a ≡ c) × (s ≡ t)
unfolding pure throw
unless-returns true e a c s t h = (refl, cc (ap (λ p. p.0) h), ap (λ p. p.1) h)
unless-returns false e a c s t h = absurd (cc (ap (λ p. p.0) h))

pub require-then :
    {E A : Type 0} (b : Bool) (e : E) (f : Unit {0} → Result E A) (a : A)
    → bind (require b e) f ≡ ok a
    → (b ≡ true) × (f tt ≡ ok a)
require-then true e f a h = (refl, h)
require-then false e f a h = absurd (cc)

pub or_throw-ok : {E A : Type 0} (o : Option A) (e : E) (a : A) → or_throw o e ≡ ok a → o ≡ some a
or_throw-ok none e a h = cc
or_throw-ok (some b) e a h = cc
