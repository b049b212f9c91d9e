-- ===== src/Base/First.antt =====
-- The first member of a list that passes a test, without the loop.
use mathlib.Core.Path.{◌≡◌, refl, ap}
use mathlib.Core.Logic.{inl, inr}
use mathlib.Core.Bool.{Bool, true, false, ◌&&◌}
use mathlib.Core.Option.{some}
use mathlib.Core.List.{List, [], ◌∷◌, ◌++◌}
use native.Mathlib.Omega.{arith}
use inntris_x402_policy_adap.Base.Tests.{Bool-cases}
use inntris_x402_policy_adap.Base.Lists.{find, keep}

module _ {A : Type 0} where
  abbrev pub Each : (A → Type 0) → List A → Type 0
  Each P [] = Unit
  Each P (x ∷ xs) = P x × Each P xs

  pub record IsFirst (p : A → Bool) (xs : List A) (a : A) : Type 0 where
    pub before : List A
    pub after : List A
    pub split : xs ≡ before ++ a ∷ after
    pub passes : p a ≡ true
    pub others : Each (λ b. p b ≡ false) before

  pub find-IsFirst : (p : A → Bool) (xs : List A) (a : A) → find p xs ≡ some a → IsFirst p xs a
  find-IsFirst p [] a h = absurd (cc)
  find-IsFirst p (x ∷ xs) a h = elim (Bool-cases (p x)) [
    | inl e ↦
        let same : x ≡ a = ground arith in
        record {
          before = [];
          after = xs;
          split = ap (λ y. y ∷ xs) same;
          passes = rw (← same) e;
          others = tt;
        }
    | inr e ↦
        let r = find-IsFirst p xs a (ground arith) in
        record {
          before = x ∷ r.before;
          after = r.after;
          split = ap (λ ys. x ∷ ys) r.split;
          passes = r.passes;
          others = (e, r.others);
        }
  ]

  find_split :
      (p : A → Bool) (before after : List A) (a : A)
      → p a ≡ true
      → Each (λ b. p b ≡ false) before
      → find p (before ++ a ∷ after) ≡ some a
  find_split p [] after a h e = rw h
  find_split p (b ∷ bs) after a h e = rw (e.0) (find_split p bs after a h e.1)

  pub IsFirst-find : (p : A → Bool) (xs : List A) (a : A) → IsFirst p xs a → find p xs ≡ some a
  IsFirst-find p xs a f = rw f.split (find_split p f.before f.after a f.passes f.others)

  pub find-keep : (p q : A → Bool) (xs : List A) → find q (keep p xs) ≡ find (λ a. p a && q a) xs
  find-keep p q [] = refl
  find-keep p q (x ∷ xs) = elim (Bool-cases (p x)) [
    | inl e ↦ rw e (ground (arith, find-keep p q xs))
    | inr e ↦ rw e (find-keep p q xs)
  ]
