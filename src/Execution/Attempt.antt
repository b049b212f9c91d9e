-- ===== src/Execution/Attempt.antt =====
-- The in-memory execution stores of the runtime gates: an attempt that no call completes.
use inntris_x402_policy_adap.Base.{
  String, ◌≡◌, ◌≢◌, inl, inr, refl, ap, ◌∙◌, some, List, [], ◌∷◌, Bool, Bool-cases, Option-cases,
  str_eq, eq_iff,
}
use inntris_x402_policy_adap.Base.Maps.{Map, get, set, get-set}
use inntris_x402_policy_adap.Execution.{
  Stored, stored_in_progress, stored_completed, binding_of, claim, complete, complete_held,
}
use inntris_x402_policy_adap.Execution.Once.{ClaimCall, claims, completes, after_call, after_calls}

-- Among the calls there is no `complete` under the key.
abbrev pub NeverCompletes : {B C : Type 0} → String → List (ClaimCall B C) → Type 0
NeverCompletes key [] = Unit {0}
NeverCompletes key (claims k b ∷ cs) = NeverCompletes key cs
NeverCompletes key (completes k b c ∷ cs) = (k ≢ key) × NeverCompletes key cs

get-set_ne : {V : Type 0} (j k : String) (v : V) (m : Map V) → j ≢ k → get k (set j v m) ≡ get k m
get-set_ne j k v m other = elim (Bool-cases (str_eq j k)) [
  | inl one ↦ absurd (other ((eq_iff j k).0 one))
  | inr apart ↦ get-set j k v m ∙ (rw apart refl)
]

module _ {B C : Type 0} (same : B → B → Bool) where
  -- A claim changes no entry.
  get-claim :
      (j k : String) (d : B) (e : Stored B C) (m : Map (Stored B C))
      → get k m ≡ some e
      → get k (claim same j d m).1 ≡ some e
  unfolding claim
  get-claim j k d e m there = elim (Option-cases (get j m)) [
    | inl free ↦
        rw (free, claim)
          (get-set_ne j k (stored_in_progress d) m (λ one. cc (ap (λ i. get i m) one, free, there))
            ∙ there)
    | inr (f, held) ↦ elim (Bool-cases (same (binding_of f) d)) [
      | inl s ↦ rw (held, claim, s) there
      | inr s ↦ rw (held, claim, s) there
    ]
  ]

  get-complete_held :
      (j k : String) (d : B) (c : C) (f : Stored B C) (m : Map (Stored B C))
      → j ≢ k
      → get k (complete_held same j d c f m).1 ≡ get k m
  get-complete_held j k d c (stored_completed b r) m other = refl
  get-complete_held j k d c (stored_in_progress b) m other = elim (Bool-cases (same b d)) [
    | inl s ↦ rw s (get-set_ne j k (stored_completed d c) m other)
    | inr s ↦ rw s refl
  ]

  -- `complete` changes no entry under another key.
  get-complete :
      (j k : String) (d : B) (c : C) (m : Map (Stored B C))
      → j ≢ k
      → get k (complete same j d c m).1 ≡ get k m
  unfolding complete
  get-complete j k d c m other = elim (Option-cases (get j m)) [
    | inl free ↦ rw (free, complete) refl
    | inr (f, held) ↦ rw (held, complete) (get-complete_held j k d c f m other)
  ]

  -- An entry stays as it is through calls that do not complete it.
  pub get-after_calls :
      (k : String) (e : Stored B C) (cs : List (ClaimCall B C)) (m : Map (Stored B C))
      → NeverCompletes k cs
      → get k m ≡ some e
      → get k (after_calls same cs m) ≡ some e
  unfolding after_calls after_call
  get-after_calls k e [] m never there = there
  get-after_calls k e (claims j d ∷ cs) m never there =
      get-after_calls k e cs (claim same j d m).1 never (get-claim j k d e m there)
  get-after_calls k e (completes j d c ∷ cs) m never there =
      get-after_calls k e cs (complete same j d c m).1 never.1
        (get-complete j k d c m never.0 ∙ there)
