-- ===== src/Execution/Once.antt =====
-- The in-memory execution stores of the runtime gates, over any calls in any order: an execution is
-- claimed once, keeps its binding, and once completed keeps its result.
use inntris_x402_policy_adap.Base.{
  String, ◌≡◌, ◌≢◌, ◌↔◌, inl, inr, refl, sym, ap, ◌∙◌, Bool, true, some, List, [], ◌∷◌, arith,
  Bool-cases, Option-cases, str_eq, eq_iff, if◌then◌else◌,
}
use inntris_x402_policy_adap.Base.Exec.{ok}
use inntris_x402_policy_adap.Base.Maps.{Map, get, set, get-set, get-set_self}
use inntris_x402_policy_adap.Execution.{
  Stored, stored_in_progress, stored_completed, claimed, conflict, completed, ExecutionStore,
  memory_store, binding_of, held_answer, claim, complete, complete_held, same_binding,
}

pub data ClaimCall (B C : Type 0) : Type 0 where
  claims : String → B → ClaimCall B C
  completes : String → B → C → ClaimCall B C

-- A test that decides equality.
abbrev pub Decides : {B : Type 0} → (B → B → Bool) → Type 0
Decides {B} same = (a b : B) → (same a b ≡ true) ↔ (a ≡ b)

pub same_binding-Decides : Decides same_binding
same_binding-Decides a b =
    ground (arith, eq_iff a.binding_hash b.binding_hash, eq_iff a.execution_ref b.execution_ref)

module _ {B C : Type 0} (same : B → B → Bool) where
  unfoldable pub after_call : ClaimCall B C → Map (Stored B C) → Map (Stored B C)
  after_call (claims k b) m = (claim same k b m).1
  after_call (completes k b c) m = (complete same k b c m).1

  unfoldable pub after_calls : List (ClaimCall B C) → Map (Stored B C) → Map (Stored B C)
  unfolding after_call
  after_calls [] m = m
  after_calls (c ∷ cs) m = after_calls cs (after_call c m)

  -- How an entry may go on: its binding stays, and so does a result.
  abbrev pub Follows : Stored B C → Stored B C → Type 0
  Follows (stored_in_progress b) e = binding_of e ≡ b
  Follows (stored_completed b c) e = e ≡ stored_completed b c

  Follows-same : (e : Stored B C) → Follows e e
  Follows-same (stored_in_progress b) = refl
  Follows-same (stored_completed b c) = refl

  Follows-then : (e f g : Stored B C) → Follows e f → Follows f g → Follows e g
  Follows-then (stored_in_progress b) (stored_in_progress d) g h k = k ∙ h
  Follows-then (stored_in_progress b) (stored_completed d c) g h k = ap binding_of k ∙ h
  Follows-then (stored_completed b c) f g h k = rw h at k

  -- Every entry is still there, as one that follows it.
  pub record Grows (m n : Map (Stored B C)) : Type 0 where
    pub at :
        (k : String) (e : Stored B C)
        → get k m ≡ some e
        → (f : Stored B C) × (get k n ≡ some f) × Follows e f

  Grows-refl : (m : Map (Stored B C)) → Grows m m
  Grows-refl m = record { at = λ k e h. (e, h, Follows-same e) }

  pub Grows-trans : (m n o : Map (Stored B C)) → Grows m n → Grows n o → Grows m o
  Grows-trans m n o g h = record {
    at = λ k e found.
        let (f, there, a) = g.at k e found in
        let (i, last, b) = h.at k f there in (i, last, Follows-then e f i a b);
  }

  -- A write under a key that had no entry, or one that the new entry follows.
  set-Grows :
      (j : String) (v : Stored B C) (m : Map (Stored B C))
      → ((e : Stored B C) → get j m ≡ some e → Follows e v)
      → Grows m (set j v m)
  set-Grows j v m allowed = record {
    at = λ k e h. elim (Bool-cases (str_eq j k)) [
      | inl one ↦
          let key = (eq_iff j k).0 one in (v, get-set j k v m ∙ (rw one refl), allowed e (rw key h))
      | inr other ↦ (e, get-set j k v m ∙ (rw other h), Follows-same e)
    ];
  }

  claim-Grows : (k : String) (b : B) (m : Map (Stored B C)) → Grows m (claim same k b m).1
  unfolding claim
  claim-Grows k b m = elim (Option-cases (get k m)) [
    | inl none_there ↦
        rw (none_there, claim)
          (set-Grows k (stored_in_progress b) m (λ e h. absurd (cc (none_there, h))))
    | inr (e, there) ↦ elim (Bool-cases (same (binding_of e) b)) [
      | inl s ↦ rw (there, claim, s) (Grows-refl m)
      | inr s ↦ rw (there, claim, s) (Grows-refl m)
    ]
  ]

  module _ (decides : Decides same) where
    held-Grows :
        (k : String) (b : B) (c : C) (e : Stored B C) (m : Map (Stored B C))
        → get k m ≡ some e
        → Grows m (complete_held same k b c e m).1
    held-Grows k b c (stored_completed d r) m h = Grows-refl m
    held-Grows k b c (stored_in_progress d) m h = elim (Bool-cases (same d b)) [
      | inr s ↦ rw s (Grows-refl m)
      | inl s ↦ rw s (
          set-Grows k (stored_completed b c) m (λ e there.
            let one : e ≡ stored_in_progress d = cc (there, h) in rw one (sym ((decides d b).0 s))))
    ]

    complete-Grows :
        (k : String) (b : B) (c : C) (m : Map (Stored B C)) → Grows m (complete same k b c m).1
    unfolding complete
    complete-Grows k b c m = elim (Option-cases (get k m)) [
      | inl none_there ↦ rw (none_there, complete) (Grows-refl m)
      | inr (e, there) ↦ rw (there, complete) (held-Grows k b c e m there)
    ]

    after_call-Grows : (c : ClaimCall B C) (m : Map (Stored B C)) → Grows m (after_call c m)
    unfolding after_call
    after_call-Grows (claims k b) m = claim-Grows k b m
    after_call-Grows (completes k b c) m = complete-Grows k b c m

    pub after_calls-Grows :
        (cs : List (ClaimCall B C)) (m : Map (Stored B C)) → Grows m (after_calls cs m)
    unfolding after_calls
    after_calls-Grows [] m = Grows-refl m
    after_calls-Grows (c ∷ cs) m =
        Grows-trans m (after_call c m) _ (after_call-Grows c m)
          (after_calls-Grows cs (after_call c m))

  held-ne-claimed : (e : Stored B C) → held_answer e ≢ claimed
  held-ne-claimed (stored_in_progress b) h = cc
  held-ne-claimed (stored_completed b c) h = cc

  pub claim-entry :
      (k : String) (b : B) (e : Stored B C) (m : Map (Stored B C))
      → get k m ≡ some e
      → (claim same k b m).0 ≡ (if same (binding_of e) b then held_answer e else conflict)
  unfolding claim
  claim-entry k b e m h = elim (Bool-cases (same (binding_of e) b)) [
    | inl s ↦ rw (h, claim, s) refl
    | inr s ↦ rw (h, claim, s) refl
  ]

  entry-ne-claimed :
      (k : String) (b : B) (e : Stored B C) (m : Map (Stored B C))
      → get k m ≡ some e
      → (claim same k b m).0 ≢ claimed
  entry-ne-claimed k b e m h won = elim (Bool-cases (same (binding_of e) b)) [
    | inl s ↦ held-ne-claimed e (rw s at (sym (claim-entry k b e m h) ∙ won))
    | inr s ↦ cc (rw s at (sym (claim-entry k b e m h) ∙ won))
  ]

  -- A claim leaves an entry under its key.
  pub claimed-entry :
      (k : String) (b : B) (m : Map (Stored B C))
      → (claim same k b m).0 ≡ claimed
      → get k (claim same k b m).1 ≡ some (stored_in_progress b)
  unfolding claim
  claimed-entry k b m h = elim (Option-cases (get k m)) [
    | inl free ↦ rw (free, claim) (get-set_self k (stored_in_progress b) m)
    | inr (e, there) ↦ absurd (entry-ne-claimed k b e m there h)
  ]

  completed-entry :
      (k : String) (b : B) (c : C) (m : Map (Stored B C))
      → (complete same k b c m).0 ≡ ok tt
      → get k (complete same k b c m).1 ≡ some (stored_completed b c)
  unfolding complete
  completed-entry k b c m h = elim (Option-cases (get k m)) [
    | inl free ↦ absurd (cc (rw (free, complete) at h))
    | inr (stored_completed d r, there) ↦ absurd (cc (rw (there, complete) at h))
    | inr (stored_in_progress d, there) ↦ elim (Bool-cases (same d b)) [
      | inl s ↦ rw (there, complete, s) (get-set_self k (stored_completed b c) m)
      | inr s ↦ absurd (cc (rw (there, complete, s) at h))
    ]
  ]

-- In an in-memory execution store whose bindings are compared exactly, once an execution has been
-- claimed, no later claim under the same key is answered with `claimed`, whatever its binding is
-- and whatever calls came between.
pub claim-once :
    {B C : Type 0} (same : B → B → Bool) (k : String) (b d : B) (m : Map (Stored B C))
    (cs : List (ClaimCall B C))
    → Decides same
    → (claim same k b m).0 ≡ claimed
    → (claim same k d (after_calls same cs (claim same k b m).1)).0 ≢ claimed
claim-once same k b d m cs decides won again =
    let n = (claim same k b m).1 in
    let (e, there, f) =
      (after_calls-Grows same decides cs n).at k (stored_in_progress b)
        (claimed-entry same k b m won) in
    entry-ne-claimed same k d e (after_calls same cs n) there again

-- In an in-memory execution store whose bindings are compared exactly, once an execution has been
-- completed, a claim under its key is answered, after any calls, with that result if it has the
-- same binding, and with `conflict` otherwise; so the first result stays.
pub complete-claim :
    {B C : Type 0} (same : B → B → Bool) (k : String) (b d : B) (c : C) (m : Map (Stored B C))
    (cs : List (ClaimCall B C))
    → Decides same
    → (complete same k b c m).0 ≡ ok tt
    → (claim same k d (after_calls same cs (complete same k b c m).1)).0
      ≡ (if same b d then completed b c else conflict)
complete-claim same k b d c m cs decides done =
    let n = (complete same k b c m).1 in
    let (e, there, f) =
      (after_calls-Grows same decides cs n).at k (stored_completed b c)
        (completed-entry same k b c m done) in
    claim-entry same k d e (after_calls same cs n) there
    ∙ ap (λ g. if same (binding_of g) d then held_answer g else conflict) f

module _ {B C W : Type 0} (same : B → B → Bool) where
  abbrev Wins : String → B → W × Map (Stored B C) → W × Map (Stored B C) → Type 0
  Wins k b s t = ((claim same k b s.1).0 ≡ claimed) × ((claim same k b s.1).1 ≡ t.1)

  -- A claim that is won in an in-memory store beside other state.
  memory-Wins :
      (store : ExecutionStore B C (W × Map (Stored B C))) (k : String) (b : B)
      (s t : W × Map (Stored B C))
      → store ≡ memory_store same
      → store.claim k b s ≡ (ok claimed, t)
      → Wins k b s t
  memory-Wins store k b s t memory h =
      let e = rw memory at h in (cc (ap (λ r. r.0) e), ap (λ r. r.1.1) e)

  -- Two runs cannot both win a claim under one key, whatever came between.
  pub wins-once :
      (store : ExecutionStore B C (W × Map (Stored B C))) (k j : String) (b d : B)
      (s t u v : W × Map (Stored B C)) (cs : List (ClaimCall B C))
      → store ≡ memory_store same
      → Decides same
      → k ≡ j
      → store.claim k b s ≡ (ok claimed, t)
      → u.1 ≡ after_calls same cs t.1
      → store.claim j d u ≡ (ok claimed, v)
      → ⊥
  wins-once store k j b d s t u v cs memory decides key first later second =
      let (won, state) = memory-Wins store k b s t memory first in
      let (again, last) = memory-Wins store j d u v memory second in
      claim-once same k b d s.1 cs decides won (rw (state, ← later, key) again)
