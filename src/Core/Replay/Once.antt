-- ===== src/Core/Replay/Once.antt =====
-- A decision's nonce is good for one execution: what the nonce store promises over a history.
use mathlib.Core.Path.{subst}
use inntris_x402_policy_adap.Base.{
  String, ◌≡◌, refl, ap, sym, ◌∙◌, true, some, List, [], ◌∷◌, arith, eq_iff, inl, inr, In,
  Option-cases,
}
use inntris_x402_policy_adap.Base.Maps.{Map, get, get-set, get-set_self}
use inntris_x402_policy_adap.Core.Replay.{
  NonceConsumption, ConsumeResult, nonce_key, repeat_result, consume_nonce, consume_all,
}

-- An entry of the store is never replaced.
pub get-consume_nonce :
    (k : String) (c e : NonceConsumption) (m : Map NonceConsumption)
    → get k m ≡ some e
    → get k (consume_nonce c m).1 ≡ some e
unfolding consume_nonce
get-consume_nonce k c e m h = ground (arith, get-set (nonce_key c) k c m, eq_iff (nonce_key c) k)

-- A success leaves an entry with the call's hash and reference under its key.
pub success-get :
    (c : NonceConsumption) (m : Map NonceConsumption)
    → (consume_nonce c m).0.success ≡ true
    → (e : NonceConsumption) × (get (nonce_key c) (consume_nonce c m).1 ≡ some e)
      × (e.action_hash ≡ c.action_hash)
      × (e.execution_ref ≡ c.execution_ref)
unfolding consume_nonce repeat_result
success-get c m h = elim (Option-cases (get (nonce_key c) m)) [
  | inl fresh ↦ (c, rw (fresh, consume_nonce) (get-set_self (nonce_key c) c m), refl, refl)
  | inr (e, old) ↦ (
    e,
    rw (old, consume_nonce) old,
    ground (arith, eq_iff e.action_hash c.action_hash),
    ground (arith, eq_iff e.execution_ref c.execution_ref),
  )
]

-- Two calls with one key name the same action and the same execution.
abbrev pub SameExecution : NonceConsumption → NonceConsumption → Type 0
SameExecution a b = (a.action_hash ≡ b.action_hash) × (a.execution_ref ≡ b.execution_ref)

pub repeat-agrees :
    (c e : NonceConsumption) (m : Map NonceConsumption)
    → get (nonce_key c) m ≡ some e
    → (consume_nonce c m).0.success ≡ true
    → SameExecution e c
unfolding consume_nonce repeat_result
repeat-agrees c e m h s = (
  ground (arith, eq_iff e.action_hash c.action_hash),
  ground (arith, eq_iff e.execution_ref c.execution_ref),
)

-- A success later in a history agrees with the entry that its key has now.
agrees :
    (cs : List NonceConsumption) (m : Map NonceConsumption) (e : NonceConsumption)
    (t : NonceConsumption × ConsumeResult)
    → get (nonce_key t.0) m ≡ some e
    → In t (consume_all cs m)
    → t.1.success ≡ true
    → SameExecution e t.0
unfolding consume_all
agrees [] m e t h i s = absurd i
agrees (d ∷ cs) m e t h (inl p) s =
    subst (λ u. get (nonce_key u.0) m ≡ some e → u.1.success ≡ true → SameExecution e u.0) p
      (repeat-agrees d e m) h s
agrees (d ∷ cs) m e t h (inr i) s =
    agrees cs (consume_nonce d m).1 e t (get-consume_nonce (nonce_key t.0) d e m h) i s

-- So does every success after one under the same key.
after-success :
    (d : NonceConsumption) (cs : List NonceConsumption) (m : Map NonceConsumption)
    (t : NonceConsumption × ConsumeResult)
    → nonce_key d ≡ nonce_key t.0
    → (consume_nonce d m).0.success ≡ true
    → In t (consume_all cs (consume_nonce d m).1)
    → t.1.success ≡ true
    → SameExecution d t.0
after-success d cs m t k s i st =
    let (e, stored, a, b) = success-get d m s in
    let (a', b') = agrees cs (consume_nonce d m).1 e t (rw (← k) stored) i st in
    (sym a ∙ a', sym b ∙ b')

-- In any history of calls on a nonce store, whatever it held before, two calls that succeed under
-- one decision id and nonce name the same action hash and the same execution reference.
pub consume_all-SameExecution :
    (cs : List NonceConsumption) (m : Map NonceConsumption) (t u : NonceConsumption × ConsumeResult)
    → In t (consume_all cs m)
    → In u (consume_all cs m)
    → nonce_key t.0 ≡ nonce_key u.0
    → t.1.success ≡ true
    → u.1.success ≡ true
    → SameExecution t.0 u.0
unfolding consume_all
consume_all-SameExecution [] m t u i j k st su = absurd i
consume_all-SameExecution (d ∷ cs) m t u (inl p) (inl q) k st su =
    let e : t ≡ u = sym p ∙ q in (ap (λ v. v.0.action_hash) e, ap (λ v. v.0.execution_ref) e)
consume_all-SameExecution (d ∷ cs) m t u (inl p) (inr j) k st su =
    subst (λ v. nonce_key v.0 ≡ nonce_key u.0 → v.1.success ≡ true → SameExecution v.0 u.0) p
      (λ k' s'. after-success d cs m u k' s' j su) k st
consume_all-SameExecution (d ∷ cs) m t u (inr i) (inl q) k st su =
    subst (λ v. nonce_key v.0 ≡ nonce_key t.0 → v.1.success ≡ true → SameExecution t.0 v.0) q
      (λ k' s'. let (a, b) = after-success d cs m t k' s' i st in (sym a, sym b)) (sym k) su
consume_all-SameExecution (d ∷ cs) m t u (inr i) (inr j) k st su =
    consume_all-SameExecution cs (consume_nonce d m).1 t u i j k st su
