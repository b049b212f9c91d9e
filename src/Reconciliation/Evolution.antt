-- ===== src/Reconciliation/Evolution.antt =====
-- What a call on the in-memory reconciliation store may do to the map of operations.
use inntris_x402_policy_adap.Base.{
  String, ◌≡◌, none, some, inl, inr, Bool-cases, Option-cases, str_eq, eq_iff, if◌then◌else◌,
}
use inntris_x402_policy_adap.Base.Keeps.{IsOrder}
use inntris_x402_policy_adap.Base.Maps.{get, set, get-set}
use inntris_x402_policy_adap.Core.Json.{Externals}
use inntris_x402_policy_adap.Reconciliation.Types.{Operation, PrepareOperation}
use inntris_x402_policy_adap.Reconciliation.Store.{Operations, prepared_operation, operation_id_of}
use inntris_x402_policy_adap.Reconciliation.Steps.{Step, Steps, stays, then_, append}

module _ (x : Externals) where
  -- Where an operation of the new map comes from.
  pub data Origin (m : Operations) (k : String) (s : Operation) : Type 0 where
    grown : (r : Operation) → get k m ≡ some r → Steps r s → Origin m k s
    fresh :
        (i : PrepareOperation)
        → get k m ≡ none
        → operation_id_of x i ≡ k
        → Steps (prepared_operation x i) s
        → Origin m k s

  -- No operation is dropped, and each operation grew by steps from what its key held, or from a
  -- preparation under that key.
  pub record Evolves (m n : Operations) : Type 0 where
    pub forward :
        (k : String) (r : Operation)
        → get k m ≡ some r
        → (s : Operation) × (get k n ≡ some s) × Steps r s
    pub backward : (k : String) (s : Operation) → get k n ≡ some s → Origin m k s

  origin-then :
      (m n : Operations) (k : String) (s t : Operation) → Origin m k s → Steps s t → Origin m k t
  origin-then m n k s t (grown r e p) q = grown r e (append r s t p q)
  origin-then m n k s t (fresh i e j p) q = fresh i e j (append _ s t p q)

  forward-none : (m n : Operations) (k : String) → Evolves m n → get k n ≡ none → get k m ≡ none
  forward-none m n k e h = elim (Option-cases (get k m)) [
    | inl f ↦ f
    | inr (r, f) ↦ let (s, g, p) = e.forward k r f in absurd (cc)
  ]

  pub Evolves-order : IsOrder Evolves
  Evolves-order = record {
    same =
        λ m. record { forward = λ k r h. (r, h, stays r); backward = λ k s h. grown s h (stays s) };
    then_ = λ m n o e f. record {
      forward = λ k r h.
          let (s, g, p) = e.forward k r h in
          let (t, i, q) = f.forward k s g in (t, i, append r s t p q);
      backward = λ k t h. elim (f.backward k t h) [
        | grown s g q ↦ origin-then m n k s t (e.backward k s g) q
        | fresh i g j q ↦ fresh i (forward-none m n k e g) j q
      ];
    };
  }

  -- A step of one operation, written under its key.
  pub set-Evolves :
      (m : Operations) (id : String) (r s : Operation)
      → get id m ≡ some r
      → Step r s
      → Evolves m (set id s m)
  set-Evolves m id r s h p = record {
    forward = λ k t g. elim (Bool-cases (str_eq id k)) [
      | inl e ↦
          let same : id ≡ k = (eq_iff id k).0 e in
          let one : t ≡ r = cc in (s, rw (get-set id k s m, e), rw one (then_ r s s p (stays s)))
      | inr e ↦ (t, rw (get-set id k s m, e) g, stays t)
    ];
    backward = λ k t g. elim (Bool-cases (str_eq id k)) [
      | inl e ↦
          let same : id ≡ k = (eq_iff id k).0 e in
          let written : (if str_eq id k then some s else get k m) ≡ some t =
            rw (get-set id k s m) at g in
          let one : s ≡ t = cc (rw e at written) in
          grown r (rw (← same) h) (rw (← one) (then_ r s s p (stays s)))
      | inr e ↦
          let kept : (if str_eq id k then some s else get k m) ≡ some t =
            rw (get-set id k s m) at g in
          grown t (rw e at kept) (stays t)
    ];
  }

  -- A preparation under a key that is not taken.
  pub new-Evolves :
      (m : Operations) (i : PrepareOperation)
      → get (operation_id_of x i) m ≡ none
      → Evolves m (set (operation_id_of x i) (prepared_operation x i) m)
  new-Evolves m i h =
      let id = operation_id_of x i in
      let s = prepared_operation x i in
      record {
        forward = λ k t g. elim (Bool-cases (str_eq id k)) [
          | inl e ↦ let same : id ≡ k = (eq_iff id k).0 e in absurd (cc)
          | inr e ↦ (t, rw (get-set id k s m, e) g, stays t)
        ];
        backward = λ k t g. elim (Bool-cases (str_eq id k)) [
          | inl e ↦
              let same : id ≡ k = (eq_iff id k).0 e in
              let written : (if str_eq id k then some s else get k m) ≡ some t =
                rw (get-set id k s m) at g in
              let one : s ≡ t = cc (rw e at written) in
              fresh i (rw (← same) h) same (rw (← one) (stays s))
          | inr e ↦
              let kept : (if str_eq id k then some s else get k m) ≡ some t =
                rw (get-set id k s m) at g in
              grown t (rw e at kept) (stays t)
        ];
      }
