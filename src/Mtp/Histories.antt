-- ===== src/Mtp/Histories.antt =====
-- The methods of the in-memory authority store of packages/mtp-authority/src/store.ts, in any order.
use inntris_x402_policy_adap.Base.{
  String, ◌≡◌, inl, inr, refl, false, Option, none, some, List, [], ◌∷◌, not, ◌&&◌, ◌||◌, arith,
  str_eq, option_eq, option_eq-some, Bool-cases, Option-cases,
}
use inntris_x402_policy_adap.Base.Maps.{get}
use inntris_x402_policy_adap.Core.Json.{Externals}
use inntris_x402_policy_adap.Mtp.Store.{
  Authorization, Authorizations, ConsumptionReceipt, save_authorization, any_duplicate,
  claim_record, claim_authorization, consume_record, mark_mtp_consumed, complete_record,
  mark_complete, with_consumption, with_completion,
}
use inntris_x402_policy_adap.Mtp.Uniqueness.{
  IsSound, IsFresh, set-IsSound, held-Alone, save-IsSound, claim_record-Alone,
}

claim-IsSound :
    (id hash ref : String) (m : Authorizations)
    → IsSound m
    → IsSound (claim_authorization id hash ref m).1
unfolding claim_authorization
claim-IsSound id hash ref m s = elim (Option-cases (get id m)) [
  | inl e ↦ rw (claim_authorization, e) s
  | inr (a, e) ↦ elim (Bool-cases (str_eq a.action_hash hash)) [
    | inr f ↦ rw (claim_authorization, e, f) s
    | inl f ↦ rw (claim_authorization, e, f) (claim_record-IsSound a e)
  ]
]
  where
    claim_record-IsSound :
        (a : Authorization) → get id m ≡ some a → IsSound (claim_record id ref a m).1
    claim_record-IsSound a e = elim (Option-cases a.execution_ref) [
      | inr (r, f) ↦ elim (Bool-cases (str_eq r ref)) [
        | inl g ↦ rw (claim_record, f, g) s
        | inr g ↦ rw (claim_record, f, g) s
      ]
      | inl f ↦ elim (Bool-cases (any_duplicate id a.request.agent_id ref m)) [
        | inl g ↦ rw (claim_record, f, g) s
        | inr g ↦
            let o = s.ordered id a e in
            rw (claim_record, f, g)
              (set-IsSound id (record a { execution_ref = some ref }) m s (s.keyed id a e)
                (record { claimed = λ audit h. (ref, refl); consumed = o.consumed })
                (claim_record-Alone id ref a m s g))
      ]
    ]

option_eq-none : (o : Option String) → option_eq o none ≡ false → (s : String) × (o ≡ some s)
option_eq-none none h = cc
option_eq-none (some a) h = (a, refl)

consume_record-IsSound :
    (id ref : String) (r : ConsumptionReceipt) (a : Authorization) (m : Authorizations)
    → IsSound m
    → get id m ≡ some a
    → IsSound (consume_record id ref r a m).1
consume_record-IsSound id ref r a m s e =
    elim (Bool-cases
      (not (option_eq a.execution_ref (some ref)) || not (str_eq r.execution_ref ref))) [
        | inl f ↦ rw (consume_record, f) s
        | inr f ↦
            elim (Bool-cases (
              not (option_eq a.consumption_audit_id none)
              && not (option_eq a.consumption_audit_id (some r.audit_id)))) [
                | inl g ↦ rw (consume_record, f, g) s
                | inr g ↦
                    let claimed = option_eq-some a.execution_ref ref (ground arith) in
                    rw (consume_record, f, g)
                      (set-IsSound id (with_consumption r a) m s (s.keyed id a e)
                        (record {
                          claimed = λ audit h. (ref, claimed);
                          consumed = λ at h. (r.audit_id, refl);
                        })
                        (held-Alone id a (with_consumption r a) m s e refl refl))
              ]
      ]

complete_record-IsSound :
    (id ref at : String) (a : Authorization) (m : Authorizations)
    → IsSound m
    → get id m ≡ some a
    → IsSound (complete_record id ref at a m).1
complete_record-IsSound id ref at a m s e =
    elim (Bool-cases
      (not (option_eq a.execution_ref (some ref)) || option_eq a.consumption_audit_id none)) [
        | inl f ↦ rw (complete_record, f) s
        | inr f ↦
            let spent = option_eq-none a.consumption_audit_id (ground arith) in
            let o = s.ordered id a e in
            rw (complete_record, f)
              (set-IsSound id (with_completion at a) m s (s.keyed id a e)
                (record { claimed = o.claimed; consumed = λ t h. spent })
                (held-Alone id a (with_completion at a) m s e refl refl))
      ]

consume-IsSound :
    (id ref : String) (r : ConsumptionReceipt) (m : Authorizations)
    → IsSound m
    → IsSound (mark_mtp_consumed id ref r m).1
unfolding mark_mtp_consumed
consume-IsSound id ref r m s = elim (Option-cases (get id m)) [
  | inl e ↦ rw (mark_mtp_consumed, e) s
  | inr (a, e) ↦ rw (mark_mtp_consumed, e) (consume_record-IsSound id ref r a m s e)
]

complete-IsSound :
    (id ref at : String) (m : Authorizations) → IsSound m → IsSound (mark_complete id ref at m).1
unfolding mark_complete
complete-IsSound id ref at m s = elim (Option-cases (get id m)) [
  | inl e ↦ rw (mark_complete, e) s
  | inr (a, e) ↦ rw (mark_complete, e) (complete_record-IsSound id ref at a m s e)
]

-- A call of a method that writes.
pub data AuthorityCall : Type 0 where
  saves : (a : Authorization) → IsFresh a → AuthorityCall
  claims : String → String → String → AuthorityCall
  consumes : String → String → ConsumptionReceipt → AuthorityCall
  completes : String → String → String → AuthorityCall

unfoldable pub after_authority_calls :
    Externals → List AuthorityCall → Authorizations → Authorizations
after_authority_calls x [] m = m
after_authority_calls x (saves a f ∷ cs) m = after_authority_calls x cs (save_authorization x a m).1
after_authority_calls x (claims id hash ref ∷ cs) m =
    after_authority_calls x cs (claim_authorization id hash ref m).1
after_authority_calls x (consumes id ref r ∷ cs) m =
    after_authority_calls x cs (mark_mtp_consumed id ref r m).1
after_authority_calls x (completes id ref at ∷ cs) m =
    after_authority_calls x cs (mark_complete id ref at m).1

-- In the in-memory authority store, any calls in any order, of which the saves have a record without
-- an execution, keep these facts: each record stands under its own decision, a consumed record has a
-- claimed execution reference, a completed one was consumed, and no two decisions of one agent have
-- claimed the same execution reference. They hold of the empty store.
pub authority_calls-IsSound :
    (x : Externals) (cs : List AuthorityCall) (m : Authorizations)
    → IsSound m
    → IsSound (after_authority_calls x cs m)
unfolding after_authority_calls
authority_calls-IsSound x [] m s = s
authority_calls-IsSound x (saves a f ∷ cs) m s =
    authority_calls-IsSound x cs _ (save-IsSound x a m f s)
authority_calls-IsSound x (claims id hash ref ∷ cs) m s =
    authority_calls-IsSound x cs _ (claim-IsSound id hash ref m s)
authority_calls-IsSound x (consumes id ref r ∷ cs) m s =
    authority_calls-IsSound x cs _ (consume-IsSound id ref r m s)
authority_calls-IsSound x (completes id ref at ∷ cs) m s =
    authority_calls-IsSound x cs _ (complete-IsSound id ref at m s)

pub empty-IsSound : IsSound []
unfolding get
empty-IsSound = record {
  keyed = λ k a h. absurd (cc h);
  ordered = λ k a h. absurd (cc h);
  unique = λ k j a b ref h i agent p q. absurd (cc h);
}
