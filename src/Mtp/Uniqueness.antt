-- ===== src/Mtp/Uniqueness.antt =====
-- The in-memory authority store of packages/mtp-authority/src/store.ts over any calls: what is claimed,
-- in which order, and for whom.
use inntris_x402_policy_adap.Base.{
  String, ◌≡◌, ◌⊎◌, inl, inr, refl, sym, ap, ◌∙◌, Bool, true, false, none, some, [], ◌∷◌, ◌||◌,
  str_eq, eq_iff, eq_refl, option_eq, if◌then◌else◌, Bool-cases, Option-cases,
}
use inntris_x402_policy_adap.Base.Maps.{get, set, get-set}
use inntris_x402_policy_adap.Core.Json.{Externals}
use inntris_x402_policy_adap.Base.Exec.{pure, throw}
use inntris_x402_policy_adap.Mtp.Store.{
  Authorization, Authorizations, immutable_authorization, save_authorization, is_duplicate,
  any_duplicate,
}

-- A completed execution was consumed, and a consumed one was claimed.
pub record IsOrdered (a : Authorization) : Type 0 where
  pub claimed :
      (audit : String)
      → a.consumption_audit_id ≡ some audit
      → (ref : String) × (a.execution_ref ≡ some ref)
  pub consumed :
      (at : String)
      → a.completed_at ≡ some at
      → (audit : String) × (a.consumption_audit_id ≡ some audit)

-- Each record stands under its own decision and is ordered, and no two decisions of one agent have
-- claimed one execution reference.
pub record IsSound (m : Authorizations) : Type 0 where
  pub keyed : (k : String) (a : Authorization) → get k m ≡ some a → a.decision_id ≡ k
  pub ordered : (k : String) (a : Authorization) → get k m ≡ some a → IsOrdered a
  pub unique :
      (k j : String) (a b : Authorization) (ref : String)
      → get k m ≡ some a
      → get j m ≡ some b
      → a.request.agent_id ≡ b.request.agent_id
      → a.execution_ref ≡ some ref
      → b.execution_ref ≡ some ref
      → k ≡ j

-- No other decision of the record's agent has the record's reference.
abbrev pub Alone : String → Authorization → Authorizations → Type 0
Alone id v m =
    (j : String) (b : Authorization) (ref : String)
    → get j m ≡ some b
    → v.request.agent_id ≡ b.request.agent_id
    → v.execution_ref ≡ some ref
    → b.execution_ref ≡ some ref
    → id ≡ j

-- What is read after a write: the new value under its own key, or an old one.
set-cases :
    (id : String) (v : Authorization) (m : Authorizations) (k : String) (a : Authorization)
    → get k (set id v m) ≡ some a
    → ((id ≡ k) × (v ≡ a)) ⊎ (get k m ≡ some a)
set-cases id v m k a h =
    let read : (if str_eq id k then some v else get k m) ≡ some a = sym (get-set id k v m) ∙ h in
    elim (Bool-cases (str_eq id k)) [
      | inl e ↦ inl ((eq_iff id k).0 e, cc (rw e at read))
      | inr e ↦ inr (rw e at read)
    ]

pub set-IsSound :
    (id : String) (v : Authorization) (m : Authorizations)
    → IsSound m
    → v.decision_id ≡ id
    → IsOrdered v
    → Alone id v m
    → IsSound (set id v m)
set-IsSound id v m s own ordered alone = record {
  keyed = λ k a h. elim (set-cases id v m k a h) [
    | inl (e, f) ↦ cc (ap (λ z. z.decision_id) f, own, e)
    | inr old ↦ s.keyed k a old
  ];
  ordered = λ k a h. elim (set-cases id v m k a h) [
    | inl (e, f) ↦ rw (← f) ordered
    | inr old ↦ s.ordered k a old
  ];
  unique = λ k j a b ref h i agent p q. elim (set-cases id v m k a h) [
    | inl (e, f) ↦ elim (set-cases id v m j b i) [
      | inl (e2, f2) ↦ sym e ∙ e2
      | inr old ↦ sym e ∙ alone j b ref old (rw (← f) at agent) (rw (← f) at p) q
    ]
    | inr old ↦ elim (set-cases id v m j b i) [
      | inl (e2, f2) ↦
          sym (sym e2 ∙ alone k a ref old (sym (rw (← f2) at agent)) (rw (← f2) at q) p)
      | inr old2 ↦ s.unique k j a b ref old old2 agent p q
    ]
  ];
}

-- A record may be saved before it is claimed.
pub record IsFresh (a : Authorization) : Type 0 where
  pub unclaimed : a.execution_ref ≡ none
  pub unconsumed : a.consumption_audit_id ≡ none
  pub incomplete : a.completed_at ≡ none

fresh-IsOrdered : (a : Authorization) → IsFresh a → IsOrdered a
fresh-IsOrdered a f = record {
  claimed = λ audit h. absurd (cc (f.unconsumed, h));
  consumed = λ at h. absurd (cc (f.incomplete, h));
}

-- A record of the store is alone with its reference.
pub held-Alone :
    (id : String) (a v : Authorization) (m : Authorizations)
    → IsSound m
    → get id m ≡ some a
    → v.request.agent_id ≡ a.request.agent_id
    → v.execution_ref ≡ a.execution_ref
    → Alone id v m
held-Alone id a v m s h agent same j b ref there peer p q =
    s.unique id j a b ref h there (sym agent ∙ peer) (sym same ∙ p) q

pub save-IsSound :
    (x : Externals) (a : Authorization) (m : Authorizations)
    → IsFresh a
    → IsSound m
    → IsSound (save_authorization x a m).1
unfolding save_authorization pure throw
save-IsSound x a m f s = elim (Option-cases (get a.decision_id m)) [
  | inl e ↦
      rw (save_authorization, e)
        (set-IsSound a.decision_id a m s refl (fresh-IsOrdered a f)
          (λ j b ref h agent p q. absurd (cc (f.unclaimed, p))))
  | inr (b, e) ↦
      elim (Bool-cases (
        str_eq (x.canonicalise (immutable_authorization b))
          (x.canonicalise (immutable_authorization a)))) [
            | inr g ↦ rw (save_authorization, e, g) s
            | inl g ↦
                rw (save_authorization, e, g)
                  (set-IsSound a.decision_id b m s (s.keyed a.decision_id b e)
                    (s.ordered a.decision_id b e) (held-Alone a.decision_id b b m s e refl refl))
          ]
]

or-eq-false : (a b : Bool) → (a || b) ≡ false → (a ≡ false) × (b ≡ false)
or-eq-false false false h = (refl, refl)
or-eq-false true b h = cc
or-eq-false false true h = cc

-- A record that is read is not a duplicate when none is.
get-duplicate :
    (id agent ref k : String) (m : Authorizations) (b : Authorization)
    → get k m ≡ some b
    → any_duplicate id agent ref m ≡ false
    → is_duplicate id agent ref (k, b) ≡ false
unfolding get
get-duplicate id agent ref k [] b h n = cc
get-duplicate id agent ref k ((j, c) ∷ m) b h n =
    let (first, rest) = or-eq-false (is_duplicate id agent ref (j, c)) _ n in
    elim (Bool-cases (str_eq j k)) [
      | inl e ↦ let same : c ≡ b = cc (rw e at h) in rw same at first
      | inr e ↦ get-duplicate id agent ref k m b (rw e at h) rest
    ]

pub claim_record-Alone :
    (id ref : String) (a : Authorization) (m : Authorizations)
    → IsSound m
    → any_duplicate id a.request.agent_id ref m ≡ false
    → Alone id (record a { execution_ref = some ref }) m
claim_record-Alone id ref a m s none_there j b r h agent p q =
    let clear = get-duplicate id a.request.agent_id ref j m b h none_there in
    let own = s.keyed j b h in
    elim (Bool-cases (str_eq j id)) [
      | inl e ↦ sym ((eq_iff j id).0 e)
      | inr e ↦
          let same : ref ≡ r = cc p in
          let agrees : str_eq b.request.agent_id a.request.agent_id ≡ true =
            (eq_iff _ _).1 (sym agent) in
          let claims : option_eq b.execution_ref (some ref) ≡ true = rw (q, ← same) (eq_refl ref) in
          absurd (cc (rw (own, e, agrees, claims) at clear))
    ]
