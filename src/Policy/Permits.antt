-- ===== src/Policy/Permits.antt =====
-- What packages/policy-engine/src/evaluate.ts allows, said without the order of its checks.
use inntris_x402_policy_adap.Base.{
  ℕ, ◌<◌, String, ◌≡◌, ◌↔◌, refl, Bool, true, false, ◌&&◌, Option, none, some, List, [], ◌∷◌, arith,
  Bool-cases, inl, inr, find, keep, In, includes, includes_iff,
}
use inntris_x402_policy_adap.Base.Exec.{ok, require, or_throw}
use inntris_x402_policy_adap.Base.First.{IsFirst}
use inntris_x402_policy_adap.Core.Reasons.{ReasonCode}
use inntris_x402_policy_adap.Core.Action.{Action, resource_of}
use inntris_x402_policy_adap.Policy.Document.{Policy, Deny, Merchant, RailPolicy, rail_policy}
use inntris_x402_policy_adap.Policy.Evaluate.{
  denied_by_explicit_rule, deny_reason, is_expired, not_denied, non_empty,
}

-- The three lists of a merchant that an action has to be on.
abbrev pub serves : Action → Merchant → Bool
serves a m =
    (includes m.payees a.transaction.payee
      && includes m.resources (resource_of a.protocol_reference))
    && includes m.purposes a.transaction.purpose

pub record IsUndenied (a : Action) (d : Deny) : Type 0 where
  pub network : ¬ In a.transaction.network d.networks
  pub asset : ¬ In a.transaction.asset d.assets
  pub payee : ¬ In a.transaction.payee d.payees
  pub resource : ¬ In (resource_of a.protocol_reference) d.resources
  pub purpose : ¬ In a.transaction.purpose d.purposes

-- The policy is in force, no deny list names the action, the action's rail has a policy that allows
-- its network and asset, and `m` is the first merchant on whose lists the action is.
pub record Permits (p : Policy) (a : Action) (now : ℕ) (m : Merchant) : Type 0 where
  pub in_force : (t : ℕ) → p.expires_at ≡ some t → now < t
  pub undenied : (d : Deny) → p.deny ≡ some d → IsUndenied a d
  pub rail : RailPolicy
  pub rail_known : rail_policy p.rails a.rail ≡ some rail
  pub network : In a.transaction.network rail.allowed_networks
  pub asset : In a.transaction.asset rail.allowed_assets
  pub merchant : IsFirst (serves a) p.merchants m

pub not_In : (l : List String) (s : String) → includes l s ≡ false → ¬ In s l
not_In l s h i = cc ((includes_iff l s).1 i)

pub includes-false : (l : List String) (s : String) → ¬ In s l → includes l s ≡ false
includes-false l s n = elim (Bool-cases (includes l s)) [
  | inl e ↦ absurd (n ((includes_iff l s).0 e))
  | inr e ↦ e
]

pub expired_iff :
    (o : Option ℕ) (now : ℕ) → (is_expired o now ≡ false) ↔ ((t : ℕ) → o ≡ some t → now < t)
expired_iff none now = (λ h t e. absurd (cc), λ h. refl)
expired_iff (some u) now = (λ h t e. ground arith, λ h. ground (arith, h u refl))

record Misses (a : Action) (d : Deny) : Type 0 where
  network : includes d.networks a.transaction.network ≡ false
  asset : includes d.assets a.transaction.asset ≡ false
  payee : includes d.payees a.transaction.payee ≡ false
  resource : includes d.resources (resource_of a.protocol_reference) ≡ false
  purpose : includes d.purposes a.transaction.purpose ≡ false

deny_reason-Misses : (a : Action) (d : Deny) → deny_reason a d ≡ none → Misses a d
unfolding deny_reason
deny_reason-Misses a d h = record {
  network = ground arith;
  asset = ground arith;
  payee = ground arith;
  resource = ground arith;
  purpose = ground arith;
}

Misses-deny_reason : (a : Action) (d : Deny) → Misses a d → deny_reason a d ≡ none
unfolding deny_reason
Misses-deny_reason a d m = rw (m.network, m.asset, m.payee, m.resource, m.purpose)

deny_reason_iff : (a : Action) (d : Deny) → (deny_reason a d ≡ none) ↔ IsUndenied a d
deny_reason_iff a d = (
  λ h.
      let m = deny_reason-Misses a d h in
      record {
        network = not_In _ _ m.network;
        asset = not_In _ _ m.asset;
        payee = not_In _ _ m.payee;
        resource = not_In _ _ m.resource;
        purpose = not_In _ _ m.purpose;
      },
  λ u. Misses-deny_reason a d (record {
    network = includes-false _ _ u.network;
    asset = includes-false _ _ u.asset;
    payee = includes-false _ _ u.payee;
    resource = includes-false _ _ u.resource;
    purpose = includes-false _ _ u.purpose;
  }),
)

pub denied_iff :
    (a : Action) (p : Policy) (o : Option Deny)
    → p.deny ≡ o
    → (denied_by_explicit_rule a p ≡ none) ↔ ((d : Deny) → o ≡ some d → IsUndenied a d)
unfolding denied_by_explicit_rule
denied_iff a p none e = (λ h d q. absurd (cc), λ h. rw (e, denied_by_explicit_rule))
denied_iff a p (some d) e = (
  λ h d' q.
      let same : d ≡ d' = cc in
      rw (← same) ((deny_reason_iff a d).0 (rw (e, denied_by_explicit_rule) at h)),
  λ h. rw (e, denied_by_explicit_rule) ((deny_reason_iff a d).1 (h d refl)),
)

pub find-non_empty :
    (q : Merchant → Bool) (l : List Merchant) (m : Merchant)
    → find q l ≡ some m
    → non_empty l ≡ true
find-non_empty q [] m h = absurd (cc)
find-non_empty q (x ∷ xs) m h = refl

pub keep-non_empty :
    (q : Merchant → Bool) (l : List Merchant) → non_empty (keep q l) ≡ true → non_empty l ≡ true
keep-non_empty q [] h = h
keep-non_empty q (x ∷ xs) h = refl

pub or_throw-ok :
    {A : Type 0} (o : Option A) (r : ReasonCode) (a : A) → or_throw o r ≡ ok a → o ≡ some a
or_throw-ok none r a h = absurd (cc)
or_throw-ok (some b) r a h = cc

pub require-ok : (b : Bool) (r : ReasonCode) (u : Unit {0}) → require b r ≡ ok u → b ≡ true
require-ok true r u h = refl
require-ok false r u h = absurd (cc)

pub not_denied-ok : (o : Option ReasonCode) (u : Unit {0}) → not_denied o ≡ ok u → o ≡ none
not_denied-ok none u h = refl
not_denied-ok (some r) u h = absurd (cc)
