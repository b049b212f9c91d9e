-- ===== src/Policy/Screening.antt =====
-- The checks of `evaluatePolicy` before the spend is read succeed exactly where the policy permits.
use mathlib.Core.Path.{fun_ext}
use inntris_x402_policy_adap.Base.{
  ℕ, ◌≡◌, refl, sym, ap, ◌∙◌, Bool, true, false, ◌&&◌, none, some, List, arith, Option-cases, inl,
  inr, find, keep, includes, includes_iff,
}
use inntris_x402_policy_adap.Base.Exec.{ok}
use inntris_x402_policy_adap.Base.First.{IsFirst, find-IsFirst, IsFirst-find, find-keep}
use inntris_x402_policy_adap.Core.Action.{Action, resource_of}
use inntris_x402_policy_adap.Policy.Document.{Policy, Merchant, RailPolicy, rail_policy}
use inntris_x402_policy_adap.Policy.Evaluate.{
  Platform, denied_by_explicit_rule, is_expired, matching_merchant, screen,
}
use inntris_x402_policy_adap.Policy.Permits.{
  serves, Permits, expired_iff, denied_iff, find-non_empty, keep-non_empty,
}

and_regroup : (a b c : Bool) → (a && (b && c)) ≡ ((a && b) && c)
and_regroup true b c = refl
and_regroup false b c = refl

module _ (a : Action) where
  pays : Merchant → Bool
  pays m = includes m.payees a.transaction.payee

  offers : Merchant → Bool
  offers m = includes m.resources (resource_of a.protocol_reference)

  means : Merchant → Bool
  means m = includes m.purposes a.transaction.purpose

  find-serves : (ms : List Merchant) → find means (keep offers (keep pays ms)) ≡ find (serves a) ms
  unfolding pays offers means
  find-serves ms =
      find-keep offers means (keep pays ms)
      ∙ find-keep pays (λ m. offers m && means m) ms
      ∙ ap (λ p. find p ms) (fun_ext (λ m. and_regroup (pays m) (offers m) (means m)))

  matching-IsFirst :
      (ms : List Merchant) (m : Merchant) → matching_merchant a ms ≡ ok m → IsFirst (serves a) ms m
  unfolding matching_merchant pays offers means
  matching-IsFirst ms m h =
      let found : find means (keep offers (keep pays ms)) ≡ some m = ground arith in
      find-IsFirst (serves a) ms m (sym (find-serves ms) ∙ found)

  IsFirst-matching :
      (ms : List Merchant) (m : Merchant) → IsFirst (serves a) ms m → matching_merchant a ms ≡ ok m
  unfolding matching_merchant pays offers means
  IsFirst-matching ms m f =
      let found = find-serves ms ∙ IsFirst-find (serves a) ms m f in
      let second = find-non_empty means (keep offers (keep pays ms)) m found in
      rw (keep-non_empty offers (keep pays ms) second, second, found)

module _ (s : Platform) (a : Action) (p : Policy) (now : ℕ) where
  -- The facts that the early returns leave.
  record Passes (m : Merchant) : Type 0 where
    in_force : is_expired p.expires_at now ≡ false
    undenied : denied_by_explicit_rule a p ≡ none
    rail : RailPolicy
    rail_known : rail_policy p.rails a.rail ≡ some rail
    network : includes rail.allowed_networks a.transaction.network ≡ true
    asset : includes rail.allowed_assets a.transaction.asset ≡ true
    merchant : matching_merchant a p.merchants ≡ ok m

  screen-rail :
      (m : Merchant)
      → screen s a p now ≡ ok m
      → (r : RailPolicy) × (rail_policy p.rails a.rail ≡ some r)
  unfolding screen
  screen-rail m h = elim (Option-cases (rail_policy p.rails a.rail)) [
    | inl e ↦ absurd (ground arith)
    | inr f ↦ f
  ]

  screen-Passes : (m : Merchant) → screen s a p now ≡ ok m → Passes m
  unfolding screen
  screen-Passes m h =
      let (rail, known) = screen-rail m h in
      record {
        in_force = ground arith;
        undenied = ground arith;
        rail = rail;
        rail_known = known;
        network = ground arith;
        asset = ground arith;
        merchant = ground arith;
      }

  pub screen-Permits : (m : Merchant) → screen s a p now ≡ ok m → Permits p a now m
  screen-Permits m h =
      let v = screen-Passes m h in
      record {
        in_force = (expired_iff p.expires_at now).0 v.in_force;
        undenied = (denied_iff a p p.deny refl).0 v.undenied;
        rail = v.rail;
        rail_known = v.rail_known;
        network = (includes_iff v.rail.allowed_networks a.transaction.network).0 v.network;
        asset = (includes_iff v.rail.allowed_assets a.transaction.asset).0 v.asset;
        merchant = matching-IsFirst a p.merchants m v.merchant;
      }

  pub Permits-screen : (m : Merchant) → Permits p a now m → screen s a p now ≡ ok m
  unfolding screen
  Permits-screen m v = rw (
    (expired_iff p.expires_at now).1 v.in_force,
    (denied_iff a p p.deny refl).1 v.undenied,
    v.rail_known,
    (includes_iff v.rail.allowed_networks a.transaction.network).1 v.network,
    (includes_iff v.rail.allowed_assets a.transaction.asset).1 v.asset,
    IsFirst-matching a p.merchants m v.merchant,
  )
