-- ===== src/Policy/Evaluate.antt =====
-- packages/policy-engine/src/evaluate.ts: `evaluatePolicy` and its helpers.
use Prim.Native.String.{◌++◌}
use inntris_x402_policy_adap.Base.{
  ℕ, String, Bool, true, false, not, ◌||◌, Option, none, some, List, [], ◌∷◌, leb, ltb, str_eq,
  if◌then◌else◌, find, keep, any, includes,
}
use inntris_x402_policy_adap.Base.Exec.{
  Result, ok, err, bind, require, or_throw, Exec, pure, lift, ◌>>=◌,
}
use inntris_x402_policy_adap.Core.Text.{codes}
use inntris_x402_policy_adap.Core.Reasons.{
  allow, block, require_approval, ReasonCode, merchant_allowed, within_transaction_limit,
  within_daily_limit, default_deny, network_not_allowed, asset_not_allowed, payee_not_allowed,
  resource_not_allowed, purpose_not_allowed, amount_exceeds_transaction_limit, daily_limit_exceeded,
  outside_allowed_time, human_approval_required, policy_expired,
}
use inntris_x402_policy_adap.Core.Action.{Action, resource_of}
use inntris_x402_policy_adap.Core.Decision.{Approval, ApprovalMode, policy_engine, human}
use inntris_x402_policy_adap.Core.Signing.{Fault, state_error, Evaluation}
use inntris_x402_policy_adap.Policy.Document.{
  Policy, Deny, Merchant, Weekday, monday, tuesday, wednesday, thursday, friday, saturday, sunday,
  weekday_name, rail_policy,
}
use inntris_x402_policy_adap.Policy.Window.{within_time_window}

-- `decimal.js` on the amounts of the program, which are not negative and have at most 18 decimals:
-- `units` is `new Decimal(text)` in units of 10^-18, `plus` may round, and `to_fixed` prints.
pub record Decimals : Type 0 where
  pub units : String → ℕ
  pub plus : ℕ → ℕ → ℕ
  pub to_fixed : ℕ → String

-- What `Intl.DateTimeFormat` returns for an instant in a time zone.
pub record DateParts : Type 0 where
  pub weekday : String
  pub year : String
  pub month : String
  pub day : String
  pub hour : String
  pub minute : String

pub record Platform : Type 0 where
  pub decimals : Decimals
  pub date_parts : ℕ → String → DateParts

pub record LocalTime : Type 0 where
  pub weekday : Weekday
  pub time : String
  pub day_key : String

-- `weekdayMap`
unfoldable pub weekday_of : String → Option Weekday
weekday_of s =
    if str_eq s "Mon"
    then some monday
    else if str_eq s "Tue"
    then some tuesday
    else if str_eq s "Wed"
    then some wednesday
    else if str_eq s "Thu"
    then some thursday
    else if str_eq s "Fri"
    then some friday
    else if str_eq s "Sat"
    then some saturday
    else if str_eq s "Sun"
    then some sunday
    else none

abbrev pub day_key_of : DateParts → String
day_key_of d = d.year ++ "-" ++ d.month ++ "-" ++ d.day

-- `localTimeParts`
unfoldable pub local_time_parts : Platform → ℕ → String → Result Fault LocalTime
unfolding weekday_of
local_time_parts s at zone =
    let d = s.date_parts at zone in
    bind (or_throw (weekday_of d.weekday) state_error) λ weekday.
      ok (record { weekday = weekday; time = d.hour ++ ":" ++ d.minute; day_key = day_key_of d })

-- `allowed_weekdays.includes(weekday)`
unfoldable pub includes_weekday : List Weekday → Weekday → Bool
includes_weekday l w = any (λ v. str_eq (weekday_name v) (weekday_name w)) l

abbrev pub approval_of : ApprovalMode → Approval
approval_of m = record { mode = m; approval_reference = none; approver_ids = [] }

-- `block(reason)`
abbrev pub block_evaluation : ReasonCode → Evaluation
block_evaluation r = record {
  verdict = block;
  reason_codes = r ∷ [];
  approval = approval_of policy_engine;
}

unfoldable pub deny_reason : Action → Deny → Option ReasonCode
deny_reason a d =
    if includes d.networks a.transaction.network
    then some network_not_allowed
    else if includes d.assets a.transaction.asset
    then some asset_not_allowed
    else if includes d.payees a.transaction.payee
    then some payee_not_allowed
    else if includes d.resources (resource_of a.protocol_reference)
    then some resource_not_allowed
    else if includes d.purposes a.transaction.purpose
    then some purpose_not_allowed
    else none

-- `deniedByExplicitRule`
unfoldable pub denied_by_explicit_rule : Action → Policy → Option ReasonCode
unfolding deny_reason
denied_by_explicit_rule a p = elim p.deny [ none ↦ none | some d ↦ deny_reason a d ]

abbrev pub is_expired : Option ℕ → ℕ → Bool
is_expired none now = false
is_expired (some t) now = leb t now

abbrev pub non_empty : List Merchant → Bool
non_empty [] = false
non_empty (m ∷ ms) = true

-- The merchant that the code finds by two `filter`s and one `find`.
unfoldable pub matching_merchant : Action → List Merchant → Result ReasonCode Merchant
matching_merchant a merchants =
    let payee = keep (λ m. includes m.payees a.transaction.payee) merchants in
    let resource = keep (λ m. includes m.resources (resource_of a.protocol_reference)) payee in
    bind (require (non_empty payee) payee_not_allowed) λ _.
      bind (require (non_empty resource) resource_not_allowed) λ _.
        or_throw (find (λ m. includes m.purposes a.transaction.purpose) resource)
          purpose_not_allowed

abbrev pub not_denied : Option ReasonCode → Result ReasonCode (Unit {0})
not_denied none = ok tt
not_denied (some r) = err r

module _ (s : Platform) where
  open s use {decimals}

  -- The checks before the daily spend is read; `err` is the reason of a `return block(…)`.
  unfoldable pub screen : Action → Policy → ℕ → Result ReasonCode Merchant
  screen a p now = bind (require (not (is_expired p.expires_at now)) policy_expired) λ _.
      bind (not_denied (denied_by_explicit_rule a p)) λ _.
        bind (or_throw (rail_policy p.rails a.rail) default_deny) λ rail.
          bind (require (includes rail.allowed_networks a.transaction.network) network_not_allowed)
            λ _.
              bind (require (includes rail.allowed_assets a.transaction.asset) asset_not_allowed)
                λ _. matching_merchant a p.merchants

  -- `Decimal.min(…)`
  unfoldable pub transaction_limit : Policy → Merchant → ℕ
  transaction_limit p m =
      let a = decimals.units p.per_transaction in
      let b = decimals.units m.per_transaction_limit in if leb a b then a else b

  -- What is returned once the day's spend is known.
  unfoldable pub settle_evaluation : Action → Policy → LocalTime → String → Evaluation
  settle_evaluation a p local spent =
      let amount = decimals.units a.transaction.amount in
      let positive = merchant_allowed ∷ within_transaction_limit ∷ within_daily_limit ∷ [] in
      if ltb (decimals.units p.daily) (decimals.plus (decimals.units spent) amount)
      then block_evaluation daily_limit_exceeded
      else if not (includes_weekday p.time_windows.allowed_weekdays local.weekday)
          || not (
              within_time_window (codes local.time) (codes p.time_windows.start)
                (codes p.time_windows.finish))
      then block_evaluation outside_allowed_time
      else if ltb (decimals.units p.require_human_above) amount
      then record {
        verdict = require_approval;
        reason_codes =
            merchant_allowed ∷ within_transaction_limit ∷ within_daily_limit
            ∷ human_approval_required ∷ [];
        approval = approval_of human;
      }
      else record { verdict = allow; reason_codes = positive; approval = approval_of policy_engine }

  -- `evaluatePolicy`; `daily_spend` is the spend state's `getDailySpend`.
  unfoldable pub evaluate_policy :
      {S : Type 0}
      → (String → String → Exec Fault S String)
      → Action
      → Policy
      → ℕ
      → Exec Fault S Evaluation
  evaluate_policy daily_spend a p now = elim (screen a p now) [
    | err r ↦ pure (block_evaluation r)
    | ok merchant ↦
        if ltb (transaction_limit p merchant) (decimals.units a.transaction.amount)
        then pure (block_evaluation amount_exceeds_transaction_limit)
        else do
          local ← lift (local_time_parts s now p.time_windows.timezone)
          spent ← daily_spend a.principal_id local.day_key
          pure (settle_evaluation a p local spent)
  ]
