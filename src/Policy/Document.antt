-- ===== src/Policy/Document.antt =====
-- packages/policy-engine/src/policy.ts: the policy and what its schema accepts.
use inntris_x402_policy_adap.Base.{
  ℕ, String, Bool, true, false, ◌&&◌, ◌||◌, Option, none, some, List, [], ◌∷◌, leb, ◌==◌, all,
  length,
}
use inntris_x402_policy_adap.Core.Text.{codes, sized, canonical_amount}
use inntris_x402_policy_adap.Core.Json.{Externals}
use inntris_x402_policy_adap.Core.Action.{Rail, x402, ap2, evm, card, mcp}

abbrev pub default_approval_request_ttl_seconds : ℕ
default_approval_request_ttl_seconds = 900

pub data Weekday : Type 0 where
  monday tuesday wednesday thursday friday saturday sunday : Weekday

abbrev pub weekday_name : Weekday → String
weekday_name monday = "MONDAY"
weekday_name tuesday = "TUESDAY"
weekday_name wednesday = "WEDNESDAY"
weekday_name thursday = "THURSDAY"
weekday_name friday = "FRIDAY"
weekday_name saturday = "SATURDAY"
weekday_name sunday = "SUNDAY"

pub record Merchant : Type 0 where
  pub merchant_id : String
  pub payees : List String
  pub purposes : List String
  pub resources : List String
  pub per_transaction_limit : String

pub record Deny : Type 0 where
  pub networks : List String
  pub assets : List String
  pub payees : List String
  pub purposes : List String
  pub resources : List String

pub record RailPolicy : Type 0 where
  pub allowed_networks : List String
  pub allowed_assets : List String

pub record Rails : Type 0 where
  pub x402_policy : RailPolicy
  pub ap2_policy : Option RailPolicy
  pub evm_policy : Option RailPolicy
  pub card_policy : Option RailPolicy
  pub mcp_policy : Option RailPolicy

pub record TimeWindows : Type 0 where
  pub timezone : String
  pub allowed_weekdays : List Weekday
  pub start : String
  pub finish : String

pub record Policy : Type 0 where
  pub policy_id : String
  pub policy_version : String
  pub expires_at : Option ℕ
  pub decision_ttl_seconds : ℕ
  pub deny : Option Deny
  pub rails : Rails
  pub per_transaction : String
  pub daily : String
  pub require_human_above : String
  pub request_ttl_seconds : Option ℕ
  pub merchants : List Merchant
  pub time_windows : TimeWindows

-- `policy.rails[rail]`
unfoldable pub rail_policy : Rails → Rail → Option RailPolicy
rail_policy r x402 = some r.x402_policy
rail_policy r ap2 = r.ap2_policy
rail_policy r evm = r.evm_policy
rail_policy r card = r.card_policy
rail_policy r mcp = r.mcp_policy

-- `/^(?:[01]\d|2[0-3]):[0-5]\d$/` on the code points.
unfoldable pub time_text : List ℕ → Bool
time_text (h ∷ i ∷ colon ∷ m ∷ n ∷ []) =
    (((h == b'0' || h == b'1') && (leb b'0' i && leb i b'9'))
      || (h == b'2' && (leb b'0' i && leb i b'3')))
    && colon == b':'
    && (leb b'0' m && leb m b'5')
    && (leb b'0' n && leb n b'9')
time_text _ = false

abbrev non_empty {ℓ} : {A : Type ℓ} → List A → Bool
non_empty [] = false
non_empty (a ∷ l) = true

module _ (x : Externals) where
  unfoldable pub merchant_schema : Merchant → Bool
  merchant_schema m =
      sized 1 128 m.merchant_id
      && non_empty m.payees
      && all (sized 1 512) m.payees
      && non_empty m.purposes
      && all (sized 1 128) m.purposes
      && non_empty m.resources
      && all x.is_url m.resources
      && canonical_amount m.per_transaction_limit

  abbrev deny_schema : Option Deny → Bool
  deny_schema none = true
  deny_schema (some d) = all x.is_url d.resources

abbrev pub some_text : String → Bool
some_text s = leb 1 (length (codes s))

unfoldable pub rail_policy_schema : RailPolicy → Bool
rail_policy_schema r =
    non_empty r.allowed_networks
    && all some_text r.allowed_networks
    && non_empty r.allowed_assets
    && all some_text r.allowed_assets

abbrev optional_rail : Option RailPolicy → Bool
optional_rail none = true
optional_rail (some r) = rail_policy_schema r

abbrev seconds_in : ℕ → Option ℕ → Bool
seconds_in high none = true
seconds_in high (some n) = leb 1 n && leb n high

-- `InntrisPolicyV1Schema`; `known_zone` is the time zone test of `Intl`.
unfoldable pub policy_schema : Externals → (String → Bool) → Policy → Bool
unfolding merchant_schema rail_policy_schema
policy_schema x known_zone p =
    sized 1 128 p.policy_id
    && sized 1 64 p.policy_version
    && seconds_in 300 (some p.decision_ttl_seconds)
    && deny_schema x p.deny
    && rail_policy_schema p.rails.x402_policy
    && optional_rail p.rails.ap2_policy
    && optional_rail p.rails.evm_policy
    && optional_rail p.rails.card_policy
    && optional_rail p.rails.mcp_policy
    && canonical_amount p.per_transaction
    && canonical_amount p.daily
    && canonical_amount p.require_human_above
    && seconds_in 86400 p.request_ttl_seconds
    && non_empty p.merchants
    && all (merchant_schema x) p.merchants
    && sized 1 128 p.time_windows.timezone
    && non_empty p.time_windows.allowed_weekdays
    && time_text (codes p.time_windows.start)
    && time_text (codes p.time_windows.finish)
    && known_zone p.time_windows.timezone
