-- ===== src/Members/Schema.antt =====
-- src/members/schema/member.schema.ts and src/members/enum. Ids, wallets and mints are only
-- compared, so they are numbers. Amounts are counts of a smallest unit: credits in 10^-6, shares of
-- equity (percents of the supply) in 10^-9, the impact ratio in 10^-6, durations in milliseconds.
use impact_wallet_server.Base.{
  ℕ, String, Bool, true, false, Option, none, some, ◌&&◌, leb, is_nil, not, same_text,
}
use impact_wallet_server.Base.Int.{ℤ}

pub data Role : Type 0 where
  member admin investor : Role

pub data EquityType : Type 0 where
  immediately during_period : EquityType

pub data PeriodType : Type 0 where
  days weeks months years : PeriodType

pub data CompensationType : Type 0 where
  per_month one_time : CompensationType

pub record InvestorSettings : Type 0 where
  pub investment_amount : ℕ
  pub equity_allocation : ℕ

pub record Period : Type 0 where
  pub value : ℕ
  pub timeframe : PeriodType

pub record Compensation : Type 0 where
  pub amount : ℕ
  pub type : CompensationType
  pub period : Option Period

pub record Member : Type 0 where
  pub id : ℕ
  pub occupation : Option String
  pub role : Role
  pub impact_ratio : ℕ
  pub equity_type : Option EquityType
  pub equity_period : Option Period
  pub compensation : Option Compensation
  pub is_auto_contributing : Bool
  pub hours_per_week : ℕ
  pub agreement : Option String
  pub user : Option ℕ
  pub org_user : Option ℕ
  pub org : ℕ
  pub contributed : ℤ
  pub lamports_earned : ℤ
  pub investor_settings : Option InvestorSettings
  pub profit : ℤ

abbrev pub is_investor : Role → Bool
is_investor investor = true
is_investor _ = false

abbrev pub is_admin : Role → Bool
is_admin admin = true
is_admin _ = false

-- a field that is required under a condition
abbrev pub required_if {ℓ} : {A : Type ℓ} → Bool → Option A → Bool
required_if true o = not (is_nil o)
required_if false o = true

-- A required text that is empty is refused as a missing one is.
abbrev pub text_given : Option String → Bool
text_given none = false
text_given (some t) = not (same_text t "")

abbrev pub text_required_if : Bool → Option String → Bool
text_required_if true o = text_given o
text_required_if false o = true

abbrev pub is_during_period : Option EquityType → Bool
is_during_period (some during_period) = true
is_during_period (some immediately) = false
is_during_period none = false

abbrev pub is_one_time : CompensationType → Bool
is_one_time one_time = true
is_one_time per_month = false

abbrev pub compensation_valid : Option Compensation → Bool
compensation_valid none = true
compensation_valid (some c) = required_if (is_one_time c.type) c.period

-- The validators of the schema: the conditional `required` functions and the maximum.
unfoldable pub member_valid : Member → Bool
member_valid m =
    text_required_if (not (is_investor m.role)) m.occupation
    && required_if (is_during_period m.equity_type) m.equity_period
    && compensation_valid m.compensation
    && leb m.hours_per_week 112
    && required_if (is_investor m.role) m.investor_settings
