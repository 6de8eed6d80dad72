-- ===== src/Offers/Schema.antt =====
-- src/offers/schema/offer.schema.ts, src/offers/enum, and the parts of
-- src/payment/schema/payment.schema.ts that an investment uses.
use impact_wallet_server.Base.{ℕ, String, Bool, Option, List}
use impact_wallet_server.Base.Int.{pos}
use impact_wallet_server.Members.Schema.{
  Role, EquityType, Period, Compensation, InvestorSettings, Member,
}
use impact_wallet_server.Orgs.Schema.{Org}
use impact_wallet_server.Users.Schema.{User}

pub data OfferStatus : Type 0 where
  pending approved declined : OfferStatus

pub data OfferType : Type 0 where
  regular investor : OfferType

pub record MemberProspect : Type 0 where
  pub occupation : Option String
  pub role : Role
  pub impact_ratio : ℕ
  pub equity_amount : ℕ
  pub equity_type : Option EquityType
  pub equity_period : Option Period
  pub compensation : Option Compensation
  pub is_auto_contributing : Bool
  pub hours_per_week : ℕ
  pub agreement : Option String
  pub investor_settings : Option InvestorSettings
  pub org : Option ℕ
  pub user : Option ℕ
  pub org_user : Option ℕ

-- `InvestorSettings` of an offer
pub record OfferInvestorSettings : Type 0 where
  pub amount : ℕ
  pub equity : ℕ
  pub minimal_investment : ℕ

pub record Offer : Type 0 where
  pub id : ℕ
  pub status : OfferStatus
  pub org : ℕ
  pub member_prospects : List MemberProspect
  pub type : OfferType
  pub investor_settings : Option OfferInvestorSettings

-- A payment for an investment.
pub record Payment : Type 0 where
  pub id : ℕ
  pub org : ℕ
  pub amount : ℕ
  pub investor : MemberProspect
  pub txn_hash : Option ℕ

-- The collections.
pub record Store : Type 0 where
  pub users : List User
  pub orgs : List Org
  pub members : List Member
  pub offers : List Offer
  pub payments : List Payment

-- `new memberModel(prospect)`: the fields that both schemas have, and the defaults
abbrev pub member_of : ℕ → ℕ → MemberProspect → Member
member_of id org_id p = record {
  id = id;
  occupation = p.occupation;
  role = p.role;
  impact_ratio = p.impact_ratio;
  equity_type = p.equity_type;
  equity_period = p.equity_period;
  compensation = p.compensation;
  is_auto_contributing = p.is_auto_contributing;
  hours_per_week = p.hours_per_week;
  agreement = p.agreement;
  user = p.user;
  org_user = p.org_user;
  org = org_id;
  contributed = pos 0;
  lamports_earned = pos 0;
  investor_settings = p.investor_settings;
  profit = pos 0;
}
