-- ===== src/Orgs/Schema.antt =====
-- src/orgs/schema/org.schema.ts and src/orgs/enum. The treasury's percentage is counted in 10^-6
-- of a percent, the price of an app is a number that is only handed on.
use impact_wallet_server.Base.{ℕ, String, Bool, Option}
use impact_wallet_server.Base.Int.{ℤ}

pub data MintStatus : Type 0 where
  in_progress error success : MintStatus

pub record OrgSettings : Type 0 where
  pub treasury : ℕ
  pub webhook : Option String
  pub success_url : Option String
  pub cancel_url : Option String
  pub is_content : Bool
  pub is_app : Bool
  pub price_per_month : Option ℕ
  pub app_url : Option String

pub record Org : Type 0 where
  pub id : ℕ
  pub username : String
  pub name : String
  pub description : Option String
  pub link : Option String
  pub logo : String
  pub wallet : Option ℕ
  pub mint : Option ℕ
  pub mint_error : Option String
  pub mint_status : Option MintStatus
  pub settings : OrgSettings
  pub lamports_minted : ℤ
  pub stripe_product_id : Option ℕ
  pub stripe_price_id : Option ℕ
