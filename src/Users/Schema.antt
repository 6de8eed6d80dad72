-- ===== src/Users/Schema.antt =====
-- src/users/schema/user.schema.ts
use impact_wallet_server.Base.{ℕ, String, Option}

pub record User : Type 0 where
  pub id : ℕ
  pub nickname : String
  pub name : Option String
  pub avatar : Option String
  pub wallet : Option ℕ
  pub bonus_wallet : Option ℕ
  pub created_at : ℕ
  pub secret_link : Option ℕ
