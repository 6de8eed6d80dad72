-- ===== src/Airdrop/Schema.antt =====
-- src/airdrop/dto/airdrop.dto.ts, src/airdrop/schema/airdrop.schema.ts and src/airdrop/enum. Token
-- amounts are the chain's integers, dates are seconds.
use impact_wallet_server.Base.{ℕ, String, Bool, true, false, Option}
use impact_wallet_server.Base.Int.{ℤ}

pub data TypeTransaction : Type 0 where
  debit credit unknown result : TypeTransaction

pub record AirdropDto : Type 0 where
  pub transaction_date : ℕ
  pub wallet : Option ℕ
  pub amount : ℕ
  pub final_amount : ℕ
  pub holder_of_days : ℕ
  pub type_transaction : TypeTransaction
  pub current_balance : ℕ
  pub balance_check : ℤ
  pub transaction : String
  pub error : Option String

abbrev pub is_credit : TypeTransaction → Bool
is_credit credit = true
is_credit debit = false
is_credit unknown = false
is_credit result = false
