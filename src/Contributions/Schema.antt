-- ===== src/Contributions/Schema.antt =====
-- src/contributions/schema/contribution.schema.ts, and the collections that the service works on.
-- Shares are counted in 10^-9, durations and times in milliseconds.
use impact_wallet_server.Base.{ℕ, String, Option, List}
use impact_wallet_server.Base.Int.{ℤ}
use impact_wallet_server.Members.Schema.{Member}
use impact_wallet_server.Orgs.Schema.{Org}
use impact_wallet_server.Users.Schema.{User}

-- `txnStatus`
pub data TxnStatus : Type 0 where
  processing confirmed failed reverted : TxnStatus

-- One part of the split: the member with its populated user, and what it gets.
pub record ContributionSplit : Type 0 where
  pub member : ℕ
  pub user : Option User
  pub wallet : Option ℕ
  pub amount : ℤ
  pub duration : ℤ

pub record Contribution : Type 0 where
  pub id : ℕ
  pub member : ℕ
  pub org : ℕ
  pub impact_ratio : ℕ
  pub stopped_at : Option ℕ
  pub txn_hash : Option ℕ
  pub txn_status : Option TxnStatus
  pub txn_error : Option String
  pub lamports_earned : ℤ
  pub split : List ContributionSplit
  pub created_at : ℕ

-- The collections.
pub record Store : Type 0 where
  pub users : List User
  pub orgs : List Org
  pub members : List Member
  pub contributions : List Contribution
