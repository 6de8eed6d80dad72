-- ===== src/Tests/Data.antt =====
-- The documents that the tests work on.
use impact_wallet_server.Base.{
  ℕ, false, Option, none, some, List, [], ◌∷◌, same_option, if◌then◌else◌,
}
use impact_wallet_server.Base.Int.{pos}
use impact_wallet_server.Members.Schema.{Member, member, investor}
use impact_wallet_server.Orgs.Schema.{Org, OrgSettings, success}
use impact_wallet_server.Users.Schema.{User}

abbrev pub alice : User
alice = record {
  id = 1;
  nickname = "alice";
  name = none;
  avatar = none;
  wallet = some 101;
  bonus_wallet = none;
  created_at = 0;
  secret_link = none;
}

abbrev pub bob : User
bob = record {
  id = 2;
  nickname = "bob";
  name = none;
  avatar = none;
  wallet = some 102;
  bonus_wallet = none;
  created_at = 0;
  secret_link = none;
}

abbrev pub settings : OrgSettings
settings = record {
  treasury = 10000000;
  webhook = none;
  success_url = none;
  cancel_url = none;
  is_content = false;
  is_app = false;
  price_per_month = none;
  app_url = none;
}

abbrev pub acme : Org
acme = record {
  id = 10;
  username = "acme";
  name = "Acme";
  description = none;
  link = none;
  logo = "";
  wallet = some 110;
  mint = some 210;
  mint_error = none;
  mint_status = some success;
  settings = settings;
  lamports_minted = pos 0;
  stripe_product_id = none;
  stripe_price_id = none;
}

abbrev pub alice_member : Member
alice_member = record {
  id = 21;
  occupation = some "Dev";
  role = member;
  impact_ratio = 1000000;
  equity_type = none;
  equity_period = none;
  compensation = none;
  is_auto_contributing = false;
  hours_per_week = 40;
  agreement = none;
  user = some 1;
  org_user = none;
  org = 10;
  contributed = pos 0;
  lamports_earned = pos 500;
  investor_settings = none;
  profit = pos 0;
}

abbrev pub bob_member : Member
bob_member = record alice_member {
  id = 22;
  role = investor;
  user = some 2;
  lamports_earned = pos 0;
  investor_settings = some (record { investment_amount = 1000; equity_allocation = 10000000000 });
}

abbrev pub users : List User
users = alice ∷ bob ∷ []

abbrev pub members : List Member
members = alice_member ∷ bob_member ∷ []

-- Alice holds 60 percent and Bob 40.
abbrev pub balances : Option ℕ → Option ℕ → ℕ
balances mint wallet =
    if same_option wallet (some 101)
    then 60000000000
    else if same_option wallet (some 102)
    then 40000000000
    else 0

-- Acme holds 60 percent of itself.
abbrev pub self_member : Member
self_member = record alice_member { id = 23; user = none; org_user = some 10 }

abbrev pub self_balances : Option ℕ → Option ℕ → ℕ
self_balances mint wallet = if same_option wallet (some 110) then 60000000000 else 0
