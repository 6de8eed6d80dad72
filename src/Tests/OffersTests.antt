-- ===== src/Tests/OffersTests.antt =====
-- The theorems on offers at concrete inputs.
use impact_wallet_server.Base.{none, some, [], ◌∷◌, true, false}
use impact_wallet_server.Base.Http.{ok}
use impact_wallet_server.Members.Schema.{investor}
use impact_wallet_server.Offers.Schema.{MemberProspect, Offer, Store, pending, regular}
use impact_wallet_server.Offers.Create.{OfferDto, new_offer}
use impact_wallet_server.Offers.Status.{Account, Fresh, accept, update_offer_status}
use impact_wallet_server.Offers.Status.Decision.{IsDecided, update_offer_status-IsDecided}
use impact_wallet_server.Tests.Data.{acme, users, members, balances}

abbrev pub prospect : MemberProspect
prospect = record {
  occupation = none;
  role = investor;
  impact_ratio = 1000000;
  equity_amount = 0;
  equity_type = none;
  equity_period = none;
  compensation = none;
  is_auto_contributing = false;
  hours_per_week = 40;
  agreement = none;
  investor_settings = some (record { investment_amount = 1000; equity_allocation = 5000000000 });
  org = none;
  user = none;
  org_user = none;
}

abbrev offer : Offer
offer = record {
  id = 51;
  status = pending;
  org = 10;
  member_prospects = prospect ∷ [];
  type = regular;
  investor_settings = none;
}

abbrev store : Store
store = record {
  users = users;
  orgs = acme ∷ [];
  members = members;
  offers = offer ∷ [];
  payments = [];
}

abbrev dto : OfferDto
dto = record { member_prospect = prospect; minimal_investment = 100 }

abbrev store_after : Store
store_after = record store { offers = offer ∷ new_offer 52 10 ∷ [] }

abbrev pub alice_account : Account
alice_account = record { id = 1; is_user = true }

abbrev pub fresh : Fresh
fresh = record { member = 41; payment = 61 }

update_offer_status-IsDecided_example :
    IsDecided balances
      (λ w. 5000)
      (λ w t a. ok 8)
      acme
      51
      accept
      store
      (update_offer_status balances
        (λ w. 5000)
        (λ w t a. ok 8)
        fresh
        acme
        51
        accept
        alice_account
        store)
update_offer_status-IsDecided_example =
    update_offer_status-IsDecided balances (λ w. 5000) (λ w t a. ok 8) fresh acme 51 accept
      alice_account store
