-- ===== src/Tests/SaleTests.antt =====
-- The theorems on sales at concrete inputs: Alice sells shares of Acme to Bob.
use impact_wallet_server.Base.{ℕ, ◌≡◌, refl, some, List, [], ◌∷◌, true, false}
use impact_wallet_server.Base.Http.{Result, ok, err, forbidden}
use impact_wallet_server.Offers.Status.{Account, accept, decline}
use impact_wallet_server.Offers.Sale.{
  SaleOffer, SaleStore, SaleOfferDto, TokenTransfer, new_sale, create_sale_offer,
  update_sale_offer_status,
}
use impact_wallet_server.Offers.Sale.Sold.{update_sale_offer_status_once}
use impact_wallet_server.Tests.Data.{acme, users, members, balances}
use impact_wallet_server.Tests.OffersTests.{alice_account}

abbrev bob_account : Account
bob_account = record { id = 2; is_user = true }

abbrev dto : SaleOfferDto
dto = record { tokens_amount = 1000000000; price = 300; org_id = 10 }

abbrev unsold : SaleStore
unsold = record { users = users; orgs = acme ∷ []; members = members; sales = []; payments = [] }

abbrev sale : SaleOffer
sale = new_sale 81 dto 1

abbrev store : SaleStore
store = record unsold { sales = sale ∷ [] }

created : create_sale_offer balances 81 dto alice_account unsold ≡ ok (store, sale)
unfolding create_sale_offer
created = refl

abbrev send : List TokenTransfer → Result ℕ
send ts = ok 9

abbrev outcome : Result (SaleStore × List TokenTransfer)
unfolding update_sale_offer_status
outcome =
    update_sale_offer_status false (λ w. 5000) send 50000 (some 100) 43 81 accept bob_account store

abbrev sold_store : SaleStore
sold_store = elim outcome [ ok r ↦ r.0 | err e ↦ store ]

abbrev sent : List TokenTransfer
sent = elim outcome [ ok r ↦ r.1 | err e ↦ [] ]

update_sale_offer_status_once_example :
    update_sale_offer_status false
      (λ w. 5000)
      send
      50000
      (some 100)
      44
      81
      decline
      alice_account
      sold_store
    ≡ err (forbidden "Offer already accepted/declined")
unfolding update_sale_offer_status
update_sale_offer_status_once_example =
    update_sale_offer_status_once false (λ w. 5000) send 50000 (some 100) 43 81 accept bob_account
      store sold_store sent sale 44 decline alice_account tt refl refl refl
