-- ===== src/Tests/LiteTests.antt =====
-- The theorems on the lite client's offers at concrete inputs: Acme asks investors for 2000 credits
-- for 5 percent of itself.
use impact_wallet_server.Base.{
  ℕ, ◌≡◌, ◌≤◌, ◌+◌, ◌*◌, ◌⊎◌, refl, none, some, List, [], ◌∷◌, Option, false, ltb, length, arith,
}
use impact_wallet_server.Base.Int.{pos, sum_by, ◌+ℤ◌}
use impact_wallet_server.Base.Round.{round_div}
use impact_wallet_server.Base.Http.{Result, ok, bad_request, throw_if}
use impact_wallet_server.Offers.Schema.{
  Offer, OfferInvestorSettings, Store, pending, approved, regular, investor,
}
use impact_wallet_server.Offers.Status.{accept, get_org_offer_by_id}
use impact_wallet_server.Offers.Lite.Equity.{MemberData, calculate_equity}
use impact_wallet_server.Offers.Lite.Equity.Bounds.{taken_amount, calculate_equity_bounds}
use impact_wallet_server.Offers.Lite.Create.{
  OfferLiteDto, create_lite_offer, create_lite_offer-get_org_offer_by_id,
}
use impact_wallet_server.Offers.Lite.Invest.{update_invest_offer_status}
use impact_wallet_server.Offers.Lite.Accept.{Request, check_investing, update_lite_offer_status}
use impact_wallet_server.Offers.Lite.Accept.Machine.{MachineStep, HasDistinctIds, statuses}
use impact_wallet_server.Offers.Lite.Accept.Refinement.{Call, update_lite_offer_status-MachineStep}
use impact_wallet_server.Tests.Data.{acme, users, members, balances}
use impact_wallet_server.Tests.OffersTests.{prospect, alice_account, fresh}

abbrev asked : OfferInvestorSettings
asked = record { amount = 2000; equity = 5000000000; minimal_investment = 100 }

abbrev dto : OfferLiteDto
dto = record { type = investor; member_prospect = prospect; investor_settings = some asked }

abbrev empty_store : Store
empty_store = record {
  users = users;
  orgs = acme ∷ [];
  members = members;
  offers = [];
  payments = [];
}

abbrev offer : Offer
offer = record {
  id = 71;
  status = pending;
  org = 10;
  member_prospects = [];
  type = investor;
  investor_settings = some asked;
}

abbrev store : Store
store = record empty_store { offers = offer ∷ [] }

abbrev send : List MemberData → Option ℕ
send ds = some 9

abbrev paid_transfer : Option ℕ → Option ℕ → ℕ → ℕ → Result ℕ
paid_transfer wallet to amount commission = ok 8

create_lite_offer-get_org_offer_by_id_example :
    (get_org_offer_by_id 10 71 store.offers ≡ ok offer)
    × (pending ≡ pending)
    × (investor ≡ investor)
    × (((investor ≡ regular) × (offer.member_prospects ≡ prospect ∷ []))
        ⊎ ((investor ≡ investor)
            × (offer.member_prospects ≡ [])
            × (check_investing 5000 (some asked) 800
                ≡ throw_if (ltb 5000 800) (bad_request "Insufficient funds"))))
unfolding create_lite_offer
create_lite_offer-get_org_offer_by_id_example =
    create_lite_offer-get_org_offer_by_id 71 10 5000 800 dto empty_store store offer tt refl

-- 2 percent of Acme, from its two holders
abbrev taken : List MemberData
taken =
    record {
      member = 21;
      wallet = some 101;
      amount = pos 1200000000;
      processed = false;
      failed = false;
    }
    ∷ record {
      member = 22;
      wallet = some 102;
      amount = pos 800000000;
      processed = false;
      failed = false;
    }
    ∷ []

calculate_equity_bounds_example :
    (s : ℕ) × (sum_by taken_amount taken ≡ pos s)
    × (2 * s ≤ 2 * 2000000000 + length taken)
    × (2 * 2000000000 ≤ 2 * s + length taken)
unfolding calculate_equity ◌+ℤ◌ round_div
calculate_equity_bounds_example =
    calculate_equity_bounds balances users (acme ∷ []) acme none 2000000000 [] members (omega arith)
      refl refl

-- Alice, who is a member, invests 800 credits.
abbrev invested_store : Store
unfolding update_invest_offer_status
invested_store =
    (update_invest_offer_status balances paid_transfer send 0 fresh acme offer accept 800
      alice_account (some 101) store).0

abbrev all_in : Request
all_in = record { status = accept; amount = 2000; account = alice_account; wallet = some 101 }

abbrev call : Call
call = record { fresh = fresh; org_id = 10; offer_id = 71; request = all_in }

abbrev after : Store
unfolding update_lite_offer_status
after =
    (update_lite_offer_status balances (λ w. 5000) (λ mint w. ok 7) paid_transfer send 0 fresh 10 71
      all_in store).0

update_lite_offer_status-MachineStep_example :
    MachineStep 71 (statuses store) (statuses after) × HasDistinctIds after.offers
unfolding update_lite_offer_status
update_lite_offer_status-MachineStep_example =
    update_lite_offer_status-MachineStep balances (λ w. 5000) (λ mint w. ok 7) paid_transfer send 0
      fresh 10 71 all_in store after (ok tt) (tt, tt) refl

-- The offer is approved when all is paid, and stays so when the same call comes again.
approved_after : statuses after 71 ≡ some approved
unfolding update_lite_offer_status
approved_after = refl
