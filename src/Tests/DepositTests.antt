-- ===== src/Tests/DepositTests.antt =====
-- The theorem on deposits at a concrete input: Alice pays for 20 credits.
use impact_wallet_server.Base.{none, some, [], ◌∷◌}
use impact_wallet_server.Base.Http.{ok}
use impact_wallet_server.Deposit.{
  Deposit, DepositStore, pending, handle_deposit, IsHandled, handle_deposit-IsHandled,
}
use impact_wallet_server.Tests.Data.{acme, users}

abbrev deposit : Deposit
deposit = record {
  id = 61;
  amount = 0;
  user = some 1;
  org_user = none;
  status = pending;
  txn_hash = none;
  error = none;
}

abbrev store : DepositStore
store = record { users = users; orgs = acme ∷ []; deposits = deposit ∷ [] }

handle_deposit-IsHandled_example :
    IsHandled
      (λ wallet amount. ok 3)
      61
      20000000
      store
      (handle_deposit (λ wallet amount. ok 3) 61 20000000 store).0
      (handle_deposit (λ wallet amount. ok 3) 61 20000000 store).1
handle_deposit-IsHandled_example =
    handle_deposit-IsHandled (λ wallet amount. ok 3) 61 20000000 store
