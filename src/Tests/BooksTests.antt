-- ===== src/Tests/BooksTests.antt =====
-- The theorems on members, contributions and transfers of shares at concrete inputs.
use impact_wallet_server.Base.{map, ◌≡◌, refl, none, some, List, [], ◌∷◌, arith, find}
use impact_wallet_server.Base.Int.{pos}
use impact_wallet_server.Base.Http.{Result, ok, err, thrown}
use impact_wallet_server.Members.Schema.{Member, member_valid}
use impact_wallet_server.Members.{add_member_to_org}
use impact_wallet_server.Members.Unique.{IsSound, Added, add_member_to_org-Added}
use impact_wallet_server.Contributions.Schema.{Contribution, Store}
use impact_wallet_server.Contributions.Start.{
  IsSingle, MayStart, start_contribution, start_contribution-IsSingle,
}
use impact_wallet_server.Contributions.Stop.{stop_in_transaction, is_contribution}
use impact_wallet_server.Contributions.Stop.Split.{IsStopped, stop_in_transaction-IsStopped}
use impact_wallet_server.Contributions.Mint.{
  without_hours, mint_and_confirm, mint_and_confirm-restores,
}
use impact_wallet_server.Users.Send.{SendAssetsDto, SendStore, Transfer, send_assets}
use impact_wallet_server.Tests.Data.{acme, users, members, self_member}

members-IsSound : IsSound members
unfolding member_valid
members-IsSound = record { valid = (refl, (refl, tt)); unique = (refl, (refl, tt)) }

add_member_to_org-Added_example :
    Added (record self_member { org = 10 }) members (add_member_to_org 10 self_member members)
add_member_to_org-Added_example = add_member_to_org-Added 10 self_member members members-IsSound

-- One contribution of Alice's, which starts at 0.
abbrev store : Store
store = record { users = users; orgs = acme ∷ []; members = members; contributions = [] }

abbrev value_or : {A : Type 0} → A → Result A → A
value_or a (ok x) = x
value_or a (err e) = a

abbrev started : Store
unfolding start_contribution
started = value_or store (start_contribution 31 0 10 21 1 store)

store-IsSingle : IsSingle store.contributions
store-IsSingle = λ m o. omega arith

start_contribution-IsSingle_example :
    MayStart 10 21 1 store
    × IsSingle started.contributions
    × (started.members ≡ store.members)
    × (started.orgs ≡ store.orgs)
unfolding start_contribution
start_contribution-IsSingle_example =
    start_contribution-IsSingle 31 0 10 21 1 store started store-IsSingle refl

-- The contribution is stopped after an hour; the result is computed.
abbrev nothing : Contribution
nothing = record {
  id = 0;
  member = 0;
  org = 0;
  impact_ratio = 0;
  stopped_at = none;
  txn_hash = none;
  txn_status = none;
  txn_error = none;
  lamports_earned = pos 0;
  split = [];
  created_at = 0;
}

abbrev stop_result : Store × Contribution
unfolding stop_in_transaction
stop_result = value_or (started, nothing) (stop_in_transaction 10 31 1 3600000 started)

stop_in_transaction-IsStopped_example :
    (c : Contribution) × (find (is_contribution 31 10) started.contributions ≡ some c)
    × (c.stopped_at ≡ none)
    × IsStopped 10 3600000 started c stop_result.0 stop_result.1
unfolding stop_in_transaction start_contribution
stop_in_transaction-IsStopped_example =
    stop_in_transaction-IsStopped 10 31 1 3600000 started stop_result.0 stop_result.1 refl

mint_and_confirm-restores_example :
    (map without_hours
        (mint_and_confirm
          (λ m ps. err (thrown "no mint"))
          (λ h. ok h)
          acme
          stop_result.1
          stop_result.0).0.members
      ≡ map without_hours started.members)
    × ((mint_and_confirm
          (λ m ps. err (thrown "no mint"))
          (λ h. ok h)
          acme
          stop_result.1
          stop_result.0).0.orgs
        ≡ started.orgs)
unfolding stop_in_transaction start_contribution
mint_and_confirm-restores_example =
    mint_and_confirm-restores (λ m ps. err (thrown "no mint")) (λ h. ok h) acme 31 1 3600000 started
      stop_result.0 stop_result.1 (thrown "no mint") refl refl refl

-- Acme works for itself, as a member of its own.
abbrev own_store : Store
own_store = record store { members = self_member ∷ [] }

abbrev own_started : Store
unfolding start_contribution
own_started = value_or own_store (start_contribution 31 0 10 23 10 own_store)

abbrev own_result : Store × Contribution
unfolding stop_in_transaction
own_result = value_or (own_started, nothing) (stop_in_transaction 10 31 10 3600000 own_started)

-- Alice sends Bob 200 shares.
abbrev dto : SendAssetsDto
dto = record {
  recipient_id = some 2;
  recipient_org_id = none;
  recipient_address = some 102;
  amount = 200;
}

abbrev send_store : SendStore
send_store = record { users = users; orgs = acme ∷ []; members = members }

abbrev send_result : List Member × Transfer
unfolding send_assets
send_result =
    value_or ([], record { mint = none; wallet = none; amount = 0 })
      (send_assets (λ m w a. ok 5) 40 dto 1 10 send_store)
