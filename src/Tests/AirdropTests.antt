-- ===== src/Tests/AirdropTests.antt =====
-- The airdrop's theorems at concrete inputs.
use impact_wallet_server.Base.{
  ◌⊎◌, filter, ℕ, ◌≡◌, ◌≢◌, ◌*◌, refl, false, none, some, List, [], ◌∷◌, All,
}
use impact_wallet_server.Base.Http.{Result, ok, err, bad_request}
use impact_wallet_server.Base.Int.{pos}
use impact_wallet_server.Airdrop.Schema.{AirdropDto, TypeTransaction, credit, debit}
use impact_wallet_server.Airdrop.Matching.{final_calculations, with_summary}
use impact_wallet_server.Airdrop.Matching.Conservation.{net}
use impact_wallet_server.Airdrop.Matching.Balance.{final_calculations-balance}
use impact_wallet_server.Airdrop.Classify.{TokenBalances}
use impact_wallet_server.Airdrop.Claims.{Holder}
use impact_wallet_server.Airdrop.Claims.{claim_amount}
use impact_wallet_server.Airdrop.Claiming.{is_for, claim_all, claim_all_once}

abbrev transaction : TypeTransaction → ℕ → ℕ → AirdropDto
transaction k date amount = record {
  transaction_date = date;
  wallet = some 101;
  amount = amount;
  final_amount = 0;
  holder_of_days = 10;
  type_transaction = k;
  current_balance = 20;
  balance_check = pos 0;
  transaction = "";
  error = none;
}

abbrev transactions : List AirdropDto
transactions = transaction credit 3 40 ∷ transaction credit 1 10 ∷ transaction debit 5 30 ∷ []

final_calculations-balance_example :
    (kept : List AirdropDto) × (final_calculations transactions
      ≡ with_summary kept (net transactions))
    × (net kept ≡ net transactions)
    × All (λ t. t.amount ≢ 0) kept
final_calculations-balance_example = final_calculations-balance transactions

abbrev chain : List TokenBalances
chain =
    record { pre = none; post = some 10 }
    ∷ record { pre = some 10; post = some 50 }
    ∷ record { pre = some 50; post = some 20 }
    ∷ []

abbrev holder : ℕ → ℕ → Holder
holder wallet final = record {
  wallet = wallet;
  final_amount = final;
  claim = (0, 1);
  is_claim = false;
  error = none;
}

abbrev holders : List Holder
holders = holder 101 2 ∷ holder 102 1 ∷ []

abbrev claim_holder : ℕ → ℕ → Holder
claim_holder wallet final = record {
  wallet = wallet;
  final_amount = final;
  claim = (1000 * final, 3);
  is_claim = false;
  error = none;
}

-- A thousand units go to two holders: 667 and 333.
abbrev claim_holders : List Holder
claim_holders = claim_holder 101 2 ∷ claim_holder 102 1 ∷ []

-- A call whose checks fail, one for another wallet, and two of the holder's.
abbrev calls : List (ℕ × Result (Unit {0}))
calls =
    (101, err (bad_request "Please use DePlan")) ∷ (102, ok tt) ∷ (101, ok tt) ∷ (101, ok tt) ∷ []

claim_all_once_example :
    (filter (is_for 101) (claim_all calls claim_holders) ≡ [])
    ⊎ (filter (is_for 101) (claim_all calls claim_holders)
        ≡ (101, claim_amount (claim_holder 101 2)) ∷ [])
claim_all_once_example = claim_all_once 101 calls claim_holders (claim_holder 101 2) refl refl
