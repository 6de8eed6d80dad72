-- ===== src/Tests/AccountTests.antt =====
-- An account's history at a concrete transaction: the account pays, and receives after it.
use impact_wallet_server.Base.{◌≡◌, refl, none, some, List, [], ◌∷◌, ℕ}
use impact_wallet_server.Base.Int.{neg_ℤ}
use impact_wallet_server.Account.{
  ParsedInstruction, Description, HistoryItem, transfer, sent, get_txn_amount,
}

abbrev paying : ℕ → ℕ → ℕ → ParsedInstruction
paying source destination amount = record {
  type = transfer;
  authority = none;
  source = some source;
  destination = some destination;
  account = none;
  amount = amount;
}

-- The description of a payment stays for what is received after it.
abbrev descriptions : List HistoryItem → List Description
descriptions [] = []
descriptions (x ∷ xs) = x.description ∷ descriptions xs

received_as_sent :
    descriptions (get_txn_amount 1 9 (paying 1 2 45 ∷ paying 3 1 20 ∷ [])) ≡ sent ∷ sent ∷ []
unfolding get_txn_amount neg_ℤ
received_as_sent = refl
