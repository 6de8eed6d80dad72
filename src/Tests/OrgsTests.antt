-- ===== src/Tests/OrgsTests.antt =====
-- The theorems on organizations' tokens and on the confirmation of transactions at concrete inputs.
use impact_wallet_server.Base.{
  ◌+◌, arith, ℕ, ◌≡◌, refl, Option, none, some, [], ◌∷◌, ◌==◌, if◌then◌else◌, find,
}
use impact_wallet_server.Base.Http.{ok}
use impact_wallet_server.Orgs.Schema.{Org}
use impact_wallet_server.Orgs.Mint.{has_id, create_token}
use impact_wallet_server.Orgs.Mint.Status.{IsCreated, create_token-IsCreated}
use impact_wallet_server.Api.Confirm.{
  ParsedTransaction, resent, confirm_txn_with_retry, confirm_txn_with_retry_sound,
  confirm_txn_with_retry-endless,
}
use impact_wallet_server.Tests.Data.{acme}

-- An organization without a token.
abbrev young : Org
young = record acme { id = 11; mint = none; mint_status = none }

create_token-IsCreated_example :
    IsCreated
      (some (101, 5000))
      young
      (find
        (has_id 11)
        (create_token
          (λ o. ok tt)
          (λ o. ok (211, 1))
          (λ h. ok h)
          (λ m w a. ok 2)
          young
          (some (101, 5000))
          (acme ∷ young ∷ [])).0)
      (create_token
        (λ o. ok tt)
        (λ o. ok (211, 1))
        (λ h. ok h)
        (λ m w a. ok 2)
        young
        (some (101, 5000))
        (acme ∷ young ∷ [])).1
create_token-IsCreated_example =
    create_token-IsCreated (λ o. ok tt) (λ o. ok (211, 1)) (λ h. ok h) (λ m w a. ok 2) young
      (some (101, 5000)) (acme ∷ young ∷ []) young refl

-- The third read answers.
abbrev third_read : ℕ → Option ParsedTransaction
third_read i = if i == 2 then some (record { error = none }) else none

-- The first transaction fails, the one that is sent instead is confirmed.
abbrev second_hash : ℕ → ℕ → ℕ → Option ParsedTransaction
second_hash k h i =
    if h == 2 then some (record { error = none }) else some (record { error = some "slippage" })

confirm_txn_with_retry_sound_example :
    (j : ℕ) × (i : ℕ) × (second_hash j 2 i ≡ some (record { error = none }))
unfolding confirm_txn_with_retry
confirm_txn_with_retry_sound_example =
    confirm_txn_with_retry_sound second_hash (λ k. resent 2) 3 0 1 none 5 {h = 2} refl

confirm_txn_with_retry-endless_example :
    confirm_txn_with_retry
      (λ k h i. some (record { error = some "slippage" }))
      (λ k. resent (k + 1))
      50
      0
      0
      none
      5
    ≡ none
confirm_txn_with_retry-endless_example =
    confirm_txn_with_retry-endless (λ k h i. some (record { error = some "slippage" }))
      (λ k. resent (k + 1)) "slippage" (λ k h i. refl) 50 0 0 none 5 (omega arith)
