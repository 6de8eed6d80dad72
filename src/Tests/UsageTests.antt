-- ===== src/Tests/UsageTests.antt =====
-- The theorems on the check of a wallet's usage and on the webhook of merchants at concrete inputs.
use impact_wallet_server.Base.{ℕ, refl, none, some, Option, List, [], ◌∷◌, take}
use impact_wallet_server.Base.Http.{ok}
use impact_wallet_server.Airdrop.Usage.{UsageTxn, UsageInstruction}
use impact_wallet_server.Airdrop.Usage.Paged.{after}
use impact_wallet_server.Payment.Merchant.{MerchantPayment, handle_merchant_payment}
use impact_wallet_server.Payment.Merchant.Minted.{IsRecorded, handle_merchant_payment-IsRecorded}
use impact_wallet_server.Tests.Data.{acme}

abbrev payment : UsageInstruction
payment = record { type = "transferChecked"; authority = some 5; program_id = 1; parsed = 0 }

abbrev memo : ℕ → UsageInstruction
memo minutes = record { type = ""; authority = none; program_id = 2; parsed = minutes }

abbrev session : ℕ → ℕ → ℕ → UsageTxn
session signature time minutes = record {
  signature = signature;
  block_time = time;
  instructions = payment ∷ memo minutes ∷ [];
}

-- Seven sessions on two days, and one before the period.
abbrev history : List UsageTxn
history =
    session 8 180000 3
    ∷ session 7 170000 3
    ∷ session 6 160000 3
    ∷ session 5 150000 3
    ∷ session 4 140000 3
    ∷ session 3 130000 3
    ∷ session 2 120000 3
    ∷ session 1 90000 500
    ∷ []

abbrev pages : Option ℕ → List UsageTxn
pages before = take 6 (after before history)

-- Acme's webhook reports a payment of 7 credits, and minting works.
abbrev order : MerchantPayment
order = record { wallet_address = 110; amount = 7000000; memo = some " order 1 " }

handle_merchant_payment-IsRecorded_example :
    IsRecorded 110
      (λ w. ok 99)
      (λ pk w n memo. ok 41)
      (λ h. ok h)
      1
      order
      (acme ∷ [])
      []
      (handle_merchant_payment 110
        (λ w. ok 99)
        (λ pk w n memo. ok 41)
        (λ h. ok h)
        1
        order
        (acme ∷ [])
        []).0
handle_merchant_payment-IsRecorded_example =
    handle_merchant_payment-IsRecorded 110 (λ w. ok 99) (λ pk w n memo. ok 41) (λ h. ok h) 1 order
      (acme ∷ []) [] refl
