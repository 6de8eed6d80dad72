-- ===== src/Tests/ServiceTests.antt =====
-- The theorems on the payment service's events, on sending transactions and on tokens at concrete inputs.
use impact_wallet_server.Base.{
  ℕ, ◌≡◌, refl, none, some, List, [], ◌∷◌, true, false, Bool, find, ◌==◌, if◌then◌else◌,
}
use impact_wallet_server.Base.Http.{Result, ok, err, thrown}
use impact_wallet_server.Members.Schema.{Member}
use impact_wallet_server.Orgs.Schema.{Org}
use impact_wallet_server.Payment.Webhook.{CandyPayEvent, CpPayment, investment}
use impact_wallet_server.Api.Send.{Recipient, Instruction, Fee, transfer}
use impact_wallet_server.Api.Send.Attempts.{IsTransferred, transfer-IsTransferred}
use impact_wallet_server.Auth.{
  Payload, Jwt, AccountModel, get_account_from_token, is_own_member, login_as_org, generate_token,
  with_token, login_as_org-get_account_from_token,
}
use impact_wallet_server.Tests.Data.{acme, alice, users, members}

abbrev order : CpPayment
order = record {
  id = 91;
  type = investment;
  org = some 10;
  amount = 300;
  cp_order_id = some 5;
  cp_result = none;
  org_payload = none;
}

abbrev event : ℕ → Bool → CandyPayEvent
event order_id success = record {
  order_id = order_id;
  is_successful = success;
  payment_amount = 300;
  custom_data = none;
}

-- A forged event, one of another order, the successful one, and that one again.
abbrev events : List (Bool × CandyPayEvent)
events =
    (false, event 5 true) ∷ (true, event 6 true) ∷ (true, event 5 true) ∷ (true, event 5 true) ∷ []

abbrev fee : Fee
fee = record { price = 1; payer = 100 }

-- The first attempt fails.
abbrev second_try : ℕ → List Instruction → List ℕ → Result ℕ
second_try n is signers = if n == 1 then ok 8 else err (thrown "blockhash not found")

abbrev recipients : List Recipient
recipients = record { sender = 101; wallet = 102; amount = 7 } ∷ []

transfer-IsTransferred_example :
    IsTransferred fee
      (λ n mint w. true)
      (λ n is. ok (some 1000))
      second_try
      210
      recipients
      3
      0
      (transfer fee (λ n mint w. true) (λ n is. ok (some 1000)) second_try 210 recipients 3 0)
transfer-IsTransferred_example =
    transfer-IsTransferred fee (λ n mint w. true) (λ n is. ok (some 1000)) second_try 210 recipients
      3 0

-- Tokens that are the payloads.
abbrev plain : Jwt Payload
plain = record { sign = λ now p. p; verify = λ p. ok p; verify-sign = λ now p. refl }

abbrev account : AccountModel
account = record { user = alice; org = none }

login_as_org-get_account_from_token_example :
    (org : Org) × (m : Member) × (back : Payload) × (find (is_own_member 10 1) members ≡ some m)
    × (org.id ≡ 10)
    × (get_account_from_token plain
          (with_token plain (record { user_id = 1; org_id = some 10 }))
          users
          (acme ∷ [])
        ≡ ok (record { user = alice; org = some org }))
    × (generate_token plain 2 (record { user = alice; org = some org }) users ≡ ok back)
    × (get_account_from_token plain (with_token plain back) users (acme ∷ [])
        ≡ ok (record { user = alice; org = none }))
unfolding login_as_org
login_as_org-get_account_from_token_example =
    login_as_org-get_account_from_token plain 1 2 10 account users (acme ∷ []) members
      (record { user_id = 1; org_id = some 10 }) refl refl
