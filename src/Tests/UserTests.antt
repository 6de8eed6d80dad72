-- ===== src/Tests/UserTests.antt =====
-- The theorems on new users and their bonus at concrete inputs.
use impact_wallet_server.Base.{
  ◌≤◌, ℕ, ◌≡◌, refl, true, false, Option, none, some, List, [], ◌∷◌, ◌++◌, All, find, is_blank,
  if◌then◌else◌, same_option,
}
use impact_wallet_server.Base.Http.{Result, ok, err, thrown}
use impact_wallet_server.Auth.{AccountModel, Payload, Jwt, get_account_from_token, with_token}
use impact_wallet_server.Users.Schema.{User}
use impact_wallet_server.Users.Create.{
  CreateUserDto, CreateUserResponse, same_nickname, restore_user, create_user,
}
use impact_wallet_server.Users.Create.Restored.{create_user-restore_user}
use impact_wallet_server.Users.Bonus.{find_users_with_expired_bonus_wallet, return_bonus_usdc}
use impact_wallet_server.Users.Bonus.Returned.{IsSent, IsReturned, return_bonus_usdc-IsReturned}
use impact_wallet_server.Api.Send.{Fee, Instruction}
use impact_wallet_server.Users.Withdraw.{CreditsWithdrawDto, dpln, Mints, withdraw_credits}
use impact_wallet_server.Users.Withdraw.Sent.{
  IsSigned, IsMoving, account_instructions, withdraw_credits-IsSigned,
}
use impact_wallet_server.Users.Send.{SendAssetsDto, SendStore}
use impact_wallet_server.Users.Send.Lite.{IsSentLite, send_assets_lite, send_assets_lite-IsSentLite}
use impact_wallet_server.Tests.Data.{acme, alice, users, members}

abbrev signer : Jwt Payload
signer = record { sign = λ now p. p; verify = λ p. ok p; verify-sign = λ now p. refl }

abbrev carol_dto : CreateUserDto
carol_dto = record { nickname = some " carol"; name = none; avatar = none }

abbrev carol : User
carol = record alice {
  id = 3;
  nickname = "carol";
  wallet = some 103;
  bonus_wallet = some 203;
  created_at = 500;
  secret_link = some 77;
}

abbrev answer : CreateUserResponse Payload
answer = record { secret_link = some 77; token = record { user_id = 3; org_id = none } }

create_user-restore_user_example :
    (u : User) × (users ++ carol ∷ [] ≡ users ++ u ∷ [])
    × (is_blank u.nickname ≡ false)
    × (find (same_nickname u) users ≡ none)
    × (answer.secret_link ≡ some 77)
    × (get_account_from_token signer
          (with_token signer answer.token)
          (users ++ carol ∷ [])
          (acme ∷ [])
        ≡ ok (record { user = u; org = none }))
    × ((again : CreateUserResponse Payload) × (restore_user signer 600 77 (users ++ carol ∷ [])
          ≡ ok again)
        × (again.secret_link ≡ some 77)
        × (get_account_from_token signer
              (with_token signer again.token)
              (users ++ carol ∷ [])
              (acme ∷ [])
            ≡ ok (record { user = u; org = none })))
unfolding create_user
create_user-restore_user_example =
    create_user-restore_user signer (λ e. none) (ok 103) (ok 203) true 3 500 77 carol_dto (ok none)
      false users (acme ∷ []) 600 {r = answer} {users' = users ++ carol ∷ []} refl refl refl

-- Carol's bonus wallet holds 5 credits, Dave's nothing.
abbrev dave : User
dave = record carol { id = 4; nickname = "dave"; bonus_wallet = some 204 }

abbrev held : Option ℕ → ℕ
held w = if same_option w (some 203) then 5000000 else 0

abbrev bonus_users : List User
bonus_users = alice ∷ carol ∷ dave ∷ carol ∷ []

return_bonus_usdc-IsReturned_example :
    All
      (IsSent held (λ w. ok 1) (λ t. ok 9) 110)
      (return_bonus_usdc held (λ w. ok 1) (λ t. ok 9) 110 none 90000000 (acme ∷ []) bonus_users).0
    × IsReturned held
        (λ w. ok 1)
        (λ t. ok 9)
        110
        (acme ∷ [])
        (find_users_with_expired_bonus_wallet none 90000000 bonus_users)
        (return_bonus_usdc held (λ w. ok 1) (λ t. ok 9) 110 none 90000000 (acme ∷ []) bonus_users).0
        (return_bonus_usdc held (λ w. ok 1) (λ t. ok 9) 110 none 90000000 (acme ∷ []) bonus_users).1
return_bonus_usdc-IsReturned_example =
    return_bonus_usdc-IsReturned held (λ w. ok 1) (λ t. ok 9) 110 none 90000000 (acme ∷ [])
      bonus_users

abbrev mints : Mints
mints = record { usdc_mint = 301; deplan_mint = 302 }

abbrev held_by_all : Option ℕ → ℕ
held_by_all w = 5000000

abbrev fee : Fee
fee = record { price = 1; payer = 100 }

abbrev own_key : Option ℕ → Result ℕ
own_key w = ok 101

abbrev no_swap : ℕ → ℕ → ℕ → Result (List Instruction)
no_swap pk amount recipient = err (thrown "no route")

-- Alice withdraws 3 credits to a wallet without an account.
abbrev withdrawal : CreditsWithdrawDto
withdrawal = record { recipient = some 900; amount = 3000000; token = dpln }

abbrev alice_account : AccountModel
alice_account = record { user = alice; org = none }

withdraw_credits-IsSigned_example :
    (recipient : ℕ) × (pk : ℕ) × (moves : List Instruction) × (withdrawal.recipient
      ≡ some recipient)
    × (3000000 ≤ held_by_all (some 101))
    × (own_key (some 101) ≡ ok pk)
    × IsMoving fee
        (λ n m w. true)
        (λ n is. ok none)
        (λ n is pks. ok 55)
        mints
        held_by_all
        own_key
        no_swap
        dpln
        pk
        recipient
        3000000
        moves
    × IsSigned fee
        (λ n m w. true)
        (λ n is. ok none)
        (λ n is pks. ok 55)
        mints
        held_by_all
        own_key
        no_swap
        (account_instructions fee
            (λ n m w. true)
            (λ n is. ok none)
            (λ n is pks. ok 55)
            mints
            held_by_all
            own_key
            no_swap
            dpln
            recipient
          ++ moves)
        pk
        55
unfolding withdraw_credits
withdraw_credits-IsSigned_example =
    withdraw_credits-IsSigned fee (λ n m w. true) (λ n is. ok none) (λ n is pks. ok 55) mints
      held_by_all own_key no_swap alice_account withdrawal 55 refl

-- Alice sends Carol, who is no member of Acme, 2 percent.
abbrev to_carol : SendAssetsDto
to_carol = record {
  recipient_id = some 3;
  recipient_org_id = none;
  recipient_address = none;
  amount = 2000000000;
}

abbrev store : SendStore
store = record { users = users ++ carol ∷ []; orgs = acme ∷ []; members = members }

send_assets_lite-IsSentLite_example :
    IsSentLite own_key
      (λ pk mint w n. ok 66)
      31
      to_carol
      alice_account
      10
      store
      (send_assets_lite own_key (λ pk mint w n. ok 66) 31 to_carol alice_account 10 store)
send_assets_lite-IsSentLite_example =
    send_assets_lite-IsSentLite own_key (λ pk mint w n. ok 66) 31 to_carol alice_account 10 store
