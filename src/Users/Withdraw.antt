-- ===== src/Users/Withdraw.antt =====
-- `withdrawCredits`, `withdrawAsUsdc`, `withdrawAsDpln` and `sendUsdc` (src/users/users.service.ts),
-- with `createAndSendVersionedTxn` and `createTokenAccountInstruction`
-- (src/api-service/api.service.ts). The exchange's instructions are a parameter, as is what the
-- chain answers (Api/Send); `getTokenBalance` catches every error and answers 0, so that balances are
-- numbers.
pub mod Sent
use impact_wallet_server.Base.{ℕ, Bool, Option, none, some, List, [], ◌∷◌, ltb, map, if◌then◌else◌}
use impact_wallet_server.Base.Http.{Result, ok, err, ◌>>=◌, throw_if, or_throw, bad_request}
use impact_wallet_server.Auth.{AccountModel, account_wallet}
use impact_wallet_server.Api.Send.{
  Recipient, Instruction, Fee, create_account, create_transfer_instructions, attempt_txn, retrying,
  create_and_send_txn, transfer_native_token,
}

pub data CreditsWithdrawToken : Type 0 where
  usdc dpln other_token : CreditsWithdrawToken

pub record CreditsWithdrawDto : Type 0 where
  pub recipient : Option ℕ
  pub amount : ℕ
  pub token : CreditsWithdrawToken

-- The mints of the environment.
pub record Mints : Type 0 where
  pub usdc_mint : ℕ
  pub deplan_mint : ℕ

module _ (fee : Fee) (missing : ℕ → ℕ → ℕ → Bool)
    (simulate : ℕ → List Instruction → Result (Option ℕ))
    (send : ℕ → List Instruction → List ℕ → Result ℕ) (mints : Mints) (credits : Option ℕ → ℕ)
    (key : Option ℕ → Result ℕ) (swap : ℕ → ℕ → ℕ → Result (List Instruction)) where
  -- `createTokenAccountInstruction`, which answers nothing for an account that is there
  abbrev pub create_token_account_instruction : ℕ → ℕ → Option Instruction
  create_token_account_instruction mint owner =
      if missing 0 mint owner then some (create_account mint owner) else none

  -- `createAndSendVersionedTxn`; the address tables change the transaction's encoding only
  unfoldable pub create_and_send_versioned_txn :
      List (Option Instruction) → List ℕ → ℕ → ℕ → Result (Option ℕ)
  unfolding attempt_txn retrying
  create_and_send_versioned_txn is pks retries n =
      retrying "Error in createAndSendVersionedTxn: " (attempt_txn fee missing simulate send is pks)
        retries n

  unfoldable pub withdraw_as_usdc : AccountModel → ℕ → ℕ → Result (Option ℕ)
  unfolding create_and_send_versioned_txn
  withdraw_as_usdc a recipient amount = key (account_wallet a) >>= λ pk.
      swap pk amount recipient >>= λ is.
      create_and_send_versioned_txn
        (create_token_account_instruction mints.usdc_mint recipient ∷ map some is) (pk ∷ []) 0 0

  unfoldable pub withdraw_as_dpln : AccountModel → ℕ → ℕ → Result (Option ℕ)
  unfolding create_and_send_txn
  withdraw_as_dpln a recipient amount = key (account_wallet a) >>= λ pk.
      let moves =
        create_transfer_instructions mints.deplan_mint
          (record { sender = pk; wallet = recipient; amount = amount } ∷ []) in
      create_and_send_txn fee missing simulate send
        (create_token_account_instruction mints.deplan_mint recipient ∷ map some moves) (pk ∷ []) 0
        0

  -- `isNil(body.recipient)`, and the balance of the account's wallet
  unfoldable pub check_withdrawal : AccountModel → CreditsWithdrawDto → Result ℕ
  check_withdrawal a dto =
      or_throw dto.recipient (bad_request "Recipient is required") >>= λ recipient.
      throw_if (ltb (credits (account_wallet a)) dto.amount)
        (bad_request "Not enough Credit$ to withdraw")
      >>= λ _. ok recipient

  unfoldable pub withdraw_credits : AccountModel → CreditsWithdrawDto → Result (Option ℕ)
  unfolding check_withdrawal withdraw_as_usdc withdraw_as_dpln
  withdraw_credits a dto = check_withdrawal a dto >>= λ recipient. elim dto.token [
    | usdc ↦ withdraw_as_usdc a recipient dto.amount
    | dpln ↦ withdraw_as_dpln a recipient dto.amount
    | other_token ↦ ok none
  ]

  -- `sendUsdc`
  unfoldable pub send_usdc_of_account : AccountModel → ℕ → ℕ → Result (Option ℕ)
  unfolding transfer_native_token
  send_usdc_of_account a recipient amount =
      throw_if (ltb (credits (account_wallet a)) amount) (bad_request "Not enough Credit$ to send")
      >>= λ _. key (account_wallet a) >>= λ pk.
          transfer_native_token fee missing simulate send mints.deplan_mint
            (record { sender = pk; wallet = recipient; amount = amount } ∷ [])
