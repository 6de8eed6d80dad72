-- ===== src/Users/Withdraw/Sent.antt =====
-- The transaction that a withdrawal sends (`withdrawCredits`, src/users/users.service.ts).
use mathlib.Core.Path.{subst}
use mathlib.Core.Option.{some-injective}
use impact_wallet_server.Base.{
  ℕ, String, ◌≡◌, refl, ap, ◌∙◌, inl, inr, Bool, false, Option, none, some, List, [], ◌∷◌, ◌++◌,
  ltb, map, ◌≤◌, arith,
}
use impact_wallet_server.Base.Http.{
  Result, ok, err, ◌>>=◌, >>=-eq-ok, throw_if, throw_if-ok, or_throw, or_throw-ok, ok_inj,
  bad_request, match_result,
}
use impact_wallet_server.Auth.{AccountModel, account_wallet}
use impact_wallet_server.Api.Send.{
  Instruction, Fee, transfer_token, unit_price, limit_of, present, prefixed, send_priced,
  attempt_txn, retrying, create_and_send_txn,
}
use impact_wallet_server.Users.Withdraw.{
  CreditsWithdrawToken, CreditsWithdrawDto, usdc, dpln, other_token, Mints,
  create_token_account_instruction, create_and_send_versioned_txn, withdraw_as_usdc,
  withdraw_as_dpln, check_withdrawal, withdraw_credits,
}

present-some : (is : List Instruction) → present (map some is) ≡ is
present-some [] = refl
present-some (i ∷ is) = ap (◌∷◌ i) (present-some is)

present-cons :
    (o : Option Instruction) (is : List Instruction)
    → present (o ∷ map some is) ≡ present (o ∷ []) ++ is
present-cons none is = present-some is
present-cons (some i) is = ap (◌∷◌ i) (present-some is)

within : (balance amount : ℕ) → ltb balance amount ≡ false → amount ≤ balance
within balance amount h = ground arith

module _ (fee : Fee) (missing : ℕ → ℕ → ℕ → Bool)
    (simulate : ℕ → List Instruction → Result (Option ℕ))
    (send : ℕ → List Instruction → List ℕ → Result ℕ) (mints : Mints) (credits : Option ℕ → ℕ)
    (key : Option ℕ → Result ℕ) (swap : ℕ → ℕ → ℕ → Result (List Instruction)) where
  -- The instructions are sent with the price of a unit and a limit, signed by the account's key.
  abbrev pub IsSigned : List Instruction → ℕ → ℕ → Type 0
  IsSigned is pk hash =
      (units : Option ℕ) × (simulate 0 (is ++ unit_price fee.price ∷ []) ≡ ok units)
      × (send 0 (is ++ unit_price fee.price ∷ [] ++ limit_of units) (pk ∷ fee.payer ∷ []) ≡ ok hash)

  -- What moves the credits: the exchange's instructions, or one transfer of the amount.
  abbrev pub IsMoving : CreditsWithdrawToken → ℕ → ℕ → ℕ → List Instruction → Type 0
  IsMoving usdc pk recipient amount moves = swap pk amount recipient ≡ ok moves
  IsMoving dpln pk recipient amount moves =
      moves ≡ transfer_token mints.deplan_mint pk recipient amount ∷ []
  IsMoving other_token pk recipient amount moves = ⊥

  abbrev pub mint_of : CreditsWithdrawToken → ℕ
  mint_of usdc = mints.usdc_mint
  mint_of dpln = mints.deplan_mint
  mint_of other_token = 0

  -- The instruction for the recipient's account, where that is missing.
  abbrev pub account_instructions : CreditsWithdrawToken → ℕ → List Instruction
  account_instructions token recipient = present (
      create_token_account_instruction fee missing simulate send mints credits key swap
        (mint_of token) recipient
      ∷ [])

  attempt-IsSigned :
      (is : List Instruction) (pk hash : ℕ)
      → elim is [
        | [] ↦ ok none
        | i ∷ rest ↦
            (send_priced fee missing simulate send 0 (i ∷ rest) (pk ∷ []) >>= λ h. ok (some h))
      ]
        ≡ ok (some hash)
      → IsSigned is pk hash
  unfolding send_priced
  attempt-IsSigned [] pk hash h = cc h
  attempt-IsSigned (i ∷ rest) pk hash h =
      let (sent, e, last) =
        >>=-eq-ok (send_priced fee missing simulate send 0 (i ∷ rest) (pk ∷ [])) _ h in
      let same : sent ≡ hash = some-injective sent hash (ok_inj last) in
      let (units, u, e2) = >>=-eq-ok (simulate 0 ((i ∷ rest) ++ unit_price fee.price ∷ [])) _ e in
      (units, u, e2 ∙ ap (λ x. ok x) same)

  first_attempt :
      (p : String) (is : List (Option Instruction)) (pk hash : ℕ)
      → retrying p (attempt_txn fee missing simulate send is (pk ∷ [])) 0 0 ≡ ok (some hash)
      → IsSigned (present is) pk hash
  unfolding retrying attempt_txn
  first_attempt p is pk hash h =
      elim (match_result (attempt_txn fee missing simulate send is (pk ∷ []) 0)
        (λ e. err (prefixed p e)) (λ a. ok a) h) [
          | inl (e, _, k) ↦ cc k
          | inr (a, k, same) ↦ attempt-IsSigned (present is) pk hash (k ∙ same)
        ]

  moved :
      (token : CreditsWithdrawToken) (recipient pk hash : ℕ) (moves : List Instruction) (p : String)
      → retrying p
          (attempt_txn fee missing simulate send
            (create_token_account_instruction fee missing simulate send mints credits key swap
                (mint_of token)
                recipient
              ∷ map some moves)
            (pk ∷ []))
          0
          0
        ≡ ok (some hash)
      → IsSigned (account_instructions token recipient ++ moves) pk hash
  moved token recipient pk hash moves p h =
      subst (λ is. IsSigned is pk hash)
        (present-cons
          (create_token_account_instruction fee missing simulate send mints credits key swap
            (mint_of token) recipient)
          moves)
        (first_attempt p _ pk hash h)

  by_token :
      (a : AccountModel) (recipient amount hash : ℕ) (token : CreditsWithdrawToken)
      → elim token [
        | usdc ↦
            withdraw_as_usdc fee missing simulate send mints credits key swap a recipient amount
        | dpln ↦
            withdraw_as_dpln fee missing simulate send mints credits key swap a recipient amount
        | other_token ↦ ok none
      ]
        ≡ ok (some hash)
      → (pk : ℕ) × (moves : List Instruction) × (key (account_wallet a) ≡ ok pk)
        × IsMoving token pk recipient amount moves
        × IsSigned (account_instructions token recipient ++ moves) pk hash
  unfolding withdraw_as_usdc withdraw_as_dpln create_and_send_versioned_txn create_and_send_txn
  by_token a recipient amount hash other_token h = cc h
  by_token a recipient amount hash usdc h =
      let (pk, keyed, h1) = >>=-eq-ok (key (account_wallet a)) _ h in
      let (moves, swapped, h2) = >>=-eq-ok (swap pk amount recipient) _ h1 in
      (
        pk,
        moves,
        keyed,
        swapped,
        moved usdc recipient pk hash moves "Error in createAndSendVersionedTxn: " h2,
      )
  by_token a recipient amount hash dpln h =
      let (pk, keyed, h1) = >>=-eq-ok (key (account_wallet a)) _ h in
      let moves = transfer_token mints.deplan_mint pk recipient amount ∷ [] in
      (pk, moves, keyed, refl, moved dpln recipient pk hash moves "Error in createAndSendTxn: " h1)

  -- A withdrawal that answers with a hash names a recipient, and when it was asked the account's
  -- wallet held at least the amount. One transaction was sent, the one with this hash, signed by the key
  -- of that wallet and by the fee payer and by nobody else. It creates the recipient's account of the
  -- token's mint if there is none, and then has one transfer of the amount to the recipient or, for USDC,
  -- the instructions that the exchange answers for the amount and the recipient.
  pub withdraw_credits-IsSigned :
      (a : AccountModel) (dto : CreditsWithdrawDto) (hash : ℕ)
      → withdraw_credits fee missing simulate send mints credits key swap a dto ≡ ok (some hash)
      → (recipient : ℕ) × (pk : ℕ) × (moves : List Instruction) × (dto.recipient ≡ some recipient)
        × (dto.amount ≤ credits (account_wallet a))
        × (key (account_wallet a) ≡ ok pk)
        × IsMoving dto.token pk recipient dto.amount moves
        × IsSigned (account_instructions dto.token recipient ++ moves) pk hash
  unfolding withdraw_credits check_withdrawal
  withdraw_credits-IsSigned a dto hash h =
      let (r, c, h1) =
        >>=-eq-ok (check_withdrawal fee missing simulate send mints credits key swap a dto) _ h in
      let (recipient, named, c1) =
        >>=-eq-ok (or_throw dto.recipient (bad_request "Recipient is required")) _ c in
      let (_, enough, c3) =
        >>=-eq-ok
          (throw_if (ltb (credits (account_wallet a)) dto.amount)
            (bad_request "Not enough Credit$ to withdraw"))
          _ c1 in
      let same : recipient ≡ r = ok_inj c3 in
      let (pk, moves, keyed, moving, signed) = by_token a r dto.amount hash dto.token h1 in
      (
        r,
        pk,
        moves,
        or_throw-ok _ _ named ∙ ap some same,
        within (credits (account_wallet a)) dto.amount (
            throw_if-ok (ltb (credits (account_wallet a)) dto.amount)
              (bad_request "Not enough Credit$ to withdraw") enough),
        keyed,
        moving,
        signed,
      )
