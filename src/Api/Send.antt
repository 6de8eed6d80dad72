-- ===== src/Api/Send.antt =====
-- `transfer`, `transferNativeToken` and `createAndSendTxn` (src/api-service/api.service.ts): how a
-- transaction is put together, and the attempts to send it. What the chain and the library answer to
-- the n-th attempt are parameters: whether a token account is missing, the units that a simulation
-- uses, and what sending comes to.
pub mod Attempts
use Prim.Native.String.{◌++◌ as text_append}
use impact_wallet_server.Base.{
  ℕ, zero, suc, ◌+◌, ◌*◌, ◌/◌, String, Bool, Option, none, some, List, [], ◌∷◌, ◌++◌, map,
  if◌then◌else◌,
}
use impact_wallet_server.Base.Http.{
  Error, Result, ok, err, ◌>>=◌, bad_request, not_found, forbidden, unauthorized, conflict,
  access_denied, teapot, internal_server_error, http_exception, thrown, thrown_undefined,
  type_error,
}

pub record Recipient : Type 0 where
  pub sender : ℕ
  pub wallet : ℕ
  pub amount : ℕ

pub data Instruction : Type 0 where
  create_account : ℕ → ℕ → Instruction
  transfer_token : ℕ → ℕ → ℕ → ℕ → Instruction
  unit_price : ℕ → Instruction
  unit_limit : ℕ → Instruction

-- `FEE_PAYER` pays for every transaction and signs it last.
pub record Fee : Type 0 where
  pub price : ℕ
  pub payer : ℕ

-- `err.message = prefix + err.message`; `undefined` has no field to set
abbrev pub prefixed : String → Error → Error
prefixed p (bad_request m) = bad_request (text_append p m)
prefixed p (not_found m) = not_found (text_append p m)
prefixed p (forbidden m) = forbidden (text_append p m)
prefixed p (unauthorized m) = unauthorized (text_append p m)
prefixed p (conflict m) = conflict (text_append p m)
prefixed p (access_denied m) = access_denied (text_append p m)
prefixed p (teapot m) = teapot (text_append p m)
prefixed p (internal_server_error m) = internal_server_error (text_append p m)
prefixed p (thrown m) = thrown (text_append p m)
prefixed p (http_exception status m) = http_exception status (text_append p m)
prefixed p thrown_undefined = type_error

-- The instructions that create the recipients' missing token accounts.
abbrev pub missing_accounts : (ℕ → ℕ → Bool) → ℕ → List Recipient → List Instruction
missing_accounts missing mint [] = []
missing_accounts missing mint (r ∷ rs) =
    if missing mint r.wallet
    then create_account mint r.wallet ∷ missing_accounts missing mint rs
    else missing_accounts missing mint rs

-- `createTransferInstructions`, in whole units of the token
abbrev pub create_transfer_instructions : ℕ → List Recipient → List Instruction
create_transfer_instructions mint [] = []
create_transfer_instructions mint (r ∷ rs) =
    transfer_token mint r.sender r.wallet r.amount ∷ create_transfer_instructions mint rs

abbrev pub senders : List Recipient → List ℕ
senders [] = []
senders (r ∷ rs) = r.sender ∷ senders rs

-- `if (units)`: no units, and none that are 0; the limit is `Math.ceil(units * 1.05)`.
abbrev pub limit_of : Option ℕ → List Instruction
limit_of none = []
limit_of (some zero) = []
limit_of (some (suc n)) = unit_limit ((suc n * 105 + 99) / 100) ∷ []

-- `instructions.filter(i => !isNil(i))`
abbrev pub present : List (Option Instruction) → List Instruction
present [] = []
present (none ∷ is) = present is
present (some i ∷ is) = i ∷ present is

-- The `catch` blocks that try again, from the n-th attempt on: the last error gets a prefix.
unfoldable pub retrying {ℓ} : {A : Type ℓ} → String → (ℕ → Result A) → ℕ → ℕ → Result A
retrying p attempt zero n = elim (attempt n) [ ok a ↦ ok a | err e ↦ err (prefixed p e) ]
retrying p attempt (suc retries) n =
    let rest = retrying p attempt retries (suc n) in elim (attempt n) [ ok a ↦ ok a | err e ↦ rest ]

module _ (fee : Fee) (missing : ℕ → ℕ → ℕ → Bool)
    (simulate : ℕ → List Instruction → Result (Option ℕ))
    (send : ℕ → List Instruction → List ℕ → Result ℕ) where
  -- The end of an attempt: the price of a unit, the limit, and sending, with the key of the fee payer.
  unfoldable pub send_priced : ℕ → List Instruction → List ℕ → Result ℕ
  send_priced n is signers =
      let priced = is ++ unit_price fee.price ∷ [] in
      simulate n priced >>= λ units. send n (priced ++ limit_of units) (signers ++ fee.payer ∷ [])

  -- The `try` block of `transfer`.
  unfoldable pub attempt_transfer : ℕ → List Recipient → ℕ → Result ℕ
  unfolding send_priced
  attempt_transfer mint rs n =
      send_priced n (missing_accounts (missing n) mint rs ++ create_transfer_instructions mint rs)
        (senders rs)

  unfoldable pub transfer : ℕ → List Recipient → ℕ → ℕ → Result ℕ
  unfolding attempt_transfer retrying
  transfer mint rs retries n =
      retrying "Error transferring tokens: " (attempt_transfer mint rs) retries n

  -- A transfer of credits is not tried again.
  unfoldable pub transfer_native_token : ℕ → List Recipient → Result (Option ℕ)
  unfolding transfer
  transfer_native_token credits [] = ok none
  transfer_native_token credits (r ∷ rs) = elim (transfer credits (r ∷ rs) 0 0) [
    | ok hash ↦ ok (some hash)
    | err e ↦ err (prefixed "Error transfering Credit$: " e)
  ]

  -- The `try` block of `createAndSendTxn`, which answers nothing when there is no instruction.
  unfoldable pub attempt_txn : List (Option Instruction) → List ℕ → ℕ → Result (Option ℕ)
  unfolding send_priced
  attempt_txn is pks n = elim (present is) [
    | [] ↦ ok none
    | i ∷ rest ↦ (send_priced n (i ∷ rest) pks >>= λ hash. ok (some hash))
  ]

  unfoldable pub create_and_send_txn :
      List (Option Instruction) → List ℕ → ℕ → ℕ → Result (Option ℕ)
  unfolding attempt_txn retrying
  create_and_send_txn is pks retries n =
      retrying "Error in createAndSendTxn: " (attempt_txn is pks) retries n
