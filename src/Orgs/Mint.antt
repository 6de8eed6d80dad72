-- ===== src/Orgs/Mint.antt =====
-- The token of an organization: `createToken`, `ensureMint`, `ensureMintNotInProgress`, `updateMint`
-- and `updateMintedAmount` (src/orgs/orgs.service.ts). What the store of logos and the chain answer
-- is a parameter.
pub mod Status
use impact_wallet_server.Base.{
  ℕ, zero, suc, String, Bool, true, false, Option, none, some, List, ◌==◌, if◌then◌else◌, find,
  update_first, is_nil, not,
}
use impact_wallet_server.Base.Int.{ℤ, pos, ◌+ℤ◌}
use impact_wallet_server.Base.Http.{
  Error, Result, ok, err, ◌>>=◌, ◌>>◌, or_throw, not_found, message_of,
}
use impact_wallet_server.Orgs.Schema.{Org, MintStatus, in_progress, error, success}

abbrev pub has_id : ℕ → Org → Bool
has_id i o = o.id == i

-- `MintInfoDto`
pub record MintInfo : Type 0 where
  pub mint : Option ℕ
  pub mint_error : Option String
  pub mint_status : MintStatus

abbrev pub with_mint_info : MintInfo → Org → Org
with_mint_info i o = record o {
  mint = i.mint;
  mint_error = i.mint_error;
  mint_status = some i.mint_status;
}

unfoldable pub update_mint : ℕ → MintInfo → List Org → List Org
update_mint i info orgs = update_first (has_id i) (with_mint_info info) orgs

abbrev pub add_minted : ℤ → Org → Org
add_minted amount o = record o { lamports_minted = o.lamports_minted +ℤ amount }

unfoldable pub update_minted_amount : ℕ → ℤ → List Org → List Org
update_minted_amount i amount orgs = update_first (has_id i) (add_minted amount) orgs

unfoldable pub get_by_org_id : ℕ → List Org → Result Org
get_by_org_id i orgs = or_throw (find (has_id i) orgs) (not_found "Organization not found")

abbrev pub is_in_progress : Option MintStatus → Bool
is_in_progress none = false
is_in_progress (some in_progress) = true
is_in_progress (some error) = false
is_in_progress (some success) = false

-- `ensureMintNotInProgress`: `db i` is the collection at the i-th read, two seconds apart. The
-- result is the read at which it stops to wait.
unfoldable pub ensure_mint_not_in_progress : (ℕ → List Org) → ℕ → ℕ → ℕ → Result ℕ
unfolding get_by_org_id
ensure_mint_not_in_progress db org_id i zero = get_by_org_id org_id (db i) >>= λ org. ok i
ensure_mint_not_in_progress db org_id i (suc retries) =
    let later = ensure_mint_not_in_progress db org_id (suc i) retries in
    get_by_org_id org_id (db i) >>= λ org. if is_in_progress org.mint_status then later else ok i

-- `MINT_STATUS_RETRIES`
abbrev pub mint_status_retries : ℕ
mint_status_retries = 5

abbrev pub created : ℕ → MintInfo
created mint = record { mint = some mint; mint_error = none; mint_status = success }

abbrev pub not_created : Error → MintInfo
not_created e = record { mint = none; mint_error = message_of e; mint_status = error }

abbrev pub in_creation : MintInfo
in_creation = record { mint = none; mint_error = none; mint_status = in_progress }

-- `get_logo` is the file's read, `create` sends the transaction and answers mint and hash, `confirm`
-- is `confirmTxnWithRetry`, `mint_token` mints shares of a token.
module _ (get_logo : Org → Result (Unit {0})) (create : Org → Result (ℕ × ℕ))
    (confirm : ℕ → Result ℕ) (mint_token : ℕ → ℕ → ℕ → Result ℕ) where
  unfoldable pub create_confirmed : Org → Result ℕ
  create_confirmed org =
      get_logo org >> create org >>= λ token. confirm token.1 >>= λ hash. ok token.0

  -- `createToken(org, initialMint)`, with the wallet and the amount of the initial mint
  unfoldable pub create_token : Org → Option (ℕ × ℕ) → List Org → List Org × Result (Unit {0})
  unfolding create_confirmed update_mint update_minted_amount
  create_token org initial_mint orgs =
      let started = update_mint org.id in_creation orgs in
      elim (create_confirmed org) [
        | err e ↦ (update_mint org.id (not_created e) started, err e)
        | ok mint ↦ elim initial_mint [
          | none ↦ (update_mint org.id (created mint) started, ok tt)
          | some (wallet, amount) ↦ elim (mint_token mint wallet amount >>= confirm) [
            | err e ↦ (started, err e)
            | ok hash ↦ (
              update_mint org.id (created mint) (update_minted_amount org.id (pos amount) started),
              ok tt,
            )
          ]
        ]
      ]

  -- `ensureMint`, on the collection that it reads once it has waited
  unfoldable pub ensure_mint_of : ℕ → List Org → List Org × Result (Unit {0})
  unfolding create_confirmed update_mint get_by_org_id
  ensure_mint_of org_id orgs = elim (get_by_org_id org_id orgs) [
    | err e ↦ (orgs, err e)
    | ok org ↦ if not (is_nil org.mint) then (orgs, ok tt) else elim (create_confirmed org) [
      | err e ↦ (update_mint org.id (not_created e) orgs, err e)
      | ok mint ↦ (update_mint org.id (created mint) orgs, ok tt)
    ]
  ]

  unfoldable pub ensure_mint : (ℕ → List Org) → ℕ → List Org × Result (Unit {0})
  unfolding ensure_mint_of ensure_mint_not_in_progress
  ensure_mint db org_id = elim (ensure_mint_not_in_progress db org_id 0 mint_status_retries) [
    | err e ↦ (db 0, err e)
    | ok i ↦ ensure_mint_of org_id (db (suc i))
  ]
