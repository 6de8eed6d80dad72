-- ===== src/Users/Bonus.antt =====
-- The bonus of new users: `sendBonusUSDCForNewUser`, `findUsersWithExpiredBonusWallet`,
-- `sendBonusUsdcBack` and `returnBonusUSDC` (src/users/users.service.ts). The chain's balances, keys and
-- transfers are parameters; the transfers that went through are part of the result. Credits are
-- counted in 10^-6, times in milliseconds.
pub mod Returned
use impact_wallet_server.Base.{
  ℕ, zero, suc, ◌+◌, ◌*◌, Bool, true, false, ◌&&◌, not, Option, none, some, List, [], ◌∷◌, ◌++◌,
  ◌==◌, ltb, is_nil, filter, find, same_option, if◌then◌else◌,
}
use impact_wallet_server.Base.Http.{
  Result, ok, err, ◌>>=◌, throw_if, or_throw, bad_request, type_error,
}
use impact_wallet_server.Orgs.Schema.{Org}
use impact_wallet_server.Users.Schema.{User}

pub record BonusTransfer : Type 0 where
  pub sender : Option ℕ
  pub recipient : Option ℕ
  pub amount : ℕ

-- `+process.env.BONUS_WALLET_EXPIRATION_INTERVAL_MIN || 1440`
abbrev pub interval_minutes : Option ℕ → ℕ
interval_minutes none = 1440
interval_minutes (some zero) = 1440
interval_minutes (some (suc n)) = suc n

-- `bonusWallet: { $ne: null }, createdAt: { $lt: threshold }`
abbrev pub is_expired : Option ℕ → ℕ → User → Bool
is_expired interval now u =
    not (is_nil u.bonus_wallet) && ltb (u.created_at + interval_minutes interval * 60000) now

unfoldable pub find_users_with_expired_bonus_wallet : Option ℕ → ℕ → List User → List User
find_users_with_expired_bonus_wallet interval now users = filter (is_expired interval now) users

abbrev pub has_wallet : ℕ → Org → Bool
has_wallet root o = same_option o.wallet (some root)

-- `transfer` is the chain's answer when it is asked, `key` the wallet's service's; `getTokenBalance`
-- catches every error and answers 0 then, so that a balance is a number.
module _ (balance : Option ℕ → ℕ) (key : Option ℕ → Result ℕ)
    (transfer : BonusTransfer → Result ℕ) where
  unfoldable pub send_bonus_usdc_for_new_user : ℕ → ℕ → User → Result BonusTransfer
  send_bonus_usdc_for_new_user fee_payer bonus u = key (some fee_payer) >>= λ pk.
      throw_if (ltb (balance (some fee_payer)) bonus)
        (bad_request "Not enough Credit$ to send BONUS")
      >>= λ _.
          let t : BonusTransfer = record {
            sender = some fee_payer;
            recipient = u.bonus_wallet;
            amount = bonus;
          } in
          transfer t >>= λ signature. ok t

  abbrev pub return_of : ℕ → User → ℕ → BonusTransfer
  return_of root u held = record { sender = u.bonus_wallet; recipient = some root; amount = held }

  -- `sendBonusUsdcBack`: the transfers that have gone through, and how it ended. The notification
  -- names the main organization, after the transfer.
  unfoldable pub send_bonus_usdc_back : ℕ → List Org → User → List BonusTransfer × Result (Unit {0})
  send_bonus_usdc_back root orgs u =
      let t = return_of root u (balance u.bonus_wallet) in
      if balance u.bonus_wallet == 0
      then ([], ok tt)
      else elim (key u.bonus_wallet >>= λ pk. transfer t) [
        | err e ↦ ([], err e)
        | ok signature ↦
            (t ∷ [], or_throw (find (has_wallet root) orgs) type_error >>= λ org. ok tt)
      ]

  -- The loop of `returnBonusUSDC`: what throws ends it.
  unfoldable pub return_each : ℕ → List Org → List User → List BonusTransfer × Result (Unit {0})
  unfolding send_bonus_usdc_back
  return_each root orgs [] = ([], ok tt)
  return_each root orgs (u ∷ users) =
      let first = send_bonus_usdc_back root orgs u in
      let rest = return_each root orgs users in
      elim first.1 [ err e ↦ (first.0, err e) | ok _ ↦ (first.0 ++ rest.0, rest.1) ]

  unfoldable pub return_bonus_usdc :
      ℕ → Option ℕ → ℕ → List Org → List User → List BonusTransfer × Result (Unit {0})
  unfolding return_each find_users_with_expired_bonus_wallet
  return_bonus_usdc root interval now orgs users =
      return_each root orgs (find_users_with_expired_bonus_wallet interval now users)
