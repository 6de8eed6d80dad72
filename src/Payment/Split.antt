-- ===== src/Payment/Split.antt =====
-- The split of a payment between the holders of an organization's token: the loop of
-- `handleRegularPayment` and `_normalizeAmount` (src/payment/payment.service.ts). Credits are
-- counted in 10^-6, so `1 / 10 ** decimals` is the integer 1; shares of equity in 10^-9 percent.
pub mod Amounts
pub mod Holders
pub mod Profits
use impact_wallet_server.Base.{
  ℕ, zero, suc, ◌+◌, ◌*◌, ◌≡◌, Bool, true, false, Option, none, some, List, [], ◌∷◌, ◌++◌, ◌==◌,
  if◌then◌else◌, find, filter, update_first, default_to,
}
use impact_wallet_server.Base.Int.{ℤ, pos, negsuc, pos_part, ◌+ℤ◌, ◌-ℤ◌, neg_ℤ, ltb_ℤ}
use impact_wallet_server.Base.Round.{round_div}
use impact_wallet_server.Members.Schema.{Member}
use impact_wallet_server.Members.{has_id}
use impact_wallet_server.Orgs.Schema.{Org}
use impact_wallet_server.Users.Schema.{User}

-- `_normalizeAmount`: one unit less until the accumulated amount fits; `none` is lack of fuel.
unfoldable pub normalize_from : ℕ → ℤ → ℤ → ℤ → Option ℤ
normalize_from zero amount amount_to_split accumulated = none
normalize_from (suc f) amount amount_to_split accumulated =
    let rest = normalize_from f (amount -ℤ pos 1) amount_to_split accumulated in
    if ltb_ℤ amount_to_split (accumulated +ℤ amount) then rest else some amount

-- The fuel is one more than the excess.
unfoldable pub normalize_amount : ℤ → ℤ → ℤ → Option ℤ
unfolding normalize_from
normalize_amount amount amount_to_split accumulated =
    normalize_from (suc (pos_part (accumulated +ℤ amount -ℤ amount_to_split))) amount
      amount_to_split accumulated

-- `toFixed(paymentAmount.mul(org.settings.treasury / 100), 6)`
unfoldable pub treasury_amount : ℤ → ℕ → ℤ
treasury_amount (pos payment) percent = pos (round_div (payment * percent) 100000000)
treasury_amount (negsuc payment) percent = neg_ℤ (pos (round_div (suc payment * percent) 100000000))

-- `toFixed(amountToSplit.mul(equityAmount.div(100)), 6)`, of an amount that is not negative
unfoldable pub share : ℕ → ℕ → ℕ
share amount_to_split equity = round_div (amount_to_split * equity) 100000000000

abbrev pub has_user_id : ℕ → User → Bool
has_user_id i u = u.id == i

abbrev pub has_org_id : ℕ → Org → Bool
has_org_id i o = o.id == i

-- `populate` of the fields `user` and `orgUser`
abbrev pub populated_user : List User → Member → Option User
populated_user users m = elim m.user [ none ↦ none | some i ↦ find (has_user_id i) users ]

abbrev pub populated_org : List Org → Member → Option Org
populated_org orgs m = elim m.org_user [ none ↦ none | some i ↦ find (has_org_id i) orgs ]

abbrev pub user_wallet : Option User → Option ℕ
user_wallet none = none
user_wallet (some u) = u.wallet

abbrev pub org_wallet : Option Org → Option ℕ
org_wallet none = none
org_wallet (some o) = o.wallet

-- One transfer of the split: the member paid, the wallet and the amount.
pub record Payout : Type 0 where
  pub member : ℕ
  pub wallet : Option ℕ
  pub amount : ℤ

pub record OrgPayout : Type 0 where
  pub org_user : Org
  pub amount : ℤ

-- The variables of the loop, with the collection of members that it writes to.
pub record SplitState : Type 0 where
  pub accumulated : ℤ
  pub members_with_amount : List Payout
  pub org_members : List OrgPayout
  pub members : List Member

-- `member.profit += profit; member.save()` of the document that the query returned
unfoldable pub profit_calculation_and_save : Member → ℤ → List Member → List Member
profit_calculation_and_save member profit ms =
    update_first (has_id member.id) (λ m. record m { profit = member.profit +ℤ profit }) ms

-- `memberModel.find({ org: org._id })`
abbrev pub holders_of : ℕ → List Member → List Member
holders_of org_id ms = filter (λ m. m.org == org_id) ms

-- `isNil(holder.user) && !isNil(holder.orgUser)`
abbrev pub org_payouts : Option User → Option Org → ℤ → List OrgPayout
org_payouts none (some o) amount = record { org_user = o; amount = amount } ∷ []
org_payouts none none amount = []
org_payouts (some _) _ amount = []

module _ (users : List User) (orgs : List Org) where
  -- `defaultTo(holder.user?.wallet, holder.orgUser?.wallet)`
  unfoldable pub holder_wallet : Member → Option ℕ
  holder_wallet h =
      default_to (user_wallet (populated_user users h)) (org_wallet (populated_org orgs h))

  -- What a holder of some equity is paid, once the amount is known.
  unfoldable pub record_payout : Member → ℤ → SplitState → SplitState
  unfolding holder_wallet profit_calculation_and_save
  record_payout h amount s = record {
    accumulated = s.accumulated +ℤ amount;
    members_with_amount =
        s.members_with_amount
        ++ record { member = h.id; wallet = holder_wallet h; amount = amount } ∷ [];
    org_members =
        s.org_members ++ org_payouts (populated_user users h) (populated_org orgs h) amount;
    members = profit_calculation_and_save h amount s.members;
  }

-- `token_balance` is `ApiService.getTokenBalance(mint, wallet)`, which is 0 where a key is missing.
module _ (token_balance : Option ℕ → Option ℕ → ℕ) (users : List User) (orgs : List Org) where
  -- One round of `mapSeries(holders, …)`
  unfoldable pub pay_holder : Option ℕ → ℕ → Member → SplitState → Option SplitState
  pay_holder mint amount_to_split h s =
      let equity = token_balance mint (holder_wallet users orgs h) in
      if equity == 0
      then some s
      else elim (normalize_amount (pos (share amount_to_split equity)) (pos amount_to_split)
          s.accumulated) [ none ↦ none | some amount ↦ some (record_payout users orgs h amount s) ]

  unfoldable pub pay_holders : Option ℕ → ℕ → List Member → SplitState → Option SplitState
  pay_holders mint amount_to_split [] s = some s
  pay_holders mint amount_to_split (h ∷ hs) s = elim (pay_holder mint amount_to_split h s) [
    | none ↦ none
    | some s' ↦ pay_holders mint amount_to_split hs s'
  ]

abbrev pub split_start : List Member → SplitState
split_start ms = record {
  accumulated = pos 0;
  members_with_amount = [];
  org_members = [];
  members = ms;
}
