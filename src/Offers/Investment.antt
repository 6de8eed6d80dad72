-- ===== src/Offers/Investment.antt =====
-- `handleInvestmentPayment` (src/payment/payment.service.ts): the investor becomes a member, or a
-- member's investment grows.
use impact_wallet_server.Base.{
  ℕ, ◌+◌, Bool, true, ◌&&◌, Option, none, some, List, ◌==◌, find, update_first, same_option,
}
use impact_wallet_server.Base.Http.{Result, ok, err, ◌>>=◌, or_throw, thrown, type_error}
use impact_wallet_server.Members.Schema.{Member, InvestorSettings, immediately}
use impact_wallet_server.Members.{has_id, saved, refused, save_new}
use impact_wallet_server.Orgs.Schema.{Org}
use impact_wallet_server.Payment.Split.{holder_wallet}
use impact_wallet_server.Offers.Schema.{MemberProspect, Payment, Store, member_of}

-- `pickBy(memberQuery, identity)`: a field that is missing is not asked for
abbrev pub matches_if_given : Option ℕ → Option ℕ → Bool
matches_if_given none field = true
matches_if_given (some i) field = same_option field (some i)

abbrev pub is_investing_member : ℕ → MemberProspect → Member → Bool
is_investing_member org_id p m =
    (m.org == org_id) && matches_if_given p.user m.user && matches_if_given p.org_user m.org_user

-- `get(member, 'investorSettings.investmentAmount', 0)`
abbrev pub invested : Option InvestorSettings → ℕ
invested none = 0
invested (some i) = i.investment_amount

abbrev pub with_investment : ℕ → ℕ → Member → Member
with_investment amount equity m = record m {
  investor_settings = some (record { investment_amount = amount; equity_allocation = equity });
}

abbrev pub at_once : Member → Member
at_once m = record m { equity_type = some immediately }

module _ (token_balance : Option ℕ → Option ℕ → ℕ) where
  -- `fresh` is the id of a new member.
  unfoldable pub handle_investment_payment : ℕ → Org → Payment → Store → Result (List Member)
  unfolding save_new holder_wallet
  handle_investment_payment fresh org payment s =
      elim (find (is_investing_member org.id payment.investor) s.members) [
        | none ↦ elim (save_new (at_once (member_of fresh org.id payment.investor)) s.members) [
          | saved ms ↦ ok ms
          | refused e ↦ err (thrown "MongoServerError")
        ]
        | some m ↦ or_throw payment.investor.investor_settings type_error >>= λ settings. ok (
            update_first (has_id m.id)
              (with_investment (invested m.investor_settings + settings.investment_amount)
                (token_balance org.mint (holder_wallet s.users s.orgs m)))
              s.members)
      ]
