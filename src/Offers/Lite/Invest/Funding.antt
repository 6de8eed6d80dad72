-- ===== src/Offers/Lite/Invest/Funding.antt =====
-- What `updateInvestOfferStatus` does to an offer when an investment is accepted.
use mathlib.Core.Path.{subst}
use mathlib.Core.Option.{some-injective}
use impact_wallet_server.Base.{
  ℕ, ◌+◌, ◌≤◌, ◌≡◌, refl, sym, ap, ◌∙◌, inl, inr, Option, some, List, arith,
}
use impact_wallet_server.Base.Http.{Result, ok, >>=-eq-ok, ok_inj, match_result, match_option}
use impact_wallet_server.Orgs.Schema.{Org}
use impact_wallet_server.Offers.Schema.{Offer, OfferInvestorSettings, Payment, Store}
use impact_wallet_server.Offers.Status.{Account, accept, save_offer, Fresh}
use impact_wallet_server.Offers.Investment.{invested, handle_investment_payment}
use impact_wallet_server.Offers.Lite.Equity.{MemberData}
use impact_wallet_server.Offers.Lite.Invest.{
  add_investment, plan, Plan, fund, Funded, shares, commission_of, paid, funded_status,
  funded_offer, saved_payment, accept_investment, decide_investment, update_invest_offer_status,
}
use impact_wallet_server.Offers.Lite.Invest.Raised.{
  raised, HasDistinctKeys, add_investment-raised, add_investment-HasDistinctKeys, plan-raised,
  new_prospect_key,
}

module _ (token_balance : Option ℕ → Option ℕ → ℕ)
    (transfer : Option ℕ → Option ℕ → ℕ → ℕ → Result ℕ) (send : List MemberData → Option ℕ)
    (commission : ℕ) where
  fund-prospects :
      (fresh : Fresh) (org : Org) (a : Account) (wallet : Option ℕ) (o : Offer) (payment : Payment)
      (p : Plan) (s : Store) {f : Funded}
      → fund token_balance transfer send commission fresh org a wallet o payment p s ≡ ok f
      → add_investment a payment.amount p.equity payment.investor o.member_prospects
        ≡ ok f.prospects
  unfolding fund
  fund-prospects fresh org a wallet o payment p s e =
      let (ds, _, e1) =
        >>=-eq-ok (shares token_balance transfer send commission org a wallet payment p s) _ e in
      let (hash, _, e2) =
        >>=-eq-ok
          (transfer wallet org.wallet payment.amount (commission_of commission payment.amount)) _
          e1 in
      let (ps, hp, e3) =
        >>=-eq-ok (add_investment a payment.amount p.equity payment.investor o.member_prospects) _
          e2 in
      let (ms, _, e4) =
        >>=-eq-ok (handle_investment_payment token_balance fresh.member org (paid payment hash) s) _
          e3 in
      subst
        (λ f.
          add_investment a payment.amount p.equity payment.investor o.member_prospects
          ≡ ok f.prospects)
        (ok_inj e4) hp

  accept-plan :
      (fresh : Fresh) (org : Org) (o : Offer) (amount : ℕ) (a : Account) (wallet : Option ℕ)
      (s s' : Store) (settings : OfferInvestorSettings)
      → o.investor_settings ≡ some settings
      → update_invest_offer_status token_balance transfer send commission fresh org o accept amount
          a wallet s
        ≡ (s', ok tt)
      → (p : Plan) × (plan a amount settings o.member_prospects ≡ ok p)
        × (accept_investment token_balance transfer send commission fresh org a wallet o settings
              amount p s
            ≡ (s', ok tt))
  unfolding update_invest_offer_status decide_investment
  accept-plan fresh org o amount a wallet s s' settings hs e =
      elim (match_option o.investor_settings _ _ e) [
        | inl (h, e') ↦ cc
        | inr (st, h, e') ↦ elim (match_result (plan a amount st o.member_prospects) _ _ e') [
          | inl (x, hx, e'') ↦ cc
          | inr (p, hp, e'') ↦
              let same = some-injective st settings (sym h ∙ hs) in
              subst
                (λ t.
                  (p : Plan) × (plan a amount t o.member_prospects ≡ ok p)
                  × (accept_investment token_balance transfer send commission fresh org a wallet o t
                        amount p s
                      ≡ (s', ok tt)))
                same (p, hp, e'')
        ]
      ]

  -- When an investor's acceptance returns, the offer that is saved has raised the amount of the
  -- investment more than before, which is at most the amount that the offer asks for; it is approved
  -- exactly when that amount is reached, and otherwise keeps its status. The accounts of its
  -- prospects stay distinct, given that they were.
  update_invest_offer_status_funding :
      (fresh : Fresh) (org : Org) (o : Offer) (amount : ℕ) (a : Account) (wallet : Option ℕ)
      (s s' : Store) (settings : OfferInvestorSettings)
      → o.investor_settings ≡ some settings
      → HasDistinctKeys a o.member_prospects
      → update_invest_offer_status token_balance transfer send commission fresh org o accept amount
          a wallet s
        ≡ (s', ok tt)
      → (o' : Offer) × (s'.offers ≡ (save_offer o' s).offers)
        × (raised o'.member_prospects ≡ raised o.member_prospects + amount)
        × (raised o'.member_prospects ≤ settings.amount)
        × (o'.status ≡ funded_status settings (raised o'.member_prospects) o.status)
        × HasDistinctKeys a o'.member_prospects
  unfolding update_invest_offer_status decide_investment accept_investment
  update_invest_offer_status_funding fresh org o amount a wallet s s' settings hs d e =
      let (p, hp, e') = accept-plan fresh org o amount a wallet s s' settings hs e in
      let (invested, cap) = plan-raised a amount settings o.member_prospects d hp in
      let payment = saved_payment fresh org a amount p in
      elim (match_result
        (fund token_balance transfer send commission fresh org a wallet o payment p s) _ _ e') [
          | inl (x, hx, e'') ↦ cc
          | inr (f, hf, e'') ↦
              let added = fund-prospects fresh org a wallet o payment p s hf in
              let grown =
                add_investment-raised a amount p.equity payment.investor o.member_prospects refl
                  added in
              let total : p.invested + amount ≡ raised f.prospects =
                omega (arith, invested, grown) in
              (
                funded_offer settings (p.invested + amount) f.prospects o,
                ap (λ w. w.0.offers) (sym e''),
                grown,
                omega (arith, grown, cap),
                ap (λ n. funded_status settings n o.status) total,
                add_investment-HasDistinctKeys a amount p.equity payment.investor o.member_prospects
                    (new_prospect_key a org.id amount p.equity) d added,
              )
        ]
