-- ===== src/Offers/Lite/Accept/Refinement.antt =====
-- `updateOfferStatus` (src/offers/offers.service.lite.ts) takes the steps of the state machine.
use mathlib.Core.Path.{subst}
use impact_wallet_server.Base.{
  ℕ, ◌+◌, ◌≡◌, refl, sym, ap, inl, inr, true, not, Option, List, [], ◌∷◌, if_cases, List-cases,
  arith,
}
use impact_wallet_server.Base.Http.{Result, ok, err, match_result, match_option, or_throw-ok}
use impact_wallet_server.Members.Schema.{Member}
use impact_wallet_server.Members.{Saved, saved, refused}
use impact_wallet_server.Orgs.Schema.{Org}
use impact_wallet_server.Orgs.Mint.{get_by_org_id}
use impact_wallet_server.Offers.Schema.{
  Offer, OfferType, OfferInvestorSettings, Store, declined, investor, regular,
}
use impact_wallet_server.Offers.Status.{
  OfferStatusDto, accept, decline, other, Fresh, get_org_offer_by_id, is_pending,
}
use impact_wallet_server.Offers.Lite.Equity.{MemberData}
use impact_wallet_server.Offers.Lite.Invest.{
  plan, Plan, fund, funded_offer, accept_investment, decide_investment, update_invest_offer_status,
  saved_payment,
}
use impact_wallet_server.Offers.Lite.Accept.{
  Request, check_investing, joined, update_member_offer_status, start_update,
  update_lite_offer_status,
}
use impact_wallet_server.Offers.Lite.Accept.Machine.{
  StatusStep, stays, MachineStep, HasDistinctIds, statuses, unchanged, Update-MachineStep, Update,
  funded-StatusStep, declined-StatusStep, approved-StatusStep, status_of-found,
}

-- A call of `updateOfferStatus`.
pub record Call : Type 0 where
  pub fresh : Fresh
  pub org_id : ℕ
  pub offer_id : ℕ
  pub request : Request

module _ (token_balance : Option ℕ → Option ℕ → ℕ)
    (transfer : Option ℕ → Option ℕ → ℕ → ℕ → Result ℕ) (send : List MemberData → Option ℕ)
    (commission : ℕ) where
  decide_investment-Update :
      (fresh : Fresh) (org : Org) (o : Offer) (status : OfferStatusDto) (r : Request)
      (i : OfferInvestorSettings) (p : Plan) (s s' : Store) {res : Result (Unit {0})}
      → is_pending o.status ≡ true
      → decide_investment token_balance transfer send commission fresh org status r.account r.wallet
          o i r.amount p s
        ≡ (s', res)
      → Update o s s'
  unfolding decide_investment accept_investment
  decide_investment-Update fresh org o decline r i p s s' h k = inr (
    record o { status = declined },
    refl,
    declined-StatusStep o.status h,
    ap (λ w. w.0.offers) (sym k),
  )
  decide_investment-Update fresh org o other r i p s s' h k = inl (ap (λ w. w.0.offers) (sym k))
  decide_investment-Update fresh org o accept r i p s s' h k =
      let payment = saved_payment fresh org r.account r.amount p in
      elim (match_result
        (fund token_balance transfer send commission fresh org r.account r.wallet o payment p s) _ _
        k) [
          | inl (_, _, k') ↦ inl (ap (λ w. w.0.offers) (sym k'))
          | inr (f, _, k') ↦ inr (
            funded_offer i (p.invested + r.amount) f.prospects o,
            refl,
            funded-StatusStep i (p.invested + r.amount) o.status h,
            ap (λ w. w.0.offers) (sym k'),
          )
        ]

  update_invest_offer_status-Update :
      (fresh : Fresh) (org : Org) (o : Offer) (status : OfferStatusDto) (r : Request) (s s' : Store)
      {res : Result (Unit {0})}
      → is_pending o.status ≡ true
      → update_invest_offer_status token_balance transfer send commission fresh org o status
          r.amount r.account r.wallet s
        ≡ (s', res)
      → Update o s s'
  unfolding update_invest_offer_status
  update_invest_offer_status-Update fresh org o status r s s' h e =
      elim (match_option o.investor_settings _ _ e) [
        | inl (_, k) ↦ inl (ap (λ w. w.0.offers) (sym k))
        | inr (i, _, k) ↦ elim (match_result (plan r.account r.amount i o.member_prospects) _ _ k) [
          | inl (_, _, k') ↦ inl (ap (λ w. w.0.offers) (sym k'))
          | inr (p, _, k') ↦ decide_investment-Update fresh org o status r i p s s' h k'
        ]
      ]

module _ (token_balance : Option ℕ → Option ℕ → ℕ) (native_balance : Option ℕ → ℕ)
    (create_account : Option ℕ → Option ℕ → Result ℕ)
    (transfer : Option ℕ → Option ℕ → ℕ → ℕ → Result ℕ) (send : List MemberData → Option ℕ)
    (commission : ℕ) where
  joined-Update :
      (o o' : Offer) (s : Store) (j : Result (List MemberData × Saved (List Member)))
      → o'.id ≡ o.id
      → StatusStep o.status o'.status
      → Update o s
          (joined token_balance native_balance create_account transfer send commission o' s j).0
  unfolding joined
  joined-Update o o' s (err e) i st = inl refl
  joined-Update o o' s (ok (_, refused e)) i st = inl refl
  joined-Update o o' s (ok (_, saved ms)) i st = inr (o', i, st, refl)

  update_member_offer_status-Update :
      (fresh : Fresh) (org : Org) (o : Offer) (r : Request) (status : OfferStatusDto) (s : Store)
      → is_pending o.status ≡ true
      → Update o s
          (update_member_offer_status token_balance native_balance create_account transfer send
            commission fresh org o r status s).0
  unfolding update_member_offer_status
  update_member_offer_status-Update fresh org o r decline s h =
      inr (record o { status = declined }, refl, declined-StatusStep o.status h, refl)
  update_member_offer_status-Update fresh org o r other s h = inr (o, refl, stays, refl)
  update_member_offer_status-Update fresh org o r accept s h =
      elim (List-cases o.member_prospects) [
        | inl e ↦ rw e (inl refl)
        | inr (p, ps, e) ↦ rw e (joined-Update o _ s _ refl (approved-StatusStep o.status h))
      ]

  start_update-Update :
      (fresh : Fresh) (org : Org) (o : Offer) (r : Request) (type : OfferType) (s s' : Store)
      {res : Result (Unit {0})}
      → is_pending o.status ≡ true
      → start_update token_balance native_balance create_account transfer send commission fresh org
          o r type s
        ≡ (s', res)
      → Update o s s'
  unfolding start_update
  start_update-Update fresh org o r regular s s' h e =
      subst (Update o s) (ap (λ w. w.0) e)
        (update_member_offer_status-Update fresh org o r r.status s h)
  start_update-Update fresh org o r investor s s' h e =
      elim (match_result (check_investing (native_balance r.wallet) o.investor_settings r.amount) _
        _ e) [
          | inl (_, _, k) ↦ inl (ap (λ w. w.0.offers) (sym k))
          | inr (_, _, k) ↦ subst (Update o s) (ap (λ w. w.0) k) (
              update_invest_offer_status-Update token_balance transfer send commission fresh org o
                r.status r s _ h refl)
        ]

  -- A request to update the offer with the id i does to the statuses of the offers what the abstract
  -- machine allows, whether it returns or throws: nothing, or one step of the offer i from pending to
  -- approved or to declined (or staying as it is, when an investor pays a part), with every other status
  -- unchanged; the ids of the offers stay distinct, given that they were.
  pub update_lite_offer_status-MachineStep :
      (fresh : Fresh) (org_id i : ℕ) (r : Request) (s s' : Store) (res : Result (Unit {0}))
      → HasDistinctIds s.offers
      → update_lite_offer_status token_balance native_balance create_account transfer send
          commission fresh org_id i r s
        ≡ (s', res)
      → MachineStep i (statuses s) (statuses s') × HasDistinctIds s'.offers
  unfolding update_lite_offer_status get_org_offer_by_id
  update_lite_offer_status-MachineStep fresh org_id i r s s' res d e =
      elim (match_result (get_by_org_id org_id s.orgs) _ _ e) [
        | inl (_, _, k) ↦ unchanged i s s' d (ap (λ w. w.0) k)
        | inr (org, _, k) ↦ elim (match_result (get_org_offer_by_id org.id i s.offers) _ _ k) [
          | inl (_, _, k') ↦ unchanged i s s' d (ap (λ w. w.0) k')
          | inr (o, found, k') ↦ elim (if_cases (not (is_pending o.status)) _ _ k') [
            | inl (_, k'') ↦ unchanged i s s' d (ap (λ w. w.0) k'')
            | inr (np, k'') ↦
                let (same, st) = status_of-found org.id i s.offers d (or_throw-ok _ _ found) in
                Update-MachineStep i o s s' same st d
                  (start_update-Update fresh org o r o.type s s' (ground (arith, np)) k'')
          ]
        ]
      ]

  -- The calls that the server receives, one after the other.
  unfoldable pub update_all : List Call → Store → Store
  unfolding update_lite_offer_status
  update_all [] s = s
  update_all (c ∷ cs) s =
      update_all cs
        (update_lite_offer_status token_balance native_balance create_account transfer send
          commission c.fresh c.org_id c.offer_id c.request s).0
