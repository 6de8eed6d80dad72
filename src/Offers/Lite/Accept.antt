-- ===== src/Offers/Lite/Accept.antt =====
-- `updateOfferStatus` and `updateMemberOfferStatus` (src/offers/offers.service.lite.ts). What the first
-- starts and does not await runs to its end here: its store is the one after it, and what it throws is logged.
pub mod Machine
pub mod Refinement
use impact_wallet_server.Base.{
  ℕ, Bool, true, false, not, ◌&&◌, Option, none, some, List, [], ◌∷◌, ◌==◌, ltb, if◌then◌else◌,
  find,
}
use impact_wallet_server.Base.Http.{
  Error, Result, ok, err, ◌>>=◌, throw_if, or_throw, bad_request, forbidden, thrown, type_error,
}
use impact_wallet_server.Members.Schema.{Member, EquityType, immediately}
use impact_wallet_server.Members.{Saved, saved, refused, save_new}
use impact_wallet_server.Orgs.Schema.{Org}
use impact_wallet_server.Orgs.Mint.{get_by_org_id}
use impact_wallet_server.Offers.Schema.{
  MemberProspect, Offer, OfferType, OfferInvestorSettings, Store, declined, investor, regular,
  member_of,
}
use impact_wallet_server.Offers.Status.{
  Account, OfferStatusDto, accept, decline, other, Fresh, approved_for, get_org_offer_by_id,
  is_pending, prospect_for, save_offer, with_members,
}
use impact_wallet_server.Offers.Lite.Equity.{MemberData, calculate_equity, collect_equity}
use impact_wallet_server.Offers.Lite.Invest.{update_invest_offer_status}

-- `OfferStatusBodyDto`, with the account and its wallet
pub record Request : Type 0 where
  pub status : OfferStatusDto
  pub amount : ℕ
  pub account : Account
  pub wallet : Option ℕ

abbrev pub is_immediate : Option EquityType → Bool
is_immediate (some immediately) = true
is_immediate _ = false

-- The settings of an offer to investors, and the balance of the one who accepts.
unfoldable pub check_investing : ℕ → Option OfferInvestorSettings → ℕ → Result (Unit {0})
check_investing balance settings amount = or_throw settings type_error >>= λ i.
    throw_if (ltb i.amount i.minimal_investment)
      (bad_request "Amount must be not less than minimal investment")
    >>= λ _. throw_if (ltb balance amount) (bad_request "Insufficient funds")

-- `create_account mint wallet` sends the instruction that creates the token account; the other
-- parameters are those of an investment.
module _ (token_balance : Option ℕ → Option ℕ → ℕ) (native_balance : Option ℕ → ℕ)
    (create_account : Option ℕ → Option ℕ → Result ℕ)
    (transfer : Option ℕ → Option ℕ → ℕ → ℕ → Result ℕ) (send : List MemberData → Option ℕ)
    (commission : ℕ) where
  -- `calculateEquity` for the new member, where its equity is due at once
  unfoldable pub new_member_equity :
      Org → Member → MemberProspect → Store → Result (List MemberData)
  unfolding calculate_equity
  new_member_equity org m p s =
      if not (p.equity_amount == 0) && is_immediate p.equity_type
      then calculate_equity token_balance s.users s.orgs org (some m) p.equity_amount [] s.members
      else ok []

  -- What the transaction's function comes to: the shares are collected before the member is saved.
  unfoldable pub join :
      ℕ → Org → Option ℕ → MemberProspect → Store → Result (List MemberData × Saved (List Member))
  unfolding new_member_equity collect_equity save_new
  join fresh org wallet p s =
      let m = member_of fresh org.id p in
      create_account org.mint wallet >>= λ _.
      new_member_equity org m p s >>= λ ds. ok ((collect_equity send ds).0, save_new m s.members)

  -- A failed transaction saves nothing, and the offer is saved after it.
  unfoldable pub joined :
      Offer → Store → Result (List MemberData × Saved (List Member)) → Store × Result (Unit {0})
  joined o s (err e) = (s, err e)
  joined o s (ok (_, refused e)) = (s, err (thrown "ValidationError"))
  joined o s (ok (_, saved ms)) = (save_offer o (with_members ms s), ok tt)

  unfoldable pub update_member_offer_status :
      Fresh → Org → Offer → Request → OfferStatusDto → Store → Store × Result (Unit {0})
  unfolding join joined
  update_member_offer_status fresh org o r accept s = elim o.member_prospects [
    | [] ↦ (s, err type_error)
    | p ∷ ps ↦
        let p' = prospect_for r.account org.id p in
        joined (approved_for p' ps o) s (join fresh.member org r.wallet p' s)
  ]
  update_member_offer_status fresh org o r decline s =
      (save_offer (record o { status = declined }) s, ok tt)
  update_member_offer_status fresh org o r other s = (save_offer o s, ok tt)

  -- By the type of the offer.
  unfoldable pub start_update :
      Fresh → Org → Offer → Request → OfferType → Store → Store × Result (Unit {0})
  unfolding check_investing update_invest_offer_status update_member_offer_status
  start_update fresh org o r investor s =
      elim (check_investing (native_balance r.wallet) o.investor_settings r.amount) [
        | err e ↦ (s, err e)
        | ok _ ↦ (
          (update_invest_offer_status token_balance transfer send commission fresh org o r.status
              r.amount r.account r.wallet s).0,
          ok tt,
        )
      ]
  start_update fresh org o r regular s =
      ((update_member_offer_status fresh org o r r.status s).0, ok tt)

  unfoldable pub update_lite_offer_status :
      Fresh → ℕ → ℕ → Request → Store → Store × Result (Unit {0})
  unfolding get_by_org_id get_org_offer_by_id start_update
  update_lite_offer_status fresh org_id offer_id r s = elim (get_by_org_id org_id s.orgs) [
    | err e ↦ (s, err e)
    | ok org ↦ elim (get_org_offer_by_id org.id offer_id s.offers) [
      | err e ↦ (s, err e)
      | ok o ↦
          if not (is_pending o.status)
          then (s, err (forbidden "Offer already accepted/declined"))
          else start_update fresh org o r o.type s
    ]
  ]
