-- ===== src/Offers/Status.antt =====
-- `updateOfferStatus` (src/offers/offers.service.ts): a pending offer is accepted or declined. It is no
-- transaction: what is written before a call throws stays written. The chain is a parameter.
pub mod Decision
use impact_wallet_server.Base.{
  ℕ, ◌+◌, String, Bool, true, false, not, ◌&&◌, Option, none, some, List, [], ◌∷◌, ◌++◌, ◌==◌, find,
  update_first, if◌then◌else◌, ltb,
}
use impact_wallet_server.Base.Http.{
  Error, Result, ok, err, ◌>>=◌, or_throw, not_found, forbidden, bad_request, thrown, type_error,
}
use impact_wallet_server.Members.Schema.{Member, InvestorSettings, is_investor}
use impact_wallet_server.Members.{Saved, saved, refused, save_new}
use impact_wallet_server.Orgs.Schema.{Org}
use impact_wallet_server.Orgs.Mint.{get_by_org_id}
use impact_wallet_server.Payment.Split.{has_user_id}
use impact_wallet_server.Offers.Schema.{
  MemberProspect, Offer, OfferStatus, Payment, Store, pending, approved, declined, member_of,
}
use impact_wallet_server.Offers.Investment.{handle_investment_payment}

abbrev pub is_offer : ℕ → ℕ → Offer → Bool
is_offer org_id offer_id o = (o.id == offer_id) && (o.org == org_id)

unfoldable pub get_org_offer_by_id : ℕ → ℕ → List Offer → Result Offer
get_org_offer_by_id org_id offer_id offers =
    or_throw (find (is_offer org_id offer_id) offers) (not_found "Offer not found")

abbrev pub is_pending : OfferStatus → Bool
is_pending pending = true
is_pending approved = false
is_pending declined = false

-- `OfferStatusDto`: `accepted` and `declined`. The request's status is only asked not to be empty
-- (`OfferStatusBodyDto`), so that there may be another one.
pub data OfferStatusDto : Type 0 where
  accept decline other : OfferStatusDto

-- `AccountModel`: its id, and whether it is a user's
pub record Account : Type 0 where
  pub id : ℕ
  pub is_user : Bool

unfoldable pub account_wallet : Account → Store → Result (Option ℕ)
unfolding get_by_org_id
account_wallet a s =
    if a.is_user
    then (or_throw (find (has_user_id a.id) s.users) (not_found "User not found") >>= λ u.
        ok u.wallet)
    else get_by_org_id a.id s.orgs >>= λ o. ok o.wallet

-- The prospect with its account and its organization.
abbrev pub prospect_for : Account → ℕ → MemberProspect → MemberProspect
prospect_for a org_id p = record p {
  user = if a.is_user then some a.id else p.user;
  org_user = if a.is_user then p.org_user else some a.id;
  org = some org_id;
}

-- `offer.save()`
abbrev pub save_offer : Offer → Store → Store
save_offer o s = record s { offers = update_first (λ x. x.id == o.id) (λ x. o) s.offers }

abbrev pub with_payment : Payment → Store → Store
with_payment p s = record s { payments = s.payments ++ p ∷ [] }

abbrev pub with_members : List Member → Store → Store
with_members ms s = record s { members = ms }

abbrev pub approved_for : MemberProspect → List MemberProspect → Offer → Offer
approved_for p ps o = record o { status = approved; member_prospects = p ∷ ps }

-- The new documents' ids: a member's and a payment's.
pub record Fresh : Type 0 where
  pub member : ℕ
  pub payment : ℕ

-- `token_balance mint wallet` and `native_balance wallet` are balances, `transfer wallet to amount`
-- sends a payment and answers its hash.
module _ (token_balance : Option ℕ → Option ℕ → ℕ) (native_balance : Option ℕ → ℕ)
    (transfer : Option ℕ → Option ℕ → ℕ → Result ℕ) where
  -- The investor's payment: saved, sent, saved with its hash, and handled.
  unfoldable pub accept_investor :
      Fresh
      → Org
      → Option ℕ
      → Offer
      → MemberProspect
      → InvestorSettings
      → Store
      → Store × Result (Unit {0})
  unfolding handle_investment_payment
  accept_investor fresh org wallet offer p settings s =
      let payment : Payment = record {
        id = fresh.payment;
        org = org.id;
        amount = settings.investment_amount;
        investor = p;
        txn_hash = none;
      } in
      if ltb (native_balance wallet) settings.investment_amount
      then (s, err (bad_request "Insufficient funds"))
      else elim (transfer wallet org.wallet settings.investment_amount) [
        | err e ↦ (with_payment payment s, err e)
        | ok hash ↦
            let sent : Payment = record payment { txn_hash = some hash } in
            elim (handle_investment_payment token_balance fresh.member org sent s) [
              | err e ↦ (with_payment sent s, err e)
              | ok ms ↦ (save_offer offer (with_members ms (with_payment sent s)), ok tt)
            ]
      ]

  -- The member is saved with the prospect's role.
  unfoldable pub accept_member :
      Fresh → Org → Offer → MemberProspect → Store → Store × Result (Unit {0})
  unfolding save_new
  accept_member fresh org offer p s = elim (save_new (member_of fresh.member org.id p) s.members) [
    | saved ms ↦ (save_offer offer (with_members ms s), ok tt)
    | refused e ↦ (s, err (thrown "ValidationError"))
  ]

  unfoldable pub accept_offer :
      Fresh → Org → Account → Option ℕ → Offer → Store → Store × Result (Unit {0})
  unfolding accept_investor accept_member
  accept_offer fresh org account wallet offer s = elim offer.member_prospects [
    | [] ↦ (s, err type_error)
    | p ∷ ps ↦
        let p' = prospect_for account org.id p in
        let offer' = approved_for p' ps offer in
        if is_investor p.role
        then elim p.investor_settings [
          | none ↦ (s, err type_error)
          | some settings ↦ accept_investor fresh org wallet offer' p' settings s
        ]
        else accept_member fresh org offer' p' s
  ]

  abbrev pub decide :
      Fresh → Org → OfferStatusDto → Account → Option ℕ → Offer → Store → Store × Result (Unit {0})
  decide fresh org accept account wallet offer s = accept_offer fresh org account wallet offer s
  decide fresh org decline account wallet offer s =
      (save_offer (record offer { status = declined }) s, ok tt)
  decide fresh org other account wallet offer s = (save_offer offer s, ok tt)

  unfoldable pub update_offer_status :
      Fresh → Org → ℕ → OfferStatusDto → Account → Store → Store × Result (Unit {0})
  unfolding get_org_offer_by_id account_wallet accept_offer
  update_offer_status fresh org offer_id status account s =
      elim (get_org_offer_by_id org.id offer_id s.offers) [
        | err e ↦ (s, err e)
        | ok offer ↦
            if not (is_pending offer.status)
            then (s, err (forbidden "Offer already accepted/declined"))
            else elim (account_wallet account s) [
              | err e ↦ (s, err e)
              | ok wallet ↦ decide fresh org status account wallet offer s
            ]
      ]
