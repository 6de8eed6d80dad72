-- ===== src/Offers/Sale/Sold.antt =====
-- What an accepted sale sends and saves, and that a sale is decided once.
use mathlib.Core.Path.{subst}
use mathlib.Core.Option.{some-injective}
use impact_wallet_server.Base.{
  ℕ, ◌≤◌, ◌≡◌, refl, sym, ap, ◌∙◌, ◌⊎◌, Bool, true, false, not, ◌&&◌, Option, some, List, [], ◌∷◌,
  ◌++◌, ==_iff, find, find_sound,
}
use impact_wallet_server.Base.Http.{
  Result, ok, err, throw_if, or_throw, forbidden, type_error, >>=-eq-ok, ok_inj, or_throw-ok,
}
use impact_wallet_server.Payment.Perform.{check_funds, sender_wallet, sender_has, sender_own}
use impact_wallet_server.Offers.Schema.{approved, declined}
use impact_wallet_server.Offers.Status.{Account, OfferStatusDto, accept, decline, other, is_pending}
use impact_wallet_server.Offers.Sale.{
  SaleOffer, SaleStore, Party, TokenTransfer, party_id, party_wallet, party_bonus_wallet,
  has_sale_id, get_sale_offer_by_id, buyer_of, handle_assets_sale, credit_transfers, accept_sale,
  decide_sale, update_sale_offer_status, find_party, sold_sale, hashed,
}
use impact_wallet_server.Offers.Sale.Buyer.{
  HasBuyer, IsShares, handle_assets_sale-HasBuyer, find_party_id, find_saved,
}

-- The request's status is one of the two that the code knows.
abbrev pub IsDecision : OfferStatusDto → Type 0
IsDecision accept = Unit
IsDecision decline = Unit
IsDecision other = ⊥

module _ (onboarding : Bool) (native_balance : Option ℕ → ℕ) (send : List TokenTransfer → Result ℕ)
    (commission : ℕ) (root_wallet : Option ℕ) where
  -- The one transaction of the sale to the account's party, and what is saved. The shares go to the
  -- party that is found under the account's id.
  abbrev pub IsSold : Party → SaleOffer → SaleStore → SaleStore → List TokenTransfer → Type 0
  IsSold account o s s' ts =
      (payer : Option ℕ) × (seller buyer : Party) × (shares : TokenTransfer) × (hash : ℕ)
      × ((o.price ≤ native_balance payer) ⊎ (o.price ≡ 0))
      × ((payer ≡ party_wallet account)
          ⊎ ((onboarding ≡ true) × (payer ≡ party_bonus_wallet account)))
      × (find_party (party_id account) s.users s.orgs ≡ some buyer)
      × (find_party o.seller s.users s.orgs ≡ some seller)
      × IsShares o s shares
      × (ts
          ≡ credit_transfers payer (party_wallet seller) root_wallet o.price commission
            ++ shares ∷ [])
      × (shares.amount ≡ o.tokens_amount)
      × (shares.wallet ≡ party_wallet buyer)
      × (send ts ≡ ok hash)
      × HasBuyer buyer o s.members s'.members
      × (find (has_sale_id o.id) s'.sales
          ≡ some (hashed hash (record o { status = approved; buyer = some (party_id buyer) })))

  accept_sale-IsSold :
      (fresh : ℕ) (o : SaleOffer) (buyer : Party) (s s' : SaleStore) (ts : List TokenTransfer)
      → find (has_sale_id o.id) s.sales ≡ some o
      → accept_sale onboarding native_balance send commission root_wallet fresh o buyer s
        ≡ ok (s', ts)
      → IsSold buyer o s s' ts
  unfolding accept_sale find_party
  accept_sale-IsSold fresh o buyer s s' ts found e =
      let (_, funds, e1) =
        >>=-eq-ok
          (check_funds onboarding native_balance (party_wallet buyer) (party_bonus_wallet buyer)
            o.price)
          _ e in
      let (seller, hs, e2) =
        >>=-eq-ok (or_throw (find_party o.seller s.users s.orgs) type_error) _ e1 in
      let (h, hh, e3) = >>=-eq-ok (handle_assets_sale fresh (sold_sale buyer o) s) _ e2 in
      let payer =
        sender_wallet onboarding native_balance (party_wallet buyer) (party_bonus_wallet buyer)
          o.price in
      let transfers =
        credit_transfers payer (party_wallet seller) root_wallet o.price commission ++ h.1 ∷ [] in
      let (hash, hx, e4) = >>=-eq-ok (send transfers) _ e3 in
      let (b, hb, has, amount, wallet, from) = handle_assets_sale-HasBuyer fresh o buyer s hh in
      let same = find_party_id (party_id buyer) s.users s.orgs hb in
      subst (λ x. IsSold buyer o s x.0 x.1) (ok_inj e4)
        (
          payer,
          seller,
          b,
          h.1,
          hash,
          sender_has onboarding native_balance (party_wallet buyer) (party_bonus_wallet buyer)
              o.price funds,
          sender_own onboarding native_balance (party_wallet buyer) (party_bonus_wallet buyer)
              o.price,
          hb,
          or_throw-ok _ _ hs,
          from,
          refl,
          amount,
          wallet,
          hx,
          has,
          rw same (find_saved o.id (hashed hash (sold_sale buyer o)) s.sales refl found),
        )

  decided_sale :
      (fresh : ℕ) (status : OfferStatusDto) (o : SaleOffer) (buyer : Party) (s s' : SaleStore)
      (ts : List TokenTransfer)
      → IsDecision status
      → find (has_sale_id o.id) s.sales ≡ some o
      → decide_sale onboarding native_balance send commission root_wallet fresh status o buyer s
        ≡ ok (s', ts)
      → (o' : SaleOffer) × (find (has_sale_id o.id) s'.sales ≡ some o')
        × (is_pending o'.status ≡ false)
        × (o'.is_life_time ≡ o.is_life_time)
  decided_sale fresh accept o buyer s s' ts d found e =
      let (_, _, b, _, hash, _, _, _, _, _, _, _, _, _, _, kept) =
        accept_sale-IsSold fresh o buyer s s' ts found e in
      (_, kept, refl, refl)
  decided_sale fresh other o buyer s s' ts d found e = elim d [ ]
  decided_sale fresh decline o buyer s s' ts d found e = (
    record o { status = declined },
    subst (λ x. find (has_sale_id o.id) x.0.sales ≡ some (record o { status = declined }))
        (ok_inj e) (find_saved o.id (record o { status = declined }) s.sales refl found),
    refl,
    refl,
  )

  -- A sale that is not for a lifetime is decided once: after an update of it that asked to accept or to
  -- decline it and returned, every further update of it is forbidden.
  pub update_sale_offer_status_once :
      (fresh i : ℕ) (status : OfferStatusDto) (a : Account) (s s' : SaleStore)
      (ts : List TokenTransfer) (o : SaleOffer) (fresh' : ℕ) (status' : OfferStatusDto)
      (a' : Account)
      → IsDecision status
      → find (has_sale_id i) s.sales ≡ some o
      → o.is_life_time ≡ false
      → update_sale_offer_status onboarding native_balance send commission root_wallet fresh i
          status a s
        ≡ ok (s', ts)
      → update_sale_offer_status onboarding native_balance send commission root_wallet fresh' i
          status' a' s'
        ≡ err (forbidden "Offer already accepted/declined")
  unfolding update_sale_offer_status get_sale_offer_by_id
  update_sale_offer_status_once fresh i status a s s' ts o fresh' status' a' d found once e =
      let (x, ho, e1) = >>=-eq-ok (get_sale_offer_by_id i s.sales) _ e in
      let (_, guard, e2) =
        >>=-eq-ok
          (throw_if (not x.is_life_time && not (is_pending x.status))
            (forbidden "Offer already accepted/declined"))
          _ e1 in
      let (buyer, _, e3) = >>=-eq-ok (buyer_of a s) _ e2 in
      let fx = or_throw-ok _ _ ho in
      let eq = some-injective o x (sym found ∙ fx) in
      let same = (==_iff x.id i).0 (find_sound (has_sale_id i) s.sales fx) in
      let (o', kept, np, life) = decided_sale fresh status x buyer s s' ts d (rw same fx) e3 in
      let kept' : find (has_sale_id i) s'.sales ≡ some o' =
        subst (λ j. find (has_sale_id j) s'.sales ≡ some o') same kept in
      rw (kept', life ∙ ap (λ y. y.is_life_time) (sym eq) ∙ once, np) refl
