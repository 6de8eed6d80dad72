-- ===== src/Offers/Lite/Create.antt =====
-- `createLiteOffer` (src/offers/offers.service.lite.ts): an offer for one member, or one that investors
-- fund, which has no prospects at first.
use mathlib.Core.Path.{subst}
use impact_wallet_server.Base.{
  ℕ, ◌≡◌, refl, sym, ap, ◌⊎◌, inl, inr, ◌==◌, false, All, find, Option, some, List, [], ◌∷◌, ◌++◌,
  ltb, arith,
}
use impact_wallet_server.Base.Http.{
  Result, ok, ◌>>=◌, throw_if, or_throw, bad_request, type_error, >>=-eq-ok, ok_inj, or_throw-ok,
  throw_if-ok,
}
use impact_wallet_server.Offers.Schema.{
  MemberProspect, Offer, OfferType, OfferInvestorSettings, Store, pending, regular, investor,
}
use impact_wallet_server.Offers.Status.{get_org_offer_by_id, is_offer}
use impact_wallet_server.Offers.Lite.Accept.{check_investing}

-- `OfferLiteDto`
pub record OfferLiteDto : Type 0 where
  pub type : OfferType
  pub member_prospect : MemberProspect
  pub investor_settings : Option OfferInvestorSettings

abbrev pub new_lite_offer : ℕ → ℕ → OfferLiteDto → List MemberProspect → Offer
new_lite_offer fresh org_id dto prospects = record {
  id = fresh;
  status = pending;
  org = org_id;
  member_prospects = prospects;
  type = dto.type;
  investor_settings = dto.investor_settings;
}

-- The prospects of the new document, after the guards.
unfoldable pub prospects_of : OfferLiteDto → OfferType → Result (List MemberProspect)
prospects_of dto investor = or_throw dto.investor_settings type_error >>= λ settings.
    throw_if (ltb settings.amount settings.minimal_investment)
      (bad_request "Amount must be greater than minimal investment")
    >>= λ _. ok []
prospects_of dto regular = ok (dto.member_prospect ∷ [])

unfoldable pub create_lite_offer : ℕ → ℕ → OfferLiteDto → Store → Result (Store × Offer)
unfolding prospects_of
create_lite_offer fresh org_id dto s = prospects_of dto dto.type >>= λ ps.
    let o = new_lite_offer fresh org_id dto ps in ok (record s { offers = s.offers ++ o ∷ [] }, o)

find_appended :
    (org_id : ℕ) (o : Offer) (os : List Offer)
    → All (λ x. (x.id == o.id) ≡ false) os
    → o.org ≡ org_id
    → find (is_offer org_id o.id) (os ++ o ∷ []) ≡ some o
find_appended org_id o [] h e = ground (arith, e)
find_appended org_id o (x ∷ os) (h, hs) e = rw h (find_appended org_id o os hs e)

prospects_of_cases :
    (dto : OfferLiteDto) (type : OfferType) (balance amount : ℕ) {ps : List MemberProspect}
    → prospects_of dto type ≡ ok ps
    → ((type ≡ regular) × (ps ≡ dto.member_prospect ∷ []))
      ⊎ ((type ≡ investor)
          × (ps ≡ [])
          × (check_investing balance dto.investor_settings amount
              ≡ throw_if (ltb balance amount) (bad_request "Insufficient funds")))
unfolding prospects_of check_investing
prospects_of_cases dto regular balance amount h = inl (refl, sym (ok_inj h))
prospects_of_cases dto investor balance amount h =
    let (i, hi, h') = >>=-eq-ok (or_throw dto.investor_settings type_error) _ h in
    let (_, c, h'') = >>=-eq-ok (throw_if (ltb i.amount i.minimal_investment) _) _ h' in
    let covered = throw_if-ok (ltb i.amount i.minimal_investment) _ c in
    inr (refl, sym (ok_inj h''), rw (or_throw-ok dto.investor_settings type_error hi, covered) refl)

-- An offer that is created, with an id that no other has, is what its organization finds under that
-- id; it is pending, and of the type that was asked for; and where investors are to fund it, the
-- guard of an acceptance on its settings passes: what is left to check is the investor's balance.
pub create_lite_offer-get_org_offer_by_id :
    (fresh org_id balance amount : ℕ) (dto : OfferLiteDto) (s s' : Store) (o : Offer)
    → All (λ x. (x.id == fresh) ≡ false) s.offers
    → create_lite_offer fresh org_id dto s ≡ ok (s', o)
    → (get_org_offer_by_id org_id fresh s'.offers ≡ ok o)
      × (o.status ≡ pending)
      × (o.type ≡ dto.type)
      × (((dto.type ≡ regular) × (o.member_prospects ≡ dto.member_prospect ∷ []))
          ⊎ ((dto.type ≡ investor)
              × (o.member_prospects ≡ [])
              × (check_investing balance o.investor_settings amount
                  ≡ throw_if (ltb balance amount) (bad_request "Insufficient funds"))))
unfolding create_lite_offer get_org_offer_by_id
create_lite_offer-get_org_offer_by_id fresh org_id balance amount dto s s' o new e =
    let (ps, hp, e') = >>=-eq-ok (prospects_of dto dto.type) _ e in
    let made : new_lite_offer fresh org_id dto ps ≡ o = ap (λ x. x.1) (ok_inj e') in
    subst
      (λ x.
        (get_org_offer_by_id org_id fresh x.0.offers ≡ ok x.1)
        × (x.1.status ≡ pending)
        × (x.1.type ≡ dto.type)
        × (((dto.type ≡ regular) × (x.1.member_prospects ≡ dto.member_prospect ∷ []))
            ⊎ ((dto.type ≡ investor)
                × (x.1.member_prospects ≡ [])
                × (check_investing balance x.1.investor_settings amount
                    ≡ throw_if (ltb balance amount) (bad_request "Insufficient funds")))))
      (ok_inj e')
      (
        rw (find_appended org_id (new_lite_offer fresh org_id dto ps) s.offers new refl) refl,
        refl,
        refl,
        prospects_of_cases dto dto.type balance amount hp,
      )
