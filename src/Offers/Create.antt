-- ===== src/Offers/Create.antt =====
-- `createOffer` (src/offers/offers.service.ts): an investor is offered no more than what is left of
-- the organization. The request's `memberProspect` is no field of the schema, which has
-- `memberProspects`, so the document that is saved has an empty list of them. Of the fields of
-- `OfferDto` it has the organization alone, so that no validator of the schema can refuse it.
use impact_wallet_server.Base.{
  ℕ, ◌+◌, ◌≤◌, ◌≡◌, sym, ap, ◌∙◌, false, Option, none, some, List, [], ◌∷◌, ◌++◌, ltb,
  if◌then◌else◌, if_true, arith, Bool-cases, inl, inr, ◌⊎◌,
}
use impact_wallet_server.Base.Http.{
  Result, ok, ◌>>=◌, throw_if, or_throw, bad_request, type_error, >>=-eq-ok, throw_if-ok,
  or_throw-ok, ok_inj,
}
use impact_wallet_server.Members.Schema.{Member, InvestorSettings, is_investor}
use impact_wallet_server.Contributions.Stop.{investors_of}
use impact_wallet_server.Offers.Schema.{MemberProspect, Offer, Store, pending, regular}

-- `OfferDto`, with the `minimalInvestment` that its prospect's settings carry besides
pub record OfferDto : Type 0 where
  pub member_prospect : MemberProspect
  pub minimal_investment : ℕ

-- 100 percent of an organization's shares
abbrev pub whole : ℕ
whole = 100000000000

-- `get(member, 'investorSettings.equityAllocation', 0)`
abbrev pub allocation : Option InvestorSettings → ℕ
allocation none = 0
allocation (some i) = i.equity_allocation

abbrev pub sold_equity : List Member → ℕ
sold_equity [] = 0
sold_equity (m ∷ ms) = allocation m.investor_settings + sold_equity ms

-- The guards for an investor.
unfoldable pub check_investor : ℕ → OfferDto → Store → Result (Unit {0})
check_investor org_id dto s =
    or_throw dto.member_prospect.investor_settings type_error >>= λ settings.
    throw_if (ltb settings.investment_amount dto.minimal_investment)
      (bad_request "Amount must be greater than minimal investment")
    >>= λ _.
        throw_if
          (ltb whole (sold_equity (investors_of org_id s.members) + settings.equity_allocation))
          (bad_request "Not enough equity is available to offer")

abbrev pub new_offer : ℕ → ℕ → Offer
new_offer fresh org_id = record {
  id = fresh;
  status = pending;
  org = org_id;
  member_prospects = [];
  type = regular;
  investor_settings = none;
}

unfoldable pub create_offer : ℕ → ℕ → OfferDto → Store → Result (Store × Offer)
unfolding check_investor
create_offer fresh org_id dto s =
    (if is_investor dto.member_prospect.role then check_investor org_id dto s else ok tt) >>= λ _.
    ok (record s { offers = s.offers ++ new_offer fresh org_id ∷ [] }, new_offer fresh org_id)

check_investor-bound :
    (org_id : ℕ) (dto : OfferDto) (s : Store) {u : Unit {0}}
    → check_investor org_id dto s ≡ ok u
    → sold_equity (investors_of org_id s.members) + allocation dto.member_prospect.investor_settings
      ≤ whole
unfolding check_investor
check_investor-bound org_id dto s h =
    let (settings, e, h1) =
      >>=-eq-ok (or_throw dto.member_prospect.investor_settings type_error) _ h in
    let (_, _, h2) =
      >>=-eq-ok (throw_if (ltb settings.investment_amount dto.minimal_investment) _) _ h1 in
    let bound =
      throw_if-ok
        (ltb whole (sold_equity (investors_of org_id s.members) + settings.equity_allocation)) _
        h2 in
    rw (or_throw-ok dto.member_prospect.investor_settings type_error e) (ground (arith, bound))

-- An offer that is created is pending and added behind the others, and the members are unchanged; one
-- to an investor is made only where the shares that the investors have and those that are offered are
-- at most the whole; and whatever prospect the request names, the offer that is kept has none.
create_offer-bound :
    (fresh org_id : ℕ) (dto : OfferDto) (s s' : Store) (o : Offer)
    → create_offer fresh org_id dto s ≡ ok (s', o)
    → ((is_investor dto.member_prospect.role ≡ false)
        ⊎ (sold_equity (investors_of org_id s.members)
              + allocation dto.member_prospect.investor_settings
            ≤ whole))
      × (s'.offers ≡ s.offers ++ o ∷ [])
      × (o.status ≡ pending)
      × (o.org ≡ org_id)
      × (o.member_prospects ≡ [])
      × (s'.members ≡ s.members)
unfolding create_offer
create_offer-bound fresh org_id dto s s' o h =
    let (_, checked, h1) =
      >>=-eq-ok
        (if is_investor dto.member_prospect.role then check_investor org_id dto s else ok tt) _ h in
    let st = ap (λ x. x.0) (ok_inj h1) in
    let of = ap (λ x. x.1) (ok_inj h1) in
    (
      elim (Bool-cases (is_investor dto.member_prospect.role)) [
        | inr other ↦ inl other
        | inl inv ↦ inr (
            check_investor-bound org_id dto s (
              sym (
                if_true (is_investor dto.member_prospect.role) (check_investor org_id dto s) (ok tt)
                  inv)
              ∙ checked))
      ],
      sym (ap (λ x. x.offers) st) ∙ ap (λ x. s.offers ++ x ∷ []) of,
      sym (ap (λ x. x.status) of),
      sym (ap (λ x. x.org) of),
      sym (ap (λ x. x.member_prospects) of),
      sym (ap (λ x. x.members) st),
    )
