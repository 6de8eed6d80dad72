-- ===== src/Offers/Status/Decision.antt =====
-- An offer is decided once, and a call that throws decides nothing.
use impact_wallet_server.Base.{
  ℕ, ◌≡◌, refl, sym, ap, ◌∙◌, false, Option, none, some, List, ◌==◌, find, update_first,
  find-append_last, if◌then◌else◌, ltb, arith, List-cases, Bool-cases, Option-cases, inl, inr, ◌⊎◌,
}
use impact_wallet_server.Base.Http.{Result, ok, err, Result-cases, type_error, >>=-eq-ok, ok_inj}
use impact_wallet_server.Members.Schema.{InvestorSettings, is_investor}
use impact_wallet_server.Members.{Saved-cases, save_new}
use impact_wallet_server.Orgs.Schema.{Org}
use impact_wallet_server.Offers.Schema.{
  MemberProspect, Offer, OfferStatus, Store, pending, approved, declined, member_of,
}
use impact_wallet_server.Offers.Create.{OfferDto, create_offer, check_investor, new_offer}
use impact_wallet_server.Offers.Investment.{handle_investment_payment}
use impact_wallet_server.Offers.Status.{
  Account, Fresh, OfferStatusDto, accept, decline, other, is_offer, is_pending, get_org_offer_by_id,
  account_wallet, prospect_for, approved_for, accept_investor, accept_member, accept_offer, decide,
  update_offer_status,
}

abbrev pub decision : OfferStatusDto → OfferStatus
decision accept = approved
decision decline = declined
decision other = pending

-- What a call on the offer `o` has come to: it is saved with the decision, or nothing is decided.
abbrev pub IsOutcome : OfferStatusDto → Offer → Store → Store × Result (Unit {0}) → Type 0
IsOutcome d o s (s', ok tt) =
    (o' : Offer) × (s'.offers ≡ update_first (λ x. x.id == o.id) (λ x. o') s.offers)
    × (o'.status ≡ decision d)
    × (o'.id ≡ o.id)
    × (o'.org ≡ o.org)
IsOutcome d o s (s', err e) = (s'.offers ≡ s.offers) × (s'.members ≡ s.members)

status_cases : (x : OfferStatus) → (x ≡ pending) ⊎ (is_pending x ≡ false)
status_cases pending = inl refl
status_cases approved = inr refl
status_cases declined = inr refl

module _ (token_balance : Option ℕ → Option ℕ → ℕ) (native_balance : Option ℕ → ℕ)
    (transfer : Option ℕ → Option ℕ → ℕ → Result ℕ) where
  accept_investor-IsOutcome :
      (fresh : Fresh) (org : Org) (wallet : Option ℕ) (o : Offer) (p : MemberProspect)
      (ps : List MemberProspect) (settings : InvestorSettings) (s : Store)
      → IsOutcome accept o s (
          accept_investor token_balance native_balance transfer fresh org wallet
            (approved_for p ps o)
            p
            settings
            s)
  unfolding accept_investor
  accept_investor-IsOutcome fresh org wallet o p ps settings s =
      elim (Bool-cases (ltb (native_balance wallet) settings.investment_amount)) [
        | inl poor ↦ rw poor (refl, refl)
        | inr rich ↦ elim (Result-cases (transfer wallet org.wallet settings.investment_amount)) [
          | inr (e, h) ↦ rw (rich, accept_investor, h) (refl, refl)
          | inl (hash, h) ↦
              elim (Result-cases (
                handle_investment_payment token_balance fresh.member org
                  (record {
                    id = fresh.payment;
                    org = org.id;
                    amount = settings.investment_amount;
                    investor = p;
                    txn_hash = some hash;
                  })
                  s)) [
                    | inr (e, k) ↦ rw (rich, accept_investor, h, k) (refl, refl)
                    | inl (ms, k) ↦
                        rw (rich, accept_investor, h, k)
                          (approved_for p ps o, refl, refl, refl, refl)
                  ]
        ]
      ]

  accept_member-IsOutcome :
      (fresh : Fresh) (org : Org) (o : Offer) (p : MemberProspect) (ps : List MemberProspect)
      (s : Store)
      → IsOutcome accept o s
          (accept_member token_balance native_balance transfer fresh org (approved_for p ps o) p s)
  unfolding accept_member
  accept_member-IsOutcome fresh org o p ps s =
      elim (Saved-cases (save_new (member_of fresh.member org.id p) s.members)) [
        | inl (ms, k) ↦ rw (k, accept_member) (approved_for p ps o, refl, refl, refl, refl)
        | inr (e, k) ↦ rw (k, accept_member) (refl, refl)
      ]

  accept_offer-IsOutcome :
      (fresh : Fresh) (org : Org) (account : Account) (wallet : Option ℕ) (o : Offer) (s : Store)
      → IsOutcome accept o s
          (accept_offer token_balance native_balance transfer fresh org account wallet o s)
  unfolding accept_offer
  accept_offer-IsOutcome fresh org account wallet o s = elim (List-cases o.member_prospects) [
    | inl e ↦ rw (e, accept_offer) (refl, refl)
    | inr (p, ps, e) ↦ elim (Bool-cases (is_investor p.role)) [
      | inr r ↦
          rw (e, accept_offer, r)
            (accept_member-IsOutcome fresh org o (prospect_for account org.id p) ps s)
      | inl r ↦ elim (Option-cases p.investor_settings) [
        | inl n ↦ rw (e, accept_offer, r, n) (refl, refl)
        | inr (settings, n) ↦
            rw (e, accept_offer, r, n)
              (accept_investor-IsOutcome fresh org wallet o (prospect_for account org.id p) ps
                settings s)
      ]
    ]
  ]

  -- What `updateOfferStatus` comes to: it throws, and the offers and the members are as before; or the
  -- offer that was asked for was pending, and is the only one that is saved, with the decision.
  abbrev pub IsDecided : Org → ℕ → OfferStatusDto → Store → Store × Result (Unit {0}) → Type 0
  IsDecided org offer_id d s (s', err e) = (s'.offers ≡ s.offers) × (s'.members ≡ s.members)
  IsDecided org offer_id d s (s', ok tt) =
      (o : Offer) × (find (is_offer org.id offer_id) s.offers ≡ some o)
      × (o.status ≡ pending)
      × IsOutcome d o s (s', ok tt)

  IsDecided-of :
      (org : Org) (offer_id : ℕ) (d : OfferStatusDto) (o : Offer) (s : Store)
      (r : Store × Result (Unit {0}))
      → find (is_offer org.id offer_id) s.offers ≡ some o
      → o.status ≡ pending
      → IsOutcome d o s r
      → IsDecided org offer_id d s r
  IsDecided-of org offer_id d o s (s', ok tt) f p h = (o, f, p, h)
  IsDecided-of org offer_id d o s (s', err e) f p h = h

  decide-IsOutcome :
      (fresh : Fresh) (org : Org) (d : OfferStatusDto) (account : Account) (wallet : Option ℕ)
      (o : Offer) (s : Store)
      → o.status ≡ pending
      → IsOutcome d o s
          (decide token_balance native_balance transfer fresh org d account wallet o s)
  decide-IsOutcome fresh org accept account wallet o s p =
      accept_offer-IsOutcome fresh org account wallet o s
  decide-IsOutcome fresh org decline account wallet o s p =
      (record o { status = declined }, refl, refl, refl, refl)
  decide-IsOutcome fresh org other account wallet o s p = (o, refl, p, refl, refl)

  -- A call of `updateOfferStatus` that throws leaves the offers and the members as they were; one that
  -- returns has found the offer pending, and saves it alone: as approved or declined where that was
  -- asked, and still pending where the request's status is any other.
  pub update_offer_status-IsDecided :
      (fresh : Fresh) (org : Org) (offer_id : ℕ) (d : OfferStatusDto) (account : Account)
      (s : Store)
      → IsDecided org offer_id d s
          (update_offer_status token_balance native_balance transfer fresh org offer_id d account s)
  unfolding update_offer_status get_org_offer_by_id
  update_offer_status-IsDecided fresh org offer_id d account s =
      elim (Option-cases (find (is_offer org.id offer_id) s.offers)) [
        | inl n ↦ rw (n, update_offer_status) (refl, refl)
        | inr (o, f) ↦ elim (status_cases o.status) [
          | inl p ↦ elim (Result-cases (account_wallet account s)) [
            | inr (e, w) ↦ rw (f, update_offer_status, ap is_pending p, w) (refl, refl)
            | inl (wallet, w) ↦
                rw (f, update_offer_status, ap is_pending p, w)
                  (IsDecided-of org offer_id d o s
                    (decide token_balance native_balance transfer fresh org d account wallet o s) f
                    p (decide-IsOutcome fresh org d account wallet o s p))
          ]
          | inr done ↦ rw (f, update_offer_status, done) (refl, refl)
        ]
      ]

  -- An offer that `createOffer` has made, with an id that no offer of the organization had, cannot be
  -- accepted by an account that is found: the call throws and changes nothing, whatever prospect the
  -- request named.
  create_offer-unacceptable :
      (fresh : Fresh) (org : Org) (offer_id : ℕ) (dto : OfferDto) (account : Account) (s s' : Store)
      (o : Offer) (wallet : Option ℕ)
      → find (is_offer org.id offer_id) s.offers ≡ none
      → create_offer offer_id org.id dto s ≡ ok (s', o)
      → account_wallet account s' ≡ ok wallet
      → update_offer_status token_balance native_balance transfer fresh org offer_id accept account
          s'
        ≡ (s', err type_error)
  unfolding update_offer_status get_org_offer_by_id accept_offer create_offer
  create_offer-unacceptable fresh org offer_id dto account s s' o wallet free h w =
      let (_, _, h1) =
        >>=-eq-ok
          (if is_investor dto.member_prospect.role then check_investor org.id dto s else ok tt) _
          h in
      let offers = ap (λ x. x.0.offers) (ok_inj h1) in
      let found : find (is_offer org.id offer_id) s'.offers ≡ some (new_offer offer_id org.id) =
        ap (find (is_offer org.id offer_id)) (sym offers)
        ∙ find-append_last (is_offer org.id offer_id) s.offers (new_offer offer_id org.id) free
            (ground arith) in
      rw (found, update_offer_status, w) refl
