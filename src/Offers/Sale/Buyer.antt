-- ===== src/Offers/Sale/Buyer.antt =====
-- Who is a member after a sale of shares, and which offer is found.
use mathlib.Core.Path.{subst}
use mathlib.Core.Option.{some-injective}
use impact_wallet_server.Base.{
  ℕ, ◌≡◌, refl, sym, ap, ◌⊎◌, inl, inr, Bool, true, false, not, ◌&&◌, some, List, [], ◌∷◌, ◌++◌,
  ◌==◌, ==_iff, find, find_sound, find-append_last, update_first, Bool-cases, if_cases, arith,
}
use impact_wallet_server.Base.Int.{pos}
use impact_wallet_server.Base.Http.{
  ok, or_throw, type_error, >>=-eq-ok, ok_inj, or_throw-ok, match_option,
}
use impact_wallet_server.Members.Schema.{Member, member_valid}
use impact_wallet_server.Members.{Saved, saved, refused, save_new, same_key}
use impact_wallet_server.Payment.Split.{has_org_id, has_user_id}
use impact_wallet_server.Users.Schema.{User}
use impact_wallet_server.Orgs.Schema.{Org}
use impact_wallet_server.Offers.Sale.{
  SaleOffer, SaleStore, Party, TokenTransfer, user_party, org_party, party_id, party_wallet,
  is_buyer_member, has_sale_id, buyer_document, with_buyer, saved_or_throw, handle_assets_sale,
  member_wallet, find_party, is_seller_member, sold_sale,
}

buyer_document_matches :
    (fresh : ℕ) (buyer : Party) (sale : SaleOffer)
    → is_buyer_member buyer sale.org (buyer_document fresh buyer sale) ≡ true
buyer_document_matches fresh (user_party u) sale = ground arith
buyer_document_matches fresh (org_party o) sale = ground arith

saved_or_throw-ok :
    (r : Saved (List Member)) {ms : List Member} → saved_or_throw r ≡ ok ms → r ≡ saved ms
saved_or_throw-ok (saved ms) e = ap saved (ok_inj e)
saved_or_throw-ok (refused x) e = cc

save_new-saved :
    (m : Member) (ms : List Member) {ms' : List Member}
    → save_new m ms ≡ saved ms'
    → ms' ≡ ms ++ m ∷ []
unfolding save_new
save_new-saved m ms e = elim (if_cases (not (member_valid m)) _ _ e) [
  | inl (_, k) ↦ cc
  | inr (_, k) ↦ elim (match_option (find (same_key m) ms) _ _ k) [
    | inl (_, k') ↦ cc
    | inr (_, _, k') ↦ cc
  ]
]

-- The members after a sale: the buyer is one, and nobody else has changed.
abbrev pub HasBuyer : Party → SaleOffer → List Member → List Member → Type 0
HasBuyer buyer sale ms ms' =
    ((m : Member) × (find (is_buyer_member buyer sale.org) ms' ≡ some m))
    × ((ms' ≡ ms)
        ⊎ ((m : Member) × (ms' ≡ ms ++ m ∷ []) × (m.lamports_earned ≡ pos sale.tokens_amount)))

with_buyer-HasBuyer :
    (fresh : ℕ) (buyer : Party) (sale : SaleOffer) (ms : List Member) {ms' : List Member}
    → with_buyer fresh buyer sale ms ≡ ok ms'
    → HasBuyer buyer sale ms ms'
unfolding with_buyer
with_buyer-HasBuyer fresh buyer sale ms {ms'} e =
    elim (match_option (find (is_buyer_member buyer sale.org) ms) _ _ e) [
      | inl (c, e') ↦
          let new = buyer_document fresh buyer sale in
          let added : ms' ≡ ms ++ new ∷ [] = save_new-saved new ms (saved_or_throw-ok _ e') in
          let found =
            find-append_last (is_buyer_member buyer sale.org) ms new c
              (buyer_document_matches fresh buyer sale) in
          ((new, rw added found), inr (new, added, refl))
      | inr (m, c, e') ↦ let same = sym (ok_inj e') in ((m, rw same c), inl same)
    ]

-- The shares of a sale leave the seller's wallet, in the token of the sale's organization.
abbrev pub IsShares : SaleOffer → SaleStore → TokenTransfer → Type 0
IsShares o s t =
    (m : Member) × (org : Org) × (find (is_seller_member o.seller o.org) s.members ≡ some m)
    × (find (has_org_id o.org) s.orgs ≡ some org)
    × (member_wallet s.users s.orgs m ≡ ok t.sender)
    × (t.mint ≡ org.mint)

pub handle_assets_sale-HasBuyer :
    (fresh : ℕ) (sale : SaleOffer) (buyer : Party) (s : SaleStore) {ms : List Member}
    {t : TokenTransfer}
    → handle_assets_sale fresh (sold_sale buyer sale) s ≡ ok (ms, t)
    → (b : Party) × (find_party (party_id buyer) s.users s.orgs ≡ some b)
      × HasBuyer b sale s.members ms
      × (t.amount ≡ sale.tokens_amount)
      × (t.wallet ≡ party_wallet b)
      × IsShares sale s t
unfolding handle_assets_sale
handle_assets_sale-HasBuyer fresh sale buyer s e =
    let sold = sold_sale buyer sale in
    let (m, hs, e1) =
      >>=-eq-ok (or_throw (find (is_seller_member sale.seller sale.org) s.members) type_error) _
        e in
    let (wallet, hw, e2) = >>=-eq-ok (member_wallet s.users s.orgs m) _ e1 in
    let (org, ho, e3) = >>=-eq-ok (or_throw (find (has_org_id sale.org) s.orgs) type_error) _ e2 in
    let (b, hb, e4) =
      >>=-eq-ok (or_throw (find_party (party_id buyer) s.users s.orgs) type_error) _ e3 in
    let (ms', hm, e5) = >>=-eq-ok (with_buyer fresh b sold s.members) _ e4 in
    let done = ok_inj e5 in
    (
      b,
      or_throw-ok _ _ hb,
      subst (HasBuyer b sale s.members) (ap (λ x. x.0) done)
          (with_buyer-HasBuyer fresh b sold s.members hm),
      ap (λ x. x.1.amount) (sym done),
      ap (λ x. x.1.wallet) (sym done),
      subst (λ x. IsShares sale s x.1) done
          (m, org, or_throw-ok _ _ hs, or_throw-ok _ _ ho, hw, refl),
    )

pub find_party_id :
    (i : ℕ) (users : List User) (orgs : List Org) {b : Party}
    → find_party i users orgs ≡ some b
    → party_id b ≡ i
unfolding find_party
find_party_id i users orgs {b} e = elim (match_option (find (has_user_id i) users) _ _ e) [
  | inr (u, h, e') ↦
      subst (λ b. party_id b ≡ i) (some-injective (user_party u) b e')
        ((==_iff u.id i).0 (find_sound (has_user_id i) users h))
  | inl (_, e') ↦ elim (match_option (find (has_org_id i) orgs) _ _ e') [
    | inr (o, h, e'') ↦
        subst (λ b. party_id b ≡ i) (some-injective (org_party o) b e'')
          ((==_iff o.id i).0 (find_sound (has_org_id i) orgs h))
    | inl (_, e'') ↦ cc
  ]
]

pub open_cases : (b c : Bool) → (not b && not c) ≡ false → (b ≡ true) ⊎ (c ≡ true)
open_cases true c h = inl refl
open_cases false true h = inr refl
open_cases false false h = cc

pub find_saved :
    (i : ℕ) (o' : SaleOffer) (os : List SaleOffer) {o : SaleOffer}
    → o'.id ≡ i
    → find (has_sale_id i) os ≡ some o
    → find (has_sale_id i) (update_first (has_sale_id o'.id) (λ x. o') os) ≡ some o'
find_saved i o' [] h e = cc
find_saved i o' (x ∷ os) {o} h e = elim (Bool-cases (x.id == i)) [
  | inl c ↦ ground (arith, c, h)
  | inr c ↦ ground (arith, c, h, e, find_saved i o' os {o = o})
]
