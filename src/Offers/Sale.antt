-- ===== src/Offers/Sale.antt =====
-- Sales of shares: src/offers/schema/sale-offer.schema.ts, `createSaleOffer`
-- (src/offers/offers.service.ts), `handleAssetsSale` and `sellAssetsInApp` (src/payment/payment.service.ts),
-- and `updateSaleOfferStatus` of the lite client (src/offers/offers.service.lite.ts).
pub mod Buyer
pub mod Sold
use impact_wallet_server.Base.{
  ℕ, String, Bool, true, false, not, ◌&&◌, ◌||◌, Option, none, some, List, [], ◌∷◌, ◌++◌, ◌==◌, ltb,
  if◌then◌else◌, find, same_option, update_first,
}
use impact_wallet_server.Base.Int.{pos}
use impact_wallet_server.Base.Http.{
  Result, ok, err, ◌>>=◌, throw_if, or_throw, not_found, forbidden, bad_request, thrown, type_error,
}
use impact_wallet_server.Members.Schema.{Member, member, immediately}
use impact_wallet_server.Members.{Saved, saved, refused, save_new}
use impact_wallet_server.Users.Schema.{User}
use impact_wallet_server.Orgs.Schema.{Org}
use impact_wallet_server.Orgs.Mint.{get_by_org_id}
use impact_wallet_server.Payment.Split.{has_user_id, has_org_id, populated_user, populated_org}
use impact_wallet_server.Payment.Perform.{commission_amount, check_funds, sender_wallet}
use impact_wallet_server.Offers.Schema.{OfferStatus, pending, approved, declined}
use impact_wallet_server.Offers.Status.{Account, OfferStatusDto, accept, decline, other, is_pending}

pub record SaleOffer : Type 0 where
  pub id : ℕ
  pub status : OfferStatus
  pub tokens_amount : ℕ
  pub price : ℕ
  pub seller : ℕ
  pub org : ℕ
  pub buyer : Option ℕ
  pub txn_hash : Option ℕ
  pub is_life_time : Bool

-- A payment of the type `AssetsSell`.
pub record SalePayment : Type 0 where
  pub amount : ℕ
  pub sale : SaleOffer
  pub txn_hash : Option ℕ

-- The collections that a sale reads and writes.
pub record SaleStore : Type 0 where
  pub users : List User
  pub orgs : List Org
  pub members : List Member
  pub sales : List SaleOffer
  pub payments : List SalePayment

-- The document behind an account: a user's or an organization's.
pub data Party : Type 0 where
  user_party : User → Party
  org_party : Org → Party

abbrev pub party_id : Party → ℕ
party_id (user_party u) = u.id
party_id (org_party o) = o.id

abbrev pub party_wallet : Party → Option ℕ
party_wallet (user_party u) = u.wallet
party_wallet (org_party o) = o.wallet

-- An organization has no bonus wallet.
abbrev pub party_bonus_wallet : Party → Option ℕ
party_bonus_wallet (user_party u) = u.bonus_wallet
party_bonus_wallet (org_party o) = none

abbrev pub is_org_party : Party → Bool
is_org_party (user_party u) = false
is_org_party (org_party o) = true

-- `populateSeller` and `populateBuyer`: the user of the id, and else the organization
unfoldable pub find_party : ℕ → List User → List Org → Option Party
find_party i users orgs = elim (find (has_user_id i) users) [
  | some u ↦ some (user_party u)
  | none ↦ elim (find (has_org_id i) orgs) [ some o ↦ some (org_party o) | none ↦ none ]
]

-- `getByUserId` or `getByOrgId`, by the kind of the account
unfoldable pub buyer_of : Account → SaleStore → Result Party
unfolding get_by_org_id
buyer_of a s =
    if a.is_user
    then (or_throw (find (has_user_id a.id) s.users) (not_found "User not found") >>= λ u.
        ok (user_party u))
    else (get_by_org_id a.id s.orgs >>= λ o. ok (org_party o))

abbrev pub has_sale_id : ℕ → SaleOffer → Bool
has_sale_id i o = o.id == i

unfoldable pub get_sale_offer_by_id : ℕ → List SaleOffer → Result SaleOffer
get_sale_offer_by_id i sales =
    or_throw (find (has_sale_id i) sales) (not_found "Sale offer not found")

-- `{ $or: [{ user: id }, { orgUser: id }], org }`
abbrev pub is_seller_member : ℕ → ℕ → Member → Bool
is_seller_member i org_id m =
    (same_option m.user (some i) || same_option m.org_user (some i)) && (m.org == org_id)

-- `{ org, [buyerMemberField]: buyer._id }`
abbrev pub is_buyer_member : Party → ℕ → Member → Bool
is_buyer_member p org_id m =
    (m.org == org_id)
    && same_option (if is_org_party p then m.org_user else m.user) (some (party_id p))

-- The wallet of a member's user, or of the organization that is the member.
unfoldable pub member_wallet : List User → List Org → Member → Result (Option ℕ)
member_wallet users orgs m = elim (populated_user users m) [
  | some u ↦ ok u.wallet
  | none ↦ elim (populated_org orgs m) [ some o ↦ ok o.wallet | none ↦ err type_error ]
]

-- `SaleOfferDto`
pub record SaleOfferDto : Type 0 where
  pub tokens_amount : ℕ
  pub price : ℕ
  pub org_id : ℕ

abbrev pub new_sale : ℕ → SaleOfferDto → ℕ → SaleOffer
new_sale fresh dto seller = record {
  id = fresh;
  status = pending;
  tokens_amount = dto.tokens_amount;
  price = dto.price;
  seller = seller;
  org = dto.org_id;
  buyer = none;
  txn_hash = none;
  is_life_time = false;
}

unfoldable pub create_sale_offer :
    (Option ℕ → Option ℕ → ℕ)
    → ℕ
    → SaleOfferDto
    → Account
    → SaleStore
    → Result (SaleStore × SaleOffer)
unfolding member_wallet
create_sale_offer token_balance fresh dto a s =
    or_throw (find (is_seller_member a.id dto.org_id) s.members) (not_found "Member not found")
    >>= λ m. member_wallet s.users s.orgs m >>= λ wallet.
        or_throw (find (has_org_id m.org) s.orgs) type_error >>= λ org.
        throw_if (ltb (token_balance org.mint wallet) dto.tokens_amount)
          (bad_request "Not enough tokens to sell")
        >>= λ _.
            ok (
              record s { sales = s.sales ++ new_sale fresh dto a.id ∷ [] },
              new_sale fresh dto a.id,
            )

-- A transfer of a token: `none` is the token of the credits.
pub record TokenTransfer : Type 0 where
  pub mint : Option ℕ
  pub sender : Option ℕ
  pub wallet : Option ℕ
  pub amount : ℕ

abbrev pub buyer_document : ℕ → Party → SaleOffer → Member
buyer_document fresh buyer sale = record {
  id = fresh;
  occupation = some "Buyer";
  role = member;
  impact_ratio = 1000000;
  equity_type = some immediately;
  equity_period = none;
  compensation = none;
  is_auto_contributing = false;
  hours_per_week = 40;
  agreement = none;
  user = if is_org_party buyer then none else some (party_id buyer);
  org_user = if is_org_party buyer then some (party_id buyer) else none;
  org = sale.org;
  contributed = pos 0;
  lamports_earned = pos sale.tokens_amount;
  investor_settings = none;
  profit = pos 0;
}

abbrev pub saved_or_throw : Saved (List Member) → Result (List Member)
saved_or_throw (saved ms) = ok ms
saved_or_throw (refused e) = err (thrown "ValidationError")

-- The buyer's member is there, or is saved.
unfoldable pub with_buyer : ℕ → Party → SaleOffer → List Member → Result (List Member)
unfolding save_new
with_buyer fresh buyer sale ms = elim (find (is_buyer_member buyer sale.org) ms) [
  | some m ↦ ok ms
  | none ↦ saved_or_throw (save_new (buyer_document fresh buyer sale) ms)
]

-- `handleAssetsSale`: the members as they are saved, and the transfer of the shares.
unfoldable pub handle_assets_sale : ℕ → SaleOffer → SaleStore → Result (List Member × TokenTransfer)
unfolding member_wallet find_party with_buyer
handle_assets_sale fresh sale s =
    or_throw (find (is_seller_member sale.seller sale.org) s.members) type_error >>= λ m.
    member_wallet s.users s.orgs m >>= λ wallet.
    or_throw (find (has_org_id sale.org) s.orgs) type_error >>= λ org.
    or_throw sale.buyer type_error >>= λ i.
    or_throw (find_party i s.users s.orgs) type_error >>= λ buyer.
    with_buyer fresh buyer sale s.members >>= λ ms. ok (
      ms,
      record {
        mint = org.mint;
        sender = wallet;
        wallet = party_wallet buyer;
        amount = sale.tokens_amount;
      },
    )

-- `saleOffer.save()`
abbrev pub save_sale : SaleOffer → SaleStore → SaleStore
save_sale o s = record s { sales = update_first (has_sale_id o.id) (λ x. o) s.sales }

abbrev pub sold_sale : Party → SaleOffer → SaleOffer
sold_sale buyer o = record o { status = approved; buyer = some (party_id buyer) }

abbrev pub hashed : ℕ → SaleOffer → SaleOffer
hashed hash o = record o { txn_hash = some hash }

abbrev pub with_sale : List Member → SalePayment → SaleStore → SaleStore
with_sale ms p s = record s { members = ms; payments = s.payments ++ p ∷ [] }

-- The credits that the buyer's wallet pays to the seller, and the seller to the root organization.
abbrev pub credit_transfers : Option ℕ → Option ℕ → Option ℕ → ℕ → ℕ → List TokenTransfer
credit_transfers buyer_wallet seller_wallet root_wallet price commission =
    record { mint = none; sender = buyer_wallet; wallet = seller_wallet; amount = price }
    ∷ record {
      mint = none;
      sender = seller_wallet;
      wallet = root_wallet;
      amount = commission_amount price commission;
    }
    ∷ []

-- `send transfers` sends one transaction with the transfers and answers its hash.
module _ (onboarding : Bool) (native_balance : Option ℕ → ℕ) (send : List TokenTransfer → Result ℕ)
    (commission : ℕ) (root_wallet : Option ℕ) where
  -- The store after an accepted sale, with the transfers that were sent.
  unfoldable pub accept_sale :
      ℕ → SaleOffer → Party → SaleStore → Result (SaleStore × List TokenTransfer)
  unfolding find_party check_funds sender_wallet handle_assets_sale
  accept_sale fresh o buyer s =
      check_funds onboarding native_balance (party_wallet buyer) (party_bonus_wallet buyer) o.price
      >>= λ _. or_throw (find_party o.seller s.users s.orgs) type_error >>= λ seller.
          let sold = sold_sale buyer o in
          let payer =
            sender_wallet onboarding native_balance (party_wallet buyer) (party_bonus_wallet buyer)
              o.price in
          handle_assets_sale fresh sold s >>= λ h.
          let transfers =
            credit_transfers payer (party_wallet seller) root_wallet o.price commission
            ++ h.1 ∷ [] in
          send transfers >>= λ hash.
          let payment : SalePayment = record {
            amount = o.price;
            sale = sold;
            txn_hash = some hash;
          } in
          ok (save_sale (hashed hash sold) (with_sale h.0 payment s), transfers)

  abbrev pub decide_sale :
      ℕ → OfferStatusDto → SaleOffer → Party → SaleStore → Result (SaleStore × List TokenTransfer)
  decide_sale fresh accept o buyer s = accept_sale fresh o buyer s
  decide_sale fresh decline o buyer s = ok (save_sale (record o { status = declined }) s, [])
  decide_sale fresh other o buyer s = ok (save_sale o s, [])

  unfoldable pub update_sale_offer_status :
      ℕ → ℕ → OfferStatusDto → Account → SaleStore → Result (SaleStore × List TokenTransfer)
  unfolding get_sale_offer_by_id buyer_of accept_sale
  update_sale_offer_status fresh offer_id status a s =
      get_sale_offer_by_id offer_id s.sales >>= λ o.
      throw_if (not o.is_life_time && not (is_pending o.status))
        (forbidden "Offer already accepted/declined")
      >>= λ _. buyer_of a s >>= λ buyer. decide_sale fresh status o buyer s
