-- ===== src/Offers/Lite/Invest.antt =====
-- `updateInvestOfferStatus` and `transferNativeTokenFromInvestor` (src/offers/offers.service.lite.ts):
-- an investor pays into an offer, and gets its share from the holders.
pub mod Raised
pub mod Funding
use impact_wallet_server.Base.{
  ℕ, ◌+◌, ◌*◌, String, Bool, true, false, Option, none, some, List, [], ◌∷◌, ◌++◌, ◌==◌, ltb, leb,
  if◌then◌else◌, find, map, same_option,
}
use impact_wallet_server.Base.Round.{round_div}
use impact_wallet_server.Base.Http.{
  Error, Result, ok, err, ◌>>=◌, throw_if, or_throw, bad_request, thrown, type_error,
}
use impact_wallet_server.Members.Schema.{Member, InvestorSettings, investor, immediately}
use impact_wallet_server.Orgs.Schema.{Org}
use impact_wallet_server.Offers.Schema.{
  MemberProspect, Offer, OfferInvestorSettings, OfferStatus, Payment, Store, approved, declined,
}
use impact_wallet_server.Offers.Investment.{handle_investment_payment, is_investing_member}
use impact_wallet_server.Offers.Status.{
  Account, OfferStatusDto, accept, decline, other, save_offer, with_payment, with_members, Fresh,
}
use impact_wallet_server.Offers.Lite.Equity.{MemberData, calculate_equity, collect_equity}

-- `mp[memberField]`
abbrev pub key_of : Account → MemberProspect → Option ℕ
key_of a p = if a.is_user then p.user else p.org_user

-- `Map.set`: the place of a key that is there stays
abbrev pub map_set : ℕ → MemberProspect → List (ℕ × MemberProspect) → List (ℕ × MemberProspect)
map_set k p [] = (k, p) ∷ []
map_set k p ((j, q) ∷ es) = if j == k then (j, p) ∷ es else (j, q) ∷ map_set k p es

-- `investedMembersMap`, from the entries that it has
unfoldable pub invested_map :
    Account → List (ℕ × MemberProspect) → List MemberProspect → Result (List (ℕ × MemberProspect))
invested_map a entries [] = ok entries
invested_map a entries (p ∷ ps) =
    or_throw (key_of a p) type_error >>= λ k. invested_map a (map_set k p entries) ps

-- `investedAmount`
unfoldable pub invested_amount : List (ℕ × MemberProspect) → Result ℕ
invested_amount [] = ok 0
invested_amount ((k, p) ∷ es) = or_throw p.investor_settings type_error >>= λ settings.
    invested_amount es >>= λ rest. ok (settings.investment_amount + rest)

-- `toFixed(new Bigjs(body.amount).mul(equity).div(amount), 9)`
unfoldable pub equity_allocation : ℕ → OfferInvestorSettings → Result ℕ
equity_allocation amount settings =
    throw_if (settings.amount == 0) (thrown "[big.js] Division by zero") >>= λ _.
    ok (round_div (amount * settings.equity) settings.amount)

abbrev pub new_prospect : Account → ℕ → ℕ → ℕ → MemberProspect
new_prospect a org_id amount equity = record {
  occupation = some "Investor";
  role = investor;
  impact_ratio = 1000000;
  equity_amount = equity;
  equity_type = some immediately;
  equity_period = none;
  compensation = none;
  is_auto_contributing = false;
  hours_per_week = 40;
  agreement = none;
  investor_settings = some (record { investment_amount = amount; equity_allocation = equity });
  org = some org_id;
  user = if a.is_user then some a.id else none;
  org_user = if a.is_user then none else some a.id;
}

abbrev pub grown : ℕ → ℕ → InvestorSettings → MemberProspect → MemberProspect
grown amount equity settings p = record p {
  equity_amount = p.equity_amount + equity;
  investor_settings = some (record {
    investment_amount = settings.investment_amount + amount;
    equity_allocation = settings.equity_allocation + equity;
  });
}

-- The first prospect of the account grows; where there is none, the new one is pushed.
unfoldable pub add_investment :
    Account → ℕ → ℕ → MemberProspect → List MemberProspect → Result (List MemberProspect)
add_investment a amount equity new [] = ok (new ∷ [])
add_investment a amount equity new (p ∷ ps) =
    if same_option (key_of a p) (some a.id)
    then (or_throw p.investor_settings type_error >>= λ settings.
        ok (grown amount equity settings p ∷ ps))
    else (add_investment a amount equity new ps >>= λ rest. ok (p ∷ rest))

-- A member's document among the prospects, with its balance as `equityAmount`.
abbrev pub prospect_of : ℕ → Member → MemberProspect
prospect_of equity m = record {
  occupation = m.occupation;
  role = m.role;
  impact_ratio = m.impact_ratio;
  equity_amount = equity;
  equity_type = m.equity_type;
  equity_period = m.equity_period;
  compensation = m.compensation;
  is_auto_contributing = m.is_auto_contributing;
  hours_per_week = m.hours_per_week;
  agreement = m.agreement;
  investor_settings = m.investor_settings;
  org = some m.org;
  user = m.user;
  org_user = m.org_user;
}

abbrev pub map_values : List (ℕ × MemberProspect) → List MemberProspect
map_values [] = []
map_values ((k, p) ∷ es) = p ∷ map_values es

-- The prospects whose equity is left alone: those of the map, with the account's member in it.
abbrev pub skipped : ℕ → ℕ → Option Member → List (ℕ × MemberProspect) → List MemberProspect
skipped key balance none es = map_values es
skipped key balance (some m) es = map_values (map_set key (prospect_of balance m) es)

-- What is known before anything is written.
pub record Plan : Type 0 where
  pub entries : List (ℕ × MemberProspect)
  pub invested : ℕ
  pub equity : ℕ

unfoldable pub plan : Account → ℕ → OfferInvestorSettings → List MemberProspect → Result Plan
unfolding invested_map invested_amount equity_allocation
plan a amount settings prospects = invested_map a [] prospects >>= λ entries.
    invested_amount entries >>= λ invested.
    throw_if (ltb settings.amount (invested + amount)) (bad_request "Cannot invest more") >>= λ _.
    equity_allocation amount settings >>= λ equity.
    ok (record { entries = entries; invested = invested; equity = equity })

-- `commissionAmount`, the commission in 10^-6; the transfers are in credits.
abbrev pub commission_of : ℕ → ℕ → ℕ
commission_of commission amount = round_div (amount * commission) 1000000

-- What the steps between the first save of the payment and the transaction come to.
pub record Funded : Type 0 where
  pub prospects : List MemberProspect
  pub members : List Member
  pub payment : Payment
  pub collected : List MemberData

abbrev pub funded_status : OfferInvestorSettings → ℕ → OfferStatus → OfferStatus
funded_status settings raised status = if leb settings.amount raised then approved else status

abbrev pub funded_offer : OfferInvestorSettings → ℕ → List MemberProspect → Offer → Offer
funded_offer settings raised prospects o = record o {
  status = funded_status settings raised o.status;
  member_prospects = prospects;
}

abbrev pub paid : Payment → ℕ → Payment
paid payment hash = record payment { txn_hash = some hash }

abbrev pub saved_payment : Fresh → Org → Account → ℕ → Plan → Payment
saved_payment fresh org a amount p = record {
  id = fresh.payment;
  org = org.id;
  amount = amount;
  investor = new_prospect a org.id amount p.equity;
  txn_hash = none;
}

-- `transfer wallet to amount commission` sends the investor's payment and the commission in one
-- transaction; `send` is a batch of `collectEquity`.
module _ (token_balance : Option ℕ → Option ℕ → ℕ)
    (transfer : Option ℕ → Option ℕ → ℕ → ℕ → Result ℕ) (send : List MemberData → Option ℕ)
    (commission : ℕ) where
  -- `memberDataMap`
  unfoldable pub shares :
      Org → Account → Option ℕ → Payment → Plan → Store → Result (List MemberData)
  unfolding calculate_equity
  shares org a wallet payment p s =
      let member = find (is_investing_member org.id payment.investor) s.members in
      calculate_equity token_balance s.users s.orgs org member p.equity
        (skipped a.id (token_balance org.mint wallet) member p.entries) s.members

  unfoldable pub fund :
      Fresh → Org → Account → Option ℕ → Offer → Payment → Plan → Store → Result Funded
  unfolding shares collect_equity add_investment handle_investment_payment
  fund fresh org a wallet o payment p s = shares org a wallet payment p s >>= λ ds.
      transfer wallet org.wallet payment.amount (commission_of commission payment.amount)
      >>= λ hash.
          add_investment a payment.amount p.equity payment.investor o.member_prospects
          >>= λ prospects.
              handle_investment_payment token_balance fresh.member org (paid payment hash) s
              >>= λ members. ok (record {
                prospects = prospects;
                members = members;
                payment = paid payment hash;
                collected = (collect_equity send ds).0;
              })

  unfoldable pub accept_investment :
      Fresh
      → Org
      → Account
      → Option ℕ
      → Offer
      → OfferInvestorSettings
      → ℕ
      → Plan
      → Store
      → Store × Result (Unit {0})
  unfolding fund
  accept_investment fresh org a wallet o settings amount p s =
      let payment = saved_payment fresh org a amount p in
      elim (fund fresh org a wallet o payment p s) [
        | err e ↦ (with_payment payment s, err e)
        | ok f ↦ (
          save_offer (funded_offer settings (p.invested + amount) f.prospects o)
              (with_members f.members (with_payment f.payment s)),
          ok tt,
        )
      ]

  unfoldable pub decide_investment :
      Fresh
      → Org
      → OfferStatusDto
      → Account
      → Option ℕ
      → Offer
      → OfferInvestorSettings
      → ℕ
      → Plan
      → Store
      → Store × Result (Unit {0})
  unfolding accept_investment
  decide_investment fresh org accept a wallet o settings amount p s =
      accept_investment fresh org a wallet o settings amount p s
  decide_investment fresh org decline a wallet o settings amount p s =
      (save_offer (record o { status = declined }) s, ok tt)
  decide_investment fresh org other a wallet o settings amount p s = (s, ok tt)

  unfoldable pub update_invest_offer_status :
      Fresh
      → Org
      → Offer
      → OfferStatusDto
      → ℕ
      → Account
      → Option ℕ
      → Store
      → Store × Result (Unit {0})
  unfolding plan decide_investment
  update_invest_offer_status fresh org o status amount a wallet s = elim o.investor_settings [
    | none ↦ (s, err type_error)
    | some settings ↦ elim (plan a amount settings o.member_prospects) [
      | err e ↦ (s, err e)
      | ok p ↦ decide_investment fresh org status a wallet o settings amount p s
    ]
  ]
