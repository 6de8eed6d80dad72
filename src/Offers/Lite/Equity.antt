-- ===== src/Offers/Lite/Equity.antt =====
-- `calculateEquity` and `collectEquity` (src/offers/offers.service.lite.ts): what each holder gives up
-- for a new share, in proportion to what it holds, and the batches in which it is collected. Equity is
-- counted in 10^-9 percent. Balances, and whether a batch is sent and confirmed, are parameters; the
-- keys of the holders are assumed to be readable.
pub mod Bounds
use impact_wallet_server.Base.{
  ℕ, ◌+◌, ◌-◌, ◌*◌, Bool, true, false, not, ◌&&◌, ◌||◌, Option, none, some, List, [], ◌∷◌, ◌++◌,
  ◌==◌, ltb, if◌then◌else◌, filter, is_nil,
}
use impact_wallet_server.Base.Int.{ℤ, pos, neg_ℤ, ◌+ℤ◌}
use impact_wallet_server.Base.Round.{round_div}
use impact_wallet_server.Base.Http.{Error, Result, ok, err, ◌>>=◌, thrown, type_error}
use impact_wallet_server.Members.Schema.{Member}
use impact_wallet_server.Orgs.Schema.{Org}
use impact_wallet_server.Users.Schema.{User}
use impact_wallet_server.Payment.Batches.{batches}
use impact_wallet_server.Payment.Split.{populated_user, populated_org}
use impact_wallet_server.Offers.Schema.{MemberProspect}
use impact_wallet_server.Offers.Create.{whole}

-- `filter(flatten(skipMembers.map(mp => [mp.user, mp.orgUser])), identity)`
abbrev pub id_of : Option ℕ → List ℕ
id_of none = []
id_of (some i) = i ∷ []

abbrev pub skip_ids : List MemberProspect → List ℕ
skip_ids [] = []
skip_ids (p ∷ ps) = id_of p.user ++ id_of p.org_user ++ skip_ids ps

-- `skipAmount`
abbrev pub skip_amount : List MemberProspect → ℕ
skip_amount [] = 0
skip_amount (p ∷ ps) = p.equity_amount + skip_amount ps

abbrev pub contains : ℕ → List ℕ → Bool
contains i [] = false
contains i (j ∷ js) = (i == j) || contains i js

-- `{ $nin: ids }`, which a missing field passes
abbrev pub not_in : List ℕ → Option ℕ → Bool
not_in ids none = true
not_in ids (some i) = not (contains i ids)

-- `{ _id: { $ne: member._id } }`, where there is a member
abbrev pub is_other : Option Member → Member → Bool
is_other none m = true
is_other (some x) m = not (m.id == x.id)

-- `queryParams`
unfoldable pub gives_equity : ℕ → Option Member → List MemberProspect → Member → Bool
gives_equity org_id member skip m =
    not_in (skip_ids skip) m.user
    && not_in (skip_ids skip) m.org_user
    && (m.org == org_id)
    && is_other member m

-- `toFixed(memberEquity.mul(equityAllocation.div(new Bigjs(100).minus(skipAmount))), 9)`, which rounds
-- half away from zero; a division by zero throws.
unfoldable pub part_of : ℕ → ℕ → ℕ → Result ℤ
part_of held equity skipped =
    if ltb skipped whole
    then ok (pos (round_div (held * equity) (whole - skipped)))
    else if skipped == whole
    then err (thrown "[big.js] Division by zero")
    else ok (neg_ℤ (pos (round_div (held * equity) (skipped - whole))))

-- An entry of `memberDataMap`.
pub record MemberData : Type 0 where
  pub member : ℕ
  pub wallet : Option ℕ
  pub amount : ℤ
  pub processed : Bool
  pub failed : Bool

-- `defaultTo(member.user, member.orgUser).wallet`
unfoldable pub wallet_of : List User → List Org → Member → Result (Option ℕ)
wallet_of users orgs m = elim (populated_user users m) [
  | some u ↦ ok u.wallet
  | none ↦ elim (populated_org orgs m) [ some o ↦ ok o.wallet | none ↦ err type_error ]
]

-- What a member with this wallet and balance gives up.
unfoldable pub data_for : ℕ → Option ℕ → ℕ → ℕ → ℕ → Result (List MemberData)
unfolding part_of
data_for id wallet held equity skipped =
    if held == 0
    then ok []
    else (part_of held equity skipped >>= λ amount. ok (
        record { member = id; wallet = wallet; amount = amount; processed = false; failed = false }
        ∷ []))

module _ (token_balance : Option ℕ → Option ℕ → ℕ) (users : List User) (orgs : List Org) where
  -- The callback of `eachAsync`.
  unfoldable pub member_data : Option ℕ → ℕ → ℕ → Member → Result (List MemberData)
  unfolding wallet_of data_for
  member_data mint equity skipped m = wallet_of users orgs m >>= λ wallet.
      data_for m.id wallet (token_balance mint wallet) equity skipped

  unfoldable pub each_member : Option ℕ → ℕ → ℕ → List Member → Result (List MemberData)
  unfolding member_data
  each_member mint equity skipped [] = ok []
  each_member mint equity skipped (m ∷ ms) = member_data mint equity skipped m >>= λ d.
      each_member mint equity skipped ms >>= λ ds. ok (d ++ ds)

  unfoldable pub calculate_equity :
      Org → Option Member → ℕ → List MemberProspect → List Member → Result (List MemberData)
  unfolding each_member gives_equity
  calculate_equity org member equity skip ms =
      each_member org.mint equity (skip_amount skip) (filter (gives_equity org.id member skip) ms)

abbrev pub settled : Bool → MemberData → MemberData
settled failed d = record d { processed = true; failed = failed }

abbrev pub settle_batch : Bool → List MemberData → List MemberData
settle_batch failed [] = []
settle_batch failed (d ∷ ds) = settled failed d ∷ settle_batch failed ds

-- The batches one after the other: the data as the loop leaves it, and the hashes. `send` sends and
-- confirms the transfers of a batch, `none` is an error that is logged.
module _ (send : List MemberData → Option ℕ) where
  unfoldable pub collect_batches : List (List MemberData) → List MemberData × List ℕ
  collect_batches [] = ([], [])
  collect_batches (b ∷ bs) =
      let rest = collect_batches bs in
      elim (send b) [
        | some hash ↦ (settle_batch false b ++ rest.0, hash ∷ rest.1)
        | none ↦ (settle_batch true b ++ rest.0, rest.1)
      ]

  unfoldable pub collect_equity : List MemberData → List MemberData × List ℕ
  unfolding collect_batches batches
  collect_equity ds = collect_batches (batches ds)
