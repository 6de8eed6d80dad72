-- ===== src/Contributions/Stop.antt =====
-- `stopContribution` and `_calculateAndUpdateInvestorsShares`: what a contribution earned, its split
-- and the books. The transaction is a function into `Result`: where it throws, nothing is written.
pub mod Books
pub mod Split
use impact_wallet_server.Base.{
  ℕ, ◌≡◌, Bool, true, false, not, ◌&&◌, Option, none, some, List, [], ◌∷◌, ◌++◌, ◌==◌, filter, find,
  update_first, is_nil,
}
use impact_wallet_server.Base.Int.{ℤ, pos, ◌-ℤ◌, neg_ℤ, sum_by}
use impact_wallet_server.Base.Round.{mul_round}
use impact_wallet_server.Base.Http.{
  Error, Result, ok, err, ◌>>=◌, ◌>>◌, throw_if, or_throw, unauthorized, forbidden, not_found,
  type_error,
}
use impact_wallet_server.Members.Schema.{Member, is_investor, InvestorSettings}
use impact_wallet_server.Members.{has_id, update_contributed}
use impact_wallet_server.Orgs.Schema.{Org}
use impact_wallet_server.Orgs.Mint.{get_by_org_id, ensure_mint_of, update_minted_amount}
use impact_wallet_server.Payment.Split.{populated_user, populated_org}
use impact_wallet_server.Users.Schema.{User}
use impact_wallet_server.Contributions.Schema.{
  Contribution, ContributionSplit, Store, TxnStatus, processing,
}

-- `Math.round(duration * impactRatio * LAMPORTS_PER_SOL)`, the duration in hours: with milliseconds
-- and a ratio in 10^-6 that is a division by 3600.
abbrev pub lamports_of : ℤ → ℕ → ℤ
lamports_of elapsed ratio = mul_round elapsed ratio 3600

-- `Math.round(lamportsEarned * (equityAllocation / 100))`
abbrev pub investor_share : ℤ → ℕ → ℤ
investor_share lamports equity = mul_round lamports equity 100000000000

-- `getMembers({ org, role: Role.Investor }, 'user')`
abbrev pub investors_of : ℕ → List Member → List Member
investors_of org_id ms = filter (λ m. (m.org == org_id) && is_investor m.role) ms

-- The part of one investor.
unfoldable pub receiver : List User → ℤ → Member → Result ContributionSplit
receiver users lamports investor = or_throw investor.investor_settings type_error >>= λ settings.
    or_throw (populated_user users investor) type_error >>= λ user. ok (record {
      member = investor.id;
      user = some user;
      wallet = user.wallet;
      amount = investor_share lamports settings.equity_allocation;
      duration = pos 0;
    })

unfoldable pub receivers : List User → ℤ → List Member → Result (List ContributionSplit)
unfolding receiver
receivers users lamports [] = ok []
receivers users lamports (i ∷ is) =
    receiver users lamports i >>= λ r. receivers users lamports is >>= λ rs. ok (r ∷ rs)

abbrev pub amount_of : ContributionSplit → ℤ
amount_of p = p.amount

-- `total`
abbrev pub total : List ContributionSplit → ℤ
total ps = sum_by amount_of ps

-- The contribution's member with its populated user, as an account.
pub record Earner : Type 0 where
  pub account : ℕ
  pub user : Option User
  pub wallet : Option ℕ

unfoldable pub earner : List User → List Org → Member → Result Earner
earner users orgs m = elim (populated_user users m) [
  | some u ↦ ok (record { account = u.id; user = some u; wallet = u.wallet })
  | none ↦ elim (populated_org orgs m) [
    | some o ↦ ok (record { account = o.id; user = none; wallet = o.wallet })
    | none ↦ err type_error
  ]
]

-- The split: the investors' parts, and the rest for the member.
abbrev pub own_part : ℕ → Earner → ℤ → ℤ → ContributionSplit
own_part member_id e rest elapsed = record {
  member = member_id;
  user = e.user;
  wallet = e.wallet;
  amount = rest;
  duration = elapsed;
}

-- `split.map(data => updateContributed(…))`, with the signs of a booking or of its reversal
unfoldable pub book : (ℤ → ℤ) → List ContributionSplit → List Member → List Member
unfolding update_contributed
book sign [] ms = ms
book sign (p ∷ ps) ms =
    book sign ps (update_contributed p.member (sign p.duration) (sign p.amount) ms)

abbrev pub plus : ℤ → ℤ
plus x = x

abbrev pub is_contribution : ℕ → ℕ → Contribution → Bool
is_contribution contribution_id org_id c = (c.id == contribution_id) && (c.org == org_id)

abbrev pub has_contribution_id : ℕ → Contribution → Bool
has_contribution_id i c = c.id == i

abbrev pub save_contribution : Contribution → List Contribution → List Contribution
save_contribution c cs = update_first (has_contribution_id c.id) (λ x. c) cs

abbrev pub stopped : ℕ → ℤ → List ContributionSplit → Contribution → Contribution
stopped now lamports split c = record c {
  stopped_at = some now;
  lamports_earned = lamports;
  split = split;
  txn_status = some processing;
}

-- What the transaction writes once the contribution may be stopped.
unfoldable pub write_stopped :
    ℕ → ℕ → Member → Earner → Contribution → Store → Result (Store × Contribution)
unfolding book receivers
write_stopped org_id now m e c s =
    let elapsed = pos now -ℤ pos c.created_at in
    let lamports = lamports_of elapsed c.impact_ratio in
    receivers s.users lamports (investors_of org_id s.members) >>= λ rs.
    let split = rs ++ own_part m.id e (lamports -ℤ total rs) elapsed ∷ [] in
    let c' = stopped now lamports split c in
    ok (
      record s {
        members = book plus split s.members;
        contributions = save_contribution c' s.contributions;
        orgs = update_minted_amount org_id lamports s.orgs;
      },
      c',
    )

-- The transaction of `stopContribution`.
unfoldable pub stop_in_transaction : ℕ → ℕ → ℕ → ℕ → Store → Result (Store × Contribution)
unfolding earner write_stopped
stop_in_transaction org_id contribution_id account now s =
    or_throw (find (is_contribution contribution_id org_id) s.contributions)
      (not_found "Contribution not found")
    >>= λ c.
        throw_if (not (is_nil c.stopped_at)) (forbidden "Contribution already stopped") >>= λ _.
        or_throw (find (has_id c.member) s.members) type_error >>= λ m.
        earner s.users s.orgs m >>= λ e.
        throw_if (not (account == e.account))
          (unauthorized "It is not allowed to stop contribution for another user")
        >>= λ _. write_stopped org_id now m e c s
