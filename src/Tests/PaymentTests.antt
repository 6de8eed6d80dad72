-- ===== src/Tests/PaymentTests.antt =====
-- The payments' theorems at concrete inputs.
use impact_wallet_server.Base.{
  Option, ◌&&◌, ◌==◌, same_option, if◌then◌else◌, ℕ, ◌≡◌, ◌≤◌, ◌+◌, ◌*◌, refl, none, some, List, [],
  ◌∷◌, length, All, arith, true, Any, inl, sym,
}
use mathlib.Core.Path.{subst}
use mathlib.Core.List.{flatten}
use impact_wallet_server.Base.Int.{pos, ◌+ℤ◌, ◌-ℤ◌, ◌≤ℤ◌, sum_by}
use impact_wallet_server.Base.Http.{ok}
use impact_wallet_server.Payment.Split.{SplitState, pay_holders, split_start, share, holder_wallet}
use impact_wallet_server.Base.Round.{round_div}
use impact_wallet_server.Payment.Split.Holders.{
  split_conserves, split_exact, payout_amount, ArePaid,
}
use impact_wallet_server.Payment.Batches.{batches, batch_size, batches_partition}
use impact_wallet_server.Payment.Perform.{
  perform_payment, IsPaid, perform_payment-IsPaid, Performed,
}
use impact_wallet_server.Orgs.Schema.{Org}
use impact_wallet_server.Tests.Data.{
  acme, alice_member, users, members, balances, self_member, self_balances,
}
use impact_wallet_server.Payment.Regular.{World, is_success, handle_regular_payment}
use impact_wallet_server.Payment.Regular.Nested.{IsRanked, handle_regular_payment_ends}
use impact_wallet_server.Payment.Regular.Endless.{
  HasCircle, HoldsFrom, handle_regular_payment_endless,
}

split_conserves_example :
    (s : SplitState) × (pay_holders balances users
        (acme ∷ [])
        (some 210)
        1000001
        members
        (split_start members)
      ≡ some s)
    × All (λ p. pos 0 ≤ℤ p.amount) s.members_with_amount
    × (sum_by payout_amount s.members_with_amount ≤ℤ pos 1000001)
split_conserves_example =
    split_conserves balances users (acme ∷ []) (some 210) 1000001 members members

split_exact_example :
    (s : SplitState) × (pay_holders balances users
        (acme ∷ [])
        (some 210)
        1000000
        members
        (split_start members)
      ≡ some s)
    × ArePaid balances users (acme ∷ []) (some 210) 1000000 members s.members_with_amount
unfolding share holder_wallet round_div ◌+ℤ◌
split_exact_example =
    split_exact balances users (acme ∷ []) (some 210) 1000000 members members (omega arith)

abbrev seven : List ℕ
seven = 1 ∷ 2 ∷ 3 ∷ 4 ∷ 5 ∷ 6 ∷ 7 ∷ []

batches_partition_example :
    (flatten (batches seven) ≡ seven)
    × All (λ b. length b ≤ batch_size) (batches seven)
    × (length (batches seven) * batch_size ≤ length seven + 4)
batches_partition_example = batches_partition seven

abbrev performed : Performed
performed = record { txn_hash = 9; org_payment = pos 980; root_payment = 20 }

perform_payment-IsPaid_example :
    IsPaid true (λ w. 5000) (λ ts. ok 9) 20000 1000 (some 101) none (some 110) (some 100) performed
    × (performed.root_payment ≤ 1000)
unfolding perform_payment ◌-ℤ◌ round_div
perform_payment-IsPaid_example =
    perform_payment-IsPaid true (λ w. 5000) (λ ts. ok 9) 20000 1000 (some 101) none (some 110)
      (some 100) performed (omega arith) refl

abbrev world : World
world = record { users = users; orgs = acme ∷ []; members = members; sent = []; webhook_calls = [] }

-- Beta is a member of Acme, with 60 percent of its shares, and Alice one of Beta.
abbrev beta : Org
beta = record acme { id = 20; wallet = some 120; mint = some 220 }

abbrev nested_world : World
nested_world = record world {
  orgs = acme ∷ beta ∷ [];
  members =
      record alice_member { id = 24; user = none; org_user = some 20 }
      ∷ record alice_member { id = 25; org = 20 }
      ∷ [];
}

abbrev nested_balances : Option ℕ → Option ℕ → ℕ
nested_balances mint wallet =
    if same_option mint (some 210) && same_option wallet (some 120)
    then 60000000000
    else balances mint wallet

abbrev rank : ℕ → ℕ
rank i = if i == 10 then 1 else 0

handle_regular_payment_ends_example :
    (w' : World) × (handle_regular_payment nested_balances
        (λ i ps. true)
        2
        acme
        (pos 1000000)
        nested_world
      ≡ some w')
    × IsRanked rank w'.members
handle_regular_payment_ends_example =
    handle_regular_payment_ends rank nested_balances (λ i ps. true) 2 acme (pos 1000000)
      nested_world (omega arith) (omega arith, (tt, tt))

-- Acme is a holder of its own token.
abbrev circle_world : World
circle_world = record world { members = self_member ∷ [] }

circle_world-HasCircle : HasCircle (λ o. o ≡ acme) self_balances circle_world
unfolding holder_wallet
circle_world-HasCircle = λ o e.
    subst
      (λ x.
        (is_success x.mint_status ≡ true)
        × (x.settings.treasury ≤ 100000000)
        × Any (HoldsFrom (λ y. y ≡ acme) self_balances users (acme ∷ []) x) (self_member ∷ []))
      (sym e) (refl, omega arith, inl (refl, refl, (acme, refl, refl), refl))

handle_regular_payment_endless_example :
    handle_regular_payment self_balances (λ i ps. true) 5 acme (pos 1000000) circle_world ≡ none
handle_regular_payment_endless_example =
    handle_regular_payment_endless (λ o. o ≡ acme) self_balances (λ i ps. true) 5 acme (pos 1000000)
      circle_world refl (omega arith) circle_world-HasCircle
