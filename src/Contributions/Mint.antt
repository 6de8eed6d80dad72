-- ===== src/Contributions/Mint.antt =====
-- `mintAndConfirmWithRetryAndReverse`: the mint of a stopped contribution, and the reversal of its
-- books where the mint throws. Minting and confirming are parameters.
use impact_wallet_server.Members.Schema.{Member}
use impact_wallet_server.Base.{
  ℕ, not, ◌==◌, ◌≡◌, refl, ap, ◌∙◌, Bool, true, false, Option, some, List, [], ◌∷◌, is_nil, ◌&&◌,
  if◌then◌else◌, Bool-cases, inl, inr, map,
}
use impact_wallet_server.Base.Int.{ℤ, pos, neg_ℤ, +ℤ-neg_ℤ}
use impact_wallet_server.Base.Http.{
  Error, Result, ok, err, ◌>>=◌, thrown_undefined, type_error, message_of,
}
use impact_wallet_server.Orgs.Schema.{Org}
use impact_wallet_server.Orgs.Mint.{update_minted_amount}
use impact_wallet_server.Contributions.Schema.{
  Contribution, ContributionSplit, Store, confirmed, reverted,
}
use impact_wallet_server.Contributions.Stop.{book, save_contribution, stop_in_transaction}
use impact_wallet_server.Contributions.Stop.Books.{book-reverses}
use impact_wallet_server.Contributions.Stop.Split.{stop_in_transaction-IsStopped}

-- `member.user.nickname` of every part can be read
abbrev pub all_have_users : List ContributionSplit → Bool
all_have_users [] = true
all_have_users (p ∷ ps) = not (is_nil p.user) && all_have_users ps

abbrev pub is_undefined : Error → Bool
is_undefined thrown_undefined = true
is_undefined _ = false

abbrev pub with_hash : ℕ → Contribution → Contribution
with_hash hash c = record c { txn_hash = some hash }

abbrev pub as_confirmed : Contribution → Contribution
as_confirmed c = record c { txn_status = some confirmed }

abbrev pub as_reverted : Error → Contribution → Contribution
as_reverted e c = record c { txn_error = message_of e; txn_status = some reverted }

-- The transaction that takes the books back, and the save behind it.
unfoldable pub reverse : Org → Error → Contribution → Store → Store
unfolding book update_minted_amount
reverse org e c s = record s {
  members = book neg_ℤ c.split s.members;
  orgs = update_minted_amount org.id (neg_ℤ c.lamports_earned) s.orgs;
  contributions = save_contribution (as_reverted e c) s.contributions;
}

-- The `catch` block: reading the message of `undefined` throws again, out of the function.
unfoldable pub catch_mint : Org → Error → Contribution → Store → Store × Result (Unit {0})
unfolding reverse
catch_mint org e c s = if is_undefined e then (s, err type_error) else (reverse org e c s, ok tt)

-- `mint_tokens mint split` mints, `confirm hash` is `confirmTxnWithRetry`.
module _ (mint_tokens : Option ℕ → List ContributionSplit → Result ℕ) (confirm : ℕ → Result ℕ) where
  unfoldable pub mint_and_confirm : Org → Contribution → Store → Store × Result (Unit {0})
  unfolding catch_mint
  mint_and_confirm org c s = elim (mint_tokens org.mint c.split >>= confirm) [
    | err e ↦ catch_mint org e c s
    | ok hash ↦
        if all_have_users c.split
        then (
          record s {
            contributions = save_contribution (as_confirmed (with_hash hash c)) s.contributions;
          },
          ok tt,
        )
        else catch_mint org type_error (with_hash hash c) s
  ]

update-minted_back :
    (i : ℕ) (a : ℤ) (orgs : List Org)
    → update_minted_amount i (neg_ℤ a) (update_minted_amount i a orgs) ≡ orgs
unfolding update_minted_amount
update-minted_back i a [] = refl
update-minted_back i a (o ∷ os) = elim (Bool-cases (o.id == i)) [
  | inl e ↦
      rw (e, e) (ap (λ x. record o { lamports_minted = x } ∷ os) (+ℤ-neg_ℤ o.lamports_minted a))
  | inr e ↦ rw (e, e) (ap (λ xs. o ∷ xs) (update-minted_back i a os))
]

-- A member but for its hours, whose sums are rounded.
abbrev pub without_hours : Member → Member
without_hours m = record m { contributed = pos 0 }

-- Where minting or confirming a contribution that has just been stopped throws an error other than
-- `undefined`, all fields of the members but the hours that they have contributed, so the shares that
-- they have earned, and the organizations with the amounts that are minted, are again as before the stop.
pub mint_and_confirm-restores :
    (mint_tokens : Option ℕ → List ContributionSplit → Result ℕ) (confirm : ℕ → Result ℕ)
    (org : Org) (contribution_id account now : ℕ) (s s1 : Store) (c : Contribution) (e : Error)
    → stop_in_transaction org.id contribution_id account now s ≡ ok (s1, c)
    → (mint_tokens org.mint c.split >>= confirm) ≡ err e
    → is_undefined e ≡ false
    → let s2 : Store = (mint_and_confirm mint_tokens confirm org c s1).0 in
      (map without_hours s2.members ≡ map without_hours s.members) × (s2.orgs ≡ s.orgs)
unfolding mint_and_confirm catch_mint reverse
mint_and_confirm-restores mint_tokens confirm org i account now s s1 c e h f u =
    let (c0, _, _, st) = stop_in_transaction-IsStopped org.id i account now s s1 c h in
    let (_, _, _, _, os, ms, _) = st in
    rw (f, mint_and_confirm, u)
      (
        ap (map without_hours) (ap (book neg_ℤ c.split) ms ∙ book-reverses c.split s.members),
        ap (update_minted_amount org.id (neg_ℤ c.lamports_earned)) os
            ∙ update-minted_back org.id c.lamports_earned s.orgs,
      )

-- Where minting and confirming a contribution that has just been stopped succeed, but a part of its
-- split belongs to a member that is no user, the members and the organizations are nevertheless as
-- before the stop.
mint_and_confirm-forgets :
    (mint_tokens : Option ℕ → List ContributionSplit → Result ℕ) (confirm : ℕ → Result ℕ)
    (org : Org) (contribution_id account now : ℕ) (s s1 : Store) (c : Contribution) (hash : ℕ)
    → stop_in_transaction org.id contribution_id account now s ≡ ok (s1, c)
    → (mint_tokens org.mint c.split >>= confirm) ≡ ok hash
    → all_have_users c.split ≡ false
    → let s2 : Store = (mint_and_confirm mint_tokens confirm org c s1).0 in
      (s2.members ≡ s.members) × (s2.orgs ≡ s.orgs)
unfolding mint_and_confirm catch_mint reverse
mint_and_confirm-forgets mint_tokens confirm org i account now s s1 c hash h f u =
    let (c0, _, _, st) = stop_in_transaction-IsStopped org.id i account now s s1 c h in
    let (_, _, _, _, os, ms, _) = st in
    rw (f, mint_and_confirm, u)
      (
        ap (book neg_ℤ c.split) ms ∙ book-reverses c.split s.members,
        ap (update_minted_amount org.id (neg_ℤ c.lamports_earned)) os
            ∙ update-minted_back org.id c.lamports_earned s.orgs,
      )
