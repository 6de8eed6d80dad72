-- ===== src/Contributions/Stop/Split.antt =====
-- The split of a stopped contribution adds up, and the books with it.
use impact_wallet_server.Base.{
  ℕ, ◌≡◌, refl, sym, ap, ◌∙◌, not, none, some, List, [], ◌∷◌, ◌++◌, ◌==◌, arith, find, Bool-cases,
  inl, inr, All, All-append, is_nil, is_nil→none, ◌&&◌,
}
use mathlib.Core.Path.{subst}
use impact_wallet_server.Base.Int.{ℤ, pos, ◌+ℤ◌, ◌-ℤ◌, sum_by, sum_by-append, int_laws}
use impact_wallet_server.Base.Http.{
  ok, or_throw, throw_if, throw_if-ok, ok_inj, >>=-eq-ok, type_error, or_throw-ok,
}
use impact_wallet_server.Members.Schema.{Member, is_investor}
use impact_wallet_server.Members.{has_id}
use impact_wallet_server.Orgs.Mint.{update_minted_amount}
use impact_wallet_server.Users.Schema.{User}
use impact_wallet_server.Payment.Split.{populated_user}
use impact_wallet_server.Contributions.Schema.{Contribution, ContributionSplit, Store}
use impact_wallet_server.Contributions.Stop.{
  book, plus, total, amount_of, receiver, receivers, investors_of, own_part, Earner, earner,
  lamports_of, is_contribution, stop_in_transaction, write_stopped, save_contribution,
}
use impact_wallet_server.Contributions.Stop.Books.{sum-book}
use impact_wallet_server.Members.Books.{
  IsMember, IsMember-self, IsMember-cons, earned, find-IsMember,
}

All-IsMember-cons :
    (m : Member) (ms is : List Member)
    → All (λ i. IsMember ms i.id) is
    → All (λ i. IsMember (m ∷ ms) i.id) is
All-IsMember-cons m ms [] h = tt
All-IsMember-cons m ms (i ∷ is) h = (IsMember-cons m ms i.id h.0, All-IsMember-cons m ms is h.1)

investors-IsMember :
    (org_id : ℕ) (ms : List Member) → All (λ i. IsMember ms i.id) (investors_of org_id ms)
investors-IsMember org_id [] = tt
investors-IsMember org_id (m ∷ ms) =
    let rest = All-IsMember-cons m ms (investors_of org_id ms) (investors-IsMember org_id ms) in
    elim (Bool-cases ((m.org == org_id) && is_investor m.role)) [
      | inl e ↦ rw e (IsMember-self m ms, rest)
      | inr e ↦ rw e rest
    ]

receiver-member :
    (users : List User) (l : ℤ) (i : Member) {r : ContributionSplit}
    → receiver users l i ≡ ok r
    → r.member ≡ i.id
unfolding receiver
receiver-member users l i {r} h =
    let (settings, _, h1) = >>=-eq-ok (or_throw i.investor_settings type_error) _ h in
    let (u, _, h2) = >>=-eq-ok (or_throw (populated_user users i) type_error) _ h1 in
    ap (λ x. x.member) (sym (ok_inj h2))

receivers-IsMember :
    (users : List User) (l : ℤ) (ms is : List Member) {rs : List ContributionSplit}
    → All (λ i. IsMember ms i.id) is
    → receivers users l is ≡ ok rs
    → All (λ p. IsMember ms p.member) rs
unfolding receivers
receivers-IsMember users l ms [] {rs} a h = subst (All _) (ok_inj h) tt
receivers-IsMember users l ms (i ∷ is) {rs} a h =
    let (r, e, h1) = >>=-eq-ok (receiver users l i) _ h in
    let (rs', e', h2) = >>=-eq-ok (receivers users l is) _ h1 in
    subst (All _) (ok_inj h2) (
      subst (IsMember ms) (sym (receiver-member users l i e)) a.0,
      receivers-IsMember users l ms is a.1 e',
    )

-- What a stop writes: the contribution with its split, and the books.
abbrev pub IsStopped : ℕ → ℕ → Store → Contribution → Store → Contribution → Type 0
IsStopped org_id now s c s' c' =
    (c'.stopped_at ≡ some now)
    × (c'.lamports_earned ≡ lamports_of (pos now -ℤ pos c.created_at) c.impact_ratio)
    × (total c'.split ≡ c'.lamports_earned)
    × (sum_by earned s'.members ≡ sum_by earned s.members +ℤ c'.lamports_earned)
    × (s'.orgs ≡ update_minted_amount org_id c'.lamports_earned s.orgs)
    × (s'.members ≡ book plus c'.split s.members)
    × (s'.contributions ≡ save_contribution c' s.contributions)

rest_lem : (t l : ℤ) → t +ℤ (l -ℤ t +ℤ pos 0) ≡ l
rest_lem t l = omega int_laws

total_split :
    (rs : List ContributionSplit) (own : ContributionSplit) (l : ℤ)
    → own.amount ≡ l -ℤ total rs
    → total (rs ++ own ∷ []) ≡ l
total_split rs own l e =
    sum_by-append amount_of rs (own ∷ [])
    ∙ ap (λ a. total rs +ℤ (a +ℤ pos 0)) e
    ∙ rest_lem (total rs) l

write_stopped-IsStopped :
    (org_id now : ℕ) (m : Member) (e : Earner) (c : Contribution) (s s' : Store) (c' : Contribution)
    → IsMember s.members m.id
    → write_stopped org_id now m e c s ≡ ok (s', c')
    → IsStopped org_id now s c s' c'
unfolding write_stopped
write_stopped-IsStopped org_id now m e c s s' c' here h =
    let elapsed = pos now -ℤ pos c.created_at in
    let l = lamports_of elapsed c.impact_ratio in
    let (rs, r, h1) = >>=-eq-ok (receivers s.users l (investors_of org_id s.members)) _ h in
    let own = own_part m.id e (l -ℤ total rs) elapsed in
    let sum = total_split rs own l refl in
    let there =
      receivers-IsMember s.users l s.members (investors_of org_id s.members)
        (investors-IsMember org_id s.members) r in
    let booked =
      sum-book (rs ++ own ∷ []) s.members (All-append _ rs (own ∷ []) there (here, tt)) in
    subst (λ x. IsStopped org_id now s c x.0 x.1) (ok_inj h1)
      (refl, refl, sum, booked ∙ ap (λ x. sum_by earned s.members +ℤ x) sum, refl, refl, refl)

-- Stopping a contribution that is not stopped yet sets its time and what it earned; the parts of the
-- split, the investors' rounded ones and the member's, add up to exactly what it earned; the members
-- together have earned that much more, and as much more is booked as minted.
pub stop_in_transaction-IsStopped :
    (org_id contribution_id account now : ℕ) (s s' : Store) (c' : Contribution)
    → stop_in_transaction org_id contribution_id account now s ≡ ok (s', c')
    → (c : Contribution) × (find (is_contribution contribution_id org_id) s.contributions ≡ some c)
      × (c.stopped_at ≡ none)
      × IsStopped org_id now s c s' c'
unfolding stop_in_transaction
stop_in_transaction-IsStopped org_id contribution_id account now s s' c' h =
    let (c, found, h1) =
      >>=-eq-ok (or_throw (find (is_contribution contribution_id org_id) s.contributions) _) _ h in
    let (_, going, h2) = >>=-eq-ok (throw_if (not (is_nil c.stopped_at)) _) _ h1 in
    let (m, fm, h3) = >>=-eq-ok (or_throw (find (has_id c.member) s.members) type_error) _ h2 in
    let (e, _, h4) = >>=-eq-ok (earner s.users s.orgs m) _ h3 in
    let (_, _, h5) = >>=-eq-ok (throw_if (not (account == e.account)) _) _ h4 in
    let going' = throw_if-ok (not (is_nil c.stopped_at)) _ going in
    (
      c,
      or_throw-ok (find (is_contribution contribution_id org_id) s.contributions) _ found,
      is_nil→none c.stopped_at (ground (arith, going')),
      write_stopped-IsStopped org_id now m e c s s' c'
          (find-IsMember (has_id c.member) s.members
            (or_throw-ok (find (has_id c.member) s.members) _ fm))
          h5,
    )
