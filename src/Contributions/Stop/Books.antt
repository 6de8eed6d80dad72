-- ===== src/Contributions/Stop/Books.antt =====
-- The books of the members under a booking of a split and its reversal.
use impact_wallet_server.Base.{ℕ, ◌≡◌, refl, ap, ◌∙◌, List, [], ◌∷◌, All}
use impact_wallet_server.Base.Int.{ℤ, ◌+ℤ◌, neg_ℤ, sum_by, int_laws}
use impact_wallet_server.Members.Schema.{Member}
use impact_wallet_server.Members.{update_contributed}
use impact_wallet_server.Members.Books.{
  update_comm, update_back, IsMember, IsMember-update, earned, sum-update,
}
use impact_wallet_server.Contributions.Schema.{ContributionSplit}
use impact_wallet_server.Contributions.Stop.{book, plus, total}

update-book :
    (i : ℕ) (a b : ℤ) (ps : List ContributionSplit) (ms : List Member)
    → update_contributed i a b (book plus ps ms) ≡ book plus ps (update_contributed i a b ms)
unfolding book
update-book i a b [] ms = refl
update-book i a b (p ∷ ps) ms =
    update-book i a b ps (update_contributed p.member p.duration p.amount ms)
    ∙ ap (book plus ps) (update_comm i p.member a b p.duration p.amount ms)

-- Booking the parts of a split with the opposite sign, in the same order, restores the members.
pub book-reverses :
    (ps : List ContributionSplit) (ms : List Member) → book neg_ℤ ps (book plus ps ms) ≡ ms
unfolding book
book-reverses [] ms = refl
book-reverses (p ∷ ps) ms =
    ap (book neg_ℤ ps) (
      update-book p.member (neg_ℤ p.duration) (neg_ℤ p.amount) ps
        (update_contributed p.member p.duration p.amount ms)
      ∙ ap (book plus ps) (update_back p.member p.duration p.amount ms))
    ∙ book-reverses ps ms

All-IsMember :
    (i : ℕ) (a b : ℤ) (ms : List Member) (ps : List ContributionSplit)
    → All (λ p. IsMember ms p.member) ps
    → All (λ p. IsMember (update_contributed i a b ms) p.member) ps
All-IsMember i a b ms [] h = tt
All-IsMember i a b ms (p ∷ ps) h =
    (IsMember-update i p.member a b ms h.0, All-IsMember i a b ms ps h.1)

-- A booking raises what the members have earned together by the sum of the split.
pub sum-book :
    (ps : List ContributionSplit) (ms : List Member)
    → All (λ p. IsMember ms p.member) ps
    → sum_by earned (book plus ps ms) ≡ sum_by earned ms +ℤ total ps
unfolding book
sum-book [] ms h = omega int_laws
sum-book (p ∷ ps) ms h =
    let ms' = update_contributed p.member p.duration p.amount ms in
    rw
      (
        sum-book ps ms' (All-IsMember p.member p.duration p.amount ms ps h.1),
        sum-update p.member p.duration p.amount ms h.0,
      )
      (omega int_laws)
