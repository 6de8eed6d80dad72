-- ===== src/Payment/Split/Profits.antt =====
-- What the loop over the holders books as the members' profit.
use impact_wallet_server.Base.{
  ℕ, ◌≡◌, ◌≢◌, refl, ◌∙◌, Bool, Option, some, List, [], ◌∷◌, arith, ◌==◌, Bool-cases, inl, inr, All,
  All-map, All-filter, find, filter,
}
use impact_wallet_server.Base.Int.{
  ℤ, pos, ◌+ℤ◌, ◌-ℤ◌, int_laws, sum_by, balance_trans, add_of_balance,
}
use impact_wallet_server.Members.Schema.{Member}
use impact_wallet_server.Members.{has_id}
use impact_wallet_server.Orgs.Schema.{Org}
use impact_wallet_server.Users.Schema.{User}
use impact_wallet_server.Payment.Split.{
  SplitState, split_start, record_payout, pay_holders, profit_calculation_and_save, holder_wallet,
  holders_of,
}
use impact_wallet_server.Payment.Split.Holders.{
  IsWithin, payout_amount, pay_holder_lem, amount_due, pay_holders-cons, record_payout-IsWithin,
  split_start-IsWithin, min_nonneg, min_le,
}

abbrev pub member_profit : Member → ℤ
member_profit m = m.profit

-- The documents have different ids.
abbrev pub HasDistinctIds : List Member → Type 0
HasDistinctIds [] = Unit
HasDistinctIds (m ∷ ms) = All (λ k. m.id ≢ k.id) ms × HasDistinctIds ms

-- The collection holds the profit that the document was read with.
abbrev IsCurrent : List Member → Member → Type 0
IsCurrent ms h = (m : Member) × (find (has_id h.id) ms ≡ some m) × (m.profit ≡ h.profit)

sum-profit_save :
    (h m : Member) (a : ℤ) (ms : List Member)
    → find (has_id h.id) ms ≡ some m
    → m.profit ≡ h.profit
    → sum_by member_profit (profit_calculation_and_save h a ms) ≡ sum_by member_profit ms +ℤ a
unfolding profit_calculation_and_save
sum-profit_save h m a [] e p = cc
sum-profit_save h m a (x ∷ ms) e p = grind (int_laws, sum-profit_save h m a ms)

find-profit_save :
    (h : Member) (a : ℤ) (j : ℕ) (ms : List Member)
    → h.id ≢ j
    → find (has_id j) (profit_calculation_and_save h a ms) ≡ find (has_id j) ms
unfolding profit_calculation_and_save
find-profit_save h a j [] ne = refl
find-profit_save h a j (x ∷ ms) ne = ground (arith, find-profit_save h a j ms ne)

IsCurrent-profit_save :
    (h : Member) (a : ℤ) (ms : List Member) (k : Member)
    → h.id ≢ k.id
    → IsCurrent ms k
    → IsCurrent (profit_calculation_and_save h a ms) k
IsCurrent-profit_save h a ms k ne (m, e, p) = (m, find-profit_save h a k.id ms ne ∙ e, p)

All-And : (P Q : Member → Type 0) (ms : List Member) → All P ms → All Q ms → All (λ m. P m × Q m) ms
All-And P Q [] h k = tt
All-And P Q (m ∷ ms) h k = ((h.0, k.0), All-And P Q ms h.1 k.1)

IsCurrent-cons :
    (m : Member) (ms : List Member) (k : Member)
    → m.id ≢ k.id
    → IsCurrent ms k
    → IsCurrent (m ∷ ms) k
IsCurrent-cons m ms k ne (x, e, p) = (x, ground arith, p)

IsCurrent-self : (m : Member) (ms : List Member) → IsCurrent (m ∷ ms) m
IsCurrent-self m ms = (m, ground arith, refl)

-- With distinct ids every document is found under its id.
IsCurrent-All : (ms : List Member) → HasDistinctIds ms → All (IsCurrent ms) ms
IsCurrent-All [] d = tt
IsCurrent-All (m ∷ ms) d = (
  IsCurrent-self m ms,
  All-map _ (IsCurrent (m ∷ ms)) (λ k t. IsCurrent-cons m ms k t.0 t.1) ms
      (All-And _ _ ms d.0 (IsCurrent-All ms d.1)),
)

HasDistinctIds-filter :
    (p : Member → Bool) (ms : List Member) → HasDistinctIds ms → HasDistinctIds (filter p ms)
HasDistinctIds-filter p [] d = tt
HasDistinctIds-filter p (m ∷ ms) d =
    ground (arith, All-filter (λ k. m.id ≢ k.id) p ms d.0, HasDistinctIds-filter p ms d.1)

module _ (token_balance : Option ℕ → Option ℕ → ℕ) (users : List User) (orgs : List Org) where
  -- How far a round has come: the profits have grown by what the payments have.
  abbrev Booked : ℕ → SplitState → SplitState → Type 0
  Booked total s s' =
      IsWithin total s'
      × (sum_by member_profit s'.members +ℤ s.accumulated
          ≡ sum_by member_profit s.members +ℤ s'.accumulated)

  record_payout-Booked :
      (mint : Option ℕ) (total : ℕ) (h m : Member) (s : SplitState)
      → find (has_id h.id) s.members ≡ some m
      → m.profit ≡ h.profit
      → IsWithin total s
      → Booked total s
          (record_payout users orgs h (amount_due token_balance users orgs mint total h s) s)
  unfolding record_payout
  record_payout-Booked mint total h m s e p w = (
    record_payout-IsWithin token_balance users orgs total h
        (amount_due token_balance users orgs mint total h s) s w
        (min_nonneg _ (pos total -ℤ s.accumulated) (omega (int_laws, w.within)))
        (min_le _ (pos total -ℤ s.accumulated)),
    rw (sum-profit_save h m (amount_due token_balance users orgs mint total h s) s.members e p)
        (omega int_laws),
  )

  pay_holders-Booked :
      (mint : Option ℕ) (total : ℕ) (hs : List Member) (s : SplitState)
      → HasDistinctIds hs
      → All (IsCurrent s.members) hs
      → IsWithin total s
      → (s' : SplitState) × (pay_holders token_balance users orgs mint total hs s ≡ some s')
        × Booked total s s'
  unfolding pay_holders record_payout
  pay_holders-Booked mint total [] s d c w = (s, refl, (w, refl))
  pay_holders-Booked mint total (h ∷ hs) s d ((m, e, p), c) w =
      elim (Bool-cases (token_balance mint (holder_wallet users orgs h) == 0)) [
        | inl zero_balance ↦
            let (s', paid, b) = pay_holders-Booked mint total hs s d.1 c w in
            (
              s',
              pay_holders-cons token_balance users orgs mint total h hs s s
                    (rw (pay_holder_lem token_balance users orgs mint total h s, zero_balance) refl)
                  ∙ paid,
              b,
            )
        | inr positive ↦
            let a = amount_due token_balance users orgs mint total h s in
            let next = record_payout users orgs h a s in
            let here = record_payout-Booked mint total h m s e p w in
            let current =
              All-map _ (IsCurrent next.members)
                (λ k t. IsCurrent-profit_save h a s.members k t.0 t.1) hs (All-And _ _ hs d.0 c) in
            let (s', paid, b) = pay_holders-Booked mint total hs next d.1 current here.0 in
            (
              s',
              pay_holders-cons token_balance users orgs mint total h hs s next
                    (rw (pay_holder_lem token_balance users orgs mint total h s, positive) refl)
                  ∙ paid,
              (
                b.0,
                balance_trans _ (sum_by member_profit next.members) _ _ next.accumulated _ here.1
                    b.1,
              ),
            )
      ]

  -- Members of distinct ids who are paid in one split: the split ends, and the sum of all members'
  -- profits grows by exactly the sum of the payments.
  split_books_profits :
      (mint : Option ℕ) (total : ℕ) (org_id : ℕ) (ms : List Member)
      → HasDistinctIds ms
      → (s : SplitState) × (pay_holders token_balance users orgs mint total
            (holders_of org_id ms)
            (split_start ms)
          ≡ some s)
        × (sum_by member_profit s.members
            ≡ sum_by member_profit ms +ℤ sum_by payout_amount s.members_with_amount)
  split_books_profits mint total org_id ms d =
      let (s, paid, b) =
        pay_holders-Booked mint total (holders_of org_id ms) (split_start ms)
          (HasDistinctIds-filter (λ m. m.org == org_id) ms d)
          (All-filter (IsCurrent ms) (λ m. m.org == org_id) ms (IsCurrent-All ms d))
          (split_start-IsWithin total ms) in
      (s, paid, rw (← b.0.counted) (add_of_balance _ _ _ b.1))
