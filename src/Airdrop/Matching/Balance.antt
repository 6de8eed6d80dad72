-- ===== src/Airdrop/Matching/Balance.antt =====
-- The balance that `finalCalculations` checks against the wallet's balance on the chain.
use impact_wallet_server.Base.{
  ℕ, ◌≤◌, ◌≡◌, ◌≢◌, refl, sym, ◌∙◌, ap, false, List, [], ◌∷◌, ◌++◌, ◌==◌, arith, leb, Bool-cases,
  inl, inr, All, length,
}
use mathlib.Core.Path.{subst}
use impact_wallet_server.Base.Int.{
  ℤ, pos, ◌+ℤ◌, ◌-ℤ◌, int_laws, sum_by-append, pos_part, neg_part, +ℤ-zero, +ℤ_assoc,
}
use impact_wallet_server.Airdrop.Schema.{
  AirdropDto, TypeTransaction, debit, credit, unknown, result,
}
use impact_wallet_server.Airdrop.Matching.{
  Consumed, consume, consume_rest, is_earlier_credit, settle, settle_all, checked, keep_first,
  insert_by_date, sort_by_date, remaining, with_summary, final_calculations,
}
use impact_wallet_server.Airdrop.Matching.Conservation.{net, signed, signed_of, net-consume}

abbrev pub IsAfter : ℕ → AirdropDto → Type 0
IsAfter date x = date ≤ x.transaction_date

abbrev pub IsSorted : List AirdropDto → Type 0
IsSorted [] = Unit
IsSorted (t ∷ ts) = All (IsAfter t.transaction_date) ts × IsSorted ts

All-insert :
    (P : AirdropDto → Type 0) (t : AirdropDto) (ts : List AirdropDto)
    → P t
    → All P ts
    → All P (insert_by_date t ts)
unfolding insert_by_date
All-insert P t [] p h = (p, tt)
All-insert P t (x ∷ xs) p h = ground (arith, All-insert P t xs p h.1)

All-IsAfter : (d e : ℕ) (ts : List AirdropDto) → d ≤ e → All (IsAfter e) ts → All (IsAfter d) ts
All-IsAfter d e [] h k = tt
All-IsAfter d e (x ∷ xs) h k = (omega (arith, h, k.0), All-IsAfter d e xs h k.1)

insert_by_date-IsSorted :
    (t : AirdropDto) (ts : List AirdropDto) → IsSorted ts → IsSorted (insert_by_date t ts)
unfolding insert_by_date
insert_by_date-IsSorted t [] h = (tt, tt)
insert_by_date-IsSorted t (x ∷ xs) h =
    elim (Bool-cases (leb t.transaction_date x.transaction_date)) [
      | inl e ↦ rw e (
        ((ground arith), All-IsAfter t.transaction_date x.transaction_date xs (ground arith) h.0),
        h,
      )
      | inr e ↦ rw e (All-insert _ t xs (ground arith) h.0, insert_by_date-IsSorted t xs h.1)
    ]

pub sort_by_date-IsSorted : (ts : List AirdropDto) → IsSorted (sort_by_date ts)
unfolding sort_by_date
sort_by_date-IsSorted [] = tt
sort_by_date-IsSorted (t ∷ ts) =
    insert_by_date-IsSorted t (sort_by_date ts) (sort_by_date-IsSorted ts)

net-insert :
    (t : AirdropDto) (ts : List AirdropDto) → net (insert_by_date t ts) ≡ signed t +ℤ net ts
unfolding insert_by_date
net-insert t [] = refl
net-insert t (x ∷ xs) = elim (Bool-cases (leb t.transaction_date x.transaction_date)) [
  | inl e ↦ rw e refl
  | inr e ↦ rw (e, net-insert t xs) (omega int_laws)
]

pub net-sort : (ts : List AirdropDto) → net (sort_by_date ts) ≡ net ts
unfolding sort_by_date
net-sort [] = refl
net-sort (t ∷ ts) = net-insert t (sort_by_date ts) ∙ ap (λ n. signed t +ℤ n) (net-sort ts)

-- Behind a debit in date order there is no earlier credit.
consume_later :
    (date left : ℕ) (ts : List AirdropDto)
    → All (IsAfter date) ts
    → consume date left ts ≡ record { list = ts; left = left; stopped = false }
unfolding consume
consume_later date left [] h = refl
consume_later date left (p ∷ ps) h =
    let other : is_earlier_credit date p ≡ false = ground arith in
    rw other (ap (keep_first p) (consume_later date left ps h.1))

consume_rest_later :
    (date : ℕ) (c : Consumed) (ts : List AirdropDto)
    → All (IsAfter date) ts
    → ((consume_rest date c ts).list ≡ ts) × ((consume_rest date c ts).left ≡ c.left)
unfolding consume_rest
consume_rest_later date c ts h = elim (Bool-cases c.stopped) [
  | inl e ↦ rw e (refl, refl)
  | inr e ↦ rw (e, consume_later date c.left ts h) (refl, refl)
]

-- One round adds what the transaction counts for.
abbrev IsStep : AirdropDto → TypeTransaction → List AirdropDto → List AirdropDto → ℤ → Type 0
IsStep t k passed ahead b =
    ((settle t k passed ahead b).ahead ≡ ahead)
    × ((settle t k passed ahead b).balance ≡ b +ℤ signed_of k t.amount)
    × (net (settle t k passed ahead b).passed ≡ net passed +ℤ signed_of k t.amount)

net-append_one : (xs : List AirdropDto) (t : AirdropDto) → net (xs ++ t ∷ []) ≡ net xs +ℤ signed t
net-append_one xs t = sum_by-append signed xs (t ∷ []) ∙ ap (λ n. net xs +ℤ n) (+ℤ-zero (signed t))

debit_step :
    (n n' : ℤ) (a l l' : ℕ)
    → n' +ℤ pos a ≡ n +ℤ pos l
    → l' ≡ l
    → n' +ℤ (pos 0 -ℤ pos l') ≡ n +ℤ (pos 0 -ℤ pos a)
debit_step n n' a l l' h e = omega (int_laws, ap pos_part h, ap neg_part h)

settle-IsStep :
    (t : AirdropDto) (k : TypeTransaction) (passed ahead : List AirdropDto) (b : ℤ)
    → t.type_transaction ≡ k
    → All (IsAfter t.transaction_date) ahead
    → IsStep t k passed ahead b
unfolding settle
settle-IsStep t credit passed ahead b e h =
    (refl, refl, rw (net-append_one passed (checked (b +ℤ pos t.amount) t), e) refl)
settle-IsStep t debit passed ahead b e h =
    let c : Consumed = consume t.transaction_date t.amount passed in
    let (same, left) = consume_rest_later t.transaction_date c ahead h in
    (
      same,
      omega int_laws,
      rw (net-append_one c.list _, e)
          (debit_step (net passed) (net c.list) t.amount c.left _
            (net-consume t.transaction_date t.amount passed) left),
    )
settle-IsStep t unknown passed ahead b e h =
    (refl, sym (+ℤ-zero b), rw (net-append_one passed (checked b t), e) refl)
settle-IsStep t result passed ahead b e h =
    (refl, sym (+ℤ-zero b), rw (net-append_one passed (checked b t), e) refl)

IsBalanced : List AirdropDto → List AirdropDto → ℤ → List AirdropDto × ℤ → Type 0
IsBalanced passed ahead b r = (r.1 ≡ b +ℤ net ahead) × (net r.0 ≡ net passed +ℤ net ahead)

settle_all-IsBalanced :
    (passed ahead : List AirdropDto) (b : ℤ)
    → IsSorted ahead
    → IsBalanced passed ahead b (settle_all (length ahead) passed ahead b)
unfolding settle_all IsBalanced
settle_all-IsBalanced passed [] b h = (sym (+ℤ-zero b), sum_by-append signed passed [])
settle_all-IsBalanced passed (t ∷ ahead) b h =
    let (e, eb, en) = settle-IsStep t t.type_transaction passed ahead b refl h.0 in
    let s = settle t t.type_transaction passed ahead b in
    let (rb, rn) = settle_all-IsBalanced s.passed ahead s.balance h.1 in
    subst (λ x. IsBalanced passed (t ∷ ahead) b (settle_all (length ahead) s.passed x s.balance))
      (sym e)
      (
        rb ∙ ap (λ x. x +ℤ net ahead) eb ∙ +ℤ_assoc b (signed t) (net ahead),
        rn ∙ ap (λ x. x +ℤ net ahead) en ∙ +ℤ_assoc (net passed) (signed t) (net ahead),
      )

empty_step : (k : TypeTransaction) (a : ℕ) (n : ℤ) → a ≡ 0 → n ≡ signed_of k a +ℤ n
empty_step credit a n e = omega int_laws
empty_step debit a n e = omega int_laws
empty_step unknown a n e = omega int_laws
empty_step result a n e = omega int_laws

-- A transaction whose amount is used up counts for nothing.
net-remaining : (ts : List AirdropDto) → net (remaining ts) ≡ net ts
net-remaining [] = refl
net-remaining (t ∷ ts) = elim (Bool-cases (t.amount == 0)) [
  | inl e ↦ rw e (net-remaining ts ∙ empty_step t.type_transaction t.amount (net ts) (ground arith))
  | inr e ↦ rw e (ap (λ n. signed t +ℤ n) (net-remaining ts))
]

abbrev settled : List AirdropDto → List AirdropDto × ℤ
settled ts = settle_all (length (sort_by_date ts)) [] (sort_by_date ts) (pos 0)

zero_left : (a b : ℤ) → a ≡ pos 0 +ℤ b → a ≡ b
zero_left a b h = omega (int_laws, ap pos_part h, ap neg_part h)

-- The two loops on the sorted transactions.
settled-balance : (ts : List AirdropDto) → ((settled ts).1 ≡ net ts) × (net (settled ts).0 ≡ net ts)
unfolding IsBalanced
settled-balance ts =
    let (b, n) = settle_all-IsBalanced [] (sort_by_date ts) (pos 0) (sort_by_date-IsSorted ts) in
    (zero_left _ _ b ∙ net-sort ts, zero_left _ _ n ∙ net-sort ts)

remaining-nonzero : (ts : List AirdropDto) → All (λ t. t.amount ≢ 0) (remaining ts)
remaining-nonzero [] = tt
remaining-nonzero (t ∷ ts) = ground (arith, remaining-nonzero ts)

-- The transactions that `finalCalculations` keeps of a wallet's are those that are left with an
-- amount, their credits less their debits are the credits less the debits of all that it was given,
-- and the summary that it adds behind them carries that balance.
pub final_calculations-balance :
    (ts : List AirdropDto)
    → (kept : List AirdropDto) × (final_calculations ts ≡ with_summary kept (net ts))
      × (net kept ≡ net ts)
      × All (λ t. t.amount ≢ 0) kept
unfolding final_calculations
final_calculations-balance ts = (
  remaining (settled ts).0,
  ap (with_summary (remaining (settled ts).0)) (settled-balance ts).0,
  net-remaining (settled ts).0 ∙ (settled-balance ts).1,
  remaining-nonzero (settled ts).0,
)
