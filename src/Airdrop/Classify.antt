-- ===== src/Airdrop/Classify.antt =====
-- `calculate` (src/airdrop/airdrop.service.ts): how a transaction of the chain becomes an entry of the
-- wallet, from the token balance before and after it, and that the entries add up to the change of
-- the balance.
use impact_wallet_server.Base.{
  ℕ, ◌-◌, ◌<◌, ◌≡◌, sym, ap, ◌∙◌, Option, none, some, List, [], ◌∷◌, ltb, if◌then◌else◌, arith,
  Bool-cases, Option-cases, inl, inr,
}
use impact_wallet_server.Base.Int.{ℤ, pos, ◌+ℤ◌, ◌-ℤ◌, int_laws, pos_part, neg_part, sum_by}
use impact_wallet_server.Airdrop.Schema.{TypeTransaction, debit, credit, unknown}
use impact_wallet_server.Airdrop.Matching.Conservation.{signed_of}

-- `preTokenBalance` and `postTokenBalance` of the wallet
pub record TokenBalances : Type 0 where
  pub pre : Option ℕ
  pub post : Option ℕ

-- The entry's type and amount.
pub record Entry : Type 0 where
  pub type_transaction : TypeTransaction
  pub amount : ℕ

abbrev pub entry : TypeTransaction → ℕ → Entry
entry k a = record { type_transaction = k; amount = a }

abbrev pub changed : ℕ → ℕ → Entry
changed pre post =
    if ltb pre post
    then entry credit (post - pre)
    else if ltb post pre
    then entry debit (pre - post)
    else entry unknown 0

-- A transaction without a balance after it is passed over.
unfoldable pub classify : TokenBalances → Option Entry
classify b = elim b.post [
  | none ↦ none
  | some post ↦ elim b.pre [ none ↦ some (entry credit post) | some pre ↦ some (changed pre post) ]
]

-- What an entry counts for.
abbrev pub counted : Option Entry → ℤ
counted none = pos 0
counted (some e) = signed_of e.type_transaction e.amount

abbrev pub balance_of : Option ℕ → ℕ
balance_of none = 0
balance_of (some n) = n

-- The transactions follow each other: each has a balance after it, and starts with the one before.
abbrev pub Follows : ℕ → List TokenBalances → Type 0
Follows n [] = Unit
Follows n (b ∷ bs) = (balance_of b.pre ≡ n) × ((m : ℕ) × (b.post ≡ some m) × Follows m bs)

abbrev pub last_balance : ℕ → List TokenBalances → ℕ
last_balance n [] = n
last_balance n (b ∷ bs) = last_balance (balance_of b.post) bs

up_lem : (pre post : ℕ) → pre < post → pos (post - pre) ≡ pos post -ℤ pos pre
up_lem pre post h = omega int_laws

down_lem : (pre post : ℕ) → post < pre → pos 0 -ℤ pos (pre - post) ≡ pos post -ℤ pos pre
down_lem pre post h = omega int_laws

same_lem : (pre post : ℕ) → pre ≡ post → pos 0 ≡ pos post -ℤ pos pre
same_lem pre post h = omega int_laws

zero_sub : (m : ℕ) → pos m ≡ pos m -ℤ pos 0
zero_sub m = omega int_laws

telescope : (n m l : ℕ) (s : ℤ) → s ≡ pos l -ℤ pos m → pos m -ℤ pos n +ℤ s ≡ pos l -ℤ pos n
telescope n m l s h = omega (int_laws, ap pos_part h, ap neg_part h)

changed_lem : (pre post : ℕ) → counted (some (changed pre post)) ≡ pos post -ℤ pos pre
changed_lem pre post = elim (Bool-cases (ltb pre post)) [
  | inl up ↦ rw up (up_lem pre post (ground arith))
  | inr not_up ↦ elim (Bool-cases (ltb post pre)) [
    | inl down ↦ rw (not_up, down) (down_lem pre post (ground arith))
    | inr same ↦ rw (not_up, same) (same_lem pre post (ground arith))
  ]
]

-- The entry of a transaction counts for the change of the balance.
classify_lem :
    (b : TokenBalances) (m : ℕ)
    → b.post ≡ some m
    → counted (classify b) ≡ pos m -ℤ pos (balance_of b.pre)
unfolding classify
classify_lem b m e = elim (Option-cases b.pre) [
  | inl n ↦ rw (e, classify, n) (zero_sub m)
  | inr (pre, k) ↦ rw (e, classify, k) (changed_lem pre m)
]

-- Where each transaction starts with the balance that the one before has left, the credits less the
-- debits of the entries are the last balance less the first.
classify-telescopes :
    (n : ℕ) (bs : List TokenBalances)
    → Follows n bs
    → sum_by (λ b. counted (classify b)) bs ≡ pos (last_balance n bs) -ℤ pos n
classify-telescopes n [] h = omega int_laws
classify-telescopes n (b ∷ bs) (start, (m, e, h)) =
    let first : counted (classify b) ≡ pos m -ℤ pos n =
      classify_lem b m e ∙ ap (λ x. pos m -ℤ pos x) start in
    ap (λ x. x +ℤ sum_by (λ b. counted (classify b)) bs) first
    ∙ telescope n m (last_balance m bs) _ (classify-telescopes m bs h)
    ∙ ap (λ x. pos (last_balance (balance_of x) bs) -ℤ pos n) (sym e)
