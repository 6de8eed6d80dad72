-- ===== src/Airdrop/Matching.antt =====
-- `finalCalculations` (src/airdrop/airdrop.service.ts): the debits of a wallet use up its earlier
-- credits, first in first out, and the rest is weighted by the days it was held.
pub mod Conservation
pub mod Balance
use impact_wallet_server.Base.{
  ℕ, zero, suc, ◌+◌, ◌-◌, ◌*◌, ◌≡◌, String, Bool, true, false, not, Option, none, some, List, [],
  ◌∷◌, ◌++◌, ◌==◌, ◌&&◌, if◌then◌else◌, ltb, leb, length, filter,
}
use impact_wallet_server.Base.Int.{ℤ, pos, ◌+ℤ◌, ◌-ℤ◌, eqb_ℤ}
use impact_wallet_server.Airdrop.Schema.{
  AirdropDto, TypeTransaction, debit, credit, unknown, result, is_credit,
}

-- `transactions.sort((a, b) => a.transactionDate - b.transactionDate)`, which is stable
unfoldable pub insert_by_date : AirdropDto → List AirdropDto → List AirdropDto
insert_by_date t [] = t ∷ []
insert_by_date t (x ∷ xs) =
    if leb t.transaction_date x.transaction_date then t ∷ x ∷ xs else x ∷ insert_by_date t xs

unfoldable pub sort_by_date : List AirdropDto → List AirdropDto
unfolding insert_by_date
sort_by_date [] = []
sort_by_date (t ∷ ts) = insert_by_date t (sort_by_date ts)

-- The inner loop: the list as it leaves it, what is left of the debit, and whether it met `break`.
pub record Consumed : Type 0 where
  pub list : List AirdropDto
  pub left : ℕ
  pub stopped : Bool

abbrev pub with_amount : ℕ → AirdropDto → AirdropDto
with_amount a t = record t { amount = a }

-- `prevTransaction` is an earlier credit
abbrev pub is_earlier_credit : ℕ → AirdropDto → Bool
is_earlier_credit date p = is_credit p.type_transaction && ltb p.transaction_date date

abbrev pub keep_first : AirdropDto → Consumed → Consumed
keep_first p c = record c { list = p ∷ c.list }

unfoldable pub consume : ℕ → ℕ → List AirdropDto → Consumed
consume date left [] = record { list = []; left = left; stopped = false }
consume date left (p ∷ ps) =
    let later = keep_first p (consume date left ps) in
    let used_up = keep_first (with_amount 0 p) (consume date (left - p.amount) ps) in
    let covered : Consumed = record {
      list = with_amount (p.amount - left) p ∷ ps;
      left = 0;
      stopped = true;
    } in
    if is_earlier_credit date p then if leb left p.amount then covered else used_up else later

-- The inner loop goes on behind the debit itself, which is no credit.
unfoldable pub consume_rest : ℕ → Consumed → List AirdropDto → Consumed
unfolding consume
consume_rest date c ts =
    if c.stopped
    then record { list = ts; left = c.left; stopped = true }
    else consume date c.left ts

abbrev pub checked : ℤ → AirdropDto → AirdropDto
checked balance t = record t { balance_check = balance }

-- The array as the transactions that the outer loop has passed, and those ahead of it.
pub record Settled : Type 0 where
  pub passed : List AirdropDto
  pub ahead : List AirdropDto
  pub balance : ℤ

-- One round of the outer loop, at the transaction `t`.
unfoldable pub settle :
    AirdropDto → TypeTransaction → List AirdropDto → List AirdropDto → ℤ → Settled
unfolding consume_rest
settle t credit passed ahead balance =
    let b = balance +ℤ pos t.amount in
    record { passed = passed ++ checked b t ∷ []; ahead = ahead; balance = b }
settle t debit passed ahead balance =
    let b = balance -ℤ pos t.amount in
    let before = consume t.transaction_date t.amount passed in
    let after = consume_rest t.transaction_date before ahead in
    record {
      passed = before.list ++ checked b (with_amount after.left t) ∷ [];
      ahead = after.list;
      balance = b;
    }
settle t unknown passed ahead balance = record {
  passed = passed ++ checked balance t ∷ [];
  ahead = ahead;
  balance = balance;
}
settle t result passed ahead balance = record {
  passed = passed ++ checked balance t ∷ [];
  ahead = ahead;
  balance = balance;
}

-- The outer loop, for the number of rounds that are left.
unfoldable pub settle_all : ℕ → List AirdropDto → List AirdropDto → ℤ → List AirdropDto × ℤ
unfolding settle
settle_all zero passed ahead balance = (passed ++ ahead, balance)
settle_all (suc n) passed [] balance = (passed, balance)
settle_all (suc n) passed (t ∷ ahead) balance =
    let s = settle t t.type_transaction passed ahead balance in
    settle_all n s.passed s.ahead s.balance

-- The second loop: the transactions with an amount.
abbrev pub remaining : List AirdropDto → List AirdropDto
remaining ts = filter (λ t. not (t.amount == 0)) ts

abbrev pub weighted : List AirdropDto → ℕ
weighted [] = 0
weighted (t ∷ ts) = t.amount * t.holder_of_days + weighted ts

-- The record that sums up the wallet, from its last remaining transaction. The source leaves its date,
-- amount and days undefined; they are 0 here.
abbrev pub summary : AirdropDto → ℕ → ℤ → AirdropDto
summary t final_amount balance = record {
  transaction_date = 0;
  wallet = t.wallet;
  amount = 0;
  final_amount = final_amount;
  holder_of_days = 0;
  type_transaction = result;
  current_balance = t.current_balance;
  balance_check = balance;
  transaction = t.transaction;
  error = if eqb_ℤ (pos t.current_balance) balance then none else some "Error in calculations";
}

abbrev pub last_of : AirdropDto → List AirdropDto → AirdropDto
last_of t [] = t
last_of t (x ∷ xs) = last_of x xs

abbrev pub with_summary : List AirdropDto → ℤ → List AirdropDto
with_summary [] balance = []
with_summary (t ∷ ts) balance = t ∷ ts ++ summary (last_of t ts) (weighted (t ∷ ts)) balance ∷ []

unfoldable pub final_calculations : List AirdropDto → List AirdropDto
unfolding sort_by_date settle_all
final_calculations transactions =
    let sorted = sort_by_date transactions in
    let (settled, balance) = settle_all (length sorted) [] sorted (pos 0) in
    with_summary (remaining settled) balance
