-- ===== src/Api/Confirm.antt =====
-- `getParsedTransaction` and `confirmTxnWithRetry` (src/api-service/api.service.ts): the chain is
-- read until a transaction shows up, and a transaction that failed is sent again. What the chain
-- answers is a parameter; a read that throws answers `none`.
use impact_wallet_server.Base.{
  ℕ, zero, suc, ◌+◌, ◌≤◌, ◌<◌, ◌≡◌, refl, ap, ◌∙◌, String, Bool, Option, none, some, arith, is_nil,
  is_nil→none, ltb, if◌then◌else◌, ◌-◌, inl, inr, Bool-cases, Option-cases, true, false,
}
use mathlib.Core.Path.{subst, sym}
use impact_wallet_server.Base.Http.{Result, ok, err, thrown, thrown_undefined}

-- A transaction of the chain: `meta.err`
pub record ParsedTransaction : Type 0 where
  pub error : Option String

-- What `retryFn` comes to: the hash, or the thrown message
pub data Resent : Type 0 where
  resent : ℕ → Resent
  failed : String → Resent

-- `RETRIES`
abbrev pub max_reads : ℕ
max_reads = 5

-- a default parameter
abbrev pub reads_of : Option ℕ → ℕ
reads_of none = max_reads
reads_of (some n) = n

-- `read i` is the answer to the i-th read.
unfoldable pub get_parsed_transaction :
    (ℕ → Option ParsedTransaction) → ℕ → ℕ → Option ParsedTransaction
get_parsed_transaction read i zero = read i
get_parsed_transaction read i (suc retries) =
    let later = get_parsed_transaction read (suc i) retries in
    elim (read i) [ none ↦ later | some txn ↦ some txn ]

-- `txnHash = await retryFn()`, where it does not throw
abbrev pub hash_after : ℕ → Resent → ℕ
hash_after hash (resent h) = h
hash_after hash (failed e) = hash

-- `txnError` behind the `try`
abbrev pub error_after : Option String → Resent → Option String
error_after e (resent h) = e
error_after e (failed m) = some m

-- `get(parsedTxn, 'meta.err')`
abbrev pub error_of : Option ParsedTransaction → Option String
error_of none = none
error_of (some txn) = txn.error

-- `!isNil(parsedTxn) && isNil(txnError)`
abbrev pub is_confirmed : Option ParsedTransaction → Bool
is_confirmed none = false
is_confirmed (some txn) = is_nil txn.error

-- `read k h i` is the i-th read of the hash `h` in the k-th round, `resend k` what that round's
-- `retryFn` comes to.
module _ (read : ℕ → ℕ → ℕ → Option ParsedTransaction) (resend : ℕ → Resent) where
  -- `confirmTxnWithRetry`, from the k-th round on. The recursive call hands `--retries` over as
  -- `maxSupportedTransactionVersion`, which `getParsedTransaction` takes as its number of retries;
  -- its own `retries` is the default again. `none` is lack of fuel.
  unfoldable pub confirm_txn_with_retry : ℕ → ℕ → ℕ → Option ℕ → ℕ → Option (Result ℕ)
  unfolding get_parsed_transaction
  confirm_txn_with_retry zero k hash version retries = none
  confirm_txn_with_retry (suc f) k hash version retries =
      let parsed = get_parsed_transaction (read k hash) 0 (reads_of version) in
      let r = resend k in
      let again = confirm_txn_with_retry f (suc k) (hash_after hash r) (some (retries - 1)) 5 in
      if is_confirmed parsed then some (ok hash) else elim (error_after (error_of parsed) r) [
        | none ↦ some (err thrown_undefined)
        | some message ↦ if ltb 0 retries then again else some (err (thrown message))
      ]

-- None of the reads from the i-th on gives a transaction.
abbrev pub NoneRead : (ℕ → Option ParsedTransaction) → ℕ → ℕ → Type 0
NoneRead read i zero = read i ≡ none
NoneRead read i (suc n) = (read i ≡ none) × NoneRead read (suc i) n

-- What the reads from the i-th on come to.
pub IsRead : (ℕ → Option ParsedTransaction) → ℕ → ℕ → Option ParsedTransaction → Type 0
IsRead read i retries (some txn) = (j : ℕ) × (j ≤ retries) × (read (i + j) ≡ some txn)
IsRead read i retries none = NoneRead read i retries

module _ (read : ℕ → Option ParsedTransaction) where
  read_at : (a b : ℕ) {o : Option ParsedTransaction} → a ≡ b → read b ≡ o → read a ≡ o
  read_at a b e h = ap read e ∙ h

  IsRead-later :
      (i n : ℕ) (o : Option ParsedTransaction)
      → read i ≡ none
      → IsRead read (suc i) n o
      → IsRead read i (suc n) o
  unfolding IsRead
  IsRead-later i n (some txn) e (j, b, h) =
      (suc j, omega (arith, b), read_at (i + suc j) (suc i + j) (omega arith) h)
  IsRead-later i n none e h = (e, h)

  IsRead-now : (i n : ℕ) (txn : ParsedTransaction) → read i ≡ some txn → IsRead read i n (some txn)
  unfolding IsRead
  IsRead-now i n txn e = (0, omega arith, read_at (i + 0) i (omega arith) e)

  IsRead-last : (i : ℕ) → read i ≡ none → IsRead read i 0 none
  unfolding IsRead
  IsRead-last i e = e

  get_first :
      (i n : ℕ) (txn : ParsedTransaction)
      → read i ≡ some txn
      → get_parsed_transaction read i n ≡ some txn
  unfolding get_parsed_transaction
  get_first i zero txn e = e
  get_first i (suc n) txn e = rw (e, get_parsed_transaction) refl

  get_later :
      (i n : ℕ)
      → read i ≡ none
      → get_parsed_transaction read i (suc n) ≡ get_parsed_transaction read (suc i) n
  unfolding get_parsed_transaction
  get_later i n e = rw (e, get_parsed_transaction) refl

  get_last : (i : ℕ) → get_parsed_transaction read i 0 ≡ read i
  unfolding get_parsed_transaction
  get_last i = refl

-- `getParsedTransaction` answers with a transaction that one of its `retries + 1` reads has given,
-- and with none only when each of them gave none.
pub get_parsed_transaction-IsRead :
    (read : ℕ → Option ParsedTransaction) (i retries : ℕ)
    → IsRead read i retries (get_parsed_transaction read i retries)
get_parsed_transaction-IsRead read i zero = elim (Option-cases (read i)) [
  | inl e ↦ subst (IsRead read i 0) (sym (get_last read i ∙ e)) (IsRead-last read i e)
  | inr (txn, e) ↦ subst (IsRead read i 0) (sym (get_last read i ∙ e)) (IsRead-now read i 0 txn e)
]
get_parsed_transaction-IsRead read i (suc n) = elim (Option-cases (read i)) [
  | inl e ↦
      subst (IsRead read i (suc n)) (sym (get_later read i n e))
        (IsRead-later read i n _ e (get_parsed_transaction-IsRead read (suc i) n))
  | inr (txn, e) ↦
      subst (IsRead read i (suc n)) (sym (get_first read i (suc n) txn e))
        (IsRead-now read i (suc n) txn e)
]

confirmed_read :
    (read : ℕ → Option ParsedTransaction) (retries : ℕ) (o : Option ParsedTransaction)
    → is_confirmed o ≡ true
    → IsRead read 0 retries o
    → (i : ℕ) × (i ≤ retries) × (read i ≡ some (record { error = none }))
unfolding IsRead
confirmed_read read retries none c h = cc
confirmed_read read retries (some txn) c (j, b, h) = (
  j,
  b,
  read_at read j (0 + j) (omega arith) h
      ∙ ap (λ x. some (record { error = x })) (is_nil→none txn.error c),
)

-- One round, by what it reads and what sending again comes to.
module _ (read : ℕ → ℕ → ℕ → Option ParsedTransaction) (resend : ℕ → Resent) (f k hash : ℕ)
    (version : Option ℕ) (retries : ℕ) where
  abbrev read_in_round : Option ParsedTransaction
  read_in_round = get_parsed_transaction (read k hash) 0 (reads_of version)

  round_confirmed :
      is_confirmed read_in_round ≡ true
      → confirm_txn_with_retry read resend (suc f) k hash version retries ≡ some (ok hash)
  unfolding confirm_txn_with_retry
  round_confirmed c = rw (c, confirm_txn_with_retry) refl

  round_undefined :
      is_confirmed read_in_round ≡ false
      → error_after (error_of read_in_round) (resend k) ≡ none
      → confirm_txn_with_retry read resend (suc f) k hash version retries
        ≡ some (err thrown_undefined)
  unfolding confirm_txn_with_retry
  round_undefined c e = rw (c, confirm_txn_with_retry, e) refl

  round_again :
      (message : String)
      → is_confirmed read_in_round ≡ false
      → error_after (error_of read_in_round) (resend k) ≡ some message
      → ltb 0 retries ≡ true
      → confirm_txn_with_retry read resend (suc f) k hash version retries
        ≡ confirm_txn_with_retry read resend f
            (suc k)
            (hash_after hash (resend k))
            (some (retries - 1))
            5
  unfolding confirm_txn_with_retry
  round_again message c e l = rw (c, confirm_txn_with_retry, e, l) refl

  round_given_up :
      (message : String)
      → is_confirmed read_in_round ≡ false
      → error_after (error_of read_in_round) (resend k) ≡ some message
      → ltb 0 retries ≡ false
      → confirm_txn_with_retry read resend (suc f) k hash version retries
        ≡ some (err (thrown message))
  unfolding confirm_txn_with_retry
  round_given_up message c e l = rw (c, confirm_txn_with_retry, e, l) refl

-- A hash that `confirmTxnWithRetry` returns is one that the chain has answered for, without an
-- error.
pub confirm_txn_with_retry_sound :
    (read : ℕ → ℕ → ℕ → Option ParsedTransaction) (resend : ℕ → Resent) (f k hash : ℕ)
    (version : Option ℕ) (retries : ℕ) {h : ℕ}
    → confirm_txn_with_retry read resend f k hash version retries ≡ some (ok h)
    → (j : ℕ) × (i : ℕ) × (read j h i ≡ some (record { error = none }))
unfolding confirm_txn_with_retry
confirm_txn_with_retry_sound read resend zero k hash version retries e = cc
confirm_txn_with_retry_sound read resend (suc f) k hash version retries {h} e =
    let parsed : Option ParsedTransaction = read_in_round read resend f k hash version retries in
    let later =
      confirm_txn_with_retry_sound read resend f (suc k) (hash_after hash (resend k))
        (some (retries - 1)) 5 {h = h} in
    elim (Bool-cases (is_confirmed parsed)) [
      | inl c ↦
          let (i, _, r) =
            confirmed_read (read k hash) (reads_of version) parsed c
              (get_parsed_transaction-IsRead (read k hash) 0 (reads_of version)) in
          let same : hash ≡ h = cc (round_confirmed read resend f k hash version retries c, e) in
          (k, i, subst (λ x. read k x i ≡ some (record { error = none })) same r)
      | inr c ↦ elim (Option-cases (error_after (error_of parsed) (resend k))) [
        | inl n ↦ cc (round_undefined read resend f k hash version retries c n, e)
        | inr (m, s) ↦ elim (Bool-cases (ltb 0 retries)) [
          | inl l ↦ later (sym (round_again read resend f k hash version retries m c s l) ∙ e)
          | inr l ↦ cc (round_given_up read resend f k hash version retries m c s l, e)
        ]
      ]
    ]

-- Every read gives a transaction with this error.
abbrev AlwaysFails : (ℕ → ℕ → ℕ → Option ParsedTransaction) → String → Type 0
AlwaysFails read message = (k h i : ℕ) → read k h i ≡ some (record { error = some message })

failing_read :
    (read : ℕ → Option ParsedTransaction) (retries : ℕ) (message : String)
    → ((i : ℕ) → read i ≡ some (record { error = some message }))
    → get_parsed_transaction read 0 retries ≡ some (record { error = some message })
failing_read read retries message fails = get_first read 0 retries _ (fails 0)

error_after-some : (m : String) (r : Resent) → (n : String) × (error_after (some m) r ≡ some n)
error_after-some m (resent h) = (m, refl)
error_after-some m (failed n) = (n, refl)

-- A transaction that fails whenever it is sent is sent again without end, however many retries the
-- call was to make: no amount of fuel gives a result.
pub confirm_txn_with_retry-endless :
    (read : ℕ → ℕ → ℕ → Option ParsedTransaction) (resend : ℕ → Resent) (message : String)
    → AlwaysFails read message
    → (f k hash : ℕ) (version : Option ℕ) (retries : ℕ) → 0 < retries
    → confirm_txn_with_retry read resend f k hash version retries ≡ none
unfolding confirm_txn_with_retry
confirm_txn_with_retry-endless read resend message fails zero k hash version retries h = refl
confirm_txn_with_retry-endless read resend message fails (suc f) k hash version retries h =
    let parsed = failing_read (read k hash) (reads_of version) message (fails k hash) in
    let (n, e) = error_after-some message (resend k) in
    round_again read resend f k hash version retries n (ap is_confirmed parsed)
      (ap (λ p. error_after (error_of p) (resend k)) parsed ∙ e) (ground arith)
    ∙ confirm_txn_with_retry-endless read resend message fails f (suc k) _ _ 5 (omega arith)
