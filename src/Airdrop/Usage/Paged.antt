-- ===== src/Airdrop/Usage/Paged.antt =====
-- The pages of `deplanWalletCheck` (src/airdrop/airdrop.service.ts) against the whole history.
use mathlib.Core.Path.{subst}
use impact_wallet_server.Base.{
  ℕ, zero, suc, ◌+◌, ◌≤◌, ◌<◌, ◌≡◌, ◌≢◌, refl, sym, ap, ◌∙◌, inl, inr, Bool, true, false, Option,
  none, some, List, [], ◌∷◌, ◌==◌, ==_iff, length, filter, take, All, All-map, arith, Bool-cases,
  Option-cases, if◌then◌else◌,
}
use impact_wallet_server.Airdrop.Usage.{
  UsageTxn, DayUsage, days_between, add_usage, total_usage, last_txn, is_in_period, memo_of,
  count_txn, count_txns,
}

-- The transactions of a history that come after the one with a signature, all without one.
abbrev pub after : Option ℕ → List UsageTxn → List UsageTxn
after none ts = ts
after (some s) [] = []
after (some s) (t ∷ ts) = if t.signature == s then ts else after (some s) ts

-- Signatures differ, and the newest transaction is the first.
abbrev pub IsHistory : List UsageTxn → Type 0
IsHistory [] = Unit
IsHistory (t ∷ ts) =
    All (λ u. (u.signature ≢ t.signature) × (u.block_time ≤ t.block_time)) ts × IsHistory ts

total_usage-add_usage :
    (day duration : ℕ) (usage : List DayUsage)
    → total_usage (add_usage day duration usage) ≡ total_usage usage + duration
total_usage-add_usage day duration [] = omega arith
total_usage-add_usage day duration (u ∷ us) = ground (arith, total_usage-add_usage day duration us)

module _ (wallet memo_program from : ℕ) where
  -- The time that one transaction counts.
  abbrev pub counted : UsageTxn → ℕ
  counted t = elim (memo_of wallet memo_program from t) [ none ↦ 0 | some n ↦ n ]

  -- The time that a history counts, in the period.
  abbrev pub used : List UsageTxn → ℕ
  used [] = 0
  used (t ∷ ts) = if is_in_period wallet memo_program from t then counted t + used ts else used ts

  total_usage-count_txn :
      (t : UsageTxn) (usage : List DayUsage)
      → total_usage (count_txn wallet memo_program from t usage) ≡ total_usage usage + used (t ∷ [])
  unfolding count_txn
  total_usage-count_txn t usage = elim (Bool-cases (is_in_period wallet memo_program from t)) [
    | inr out ↦ rw (out, count_txn) (omega arith)
    | inl in_time ↦ elim (Option-cases (memo_of wallet memo_program from t)) [
      | inl e ↦
          let nothing : counted t ≡ 0 = rw (counted, e) refl in
          let same : count_txn wallet memo_program from t usage ≡ usage =
            rw (in_time, e, count_txn) refl in
          let whole : used (t ∷ []) ≡ counted t + 0 = rw in_time refl in
          ap total_usage same ∙ omega (arith, nothing, whole)
      | inr (n, e) ↦
          let its : counted t ≡ n = rw (counted, e) refl in
          let added : count_txn wallet memo_program from t usage
              ≡ add_usage (days_between from t.block_time) n usage =
            rw (in_time, e, count_txn) refl in
          let whole : used (t ∷ []) ≡ counted t + 0 = rw in_time refl in
          ap total_usage added
          ∙ omega
              (arith, its, whole, total_usage-add_usage (days_between from t.block_time) n usage)
    ]
  ]

  used-cons : (t : UsageTxn) (ts : List UsageTxn) → used (t ∷ ts) ≡ used (t ∷ []) + used ts
  used-cons t ts = ground arith

  pub total_usage-count_txns :
      (ts : List UsageTxn) (usage : List DayUsage)
      → total_usage (count_txns wallet memo_program from ts usage) ≡ total_usage usage + used ts
  unfolding count_txns
  total_usage-count_txns [] usage = omega arith
  total_usage-count_txns (t ∷ ts) usage =
      total_usage-count_txns ts (count_txn wallet memo_program from t usage)
      ∙ omega (arith, total_usage-count_txn t usage, used-cons t ts)

  abbrev pub in_period : List UsageTxn → List UsageTxn
  in_period ts = filter (is_in_period wallet memo_program from) ts

  -- Before the period there is only what is before the period.
  nothing_earlier :
      (time : ℕ) (ts : List UsageTxn)
      → time < from
      → All (λ u. u.block_time ≤ time) ts
      → (used ts ≡ 0) × ((n : ℕ) → in_period (take n ts) ≡ [])
  nothing_earlier time [] e h = (refl, λ n. none_taken n)
    where
      none_taken : (n : ℕ) → in_period (take n []) ≡ []
      none_taken zero = refl
      none_taken (suc n) = refl
  nothing_earlier time (t ∷ ts) e h =
      let out : is_in_period wallet memo_program from t ≡ false = ground (arith, h.0) in
      let (rest, none_of) = nothing_earlier time ts e h.1 in (rw out rest, λ n. taken out none_of n)
    where
      taken :
          is_in_period wallet memo_program from t ≡ false
          → ((n : ℕ) → in_period (take n ts) ≡ [])
          → (n : ℕ) → in_period (take n (t ∷ ts)) ≡ []
      taken out none_of zero = refl
      taken out none_of (suc n) = rw out (none_of n)

  unfoldable pub has : ℕ → List UsageTxn → Bool
  has s [] = false
  has s (t ∷ ts) = if t.signature == s then true else has s ts

  -- What a page has come to: the transactions of it in the period, and what follows the last of them.
  unfoldable pub IsPage : List UsageTxn → List UsageTxn → Option UsageTxn → Type 0
  IsPage rest kept none = kept ≡ []
  IsPage rest kept (some t) =
      (is_in_period wallet memo_program from t ≡ true)
      × (has t.signature rest ≡ true)
      × (used rest ≡ used kept + used (after (some t.signature) rest))
      × (length (after (some t.signature) rest) < length rest)

  has_other :
      (t : UsageTxn) (s : ℕ) (ts : List UsageTxn)
      → All (λ u. (u.signature ≢ t.signature) × (u.block_time ≤ t.block_time)) ts
      → has s ts ≡ true
      → (t.signature == s) ≡ false
  unfolding has
  has_other t s [] h k = cc
  has_other t s (u ∷ ts) h k = elim (Bool-cases (u.signature == s)) [
    | inl same ↦ ground (arith, same, h.0.0)
    | inr other ↦ has_other t s ts h.1 (rw other at k)
  ]

  extended :
      (t : UsageTxn) (ts kept : List UsageTxn) (o : Option UsageTxn)
      → is_in_period wallet memo_program from t ≡ true
      → All (λ u. (u.signature ≢ t.signature) × (u.block_time ≤ t.block_time)) ts
      → kept ≢ []
      → IsPage ts kept o
      → IsPage (t ∷ ts) (t ∷ kept) o
  unfolding IsPage has
  extended t ts kept none p h n k = absurd (n k)
  extended t ts kept (some v) p h n (pv, within, sum, shorter) =
      let other = has_other t v.signature ts h within in
      let later : after (some v.signature) (t ∷ ts) ≡ after (some v.signature) ts = rw other refl in
      let all : used (t ∷ ts) ≡ counted t + used ts = rw p refl in
      let all_kept : used (t ∷ kept) ≡ counted t + used kept = rw p refl in
      (
        pv,
        rw other within,
        omega (arith, ap used later, all, all_kept, sum),
        omega (arith, ap (λ xs. length xs) later, shorter),
      )

  with_head :
      (t : UsageTxn) (ts kept : List UsageTxn)
      → is_in_period wallet memo_program from t ≡ true
      → All (λ u. (u.signature ≢ t.signature) × (u.block_time ≤ t.block_time)) ts
      → IsPage ts kept (last_txn kept)
      → IsPage (t ∷ ts) (t ∷ kept) (last_txn (t ∷ kept))
  unfolding IsPage has
  with_head t ts [] p h k =
      let own : (t.signature == t.signature) ≡ true = (==_iff t.signature t.signature).1 refl in
      let later : after (some t.signature) (t ∷ ts) ≡ ts = rw own refl in
      let all : used (t ∷ ts) ≡ counted t + used ts = rw p refl in
      let first : used (t ∷ []) ≡ counted t + 0 = rw p refl in
      (
        p,
        rw own refl,
        omega (arith, ap used later, all, first),
        omega (arith, ap (λ xs. length xs) later),
      )
  with_head t ts (u ∷ us) p h k = extended t ts (u ∷ us) (last_txn (u ∷ us)) p h (λ e. cc e) k

  pub take-IsPage :
      (n : ℕ) (rest : List UsageTxn)
      → IsHistory rest
      → IsPage rest (in_period (take n rest)) (last_txn (in_period (take n rest)))
  unfolding IsPage has
  take-IsPage zero rest h = refl
  take-IsPage (suc n) [] h = refl
  take-IsPage (suc n) (t ∷ ts) h = elim (Bool-cases (is_in_period wallet memo_program from t)) [
    | inr out ↦
        let earlier : t.block_time < from = ground (arith, out) in
        let (_, none_of) =
          nothing_earlier t.block_time ts earlier (All-map _ _ (λ u k. k.1) ts h.0) in
        let empty : in_period (take (suc n) (t ∷ ts)) ≡ [] = rw out (none_of n) in
        subst (λ k. IsPage (t ∷ ts) k (last_txn k)) (sym empty) refl
    | inl in_time ↦
        let whole : in_period (take (suc n) (t ∷ ts)) ≡ t ∷ in_period (take n ts) =
          rw in_time refl in
        subst (λ k. IsPage (t ∷ ts) k (last_txn k)) (sym whole)
          (with_head t ts (in_period (take n ts)) in_time h.0 (take-IsPage n ts h.1))
  ]

  pub page_empty :
      (n : ℕ) (rest : List UsageTxn)
      → IsHistory rest
      → in_period (take (suc n) rest) ≡ []
      → used rest ≡ 0
  page_empty n [] h e = refl
  page_empty n (t ∷ ts) h e = elim (Bool-cases (is_in_period wallet memo_program from t)) [
    | inl in_time ↦ cc (rw in_time at e)
    | inr out ↦
        let earlier : t.block_time < from = ground (arith, out) in
        rw out (nothing_earlier t.block_time ts earlier (All-map _ _ (λ u k. k.1) ts h.0)).0
  ]

  pub IsHistory-after :
      (before : Option ℕ) (h : List UsageTxn) → IsHistory h → IsHistory (after before h)
  IsHistory-after none h k = k
  IsHistory-after (some s) [] k = tt
  IsHistory-after (some s) (t ∷ ts) k = elim (Bool-cases (t.signature == s)) [
    | inl e ↦ rw e k.1
    | inr e ↦ rw e (IsHistory-after (some s) ts k.1)
  ]

  has-after :
      (before : Option ℕ) (s : ℕ) (h : List UsageTxn)
      → has s (after before h) ≡ true
      → has s h ≡ true
  unfolding has
  has-after none s h k = k
  has-after (some b) s [] k = k
  has-after (some b) s (t ∷ ts) k = elim (Bool-cases (t.signature == s)) [
    | inl e ↦ rw e refl
    | inr e ↦ rw e (elim (Bool-cases (t.signature == b)) [
      | inl c ↦ rw c at k
      | inr c ↦ has-after (some b) s ts (rw c at k)
    ])
  ]

  -- What follows a transaction is the same in the whole history and in what is left of it.
  pub after-after :
      (before : Option ℕ) (s : ℕ) (h : List UsageTxn)
      → IsHistory h
      → has s (after before h) ≡ true
      → after (some s) h ≡ after (some s) (after before h)
  unfolding has
  after-after none s h k e = refl
  after-after (some b) s [] k e = refl
  after-after (some b) s (t ∷ ts) k e = elim (Bool-cases (t.signature == b)) [
    | inl c ↦
        let within : has s ts ≡ true = rw c at e in
        let other = has_other t s ts k.0 within in rw (c, other) refl
    | inr c ↦
        let within : has s (after (some b) ts) ≡ true = rw c at e in
        let other = has_other t s ts k.0 (has-after (some b) s ts within) in
        rw (c, other) (after-after (some b) s ts k.1 within)
  ]
