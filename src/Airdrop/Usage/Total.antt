-- ===== src/Airdrop/Usage/Total.antt =====
-- The loop of `deplanWalletCheck` (src/airdrop/airdrop.service.ts) over all pages of a history.
use mathlib.Core.Path.{subst}
use impact_wallet_server.Base.{
  ℕ, zero, suc, ◌+◌, ◌*◌, ◌<◌, ◌≡◌, refl, ap, ◌∙◌, inl, inr, true, Option, none, some, List, [],
  ltb, length, take, arith, Bool-cases, Option-cases, if◌then◌else◌,
}
use impact_wallet_server.Base.Http.{Result, ok, err, bad_request}
use impact_wallet_server.Airdrop.Usage.{
  UsageTxn, DayUsage, days_between, total_usage, last_txn, is_in_period, count_txns, token_history,
  usage_pages, deplan_wallet_check,
}
use impact_wallet_server.Airdrop.Usage.Paged.{
  after, IsHistory, used, in_period, IsPage, take-IsPage, page_empty, IsHistory-after, after-after,
  total_usage-count_txns,
}

module _ (wallet memo_program from : ℕ) where
  module _ (page : Option ℕ → List UsageTxn) (h : List UsageTxn) (k : IsHistory h)
      (paged : (before : Option ℕ) → page before ≡ take 6 (after before h)) where
    ended :
        (fuel : ℕ) (before : Option ℕ) (usage : List DayUsage) (kept : List UsageTxn)
        → token_history wallet memo_program from page before ≡ kept
        → last_txn kept ≡ none
        → usage_pages wallet memo_program from page (suc fuel) before usage
          ≡ some (count_txns wallet memo_program from kept usage)
    unfolding usage_pages
    ended fuel before usage kept e c =
        rw (usage_pages, e, c) (ap (λ ts. some (count_txns wallet memo_program from ts usage)) e)

    went_on :
        (fuel : ℕ) (before : Option ℕ) (usage : List DayUsage) (kept : List UsageTxn)
        → token_history wallet memo_program from page before ≡ kept
        → (t : UsageTxn) → last_txn kept ≡ some t
        → is_in_period wallet memo_program from t ≡ true
        → usage_pages wallet memo_program from page (suc fuel) before usage
          ≡ usage_pages wallet memo_program from page fuel
              (some t.signature)
              (count_txns wallet memo_program from kept usage)
    unfolding usage_pages
    went_on fuel before usage kept e t c p =
        rw (usage_pages, e, c, p)
          (ap
            (λ ts.
              usage_pages wallet memo_program from page fuel (some t.signature)
                (count_txns wallet memo_program from ts usage))
            e)

    usage_pages_total :
        (fuel : ℕ) (before : Option ℕ) (usage : List DayUsage)
        → length (after before h) < fuel
        → (u : List DayUsage) × (usage_pages wallet memo_program from page fuel before usage
            ≡ some u)
          × (total_usage u ≡ total_usage usage + used wallet memo_program from (after before h))
    unfolding usage_pages token_history IsPage
    usage_pages_total zero before usage f = absurd (ground arith)
    usage_pages_total (suc fuel) before usage f =
        let rest = after before h in
        let kept = in_period wallet memo_program from (take 6 rest) in
        let ends =
          take-IsPage wallet memo_program from 6 rest
            (IsHistory-after wallet memo_program from before h k) in
        let same : token_history wallet memo_program from page before ≡ kept =
          ap (in_period wallet memo_program from) (paged before) in
        let counts = total_usage-count_txns wallet memo_program from kept usage in
        elim (Option-cases (last_txn kept)) [
          | inl c ↦
              let none_kept : kept ≡ [] =
                subst (IsPage wallet memo_program from rest kept) c ends in
              let unused =
                page_empty wallet memo_program from 5 rest
                  (IsHistory-after wallet memo_program from before h k) none_kept in
              (
                count_txns wallet memo_program from kept usage,
                ended fuel before usage kept same c,
                omega (arith, counts, ap (used wallet memo_program from) none_kept, unused),
              )
          | inr (t, c) ↦
              let (p, within, sum, shorter) : IsPage wallet memo_program from rest kept (some t) =
                subst (IsPage wallet memo_program from rest kept) c ends in
              let later : after (some t.signature) h ≡ after (some t.signature) rest =
                after-after wallet memo_program from before t.signature h k within in
              let next = count_txns wallet memo_program from kept usage in
              let less : length (after (some t.signature) h) < fuel =
                omega (arith, ap (λ xs. length xs) later, shorter, f) in
              let (u, answer, total) = usage_pages_total fuel (some t.signature) next less in
              (
                u,
                went_on fuel before usage kept same t c p ∙ answer,
                omega (arith, total, counts, ap (used wallet memo_program from) later, sum),
              )
        ]

    -- The whole history, newest first, is read through with one page more than it has transactions,
    -- and what counts is every memo of a transfer of the wallet's own in the period, wherever the pages
    -- end: the check throws before the last day of the period, and else exactly if the memos come to
    -- less than ten for each of its days.
    deplan_wallet_check-eq-used :
        (fuel to now : ℕ)
        → length h < fuel
        → (r : Option (List DayUsage) × Result (Unit {0})) × (deplan_wallet_check wallet
              memo_program from page fuel to now
            ≡ some r)
          × (r.1 ≡ (
              if ltb (days_between from now) (days_between from to)
              then err (bad_request "Please use DePlan")
              else if ltb (used wallet memo_program from h) (days_between from to * 10)
              then err (bad_request "Please use DePlan")
              else ok tt))
    unfolding deplan_wallet_check
    deplan_wallet_check-eq-used fuel to now f =
        elim (Bool-cases (ltb (days_between from now) (days_between from to))) [
          | inl early ↦ (
            (none, err (bad_request "Please use DePlan")),
            rw (early, deplan_wallet_check) refl,
            rw early refl,
          )
          | inr late ↦
              let (u, answer, total) = usage_pages_total fuel none [] f in
              let all : total_usage u ≡ used wallet memo_program from h = omega (arith, total) in
              (
                (
                  some u,
                  if ltb (total_usage u) (days_between from to * 10)
                      then err (bad_request "Please use DePlan")
                      else ok tt,
                ),
                rw (late, answer, deplan_wallet_check) refl,
                rw (late, all) refl,
              )
        ]
