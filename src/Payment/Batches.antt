-- ===== src/Payment/Batches.antt =====
-- The batches of five in which `handleRegularPayment` (src/payment/payment.service.ts) and
-- `collectEquity` (src/offers/offers.service.lite.ts) send transactions.
use mathlib.Core.List.{flatten}
use impact_wallet_server.Base.{
  ℕ, zero, suc, ◌+◌, ◌-◌, ◌*◌, ◌/◌, ◌≤◌, ◌≡◌, refl, sym, ap, ◌∙◌, List, [], ◌∷◌, ◌++◌, arith,
  length, take, drop, take-append-drop, All,
}

abbrev pub batch_size : ℕ
batch_size = 5

module _ {ℓ} {A : Type ℓ} where
  -- `xs.slice(lower, upper)`
  abbrev pub slice : ℕ → ℕ → List A → List A
  slice lower upper xs = take (upper - lower) (drop lower xs)

  -- The loop, `n` rounds from round `i`.
  unfoldable pub batches_from : ℕ → ℕ → List A → List (List A)
  batches_from zero i xs = []
  batches_from (suc n) i xs =
      slice (i * batch_size) ((i + 1) * batch_size) xs ∷ batches_from n (i + 1) xs

  -- `Math.ceil(xs.length / batchSize)` rounds
  unfoldable pub batches : List A → List (List A)
  unfolding batches_from
  batches xs = batches_from ((length xs + 4) / batch_size) 0 xs

  drop-drop : (n m k : ℕ) (xs : List A) → n + m ≡ k → drop m (drop n xs) ≡ drop k xs
  drop-drop zero m k xs e = let e' : m ≡ k = omega arith in rw e'
  drop-drop (suc n) m zero xs e = absurd (omega arith)
  drop-drop (suc n) zero (suc k) [] e = refl
  drop-drop (suc n) (suc m) (suc k) [] e = refl
  drop-drop (suc n) m (suc k) (x ∷ xs) e = drop-drop n m k xs (omega arith)

  drop_all : (n : ℕ) (xs : List A) → length xs ≤ n → drop n xs ≡ []
  drop_all zero [] h = refl
  drop_all zero (x ∷ xs) h = absurd (omega arith)
  drop_all (suc n) [] h = refl
  drop_all (suc n) (x ∷ xs) h = drop_all n xs (omega arith)

  flatten-batches_from :
      (n i : ℕ) (xs : List A)
      → length xs ≤ (i + n) * batch_size
      → flatten (batches_from n i xs) ≡ drop (i * batch_size) xs
  unfolding batches_from flatten
  flatten-batches_from zero i xs h = sym (drop_all (i * batch_size) xs (omega arith))
  flatten-batches_from (suc n) i xs h =
      let width : ℕ = (i + 1) * batch_size - i * batch_size in
      let rest : List A = drop (i * batch_size) xs in
      ap (λ t. take width rest ++ t)
        (flatten-batches_from n (i + 1) xs (omega arith)
          ∙ sym (drop-drop (i * batch_size) width ((i + 1) * batch_size) xs (omega arith)))
      ∙ take-append-drop width rest

  length-take_le : (n : ℕ) (xs : List A) → length (take n xs) ≤ n
  length-take_le zero xs = omega arith
  length-take_le (suc n) [] = omega arith
  length-take_le (suc n) (x ∷ xs) = omega (arith, length-take_le n xs)

  small-batches_from :
      (n i : ℕ) (xs : List A) → All (λ b. length b ≤ batch_size) (batches_from n i xs)
  unfolding batches_from
  small-batches_from zero i xs = tt
  small-batches_from (suc n) i xs = (
    omega
        (arith, length-take_le ((i + 1) * batch_size - i * batch_size) (drop (i * batch_size) xs)),
    small-batches_from n (i + 1) xs,
  )

  length-batches_from : (n i : ℕ) (xs : List A) → length (batches_from n i xs) ≡ n
  unfolding batches_from
  length-batches_from zero i xs = refl
  length-batches_from (suc n) i xs = ap suc (length-batches_from n (i + 1) xs)

  -- The batches hold every item exactly once and in order, none has more than five items, and there
  -- are no more of them than five-item batches need.
  pub batches_partition :
      (xs : List A)
      → (flatten (batches xs) ≡ xs)
        × All (λ b. length b ≤ batch_size) (batches xs)
        × (length (batches xs) * batch_size ≤ length xs + 4)
  unfolding batches
  batches_partition xs = (
    flatten-batches_from ((length xs + 4) / batch_size) 0 xs (omega arith),
    small-batches_from ((length xs + 4) / batch_size) 0 xs,
    omega (arith, length-batches_from ((length xs + 4) / batch_size) 0 xs),
  )
