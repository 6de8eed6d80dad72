-- ===== src/Api/Send/Attempts.antt =====
-- The attempts to send a transaction: the first that goes through is the answer.
use impact_wallet_server.Base.{
  ℕ, zero, suc, ◌+◌, ◌≤◌, ◌≡◌, refl, inl, inr, ◌⊎◌, ap, map, true, false, Bool-cases, String, Bool,
  Option, List, [], ◌∷◌, ◌++◌, arith,
}
use mathlib.Core.Path.{subst}
use impact_wallet_server.Base.Http.{Error, Result, ok, err, Result-cases, >>=-eq-ok}
use impact_wallet_server.Api.Send.{
  Recipient, Instruction, Fee, create_account, transfer_token, unit_price, prefixed,
  missing_accounts, create_transfer_instructions, senders, limit_of, send_priced, attempt_transfer,
  retrying, transfer,
}

abbrev pub Fails {ℓ} : {A : Type ℓ} → (ℕ → Result A) → ℕ → Type ℓ
Fails attempt n = (e : Error) × (attempt n ≡ err e)

-- A number of attempts, from the n-th on, that fail.
abbrev pub AllFail {ℓ} : {A : Type ℓ} → (ℕ → Result A) → ℕ → ℕ → Type ℓ
AllFail attempt zero n = Unit
AllFail attempt (suc count) n = Fails attempt n × AllFail attempt count (suc n)

-- The answer to the attempts n, n + 1, ..., n + retries: the first that goes through, or the last
-- error with a prefix.
abbrev pub IsFirst {ℓ} : {A : Type ℓ} → String → (ℕ → Result A) → ℕ → ℕ → Result A → Type ℓ
IsFirst p attempt retries n (ok a) =
    (k : ℕ) × (k ≤ retries) × AllFail attempt k n × (attempt (n + k) ≡ ok a)
IsFirst p attempt retries n (err e) =
    AllFail attempt (suc retries) n
    × ((x : Error) × (attempt (n + retries) ≡ err x) × (e ≡ prefixed p x))

module _ {ℓ} {A : Type ℓ} (p : String) (attempt : ℕ → Result A) where
  IsFirst-later :
      (retries n : ℕ) (r : Result A)
      → Fails attempt n
      → IsFirst p attempt retries (suc n) r
      → IsFirst p attempt (suc retries) n r
  IsFirst-later retries n (ok a) f (k, le, before, h) =
      (suc k, omega (arith, le), (f, before), subst (λ m. attempt m ≡ ok a) (omega arith) h)
  IsFirst-later retries n (err x) f (all, last) =
      ((f, all), (last.0, subst (λ m. attempt m ≡ err last.0) (omega arith) last.1, last.2))

  retrying-IsFirst : (retries n : ℕ) → IsFirst p attempt retries n (retrying p attempt retries n)
  unfolding retrying
  retrying-IsFirst zero n = elim (Result-cases (attempt n)) [
    | inl (a, e) ↦
        let q : ok a ≡ retrying p attempt 0 n = rw (e, retrying) refl in
        let here : attempt (n + 0) ≡ ok a = subst (λ m. attempt m ≡ ok a) (omega arith) e in
        subst (IsFirst p attempt 0 n) q (0, omega arith, tt, here)
    | inr (x, e) ↦
        let q : err (prefixed p x) ≡ retrying p attempt 0 n = rw (e, retrying) refl in
        let here : attempt (n + 0) ≡ err x = subst (λ m. attempt m ≡ err x) (omega arith) e in
        subst (IsFirst p attempt 0 n) q (((x, e), tt), (x, here, refl))
  ]
  retrying-IsFirst (suc retries) n = elim (Result-cases (attempt n)) [
    | inl (a, e) ↦
        let q : ok a ≡ retrying p attempt (suc retries) n = rw (e, retrying) refl in
        let here : attempt (n + 0) ≡ ok a = subst (λ m. attempt m ≡ ok a) (omega arith) e in
        subst (IsFirst p attempt (suc retries) n) q (0, omega arith, tt, here)
    | inr (x, e) ↦
        let rest = retrying p attempt retries (suc n) in
        let q : rest ≡ retrying p attempt (suc retries) n = rw (e, retrying) refl in
        subst (IsFirst p attempt (suc retries) n) q
          (IsFirst-later retries n rest (x, e) (retrying-IsFirst retries (suc n)))
  ]

module _ (fee : Fee) (missing : ℕ → ℕ → ℕ → Bool)
    (simulate : ℕ → List Instruction → Result (Option ℕ))
    (send : ℕ → List Instruction → List ℕ → Result ℕ) where
  -- The instructions that create the accounts that are missing, one for each recipient without one.
  abbrev pub AreCreations : (ℕ → ℕ → Bool) → ℕ → List Recipient → List Instruction → Type 0
  AreCreations gone mint [] is = is ≡ []
  AreCreations gone mint (r ∷ rs) is =
      ((gone mint r.wallet ≡ true)
        × ((rest : List Instruction) × (is ≡ create_account mint r.wallet ∷ rest)
            × AreCreations gone mint rs rest))
      ⊎ ((gone mint r.wallet ≡ false) × AreCreations gone mint rs is)

  -- One transfer for each recipient: from its sender, to its wallet, of its amount.
  abbrev pub AreTransfers : ℕ → List Recipient → List Instruction → Type 0
  AreTransfers mint [] is = is ≡ []
  AreTransfers mint (r ∷ rs) is =
      (rest : List Instruction) × (is ≡ transfer_token mint r.sender r.wallet r.amount ∷ rest)
      × AreTransfers mint rs rest

  missing_accounts-AreCreations :
      (gone : ℕ → ℕ → Bool) (mint : ℕ) (rs : List Recipient)
      → AreCreations gone mint rs (missing_accounts gone mint rs)
  missing_accounts-AreCreations gone mint [] = refl
  missing_accounts-AreCreations gone mint (r ∷ rs) = elim (Bool-cases (gone mint r.wallet)) [
    | inl c ↦ rw c (
        inl
          (refl, (missing_accounts gone mint rs, refl, missing_accounts-AreCreations gone mint rs)))
    | inr c ↦ rw c (inr (refl, missing_accounts-AreCreations gone mint rs))
  ]

  create_transfer_instructions-AreTransfers :
      (mint : ℕ) (rs : List Recipient) → AreTransfers mint rs (create_transfer_instructions mint rs)
  create_transfer_instructions-AreTransfers mint [] = refl
  create_transfer_instructions-AreTransfers mint (r ∷ rs) = (
    create_transfer_instructions mint rs,
    refl,
    create_transfer_instructions-AreTransfers mint rs,
  )

  senders-map : (rs : List Recipient) → senders rs ≡ map (λ r. r.sender) rs
  senders-map [] = refl
  senders-map (r ∷ rs) = ap (◌∷◌ r.sender) (senders-map rs)

  abbrev pub IsTransferred : ℕ → List Recipient → ℕ → ℕ → Result ℕ → Type 0
  IsTransferred mint rs retries n (ok hash) =
      (k : ℕ) × (k ≤ retries)
      × AllFail (attempt_transfer fee missing simulate send mint rs) k n
      × ((creations transfers : List Instruction) × (units : Option ℕ) × AreCreations
            (missing (n + k)) mint rs creations
          × AreTransfers mint rs transfers
          × (simulate (n + k) ((creations ++ transfers) ++ unit_price fee.price ∷ []) ≡ ok units)
          × (send (n + k)
                (((creations ++ transfers) ++ unit_price fee.price ∷ []) ++ limit_of units)
                (map (λ r. r.sender) rs ++ fee.payer ∷ [])
              ≡ ok hash))
  IsTransferred mint rs retries n (err e) =
      AllFail (attempt_transfer fee missing simulate send mint rs) (suc retries) n
      × ((x : Error) × (attempt_transfer fee missing simulate send mint rs (n + retries) ≡ err x)
          × (e ≡ prefixed "Error transferring tokens: " x))

  IsFirst-IsTransferred :
      (mint : ℕ) (rs : List Recipient) (retries n : ℕ) (r : Result ℕ)
      → IsFirst "Error transferring tokens: "
          (attempt_transfer fee missing simulate send mint rs)
          retries
          n
          r
      → IsTransferred mint rs retries n r
  unfolding attempt_transfer send_priced
  IsFirst-IsTransferred mint rs retries n (ok hash) (k, le, before, h) =
      let is = missing_accounts (missing (n + k)) mint rs ++ create_transfer_instructions mint rs in
      let (units, simulated, h') =
        >>=-eq-ok (simulate (n + k) (is ++ unit_price fee.price ∷ [])) _ h in
      (
        k,
        le,
        before,
        (
          missing_accounts (missing (n + k)) mint rs,
          create_transfer_instructions mint rs,
          units,
          missing_accounts-AreCreations (missing (n + k)) mint rs,
          create_transfer_instructions-AreTransfers mint rs,
          simulated,
          subst
              (λ signers.
                send (n + k) ((is ++ unit_price fee.price ∷ []) ++ limit_of units)
                  (signers ++ fee.payer ∷ [])
                ≡ ok hash)
              (senders-map rs) h',
        ),
      )
  IsFirst-IsTransferred mint rs retries n (err e) h = h

  -- A transfer is tried once, and once more for each retry, at most. It answers the hash of the first
  -- attempt that goes through, in which one transaction was sent with an instruction for each missing
  -- account and one transfer for each recipient, from its sender to its wallet, with the limit that its
  -- simulation gave, signed by the senders and the fee payer. Where all the attempts fail, it
  -- throws the error of the last one with a prefix.
  pub transfer-IsTransferred :
      (mint : ℕ) (rs : List Recipient) (retries n : ℕ)
      → IsTransferred mint rs retries n (transfer fee missing simulate send mint rs retries n)
  unfolding transfer
  transfer-IsTransferred mint rs retries n =
      IsFirst-IsTransferred mint rs retries n (transfer fee missing simulate send mint rs retries n)
        (retrying-IsFirst "Error transferring tokens: "
          (attempt_transfer fee missing simulate send mint rs) retries n)
