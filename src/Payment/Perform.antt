-- ===== src/Payment/Perform.antt =====
-- `performPayment` (src/payment/payment.service.ts): which wallet pays, the transfers of the payment
-- and of the commission, and the two payments that are split afterwards.
use impact_wallet_server.Base.{
  ℕ, ◌*◌, ◌≤◌, ◌≡◌, refl, Bool, not, ◌&&◌, Option, none, some, List, [], ◌∷◌, ltb, leb,
  if◌then◌else◌, arith, ◌⊎◌, inl, inr, true, false,
}
use mathlib.Core.Path.{subst}
use impact_wallet_server.Base.Int.{ℤ, pos, ◌+ℤ◌, ◌-ℤ◌, int_laws}
use impact_wallet_server.Base.Round.{round_div, round_div-le, IsNear, IsNear-round_div}
use impact_wallet_server.Base.Http.{
  Result, ok, ◌>>=◌, ◌>>◌, throw_if, bad_request, >>=-eq-ok, ok_inj,
}

-- One transfer of credits.
pub record Transfer : Type 0 where
  pub from : Option ℕ
  pub to : Option ℕ
  pub amount : ℕ

-- The hash of the transaction that is sent, and the amounts that `handleRegularPayment` is called with
-- for the organization and for the root organization.
pub record Performed : Type 0 where
  pub txn_hash : ℕ
  pub org_payment : ℤ
  pub root_payment : ℕ

-- `toFixed(toBigJs(payment.amount).mul(+process.env.COMMISSION), 6)`, the commission in 10^-6
abbrev pub commission_amount : ℕ → ℕ → ℕ
commission_amount amount commission = round_div (amount * commission) 1000000

chosen :
    (b c : Bool) (x y : Option ℕ)
    → ((if b then if c then x else y else y) ≡ y)
      ⊎ ((b ≡ true) × ((if b then if c then x else y else y) ≡ x))
chosen true true x y = inr (refl, refl)
chosen true false x y = inl refl
chosen false c x y = inl refl

module _ (onboarding : Bool) (native_balance : Option ℕ → ℕ) where
  -- `bonusBalance`, which is 0 without a bonus wallet
  abbrev pub bonus_balance : Option ℕ → ℕ
  bonus_balance none = 0
  bonus_balance (some w) = if onboarding then native_balance (some w) else 0

  -- The guards: with onboarding one of the two balances has to be enough, without it the wallet's.
  unfoldable pub check_funds : Option ℕ → Option ℕ → ℕ → Result (Unit {0})
  check_funds wallet bonus_wallet amount =
      throw_if
        (onboarding
          && ltb (native_balance wallet) amount
          && ltb (bonus_balance bonus_wallet) amount)
        (bad_request "Insufficient funds")
      >> throw_if (not onboarding && ltb (native_balance wallet) amount)
          (bad_request "Insufficient funds")

  unfoldable pub sender_wallet : Option ℕ → Option ℕ → ℕ → Option ℕ
  sender_wallet wallet bonus_wallet amount =
      if onboarding
      then if leb amount (bonus_balance bonus_wallet) then bonus_wallet else wallet
      else wallet

  -- `send transfers` sends the transaction and answers its hash; the wallets are the account's, its
  -- user's bonus wallet, the organization's and the root organization's.
  unfoldable pub perform_payment :
      (List Transfer → Result ℕ)
      → ℕ
      → ℕ
      → Option ℕ
      → Option ℕ
      → Option ℕ
      → Option ℕ
      → Result Performed
  unfolding check_funds sender_wallet
  perform_payment send commission amount wallet bonus_wallet org_wallet root_wallet =
      let fee = commission_amount amount commission in
      let transfers =
        record { from = sender_wallet wallet bonus_wallet amount; to = org_wallet; amount = amount }
        ∷ record { from = org_wallet; to = root_wallet; amount = fee }
        ∷ [] in
      check_funds wallet bonus_wallet amount >>= λ _. send transfers >>= λ hash.
      ok (record { txn_hash = hash; org_payment = pos amount -ℤ pos fee; root_payment = fee })

  -- The wallet that pays has the amount, unless nothing is paid; the transaction that is sent has two
  -- transfers; and the commission is the rounded part of the amount.
  abbrev pub IsPaid :
      (List Transfer → Result ℕ)
      → ℕ
      → ℕ
      → Option ℕ
      → Option ℕ
      → Option ℕ
      → Option ℕ
      → Performed
      → Type 0
  IsPaid send commission amount wallet bonus_wallet org_wallet root_wallet p =
      (from : Option ℕ) × ((from ≡ wallet) ⊎ ((onboarding ≡ true) × (from ≡ bonus_wallet)))
      × ((amount ≤ native_balance from) ⊎ (amount ≡ 0))
      × (send (
            record { from = from; to = org_wallet; amount = amount }
            ∷ record { from = org_wallet; to = root_wallet; amount = p.root_payment }
            ∷ [])
          ≡ ok p.txn_hash)
      × (p.org_payment +ℤ pos p.root_payment ≡ pos amount)
      × IsNear 1000000 (amount * commission) 1 p.root_payment

  pub sender_has :
      (wallet bonus_wallet : Option ℕ) (amount : ℕ) {u : Unit {0}}
      → check_funds wallet bonus_wallet amount ≡ ok u
      → (amount ≤ native_balance (sender_wallet wallet bonus_wallet amount)) ⊎ (amount ≡ 0)
  unfolding check_funds sender_wallet
  sender_has wallet none amount h = ground arith
  sender_has wallet (some b) amount h = ground arith

  pub sender_own :
      (wallet bonus_wallet : Option ℕ) (amount : ℕ)
      → (sender_wallet wallet bonus_wallet amount ≡ wallet)
        ⊎ ((onboarding ≡ true) × (sender_wallet wallet bonus_wallet amount ≡ bonus_wallet))
  unfolding sender_wallet
  sender_own wallet bonus_wallet amount =
      chosen onboarding (leb amount (bonus_balance bonus_wallet)) bonus_wallet wallet

  -- A payment that is performed comes from the payer's wallet or, with onboarding, its bonus wallet,
  -- which has the amount, unless the amount is 0. In the one transaction that is sent the organization
  -- receives the amount and passes the commission, the rounded part of the amount, on to the root
  -- organization; the payment has its hash; and the
  -- two payments that are split afterwards add up to the amount, the root's being at most all of it
  -- where the commission is at most the whole.
  pub perform_payment-IsPaid :
      (send : List Transfer → Result ℕ) (commission amount : ℕ)
      (wallet bonus_wallet org_wallet root_wallet : Option ℕ) (p : Performed)
      → commission ≤ 1000000
      → perform_payment send commission amount wallet bonus_wallet org_wallet root_wallet ≡ ok p
      → IsPaid send commission amount wallet bonus_wallet org_wallet root_wallet p
        × (p.root_payment ≤ amount)
  unfolding perform_payment
  perform_payment-IsPaid send commission amount wallet bonus_wallet org_wallet root_wallet p c h =
      let (_, funds, h1) = >>=-eq-ok (check_funds wallet bonus_wallet amount) _ h in
      let (hash, went, h2) = >>=-eq-ok (send _) _ h1 in
      subst
        (λ x.
          IsPaid send commission amount wallet bonus_wallet org_wallet root_wallet x
          × (x.root_payment ≤ amount))
        (ok_inj h2)
        (
          (
            sender_wallet wallet bonus_wallet amount,
            sender_own wallet bonus_wallet amount,
            sender_has wallet bonus_wallet amount funds,
            went,
            omega int_laws,
            IsNear-round_div 1000000 (amount * commission) (omega arith),
          ),
          round_div-le (amount * commission) amount 1000000 (omega arith) (grind arith),
        )
