-- ===== src/Deposit.antt =====
-- src/deposit: `handleDeposit` (src/deposit/deposit.service.ts), which mints the credits that were paid
-- for. The credits are minted by the chain's client, a parameter.
use mathlib.Core.Path.{subst}
use impact_wallet_server.Base.{
  ℕ, String, ◌≡◌, refl, sym, ◌⊎◌, inl, inr, Bool, Option, none, some, List, [], ◌∷◌, ◌==◌, ==_iff,
  find, find_sound, update_first, Bool-cases, Option-cases, arith,
}
use impact_wallet_server.Base.Http.{
  Error, Result, ok, err, ◌>>=◌, not_found, type_error, message_of, Result-cases, >>=-eq-ok,
  match_option, ok_inj,
}
use impact_wallet_server.Users.Schema.{User}
use impact_wallet_server.Orgs.Schema.{Org}
use impact_wallet_server.Payment.Split.{has_user_id, has_org_id}

-- `DepositStatus`
pub data DepositStatus : Type 0 where
  pending fulfilled : DepositStatus

pub record Deposit : Type 0 where
  pub id : ℕ
  pub amount : ℕ
  pub user : Option ℕ
  pub org_user : Option ℕ
  pub status : DepositStatus
  pub txn_hash : Option ℕ
  pub error : Option String

pub record DepositStore : Type 0 where
  pub users : List User
  pub orgs : List Org
  pub deposits : List Deposit

abbrev pub has_deposit_id : ℕ → Deposit → Bool
has_deposit_id i d = d.id == i

-- `populate('user orgUser')`
abbrev pub deposit_user : Deposit → List User → Option User
deposit_user d users = elim d.user [ none ↦ none | some i ↦ find (has_user_id i) users ]

abbrev pub deposit_org : Deposit → List Org → Option Org
deposit_org d orgs = elim d.org_user [ none ↦ none | some i ↦ find (has_org_id i) orgs ]

-- The wallet of the user, or else of the organization.
unfoldable pub deposit_wallet : Deposit → DepositStore → Result (Option ℕ)
deposit_wallet d s = elim (deposit_user d s.users) [
  | some u ↦ ok u.wallet
  | none ↦ elim (deposit_org d s.orgs) [ some o ↦ ok o.wallet | none ↦ err type_error ]
]

-- `deposit.save()`
abbrev pub save_deposit : Deposit → DepositStore → DepositStore
save_deposit d s = record s { deposits = update_first (has_deposit_id d.id) (λ x. d) s.deposits }

abbrev pub fulfilled_deposit : ℕ → ℕ → Deposit → Deposit
fulfilled_deposit amount hash d = record d {
  amount = amount;
  status = fulfilled;
  txn_hash = some hash;
}

abbrev pub failed_deposit : ℕ → Error → Deposit → Deposit
failed_deposit amount e d = record d { amount = amount; error = message_of e }

-- Whose wallet a deposit is paid to: its user's, and where no user is found, its organization's.
abbrev pub IsDepositWallet : Deposit → DepositStore → Option ℕ → Type 0
IsDepositWallet d s wallet =
    ((i : ℕ) × (u : User) × (d.user ≡ some i)
      × (find (has_user_id i) s.users ≡ some u)
      × (wallet ≡ u.wallet))
    ⊎ (((i : ℕ) → d.user ≡ some i → find (has_user_id i) s.users ≡ none)
        × ((i : ℕ) × (o : Org) × (d.org_user ≡ some i)
            × (find (has_org_id i) s.orgs ≡ some o)
            × (wallet ≡ o.wallet)))

deposit_user-none :
    (d : Deposit) (users : List User) (i : ℕ)
    → deposit_user d users ≡ none
    → d.user ≡ some i
    → find (has_user_id i) users ≡ none
deposit_user-none d users i h e = rw e at h

deposit_wallet-IsDepositWallet :
    (d : Deposit) (s : DepositStore) {wallet : Option ℕ}
    → deposit_wallet d s ≡ ok wallet
    → IsDepositWallet d s wallet
unfolding deposit_wallet
deposit_wallet-IsDepositWallet d s h = elim (match_option (deposit_user d s.users) _ _ h) [
  | inr (u, c, k) ↦ elim (match_option d.user _ _ c) [
    | inl (_, c') ↦ cc
    | inr (i, e, c') ↦ inl (i, u, e, c', sym (ok_inj k))
  ]
  | inl (c, k) ↦ elim (match_option (deposit_org d s.orgs) _ _ k) [
    | inl (_, k') ↦ cc
    | inr (o, c', k') ↦ elim (match_option d.org_user _ _ c') [
      | inl (_, c'') ↦ cc
      | inr (i, e, c'') ↦
          inr ((λ j. deposit_user-none d s.users j c), (i, o, e, c'', sym (ok_inj k')))
    ]
  ]
]

module _ (mint : Option ℕ → ℕ → Result ℕ) where
  -- The transaction: the hash of the mint.
  unfoldable pub mint_deposit : ℕ → Deposit → DepositStore → Result ℕ
  unfolding deposit_wallet
  mint_deposit amount d s = deposit_wallet d s >>= λ wallet. mint wallet amount

  -- What throws is written to the deposit, and thrown on.
  unfoldable pub handle_deposit : ℕ → ℕ → DepositStore → DepositStore × Result (Unit {0})
  unfolding mint_deposit
  handle_deposit i amount s = elim (find (has_deposit_id i) s.deposits) [
    | none ↦ (s, err (not_found "Deposit not found"))
    | some d ↦ elim (mint_deposit amount d s) [
      | err e ↦ (save_deposit (failed_deposit amount e d) s, err e)
      | ok hash ↦ (save_deposit (fulfilled_deposit amount hash d) s, ok tt)
    ]
  ]

  find_deposit_saved :
      (i : ℕ) (d' : Deposit) (ds : List Deposit) {d : Deposit}
      → d'.id ≡ i
      → find (has_deposit_id i) ds ≡ some d
      → find (has_deposit_id i) (update_first (has_deposit_id d'.id) (λ x. d') ds) ≡ some d'
  find_deposit_saved i d' [] h e = cc
  find_deposit_saved i d' (x ∷ ds) {d} h e = elim (Bool-cases (x.id == i)) [
    | inl c ↦ ground (arith, c, h)
    | inr c ↦ ground (arith, c, h, e, find_deposit_saved i d' ds {d = d})
  ]

  no_deposit :
      (i amount : ℕ) (s : DepositStore)
      → find (has_deposit_id i) s.deposits ≡ none
      → handle_deposit i amount s ≡ (s, err (not_found "Deposit not found"))
  unfolding handle_deposit
  no_deposit i amount s c = rw (c, handle_deposit) refl

  minted :
      (i amount : ℕ) (s : DepositStore) {d : Deposit} {hash : ℕ}
      → find (has_deposit_id i) s.deposits ≡ some d
      → mint_deposit amount d s ≡ ok hash
      → handle_deposit i amount s ≡ (save_deposit (fulfilled_deposit amount hash d) s, ok tt)
  unfolding handle_deposit
  minted i amount s c h = rw (c, h, handle_deposit) refl

  not_minted :
      (i amount : ℕ) (s : DepositStore) {d : Deposit} {e : Error}
      → find (has_deposit_id i) s.deposits ≡ some d
      → mint_deposit amount d s ≡ err e
      → handle_deposit i amount s ≡ (save_deposit (failed_deposit amount e d) s, err e)
  unfolding handle_deposit
  not_minted i amount s c h = rw (c, h, handle_deposit) refl

  -- How a call of `handleDeposit` ends.
  abbrev pub IsHandled : ℕ → ℕ → DepositStore → DepositStore → Result (Unit {0}) → Type 0
  IsHandled i amount s s' (ok _) =
      (d : Deposit) × (wallet : Option ℕ) × (hash : ℕ) × (find (has_deposit_id i) s.deposits
        ≡ some d)
      × IsDepositWallet d s wallet
      × (mint wallet amount ≡ ok hash)
      × (find (has_deposit_id i) s'.deposits
          ≡ some (record d { amount = amount; status = fulfilled; txn_hash = some hash }))
  IsHandled i amount s s' (err e) =
      ((find (has_deposit_id i) s.deposits ≡ none) × (s' ≡ s))
      ⊎ ((d : Deposit) × (find (has_deposit_id i) s.deposits ≡ some d)
          × (mint_deposit amount d s ≡ err e)
          × (find (has_deposit_id i) s'.deposits
              ≡ some (record d { amount = amount; error = message_of e })))

  -- A deposit that is handled is fulfilled with the amount and the hash of a mint of that amount to the
  -- wallet of its user or, where no user is found, of its organization. A call that throws has either found no deposit and
  -- changed nothing, or written the amount and the error's message to the deposit, which keeps its
  -- status and its hash.
  pub handle_deposit-IsHandled :
      (i amount : ℕ) (s : DepositStore)
      → IsHandled i amount s (handle_deposit i amount s).0 (handle_deposit i amount s).1
  unfolding handle_deposit mint_deposit
  handle_deposit-IsHandled i amount s = elim (Option-cases (find (has_deposit_id i) s.deposits)) [
    | inl c ↦
        subst (λ w. IsHandled i amount s w.0 w.1) (sym (no_deposit i amount s c)) (inl (c, refl))
    | inr (d, c) ↦
        let same = (==_iff d.id i).0 (find_sound (has_deposit_id i) s.deposits c) in
        elim (Result-cases (mint_deposit amount d s)) [
          | inl (hash, h) ↦
              let (wallet, hw, hm) = >>=-eq-ok (deposit_wallet d s) _ h in
              subst (λ w. IsHandled i amount s w.0 w.1) (sym (minted i amount s c h))
                (
                  d,
                  wallet,
                  hash,
                  c,
                  deposit_wallet-IsDepositWallet d s hw,
                  hm,
                  find_deposit_saved i (fulfilled_deposit amount hash d) s.deposits same c,
                )
          | inr (e, h) ↦
              subst (λ w. IsHandled i amount s w.0 w.1) (sym (not_minted i amount s c h))
                (inr (d, c, h, find_deposit_saved i (failed_deposit amount e d) s.deposits same c))
        ]
  ]
