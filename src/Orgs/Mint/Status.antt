-- ===== src/Orgs/Mint/Status.antt =====
-- The states of an organization's token.
use impact_wallet_server.Base.{
  ℕ, ◌≡◌, refl, sym, ap, false, Option, none, some, List, [], ◌∷◌, arith, find, find_sound,
  update_first, Option-cases, inl, inr, ◌⊎◌, is_nil,
}
use mathlib.Core.Path.{subst}
use impact_wallet_server.Base.Int.{ℤ, pos, ◌+ℤ◌, +ℤ-zero}
use impact_wallet_server.Base.Http.{Result, ok, err, message_of, ◌>>=◌, Result-cases}
use impact_wallet_server.Orgs.Schema.{Org, in_progress, error, success}
use impact_wallet_server.Orgs.Mint.{
  has_id, MintInfo, with_mint_info, add_minted, update_mint, update_minted_amount, get_by_org_id,
  created, not_created, in_creation, create_confirmed, create_token, ensure_mint_of,
}

find-update :
    (i : ℕ) (g : Org → Org) (orgs : List Org) {o : Org}
    → ((x : Org) → (g x).id ≡ x.id)
    → find (has_id i) orgs ≡ some o
    → find (has_id i) (update_first (has_id i) g orgs) ≡ some (g o)
find-update i g [] k e = cc
find-update i g (x ∷ xs) {o} k e = ground (arith, find-update i g xs {o = o} k, k x)

abbrev pub minted_initially : Option (ℕ × ℕ) → ℤ
minted_initially none = pos 0
minted_initially (some (wallet, amount)) = pos amount

-- What `createToken` has made of the organization, by how it ended.
abbrev pub IsCreated : Option (ℕ × ℕ) → Org → Option Org → Result (Unit {0}) → Type 0
IsCreated initial before none r = ⊥
IsCreated initial before (some o) (ok tt) =
    (is_nil o.mint ≡ false)
    × (o.mint_status ≡ some success)
    × (o.mint_error ≡ none)
    × (o.lamports_minted ≡ before.lamports_minted +ℤ minted_initially initial)
IsCreated initial before (some o) (err e) =
    (o.mint ≡ none)
    × (o.lamports_minted ≡ before.lamports_minted)
    × (((o.mint_status ≡ some error) × (o.mint_error ≡ message_of e))
        ⊎ ((o.mint_status ≡ some in_progress) × (is_nil initial ≡ false)))

module _ (get_logo : Org → Result (Unit {0})) (create : Org → Result (ℕ × ℕ))
    (confirm : ℕ → Result ℕ) (mint_token : ℕ → ℕ → ℕ → Result ℕ) where
  started_lem :
      (i : ℕ) (info : MintInfo) (orgs : List Org) {o : Org}
      → find (has_id i) orgs ≡ some o
      → find (has_id i) (update_mint i info orgs) ≡ some (with_mint_info info o)
  unfolding update_mint
  started_lem i info orgs {o} h = find-update i (with_mint_info info) orgs {o = o} (λ x. refl) h

  started_at :
      (j i : ℕ)
      → j ≡ i
      → (info : MintInfo) (orgs : List Org) {o : Org} → find (has_id i) orgs ≡ some o
      → find (has_id i) (update_mint j info orgs) ≡ some (with_mint_info info o)
  started_at j i e info orgs {o} h =
      subst (λ x. find (has_id i) (update_mint x info orgs) ≡ some (with_mint_info info o)) (sym e)
        (started_lem i info orgs h)

  minted_lem :
      (i : ℕ) (amount : ℤ) (orgs : List Org) {o : Org}
      → find (has_id i) orgs ≡ some o
      → find (has_id i) (update_minted_amount i amount orgs) ≡ some (add_minted amount o)
  unfolding update_minted_amount
  minted_lem i amount orgs {o} h = find-update i (add_minted amount) orgs {o = o} (λ x. refl) h

  created_lem :
      (org : Org) (initial : Option (ℕ × ℕ)) (orgs : List Org) (before : Org) (mint : ℕ)
      → find (has_id org.id) orgs ≡ some before
      → create_confirmed get_logo create confirm mint_token org ≡ ok mint
      → let r : List Org × Result (Unit {0}) =
          create_token get_logo create confirm mint_token org initial orgs in
        IsCreated initial before (find (has_id org.id) r.0) r.1
  unfolding create_token
  created_lem org none orgs before mint h c =
      let orgs' = update_mint org.id in_creation orgs in
      let h' = started_lem org.id in_creation orgs {o = before} h in
      rw (c, create_token, started_lem org.id (created mint) orgs' h')
        (refl, refl, refl, sym (+ℤ-zero before.lamports_minted))
  created_lem org (some (wallet, amount)) orgs before mint h c =
      let orgs' = update_mint org.id in_creation orgs in
      let h' = started_lem org.id in_creation orgs {o = before} h in
      let m' = minted_lem org.id (pos amount) orgs' h' in
      elim (Result-cases (mint_token mint wallet amount >>= confirm)) [
        | inr (e, d) ↦ rw (c, create_token, d, h') (refl, refl, inr (refl, refl))
        | inl (hash, d) ↦
            rw
              (
                c,
                create_token,
                d,
                started_lem org.id (created mint) (update_minted_amount org.id (pos amount) orgs')
                    m',
              )
              (refl, refl, refl, refl)
      ]

  -- Of an organization of the collection, `createToken` that returns leaves it with a mint, the
  -- status `success`, no error, and as many more shares minted as the initial mint says; one that
  -- throws leaves it without a mint and with no more shares minted than before, in the status `error`
  -- with the message, or, only where there is an initial mint, in progress.
  pub create_token-IsCreated :
      (org : Org) (initial : Option (ℕ × ℕ)) (orgs : List Org) (before : Org)
      → find (has_id org.id) orgs ≡ some before
      → let r : List Org × Result (Unit {0}) =
          create_token get_logo create confirm mint_token org initial orgs in
        IsCreated initial before (find (has_id org.id) r.0) r.1
  unfolding create_token
  create_token-IsCreated org initial orgs before h =
      let orgs' = update_mint org.id in_creation orgs in
      let h' = started_lem org.id in_creation orgs {o = before} h in
      elim (Result-cases (create_confirmed get_logo create confirm mint_token org)) [
        | inr (e, c) ↦
            rw (c, create_token, started_lem org.id (not_created e) orgs' h')
              (refl, refl, inl (refl, refl))
        | inl (mint, c) ↦ created_lem org initial orgs before mint h c
      ]

  -- What `ensureMint` has made of the organization: it does nothing where there is a mint, creates one
  -- where there is none, and keeps the error of a creation that fails.
  abbrev pub IsEnsured : ℕ → List Org → Org → List Org × Result (Unit {0}) → Type 0
  IsEnsured org_id orgs before (orgs', ok tt) =
      ((orgs' ≡ orgs) × (is_nil before.mint ≡ false))
      ⊎ ((before.mint ≡ none)
          × ((mint : ℕ) × (find (has_id org_id) orgs'
                ≡ some (with_mint_info (created mint) before))))
  IsEnsured org_id orgs before (orgs', err e) =
      (before.mint ≡ none)
      × (find (has_id org_id) orgs' ≡ some (with_mint_info (not_created e) before))

  -- Once `ensureMint` has waited, an organization that has a mint is left as it is and no token is
  -- created; one without gets a created mint with the status `success`, or the call throws, and the
  -- status is `error` with the message of what it throws.
  ensure_mint_of-IsEnsured :
      (org_id : ℕ) (orgs : List Org) (before : Org)
      → find (has_id org_id) orgs ≡ some before
      → IsEnsured org_id orgs before (ensure_mint_of get_logo create confirm mint_token org_id orgs)
  unfolding ensure_mint_of get_by_org_id
  ensure_mint_of-IsEnsured org_id orgs before h =
      let same : before.id ≡ org_id = ground (arith, find_sound (has_id org_id) orgs h) in
      elim (Option-cases before.mint) [
        | inr (m, e) ↦ rw (h, ensure_mint_of, ap is_nil e) (inl (refl, ap is_nil e))
        | inl e ↦ elim (Result-cases (create_confirmed get_logo create confirm mint_token before)) [
          | inr (x, c) ↦
              rw (h, ensure_mint_of, ap is_nil e, c)
                (e, started_at before.id org_id same (not_created x) orgs h)
          | inl (m, c) ↦
              rw (h, ensure_mint_of, ap is_nil e, c)
                (inr (e, (m, started_at before.id org_id same (created m) orgs h)))
        ]
      ]
