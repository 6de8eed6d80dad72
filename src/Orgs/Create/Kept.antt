-- ===== src/Orgs/Create/Kept.antt =====
-- What creating an organization's token keeps of the collection (`createToken`,
-- src/orgs/orgs.service.ts), and with it the requests that create an organization.
use mathlib.Core.Path.{subst}
use impact_wallet_server.Base.{
  ℕ, ◌≡◌, refl, sym, ◌∙◌, ◌≢◌, inl, inr, false, Option, none, some, List, [], ◌∷◌, ◌++◌, ◌==◌, find,
  find-append_skip, update_first, same_text, arith, Bool-cases,
}
use impact_wallet_server.Base.Int.{ℤ, pos}
use impact_wallet_server.Base.Http.{Result, ok, ◌>>=◌, Result-cases}
use impact_wallet_server.Members.Schema.{Member}
use impact_wallet_server.Orgs.Schema.{Org}
use impact_wallet_server.Orgs.Mint.{
  has_id, MintInfo, update_mint, update_minted_amount, create_confirmed, create_token, created,
  not_created, in_creation, with_mint_info, add_minted,
}
use impact_wallet_server.Orgs.Create.{same_username}
use impact_wallet_server.Orgs.Create.Founded.{HasUniqueNames}
use impact_wallet_server.Orgs.Create.Founder.{IsAppended}
use impact_wallet_server.Orgs.Update.Names.{HasUniqueIds}

-- A property that the writes of an organization's mint and minted shares keep.
pub record IsClosed (i : ℕ) (P : List Org → Type 0) : Type 0 where
  pub mint : (info : MintInfo) (os : List Org) → P os → P (update_mint i info os)
  pub minted : (amount : ℤ) (os : List Org) → P os → P (update_minted_amount i amount os)

module _ (get_logo : Org → Result (Unit {0})) (create : Org → Result (ℕ × ℕ))
    (confirm : ℕ → Result ℕ) (mint_token : ℕ → ℕ → ℕ → Result ℕ) (P : List Org → Type 0) where
  with_initial :
      (org : Org) (initial : Option (ℕ × ℕ)) (orgs : List Org)
      → IsClosed org.id P
      → (mint : ℕ) → create_confirmed get_logo create confirm mint_token org ≡ ok mint
      → P (update_mint org.id in_creation orgs)
      → P (create_token get_logo create confirm mint_token org initial orgs).0
  unfolding create_token
  with_initial org none orgs c mint r h = rw (r, create_token) (c.mint (created mint) _ h)
  with_initial org (some (wallet, amount)) orgs c mint r h =
      elim (Result-cases (mint_token mint wallet amount >>= confirm)) [
        | inr (e, d) ↦ rw (r, create_token, d) h
        | inl (hash, d) ↦
            rw (r, create_token, d) (c.mint (created mint) _ (c.minted (pos amount) _ h))
      ]

  pub create_token-kept :
      (org : Org) (initial : Option (ℕ × ℕ)) (orgs : List Org)
      → IsClosed org.id P
      → P orgs
      → P (create_token get_logo create confirm mint_token org initial orgs).0
  unfolding create_token
  create_token-kept org initial orgs c h =
      let started = c.mint in_creation orgs h in
      elim (Result-cases (create_confirmed get_logo create confirm mint_token org)) [
        | inr (e, r) ↦ rw (r, create_token) (c.mint (not_created e) _ started)
        | inl (mint, r) ↦ with_initial org initial orgs c mint r started
      ]

-- The collection as it was before an organization with the id `fresh`, with different ids and names.
abbrev pub IsExtended : ℕ → List Org → List Org → Type 0
IsExtended fresh before os =
    HasUniqueIds os
    × HasUniqueNames os
    × ((j : ℕ) → j ≢ fresh → find (has_id j) os ≡ find (has_id j) before)

module _ (i : ℕ) (g : Org → Org) (same_id : (x : Org) → (g x).id ≡ x.id)
    (same_name : (x : Org) → (g x).username ≡ x.username) where
  find_named-update :
      (x : Org) (os : List Org)
      → find (same_username x) os ≡ none
      → find (same_username x) (update_first (has_id i) g os) ≡ none
  find_named-update x [] h = refl
  find_named-update x (y ∷ os) h = ground (arith, find_named-update x os, same_name y)

  find_id-update :
      (j : ℕ) (os : List Org)
      → find (has_id j) os ≡ none
      → find (has_id j) (update_first (has_id i) g os) ≡ none
  find_id-update j [] h = refl
  find_id-update j (y ∷ os) h = ground (arith, find_id-update j os, same_id y)

  find_other-update :
      (j : ℕ) (os : List Org)
      → j ≢ i
      → find (has_id j) (update_first (has_id i) g os) ≡ find (has_id j) os
  find_other-update j [] n = refl
  find_other-update j (y ∷ os) n = ground (arith, find_other-update j os, same_id y)

  HasUniqueNames-kept :
      (os : List Org) → HasUniqueNames os → HasUniqueNames (update_first (has_id i) g os)
  HasUniqueNames-kept [] h = tt
  HasUniqueNames-kept (y ∷ os) h = elim (Bool-cases (y.id == i)) [
    | inl e ↦
        rw e
          (subst (λ n. find (λ z. same_text n z.username) os ≡ none) (sym (same_name y)) h.0, h.1)
    | inr e ↦ rw e (find_named-update y os h.0, HasUniqueNames-kept os h.1)
  ]

  HasUniqueIds-kept :
      (os : List Org) → HasUniqueIds os → HasUniqueIds (update_first (has_id i) g os)
  HasUniqueIds-kept [] h = tt
  HasUniqueIds-kept (y ∷ os) h = elim (Bool-cases (y.id == i)) [
    | inl e ↦ rw e (subst (λ n. find (has_id n) os ≡ none) (sym (same_id y)) h.0, h.1)
    | inr e ↦ rw e (find_id-update y.id os h.0, HasUniqueIds-kept os h.1)
  ]

  IsExtended-kept :
      (before os : List Org)
      → IsExtended i before os
      → IsExtended i before (update_first (has_id i) g os)
  IsExtended-kept before os (ids, names, others) = (
    HasUniqueIds-kept os ids,
    HasUniqueNames-kept os names,
    λ j n. find_other-update j os n ∙ others j n,
  )

pub IsExtended-IsClosed : (i : ℕ) (before : List Org) → IsClosed i (IsExtended i before)
unfolding update_mint update_minted_amount
IsExtended-IsClosed i before = record {
  mint = λ info os h. IsExtended-kept i (with_mint_info info) (λ x. refl) (λ x. refl) before os h;
  minted = λ amount os h. IsExtended-kept i (add_minted amount) (λ x. refl) (λ x. refl) before os h;
}

has_other_id : (j i : ℕ) (o : Org) → o.id ≡ i → j ≢ i → has_id j o ≡ false
has_other_id j i o e n = ground arith

HasUniqueIds-append :
    (o : Org) (os : List Org)
    → HasUniqueIds os
    → find (has_id o.id) os ≡ none
    → HasUniqueIds (os ++ o ∷ [])
HasUniqueIds-append o [] d h = (refl, tt)
HasUniqueIds-append o (x ∷ os) d h = elim (Bool-cases (x.id == o.id)) [
  | inl e ↦ ground arith
  | inr e ↦ (
    find-append_skip (has_id x.id) os o (has_other_id x.id o.id o refl (ground arith)) ∙ d.0,
    HasUniqueIds-append o os d.1 (ground arith),
  )
]

pub IsAppended-IsExtended :
    (fresh : ℕ) (orgs : List Org) (ms : List Member) (o : Org) (m : Member) (orgs' : List Org)
    (ms' : List Member)
    → HasUniqueIds orgs
    → find (has_id fresh) orgs ≡ none
    → IsAppended fresh orgs ms o m orgs' ms'
    → IsExtended fresh orgs orgs'
IsAppended-IsExtended fresh orgs ms o m orgs' ms' d f h =
    let new : find (has_id o.id) orgs ≡ none = rw h.id f in
    (
      subst HasUniqueIds (sym h.last_org) (HasUniqueIds-append o orgs d new),
      h.names,
      λ j n. rw h.last_org (find-append_skip (has_id j) orgs o (has_other_id j fresh o h.id n)),
    )
