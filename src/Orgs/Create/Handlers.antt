-- ===== src/Orgs/Create/Handlers.antt =====
-- The requests that create an organization: `createOrg` (src/orgs/orgs.service.ts) and `createOrgLite`
-- (src/orgs/orgs.service.lite.ts), with the token that is created after the answer.
use impact_wallet_server.Base.{
  ℕ, String, ◌≡◌, refl, Bool, true, false, Option, none, some, List, ==_iff, find, find-append_last,
  Option-cases, inl, inr,
}
use mathlib.Core.Path.{subst}
use impact_wallet_server.Base.Http.{Error, Result, ok, err, ◌>>=◌, type_error, >>=-eq-ok, ok_inj}
use impact_wallet_server.Auth.{
  AccountModel, account_id, account_wallet, Header, Jwt, get_account_from_token, permission_check,
}
use impact_wallet_server.Members.Schema.{Member}
use impact_wallet_server.Members.Unique.{IsSound}
use impact_wallet_server.Offers.Sale.{is_seller_member}
use impact_wallet_server.Orgs.Schema.{Org}
use impact_wallet_server.Users.Send.{SendStore}
use impact_wallet_server.Orgs.Mint.{has_id, create_token}
use impact_wallet_server.Orgs.Mint.Status.{IsCreated, create_token-IsCreated}
use impact_wallet_server.Orgs.Create.{CreateOrgDto, create_organization, create_organization_lite}
use impact_wallet_server.Orgs.Create.Founded.{HasUniqueNames}
use impact_wallet_server.Orgs.Create.Founder.{
  founded_lite, create_organization_lite-permission_check,
}

-- The answer's organization, the organizations and what creating the token has come to, and the members.
abbrev pub Created : Type 0
Created = Org × (List Org × Result (Unit {0})) × List Member

-- The amount of the initial mint, in whole shares, which `createToken` adds as it is to what is minted.
abbrev pub initial_amount : ℕ
initial_amount = 100

module _ {Token : Type 0} (jwt : Jwt Token) (status : Error → Option ℕ) (create_wallet : Result ℕ)
    (get_logo : Org → Result (Unit {0})) (create : Org → Result (ℕ × ℕ)) (confirm : ℕ → Result ℕ)
    (mint_token : ℕ → ℕ → ℕ → Result ℕ) where
  -- `createToken(org, initialMint)`; shares cannot be minted to a wallet that is missing
  unfoldable pub founder_token : AccountModel → Org → List Org → List Org × Result (Unit {0})
  unfolding create_token
  founder_token a o orgs = elim (account_wallet a) [
    | some w ↦ create_token get_logo create confirm mint_token o (some (w, initial_amount)) orgs
    | none ↦
        create_token get_logo create confirm (λ mint wallet amount. err type_error) o
          (some (0, initial_amount)) orgs
  ]

  -- `if (!mock) this.createToken(org)`
  unfoldable pub background_token : Bool → Org → List Org → List Org × Result (Unit {0})
  unfolding create_token
  background_token true o orgs = (orgs, ok tt)
  background_token false o orgs = create_token get_logo create confirm mint_token o none orgs

  unfoldable pub create_org :
      ℕ
      → Option (Header Token)
      → CreateOrgDto
      → Result (Option String)
      → Bool
      → SendStore
      → Result Created
  unfolding create_organization background_token get_account_from_token
  create_org fresh header dto logo mock s =
      get_account_from_token jwt header s.users s.orgs >>= λ a.
      create_organization status create_wallet fresh dto logo mock s.orgs s.members >>= λ made.
      ok (made.0, background_token mock made.0 made.1, made.2)

  unfoldable pub create_org_lite :
      ℕ
      → Option (Header Token)
      → CreateOrgDto
      → Result (Option String)
      → Bool
      → SendStore
      → Result Created
  unfolding create_organization_lite founder_token get_account_from_token
  create_org_lite fresh header dto logo mock s =
      get_account_from_token jwt header s.users s.orgs >>= λ a.
      create_organization_lite status create_wallet fresh a dto logo mock s.orgs s.members
      >>= λ made. ok (made.0, founder_token a made.0 made.1, made.2)

  founder_token-IsCreated :
      (a : AccountModel) (o : Org) (orgs : List Org)
      → find (has_id o.id) orgs ≡ some o
      → (w : ℕ) × IsCreated
          (some (w, initial_amount))
          o
          (find (has_id o.id) (founder_token a o orgs).0)
          (founder_token a o orgs).1
  unfolding founder_token
  founder_token-IsCreated a o orgs h = elim (Option-cases (account_wallet a)) [
    | inl c ↦ (
      0,
      rw (c, founder_token)
          (create_token-IsCreated get_logo create confirm (λ mint wallet amount. err type_error) o
            (some (0, initial_amount)) orgs o h),
    )
    | inr (w, c) ↦ (
      w,
      rw (c, founder_token)
          (create_token-IsCreated get_logo create confirm mint_token o (some (w, initial_amount))
            orgs o h),
    )
  ]

  -- An organization is created in the lite client, with different usernames, sound members and a new
  -- id: the request has the token of an account, and when the server has answered and the token has
  -- been created or not, the account may act for the organization, which either has a token of which
  -- the initial amount is booked as minted, or none and no shares booked.
  pub create_org_lite-IsCreated :
      (fresh : ℕ) (header : Option (Header Token)) (dto : CreateOrgDto)
      (logo : Result (Option String)) (mock : Bool) (s : SendStore) {o : Org}
      {token : List Org × Result (Unit {0})} {ms' : List Member}
      → HasUniqueNames s.orgs
      → IsSound s.members
      → find (has_id fresh) s.orgs ≡ none
      → ((i : ℕ) → find (is_seller_member i fresh) s.members ≡ none)
      → create_org_lite fresh header dto logo mock s ≡ ok (o, token, ms')
      → (a : AccountModel) × (w : ℕ) × (get_account_from_token jwt header s.users s.orgs ≡ ok a)
        × (permission_check o.id a ms' ≡ ok tt)
        × IsCreated (some (w, initial_amount)) o (find (has_id o.id) token.0) token.1
  unfolding create_org_lite
  create_org_lite-IsCreated fresh header dto logo mock s {o} {token} {ms'} u h f n c =
      let (a, ha, c1) = >>=-eq-ok (get_account_from_token jwt header s.users s.orgs) _ c in
      let (made, hm, c2) =
        >>=-eq-ok
          (create_organization_lite status create_wallet fresh a dto logo mock s.orgs s.members) _
          c1 in
      let (m, appended) =
        founded_lite status create_wallet fresh a dto logo mock s.orgs s.members u h f hm in
      let granted =
        create_organization_lite-permission_check status create_wallet fresh a dto logo mock s.orgs
          s.members u h f (n (account_id a)) hm in
      let new : find (has_id made.0.id) s.orgs ≡ none = rw appended.id f in
      let own : has_id made.0.id made.0 ≡ true = (==_iff made.0.id made.0.id).1 refl in
      let stored : find (has_id made.0.id) made.1 ≡ some made.0 =
        rw appended.last_org (find-append_last (has_id made.0.id) s.orgs made.0 new own) in
      let (w, its) = founder_token-IsCreated a made.0 made.1 stored in
      (
        a,
        w,
        ha,
        subst (λ r. permission_check r.0.id a r.2 ≡ ok tt) (ok_inj c2) granted,
        subst (λ r. IsCreated (some (w, initial_amount)) r.0 (find (has_id r.0.id) r.1.0) r.1.1)
            (ok_inj c2) its,
      )
