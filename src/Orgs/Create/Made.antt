-- ===== src/Orgs/Create/Made.antt =====
-- What `createOrg` and `createOrgLite` make of the collections (src/orgs/orgs.service.ts,
-- src/orgs/orgs.service.lite.ts), the token that is created in the background included.
use mathlib.Core.Path.{subst}
use impact_wallet_server.Base.{
  ℕ, String, ◌≡◌, sym, inl, inr, Bool, true, false, Option, none, some, List, [], ◌∷◌, ◌++◌, find,
  Option-cases,
}
use impact_wallet_server.Base.Http.{Error, Result, ok, err, >>=-eq-ok, ok_inj, type_error}
use impact_wallet_server.Auth.{Header, Jwt, AccountModel, account_wallet, get_account_from_token}
use impact_wallet_server.Members.Schema.{Member}
use impact_wallet_server.Members.Unique.{IsSound}
use impact_wallet_server.Orgs.Schema.{Org}
use impact_wallet_server.Orgs.Mint.{has_id}
use impact_wallet_server.Orgs.Create.{CreateOrgDto, create_organization, create_organization_lite}
use impact_wallet_server.Orgs.Create.Founded.{HasUniqueNames}
use impact_wallet_server.Orgs.Create.Founder.{founded_member, founded_lite}
use impact_wallet_server.Orgs.Create.Handlers.{
  Created, founder_token, create_org, create_org_lite, initial_amount, background_token,
}
use impact_wallet_server.Orgs.Update.Names.{HasUniqueIds}
use impact_wallet_server.Users.Send.{SendStore}
use impact_wallet_server.Orgs.Create.Kept.{
  IsClosed, IsExtended, create_token-kept, IsExtended-IsClosed, IsAppended-IsExtended,
}

-- What a request that creates an organization has made of the collections.
pub record IsMade (fresh : ℕ) (before : SendStore) (c : Created) : Type 0 where
  pub organization : IsExtended fresh before.orgs c.1.0
  pub sound : IsSound c.2
  pub first : Member
  pub appended : c.2 ≡ before.members ++ record first { org = fresh } ∷ []

module _ {Token : Type 0} (jwt : Jwt Token) (status : Error → Option ℕ) (create_wallet : Result ℕ)
    (get_logo : Org → Result (Unit {0})) (create : Org → Result (ℕ × ℕ)) (confirm : ℕ → Result ℕ)
    (mint_token : ℕ → ℕ → ℕ → Result ℕ) (fresh : ℕ) (s : SendStore) (d : HasUniqueIds s.orgs)
    (u : HasUniqueNames s.orgs) (h : IsSound s.members)
    (f : find (has_id fresh) s.orgs ≡ none) where
  founder_token-kept :
      (a : AccountModel) (o : Org) (orgs : List Org)
      → o.id ≡ fresh
      → IsExtended fresh s.orgs orgs
      → IsExtended fresh s.orgs
          (founder_token jwt status create_wallet get_logo create confirm mint_token a o orgs).0
  unfolding founder_token
  founder_token-kept a o orgs e k =
      let closed : IsClosed o.id (IsExtended fresh s.orgs) =
        subst (λ i. IsClosed i (IsExtended fresh s.orgs)) (sym e)
          (IsExtended-IsClosed fresh s.orgs) in
      elim (Option-cases (account_wallet a)) [
        | inl c ↦
            rw (c, founder_token)
              (create_token-kept get_logo create confirm (λ mint wallet amount. err type_error)
                (IsExtended fresh s.orgs) o (some (0, initial_amount)) orgs closed k)
        | inr (w, c) ↦
            rw (c, founder_token)
              (create_token-kept get_logo create confirm mint_token (IsExtended fresh s.orgs) o
                (some (w, initial_amount)) orgs closed k)
      ]

  pub create_org_lite-IsMade :
      (header : Option (Header Token)) (dto : CreateOrgDto) (logo : Result (Option String))
      (mock : Bool) (c : Created)
      → create_org_lite jwt status create_wallet get_logo create confirm mint_token fresh header dto
          logo mock s
        ≡ ok c
      → IsMade fresh s c
  unfolding create_org_lite
  create_org_lite-IsMade header dto logo mock c e =
      let (a, ha, e1) = >>=-eq-ok (get_account_from_token jwt header s.users s.orgs) _ e in
      let (made, hm, e2) =
        >>=-eq-ok
          (create_organization_lite status create_wallet fresh a dto logo mock s.orgs s.members) _
          e1 in
      let (m, k) =
        founded_lite status create_wallet fresh a dto logo mock s.orgs s.members u h f hm in
      let extended =
        founder_token-kept a made.0 made.1 k.id
          (IsAppended-IsExtended fresh s.orgs s.members made.0 m made.1 made.2 d f k) in
      subst (IsMade fresh s) (ok_inj e2)
        (record { organization = extended; sound = k.sound; first = m; appended = k.last_member })

  create_org_token :
      (mock : Bool) (o : Org) (orgs : List Org)
      → o.id ≡ fresh
      → IsExtended fresh s.orgs orgs
      → IsExtended fresh s.orgs
          (background_token jwt status create_wallet get_logo create confirm mint_token mock o
            orgs).0
  unfolding background_token
  create_org_token true o orgs e k = k
  create_org_token false o orgs e k =
      create_token-kept get_logo create confirm mint_token (IsExtended fresh s.orgs) o none orgs
        (subst (λ i. IsClosed i (IsExtended fresh s.orgs)) (sym e)
          (IsExtended-IsClosed fresh s.orgs))
        k

  pub create_org-IsMade :
      (header : Option (Header Token)) (dto : CreateOrgDto) (logo : Result (Option String))
      (mock : Bool) (c : Created)
      → create_org jwt status create_wallet get_logo create confirm mint_token fresh header dto logo
          mock s
        ≡ ok c
      → IsMade fresh s c
  unfolding create_org
  create_org-IsMade header dto logo mock c e =
      let (a, ha, e1) = >>=-eq-ok (get_account_from_token jwt header s.users s.orgs) _ e in
      let (made, hm, e2) =
        >>=-eq-ok (create_organization status create_wallet fresh dto logo mock s.orgs s.members) _
          e1 in
      let (m, _, k) =
        founded_member status create_wallet fresh dto logo mock s.orgs s.members u h f hm in
      let extended =
        create_org_token mock made.0 made.1 k.id
          (IsAppended-IsExtended fresh s.orgs s.members made.0 m made.1 made.2 d f k) in
      subst (IsMade fresh s) (ok_inj e2)
        (record { organization = extended; sound = k.sound; first = m; appended = k.last_member })
