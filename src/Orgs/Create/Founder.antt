-- ===== src/Orgs/Create/Founder.antt =====
-- Who may act for a new organization: `createOrganization` and `createOrgLite`
-- (src/orgs/orgs.service.ts, src/orgs/orgs.service.lite.ts) with `permissionCheck`
-- (src/auth/auth.service.ts).
use mathlib.Core.Path.{subst}
use mathlib.Core.Option.{some-injective}
use impact_wallet_server.Base.{
  ℕ, String, ◌≡◌, refl, sym, ap, ◌∙◌, inl, inr, Bool, true, not, ◌&&◌, Option, none, some, List, [],
  ◌∷◌, ◌++◌, find, find-append_new, arith, Bool-cases, Option-cases,
}
use impact_wallet_server.Base.Http.{
  Error, Result, ok, err, or_throw, >>=-eq-ok, ok_inj, type_error, throw_if, access_denied,
}
use impact_wallet_server.Auth.{AccountModel, account_id, permission_check}
use impact_wallet_server.Members.Schema.{Member, is_admin}
use impact_wallet_server.Members.Unique.{IsSound}
use impact_wallet_server.Offers.Sale.{is_seller_member}
use impact_wallet_server.Orgs.Schema.{Org}
use impact_wallet_server.Orgs.Mint.{has_id}
use impact_wallet_server.Orgs.Create.{
  CreateOrgDto, new_org, with_logo, create_organization, own_member, own_dto,
  create_organization_lite,
}
use impact_wallet_server.Orgs.Create.Founded.{HasUniqueNames, IsFounded, found_org-IsFounded}

-- What `permissionCheck` says of a collection's last member, when no other is the account's.
permission_check-append :
    (org_id : ℕ) (b : AccountModel) (m : Member) (ms : List Member)
    → find (is_seller_member (account_id b) org_id) ms ≡ none
    → permission_check org_id b (ms ++ m ∷ [])
      ≡ throw_if
          (not (is_seller_member (account_id b) org_id m && is_admin m.role))
          (access_denied "Access denied")
unfolding permission_check
permission_check-append org_id b m ms h =
    rw (find-append_new (is_seller_member (account_id b) org_id) ms m h)
      (elim (Bool-cases (is_seller_member (account_id b) org_id m)) [
        | inl c ↦ rw c refl
        | inr c ↦ rw c refl
      ])

-- The founder's own member is the account's, and an administrator.
own_member-permitted :
    (org_id : ℕ) (a : AccountModel) (m : Member)
    → (is_seller_member (account_id a) org_id (record (own_member a m) { org = org_id })
        && is_admin (own_member a m).role)
      ≡ true
unfolding own_member
own_member-permitted org_id a m = elim (Option-cases a.org) [
  | inl c ↦ rw c (ground arith)
  | inr (x, c) ↦ rw c (ground arith)
]

-- A new organization and its member stand last, and the collections are as they should be.
pub record IsAppended (fresh : ℕ) (orgs : List Org) (ms : List Member) (o : Org) (m : Member)
    (orgs' : List Org) (ms' : List Member) : Type 0 where
  pub id : o.id ≡ fresh
  pub last_org : orgs' ≡ orgs ++ o ∷ []
  pub last_member : ms' ≡ ms ++ record m { org = fresh } ∷ []
  pub names : HasUniqueNames orgs'
  pub sound : IsSound ms'

module _ (status : Error → Option ℕ) (create_wallet : Result ℕ) where
  -- Creating an organization whose logo has been stored, in a collection without two equal usernames
  -- and with a new id: if it returns, the organization is the last of the collection, made of the
  -- request, valid and with at most a wallet added, its first member is the last of the members,
  -- usernames are still different, and the validators and the index of the members hold. If it throws,
  -- then because the document is not valid (400), the username is taken (409), there is no wallet, the
  -- request names no member, or the member is refused; as the transaction is aborted, nothing is
  -- written.
  pub create_organization-IsFounded :
      (fresh : ℕ) (dto : CreateOrgDto) (path : Option String) (mock : Bool) (orgs : List Org)
      (ms : List Member)
      → HasUniqueNames orgs
      → IsSound ms
      → find (has_id fresh) orgs ≡ none
      → IsFounded status create_wallet fresh dto.member mock
          (new_org fresh (with_logo path dto))
          orgs
          ms
          (create_organization status create_wallet fresh dto (ok path) mock orgs ms)
  unfolding create_organization
  create_organization-IsFounded fresh dto path mock orgs ms u h f =
      found_org-IsFounded status create_wallet fresh (new_org fresh (with_logo path dto)) dto.member
        mock orgs ms u h refl f

  pub founded_member :
      (fresh : ℕ) (dto : CreateOrgDto) (logo : Result (Option String)) (mock : Bool)
      (orgs : List Org) (ms : List Member) {o : Org} {orgs' : List Org} {ms' : List Member}
      → HasUniqueNames orgs
      → IsSound ms
      → find (has_id fresh) orgs ≡ none
      → create_organization status create_wallet fresh dto logo mock orgs ms ≡ ok (o, orgs', ms')
      → (m : Member) × (dto.member ≡ some m) × IsAppended fresh orgs ms o m orgs' ms'
  unfolding create_organization new_org
  founded_member fresh dto (err thrown_value) mock orgs ms u h f c = cc c
  founded_member fresh dto (ok path) mock orgs ms u h f c =
      let made =
        subst
          (IsFounded status create_wallet fresh dto.member mock (new_org fresh (with_logo path dto))
            orgs ms)
          c (create_organization-IsFounded fresh dto path mock orgs ms u h f) in
      let (m, w, named, same, _, all, last, names, sound) = made in
      (
        m,
        named,
        record {
          id = ap (λ x. x.id) same;
          last_org = all;
          last_member = last;
          names = names;
          sound = sound;
        },
      )

  -- After an organization has been created, an account of which the new organization had no member
  -- may act for it exactly if the request's first member is the account's and an administrator.
  pub create_organization-permission_check :
      (fresh : ℕ) (dto : CreateOrgDto) (logo : Result (Option String)) (mock : Bool)
      (orgs : List Org) (ms : List Member) {o : Org} {orgs' : List Org} {ms' : List Member}
      (b : AccountModel)
      → HasUniqueNames orgs
      → IsSound ms
      → find (has_id fresh) orgs ≡ none
      → find (is_seller_member (account_id b) fresh) ms ≡ none
      → create_organization status create_wallet fresh dto logo mock orgs ms ≡ ok (o, orgs', ms')
      → (m : Member) × (dto.member ≡ some m)
        × (permission_check o.id b ms'
            ≡ throw_if
                (not (
                  is_seller_member (account_id b) o.id (record m { org = o.id })
                  && is_admin m.role))
                (access_denied "Access denied"))
  create_organization-permission_check fresh dto logo mock orgs ms b u h f n c =
      let (m, named, made) = founded_member fresh dto logo mock orgs ms u h f c in
      (
        m,
        named,
        rw (made.last_member, made.id)
            (permission_check-append fresh b (record m { org = fresh }) ms n),
      )

  pub founded_lite :
      (fresh : ℕ) (a : AccountModel) (dto : CreateOrgDto) (logo : Result (Option String))
      (mock : Bool) (orgs : List Org) (ms : List Member) {o : Org} {orgs' : List Org}
      {ms' : List Member}
      → HasUniqueNames orgs
      → IsSound ms
      → find (has_id fresh) orgs ≡ none
      → create_organization_lite status create_wallet fresh a dto logo mock orgs ms
        ≡ ok (o, orgs', ms')
      → (m : Member) × IsAppended fresh orgs ms o m orgs' ms'
  unfolding create_organization_lite
  founded_lite fresh a dto logo mock orgs ms u h f c =
      let (own, _, d) = >>=-eq-ok (own_dto a dto) _ c in
      let (m, _, made) = founded_member fresh own logo mock orgs ms u h f d in (m, made)

  -- The account that creates an organization in the lite client may act for it from then on, whatever
  -- role and whatever user the request names.
  pub create_organization_lite-permission_check :
      (fresh : ℕ) (a : AccountModel) (dto : CreateOrgDto) (logo : Result (Option String))
      (mock : Bool) (orgs : List Org) (ms : List Member) {o : Org} {orgs' : List Org}
      {ms' : List Member}
      → HasUniqueNames orgs
      → IsSound ms
      → find (has_id fresh) orgs ≡ none
      → find (is_seller_member (account_id a) fresh) ms ≡ none
      → create_organization_lite status create_wallet fresh a dto logo mock orgs ms
        ≡ ok (o, orgs', ms')
      → permission_check o.id a ms' ≡ ok tt
  unfolding create_organization_lite own_dto
  create_organization_lite-permission_check fresh a dto logo mock orgs ms {o = o} u h f n c =
      let (own, made, d) = >>=-eq-ok (own_dto a dto) _ c in
      let (m, named, granted) =
        create_organization-permission_check fresh own logo mock orgs ms a u h f n d in
      let (m0, named0, made0) = >>=-eq-ok (or_throw dto.member type_error) _ made in
      let owned : m ≡ own_member a m0 =
        some-injective m (own_member a m0) (sym named ∙ ap (λ d. d.member) (sym (ok_inj made0))) in
      let permitted : (is_seller_member (account_id a) o.id (record m { org = o.id })
            && is_admin m.role)
          ≡ true =
        rw owned (own_member-permitted o.id a m0) in
      granted ∙ ap (λ p. throw_if (not p) (access_denied "Access denied")) permitted
