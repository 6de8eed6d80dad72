-- ===== src/Orgs/Create.antt =====
-- `createOrganization` and `createOrg` (src/orgs/orgs.service.ts) and `createOrgLite`
-- (src/orgs/orgs.service.lite.ts): a new organization and its first member, in one transaction, and its
-- token after it. The store of files, the wallets' service and the chain are parameters.
pub mod Founded
pub mod Founder
pub mod Handlers
pub mod Kept
pub mod Made
use impact_wallet_server.Base.{
  ℕ, String, Bool, true, false, not, ◌&&◌, Option, none, some, List, [], ◌∷◌, ◌++◌, ◌==◌, find,
  if◌then◌else◌, trim, is_blank, same_text, is_nil, update_first,
}
use impact_wallet_server.Base.Int.{pos}
use impact_wallet_server.Base.Http.{
  Error, Result, ok, err, ◌>>=◌, ◌>>◌, throw_if, or_throw, bad_request, conflict, type_error,
  http_exception, message_of,
}
use impact_wallet_server.Auth.{AccountModel, account_id, account_wallet, is_user_account}
use impact_wallet_server.Members.Schema.{Member, Role, admin, immediately}
use impact_wallet_server.Members.{add_member_to_org}
use impact_wallet_server.Orgs.Schema.{Org, OrgSettings}
use impact_wallet_server.Orgs.Mint.{has_id, create_token}

pub record CreateOrgDto : Type 0 where
  pub username : Option String
  pub name : Option String
  pub description : Option String
  pub link : Option String
  pub settings : Option OrgSettings
  pub logo : Option String
  pub member : Option Member

-- `default: new OrgSettings()` with the fields' own defaults
abbrev pub default_settings : OrgSettings
default_settings = record {
  treasury = 0;
  webhook = none;
  success_url = none;
  cancel_url = none;
  is_content = false;
  is_app = false;
  price_per_month = none;
  app_url = none;
}

-- The value, or what stands for a missing one.
abbrev pub or_else {ℓ} : {A : Type ℓ} → A → Option A → A
or_else d none = d
or_else d (some a) = a

-- `new orgRepository(pickBy(dto, identity))`: the setters trim; a required text that is missing is
-- empty here, and `required` refuses both.
unfoldable pub new_org : ℕ → CreateOrgDto → Org
new_org fresh dto = record {
  id = fresh;
  username = trim (or_else "" dto.username);
  name = trim (or_else "" dto.name);
  description = dto.description;
  link = dto.link;
  logo = or_else "" dto.logo;
  wallet = none;
  mint = none;
  mint_error = none;
  mint_status = none;
  settings = or_else default_settings dto.settings;
  lamports_minted = pos 0;
  stripe_product_id = none;
  stripe_price_id = none;
}

-- The validators of `OrgSchema` and `OrgSettingsSchema`.
unfoldable pub org_valid : Org → Bool
org_valid o =
    not (is_blank o.username)
    && not (is_blank o.name)
    && not (is_blank o.logo)
    && (if o.settings.is_app then not (is_nil o.settings.price_per_month) else true)

-- `unique: true`
abbrev pub same_username : Org → Org → Bool
same_username a b = same_text a.username b.username

-- The first `newOrg.save()`, with the answers to its errors.
unfoldable pub save_org : Org → List Org → Result (List Org)
unfolding org_valid
save_org o orgs =
    if not (org_valid o)
    then err (bad_request "ValidationError")
    else elim (find (same_username o) orgs) [
      | none ↦ ok (orgs ++ o ∷ [])
      | some _ ↦ err (conflict "E11000")
    ]

-- `orgsDto.logo`, set for an uploaded picture
abbrev pub with_logo : Option String → CreateOrgDto → CreateOrgDto
with_logo none dto = dto
with_logo (some l) dto = record dto { logo = some l }

-- `orgsDto.member[userField] = account.id`, and the role; the other field is as it came.
unfoldable pub own_member : AccountModel → Member → Member
own_member a m =
    if is_user_account a
    then record m { role = admin; equity_type = some immediately; user = some (account_id a) }
    else record m { role = admin; equity_type = some immediately; org_user = some (account_id a) }

unfoldable pub own_dto : AccountModel → CreateOrgDto → Result CreateOrgDto
unfolding own_member
own_dto a dto =
    or_throw dto.member type_error >>= λ m. ok (record dto { member = some (own_member a m) })

-- `status` is the status that an error of the wallets' service answers with, where it carries one.
module _ (status : Error → Option ℕ) (create_wallet : Result ℕ) where
  -- `get(error, 'message', error.toString())` needs a value.
  abbrev pub wallet_error : Error → Error
  wallet_error e = elim (message_of e) [
    | none ↦ type_error
    | some m ↦ http_exception (or_else 400 (status e)) m
  ]

  -- `createWallet`, unless wallets are mocked
  unfoldable pub with_wallet : Bool → Org → Result Org
  with_wallet true o = ok o
  with_wallet false o = elim create_wallet [
    | err e ↦ err (wallet_error e)
    | ok w ↦ ok (record o { wallet = some w })
  ]

  -- The transaction: the organization, its wallet, and the first member; what throws aborts it.
  unfoldable pub found_org :
      ℕ
      → Org
      → Option Member
      → Bool
      → List Org
      → List Member
      → Result (Org × List Org × List Member)
  unfolding save_org with_wallet add_member_to_org
  found_org fresh o member mock orgs ms = save_org o orgs >>= λ orgs'.
      with_wallet mock o >>= λ owner. or_throw member type_error >>= λ m.
      add_member_to_org fresh m ms >>= λ ms'.
      ok (owner, update_first (has_id o.id) (λ x. owner) orgs', ms')

  -- `logo` is the path of the file that was stored for an uploaded picture.
  unfoldable pub create_organization :
      ℕ
      → CreateOrgDto
      → Result (Option String)
      → Bool
      → List Org
      → List Member
      → Result (Org × List Org × List Member)
  unfolding new_org found_org
  create_organization fresh dto logo mock orgs ms =
      logo >>= λ path. found_org fresh (new_org fresh (with_logo path dto)) dto.member mock orgs ms

  unfoldable pub create_organization_lite :
      ℕ
      → AccountModel
      → CreateOrgDto
      → Result (Option String)
      → Bool
      → List Org
      → List Member
      → Result (Org × List Org × List Member)
  unfolding own_dto create_organization
  create_organization_lite fresh a dto logo mock orgs ms =
      own_dto a dto >>= λ own. create_organization fresh own logo mock orgs ms
