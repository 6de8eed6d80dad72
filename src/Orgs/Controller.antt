-- ===== src/Orgs/Controller.antt =====
-- The requests that change an organization, its members or its wallet: the handlers of
-- src/orgs/orgs.controller.ts and src/orgs/orgs.controller.lite.ts with what they call, among it
-- `sendUsdc` (src/orgs/orgs.service.ts). The other services' answers are a parameter.
pub mod Guarded
pub mod Runs
use impact_wallet_server.Base.{
  ℕ, String, Bool, true, false, Option, none, some, List, [], ◌∷◌, ◌++◌, ltb,
}
use impact_wallet_server.Base.Http.{
  Error, Result, ok, err, ◌>>=◌, throw_if, or_throw, bad_request, type_error,
}
use impact_wallet_server.Auth.{Header, Jwt, get_account_from_token, permission_check}
use impact_wallet_server.Members.Schema.{Member}
use impact_wallet_server.Members.{add_member_to_org}
use impact_wallet_server.Orgs.Schema.{Org}
use impact_wallet_server.Orgs.Mint.{get_by_org_id}
use impact_wallet_server.Orgs.Create.{CreateOrgDto}
use impact_wallet_server.Orgs.Create.Handlers.{Created, create_org, create_org_lite}
use impact_wallet_server.Orgs.Update.{UpdateOrgDto, update_org}
use impact_wallet_server.Users.Send.{SendStore}

-- Credits that have left an organization's wallet.
pub record OrgTransfer : Type 0 where
  pub org : ℕ
  pub recipient : ℕ
  pub amount : ℕ

pub record Server : Type 0 where
  pub store : SendStore
  pub sent : List OrgTransfer

pub data Request : Type 0 where
  create : ℕ → CreateOrgDto → Result (Option String) → Bool → Request
  create_lite : ℕ → CreateOrgDto → Result (Option String) → Bool → Request
  add_member : ℕ → Member → Request
  send_usdc : ℕ → ℕ → ℕ → Request
  update : ℕ → UpdateOrgDto → Request

-- What the server asks of other services.
pub record Services : Type 0 where
  pub status : Error → Option ℕ
  pub create_wallet : Result ℕ
  pub get_logo : Org → Result (Unit {0})
  pub create_token : Org → Result (ℕ × ℕ)
  pub confirm : ℕ → Result ℕ
  pub mint_token : ℕ → ℕ → ℕ → Result ℕ
  pub product : Org → Result ℕ
  pub deactivate : ℕ → Result (Unit {0})
  pub price : ℕ → Option ℕ → Result ℕ
  pub credits : Option ℕ → Result ℕ
  pub transfer : Option ℕ → ℕ → ℕ → Result ℕ

module _ {Token : Type 0} (jwt : Jwt Token) (services : Services) where
  -- `OrgsService.sendUsdc`; the balance is the wallet's at this moment
  unfoldable pub send_usdc_of_org : ℕ → ℕ → ℕ → List Org → Result OrgTransfer
  unfolding get_by_org_id
  send_usdc_of_org org_id recipient amount orgs = get_by_org_id org_id orgs >>= λ org.
      services.credits org.wallet >>= λ balance.
      throw_if (ltb balance amount) (bad_request "Not enough Credit$ to send") >>= λ _.
      services.transfer org.wallet recipient amount >>= λ signature.
      ok (record { org = org_id; recipient = recipient; amount = amount })

  -- `getAccountFromToken` and `permissionCheck`
  unfoldable pub require_admin : Option (Header Token) → ℕ → SendStore → Result (Unit {0})
  unfolding get_account_from_token permission_check
  require_admin header org_id s =
      get_account_from_token jwt header s.users s.orgs >>= λ a. permission_check org_id a s.members

  abbrev pub with_created : Server → Created → Server
  with_created s c = record s { store = record s.store { orgs = c.1.0; members = c.2 } }

  unfoldable pub handle_create :
      Option (Header Token)
      → ℕ
      → CreateOrgDto
      → Result (Option String)
      → Bool
      → Server
      → Result Server
  unfolding create_org
  handle_create header fresh dto logo mock s =
      create_org jwt services.status services.create_wallet services.get_logo services.create_token
        services.confirm services.mint_token fresh header dto logo mock s.store
      >>= λ c. ok (with_created s c)

  unfoldable pub handle_create_lite :
      Option (Header Token)
      → ℕ
      → CreateOrgDto
      → Result (Option String)
      → Bool
      → Server
      → Result Server
  unfolding create_org_lite
  handle_create_lite header fresh dto logo mock s =
      create_org_lite jwt services.status services.create_wallet services.get_logo
        services.create_token services.confirm services.mint_token fresh header dto logo mock
        s.store
      >>= λ c. ok (with_created s c)

  unfoldable pub handle_add_member : Option (Header Token) → ℕ → Member → Server → Result Server
  unfolding require_admin add_member_to_org
  handle_add_member header org_id m s = require_admin header org_id s.store >>= λ _.
      add_member_to_org org_id m s.store.members >>= λ ms.
      ok (record s { store = record s.store { members = ms } })

  unfoldable pub handle_send_usdc : Option (Header Token) → ℕ → ℕ → ℕ → Server → Result Server
  unfolding require_admin send_usdc_of_org
  handle_send_usdc header org_id recipient amount s = require_admin header org_id s.store >>= λ _.
      send_usdc_of_org org_id recipient amount s.store.orgs >>= λ t.
      ok (record s { sent = s.sent ++ t ∷ [] })

  unfoldable pub handle_update : Option (Header Token) → ℕ → UpdateOrgDto → Server → Result Server
  unfolding require_admin update_org
  handle_update header org_id dto s = require_admin header org_id s.store >>= λ _.
      (update_org services.product services.deactivate services.price dto org_id s.store.orgs
        s.store.orgs).1
      >>= λ orgs. ok (record s { store = record s.store { orgs = orgs } })

  unfoldable pub handle : Option (Header Token) → Request → Server → Result Server
  unfolding handle_create handle_create_lite handle_add_member handle_send_usdc handle_update
  handle header (create fresh dto logo mock) s = handle_create header fresh dto logo mock s
  handle header (create_lite fresh dto logo mock) s =
      handle_create_lite header fresh dto logo mock s
  handle header (add_member org_id m) s = handle_add_member header org_id m s
  handle header (send_usdc org_id recipient amount) s =
      handle_send_usdc header org_id recipient amount s
  handle header (update org_id dto) s = handle_update header org_id dto s
