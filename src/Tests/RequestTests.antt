-- ===== src/Tests/RequestTests.antt =====
-- The theorems on the requests that create and change organizations at concrete inputs.
use impact_wallet_server.Base.{
  update_first, ℕ, ◌≡◌, refl, true, false, Option, none, some, List, [], ◌∷◌, ◌⊎◌, find,
}
use impact_wallet_server.Base.Http.{Result, ok}
use impact_wallet_server.Auth.{
  Payload, Jwt, AccountModel, Header, get_account_from_token, permission_check, with_token,
}
use impact_wallet_server.Members.Schema.{Member, member_valid, admin, immediately}
use impact_wallet_server.Members.Unique.{IsSound}
use impact_wallet_server.Base.Int.{pos, ◌+ℤ◌}
use impact_wallet_server.Orgs.Schema.{Org, success}
use impact_wallet_server.Orgs.Mint.{has_id}
use impact_wallet_server.Orgs.Mint.Status.{IsCreated}
use impact_wallet_server.Orgs.Create.{
  CreateOrgDto, default_settings, new_org, with_logo, create_organization,
}
use impact_wallet_server.Orgs.Create.Founded.{HasUniqueNames, IsFounded}
use impact_wallet_server.Orgs.Create.Founder.{create_organization-IsFounded}
use impact_wallet_server.Orgs.Create.Handlers.{
  initial_amount, create_org_lite-IsCreated, create_org_lite,
}
use impact_wallet_server.Orgs.Update.{
  UpdateOrgDto, SettingsDto, create_product, create_price, changed_org, update_org, set_in,
}
use impact_wallet_server.Orgs.Update.Updated.{IsKept, IsPriced, update_org-IsPriced}
use impact_wallet_server.Orgs.Controller.{
  Server, Services, Request, create_lite, add_member, update,
}
use impact_wallet_server.Orgs.Controller.Guarded.{IsValid, IsUntouched}
use impact_wallet_server.Orgs.Controller.Runs.{run, IsActed, run_guarded}
use impact_wallet_server.Users.Send.{SendStore}
use impact_wallet_server.Tests.Data.{acme, alice_member, users, members, settings}

abbrev founding : CreateOrgDto
founding = record {
  username = some " bolt ";
  name = some "Bolt";
  description = none;
  link = none;
  settings = none;
  logo = none;
  member = some alice_member;
}

members-IsSound : IsSound members
unfolding member_valid
members-IsSound = record { valid = (refl, (refl, tt)); unique = (refl, (refl, tt)) }

create_organization-IsFounded_example :
    IsFounded
      (λ e. none)
      (ok 130)
      30
      (some alice_member)
      false
      (new_org 30 (with_logo (some "/orgs/logo/b.jpg") founding))
      (acme ∷ [])
      members
      (create_organization
        (λ e. none)
        (ok 130)
        30
        founding
        (ok (some "/orgs/logo/b.jpg"))
        false
        (acme ∷ [])
        members)
create_organization-IsFounded_example =
    create_organization-IsFounded (λ e. none) (ok 130) 30 founding (some "/orgs/logo/b.jpg") false
      (acme ∷ []) members (refl, tt) members-IsSound refl

abbrev signer : Jwt Payload
signer = record { sign = λ now p. p; verify = λ p. ok p; verify-sign = λ now p. refl }

abbrev alice_token : Option (Header Payload)
alice_token = with_token signer (record { user_id = 1; org_id = none })

abbrev store : SendStore
store = record { users = users; orgs = acme ∷ []; members = members }

-- A server without organizations, on which Alice founds one.
abbrev empty_store : SendStore
empty_store = record { users = users; orgs = []; members = [] }

abbrev bolt : Org
bolt = record acme {
  id = 30;
  username = "bolt";
  name = "Bolt";
  logo = "/orgs/logo/b.jpg";
  wallet = some 130;
  mint = none;
  mint_status = none;
  settings = default_settings;
}

abbrev bolt_token : List Org × Result (Unit {0})
bolt_token = (
  record bolt { mint = some 230; mint_status = some success; lamports_minted = pos initial_amount }
      ∷ [],
  ok tt,
)

abbrev founder_member : Member
founder_member = record alice_member {
  role = admin;
  equity_type = some immediately;
  user = some 1;
  org = 30;
}

create_org_lite-IsCreated_example :
    (a : AccountModel) × (w : ℕ) × (get_account_from_token signer alice_token users [] ≡ ok a)
    × (permission_check 30 a (founder_member ∷ []) ≡ ok tt)
    × IsCreated (some (w, initial_amount)) bolt (find (has_id 30) bolt_token.0) bolt_token.1
unfolding create_org_lite member_valid ◌+ℤ◌
create_org_lite-IsCreated_example =
    create_org_lite-IsCreated signer (λ e. none) (ok 130) (λ o. ok tt) (λ o. ok (230, 1))
      (λ h. ok h) (λ mint w n. ok 2) 30 alice_token founding (ok (some "/orgs/logo/b.jpg")) false
      empty_store {o = bolt} {token = bolt_token} {ms' = founder_member ∷ []} tt
      (record { valid = tt; unique = tt }) refl (λ i. refl) refl

abbrev priced : UpdateOrgDto
priced = record {
  username = none;
  name = some "Acme App";
  description = none;
  link = none;
  logo = none;
  settings =
      some (record {
        treasury = none;
        is_app = some true;
        price_per_month = some 500;
        app_url = none;
      });
}

abbrev priced_acme : Org
priced_acme = record acme {
  name = "Acme App";
  settings = record settings { is_app = true; price_per_month = some 500 };
  stripe_product_id = some 7;
  stripe_price_id = some 8;
}

abbrev services : Services
services = record {
  status = λ e. none;
  create_wallet = ok 130;
  get_logo = λ o. ok tt;
  create_token = λ o. ok (230, 1);
  confirm = λ h. ok h;
  mint_token = λ mint w n. ok 2;
  product = λ o. ok 7;
  deactivate = λ p. ok tt;
  price = λ p n. ok 8;
  credits = λ w. ok 1000;
  transfer = λ w r n. ok 3;
}

-- Alice, who is no administrator of Acme, tries to change it, and founds an organization.
abbrev requests : List (Option (Header Payload) × Request)
requests =
    (alice_token, update 10 priced)
    ∷ (none, add_member 10 alice_member)
    ∷ (alice_token, create_lite 30 founding (ok (some "/orgs/logo/b.jpg")) false)
    ∷ []

abbrev server : Server
server = record { store = store; sent = [] }

run_guarded_example :
    IsValid (run signer services requests server)
    × (IsUntouched 10 server (run signer services requests server)
        ⊎ IsActed signer services 10 requests server)
unfolding run
run_guarded_example =
    run_guarded signer services 10 requests server
      (record { ids = (refl, tt); names = (refl, tt); sound = members-IsSound })
      (tt, (tt, (refl, tt))) refl

update_org-IsPriced_example :
    (before : Org) × (d : SettingsDto) × (o : Org) × (find (has_id 10) (acme ∷ []) ≡ some before)
    × (priced.settings ≡ some d)
    × (priced_acme ∷ []
        ≡ update_first (has_id 10) (λ x. set_in o (find (has_id 10) (acme ∷ []))) (acme ∷ []))
    × HasUniqueNames (priced_acme ∷ [])
    × IsKept before o
    × IsPriced
        (λ o. ok 7)
        (λ p. ok tt)
        (λ p n. ok 8)
        (changed_org priced d before)
        o
        (create_product "Acme App" ∷ create_price 7 (some 500) ∷ [])
        (changed_org priced d before).settings.is_app
unfolding update_org
update_org-IsPriced_example =
    update_org-IsPriced (λ o. ok 7) (λ p. ok tt) (λ p n. ok 8) priced 10 (acme ∷ []) (acme ∷ [])
      (refl, tt) (refl, tt) refl
