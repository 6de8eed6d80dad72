-- ===== src/Orgs/Update.antt =====
-- `updateOrg` and `getOrgStripeData` (src/orgs/orgs.service.ts). The document is read from one state
-- of the collection, and its fields are written to a later one: what Stripe is asked stands between. What
-- Stripe answers is a parameter, and the calls that it gets are part of the result.
pub mod Names
pub mod Updated
use impact_wallet_server.Base.{
  ℕ, String, Bool, true, false, not, ◌&&◌, Option, none, some, List, [], ◌∷◌, ◌++◌, find,
  update_first, if◌then◌else◌, trim, is_nil,
}
use impact_wallet_server.Base.Http.{Result, ok, err, thrown, type_error, or_throw, ◌>>=◌}
use impact_wallet_server.Orgs.Schema.{Org, OrgSettings}
use impact_wallet_server.Orgs.Mint.{has_id, get_by_org_id}
use impact_wallet_server.Orgs.Create.{or_else, same_username}

-- `OrgSettingsDto` and `UpdateOrgDto`
pub record SettingsDto : Type 0 where
  pub treasury : Option ℕ
  pub is_app : Option Bool
  pub price_per_month : Option ℕ
  pub app_url : Option String

pub record UpdateOrgDto : Type 0 where
  pub username : Option String
  pub name : Option String
  pub description : Option String
  pub link : Option String
  pub logo : Option String
  pub settings : Option SettingsDto

pub data StripeCall : Type 0 where
  create_product : String → StripeCall
  deactivate_price : ℕ → StripeCall
  create_price : ℕ → Option ℕ → StripeCall

-- `isDefined(a) ? a : b`, for a field that need not be there
abbrev pub or_kept {ℓ} : {A : Type ℓ} → Option A → Option A → Option A
or_kept none kept = kept
or_kept (some a) kept = some a

abbrev pub changed_settings : SettingsDto → OrgSettings → OrgSettings
changed_settings d s = record s {
  treasury = or_else s.treasury d.treasury;
  is_app = or_else false d.is_app;
  price_per_month = d.price_per_month;
  app_url = d.app_url;
}

-- The assignments to the document; the setters of the two names trim.
abbrev pub trimmed_or : String → Option String → String
trimmed_or kept none = kept
trimmed_or kept (some s) = trim s

unfoldable pub changed_org : UpdateOrgDto → SettingsDto → Org → Org
changed_org dto d o = record o {
  username = trimmed_or o.username dto.username;
  name = trimmed_or o.name dto.name;
  description = or_kept dto.description o.description;
  link = or_kept dto.link o.link;
  logo = or_else o.logo dto.logo;
  settings = changed_settings d o.settings;
}

-- Another document has the username.
abbrev pub is_other_named : Org → Org → Bool
is_other_named o x = same_username o x && not (has_id o.id x)

-- `$set: org.toObject()` writes the fields that the document has; one that it has not stays as it is
-- stored. `updateMint` sets the mint, its error and its status together, each maybe to null, so that
-- a document with a status has all three.
abbrev pub set_fields : Org → Org → Org
set_fields o x = record o {
  description = or_kept o.description x.description;
  link = or_kept o.link x.link;
  wallet = or_kept o.wallet x.wallet;
  mint = if is_nil o.mint_status then x.mint else o.mint;
  mint_error = if is_nil o.mint_status then x.mint_error else o.mint_error;
  mint_status = or_kept o.mint_status x.mint_status;
  stripe_product_id = or_kept o.stripe_product_id x.stripe_product_id;
  stripe_price_id = or_kept o.stripe_price_id x.stripe_price_id;
}

abbrev pub set_in : Org → Option Org → Org
set_in o none = o
set_in o (some x) = set_fields o x

-- `findOneAndUpdate({ _id }, { $set })`: no validators run, the unique index holds.
unfoldable pub write_org : Org → List Org → Result (List Org)
write_org o orgs = elim (find (is_other_named o) orgs) [
  | none ↦
      let stored = set_in o (find (has_id o.id) orgs) in
      ok (update_first (has_id o.id) (λ x. stored) orgs)
  | some _ ↦ err (thrown "E11000")
]

-- The calls of Stripe that were made, and what they have come to.
abbrev pub Traced : Type 0 → Type 0
Traced A = List StripeCall × Result A

abbrev pub and_then : {A B : Type 0} → Traced A → (A → Traced B) → Traced B
and_then r rest = elim r.1 [ err e ↦ (r.0, err e) | ok a ↦ (r.0 ++ (rest a).0, (rest a).1) ]

module _ (product : Org → Result ℕ) (deactivate : ℕ → Result (Unit {0}))
    (price : ℕ → Option ℕ → Result ℕ) where
  -- `!stripeProductId`
  unfoldable pub stripe_product : Org → Traced ℕ
  stripe_product o = elim o.stripe_product_id [
    | some p ↦ ([], ok p)
    | none ↦ (create_product o.name ∷ [], product o)
  ]

  unfoldable pub retire_price : Org → Traced (Unit {0})
  retire_price o = elim o.stripe_price_id [
    | none ↦ ([], ok tt)
    | some p ↦ (deactivate_price p ∷ [], deactivate p)
  ]

  unfoldable pub new_price : Org → ℕ → Traced ℕ
  new_price o p =
      (create_price p o.settings.price_per_month ∷ [], price p o.settings.price_per_month)

  -- `getOrgStripeData`: the document gets the ids of its product and of the new price. The price for
  -- a month is handed on as it is: `price` creates one of `Math.floor(pricePerMonth * 100)` cents.
  unfoldable pub get_org_stripe_data : Org → Traced Org
  unfolding stripe_product retire_price new_price
  get_org_stripe_data o = and_then (stripe_product o) λ p. and_then (retire_price o) λ done.
      and_then (new_price o p)
        λ i. ([], ok (record o { stripe_product_id = some p; stripe_price_id = some i }))

  -- The document that is written.
  unfoldable pub priced_org : Org → Traced Org
  unfolding get_org_stripe_data
  priced_org o = if o.settings.is_app then get_org_stripe_data o else ([], ok o)

  -- `updateOrg`, which needs the settings
  unfoldable pub update_org : UpdateOrgDto → ℕ → List Org → List Org → Traced (List Org)
  unfolding get_by_org_id changed_org priced_org write_org
  update_org dto org_id read orgs =
      and_then ([], get_by_org_id org_id read)
        λ o.
          and_then ([], or_throw dto.settings type_error)
            λ d.
              let priced = priced_org (changed_org dto d o) in
              (priced.0, priced.1 >>= λ o'. write_org o' orgs)
