-- ===== src/Orgs/Update/Updated.antt =====
-- What `updateOrg` leaves in the collection and at Stripe (src/orgs/orgs.service.ts).
use mathlib.Core.Path.{subst}
use impact_wallet_server.Base.{
  ℕ, ◌≡◌, refl, sym, ap, ◌∙◌, Bool, true, false, Option, none, some, List, [], ◌∷◌, ◌++◌, ==_iff,
  find, find_sound, update_first, arith, if◌then◌else◌,
}
use impact_wallet_server.Base.Http.{
  Result, ok, err, type_error, or_throw, or_throw-ok, ok_inj, >>=-eq-ok,
}
use impact_wallet_server.Orgs.Schema.{Org}
use impact_wallet_server.Orgs.Mint.{has_id, get_by_org_id}
use impact_wallet_server.Orgs.Create.Founded.{HasUniqueNames}
use impact_wallet_server.Orgs.Update.{
  SettingsDto, UpdateOrgDto, StripeCall, create_product, deactivate_price, create_price, Traced,
  and_then, changed_org, is_other_named, set_fields, set_in, write_org, stripe_product,
  retire_price, new_price, get_org_stripe_data, priced_org, update_org,
}
use impact_wallet_server.Orgs.Update.Names.{HasUniqueIds, HasUniqueNames-update}

-- A traced function that returns has come past each call.
and_then-ok :
    {A B : Type 0} (r : Traced A) (f : A → Traced B) {calls : List StripeCall} {b : B}
    → and_then r f ≡ (calls, ok b)
    → (a : A) × (more : List StripeCall) × (r.1 ≡ ok a)
      × (f a ≡ (more, ok b))
      × (calls ≡ r.0 ++ more)
and_then-ok (done, err e) f h = cc (ap (λ w. w.1) h)
and_then-ok (done, ok a) f h = (a, (f a).0, refl, ap (λ w. ((f a).0, w.1)) h, sym (ap (λ w. w.0) h))

write_org-ok :
    (o : Org) (orgs : List Org) {orgs' : List Org}
    → write_org o orgs ≡ ok orgs'
    → (find (is_other_named o) orgs ≡ none)
      × (orgs' ≡ update_first (has_id o.id) (λ x. set_in o (find (has_id o.id) orgs)) orgs)
unfolding write_org
write_org-ok o orgs h = ground arith

pub set_in-id : (o : Org) (x : Option Org) → (set_in o x).id ≡ o.id
set_in-id o none = refl
set_in-id o (some x) = refl

HasUniqueNames-set_in :
    (o : Org) (stored : Option Org) (os : List Org)
    → HasUniqueIds os
    → HasUniqueNames os
    → find (is_other_named o) os ≡ none
    → HasUniqueNames (update_first (has_id o.id) (λ x. set_in o stored) os)
HasUniqueNames-set_in o none os d u k = HasUniqueNames-update o os d u k
HasUniqueNames-set_in o (some x) os d u k = HasUniqueNames-update (set_fields o x) os d u k

-- The calls that give an organization a product, and take its old price out of use.
abbrev pub product_calls : Org → List StripeCall
product_calls o = elim o.stripe_product_id [ none ↦ create_product o.name ∷ [] | some p ↦ [] ]

abbrev pub price_calls : Org → List StripeCall
price_calls o = elim o.stripe_price_id [ none ↦ [] | some p ↦ deactivate_price p ∷ [] ]

-- The fields of an organization that Stripe does not set.
abbrev with_no_price : Org → Org
with_no_price o = record o { stripe_product_id = none; stripe_price_id = none }

-- What `updateOrg` does not touch.
pub record IsKept (before o : Org) : Type 0 where
  pub id : o.id ≡ before.id
  pub wallet : o.wallet ≡ before.wallet
  pub mint : o.mint ≡ before.mint
  pub mint_status : o.mint_status ≡ before.mint_status
  pub lamports_minted : o.lamports_minted ≡ before.lamports_minted
  pub webhook : o.settings.webhook ≡ before.settings.webhook

IsKept-same : (c o : Org) → with_no_price o ≡ with_no_price c → IsKept c o
IsKept-same c o h = record {
  id = ap (λ x. x.id) h;
  wallet = ap (λ x. x.wallet) h;
  mint = ap (λ x. x.mint) h;
  mint_status = ap (λ x. x.mint_status) h;
  lamports_minted = ap (λ x. x.lamports_minted) h;
  webhook = ap (λ x. x.settings.webhook) h;
}

IsKept-changed :
    (dto : UpdateOrgDto) (d : SettingsDto) (before o : Org)
    → IsKept (changed_org dto d before) o
    → IsKept before o
unfolding changed_org
IsKept-changed dto d before o k = record {
  id = k.id;
  wallet = k.wallet;
  mint = k.mint;
  mint_status = k.mint_status;
  lamports_minted = k.lamports_minted;
  webhook = k.webhook;
}

module _ (product : Org → Result ℕ) (deactivate : ℕ → Result (Unit {0}))
    (price : ℕ → Option ℕ → Result ℕ) where
  -- An app has a price that was made for it in this call.
  abbrev pub IsPriced : Org → Org → List StripeCall → Bool → Type 0
  IsPriced changed o calls true =
      (p : ℕ) × (i : ℕ) × (o
        ≡ record changed { stripe_product_id = some p; stripe_price_id = some i })
      × (price p changed.settings.price_per_month ≡ ok i)
      × (calls
          ≡ product_calls changed
            ++ (price_calls changed ++ create_price p changed.settings.price_per_month ∷ []))
  IsPriced changed o calls false = (o ≡ changed) × (calls ≡ [])

  stripe_product-calls : (o : Org) → (stripe_product product deactivate price o).0 ≡ product_calls o
  unfolding stripe_product
  stripe_product-calls o = ground arith

  retire_price-calls : (o : Org) → (retire_price product deactivate price o).0 ≡ price_calls o
  unfolding retire_price
  retire_price-calls o = ground arith

  get_org_stripe_data-IsPriced :
      (c : Org) {o : Org} {calls : List StripeCall}
      → get_org_stripe_data product deactivate price c ≡ (calls, ok o)
      → IsPriced c o calls true
  unfolding get_org_stripe_data new_price
  get_org_stripe_data-IsPriced c h =
      let (p, c1, _, h1, e1) = and_then-ok (stripe_product product deactivate price c) _ h in
      let (done, c2, _, h2, e2) = and_then-ok (retire_price product deactivate price c) _ h1 in
      let (i, c3, made, h3, e3) = and_then-ok (new_price product deactivate price c p) _ h2 in
      (
        p,
        i,
        sym (ok_inj (ap (λ w. w.1) h3)),
        made,
        rw (e1, e2, e3, sym (ap (λ w. w.0) h3), stripe_product-calls c, retire_price-calls c) refl,
      )

  if-IsPriced :
      (c : Org) (is_app : Bool) {o : Org} {calls : List StripeCall}
      → (if is_app then get_org_stripe_data product deactivate price c else ([], ok c))
        ≡ (calls, ok o)
      → IsPriced c o calls is_app
  if-IsPriced c true h = get_org_stripe_data-IsPriced c h
  if-IsPriced c false h = (sym (ok_inj (ap (λ w. w.1) h)), sym (ap (λ w. w.0) h))

  priced_org-IsPriced :
      (c : Org) {o : Org} {calls : List StripeCall}
      → priced_org product deactivate price c ≡ (calls, ok o)
      → IsPriced c o calls c.settings.is_app
  unfolding priced_org
  priced_org-IsPriced c h = if-IsPriced c c.settings.is_app h

  IsPriced-IsKept :
      (c o : Org) (calls : List StripeCall) (is_app : Bool) → IsPriced c o calls is_app → IsKept c o
  IsPriced-IsKept c o calls true (p, i, same, _, _) = IsKept-same c o (ap with_no_price same)
  IsPriced-IsKept c o calls false (same, _) = IsKept-same c o (ap with_no_price same)

  -- An organization is updated, in a collection with different ids and different usernames: if
  -- `updateOrg` returns, the document that it read is in the collection it read; the organization is
  -- written with the settings of the request, the other documents are as they were, and usernames are
  -- still different; the id, wallet, token and minted shares of the document that is written are those
  -- that were read, even where they have changed since; and an app has a new price, of its product, its product was created if it had
  -- none, and its old price was taken out of use.
  pub update_org-IsPriced :
      (dto : UpdateOrgDto) (org_id : ℕ) (read orgs : List Org) {calls : List StripeCall}
      {orgs' : List Org}
      → HasUniqueIds orgs
      → HasUniqueNames orgs
      → update_org product deactivate price dto org_id read orgs ≡ (calls, ok orgs')
      → (before : Org) × (d : SettingsDto) × (o : Org) × (find (has_id org_id) read ≡ some before)
        × (dto.settings ≡ some d)
        × (orgs' ≡ update_first (has_id org_id) (λ x. set_in o (find (has_id org_id) orgs)) orgs)
        × HasUniqueNames orgs'
        × IsKept before o
        × IsPriced (changed_org dto d before) o calls (changed_org dto d before).settings.is_app
  unfolding update_org get_by_org_id
  update_org-IsPriced dto org_id read orgs {calls = calls} u n h =
      let (before, c1, h1, k1, e1) = and_then-ok ([], get_by_org_id org_id read) _ h in
      let (d, c2, h2, k2, e2) = and_then-ok ([], or_throw dto.settings type_error) _ k1 in
      let changed = changed_org dto d before in
      let priced = priced_org product deactivate price changed in
      let (o, h3, h4) = >>=-eq-ok priced.1 _ (ap (λ w. w.1) k2) in
      let all : calls ≡ priced.0 = e1 ∙ e2 ∙ sym (ap (λ w. w.0) k2) in
      let its : IsPriced changed o priced.0 changed.settings.is_app =
        priced_org-IsPriced changed (ap (λ r. (priced.0, r)) h3) in
      let (free, written) = write_org-ok o orgs h4 in
      let found = or_throw-ok _ _ h1 in
      let same : before.id ≡ org_id =
        (==_iff before.id org_id).0 (find_sound (has_id org_id) read found) in
      let kept =
        IsKept-changed dto d before o
          (IsPriced-IsKept changed o priced.0 changed.settings.is_app its) in
      (
        before,
        d,
        o,
        found,
        or_throw-ok _ _ h2,
        written
            ∙ ap (λ i. update_first (has_id i) (λ x. set_in o (find (has_id i) orgs)) orgs)
                (kept.id ∙ same),
        subst HasUniqueNames (sym written)
            (HasUniqueNames-set_in o (find (has_id o.id) orgs) orgs u n free),
        kept,
        subst (λ cs. IsPriced changed o cs changed.settings.is_app) (sym all) its,
      )
