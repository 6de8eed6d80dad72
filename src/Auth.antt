-- ===== src/Auth.antt =====
-- src/auth: `getAccountFromToken` and `permissionCheck` (src/auth/auth.service.ts), `AccountModel`
-- (src/auth/models/account.model.ts), and the tokens that `loginAsOrg` (src/orgs/orgs.service.ts) and
-- the account functions of src/users/users.service.ts make. Signing is the library's.
use mathlib.Core.Path.{subst}
use Prim.Native.Nat.{Ordering}
use Prim.Native.String.{compare as compare_text}
use impact_wallet_server.Base.{
  ℕ, String, ◌≡◌, refl, sym, ap, ◌∙◌, Bool, true, false, not, ◌&&◌, Option, none, some, List, ◌==◌,
  ==_iff, is_nil, default_to, find, find_sound, same_option,
}
use impact_wallet_server.Base.Http.{
  Error, Result, ok, ◌>>=◌, or_throw, throw_if, not_found, unauthorized, access_denied, thrown,
  >>=-eq-ok, or_throw-ok, ok_inj,
}
use impact_wallet_server.Members.Schema.{Member, is_admin}
use impact_wallet_server.Users.Schema.{User}
use impact_wallet_server.Orgs.Schema.{Org}
use impact_wallet_server.Orgs.Mint.{has_id, get_by_org_id}
use impact_wallet_server.Payment.Split.{has_user_id}
use impact_wallet_server.Offers.Sale.{is_seller_member}

pub record Payload : Type 0 where
  pub user_id : ℕ
  pub org_id : Option ℕ

-- What is used of the library that signs: a payload that was signed, at some time that goes into the
-- token, is read back.
pub record Jwt (Token : Type 0) : Type 0 where
  pub sign : ℕ → Payload → Token
  pub verify : Token → Result Payload
  pub verify-sign : (now : ℕ) (p : Payload) → verify (sign now p) ≡ ok p

pub record AccountModel : Type 0 where
  pub user : User
  pub org : Option Org

abbrev pub account_id : AccountModel → ℕ
account_id a = elim a.org [ none ↦ a.user.id | some o ↦ o.id ]

abbrev pub is_user_account : AccountModel → Bool
is_user_account a = is_nil a.org

-- `get(this, 'org.wallet', this.user.wallet)`
abbrev pub account_wallet : AccountModel → Option ℕ
account_wallet a = elim a.org [ none ↦ a.user.wallet | some o ↦ default_to o.wallet a.user.wallet ]

-- The authorization header, split at its spaces: the first word, and the second.
pub record Header (Token : Type 0) : Type 0 where
  pub bearer : String
  pub token : Option Token

abbrev pub is_bearer : String → Bool
is_bearer s = elim (compare_text s "Bearer") [ Ordering.eq ↦ true | _ ↦ false ]

abbrev pub not_authorized : Error
not_authorized = unauthorized "User not authorized"

-- `$or: [{ user: account.id }, { orgUser: account.id }], org`
unfoldable pub permission_check : ℕ → AccountModel → List Member → Result (Unit {0})
permission_check org_id a ms =
    or_throw (find (is_seller_member (account_id a) org_id) ms) (access_denied "Access denied")
    >>= λ m. throw_if (not (is_admin m.role)) (access_denied "Access denied")

abbrev pub is_own_member : ℕ → ℕ → Member → Bool
is_own_member org_id user_id m = (m.org == org_id) && same_option m.user (some user_id)

module _ {Token : Type 0} (jwt : Jwt Token) where
  abbrev pub org_of : Option ℕ → List Org → Option Org
  org_of none orgs = none
  org_of (some i) orgs = find (has_id i) orgs

  unfoldable pub account_of : Payload → List User → List Org → Result AccountModel
  account_of p users orgs = or_throw (find (has_user_id p.user_id) users) not_authorized >>= λ u.
      ok (record { user = u; org = org_of p.org_id orgs })

  unfoldable pub get_account_from_token :
      Option (Header Token) → List User → List Org → Result AccountModel
  unfolding account_of
  get_account_from_token header users orgs = or_throw header not_authorized >>= λ h.
      throw_if (not (is_bearer h.bearer)) not_authorized >>= λ _.
      or_throw h.token not_authorized >>= λ token. jwt.verify token >>= λ p. account_of p users orgs

  unfoldable pub login_as_org : ℕ → ℕ → AccountModel → List Org → List Member → Result Token
  unfolding get_by_org_id
  login_as_org now org_id a orgs ms = get_by_org_id org_id orgs >>= λ org.
      or_throw (find (is_own_member org.id a.user.id) ms) (thrown "Member not found") >>= λ m.
      ok (jwt.sign now (record { user_id = a.user.id; org_id = some org.id }))

  unfoldable pub generate_token : ℕ → AccountModel → List User → Result Token
  generate_token now a users =
      or_throw (find (has_user_id a.user.id) users) (not_found "User not found") >>= λ u.
      ok (jwt.sign now (record { user_id = u.id; org_id = none }))

  abbrev pub with_token : Token → Option (Header Token)
  with_token token = some (record { bearer = "Bearer"; token = some token })

  pub signed_account :
      (now : ℕ) (p : Payload) (u : User) (users : List User) (orgs : List Org)
      → find (has_user_id p.user_id) users ≡ some u
      → get_account_from_token (with_token (jwt.sign now p)) users orgs
        ≡ ok (record { user = u; org = org_of p.org_id orgs })
  unfolding get_account_from_token account_of
  signed_account now p u users orgs h = rw (jwt.verify-sign now p, h) refl

  -- The token that a member of an organization gets by logging in as it is one with which the server
  -- takes every later request as that organization's, made by that user; only a user who is a member
  -- gets one. The token that is generated for such an account leads back: with it the server takes every
  -- later request as the user's own.
  pub login_as_org-get_account_from_token :
      (now later org_id : ℕ) (a : AccountModel) (users : List User) (orgs : List Org)
      (ms : List Member) (token : Token)
      → find (has_user_id a.user.id) users ≡ some a.user
      → login_as_org now org_id a orgs ms ≡ ok token
      → (org : Org) × (m : Member) × (back : Token) × (find (is_own_member org_id a.user.id) ms
          ≡ some m)
        × (org.id ≡ org_id)
        × (get_account_from_token (with_token token) users orgs
            ≡ ok (record { user = a.user; org = some org }))
        × (generate_token later (record { user = a.user; org = some org }) users ≡ ok back)
        × (get_account_from_token (with_token back) users orgs
            ≡ ok (record { user = a.user; org = none }))
  unfolding login_as_org generate_token get_by_org_id
  login_as_org-get_account_from_token now later org_id a users orgs ms token h e =
      let (org, ho, e1) = >>=-eq-ok (get_by_org_id org_id orgs) _ e in
      let (m, hm, e2) =
        >>=-eq-ok (or_throw (find (is_own_member org.id a.user.id) ms) (thrown "Member not found"))
          _ e1 in
      let found = or_throw-ok _ _ ho in
      let same = (==_iff org.id org_id).0 (find_sound (has_id org_id) orgs found) in
      let p : Payload = record { user_id = a.user.id; org_id = some org.id } in
      let own : Payload = record { user_id = a.user.id; org_id = none } in
      let its : find (has_id org.id) orgs ≡ some org =
        subst (λ i. find (has_id i) orgs ≡ some org) (sym same) found in
      (
        org,
        m,
        jwt.sign later own,
        subst (λ i. find (is_own_member i a.user.id) ms ≡ some m) same (or_throw-ok _ _ hm),
        same,
        subst
            (λ t.
              get_account_from_token (with_token t) users orgs
              ≡ ok (record { user = a.user; org = some org }))
            (ok_inj e2)
            (signed_account now p a.user users orgs h
              ∙ ap (λ o. ok (record { user = a.user; org = o })) its),
        rw h refl,
        signed_account later own a.user users orgs h,
      )
