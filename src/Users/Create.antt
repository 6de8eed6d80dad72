-- ===== src/Users/Create.antt =====
-- `createUser` and `restoreUser` (src/users/users.service.ts). The store of files and the wallets'
-- service are parameters; the bonus that is sent to a new user in the background is in Bonus.antt.
pub mod Restored
use impact_wallet_server.Base.{
  ℕ, String, Bool, true, false, not, Option, none, some, List, [], ◌∷◌, ◌++◌, find, same_option,
  if◌then◌else◌, trim, is_blank, same_text, update_first,
}
use impact_wallet_server.Base.Http.{
  Error, Result, ok, err, ◌>>=◌, or_throw, conflict, not_found, internal_server_error,
  http_exception, message_of,
}
use impact_wallet_server.Auth.{Jwt, Payload}
use impact_wallet_server.Orgs.Create.{or_else}
use impact_wallet_server.Payment.Split.{has_user_id}
use impact_wallet_server.Users.Schema.{User}

pub record CreateUserDto : Type 0 where
  pub nickname : Option String
  pub name : Option String
  pub avatar : Option String

-- `CreateUserResponseDto`, with the secret that the link ends in
pub record CreateUserResponse (Token : Type 0) : Type 0 where
  pub secret_link : Option ℕ
  pub token : Token

abbrev pub trimmed : Option String → Option String
trimmed none = none
trimmed (some s) = some (trim s)

-- `new userRepository(userDto)`; an uploaded avatar's path takes the place of the request's
unfoldable pub new_user : ℕ → ℕ → CreateUserDto → Option String → User
new_user fresh now dto path = record {
  id = fresh;
  nickname = trim (or_else "" dto.nickname);
  name = trimmed dto.name;
  avatar = elim path [ none ↦ dto.avatar | some p ↦ some p ];
  wallet = none;
  bonus_wallet = none;
  created_at = now;
  secret_link = none;
}

abbrev pub same_nickname : User → User → Bool
same_nickname a b = same_text a.nickname b.nickname

-- The first `newUser.save()`, with the answers to its errors.
unfoldable pub save_user : User → List User → Result (List User)
save_user u users =
    if is_blank u.nickname
    then err (internal_server_error "ValidationError")
    else elim (find (same_nickname u) users) [
      | none ↦ ok (users ++ u ∷ [])
      | some _ ↦ err (conflict "E11000")
    ]

abbrev pub has_secret : ℕ → User → Bool
has_secret secret u = same_option u.secret_link (some secret)

module _ {Token : Type 0} (jwt : Jwt Token) where
  -- What both functions answer, with a token that is signed now.
  abbrev pub response : ℕ → User → CreateUserResponse Token
  response now u = record {
    secret_link = u.secret_link;
    token = jwt.sign now (record { user_id = u.id; org_id = none });
  }

  -- `getBySecretLink`, and a token for the user
  unfoldable pub restore_user : ℕ → ℕ → List User → Result (CreateUserResponse Token)
  restore_user now secret users =
      or_throw (find (has_secret secret) users) (not_found "User not found") >>= λ u.
      ok (response now u)

  -- `status` is the status that an error of the wallets' service answers with, where it carries one; the
  -- service makes the wallet, and the bonus wallet where onboarding is enabled.
  module _ (status : Error → Option ℕ) (create_wallet create_bonus_wallet : Result ℕ)
      (onboarding : Bool) where
    abbrev pub user_wallet_error : Error → Error
    user_wallet_error e = http_exception (or_else 400 (status e)) (or_else "" (message_of e))

    unfoldable pub with_bonus_wallet : User → Result User
    with_bonus_wallet u =
        if onboarding
        then (create_bonus_wallet >>= λ b. ok (record u { bonus_wallet = some b }))
        else ok u

    unfoldable pub with_wallets : Bool → User → Result User
    unfolding with_bonus_wallet
    with_wallets true u = ok u
    with_wallets false u =
        elim (create_wallet >>= λ w. with_bonus_wallet (record u { wallet = some w })) [
          | err e ↦ err (user_wallet_error e)
          | ok u' ↦ ok u'
        ]

    -- `createUser`: what throws aborts the transaction. `secret` is the new user's.
    unfoldable pub create_user :
        ℕ
        → ℕ
        → ℕ
        → CreateUserDto
        → Result (Option String)
        → Bool
        → List User
        → Result (CreateUserResponse Token × List User)
    unfolding new_user save_user with_wallets
    create_user fresh now secret dto avatar mock users = avatar >>= λ path.
        let u = new_user fresh now dto path in
        save_user u users >>= λ users'. with_wallets mock u >>= λ owner.
        let linked = record owner { secret_link = some secret } in
        ok (response now linked, update_first (has_user_id fresh) (λ x. linked) users')
