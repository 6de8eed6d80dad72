-- ===== src/Users/Create/Restored.antt =====
-- A new user and the way back to the account: `createUser`, `restoreUser`
-- (src/users/users.service.ts) and `getAccountFromToken` (src/auth/auth.service.ts).
use mathlib.Core.Path.{subst}
use impact_wallet_server.Base.{
  ℕ, String, ◌≡◌, refl, sym, ap, ◌∙◌, inl, inr, Bool, true, false, Option, none, some, List, [],
  ◌∷◌, ◌++◌, ==_iff, find, find-append_last, update_first, arith, is_blank, same_text, if_cases,
}
use impact_wallet_server.Base.Http.{Error, Result, ok, err, ◌>>=◌, >>=-eq-ok, ok_inj, match_result}
use impact_wallet_server.Auth.{
  AccountModel, Jwt, get_account_from_token, with_token, signed_account,
}
use impact_wallet_server.Orgs.Schema.{Org}
use impact_wallet_server.Payment.Split.{has_user_id}
use impact_wallet_server.Users.Schema.{User}
use impact_wallet_server.Users.Create.{
  CreateUserDto, CreateUserResponse, new_user, same_nickname, save_user, has_secret, response,
  restore_user, user_wallet_error, with_bonus_wallet, with_wallets, create_user,
}

save_user-ok :
    (u : User) (users : List User) {users' : List User}
    → save_user u users ≡ ok users'
    → (is_blank u.nickname ≡ false)
      × (find (same_nickname u) users ≡ none)
      × (users' ≡ users ++ u ∷ [])
unfolding save_user
save_user-ok u users h = ground arith

update-append_last :
    (i : ℕ) (u u' : User) (users : List User)
    → find (has_user_id i) users ≡ none
    → u.id ≡ i
    → update_first (has_user_id i) (λ x. u') (users ++ u ∷ []) ≡ users ++ u' ∷ []
update-append_last i u u' [] h k = rw ((==_iff u.id i).1 k) refl
update-append_last i u u' (x ∷ users) h k = ground (arith, update-append_last i u u' users)

-- The last user of a collection, with a secret and an id that no other has.
restored :
    {Token : Type 0} (jwt : Jwt Token) (now secret : ℕ) (u : User) (users : List User)
    (orgs : List Org)
    → u.secret_link ≡ some secret
    → find (has_user_id u.id) users ≡ none
    → find (has_secret secret) users ≡ none
    → (restore_user jwt now secret (users ++ u ∷ []) ≡ ok (response jwt now u))
      × (get_account_from_token jwt
            (with_token jwt (response jwt now u).token)
            (users ++ u ∷ [])
            orgs
          ≡ ok (record { user = u; org = none }))
unfolding restore_user
restored jwt now secret u users orgs e f n =
    let own : has_secret secret u ≡ true = rw e ((==_iff secret secret).1 refl) in
    let self : has_user_id u.id u ≡ true = (==_iff u.id u.id).1 refl in
    let found = find-append_last (has_secret secret) users u n own in
    (
      rw found refl,
      signed_account jwt now (record { user_id = u.id; org_id = none }) u (users ++ u ∷ []) orgs
          (find-append_last (has_user_id u.id) users u f self),
    )

module _ {Token : Type 0} (jwt : Jwt Token) (status : Error → Option ℕ)
    (create_wallet create_bonus_wallet : Result ℕ) (onboarding : Bool) where
  with_bonus_wallet-kept :
      (u : User) {u' : User}
      → with_bonus_wallet jwt status create_wallet create_bonus_wallet onboarding u ≡ ok u'
      → (u'.id ≡ u.id) × (u'.nickname ≡ u.nickname)
  unfolding with_bonus_wallet
  with_bonus_wallet-kept u h = elim (if_cases onboarding _ _ h) [
    | inl (_, k) ↦
        let (b, _, k1) = >>=-eq-ok create_bonus_wallet _ k in
        (sym (ap (λ x. x.id) (ok_inj k1)), sym (ap (λ x. x.nickname) (ok_inj k1)))
    | inr (_, k) ↦ (sym (ap (λ x. x.id) (ok_inj k)), sym (ap (λ x. x.nickname) (ok_inj k)))
  ]

  with_wallets-kept :
      (mock : Bool) (u : User) {u' : User}
      → with_wallets jwt status create_wallet create_bonus_wallet onboarding mock u ≡ ok u'
      → (u'.id ≡ u.id) × (u'.nickname ≡ u.nickname)
  unfolding with_wallets
  with_wallets-kept true u h =
      (sym (ap (λ x. x.id) (ok_inj h)), sym (ap (λ x. x.nickname) (ok_inj h)))
  with_wallets-kept false u h =
      elim (match_result
        (create_wallet >>= λ w.
          with_bonus_wallet jwt status create_wallet create_bonus_wallet onboarding
            (record u { wallet = some w }))
        (λ e. err (user_wallet_error jwt status create_wallet create_bonus_wallet onboarding e))
        (λ made. ok made) h) [
          | inl (e, _, k) ↦ cc k
          | inr (made, k, same) ↦
              let (w, _, k1) = >>=-eq-ok create_wallet _ k in
              let (id, name) = with_bonus_wallet-kept (record u { wallet = some w }) k1 in
              let eq = sym (ok_inj same) in (ap (λ x. x.id) eq ∙ id, ap (λ x. x.nickname) eq ∙ name)
        ]

  -- A user is created with a new id, a new secret: the nickname was not blank and is no other user's,
  -- the user is the last of the collection, and whoever has the secret link gets, whenever
  -- they ask, the answer of the creation again, with a token signed anew: both tokens are those of the
  -- new user's own account.
  pub create_user-restore_user :
      (fresh now secret : ℕ) (dto : CreateUserDto) (avatar : Result (Option String)) (mock : Bool)
      (users : List User) (orgs : List Org) (later : ℕ) {r : CreateUserResponse Token}
      {users' : List User}
      → find (has_user_id fresh) users ≡ none
      → find (has_secret secret) users ≡ none
      → create_user jwt status create_wallet create_bonus_wallet onboarding fresh now secret dto
          avatar mock users
        ≡ ok (r, users')
      → (u : User) × (users' ≡ users ++ u ∷ [])
        × (is_blank u.nickname ≡ false)
        × (find (same_nickname u) users ≡ none)
        × (r.secret_link ≡ some secret)
        × (get_account_from_token jwt (with_token jwt r.token) users' orgs
            ≡ ok (record { user = u; org = none }))
        × ((again : CreateUserResponse Token) × (restore_user jwt later secret users' ≡ ok again)
            × (again.secret_link ≡ some secret)
            × (get_account_from_token jwt (with_token jwt again.token) users' orgs
                ≡ ok (record { user = u; org = none })))
  unfolding create_user restore_user new_user
  create_user-restore_user fresh now secret dto avatar mock users orgs later {r = r} f n h =
      let (path, _, h1) = >>=-eq-ok avatar _ h in
      let doc = new_user fresh now dto path in
      let (saved_users, hs, h2) = >>=-eq-ok (save_user doc users) _ h1 in
      let (owner, hw, h3) =
        >>=-eq-ok (with_wallets jwt status create_wallet create_bonus_wallet onboarding mock doc) _
          h2 in
      let (named, alone, all) = save_user-ok doc users hs in
      let (same_id, same_name) = with_wallets-kept mock doc hw in
      let linked : User = record owner { secret_link = some secret } in
      let last : update_first (has_user_id fresh) (λ x. linked) saved_users ≡ users ++ linked ∷ [] =
        ap (update_first (has_user_id fresh) (λ x. linked)) all
        ∙ update-append_last fresh doc linked users f refl in
      let stored = sym (ap (λ w. w.1) (ok_inj h3)) ∙ last in
      let answered : response jwt now linked ≡ r = ap (λ w. w.0) (ok_inj h3) in
      let new : find (has_user_id linked.id) users ≡ none =
        subst (λ i. find (has_user_id i) users ≡ none) (sym same_id) f in
      let own : AccountModel = record { user = linked; org = none } in
      let first = restored jwt now secret linked users orgs refl new n in
      let back = restored jwt later secret linked users orgs refl new n in
      (
        linked,
        stored,
        subst (λ name. is_blank name ≡ false) (sym same_name) named,
        subst (λ name. find (λ x. same_text name x.nickname) users ≡ none) (sym same_name) alone,
        ap (λ a. a.secret_link) (sym answered),
        subst (λ us. get_account_from_token jwt (with_token jwt r.token) us orgs ≡ ok own)
            (sym stored)
            (subst
              (λ (a : CreateUserResponse Token).
                get_account_from_token jwt (with_token jwt a.token) (users ++ linked ∷ []) orgs
                ≡ ok own)
              answered first.1),
        (
          response jwt later linked,
          ap (restore_user jwt later secret) stored ∙ back.0,
          refl,
          subst
              (λ us.
                get_account_from_token jwt (with_token jwt (response jwt later linked).token) us
                  orgs
                ≡ ok own)
              (sym stored) back.1,
        ),
      )
