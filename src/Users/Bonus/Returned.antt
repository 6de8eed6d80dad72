-- ===== src/Users/Bonus/Returned.antt =====
-- What the loop of `returnBonusUSDC` returns (src/users/users.service.ts).
use mathlib.Core.Path.{subst}
use mathlib.Core.List.{append_assoc}
use impact_wallet_server.Base.{
  ℕ, ◌≡◌, refl, sym, ap, ◌∙◌, inl, inr, Option, some, List, [], ◌∷◌, ◌++◌, ◌==◌, find, All,
  All-append, Bool-cases, if◌then◌else◌,
}
use impact_wallet_server.Base.Http.{
  Error, Result, ok, err, ◌>>=◌, >>=-eq-ok, or_throw, Result-cases, type_error,
}
use impact_wallet_server.Orgs.Schema.{Org}
use impact_wallet_server.Users.Schema.{User}
use impact_wallet_server.Users.Bonus.{
  BonusTransfer, has_wallet, find_users_with_expired_bonus_wallet, return_of, send_bonus_usdc_back,
  return_each, return_bonus_usdc,
}

module _ (balance : Option ℕ → ℕ) (key : Option ℕ → Result ℕ) (transfer : BonusTransfer → Result ℕ)
    (root : ℕ) where
  -- What a bonus wallet still holds goes back to the main wallet.
  abbrev pub due : User → List BonusTransfer
  due u =
      if balance u.bonus_wallet == 0
      then []
      else record {
        sender = u.bonus_wallet;
        recipient = some root;
        amount = balance u.bonus_wallet;
      }
        ∷ []

  abbrev pub dues : List User → List BonusTransfer
  dues [] = []
  dues (u ∷ users) = due u ++ dues users

  abbrev pub IsSent : BonusTransfer → Type 0
  IsSent t = (signature : ℕ) × (transfer t ≡ ok signature)

  abbrev pub IsReturned : List Org → List User → List BonusTransfer → Result (Unit {0}) → Type 0
  IsReturned orgs users done (ok _) = done ≡ dues users
  IsReturned orgs users done (err e) =
      (before : List User) × (u : User) × (later : List User) × (last : List BonusTransfer) × (users
        ≡ before ++ u ∷ later)
      × (send_bonus_usdc_back balance key transfer root orgs u ≡ (last, err e))
      × (done ≡ dues before ++ last)

  -- One user's bonus: what has gone through, and that it is what is due if it returns.
  IsBack : User → List BonusTransfer × Result (Unit {0}) → Type 0
  IsBack u (done, ok _) = All IsSent done × (done ≡ due u)
  IsBack u (done, err e) = All IsSent done

  send_bonus_usdc_back-IsBack :
      (orgs : List Org) (u : User)
      → IsBack u (send_bonus_usdc_back balance key transfer root orgs u)
  unfolding send_bonus_usdc_back IsBack
  send_bonus_usdc_back-IsBack orgs u = elim (Bool-cases (balance u.bonus_wallet == 0)) [
    | inl z ↦
        let empty : due u ≡ [] = rw (due, z) refl in rw (z, send_bonus_usdc_back) (tt, sym empty)
    | inr z ↦
        let t = return_of balance key transfer root u (balance u.bonus_wallet) in
        let whole : due u ≡ t ∷ [] = rw (due, z) refl in
        elim (Result-cases (key u.bonus_wallet >>= λ pk. transfer t)) [
          | inr (e, s) ↦ rw (z, s, send_bonus_usdc_back) tt
          | inl (signature, s) ↦
              let (pk, _, sent) = >>=-eq-ok (key u.bonus_wallet) _ s in
              elim (Result-cases (or_throw (find (has_wallet root) orgs) type_error)) [
                | inl (org, o) ↦
                    rw (z, s, o, send_bonus_usdc_back) (((signature, sent), tt), sym whole)
                | inr (e, o) ↦ rw (z, s, o, send_bonus_usdc_back) ((signature, sent), tt)
              ]
        ]
  ]

  IsLooped : List Org → List User → List BonusTransfer × Result (Unit {0}) → Type 0
  IsLooped orgs users r = All IsSent r.0 × IsReturned orgs users r.0 r.1

  later_lem :
      (orgs : List Org) (u : User) (users : List User) (rest : List BonusTransfer)
      (r : Result (Unit {0}))
      → IsReturned orgs users rest r
      → IsReturned orgs (u ∷ users) (due u ++ rest) r
  later_lem orgs u users rest (ok x) h = ap (λ ts. due u ++ ts) h
  later_lem orgs u users rest (err e) (before, v, later, last, split, failed, done) = (
    u ∷ before,
    v,
    later,
    last,
    ap (◌∷◌ u) split,
    failed,
    ap (λ ts. due u ++ ts) done ∙ sym (append_assoc (due u) (dues before) last),
  )

  ended :
      (orgs : List Org) (u : User) (users : List User) (done : List BonusTransfer) (e : Error)
      → send_bonus_usdc_back balance key transfer root orgs u ≡ (done, err e)
      → return_each balance key transfer root orgs (u ∷ users) ≡ (done, err e)
  unfolding return_each
  ended orgs u users done e c = rw (return_each, ap (λ w. w.1) c) (ap (λ w. (w.0, err e)) c)

  went_on :
      (orgs : List Org) (u : User) (users : List User) (done : List BonusTransfer) {x : Unit {0}}
      → send_bonus_usdc_back balance key transfer root orgs u ≡ (done, ok x)
      → return_each balance key transfer root orgs (u ∷ users) ≡ (
        done ++ (return_each balance key transfer root orgs users).0,
        (return_each balance key transfer root orgs users).1,
      )
  unfolding return_each
  went_on orgs u users done c =
      let later = return_each balance key transfer root orgs users in
      rw (return_each, ap (λ w. w.1) c) (ap (λ w. (w.0 ++ later.0, later.1)) c)

  -- The loop goes on after a user whose bonus is returned, and ends at one whose is not.
  joined :
      (orgs : List Org) (u : User) (users : List User)
      (first : List BonusTransfer × Result (Unit {0}))
      → send_bonus_usdc_back balance key transfer root orgs u ≡ first
      → IsBack u first
      → IsLooped orgs users (return_each balance key transfer root orgs users)
      → IsLooped orgs (u ∷ users) (return_each balance key transfer root orgs (u ∷ users))
  unfolding return_each IsBack IsLooped
  joined orgs u users (done, err e) c sent rest =
      subst (IsLooped orgs (u ∷ users)) (sym (ended orgs u users done e c))
        (sent, ([], u, users, done, refl, c, refl))
  joined orgs u users (done, ok x) c (sent, all) (more, its) =
      let later = return_each balance key transfer root orgs users in
      subst (IsLooped orgs (u ∷ users)) (sym (went_on orgs u users done c)) (
        All-append IsSent done later.0 sent more,
        subst (λ d. IsReturned orgs (u ∷ users) (d ++ later.0) later.1) (sym all)
            (later_lem orgs u users later.0 later.1 its),
      )

  return_each-IsLooped :
      (orgs : List Org) (users : List User)
      → IsLooped orgs users (return_each balance key transfer root orgs users)
  unfolding return_each IsLooped
  return_each-IsLooped orgs [] = (tt, refl)
  return_each-IsLooped orgs (u ∷ users) =
      joined orgs u users (send_bonus_usdc_back balance key transfer root orgs u) refl
        (send_bonus_usdc_back-IsBack orgs u) (return_each-IsLooped orgs users)

  -- The bonus wallets that have expired are emptied in turn. If the loop returns, the transfers that
  -- have gone through are exactly those of what each expired bonus wallet held, where that is not
  -- nothing, to the main wallet. If it throws, the transfer of some expired user, or the key for it,
  -- has failed, or the main organization is missing: the users before this one have got theirs returned, and the users after
  -- it have not.
  pub return_bonus_usdc-IsReturned :
      (interval : Option ℕ) (now : ℕ) (orgs : List Org) (users : List User)
      → let r : List BonusTransfer × Result (Unit {0}) =
          return_bonus_usdc balance key transfer root interval now orgs users in
        All IsSent r.0
        × IsReturned orgs (find_users_with_expired_bonus_wallet interval now users) r.0 r.1
  unfolding return_bonus_usdc IsLooped
  return_bonus_usdc-IsReturned interval now orgs users =
      return_each-IsLooped orgs (find_users_with_expired_bonus_wallet interval now users)
