-- ===== src/Orgs/Create/Founded.antt =====
-- What `createOrganization` leaves in the collections (src/orgs/orgs.service.ts), and the permission
-- that the founder of an organization of the lite client has (src/orgs/orgs.service.lite.ts,
-- src/auth/auth.service.ts).
use mathlib.Core.Path.{subst}
use impact_wallet_server.Base.{
  ℕ, ◌≡◌, refl, sym, ◌∙◌, ◌⊎◌, ◌≢◌, inl, inr, Bool, true, false, Option, none, some, List, [], ◌∷◌,
  ◌++◌, ==_iff, find, update_first, arith, Bool-cases, Option-cases, same_text_sym,
}
use impact_wallet_server.Base.Http.{
  Error, Result, ok, err, Result-cases, ok_inj, type_error, bad_request, conflict,
}
use impact_wallet_server.Members.Schema.{Member}
use impact_wallet_server.Members.{add_member_to_org}
use impact_wallet_server.Members.Unique.{IsSound, Added, add_member_to_org-Added}
use impact_wallet_server.Orgs.Schema.{Org}
use impact_wallet_server.Orgs.Mint.{has_id}
use impact_wallet_server.Orgs.Create.{org_valid, same_username, save_org, with_wallet, found_org}

-- No two organizations have the same username.
abbrev pub HasUniqueNames : List Org → Type 0
HasUniqueNames [] = Unit
HasUniqueNames (o ∷ os) = (find (same_username o) os ≡ none) × HasUniqueNames os

find-append_other :
    (o x : Org) (os : List Org)
    → find (same_username x) os ≡ none
    → same_username x o ≡ false
    → find (same_username x) (os ++ o ∷ []) ≡ none
find-append_other o x [] h k = ground arith
find-append_other o x (y ∷ os) h k = ground (arith, find-append_other o x os)

HasUniqueNames-append :
    (o : Org) (os : List Org)
    → HasUniqueNames os
    → find (same_username o) os ≡ none
    → HasUniqueNames (os ++ o ∷ [])
HasUniqueNames-append o [] u e = (refl, tt)
HasUniqueNames-append o (x ∷ os) u e = elim (Bool-cases (same_username o x)) [
  | inl same ↦ ground arith
  | inr other ↦ (
    find-append_other o x os u.0 (same_text_sym x.username o.username ∙ other),
    HasUniqueNames-append o os u.1 (ground arith),
  )
]

update-append_last :
    (i : ℕ) (o o' : Org) (os : List Org)
    → find (has_id i) os ≡ none
    → o.id ≡ i
    → update_first (has_id i) (λ x. o') (os ++ o ∷ []) ≡ os ++ o' ∷ []
update-append_last i o o' [] h k = rw ((==_iff o.id i).1 k) refl
update-append_last i o o' (x ∷ os) h k = ground (arith, update-append_last i o o' os)

-- What saving a document for the first time comes to.
save_org_cases :
    (o : Org) (os : List Org)
    → ((org_valid o ≡ true)
        × (find (same_username o) os ≡ none)
        × (save_org o os ≡ ok (os ++ o ∷ [])))
      ⊎ ((org_valid o ≡ false) × (save_org o os ≡ err (bad_request "ValidationError")))
      ⊎ ((find (same_username o) os ≢ none) × (save_org o os ≡ err (conflict "E11000")))
unfolding save_org
save_org_cases o os = ground arith

module _ (status : Error → Option ℕ) (create_wallet : Result ℕ) where
  with_wallet-ok :
      (mock : Bool) (o : Org) {owner : Org}
      → with_wallet status create_wallet mock o ≡ ok owner
      → (w : Option ℕ) × (owner ≡ record o { wallet = w })
  unfolding with_wallet
  with_wallet-ok true o h = (o.wallet, sym (ok_inj h))
  with_wallet-ok false o h = elim (Result-cases create_wallet) [
    | inl (w, c) ↦ (some w, sym (ok_inj (rw c at h)))
    | inr (e, c) ↦ (o.wallet, cc (rw c at h))
  ]

  -- What becomes of the collections.
  abbrev pub IsFounded :
      ℕ
      → Option Member
      → Bool
      → Org
      → List Org
      → List Member
      → Result (Org × List Org × List Member)
      → Type 0
  IsFounded fresh member mock doc orgs ms (ok (o, orgs', ms')) =
      (m : Member) × (w : Option ℕ) × (member ≡ some m)
      × (o ≡ record doc { wallet = w })
      × (org_valid doc ≡ true)
      × (orgs' ≡ orgs ++ o ∷ [])
      × (ms' ≡ ms ++ record m { org = fresh } ∷ [])
      × HasUniqueNames orgs'
      × IsSound ms'
  IsFounded fresh member mock doc orgs ms (err e) =
      ((e ≡ bad_request "ValidationError") × (org_valid doc ≡ false))
      ⊎ ((e ≡ conflict "E11000") × (find (same_username doc) orgs ≢ none))
      ⊎ (with_wallet status create_wallet mock doc ≡ err e)
      ⊎ ((e ≡ type_error) × (member ≡ none))
      ⊎ ((m : Member) × (member ≡ some m) × Added (record m { org = fresh }) ms (err e))

  module _ (fresh : ℕ) (doc : Org) (member : Option Member) (mock : Bool) (orgs : List Org)
      (ms : List Member) where
    not_saved :
        {e : Error}
        → save_org doc orgs ≡ err e
        → found_org status create_wallet fresh doc member mock orgs ms ≡ err e
    unfolding found_org
    not_saved s = rw (s, found_org) refl

    module _ {os : List Org} (s : save_org doc orgs ≡ ok os) where
      no_wallet :
          {e : Error}
          → with_wallet status create_wallet mock doc ≡ err e
          → found_org status create_wallet fresh doc member mock orgs ms ≡ err e
      unfolding found_org
      no_wallet w = rw (s, w, found_org) refl

      module _ {owner : Org} (w : with_wallet status create_wallet mock doc ≡ ok owner) where
        no_member :
            member ≡ none
            → found_org status create_wallet fresh doc member mock orgs ms ≡ err type_error
        unfolding found_org
        no_member c = rw (s, w, c, found_org) refl

        module _ {m : Member} (c : member ≡ some m) where
          not_added :
              {e : Error}
              → add_member_to_org fresh m ms ≡ err e
              → found_org status create_wallet fresh doc member mock orgs ms ≡ err e
          unfolding found_org
          not_added a = rw (s, w, c, a, found_org) refl

          founded :
              {ms' : List Member}
              → add_member_to_org fresh m ms ≡ ok ms'
              → found_org status create_wallet fresh doc member mock orgs ms
                ≡ ok (owner, update_first (has_id doc.id) (λ x. owner) os, ms')
          unfolding found_org
          founded a = rw (s, w, c, a, found_org) refl

  pub found_org-IsFounded :
      (fresh : ℕ) (doc : Org) (member : Option Member) (mock : Bool) (orgs : List Org)
      (ms : List Member)
      → HasUniqueNames orgs
      → IsSound ms
      → doc.id ≡ fresh
      → find (has_id fresh) orgs ≡ none
      → IsFounded fresh member mock doc orgs ms
          (found_org status create_wallet fresh doc member mock orgs ms)
  found_org-IsFounded fresh doc member mock orgs ms u h k f = elim (save_org_cases doc orgs) [
    | inr (inl (v, s)) ↦ rw (not_saved fresh doc member mock orgs ms s) (inl (refl, v))
    | inr (inr (t, s)) ↦ rw (not_saved fresh doc member mock orgs ms s) (inr (inl (refl, t)))
    | inl (v, t, s) ↦ elim (Result-cases (with_wallet status create_wallet mock doc)) [
      | inr (e, w) ↦ rw (no_wallet fresh doc member mock orgs ms s w) (inr (inr (inl w)))
      | inl (owner, w) ↦ elim (Option-cases member) [
        | inl c ↦
            rw (no_member fresh doc member mock orgs ms s w c) (inr (inr (inr (inl (refl, c)))))
        | inr (m, c) ↦
            let added : Added (record m { org = fresh }) ms (add_member_to_org fresh m ms) =
              add_member_to_org-Added fresh m ms h in
            let (wallet, same) = with_wallet-ok mock doc w in
            elim (Result-cases (add_member_to_org fresh m ms)) [
              | inr (e, a) ↦
                  let refused_member : Added (record m { org = fresh }) ms (err e) =
                    rw a at added in
                  rw (not_added fresh doc member mock orgs ms s w c a)
                    (inr (inr (inr (inr (m, c, refused_member)))))
              | inl (ms', a) ↦
                  let (sound, eq, _, _) : Added (record m { org = fresh }) ms (ok ms') =
                    rw a at added in
                  let absent : find (has_id doc.id) orgs ≡ none = rw k f in
                  let last : update_first (has_id doc.id) (λ x. owner) (orgs ++ doc ∷ [])
                      ≡ orgs ++ owner ∷ [] =
                    update-append_last doc.id doc owner orgs absent refl in
                  let free : find (same_username owner) orgs ≡ none = rw same t in
                  rw (founded fresh doc member mock orgs ms s w c a) (
                    m,
                    wallet,
                    c,
                    same,
                    v,
                    last,
                    eq,
                    subst HasUniqueNames (sym last) (HasUniqueNames-append owner orgs u free),
                    sound,
                  )
            ]
      ]
    ]
  ]
