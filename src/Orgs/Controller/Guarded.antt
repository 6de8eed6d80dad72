-- ===== src/Orgs/Controller/Guarded.antt =====
-- Who changes an organization: the requests of src/orgs/orgs.controller.ts and
-- src/orgs/orgs.controller.lite.ts, alone and in any sequence.
use mathlib.Core.Path.{subst}
use impact_wallet_server.Base.{
  ℕ, ◌≡◌, refl, sym, ap, ◌∙◌, ◌≢◌, ◌⊎◌, Bool, false, Option, none, some, List, [], ◌∷◌, ◌++◌, ◌==◌,
  ltb, find, filter, arith,
}
use impact_wallet_server.Base.Http.{ok, >>=-eq-ok, ok_inj, bad_request, throw_if}
use impact_wallet_server.Auth.{AccountModel, Header, Jwt, get_account_from_token, permission_check}
use impact_wallet_server.Members.Schema.{Member}
use impact_wallet_server.Members.Unique.{IsSound}
use impact_wallet_server.Orgs.Schema.{Org}
use impact_wallet_server.Orgs.Mint.{has_id, get_by_org_id}
use impact_wallet_server.Orgs.Create.Founded.{HasUniqueNames}
use impact_wallet_server.Orgs.Create.Handlers.{Created}
use impact_wallet_server.Orgs.Create.Made.{IsMade}
use impact_wallet_server.Orgs.Update.Names.{HasUniqueIds}
use impact_wallet_server.Orgs.Controller.{
  OrgTransfer, Server, Request, create, create_lite, add_member, send_usdc, update, Services,
  send_usdc_of_org, require_admin, with_created,
}

-- Organizations differ in id and username, and the members' validators and index hold.
pub record IsValid (s : Server) : Type 0 where
  pub ids : HasUniqueIds s.store.orgs
  pub names : HasUniqueNames s.store.orgs
  pub sound : IsSound s.store.members

-- The id of a new organization is new.
abbrev pub IsFresh : Request → Server → Type 0
IsFresh (create fresh dto logo mock) s = find (has_id fresh) s.store.orgs ≡ none
IsFresh (create_lite fresh dto logo mock) s = find (has_id fresh) s.store.orgs ≡ none
IsFresh (add_member org_id m) s = Unit
IsFresh (send_usdc org_id recipient amount) s = Unit
IsFresh (update org_id dto) s = Unit

abbrev pub is_of_org : ℕ → Member → Bool
is_of_org i m = m.org == i

abbrev pub is_sent_by : ℕ → OrgTransfer → Bool
is_sent_by i t = t.org == i

-- The organization's document, its members, and the credits that have left its wallet are the same.
pub record IsUntouched (i : ℕ) (s s' : Server) : Type 0 where
  pub document : find (has_id i) s'.store.orgs ≡ find (has_id i) s.store.orgs
  pub members : filter (is_of_org i) s'.store.members ≡ filter (is_of_org i) s.store.members
  pub sent : filter (is_sent_by i) s'.sent ≡ filter (is_sent_by i) s.sent

module _ {Token : Type 0} (jwt : Jwt Token) (services : Services) where
  -- The request has the token of an account that is an administrator of the organization.
  abbrev pub IsByAdmin : ℕ → Option (Header Token) → Server → Type 0
  IsByAdmin i header s =
      (a : AccountModel) × (get_account_from_token jwt header s.store.users s.store.orgs ≡ ok a)
      × (permission_check i a s.store.members ≡ ok tt)

  abbrev pub IsGuarded : ℕ → Option (Header Token) → Server → Server → Type 0
  IsGuarded i header s s' = IsUntouched i s s' ⊎ IsByAdmin i header s

  pub filter-append_other :
      {A : Type 0} (p : A → Bool) (xs : List A) (x : A)
      → p x ≡ false
      → filter p (xs ++ x ∷ []) ≡ filter p xs
  filter-append_other p [] x h = rw h refl
  filter-append_other p (y ∷ xs) x h = ground (arith, filter-append_other p xs x)

  differ :
      (i fresh : ℕ) (s : Server) {o : Org}
      → find (has_id i) s.store.orgs ≡ some o
      → find (has_id fresh) s.store.orgs ≡ none
      → i ≢ fresh
  differ i fresh s {o} e f same =
      let found : find (has_id fresh) s.store.orgs ≡ some o =
        subst (λ j. find (has_id j) s.store.orgs ≡ some o) same e in
      cc (found, f)

  pub different : (i j : ℕ) → (i == j) ≡ false → i ≢ j
  different i j c e = ground arith

  pub other_number : (m i : ℕ) → i ≢ m → (m == i) ≡ false
  other_number m i n = ground arith

  pub IsMade-guarded :
      (i fresh : ℕ) (s : Server) (c : Created) {o : Org}
      → IsMade fresh s.store c
      → find (has_id fresh) s.store.orgs ≡ none
      → find (has_id i) s.store.orgs ≡ some o
      → IsUntouched i s (with_created jwt services s c)
  IsMade-guarded i fresh s c h f e =
      let other : i ≢ fresh = differ i fresh s e f in
      record {
        document = h.organization.2 i other;
        members =
            ap (filter (is_of_org i)) h.appended
            ∙ filter-append_other (is_of_org i) s.store.members (record h.first { org = fresh })
                (other_number fresh i other);
        sent = refl;
      }

  pub admin_lem :
      (header : Option (Header Token)) (i : ℕ) (s : Server)
      → require_admin jwt services header i s.store ≡ ok tt
      → IsByAdmin i header s
  unfolding require_admin
  admin_lem header i s h =
      let (a, ha, p) =
        >>=-eq-ok (get_account_from_token jwt header s.store.users s.store.orgs) _ h in
      (a, ha, p)

  pub send_usdc-org :
      (org_id recipient amount : ℕ) (orgs : List Org) {t : OrgTransfer}
      → send_usdc_of_org jwt services org_id recipient amount orgs ≡ ok t
      → t.org ≡ org_id
  unfolding send_usdc_of_org
  send_usdc-org org_id recipient amount orgs h =
      let (org, _, h1) = >>=-eq-ok (get_by_org_id org_id orgs) _ h in
      let (balance, _, h2) = >>=-eq-ok (services.credits org.wallet) _ h1 in
      let (_, _, h3) =
        >>=-eq-ok (throw_if (ltb balance amount) (bad_request "Not enough Credit$ to send")) _ h2 in
      let (_, _, h4) = >>=-eq-ok (services.transfer org.wallet recipient amount) _ h3 in
      sym (ap (λ x. x.org) (ok_inj h4))
