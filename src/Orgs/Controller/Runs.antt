-- ===== src/Orgs/Controller/Runs.antt =====
-- What each request of src/orgs/orgs.controller.ts and src/orgs/orgs.controller.lite.ts does to an
-- organization, and any sequence of them.
use mathlib.Core.Path.{subst}
use impact_wallet_server.Base.{
  ℕ, ◌≡◌, refl, sym, ap, ◌∙◌, ◌≢◌, ◌⊎◌, inl, inr, Option, none, some, List, [], ◌∷◌, ◌++◌, ◌==◌,
  ==_iff, find, find_sound, filter, Bool-cases, is_nil, is_nil→some,
}
use impact_wallet_server.Base.Http.{ok, err, >>=-eq-ok, ok_inj, Result-cases}
use impact_wallet_server.Auth.{Header, Jwt}
use impact_wallet_server.Members.Schema.{Member}
use impact_wallet_server.Members.{add_member_to_org}
use impact_wallet_server.Members.Unique.{Added, add_member_to_org-Added}
use impact_wallet_server.Orgs.Schema.{Org}
use impact_wallet_server.Orgs.Mint.{has_id}
use impact_wallet_server.Orgs.Create.Handlers.{Created, create_org, create_org_lite}
use impact_wallet_server.Orgs.Create.Made.{IsMade, create_org-IsMade, create_org_lite-IsMade}
use impact_wallet_server.Orgs.Update.{UpdateOrgDto, update_org}
use impact_wallet_server.Orgs.Update.Names.{
  HasUniqueIds, find-update_other, HasUniqueIds-write, is_nil-find-write,
}
use impact_wallet_server.Orgs.Update.{set_in}
use impact_wallet_server.Orgs.Update.Updated.{update_org-IsPriced, set_in-id}
use impact_wallet_server.Orgs.Controller.{
  Server, Request, create, create_lite, add_member, send_usdc, update, Services, send_usdc_of_org,
  require_admin, with_created, handle_create, handle_create_lite, handle_add_member,
  handle_send_usdc, handle_update, handle,
}
use impact_wallet_server.Orgs.Controller.Guarded.{
  IsValid, IsFresh, is_of_org, is_sent_by, IsUntouched, IsByAdmin, IsGuarded, filter-append_other,
  IsMade-guarded, admin_lem, different, other_number, send_usdc-org,
}

module _ {Token : Type 0} (jwt : Jwt Token) (services : Services) where
  -- An organization is still in the collection.
  abbrev IsPresent : ℕ → Server → Server → Type 0
  IsPresent i s s' = is_nil (find (has_id i) s'.store.orgs) ≡ is_nil (find (has_id i) s.store.orgs)

  -- What a request that succeeds has come to.
  abbrev IsStep : ℕ → Option (Header Token) → Server → Server → Type 0
  IsStep i header s s' = IsValid s' × IsPresent i s s' × IsGuarded jwt services i header s s'

  made-IsStep :
      (i fresh : ℕ) (header : Option (Header Token)) (s : Server) (c : Created) {o : Org}
      → IsMade fresh s.store c
      → find (has_id fresh) s.store.orgs ≡ none
      → find (has_id i) s.store.orgs ≡ some o
      → IsStep i header s (with_created jwt services s c)
  made-IsStep i fresh header s c h f e = (
    record { ids = h.organization.0; names = h.organization.1; sound = h.sound },
    ap (λ o. is_nil o) (IsMade-guarded jwt services i fresh s c h f e).document,
    inl (IsMade-guarded jwt services i fresh s c h f e),
  )

  -- A request that only an administrator of `org_id` makes, and that touches no other organization.
  by_admin :
      (i org_id : ℕ) (header : Option (Header Token)) (s s' : Server)
      → require_admin jwt services header org_id s.store ≡ ok tt
      → (i ≢ org_id → IsUntouched i s s')
      → IsGuarded jwt services i header s s'
  by_admin i org_id header s s' h other = elim (Bool-cases (i == org_id)) [
    | inl c ↦ inr (
        subst (λ j. IsByAdmin jwt services j header s) (sym ((==_iff i org_id).0 c))
          (admin_lem jwt services header org_id s h))
    | inr c ↦ inl (other (different jwt services i org_id c))
  ]

  handle_add_member-IsStep :
      (i org_id : ℕ) (header : Option (Header Token)) (m : Member) (s s' : Server)
      → IsValid s
      → handle_add_member jwt services header org_id m s ≡ ok s'
      → IsStep i header s s'
  unfolding handle_add_member
  handle_add_member-IsStep i org_id header m s s' v h =
      let (done, allowed, h1) = >>=-eq-ok (require_admin jwt services header org_id s.store) _ h in
      let (ms', added, h2) = >>=-eq-ok (add_member_to_org org_id m s.store.members) _ h1 in
      let outcome : Added (record m { org = org_id }) s.store.members
          (add_member_to_org org_id m s.store.members) =
        add_member_to_org-Added org_id m s.store.members v.sound in
      let (sound, last, _, _) : Added (record m { org = org_id }) s.store.members (ok ms') =
        rw added at outcome in
      subst (IsStep i header s) (ok_inj h2) (
        record { ids = v.ids; names = v.names; sound = sound },
        refl,
        by_admin i org_id header s (record s { store = record s.store { members = ms' } }) allowed
            λ n. record {
              document = refl;
              members =
                  ap (filter (is_of_org i)) last
                  ∙ filter-append_other jwt services (is_of_org i) s.store.members
                      (record m { org = org_id }) (other_number jwt services org_id i n);
              sent = refl;
            },
      )

  handle_send_usdc-IsStep :
      (i org_id recipient amount : ℕ) (header : Option (Header Token)) (s s' : Server)
      → IsValid s
      → handle_send_usdc jwt services header org_id recipient amount s ≡ ok s'
      → IsStep i header s s'
  unfolding handle_send_usdc
  handle_send_usdc-IsStep i org_id recipient amount header s s' v h =
      let (done, allowed, h1) = >>=-eq-ok (require_admin jwt services header org_id s.store) _ h in
      let (t, sent, h2) =
        >>=-eq-ok (send_usdc_of_org jwt services org_id recipient amount s.store.orgs) _ h1 in
      let by_org : t.org ≡ org_id =
        send_usdc-org jwt services org_id recipient amount s.store.orgs sent in
      subst (IsStep i header s) (ok_inj h2) (
        record { ids = v.ids; names = v.names; sound = v.sound },
        refl,
        by_admin i org_id header s (record s { sent = s.sent ++ t ∷ [] }) allowed
            λ n. record {
              document = refl;
              members = refl;
              sent =
                  filter-append_other jwt services (is_sent_by i) s.sent t
                    (ap (λ j. j == i) by_org ∙ other_number jwt services org_id i n);
            },
      )

  handle_update-IsStep :
      (i org_id : ℕ) (header : Option (Header Token)) (dto : UpdateOrgDto) (s s' : Server)
      → IsValid s
      → handle_update jwt services header org_id dto s ≡ ok s'
      → IsStep i header s s'
  unfolding handle_update
  handle_update-IsStep i org_id header dto s s' v h =
      let orgs = s.store.orgs in
      let (done, allowed, h1) = >>=-eq-ok (require_admin jwt services header org_id s.store) _ h in
      let updated =
        update_org services.product services.deactivate services.price dto org_id orgs orgs in
      let (orgs', e, h2) = >>=-eq-ok updated.1 _ h1 in
      let (before, d, o, found, _, written, names, kept, _) =
        update_org-IsPriced services.product services.deactivate services.price dto org_id orgs orgs
          v.ids v.names (ap (λ r. (updated.0, r)) e) in
      let stored = set_in o (find (has_id org_id) orgs) in
      let own : stored.id ≡ org_id =
        set_in-id o (find (has_id org_id) orgs)
        ∙ kept.id
        ∙ (==_iff before.id org_id).0 (find_sound (has_id org_id) orgs found) in
      let ids : HasUniqueIds orgs' =
        subst HasUniqueIds (sym written) (HasUniqueIds-write org_id stored orgs own v.ids) in
      subst (IsStep i header s) (ok_inj h2) (
        record { ids = ids; names = names; sound = v.sound },
        ap (λ os. is_nil (find (has_id i) os)) written ∙ is_nil-find-write i org_id stored orgs own,
        by_admin i org_id header s (record s { store = record s.store { orgs = orgs' } }) allowed
            λ n. record {
              document =
                  ap (find (has_id i)) written ∙ find-update_other org_id i stored orgs own n;
              members = refl;
              sent = refl;
            },
      )

  handle-IsStep :
      (i : ℕ) (header : Option (Header Token)) (r : Request) (s s' : Server) {o : Org}
      → IsValid s
      → IsFresh r s
      → find (has_id i) s.store.orgs ≡ some o
      → handle jwt services header r s ≡ ok s'
      → IsStep i header s s'
  unfolding handle handle_create handle_create_lite
  handle-IsStep i header (create fresh dto logo mock) s s' v f e h =
      let (c, made, h1) =
        >>=-eq-ok
          (create_org jwt services.status services.create_wallet services.get_logo
            services.create_token services.confirm services.mint_token fresh header dto logo mock
            s.store)
          _ h in
      let its =
        create_org-IsMade jwt services.status services.create_wallet services.get_logo
          services.create_token services.confirm services.mint_token fresh s.store v.ids v.names
          v.sound f header dto logo mock c made in
      subst (IsStep i header s) (ok_inj h1) (made-IsStep i fresh header s c its f e)
  handle-IsStep i header (create_lite fresh dto logo mock) s s' v f e h =
      let (c, made, h1) =
        >>=-eq-ok
          (create_org_lite jwt services.status services.create_wallet services.get_logo
            services.create_token services.confirm services.mint_token fresh header dto logo mock
            s.store)
          _ h in
      let its =
        create_org_lite-IsMade jwt services.status services.create_wallet services.get_logo
          services.create_token services.confirm services.mint_token fresh s.store v.ids v.names
          v.sound f header dto logo mock c made in
      subst (IsStep i header s) (ok_inj h1) (made-IsStep i fresh header s c its f e)
  handle-IsStep i header (add_member org_id m) s s' v f e h =
      handle_add_member-IsStep i org_id header m s s' v h
  handle-IsStep i header (send_usdc org_id recipient amount) s s' v f e h =
      handle_send_usdc-IsStep i org_id recipient amount header s s' v h
  handle-IsStep i header (update org_id dto) s s' v f e h =
      handle_update-IsStep i org_id header dto s s' v h

  -- A request that throws leaves the server as it is.
  unfoldable pub next : Option (Header Token) × Request → Server → Server
  unfolding handle
  next r s = elim (handle jwt services r.0 r.1 s) [ err e ↦ s | ok s' ↦ s' ]

  unfoldable pub run : List (Option (Header Token) × Request) → Server → Server
  unfolding next
  run [] s = s
  run (r ∷ rs) s = run rs (next r s)

  abbrev pub AreFresh : List (Option (Header Token) × Request) → Server → Type 0
  AreFresh [] s = Unit
  AreFresh (r ∷ rs) s = IsFresh r.1 s × AreFresh rs (next r s)

  -- Some request of the sequence has, at its moment, the token of an administrator.
  abbrev pub IsActed : ℕ → List (Option (Header Token) × Request) → Server → Type 0
  IsActed i [] s = ⊥
  IsActed i (r ∷ rs) s = IsByAdmin jwt services i r.0 s ⊎ IsActed i rs (next r s)

  next-IsStep :
      (i : ℕ) (r : Option (Header Token) × Request) (s : Server) {o : Org}
      → IsValid s
      → IsFresh r.1 s
      → find (has_id i) s.store.orgs ≡ some o
      → IsStep i r.0 s (next r s)
  unfolding next
  next-IsStep i r s v f e = elim (Result-cases (handle jwt services r.0 r.1 s)) [
    | inl (s', h) ↦ rw (h, next) (handle-IsStep i r.0 r.1 s s' v f e h)
    | inr (x, h) ↦
        rw (h, next) (v, refl, inl (record { document = refl; members = refl; sent = refl }))
  ]

  joined :
      (i : ℕ) (r : Option (Header Token) × Request) (rs : List (Option (Header Token) × Request))
      (s : Server)
      → IsGuarded jwt services i r.0 s (next r s)
      → IsUntouched i (next r s) (run rs (next r s)) ⊎ IsActed i rs (next r s)
      → IsUntouched i s (run (r ∷ rs) s) ⊎ IsActed i (r ∷ rs) s
  unfolding run
  joined i r rs s (inr acted) rest = inr (inl acted)
  joined i r rs s (inl same) (inr acted) = inr (inr acted)
  joined i r rs s (inl same) (inl later) = inl (record {
    document = later.document ∙ same.document;
    members = later.members ∙ same.members;
    sent = later.sent ∙ same.sent;
  })

  -- Of any sequence of requests that create organizations (with new ids), add members, send an
  -- organization's credits or update it: organizations always differ in id and username and the
  -- members' validators and index hold; and an organization's document, its members and the credits
  -- that have left its wallet are the same after them, unless one of the requests carried a token of
  -- an account that was an administrator of that organization then.
  pub run_guarded :
      (i : ℕ) (rs : List (Option (Header Token) × Request)) (s : Server) {o : Org}
      → IsValid s
      → AreFresh rs s
      → find (has_id i) s.store.orgs ≡ some o
      → IsValid (run rs s) × (IsUntouched i s (run rs s) ⊎ IsActed i rs s)
  unfolding run
  run_guarded i [] s v f e = (v, inl (record { document = refl; members = refl; sent = refl }))
  run_guarded i (r ∷ rs) s v f e =
      let (valid, present, first) = next-IsStep i r s v f.0 e in
      let (o', found) = is_nil→some _ (present ∙ ap (λ o. is_nil o) e) in
      let (all, rest) = run_guarded i rs (next r s) {o = o'} valid f.1 found in
      (all, joined i r rs s first rest)
