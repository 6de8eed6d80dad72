-- ===== src/Users/Send/Lite.antt =====
-- `sendAssets` of the lite client (src/users/users.service.lite.ts), outside a transaction: shares go
-- from the account's wallet to the recipient's, who becomes a member; no books are kept. The key and
-- the chain's transfer are parameters.
use impact_wallet_server.Base.{
  ℕ, ◌≡◌, refl, sym, ap, ◌∙◌, ◌⊎◌, inl, inr, Option, none, some, List, [], ◌∷◌, ◌++◌, find,
  find_sound, Option-cases, arith,
}
use impact_wallet_server.Base.Int.{pos}
use impact_wallet_server.Base.Http.{
  Result, ok, err, ◌>>=◌, or_throw, or_throw-ok, not_found, thrown, type_error, Result-cases,
  >>=-eq-ok, ok_inj,
}
use impact_wallet_server.Auth.{AccountModel, account_id, account_wallet}
use impact_wallet_server.Members.Schema.{Member, immediately}
use impact_wallet_server.Members.{saved, refused, save_new}
use impact_wallet_server.Orgs.Schema.{Org}
use impact_wallet_server.Payment.Split.{has_org_id}
use impact_wallet_server.Users.Send.{
  SendAssetsDto, Recipient, user_recipient, org_recipient, SendStore, Transfer, find_recipient,
  is_account_member, is_recipient_member, new_member, IsNamed, find_recipient-IsNamed,
  IsAccountMember, is_account_member_sound, IsRecipientMember,
}

-- `recipientAddress`
abbrev pub recipient_address : SendAssetsDto → Option Recipient → Option ℕ
recipient_address dto none = dto.recipient_address
recipient_address dto (some (user_recipient u)) = u.wallet
recipient_address dto (some (org_recipient o)) = o.wallet

abbrev pub new_receiver : ℕ → Recipient → ℕ → Member
new_receiver fresh r org_id = record (new_member fresh "Receiver" r org_id (pos 0)) {
  equity_type = some immediately;
}

-- A recipient that is named and is no member becomes one.
unfoldable pub with_receiver : ℕ → Option Recipient → ℕ → List Member → Result (List Member)
unfolding save_new
with_receiver fresh none org_id ms = ok ms
with_receiver fresh (some r) org_id ms = elim (find (is_recipient_member r org_id) ms) [
  | some m ↦ ok ms
  | none ↦ elim (save_new (new_receiver fresh r org_id) ms) [
    | saved ms' ↦ ok ms'
    | refused e ↦ err (thrown "MongoServerError")
  ]
]

module _ (key : Option ℕ → Result ℕ) (transfer : ℕ → Option ℕ → Option ℕ → ℕ → Result ℕ) where
  -- `transfer`, from the account's own wallet
  unfoldable pub transfer_lite : AccountModel → Member → Option ℕ → ℕ → List Org → Result Transfer
  transfer_lite a sender address amount orgs =
      or_throw (find (has_org_id sender.org) orgs) type_error >>= λ org.
      key (account_wallet a) >>= λ pk. transfer pk org.mint address amount >>= λ signature.
      ok (record { mint = org.mint; wallet = address; amount = amount })

  -- Who receives, and the sender's member.
  unfoldable pub find_parties :
      SendAssetsDto → AccountModel → ℕ → SendStore → Result (Option Recipient × Member)
  unfolding find_recipient
  find_parties dto a org_id s = find_recipient dto s >>= λ recipient.
      or_throw (find (is_account_member (account_id a) org_id) s.members)
        (not_found "Sender member not found")
      >>= λ sender. ok (recipient, sender)

  -- The members, whom a new one has joined even where the transfer throws, and the transfer.
  unfoldable pub send_assets_lite :
      ℕ → SendAssetsDto → AccountModel → ℕ → SendStore → List Member × Result Transfer
  unfolding find_parties with_receiver transfer_lite
  send_assets_lite fresh dto a org_id s = elim (find_parties dto a org_id s) [
    | err e ↦ (s.members, err e)
    | ok parties ↦ elim (with_receiver fresh parties.0 org_id s.members) [
      | err e ↦ (s.members, err e)
      | ok ms ↦ (ms, transfer_lite a parties.1 (recipient_address dto parties.0) dto.amount s.orgs)
    ]
  ]

saved-ok :
    (m : Member) (ms : List Member) {ms' : List Member}
    → elim (save_new m ms) [ saved l ↦ ok l | refused e ↦ err (thrown "MongoServerError") ] ≡ ok ms'
    → ms' ≡ ms ++ m ∷ []
unfolding save_new
saved-ok m ms h = ground arith

-- The wallet that shares are for: the recipient's own, or else the address of the request.
abbrev pub IsAddressOf : SendAssetsDto → Option Recipient → Option ℕ → Type 0
IsAddressOf dto none w = w ≡ dto.recipient_address
IsAddressOf dto (some (user_recipient u)) w = w ≡ u.wallet
IsAddressOf dto (some (org_recipient o)) w = w ≡ o.wallet

recipient_address-IsAddressOf :
    (dto : SendAssetsDto) (r : Option Recipient) → IsAddressOf dto r (recipient_address dto r)
recipient_address-IsAddressOf dto none = refl
recipient_address-IsAddressOf dto (some (user_recipient u)) = refl
recipient_address-IsAddressOf dto (some (org_recipient o)) = refl

-- The members are as they were, or a recipient who was none of the organization's has become one,
-- without any shares.
abbrev pub IsJoined : Option Recipient → ℕ → List Member → List Member → Type 0
IsJoined o org_id ms ms' =
    (ms' ≡ ms)
    ⊎ ((r : Recipient) × (o ≡ some r)
        × (find (is_recipient_member r org_id) ms ≡ none)
        × ((m : Member) × (ms' ≡ ms ++ m ∷ [])
            × IsRecipientMember r org_id m
            × (m.lamports_earned ≡ pos 0)))

new_receiver-IsRecipientMember :
    (fresh : ℕ) (r : Recipient) (org_id : ℕ)
    → IsRecipientMember r org_id (new_receiver fresh r org_id)
new_receiver-IsRecipientMember fresh (user_recipient u) org_id = (refl, refl)
new_receiver-IsRecipientMember fresh (org_recipient o) org_id = (refl, refl)

with_receiver-IsJoined :
    (fresh : ℕ) (o : Option Recipient) (org_id : ℕ) (ms : List Member) {ms' : List Member}
    → with_receiver fresh o org_id ms ≡ ok ms'
    → IsJoined o org_id ms ms'
unfolding with_receiver
with_receiver-IsJoined fresh none org_id ms h = inl (sym (ok_inj h))
with_receiver-IsJoined fresh (some r) org_id ms h =
    elim (Option-cases (find (is_recipient_member r org_id) ms)) [
      | inr (m, c) ↦ inl (sym (ok_inj (rw (with_receiver, c) at h)))
      | inl c ↦ inr (
        r,
        refl,
        c,
        (
          new_receiver fresh r org_id,
          saved-ok (new_receiver fresh r org_id) ms (rw (with_receiver, c) at h),
          new_receiver-IsRecipientMember fresh r org_id,
          refl,
        ),
      )
    ]

module _ (key : Option ℕ → Result ℕ) (transfer : ℕ → Option ℕ → Option ℕ → ℕ → Result ℕ) where
  -- What a call has come to.
  abbrev pub IsSentLite :
      ℕ → SendAssetsDto → AccountModel → ℕ → SendStore → List Member × Result Transfer → Type 0
  IsSentLite fresh dto a org_id s (ms', ok t) =
      (recipient : Option Recipient) × (sender : Member) × (org : Org) × (pk : ℕ) × (signature : ℕ)
      × (address : Option ℕ) × IsNamed dto s recipient
      × IsAccountMember (account_id a) org_id sender
      × (find (is_account_member (account_id a) org_id) s.members ≡ some sender)
      × (find (has_org_id sender.org) s.orgs ≡ some org)
      × IsJoined recipient org_id s.members ms'
      × (key (account_wallet a) ≡ ok pk)
      × IsAddressOf dto recipient address
      × (transfer pk org.mint address dto.amount ≡ ok signature)
      × (t ≡ record { mint = org.mint; wallet = address; amount = dto.amount })
  IsSentLite fresh dto a org_id s (ms', err e) =
      (ms' ≡ s.members)
      ⊎ ((recipient : Option Recipient) × IsNamed dto s recipient
          × IsJoined recipient org_id s.members ms')

  found_lem :
      (dto : SendAssetsDto) (a : AccountModel) (org_id : ℕ) (s : SendStore) (o : Option Recipient)
      (m : Member)
      → find_parties key transfer dto a org_id s ≡ ok (o, m)
      → (find_recipient dto s ≡ ok o)
        × (find (is_account_member (account_id a) org_id) s.members ≡ some m)
  unfolding find_parties
  found_lem dto a org_id s o m h =
      let (r, e, h1) = >>=-eq-ok (find_recipient dto s) _ h in
      let (sender, k, h2) =
        >>=-eq-ok
          (or_throw (find (is_account_member (account_id a) org_id) s.members)
            (not_found "Sender member not found"))
          _ h1 in
      (e ∙ ap (λ p. ok p.0) (ok_inj h2), or_throw-ok _ _ k ∙ ap (λ p. some p.1) (ok_inj h2))

  transferred_lem :
      (a : AccountModel) (sender : Member) (address : Option ℕ) (amount : ℕ) (orgs : List Org)
      {t : Transfer}
      → transfer_lite key transfer a sender address amount orgs ≡ ok t
      → (org : Org) × (pk : ℕ) × (signature : ℕ) × (find (has_org_id sender.org) orgs ≡ some org)
        × (key (account_wallet a) ≡ ok pk)
        × (transfer pk org.mint address amount ≡ ok signature)
        × (t ≡ record { mint = org.mint; wallet = address; amount = amount })
  unfolding transfer_lite
  transferred_lem a sender address amount orgs h =
      let (org, e, h1) = >>=-eq-ok (or_throw (find (has_org_id sender.org) orgs) type_error) _ h in
      let (pk, k, h2) = >>=-eq-ok (key (account_wallet a)) _ h1 in
      let (signature, t, given) = >>=-eq-ok (transfer pk org.mint address amount) _ h2 in
      (org, pk, signature, or_throw-ok _ _ e, k, t, sym (ok_inj given))

  -- Shares are sent in the lite client: where the call returns, the amount has gone from the account's
  -- wallet to the wallet of the user or the organization that the request names, or else to its
  -- address, in the token of the organization that the sender is a member of. Whether or not it
  -- returns, the members' books are as they were, but that a recipient who was no member may have
  -- become one, without shares.
  pub send_assets_lite-IsSentLite :
      (fresh : ℕ) (dto : SendAssetsDto) (a : AccountModel) (org_id : ℕ) (s : SendStore)
      → IsSentLite fresh dto a org_id s (send_assets_lite key transfer fresh dto a org_id s)
  unfolding send_assets_lite
  send_assets_lite-IsSentLite fresh dto a org_id s =
      elim (Result-cases (find_parties key transfer dto a org_id s)) [
        | inr (e, c) ↦ rw (c, send_assets_lite) (inl refl)
        | inl ((o, m), c) ↦
            let (named, own) = found_lem dto a org_id s o m c in
            elim (Result-cases (with_receiver fresh o org_id s.members)) [
              | inr (e, w) ↦ rw (c, w, send_assets_lite) (inl refl)
              | inl (ms', w) ↦
                  let joined = with_receiver-IsJoined fresh o org_id s.members w in
                  elim (Result-cases
                    (transfer_lite key transfer a m (recipient_address dto o) dto.amount s.orgs)) [
                      | inr (e, t) ↦
                          rw (c, w, t, send_assets_lite)
                            (inr (o, find_recipient-IsNamed dto s named, joined))
                      | inl (sent, t) ↦
                          let (org, pk, signature, e, k, went, given) =
                            transferred_lem a m (recipient_address dto o) dto.amount s.orgs t in
                          rw (c, w, t, send_assets_lite)
                            (
                              o,
                              m,
                              org,
                              pk,
                              signature,
                              recipient_address dto o,
                              find_recipient-IsNamed dto s named,
                              is_account_member_sound (account_id a) org_id m (
                                  find_sound (is_account_member (account_id a) org_id) s.members
                                    own),
                              own,
                              e,
                              joined,
                              k,
                              recipient_address-IsAddressOf dto o,
                              went,
                              given,
                            )
                    ]
            ]
      ]
