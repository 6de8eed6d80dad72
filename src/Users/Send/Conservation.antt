-- ===== src/Users/Send/Conservation.antt =====
-- Sending shares moves them: the books add up, and what the transfer is sent to.
use impact_wallet_server.Base.{ℕ, ◌≡◌, Option, none, some, List, [], ◌∷◌, ◌++◌, find, ◌⊎◌}
use impact_wallet_server.Base.Int.{ℤ, pos, ◌+ℤ◌, neg_ℤ, ◌≤ℤ◌, sum_by}
use impact_wallet_server.Members.Schema.{Member}
use impact_wallet_server.Members.{update_contributed}
use impact_wallet_server.Members.Books.{IsMember, earned}
use impact_wallet_server.Users.Send.{
  SendAssetsDto, SendStore, Transfer, Recipient, is_account_member, is_recipient_member, IsNamed,
  IsAccountMember, IsRecipientMember,
}

-- What the recipient is credited with.
abbrev pub credited : Option Recipient → ℕ → ℤ
credited none amount = pos 0
credited (some r) amount = pos amount

-- The credit is what the books rise by, and no member is lost.
abbrev IsCredited : List Member → ℤ → List Member → Type 0
IsCredited ms a ms' =
    (sum_by earned ms' ≡ sum_by earned ms +ℤ a) × ((i : ℕ) → IsMember ms i → IsMember ms' i)

-- The shares have been written to a member of the recipient in the organization, one that was there or
-- a new one, and to nobody else.
abbrev pub IsCreditedTo : Option Recipient → ℕ → ℕ → List Member → List Member → Type 0
IsCreditedTo none org_id amount ms ms' = ms' ≡ ms
IsCreditedTo (some r) org_id amount ms ms' =
    (m : Member) × IsRecipientMember r org_id m
    × (((find (is_recipient_member r org_id) ms ≡ some m)
          × (ms' ≡ update_contributed m.id (pos 0) (pos amount) ms))
        ⊎ ((ms' ≡ ms ++ m ∷ []) × (m.lamports_earned ≡ pos amount)))

-- The recipient that the request names, the sender's member, the transfer and the books.
abbrev pub IsSent : SendAssetsDto → ℕ → ℕ → SendStore → List Member → Transfer → Type 0
IsSent dto account org_id s ms' t =
    (recipient : Option Recipient) × (sender : Member) × (credited_members : List Member) × IsNamed
      dto s recipient
    × IsAccountMember account org_id sender
    × (find (is_account_member account org_id) s.members ≡ some sender)
    × (pos dto.amount ≤ℤ sender.lamports_earned)
    × (t.amount ≡ dto.amount)
    × (t.wallet ≡ dto.recipient_address)
    × IsCreditedTo recipient org_id dto.amount s.members credited_members
    × (ms' ≡ update_contributed sender.id (pos 0) (neg_ℤ (pos dto.amount)) credited_members)
    × (sum_by earned ms'
        ≡ sum_by earned s.members +ℤ credited recipient dto.amount +ℤ neg_ℤ (pos dto.amount))
