-- ===== src/Payment/Regular.antt =====
-- `handleRegularPayment` (src/payment/payment.service.ts): the treasury's part, the split between
-- the holders, the transfers in batches, and the same again for every holder that is an
-- organization. The nested payments run one after the other here; the source runs up to three at a
-- time.
pub mod Step
pub mod Nested
pub mod Endless
use impact_wallet_server.Base.{
  ℕ, zero, suc, ◌≡◌, String, Bool, true, false, Option, none, some, List, [], ◌∷◌, ◌++◌,
  if◌then◌else◌, not, filter, map,
}
use Prim.Native.String
use impact_wallet_server.Base.Int.{ℤ, pos, pos_part, ◌-ℤ◌, ltb_ℤ}
use impact_wallet_server.Members.Schema.{Member}
use impact_wallet_server.Orgs.Schema.{Org, MintStatus, in_progress, error, success}
use impact_wallet_server.Users.Schema.{User}
use impact_wallet_server.Payment.Batches.{batches}
use impact_wallet_server.Payment.Split.{
  Payout, OrgPayout, SplitState, split_start, treasury_amount, pay_holders, holders_of,
}

-- A batch of transfers from an organization's wallet that went through.
pub record Batch : Type 0 where
  pub sender : ℕ
  pub payouts : List Payout

-- The collections that a payment reads and writes, the batches sent and the webhooks called.
pub record World : Type 0 where
  pub users : List User
  pub orgs : List Org
  pub members : List Member
  pub sent : List Batch
  pub webhook_calls : List ℕ

abbrev pub is_success : Option MintStatus → Bool
is_success (some success) = true
is_success (some in_progress) = false
is_success (some error) = false
is_success none = false

-- `isEmpty` of a text that may be missing
abbrev pub is_empty_text : Option String → Bool
is_empty_text none = true
is_empty_text (some String.[]) = true
is_empty_text (some (String.◌∷◌ c s)) = false

abbrev pub call_org_webhook : Org → World → World
call_org_webhook org w =
    if not (is_empty_text org.settings.webhook)
    then record w { webhook_calls = w.webhook_calls ++ org.id ∷ [] }
    else w

-- The batches whose transaction is sent and confirmed; one that fails is caught and logged.
abbrev pub send_batches : (ℕ → List Payout → Bool) → Org → List Payout → List Batch
send_batches settles org payouts =
    map (λ b. record { sender = org.id; payouts = b }) (filter (settles org.id) (batches payouts))

-- One payment after the other, for each organization that has been paid.
unfoldable pub each_org : (Org → ℤ → World → Option World) → List OrgPayout → World → Option World
each_org handle [] w = some w
each_org handle (p ∷ ps) w = elim (handle p.org_user p.amount w) [
  | none ↦ none
  | some w' ↦ each_org handle ps w'
]

-- `token_balance` is the balance of a mint in a wallet; `settles` says whether sending and
-- confirming a batch returns a hash.
module _ (token_balance : Option ℕ → Option ℕ → ℕ) (settles : ℕ → List Payout → Bool) where
  -- The payment up to the nested ones: the new world, and the organizations that have been paid;
  -- `none` of the option inside is an early `return`.
  unfoldable pub pay_members : Org → ℤ → World → Option (World × List OrgPayout)
  pay_members org payment w =
      if not (is_success org.mint_status)
      then some (w, [])
      else let called = call_org_webhook org w in
        let amount_to_split = payment -ℤ treasury_amount payment org.settings.treasury in
        if ltb_ℤ amount_to_split (pos 0)
        then some (called, [])
        else elim (pay_holders token_balance w.users w.orgs org.mint (pos_part amount_to_split)
            (holders_of org.id w.members) (split_start w.members)) [
              | none ↦ none
              | some s ↦ some (
                record called {
                  members = s.members;
                  sent = called.sent ++ send_batches settles org s.members_with_amount;
                },
                s.org_members,
              )
            ]

  -- `handleRegularPayment`; the fuel bounds the depth of the nested calls, and `none` is lack of it.
  unfoldable pub handle_regular_payment : ℕ → Org → ℤ → World → Option World
  unfolding pay_members each_org
  handle_regular_payment zero org payment w = none
  handle_regular_payment (suc f) org payment w = elim (pay_members org payment w) [
    | none ↦ none
    | some (w', org_members) ↦ each_org (handle_regular_payment f) org_members w'
  ]
