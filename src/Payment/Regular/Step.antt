-- ===== src/Payment/Regular/Step.antt =====
-- The part of a payment before the nested payments, by its outcomes.
use impact_wallet_server.Base.{
  ℕ, suc, ◌≡◌, Bool, Option, none, some, List, [], ◌∷◌, ◌++◌, arith, if◌then◌else◌, not, ◌&&◌,
}
use impact_wallet_server.Base.Int.{ℤ, pos, pos_part, ◌-ℤ◌, ltb_ℤ}
use impact_wallet_server.Orgs.Schema.{Org}
use impact_wallet_server.Payment.Split.{
  Payout, OrgPayout, SplitState, split_start, pay_holders, holders_of, treasury_amount,
}
use impact_wallet_server.Payment.Regular.{
  World, pay_members, each_org, handle_regular_payment, call_org_webhook, is_success, send_batches,
}

abbrev pub amount_left : Org → ℤ → ℕ
amount_left org payment = pos_part (payment -ℤ treasury_amount payment org.settings.treasury)

-- The payment reaches the holders.
abbrev pub pays_members : Org → ℤ → Bool
pays_members org payment =
    is_success org.mint_status
    && not (ltb_ℤ (payment -ℤ treasury_amount payment org.settings.treasury) (pos 0))

abbrev pub early_world : Org → World → World
early_world org w = if is_success org.mint_status then call_org_webhook org w else w

abbrev pub paid_world : (ℕ → List Payout → Bool) → Org → World → SplitState → World
paid_world settles org w s = record (call_org_webhook org w) {
  members = s.members;
  sent = (call_org_webhook org w).sent ++ send_batches settles org s.members_with_amount;
}

-- Without a mint nothing happens; if the treasury takes more than the payment, the webhook is
-- called; otherwise the holders are paid and their batches sent.
pub pay_members_lem :
    (token_balance : Option ℕ → Option ℕ → ℕ) (settles : ℕ → List Payout → Bool) (org : Org)
    (payment : ℤ) (w : World) (s : SplitState)
    → pay_holders token_balance w.users w.orgs org.mint
        (amount_left org payment)
        (holders_of org.id w.members)
        (split_start w.members)
      ≡ some s
    → pay_members token_balance settles org payment w ≡ (
        if pays_members org payment
        then some (paid_world settles org w s, s.org_members)
        else some (early_world org w, []))
unfolding pay_members
pay_members_lem token_balance settles org payment w s e = ground arith

pub handle_regular_payment-suc :
    (token_balance : Option ℕ → Option ℕ → ℕ) (settles : ℕ → List Payout → Bool) (f : ℕ) (org : Org)
    (payment : ℤ) (w w' : World) (ps : List OrgPayout)
    → pay_members token_balance settles org payment w ≡ some (w', ps)
    → handle_regular_payment token_balance settles (suc f) org payment w
      ≡ each_org (handle_regular_payment token_balance settles f) ps w'
unfolding handle_regular_payment
handle_regular_payment-suc token_balance settles f org payment w w' ps e = ground arith

module _ (handle : Org → ℤ → World → Option World) (p : OrgPayout) (ps : List OrgPayout) where
  pub each_org-cons :
      (w w' : World)
      → handle p.org_user p.amount w ≡ some w'
      → each_org handle (p ∷ ps) w ≡ each_org handle ps w'
  unfolding each_org
  each_org-cons w w' e = ground arith

  pub each_org-cons_none :
      (w : World) → handle p.org_user p.amount w ≡ none → each_org handle (p ∷ ps) w ≡ none
  unfolding each_org
  each_org-cons_none w e = ground arith

pub handle_regular_payment-suc-none :
    (token_balance : Option ℕ → Option ℕ → ℕ) (settles : ℕ → List Payout → Bool) (f : ℕ) (org : Org)
    (payment : ℤ) (w : World)
    → pay_members token_balance settles org payment w ≡ none
    → handle_regular_payment token_balance settles (suc f) org payment w ≡ none
unfolding handle_regular_payment
handle_regular_payment-suc-none token_balance settles f org payment w e = ground arith
