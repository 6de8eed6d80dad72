-- ===== src/Payment/Merchant.antt =====
-- `receivePayment` and `handleMerchantPayment` (src/payment/payment.service.ts): a merchant's payment is
-- recorded, credits are minted for it to the organization, and then it is split. The keys, the mint
-- and its confirmation are parameters; the split that is started is part of the result.
pub mod Minted
use impact_wallet_server.Base.{
  ℕ, ◌+◌, String, Bool, true, false, not, ◌&&◌, Option, none, some, List, [], ◌∷◌, ◌++◌, ◌==◌, find,
  update_first, same_option, if◌then◌else◌, trim, is_blank,
}
use impact_wallet_server.Base.Http.{
  Error, Result, ok, err, ◌>>=◌, or_throw, not_found, bad_request, type_error,
}
use impact_wallet_server.Orgs.Schema.{Org}

pub record PaymentItem : Type 0 where
  pub name : Option String
  pub amount : ℕ

-- A payment of the default type `Regular`.
pub record ReceivedPayment : Type 0 where
  pub id : ℕ
  pub org : ℕ
  pub amount : ℕ
  pub items : List PaymentItem
  pub txn_hash : Option ℕ

-- `MerchantWebhookDto`
pub record MerchantPayment : Type 0 where
  pub wallet_address : ℕ
  pub amount : ℕ
  pub memo : Option String

-- The arguments of `handleRegularPayment`.
pub record RegularCall : Type 0 where
  pub org : Org
  pub amount : ℕ
  pub memo : Option String

-- `body.items.reduce((acc, item) => acc + item.amount, 0)`
abbrev pub items_amount : List PaymentItem → ℕ
items_amount [] = 0
items_amount (i ∷ is) = i.amount + items_amount is

-- `name` is required, and a text that is empty is none.
abbrev pub is_named : PaymentItem → Bool
is_named i = elim i.name [ none ↦ false | some s ↦ not (is_blank s) ]

abbrev pub all_named : List PaymentItem → Bool
all_named [] = true
all_named (i ∷ is) = is_named i && all_named is

unfoldable pub receive_payment :
    ℕ
    → Org
    → List PaymentItem
    → List ReceivedPayment
    → Result (ReceivedPayment × List ReceivedPayment)
receive_payment fresh org items payments =
    let p : ReceivedPayment = record {
      id = fresh;
      org = org.id;
      amount = items_amount items;
      items = items;
      txn_hash = none;
    } in
    if all_named items then ok (p, payments ++ p ∷ []) else err (bad_request "ValidationError")

abbrev pub has_org_wallet : ℕ → Org → Bool
has_org_wallet w o = same_option o.wallet (some w)

abbrev pub has_payment_id : ℕ → ReceivedPayment → Bool
has_payment_id i p = p.id == i

-- `!isEmpty(body.memo) ? body.memo.trim() : null`
abbrev pub memo_text : Option String → Option String
memo_text none = none
memo_text (some s) = if is_blank s then none else some (trim s)

abbrev pub merchant_items : MerchantPayment → List PaymentItem
merchant_items body = record { name = body.memo; amount = body.amount } ∷ []

-- What the webhook leaves: the payments, and the split that it starts, if any.
abbrev pub Handled : Type 0
Handled = List ReceivedPayment × Option RegularCall

-- `mint pk wallet amount memo` sends a mint of credits, `confirm` is `confirmTxnWithRetry`.
module _ (root : ℕ) (key : Option ℕ → Result ℕ) (mint : ℕ → Option ℕ → ℕ → Option String → Result ℕ)
    (confirm : ℕ → Result ℕ) where
  unfoldable pub mint_confirmed : ℕ → Org → MerchantPayment → Result ℕ
  mint_confirmed pk org body =
      mint pk org.wallet body.amount (memo_text body.memo) >>= λ hash. confirm hash

  -- The chain of `then`s, which runs after the answer; its `catch` only logs.
  unfoldable pub minted_payment :
      ℕ → Org → MerchantPayment → ReceivedPayment → List ReceivedPayment → Handled
  unfolding mint_confirmed
  minted_payment pk org body p payments = elim (mint_confirmed pk org body) [
    | err e ↦ (payments, none)
    | ok hash ↦ (
      update_first (has_payment_id p.id) (λ x. record x { txn_hash = some hash }) payments,
      some (record { org = org; amount = body.amount; memo = body.memo }),
    )
  ]

  -- The payments, which stay recorded where the rest throws, and how the request is answered.
  unfoldable pub handle_merchant_payment :
      ℕ → MerchantPayment → List Org → List ReceivedPayment → Handled × Result (Unit {0})
  unfolding receive_payment minted_payment
  handle_merchant_payment fresh body orgs payments =
      elim (find (has_org_wallet body.wallet_address) orgs) [
        | none ↦ ((payments, none), err (not_found "Organization not found"))
        | some org ↦ elim (receive_payment fresh org (merchant_items body) payments) [
          | err e ↦ ((payments, none), err e)
          | ok received ↦
              elim (or_throw (find (has_org_wallet root) orgs) type_error >>= λ o. key o.wallet) [
                | err e ↦ ((received.1, none), err e)
                | ok pk ↦ (minted_payment pk org body received.0 received.1, ok tt)
              ]
        ]
      ]
