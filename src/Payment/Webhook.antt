-- ===== src/Payment/Webhook.antt =====
-- `handleCandypayPayment` (src/payment/payment.service.ts): the events of the payment service, each of
-- which is a request of its own. Whether the signature of an event is valid is the library's answer.
pub mod Events
use impact_wallet_server.Base.{
  ℕ, Bool, true, false, not, ◌||◌, Option, none, some, List, [], ◌∷◌, ◌++◌, ◌==◌, is_nil,
  if◌then◌else◌, find, same_option, update_first,
}
use impact_wallet_server.Base.Http.{
  Error, Result, ok, err, ◌>>=◌, or_throw, bad_request, type_error,
}

-- `PaymentType`
pub data PaymentType : Type 0 where
  regular investment assets_sell : PaymentType

-- What the server keeps of a body, besides the order's id and the kind of the event.
pub record CandyPayEvent : Type 0 where
  pub order_id : ℕ
  pub is_successful : Bool
  pub payment_amount : ℕ
  pub custom_data : Option ℕ

pub record CpPayment : Type 0 where
  pub id : ℕ
  pub type : PaymentType
  pub org : Option ℕ
  pub amount : ℕ
  pub cp_order_id : Option ℕ
  pub cp_result : Option CandyPayEvent
  pub org_payload : Option ℕ

-- The call that handles a payment: `handleRegularPayment` with the body, in which the custom data is
-- the payment's, `handleInvestmentPayment`, or `handleAssetsSale`.
pub data Call : Type 0 where
  regular_payment : ℕ → CandyPayEvent → Call
  investment_payment : ℕ → CpPayment → Call
  assets_sale : CpPayment → Call

abbrev pub has_order : ℕ → CpPayment → Bool
has_order i p = same_option p.cp_order_id (some i)

abbrev pub with_result : CandyPayEvent → CpPayment → CpPayment
with_result e p = record p { cp_result = some e }

abbrev pub call_of : PaymentType → ℕ → CpPayment → CandyPayEvent → Call
call_of regular org p e = regular_payment org (record e { custom_data = p.org_payload })
call_of investment org p e = investment_payment org p
call_of assets_sell org p e = assets_sale p

-- The payment as it was before the event. The name of its organization is written to the log first.
unfoldable pub handle_before : CpPayment → CandyPayEvent → Result (Option Call)
handle_before p e =
    if not (is_nil p.cp_result) || not e.is_successful
    then ok none
    else (or_throw p.org type_error >>= λ org. ok (some (call_of p.type org p e)))

-- `findOneAndUpdate` answers the document as it was before the update.
unfoldable pub handle_candypay_payment :
    Bool → CandyPayEvent → List CpPayment → List CpPayment × Result (Option Call)
unfolding handle_before
handle_candypay_payment false e ps = (ps, err (bad_request "Invalid webhook signature"))
handle_candypay_payment true e ps = elim (find (has_order e.order_id) ps) [
  | none ↦ (ps, err type_error)
  | some p ↦ (update_first (has_order e.order_id) (with_result e) ps, handle_before p e)
]

-- The call that a request for an order comes to, if any.
abbrev pub called : ℕ → Result (Option Call) → List (ℕ × Call)
called i (err e) = []
called i (ok none) = []
called i (ok (some c)) = (i, c) ∷ []

-- The requests with their signatures, one after the other, and the calls they come to.
unfoldable pub handle_all : List (Bool × CandyPayEvent) → List CpPayment → List (ℕ × Call)
unfolding handle_candypay_payment
handle_all [] ps = []
handle_all ((valid, e) ∷ es) ps =
    let (ps', r) = handle_candypay_payment valid e ps in called e.order_id r ++ handle_all es ps'
